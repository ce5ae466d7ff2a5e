-- ===== src/Dll/Ordered.antt =====
-- `list_insert_ordered` of lib/kernel/list.c.
use algorithms_prepare.Prelude.{
  ℕ, zero, suc, ◌<◌, ◌≡◌, refl, ap, sym, ◌∙◌, subst, inl, inr, Bool, true, false, not, List, [],
  ◌∷◌, ◌++◌, length, length-append, Option, none, some, ◌>>=◌, ◌>>◌, assert, if◌then◌else◌, ◌==◌,
  arith, Bool-cases, ==-self,
}
use mathlib.Core.List.{append-nil, Perm, perm_middle}
use mathlib.Core.List.Perm
use algorithms_prepare.Sched.{linked}
use algorithms_prepare.Links.{Links}
use algorithms_prepare.Pmm.Take.{append_assoc}
use algorithms_prepare.Dll.{
  Dll, list_begin, list_next, list_insert, insert_links, place_from, list_insert_ordered,
}
use algorithms_prepare.Dll.Chained.{IsList, head_or, not_first, list_next-at, Chain-next}
use algorithms_prepare.Dll.Insert.{insert_links-IsList, list_insert-at}
use algorithms_prepare.Dll.Ascending.{ascending}
use algorithms_prepare.Dll.Sort.{Sorted}

module _ (less : ℕ → ℕ → Bool) where
  -- The elements before the first one above `x`, and the others.
  unfoldable lower : ℕ → List ℕ → List ℕ
  lower x [] = []
  lower x (y ∷ ys) = if less x y then [] else y ∷ lower x ys

  unfoldable upper : ℕ → List ℕ → List ℕ
  upper x [] = []
  upper x (y ∷ ys) = if less x y then y ∷ ys else upper x ys

  lower-upper : (x : ℕ) (ys : List ℕ) → lower x ys ++ upper x ys ≡ ys
  unfolding lower upper
  lower-upper x [] = refl
  lower-upper x (y ∷ ys) = elim (Bool-cases (less x y)) [
    | inl e ↦ rw e refl
    | inr e ↦ rw e (ap (λ zs. y ∷ zs) (lower-upper x ys))
  ]

  place_from-upper :
      (l : Links) (d : Dll) (us : List ℕ) (x : ℕ) (ys : List ℕ) (fuel : ℕ)
      → IsList l d (us ++ ys)
      → length ys < fuel
      → place_from less fuel d x (head_or d.tail ys) l ≡ some (head_or d.tail (upper x ys))
  unfolding place_from upper
  place_from-upper l d us x ys zero r h = absurd (omega (arith, h))
  place_from-upper l d us x [] (suc fuel) r h =
      let turn : Bool → Option ℕ = λ t. elim t [
        | true ↦ some d.tail
        | false ↦ elim (less x d.tail) [
          | true ↦ some d.tail
          | false ↦ list_next d.tail l >>= λ n. place_from less fuel d x n l
        ]
      ] in
      ap turn (==-self d.tail)
  place_from-upper l d us x (y ∷ ys) (suc fuel) r h =
      let whole = subst (λ zs. IsList l d (us ++ y ∷ zs)) (sym (append-nil ys)) r in
      let k = subst (IsList l d) (sym (append_assoc us (y ∷ []) ys)) r in
      let rest = place_from-upper l d (us ++ y ∷ []) x ys fuel k (omega (arith, h)) in
      let go : Option ℕ → Option ℕ = λ o. o >>= λ n. place_from less fuel d x n l in
      let branch : Bool → Option ℕ = λ t. elim t [ true ↦ some y | false ↦ go (list_next y l) ] in
      let turn : Bool → Option ℕ = λ t. elim t [ true ↦ some y | false ↦ branch (less x y) ] in
      ap turn (not_first l d us y ys [] whole) ∙ elim (Bool-cases (less x y)) [
        | inl e ↦ ap branch e ∙ rw e refl
        | inr e ↦ ap branch e ∙ ap go (list_next-at l d us y ys r) ∙ rw e rest
      ]

  placed-ascending :
      (asym : (x y : ℕ) → less x y ≡ true → less y x ≡ false) (p x : ℕ) (ys : List ℕ)
      → less x p ≡ false
      → ascending less (some p) ys ≡ true
      → ascending less (some p) (lower x ys ++ x ∷ upper x ys) ≡ true
  unfolding lower upper ascending
  placed-ascending asym p x [] h a = ground (arith, h)
  placed-ascending asym p x (y ∷ ys) h a = elim (Bool-cases (less x y)) [
    | inl e ↦ rw e (ground (arith, h, a, asym x y e))
    | inr e ↦ rw e (ground (arith, a, placed-ascending asym y x ys e (ground (arith, a))))
  ]

  order-placed :
      (asym : (x y : ℕ) → less x y ≡ true → less y x ≡ false) (x : ℕ) (ys : List ℕ)
      → ascending less none ys ≡ true
      → ascending less none (lower x ys ++ x ∷ upper x ys) ≡ true
  unfolding lower upper ascending
  order-placed asym x [] a = refl
  order-placed asym x (y ∷ ys) a = elim (Bool-cases (less x y)) [
    | inl e ↦ rw e (ground (arith, a, asym x y e))
    | inr e ↦ rw e (placed-ascending asym y x ys e a)
  ]

  -- On an ascending list of list.c, where `less` never holds both ways and the fuel exceeds the
  -- number of elements, `list_insert_ordered` of an element that is not null and no entry of the
  -- list fails no ASSERT: the list holds it and the others, in order.
  pub list_insert_ordered-Sorted :
      (asym : (x y : ℕ) → less x y ≡ true → less y x ≡ false) (l : Links) (d : Dll) (x : ℕ)
      (xs : List ℕ) (fuel : ℕ)
      → IsList l d xs
      → ascending less none xs ≡ true
      → linked x (0 ∷ d.tail ∷ d.head ∷ xs) ≡ false
      → length xs < fuel
      → Sorted less d (x ∷ xs) (list_insert_ordered less fuel d x l)
  unfolding list_insert_ordered linked
  list_insert_ordered-Sorted asym l d x xs fuel r a f h =
      let lo = lower x xs in
      let up = upper x xs in
      let cut = lower-upper x xs in
      let k = subst (IsList l d) (sym cut) r in
      let out = subst (λ ys. linked x (0 ∷ d.tail ∷ d.head ∷ ys) ≡ false) (sym cut) f in
      let present : not (x == 0) ≡ true = ground (arith, f) in
      let go : ℕ → Option Links = λ e. list_insert e x l in
      let find : ℕ → Option Links = λ b. place_from less fuel d x b l >>= go in
      record {
        links = insert_links (head_or d.tail up) x l;
        list = lo ++ x ∷ up;
        returned =
            ap (λ b. assert b >> find (list_begin d l)) present
            ∙ ap find (Chain-next l d.head xs d.tail r.chain)
            ∙ ap (λ o. o >>= go) (place_from-upper l d [] x xs fuel r h)
            ∙ list_insert-at l d lo x up k out;
        stored = insert_links-IsList l d lo x up k out;
        same = Perm.symm (subst (λ ys. Perm (lo ++ x ∷ up) (x ∷ ys)) cut (perm_middle lo up));
        size = omega (arith, length-append lo (x ∷ up), length-append lo up, ap length cut);
        order = order-placed asym x xs a;
      }
