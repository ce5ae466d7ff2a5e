-- ===== src/Dll/Query.antt =====
-- `list_max` and `list_min` of lib/kernel/list.c.
use algorithms_prepare.Prelude.{
  ℕ, zero, suc, ◌<◌, ◌≡◌, refl, ap, sym, ◌∙◌, subst, fun_ext, inl, inr, Bool, true, false, List, [],
  ◌∷◌, ◌++◌, length, Option, some, ◌>>=◌, if◌then◌else◌, ◌==◌, arith, Bool-cases, ==-self,
}
use mathlib.Core.List.{append-nil}
use algorithms_prepare.Sched.{linked}
use algorithms_prepare.Links.{Links}
use algorithms_prepare.Pmm.Take.{append_assoc}
use algorithms_prepare.Dll.{Dll, list_begin, list_next, max_from, list_max, min_from, list_min}
use algorithms_prepare.Dll.Chained.{IsList, head_or, not_first, list_next-at}

-- The outcome of a search for an element of `xs` that is below no other.
pub record Greatest (less : ℕ → ℕ → Bool) (xs : List ℕ) (o : Option ℕ) : Type 0 where
  pub element : ℕ
  pub returned : o ≡ some element
  pub member : linked element xs ≡ true
  pub greatest : (z : ℕ) → linked z xs ≡ true → less element z ≡ false

module _ (less : ℕ → ℕ → Bool) where
  unfoldable top : ℕ → List ℕ → ℕ
  top m [] = m
  top m (x ∷ xs) = top (if less m x then x else m) xs

  top-linked : (m : ℕ) (xs : List ℕ) → linked (top m xs) (m ∷ xs) ≡ true
  unfolding top linked
  top-linked m [] = ground arith
  top-linked m (x ∷ xs) = elim (Bool-cases (less m x)) [
    | inl e ↦
        let pick : (if less m x then x else m) ≡ x = ap (λ b. if b then x else m) e in
        let rest = top-linked x xs in
        subst (λ k. linked (top k xs) (m ∷ x ∷ xs) ≡ true) (sym pick) (ground (arith, rest))
    | inr e ↦
        let pick : (if less m x then x else m) ≡ m = ap (λ b. if b then x else m) e in
        let rest = top-linked m xs in
        subst (λ k. linked (top k xs) (m ∷ x ∷ xs) ≡ true) (sym pick) (ground (arith, rest))
  ]

  max_from-top :
      (l : Links) (d : Dll) (us : List ℕ) (m : ℕ) (xs : List ℕ) (fuel : ℕ)
      → IsList l d (us ++ xs)
      → length xs < fuel
      → max_from less fuel d m (head_or d.tail xs) l ≡ some (top m xs)
  unfolding max_from top
  max_from-top l d us m xs zero r h = absurd (omega (arith, h))
  max_from-top l d us m [] (suc fuel) r h =
      let go : Option ℕ → Option ℕ =
        λ o. o >>= λ n. max_from less fuel d (if less m d.tail then d.tail else m) n l in
      let turn : Bool → Option ℕ =
        λ t. elim t [ true ↦ some m | false ↦ go (list_next d.tail l) ] in
      ap turn (==-self d.tail)
  max_from-top l d us m (x ∷ xs) (suc fuel) r h =
      let whole = subst (λ zs. IsList l d (us ++ x ∷ zs)) (sym (append-nil xs)) r in
      let k = subst (IsList l d) (sym (append_assoc us (x ∷ []) xs)) r in
      let m' = if less m x then x else m in
      let go : Option ℕ → Option ℕ = λ o. o >>= λ n. max_from less fuel d m' n l in
      let turn : Bool → Option ℕ = λ t. elim t [ true ↦ some m | false ↦ go (list_next x l) ] in
      ap turn (not_first l d us x xs [] whole)
      ∙ ap go (list_next-at l d us x xs r)
      ∙ max_from-top l d (us ++ x ∷ []) m' xs fuel k (omega (arith, h))

  list_max-top :
      (l : Links) (d : Dll) (x : ℕ) (xs : List ℕ) (fuel : ℕ)
      → IsList l d (x ∷ xs)
      → length xs < fuel
      → list_max less fuel d l ≡ some (top x xs)
  unfolding list_max
  list_max-top l d x xs fuel r h =
      let whole = subst (λ zs. IsList l d (x ∷ zs)) (sym (append-nil xs)) r in
      let go : Option ℕ → Option ℕ = λ o. o >>= λ e. max_from less fuel d x e l in
      ap (λ m. if m == d.tail then some m else (list_next m l >>= λ e. max_from less fuel d m e l))
        r.chain.0
      ∙ ap (λ t. if t then some x else go (list_next x l)) (not_first l d [] x xs [] whole)
      ∙ ap go (list_next-at l d [] x xs r)
      ∙ max_from-top l d (x ∷ []) x xs fuel r h

  module _ (asym : (x y : ℕ) → less x y ≡ true → less y x ≡ false)
      (trans : (x y z : ℕ) → less x y ≡ true → less y z ≡ true → less x z ≡ true) where
    above : (m x z : ℕ) → less m z ≡ false → less (if less m x then x else m) z ≡ false
    above m x z h = elim (Bool-cases (less m x)) [
      | inl e ↦ elim (Bool-cases (less x z)) [
        | inl k ↦ let t = trans m x z e k in cc
        | inr k ↦ rw e k
      ]
      | inr e ↦ rw e h
    ]

    irreflexive : (x : ℕ) → less x x ≡ false
    irreflexive x = elim (Bool-cases (less x x)) [ inl e ↦ asym x x e | inr e ↦ e ]

    picked : (m x : ℕ) → less (if less m x then x else m) x ≡ false
    picked m x = elim (Bool-cases (less m x)) [
      | inl e ↦ rw e (irreflexive x)
      | inr e ↦ rw (e, e) refl
    ]

    top_above : (m : ℕ) (xs : List ℕ) (z : ℕ) → less m z ≡ false → less (top m xs) z ≡ false
    unfolding top
    top_above m [] z h = h
    top_above m (x ∷ xs) z h = top_above (if less m x then x else m) xs z (above m x z h)

    top-greatest :
        (m : ℕ) (xs : List ℕ) (z : ℕ) → linked z (m ∷ xs) ≡ true → less (top m xs) z ≡ false
    unfolding top linked
    top-greatest m [] z h =
        let at : z ≡ m = ground (arith, h) in subst (λ z. less m z ≡ false) (sym at) (irreflexive m)
    top-greatest m (x ∷ xs) z h =
        let m' = if less m x then x else m in
        elim (Bool-cases (z == m)) [
          | inl e ↦
              let at : z ≡ m = ground (arith, e) in
              subst (λ z. less (top m' xs) z ≡ false) (sym at)
                (top_above m' xs m (above m x m (irreflexive m)))
          | inr e ↦ elim (Bool-cases (z == x)) [
            | inl k ↦
                let at : z ≡ x = ground (arith, k) in
                subst (λ z. less (top m' xs) z ≡ false) (sym at) (top_above m' xs x (picked m x))
            | inr k ↦ top-greatest m' xs z (ground (arith, h, e, k))
          ]
        ]

    -- `list_max` of a list that is not empty.
    pub list_max-Greatest :
        (l : Links) (d : Dll) (x : ℕ) (xs : List ℕ) (fuel : ℕ)
        → IsList l d (x ∷ xs)
        → length xs < fuel
        → Greatest less (x ∷ xs) (list_max less fuel d l)
    list_max-Greatest l d x xs fuel r h = record {
      element = top x xs;
      returned = list_max-top l d x xs fuel r h;
      member = top-linked x xs;
      greatest = λ z m. top-greatest x xs z m;
    }

module _ (less : ℕ → ℕ → Bool) where
  abbrev pub above_of : ℕ → ℕ → Bool
  above_of x y = less y x

  min_from-max_from :
      (d : Dll) (m e : ℕ) (l : Links) (fuel : ℕ)
      → min_from less fuel d m e l ≡ max_from above_of fuel d m e l
  unfolding min_from max_from
  min_from-max_from d m e l zero = refl
  min_from-max_from d m e l (suc fuel) =
      ap
        (λ f. elim (e == d.tail) [
          | true ↦ some m
          | false ↦ list_next e l >>= λ n. f (if less e m then e else m) n
        ])
        (fun_ext (λ m. fun_ext (λ e. min_from-max_from d m e l fuel)))

  -- `list_min` is `list_max` by the converse comparison.
  pub list_min-list_max :
      (fuel : ℕ) (d : Dll) (l : Links) → list_min less fuel d l ≡ list_max above_of fuel d l
  unfolding list_min list_max
  list_min-list_max fuel d l =
      let m = list_begin d l in
      ap (λ f. if m == d.tail then some m else (list_next m l >>= λ e. f e))
        (fun_ext (λ e. min_from-max_from d m e l fuel))

module _ (less : ℕ → ℕ → Bool) (asym : (x y : ℕ) → less x y ≡ true → less y x ≡ false)
    (trans : (x y z : ℕ) → less x y ≡ true → less y z ≡ true → less x z ≡ true) where
  -- On a list of list.c that is not empty, where `less` is transitive and never holds both ways and
  -- the fuel exceeds the number of elements behind the first, `list_max` returns an element that is
  -- below no other, and `list_min` one that no other is below.
  pub list_max-list_min :
      (l : Links) (d : Dll) (x : ℕ) (xs : List ℕ) (fuel : ℕ)
      → IsList l d (x ∷ xs)
      → length xs < fuel
      → Greatest less (x ∷ xs) (list_max less fuel d l)
        × Greatest (above_of less) (x ∷ xs) (list_min less fuel d l)
  list_max-list_min l d x xs fuel r h = (
    list_max-Greatest less asym trans l d x xs fuel r h,
    subst (Greatest (above_of less) (x ∷ xs)) (sym (list_min-list_max less fuel d l)) (
        list_max-Greatest (above_of less) (λ x y. asym y x) (λ x y z a b. trans z y x b a) l d x xs
          fuel r h),
  )
