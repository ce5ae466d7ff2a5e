-- ===== src/Dll/Unify.antt =====
-- `list_unique` of lib/kernel/list.c, without a list for the duplicates.
use algorithms_prepare.Prelude.{
  ℕ, zero, suc, ◌<◌, ◌≡◌, ap, sym, ◌∙◌, subst, inl, inr, Bool, true, false, not, ◌&&◌, List, [],
  ◌∷◌, ◌++◌, length, Option, none, some, ◌>>=◌, if◌then◌else◌, ◌==◌, arith, Bool-cases, ==-self,
}
use mathlib.Core.List.{append-nil}
use algorithms_prepare.Links.{Links}
use algorithms_prepare.Pmm.Take.{append_assoc}
use algorithms_prepare.Dll.{Dll, list_begin, list_remove, remove_links, unique_from, list_unique}
use algorithms_prepare.Dll.Chained.{IsList, list_next-at, not_first}
use algorithms_prepare.Dll.Remove.{remove_links-IsList, list_remove-at}
use algorithms_prepare.Dll.Ends.{list_empty-at}

module _ (less : ℕ → ℕ → Bool) where
  abbrev pub equal : ℕ → ℕ → Bool
  equal x y = not (less x y) && not (less y x)

  -- The elements behind `x` that differ from the one kept before them.
  unfoldable pub kept : ℕ → List ℕ → List ℕ
  kept x [] = []
  kept x (y ∷ ys) = if equal x y then kept x ys else y ∷ kept y ys

  -- The outcome of `list_unique`: the list holds `xs`.
  pub record Kept (d : Dll) (xs : List ℕ) (o : Option Links) : Type 0 where
    pub links : Links
    pub returned : o ≡ some links
    pub stored : IsList links d xs

  abbrev turn : ℕ → Dll → ℕ → Links → ℕ → Option Links
  turn fuel d x l n = elim (n == d.tail) [
    | true ↦ some l
    | false ↦ elim (equal x n) [
      | true ↦ list_remove n l >>= λ r. unique_from less fuel d none x r.1
      | false ↦ unique_from less fuel d none n l
    ]
  ]

  unique_from-Kept :
      (l : Links) (d : Dll) (us : List ℕ) (x : ℕ) (xs : List ℕ) (fuel : ℕ)
      → IsList l d (us ++ x ∷ xs)
      → length xs < fuel
      → Kept d (us ++ x ∷ kept x xs) (unique_from less fuel d none x l)
  unfolding unique_from kept
  unique_from-Kept l d us x xs zero r h = absurd (omega (arith, h))
  unique_from-Kept l d us x [] (suc fuel) r h = record {
    links = l;
    returned =
        ap (λ o. o >>= turn fuel d x l) (list_next-at l d us x [] r)
        ∙ ap
            (λ b. elim b [
              | true ↦ some l
              | false ↦ elim (equal x d.tail) [
                | true ↦ list_remove d.tail l >>= λ r. unique_from less fuel d none x r.1
                | false ↦ unique_from less fuel d none d.tail l
              ]
            ])
            (==-self d.tail);
    stored = r;
  }
  unique_from-Kept l d us x (y ∷ ys) (suc fuel) r h =
      let k = subst (IsList l d) (sym (append_assoc us (x ∷ []) (y ∷ ys))) r in
      let whole = subst (λ zs. IsList l d (us ++ x ∷ [] ++ y ∷ zs)) (sym (append-nil ys)) k in
      let branch : Bool → Option Links = λ b. elim b [
        | true ↦ list_remove y l >>= λ r. unique_from less fuel d none x r.1
        | false ↦ unique_from less fuel d none y l
      ] in
      let at : Bool → Option Links = λ b. elim b [ true ↦ some l | false ↦ branch (equal x y) ] in
      let begin =
        ap (λ o. o >>= turn fuel d x l) (list_next-at l d us x (y ∷ ys) r)
        ∙ ap at (not_first l d (us ++ x ∷ []) y ys [] whole) in
      let pick : Bool → List ℕ = λ b. if b then kept x ys else y ∷ kept y ys in
      elim (Bool-cases (equal x y)) [
        | inl e ↦
            let m = remove_links y l in
            let gone =
              subst (IsList m d) (append_assoc us (x ∷ []) ys)
                (remove_links-IsList l d (us ++ x ∷ []) y ys k) in
            let rest = unique_from-Kept m d us x ys fuel gone (omega (arith, h)) in
            record {
              links = rest.links;
              returned =
                  begin
                  ∙ ap branch e
                  ∙ ap (λ o. o >>= λ r. unique_from less fuel d none x r.1)
                      (list_remove-at l d (us ++ x ∷ []) y ys k)
                  ∙ rest.returned;
              stored =
                  subst (λ zs. IsList rest.links d (us ++ x ∷ zs)) (sym (ap pick e)) rest.stored;
            }
        | inr e ↦
            let rest = unique_from-Kept l d (us ++ x ∷ []) y ys fuel k (omega (arith, h)) in
            record {
              links = rest.links;
              returned = begin ∙ ap branch e ∙ rest.returned;
              stored =
                  subst (λ zs. IsList rest.links d (us ++ x ∷ zs)) (sym (ap pick e))
                    (subst (IsList rest.links d) (append_assoc us (x ∷ []) (y ∷ kept y ys))
                      rest.stored);
            }
      ]

  -- On a list of list.c that is not empty, with fuel beyond the number of elements behind the first,
  -- `list_unique` without a list for the duplicates ends: the list holds the first element and those
  -- that differ from the one kept before them.
  pub list_unique-Kept :
      (l : Links) (d : Dll) (x : ℕ) (xs : List ℕ) (fuel : ℕ)
      → IsList l d (x ∷ xs)
      → length xs < fuel
      → Kept d (x ∷ kept x xs) (list_unique less fuel d none l)
  unfolding list_unique
  list_unique-Kept l d x xs fuel r h =
      let m = unique_from-Kept l d [] x xs fuel r h in
      record {
        links = m.links;
        returned =
            ap (λ b. if b then some l else unique_from less fuel d none (list_begin d l) l)
              (list_empty-at l d [] x xs r)
            ∙ ap (λ e. unique_from less fuel d none e l) r.chain.0
            ∙ m.returned;
        stored = m.stored;
      }
