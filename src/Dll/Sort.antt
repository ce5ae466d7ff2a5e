-- ===== src/Dll/Sort.antt =====
-- `list_sort` of lib/kernel/list.c.
use algorithms_prepare.Prelude.{
  ℕ, zero, suc, ◌+◌, ◌<◌, ◌≡◌, ap, sym, ◌∙◌, subst, inl, inr, Bool, true, false, List, [], length,
  Option, none, some, ◌>>=◌, ◌>>◌, assert, ltb, arith, Bool-cases,
}
use mathlib.Core.List.{append-nil, Perm}
use mathlib.Core.List.Perm
use algorithms_prepare.Links.{Links}
use algorithms_prepare.Dll.{Dll, list_begin, list_end, is_sorted, pass_from, sort_passes, list_sort}
use algorithms_prepare.Dll.Chained.{IsList, head_or, Chain-next}
use algorithms_prepare.Dll.Ascending.{ascending, runs, runs-ascending, runs_le}
use algorithms_prepare.Dll.Runs.{is_sorted-ascending}
use algorithms_prepare.Dll.Pass.{pass_from-Passed}

-- The outcome of a sort of `xs`: the same elements in order, in the same list.
pub record Sorted (less : ℕ → ℕ → Bool) (d : Dll) (xs : List ℕ) (o : Option Links) : Type 0 where
  pub links : Links
  pub list : List ℕ
  pub returned : o ≡ some links
  pub stored : IsList links d list
  pub same : Perm xs list
  pub size : length list ≡ length xs
  pub order : ascending less none list ≡ true

module _ (less : ℕ → ℕ → Bool) (asym : (x y : ℕ) → less x y ≡ true → less y x ≡ false) where
  sort_passes-Sorted :
      (l : Links) (d : Dll) (xs : List ℕ) (fuel n : ℕ)
      → IsList l d xs
      → runs less xs < fuel
      → length xs < n
      → Sorted less d xs (sort_passes less fuel n d l)
  unfolding sort_passes
  sort_passes-Sorted l d xs zero n r h h' = absurd (omega (arith, h))
  sort_passes-Sorted l d xs (suc fuel) n r h h' =
      let q = pass_from-Passed less asym l d [] xs 0 n n r h' h' in
      let turn : ℕ × Links → Option Links =
        λ r. elim (ltb 1 r.0) [ true ↦ sort_passes less fuel n d r.1 | false ↦ some r.1 ] in
      let branch : Bool → Option Links =
        λ t. elim t [ true ↦ sort_passes less fuel n d q.links | false ↦ some q.links ] in
      let pass =
        ap (λ a. pass_from less n n d a 0 l >>= turn) (Chain-next l d.head xs d.tail r.chain)
        ∙ ap (λ o. o >>= turn) q.returned in
      elim (Bool-cases (ltb 1 (0 + q.count))) [
        | inl e ↦
            let more : runs less q.list < fuel = ground (arith, e, h, q.fewer, q.halved) in
            let rest =
              sort_passes-Sorted q.links d q.list fuel n q.stored more
                (omega (arith, h', q.size)) in
            record {
              links = rest.links;
              list = rest.list;
              returned = pass ∙ ap branch e ∙ rest.returned;
              stored = rest.stored;
              same = Perm.trans q.same rest.same;
              size = rest.size ∙ q.size;
              order = rest.order;
            }
        | inr e ↦ record {
          links = q.links;
          list = q.list;
          returned = pass ∙ ap branch e;
          stored = q.stored;
          same = q.same;
          size = q.size;
          order = runs-ascending less q.list (ground (arith, e, q.fewer));
        }
      ]

  -- On a list of list.c, where the comparison `less` never holds both ways and the fuel exceeds the
  -- number of elements, `list_sort` ends and fails no ASSERT: the links form the same list with the
  -- same elements in order, as often as before.
  pub list_sort-Sorted :
      (l : Links) (d : Dll) (xs : List ℕ) (fuel : ℕ)
      → IsList l d xs
      → length xs < fuel
      → Sorted less d xs (list_sort less fuel d l)
  unfolding list_sort
  list_sort-Sorted l d xs fuel r h =
      let s = sort_passes-Sorted l d xs fuel fuel r (omega (arith, h, runs_le less xs)) h in
      let whole = subst (IsList s.links d) (sym (append-nil s.list)) s.stored in
      let begin = Chain-next s.links d.head s.list d.tail s.stored.chain in
      let check : Links → Option Links =
        λ l'. is_sorted less fuel (list_begin d l') (list_end d) l' >>= λ s. assert s >> some l' in
      let after : Option Bool → Option Links = λ o. o >>= λ t. assert t >> some s.links in
      let sorted =
        is_sorted-ascending less s.links d [] s.list [] fuel whole (omega (arith, h, s.size)) in
      let first = begin ∙ ap (head_or d.tail) (sym (append-nil s.list)) in
      record {
        links = s.links;
        list = s.list;
        returned =
            ap (λ o. o >>= check) s.returned
            ∙ ap (λ a. after (is_sorted less fuel a d.tail s.links)) first
            ∙ ap after (sorted ∙ ap some s.order);
        stored = s.stored;
        same = s.same;
        size = s.size;
        order = s.order;
      }
