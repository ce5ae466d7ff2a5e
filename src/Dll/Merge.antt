-- ===== src/Dll/Merge.antt =====
-- `inplace_merge` of lib/kernel/list.c: two ascending parts of a list become one.
use algorithms_prepare.Prelude.{
  ℕ, zero, suc, ◌+◌, ◌<◌, ◌≡◌, ap, sym, ◌∙◌, subst, inl, inr, Bool, true, false, not, ◌&&◌, List,
  [], ◌∷◌, ◌++◌, length, Option, none, some, ◌>>=◌, ◌>>◌, assert, ◌==◌, arith, Bool-cases,
}
use mathlib.Core.List.{append-nil, Perm, perm_middle}
use mathlib.Core.List.Perm
use algorithms_prepare.Links.{Links}
use algorithms_prepare.Pmm.Take.{append_assoc}
use algorithms_prepare.Dll.{
  Dll, list_next, list_prev, list_splice, splice_links, is_sorted, merge_from, inplace_merge,
}
use algorithms_prepare.Dll.Chained.{
  IsList, head_or, list_next-at, list_prev-at, not_first, first_present,
}
use algorithms_prepare.Dll.Splice.{list_splice-at, splice_links-IsList}
use algorithms_prepare.Dll.Ascending.{ascending, ascending-tail, ascending-cons}
use algorithms_prepare.Dll.Runs.{is_sorted-ascending}

module _ (less : ℕ → ℕ → Bool) where
  -- The outcome of a merge of `xs` and `ys`, in a list with `us` before and `ws` behind them: the
  -- elements in order, from `p` on.
  pub record Merged (d : Dll) (us xs ys ws : List ℕ) (p : Option ℕ) (o : Option Links)
      : Type 0 where
    pub links : Links
    pub list : List ℕ
    pub returned : o ≡ some links
    pub stored : IsList links d (us ++ (list ++ ws))
    pub same : Perm (xs ++ ys) list
    pub size : length list ≡ length xs + length ys
    pub order : ascending less p list ≡ true

  abbrev step : ℕ → ℕ → ℕ → ℕ → Links → Option Links
  step fuel a b e l = elim (less b a) [
    | false ↦ list_next a l >>= λ n. merge_from less fuel n b e l
    | true ↦ list_next b l >>= λ n.
        list_prev n l >>= λ p. list_splice a p n l >>= λ l'. merge_from less fuel a n e l'
  ]

  merge_from-stop :
      (fuel a b e : ℕ) (l : Links)
      → (not (a == b) && not (b == e)) ≡ false
      → merge_from less (suc fuel) a b e l ≡ some l
  unfolding merge_from
  merge_from-stop fuel a b e l h =
      let turn : Bool → Option Links = λ t. elim t [ false ↦ some l | true ↦ step fuel a b e l ] in
      ap turn h

  merge_from-turn :
      (fuel a b e : ℕ) (l : Links)
      → (not (a == b) && not (b == e)) ≡ true
      → merge_from less (suc fuel) a b e l ≡ step fuel a b e l
  unfolding merge_from
  merge_from-turn fuel a b e l h =
      let turn : Bool → Option Links = λ t. elim t [ false ↦ some l | true ↦ step fuel a b e l ] in
      ap turn h

  -- The first element of the second part goes before those of the first one.
  step-take :
      (fuel : ℕ) (l : Links) (d : Dll) (us : List ℕ) (x : ℕ) (xs : List ℕ) (y : ℕ) (ws : List ℕ)
      (e : ℕ)
      → IsList l d (us ++ x ∷ (xs ++ y ∷ ws))
      → less y x ≡ true
      → step fuel x y e l ≡ merge_from less fuel x (head_or d.tail ws) e (splice_links x y y l)
  step-take fuel l d us x xs y ws e r h =
      let k = subst (IsList l d) (sym (append_assoc us (x ∷ xs) (y ∷ ws))) r in
      let n = head_or d.tail ws in
      let go : Links → Option Links = λ l'. merge_from less fuel x n e l' in
      let cut : ℕ → Option Links = λ p. list_splice x p n l >>= go in
      ap
        (λ t. elim t [
          | false ↦ list_next x l >>= λ n. merge_from less fuel n y e l
          | true ↦ list_next y l >>= λ n.
              list_prev n l >>= λ p. list_splice x p n l >>= λ l'. merge_from less fuel x n e l'
        ])
        h
      ∙ ap
          (λ o. o >>= λ n.
            list_prev n l >>= λ p. list_splice x p n l >>= λ l'. merge_from less fuel x n e l')
          (list_next-at l d (us ++ x ∷ xs) y ws k)
      ∙ ap (λ o. o >>= cut) (list_prev-at l d (us ++ x ∷ xs) y ws k)
      ∙ ap (λ o. o >>= go) (list_splice-at l d us x xs y ws r)

  step-keep :
      (fuel : ℕ) (l : Links) (d : Dll) (us : List ℕ) (x : ℕ) (xs : List ℕ) (y e : ℕ)
      → IsList l d (us ++ x ∷ xs)
      → less y x ≡ false
      → step fuel x y e l ≡ merge_from less fuel (head_or d.tail xs) y e l
  step-keep fuel l d us x xs y e r h =
      ap
        (λ t. elim t [
          | false ↦ list_next x l >>= λ n. merge_from less fuel n y e l
          | true ↦ list_next y l >>= λ n.
              list_prev n l >>= λ p. list_splice x p n l >>= λ l'. merge_from less fuel x n e l'
        ])
        h
      ∙ ap (λ o. o >>= λ n. merge_from less fuel n y e l) (list_next-at l d us x xs r)

module _ (less : ℕ → ℕ → Bool) (asym : (x y : ℕ) → less x y ≡ true → less y x ≡ false) where
  pub merge_from-Merged :
      (l : Links) (d : Dll) (us xs ys ws : List ℕ) (p : Option ℕ) (fuel : ℕ)
      → IsList l d (us ++ (xs ++ (ys ++ ws)))
      → length xs + length ys < fuel
      → ascending less p xs ≡ true
      → ascending less p ys ≡ true
      → Merged less d us xs ys ws p (
          merge_from less fuel
            (head_or d.tail (xs ++ (ys ++ ws)))
            (head_or d.tail (ys ++ ws))
            (head_or d.tail ws)
            l)
  unfolding ascending
  merge_from-Merged l d us xs ys ws p zero r h ax ay = absurd (omega (arith, h))
  merge_from-Merged l d us [] ys ws p (suc fuel) r h ax ay = record {
    links = l;
    list = ys;
    returned =
        merge_from-stop less fuel (head_or d.tail (ys ++ ws)) (head_or d.tail (ys ++ ws))
          (head_or d.tail ws) l (ground arith);
    stored = r;
    same = Perm.rfl;
    size = ground arith;
    order = ay;
  }
  merge_from-Merged l d us (x ∷ xs) [] ws p (suc fuel) r h ax ay = record {
    links = l;
    list = x ∷ xs;
    returned = merge_from-stop less fuel x (head_or d.tail ws) (head_or d.tail ws) l (ground arith);
    stored = r;
    same = rw (append-nil (x ∷ xs)) Perm.rfl;
    size = ground arith;
    order = ax;
  }
  merge_from-Merged l d us (x ∷ xs) (y ∷ ys) ws p (suc fuel) r h ax ay =
      let k = subst (IsList l d) (sym (append_assoc us (x ∷ xs) (y ∷ (ys ++ ws)))) r in
      let apart = not_first l d us x xs (y ∷ (ys ++ ws)) r in
      let apart' = not_first l d (us ++ x ∷ xs) y ys ws k in
      let turn =
        merge_from-turn less fuel x y (head_or d.tail ws) l (ground (arith, apart, apart')) in
      elim (Bool-cases (less y x)) [
        | inl e ↦
            let l' = splice_links x y y l in
            let s = splice_links-IsList l d us x xs y (ys ++ ws) r in
            let s' =
              subst (IsList l' d) (sym (append_assoc us (y ∷ []) (x ∷ (xs ++ (ys ++ ws))))) s in
            let m =
              merge_from-Merged l' d (us ++ y ∷ []) (x ∷ xs) ys ws (some y) fuel s'
                (omega (arith, h)) (ground (arith, asym y x e, ascending-tail less p x xs ax))
                (ascending-tail less p y ys ay) in
            record {
              links = m.links;
              list = y ∷ m.list;
              returned =
                  turn
                  ∙ step-take less fuel l d us x xs y (ys ++ ws) (head_or d.tail ws) r e
                  ∙ m.returned;
              stored = subst (IsList m.links d) (append_assoc us (y ∷ []) (m.list ++ ws)) m.stored;
              same = Perm.trans (perm_middle (x ∷ xs) ys) (Perm.cons y m.same);
              size = ground (arith, m.size);
              order = ascending-cons less p y ys m.list ay m.order;
            }
        | inr e ↦
            let k' = subst (IsList l d) (sym (append_assoc us (x ∷ []) (xs ++ (y ∷ ys ++ ws)))) r in
            let m =
              merge_from-Merged l d (us ++ x ∷ []) xs (y ∷ ys) ws (some x) fuel k'
                (omega (arith, h)) (ascending-tail less p x xs ax)
                (ground (arith, e, ascending-tail less p y ys ay)) in
            record {
              links = m.links;
              list = x ∷ m.list;
              returned =
                  turn
                  ∙ step-keep less fuel l d us x (xs ++ (y ∷ (ys ++ ws))) y (head_or d.tail ws) r e
                  ∙ m.returned;
              stored = subst (IsList m.links d) (append_assoc us (x ∷ []) (m.list ++ ws)) m.stored;
              same = Perm.cons x m.same;
              size = ground (arith, m.size);
              order = ascending-cons less p x xs m.list ax m.order;
            }
      ]

  -- On a list of list.c with two ascending parts next to each other, where `less` never holds both
  -- ways and the fuel exceeds their length, `inplace_merge` ends and fails no ASSERT: between the
  -- elements before and behind them stand those of both parts in order.
  pub inplace_merge-Merged :
      (l : Links) (d : Dll) (us xs ys ws : List ℕ) (fuel : ℕ)
      → IsList l d (us ++ (xs ++ (ys ++ ws)))
      → length xs + length ys < fuel
      → ascending less none xs ≡ true
      → ascending less none ys ≡ true
      → Merged less d us xs ys ws none (
          inplace_merge less fuel
            (head_or d.tail (xs ++ (ys ++ ws)))
            (head_or d.tail (ys ++ ws))
            (head_or d.tail ws)
            l)
  unfolding inplace_merge
  inplace_merge-Merged l d us xs ys ws fuel r h ax ay =
      let a = head_or d.tail (xs ++ (ys ++ ws)) in
      let b = head_or d.tail (ys ++ ws) in
      let e = head_or d.tail ws in
      let k = subst (IsList l d) (sym (append_assoc us xs (ys ++ ws))) r in
      let k' = subst (IsList l d) (sym (append_assoc (us ++ xs) ys ws)) k in
      let some_a : not (a == 0) ≡ true =
        ground (arith, first_present l d us (xs ++ (ys ++ ws)) r) in
      let some_b : not (b == 0) ≡ true =
        ground (arith, first_present l d (us ++ xs) (ys ++ ws) k) in
      let some_e : not (e == 0) ≡ true = ground (arith, first_present l d (us ++ xs ++ ys) ws k') in
      let first = is_sorted-ascending less l d us xs (ys ++ ws) fuel r (omega (arith, h)) in
      let second = is_sorted-ascending less l d (us ++ xs) ys ws fuel k (omega (arith, h)) in
      let m = merge_from-Merged l d us xs ys ws none fuel r h ax ay in
      let go = merge_from less fuel a b e l in
      let right : Option Bool → Option Links = λ o. o >>= λ t. assert t >> go in
      let left : Option Bool → Option Links =
        λ o. o >>= λ t. assert t >> right (is_sorted less fuel b e l) in
      let body = left (is_sorted less fuel a b l) in
      record {
        links = m.links;
        list = m.list;
        returned =
            ap (λ t. assert t >> (assert (not (b == 0)) >> (assert (not (e == 0)) >> body))) some_a
            ∙ ap (λ t. assert t >> (assert (not (e == 0)) >> body)) some_b
            ∙ ap (λ t. assert t >> body) some_e
            ∙ ap left (first ∙ ap some ax)
            ∙ ap right (second ∙ ap some ay)
            ∙ m.returned;
        stored = m.stored;
        same = m.same;
        size = m.size;
        order = m.order;
      }
