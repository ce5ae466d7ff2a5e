-- ===== src/Dll/Runs.antt =====
-- The loops of lib/kernel/list.c that test and find the runs of a list.
use algorithms_prepare.Prelude.{
  ℕ, zero, suc, ◌<◌, ◌≡◌, refl, ap, sym, ◌∙◌, subst, inl, inr, Bool, true, false, not, List, [],
  ◌∷◌, ◌++◌, length, Option, none, some, ◌>>=◌, ◌>>◌, assert, if◌then◌else◌, ◌==◌, arith,
  Bool-cases, ==-self, ==-self,
}
use algorithms_prepare.Links.{Links}
use algorithms_prepare.Pmm.Take.{append_assoc}
use mathlib.Core.List.{append-nil}
use algorithms_prepare.Dll.{
  Dll, list_next, list_prev, is_sorted_from, is_sorted, run_from, find_end_of_run,
}
use algorithms_prepare.Dll.Chained.{
  IsList, head_or, list_next-at, list_prev-at, not_first, first_present,
}
use algorithms_prepare.Dll.Ascending.{ascending, run_after}

module _ (less : ℕ → ℕ → Bool) where
  -- A turn of the two loops: the entry behind `a`, and whether it is below the one before it.
  abbrev compare_next {ℓ} :
      {A : Type ℓ} → Links → ℕ → ℕ → (ℕ → Option A) → (ℕ → Option A) → (ℕ → Option A) → Option A
  compare_next l a b end down go = list_next a l >>= λ n. elim (n == b) [
    | true ↦ end n
    | false ↦ list_prev n l >>= λ p. elim (less n p) [ true ↦ down n | false ↦ go n ]
  ]

  compare_next-end {ℓ} :
      {A : Type ℓ} (l : Links) (d : Dll) (us : List ℕ) (a : ℕ) (ws : List ℕ)
      (end down go : ℕ → Option A)
      → IsList l d (us ++ a ∷ ws)
      → compare_next l a (head_or d.tail ws) end down go ≡ end (head_or d.tail ws)
  compare_next-end {A} l d us a ws end down go r =
      let b = head_or d.tail ws in
      let turn : Bool → Option A = λ t. elim t [
        | true ↦ end b
        | false ↦ list_prev b l >>= λ p. elim (less b p) [ true ↦ down b | false ↦ go b ]
      ] in
      ap
        (λ o. o >>= λ n. elim (n == b) [
          | true ↦ end n
          | false ↦ list_prev n l >>= λ p. elim (less n p) [ true ↦ down n | false ↦ go n ]
        ])
        (list_next-at l d us a ws r)
      ∙ ap turn (==-self b)

  compare_next-step {ℓ} :
      {A : Type ℓ} (l : Links) (d : Dll) (us : List ℕ) (a x : ℕ) (xs ws : List ℕ)
      (end down go : ℕ → Option A)
      → IsList l d (us ++ a ∷ x ∷ (xs ++ ws))
      → compare_next l a (head_or d.tail ws) end down go ≡ (if less x a then down x else go x)
  compare_next-step {A} l d us a x xs ws end down go r =
      let b = head_or d.tail ws in
      let k = subst (IsList l d) (sym (append_assoc us (a ∷ []) (x ∷ (xs ++ ws)))) r in
      let branch : ℕ → Option A = λ p. elim (less x p) [ true ↦ down x | false ↦ go x ] in
      let turn : Bool → Option A =
        λ t. elim t [ true ↦ end x | false ↦ list_prev x l >>= branch ] in
      ap
        (λ o. o >>= λ n. elim (n == b) [
          | true ↦ end n
          | false ↦ list_prev n l >>= λ p. elim (less n p) [ true ↦ down n | false ↦ go n ]
        ])
        (list_next-at l d us a (x ∷ (xs ++ ws)) r)
      ∙ ap turn (not_first l d (us ++ a ∷ []) x xs ws k)
      ∙ ap (λ o. o >>= branch) (list_prev-at l d us a (x ∷ (xs ++ ws)) r)
      ∙ elim (Bool-cases (less x a)) [ inl e ↦ rw e refl | inr e ↦ rw e refl ]

  is_sorted_from-ascending :
      (l : Links) (d : Dll) (us : List ℕ) (a : ℕ) (xs ws : List ℕ) (fuel : ℕ)
      → IsList l d (us ++ a ∷ (xs ++ ws))
      → length xs < fuel
      → is_sorted_from less fuel a (head_or d.tail ws) l ≡ some (ascending less (some a) xs)
  unfolding is_sorted_from ascending
  is_sorted_from-ascending l d us a xs ws zero r h = absurd (omega (arith, h))
  is_sorted_from-ascending l d us a [] ws (suc fuel) r h =
      compare_next-end l d us a ws (λ n. some true) (λ n. some false)
        (λ n. is_sorted_from less fuel n (head_or d.tail ws) l) r
  is_sorted_from-ascending l d us a (x ∷ xs) ws (suc fuel) r h =
      let k = subst (IsList l d) (sym (append_assoc us (a ∷ []) (x ∷ (xs ++ ws)))) r in
      let rest = is_sorted_from-ascending l d (us ++ a ∷ []) x xs ws fuel k (omega (arith, h)) in
      compare_next-step l d us a x xs ws (λ n. some true) (λ n. some false)
        (λ n. is_sorted_from less fuel n (head_or d.tail ws) l) r
      ∙ elim (Bool-cases (less x a)) [ inl e ↦ rw e refl | inr e ↦ rw e rest ]

  -- `is_sorted` of the part `xs` of a list tells whether `xs` ascends.
  pub is_sorted-ascending :
      (l : Links) (d : Dll) (us xs ws : List ℕ) (fuel : ℕ)
      → IsList l d (us ++ (xs ++ ws))
      → length xs < fuel
      → is_sorted less fuel (head_or d.tail (xs ++ ws)) (head_or d.tail ws) l
        ≡ some (ascending less none xs)
  unfolding is_sorted ascending
  is_sorted-ascending l d us [] ws fuel r h = rw (==-self (head_or d.tail ws)) refl
  is_sorted-ascending l d us (x ∷ xs) ws fuel r h =
      rw (not_first l d us x xs ws r)
        (is_sorted_from-ascending l d us x xs ws fuel r (omega (arith, h)))

  run_from-run_after :
      (l : Links) (d : Dll) (us : List ℕ) (a : ℕ) (xs : List ℕ) (fuel : ℕ)
      → IsList l d (us ++ a ∷ xs)
      → length xs < fuel
      → run_from less fuel a d.tail l ≡ some (head_or d.tail (run_after less a xs))
  unfolding run_from run_after
  run_from-run_after l d us a xs zero r h = absurd (omega (arith, h))
  run_from-run_after l d us a [] (suc fuel) r h =
      compare_next-end l d us a [] some some (λ n. run_from less fuel n d.tail l) r
  run_from-run_after l d us a (x ∷ xs) (suc fuel) r h =
      let k = subst (IsList l d) (sym (append_assoc us (a ∷ []) (x ∷ xs))) r in
      let whole = subst (λ ys. IsList l d (us ++ a ∷ x ∷ ys)) (sym (append-nil xs)) r in
      let rest = run_from-run_after l d (us ++ a ∷ []) x xs fuel k (omega (arith, h)) in
      compare_next-step l d us a x xs [] some some (λ n. run_from less fuel n d.tail l) whole
      ∙ elim (Bool-cases (less x a)) [ inl e ↦ rw e refl | inr e ↦ rw e rest ]

  -- `find_end_of_run` finds the first element that is below the one before it.
  pub find_end_of_run-run_after :
      (l : Links) (d : Dll) (us : List ℕ) (a : ℕ) (xs : List ℕ) (fuel : ℕ)
      → IsList l d (us ++ a ∷ xs)
      → length xs < fuel
      → find_end_of_run less fuel a d.tail l ≡ some (head_or d.tail (run_after less a xs))
  unfolding find_end_of_run
  find_end_of_run-run_after l d us a xs fuel r h =
      let run = run_from less fuel a d.tail l in
      let whole = subst (λ ys. IsList l d (us ++ a ∷ ys)) (sym (append-nil xs)) r in
      let some_a : not (a == 0) ≡ true = ground (arith, first_present l d us (a ∷ xs) r) in
      let some_tail : not (d.tail == 0) ≡ true = ground (arith, r.tail_present) in
      let apart : not (a == d.tail) ≡ true = ground (arith, not_first l d us a xs [] whole) in
      ap (λ b. assert b >> (assert (not (d.tail == 0)) >> (assert (not (a == d.tail)) >> run)))
        some_a
      ∙ ap (λ b. assert b >> (assert (not (a == d.tail)) >> run)) some_tail
      ∙ ap (λ b. assert b >> run) apart
      ∙ run_from-run_after l d us a xs fuel r h
