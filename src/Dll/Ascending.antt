-- ===== src/Dll/Ascending.antt =====
-- Ascending lists by the comparison of a client of lib/kernel/list.c, and the runs of a list.
use algorithms_prepare.Prelude.{
  ℕ, suc, ◌+◌, ◌≤◌, ◌≡◌, refl, ap, inl, inr, Bool, true, false, not, ◌&&◌, List, [], ◌∷◌, ◌++◌,
  length, Option, none, some, if◌then◌else◌, arith, Bool-cases,
}

module _ (less : ℕ → ℕ → Bool) where
  -- The elements are in order, the first one not below `p`, where there is one.
  unfoldable pub ascending : Option ℕ → List ℕ → Bool
  ascending o [] = true
  ascending none (x ∷ xs) = ascending (some x) xs
  ascending (some p) (x ∷ xs) = not (less x p) && ascending (some x) xs

  -- The number of descents behind `p`, and the number of maximal ascending runs.
  unfoldable pub descents : ℕ → List ℕ → ℕ
  descents p [] = 0
  descents p (x ∷ xs) = (if less x p then 1 else 0) + descents x xs

  unfoldable pub runs : List ℕ → ℕ
  runs [] = 0
  runs (x ∷ xs) = suc (descents x xs)

  pub runs_nil : runs [] ≡ 0
  unfolding runs
  runs_nil = refl

  -- The rest of the run behind `p`, and what follows it.
  unfoldable pub run_rest : ℕ → List ℕ → List ℕ
  run_rest p [] = []
  run_rest p (x ∷ xs) = if less x p then [] else x ∷ run_rest x xs

  unfoldable pub run_after : ℕ → List ℕ → List ℕ
  run_after p [] = []
  run_after p (x ∷ xs) = if less x p then x ∷ xs else run_after x xs

  pub run-append : (p : ℕ) (xs : List ℕ) → run_rest p xs ++ run_after p xs ≡ xs
  unfolding run_rest run_after
  run-append p [] = refl
  run-append p (x ∷ xs) = elim (Bool-cases (less x p)) [
    | inl e ↦ rw e refl
    | inr e ↦ rw e (ap (λ ys. x ∷ ys) (run-append x xs))
  ]

  pub run_rest-ascending : (p : ℕ) (xs : List ℕ) → ascending (some p) (run_rest p xs) ≡ true
  unfolding run_rest ascending
  run_rest-ascending p [] = refl
  run_rest-ascending p (x ∷ xs) = elim (Bool-cases (less x p)) [
    | inl e ↦ rw e refl
    | inr e ↦ rw (e, e) (run_rest-ascending x xs)
  ]

  pub runs-run_after : (p : ℕ) (xs : List ℕ) → runs (p ∷ xs) ≡ suc (runs (run_after p xs))
  unfolding run_after descents runs
  runs-run_after p [] = refl
  runs-run_after p (x ∷ xs) = elim (Bool-cases (less x p)) [
    | inl e ↦ ground (arith, e)
    | inr e ↦ rw e (ground (arith, e, runs-run_after x xs))
  ]

  descents-append :
      (p : ℕ) (xs ys : List ℕ) → ascending (some p) xs ≡ true → descents p (xs ++ ys) ≤ runs ys
  unfolding descents runs ascending
  descents-append p [] [] a = ground arith
  descents-append p [] (y ∷ ys) a = ground arith
  descents-append p (x ∷ xs) ys a =
      let down : less x p ≡ false = ground (arith, a) in
      ground (arith, down, descents-append x xs ys (ground (arith, a)))

  -- A list in front adds one run at most, where it ascends.
  pub runs-append : (xs ys : List ℕ) → ascending none xs ≡ true → runs (xs ++ ys) ≤ suc (runs ys)
  unfolding descents runs ascending
  runs-append [] ys a = ground arith
  runs-append (x ∷ xs) ys a = ground (arith, descents-append x xs ys a)

  descents-ascending : (p : ℕ) (xs : List ℕ) → descents p xs ≡ 0 → ascending (some p) xs ≡ true
  unfolding descents ascending
  descents-ascending p [] e = refl
  descents-ascending p (x ∷ xs) e = elim (Bool-cases (less x p)) [
    | inl d ↦ absurd (ground (arith, d, e))
    | inr d ↦ rw d (descents-ascending x xs (ground (arith, d, e)))
  ]

  -- A list of one run is in order.
  pub runs-ascending : (xs : List ℕ) → runs xs ≤ 1 → ascending none xs ≡ true
  unfolding runs ascending
  runs-ascending [] h = refl
  runs-ascending (x ∷ xs) h = descents-ascending x xs (ground (arith, h))

  descents_le : (p : ℕ) (xs : List ℕ) → descents p xs ≤ length xs
  unfolding descents
  descents_le p [] = ground arith
  descents_le p (x ∷ xs) = ground (arith, descents_le x xs)

  pub runs_le : (xs : List ℕ) → runs xs ≤ length xs
  unfolding runs
  runs_le [] = ground arith
  runs_le (x ∷ xs) = ground (arith, descents_le x xs)

  pub ascending-tail :
      (p : Option ℕ) (x : ℕ) (xs : List ℕ)
      → ascending p (x ∷ xs) ≡ true
      → ascending (some x) xs ≡ true
  unfolding ascending
  ascending-tail none x xs a = a
  ascending-tail (some p) x xs a = ground (arith, a)

  pub ascending-cons :
      (p : Option ℕ) (x : ℕ) (xs ys : List ℕ)
      → ascending p (x ∷ xs) ≡ true
      → ascending (some x) ys ≡ true
      → ascending p (x ∷ ys) ≡ true
  unfolding ascending
  ascending-cons none x xs ys a b = b
  ascending-cons (some p) x xs ys a b = ground (arith, a, b)

  pub run-ascending : (a : ℕ) (xs : List ℕ) → ascending none (a ∷ run_rest a xs) ≡ true
  unfolding ascending
  run-ascending a xs = run_rest-ascending a xs
