-- ===== src/Hash/Flatten.antt =====
-- The buckets read one after another: what is found there is what the bucket of a key holds.
use mathlib.Core.List.{flatten}
use algorithms_prepare.Prelude.{
  ℕ, zero, suc, ◌+◌, ◌<◌, ◌≡◌, ◌≢◌, refl, sym, ◌∙◌, List, [], ◌∷◌, ◌++◌, Option, none, some, arith,
  get_or, inl, inr, Bool-cases, All, All-mono,
}
use algorithms_prepare.Hash.{HashFuncs, same, bucket_idx, find_elem}
use algorithms_prepare.Hash.Buckets.{HashLaws, or_else, Distinct}
use algorithms_prepare.Hash.Resize.{idx_same}

module _ {ℓ} {A : Type ℓ} (c : HashFuncs A) (laws : HashLaws c) where
  pub find-append :
      (xs ys : List A) (y : A)
      → find_elem c (xs ++ ys) y ≡ or_else (find_elem c xs y) (find_elem c ys y)
  unfolding find_elem
  find-append [] ys y = refl
  find-append (x ∷ xs) ys y = elim (Bool-cases (same c x y)) [
    | inl t ↦ rw t
    | inr t ↦ rw t (find-append xs ys y)
  ]

  find_elsewhere :
      (cnt i : ℕ) (xs : List A) (y : A)
      → All (λ x. bucket_idx c cnt x ≡ i) xs
      → bucket_idx c cnt y ≢ i
      → find_elem c xs y ≡ none
  unfolding find_elem
  find_elsewhere cnt i [] y a ne = refl
  find_elsewhere cnt i (x ∷ xs) y a ne = elim (Bool-cases (same c x y)) [
    | inl t ↦ absurd (ne (sym (idx_same c laws cnt x y t) ∙ a.0))
    | inr t ↦ rw t (find_elsewhere cnt i xs y a.1 ne)
  ]

  -- The buckets from number `k` on.
  abbrev pub PlacedFrom : ℕ → ℕ → List (List A) → Type 0
  PlacedFrom cnt k bs = (i j : ℕ) → j ≡ k + i → All (λ x. bucket_idx c cnt x ≡ j) (get_or bs i [])

  later :
      (cnt k : ℕ) (b : List A) (bs : List (List A))
      → PlacedFrom cnt k (b ∷ bs)
      → PlacedFrom cnt (k + 1) bs
  later cnt k b bs h i j e = h (suc i) j (omega arith)

  pub flatten-below :
      (cnt k : ℕ) (bs : List (List A)) (y : A)
      → PlacedFrom cnt k bs
      → bucket_idx c cnt y < k
      → find_elem c (flatten bs) y ≡ none
  unfolding flatten
  flatten-below cnt k [] y h lt = unfold find_elem in refl
  flatten-below cnt k (b ∷ bs) y h lt =
      find-append b (flatten bs) y
      ∙ rw (
        find_elsewhere cnt k b y (h 0 k (omega arith)) (omega arith),
        flatten-below cnt (k + 1) bs y (later cnt k b bs h) (omega arith),
      )

  pub or_else-none : (o : Option A) → or_else o none ≡ o
  or_else-none none = refl
  or_else-none (some x) = refl

  pub flatten-at :
      (cnt k i : ℕ) (bs : List (List A)) (y : A)
      → PlacedFrom cnt k bs
      → bucket_idx c cnt y ≡ k + i
      → find_elem c (flatten bs) y ≡ find_elem c (get_or bs i []) y
  unfolding flatten
  flatten-at cnt k i [] y h e = refl
  flatten-at cnt k zero (b ∷ bs) y h e =
      find-append b (flatten bs) y
      ∙ rw (flatten-below cnt (k + 1) bs y (later cnt k b bs h) (omega arith)) (or_else-none _)
  flatten-at cnt k (suc i) (b ∷ bs) y h e =
      find-append b (flatten bs) y
      ∙ rw (find_elsewhere cnt k b y (h 0 k (omega arith)) (omega arith))
          (flatten-at cnt (k + 1) i bs y (later cnt k b bs h) (omega arith))

  Distinct-append :
      (xs ys : List A)
      → Distinct c laws xs
      → Distinct c laws ys
      → All (λ x. find_elem c ys x ≡ none) xs
      → Distinct c laws (xs ++ ys)
  Distinct-append [] ys d e a = e
  Distinct-append (x ∷ xs) ys d e a =
      (find-append xs ys x ∙ rw (d.0, a.0), Distinct-append xs ys d.1 e a.1)

  pub flatten-Distinct :
      (cnt k : ℕ) (bs : List (List A))
      → PlacedFrom cnt k bs
      → ((i : ℕ) → Distinct c laws (get_or bs i []))
      → Distinct c laws (flatten bs)
  unfolding flatten
  flatten-Distinct cnt k [] h d = tt
  flatten-Distinct cnt k (b ∷ bs) h d =
      Distinct-append b (flatten bs) (d 0)
        (flatten-Distinct cnt (k + 1) bs (later cnt k b bs h) (λ i. d (suc i)))
        (All-mono _ _ b (λ x e. flatten-below cnt (k + 1) bs x (later cnt k b bs h) (omega arith))
          (h 0 k (omega arith)))
