-- ===== src/Hash/Resize.antt =====
-- `rehash`: the number of buckets that it chooses, and that moving every element to new buckets loses
-- and confuses none.
use algorithms_prepare.Prelude.{
  ℕ, zero, suc, ◌+◌, ◌-◌, ◌/◌, ◌≤◌, ◌<◌, ◌≡◌, ◌⊎◌, refl, ap, ◌∙◌, true, false, List, [], ◌∷◌,
  Option, none, some, arith, if◌then◌else◌, ◌==◌, ltb, get_or, set, length, inl, inr, Bool-cases,
  ℕ_discrete, length-set, All, bit_and, ==-false, ==-self,
}
use algorithms_prepare.Prelude.Bits.{bit_and-le_right}
use algorithms_prepare.Hash.{
  HashFuncs, same, bucket_idx, find_elem, push_at, move_bucket, best_bucket_cnt,
  turn_off_least_1bit, is_power_of_2, power_loop,
}
use algorithms_prepare.Hash.Buckets.{
  HashLaws, or_else, Distinct, find_cong, total, total-set, get_or-set_if,
}

turn_off-lt : (x : ℕ) → 0 < x → turn_off_least_1bit x < x
unfolding turn_off_least_1bit
turn_off-lt x h = omega (arith, bit_and-le_right x (x - 1))

-- With fuel for every value below `n` the loop ends at a power of two, not above `n`.
power_loop_lem :
    (fuel n : ℕ)
    → 0 < n
    → n ≤ fuel
    → (is_power_of_2 (power_loop fuel n) ≡ true) × (0 < power_loop fuel n) × (power_loop fuel n ≤ n)
unfolding power_loop
power_loop_lem zero n p h = absurd (omega arith)
power_loop_lem (suc fuel) n p h = elim (Bool-cases (is_power_of_2 n)) [
  | inl t ↦ rw t (t, p, omega arith)
  | inr t ↦
      let less = turn_off-lt n p in
      let (a, b, d) = power_loop_lem fuel (turn_off_least_1bit n) (more n p t) (omega arith) in
      rw t (a, b, omega arith)
]
  where
    more : (n : ℕ) → 0 < n → is_power_of_2 n ≡ false → 0 < turn_off_least_1bit n
    more n p t = unfold is_power_of_2 in ground arith

-- The number of buckets that `rehash` wants for `n` elements is a power of two, positive, and at
-- most half of `n` unless at most four.
pub best_bucket_cnt_lem :
    (n : ℕ)
    → (is_power_of_2 (best_bucket_cnt n) ≡ true)
      × (0 < best_bucket_cnt n)
      × ((best_bucket_cnt n ≤ 4) ⊎ (best_bucket_cnt n ≤ n / 2))
unfolding best_bucket_cnt
best_bucket_cnt_lem n = elim (Bool-cases (ltb (n / 2) 4)) [
  | inl t ↦ rw t (let (a, b, d) = power_loop_lem 4 4 (omega arith) (omega arith) in (a, b, inl d))
  | inr t ↦
      rw t (
        let (a, b, d) = power_loop_lem (n / 2) (n / 2) (ground arith) (omega arith) in
        (a, b, inr d))
]

module _ {ℓ} {A : Type ℓ} (c : HashFuncs A) (laws : HashLaws c) where
  open laws use {same_refl, same_trans, hash_same}

  -- What is found in the bucket that `y` belongs to.
  abbrev pub look : ℕ → List (List A) → A → Option A
  look cnt bs y = find_elem c (get_or bs (bucket_idx c cnt y) []) y

  pub idx-lt : (cnt : ℕ) (y : A) → 0 < cnt → bucket_idx c cnt y < cnt
  unfolding bucket_idx
  idx-lt cnt y h = omega (arith, bit_and-le_right (c.hash y) (cnt - 1))

  pub idx_same : (cnt : ℕ) (a b : A) → same c a b ≡ true → bucket_idx c cnt a ≡ bucket_idx c cnt b
  unfolding bucket_idx
  idx_same cnt a b h = ap (λ k. bit_and k (cnt - 1)) (hash_same a b h)

  pub length-push_at : (bs : List (List A)) (i : ℕ) (x : A) → length (push_at c bs i x) ≡ length bs
  unfolding push_at
  length-push_at bs i x = length-set bs i (x ∷ get_or bs i [])

  -- After a push an element equal to the new one finds it, and any other what it found before.
  pub look-push_at :
      (cnt : ℕ) (bs : List (List A)) (x y : A)
      → 0 < cnt
      → length bs ≡ cnt
      → look cnt (push_at c bs (bucket_idx c cnt x) x) y
        ≡ (if same c x y then some x else look cnt bs y)
  unfolding push_at find_elem
  look-push_at cnt bs x y p e =
      let at =
        get_or-set_if bs (bucket_idx c cnt x) (bucket_idx c cnt y)
          (x ∷ get_or bs (bucket_idx c cnt x) []) [] (omega (arith, idx-lt cnt x p)) in
      elim (ℕ_discrete (bucket_idx c cnt x) (bucket_idx c cnt y)) [
        | yes q ↦ rw (at, q, ==-self (bucket_idx c cnt y))
        | no q ↦
            rw (at, ==-false (bucket_idx c cnt x) (bucket_idx c cnt y) q)
              (elim (Bool-cases (same c x y)) [
                | inl t ↦ absurd (q (idx_same cnt x y t))
                | inr t ↦ rw t
              ])
      ]

  pub length-move :
      (cnt : ℕ) (xs : List A) (bs : List (List A)) → length (move_bucket c cnt xs bs) ≡ length bs
  unfolding move_bucket
  length-move cnt [] bs = refl
  length-move cnt (x ∷ xs) bs =
      length-move cnt xs (push_at c bs (bucket_idx c cnt x) x)
      ∙ length-push_at bs (bucket_idx c cnt x) x

  -- Moving distinct elements: each is found where it belongs, and what was there is found as before.
  pub look-move :
      (cnt : ℕ) (xs : List A) (bs : List (List A)) (y : A)
      → 0 < cnt
      → length bs ≡ cnt
      → Distinct c laws xs
      → look cnt (move_bucket c cnt xs bs) y ≡ or_else (find_elem c xs y) (look cnt bs y)
  unfolding move_bucket find_elem
  look-move cnt [] bs y p e d = refl
  look-move cnt (x ∷ xs) bs y p e d =
      look-move cnt xs (push_at c bs (bucket_idx c cnt x) x) y p
        (length-push_at bs (bucket_idx c cnt x) x ∙ e) d.1
      ∙ rw (look-push_at cnt bs x y p e) (elim (Bool-cases (same c x y)) [
        | inl t ↦ rw (t, ← find_cong c laws xs x y t, d.0)
        | inr t ↦ rw t
      ])

  -- Every bucket holds distinct elements that belong there.
  pub record BucketsAreValid (cnt : ℕ) (bs : List (List A)) : Type ℓ where
    pub sized : length bs ≡ cnt
    pub placed : (i : ℕ) → All (λ x. bucket_idx c cnt x ≡ i) (get_or bs i [])
    pub distinct : (i : ℕ) → Distinct c laws (get_or bs i [])

  -- Pushing an element that is not there yet.
  pub push_at-BucketsAreValid :
      (cnt : ℕ) (bs : List (List A)) (x : A)
      → 0 < cnt
      → BucketsAreValid cnt bs
      → look cnt bs x ≡ none
      → BucketsAreValid cnt (push_at c bs (bucket_idx c cnt x) x)
  unfolding push_at
  push_at-BucketsAreValid cnt bs x p v fresh = record {
    sized = length-push_at bs (bucket_idx c cnt x) x ∙ v.sized;
    placed = λ j. rw (at j) (elim (ℕ_discrete (bucket_idx c cnt x) j) [
      | yes e ↦ rw (e, ==-self j) (e, v.placed j)
      | no ne ↦ rw (==-false (bucket_idx c cnt x) j ne) (v.placed j)
    ]);
    distinct = λ j. rw (at j) (elim (Bool-cases (bucket_idx c cnt x == j)) [
      | inl e ↦ rw e (fresh, v.distinct (bucket_idx c cnt x))
      | inr ne ↦ rw ne (v.distinct j)
    ]);
  }
    where
      at :
          (j : ℕ)
          → get_or (set bs (bucket_idx c cnt x) (x ∷ get_or bs (bucket_idx c cnt x) [])) j [] ≡ (
              if bucket_idx c cnt x == j
              then x ∷ get_or bs (bucket_idx c cnt x) []
              else get_or bs j [])
      at j =
          get_or-set_if bs (bucket_idx c cnt x) j (x ∷ get_or bs (bucket_idx c cnt x) []) []
            (omega (arith, idx-lt cnt x p, v.sized))

  pub total-push_at :
      (cnt : ℕ) (bs : List (List A)) (x : A)
      → 0 < cnt
      → length bs ≡ cnt
      → total (push_at c bs (bucket_idx c cnt x) x) ≡ total bs + 1
  unfolding push_at
  total-push_at cnt bs x p e = omega (
    arith,
    total-set bs (bucket_idx c cnt x) (x ∷ get_or bs (bucket_idx c cnt x) [])
        (omega (arith, idx-lt cnt x p)),
  )
