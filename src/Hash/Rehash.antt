-- ===== src/Hash/Rehash.antt =====
-- `rehash` keeps the table: every element is found as before, under the invariant.
use mathlib.Core.List.{flatten}
use algorithms_prepare.Prelude.{
  ℕ, zero, suc, ◌+◌, ◌<◌, ◌≡◌, refl, sym, ◌∙◌, Bool, false, List, [], ◌∷◌, ◌++◌, none, arith, ◌==◌,
  get_or, replicate, length, inl, inr, Bool-cases, All, length-replicate, length-append,
}
use algorithms_prepare.Hash.{
  Hash, HashFuncs, same, bucket_idx, find_elem, push_at, move_bucket, move_all, rehash,
  best_bucket_cnt, hash_find, find_bucket,
}
use algorithms_prepare.Hash.Buckets.{HashLaws, Distinct, total}
use algorithms_prepare.Hash.Flatten.{PlacedFrom, flatten-at, flatten-Distinct, or_else-none}
use algorithms_prepare.Hash.Resize.{
  look, look-push_at, look-move, BucketsAreValid, push_at-BucketsAreValid, total-push_at,
  best_bucket_cnt_lem,
}

module _ {ℓ} {A : Type ℓ} (c : HashFuncs A) (laws : HashLaws c) where
  missing_apart : (xs : List A) (x : A) → find_elem c xs x ≡ none → All (λ y. same c x y ≡ false) xs
  unfolding find_elem
  missing_apart [] x e = tt
  missing_apart (y ∷ xs) x e = elim (Bool-cases (same c y x)) [
    | inl t ↦ absurd (ground (arith, t))
    | inr t ↦ (ground (arith, t), missing_apart xs x (ground (arith, t)))
  ]

  fresh_after :
      (cnt : ℕ) (bs : List (List A)) (x : A) (xs : List A)
      → 0 < cnt
      → length bs ≡ cnt
      → All (λ y. same c x y ≡ false) xs
      → All (λ y. look c laws cnt bs y ≡ none) xs
      → All (λ y. look c laws cnt (push_at c bs (bucket_idx c cnt x) x) y ≡ none) xs
  fresh_after cnt bs x [] p e a h = tt
  fresh_after cnt bs x (y ∷ xs) p e a h =
      (look-push_at c laws cnt bs x y p e ∙ rw a.0 h.0, fresh_after cnt bs x xs p e a.1 h.1)

  move-BucketsAreValid :
      (cnt : ℕ) (xs : List A) (bs : List (List A))
      → 0 < cnt
      → BucketsAreValid c laws cnt bs
      → Distinct c laws xs
      → All (λ x. look c laws cnt bs x ≡ none) xs
      → BucketsAreValid c laws cnt (move_bucket c cnt xs bs)
        × (total (move_bucket c cnt xs bs) ≡ total bs + length xs)
  unfolding move_bucket
  move-BucketsAreValid cnt [] bs p v d f = (v, omega arith)
  move-BucketsAreValid cnt (x ∷ xs) bs p v d f =
      let v1 = push_at-BucketsAreValid c laws cnt bs x p v f.0 in
      let f1 = fresh_after cnt bs x xs p v.sized (missing_apart xs x d.0) f.1 in
      let (v2, t) = move-BucketsAreValid cnt xs (push_at c bs (bucket_idx c cnt x) x) p v1 d.1 f1 in
      (v2, omega (arith, t, total-push_at c laws cnt bs x p v.sized))

  move-append :
      (cnt : ℕ) (xs ys : List A) (bs : List (List A))
      → move_bucket c cnt (xs ++ ys) bs ≡ move_bucket c cnt ys (move_bucket c cnt xs bs)
  unfolding move_bucket
  move-append cnt [] ys bs = refl
  move-append cnt (x ∷ xs) ys bs = move-append cnt xs ys (push_at c bs (bucket_idx c cnt x) x)

  -- The two loops together run once over all the elements.
  move_all-flatten :
      (cnt : ℕ) (olds bs : List (List A))
      → move_all c cnt olds bs ≡ move_bucket c cnt (flatten olds) bs
  unfolding move_all flatten
  move_all-flatten cnt [] bs = unfold move_bucket in refl
  move_all-flatten cnt (o ∷ olds) bs =
      move_all-flatten cnt olds (move_bucket c cnt o bs) ∙ sym (move-append cnt o (flatten olds) bs)

-- The table's invariant: a bucket for each index, every element in its bucket, no two equal, and the
-- right count.
pub record HashIsValid {ℓ} {A : Type ℓ} (c : HashFuncs A) (laws : HashLaws c) (h : Hash A)
    : Type ℓ where
  pub some_buckets : 0 < h.bucket_cnt
  pub buckets_valid : BucketsAreValid c laws h.bucket_cnt h.buckets
  pub counted : h.elem_cnt ≡ total h.buckets

module _ {ℓ} {A : Type ℓ} (c : HashFuncs A) (laws : HashLaws c) where
  get_or-replicate : (n i : ℕ) → get_or (replicate {A = List A} n []) i [] ≡ []
  get_or-replicate zero i = refl
  get_or-replicate (suc n) zero = refl
  get_or-replicate (suc n) (suc i) = get_or-replicate n i

  pub look-replicate : (cnt n : ℕ) (y : A) → look c laws cnt (replicate n []) y ≡ none
  unfolding find_elem
  look-replicate cnt n y = rw (get_or-replicate n (bucket_idx c cnt y))

  total-replicate : (n : ℕ) → total (replicate {A = List A} n []) ≡ 0
  total-replicate zero = refl
  total-replicate (suc n) = omega (arith, total-replicate n)

  pub replicate-valid : (cnt : ℕ) → BucketsAreValid c laws cnt (replicate cnt [])
  replicate-valid cnt = record {
    sized = length-replicate cnt [];
    placed = λ i. rw (get_or-replicate cnt i) tt;
    distinct = λ i. rw (get_or-replicate cnt i) tt;
  }

  length-flatten : (bs : List (List A)) → length (flatten bs) ≡ total bs
  unfolding flatten
  length-flatten [] = refl
  length-flatten (b ∷ bs) = omega (arith, length-append b (flatten bs), length-flatten bs)

  module _ (cnt old_cnt : ℕ) (bs : List (List A)) (p : 0 < cnt)
      (v : BucketsAreValid c laws old_cnt bs) where
    in_place : PlacedFrom c laws old_cnt 0 bs
    in_place i j e = let same_index : j ≡ i = omega arith in rw same_index (v.placed i)

    flat-Distinct : Distinct c laws (flatten bs)
    flat-Distinct = flatten-Distinct c laws old_cnt 0 bs in_place v.distinct

    nothing_there : (xs : List A) → All (λ x. look c laws cnt (replicate cnt []) x ≡ none) xs
    nothing_there [] = tt
    nothing_there (x ∷ xs) = (look-replicate cnt cnt x, nothing_there xs)

    moved-valid :
        BucketsAreValid c laws cnt (move_all c cnt bs (replicate cnt []))
        × (total (move_all c cnt bs (replicate cnt [])) ≡ total bs)
    moved-valid = rw (move_all-flatten c laws cnt bs (replicate cnt [])) (
        let (b, t) =
          move-BucketsAreValid c laws cnt (flatten bs) (replicate cnt []) p (replicate-valid cnt)
            flat-Distinct (nothing_there (flatten bs)) in
        (b, omega (arith, t, total-replicate cnt, length-flatten bs)))

    moved-look :
        (y : A)
        → look c laws cnt (move_all c cnt bs (replicate cnt [])) y ≡ look c laws old_cnt bs y
    moved-look y =
        rw
          (
            move_all-flatten c laws cnt bs (replicate cnt []),
            look-move c laws cnt (flatten bs) (replicate cnt []) y p (length-replicate cnt [])
                flat-Distinct,
            look-replicate cnt cnt y,
          )
          (or_else-none c laws _
            ∙ flatten-at c laws old_cnt 0 (bucket_idx c old_cnt y) bs y in_place (omega arith))

  -- `rehash` of a valid table finds every element as before and keeps validity and the count,
  -- whether or not malloc returns memory.
  pub rehash_lem :
      (alloc : Bool) (h : Hash A)
      → HashIsValid c laws h
      → HashIsValid c laws (rehash c alloc h)
        × ((y : A) → hash_find c (rehash c alloc h) y ≡ hash_find c h y)
        × ((rehash c alloc h).elem_cnt ≡ h.elem_cnt)
  unfolding rehash hash_find find_bucket
  rehash_lem alloc h v = elim (Bool-cases (best_bucket_cnt h.elem_cnt == h.bucket_cnt)) [
    | inl t ↦ rw t (v, λ y. refl, refl)
    | inr t ↦ elim (Bool-cases alloc) [
      | inr no_memory ↦ rw (t, no_memory) (v, λ y. refl, refl)
      | inl memory ↦
          let pos = (best_bucket_cnt_lem h.elem_cnt).1 in
          let cnt = best_bucket_cnt h.elem_cnt in
          let (b, total_same) = moved-valid cnt h.bucket_cnt h.buckets pos v.buckets_valid in
          rw (t, memory)
            (
              record {
                some_buckets = pos;
                buckets_valid = b;
                counted = v.counted ∙ sym total_same;
              },
              moved-look cnt h.bucket_cnt h.buckets pos v.buckets_valid,
              refl,
            )
    ]
  ]
