-- ===== src/Hash/Laws.antt =====
-- The table as a finite map: what each operation returns, and what is found after it.
use algorithms_prepare.Prelude.{
  some-inj, ℕ, suc, ◌+◌, ◌<◌, ◌≡◌, refl, sym, ap, ◌∙◌, Bool, true, List, [], Option, none, some,
  arith, if◌then◌else◌, ◌==◌, get_or, set, length, inl, inr, Bool-cases, Option-cases, ℕ_discrete,
  ==-false, ==-self, ==_iff, length-set,
}
use algorithms_prepare.Hash.{
  Hash, HashFuncs, same, bucket_idx, find_elem, unlink, insert_elem, remove_elem, hash_find,
  hash_insert, hash_replace, hash_delete, hash_init, find_bucket,
}
use algorithms_prepare.Hash.Buckets.{
  HashLaws, or_else, find_cong, find-unlink, unlink-All, unlink-Distinct, same_sym, length-unlink,
  total, total-set, get_or-set_if,
}
use algorithms_prepare.Hash.Resize.{
  idx-lt, idx_same, look-push_at, push_at-BucketsAreValid, total-push_at,
}
use algorithms_prepare.Hash.Rehash.{HashIsValid, rehash_lem, replicate-valid, look-replicate}

module _ {ℓ} {A : Type ℓ} (c : HashFuncs A) (laws : HashLaws c) where
  insert_elem_lem :
      (h : Hash A) (new : A)
      → HashIsValid c laws h
      → hash_find c h new ≡ none
      → HashIsValid c laws (insert_elem c h new)
        × ((y : A)
            → hash_find c (insert_elem c h new) y
              ≡ (if same c new y then some new else hash_find c h y))
  unfolding insert_elem hash_find find_bucket
  insert_elem_lem h new v fresh = (
    record {
      some_buckets = v.some_buckets;
      buckets_valid =
          push_at-BucketsAreValid c laws h.bucket_cnt h.buckets new v.some_buckets v.buckets_valid
            fresh;
      counted = omega (
        arith,
        v.counted,
        total-push_at c laws h.bucket_cnt h.buckets new v.some_buckets v.buckets_valid.sized,
      );
    },
    λ y. look-push_at c laws h.bucket_cnt h.buckets new y v.some_buckets v.buckets_valid.sized,
  )

  remove_elem_lem :
      (h : Hash A) (e old : A)
      → HashIsValid c laws h
      → hash_find c h e ≡ some old
      → HashIsValid c laws (remove_elem c h e)
        × ((y : A)
            → hash_find c (remove_elem c h e) y ≡ (if same c e y then none else hash_find c h y))
        × (h.elem_cnt ≡ suc (remove_elem c h e).elem_cnt)
  unfolding remove_elem hash_find find_bucket
  remove_elem_lem h e old v found = (
    record {
      some_buckets = v.some_buckets;
      buckets_valid = record {
        sized = length-set h.buckets i (unlink c b e) ∙ v.buckets_valid.sized;
        placed = λ j. rw (at j) (elim (ℕ_discrete i j) [
          | yes q ↦ rw (q, ==-self j) (unlink-All c laws _ _ e (v.buckets_valid.placed j))
          | no q ↦ rw (==-false i j q) (v.buckets_valid.placed j)
        ]);
        distinct = λ j. rw (at j) (elim (Bool-cases (i == j)) [
          | inl q ↦ rw q (unlink-Distinct c laws b e (v.buckets_valid.distinct i))
          | inr q ↦ rw q (v.buckets_valid.distinct j)
        ]);
      };
      counted = omega (arith, v.counted, shorter, fewer);
    },
    found_after,
    omega (arith, v.counted, shorter, fewer),
  )
    where
      i : ℕ
      i = bucket_idx c h.bucket_cnt e

      b : List A
      b = get_or h.buckets i []

      in_range : i < length h.buckets
      in_range = omega (arith, idx-lt c laws h.bucket_cnt e v.some_buckets, v.buckets_valid.sized)

      at :
          (j : ℕ)
          → get_or (set h.buckets i (unlink c b e)) j []
            ≡ (if i == j then unlink c b e else get_or h.buckets j [])
      at j = get_or-set_if h.buckets i j (unlink c b e) [] in_range

      shorter : length b ≡ suc (length (unlink c b e))
      shorter = length-unlink c laws b e old found

      fewer :
          total (set h.buckets i (unlink c b e)) + length b
          ≡ total h.buckets + length (unlink c b e)
      fewer = total-set h.buckets i (unlink c b e) in_range

      found_after :
          (y : A)
          → find_elem c (get_or (set h.buckets i (unlink c b e)) (bucket_idx c h.bucket_cnt y) []) y
            ≡ (if same c e y
                then none
                else find_elem c (get_or h.buckets (bucket_idx c h.bucket_cnt y) []) y)
      found_after y = elim (ℕ_discrete i (bucket_idx c h.bucket_cnt y)) [
        | yes q ↦
            rw (at (bucket_idx c h.bucket_cnt y), (==_iff i (bucket_idx c h.bucket_cnt y)).1 q)
              (find-unlink c laws b e y (v.buckets_valid.distinct i)
                ∙ ap (λ k. if same c e y then none else find_elem c (get_or h.buckets k []) y) q)
        | no q ↦
            rw (at (bucket_idx c h.bucket_cnt y), ==-false i (bucket_idx c h.bucket_cnt y) q)
              (elim (Bool-cases (same c e y)) [
                | inl t ↦ absurd (q (idx_same c laws h.bucket_cnt e y t))
                | inr t ↦ rw t
              ])
      ]

  hash_find_cong : (h : Hash A) (a b : A) → same c a b ≡ true → hash_find c h a ≡ hash_find c h b
  unfolding hash_find find_bucket
  hash_find_cong h a b t = rw (idx_same c laws h.bucket_cnt a b t) (find_cong c laws _ a b t)

  kept :
      (h : Hash A) (new old y : A)
      → hash_find c h new ≡ some old
      → hash_find c h y ≡ (if same c new y then some old else hash_find c h y)
  kept h new old y found = elim (Bool-cases (same c new y)) [
    | inl t ↦ rw t (hash_find_cong h y new (same_sym c laws new y t) ∙ found)
    | inr t ↦ rw t
  ]

  -- In a valid table `hash_insert` returns the element equal to the new one, if there is one, and
  -- then finds what was found; else it adds the new element and counts it. The table stays valid,
  -- through `rehash` and whether or not malloc succeeds.
  pub hash_insert_lem :
      (alloc : Bool) (h : Hash A) (new : A)
      → HashIsValid c laws h
      → let (h', old) = hash_insert c alloc h new in
        HashIsValid c laws h'
        × (old ≡ hash_find c h new)
        × ((y : A)
            → hash_find c h' y ≡ (if same c new y then or_else old (some new) else hash_find c h y))
        × (h'.elem_cnt ≡ h.elem_cnt + elim old [ none ↦ 1 | some _ ↦ 0 ])
  unfolding hash_insert
  hash_insert_lem alloc h new v = elim (Option-cases (hash_find c h new)) [
    | inl fresh ↦
        let (w, f) = insert_elem_lem h new v fresh in
        let (r, g, n) = rehash_lem c laws alloc (insert_elem c h new) w in
        let e : find_elem c (find_bucket c h new) new ≡ none = unfold hash_find in fresh in
        rw e (r, sym fresh, λ y. g y ∙ f y, n ∙ unfold insert_elem in refl)
    | inr (old, found) ↦
        let (r, g, n) = rehash_lem c laws alloc h v in
        let e : find_elem c (find_bucket c h new) new ≡ some old = unfold hash_find in found in
        rw e (r, sym found, λ y. g y ∙ kept h new old y found, omega (arith, n))
  ]

  -- In a valid table `hash_replace` returns the element equal to the new one, if there is one, and
  -- leaves the new one in its place; every other element is found as before, and the table stays
  -- valid.
  pub hash_replace_lem :
      (alloc : Bool) (h : Hash A) (new : A)
      → HashIsValid c laws h
      → let (h', old) = hash_replace c alloc h new in
        HashIsValid c laws h'
        × (old ≡ hash_find c h new)
        × ((y : A) → hash_find c h' y ≡ (if same c new y then some new else hash_find c h y))
        × (h'.elem_cnt ≡ h.elem_cnt + elim old [ none ↦ 1 | some _ ↦ 0 ])
  unfolding hash_replace
  hash_replace_lem alloc h new v = elim (Option-cases (hash_find c h new)) [
    | inl fresh ↦
        let (w, f) = insert_elem_lem h new v fresh in
        let (r, g, n) = rehash_lem c laws alloc (insert_elem c h new) w in
        let e : find_elem c (find_bucket c h new) new ≡ none = unfold hash_find in fresh in
        rw e (r, sym fresh, λ y. g y ∙ f y, n ∙ unfold insert_elem in refl)
    | inr (old, found) ↦
        let (v1, f1, n1) = remove_elem_lem h new old v found in
        let gone : hash_find c (remove_elem c h new) new ≡ none =
          f1 new ∙ rw (laws.same_refl new) in
        let (w, f) = insert_elem_lem (remove_elem c h new) new v1 gone in
        let (r, g, n) = rehash_lem c laws alloc (insert_elem c (remove_elem c h new) new) w in
        let e : find_elem c (find_bucket c h new) new ≡ some old = unfold hash_find in found in
        rw e (
          r,
          sym found,
          λ y. g y ∙ f y ∙ over y (f1 y),
          n ∙ unfold insert_elem in omega (arith, n1),
        )
  ]
    where
      over :
          {p : Option A} (y : A)
          → p ≡ (if same c new y then none else hash_find c h y)
          → (if same c new y then some new else p)
            ≡ (if same c new y then some new else hash_find c h y)
      over y e = elim (Bool-cases (same c new y)) [ inl t ↦ rw t | inr t ↦ rw t (e ∙ rw t) ]

  -- In a valid table `hash_delete` returns the element equal to the given one, if there is one, and
  -- then no such element is found; every other element is found as before, and the table stays
  -- valid.
  pub hash_delete_lem :
      (alloc : Bool) (h : Hash A) (e : A)
      → HashIsValid c laws h
      → let (h', found) = hash_delete c alloc h e in
        HashIsValid c laws h'
        × (found ≡ hash_find c h e)
        × ((y : A) → hash_find c h' y ≡ (if same c e y then none else hash_find c h y))
        × (h.elem_cnt ≡ h'.elem_cnt + elim found [ none ↦ 0 | some _ ↦ 1 ])
  unfolding hash_delete
  hash_delete_lem alloc h e v = elim (Option-cases (hash_find c h e)) [
    | inl missing ↦
        let q : find_elem c (find_bucket c h e) e ≡ none = unfold hash_find in missing in
        rw (q, hash_delete) (v, sym missing, absent missing, omega arith)
    | inr (old, found) ↦
        let (v1, f1, n1) = remove_elem_lem h e old v found in
        let (r, g, n) = rehash_lem c laws alloc (remove_elem c h e) v1 in
        let q : find_elem c (find_bucket c h e) e ≡ some old = unfold hash_find in found in
        rw (q, hash_delete) (r, sym found, λ y. g y ∙ f1 y, omega (arith, n1, n))
  ]
    where
      absent :
          hash_find c h e ≡ none
          → (y : A) → hash_find c h y ≡ (if same c e y then none else hash_find c h y)
      absent missing y = elim (Bool-cases (same c e y)) [
        | inl t ↦ rw t (hash_find_cong h y e (same_sym c laws e y t) ∙ missing)
        | inr t ↦ rw t
      ]

  -- A table that `hash_init` makes is well formed and finds nothing.
  pub hash_init_lem :
      (h : Hash A)
      → hash_init true ≡ some h
      → HashIsValid c laws h × ((y : A) → hash_find c h y ≡ none)
  unfolding hash_init hash_find find_bucket
  hash_init_lem h e = rw (← some-inj e) (
    record { some_buckets = omega arith; buckets_valid = replicate-valid c laws 4; counted = refl },
    λ y. look-replicate c laws 4 4 y,
  )
