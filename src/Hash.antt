-- ===== src/Hash.antt =====
-- lib/kernel/hash.c of proj-pregame: a chained hash table that grows and shrinks. The client's hash
-- and less functions are parameters. A bucket is the list of its elements, front first; the pointer
-- that `find_elem` returns is the first equal element of its bucket, so that element is the one that
-- `remove_elem` unlinks. `alloc` says whether malloc returns memory for new buckets.
mod Tests
pub mod Buckets
pub mod Resize
pub mod Flatten
pub mod Rehash
pub mod Laws
pub mod Iterate
use mathlib.Core.List.{foldl, flatten}
use algorithms_prepare.Prelude.{
  ℕ, zero, suc, ◌+◌, ◌-◌, ◌*◌, ◌/◌, ◌%◌, ◌^◌, Bool, true, false, not, ◌&&◌, List, [], ◌∷◌, Option,
  none, some, bit_and, bit_xor, if◌then◌else◌, ltb, ◌==◌, get_or, set, replicate, length,
}

pub record Hash {ℓ} (A : Type ℓ) : Type ℓ where
  pub elem_cnt : ℕ
  pub bucket_cnt : ℕ
  pub buckets : List (List A)

-- FNV_32_PRIME, FNV_32_BASIS
abbrev fnv_32_prime : ℕ
fnv_32_prime = 16777619

abbrev fnv_32_basis : ℕ
fnv_32_basis = 2166136261

unfoldable pub fnv_step : ℕ → ℕ → ℕ
fnv_step hash byte = bit_xor (hash * fnv_32_prime % 2 ^ 32) byte

unfoldable pub hash_bytes : List ℕ → ℕ
hash_bytes buf = foldl fnv_step fnv_32_basis buf

-- The four bytes of an `int`, the lowest first, as the machine stores them.
unfoldable pub hash_int : ℕ → ℕ
hash_int i = hash_bytes (i % 256 ∷ i / 256 % 256 ∷ i / 256 ^ 2 % 256 ∷ i / 256 ^ 3 % 256 ∷ [])

-- The bytes of a string and of what follows it; the loop stops at the first 0.
unfoldable pub string_loop : ℕ → List ℕ → ℕ
string_loop hash [] = hash
string_loop hash (c ∷ s) = if c == 0 then hash else string_loop (fnv_step hash c) s

unfoldable pub hash_string : List ℕ → ℕ
unfolding string_loop fnv_step
hash_string s = string_loop fnv_32_basis s

unfoldable pub turn_off_least_1bit : ℕ → ℕ
turn_off_least_1bit x = bit_and x (x - 1)

unfoldable pub is_power_of_2 : ℕ → Bool
unfolding turn_off_least_1bit
is_power_of_2 x = not (x == 0) && turn_off_least_1bit x == 0

-- `while (!is_power_of_2(n)) n = turn_off_least_1bit(n)`, on fuel.
unfoldable pub power_loop : ℕ → ℕ → ℕ
power_loop zero n = n
power_loop (suc fuel) n =
    let rest = power_loop fuel (turn_off_least_1bit n) in if is_power_of_2 n then n else rest

abbrev pub best_elems_per_bucket : ℕ
best_elems_per_bucket = 2

-- The number of buckets that `rehash` wants. Each round lowers `n`, so `n` rounds are enough.
unfoldable pub best_bucket_cnt : ℕ → ℕ
unfolding power_loop
best_bucket_cnt elem_cnt =
    let ideal = elem_cnt / best_elems_per_bucket in
    let n = if ltb ideal 4 then 4 else ideal in power_loop n n

-- What a client passes to `hash_init`: hash_hash_func and hash_less_func.
pub record HashFuncs {ℓ} (A : Type ℓ) : Type ℓ where
  pub hash : A → ℕ
  pub less : A → A → Bool

module _ {ℓ} {A : Type ℓ} (c : HashFuncs A) where
  open c use {hash, less}

  -- How the table compares elements.
  abbrev pub same : A → A → Bool
  same a b = not (less a b) && not (less b a)

  -- The index of the bucket of `e`, with `cnt` buckets.
  unfoldable pub bucket_idx : ℕ → A → ℕ
  bucket_idx cnt e = bit_and (hash e) (cnt - 1)

  -- `*find_bucket(h, e)`
  unfoldable pub find_bucket : Hash A → A → List A
  find_bucket h e = get_or h.buckets (bucket_idx h.bucket_cnt e) []

  unfoldable pub find_elem : List A → A → Option A
  find_elem [] e = none
  find_elem (x ∷ bucket) e = if same x e then some x else find_elem bucket e

  -- `list_remove` of the element that `find_elem` found.
  unfoldable pub unlink : List A → A → List A
  unlink [] e = []
  unlink (x ∷ bucket) e = if same x e then bucket else x ∷ unlink bucket e

  -- `list_push_front` on bucket `i`.
  unfoldable pub push_at : List (List A) → ℕ → A → List (List A)
  push_at buckets i e = set buckets i (e ∷ get_or buckets i [])

  unfoldable pub insert_elem : Hash A → A → Hash A
  unfolding push_at
  insert_elem h e = record h {
    elem_cnt = h.elem_cnt + 1;
    buckets = push_at h.buckets (bucket_idx h.bucket_cnt e) e;
  }

  unfoldable pub remove_elem : Hash A → A → Hash A
  unfolding find_bucket
  remove_elem h e = record h {
    elem_cnt = h.elem_cnt - 1;
    buckets = set h.buckets (bucket_idx h.bucket_cnt e) (unlink (find_bucket h e) e);
  }

  -- The inner loop of `rehash` over the elements of one old bucket.
  unfoldable pub move_bucket : ℕ → List A → List (List A) → List (List A)
  move_bucket cnt [] buckets = buckets
  move_bucket cnt (e ∷ old) buckets = move_bucket cnt old (push_at buckets (bucket_idx cnt e) e)

  -- Its outer loop over the old buckets.
  unfoldable pub move_all : ℕ → List (List A) → List (List A) → List (List A)
  move_all cnt [] buckets = buckets
  move_all cnt (old ∷ olds) buckets = move_all cnt olds (move_bucket cnt old buckets)

  unfoldable pub rehash : Bool → Hash A → Hash A
  rehash alloc h =
      let cnt = best_bucket_cnt h.elem_cnt in
      if cnt == h.bucket_cnt
      then h
      else if alloc
      then record h { bucket_cnt = cnt; buckets = move_all cnt h.buckets (replicate cnt []) }
      else h

  unfoldable pub hash_insert : Bool → Hash A → A → Hash A × Option A
  hash_insert alloc h new =
      let old = find_elem (find_bucket h new) new in
      (rehash alloc (elim old [ none ↦ insert_elem h new | some _ ↦ h ]), old)

  unfoldable pub hash_replace : Bool → Hash A → A → Hash A × Option A
  hash_replace alloc h new =
      let old = find_elem (find_bucket h new) new in
      let h' : Hash A = elim old [ none ↦ h | some _ ↦ remove_elem h new ] in
      (rehash alloc (insert_elem h' new), old)

  unfoldable pub hash_find : Hash A → A → Option A
  hash_find h e = find_elem (find_bucket h e) e

  unfoldable pub hash_delete : Bool → Hash A → A → Hash A × Option A
  hash_delete alloc h e =
      let found = find_elem (find_bucket h e) e in
      (elim found [ none ↦ h | some _ ↦ rehash alloc (remove_elem h e) ], found)

-- An iterator: the elements of its bucket behind the current one, and the buckets that follow.
pub record HashIterator {ℓ} (A : Type ℓ) : Type ℓ where
  pub rest : List A
  pub later : List (List A)

module _ {ℓ} {A : Type ℓ} where
  -- The elements in the order in which a non-null destructor sees them, and the emptied table.
  unfoldable pub hash_clear : Hash A → List A × Hash A
  hash_clear h = (flatten h.buckets, record h { elem_cnt = 0; buckets = replicate h.bucket_cnt [] })

  -- `none` if malloc fails.
  unfoldable pub hash_init : Bool → Option (Hash A)
  hash_init alloc =
      if alloc
      then some (record { elem_cnt = 0; bucket_cnt = 4; buckets = replicate 4 [] })
      else none

  unfoldable pub hash_size : Hash A → ℕ
  hash_size h = h.elem_cnt

  unfoldable pub hash_empty : Hash A → Bool
  hash_empty h = h.elem_cnt == 0

  unfoldable first_of_buckets : List (List A) → HashIterator A
  first_of_buckets [] = record { rest = []; later = [] }
  first_of_buckets (b ∷ bs) = record { rest = b; later = bs }

  unfoldable pub hash_first : Hash A → HashIterator A
  unfolding first_of_buckets
  hash_first h = first_of_buckets h.buckets

  unfoldable next_from : List A → List (List A) → Option A × HashIterator A
  next_from (x ∷ rest) later = (some x, record { rest = rest; later = later })
  next_from [] [] = (none, record { rest = []; later = [] })
  next_from [] (b ∷ later) = next_from b later

  -- `none` at the end of the table.
  unfoldable pub hash_next : HashIterator A → Option A × HashIterator A
  unfolding next_from
  hash_next i = next_from i.rest i.later
