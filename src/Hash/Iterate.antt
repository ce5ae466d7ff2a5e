-- ===== src/Hash/Iterate.antt =====
-- Iteration and the hash functions for bytes and strings.
use mathlib.Core.List.{foldl, flatten}
use algorithms_prepare.Prelude.{
  ℕ, zero, suc, ◌*◌, ◌%◌, ◌^◌, ◌<◌, ◌≡◌, ◌≢◌, refl, ap, List, [], ◌∷◌, ◌++◌, none, some, arith,
  length, All, ==-false,
}
use algorithms_prepare.Prelude.Bits.{bit_xor-lt}
use algorithms_prepare.Hash.{
  Hash, HashIterator, hash_first, hash_next, next_from, first_of_buckets, hash_bytes, hash_string,
  string_loop, fnv_step, fnv_32_basis,
}

-- `while (hash_next(&i))`, collecting the elements; `n` calls at most.
abbrev pub collect {ℓ} : {A : Type ℓ} → ℕ → HashIterator A → List A
collect zero i = []
collect (suc n) i =
    let (found, i') = hash_next i in elim found [ none ↦ [] | some x ↦ x ∷ collect n i' ]

module _ {ℓ} {A : Type ℓ} where
  collect-next_from :
      (n : ℕ) (rest : List A) (later : List (List A))
      → length (rest ++ flatten later) < n
      → collect n (record { rest = rest; later = later }) ≡ rest ++ flatten later
  unfolding hash_next next_from flatten
  collect-next_from zero rest later h = absurd (omega arith)
  collect-next_from (suc n) (x ∷ rest) later h =
      ap (λ xs. x ∷ xs) (collect-next_from n rest later (omega arith))
  collect-next_from (suc n) [] [] h = refl
  collect-next_from (suc n) [] (b ∷ later) h = collect-next_from (suc n) b later h

  -- The iteration idiom, `hash_first` and then `hash_next` until it returns null, meets every
  -- element once, bucket by bucket, and ends within one call more than there are elements.
  pub collect-hash_first :
      (h : Hash A) (n : ℕ)
      → length (flatten h.buckets) < n
      → collect n (hash_first h) ≡ flatten h.buckets
  unfolding hash_first
  collect-hash_first h n lt = from h.buckets lt
    where
      from :
          (bs : List (List A))
          → length (flatten bs) < n
          → collect n (first_of_buckets bs) ≡ flatten bs
      from [] l = unfold first_of_buckets flatten in collect-next_from n [] [] l
      from (b ∷ bs) l = unfold first_of_buckets flatten in collect-next_from n b bs l

fnv_step-lt : (h b : ℕ) → b < 256 → fnv_step h b < 2 ^ 32
unfolding fnv_step
fnv_step-lt h b lt = bit_xor-lt 32 (h * 16777619 % 2 ^ 32) b (omega arith) (omega arith)

foldl-lt :
    (bytes : List ℕ) (h : ℕ)
    → All (λ b. b < 256) bytes
    → h < 2 ^ 32
    → foldl fnv_step h bytes < 2 ^ 32
foldl-lt [] h a lt = lt
foldl-lt (b ∷ bytes) h a lt = foldl-lt bytes (fnv_step h b) a.1 (fnv_step-lt h b a.0)

-- The hash of bytes fits an `unsigned`.
pub hash_bytes-lt : (bytes : List ℕ) → All (λ b. b < 256) bytes → hash_bytes bytes < 2 ^ 32
unfolding hash_bytes
hash_bytes-lt bytes a = foldl-lt bytes fnv_32_basis a (omega arith)

string_loop-foldl :
    (s rest : List ℕ) (h : ℕ)
    → All (λ b. b ≢ 0) s
    → string_loop h (s ++ (0 ∷ rest)) ≡ foldl fnv_step h s
unfolding string_loop
string_loop-foldl [] rest h a = refl
string_loop-foldl (b ∷ s) rest h a =
    rw (==-false b 0 a.0) (string_loop-foldl s rest (fnv_step h b) a.1)

-- A string's hash is that of its bytes up to the terminator, whatever follows it in memory.
pub hash_string-hash_bytes :
    (s rest : List ℕ) → All (λ b. b ≢ 0) s → hash_string (s ++ (0 ∷ rest)) ≡ hash_bytes s
unfolding hash_string hash_bytes
hash_string-hash_bytes s rest a = string_loop-foldl s rest fnv_32_basis a
