-- ===== src/Hash/Tests.antt =====
-- The hash table's theorems at a table of numbers, each its own hash.
use mathlib.Core.List.{flatten}
use algorithms_prepare.Prelude.{
  ℕ, ◌+◌, ◌≡◌, refl, true, [], ◌∷◌, none, some, arith, ltb, if◌then◌else◌, replicate,
}
use algorithms_prepare.Hash.{
  Hash, HashFuncs, same, hash_init, hash_insert, hash_find, rehash, hash_first,
}
use algorithms_prepare.Hash.Buckets.{HashLaws, or_else}
use algorithms_prepare.Hash.Rehash.{HashIsValid, rehash_lem}
use algorithms_prepare.Hash.Laws.{hash_insert_lem, hash_init_lem}
use algorithms_prepare.Hash.Iterate.{collect, collect-hash_first}

abbrev numbers : HashFuncs ℕ
numbers = record { hash = λ x. x; less = ltb }

numbers-laws : HashLaws numbers
numbers-laws = record {
  same_refl = λ a. ground arith;
  same_trans = λ a b d e f. ground arith;
  hash_same = λ a b e. ground arith;
}

abbrev empty : Hash ℕ
empty = record { elem_cnt = 0; bucket_cnt = 4; buckets = replicate 4 [] }

empty-made : hash_init true ≡ some empty
unfolding hash_init
empty-made = refl

empty-valid : HashIsValid numbers numbers-laws empty
empty-valid = (hash_init_lem numbers numbers-laws empty empty-made).0

-- The table with the number 5 in it.
abbrev table : Hash ℕ
table = (hash_insert numbers true empty 5).0

table-valid : HashIsValid numbers numbers-laws table
table-valid = (hash_insert_lem numbers numbers-laws true empty 5 empty-valid).0

insert_example :
    let (h', old) = hash_insert numbers true table 9 in
    HashIsValid numbers numbers-laws h'
    × (old ≡ hash_find numbers table 9)
    × ((y : ℕ)
        → hash_find numbers h' y
          ≡ (if same numbers 9 y then or_else old (some 9) else hash_find numbers table y))
    × (h'.elem_cnt ≡ table.elem_cnt + elim old [ none ↦ 1 | some _ ↦ 0 ])
insert_example = hash_insert_lem numbers numbers-laws true table 9 table-valid

rehash_example :
    HashIsValid numbers numbers-laws (rehash numbers true table)
    × ((y : ℕ) → hash_find numbers (rehash numbers true table) y ≡ hash_find numbers table y)
    × ((rehash numbers true table).elem_cnt ≡ table.elem_cnt)
rehash_example = rehash_lem numbers numbers-laws true table table-valid

abbrev three : Hash ℕ
three = record { elem_cnt = 3; bucket_cnt = 2; buckets = (4 ∷ 2 ∷ []) ∷ (7 ∷ []) ∷ [] }

iterate_example : collect 4 (hash_first three) ≡ flatten three.buckets
iterate_example = collect-hash_first three 4 (unfold flatten in omega arith)
