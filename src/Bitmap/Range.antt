-- ===== src/Bitmap/Range.antt =====
-- The operations on a range of bits: `bitmap_set_multiple`, `bitmap_count`, `bitmap_contains`.
use algorithms_prepare.Prelude.{
  ℕ, zero, suc, ◌+◌, ◌≤◌, ◌<◌, ◌≡◌, refl, Bool, true, false, not, ◌&&◌, none, some, ◌>>=◌, arith,
  if◌then◌else◌, ltb, leb, bool_eq, lt→ltb, le→leb, ltb-false, inl, inr, Bool-cases, ℕ_discrete,
  dec_lt,
}
use algorithms_prepare.Bitmap.{
  Bitmap, add_size, bitmap_set, bitmap_test, set_from, assert_range, bitmap_set_multiple,
  bitmap_set_all, bitmap_size, count_from, bitmap_count, contains_from, bitmap_contains, bitmap_all,
}
use algorithms_prepare.Bitmap.View.{view, IsValid, set-Written, test-view}

-- Whether `j` is one of the `cnt` indices from `start` on.
abbrev pub within : ℕ → ℕ → ℕ → Bool
within start cnt j = leb start j && ltb j (start + cnt)

pub record Filled (b : Bitmap) (start cnt : ℕ) (value : Bool) (b' : Bitmap) : Type 0 where
  pub valid : IsValid b'
  pub same_cnt : b'.bit_cnt ≡ b.bit_cnt
  pub bits_of : (j : ℕ) → view b' j ≡ (if within start cnt j then value else view b j)

range-ok :
    (b : Bitmap) (start cnt : ℕ)
    → IsValid b
    → start + cnt ≤ b.bit_cnt
    → assert_range b start cnt ≡ some tt
unfolding assert_range
range-ok b start cnt v h = rw (
  le→leb start b.bit_cnt (omega arith),
  le→leb (add_size start cnt) b.bit_cnt (omega (arith, v.small)),
)

set_from-Filled :
    (n i : ℕ) (value : Bool) (b : Bitmap)
    → IsValid b
    → i + n ≤ b.bit_cnt
    → (b' : Bitmap) × (set_from n i value b ≡ some b') × Filled b i n value b'
unfolding set_from
set_from-Filled zero i value b v h =
    (b, refl, record { valid = v; same_cnt = refl; bits_of = λ j. ground arith })
set_from-Filled (suc n) i value b v h =
    let (b1, e1, w) = set-Written b i value v (omega arith) in
    let (b2, e2, f) = set_from-Filled n (i + 1) value b1 w.valid (omega (arith, w.same_cnt)) in
    (
      b2,
      rw (e1, ◌>>=◌) e2,
      record {
        valid = f.valid;
        same_cnt = omega (arith, w.same_cnt, f.same_cnt);
        bits_of = λ j. ground (arith, f.bits_of j, w.bits_of j);
      },
    )

-- Within a valid bitmap, `bitmap_set_multiple` succeeds: the bits of the range get the value, every
-- other bit and the size stay, and the bitmap stays valid.
pub set_multiple-Filled :
    (b : Bitmap) (start cnt : ℕ) (value : Bool)
    → IsValid b
    → start + cnt ≤ b.bit_cnt
    → (b' : Bitmap) × (bitmap_set_multiple b start cnt value ≡ some b')
      × Filled b start cnt value b'
unfolding bitmap_set_multiple
set_multiple-Filled b start cnt value v h =
    rw (range-ok b start cnt v h) (set_from-Filled cnt start value b v h)

set_from-out :
    (n i : ℕ) (value : Bool) (b : Bitmap)
    → IsValid b
    → b.bit_cnt < i + n
    → i ≤ b.bit_cnt
    → set_from n i value b ≡ none
unfolding set_from
set_from-out zero i value b v h s = absurd (omega arith)
set_from-out (suc n) i value b v h s = elim (dec_lt i b.bit_cnt) [
  | no p ↦ unfold bitmap_set in rw (ltb-false i b.bit_cnt (omega arith))
  | yes p ↦
      let (b1, e1, w) = set-Written b i value v p in
      rw (e1, ◌>>=◌)
        (set_from-out n (i + 1) value b1 w.valid (omega (arith, w.same_cnt))
          (omega (arith, w.same_cnt)))
]

-- Past the end of a valid bitmap `bitmap_set_multiple` panics, also where `start + cnt` wraps and
-- the ASSERT passes.
pub set_multiple-out :
    (b : Bitmap) (start cnt : ℕ) (value : Bool)
    → IsValid b
    → b.bit_cnt < start + cnt
    → bitmap_set_multiple b start cnt value ≡ none
unfolding bitmap_set_multiple assert_range
set_multiple-out b start cnt value v h = elim (Bool-cases (leb start b.bit_cnt)) [
  | inr p ↦ rw p
  | inl p ↦ elim (Bool-cases (leb (add_size start cnt) b.bit_cnt)) [
    | inr q ↦ rw (p, q)
    | inl q ↦ rw (p, q) (set_from-out cnt start value b v h (ground arith))
  ]
]

pub set_all-Filled :
    (b : Bitmap) (value : Bool)
    → IsValid b
    → (b' : Bitmap) × (bitmap_set_all b value ≡ some b') × Filled b 0 b.bit_cnt value b'
unfolding bitmap_set_all bitmap_size
set_all-Filled b value v = set_multiple-Filled b 0 b.bit_cnt value v (omega arith)

-- How many of the `n` bits from `i` on have the value.
unfoldable pub occurrences : Bitmap → ℕ → ℕ → Bool → ℕ
occurrences b i zero value = 0
occurrences b i (suc n) value =
    (if bool_eq (view b i) value then 1 else 0) + occurrences b (i + 1) n value

test-some : (b : Bitmap) (i : ℕ) → i < b.bit_cnt → bitmap_test b i ≡ some (view b i)
test-some b i h = rw (test-view b i, lt→ltb i b.bit_cnt h)

count_from-occurrences :
    (n i : ℕ) (value : Bool) (acc : ℕ) (b : Bitmap)
    → i + n ≤ b.bit_cnt
    → count_from n i value acc b ≡ some (acc + occurrences b i n value)
unfolding count_from occurrences
count_from-occurrences zero i value acc b h = ground arith
count_from-occurrences (suc n) i value acc b h =
    rw (test-some b i (omega arith), ◌>>=◌)
      (elim (Bool-cases (bool_eq (view b i) value)) [
        | inl e ↦ rw e (ground (arith, count_from-occurrences n (i + 1) value (acc + 1) b))
        | inr e ↦ rw e (ground (arith, count_from-occurrences n (i + 1) value acc b))
      ])

-- `bitmap_count` returns the number of bits of the range with the value.
pub count-occurrences :
    (b : Bitmap) (start cnt : ℕ) (value : Bool)
    → IsValid b
    → start + cnt ≤ b.bit_cnt
    → bitmap_count b start cnt value ≡ some (occurrences b start cnt value)
unfolding bitmap_count
count-occurrences b start cnt value v h =
    rw (range-ok b start cnt v h) (ground (arith, count_from-occurrences cnt start value 0 b h))

occurrences_filled :
    (b : Bitmap) (i n : ℕ) (value : Bool)
    → ((j : ℕ) → i ≤ j → j < i + n → view b j ≡ value)
    → occurrences b i n value ≡ n
unfolding occurrences
occurrences_filled b i zero value h = refl
occurrences_filled b i (suc n) value h =
    ground
      (arith, h i, occurrences_filled b (i + 1) n value (λ j p q. h j (omega arith) (omega arith)))

-- After a range of a valid bitmap is set to a value, `bitmap_count` finds that value in all of it.
pub count-set_multiple :
    (b : Bitmap) (start cnt : ℕ) (value : Bool)
    → IsValid b
    → start + cnt ≤ b.bit_cnt
    → (bitmap_set_multiple b start cnt value >>= λ b'. bitmap_count b' start cnt value) ≡ some cnt
count-set_multiple b start cnt value v h =
    let (b', e, f) = set_multiple-Filled b start cnt value v h in
    rw (
      e,
      ◌>>=◌,
      count-occurrences b' start cnt value f.valid (omega (arith, f.same_cnt)),
      occurrences_filled b' start cnt value (λ j p q. ground (arith, f.bits_of j)),
    )

-- Every bit of the range has the value.
abbrev pub IsGroup : Bitmap → ℕ → ℕ → Bool → Type 0
IsGroup b i cnt value = (j : ℕ) → i ≤ j → j < i + cnt → view b j ≡ value

-- The answer `r` to whether the range holds the value.
pub record Answers (b : Bitmap) (start cnt : ℕ) (value r : Bool) : Type 0 where
  pub found : r ≡ true → (j : ℕ) × (start ≤ j) × (j < start + cnt) × (view b j ≡ value)
  pub missing : r ≡ false → IsGroup b start cnt (not value)

contains_from-Answers :
    (n i : ℕ) (value : Bool) (b : Bitmap)
    → i + n ≤ b.bit_cnt
    → (r : Bool) × (contains_from n i value b ≡ some r) × Answers b i n value r
unfolding contains_from
contains_from-Answers zero i value b h =
    (false, refl, record { found = λ e. cc; missing = λ e j p q. absurd (omega arith) })
contains_from-Answers (suc n) i value b h =
    rw (test-some b i (omega arith), ◌>>=◌)
      (elim (Bool-cases (bool_eq (view b i) value)) [
        | inl e ↦ rw e (
          true,
          refl,
          record { found = λ _. (i, omega arith, omega arith, ground arith); missing = λ f. cc },
        )
        | inr e ↦
            let (r, q, a) = contains_from-Answers n (i + 1) value b (omega arith) in
            rw e (
              r,
              q,
              record {
                found = λ t. let (j, l, u, s) = a.found t in (j, omega arith, omega arith, s);
                missing = λ f j l u. elim (ℕ_discrete i j) [
                  | yes same ↦ rw (← same) (ground arith)
                  | no other ↦ a.missing f j (omega arith) (omega arith)
                ];
              },
            )
      ])

-- Within a valid bitmap, `bitmap_contains` answers true exactly when some bit of the range has the
-- value.
pub contains-Answers :
    (b : Bitmap) (start cnt : ℕ) (value : Bool)
    → IsValid b
    → start + cnt ≤ b.bit_cnt
    → (r : Bool) × (bitmap_contains b start cnt value ≡ some r) × Answers b start cnt value r
unfolding bitmap_contains
contains-Answers b start cnt value v h =
    rw (range-ok b start cnt v h) (contains_from-Answers cnt start value b h)

-- `bitmap_all` is true exactly of a range whose bits are all on.
pub all-IsGroup :
    (b : Bitmap) (start cnt : ℕ)
    → IsValid b
    → start + cnt ≤ b.bit_cnt
    → (r : Bool) × (bitmap_all b start cnt ≡ some r)
      × (r ≡ true → IsGroup b start cnt true)
      × (IsGroup b start cnt true → r ≡ true)
unfolding bitmap_all
all-IsGroup b start cnt v h =
    let (r, e, a) = contains-Answers b start cnt false v h in
    (not r, rw (e, ◌>>=◌), λ t. a.missing (ground arith), λ g. decide_all r a g)
  where
    decide_all : (r : Bool) → Answers b start cnt false r → IsGroup b start cnt true → not r ≡ true
    decide_all true a g = let (j, l, u, s) = a.found refl in absurd (ground (arith, g j l u))
    decide_all false a g = refl
