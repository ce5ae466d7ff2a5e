-- ===== src/Bitmap/View.antt =====
-- What a bitmap means: one truth value for each index; and the operations on a single bit.
use algorithms_prepare.Prelude.{
  ℕ, ◌+◌, ◌*◌, ◌%◌, ◌^◌, ◌≤◌, ◌<◌, ◌≡◌, ◌≢◌, refl, ap, Bool, true, false, not, none, some, arith,
  if◌then◌else◌, ltb, ◌==◌, length, All, lt→ltb, length-set, get_or-set_self, get_or-set_ne,
  All-get_or, All-set, ==-false, ==-self, bit_and, bit_or, bit_xor, ℕ_discrete,
}
use algorithms_prepare.Prelude.Bits.{
  bit, bit-lt, bit-bit_and, bit-bit_or, bit-bit_xor, bit-pow_self, bit-pow_ne, bit-complement,
  bit_and-pow, bit_or-lt, bit_xor-lt, bit_and-le, pow-lt, pow-pos, complement,
}
use algorithms_prepare.Bitmap.{
  Bitmap, elem, put_elem, elem_idx, bit_mask, bitmap_mark, bitmap_reset, bitmap_flip, bitmap_set,
  bitmap_test,
}

-- The value of bit `i`.
unfoldable pub view : Bitmap → ℕ → Bool
view b i = bit (i % 32) (elem b i) == 1

-- Enough elements for the bits, each of them a word; the element count does not wrap.
pub record IsValid (b : Bitmap) : Type 0 where
  pub small : b.bit_cnt + 32 ≤ 2 ^ 32
  pub enough : b.bit_cnt ≤ 32 * length b.bits
  pub words : All (λ w. w < 2 ^ 32) b.bits

pub elem-lt : (b : Bitmap) (i : ℕ) → IsValid b → elem b i < 2 ^ 32
elem-lt b i v = All-get_or (λ w. w < 2 ^ 32) b.bits (elem_idx i) 0 v.words (omega arith)

pub idx-lt : (b : Bitmap) (i : ℕ) → IsValid b → i < b.bit_cnt → elem_idx i < length b.bits
unfolding elem_idx
idx-lt b i v h = omega (arith, v.enough)

pub mask-lt : (i : ℕ) → bit_mask i < 2 ^ 32
unfolding bit_mask
mask-lt i = pow-lt (i % 32) 32 (omega arith)

put_elem-IsValid : (b : Bitmap) (i w : ℕ) → IsValid b → w < 2 ^ 32 → IsValid (put_elem b i w)
put_elem-IsValid b i w v h = record {
  small = v.small;
  enough = rw (length-set b.bits (elem_idx i) w) v.enough;
  words = All-set (λ w. w < 2 ^ 32) b.bits (elem_idx i) w v.words h;
}

-- A write of one element whose digits agree with the old ones but for the one of `i`.
put_elem-view :
    (b : Bitmap) (i w : ℕ) (x : Bool)
    → IsValid b
    → i < b.bit_cnt
    → (bit (i % 32) w == 1) ≡ x
    → ((k : ℕ) → k < 32 → k ≢ i % 32 → bit k w ≡ bit k (elem b i))
    → (j : ℕ) → view (put_elem b i w) j ≡ (if i == j then x else view b j)
unfolding view
put_elem-view b i w x v h hit miss j = elim (ℕ_discrete (elem_idx i) (elem_idx j)) [
  | no apart ↦ rw (
    get_or-set_ne b.bits (elem_idx i) (elem_idx j) w 0 apart,
    ==-false i j (λ e. apart (ap elem_idx e)),
  )
  | yes same ↦
      rw (← same, get_or-set_self b.bits (elem_idx i) w 0 (idx-lt b i v h))
        (elim (ℕ_discrete i j) [
          | yes e ↦ rw (← e, ==-self i) hit
          | no ne ↦
              rw (==-false i j ne)
                (ap (λ d. d == 1) (miss (j % 32) (omega arith) (remainder same ne)))
        ])
]
  where
    remainder : elem_idx i ≡ elem_idx j → i ≢ j → j % 32 ≢ i % 32
    remainder same ne e = ne (unfold elem_idx in omega (arith, same))

mask-bit_self : (i : ℕ) → bit (i % 32) (bit_mask i) ≡ 1
unfolding bit_mask
mask-bit_self i = bit-pow_self (i % 32)

mask-bit_ne : (k i : ℕ) → k ≢ i % 32 → bit k (bit_mask i) ≡ 0
unfolding bit_mask
mask-bit_ne k i h = bit-pow_ne k (i % 32) h

-- Marking a bit turns it on and leaves every other bit as it was.
pub view-mark :
    (b : Bitmap) (i : ℕ)
    → IsValid b
    → i < b.bit_cnt
    → IsValid (bitmap_mark b i)
      × ((j : ℕ) → view (bitmap_mark b i) j ≡ (if i == j then true else view b j))
unfolding bitmap_mark
view-mark b i v h = (
  put_elem-IsValid b i new v (bit_or-lt 32 (elem b i) (bit_mask i) (elem-lt b i v) (mask-lt i)),
  put_elem-view b i new true v h
      (ground (
        arith,
        bit-bit_or (i % 32) (elem b i) (bit_mask i),
        mask-bit_self i,
        bit-lt (i % 32) (elem b i),
      ))
      (λ k lt ne. ground (arith, bit-bit_or k (elem b i) (bit_mask i), mask-bit_ne k i)),
)
  where
    new : ℕ
    new = bit_or (elem b i) (bit_mask i)

-- Resetting a bit turns it off and leaves every other bit as it was.
pub view-reset :
    (b : Bitmap) (i : ℕ)
    → IsValid b
    → i < b.bit_cnt
    → IsValid (bitmap_reset b i)
      × ((j : ℕ) → view (bitmap_reset b i) j ≡ (if i == j then false else view b j))
unfolding bitmap_reset
view-reset b i v h = (
  put_elem-IsValid b i new v (omega (arith, bit_and-le (elem b i) keep, elem-lt b i v)),
  put_elem-view b i new false v h
      (ground (
        arith,
        bit-bit_and (i % 32) (elem b i) keep,
        bit-complement 32 (i % 32) (bit_mask i) (mask-lt i),
        mask-bit_self i,
      ))
      (λ k lt ne. ground (
        arith,
        bit-bit_and k (elem b i) keep,
        bit-complement 32 k (bit_mask i) (mask-lt i),
        mask-bit_ne k i,
        bit-lt k (elem b i),
      )),
)
  where
    keep : ℕ
    keep = complement 32 (bit_mask i)

    new : ℕ
    new = bit_and (elem b i) keep

-- Flipping a bit of a valid bitmap negates it, leaves every other bit as it was and keeps validity.
pub view-flip :
    (b : Bitmap) (i : ℕ)
    → IsValid b
    → i < b.bit_cnt
    → IsValid (bitmap_flip b i)
      × ((j : ℕ) → view (bitmap_flip b i) j ≡ (if i == j then not (view b i) else view b j))
unfolding bitmap_flip
view-flip b i v h = (
  put_elem-IsValid b i new v (bit_xor-lt 32 (elem b i) (bit_mask i) (elem-lt b i v) (mask-lt i)),
  put_elem-view b i new (not (view b i)) v h
      (unfold view in
        ground (
          arith,
          bit-bit_xor (i % 32) (elem b i) (bit_mask i),
          mask-bit_self i,
          bit-lt (i % 32) (elem b i),
        ))
      (λ k lt ne.
        ground
          (arith, bit-bit_xor k (elem b i) (bit_mask i), mask-bit_ne k i, bit-lt k (elem b i))),
)
  where
    new : ℕ
    new = bit_xor (elem b i) (bit_mask i)

-- `bitmap_test` returns the bit, and panics out of range.
pub test-view :
    (b : Bitmap) (i : ℕ) → bitmap_test b i ≡ (if ltb i b.bit_cnt then some (view b i) else none)
unfolding bitmap_test view bit_mask
test-view b i =
    ground (arith, bit_and-pow (i % 32) (elem b i), pow-pos (i % 32), bit-lt (i % 32) (elem b i))

-- What a write of `value` at `i` leaves behind.
pub record Written (b : Bitmap) (i : ℕ) (value : Bool) (b' : Bitmap) : Type 0 where
  pub valid : IsValid b'
  pub same_cnt : b'.bit_cnt ≡ b.bit_cnt
  pub bits_of : (j : ℕ) → view b' j ≡ (if i == j then value else view b j)

pub set-Written :
    (b : Bitmap) (i : ℕ) (value : Bool)
    → IsValid b
    → i < b.bit_cnt
    → (b' : Bitmap) × (bitmap_set b i value ≡ some b') × Written b i value b'
unfolding bitmap_set
set-Written b i true v h = (
  bitmap_mark b i,
  rw (lt→ltb i b.bit_cnt h),
  record {
    valid = (view-mark b i v h).0;
    same_cnt = unfold bitmap_mark in refl;
    bits_of = (view-mark b i v h).1;
  },
)
set-Written b i false v h = (
  bitmap_reset b i,
  rw (lt→ltb i b.bit_cnt h),
  record {
    valid = (view-reset b i v h).0;
    same_cnt = unfold bitmap_reset in refl;
    bits_of = (view-reset b i v h).1;
  },
)
