-- ===== src/Bitmap.antt =====
-- lib/kernel/bitmap.c of proj-pregame: a bitmap over an array of 32-bit elements (`unsigned long`
-- on the i386 target). A failed ASSERT is `none`. `size_t` sums wrap at 2 ^ 32.
mod Tests
pub mod View
pub mod Range
pub mod Scan
use algorithms_prepare.Prelude.{
  ℕ, zero, suc, ◌+◌, ◌-◌, ◌*◌, ◌/◌, ◌%◌, ◌^◌, Bool, true, false, not, List, Option, none, some,
  bit_and, bit_or, bit_xor, ◌>>=◌, ◌>>◌, assert, if◌then◌else◌, ltb, leb, ◌==◌, bool_eq, get_or,
  set,
}
use algorithms_prepare.Prelude.Bits.{complement}
use mathlib.Core.Option
use mathlib.Core.List

pub record Bitmap : Type 0 where
  pub bit_cnt : ℕ
  pub bits : List ℕ

abbrev pub elem_bits : ℕ
elem_bits = 32

abbrev pub size_mod : ℕ
size_mod = 2 ^ 32

-- SIZE_MAX
abbrev pub bitmap_error : ℕ
bitmap_error = 2 ^ 32 - 1

abbrev pub add_size : ℕ → ℕ → ℕ
add_size a b = (a + b) % size_mod

unfoldable pub elem_idx : ℕ → ℕ
elem_idx bit_idx = bit_idx / elem_bits

unfoldable pub bit_mask : ℕ → ℕ
bit_mask bit_idx = 2 ^ (bit_idx % elem_bits)

unfoldable pub elem_cnt : ℕ → ℕ
elem_cnt bit_cnt = add_size bit_cnt (elem_bits - 1) / elem_bits

unfoldable pub byte_cnt : ℕ → ℕ
byte_cnt bit_cnt = 4 * elem_cnt bit_cnt

unfoldable pub last_mask : Bitmap → ℕ
last_mask b =
    let last_bits = b.bit_cnt % elem_bits in
    if last_bits == 0 then 2 ^ elem_bits - 1 else 2 ^ last_bits - 1

-- `sizeof(struct bitmap)` is 8.
unfoldable pub bitmap_buf_size : ℕ → ℕ
unfolding byte_cnt elem_cnt
bitmap_buf_size bit_cnt = add_size 8 (byte_cnt bit_cnt)

unfoldable pub bitmap_size : Bitmap → ℕ
bitmap_size b = b.bit_cnt

-- An element read or written out of the array would be a stray access; `View.IsValid` rules it out.
abbrev pub elem : Bitmap → ℕ → ℕ
elem b i = get_or b.bits (elem_idx i) 0

abbrev pub put_elem : Bitmap → ℕ → ℕ → Bitmap
put_elem b i w = record b { bits = set b.bits (elem_idx i) w }

unfoldable pub bitmap_mark : Bitmap → ℕ → Bitmap
bitmap_mark b bit_idx = put_elem b bit_idx (bit_or (elem b bit_idx) (bit_mask bit_idx))

unfoldable pub bitmap_reset : Bitmap → ℕ → Bitmap
bitmap_reset b bit_idx =
    put_elem b bit_idx (bit_and (elem b bit_idx) (complement elem_bits (bit_mask bit_idx)))

unfoldable pub bitmap_flip : Bitmap → ℕ → Bitmap
bitmap_flip b bit_idx = put_elem b bit_idx (bit_xor (elem b bit_idx) (bit_mask bit_idx))

unfoldable pub bitmap_set : Bitmap → ℕ → Bool → Option Bitmap
bitmap_set b idx value = do
  assert (ltb idx b.bit_cnt)
  some (if value then bitmap_mark b idx else bitmap_reset b idx)

unfoldable pub bitmap_test : Bitmap → ℕ → Option Bool
bitmap_test b idx = do
  assert (ltb idx b.bit_cnt)
  some (not (bit_and (elem b idx) (bit_mask idx) == 0))

-- The loop of `bitmap_set_multiple`, with `n` rounds left.
unfoldable pub set_from : ℕ → ℕ → Bool → Bitmap → Option Bitmap
set_from zero i value b = some b
set_from (suc n) i value b = bitmap_set b i value >>= set_from n (i + 1) value

-- The two ASSERTs of every operation on a range.
unfoldable pub assert_range : Bitmap → ℕ → ℕ → Option (Unit {0})
assert_range b start cnt =
    assert (leb start b.bit_cnt) >> assert (leb (add_size start cnt) b.bit_cnt)

unfoldable pub bitmap_set_multiple : Bitmap → ℕ → ℕ → Bool → Option Bitmap
unfolding assert_range
bitmap_set_multiple b start cnt value = assert_range b start cnt >> set_from cnt start value b

unfoldable pub bitmap_set_all : Bitmap → Bool → Option Bitmap
bitmap_set_all b value = bitmap_set_multiple b 0 (bitmap_size b) value

unfoldable pub count_from : ℕ → ℕ → Bool → ℕ → Bitmap → Option ℕ
count_from zero i value value_cnt b = some value_cnt
count_from (suc n) i value value_cnt b = do
  t ← bitmap_test b i
  count_from n (i + 1) value (if bool_eq t value then value_cnt + 1 else value_cnt) b

unfoldable pub bitmap_count : Bitmap → ℕ → ℕ → Bool → Option ℕ
unfolding assert_range
bitmap_count b start cnt value = assert_range b start cnt >> count_from cnt start value 0 b

unfoldable pub contains_from : ℕ → ℕ → Bool → Bitmap → Option Bool
contains_from zero i value b = some false
contains_from (suc n) i value b = do
  t ← bitmap_test b i
  let rest = contains_from n (i + 1) value b
  if bool_eq t value then some true else rest

unfoldable pub bitmap_contains : Bitmap → ℕ → ℕ → Bool → Option Bool
unfolding assert_range
bitmap_contains b start cnt value = assert_range b start cnt >> contains_from cnt start value b

unfoldable pub bitmap_any : Bitmap → ℕ → ℕ → Option Bool
bitmap_any b start cnt = bitmap_contains b start cnt true

unfoldable pub bitmap_none : Bitmap → ℕ → ℕ → Option Bool
bitmap_none b start cnt = do c ← bitmap_contains b start cnt true; some (not c)

unfoldable pub bitmap_all : Bitmap → ℕ → ℕ → Option Bool
bitmap_all b start cnt = do c ← bitmap_contains b start cnt false; some (not c)

-- The loop of `bitmap_scan` over `i = start .. last`, with `n` rounds left.
unfoldable pub scan_from : ℕ → ℕ → ℕ → Bool → Bitmap → Option ℕ
scan_from zero i cnt value b = some bitmap_error
scan_from (suc n) i cnt value b = do
  c ← bitmap_contains b i cnt (not value)
  let rest = scan_from n (i + 1) cnt value b
  if c then rest else some i

-- `last + 1 - start` rounds, none of them if `start > last`.
unfoldable pub bitmap_scan : Bitmap → ℕ → ℕ → Bool → Option ℕ
unfolding scan_from
bitmap_scan b start cnt value = do
  assert (leb start b.bit_cnt)
  if leb cnt b.bit_cnt
      then scan_from (b.bit_cnt - cnt + 1 - start) start cnt value b
      else some bitmap_error

unfoldable pub bitmap_scan_and_flip : Bitmap → ℕ → ℕ → Bool → Option (ℕ × Bitmap)
bitmap_scan_and_flip b start cnt value = do
  idx ← bitmap_scan b start cnt value
  if idx == bitmap_error
      then some (idx, b)
      else bitmap_set_multiple b idx cnt (not value) >>= λ b'. some (idx, b')

-- `block` is what malloc returns for the elements: garbage of the right length, or a null pointer.
unfoldable pub bitmap_create : Bool → Option (List ℕ) → ℕ → Option (Option Bitmap)
bitmap_create struct_ok block bit_cnt =
    if struct_ok
    then elim block [
      | none ↦
          if bit_cnt == 0
          then Option.map some (bitmap_set_all (record { bit_cnt = bit_cnt; bits = List.[] }) false)
          else some none
      | some bits ↦
          Option.map some (bitmap_set_all (record { bit_cnt = bit_cnt; bits = bits }) false)
    ]
    else some none

-- `bits` is what the buffer behind the header holds.
unfoldable pub bitmap_create_in_buf : ℕ → List ℕ → ℕ → Option Bitmap
bitmap_create_in_buf bit_cnt bits block_size = do
  assert (leb (bitmap_buf_size bit_cnt) block_size)
  bitmap_set_all (record { bit_cnt = bit_cnt; bits = bits }) false
