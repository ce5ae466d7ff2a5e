-- ===== src/Bitmap/Scan.antt =====
-- `bitmap_scan` and `bitmap_scan_and_flip`: the first group of equal bits.
use algorithms_prepare.Prelude.{
  ℕ, zero, suc, ◌+◌, ◌-◌, ◌≤◌, ◌<◌, ◌≡◌, ◌≢◌, refl, ◌∙◌, Bool, true, false, not, Option, some,
  ◌>>=◌, arith, if◌then◌else◌, ◌==◌, le→leb, leb-false, inl, inr, ◌⊎◌, ℕ_discrete, dec_lt, ==-false,
}
use algorithms_prepare.Bitmap.{
  contains_from, assert_range, set_from, Bitmap, bitmap_error, bitmap_contains, scan_from,
  bitmap_scan, bitmap_set_multiple, bitmap_scan_and_flip, add_size,
}
use algorithms_prepare.Bitmap.View.{IsValid}
use algorithms_prepare.Bitmap.Range.{
  IsGroup, Answers, contains-Answers, Filled, set_multiple-Filled,
}

-- What a scan may return.
pub data Scanned (b : Bitmap) (start cnt : ℕ) (value : Bool) (r : ℕ) : Type 0 where
  found :
      start ≤ r
      → r + cnt ≤ b.bit_cnt
      → IsGroup b r cnt value
      → ((k : ℕ) → start ≤ k → k < r → ¬ IsGroup b k cnt value)
      → Scanned b start cnt value r
  missing :
      r ≡ bitmap_error
      → ((k : ℕ) → start ≤ k → k + cnt ≤ b.bit_cnt → ¬ IsGroup b k cnt value)
      → Scanned b start cnt value r

not-not : (x : Bool) → not (not x) ≡ x
not-not true = refl
not-not false = refl

not-ne : (x : Bool) → x ≢ not x
not-ne true e = cc
not-ne false e = cc

module _ (b : Bitmap) (cnt : ℕ) (value : Bool) (v : IsValid b) where
  no_group : (i : ℕ) → Answers b i cnt (not value) true → ¬ IsGroup b i cnt value
  no_group i a g = let (j, l, u, s) = a.found refl in not-ne value (ground (arith, s, g j l u))

  shift :
      (i r : ℕ) → Scanned b (i + 1) cnt value r → ¬ IsGroup b i cnt value → Scanned b i cnt value r
  shift i r (found l u g first) h =
      found (omega arith) u g
        λ k p q. elim (ℕ_discrete i k) [ yes e ↦ subst_group k e | no ne ↦ first k (omega arith) q ]
    where
      subst_group : (k : ℕ) → i ≡ k → ¬ IsGroup b k cnt value
      subst_group k e g' = h (λ j p q. g' j (omega arith) (omega arith))
  shift i r (missing e none_later) h = missing e λ k p q. elim (ℕ_discrete i k) [
    | yes e' ↦ subst_group k e'
    | no ne ↦ none_later k (omega arith) q
  ]
    where
      subst_group : (k : ℕ) → i ≡ k → ¬ IsGroup b k cnt value
      subst_group k e' g' = h (λ j p q. g' j (omega arith) (omega arith))

  scan_step :
      (i : ℕ) (rest : Option ℕ) (c : Bool)
      → Answers b i cnt (not value) c
      → (r : ℕ) × (rest ≡ some r) × Scanned b (i + 1) cnt value r
      → i + cnt ≤ b.bit_cnt
      → (r : ℕ) × ((if c then rest else some i) ≡ some r) × Scanned b i cnt value r
  scan_step i rest true a (r, e, s) h = (r, e, shift i r s (no_group i a))
  scan_step i rest false a ih h = (
    i,
    refl,
    found (omega arith) h (λ j l u. a.missing refl j l u ∙ not-not value)
        (λ k p q. absurd (omega arith)),
  )

  scan_from-Scanned :
      (n i : ℕ)
      → (i + n ≡ b.bit_cnt - cnt + 1) ⊎ ((n ≡ 0) × (b.bit_cnt < i + cnt))
      → cnt ≤ b.bit_cnt
      → (r : ℕ) × (scan_from n i cnt value b ≡ some r) × Scanned b i cnt value r
  unfolding scan_from
  scan_from-Scanned zero i e h = (bitmap_error, refl, missing refl (λ k p q. absurd (omega arith)))
  scan_from-Scanned (suc n) i e h =
      let (c, q, a) = contains-Answers b i cnt (not value) v (omega arith) in
      rw (q, ◌>>=◌)
        (scan_step i (scan_from n (i + 1) cnt value b) c a
          (scan_from-Scanned n (i + 1) (inl (omega arith)) h) (omega arith))

  scan-Scanned_lem :
      (start : ℕ)
      → start ≤ b.bit_cnt
      → (r : ℕ) × (bitmap_scan b start cnt value ≡ some r) × Scanned b start cnt value r
  unfolding bitmap_scan
  scan-Scanned_lem start h = elim (dec_lt b.bit_cnt cnt) [
    | yes p ↦
        rw (le→leb start b.bit_cnt h, leb-false cnt b.bit_cnt p)
          (bitmap_error, refl, missing refl (λ k q u. absurd (omega arith)))
    | no p ↦
        rw (le→leb start b.bit_cnt h, le→leb cnt b.bit_cnt (omega arith))
          (scan_from-Scanned (b.bit_cnt - cnt + 1 - start) start (rounds start p h) (omega arith))
  ]
    where
      rounds :
          (start : ℕ)
          → ¬ (b.bit_cnt < cnt)
          → start ≤ b.bit_cnt
          → (start + (b.bit_cnt - cnt + 1 - start) ≡ b.bit_cnt - cnt + 1)
            ⊎ ((b.bit_cnt - cnt + 1 - start ≡ 0) × (b.bit_cnt < start + cnt))
      rounds start p h = elim (dec_lt (b.bit_cnt - cnt) start) [
        | yes q ↦ inr (omega arith, omega arith)
        | no q ↦ inl (omega arith)
      ]

-- In a valid bitmap, from a start within it, `bitmap_scan` returns the first index at or after it
-- of a group of `cnt` bits with the value, and BITMAP_ERROR exactly if there is no such group.
pub scan-Scanned :
    (b : Bitmap) (start cnt : ℕ) (value : Bool)
    → IsValid b
    → start ≤ b.bit_cnt
    → (r : ℕ) × (bitmap_scan b start cnt value ≡ some r) × Scanned b start cnt value r
scan-Scanned b start cnt value v h = scan-Scanned_lem b cnt value v start h

-- What `bitmap_scan_and_flip` leaves: the group with the other value and all else as it was; or,
-- with BITMAP_ERROR, the bitmap untouched.
pub data Flipped (b : Bitmap) (start cnt : ℕ) (value : Bool) (r : ℕ) (b' : Bitmap) : Type 0 where
  flipped :
      r ≢ bitmap_error
      → start ≤ r
      → r + cnt ≤ b.bit_cnt
      → IsGroup b r cnt value
      → ((k : ℕ) → start ≤ k → k < r → ¬ IsGroup b k cnt value)
      → Filled b r cnt (not value) b'
      → Flipped b start cnt value r b'
  unchanged :
      r ≡ bitmap_error
      → b' ≡ b
      → ((k : ℕ) → start ≤ k → k + cnt ≤ b.bit_cnt → ¬ IsGroup b k cnt value)
      → Flipped b start cnt value r b'

-- In a valid bitmap, from a start within it, `bitmap_scan_and_flip` finds the first group of `cnt`
-- bits with the value and gives all of it the other value; without a group it changes nothing.
pub scan_and_flip-Flipped :
    (b : Bitmap) (start cnt : ℕ) (value : Bool)
    → IsValid b
    → start ≤ b.bit_cnt
    → (r : ℕ) × (b' : Bitmap) × (bitmap_scan_and_flip b start cnt value ≡ some (r, b'))
      × Flipped b start cnt value r b'
unfolding bitmap_scan_and_flip
scan_and_flip-Flipped b start cnt value v h =
    let (r, e, s) = scan-Scanned b start cnt value v h in rw (e, ◌>>=◌) (flip r s)
  where
    flip :
        (r : ℕ)
        → Scanned b start cnt value r
        → (q : ℕ) × (b' : Bitmap) × (if◌then◌else◌ {A = Option (ℕ × Bitmap)}
              (r == bitmap_error)
              (some (r, b))
              (bitmap_set_multiple b r cnt (not value) >>= λ b'. some (r, b'))
            ≡ some (q, b'))
          × Flipped b start cnt value q b'
    flip r (missing e all) = rw e (bitmap_error, b, refl, unchanged refl refl all)
    flip r (found l u g first) =
        let (b', e, f) = set_multiple-Filled b r cnt (not value) v u in
        let ne : r ≢ bitmap_error = omega (arith, v.small) in
        rw (==-false r bitmap_error ne, e, ◌>>=◌) (r, b', refl, flipped ne l u g first f)

-- In a valid bitmap, with CNT zero `bitmap_scan_and_flip` returns START itself, wherever in the
-- bitmap that is.
pub scan_and_flip_none :
    (b : Bitmap) (start : ℕ) (value : Bool)
    → IsValid b
    → start ≤ b.bit_cnt
    → bitmap_scan_and_flip b start 0 value ≡ some (start, b)
unfolding bitmap_scan_and_flip bitmap_set_multiple set_from assert_range
scan_and_flip_none b start value v h = rw (
  scan_none,
  ◌>>=◌,
  ==-false start bitmap_error (omega (arith, v.small)),
  le→leb start b.bit_cnt h,
  le→leb (add_size start 0) b.bit_cnt (omega (arith, v.small)),
)
  where
    first_round : b.bit_cnt - 0 + 1 - start ≡ suc (b.bit_cnt - start)
    first_round = omega arith

    scan_none : bitmap_scan b start 0 value ≡ some start
    scan_none =
        unfold bitmap_scan scan_from bitmap_contains contains_from assert_range in
        rw (
          le→leb start b.bit_cnt h,
          le→leb 0 b.bit_cnt (omega arith),
          first_round,
          le→leb start b.bit_cnt h,
          le→leb (add_size start 0) b.bit_cnt (omega (arith, v.small)),
        )
