-- ===== src/Str/Number/Syntax.antt =====
-- The texts that `strtol` reads: signs, prefixes and numerals, said without its functions.
use algorithms_prepare.Prelude.{
  ℕ, ◌+◌, ◌-◌, ◌<◌, ◌≡◌, ◌≢◌, ◌⊎◌, inl, inr, ◌≤◌, refl, Bool, true, false, List, [], ◌∷◌, none,
  some, arith, leb, Bool-cases,
}
use algorithms_prepare.Str.{Memory}
use algorithms_prepare.Str.Number.{
  between, digit_of, next_digit, is_negative, behind_sign, base_of, behind_prefix,
}

-- The character `c` stands for the digit `d`: the figures from '0' on, and behind nine the letters from
-- 'a' on or from 'A' on.
pub data IsDigit (c d : ℕ) : Type 0 where
  figure : d < 10 → c ≡ 48 + d → IsDigit c d
  small_letter : 10 ≤ d → d < 36 → c ≡ 97 + (d - 10) → IsDigit c d
  capital_letter : 10 ≤ d → d < 36 → c ≡ 65 + (d - 10) → IsDigit c d

-- The numeral at `s` has these digits, all below the base, and none stands behind it.
abbrev pub IsNumeral : Memory → ℕ → ℕ → List ℕ → Type 0
IsNumeral m base s [] = (d : ℕ) → d < base → IsDigit (m s) d → ⊥
IsNumeral m base s (d ∷ ds) = (d < base) × IsDigit (m s) d × IsNumeral m base (s + 1) ds

-- A sign at `s`, or none: whether it is a minus, and the place behind it.
pub data IsSign (m : Memory) (s : ℕ) : Bool → ℕ → Type 0 where
  plus : m s ≡ 43 → IsSign m s false (s + 1)
  minus : m s ≡ 45 → IsSign m s true (s + 1)
  unsigned : m s ≢ 43 → m s ≢ 45 → IsSign m s false s

-- A prefix at `s`, or none, where the caller asks for `base`: the base of the numeral, and the place
-- behind the prefix.
pub data IsPrefixed (m : Memory) (base s : ℕ) : ℕ → ℕ → Type 0 where
  hexadecimal :
      (base ≡ 0) ⊎ (base ≡ 16) → m s ≡ 48 → m (s + 1) ≡ 120 → IsPrefixed m base s 16 (s + 2)
  octal : base ≡ 0 → m s ≡ 48 → m (s + 1) ≢ 120 → IsPrefixed m base s 8 (s + 1)
  decimal : base ≡ 0 → m s ≢ 48 → IsPrefixed m base s 10 s
  plain : base ≢ 0 → base ≢ 16 → IsPrefixed m base s base s
  plain_sixteen : base ≡ 16 → (m s ≢ 48) ⊎ (m (s + 1) ≢ 120) → IsPrefixed m base s 16 s

digit_of-IsDigit : (c d : ℕ) → IsDigit c d → digit_of c ≡ some d
unfolding digit_of
digit_of-IsDigit c d (figure a e) = ground (arith, a, e)
digit_of-IsDigit c d (small_letter a b e) = ground (arith, a, b, e)
digit_of-IsDigit c d (capital_letter a b e) = ground (arith, a, b, e)

pub next_digit-IsDigit :
    (m : Memory) (s base d : ℕ) → d < base → IsDigit (m s) d → next_digit m s base ≡ some d
unfolding next_digit
next_digit-IsDigit m s base d l h = rw (digit_of-IsDigit (m s) d h) (ground (arith, l))

-- Every character that the code takes is one of these.
IsDigit-digit_of : (c : ℕ) → (digit_of c ≡ none) ⊎ ((d : ℕ) × (digit_of c ≡ some d) × IsDigit c d)
unfolding digit_of
IsDigit-digit_of c = elim (Bool-cases (between 48 c 57)) [
  | inl e ↦ inr (c - 48, rw e refl, figure (ground (arith, e)) (ground (arith, e)))
  | inr e ↦ elim (Bool-cases (between 97 c 122)) [
    | inl k ↦ inr (
      c - 97 + 10,
      rw (e, k) refl,
      small_letter (omega arith) (ground (arith, k)) (ground (arith, k)),
    )
    | inr k ↦ elim (Bool-cases (between 65 c 90)) [
      | inl j ↦ inr (
        c - 65 + 10,
        rw (e, k, j) refl,
        capital_letter (omega arith) (ground (arith, j)) (ground (arith, j)),
      )
      | inr j ↦ inl (rw (e, k, j) refl)
    ]
  ]
]

pub next_digit-stop :
    (m : Memory) (s base : ℕ)
    → ((d : ℕ) → d < base → IsDigit (m s) d → ⊥)
    → next_digit m s base ≡ none
unfolding next_digit
next_digit-stop m s base h = elim (IsDigit-digit_of (m s)) [
  | inl e ↦ rw e refl
  | inr (d, e, k) ↦ elim (Bool-cases (leb base d)) [
    | inl l ↦ rw (e, l) refl
    | inr l ↦ absurd (h d (ground (arith, l)) k)
  ]
]

pub sign-IsSign :
    (m : Memory) (s : ℕ) (b : Bool) (t : ℕ)
    → IsSign m s b t
    → (is_negative m s ≡ b) × (behind_sign m s ≡ t)
unfolding is_negative behind_sign
sign-IsSign m s _ _ (plus e) = (ground (arith, e), ground (arith, e))
sign-IsSign m s _ _ (minus e) = (ground (arith, e), ground (arith, e))
sign-IsSign m s _ _ (unsigned e k) = (ground (arith, e, k), ground (arith, e, k))

pub prefix-IsPrefixed :
    (m : Memory) (base s r t : ℕ)
    → IsPrefixed m base s r t
    → (base_of m s base ≡ r) × (behind_prefix m s base ≡ t)
unfolding base_of behind_prefix
prefix-IsPrefixed m base s _ _ (hexadecimal (inl b) e k) =
    (ground (arith, b, e, k), ground (arith, b, e, k))
prefix-IsPrefixed m base s _ _ (hexadecimal (inr b) e k) =
    (ground (arith, b, e, k), ground (arith, b, e, k))
prefix-IsPrefixed m base s _ _ (octal b e k) = (ground (arith, b, e, k), ground (arith, b, e, k))
prefix-IsPrefixed m base s _ _ (decimal b e) = (ground (arith, b, e), ground (arith, b, e))
prefix-IsPrefixed m base s _ _ (plain b e) = (ground (arith, b, e), ground (arith, b, e))
prefix-IsPrefixed m base s _ _ (plain_sixteen b (inl e)) =
    (ground (arith, b, e), ground (arith, b, e))
prefix-IsPrefixed m base s _ _ (plain_sixteen b (inr e)) =
    (ground (arith, b, e), ground (arith, b, e))
