-- ===== src/Str/Tests.antt =====
-- The string routines' theorems at a memory that holds "aba" at 10.
use algorithms_prepare.Prelude.{
  ℕ, true, ◌||◌, [], ◌∷◌, zero, suc, ◌+◌, ◌<◌, ◌≡◌, ◌≢◌, refl, some, arith, ◌==◌, if◌then◌else◌,
}
use algorithms_prepare.Str.{Memory, memmove}
use algorithms_prepare.Str.Number.{
  strtol, skip_blanks, digits, next_digit, digit_of, is_negative, behind_sign, base_of,
  behind_prefix,
}
use algorithms_prepare.Str.Number.Syntax.{
  IsDigit, figure, small_letter, capital_letter, IsNumeral, minus, IsPrefixed, plain,
}
use algorithms_prepare.Str.Number.Digits.{Blanks, value, with_sign, strtol-value}
use algorithms_prepare.Str.Scan.{IsString, IsPrefix}
use algorithms_prepare.Str.Move.{Moved, memmove-Moved}

abbrev memory : Memory
memory a = if a == 10 then 97 else if a == 11 then 98 else if a == 12 then 97 else 0

memory-full : (i : ℕ) → i < 3 → memory (10 + i) ≢ 0
memory-full zero l = omega arith
memory-full (suc zero) l = omega arith
memory-full (suc (suc zero)) l = omega arith
memory-full (suc (suc (suc i))) l = absurd (omega (arith, l))

memory-IsString : IsString memory 10 3
memory-IsString = record { body = memory-full; end = refl }

memory-IsPrefix : IsPrefix memory 10 5 3
memory-IsPrefix = record { bound = omega arith; body = memory-full; end = λ l. refl }

move_example : Moved memory 11 10 3 (memmove memory 11 10 3)
move_example = memmove-Moved memory 11 10 3

-- " -12x" at 20
abbrev number : Memory
number a =
    if a == 20
    then 32
    else if a == 21
    then 45
    else if a == 22
    then 49
    else if a == 23
    then 50
    else if a == 24
    then 120
    else 0

number-Blanks : Blanks number 20 1
number-Blanks = record { blank = first_blank; stop = refl }
  where
    first_blank : (i : ℕ) → i < 1 → (number (20 + i) == 32 || number (20 + i) == 9) ≡ true
    first_blank zero l = refl
    first_blank (suc i) l = absurd (omega (arith, l))

number-IsNumeral : IsNumeral number 10 22 (1 ∷ 2 ∷ [])
number-IsNumeral = (
  omega arith,
  figure (omega arith) refl,
  (omega arith, figure (omega arith) refl, λ d l h. no_digit d l h),
)
  where
    no_digit : (d : ℕ) → d < 10 → IsDigit 120 d → ⊥
    no_digit d l (figure a e) = absurd (omega (arith, a, e))
    no_digit d l (small_letter a b e) = absurd (omega (arith, a, l))
    no_digit d l (capital_letter a b e) = absurd (omega (arith, a, l))

number-IsPrefixed : IsPrefixed number 10 22 10 22
number-IsPrefixed = plain (λ e. absurd (omega (arith, e))) (λ e. absurd (omega (arith, e)))

strtol_example :
    strtol 9 number 20 10
    ≡ some (record { val = with_sign true (value 10 0 (1 ∷ 2 ∷ [])); end = 24 })
strtol_example =
    strtol-value 9 number 20 1 10 true 22 10 22 (1 ∷ 2 ∷ []) number-Blanks (minus refl)
      number-IsPrefixed number-IsNumeral (omega arith) (omega arith)

-- "0X1f" with the base 16: the code knows the prefix in small letters only, and stops at the X.
abbrev big_x : Memory
big_x a =
    if a == 0 then 48 else if a == 1 then 88 else if a == 2 then 49 else if a == 3 then 102 else 0

stops_at_x : strtol 9 big_x 0 16 ≡ some (record { val = 0; end = 1 })
unfolding strtol skip_blanks digits next_digit digit_of is_negative behind_sign base_of
    behind_prefix
stops_at_x = refl
