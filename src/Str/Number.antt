-- ===== src/Str/Number.antt =====
-- `strtol` of libs/string.c. A `long` is its 32 bits, as the code does not detect overflow; the loops
-- run on fuel, one round for each character.
pub mod Syntax
pub mod Digits
use algorithms_prepare.Prelude.{
  ℕ, zero, suc, ◌+◌, ◌-◌, ◌*◌, ◌%◌, ◌^◌, Bool, true, false, ◌&&◌, ◌||◌, Option, none, some, ◌>>=◌,
  if◌then◌else◌, ltb, leb, ◌==◌,
}
use algorithms_prepare.Str.{Memory}

abbrev pub long_mod : ℕ
long_mod = 2 ^ 32

-- Whether a character lies between two others.
abbrev pub between : ℕ → ℕ → ℕ → Bool
between a c b = leb a c && leb c b

-- `'0'` to `'9'`, `'a'` to `'z'`, `'A'` to `'Z'`
unfoldable pub digit_of : ℕ → Option ℕ
digit_of c =
    if between 48 c 57
    then some (c - 48)
    else if between 97 c 122
    then some (c - 97 + 10)
    else if between 65 c 90
    then some (c - 65 + 10)
    else none

-- The loop over blanks and tabs.
unfoldable pub skip_blanks : ℕ → Memory → ℕ → Option ℕ
skip_blanks zero m s = none
skip_blanks (suc fuel) m s =
    let rest = skip_blanks fuel m (s + 1) in if m s == 32 || m s == 9 then rest else some s

-- The value and the pointer behind the last digit.
pub record Parsed : Type 0 where
  pub val : ℕ
  pub end : ℕ

-- The digit that the loop takes, or its end.
unfoldable pub next_digit : Memory → ℕ → ℕ → Option ℕ
unfolding digit_of
next_digit m s base = digit_of (m s) >>= λ dig. if leb base dig then none else some dig

unfoldable pub digits : ℕ → Memory → ℕ → ℕ → ℕ → Option Parsed
digits zero m s base val = none
digits (suc fuel) m s base val = elim (next_digit m s base) [
  | none ↦ some (record { val = val; end = s })
  | some dig ↦ digits fuel m (s + 1) base ((val * base + dig) % long_mod)
]

-- The sign and the pointer behind it.
unfoldable pub is_negative : Memory → ℕ → Bool
is_negative m s = m s == 45

unfoldable pub behind_sign : Memory → ℕ → ℕ
behind_sign m s = if m s == 43 || m s == 45 then s + 1 else s

abbrev pub hex_prefix : Memory → ℕ → ℕ → Bool
hex_prefix m s base = (base == 0 || base == 16) && (m s == 48 && m (s + 1) == 120)

unfoldable pub base_of : Memory → ℕ → ℕ → ℕ
base_of m s base =
    if hex_prefix m s base
    then 16
    else if base == 0 && m s == 48
    then 8
    else if base == 0
    then 10
    else base

unfoldable pub behind_prefix : Memory → ℕ → ℕ → ℕ
behind_prefix m s base =
    if hex_prefix m s base then s + 2 else if base == 0 && m s == 48 then s + 1 else s

-- `neg ? -val : val`
abbrev pub signed : Bool → Parsed → Option Parsed
signed true p = some (record p { val = (long_mod - p.val) % long_mod })
signed false p = some p

unfoldable pub strtol : ℕ → Memory → ℕ → ℕ → Option Parsed
strtol fuel m s base = do
  s1 ← skip_blanks fuel m s
  let s2 = behind_sign m s1
  p ← digits fuel m (behind_prefix m s2 base) (base_of m s2 base) 0
  signed (is_negative m s1) p
