-- ===== src/Str/Number/Digits.antt =====
-- What `strtol` returns for a numeral behind blanks and a sign.
use algorithms_prepare.Prelude.{
  ℕ, zero, suc, ◌+◌, ◌-◌, ◌*◌, ◌/◌, ◌%◌, ◌^◌, ◌<◌, ◌≡◌, refl, ap, sym, ◌∙◌, Bool, true, false, ◌||◌,
  List, [], ◌∷◌, some, ◌==◌, arith, length,
}
use native.Mathlib.Nat.{
  mod-add-mod, mod-mod, mul-add-mod_self_right, div-add-mod', add-mul, mul_right_comm,
}
use algorithms_prepare.Str.{Memory}
use algorithms_prepare.Str.Number.{long_mod, skip_blanks, digits, signed, strtol}
use algorithms_prepare.Str.Number.Syntax.{
  IsNumeral, IsSign, IsPrefixed, next_digit-IsDigit, next_digit-stop, sign-IsSign,
  prefix-IsPrefixed,
}

-- The number that the digits stand for, after what stands for `acc`.
unfoldable pub value : ℕ → ℕ → List ℕ → ℕ
value base acc [] = acc
value base acc (d ∷ ds) = value base (acc * base + d) ds

factor-mod : (a base : ℕ) → a * base % long_mod ≡ (a % long_mod) * base % long_mod
factor-mod a base =
    let split : a * base ≡ a / long_mod * base * long_mod + (a % long_mod) * base =
      sym (ap (λ k. k * base) (div-add-mod' a long_mod))
      ∙ add-mul (a / long_mod * long_mod) (a % long_mod) base
      ∙ ap (λ k. k + (a % long_mod) * base) (mul_right_comm (a / long_mod) long_mod base) in
    ap (λ k. k % long_mod) split
    ∙ mul-add-mod_self_right (a / long_mod * base) long_mod ((a % long_mod) * base)

step-mod :
    (base a b d : ℕ)
    → a % long_mod ≡ b % long_mod
    → (a * base + d) % long_mod ≡ (b * base + d) % long_mod
step-mod base a b d h =
    let product : a * base % long_mod ≡ b * base % long_mod =
      factor-mod a base ∙ ap (λ k. k * base % long_mod) h ∙ sym (factor-mod b base) in
    sym (mod-add-mod (a * base) long_mod d)
    ∙ ap (λ k. (k + d) % long_mod) product
    ∙ mod-add-mod (b * base) long_mod d

value-mod :
    (base a b : ℕ) (ds : List ℕ)
    → a % long_mod ≡ b % long_mod
    → value base a ds % long_mod ≡ value base b ds % long_mod
unfolding value
value-mod base a b [] h = h
value-mod base a b (d ∷ ds) h =
    value-mod base (a * base + d) (b * base + d) ds (step-mod base a b d h)

pub digits-value :
    (fuel : ℕ) (m : Memory) (s base : ℕ) (ds : List ℕ) (acc : ℕ)
    → IsNumeral m base s ds
    → length ds < fuel
    → acc < long_mod
    → digits fuel m s base acc
      ≡ some (record { val = value base acc ds % long_mod; end = s + length ds })
unfolding digits value
digits-value zero m s base ds acc h l b = absurd (omega (arith, l))
digits-value (suc fuel) m s base [] acc h l b =
    let same : acc ≡ acc % long_mod = omega (arith, b) in
    let here : s ≡ s + 0 = omega arith in
    rw (next_digit-stop m s base h, digits)
      (ap (λ v. some (record { val = v; end = s })) same
        ∙ ap (λ e. some (record { val = acc % long_mod; end = e })) here)
digits-value (suc fuel) m s base (d ∷ ds) acc h l b =
    let next = (acc * base + d) % long_mod in
    let r = digits-value fuel m (s + 1) base ds next h.2 (omega (arith, l)) (omega arith) in
    let same : value base next ds % long_mod ≡ value base (acc * base + d) ds % long_mod =
      value-mod base next (acc * base + d) ds (mod-mod (acc * base + d) long_mod) in
    let there : s + 1 + length ds ≡ s + suc (length ds) = omega arith in
    rw (next_digit-IsDigit m s base d h.0 h.1, digits)
      (r
        ∙ ap (λ v. some (record { val = v; end = s + 1 + length ds })) same
        ∙ ap (λ e. some (record { val = value base (acc * base + d) ds % long_mod; end = e }))
            there)

-- Blanks and tabs before `s`, and none at it.
pub record Blanks (m : Memory) (s n : ℕ) : Type 0 where
  pub blank : (i : ℕ) → i < n → (m (s + i) == 32 || m (s + i) == 9) ≡ true
  pub stop : (m (s + n) == 32 || m (s + n) == 9) ≡ false

skip_blanks-Blanks :
    (fuel : ℕ) (m : Memory) (s n : ℕ)
    → Blanks m s n
    → n < fuel
    → skip_blanks fuel m s ≡ some (s + n)
unfolding skip_blanks
skip_blanks-Blanks zero m s n h l = absurd (omega (arith, l))
skip_blanks-Blanks (suc fuel) m s zero h l =
    let here : s + 0 ≡ s = omega arith in
    rw (ap (λ a. m a == 32 || m a == 9) (sym here) ∙ h.stop) (ap some (sym here))
skip_blanks-Blanks (suc fuel) m s (suc n) h l =
    let here : s + 0 ≡ s = omega arith in
    let behind : (i : ℕ) → s + 1 + i ≡ s + suc i = λ i. omega arith in
    let rest : Blanks m (s + 1) n = record {
      blank =
          λ i k. ap (λ a. m a == 32 || m a == 9) (behind i) ∙ h.blank (suc i) (omega (arith, k));
      stop = ap (λ a. m a == 32 || m a == 9) (behind n) ∙ h.stop;
    } in
    rw (ap (λ a. m a == 32 || m a == 9) (sym here) ∙ h.blank 0 (omega arith))
      (skip_blanks-Blanks fuel m (s + 1) n rest (omega (arith, l)) ∙ ap some (behind n))

-- The value with its sign, as the 32 bits of a `long`.
abbrev pub with_sign : Bool → ℕ → ℕ
with_sign true v = (2 ^ 32 - v % 2 ^ 32) % 2 ^ 32
with_sign false v = v % 2 ^ 32

signed-with_sign :
    (b : Bool) (v e : ℕ)
    → signed b (record { val = v % long_mod; end = e })
      ≡ some (record { val = with_sign b v; end = e })
signed-with_sign true v e = refl
signed-with_sign false v e = refl

-- On blanks and tabs, then a plus, a minus or no sign, then a prefix or none (0x where the base
-- asked for is 0 or 16, which makes it 16, or 0 where it is 0, which makes it 8, while 0 without a
-- prefix makes it 10), then digits below that base, the letters of both cases standing for 10 to
-- 35, and no further such digit, with fuel for the blanks and the digits, `strtol` returns what the
-- digits stand for, negated behind a minus, modulo 2 ^ 32, and the pointer behind them.
pub strtol-value :
    (fuel : ℕ) (m : Memory) (s n base : ℕ) (neg : Bool) (t r u : ℕ) (ds : List ℕ)
    → Blanks m s n
    → IsSign m (s + n) neg t
    → IsPrefixed m base t r u
    → IsNumeral m r u ds
    → n < fuel
    → length ds < fuel
    → strtol fuel m s base
      ≡ some (record { val = with_sign neg (value r 0 ds); end = u + length ds })
unfolding strtol
strtol-value fuel m s n base neg t r u ds b g p h l k =
    let a = s + n in
    let (negative, behind) = sign-IsSign m a neg t g in
    let (radix, first) = prefix-IsPrefixed m base t r u p in
    let d = digits-value fuel m u r ds 0 h k (omega arith) in
    rw (skip_blanks-Blanks fuel m s n b l, behind, first, radix, d, negative)
      (signed-with_sign neg (value r 0 ds) _)
