-- ===== src/Str/Compare.antt =====
-- The comparisons: `strcmp`, `strncmp` and `memcmp`.
use algorithms_prepare.Prelude.{
  ℕ, zero, suc, ◌+◌, ◌≤◌, ◌<◌, ◌≡◌, ◌↔◌, inl, inr, refl, ◌∙◌, subst, fun_ext, Bool, true, false,
  ◌&&◌, not, some, if◌then◌else◌, ltb, ◌==◌, arith, Bool-cases,
}
use algorithms_prepare.Str.{Memory, ℤ, pos, diff, strcmp, strncmp, memcmp}
use algorithms_prepare.Str.Scan.{
  IsString, IsString-head, IsString-empty, IsString-tail, IsString-suc,
}

-- The first of `n` places at which a loop does not go on, or `n`.
pub record StopsAt (go : ℕ → Bool) (n i : ℕ) : Type 0 where
  pub bound : i ≤ n
  pub before : (j : ℕ) → j < i → go j ≡ true
  pub stop : i < n → go i ≡ false

StopsAt-suc :
    (go : ℕ → Bool) (n i : ℕ)
    → go 0 ≡ true
    → StopsAt (λ j. go (suc j)) n i
    → StopsAt go (suc n) (suc i)
StopsAt-suc go n i h p = record {
  bound = omega (arith, p.bound);
  before = before;
  stop = λ l. p.stop (omega (arith, l));
}
  where
    before : (j : ℕ) → j < suc i → go j ≡ true
    before zero l = h
    before (suc j) l = p.before j (omega (arith, l))

StopsAt-here : (go : ℕ → Bool) (n : ℕ) → (0 < n → go 0 ≡ false) → StopsAt go n 0
StopsAt-here go n h = record {
  bound = omega arith;
  before = λ j l. absurd (omega (arith, l));
  stop = h;
}

-- The tests of the loops at the offset `j`.
abbrev pub same_byte : Memory → ℕ → ℕ → ℕ → Bool
same_byte m s1 s2 j = m (s1 + j) == m (s2 + j)

abbrev pub same_char : Memory → ℕ → ℕ → ℕ → Bool
same_char m s1 s2 j = not (m (s1 + j) == 0) && m (s1 + j) == m (s2 + j)

-- What a comparison returns that stops at `i`.
abbrev pub verdict : Memory → ℕ → ℕ → ℕ → ℕ → ℤ
verdict m s1 s2 n i = if ltb i n then diff (m (s1 + i)) (m (s2 + i)) else pos 0

shift : (s i : ℕ) → s + 1 + i ≡ s + suc i
shift s i = omega arith

plus_zero : (s : ℕ) → s + 0 ≡ s
plus_zero s = omega arith

verdict_zero : (m : Memory) (s1 s2 n : ℕ) → diff (m s1) (m s2) ≡ verdict m s1 s2 (suc n) 0
verdict_zero m s1 s2 n = ground (arith, plus_zero s1, plus_zero s2)

verdict-suc :
    (m : Memory) (s1 s2 n i : ℕ) → verdict m (s1 + 1) (s2 + 1) n i ≡ verdict m s1 s2 (suc n) (suc i)
verdict-suc m s1 s2 n i = ground (arith, shift s1 i, shift s2 i)

same_byte-shift :
    (m : Memory) (s1 s2 : ℕ) → same_byte m (s1 + 1) (s2 + 1) ≡ (λ j. same_byte m s1 s2 (suc j))
same_byte-shift m s1 s2 = fun_ext λ j. rw (shift s1 j, shift s2 j) refl

same_char-shift :
    (m : Memory) (s1 s2 : ℕ) → same_char m (s1 + 1) (s2 + 1) ≡ (λ j. same_char m s1 s2 (suc j))
same_char-shift m s1 s2 = fun_ext λ j. rw (shift s1 j, shift s2 j) refl

-- `memcmp` returns the difference of the first bytes that differ, and 0 where none of the `n` do.
pub memcmp-StopsAt :
    (m : Memory) (s1 s2 n : ℕ)
    → (i : ℕ) × (memcmp m s1 s2 n ≡ verdict m s1 s2 n i) × StopsAt (same_byte m s1 s2) n i
unfolding memcmp
memcmp-StopsAt m s1 s2 zero = (0, refl, StopsAt-here _ 0 (λ l. absurd (omega (arith, l))))
memcmp-StopsAt m s1 s2 (suc n) =
    let at_zero : same_byte m s1 s2 0 ≡ (m s1 == m s2) = rw (plus_zero s1, plus_zero s2) refl in
    elim (Bool-cases (m s1 == m s2)) [
      | inl e ↦
          let (i, r, p) = memcmp-StopsAt m (s1 + 1) (s2 + 1) n in
          (
            suc i,
            rw e (r ∙ verdict-suc m s1 s2 n i),
            StopsAt-suc (same_byte m s1 s2) n i (at_zero ∙ e)
                (subst (λ go. StopsAt go n i) (same_byte-shift m s1 s2) p),
          )
      | inr e ↦ (
        0,
        rw e (verdict_zero m s1 s2 n),
        StopsAt-here (same_byte m s1 s2) (suc n) (λ l. at_zero ∙ e),
      )
    ]

-- `strncmp` returns the difference of the first of the `n` characters that differ or end the first string, and 0 where there are none.
pub strncmp-StopsAt :
    (m : Memory) (s1 s2 n : ℕ)
    → (i : ℕ) × (strncmp m s1 s2 n ≡ verdict m s1 s2 n i) × StopsAt (same_char m s1 s2) n i
unfolding strncmp
strncmp-StopsAt m s1 s2 zero = (0, refl, StopsAt-here _ 0 (λ l. absurd (omega (arith, l))))
strncmp-StopsAt m s1 s2 (suc n) =
    let at_zero : same_char m s1 s2 0 ≡ (not (m s1 == 0) && m s1 == m s2) =
      rw (plus_zero s1, plus_zero s2) refl in
    elim (Bool-cases (not (m s1 == 0) && m s1 == m s2)) [
      | inl e ↦
          let (i, r, p) = strncmp-StopsAt m (s1 + 1) (s2 + 1) n in
          (
            suc i,
            rw e (r ∙ verdict-suc m s1 s2 n i),
            StopsAt-suc (same_char m s1 s2) n i (at_zero ∙ e)
                (subst (λ go. StopsAt go n i) (same_char-shift m s1 s2) p),
          )
      | inr e ↦ (
        0,
        rw e (verdict_zero m s1 s2 n),
        StopsAt-here (same_char m s1 s2) (suc n) (λ l. at_zero ∙ e),
      )
    ]

-- With fuel for the first string, `strcmp` returns what `strncmp` does for any bound past it.
pub strcmp-strncmp :
    (fuel : ℕ) (m : Memory) (s1 s2 n bound : ℕ)
    → IsString m s1 n
    → n < fuel
    → n < bound
    → strcmp fuel m s1 s2 ≡ some (strncmp m s1 s2 bound)
unfolding strcmp strncmp
strcmp-strncmp zero m s1 s2 n b h l k = absurd (omega (arith, l))
strcmp-strncmp (suc fuel) m s1 s2 n zero h l k = absurd (omega (arith, k))
strcmp-strncmp (suc fuel) m s1 s2 zero (suc b) h l k = rw (IsString-empty m s1 h) refl
strcmp-strncmp (suc fuel) m s1 s2 (suc n) (suc b) h l k =
    let h' = IsString-suc m s1 n h in
    let r =
      strcmp-strncmp fuel m (s1 + 1) (s2 + 1) n b (IsString-tail m s1 n h') (omega (arith, l))
        (omega (arith, k)) in
    ground (arith, r, IsString-head m s1 n h')

-- A comparison's result is 0 exactly for equal bytes.
pub diff_zero : (a b : ℕ) → (diff a b ≡ pos 0) ↔ (a ≡ b)
unfolding diff
diff_zero a b = (ground arith, ground arith)
