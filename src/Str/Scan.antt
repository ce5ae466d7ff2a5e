-- ===== src/Str/Scan.antt =====
-- The routines that run over one string: `strlen`, `strnlen`, `strchr` and `strfind`.
use algorithms_prepare.Prelude.{
  ℕ, zero, suc, ◌+◌, ◌≤◌, ◌<◌, ◌≡◌, ◌≢◌, inl, inr, refl, ap, ◌∙◌, subst, sym, true, false, Option,
  none, some, if◌then◌else◌, ltb, ◌==◌, arith, Bool-cases, ==_iff,
}
use algorithms_prepare.Str.{Memory, strlen_loop, strlen, strnlen_loop, strnlen, strchr, strfind}

-- At `s` stands a string of length `n`: the first zero byte comes after `n` others.
pub record IsString (m : Memory) (s n : ℕ) : Type 0 where
  pub body : (i : ℕ) → i < n → m (s + i) ≢ 0
  pub end : m (s + n) ≡ 0

pub IsString-suc : (m : Memory) (s n : ℕ) → IsString m s (suc n) → IsString m s (n + 1)
IsString-suc m s n h = subst (IsString m s) (omega arith) h

pub plus_zero : (s : ℕ) → s + 0 ≡ s
plus_zero s = omega arith

pub IsString-tail : (m : Memory) (s n : ℕ) → IsString m s (n + 1) → IsString m (s + 1) n
IsString-tail m s n h = record {
  body = λ i l. grind (arith, h.body (i + 1));
  end = grind (arith, h.end);
}

pub IsString-head : (m : Memory) (s n : ℕ) → IsString m s (n + 1) → (m s == 0) ≡ false
IsString-head m s n h = ground (arith, h.body 0, plus_zero s)

pub IsString-empty : (m : Memory) (s : ℕ) → IsString m s 0 → (m s == 0) ≡ true
IsString-empty m s h = ground (arith, h.end, plus_zero s)

strlen_loop-count :
    (fuel : ℕ) (m : Memory) (s n cnt : ℕ)
    → IsString m s n
    → n < fuel
    → strlen_loop fuel m s cnt ≡ some (cnt + n)
unfolding strlen_loop
strlen_loop-count zero m s n cnt h l = absurd (omega (arith, l))
strlen_loop-count (suc fuel) m s zero cnt h l = rw (IsString-empty m s h) (ap some (omega arith))
strlen_loop-count (suc fuel) m s (suc n) cnt h l =
    let h' = IsString-suc m s n h in
    let r =
      strlen_loop-count fuel m (s + 1) n (cnt + 1) (IsString-tail m s n h') (omega (arith, l)) in
    rw (IsString-head m s n h') (r ∙ ap some (omega arith))

-- `strlen` returns the length of the string, with fuel for every byte of it and the zero.
pub strlen_lem :
    (fuel : ℕ) (m : Memory) (s n : ℕ) → IsString m s n → n < fuel → strlen fuel m s ≡ some n
unfolding strlen
strlen_lem fuel m s n h l = strlen_loop-count fuel m s n 0 h l ∙ ap some (omega arith)

-- What `strnlen` returns: the number of bytes before the first zero, or `len` without one.
pub record IsPrefix (m : Memory) (s len r : ℕ) : Type 0 where
  pub bound : r ≤ len
  pub body : (i : ℕ) → i < r → m (s + i) ≢ 0
  pub end : r < len → m (s + r) ≡ 0

shift : (s i : ℕ) → s + suc i ≡ s + 1 + i
shift s i = omega arith

IsPrefix-suc :
    (m : Memory) (s len r : ℕ) → m s ≢ 0 → IsPrefix m (s + 1) len r → IsPrefix m s (suc len) (suc r)
IsPrefix-suc m s len r h p = record {
  bound = omega (arith, p.bound);
  body = body;
  end = λ l. ap m (shift s r) ∙ p.end (omega (arith, l));
}
  where
    body : (i : ℕ) → i < suc r → m (s + i) ≢ 0
    body zero l = λ e. h (sym (ap m (plus_zero s)) ∙ e)
    body (suc i) l = λ e. p.body i (omega (arith, l)) (sym (ap m (shift s i)) ∙ e)

strnlen_loop-IsPrefix :
    (left : ℕ) (m : Memory) (s cnt : ℕ)
    → (r : ℕ) × (strnlen_loop left m s cnt ≡ cnt + r) × IsPrefix m s left r
unfolding strnlen_loop
strnlen_loop-IsPrefix zero m s cnt = (
  0,
  omega arith,
  record {
    bound = omega arith;
    body = λ i l. absurd (omega (arith, l));
    end = λ l. absurd (omega (arith, l));
  },
)
strnlen_loop-IsPrefix (suc left) m s cnt = elim (Bool-cases (m s == 0)) [
  | inl z ↦ (
    0,
    rw z (omega arith),
    record {
      bound = omega arith;
      body = λ i l. absurd (omega (arith, l));
      end = λ l. ap m (plus_zero s) ∙ (==_iff (m s) 0).0 z;
    },
  )
  | inr z ↦
      let (r, e, p) = strnlen_loop-IsPrefix left m (s + 1) (cnt + 1) in
      (suc r, rw z (e ∙ omega arith), IsPrefix-suc m s left r (λ h. ground (arith, h, z)) p)
]

-- `strnlen` counts the bytes before the first zero one, and at most `len`.
pub strnlen-IsPrefix : (m : Memory) (s len : ℕ) → IsPrefix m s len (strnlen m s len)
unfolding strnlen
strnlen-IsPrefix m s len =
    let (r, e, p) = strnlen_loop-IsPrefix len m s 0 in subst (IsPrefix m s len) (omega (arith, e)) p

-- The first place of `c` in a string of length `n`, or its end.
pub record FirstAt (m : Memory) (s n c i : ℕ) : Type 0 where
  pub bound : i ≤ n
  pub before : (j : ℕ) → j < i → m (s + j) ≢ c
  pub hit : i < n → m (s + i) ≡ c

FirstAt-suc :
    (m : Memory) (s n c i : ℕ) → m s ≢ c → FirstAt m (s + 1) n c i → FirstAt m s (suc n) c (suc i)
FirstAt-suc m s n c i h p = record {
  bound = omega (arith, p.bound);
  before = before;
  hit = λ l. ap m (shift s i) ∙ p.hit (omega (arith, l));
}
  where
    before : (j : ℕ) → j < suc i → m (s + j) ≢ c
    before zero l = λ e. h (sym (ap m (plus_zero s)) ∙ e)
    before (suc j) l = λ e. p.before j (omega (arith, l)) (sym (ap m (shift s j)) ∙ e)

FirstAt-here : (m : Memory) (s n c : ℕ) → (0 < n → m s ≡ c) → FirstAt m s n c 0
FirstAt-here m s n c h = record {
  bound = omega arith;
  before = λ j l. absurd (omega (arith, l));
  hit = λ l. ap m (plus_zero s) ∙ h l;
}

-- What `strchr` answers for the place that `strfind` returns.
abbrev pub null_at : ℕ → ℕ → ℕ → Option ℕ
null_at s n i = if ltb i n then some (s + i) else none

null_at_zero : (s n : ℕ) → null_at s (suc n) 0 ≡ some s
null_at_zero s n = ground (arith, plus_zero s)

null_at-suc : (s n i : ℕ) → null_at (s + 1) n i ≡ null_at s (suc n) (suc i)
null_at-suc s n i = ground (arith, shift s i)

-- With fuel for the whole string, `strfind` returns the first place of `c` in it or the place of
-- its zero, and `strchr` the same place, but `NULL` where it is the zero's.
pub strfind-strchr :
    (fuel : ℕ) (m : Memory) (s n c : ℕ)
    → IsString m s n
    → n < fuel
    → (i : ℕ) × (strfind fuel m s c ≡ some (s + i))
      × (strchr fuel m s c ≡ some (null_at s n i))
      × FirstAt m s n c i
unfolding strfind strchr
strfind-strchr zero m s n c h l = absurd (omega (arith, l))
strfind-strchr (suc fuel) m s zero c h l =
    let z = IsString-empty m s h in
    (
      0,
      rw z (ap some (omega arith)),
      rw z refl,
      FirstAt-here m s 0 c (λ p. absurd (omega (arith, p))),
    )
strfind-strchr (suc fuel) m s (suc n) c h l =
    let h' = IsString-suc m s n h in
    let z = IsString-head m s n h' in
    elim (Bool-cases (m s == c)) [
      | inl e ↦ (
        0,
        rw (z, e) (ap some (omega arith)),
        rw (z, e) (ap some (sym (null_at_zero s n))),
        FirstAt-here m s (suc n) c (λ p. (==_iff (m s) c).0 e),
      )
      | inr e ↦
          let (i, f, g, p) =
            strfind-strchr fuel m (s + 1) n c (IsString-tail m s n h') (omega (arith, l)) in
          (
            suc i,
            rw (z, e) (f ∙ ap some (omega arith)),
            rw (z, e) (g ∙ ap some (null_at-suc s n i)),
            FirstAt-suc m s n c i (λ q. ground (arith, q, e)) p,
          )
    ]
