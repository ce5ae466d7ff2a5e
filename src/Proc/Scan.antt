-- ===== src/Proc/Scan.antt =====
-- A walk of `get_pid` over the processes: it passes no free pid.
use algorithms_prepare.Prelude.{
  ℕ, ◌+◌, ◌-◌, ◌<◌, ◌≤◌, ◌≡◌, ap, sym, ◌∙◌, subst, inl, inr, Bool, true, false, ◌&&◌, ◌||◌, List,
  [], ◌∷◌, map, if◌then◌else◌, ltb, leb, ◌==◌, arith, Bool-cases,
}
use algorithms_prepare.Sched.{linked}
use algorithms_prepare.Proc.{max_pid, Walk, walked, repeat, walk}

-- The number of increments from `l` to `f`, where 1 comes behind the greatest pid.
abbrev pub distance : ℕ → ℕ → ℕ
distance f l = if leb l f then f - l else (max_pid - l) + (f - 1)

-- The outcome of a walk from `last` and `next` over the pids `qs`: none of them from the last pid up to
-- the next safe one, or a last pid that is nearer to the free pid `f`.
pub data Outcome (f last next : ℕ) (qs : List ℕ) : Walk → Type 0 where
  ended :
      (l n : ℕ)
      → last ≤ l
      → n ≤ next
      → l < n
      → ((q : ℕ) → linked q qs ≡ true → (ltb q l || leb n q) ≡ true)
      → Outcome f last next qs (walked l n)
  nearer :
      (l : ℕ)
      → 1 ≤ l
      → l < max_pid
      → distance f l < distance f last
      → Outcome f last next qs (repeat l)

Outcome-cons :
    (f last next last' next' q : ℕ) (qs : List ℕ) (w : Walk)
    → last ≤ last'
    → next' ≤ next
    → distance f last' ≤ distance f last
    → (ltb q last' || leb next' q) ≡ true
    → Outcome f last' next' qs w
    → Outcome f last next (q ∷ qs) w
unfolding linked
Outcome-cons f last next last' next' q qs w a b c h (ended l n low high order clear) =
    ended l n (omega (arith, a, low)) (omega (arith, b, high)) order (λ i m.
      elim (Bool-cases (i == q)) [
        | inl e ↦ ground (arith, e, h, low, high)
        | inr e ↦ clear i (ground (arith, m, e))
      ])
Outcome-cons f last next last' next' q qs w a b c h (nearer l p m d) =
    nearer l p m (omega (arith, c, d))

pub walk-Outcome :
    (pid : ℕ → ℕ) (ps : List ℕ) (f last next : ℕ)
    → 1 ≤ f
    → f < max_pid
    → linked f (map pid ps) ≡ false
    → 1 ≤ last
    → last < next
    → next ≤ max_pid
    → Outcome f last next (map pid ps) (walk pid ps last next)
unfolding walk linked
walk-Outcome pid [] f last next hf hm free h1 hn hx =
    ended last next (omega arith) (omega arith) hn (λ q m. cc)
walk-Outcome pid (p ∷ ps) f last next hf hm free h1 hn hx =
    let q = pid p in
    let Goal : Walk → Type 0 = Outcome f last next (q ∷ map pid ps) in
    let hit : Bool → Walk = λ t. elim t [
      | true ↦ repeat (if leb max_pid (last + 1) then 1 else last + 1)
      | false ↦ walk pid ps (last + 1) next
    ] in
    let miss : Bool → Walk =
      λ t. elim t [ true ↦ walk pid ps last q | false ↦ walk pid ps last next ] in
    let turn : Bool → Walk =
      λ t. elim t [ true ↦ hit (leb next (last + 1)) | false ↦ miss (ltb last q && ltb q next) ] in
    elim (Bool-cases (q == last)) [
      | inl e ↦ elim (Bool-cases (leb next (last + 1))) [
        | inl k ↦ subst Goal (sym (ap turn e ∙ ap hit k)) (
            nearer (if leb max_pid (last + 1) then 1 else last + 1) (ground arith) (ground arith)
              (ground (arith, e, free)))
        | inr k ↦ subst Goal (sym (ap turn e ∙ ap hit k)) (
            Outcome-cons f last next (last + 1) next q (map pid ps) _ (omega arith) (omega arith)
              (ground (arith, e, free)) (ground (arith, e))
              (walk-Outcome pid ps f (last + 1) next hf hm (ground (arith, free)) (omega arith)
                (ground (arith, k)) hx))
      ]
      | inr e ↦ elim (Bool-cases (ltb last q && ltb q next)) [
        | inl k ↦ subst Goal (sym (ap turn e ∙ ap miss k)) (
            Outcome-cons f last next last q q (map pid ps) _ (omega arith) (ground (arith, k))
              (omega arith) (ground arith)
              (walk-Outcome pid ps f last q hf hm (ground (arith, free)) h1 (ground (arith, k))
                (ground (arith, k, hx))))
        | inr k ↦ subst Goal (sym (ap turn e ∙ ap miss k)) (
            Outcome-cons f last next last next q (map pid ps) _ (omega arith) (omega arith)
              (omega arith) (ground (arith, e, k))
              (walk-Outcome pid ps f last next hf hm (ground (arith, free)) h1 hn hx))
      ]
    ]
