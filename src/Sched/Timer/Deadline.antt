-- ===== src/Sched/Timer/Deadline.antt =====
-- The deadlines of the timers, which the list holds as differences, under `add_timer` and `del_timer`.
use algorithms_prepare.Prelude.{
  ℕ, ◌+◌, ◌-◌, ◌<◌, ◌≡◌, ◌≢◌, refl, true, false, ◌||◌, List, [], ◌∷◌, Option, none, some,
  if◌then◌else◌, ltb, ◌==◌, arith, ==-self, ==-false, Bool-cases, Option-cases, inl, inr,
}
use algorithms_prepare.Sched.Timer.{
  Timer, pending, place, add_timer, pass_on, del_timer, first_runs,
}

abbrev pub later : ℕ → Option ℕ → Option ℕ
later e none = none
later e (some d) = some (e + d)

-- The number of ticks after which a timer expires.
unfoldable pub deadline : ℕ → List Timer → Option ℕ
deadline i [] = none
deadline i (t ∷ ts) = if i == t.key then some t.expires else later t.expires (deadline i ts)

-- No timer stands in the list twice.
abbrev pub DistinctKeys : List Timer → Type 0
DistinctKeys [] = Unit
DistinctKeys (t ∷ ts) = (pending t.key ts ≡ false) × DistinctKeys ts

-- The invariant of the list: the assert of `run_timer_list` holds.
pub record TimersAreValid (ts : List Timer) : Type 0 where
  pub keys : DistinctKeys ts
  pub runs : first_runs ts ≡ true

pub deadline-place_self :
    (t : Timer) (ts : List Timer)
    → pending t.key ts ≡ false
    → deadline t.key (place t ts) ≡ some t.expires
unfolding deadline place pending
deadline-place_self t [] h = ground (arith, ==-self t.key)
deadline-place_self t (u ∷ us) h =
    ground
      (arith, ==-self t.key, deadline-place_self (record t { expires = t.expires - u.expires }) us)

pub deadline-place_other :
    (i : ℕ) (t : Timer) (ts : List Timer) → i ≢ t.key → deadline i (place t ts) ≡ deadline i ts
unfolding deadline place
deadline-place_other i t [] h = rw (==-false i t.key h) refl
deadline-place_other i t (u ∷ us) h =
    let r = deadline-place_other i (record t { expires = t.expires - u.expires }) us h in
    elim (Option-cases (deadline i us)) [
      | inl n ↦ ground (arith, r, n, ==-false i t.key h)
      | inr (d, e) ↦ ground (arith, r, e, ==-false i t.key h)
    ]

pub pending-place :
    (i : ℕ) (t : Timer) (ts : List Timer) → pending i (place t ts) ≡ (i == t.key || pending i ts)
unfolding pending place
pending-place i t [] = refl
pending-place i t (u ∷ us) =
    ground (arith, pending-place i (record t { expires = t.expires - u.expires }) us)

place-keys :
    (t : Timer) (ts : List Timer)
    → pending t.key ts ≡ false
    → DistinctKeys ts
    → DistinctKeys (place t ts)
unfolding place pending
place-keys t [] h d = (refl, tt)
place-keys t (u ∷ us) h d = elim (Bool-cases (ltb t.expires u.expires)) [
  | inl e ↦ rw e (h, d)
  | inr e ↦
      let t' = record t { expires = t.expires - u.expires } in
      rw e (
        ground (arith, pending-place u.key t' us, d.0, h),
        place-keys t' us (ground (arith, h)) d.1,
      )
]

place-runs :
    (t : Timer) (ts : List Timer)
    → 0 < t.expires
    → first_runs ts ≡ true
    → first_runs (place t ts) ≡ true
unfolding place
place-runs t [] p h = ground arith
place-runs t (u ∷ us) p h = ground arith

-- The outcome of `add_timer`.
pub record Added (t : Timer) (ts ts' : List Timer) : Type 0 where
  pub valid : TimersAreValid ts'
  pub due_self : deadline t.key ts' ≡ some t.expires
  pub due_others : (i : ℕ) → i ≢ t.key → deadline i ts' ≡ deadline i ts

-- In a valid list, a timer that is not in it and has time left is added with its own time as its
-- deadline; the deadlines of all other timers stay, and so does the invariant.
pub add_timer-Added :
    (t : Timer) (ts : List Timer)
    → TimersAreValid ts
    → 0 < t.expires
    → pending t.key ts ≡ false
    → (ts' : List Timer) × (add_timer t ts ≡ some ts') × Added t ts ts'
unfolding add_timer
add_timer-Added t ts v p h =
    let pos : ltb 0 t.expires ≡ true = ground (arith, p) in
    (
      place t ts,
      rw (pos, h) refl,
      record {
        valid = record { keys = place-keys t ts h v.keys; runs = place-runs t ts p v.runs };
        due_self = deadline-place_self t ts h;
        due_others = λ i n. deadline-place_other i t ts n;
      },
    )

deadline-pass_on : (i e : ℕ) (ts : List Timer) → deadline i (pass_on e ts) ≡ later e (deadline i ts)
unfolding deadline pass_on
deadline-pass_on i e [] = refl
deadline-pass_on i e (t ∷ ts) = elim (Option-cases (deadline i ts)) [
  | inl n ↦ ground (arith, n)
  | inr (d, q) ↦ ground (arith, q)
]

pending-pass_on : (i e : ℕ) (ts : List Timer) → pending i (pass_on e ts) ≡ pending i ts
unfolding pending pass_on
pending-pass_on i e [] = refl
pending-pass_on i e (t ∷ ts) = ground arith

pass_on-keys : (e : ℕ) (ts : List Timer) → DistinctKeys ts → DistinctKeys (pass_on e ts)
unfolding pass_on
pass_on-keys e [] d = tt
pass_on-keys e (t ∷ ts) d = elim (Bool-cases (e == 0)) [ inl z ↦ rw z d | inr z ↦ rw z d ]

pass_on-runs : (e : ℕ) (ts : List Timer) → (e == 0) ≡ false → first_runs (pass_on e ts) ≡ true
unfolding pass_on
pass_on-runs e [] h = refl
pass_on-runs e (t ∷ ts) h = ground (arith, h)

pub deadline-none : (i : ℕ) (ts : List Timer) → pending i ts ≡ false → deadline i ts ≡ none
unfolding deadline pending
deadline-none i [] h = refl
deadline-none i (t ∷ ts) h = ground (arith, h, deadline-none i ts)

pending-del_timer :
    (i j : ℕ) (ts : List Timer)
    → DistinctKeys ts
    → pending j (del_timer i ts) ≡ (if i == j then false else pending j ts)
unfolding pending del_timer
pending-del_timer i j [] d = ground arith
pending-del_timer i j (t ∷ ts) d =
    ground (arith, d.0, pending-del_timer i j ts d.1, pending-pass_on j t.expires ts)

del_timer-keys : (i : ℕ) (ts : List Timer) → DistinctKeys ts → DistinctKeys (del_timer i ts)
unfolding del_timer
del_timer-keys i [] d = tt
del_timer-keys i (t ∷ ts) d = elim (Bool-cases (i == t.key)) [
  | inl e ↦ rw e (pass_on-keys t.expires ts d.1)
  | inr e ↦ rw e (ground (arith, pending-del_timer i t.key ts d.1, d.0), del_timer-keys i ts d.1)
]

del_timer-runs :
    (i : ℕ) (ts : List Timer) → first_runs ts ≡ true → first_runs (del_timer i ts) ≡ true
unfolding del_timer
del_timer-runs i [] h = refl
del_timer-runs i (t ∷ ts) h = ground (arith, h, pass_on-runs t.expires ts)

deadline-del_timer :
    (i j : ℕ) (ts : List Timer) → j ≢ i → deadline j (del_timer i ts) ≡ deadline j ts
unfolding deadline del_timer
deadline-del_timer i j [] n = refl
deadline-del_timer i j (t ∷ ts) n =
    ground (arith, n, deadline-del_timer i j ts n, deadline-pass_on j t.expires ts)

-- The outcome of `del_timer`.
pub record Deleted (i : ℕ) (ts ts' : List Timer) : Type 0 where
  pub valid : TimersAreValid ts'
  pub gone : deadline i ts' ≡ none
  pub due_others : (j : ℕ) → j ≢ i → deadline j ts' ≡ deadline j ts

-- In a valid list, `del_timer` takes the timer out; the deadlines of all other timers stay, and so
-- does the invariant.
pub del_timer-Deleted :
    (i : ℕ) (ts : List Timer) → TimersAreValid ts → Deleted i ts (del_timer i ts)
del_timer-Deleted i ts v = record {
  valid = record { keys = del_timer-keys i ts v.keys; runs = del_timer-runs i ts v.runs };
  gone =
      deadline-none i (del_timer i ts) (ground (arith, pending-del_timer i i ts v.keys, ==-self i));
  due_others = λ j n. deadline-del_timer i j ts n;
}
