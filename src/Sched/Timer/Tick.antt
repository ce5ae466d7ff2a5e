-- ===== src/Sched/Timer/Tick.antt =====
-- `run_timer_list` of kern/schedule/sched.c, a timer tick.
use algorithms_prepare.Prelude.{
  ℕ, ◌-◌, ◌≡◌, refl, sym, ap, ◌∙◌, true, false, ◌||◌, List, [], ◌∷◌, Option, none, some,
  if◌then◌else◌, ltb, ◌==◌, arith, ==_iff, Bool-cases, Option-cases, inl, inr, All, All-mono,
}
use algorithms_prepare.Sched.{
  Sched, Proc, is_runnable, is_zombie, sched_class_proc_tick, rr_proc_tick, set_proc,
}
use algorithms_prepare.Sched.Invariant.{SchedIsValid}
use algorithms_prepare.Sched.{ProcState, proc_uninit, proc_sleeping, proc_runnable, proc_zombie}
use algorithms_prepare.Sched.Wakeup.{Woken, wakeup_proc-Woken, set_proc-valid}
use algorithms_prepare.Sched.Timer.{
  Timer, pending, tick, first_runs, expire, interrupted, run_timer_list,
}
use algorithms_prepare.Sched.Timer.Deadline.{deadline, deadline-none, DistinctKeys, TimersAreValid}

-- The timers at the front of the list with no time left, and the rest.
unfoldable pub due : List Timer → List Timer
due [] = []
due (t ∷ ts) = if t.expires == 0 then t ∷ due ts else []

unfoldable pub not_due : List Timer → List Timer
not_due [] = []
not_due (t ∷ ts) = if t.expires == 0 then not_due ts else t ∷ ts

-- The number of ticks left one tick later.
abbrev pub countdown : Option ℕ → Option ℕ
countdown none = none
countdown (some d) = if ltb d 2 then none else some (d - 1)

abbrev left : Option ℕ → Option ℕ
left none = none
left (some d) = if d == 0 then none else some d

deadline-not_due :
    (i : ℕ) (ts : List Timer) → DistinctKeys ts → deadline i (not_due ts) ≡ left (deadline i ts)
unfolding deadline not_due pending
deadline-not_due i [] d = refl
deadline-not_due i (t ∷ ts) d =
    let r = deadline-not_due i ts d.1 in
    elim (Option-cases (deadline i ts)) [
      | inl n ↦ ground (arith, n, r, d.0, deadline-none i ts)
      | inr (x, q) ↦ ground (arith, q, r, d.0, deadline-none i ts)
    ]

deadline-tick :
    (i : ℕ) (ts : List Timer)
    → first_runs ts ≡ true
    → left (deadline i (tick ts)) ≡ countdown (deadline i ts)
unfolding deadline tick
deadline-tick i [] r = refl
deadline-tick i (t ∷ ts) r = elim (Option-cases (deadline i ts)) [
  | inl n ↦ ground (arith, n, r)
  | inr (x, q) ↦ ground (arith, q, r)
]

-- What a timer asks of its process.
pub record Wakeable (s : Sched) (t : Timer) : Type 0 where
  pub alive : is_zombie (s.procs t.proc).state ≡ false
  pub waits : ((s.procs t.proc).wait_state == 0 || interrupted (s.procs t.proc).wait_state) ≡ true

runnable_alive : (x : ProcState) → is_runnable x ≡ true → is_zombie x ≡ false
runnable_alive proc_uninit h = refl
runnable_alive proc_sleeping h = refl
runnable_alive proc_runnable h = refl
runnable_alive proc_zombie h = cc

Wakeable-kept :
    (s : Sched) (p : ℕ) (s' : Sched) (t : Timer) → Woken s p s' → Wakeable s t → Wakeable s' t
Wakeable-kept s p s' t w k = record {
  alive = elim (Bool-cases (p == t.proc)) [
    | inl e ↦
        runnable_alive (s'.procs t.proc).state
          (ap (λ q. is_runnable (s'.procs q).state) (sym ((==_iff p t.proc).0 e)) ∙ w.runs_on)
    | inr n ↦
        ap is_zombie (w.others t.proc (λ h. ground (arith, n, (==_iff p t.proc).1 h))) ∙ k.alive
  ];
  waits = elim (w.waits t.proc) [ inl a ↦ rw a k.waits | inr b ↦ rw b refl ];
}

runnable_kept :
    (s : Sched) (p : ℕ) (s' : Sched)
    → Woken s p s'
    → (q : ℕ) → is_runnable (s.procs q).state ≡ true
    → is_runnable (s'.procs q).state ≡ true
runnable_kept s p s' w q r = elim (Bool-cases (p == q)) [
  | inl e ↦ ap (λ x. is_runnable (s'.procs x).state) (sym ((==_iff p q).0 e)) ∙ w.runs_on
  | inr n ↦ ap is_runnable (w.others q (λ h. ground (arith, n, (==_iff p q).1 h))) ∙ r
]

-- The outcome of the loop of `run_timer_list`.
record Expired (s : Sched) (ts : List Timer) (s' : Sched) : Type 0 where
  valid : SchedIsValid s'
  run_on : (q : ℕ) → is_runnable (s.procs q).state ≡ true → is_runnable (s'.procs q).state ≡ true
  woken : All (λ t. is_runnable (s'.procs t.proc).state ≡ true) (due ts)

expire-Expired :
    (s : Sched) (ts : List Timer)
    → SchedIsValid s
    → All (Wakeable s) ts
    → (s' : Sched) × (expire s ts ≡ some (s', not_due ts)) × Expired s ts s'
unfolding expire due not_due
expire-Expired s [] v k = (s, refl, record { valid = v; run_on = λ q r. r; woken = tt })
expire-Expired s (t ∷ ts) v k = elim (Bool-cases (t.expires == 0)) [
  | inr n ↦ (s, rw n refl, record { valid = v; run_on = λ q r. r; woken = rw n tt })
  | inl z ↦
      let (s1, e, w) = wakeup_proc-Woken s t.proc v k.0.alive in
      let (s2, e', x) =
        expire-Expired s1 ts w.valid
          (All-mono (Wakeable s) (Wakeable s1) ts (λ u. Wakeable-kept s t.proc s1 u w) k.1) in
      (
        s2,
        rw (z, k.0.waits, e) e',
        record {
          valid = x.valid;
          run_on = λ q r. x.run_on q (runnable_kept s t.proc s1 w q r);
          woken = rw z (x.run_on t.proc w.runs_on, x.woken);
        },
      )
]

pending-tick : (i : ℕ) (ts : List Timer) → pending i (tick ts) ≡ pending i ts
unfolding pending tick
pending-tick i [] = refl
pending-tick i (t ∷ ts) = refl

tick-keys : (ts : List Timer) → DistinctKeys ts → DistinctKeys (tick ts)
unfolding tick
tick-keys [] d = tt
tick-keys (t ∷ ts) d = d

not_due-valid : (ts : List Timer) → DistinctKeys ts → TimersAreValid (not_due ts)
unfolding not_due
not_due-valid [] d = record { keys = tt; runs = refl }
not_due-valid (t ∷ ts) d = elim (Bool-cases (t.expires == 0)) [
  | inl z ↦ rw z (not_due-valid ts d.1)
  | inr z ↦ rw z (record { keys = d; runs = rw z refl })
]

tick-Wakeable : (s : Sched) (ts : List Timer) → All (Wakeable s) ts → All (Wakeable s) (tick ts)
unfolding tick
tick-Wakeable s [] k = tt
tick-Wakeable s (t ∷ ts) k = (record { alive = k.0.alive; waits = k.0.waits }, k.1)

-- The tick of the running process: a slice lowered, or a request to reschedule.
proc_tick-state :
    (s : Sched) (q : ℕ) → ((sched_class_proc_tick s s.current).procs q).state ≡ (s.procs q).state
unfolding sched_class_proc_tick rr_proc_tick
proc_tick-state s q = elim (Bool-cases (s.current == s.idleproc)) [
  | inl i ↦ elim (Bool-cases (s.current == q)) [
    | inl e ↦ rw (i, e) (ap (λ p. (s.procs p).state) ((==_iff s.current q).0 e))
    | inr n ↦ rw (i, n) refl
  ]
  | inr i ↦ elim (Bool-cases (s.current == q)) [
    | inl e ↦ rw (i, e) (ap (λ p. (s.procs p).state) ((==_iff s.current q).0 e))
    | inr n ↦ rw (i, n) refl
  ]
]

set_current-valid :
    (s : Sched) (x : Proc)
    → x.state ≡ (s.procs s.current).state
    → SchedIsValid s
    → SchedIsValid (set_proc s s.current x)
set_current-valid s x h v = record {
  queue_valid = set_proc-valid s s.current x v.current_out v.queue_valid;
  current_out = v.current_out;
  kept = λ q r. elim (Bool-cases (s.current == q)) [
    | inl e ↦ inl (sym ((==_iff s.current q).0 e))
    | inr n ↦
        let same : ((set_proc s s.current x).procs q).state ≡ (s.procs q).state = rw n refl in
        v.kept q (sym (ap is_runnable same) ∙ r)
  ];
}

proc_tick-valid : (s : Sched) → SchedIsValid s → SchedIsValid (sched_class_proc_tick s s.current)
unfolding sched_class_proc_tick rr_proc_tick
proc_tick-valid s v = elim (Bool-cases (s.current == s.idleproc)) [
  | inl i ↦ rw i (set_current-valid s _ refl v)
  | inr i ↦ rw i (set_current-valid s _ refl v)
]

-- The outcome of `run_timer_list`.
pub record Ticked (s : Sched) (ts : List Timer) (s' : Sched) (ts' : List Timer) : Type 0 where
  pub valid : SchedIsValid s'
  pub timers : TimersAreValid ts'
  pub deadlines : (i : ℕ) → deadline i ts' ≡ countdown (deadline i ts)
  pub woken : All (λ t. is_runnable (s'.procs t.proc).state ≡ true) (due (tick ts))

-- From valid states in which the process of every timer is no zombie and waits interruptibly, or
-- not at all, `run_timer_list` fails no assert: every deadline comes one tick nearer, the timers
-- that reach it leave the list and their processes are runnable, and both invariants are kept.
pub run_timer_list-Ticked :
    (s : Sched) (ts : List Timer)
    → SchedIsValid s
    → TimersAreValid ts
    → All (Wakeable s) ts
    → (s' : Sched) × (ts' : List Timer) × (run_timer_list s ts ≡ some (s', ts'))
      × Ticked s ts s' ts'
unfolding run_timer_list
run_timer_list-Ticked s ts v u k =
    let (s1, e, x) = expire-Expired s (tick ts) v (tick-Wakeable s ts k) in
    let d = tick-keys ts u.keys in
    (
      sched_class_proc_tick s1 s1.current,
      not_due (tick ts),
      rw (u.runs, e) refl,
      record {
        valid = proc_tick-valid s1 x.valid;
        timers = not_due-valid (tick ts) d;
        deadlines = λ i. deadline-not_due i (tick ts) d ∙ deadline-tick i ts u.runs;
        woken =
            All-mono (λ t. is_runnable (s1.procs t.proc).state ≡ true)
              (λ t. is_runnable ((sched_class_proc_tick s1 s1.current).procs t.proc).state ≡ true)
              (due (tick ts)) (λ t r. ap is_runnable (proc_tick-state s1 t.proc) ∙ r) x.woken;
      },
    )
