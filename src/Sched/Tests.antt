-- ===== src/Sched/Tests.antt =====
-- The scheduler's and the timers' theorems: process 2 runs, process 1 waits, process 3 sleeps, and 0 is
-- the idle process.
use algorithms_prepare.Prelude.{
  ℕ, ◌≡◌, refl, true, false, List, [], ◌∷◌, some, arith, ◌==◌, if◌then◌else◌, Bool-cases, inl, inr,
  ◌⊎◌, ==_iff,
}
use algorithms_prepare.Sched.{
  Sched, Proc, ProcState, proc_sleeping, proc_runnable, linked, is_runnable, schedule, wakeup_proc,
}
use algorithms_prepare.Sched.Invariant.{Ready, SchedIsValid, waiting}
use algorithms_prepare.Sched.Schedule.{Switched, schedule-Switched}
use algorithms_prepare.Sched.Wakeup.{Woken, wakeup_proc-Woken}
use algorithms_prepare.Sched.Timer.{timer_init, Timer, pending, run_timer_list}
use algorithms_prepare.Sched.Timer.Deadline.{TimersAreValid}
use algorithms_prepare.Sched.Timer.Tick.{Ticked, run_timer_list-Ticked}

abbrev proc_with : ProcState → Proc
proc_with st = record {
  state = st;
  wait_state = 0;
  need_resched = false;
  runs = 0;
  time_slice = 5;
  on_rq = true;
}

abbrev state_of : ℕ → ProcState
state_of p = if p == 1 then proc_runnable else if p == 2 then proc_runnable else proc_sleeping

abbrev busy : Sched
busy = record {
  procs = λ p. proc_with (state_of p);
  run_list = 1 ∷ [];
  proc_num = 1;
  max_time_slice = 20;
  current = 2;
  idleproc = 0;
}

busy-Ready : (p : ℕ) → linked p (1 ∷ []) ≡ true → Ready busy p
unfolding linked
busy-Ready p h =
    let one : (p == 1) ≡ true = ground (arith, h) in
    record {
      runnable = rw one refl;
      queued = refl;
      slice_pos = omega arith;
      slice_le = omega arith;
    }

busy-kept :
    (p : ℕ) → is_runnable (state_of p) ≡ true → (p ≡ 2) ⊎ (p ≡ 0) ⊎ (linked p (1 ∷ []) ≡ true)
unfolding linked
busy-kept p r = elim (Bool-cases (p == 1)) [
  | inl e ↦ inr (inr (rw e refl))
  | inr n ↦ elim (Bool-cases (p == 2)) [
    | inl e ↦ inl ((==_iff p 2).0 e)
    | inr m ↦ absurd (ground (arith, r, n, m))
  ]
]

busy-valid : SchedIsValid busy
unfolding linked
busy-valid = record {
  queue_valid = record {
    unique = (refl, tt);
    counted = refl;
    idle_out = refl;
    slices = omega arith;
    ready = busy-Ready;
  };
  current_out = refl;
  kept = busy-kept;
}

schedule_example : (s' : Sched) × (schedule busy ≡ some s') × Switched busy (waiting busy) s'
schedule_example = schedule-Switched busy busy-valid

wakeup_example : (s' : Sched) × (wakeup_proc busy 3 ≡ some s') × Woken busy 3 s'
wakeup_example = wakeup_proc-Woken busy 3 busy-valid refl

-- Process 3 waits for one tick, process 2 has a timer of three.
abbrev timer : ℕ → ℕ → ℕ → Timer
timer k e p = timer_init k p e

abbrev two_timers : List Timer
two_timers = timer 7 1 3 ∷ timer 8 2 2 ∷ []

timers-valid : TimersAreValid two_timers
unfolding pending
timers-valid = record { keys = (refl, (refl, tt)); runs = refl }

tick_example :
    (s' : Sched) × (ts' : List Timer) × (run_timer_list busy two_timers ≡ some (s', ts'))
    × Ticked busy two_timers s' ts'
tick_example =
    run_timer_list-Ticked busy two_timers busy-valid timers-valid
      (record { alive = refl; waits = refl }, (record { alive = refl; waits = refl }, tt))
