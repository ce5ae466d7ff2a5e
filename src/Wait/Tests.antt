-- ===== src/Wait/Tests.antt =====
-- The theorems of wait queues and semaphores where process 2 runs, process 1 is ready, and the waits
-- 31 and 41 stand for the sleeping processes 3 and 4; 0 is the idle process.
use algorithms_prepare.Prelude.{
  ℕ, ◌≡◌, refl, ◌⊎◌, inl, inr, Bool, true, false, [], ◌∷◌, some, if◌then◌else◌, ◌==◌, arith,
  Bool-cases, ==_iff,
}
use algorithms_prepare.Sched.{Sched, ProcState, proc_sleeping, proc_runnable, linked, is_runnable}
use algorithms_prepare.Sched.Invariant.{SchedIsValid}
use algorithms_prepare.Wait.{Waits, wt_interrupted, wakeup_queue}
use algorithms_prepare.Wait.Wake.{CanWake, AllWoken, wakeup_queue-AllWoken}
use algorithms_prepare.Wait.Sem.{Sem, wt_ksem, up, __down}
use algorithms_prepare.Wait.Sem.Counting.{IsWaiting, SemIsValid, Raised, up-Raised}
use algorithms_prepare.Wait.Sem.Sleeping.{Lowered, __down-Lowered}

abbrev state_of : ℕ → ProcState
state_of p = if p == 1 then proc_runnable else if p == 2 then proc_runnable else proc_sleeping

abbrev two_run : Sched
two_run = record {
  procs = λ p. record {
    state = state_of p;
    wait_state = wt_ksem;
    need_resched = false;
    runs = 7;
    time_slice = 9;
    on_rq = true;
  };
  run_list = 1 ∷ [];
  proc_num = 1;
  max_time_slice = 20;
  current = 2;
  idleproc = 0;
}

run_kept :
    (p : ℕ) → is_runnable (state_of p) ≡ true → (p ≡ 2) ⊎ (p ≡ 0) ⊎ (linked p (1 ∷ []) ≡ true)
unfolding linked
run_kept p r = elim (Bool-cases (p == 2)) [
  | inl e ↦ inl ((==_iff p 2).0 e)
  | inr n ↦ inr (inr (ground (arith, r, n)))
]

two_run-valid : SchedIsValid two_run
unfolding linked
two_run-valid = record {
  queue_valid = record {
    unique = (refl, tt);
    counted = refl;
    idle_out = refl;
    slices = omega arith;
    ready = λ p h. record {
      runnable = ground (arith, h);
      queued = refl;
      slice_pos = omega arith;
      slice_le = omega arith;
    };
  };
  current_out = refl;
  kept = run_kept;
}

abbrev two_wait : Waits
two_wait = record {
  waits = λ w. record {
    proc = if w == 31 then 3 else 4;
    wakeup_flags = wt_interrupted;
    on_queue = true;
  };
  queue = 31 ∷ 41 ∷ [];
  sched = two_run;
}

abbrev semaphore : Sem
semaphore = record { value = 0; wait_queue = two_wait }

two-IsWaiting : (w : ℕ) → IsWaiting two_wait w
two-IsWaiting w = elim (Bool-cases (w == 31)) [
  | inl e ↦ record { queued = refl; asleep = rw e refl; alive = rw e refl; for_sem = refl }
  | inr n ↦ record { queued = refl; asleep = rw n refl; alive = rw n refl; for_sem = refl }
]

semaphore-valid : SemIsValid semaphore
unfolding linked
semaphore-valid = record {
  sched_valid = two_run-valid;
  unique = (refl, (refl, tt));
  settled = inl refl;
  waits = λ w h. two-IsWaiting w;
  one_each = λ v w h g e. ground (arith, h, g, e);
}

two-CanWake : CanWake two_wait (31 ∷ 41 ∷ [])
unfolding linked
two-CanWake = record {
  sched_valid = two_run-valid;
  listed = refl;
  unique = (refl, (refl, tt));
  queued = λ w h. refl;
  alive = λ w h. (two-IsWaiting w).alive;
}

up_example : (s' : Sem) × (up semaphore ≡ some s') × SemIsValid s' × Raised semaphore s'
up_example = up-Raised semaphore semaphore-valid

absent : linked 21 (31 ∷ 41 ∷ []) ≡ false
unfolding linked
absent = refl

-- Process 2 goes to sleep with the wait 21.
down_example :
    (b : Bool) × (s' : Sem) × (__down 21 wt_ksem semaphore ≡ some (b, s'))
    × SemIsValid s'
    × Lowered 21 semaphore b s'
down_example = __down-Lowered 21 semaphore semaphore-valid absent refl

wakeup_queue_example :
    (q' : Waits) × (wakeup_queue 3 5 true two_wait ≡ some q')
    × AllWoken two_wait (31 ∷ 41 ∷ []) 5 q'
wakeup_queue_example = wakeup_queue-AllWoken 3 5 two_wait two-CanWake (omega arith)
