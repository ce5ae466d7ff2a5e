-- ===== src/Sched/Timer.antt =====
-- The timers of kern/schedule/sched.c: `add_timer`, `del_timer` and `run_timer_list`. The list holds
-- each timer's `expires` as the time from the timer before it. A timer stands in the list exactly
-- where its `timer_link` is not empty; `key` is its address.
pub mod Deadline
pub mod Tick
use algorithms_prepare.Prelude.{
  ℕ, zero, suc, ◌+◌, ◌-◌, ◌*◌, Bool, true, false, not, ◌&&◌, ◌||◌, List, [], ◌∷◌, Option, none,
  some, ◌>>=◌, ◌>>◌, assert, if◌then◌else◌, ltb, ◌==◌, ◌/◌, ◌%◌, ◌^◌,
}
use algorithms_prepare.Sched.{Sched, Proc, wakeup_proc, sched_class_proc_tick}

pub record Timer : Type 0 where
  pub key : ℕ
  pub expires : ℕ
  pub proc : ℕ

abbrev pub timer_init : ℕ → ℕ → ℕ → Timer
timer_init timer proc expires = record { key = timer; expires = expires; proc = proc }

-- Whether a timer stands in the list.
unfoldable pub pending : ℕ → List Timer → Bool
pending i [] = false
pending i (t ∷ ts) = i == t.key || pending i ts

-- The loop of `add_timer`, with the insertion after it.
unfoldable pub place : Timer → List Timer → List Timer
place t [] = t ∷ []
place t (next ∷ ts) =
    if ltb t.expires next.expires
    then t ∷ (record next { expires = next.expires - t.expires }) ∷ ts
    else next ∷ place (record t { expires = t.expires - next.expires }) ts

unfoldable pub add_timer : Timer → List Timer → Option (List Timer)
add_timer t ts = assert (ltb 0 t.expires) >> (assert (not (pending t.key ts)) >> some (place t ts))

-- The timer after a deleted one takes over its time.
unfoldable pub pass_on : ℕ → List Timer → List Timer
pass_on e [] = []
pass_on e (next ∷ ts) =
    if e == 0 then next ∷ ts else (record next { expires = next.expires + e }) ∷ ts

-- A timer that is in no list stays as it is.
unfoldable pub del_timer : ℕ → List Timer → List Timer
del_timer i [] = []
del_timer i (t ∷ ts) = if i == t.key then pass_on t.expires ts else t ∷ del_timer i ts

-- `wait_state & WT_INTERRUPTED`, which is bit 31
abbrev pub interrupted : ℕ → Bool
interrupted w = (w / 2 ^ 31) % 2 == 1

-- The loop of `run_timer_list`: the timers at the front that have no time left.
unfoldable pub expire : Sched → List Timer → Option (Sched × List Timer)
expire s [] = some (s, [])
expire s (t ∷ ts) =
    if t.expires == 0
    then (let w = (s.procs t.proc).wait_state in
        assert (w == 0 || interrupted w) >> (wakeup_proc s t.proc >>= λ s'. expire s' ts))
    else some (s, t ∷ ts)

-- `timer->expires --` for the first timer.
unfoldable pub tick : List Timer → List Timer
tick [] = []
tick (t ∷ ts) = (record t { expires = t.expires - 1 }) ∷ ts

-- The assert on the first timer.
abbrev pub first_runs : List Timer → Bool
first_runs [] = true
first_runs (t ∷ ts) = not (t.expires == 0)

abbrev pub finish_tick : Sched × List Timer → Option (Sched × List Timer)
finish_tick (s, ts) = some (sched_class_proc_tick s s.current, ts)

unfoldable pub run_timer_list : Sched → List Timer → Option (Sched × List Timer)
run_timer_list s ts = assert (first_runs ts) >> (expire s (tick ts) >>= finish_tick)
