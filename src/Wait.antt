-- ===== src/Wait.antt =====
-- kern/sync/wait.c of Mooc_OS_Lab/lab1 (the other labs hold the same file): one wait queue, the waits
-- that threads put into it, and the scheduler that wakes them. A wait is a number, the queue the
-- sequence of its waits. `none` is a failed assert, or a loop that ran out of fuel.
pub mod Wake
pub mod Sem
mod Tests
use algorithms_prepare.Prelude.{
  ℕ, zero, suc, ◌+◌, Bool, true, false, not, ◌&&◌, List, [], ◌∷◌, ◌++◌, Option, none, some, ◌>>=◌,
  ◌>>◌, assert, if◌then◌else◌, ◌==◌,
}
use algorithms_prepare.Sched.{
  Sched, Proc, proc_sleeping, set_proc, linked, remove, first, wakeup_proc,
}

pub record Wait : Type 0 where
  pub proc : ℕ
  pub wakeup_flags : ℕ
  -- `wait->wait_queue == queue`
  pub on_queue : Bool

pub record Waits : Type 0 where
  pub waits : ℕ → Wait
  pub queue : List ℕ
  pub sched : Sched

abbrev pub wt_interrupted : ℕ
wt_interrupted = 0x80000000

abbrev pub set_wait : Waits → ℕ → Wait → Waits
set_wait s w x = record s { waits = λ v. if w == v then x else s.waits v }

abbrev pub wait_init : ℕ → ℕ → Waits → Waits
wait_init w p s = set_wait s w (record (s.waits w) { proc = p; wakeup_flags = wt_interrupted })

abbrev pub wait_queue_init : Waits → Waits
wait_queue_init s = record s { queue = [] }

unfoldable pub wait_queue_add : ℕ → Waits → Option Waits
wait_queue_add w s =
    assert (not (linked w s.queue))
    >> some (record (set_wait s w (record (s.waits w) { on_queue = true })) {
      queue = s.queue ++ w ∷ [];
    })

unfoldable pub wait_queue_del : ℕ → Waits → Option Waits
wait_queue_del w s =
    assert (linked w s.queue && (s.waits w).on_queue)
    >> some (record s { queue = remove w s.queue })

-- The wait behind `w`, and the one before it.
unfoldable pub after : ℕ → List ℕ → Option ℕ
after w [] = none
after w (v ∷ vs) = if w == v then first vs else after w vs

unfoldable pub before : ℕ → Option ℕ → List ℕ → Option ℕ
before w prev [] = none
before w prev (v ∷ vs) = if w == v then prev else before w (some v) vs

unfoldable pub wait_queue_next : ℕ → Waits → Option (Option ℕ)
wait_queue_next w s = assert (linked w s.queue && (s.waits w).on_queue) >> some (after w s.queue)

unfoldable pub wait_queue_prev : ℕ → Waits → Option (Option ℕ)
wait_queue_prev w s =
    assert (linked w s.queue && (s.waits w).on_queue) >> some (before w none s.queue)

abbrev pub wait_queue_first : Waits → Option ℕ
wait_queue_first s = first s.queue

unfoldable pub last : List ℕ → Option ℕ
last [] = none
last (w ∷ []) = some w
last (w ∷ v ∷ ws) = last (v ∷ ws)

abbrev pub wait_queue_last : Waits → Option ℕ
wait_queue_last s = last s.queue

abbrev pub wait_queue_empty : Waits → Bool
wait_queue_empty s = elim s.queue [ [] ↦ true | _ ↦ false ]

abbrev pub wait_in_queue : ℕ → Waits → Bool
wait_in_queue w s = linked w s.queue

-- `wakeup_wait` behind the deletion.
unfoldable pub wake : ℕ → ℕ → Waits → Option Waits
wake flags w s =
    let s' = set_wait s w (record (s.waits w) { wakeup_flags = flags }) in
    wakeup_proc s.sched (s.waits w).proc >>= λ z. some (record s' { sched = z })

unfoldable pub wakeup_wait : ℕ → ℕ → Bool → Waits → Option Waits
wakeup_wait w flags del s = (if del then wait_queue_del w s else some s) >>= wake flags w

unfoldable pub wakeup_first : ℕ → Bool → Waits → Option Waits
wakeup_first flags del s = elim (wait_queue_first s) [
  | none ↦ some s
  | some w ↦ wakeup_wait w flags del s
]

-- The two loops of `wakeup_queue`.
unfoldable pub wake_all : ℕ → ℕ → Waits → Option Waits
wake_all zero flags s = none
wake_all (suc fuel) flags s = elim (wait_queue_first s) [
  | none ↦ some s
  | some w ↦ wakeup_wait w flags true s >>= λ s'. wake_all fuel flags s'
]

unfoldable pub wake_each : ℕ → ℕ → ℕ → Waits → Option Waits
wake_each zero flags w s = none
wake_each (suc fuel) flags w s = wakeup_wait w flags false s >>= λ s'.
    wait_queue_next w s' >>= λ n. elim n [ none ↦ some s' | some v ↦ wake_each fuel flags v s' ]

unfoldable pub wakeup_queue : ℕ → ℕ → Bool → Waits → Option Waits
wakeup_queue fuel flags del s = elim (wait_queue_first s) [
  | none ↦ some s
  | some w ↦ if del then wake_all fuel flags s else wake_each fuel flags w s
]

-- The current process goes to sleep, not yet descheduled.
unfoldable pub wait_current_set : ℕ → ℕ → Waits → Option Waits
wait_current_set w wait_state s =
    let c = s.sched.current in
    let z =
      set_proc s.sched c
        (record (s.sched.procs c) { state = proc_sleeping; wait_state = wait_state }) in
    wait_queue_add w (record (wait_init w c s) { sched = z })

unfoldable pub wait_current_del : ℕ → Waits → Option Waits
wait_current_del w s = if wait_in_queue w s then wait_queue_del w s else some s
