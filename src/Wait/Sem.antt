-- ===== src/Wait/Sem.antt =====
-- kern/sync/sem.c of Mooc_OS_Lab/lab1: a semaphore over its wait queue. Its value never is negative: it
-- starts at 0 or above and is lowered only where it is positive. It is a natural number without bound,
-- where the code has an `int`. `__down` is two functions, up to the
-- call of `schedule` with it, and from where the process runs again.
pub mod Counting
pub mod Sleeping
use algorithms_prepare.Prelude.{
  ℕ, zero, suc, ◌+◌, ◌-◌, Bool, true, false, not, Option, none, some, ◌>>=◌, ◌>>◌, assert,
  if◌then◌else◌, ltb, ◌==◌,
}
use algorithms_prepare.Sched.{Sched, schedule}
use algorithms_prepare.Wait.{
  Wait, Waits, wait_queue_init, wait_queue_first, wakeup_wait, wait_current_set, wait_current_del,
}

pub record Sem : Type 0 where
  pub value : ℕ
  pub wait_queue : Waits

abbrev pub wt_ksem : ℕ
wt_ksem = 0x00000100

unfoldable pub sem_init : ℕ → Sem → Sem
sem_init value s = record { value = value; wait_queue = wait_queue_init s.wait_queue }

unfoldable pub up_first : ℕ → Sem → Option ℕ → Option Sem
up_first wait_state s none = some (record s { value = s.value + 1 })
up_first wait_state s (some w) =
    let q = s.wait_queue in
    assert ((q.sched.procs (q.waits w).proc).wait_state == wait_state)
    >> (wakeup_wait w wait_state true q >>= λ q'. some (record s { wait_queue = q' }))

unfoldable pub __up : ℕ → Sem → Option Sem
__up wait_state s = up_first wait_state s (wait_queue_first s.wait_queue)

-- True where the semaphore was taken at once, with 0 returned.
unfoldable pub __down : ℕ → ℕ → Sem → Option (Bool × Sem)
__down w wait_state s =
    if ltb 0 s.value
    then some (true, record s { value = s.value - 1 })
    else (wait_current_set w wait_state s.wait_queue >>= λ q.
        schedule q.sched >>= λ z. some (false, record s { wait_queue = record q { sched = z } }))

-- The rest of `__down`, with the flags that it returns.
unfoldable pub down_again : ℕ → ℕ → Sem → Option (ℕ × Sem)
down_again w wait_state s = wait_current_del w s.wait_queue >>= λ q.
    let flags = (q.waits w).wakeup_flags in
    some (if not (flags == wait_state) then flags else 0, record s { wait_queue = q })

unfoldable pub up : Sem → Option Sem
up s = __up wt_ksem s

unfoldable pub try_down : Sem → Bool × Sem
try_down s = if ltb 0 s.value then (true, record s { value = s.value - 1 }) else (false, s)

-- The end of `down`, where the process runs again.
unfoldable pub down_done : ℕ → Sem → Option Sem
down_done w s = down_again w wt_ksem s >>= λ r. assert (r.0 == 0) >> some r.1
