-- ===== src/RwLock.antt =====
-- The readers-writers lock of threads/synch.c in Berkeley-CS162-Operating-System/Lab/proj-pregame/src.
-- All that a thread does between taking the guard lock and giving it up, by `lock_release` or in
-- `cond_wait`, is one step; the guard lock itself is the one of Synch.
mod Tests
pub mod Exclusive
use algorithms_prepare.Prelude.{ℕ, ◌+◌, ◌-◌, ◌<◌, Bool, true, false, ◌&&◌, if◌then◌else◌, ltb, ◌==◌}

-- The counts of `struct rw_lock`: active and waiting readers, active and waiting writers.
pub record RwLock : Type 0 where
  pub ar : ℕ
  pub wr : ℕ
  pub aw : ℕ
  pub ww : ℕ

-- What a release signals.
pub data Signal : Type 0 where
  nobody one_writer all_readers : Signal

unfoldable pub rw_lock_init : RwLock
rw_lock_init = record { ar = 0; wr = 0; aw = 0; ww = 0 }

-- One round of the loop of `rw_lock_acquire`: a reader waits while writers wait or are active.
unfoldable pub reader_round : RwLock → RwLock
reader_round l =
    if ltb 0 (l.aw + l.ww) then record l { wr = l.wr + 1 } else record l { ar = l.ar + 1 }

-- A writer waits while anyone is active.
unfoldable pub writer_round : RwLock → RwLock
writer_round l =
    if ltb 0 (l.ar + l.aw) then record l { ww = l.ww + 1 } else record l { aw = l.aw + 1 }

-- After `cond_wait` the count of waiting threads goes down, and the loop goes on.
unfoldable pub reader_again : RwLock → RwLock
reader_again l = reader_round (record l { wr = l.wr - 1 })

unfoldable pub writer_again : RwLock → RwLock
writer_again l = writer_round (record l { ww = l.ww - 1 })

-- `rw_lock_release`
unfoldable pub reader_release : RwLock → RwLock
reader_release l = record l { ar = l.ar - 1 }

unfoldable pub reader_signal : RwLock → Signal
reader_signal l = if l.ar - 1 == 0 && ltb 0 l.ww then one_writer else nobody

unfoldable pub writer_release : RwLock → RwLock
writer_release l = record l { aw = l.aw - 1 }

unfoldable pub writer_signal : RwLock → Signal
writer_signal l = if ltb 0 l.ww then one_writer else if ltb 0 l.wr then all_readers else nobody

-- The steps: only a thread that waits goes on after `cond_wait`, and only one that is active releases.
pub data Step (l : RwLock) : RwLock → Type 0 where
  read : Step l (reader_round l)
  write : Step l (writer_round l)
  read_again : 0 < l.wr → Step l (reader_again l)
  write_again : 0 < l.ww → Step l (writer_again l)
  end_read : 0 < l.ar → Step l (reader_release l)
  end_write : 0 < l.aw → Step l (writer_release l)

pub data Reachable : RwLock → Type 0 where
  start : Reachable rw_lock_init
  next : (l k : RwLock) → Reachable l → Step l k → Reachable k
