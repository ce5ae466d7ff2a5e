-- ===== src/Synch.antt =====
-- threads/synch.c of Berkeley-CS162-Operating-System/Lab/proj-pregame/src: semaphores and the lock on
-- one, as the steps that threads take in turn. What runs with interrupts off is one step; between two
-- steps any other thread may take some. A thread is a number.
mod Tests
pub mod Mutex
pub mod Down
pub mod Exclusion
use algorithms_prepare.Prelude.{
  ℕ, ◌+◌, ◌-◌, ◌%◌, ◌^◌, ◌≡◌, Bool, true, false, List, [], ◌∷◌, ◌++◌, Option, none, some,
  if◌then◌else◌, ltb, ◌==◌,
}

-- Where a thread stands in its calls of `lock_acquire`, `lock_try_acquire` and `lock_release`.
pub data Phase : Type 0 where
  -- in none of them
  outside : Phase
  -- in `thread_block` of `sema_down`
  blocked : Phase
  -- unblocked by `sema_up`, before it tests the value again
  woken : Phase
  -- the value lowered, `holder` not yet set
  taken : Phase
  -- the lock acquired
  holding : Phase
  -- `holder` reset, `sema_up` not yet called
  releasing : Phase

-- `struct lock` with its semaphore's value and waiters, and the threads.
pub record System : Type 0 where
  pub value : ℕ
  pub waiters : List ℕ
  pub holder : Option ℕ
  pub phases : ℕ → Phase

abbrev pub move_to : (ℕ → Phase) → ℕ → Phase → ℕ → Phase
move_to f t p u = if t == u then p else f u

unfoldable pub sema_init : ℕ → System → System
sema_init n x = record x { value = n; waiters = [] }

unfoldable pub lock_init : System → System
lock_init x = sema_init 1 (record x { holder = none })

-- `sema->value--`
unfoldable pub take : ℕ → System → System
take t x = record x { value = x.value - 1; phases = move_to x.phases t taken }

-- One round of the loop of `sema_down`: thread `t` waits, or takes one off the value.
unfoldable pub sema_down : ℕ → System → System
sema_down t x =
    if x.value == 0
    then record x { waiters = x.waiters ++ t ∷ []; phases = move_to x.phases t blocked }
    else take t x

-- On failure the caller goes on without the lock.
unfoldable pub sema_try_down : ℕ → System → System
sema_try_down t x = if ltb 0 x.value then take t x else x

-- The first waiter is unblocked.
unfoldable pub unblock : List ℕ → System → System
unblock [] x = x
unblock (p ∷ ps) x = record x { waiters = ps; phases = move_to x.phases p woken }

-- `sema_up` by a thread `t`, which then leaves `lock_release`.
unfoldable pub sema_up : ℕ → System → System
sema_up t x =
    let y = unblock x.waiters x in
    record y { value = (y.value + 1) % 2 ^ 32; phases = move_to y.phases t outside }

unfoldable pub set_holder : ℕ → System → System
set_holder t x = record x { holder = some t; phases = move_to x.phases t holding }

unfoldable pub reset_holder : ℕ → System → System
reset_holder t x = record x { holder = none; phases = move_to x.phases t releasing }

-- The steps of the calls.
pub data Step (x : System) : System → Type 0 where
  acquire : (t : ℕ) → x.phases t ≡ outside → Step x (sema_down t x)
  try_acquire : (t : ℕ) → x.phases t ≡ outside → Step x (sema_try_down t x)
  retry : (t : ℕ) → x.phases t ≡ woken → Step x (sema_down t x)
  acquired : (t : ℕ) → x.phases t ≡ taken → Step x (set_holder t x)
  release : (t : ℕ) → x.phases t ≡ holding → Step x (reset_holder t x)
  up : (t : ℕ) → x.phases t ≡ releasing → Step x (sema_up t x)

-- The states that threads reach after `lock_init`, when none was in a call.
pub data Reachable : System → Type 0 where
  start : (x : System) → ((t : ℕ) → x.phases t ≡ outside) → Reachable (lock_init x)
  next : (x y : System) → Reachable x → Step x y → Reachable y
