-- ===== src/Sched.antt =====
-- kern/schedule/default_sched.c and kern/schedule/sched.c of Mooc_OS_Lab/lab1 (the other labs hold the
-- same files): the round-robin class, `schedule` and `wakeup_proc`. A process is a number. Each call
-- runs with interrupts off, hence in one step; `none` is a failed assert. A process whose `run_link`
-- is not empty is one that stands in the run list.
mod Tests
pub mod Queue
pub mod Invariant
pub mod Schedule
pub mod Wakeup
pub mod Timer
use algorithms_prepare.Prelude.{
  ℕ, zero, suc, ◌+◌, ◌-◌, ◌≤◌, Bool, true, false, not, ◌&&◌, ◌||◌, List, [], ◌∷◌, ◌++◌, Option,
  none, some, ◌>>=◌, ◌>>◌, assert, if◌then◌else◌, ltb, ◌==◌, arith,
}

pub data ProcState : Type 0 where
  proc_uninit proc_sleeping proc_runnable proc_zombie : ProcState

abbrev pub is_runnable : ProcState → Bool
is_runnable proc_uninit = false
is_runnable proc_sleeping = false
is_runnable proc_runnable = true
is_runnable proc_zombie = false

abbrev pub is_zombie : ProcState → Bool
is_zombie proc_uninit = false
is_zombie proc_sleeping = false
is_zombie proc_runnable = false
is_zombie proc_zombie = true

-- The fields of `struct proc_struct` that the scheduler reads or writes. `time_slice` is never
-- negative: it starts at 0 and is lowered only where it is positive.
pub record Proc : Type 0 where
  pub state : ProcState
  pub wait_state : ℕ
  pub need_resched : Bool
  pub runs : ℕ
  pub time_slice : ℕ
  -- `proc->rq == rq`
  pub on_rq : Bool

-- `struct run_queue`, the processes, and the variables `current` and `idleproc`.
pub record Sched : Type 0 where
  pub procs : ℕ → Proc
  pub run_list : List ℕ
  pub proc_num : ℕ
  pub max_time_slice : ℕ
  pub current : ℕ
  pub idleproc : ℕ

abbrev pub update : (ℕ → Proc) → ℕ → Proc → ℕ → Proc
update f p x q = if p == q then x else f q

abbrev pub set_proc : Sched → ℕ → Proc → Sched
set_proc s p x = record s { procs = update s.procs p x }

-- `!list_empty(&(proc->run_link))`
unfoldable pub linked : ℕ → List ℕ → Bool
linked p [] = false
linked p (q ∷ xs) = p == q || linked p xs

-- `list_del_init` of the entry of `p`.
unfoldable pub remove : ℕ → List ℕ → List ℕ
remove p [] = []
remove p (q ∷ xs) = if p == q then xs else q ∷ remove p xs

unfoldable pub rr_init : Sched → Sched
rr_init s = record s { run_list = []; proc_num = 0 }

unfoldable pub rr_enqueue : Sched → ℕ → Option Sched
rr_enqueue s p = do
  assert (not (linked p s.run_list))
  let x = s.procs p
  let slice =
      if x.time_slice == 0 || ltb s.max_time_slice x.time_slice
      then s.max_time_slice
      else x.time_slice
  some (record s {
    run_list = s.run_list ++ p ∷ [];
    proc_num = s.proc_num + 1;
    procs = update s.procs p (record x { time_slice = slice; on_rq = true });
  })

unfoldable pub rr_dequeue : Sched → ℕ → Option Sched
rr_dequeue s p = do
  assert (linked p s.run_list && (s.procs p).on_rq)
  some (record s { run_list = remove p s.run_list; proc_num = s.proc_num - 1 })

unfoldable pub first : List ℕ → Option ℕ
first [] = none
first (p ∷ xs) = some p

unfoldable pub rr_pick_next : Sched → Option ℕ
unfolding first
rr_pick_next s = first s.run_list

unfoldable pub rr_proc_tick : Sched → ℕ → Sched
rr_proc_tick s p =
    let x = s.procs p in
    let left = x.time_slice - 1 in
    set_proc s p
      (record x { time_slice = left; need_resched = if left == 0 then true else x.need_resched })

unfoldable pub sched_class_enqueue : Sched → ℕ → Option Sched
unfolding rr_enqueue
sched_class_enqueue s p = if p == s.idleproc then some s else rr_enqueue s p

unfoldable pub sched_class_proc_tick : Sched → ℕ → Sched
sched_class_proc_tick s p =
    if p == s.idleproc
    then set_proc s p (record (s.procs p) { need_resched = true })
    else rr_proc_tick s p

unfoldable pub sched_init : Sched → Sched
unfolding rr_init
sched_init s = rr_init (record s { max_time_slice = 20 })

-- A process that is runnable already only gets a warning.
unfoldable pub wakeup_proc : Sched → ℕ → Option Sched
unfolding sched_class_enqueue
wakeup_proc s p =
    let x = s.procs p in
    assert (not (is_zombie x.state))
    >> (if is_runnable x.state
        then some s
        else (let s' = set_proc s p (record x { state = proc_runnable; wait_state = 0 }) in
            if p == s.current then some s' else sched_class_enqueue s' p))

-- The switch to `next`: `next->runs++`, and `proc_run`, which makes it current.
unfoldable pub proc_run : Sched → ℕ → Sched
proc_run s next = record s {
  procs = update s.procs next (record (s.procs next) { runs = (s.procs next).runs + 1 });
  current = next;
}

-- `current->need_resched = 0`
unfoldable pub unset_need_resched : Sched → Sched
unset_need_resched s = set_proc s s.current (record (s.procs s.current) { need_resched = false })

unfoldable pub enqueue_current : Sched → Option Sched
enqueue_current s =
    if is_runnable (s.procs s.current).state then sched_class_enqueue s s.current else some s

-- The current process goes to the end of the run list, if it is still runnable.
unfoldable pub put_back : Sched → Option Sched
put_back s = enqueue_current (unset_need_resched s)

-- The next process leaves the run list and runs; with none there the idle process runs.
unfoldable pub switch_to : Sched → Option ℕ → Option Sched
switch_to s none = some (proc_run s s.idleproc)
switch_to s (some next) = rr_dequeue s next >>= λ s'. some (proc_run s' next)

unfoldable pub switch : Sched → Option Sched
switch s = switch_to s (rr_pick_next s)

unfoldable pub schedule : Sched → Option Sched
schedule s = put_back s >>= switch
