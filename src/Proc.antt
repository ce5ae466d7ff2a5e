-- ===== src/Proc.antt =====
-- kern/process/proc.c of Mooc_OS_Lab/lab1, the table of processes: the list of all processes, the hash
-- lists by pid, the links of the family tree and the allocation of a pid. A process is its address, 0
-- the null pointer; the two kinds of lists of list.h are sequences.
pub mod Scan
pub mod Pid
pub mod Table
pub mod Change
pub mod Family
pub mod Unlink
mod Tests
use algorithms_prepare.Prelude.{
  ℕ, zero, suc, ◌+◌, ◌-◌, ◌*◌, ◌/◌, ◌%◌, ◌^◌, Bool, true, false, not, ◌&&◌, List, [], ◌∷◌, map,
  Option, none, some, ◌>>=◌, if◌then◌else◌, ltb, leb, ◌==◌,
}
use algorithms_prepare.Sched.{remove}

abbrev pub max_process : ℕ
max_process = 4096

abbrev pub max_pid : ℕ
max_pid = 8192

-- The fields of all processes, and the variables of the file with the static ones of `get_pid`.
pub record Procs : Type 0 where
  pub pid : ℕ → ℕ
  pub parent : ℕ → ℕ
  pub cptr : ℕ → ℕ
  pub yptr : ℕ → ℕ
  pub optr : ℕ → ℕ
  pub proc_list : List ℕ
  pub hash_list : ℕ → List ℕ
  pub nr_process : ℕ
  pub next_safe : ℕ
  pub last_pid : ℕ

-- How a walk over the processes ends: at the end of the list, with `last_pid` and `next_safe`, or at
-- the `goto repeat`, with `last_pid`.
pub data Walk : Type 0 where
  walked : ℕ → ℕ → Walk
  repeat : ℕ → Walk

unfoldable pub walk : (ℕ → ℕ) → List ℕ → ℕ → ℕ → Walk
walk pid [] last_pid next_safe = walked last_pid next_safe
walk pid (p ∷ ps) last_pid next_safe = elim (pid p == last_pid) [
  | true ↦ elim (leb next_safe (last_pid + 1)) [
    | true ↦ repeat (if leb max_pid (last_pid + 1) then 1 else last_pid + 1)
    | false ↦ walk pid ps (last_pid + 1) next_safe
  ]
  | false ↦ elim (ltb last_pid (pid p) && ltb (pid p) next_safe) [
    | true ↦ walk pid ps last_pid (pid p)
    | false ↦ walk pid ps last_pid next_safe
  ]
]

-- From the label `inside` on; the fuel bounds the repetitions.
unfoldable pub inside : ℕ → (ℕ → ℕ) → List ℕ → ℕ → Option (ℕ × ℕ)
inside zero pid ps last_pid = none
inside (suc fuel) pid ps last_pid = elim (walk pid ps last_pid max_pid) [
  | walked l n ↦ some (l, n)
  | repeat l ↦ inside fuel pid ps l
]

-- The pid, and the state.
unfoldable pub get_pid : ℕ → Procs → Option (ℕ × Procs)
get_pid fuel s =
    let last = s.last_pid + 1 in
    let search : ℕ → Option (ℕ × Procs) = λ l. inside fuel s.pid s.proc_list l >>= λ r.
    some (r.0, record s { last_pid = r.0; next_safe = r.1 }) in
    if leb max_pid last
    then search 1
    else (if leb s.next_safe last then search last else some (last, record s { last_pid = last }))

abbrev pub update {ℓ} : {A : Type ℓ} → (ℕ → A) → ℕ → A → ℕ → A
update f a v i = if i == a then v else f i

-- libs/hash.c.
abbrev pub hash32 : ℕ → ℕ → ℕ
hash32 val bits = ((val * 2654404609) % 2 ^ 32) / 2 ^ (32 - bits)

unfoldable pub pid_hashfn : ℕ → ℕ
pid_hashfn x = hash32 x 10

unfoldable pub hash_proc : ℕ → Procs → Procs
hash_proc proc s =
    let list = pid_hashfn (s.pid proc) in
    record s { hash_list = update s.hash_list list (proc ∷ s.hash_list list) }

-- `list_del` takes the entry out of the list it stands in.
unfoldable pub unhash_proc : ℕ → Procs → Procs
unhash_proc proc s = record s { hash_list = λ list. remove proc (s.hash_list list) }

-- The loop of `find_proc`.
unfoldable pub find_from : (ℕ → ℕ) → ℕ → List ℕ → Option ℕ
find_from of pid [] = none
find_from of pid (proc ∷ ps) = elim (of proc == pid) [
  | true ↦ some proc
  | false ↦ find_from of pid ps
]

unfoldable pub find_proc : ℕ → Procs → Option ℕ
find_proc pid s =
    if ltb 0 pid && ltb pid max_pid
    then find_from s.pid pid (s.hash_list (pid_hashfn pid))
    else none

unfoldable pub set_links : ℕ → Procs → Procs
set_links proc s =
    let old = s.cptr (s.parent proc) in
    let yptr = update s.yptr proc 0 in
    record s {
      proc_list = proc ∷ s.proc_list;
      yptr = if old == 0 then yptr else update yptr old proc;
      optr = update s.optr proc old;
      cptr = update s.cptr (s.parent proc) proc;
      nr_process = s.nr_process + 1;
    }

unfoldable pub remove_links : ℕ → Procs → Procs
remove_links proc s =
    let yptr = if s.optr proc == 0 then s.yptr else update s.yptr (s.optr proc) (s.yptr proc) in
    let first = yptr proc == 0 in
    record s {
      proc_list = remove proc s.proc_list;
      yptr = yptr;
      optr = if first then s.optr else update s.optr (yptr proc) (s.optr proc);
      cptr = if first then update s.cptr (s.parent proc) (s.optr proc) else s.cptr;
      nr_process = s.nr_process - 1;
    }

-- The part of `do_fork` between the two calls on interrupts.
unfoldable pub enter_proc : ℕ → ℕ → Procs → Option Procs
enter_proc fuel proc s = get_pid fuel s >>= λ r.
    some (set_links proc (hash_proc proc (record r.1 { pid = update r.1.pid proc r.0 })))

-- That part of `do_wait`.
unfoldable pub leave_proc : ℕ → Procs → Procs
leave_proc proc s = remove_links proc (unhash_proc proc s)
