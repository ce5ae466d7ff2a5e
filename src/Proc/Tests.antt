-- ===== src/Proc/Tests.antt =====
-- The theorems on processes at a table of one process, 11, with the pid 1, and at a family.
use algorithms_prepare.Prelude.{◌≡◌, refl, true, false, ◌∷◌, [], if◌then◌else◌, ◌==◌, arith}
use algorithms_prepare.Sched.{linked}
use algorithms_prepare.Proc.{
  Procs, get_pid, pid_hashfn, enter_proc, leave_proc, set_links, remove_links,
}
use algorithms_prepare.Proc.Pid.{Fresh, get_pid-Fresh}
use algorithms_prepare.Proc.Table.{IsTable}
use algorithms_prepare.Proc.Change.{Entered, enter_proc-Entered, Left, leave_proc-Left}
use algorithms_prepare.Proc.Family.{IsChildren, Changed, set_links-Changed}
use algorithms_prepare.Proc.Unlink.{remove_links-Changed}

-- The last pid was the greatest one.
abbrev table : Procs
table = record {
  pid = λ p. if p == 11 then 1 else 0;
  parent = λ p. 0;
  cptr = λ p. 0;
  yptr = λ p. 0;
  optr = λ p. 0;
  proc_list = 11 ∷ [];
  hash_list = λ b. if b == 632 then 11 ∷ [] else [];
  nr_process = 2;
  next_safe = 8192;
  last_pid = 8191;
}

table-IsTable : IsTable table
unfolding linked pid_hashfn
table-IsTable = record {
  distinct = (refl, tt);
  apart = λ p q m n e. ground (arith, m, n);
  valid = λ p m. ground (arith, m);
  hashed = λ p b. ground arith;
  single = λ b. ground arith;
  safe = λ q m. ground (arith, m);
}

Fresh_example : Fresh table (get_pid 8192 table)
Fresh_example = get_pid-Fresh table 8192 (omega arith) table-IsTable.safe (omega arith)

twelve_out : linked 12 table.proc_list ≡ false
unfolding linked
twelve_out = refl

Entered_example : Entered 12 table (enter_proc 8192 12 table)
Entered_example =
    enter_proc-Entered 8192 12 table table-IsTable twelve_out (omega arith) (omega arith)

eleven_in : linked 11 table.proc_list ≡ true
unfolding linked
eleven_in = refl

Left_example : Left 11 table (leave_proc 11 table)
Left_example = leave_proc-Left 11 table table-IsTable eleven_in

-- The process 11 has the children 13 and 12.
abbrev family : Procs
family = record table {
  parent = λ p. if p == 11 then 0 else 11;
  cptr = λ p. if p == 11 then 13 else 0;
  yptr = λ p. if p == 12 then 13 else 0;
  optr = λ p. if p == 13 then 12 else 0;
}

family-IsChildren : IsChildren family 11 (13 ∷ 12 ∷ [])
unfolding linked
family-IsChildren = record {
  youngest = refl;
  siblings = (refl, refl, (refl, refl, tt));
  distinct = (refl, (refl, (refl, tt)));
  parents = λ c m. ground (arith, m);
}

fourteen_out : linked 14 (0 ∷ 13 ∷ 12 ∷ []) ≡ false
unfolding linked
fourteen_out = refl

fourth_example : Changed family (set_links 14 family) 11 (14 ∷ 13 ∷ 12 ∷ [])
fourth_example = set_links-Changed family 14 (13 ∷ 12 ∷ []) family-IsChildren fourteen_out

elder_example : Changed family (remove_links 12 family) 11 (13 ∷ [])
elder_example = remove_links-Changed family (13 ∷ []) 12 [] family-IsChildren
