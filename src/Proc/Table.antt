-- ===== src/Proc/Table.antt =====
-- The table of processes: `find_proc` finds each of them by its pid.
use algorithms_prepare.Prelude.{
  ℕ, ◌≡◌, refl, ap, sym, subst, inl, inr, true, false, ◌&&◌, ◌||◌, List, [], ◌∷◌, map, none, some,
  ltb, ◌==◌, arith, Bool-cases,
}
use algorithms_prepare.Sched.{linked}
use algorithms_prepare.Sched.Queue.{Unique}
use algorithms_prepare.Proc.{max_pid, Procs, pid_hashfn, find_from, find_proc}
use algorithms_prepare.Proc.Pid.{pids, IsSafe}

-- No two processes of the list have one pid, each pid is a valid one, the hash list of a pid holds the
-- processes with it, and the pids from `last_pid` to `next_safe` are free.
pub record IsTable (s : Procs) : Type 0 where
  pub distinct : Unique s.proc_list
  pub apart :
      (p q : ℕ)
      → linked p s.proc_list ≡ true
      → linked q s.proc_list ≡ true
      → s.pid p ≡ s.pid q
      → p ≡ q
  pub valid :
      (p : ℕ) → linked p s.proc_list ≡ true → (ltb 0 (s.pid p) && ltb (s.pid p) max_pid) ≡ true
  pub hashed :
      (p b : ℕ) → linked p (s.hash_list b) ≡ (linked p s.proc_list && (b == pid_hashfn (s.pid p)))
  pub single : (b : ℕ) → Unique (s.hash_list b)
  pub safe : IsSafe s.last_pid s.next_safe (pids s)

pub linked-map :
    (f : ℕ → ℕ) (p : ℕ) (ps : List ℕ) → linked p ps ≡ true → linked (f p) (map f ps) ≡ true
unfolding linked
linked-map f p [] h = cc
linked-map f p (q ∷ ps) h = elim (Bool-cases (p == q)) [
  | inl e ↦
      let at : p ≡ q = ground (arith, e) in
      subst (λ i. (f i == f q || linked (f i) (map f ps)) ≡ true) (sym at) (ground arith)
  | inr e ↦ ground (arith, linked-map f p ps (ground (arith, h, e)))
]

-- What a search of a list finds.
find_from-only :
    (f : ℕ → ℕ) (p : ℕ) (qs : List ℕ)
    → linked p qs ≡ true
    → ((q : ℕ) → linked q qs ≡ true → f q ≡ f p → q ≡ p)
    → find_from f (f p) qs ≡ some p
unfolding linked find_from
find_from-only f p [] h only = cc
find_from-only f p (q ∷ qs) h only = elim (Bool-cases (f q == f p)) [
  | inl e ↦ rw (e, find_from) (ap some (only q (ground arith) (ground (arith, e))))
  | inr e ↦
      let here : linked p qs ≡ true = elim (Bool-cases (p == q)) [
        | inl k ↦
            let same : f q ≡ f p = ap f (ground (arith, k)) in absurd (ground (arith, e, same))
        | inr k ↦ ground (arith, h, k)
      ] in
      rw (e, find_from) (find_from-only f p qs here (λ r m k. only r (ground (arith, m)) k))
]

find_from-none :
    (f : ℕ → ℕ) (id : ℕ) (qs : List ℕ)
    → ((q : ℕ) → linked q qs ≡ true → (f q == id) ≡ false)
    → find_from f id qs ≡ none
unfolding linked find_from
find_from-none f id [] no_one = refl
find_from-none f id (q ∷ qs) no_one =
    let here : (f q == id) ≡ false = no_one q (ground arith) in
    rw (here, find_from) (find_from-none f id qs (λ r m. no_one r (ground (arith, m))))

-- What `find_proc` finds.
pub record Finds (s : Procs) : Type 0 where
  pub present : (p : ℕ) → linked p s.proc_list ≡ true → find_proc (s.pid p) s ≡ some p
  pub absent : (id : ℕ) → linked id (pids s) ≡ false → find_proc id s ≡ none

pub find_proc-Finds : (s : Procs) → IsTable s → Finds s
unfolding find_proc
find_proc-Finds s t = record {
  present = λ p m. rw (t.valid p m) (
      find_from-only s.pid p (s.hash_list (pid_hashfn (s.pid p)))
        (ground (arith, t.hashed p (pid_hashfn (s.pid p)), m))
        (λ q k e. t.apart q p (ground (arith, t.hashed q (pid_hashfn (s.pid p)), k)) m e));
  absent = λ id m. elim (Bool-cases (ltb 0 id && ltb id max_pid)) [
    | inl e ↦ rw e (
        find_from-none s.pid id (s.hash_list (pid_hashfn id)) (λ q k.
          elim (Bool-cases (s.pid q == id)) [
            | inl i ↦
                let here =
                  linked-map s.pid q s.proc_list (ground (arith, t.hashed q (pid_hashfn id), k)) in
                let at : s.pid q ≡ id = ground (arith, i) in
                let there = subst (λ j. linked j (pids s) ≡ true) at here in cc
            | inr i ↦ i
          ]))
    | inr e ↦ rw e refl
  ];
}
