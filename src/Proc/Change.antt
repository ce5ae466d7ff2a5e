-- ===== src/Proc/Change.antt =====
-- A process enters and leaves the table.
use algorithms_prepare.Prelude.{
  ℕ, ◌<◌, ◌≤◌, ◌≡◌, ◌≢◌, refl, ap, sym, ◌∙◌, subst, inl, inr, Bool, true, false, ◌&&◌, ◌||◌, List,
  [], ◌∷◌, map, length, Option, none, some, ◌>>=◌, if◌then◌else◌, ◌==◌, arith, Bool-cases,
}
use algorithms_prepare.Sched.{linked, remove}
use algorithms_prepare.Sched.Queue.{Unique, Unique-remove, linked-remove}
use algorithms_prepare.Proc.{
  max_pid, max_process, Procs, get_pid, pid_hashfn, hash_proc, unhash_proc, find_proc, update,
  set_links, remove_links, enter_proc, leave_proc,
}
use algorithms_prepare.Proc.Pid.{pids, Fresh, get_pid-Fresh}
use algorithms_prepare.Proc.Table.{IsTable, linked-map, find_proc-Finds}

map-update :
    (f : ℕ → ℕ) (p v : ℕ) (ps : List ℕ) → linked p ps ≡ false → map (update f p v) ps ≡ map f ps
unfolding linked
map-update f p v [] h = refl
map-update f p v (q ∷ ps) h =
    let n : (q == p) ≡ false = ground (arith, h) in
    ap (λ b. (if b then v else f q) ∷ map (update f p v) ps) n
    ∙ ap (λ qs. f q ∷ qs) (map-update f p v ps (ground (arith, h)))

linked-bucket :
    (lists : ℕ → List ℕ) (h p q b : ℕ)
    → linked q (update lists h (p ∷ lists h) b) ≡ ((b == h && q == p) || linked q (lists b))
unfolding linked
linked-bucket lists h p q b = elim (Bool-cases (b == h)) [
  | inl e ↦
      let at : b ≡ h = ground (arith, e) in
      let same = ap (λ i. linked q (lists i)) at in rw e (ap (λ k. q == p || k) (sym same))
  | inr e ↦ rw e refl
]

Unique-bucket :
    (lists : ℕ → List ℕ) (h p b : ℕ)
    → ((i : ℕ) → linked p (lists i) ≡ false)
    → ((i : ℕ) → Unique (lists i))
    → Unique (update lists h (p ∷ lists h) b)
Unique-bucket lists h p b out single = elim (Bool-cases (b == h)) [
  | inl e ↦ rw e (out h, single h)
  | inr e ↦ rw e (single b)
]

-- The outcome of the entry of a process: it is found, and so are the others.
pub record Entered (p : ℕ) (s : Procs) (o : Option Procs) : Type 0 where
  pub state : Procs
  pub returned : o ≡ some state
  pub table : IsTable state
  pub list : state.proc_list ≡ p ∷ s.proc_list
  pub found : find_proc (state.pid p) state ≡ some p
  pub others :
      (q : ℕ)
      → linked q s.proc_list ≡ true
      → (state.pid q ≡ s.pid q) × (find_proc (s.pid q) state ≡ some q)

module _ (p : ℕ) (s : Procs) (t : IsTable s) (out : linked p s.proc_list ≡ false)
    (r : Option (ℕ × Procs)) (f : Fresh s r) where
  abbrev entered : Procs
  entered = set_links p (
      hash_proc p
        (record s { last_pid = f.fresh; next_safe = f.next; pid = update s.pid p f.fresh }))

  apart_entered :
      (a b : ℕ)
      → (a == p || linked a s.proc_list) ≡ true
      → (b == p || linked b s.proc_list) ≡ true
      → update s.pid p f.fresh a ≡ update s.pid p f.fresh b
      → a ≡ b
  apart_entered a b m n e = elim (Bool-cases (a == p)) [
    | inl i ↦ elim (Bool-cases (b == p)) [
      | inl j ↦ ground (arith, i, j)
      | inr j ↦
          let here = linked-map s.pid b s.proc_list (ground (arith, n, j)) in
          let at : s.pid b ≡ f.fresh = ground (arith, e, i, j) in
          let there = subst (λ k. linked k (pids s) ≡ true) at here in
          let none_there = f.unused in cc
    ]
    | inr i ↦ elim (Bool-cases (b == p)) [
      | inl j ↦
          let here = linked-map s.pid a s.proc_list (ground (arith, m, i)) in
          let at : s.pid a ≡ f.fresh = ground (arith, e, i, j) in
          let there = subst (λ k. linked k (pids s) ≡ true) at here in
          let none_there = f.unused in cc
      | inr j ↦ t.apart a b (ground (arith, m, i)) (ground (arith, n, j)) (ground (arith, e, i, j))
    ]
  ]

  hashed_entered :
      (q b : ℕ)
      → linked q (entered.hash_list b)
        ≡ (linked q entered.proc_list && (b == pid_hashfn (entered.pid q)))
  unfolding set_links hash_proc linked
  hashed_entered q b =
      let h = pid_hashfn (update s.pid p f.fresh p) in
      let here = linked-bucket s.hash_list h p q b in
      let before = t.hashed q b in
      elim (Bool-cases (q == p)) [
        | inl e ↦
            let at : q ≡ p = ground (arith, e) in
            let same = ap (λ i. pid_hashfn (update s.pid p f.fresh i)) at in
            let gone = ap (λ i. linked i s.proc_list) at in
            here ∙ ground (arith, e, same, before, out, gone)
        | inr e ↦
            let old : update s.pid p f.fresh q ≡ s.pid q = ground (arith, e) in
            let same = ap pid_hashfn old in here ∙ ground (arith, e, same, before)
      ]

  entered-IsTable : IsTable entered
  unfolding set_links hash_proc linked
  entered-IsTable = record {
    distinct = (out, t.distinct);
    apart = apart_entered;
    valid = λ q m. ground (arith, m, f.positive, f.bounded, t.valid q);
    hashed = hashed_entered;
    single = λ b.
        Unique-bucket s.hash_list (pid_hashfn (update s.pid p f.fresh p)) p b
          (λ i. ground (arith, t.hashed p i, out)) t.single;
    safe = λ q m.
        let new : update s.pid p f.fresh p ≡ f.fresh = ground arith in
        let old = ap (linked q) (map-update s.pid p f.fresh s.proc_list out) in
        f.safe q (ground (arith, m, new, old));
  }

  entered-Entered : Entered p s (some entered)
  unfolding set_links hash_proc linked
  entered-Entered =
      let finds = find_proc-Finds entered entered-IsTable in
      record {
        state = entered;
        returned = refl;
        table = entered-IsTable;
        list = refl;
        found = finds.present p (ground arith);
        others = λ q m.
            let n : (q == p) ≡ false = elim (Bool-cases (q == p)) [
              | inl e ↦
                  let at : q ≡ p = ground (arith, e) in
                  let gone = subst (λ i. linked i s.proc_list ≡ true) at m in cc
              | inr e ↦ e
            ] in
            let same : entered.pid q ≡ s.pid q = ground (arith, n) in
            (
              same,
              subst (λ id. find_proc id entered ≡ some q) same
                  (finds.present q (ground (arith, m))),
            );
      }

-- In a valid table of fewer than MAX_PROCESS processes, with fuel for every pid, what `do_fork`
-- does between disabling and enabling interrupts ends: the new process, which was not in the list,
-- gets a pid of its own and heads the list, `find_proc` finds it by that pid and every other
-- process by the pid it had, and the table stays valid.
pub enter_proc-Entered :
    (fuel p : ℕ) (s : Procs)
    → IsTable s
    → linked p s.proc_list ≡ false
    → length s.proc_list < max_process
    → max_pid ≤ fuel
    → Entered p s (enter_proc fuel p s)
unfolding enter_proc
enter_proc-Entered fuel p s t out h hf =
    let f = get_pid-Fresh s fuel (omega (arith, h)) t.safe hf in
    let go : Option (ℕ × Procs) → Option Procs = λ o.
      o >>= λ r. some (set_links p (hash_proc p (record r.1 { pid = update r.1.pid p r.0 }))) in
    subst (Entered p s) (sym (ap go f.returned)) (entered-Entered p s t out (get_pid fuel s) f)

-- The outcome of the removal of a process.
pub record Left (p : ℕ) (s s' : Procs) : Type 0 where
  pub table : IsTable s'
  pub list : s'.proc_list ≡ remove p s.proc_list
  pub gone : find_proc (s.pid p) s' ≡ none
  pub others : (q : ℕ) → linked q s.proc_list ≡ true → q ≢ p → find_proc (s.pid q) s' ≡ some q

linked-map-remove :
    (f : ℕ → ℕ) (id p : ℕ) (ps : List ℕ)
    → linked id (map f (remove p ps)) ≡ true
    → linked id (map f ps) ≡ true
unfolding linked remove
linked-map-remove f id p [] h = h
linked-map-remove f id p (q ∷ ps) h =
    let pick : Bool → List ℕ = λ b. if b then ps else q ∷ remove p ps in
    elim (Bool-cases (p == q)) [
      | inl e ↦
          let rest = subst (λ xs. linked id (map f xs) ≡ true) (ap pick e) h in ground (arith, rest)
      | inr e ↦
          let rest = subst (λ xs. linked id (map f xs) ≡ true) (ap pick e) h in
          elim (Bool-cases (id == f q)) [
            | inl k ↦ ground (arith, k)
            | inr k ↦ ground (arith, k, linked-map-remove f id p ps (ground (arith, rest, k)))
          ]
    ]

leave_proc-IsTable : (p : ℕ) (s : Procs) → IsTable s → IsTable (leave_proc p s)
unfolding leave_proc remove_links unhash_proc
leave_proc-IsTable p s t = record {
  distinct = Unique-remove p s.proc_list t.distinct;
  apart = λ a b m n e.
      t.apart a b (ground (arith, linked-remove p a s.proc_list t.distinct, m))
        (ground (arith, linked-remove p b s.proc_list t.distinct, n)) e;
  valid = λ q m. t.valid q (ground (arith, linked-remove p q s.proc_list t.distinct, m));
  hashed = λ q b. ground (
    arith,
    linked-remove p q s.proc_list t.distinct,
    linked-remove p q (s.hash_list b) (t.single b),
    t.hashed q b,
  );
  single = λ b. Unique-remove p (s.hash_list b) (t.single b);
  safe = λ id m. t.safe id (linked-map-remove s.pid id p s.proc_list m);
}

map-out :
    (f : ℕ → ℕ) (id : ℕ) (ps : List ℕ)
    → ((q : ℕ) → linked q ps ≡ true → f q ≢ id)
    → linked id (map f ps) ≡ false
unfolding linked
map-out f id [] n = refl
map-out f id (q ∷ ps) n =
    ground (arith, n q (ground arith), map-out f id ps (λ r m. n r (ground (arith, m))))

-- In a valid table, after `do_wait` has taken a process out of the hash list and the links,
-- `find_proc` finds nothing by its pid and every other process by its own, and the table is valid.
pub leave_proc-Left :
    (p : ℕ) (s : Procs) → IsTable s → linked p s.proc_list ≡ true → Left p s (leave_proc p s)
unfolding leave_proc remove_links unhash_proc
leave_proc-Left p s t m =
    let table = leave_proc-IsTable p s t in
    let finds = find_proc-Finds (leave_proc p s) table in
    let rest : (q : ℕ)
        → linked q (remove p s.proc_list) ≡ (if p == q then false else linked q s.proc_list) =
      λ q. linked-remove p q s.proc_list t.distinct in
    record {
      table = table;
      list = refl;
      gone = finds.absent (s.pid p) (
          map-out s.pid (s.pid p) (remove p s.proc_list)
            (λ q k e. ground (arith, rest q, k, t.apart q p (ground (arith, rest q, k)) m e)));
      others = λ q k n. finds.present q (ground (arith, rest q, k, n));
    }
