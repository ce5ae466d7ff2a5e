-- ===== src/Sched/Schedule.antt =====
-- `schedule` and `wakeup_proc` of kern/schedule/sched.c under the scheduler's invariant.
use algorithms_prepare.Prelude.{
  ℕ, ◌-◌, ◌≡◌, ◌⊎◌, inl, inr, refl, sym, ap, ◌∙◌, true, not, ◌&&◌, List, [], ◌∷◌, some, subst, ◌==◌,
  arith, ◌>>=◌, Bool-cases, ==-self, ==_iff,
}
use algorithms_prepare.Sched.{
  Sched, linked, remove, rr_dequeue, rr_pick_next, put_back, unset_need_resched, switch, switch_to,
  proc_run, schedule, is_runnable, first,
}
use algorithms_prepare.Sched.Queue.{
  Unique, linked-append, linked-remove, Unique-remove, length-remove, remove_head,
}
use algorithms_prepare.Sched.Invariant.{
  QueueIsValid, SchedIsValid, waiting, head_or, tail, PutBack, enqueue_current-PutBack, unset-state,
  unset-valid, unset-wait,
}

waiting-unset : (s : Sched) → waiting (unset_need_resched s) ≡ waiting s
unfolding unset_need_resched
waiting-unset s = rw (==-self s.current) refl

put_back-PutBack :
    (s : Sched) → SchedIsValid s → (s1 : Sched) × (put_back s ≡ some s1) × PutBack s s1
unfolding put_back
put_back-PutBack s v =
    let (s1, e, q) =
      enqueue_current-PutBack (unset_need_resched s) (unset-valid s v.queue_valid)
        (unfold unset_need_resched in v.current_out) in
    (
      s1,
      e,
      record {
        valid = q.valid;
        list = q.list ∙ waiting-unset s;
        same_idle = q.same_idle ∙ unfold unset_need_resched in refl;
        same_state = λ p. q.same_state p ∙ unset-state s p;
        same_wait = λ p. q.same_wait p ∙ unset-wait s p;
      },
    )

-- Every runnable process but the idle one waits once the current one is back in the list.
waiting-kept :
    (s : Sched)
    → SchedIsValid s
    → (p : ℕ) → is_runnable (s.procs p).state ≡ true
    → (p ≡ s.idleproc) ⊎ (linked p (waiting s) ≡ true)
unfolding linked
waiting-kept s v p r = elim (v.kept p r) [
  | inl e ↦ elim (Bool-cases (s.current == s.idleproc)) [
    | inl i ↦ inl (e ∙ (==_iff s.current s.idleproc).0 i)
    | inr i ↦
        let run : is_runnable (s.procs s.current).state ≡ true =
          ap (λ q. is_runnable (s.procs q).state) (sym e) ∙ r in
        inr (
          rw (run, i)
            (ground (arith, linked-append p s.run_list (s.current ∷ []), e, ==-self s.current)))
  ]
  | inr (inl e) ↦ inl e
  | inr (inr h) ↦
      inr
        (elim (Bool-cases
          (is_runnable (s.procs s.current).state && not (s.current == s.idleproc))) [
            | inl b ↦ rw b (ground (arith, linked-append p s.run_list (s.current ∷ []), h))
            | inr b ↦ rw b h
          ])
]

proc_run-valid : (s : Sched) (n : ℕ) → QueueIsValid s → QueueIsValid (proc_run s n)
unfolding proc_run
proc_run-valid s n v = record {
  unique = v.unique;
  counted = v.counted;
  idle_out = v.idle_out;
  slices = v.slices;
  ready = λ q h.
      let r = v.ready q h in
      elim (Bool-cases (n == q)) [
        | inl e ↦
            let same : n ≡ q = (==_iff n q).0 e in
            record {
              runnable = rw e (rw same r.runnable);
              queued = rw e (rw same r.queued);
              slice_pos = rw e (rw same r.slice_pos);
              slice_le = rw e (rw same r.slice_le);
            }
        | inr ne ↦ record {
          runnable = rw ne r.runnable;
          queued = rw ne r.queued;
          slice_pos = rw ne r.slice_pos;
          slice_le = rw ne r.slice_le;
        }
      ];
}

proc_run-state : (s : Sched) (n q : ℕ) → ((proc_run s n).procs q).state ≡ (s.procs q).state
unfolding proc_run
proc_run-state s n q = elim (Bool-cases (n == q)) [
  | inl e ↦ rw e (ap (λ p. (s.procs p).state) ((==_iff n q).0 e))
  | inr ne ↦ rw ne
]

proc_run-wait : (s : Sched) (n q : ℕ) → ((proc_run s n).procs q).wait_state ≡ (s.procs q).wait_state
unfolding proc_run
proc_run-wait s n q = elim (Bool-cases (n == q)) [
  | inl e ↦ rw e (ap (λ p. (s.procs p).wait_state) ((==_iff n q).0 e))
  | inr ne ↦ rw ne
]

dequeue_head :
    (s : Sched) (n : ℕ) (rest : List ℕ)
    → s.run_list ≡ n ∷ rest
    → QueueIsValid s
    → (s' : Sched) × (rr_dequeue s n ≡ some s')
      × QueueIsValid s'
      × (s'.run_list ≡ rest)
      × (s'.idleproc ≡ s.idleproc)
      × ((q : ℕ) → (s'.procs q).state ≡ (s.procs q).state)
      × ((q : ℕ) → (s'.procs q).wait_state ≡ (s.procs q).wait_state)
unfolding rr_dequeue linked
dequeue_head s n rest e v =
    let here : linked n s.run_list ≡ true = rw e (rw (==-self n) refl) in
    let gone : remove n s.run_list ≡ rest = rw e (remove_head n rest) in
    (
      record s { run_list = remove n s.run_list; proc_num = s.proc_num - 1 },
      rw (here, (v.ready n here).queued) refl,
      record {
        unique = Unique-remove n s.run_list v.unique;
        counted = omega (arith, v.counted, length-remove n s.run_list here);
        idle_out = ground (arith, linked-remove n s.idleproc s.run_list v.unique, v.idle_out);
        slices = v.slices;
        ready = λ q h.
            let r = v.ready q (ground (arith, h, linked-remove n q s.run_list v.unique)) in
            record {
              runnable = r.runnable;
              queued = r.queued;
              slice_pos = r.slice_pos;
              slice_le = r.slice_le;
            };
      },
      gone,
      refl,
      λ q. refl,
      λ q. refl,
    )

-- The outcome of `schedule` where the run list, with the current process back in it, is `xs`.
pub record Switched (s : Sched) (xs : List ℕ) (s' : Sched) : Type 0 where
  pub valid : SchedIsValid s'
  pub chosen : s'.current ≡ head_or s.idleproc xs
  pub list : s'.run_list ≡ tail xs
  pub same_idle : s'.idleproc ≡ s.idleproc
  pub same_state : (q : ℕ) → (s'.procs q).state ≡ (s.procs q).state
  pub same_wait : (q : ℕ) → (s'.procs q).wait_state ≡ (s.procs q).wait_state

switch-Switched :
    (s : Sched) (xs : List ℕ)
    → s.run_list ≡ xs
    → QueueIsValid s
    → ((p : ℕ) → is_runnable (s.procs p).state ≡ true → (p ≡ s.idleproc) ⊎ (linked p xs ≡ true))
    → (s' : Sched) × (switch s ≡ some s') × Switched s xs s'
unfolding switch switch_to rr_pick_next first linked
switch-Switched s [] e v k = (
  proc_run s s.idleproc,
  ap (λ ys. switch_to s (first ys)) e,
  record {
    valid = record {
      queue_valid = proc_run-valid s s.idleproc v;
      current_out = unfold proc_run in v.idle_out;
      kept = λ p r. elim (k p (sym (ap is_runnable (proc_run-state s s.idleproc p)) ∙ r)) [
        | inl a ↦ inl (unfold proc_run in a)
        | inr b ↦ cc
      ];
    };
    chosen = unfold proc_run in refl;
    list = unfold proc_run in e;
    same_idle = unfold proc_run in refl;
    same_state = proc_run-state s s.idleproc;
    same_wait = proc_run-wait s s.idleproc;
  },
)
switch-Switched s (n ∷ rest) e v k =
    let (s', d, w, l, i, st, wt) = dequeue_head s n rest e v in
    (
      proc_run s' n,
      ap (λ ys. switch_to s (first ys)) e ∙ ap (λ o. o >>= λ z. some (proc_run z n)) d,
      record {
        valid = record {
          queue_valid = proc_run-valid s' n w;
          current_out = unfold proc_run in rw l (subst Unique e v.unique).0;
          kept = λ p r. elim (k p (sym (ap is_runnable (proc_run-state s' n p ∙ st p)) ∙ r)) [
            | inl a ↦ inr (inl (a ∙ sym (unfold proc_run in i)))
            | inr b ↦ elim (Bool-cases (p == n)) [
              | inl c ↦ inl (unfold proc_run in (==_iff p n).0 c)
              | inr c ↦ inr (inr (unfold proc_run in rw l (ground (arith, b, c))))
            ]
          ];
        };
        chosen = unfold proc_run in refl;
        list = unfold proc_run in l;
        same_idle = unfold proc_run in i;
        same_state = λ q. proc_run-state s' n q ∙ st q;
        same_wait = λ q. proc_run-wait s' n q ∙ wt q;
      },
    )

-- From a valid state `schedule` fails no assert and leaves a valid state: the current process, if
-- runnable and not idle, goes to the end of the run list; the head of that list runs next and
-- leaves it, or the idle process if it is empty.
pub schedule-Switched :
    (s : Sched) → SchedIsValid s → (s' : Sched) × (schedule s ≡ some s') × Switched s (waiting s) s'
unfolding schedule
schedule-Switched s v =
    let (s1, e, q) = put_back-PutBack s v in
    let (s', e', w) = switch-Switched s1 (waiting s) q.list q.valid λ p r.
      elim (waiting-kept s v p (sym (ap is_runnable (q.same_state p)) ∙ r)) [
        | inl a ↦ inl (a ∙ sym q.same_idle)
        | inr b ↦ inr b
      ] in
    (
      s',
      ap (λ o. o >>= switch) e ∙ e',
      record {
        valid = w.valid;
        chosen = w.chosen ∙ ap (λ d. head_or d (waiting s)) q.same_idle;
        list = w.list;
        same_idle = w.same_idle ∙ q.same_idle;
        same_state = λ p. w.same_state p ∙ q.same_state p;
        same_wait = λ p. w.same_wait p ∙ q.same_wait p;
      },
    )
