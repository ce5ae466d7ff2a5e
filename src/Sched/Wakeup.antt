-- ===== src/Sched/Wakeup.antt =====
-- `wakeup_proc` of kern/schedule/sched.c under the scheduler's invariant.
use algorithms_prepare.Prelude.{
  ℕ, ◌≡◌, ◌≢◌, ◌⊎◌, inl, inr, refl, sym, ap, ◌∙◌, true, false, ◌||◌, List, [], ◌∷◌, ◌++◌, none,
  some, if◌then◌else◌, ◌==◌, arith, Bool-cases, ==-self, ==-false, ==_iff,
}
use algorithms_prepare.Sched.{
  Sched, Proc, linked, set_proc, sched_class_enqueue, wakeup_proc, is_runnable, is_zombie,
  proc_runnable,
}
use algorithms_prepare.Sched.Queue.{linked-append}
use algorithms_prepare.Sched.Invariant.{QueueIsValid, SchedIsValid, Enqueued, enqueue-Enqueued}

-- Writing a process outside the run list keeps the queue valid.
pub set_proc-valid :
    (s : Sched) (p : ℕ) (x : Proc)
    → linked p s.run_list ≡ false
    → QueueIsValid s
    → QueueIsValid (set_proc s p x)
set_proc-valid s p x out v = record {
  unique = v.unique;
  counted = v.counted;
  idle_out = v.idle_out;
  slices = v.slices;
  ready = λ q h. elim (Bool-cases (p == q)) [
    | inl e ↦
        let same : linked p s.run_list ≡ linked q s.run_list =
          ap (λ z. linked z s.run_list) ((==_iff p q).0 e) in
        cc
    | inr n ↦
        let r = v.ready q h in
        record {
          runnable = rw n r.runnable;
          queued = rw n r.queued;
          slice_pos = rw n r.slice_pos;
          slice_le = rw n r.slice_le;
        }
  ];
}

-- `proc->state = PROC_RUNNABLE; proc->wait_state = 0`
abbrev woken : Sched → ℕ → Sched
woken s p = set_proc s p (record (s.procs p) { state = proc_runnable; wait_state = 0 })

-- The run list after `wakeup_proc`.
abbrev woken_list : Sched → ℕ → List ℕ
woken_list s p =
    if is_runnable (s.procs p).state || p == s.current || p == s.idleproc
    then s.run_list
    else s.run_list ++ p ∷ []

pub record Woken (s : Sched) (p : ℕ) (s' : Sched) : Type 0 where
  pub valid : SchedIsValid s'
  pub list : s'.run_list ≡ woken_list s p
  pub runs_on : is_runnable (s'.procs p).state ≡ true
  pub others : (q : ℕ) → p ≢ q → (s'.procs q).state ≡ (s.procs q).state
  pub same_wait : (q : ℕ) → p ≢ q → (s'.procs q).wait_state ≡ (s.procs q).wait_state
  pub waits :
      (q : ℕ) → ((s'.procs q).wait_state ≡ (s.procs q).wait_state) ⊎ ((s'.procs q).wait_state ≡ 0)

woken-wait :
    (s : Sched) (p q : ℕ)
    → (((woken s p).procs q).wait_state ≡ (s.procs q).wait_state)
      ⊎ (((woken s p).procs q).wait_state ≡ 0)
woken-wait s p q = elim (Bool-cases (p == q)) [ inl e ↦ inr (rw e refl) | inr n ↦ inl (rw n refl) ]

asleep_out :
    (s : Sched) (p : ℕ)
    → QueueIsValid s
    → is_runnable (s.procs p).state ≡ false
    → linked p s.run_list ≡ false
asleep_out s p v n = elim (Bool-cases (linked p s.run_list)) [
  | inl h ↦ let r = (v.ready p h).runnable in cc
  | inr h ↦ h
]

woken-kept :
    (s : Sched) (p : ℕ)
    → SchedIsValid s
    → (q : ℕ) → is_runnable ((woken s p).procs q).state ≡ true
    → (q ≡ p) ⊎ (q ≡ s.current) ⊎ (q ≡ s.idleproc) ⊎ (linked q s.run_list ≡ true)
woken-kept s p v q r = elim (Bool-cases (p == q)) [
  | inl e ↦ inl (sym ((==_iff p q).0 e))
  | inr n ↦
      let same : ((woken s p).procs q).state ≡ (s.procs q).state = rw n refl in
      inr (v.kept q (sym (ap is_runnable same) ∙ r))
]

-- The woken process at the end of the run list.
woken-Enqueued :
    (s : Sched) (p : ℕ) (s' : Sched)
    → SchedIsValid s
    → p ≢ s.current
    → Enqueued (woken s p) p s'
    → SchedIsValid s'
unfolding linked
woken-Enqueued s p s' v ne q =
    let current_out' : linked s.current (s.run_list ++ p ∷ []) ≡ false =
      ground (arith, linked-append s.current s.run_list (p ∷ []), v.current_out, ne) in
    record {
      queue_valid = q.valid;
      current_out = let l = q.list in let c = q.same_current in cc;
      kept = λ x r. elim (woken-kept s p v x (sym (ap is_runnable (q.same_state x)) ∙ r)) [
        | inl a ↦
            let here : linked x (s.run_list ++ p ∷ []) ≡ true =
              ground (arith, linked-append x s.run_list (p ∷ []), a) in
            inr (inr (ap (linked x) q.list ∙ here))
        | inr (inl a) ↦ inl (a ∙ sym q.same_current)
        | inr (inr (inl a)) ↦ inr (inl (a ∙ sym q.same_idle))
        | inr (inr (inr a)) ↦
            let here : linked x (s.run_list ++ p ∷ []) ≡ true =
              ground (arith, linked-append x s.run_list (p ∷ []), a) in
            inr (inr (ap (linked x) q.list ∙ here))
      ];
    }

-- From a valid state `wakeup_proc` of a process that is no zombie fails no assert and leaves a
-- valid state: the process is runnable, at the end of the run list unless it was runnable, current
-- or idle, and the other processes' states stay.
pub wakeup_proc-Woken :
    (s : Sched) (p : ℕ)
    → SchedIsValid s
    → is_zombie (s.procs p).state ≡ false
    → (s' : Sched) × (wakeup_proc s p ≡ some s') × Woken s p s'
unfolding wakeup_proc sched_class_enqueue
wakeup_proc-Woken s p v z = elim (Bool-cases (is_runnable (s.procs p).state)) [
  | inl r ↦ (
    s,
    rw (z, r) refl,
    record {
      valid = v;
      list = rw r refl;
      runs_on = r;
      others = λ q n. refl;
      same_wait = λ q n. refl;
      waits = λ q. inl refl;
    },
  )
  | inr n ↦
      let out = asleep_out s p v.queue_valid n in
      let w = set_proc-valid s p _ out v.queue_valid in
      elim (Bool-cases (p == s.current)) [
        | inl c ↦ (
          woken s p,
          rw (z, n, c) refl,
          record {
            valid = record {
              queue_valid = w;
              current_out = v.current_out;
              kept = λ q r. elim (woken-kept s p v q r) [
                | inl a ↦ inl (a ∙ (==_iff p s.current).0 c)
                | inr b ↦ b
              ];
            };
            list = rw (n, c) refl;
            runs_on = rw (==-self p) refl;
            others = λ q ne. rw (==-false p q ne) refl;
            same_wait = λ q ne. rw (==-false p q ne) refl;
            waits = woken-wait s p;
          },
        )
        | inr c ↦ elim (Bool-cases (p == s.idleproc)) [
          | inl i ↦ (
            woken s p,
            rw (z, n, c, i) refl,
            record {
              valid = record {
                queue_valid = w;
                current_out = v.current_out;
                kept = λ q r. elim (woken-kept s p v q r) [
                  | inl a ↦ inr (inl (a ∙ (==_iff p s.idleproc).0 i))
                  | inr b ↦ b
                ];
              };
              list = rw (n, c, i) refl;
              runs_on = rw (==-self p) refl;
              others = λ q ne. rw (==-false p q ne) refl;
              same_wait = λ q ne. rw (==-false p q ne) refl;
              waits = woken-wait s p;
            },
          )
          | inr i ↦
              let (s', e, q) =
                enqueue-Enqueued (woken s p) p w out
                  (λ h. ground (arith, i, (==_iff p s.idleproc).1 h)) (rw (==-self p) refl) in
              (
                s',
                rw (z, n, c, i) e,
                record {
                  valid =
                      woken-Enqueued s p s' v (λ h. ground (arith, c, (==_iff p s.current).1 h)) q;
                  list = rw (n, c, i) q.list;
                  runs_on = ap is_runnable (q.same_state p) ∙ rw (==-self p) refl;
                  others = λ q' ne. q.same_state q' ∙ rw (==-false p q' ne) refl;
                  same_wait = λ q' ne. q.same_wait q' ∙ rw (==-false p q' ne) refl;
                  waits = λ q'. elim (woken-wait s p q') [
                    | inl a ↦ inl (q.same_wait q' ∙ a)
                    | inr b ↦ inr (q.same_wait q' ∙ b)
                  ];
                },
              )
        ]
      ]
]

-- A zombie is not woken.
pub wakeup_proc_zombie :
    (s : Sched) (p : ℕ) → is_zombie (s.procs p).state ≡ true → wakeup_proc s p ≡ none
unfolding wakeup_proc
wakeup_proc_zombie s p z = rw z refl
