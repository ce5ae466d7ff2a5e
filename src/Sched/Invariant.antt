-- ===== src/Sched/Invariant.antt =====
-- The scheduler's invariant, and what `schedule` and `wakeup_proc` do under it.
use algorithms_prepare.Prelude.{
  ℕ, ◌≤◌, ◌<◌, ◌≡◌, ◌≢◌, ◌⊎◌, inl, inr, refl, ap, true, false, not, ◌&&◌, List, [], ◌∷◌, ◌++◌, some,
  if◌then◌else◌, ◌==◌, arith, length, length-append, Bool-cases, ==_iff,
}
use algorithms_prepare.Sched.{
  Sched, linked, rr_enqueue, sched_class_enqueue, unset_need_resched, enqueue_current, is_runnable,
}
use algorithms_prepare.Sched.Queue.{Unique, linked-append, Unique-snoc}

-- What is true of a process in the run list.
pub record Ready (s : Sched) (p : ℕ) : Type 0 where
  pub runnable : is_runnable (s.procs p).state ≡ true
  pub queued : (s.procs p).on_rq ≡ true
  pub slice_pos : 0 < (s.procs p).time_slice
  pub slice_le : (s.procs p).time_slice ≤ s.max_time_slice

pub record QueueIsValid (s : Sched) : Type 0 where
  pub unique : Unique s.run_list
  pub counted : s.proc_num ≡ length s.run_list
  pub idle_out : linked s.idleproc s.run_list ≡ false
  pub slices : 0 < s.max_time_slice
  pub ready : (p : ℕ) → linked p s.run_list ≡ true → Ready s p

-- The running process is not in the run list, and a runnable process that is not running is in it,
-- unless it is the idle process.
pub record SchedIsValid (s : Sched) : Type 0 where
  pub queue_valid : QueueIsValid s
  pub current_out : linked s.current s.run_list ≡ false
  pub kept :
      (p : ℕ)
      → is_runnable (s.procs p).state ≡ true
      → (p ≡ s.current) ⊎ (p ≡ s.idleproc) ⊎ (linked p s.run_list ≡ true)

-- The run list as `schedule` finds it once the current process is back in it.
abbrev pub waiting : Sched → List ℕ
waiting s =
    if is_runnable (s.procs s.current).state && not (s.current == s.idleproc)
    then s.run_list ++ s.current ∷ []
    else s.run_list

abbrev pub head_or : ℕ → List ℕ → ℕ
head_or d [] = d
head_or d (p ∷ xs) = p

abbrev pub tail : List ℕ → List ℕ
tail [] = []
tail (p ∷ xs) = xs

-- What `rr_enqueue` makes of a runnable process outside the list.
pub record Enqueued (s : Sched) (p : ℕ) (s' : Sched) : Type 0 where
  pub valid : QueueIsValid s'
  pub list : s'.run_list ≡ s.run_list ++ p ∷ []
  pub same_current : s'.current ≡ s.current
  pub same_idle : s'.idleproc ≡ s.idleproc
  pub same_state : (q : ℕ) → (s'.procs q).state ≡ (s.procs q).state
  pub same_wait : (q : ℕ) → (s'.procs q).wait_state ≡ (s.procs q).wait_state

pub enqueue-Enqueued :
    (s : Sched) (p : ℕ)
    → QueueIsValid s
    → linked p s.run_list ≡ false
    → p ≢ s.idleproc
    → is_runnable (s.procs p).state ≡ true
    → (s' : Sched) × (rr_enqueue s p ≡ some s') × Enqueued s p s'
unfolding rr_enqueue linked
enqueue-Enqueued s p v out ne run = rw out (
  _,
  refl,
  record {
    valid = record {
      unique = Unique-snoc p s.run_list out v.unique;
      counted = omega (arith, v.counted, length-append s.run_list (p ∷ []));
      idle_out = ground (arith, linked-append s.idleproc s.run_list (p ∷ []), v.idle_out);
      slices = v.slices;
      ready = λ q h. elim (Bool-cases (p == q)) [
        | inl e ↦ record {
          runnable = rw e run;
          queued = rw e;
          slice_pos = rw e (ground (arith, v.slices));
          slice_le = rw e (ground arith);
        }
        | inr n ↦
            let r = v.ready q (ground (arith, n, h, linked-append q s.run_list (p ∷ []))) in
            record {
              runnable = rw n r.runnable;
              queued = rw n r.queued;
              slice_pos = rw n r.slice_pos;
              slice_le = rw n r.slice_le;
            }
      ];
    };
    list = refl;
    same_current = refl;
    same_idle = refl;
    same_state = λ q. ground arith;
    same_wait = λ q. ground arith;
  },
)

-- The outcome of `put_back`.
pub record PutBack (s s1 : Sched) : Type 0 where
  pub valid : QueueIsValid s1
  pub list : s1.run_list ≡ waiting s
  pub same_idle : s1.idleproc ≡ s.idleproc
  pub same_state : (q : ℕ) → (s1.procs q).state ≡ (s.procs q).state
  pub same_wait : (q : ℕ) → (s1.procs q).wait_state ≡ (s.procs q).wait_state

pub unset-state : (s : Sched) (q : ℕ) → ((unset_need_resched s).procs q).state ≡ (s.procs q).state
unfolding unset_need_resched
unset-state s q = elim (Bool-cases (s.current == q)) [
  | inl e ↦ rw e (ap (λ p. (s.procs p).state) ((==_iff s.current q).0 e))
  | inr n ↦ rw n
]

pub unset-wait :
    (s : Sched) (q : ℕ) → ((unset_need_resched s).procs q).wait_state ≡ (s.procs q).wait_state
unfolding unset_need_resched
unset-wait s q = elim (Bool-cases (s.current == q)) [
  | inl e ↦ rw e (ap (λ p. (s.procs p).wait_state) ((==_iff s.current q).0 e))
  | inr n ↦ rw n
]

pub unset-valid : (s : Sched) → QueueIsValid s → QueueIsValid (unset_need_resched s)
unfolding unset_need_resched
unset-valid s v = record {
  unique = v.unique;
  counted = v.counted;
  idle_out = v.idle_out;
  slices = v.slices;
  ready = λ q h.
      let r = v.ready q h in
      elim (Bool-cases (s.current == q)) [
        | inl e ↦
            let same : s.current ≡ q = (==_iff s.current q).0 e in
            record {
              runnable = rw e (rw same r.runnable);
              queued = rw e (rw same r.queued);
              slice_pos = rw e (rw same r.slice_pos);
              slice_le = rw e (rw same r.slice_le);
            }
        | inr n ↦ record {
          runnable = rw n r.runnable;
          queued = rw n r.queued;
          slice_pos = rw n r.slice_pos;
          slice_le = rw n r.slice_le;
        }
      ];
}

pub enqueue_current-PutBack :
    (s : Sched)
    → QueueIsValid s
    → linked s.current s.run_list ≡ false
    → (s1 : Sched) × (enqueue_current s ≡ some s1) × PutBack s s1
unfolding enqueue_current sched_class_enqueue
enqueue_current-PutBack s v out = elim (Bool-cases (is_runnable (s.procs s.current).state)) [
  | inr n ↦ (
    s,
    rw n refl,
    record {
      valid = v;
      list = rw n refl;
      same_idle = refl;
      same_state = λ q. refl;
      same_wait = λ q. refl;
    },
  )
  | inl r ↦ elim (Bool-cases (s.current == s.idleproc)) [
    | inl i ↦ (
      s,
      rw (r, i) refl,
      record {
        valid = v;
        list = rw (r, i) refl;
        same_idle = refl;
        same_state = λ q. refl;
        same_wait = λ q. refl;
      },
    )
    | inr i ↦
        let (s1, e, q) =
          enqueue-Enqueued s s.current v out
            (λ h. ground (arith, i, (==_iff s.current s.idleproc).1 h)) r in
        (
          s1,
          rw (r, i) e,
          record {
            valid = q.valid;
            list = rw (r, i) q.list;
            same_idle = q.same_idle;
            same_state = q.same_state;
            same_wait = q.same_wait;
          },
        )
  ]
]
