-- ===== src/Wait/Sem/Sleeping.antt =====
-- `__down` of a semaphore: it is taken, or the process sleeps.
use algorithms_prepare.Prelude.{
  ℕ, ◌-◌, ◌<◌, ◌≡◌, ◌≢◌, refl, ap, sym, ◌∙◌, subst, inl, inr, Bool, true, false, [], ◌∷◌, ◌++◌,
  some, if◌then◌else◌, ltb, ltb→lt, ◌==◌, arith, Bool-cases, ==_iff, ==-self, ==-false,
}
use algorithms_prepare.Sched.{
  Sched, proc_sleeping, set_proc, linked, schedule, is_runnable, is_zombie,
}
use algorithms_prepare.Sched.Queue.{linked-append, Unique-snoc}
use algorithms_prepare.Sched.Invariant.{SchedIsValid, waiting, head_or}
use algorithms_prepare.Sched.Wakeup.{set_proc-valid}
use algorithms_prepare.Sched.Schedule.{Switched, schedule-Switched}
use algorithms_prepare.Wait.{Waits, set_wait, wait_init, wait_queue_add, wait_current_set}
use algorithms_prepare.Wait.Sem.{Sem, wt_ksem, __down}
use algorithms_prepare.Wait.Sem.Counting.{IsWaiting, SemIsValid}

-- The outcome of `down` up to where the process runs on.
pub data Lowered (w : ℕ) (s : Sem) : Bool → Sem → Type 0 where
  taken : 0 < s.value → Lowered w s true (record s { value = s.value - 1 })
  slept :
      (s' : Sem)
      → s.value ≡ 0
      → s'.value ≡ 0
      → s'.wait_queue.queue ≡ s.wait_queue.queue ++ w ∷ []
      → (s'.wait_queue.waits w).proc ≡ s.wait_queue.sched.current
      → is_runnable (s'.wait_queue.sched.procs s.wait_queue.sched.current).state ≡ false
      → s'.wait_queue.sched.current
        ≡ head_or s.wait_queue.sched.idleproc s.wait_queue.sched.run_list
      → Lowered w s false s'

-- The current process asleep.
abbrev asleep_proc : Sched → Sched
asleep_proc z =
    set_proc z z.current
      (record (z.procs z.current) { state = proc_sleeping; wait_state = wt_ksem })

asleep_proc-valid : (z : Sched) → SchedIsValid z → SchedIsValid (asleep_proc z)
asleep_proc-valid z v = record {
  queue_valid = set_proc-valid z z.current _ v.current_out v.queue_valid;
  current_out = v.current_out;
  kept = λ p r. elim (Bool-cases (z.current == p)) [
    | inl e ↦ inl (sym ((==_iff z.current p).0 e))
    | inr n ↦ v.kept p (sym (rw n refl) ∙ r)
  ];
}

asleep-waiting : (z : Sched) → waiting (asleep_proc z) ≡ z.run_list
asleep-waiting z = rw (==-self z.current) refl

enqueued : ℕ → Waits → Waits
enqueued w q =
    let q1 : Waits = record (wait_init w q.sched.current q) { sched = asleep_proc q.sched } in
    record (set_wait q1 w (record (q1.waits w) { on_queue = true })) { queue = q.queue ++ w ∷ [] }

wait_current_set-enqueued :
    (w : ℕ) (q : Waits)
    → linked w q.queue ≡ false
    → wait_current_set w wt_ksem q ≡ some (enqueued w q)
unfolding wait_current_set wait_queue_add enqueued
wait_current_set-enqueued w q f = rw f refl

slept_sem : ℕ → Sem → Sched → Sem
slept_sem w s z = record s { wait_queue = record (enqueued w s.wait_queue) { sched = z } }

-- The wait that joins stands for the current process, the others for whom they did.
proc-slept :
    (w x : ℕ) (s : Sem) (z : Sched)
    → ((slept_sem w s z).wait_queue.waits x).proc
      ≡ (if w == x then s.wait_queue.sched.current else (s.wait_queue.waits x).proc)
unfolding slept_sem enqueued
proc-slept w x s z = elim (Bool-cases (w == x)) [
  | inl e ↦ rw (e, ==-self w) refl
  | inr n ↦ rw n refl
]

slept-IsWaiting :
    (w x : ℕ) (s : Sem) (z : Sched)
    → SemIsValid s
    → is_runnable (s.wait_queue.sched.procs s.wait_queue.sched.current).state ≡ true
    → Switched (asleep_proc s.wait_queue.sched) s.wait_queue.sched.run_list z
    → linked x (s.wait_queue.queue ++ w ∷ []) ≡ true
    → IsWaiting (slept_sem w s z).wait_queue x
unfolding slept_sem enqueued linked
slept-IsWaiting w x s z v r k h =
    let q = s.wait_queue in
    let c = q.sched.current in
    elim (Bool-cases (w == x)) [
      | inl e ↦ record {
        queued = rw e refl;
        asleep = rw (e, ==-self w) (ap is_runnable (k.same_state c) ∙ rw (==-self c) refl);
        alive = rw (e, ==-self w) (ap is_zombie (k.same_state c) ∙ rw (==-self c) refl);
        for_sem = rw (e, ==-self w) (k.same_wait c ∙ rw (==-self c) refl);
      }
      | inr n ↦
          let i = v.waits x (ground (arith, linked-append x q.queue (w ∷ []), h, n)) in
          let p = (q.waits x).proc in
          let other : (c == p) ≡ false = ==-false c p (λ e.
            let both = ap (λ y. is_runnable (q.sched.procs y).state) e in let a = i.asleep in cc) in
          record {
            queued = rw n i.queued;
            asleep = rw n (ap is_runnable (k.same_state p) ∙ rw other i.asleep);
            alive = rw n (ap is_zombie (k.same_state p) ∙ rw other i.alive);
            for_sem = rw n (k.same_wait p ∙ rw other i.for_sem);
          }
    ]

-- No wait stood for the running process before.
current-other :
    (s : Sem) (x : ℕ)
    → SemIsValid s
    → is_runnable (s.wait_queue.sched.procs s.wait_queue.sched.current).state ≡ true
    → linked x s.wait_queue.queue ≡ true
    → s.wait_queue.sched.current ≢ (s.wait_queue.waits x).proc
current-other s x v r h e =
    let both = ap (λ y. is_runnable (s.wait_queue.sched.procs y).state) e in
    let a = (v.waits x h).asleep in cc

slept-one_each :
    (w x y : ℕ) (s : Sem) (z : Sched)
    → SemIsValid s
    → is_runnable (s.wait_queue.sched.procs s.wait_queue.sched.current).state ≡ true
    → linked x (s.wait_queue.queue ++ w ∷ []) ≡ true
    → linked y (s.wait_queue.queue ++ w ∷ []) ≡ true
    → ((slept_sem w s z).wait_queue.waits x).proc ≡ ((slept_sem w s z).wait_queue.waits y).proc
    → x ≡ y
unfolding linked
slept-one_each w x y s z v r h g e =
    let queue = s.wait_queue.queue in
    let f = sym (proc-slept w x s z) ∙ e ∙ proc-slept w y s z in
    let old : (u : ℕ)
        → linked u (queue ++ w ∷ []) ≡ true
        → (w == u) ≡ false
        → linked u queue ≡ true =
      λ u l n. ground (arith, linked-append u queue (w ∷ []), l, n) in
    elim (Bool-cases (w == x)) [
      | inl a ↦ elim (Bool-cases (w == y)) [
        | inl b ↦ sym ((==_iff w x).0 a) ∙ (==_iff w y).0 b
        | inr b ↦ absurd (current-other s y v r (old y g b) (ground (arith, f, a, b)))
      ]
      | inr a ↦ elim (Bool-cases (w == y)) [
        | inl b ↦ absurd (current-other s x v r (old x h a) (ground (arith, f, a, b)))
        | inr b ↦ v.one_each x y (old x h a) (old y g b) (ground (arith, f, a, b))
      ]
    ]

slept-valid :
    (w : ℕ) (s : Sem) (z : Sched)
    → SemIsValid s
    → s.value ≡ 0
    → linked w s.wait_queue.queue ≡ false
    → is_runnable (s.wait_queue.sched.procs s.wait_queue.sched.current).state ≡ true
    → Switched (asleep_proc s.wait_queue.sched) s.wait_queue.sched.run_list z
    → SemIsValid (slept_sem w s z)
slept-valid w s z v e f r k = record {
  sched_valid = unfold slept_sem in k.valid;
  unique = unfold slept_sem enqueued in Unique-snoc w s.wait_queue.queue f v.unique;
  settled = inl (unfold slept_sem in e);
  waits = λ x h. slept-IsWaiting w x s z v r k (unfold slept_sem enqueued in h);
  one_each = λ x y h g p.
      slept-one_each w x y s z v r (unfold slept_sem enqueued in h) (unfold slept_sem enqueued in g)
        p;
}

-- Where the waits of a semaphore stand for processes asleep on it, one each, and there are none
-- while its value is positive, with a runnable process current and a wait that is not in the queue,
-- `__down` fails no assert and keeps this and the scheduler's validity: a positive value is lowered
-- by one; at zero the current process sleeps, its wait is the last in the queue, and the process
-- switched to is the first of the run list, or the idle process.
pub __down-Lowered :
    (w : ℕ) (s : Sem)
    → SemIsValid s
    → linked w s.wait_queue.queue ≡ false
    → is_runnable (s.wait_queue.sched.procs s.wait_queue.sched.current).state ≡ true
    → (b : Bool) × (s' : Sem) × (__down w wt_ksem s ≡ some (b, s'))
      × SemIsValid s'
      × Lowered w s b s'
unfolding __down
__down-Lowered w s v f r =
    let q = s.wait_queue in
    elim (Bool-cases (ltb 0 s.value)) [
      | inl p ↦ (
        true,
        record s { value = s.value - 1 },
        rw p refl,
        record {
          sched_valid = v.sched_valid;
          unique = v.unique;
          settled = elim v.settled [ inl e ↦ absurd (ground (arith, e, p)) | inr n ↦ inr n ];
          waits = v.waits;
          one_each = v.one_each;
        },
        taken (ltb→lt 0 s.value p),
      )
      | inr p ↦
          let none_left : s.value ≡ 0 = ground (arith, p) in
          let (z, e, k0) =
            schedule-Switched (asleep_proc q.sched) (asleep_proc-valid q.sched v.sched_valid) in
          let k = subst (λ xs. Switched (asleep_proc q.sched) xs z) (asleep-waiting q.sched) k0 in
          let go : schedule (enqueued w q).sched ≡ some z = unfold enqueued in e in
          (
            false,
            slept_sem w s z,
            rw (p, wait_current_set-enqueued w q f, go) (unfold slept_sem in refl),
            slept-valid w s z v none_left f r k,
            slept (slept_sem w s z) none_left (unfold slept_sem in none_left)
                (unfold slept_sem enqueued in refl) (proc-slept w w s z ∙ rw (==-self w) refl)
                (unfold slept_sem in
                  (ap is_runnable (k.same_state q.sched.current)
                    ∙ rw (==-self q.sched.current) refl))
                (unfold slept_sem in k.chosen),
          )
    ]
