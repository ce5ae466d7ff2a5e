-- ===== src/Wait/Sem/Counting.antt =====
-- The semaphore's operations under its invariant and the scheduler's.
use algorithms_prepare.Prelude.{
  ℕ, ◌+◌, ◌≡◌, ◌≢◌, refl, ap, sym, ◌∙◌, subst, ◌⊎◌, inl, inr, true, false, List, [], ◌∷◌, some,
  ◌==◌, arith, ==_iff, ==-self,
}
use algorithms_prepare.Sched.{Sched, linked, first, is_runnable, is_zombie}
use algorithms_prepare.Sched.Queue.{Unique}
use algorithms_prepare.Sched.Invariant.{SchedIsValid}
use algorithms_prepare.Sched.Wakeup.{Woken, wakeup_proc-Woken}
use algorithms_prepare.Wait.{Waits, wait_current_del}
use algorithms_prepare.Wait.Wake.{woken_queue, woken_queue-proc, wakeup_wait_first}
use algorithms_prepare.Wait.Sem.{down_again, down_done, Sem, wt_ksem, up_first, __up, up}

-- What is true of a wait in the queue.
pub record IsWaiting (q : Waits) (w : ℕ) : Type 0 where
  pub queued : (q.waits w).on_queue ≡ true
  pub asleep : is_runnable (q.sched.procs (q.waits w).proc).state ≡ false
  pub alive : is_zombie (q.sched.procs (q.waits w).proc).state ≡ false
  pub for_sem : (q.sched.procs (q.waits w).proc).wait_state ≡ wt_ksem

-- The invariant: the waits stand for sleeping processes, one each, and there are none while the
-- value is positive.
pub record SemIsValid (s : Sem) : Type 0 where
  pub sched_valid : SchedIsValid s.wait_queue.sched
  pub unique : Unique s.wait_queue.queue
  pub settled : (s.value ≡ 0) ⊎ (s.wait_queue.queue ≡ [])
  pub waits : (w : ℕ) → linked w s.wait_queue.queue ≡ true → IsWaiting s.wait_queue w
  pub one_each :
      (v w : ℕ)
      → linked v s.wait_queue.queue ≡ true
      → linked w s.wait_queue.queue ≡ true
      → (s.wait_queue.waits v).proc ≡ (s.wait_queue.waits w).proc
      → v ≡ w

-- The outcome of `up`: nobody waits and the value grows, or the first process that waits is woken.
pub data Raised (s : Sem) : Sem → Type 0 where
  counted : s.wait_queue.queue ≡ [] → Raised s (record s { value = s.value + 1 })
  passed :
      (w : ℕ) (ws : List ℕ) (s' : Sem)
      → s.wait_queue.queue ≡ w ∷ ws
      → s'.wait_queue.queue ≡ ws
      → s'.value ≡ s.value
      → (s'.wait_queue.waits w).wakeup_flags ≡ wt_ksem
      → Woken s.wait_queue.sched (s.wait_queue.waits w).proc s'.wait_queue.sched
      → down_done w s' ≡ some s'
      → Raised s s'

woken_sem : Sem → ℕ → List ℕ → Sched → Sem
woken_sem s w ws z = record s { wait_queue = woken_queue s.wait_queue w ws wt_ksem z }

passed-valid :
    (s : Sem) (w : ℕ) (ws : List ℕ) (z : Sched)
    → SemIsValid s
    → s.wait_queue.queue ≡ w ∷ ws
    → Woken s.wait_queue.sched (s.wait_queue.waits w).proc z
    → SemIsValid (woken_sem s w ws z)
unfolding woken_sem linked
passed-valid s w ws z v e k =
    let q = s.wait_queue in
    let u : Unique (w ∷ ws) = subst Unique e v.unique in
    let still : (x : ℕ) → linked x ws ≡ true → linked x q.queue ≡ true =
      λ x h. ap (linked x) e ∙ ground (arith, h) in
    let head : linked w q.queue ≡ true = ap (linked w) e ∙ ground arith in
    record {
      sched_valid = k.valid;
      unique = u.1;
      settled = elim v.settled [ inl a ↦ inl a | inr n ↦ let no = sym e ∙ n in cc ];
      waits = λ x h.
          let i = v.waits x (still x h) in
          let apart : (w == x) ≡ false = ground (arith, u.0, h) in
          let ne : (q.waits w).proc ≢ (q.waits x).proc =
            λ p. let same = v.one_each w x head (still x h) p in ground (arith, apart, same) in
          record {
            queued = rw apart i.queued;
            asleep = rw apart (ap is_runnable (k.others (q.waits x).proc ne) ∙ i.asleep);
            alive = rw apart (ap is_zombie (k.others (q.waits x).proc ne) ∙ i.alive);
            for_sem = rw apart (k.same_wait (q.waits x).proc ne ∙ i.for_sem);
          };
      one_each = λ x y h g p.
          v.one_each x y (still x h) (still y g)
            (sym (woken_queue-proc q w x ws wt_ksem z) ∙ p ∙ woken_queue-proc q w y ws wt_ksem z);
    }

-- The process that `up` has woken finds its wait off the queue, and `down` ends without failing.
down_done-woken :
    (s : Sem) (w : ℕ) (ws : List ℕ) (z : Sched)
    → linked w ws ≡ false
    → down_done w (woken_sem s w ws z) ≡ some (woken_sem s w ws z)
unfolding down_done down_again wait_current_del woken_sem
down_done-woken s w ws z f = rw (f, ==-self w) refl

raise :
    (s : Sem) (xs : List ℕ)
    → SemIsValid s
    → s.wait_queue.queue ≡ xs
    → (s' : Sem) × (up_first wt_ksem s (first xs) ≡ some s') × SemIsValid s' × Raised s s'
unfolding up_first first linked
raise s [] v e = (
  record s { value = s.value + 1 },
  refl,
  record {
    sched_valid = v.sched_valid;
    unique = v.unique;
    settled = inr e;
    waits = v.waits;
    one_each = v.one_each;
  },
  counted e,
)
raise s (w ∷ ws) v e =
    let q = s.wait_queue in
    let i = v.waits w (ap (linked w) e ∙ ground arith) in
    let (z, p, k) = wakeup_proc-Woken q.sched (q.waits w).proc v.sched_valid i.alive in
    let state : ((q.sched.procs (q.waits w).proc).wait_state == wt_ksem) ≡ true =
      (==_iff (q.sched.procs (q.waits w).proc).wait_state wt_ksem).1 i.for_sem in
    (
      woken_sem s w ws z,
      rw (state, wakeup_wait_first q w ws wt_ksem z e i.queued p) (unfold woken_sem in refl),
      passed-valid s w ws z v e k,
      passed w ws (woken_sem s w ws z) e (unfold woken_sem in refl) (unfold woken_sem in refl)
          (unfold woken_sem in ground arith) (unfold woken_sem in k)
          (down_done-woken s w ws z (subst Unique e v.unique).0),
    )

-- Where the waits of a semaphore stand for processes asleep on it, one each, and there are none
-- while its value is positive, `up` fails no assert and keeps this and the scheduler's validity:
-- with nobody waiting the value grows by one, else the first wait leaves the queue and its process
-- is woken, the value unchanged, and the rest of its `down` ends without failing.
pub up-Raised :
    (s : Sem) → SemIsValid s → (s' : Sem) × (up s ≡ some s') × SemIsValid s' × Raised s s'
unfolding up __up
up-Raised s v = raise s s.wait_queue.queue v refl
