-- ===== src/Wait/Wake.antt =====
-- `wakeup_wait` of the first wait, and `wakeup_queue` with deletion.
use algorithms_prepare.Prelude.{
  ℕ, zero, suc, ◌<◌, ◌≡◌, refl, ap, sym, ◌∙◌, subst, inl, inr, true, false, List, [], ◌∷◌, Option,
  none, some, ◌>>=◌, ◌==◌, arith, length, Bool-cases, ==_iff, ==-self,
}
use algorithms_prepare.Sched.{
  Sched, ProcState, proc_uninit, proc_sleeping, proc_runnable, proc_zombie, linked, remove, first,
  wakeup_proc, is_runnable, is_zombie,
}
use algorithms_prepare.Sched.Queue.{Unique, remove_head}
use algorithms_prepare.Sched.Invariant.{SchedIsValid}
use algorithms_prepare.Sched.Wakeup.{Woken, wakeup_proc-Woken}
use algorithms_prepare.Wait.{
  Waits, set_wait, wait_queue_del, wake, wakeup_wait, wake_all, wakeup_queue,
}

-- The queue without its first wait `w`, whose process the scheduler has woken.
abbrev pub woken_queue : Waits → ℕ → List ℕ → ℕ → Sched → Waits
woken_queue q w ws flags z =
    record (set_wait (record q { queue = ws }) w (record (q.waits w) { wakeup_flags = flags })) {
      sched = z;
    }

delete_first :
    (q : Waits) (w : ℕ) (ws : List ℕ)
    → q.queue ≡ w ∷ ws
    → (q.waits w).on_queue ≡ true
    → wait_queue_del w q ≡ some (record q { queue = ws })
unfolding wait_queue_del linked
delete_first q w ws e k =
    let here : linked w q.queue ≡ true = ap (linked w) e ∙ ground arith in
    rw (here, k) (ap (λ us. some (record q { queue = us })) (ap (remove w) e ∙ remove_head w ws))

pub wakeup_wait_first :
    (q : Waits) (w : ℕ) (ws : List ℕ) (flags : ℕ) (z : Sched)
    → q.queue ≡ w ∷ ws
    → (q.waits w).on_queue ≡ true
    → wakeup_proc q.sched (q.waits w).proc ≡ some z
    → wakeup_wait w flags true q ≡ some (woken_queue q w ws flags z)
unfolding wakeup_wait wake
wakeup_wait_first q w ws flags z e k p =
    ap (λ o. o >>= wake flags w) (delete_first q w ws e k) ∙ rw p refl

pub woken_queue-proc :
    (q : Waits) (w v : ℕ) (ws : List ℕ) (flags : ℕ) (z : Sched)
    → ((woken_queue q w ws flags z).waits v).proc ≡ (q.waits v).proc
woken_queue-proc q w v ws flags z = elim (Bool-cases (w == v)) [
  | inl e ↦ rw e (ap (λ u. (q.waits u).proc) ((==_iff w v).0 e))
  | inr n ↦ rw n refl
]

-- The waits that `xs` lists can be woken.
pub record CanWake (q : Waits) (xs : List ℕ) : Type 0 where
  pub sched_valid : SchedIsValid q.sched
  pub listed : q.queue ≡ xs
  pub unique : Unique xs
  pub queued : (w : ℕ) → linked w xs ≡ true → (q.waits w).on_queue ≡ true
  pub alive :
      (w : ℕ) → linked w xs ≡ true → is_zombie (q.sched.procs (q.waits w).proc).state ≡ false

-- The outcome of waking all of them: the queue is empty, and each process can run and learns why.
pub record AllWoken (q : Waits) (xs : List ℕ) (flags : ℕ) (q' : Waits) : Type 0 where
  pub valid : SchedIsValid q'.sched
  pub emptied : q'.queue ≡ []
  pub runs :
      (w : ℕ) → linked w xs ≡ true → is_runnable (q'.sched.procs (q.waits w).proc).state ≡ true
  pub told : (w : ℕ) → linked w xs ≡ true → (q'.waits w).wakeup_flags ≡ flags
  pub others : (w : ℕ) → linked w xs ≡ false → q'.waits w ≡ q.waits w
  pub running :
      (p : ℕ)
      → is_runnable (q.sched.procs p).state ≡ true
      → is_runnable (q'.sched.procs p).state ≡ true

Woken-running :
    (s s' : Sched) (p q : ℕ)
    → Woken s p s'
    → is_runnable (s.procs q).state ≡ true
    → is_runnable (s'.procs q).state ≡ true
Woken-running s s' p q k h = elim (Bool-cases (p == q)) [
  | inl e ↦ subst (λ r. is_runnable (s'.procs r).state ≡ true) ((==_iff p q).0 e) k.runs_on
  | inr n ↦ ap is_runnable (k.others q (λ e. let yes = (==_iff p q).1 e in cc)) ∙ h
]

runnable-alive : (x : ProcState) → is_runnable x ≡ true → is_zombie x ≡ false
runnable-alive proc_uninit h = refl
runnable-alive proc_sleeping h = refl
runnable-alive proc_runnable h = refl
runnable-alive proc_zombie h = cc

Woken-alive :
    (s s' : Sched) (p q : ℕ)
    → Woken s p s'
    → is_zombie (s.procs q).state ≡ false
    → is_zombie (s'.procs q).state ≡ false
Woken-alive s s' p q k h = elim (Bool-cases (p == q)) [
  | inl e ↦
      subst (λ r. is_zombie (s'.procs r).state ≡ false) ((==_iff p q).0 e)
        (runnable-alive (s'.procs p).state k.runs_on)
  | inr n ↦ ap is_zombie (k.others q (λ e. let yes = (==_iff p q).1 e in cc)) ∙ h
]

CanWake-rest :
    (q : Waits) (w : ℕ) (ws : List ℕ) (flags : ℕ) (z : Sched)
    → CanWake q (w ∷ ws)
    → Woken q.sched (q.waits w).proc z
    → CanWake (woken_queue q w ws flags z) ws
unfolding linked
CanWake-rest q w ws flags z c k = record {
  sched_valid = k.valid;
  listed = refl;
  unique = c.unique.1;
  queued = λ x h.
      let apart : (w == x) ≡ false = ground (arith, c.unique.0, h) in
      rw apart (c.queued x (ground (arith, h)));
  alive = λ x h.
      subst (λ p. is_zombie (z.procs p).state ≡ false) (sym (woken_queue-proc q w x ws flags z))
        (Woken-alive q.sched z (q.waits w).proc (q.waits x).proc k (c.alive x (ground (arith, h))));
}

-- The first wait and then the others.
AllWoken-cons :
    (q : Waits) (w : ℕ) (ws : List ℕ) (flags : ℕ) (z : Sched) (q' : Waits)
    → CanWake q (w ∷ ws)
    → Woken q.sched (q.waits w).proc z
    → AllWoken (woken_queue q w ws flags z) ws flags q'
    → AllWoken q (w ∷ ws) flags q'
unfolding linked
AllWoken-cons q w ws flags z q' c k a = record {
  valid = a.valid;
  emptied = a.emptied;
  runs = λ x h. elim (Bool-cases (w == x)) [
    | inl e ↦
        subst (λ y. is_runnable (q'.sched.procs (q.waits y).proc).state ≡ true) ((==_iff w x).0 e)
          (a.running (q.waits w).proc k.runs_on)
    | inr n ↦
        subst (λ p. is_runnable (q'.sched.procs p).state ≡ true) (woken_queue-proc q w x ws flags z)
          (a.runs x (ground (arith, h, n)))
  ];
  told = λ x h. elim (Bool-cases (w == x)) [
    | inl e ↦
        let at : w ≡ x = (==_iff w x).0 e in
        subst (λ y. (q'.waits y).wakeup_flags ≡ flags) at
          (ap (λ u. u.wakeup_flags) (a.others w c.unique.0) ∙ rw (==-self w) refl)
    | inr n ↦ a.told x (ground (arith, h, n))
  ];
  others = λ x h.
      let apart : (w == x) ≡ false = ground (arith, h) in
      a.others x (ground (arith, h)) ∙ rw apart refl;
  running = λ p h. a.running p (Woken-running q.sched z (q.waits w).proc p k h);
}

wake_all_first :
    (fuel flags : ℕ) (q : Waits) (w : ℕ) (ws : List ℕ)
    → q.queue ≡ w ∷ ws
    → wake_all (suc fuel) flags q ≡ (wakeup_wait w flags true q >>= λ r. wake_all fuel flags r)
unfolding wake_all first
wake_all_first fuel flags q w ws e =
    let step : Option ℕ → Option Waits = λ o. elim o [
      | none ↦ some q
      | some v ↦ wakeup_wait v flags true q >>= λ r. wake_all fuel flags r
    ] in
    ap (λ us. step (first us)) e

wakeup_queue_first :
    (fuel flags : ℕ) (q : Waits) (w : ℕ) (ws : List ℕ)
    → q.queue ≡ w ∷ ws
    → wakeup_queue fuel flags true q ≡ wake_all fuel flags q
unfolding wakeup_queue first
wakeup_queue_first fuel flags q w ws e =
    let step : Option ℕ → Option Waits =
      λ o. elim o [ none ↦ some q | some v ↦ wake_all fuel flags q ] in
    ap (λ us. step (first us)) e

wake_all-AllWoken :
    (fuel flags : ℕ) (q : Waits) (xs : List ℕ)
    → CanWake q xs
    → length xs < fuel
    → (q' : Waits) × (wake_all fuel flags q ≡ some q') × AllWoken q xs flags q'
unfolding wake_all first linked
wake_all-AllWoken zero flags q xs c l = absurd (omega (arith, l))
wake_all-AllWoken (suc fuel) flags q [] c l = (
  q,
  rw c.listed refl,
  record {
    valid = c.sched_valid;
    emptied = c.listed;
    runs = λ w h. cc;
    told = λ w h. cc;
    others = λ w h. refl;
    running = λ p h. h;
  },
)
wake_all-AllWoken (suc fuel) flags q (w ∷ ws) c l =
    let head : linked w (w ∷ ws) ≡ true = ground arith in
    let (z, p, k) = wakeup_proc-Woken q.sched (q.waits w).proc c.sched_valid (c.alive w head) in
    let (q', e, a) =
      wake_all-AllWoken fuel flags (woken_queue q w ws flags z) ws (CanWake-rest q w ws flags z c k)
        (omega (arith, l)) in
    (
      q',
      wake_all_first fuel flags q w ws c.listed
          ∙ ap (λ o. o >>= λ r. wake_all fuel flags r)
              (wakeup_wait_first q w ws flags z c.listed (c.queued w head) p)
          ∙ e,
      AllWoken-cons q w ws flags z q' c k a,
    )

wakeup_listed :
    (fuel flags : ℕ) (q : Waits) (xs : List ℕ)
    → CanWake q xs
    → length xs < fuel
    → (q' : Waits) × (wakeup_queue fuel flags true q ≡ some q') × AllWoken q xs flags q'
unfolding wakeup_queue first linked
wakeup_listed fuel flags q [] c l = (
  q,
  rw c.listed refl,
  record {
    valid = c.sched_valid;
    emptied = c.listed;
    runs = λ w h. cc;
    told = λ w h. cc;
    others = λ w h. refl;
    running = λ p h. h;
  },
)
wakeup_listed fuel flags q (w ∷ ws) c l =
    let (q', e, a) = wake_all-AllWoken fuel flags q (w ∷ ws) c l in
    (q', wakeup_queue_first fuel flags q w ws c.listed ∙ e, a)

-- With a valid scheduler, distinct waits in the queue, all marked as on it, no zombie among the
-- processes that wait, and fuel beyond their number, `wakeup_queue` with deletion ends and fails no
-- assert: the queue is empty, every process that waited is runnable and its wait holds the flags
-- given, and the scheduler is valid.
pub wakeup_queue-AllWoken :
    (fuel flags : ℕ) (q : Waits)
    → CanWake q q.queue
    → length q.queue < fuel
    → (q' : Waits) × (wakeup_queue fuel flags true q ≡ some q') × AllWoken q q.queue flags q'
wakeup_queue-AllWoken fuel flags q c l = wakeup_listed fuel flags q q.queue c l
