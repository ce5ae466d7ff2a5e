-- ===== src/Links/Tests.antt =====
-- The list's theorems at a run list of the processes 5 and 7, with the head 100.
use algorithms_prepare.Prelude.{◌≡◌, refl, true, false, [], ◌∷◌, arith}
use algorithms_prepare.Sched.{linked, Sched, proc_runnable, rr_enqueue, rr_dequeue}
use algorithms_prepare.Links.{Links, list_add_before, __list_add}
use algorithms_prepare.Links.Chain.{IsRing}
use algorithms_prepare.Links.Insert.{behind}
use algorithms_prepare.Links.RunList.{
  IsStored, Enqueued, rr_enqueue-Enqueued, Dequeued, rr_dequeue-Dequeued,
}

abbrev alone : Links
alone = record { prev = λ i. i; next = λ i. i }

abbrev two_waiting : Links
two_waiting = list_add_before 100 7 (list_add_before 100 5 alone)

abbrev queue : Sched
queue = record {
  procs = λ p. record {
    state = proc_runnable;
    wait_state = 0;
    need_resched = false;
    runs = 0;
    time_slice = 0;
    on_rq = true;
  };
  run_list = 5 ∷ 7 ∷ [];
  proc_num = 2;
  max_time_slice = 20;
  current = 1;
  idleproc = 0;
}

two-IsStored : IsStored two_waiting 100 (5 ∷ 7 ∷ [])
unfolding list_add_before __list_add linked
two-IsStored = record {
  ring = ((refl, (refl, (refl, tt))), (refl, refl, (refl, refl, (refl, refl))));
  outside = λ p h. ground (arith, h);
}

two-IsRing : IsRing two_waiting 100 (5 ∷ 7 ∷ [])
two-IsRing = two-IsStored.ring

in_queue : (linked 5 (100 ∷ 5 ∷ 7 ∷ []) ≡ true) × (linked 9 (100 ∷ 5 ∷ 7 ∷ []) ≡ false)
unfolding linked
in_queue = (refl, refl)

behind_five : behind 5 9 100 (5 ∷ 7 ∷ []) ≡ 5 ∷ 9 ∷ 7 ∷ []
unfolding behind
behind_five = refl

seventh : linked 7 (5 ∷ 7 ∷ []) ≡ true
unfolding linked
seventh = refl

Enqueued_example : Enqueued two_waiting 100 9 (rr_enqueue queue 9)
Enqueued_example =
    rr_enqueue-Enqueued two_waiting 100 9 queue two-IsStored (λ e. absurd (omega (arith, e)))

Dequeued_example : Dequeued two_waiting 100 5 true (rr_dequeue queue 5)
Dequeued_example =
    rr_dequeue-Dequeued two_waiting 100 5 queue two-IsStored (λ e. absurd (omega (arith, e)))
