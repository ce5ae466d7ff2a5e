-- ===== src/Synch/Tests.antt =====
-- The lock's theorems at a run of three threads: the first takes the lock, the others wait.
use algorithms_prepare.Prelude.{ℕ, ◌≡◌, ◌≢◌, refl, true, [], none}
use algorithms_prepare.Synch.{
  outside, woken, System, sema_init, lock_init, take, sema_down, unblock, sema_up, set_holder,
  reset_holder, acquire, acquired, release, up, Reachable, start, next,
}
use algorithms_prepare.Synch.Mutex.{is_inside}
use algorithms_prepare.Synch.Exclusion.{mutual_exclusion, no_lost_wakeup}

abbrev fresh : System
fresh = record { value = 9; waiters = []; holder = none; phases = λ t. outside }

abbrev first_takes : System
first_takes = sema_down 1 (lock_init fresh)

abbrev first_holds : System
first_holds = set_holder 1 first_takes

abbrev others_wait : System
others_wait = sema_down 3 (sema_down 2 first_holds)

abbrev first_leaves : System
first_leaves = sema_up 1 (reset_holder 1 others_wait)

first_holds-Reachable : Reachable first_holds
unfolding lock_init sema_init sema_down take
first_holds-Reachable =
    next first_takes first_holds
      (next (lock_init fresh) first_takes (start fresh (λ t. refl)) (acquire 1 refl))
      (acquired 1 refl)

others_wait-Reachable : Reachable others_wait
unfolding lock_init sema_init sema_down take set_holder
others_wait-Reachable =
    next (sema_down 2 first_holds) others_wait
      (next first_holds (sema_down 2 first_holds) first_holds-Reachable (acquire 2 refl))
      (acquire 3 refl)

first_leaves-Reachable : Reachable first_leaves
unfolding lock_init sema_init sema_down take set_holder reset_holder
first_leaves-Reachable =
    next (reset_holder 1 others_wait) first_leaves
      (next others_wait (reset_holder 1 others_wait) others_wait-Reachable (release 1 refl))
      (up 1 refl)

inside_first : is_inside (others_wait.phases 1) ≡ true
unfolding lock_init sema_init sema_down take set_holder
inside_first = refl

free_again : first_leaves.value ≡ 1
unfolding lock_init sema_init sema_down take set_holder reset_holder sema_up unblock
free_again = refl

still_waiting : first_leaves.waiters ≢ []
unfolding lock_init sema_init sema_down take set_holder reset_holder sema_up unblock
still_waiting e = cc

exclusion_example : ◌≡◌ {A = ℕ} 1 1
exclusion_example = mutual_exclusion others_wait 1 1 others_wait-Reachable inside_first inside_first

wakeup_lock_example : (t : ℕ) × (first_leaves.phases t ≡ woken)
wakeup_lock_example = no_lost_wakeup first_leaves first_leaves-Reachable free_again still_waiting
