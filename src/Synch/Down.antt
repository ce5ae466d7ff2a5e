-- ===== src/Synch/Down.antt =====
-- `sema_down` and `sema_try_down` of threads/synch.c keep the lock's invariant.
use algorithms_prepare.Prelude.{
  ℕ, ◌-◌, ◌≡◌, inl, inr, refl, ap, sym, ◌∙◌, true, false, [], ◌∷◌, ◌++◌, Option, none, some, ltb,
  ◌==◌, arith, Bool-cases, ==-self,
}
use algorithms_prepare.Sched.{linked}
use algorithms_prepare.Sched.Queue.{linked-append, Unique-snoc}
use algorithms_prepare.Synch.{blocked, taken, System, move_to, sema_down, sema_try_down, take}
use algorithms_prepare.Synch.Mutex.{
  is_inside, is_holding, is_blocked, owner_is, value_for, LockIsValid, not_holding, moved,
}

value_for-none : (o : Option ℕ) → (value_for o == 0) ≡ false → o ≡ none
value_for-none none h = refl
value_for-none (some t) h = cc

pub value_for-owner : (t : ℕ) (o : Option ℕ) → owner_is t o ≡ true → value_for o ≡ 0
value_for-owner t none h = cc
value_for-owner t (some u) h = refl

-- A thread that is not inside, and stands in no list, takes the semaphore.
take-valid :
    (x : System) (t : ℕ)
    → is_inside (x.phases t) ≡ false
    → is_blocked (x.phases t) ≡ false
    → (x.value == 0) ≡ false
    → LockIsValid x
    → LockIsValid (take t x)
unfolding take
take-valid x t h b n v =
    let free : v.owner ≡ none = value_for-none v.owner (ap (λ k. k == 0) (sym v.value_is) ∙ n) in
    let one : x.value ≡ 1 = v.value_is ∙ ap value_for free in
    record {
      owner = some t;
      value_is = ap (λ k. k - 1) one;
      inside =
          moved is_inside (λ u. owner_is u (some t)) x.phases t taken (sym (==-self t))
            λ u k. v.inside u ∙ ap (owner_is u) free ∙ sym k;
      held =
          moved is_holding (λ u. owner_is u x.holder) x.phases t taken
            (sym (not_holding (x.phases t) h) ∙ v.held t) λ u k. v.held u;
      queued =
          moved is_blocked (λ u. linked u x.waiters) x.phases t taken (sym b ∙ v.queued t)
            λ u k. v.queued u;
      unique = v.unique;
      awake = λ e. absurd (omega (arith, e, one));
    }

-- Such a thread waits where the semaphore is taken.
wait-valid :
    (x : System) (t : ℕ)
    → is_inside (x.phases t) ≡ false
    → is_blocked (x.phases t) ≡ false
    → (x.value == 0) ≡ true
    → LockIsValid x
    → LockIsValid (record x { waiters = x.waiters ++ t ∷ []; phases = move_to x.phases t blocked })
unfolding linked
wait-valid x t h b z v = record {
  owner = v.owner;
  value_is = v.value_is;
  inside =
      moved is_inside (λ u. owner_is u v.owner) x.phases t blocked (sym h ∙ v.inside t)
        λ u k. v.inside u;
  held =
      moved is_holding (λ u. owner_is u x.holder) x.phases t blocked
        (sym (not_holding (x.phases t) h) ∙ v.held t) λ u k. v.held u;
  queued =
      moved is_blocked (λ u. linked u (x.waiters ++ t ∷ [])) x.phases t blocked
        (ground (arith, linked-append t x.waiters (t ∷ [])))
        λ u k. v.queued u ∙ ground (arith, k, linked-append u x.waiters (t ∷ []));
  unique = Unique-snoc t x.waiters (sym (v.queued t) ∙ b) v.unique;
  awake = λ e. absurd (ground (arith, e, z));
}

pub sema_down-valid :
    (x : System) (t : ℕ)
    → is_inside (x.phases t) ≡ false
    → is_blocked (x.phases t) ≡ false
    → LockIsValid x
    → LockIsValid (sema_down t x)
unfolding sema_down
sema_down-valid x t h b v = elim (Bool-cases (x.value == 0)) [
  | inl z ↦ rw z (wait-valid x t h b z v)
  | inr n ↦ rw n (take-valid x t h b n v)
]

pub sema_try_down-valid :
    (x : System) (t : ℕ)
    → is_inside (x.phases t) ≡ false
    → is_blocked (x.phases t) ≡ false
    → LockIsValid x
    → LockIsValid (sema_try_down t x)
unfolding sema_try_down
sema_try_down-valid x t h b v = elim (Bool-cases (ltb 0 x.value)) [
  | inl l ↦ rw l (take-valid x t h b (ground (arith, l)) v)
  | inr l ↦ rw l v
]
