-- ===== src/Synch/Exclusion.antt =====
-- `sema_up` of threads/synch.c, and what holds in every state that the threads reach.
use algorithms_prepare.Prelude.{
  ℕ, ◌+◌, ◌%◌, ◌^◌, ◌≡◌, ◌≢◌, ◌⊎◌, inl, inr, refl, ap, sym, subst, ◌∙◌, true, false, List, [], ◌∷◌,
  none, ◌==◌, arith, Bool-cases, ==_iff, ==-self,
}
use algorithms_prepare.Sched.{linked}
use algorithms_prepare.Sched.Queue.{Unique}
use algorithms_prepare.Synch.{
  Phase, outside, blocked, woken, taken, holding, releasing, System, move_to, unblock, sema_up,
  Step, acquire, try_acquire, retry, acquired, release, up, Reachable, start, next,
}
use algorithms_prepare.Synch.Mutex.{
  is_inside, is_holding, is_blocked, is_woken, owner_is, LockIsValid, init-valid, not_holding, only,
  moved, alone, awake_kept, set_holder-valid, reset_holder-valid,
}
use algorithms_prepare.Synch.Down.{sema_down-valid, sema_try_down-valid, value_for-owner}

blocked_outside : (p : Phase) → is_blocked p ≡ true → is_inside p ≡ false
blocked_outside outside h = cc
blocked_outside blocked h = refl
blocked_outside woken h = cc
blocked_outside taken h = cc
blocked_outside holding h = cc
blocked_outside releasing h = cc

-- The outcome of `unblock` while the semaphore is taken.
record Unblocked (x y : System) : Type 0 where
  valid : LockIsValid y
  someone : (y.waiters ≡ []) ⊎ ((t : ℕ) × (is_woken (y.phases t) ≡ true))
  same : (t : ℕ) → is_blocked (x.phases t) ≡ false → y.phases t ≡ x.phases t

unblock-Unblocked :
    (x : System) (ws : List ℕ)
    → x.waiters ≡ ws
    → x.value ≡ 0
    → LockIsValid x
    → Unblocked x (unblock ws x)
unfolding unblock linked
unblock-Unblocked x [] e z v = record { valid = v; someone = inl e; same = λ t h. refl }
unblock-Unblocked x (p ∷ ps) e z v =
    let u : Unique (p ∷ ps) = subst Unique e v.unique in
    let waits : is_blocked (x.phases p) ≡ true =
      v.queued p ∙ ap (linked p) e ∙ ground (arith, ==-self p) in
    let out = blocked_outside (x.phases p) waits in
    record {
      valid = record {
        owner = v.owner;
        value_is = v.value_is;
        inside =
            moved is_inside (λ t. owner_is t v.owner) x.phases p woken (sym out ∙ v.inside p)
              λ t k. v.inside t;
        held =
            moved is_holding (λ t. owner_is t x.holder) x.phases p woken
              (sym (not_holding (x.phases p) out) ∙ v.held p) λ t k. v.held t;
        queued =
            moved is_blocked (λ t. linked t ps) x.phases p woken (sym u.0)
              λ t k. v.queued t ∙ ap (linked t) e ∙ ground (arith, k);
        unique = u.1;
        awake = λ k. absurd (omega (arith, k, z));
      };
      someone = inr (p, rw (==-self p) refl);
      same = λ t h. elim (Bool-cases (p == t)) [
        | inl k ↦
            let q : is_blocked (x.phases t) ≡ true =
              ap (λ s. is_blocked (x.phases s)) (sym ((==_iff p t).0 k)) ∙ waits in
            cc
        | inr k ↦ rw k refl
      ];
    }

-- The thread that has the semaphore gives it back.
give_back :
    (y : System) (t : ℕ)
    → LockIsValid y
    → y.phases t ≡ releasing
    → (y.waiters ≡ []) ⊎ ((u : ℕ) × (is_woken (y.phases u) ≡ true))
    → LockIsValid (record y { value = (y.value + 1) % 2 ^ 32; phases = move_to y.phases t outside })
give_back y t v h w =
    let inside_t = ap is_inside h in
    let zero_left : y.value ≡ 0 =
      v.value_is ∙ value_for-owner t v.owner (sym (v.inside t) ∙ inside_t) in
    record {
      owner = none;
      value_is = ap (λ n. (n + 1) % 2 ^ 32) zero_left;
      inside =
          moved is_inside (λ u. owner_is u none) y.phases t outside refl
            λ u n. alone y t u v inside_t n;
      held =
          moved is_holding (λ u. owner_is u y.holder) y.phases t outside
            (sym (ap is_holding h) ∙ v.held t) λ u n. v.held u;
      queued =
          moved is_blocked (λ u. linked u y.waiters) y.phases t outside
            (sym (ap is_blocked h) ∙ v.queued t) λ u n. v.queued u;
      unique = v.unique;
      awake = λ e. awake_kept y t outside (ap is_woken h) w;
    }

sema_up-valid :
    (x : System) (t : ℕ) → x.phases t ≡ releasing → LockIsValid x → LockIsValid (sema_up t x)
unfolding sema_up
sema_up-valid x t h v =
    let z : x.value ≡ 0 =
      v.value_is ∙ value_for-owner t v.owner (sym (v.inside t) ∙ ap is_inside h) in
    let u = unblock-Unblocked x x.waiters refl z v in
    give_back (unblock x.waiters x) t u.valid (u.same t (ap is_blocked h) ∙ h) u.someone

Step-valid : (x y : System) → Step x y → LockIsValid x → LockIsValid y
Step-valid x _ (acquire t h) v = sema_down-valid x t (ap is_inside h) (ap is_blocked h) v
Step-valid x _ (try_acquire t h) v = sema_try_down-valid x t (ap is_inside h) (ap is_blocked h) v
Step-valid x _ (retry t h) v = sema_down-valid x t (ap is_inside h) (ap is_blocked h) v
Step-valid x _ (acquired t h) v = set_holder-valid x t h v
Step-valid x _ (release t h) v = reset_holder-valid x t h v
Step-valid x _ (up t h) v = sema_up-valid x t h v

reachable-valid : (x : System) → Reachable x → LockIsValid x
reachable-valid _ (start x h) = init-valid x h
reachable-valid _ (next x y r s) = Step-valid x y s (reachable-valid x r)

-- In every state that the threads reach by the lock's steps, two threads that are both between
-- taking the semaphore and giving it back, the lock's holder among them, are one.
pub mutual_exclusion :
    (x : System) (t u : ℕ)
    → Reachable x
    → is_inside (x.phases t) ≡ true
    → is_inside (x.phases u) ≡ true
    → t ≡ u
mutual_exclusion x t u r h k = only x t u (reachable-valid x r) h k

-- In every state that the threads reach, `holder` is a thread exactly if that thread holds the
-- lock.
pub holder-is_holding :
    (x : System) (t : ℕ) → Reachable x → is_holding (x.phases t) ≡ owner_is t x.holder
holder-is_holding x t r = (reachable-valid x r).held t

-- In every state that the threads reach in which the semaphore is free and threads wait for it, one
-- has been unblocked and is about to test the value again.
pub no_lost_wakeup :
    (x : System) → Reachable x → x.value ≡ 1 → x.waiters ≢ [] → (t : ℕ) × (x.phases t ≡ woken)
no_lost_wakeup x r e n = elim ((reachable-valid x r).awake e) [
  | inl w ↦ absurd (n w)
  | inr (t, k) ↦ (t, is_woken-iff (x.phases t) k)
]
  where
    is_woken-iff : (p : Phase) → is_woken p ≡ true → p ≡ woken
    is_woken-iff woken h = refl
    is_woken-iff outside h = cc
    is_woken-iff blocked h = cc
    is_woken-iff taken h = cc
    is_woken-iff holding h = cc
    is_woken-iff releasing h = cc
