-- ===== src/Synch/Mutex.antt =====
-- The lock of threads/synch.c excludes: one thread at a time is between taking the semaphore and
-- giving it back, whatever the order of the threads' steps.
use algorithms_prepare.Prelude.{
  ℕ, ◌≡◌, ◌⊎◌, inl, inr, refl, ap, sym, ◌∙◌, Bool, true, false, [], Option, none, some, ◌==◌, arith,
  Bool-cases, ==_iff, ==-self,
}
use algorithms_prepare.Sched.{linked}
use algorithms_prepare.Sched.Queue.{Unique}
use algorithms_prepare.Synch.{
  Phase, outside, blocked, woken, taken, holding, releasing, System, move_to, sema_init, lock_init,
  set_holder, reset_holder,
}

-- From the taking of the semaphore to the giving back.
abbrev pub is_inside : Phase → Bool
is_inside outside = false
is_inside blocked = false
is_inside woken = false
is_inside taken = true
is_inside holding = true
is_inside releasing = true

abbrev pub is_holding : Phase → Bool
is_holding outside = false
is_holding blocked = false
is_holding woken = false
is_holding taken = false
is_holding holding = true
is_holding releasing = false

abbrev pub is_blocked : Phase → Bool
is_blocked outside = false
is_blocked blocked = true
is_blocked woken = false
is_blocked taken = false
is_blocked holding = false
is_blocked releasing = false

abbrev pub is_woken : Phase → Bool
is_woken outside = false
is_woken blocked = false
is_woken woken = true
is_woken taken = false
is_woken holding = false
is_woken releasing = false

abbrev pub owner_is : ℕ → Option ℕ → Bool
owner_is t none = false
owner_is t (some u) = u == t

abbrev pub value_for : Option ℕ → ℕ
value_for none = 1
value_for (some t) = 0

-- The invariant, with the thread that has the semaphore.
pub record LockIsValid (x : System) : Type 0 where
  pub owner : Option ℕ
  pub value_is : x.value ≡ value_for owner
  pub inside : (t : ℕ) → is_inside (x.phases t) ≡ owner_is t owner
  pub held : (t : ℕ) → is_holding (x.phases t) ≡ owner_is t x.holder
  pub queued : (t : ℕ) → is_blocked (x.phases t) ≡ linked t x.waiters
  pub unique : Unique x.waiters
  -- no wake-up is lost
  pub awake : x.value ≡ 1 → (x.waiters ≡ []) ⊎ ((t : ℕ) × (is_woken (x.phases t) ≡ true))

pub init-valid : (x : System) → ((t : ℕ) → x.phases t ≡ outside) → LockIsValid (lock_init x)
unfolding lock_init sema_init linked
init-valid x h = record {
  owner = none;
  value_is = refl;
  inside = λ t. ap is_inside (h t);
  held = λ t. ap is_holding (h t);
  queued = λ t. ap is_blocked (h t);
  unique = tt;
  awake = λ e. inl refl;
}

pub not_holding : (p : Phase) → is_inside p ≡ false → is_holding p ≡ false
not_holding outside h = refl
not_holding blocked h = refl
not_holding woken h = refl
not_holding taken h = refl
not_holding holding h = cc
not_holding releasing h = refl

owner_is-same : (t u : ℕ) (o : Option ℕ) → owner_is t o ≡ true → owner_is u o ≡ true → t ≡ u
owner_is-same t u none h k = cc
owner_is-same t u (some v) h k = ground (arith, h, k)

pub only :
    (x : System) (t u : ℕ)
    → LockIsValid x
    → is_inside (x.phases t) ≡ true
    → is_inside (x.phases u) ≡ true
    → t ≡ u
only x t u v h k = owner_is-same t u v.owner (sym (v.inside t) ∙ h) (sym (v.inside u) ∙ k)

-- While a thread is inside, no other one is.
pub alone :
    (x : System) (t u : ℕ)
    → LockIsValid x
    → is_inside (x.phases t) ≡ true
    → (t == u) ≡ false
    → is_inside (x.phases u) ≡ false
alone x t u v h n = elim (Bool-cases (is_inside (x.phases u))) [
  | inl k ↦ let same = only x t u v h k in absurd (ground (arith, n, same))
  | inr k ↦ k
]

holds_none :
    (x : System) (t u : ℕ)
    → LockIsValid x
    → is_inside (x.phases t) ≡ true
    → (t == u) ≡ false
    → is_holding (x.phases u) ≡ false
holds_none x t u v h n = not_holding (x.phases u) (alone x t u v h n)

-- A woken thread stays woken while another one moves.
pub awake_kept :
    (x : System) (t : ℕ) (p : Phase)
    → is_woken (x.phases t) ≡ false
    → (x.waiters ≡ []) ⊎ ((u : ℕ) × (is_woken (x.phases u) ≡ true))
    → (x.waiters ≡ []) ⊎ ((u : ℕ) × (is_woken (move_to x.phases t p u) ≡ true))
awake_kept x t p h (inl e) = inl e
awake_kept x t p h (inr (u, w)) = elim (Bool-cases (t == u)) [
  | inl e ↦
      let same : x.phases t ≡ x.phases u = ap x.phases ((==_iff t u).0 e) in
      let wrong : is_woken (x.phases t) ≡ true = ap is_woken same ∙ w in cc
  | inr n ↦ inr (u, rw n w)
]

-- What a thread's phase says of it, after a move of `t`.
pub moved :
    (f : Phase → Bool) (g : ℕ → Bool) (ph : ℕ → Phase) (t : ℕ) (p : Phase)
    → f p ≡ g t
    → ((u : ℕ) → (t == u) ≡ false → f (ph u) ≡ g u)
    → (u : ℕ) → f (move_to ph t p u) ≡ g u
moved f g ph t p h k u = elim (Bool-cases (t == u)) [
  | inl e ↦ rw e (h ∙ ap g ((==_iff t u).0 e))
  | inr n ↦ rw n (k u n)
]

pub set_holder-valid :
    (x : System) (t : ℕ) → x.phases t ≡ taken → LockIsValid x → LockIsValid (set_holder t x)
unfolding set_holder
set_holder-valid x t h v =
    let inside_t = ap is_inside h in
    record {
      owner = v.owner;
      value_is = v.value_is;
      inside =
          moved is_inside (λ u. owner_is u v.owner) x.phases t holding (sym inside_t ∙ v.inside t)
            λ u n. v.inside u;
      held =
          moved is_holding (λ u. owner_is u (some t)) x.phases t holding (sym (==-self t))
            λ u n. holds_none x t u v inside_t n ∙ sym n;
      queued =
          moved is_blocked (λ u. linked u x.waiters) x.phases t holding
            (sym (ap is_blocked h) ∙ v.queued t) λ u n. v.queued u;
      unique = v.unique;
      awake = λ e. awake_kept x t holding (ap is_woken h) (v.awake e);
    }

pub reset_holder-valid :
    (x : System) (t : ℕ) → x.phases t ≡ holding → LockIsValid x → LockIsValid (reset_holder t x)
unfolding reset_holder
reset_holder-valid x t h v =
    let inside_t = ap is_inside h in
    record {
      owner = v.owner;
      value_is = v.value_is;
      inside =
          moved is_inside (λ u. owner_is u v.owner) x.phases t releasing (sym inside_t ∙ v.inside t)
            λ u n. v.inside u;
      held =
          moved is_holding (λ u. owner_is u none) x.phases t releasing refl
            λ u n. holds_none x t u v inside_t n;
      queued =
          moved is_blocked (λ u. linked u x.waiters) x.phases t releasing
            (sym (ap is_blocked h) ∙ v.queued t) λ u n. v.queued u;
      unique = v.unique;
      awake = λ e. awake_kept x t releasing (ap is_woken h) (v.awake e);
    }
