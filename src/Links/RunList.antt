-- ===== src/Links/RunList.antt =====
-- The run list of kern/schedule/default_sched.c, in memory: the round-robin class, which holds it as
-- a sequence, does to the links what the code does to them.
use algorithms_prepare.Prelude.{
  ℕ, ◌≡◌, ◌≢◌, subst, inl, inr, Bool, true, false, not, ◌&&◌, List, [], ◌∷◌, ◌++◌, Option, none,
  some, if◌then◌else◌, ◌==◌, arith, Bool-cases,
}
use algorithms_prepare.Sched.{linked, remove, Sched, rr_enqueue, rr_dequeue, rr_pick_next, first}
use algorithms_prepare.Sched.Queue.{linked-append, linked-remove}
use algorithms_prepare.Links.{
  Links, list_init, list_empty, list_next, list_add_before, list_del, list_del_init, __list_add,
  __list_del,
}
use algorithms_prepare.Links.Chain.{IsRing, next_self, prev-linked}
use algorithms_prepare.Links.Insert.{ahead_head, list_add-Joined}
use algorithms_prepare.Links.Delete.{list_del_init-Parted}

-- The list at `h` holds `xs`, and an entry outside it is a list by itself.
pub record IsStored (l : Links) (h : ℕ) (xs : List ℕ) : Type 0 where
  pub ring : IsRing l h xs
  pub outside : (p : ℕ) → linked p (h ∷ xs) ≡ false → l.next p ≡ p

-- An entry is in the list exactly if it is no list by itself: the test of the asserts.
pub list_empty-linked :
    (l : Links) (h p : ℕ) (xs : List ℕ)
    → IsStored l h xs
    → p ≢ h
    → list_empty p l ≡ not (linked p xs)
unfolding linked
list_empty-linked l h p xs s n = elim (Bool-cases (linked p xs)) [
  | inl m ↦ ground (arith, m, next_self l h xs h p s.ring.1 s.ring.0.1 s.ring.0.0 m)
  | inr m ↦ ground (arith, m, n, s.outside p)
]

-- The outcome of `RR_enqueue`.
pub data Enqueued (l : Links) (h p : ℕ) : Option Sched → Type 0 where
  stands_already : list_empty p l ≡ false → Enqueued l h p none
  stored :
      (s' : Sched)
      → list_empty p l ≡ true
      → IsStored (list_add_before h p l) h s'.run_list
      → Enqueued l h p (some s')

-- The outcome of `RR_dequeue`.
pub data Dequeued (l : Links) (h p : ℕ) (on_rq : Bool) : Option Sched → Type 0 where
  stands_nowhere : (not (list_empty p l) && on_rq) ≡ false → Dequeued l h p on_rq none
  unlinked :
      (s' : Sched)
      → (not (list_empty p l) && on_rq) ≡ true
      → IsStored (list_del_init p l) h s'.run_list
      → Dequeued l h p on_rq (some s')

list_add_before-IsStored :
    (l : Links) (h p : ℕ) (xs : List ℕ)
    → IsStored l h xs
    → linked p (h ∷ xs) ≡ false
    → IsStored (list_add_before h p l) h (xs ++ p ∷ [])
unfolding linked list_add_before __list_add
list_add_before-IsStored l h p xs s f = record {
  ring =
      subst (λ ys. IsRing (list_add_before h p l) h ys) (ahead_head h p xs s.ring.0.0)
        (list_add-Joined l h xs h p s.ring (ground arith) f).before;
  outside = λ q m.
      let here = linked-append q xs (p ∷ []) in
      let last = (prev-linked l h xs h h s.ring.1 (ground arith)).0 in
      ground (arith, m, here, last, s.outside q);
}

list_del_init-IsStored :
    (l : Links) (h p : ℕ) (xs : List ℕ)
    → IsStored l h xs
    → linked p xs ≡ true
    → IsStored (list_del_init p l) h (remove p xs)
unfolding linked list_del_init list_init list_del __list_del
list_del_init-IsStored l h p xs s f = record {
  ring = (list_del_init-Parted l h xs p s.ring f).rest;
  outside = λ q m.
      let here = linked-remove p q xs s.ring.0.1 in
      let before = (prev-linked l h xs h p s.ring.1 (ground (arith, f))).0 in
      ground (arith, m, here, before, s.outside q);
}

-- With the run list stored in the links of list.h, `RR_enqueue` of a process, whose entry is not
-- the list's head, fails exactly where its entry is in a list, and else leaves the sequence that
-- `list_add_before` of the entry stores.
pub rr_enqueue-Enqueued :
    (l : Links) (h p : ℕ) (s : Sched)
    → IsStored l h s.run_list
    → p ≢ h
    → Enqueued l h p (rr_enqueue s p)
unfolding rr_enqueue linked
rr_enqueue-Enqueued l h p s k n =
    let t = list_empty-linked l h p s.run_list k n in
    elim (Bool-cases (linked p s.run_list)) [
      | inl m ↦ rw m (stands_already (ground (arith, m, t)))
      | inr m ↦ rw m (
          stored _ (ground (arith, m, t))
            (list_add_before-IsStored l h p s.run_list k (ground (arith, m, n))))
    ]

-- With the run list stored in the links of list.h, `RR_dequeue` of a process, whose entry is not
-- the list's head, fails exactly where its entry is in no list or belongs to no run queue, and else
-- leaves the sequence that `list_del_init` of the entry stores.
pub rr_dequeue-Dequeued :
    (l : Links) (h p : ℕ) (s : Sched)
    → IsStored l h s.run_list
    → p ≢ h
    → Dequeued l h p (s.procs p).on_rq (rr_dequeue s p)
unfolding rr_dequeue linked
rr_dequeue-Dequeued l h p s k n =
    let t = list_empty-linked l h p s.run_list k n in
    elim (Bool-cases (linked p s.run_list && (s.procs p).on_rq)) [
      | inl m ↦ rw m (
          unlinked _ (ground (arith, m, t))
            (list_del_init-IsStored l h p s.run_list k (ground (arith, m))))
      | inr m ↦ rw m (stands_nowhere (ground (arith, m, t)))
    ]

first-next :
    (l : Links) (h : ℕ) (xs : List ℕ)
    → IsRing l h xs
    → first xs ≡ (if l.next h == h then none else some (l.next h))
unfolding first linked
first-next l h [] r = rw r.1.0 (ground arith)
first-next l h (x ∷ xs) r = rw r.1.0 (ground (arith, r.0.0))

pub rr_pick_next-list_next :
    (l : Links) (h : ℕ) (s : Sched)
    → IsStored l h s.run_list
    → rr_pick_next s ≡ (if list_next h l == h then none else some (list_next h l))
unfolding rr_pick_next
rr_pick_next-list_next l h s k = first-next l h s.run_list k.ring
