-- ===== src/Links/Delete.antt =====
-- `list_del` and `list_del_init` on a ring.
use algorithms_prepare.Prelude.{
  ℕ, ◌≡◌, refl, sym, ◌∙◌, subst, inl, inr, true, false, List, [], ◌∷◌, ◌==◌, arith, Bool-cases,
}
use algorithms_prepare.Sched.{linked, remove}
use algorithms_prepare.Sched.Queue.{Unique, Unique-remove, linked-remove}
use algorithms_prepare.Links.{Links, list_init, __list_del, list_del, list_del_init}
use algorithms_prepare.Links.Chain.{Chain, IsRing, Chain-frame, next-linked, prev-linked}

-- `__list_del` around the entry `y`.
bridge :
    (l : Links) (a y : ℕ) (ys : List ℕ) (b : ℕ)
    → Chain l y ys b
    → Unique (a ∷ y ∷ ys)
    → linked b (y ∷ ys) ≡ false
    → Chain (__list_del a (l.next y) l) a ys b
unfolding linked __list_del
bridge l a y [] b c u e = (ground (arith, c), ground (arith, c))
bridge l a y (z ∷ zs) b c u e = (
  ground (arith, c.0),
  ground (arith, c.0),
  Chain-frame l (__list_del a (l.next y) l) z zs b (λ i m. ground (arith, m, u.0))
      (λ i m. ground (arith, m, c.0, u.1, e)) c.2,
)

pub __list_del-Chain :
    (l : Links) (x a : ℕ) (xs : List ℕ) (b : ℕ)
    → Chain l a xs b
    → Unique (a ∷ xs)
    → linked b xs ≡ false
    → linked x xs ≡ true
    → Chain (__list_del (l.prev x) (l.next x) l) a (remove x xs) b
unfolding linked remove __list_del
__list_del-Chain l x a [] b c u e h = cc
__list_del-Chain l x a (y ∷ ys) b c u e h = elim (Bool-cases (x == y)) [
  | inl k ↦
      let at : x ≡ y = ground (arith, k) in
      rw (k, at)
        (subst (λ i. Chain (__list_del i (l.next y) l) a ys b) (sym c.1)
          (bridge l a y ys b c.2 u e))
  | inr k ↦
      let m : linked x ys ≡ true = ground (arith, h, k) in
      let n = next-linked l y ys b x c.2 (ground (arith, m)) in
      let p = prev-linked l y ys b x c.2 (ground (arith, m)) in
      rw k (
        ground (arith, p.0, u.0) ∙ c.0,
        ground (arith, n, u.1, e) ∙ c.1,
        __list_del-Chain l x y ys b c.2 u.1 (ground (arith, e)) m,
      )
]

pub list_del-IsRing :
    (l : Links) (h : ℕ) (xs : List ℕ) (x : ℕ)
    → IsRing l h xs
    → linked x xs ≡ true
    → IsRing (list_del x l) h (remove x xs)
unfolding linked list_del
list_del-IsRing l h xs x r m = (
  (ground (arith, linked-remove x h xs r.0.1, r.0.0), Unique-remove x xs r.0.1),
  __list_del-Chain l x h xs h r.1 r.0 r.0.0 m,
)

-- The outcome of `list_del_init`: two lists.
pub record Parted (l : Links) (h : ℕ) (xs : List ℕ) (x : ℕ) : Type 0 where
  pub rest : IsRing (list_del_init x l) h (remove x xs)
  pub alone : IsRing (list_del_init x l) x []

-- Where the links of list.h form a list, `list_del_init` of an entry of it forms the list without
-- the entry, and the entry is a list by itself.
pub list_del_init-Parted :
    (l : Links) (h : ℕ) (xs : List ℕ) (x : ℕ) → IsRing l h xs → linked x xs ≡ true → Parted l h xs x
unfolding list_del_init list_init linked
list_del_init-Parted l h xs x r m =
    let d = list_del-IsRing l h xs x r m in
    let gone = linked-remove x x xs r.0.1 in
    record {
      rest = (
        d.0,
        Chain-frame (list_del x l) (list_del_init x l) h (remove x xs) h
            (λ i k. ground (arith, k, gone, m, r.0.0)) (λ i k. ground (arith, k, gone, m, r.0.0))
            d.1,
      );
      alone = ((refl, tt), (ground arith, ground arith));
    }
