-- ===== src/Links/Insert.antt =====
-- `list_add_after` and `list_add_before` on a ring.
use algorithms_prepare.Prelude.{
  ℕ, ◌≡◌, ◌≢◌, refl, ap, ◌∙◌, subst, inl, inr, true, false, ◌||◌, List, [], ◌∷◌, ◌++◌,
  if◌then◌else◌, ◌==◌, arith, Bool-cases,
}
use algorithms_prepare.Sched.{linked}
use algorithms_prepare.Sched.Queue.{Unique}
use algorithms_prepare.Links.{
  Links, list_init, list_empty, __list_add, list_add_after, list_add_before,
}
use algorithms_prepare.Links.Chain.{Chain, IsRing, Chain-frame, next-linked, prev-linked}

-- The list after the head `a` with `x` behind `p`, and the list with `x` before `p`, or at the end
-- where `p` is the head.
unfoldable pub behind : ℕ → ℕ → ℕ → List ℕ → List ℕ
behind p x a [] = x ∷ []
behind p x a (y ∷ ys) = if p == a then x ∷ y ∷ ys else y ∷ behind p x y ys

unfoldable pub ahead : ℕ → ℕ → List ℕ → List ℕ
ahead p x [] = x ∷ []
ahead p x (y ∷ ys) = if p == y then x ∷ y ∷ ys else y ∷ ahead p x ys

pub linked-behind :
    (i p x a : ℕ) (xs : List ℕ) → linked i (behind p x a xs) ≡ (i == x || linked i xs)
unfolding linked behind
linked-behind i p x a [] = refl
linked-behind i p x a (y ∷ ys) = ground (arith, linked-behind i p x y ys)

pub Unique-behind :
    (p x a : ℕ) (xs : List ℕ) → linked x xs ≡ false → Unique xs → Unique (behind p x a xs)
unfolding linked behind
Unique-behind p x a [] h u = (refl, tt)
Unique-behind p x a (y ∷ ys) h u =
    ground (arith, h, u, linked-behind y p x y ys, Unique-behind p x y ys)

-- `__list_add` between the entry `p` of a chain and the next one.
pub __list_add-Chain :
    (l : Links) (p x a : ℕ) (xs : List ℕ) (b : ℕ)
    → Chain l a xs b
    → Unique (a ∷ xs)
    → linked b xs ≡ false
    → linked x (a ∷ xs) ≡ false
    → x ≢ b
    → linked p (a ∷ xs) ≡ true
    → Chain (__list_add x p (l.next p) l) a (behind p x a xs) b
unfolding linked behind __list_add
__list_add-Chain l p x a [] b c u e f g h =
    let at : p ≡ a = ground (arith, h) in
    let n : l.next p ≡ b = ap l.next at ∙ c.0 in
    (ground (arith, at, f), ground (arith, at), (ground (arith, n), ground (arith, n, g)))
__list_add-Chain l p x a (y ∷ ys) b c u e f g h = elim (Bool-cases (p == a)) [
  | inl k ↦
      let at : p ≡ a = ground (arith, k) in
      let n : l.next p ≡ y = ap l.next at ∙ c.0 in
      rw k (
        ground (arith, at, f),
        ground (arith, at),
        (
          ground (arith, n),
          ground (arith, n, f),
          Chain-frame l (__list_add x p (l.next p) l) y ys b (λ i m. ground (arith, m, k, u.0, f))
              (λ i m. ground (arith, m, n, u.1, e, f)) c.2,
        ),
      )
  | inr k ↦
      let m : linked p (y ∷ ys) ≡ true = ground (arith, h, k) in
      let n = next-linked l y ys b p c.2 m in
      rw k (
        ground (arith, k, f) ∙ c.0,
        ground (arith, n, f, u.1, e) ∙ c.1,
        __list_add-Chain l p x y ys b c.2 u.1 (ground (arith, e)) (ground (arith, f)) g m,
      )
]

pub behind-ahead :
    (l : Links) (p x a : ℕ) (xs : List ℕ) (b : ℕ)
    → Chain l a xs b
    → Unique (a ∷ xs)
    → (linked p xs || p == b) ≡ true
    → behind (l.prev p) x a xs ≡ ahead p x xs
unfolding linked behind ahead
behind-ahead l p x a [] b c u h = refl
behind-ahead l p x a (y ∷ ys) b c u h = elim (Bool-cases (p == y)) [
  | inl k ↦
      let at : p ≡ y = ground (arith, k) in
      let n : (l.prev p == a) ≡ true = ground (arith, ap l.prev at, c.1) in rw (k, n) refl
  | inr k ↦
      let m : (linked p ys || p == b) ≡ true = ground (arith, h, k) in
      let n : (l.prev p == a) ≡ false = ground (arith, (prev-linked l y ys b p c.2 m).0, u.0) in
      rw (k, n) (ap (λ zs. y ∷ zs) (behind-ahead l p x y ys b c.2 u.1 m))
]

pub list_init-IsRing : (h : ℕ) (l : Links) → IsRing (list_init h l) h []
unfolding linked list_init
list_init-IsRing h l = ((refl, tt), (ground arith, ground arith))

list_add_after-behind :
    (l : Links) (h : ℕ) (xs : List ℕ) (p x : ℕ)
    → IsRing l h xs
    → linked p (h ∷ xs) ≡ true
    → linked x (h ∷ xs) ≡ false
    → IsRing (list_add_after p x l) h (behind p x h xs)
unfolding linked list_add_after
list_add_after-behind l h xs p x r m f = (
  (
    ground (arith, linked-behind h p x h xs, f, r.0.0),
    Unique-behind p x h xs (ground (arith, f)) r.0.1,
  ),
  __list_add-Chain l p x h xs h r.1 r.0 r.0.0 f (λ e. ground (arith, e, f)) m,
)

list_add_before-ahead :
    (l : Links) (h : ℕ) (xs : List ℕ) (p x : ℕ)
    → IsRing l h xs
    → linked p (h ∷ xs) ≡ true
    → linked x (h ∷ xs) ≡ false
    → IsRing (list_add_before p x l) h (ahead p x xs)
unfolding linked list_add_before list_add_after
list_add_before-ahead l h xs p x r m f =
    let k : (linked p xs || p == h) ≡ true = ground (arith, m) in
    let (b, n) = prev-linked l h xs h p r.1 k in
    let after = list_add_after-behind l h xs (l.prev p) x r b f in
    subst (λ ys. IsRing (list_add_before p x l) h ys) (behind-ahead l p x h xs h r.1 r.0 k)
      (subst (λ n. IsRing (__list_add x (l.prev p) n l) h (behind (l.prev p) x h xs)) n after)

-- The outcome of the two insertions.
pub record Joined (l : Links) (h : ℕ) (xs : List ℕ) (p x : ℕ) : Type 0 where
  pub after : IsRing (list_add_after p x l) h (behind p x h xs)
  pub before : IsRing (list_add_before p x l) h (ahead p x xs)

-- Where the links of list.h form a list, `list_add_after` and `list_add_before` of an entry outside
-- it at one of it, or at the head, form the list with the entry behind or before that one, at the
-- front or the end at the head.
pub list_add-Joined :
    (l : Links) (h : ℕ) (xs : List ℕ) (p x : ℕ)
    → IsRing l h xs
    → linked p (h ∷ xs) ≡ true
    → linked x (h ∷ xs) ≡ false
    → Joined l h xs p x
list_add-Joined l h xs p x r m f = record {
  after = list_add_after-behind l h xs p x r m f;
  before = list_add_before-ahead l h xs p x r m f;
}

-- Before the head is at the end: the run list's order.
pub ahead_head : (h x : ℕ) (xs : List ℕ) → linked h xs ≡ false → ahead h x xs ≡ xs ++ x ∷ []
unfolding linked ahead
ahead_head h x [] f = refl
ahead_head h x (y ∷ ys) f = ground (arith, f, ahead_head h x ys)

pub list_empty_iff :
    (l : Links) (h : ℕ) (xs : List ℕ)
    → IsRing l h xs
    → list_empty h l ≡ (elim xs [ [] ↦ true | _ ↦ false ])
unfolding linked
list_empty_iff l h [] r = ground (arith, r.1)
list_empty_iff l h (x ∷ xs) r = ground (arith, r.1.0, r.0.0)
