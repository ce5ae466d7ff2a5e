-- ===== src/Dll/Chained.antt =====
-- What the links of a list with two end entries say at each place of it.
use algorithms_prepare.Prelude.{
  ℕ, ◌≡◌, ◌≢◌, refl, ap, sym, ◌∙◌, subst, fun_ext, inl, inr, Bool, true, false, ◌||◌, List, [], ◌∷◌,
  ◌++◌, some, ◌>>◌, assert, ◌==◌, arith, Bool-cases,
}
use algorithms_prepare.Sched.{linked}
use algorithms_prepare.Sched.Queue.{Unique, linked-append}
use algorithms_prepare.Links.{Links}
use algorithms_prepare.Pmm.Take.{append_assoc}
use algorithms_prepare.Links.Chain.{Chain}
use algorithms_prepare.Dll.{Dll, is_head, is_interior, is_tail, list_next, list_prev}

-- The list `d` holds the elements `xs`: the links chain them between the ends, whose outer links are
-- null, and no two entries are one.
pub record IsList (l : Links) (d : Dll) (xs : List ℕ) : Type 0 where
  pub chain : Chain l d.head xs d.tail
  pub unique : Unique (d.head ∷ xs)
  pub tail_out : linked d.tail (d.head ∷ xs) ≡ false
  pub present : linked 0 (d.head ∷ xs) ≡ false
  pub tail_present : d.tail ≢ 0
  pub head_end : l.prev d.head ≡ 0
  pub tail_end : l.next d.tail ≡ 0

-- The first entry of the rest of a list, and the last one before it.
abbrev pub head_or : ℕ → List ℕ → ℕ
head_or t [] = t
head_or t (x ∷ xs) = x

abbrev pub last_or : ℕ → List ℕ → ℕ
last_or h [] = h
last_or h (x ∷ xs) = last_or x xs

pub Chain-at :
    (l : Links) (a : ℕ) (us : List ℕ) (x : ℕ) (vs : List ℕ) (b : ℕ)
    → Chain l a (us ++ x ∷ vs) b
    → Chain l a us x × Chain l x vs b
Chain-at l a [] x vs b c = ((c.0, c.1), c.2)
Chain-at l a (u ∷ us) x vs b c = let r = Chain-at l u us x vs b c.2 in ((c.0, c.1, r.0), r.1)

pub Chain-next :
    (l : Links) (a : ℕ) (xs : List ℕ) (b : ℕ) → Chain l a xs b → l.next a ≡ head_or b xs
Chain-next l a [] b c = c.0
Chain-next l a (x ∷ xs) b c = c.0

pub Chain-prev :
    (l : Links) (a : ℕ) (xs : List ℕ) (b : ℕ) → Chain l a xs b → l.prev (head_or b xs) ≡ a
Chain-prev l a [] b c = c.1
Chain-prev l a (x ∷ xs) b c = c.1

pub Chain-last :
    (l : Links) (a : ℕ) (xs : List ℕ) (b : ℕ) → Chain l a xs b → l.prev b ≡ last_or a xs
Chain-last l a [] b c = c.1
Chain-last l a (x ∷ xs) b c = Chain-last l x xs b c.2

pub Links-ext :
    (l m : Links) → ((i : ℕ) → l.prev i ≡ m.prev i) → ((i : ℕ) → l.next i ≡ m.next i) → l ≡ m
Links-ext l m p n = λ i. record { prev = fun_ext p i; next = fun_ext n i }

pub linked_mid : (x : ℕ) (us vs : List ℕ) → linked x (us ++ x ∷ vs) ≡ true
unfolding linked
linked_mid x us vs = linked-append x us (x ∷ vs) ∙ ground arith

pub linked-last_or : (h : ℕ) (us : List ℕ) → linked (last_or h us) (h ∷ us) ≡ true
unfolding linked
linked-last_or h [] = ground arith
linked-last_or h (u ∷ us) = ground (arith, linked-last_or u us)

-- An entry of a list is none that is outside.
pub linked_other :
    (i v : ℕ) (vs : List ℕ) → linked i vs ≡ true → linked v vs ≡ false → (i == v) ≡ false
linked_other i v vs m h = elim (Bool-cases (i == v)) [
  | inl e ↦
      let at : i ≡ v = ground (arith, e) in let here = subst (λ j. linked j vs ≡ true) at m in cc
  | inr e ↦ e
]

-- An entry that is in the list is not null, nor the tail.
pub entry_present :
    (l : Links) (d : Dll) (xs : List ℕ) (i : ℕ)
    → IsList l d xs
    → linked i (d.head ∷ xs) ≡ true
    → (i == 0) ≡ false
unfolding linked
entry_present l d xs i r h = elim (Bool-cases (i == 0)) [
  | inl e ↦
      let at : i ≡ 0 = ground (arith, e) in
      let no = ap (λ j. linked j (d.head ∷ xs)) at in let p = r.present in cc
  | inr n ↦ n
]

pub entry_not_tail :
    (l : Links) (d : Dll) (xs : List ℕ) (i : ℕ)
    → IsList l d xs
    → linked i (d.head ∷ xs) ≡ true
    → (i == d.tail) ≡ false
unfolding linked
entry_not_tail l d xs i r h = elim (Bool-cases (i == d.tail)) [
  | inl e ↦
      let at : i ≡ d.tail = ground (arith, e) in
      let no = ap (λ j. linked j (d.head ∷ xs)) at in let p = r.tail_out in cc
  | inr n ↦ n
]

last-append_nil : (h : ℕ) (us : List ℕ) → last_or h (us ++ []) ≡ last_or h us
last-append_nil h [] = refl
last-append_nil h (u ∷ us) = last-append_nil u us

pub last-append :
    (h : ℕ) (us : List ℕ) (y : ℕ) (vs : List ℕ) → last_or h (us ++ y ∷ vs) ≡ last_or y vs
last-append h [] y vs = refl
last-append h (u ∷ us) y vs = last-append u us y vs

pub or_true : (a : Bool) {b : Bool} → b ≡ true → (a || b) ≡ true
or_true true e = refl
or_true false e = e

-- The parts of a list without repetition have none, and share no entry.
pub Unique-append :
    (us vs : List ℕ)
    → Unique (us ++ vs)
    → Unique vs × Unique us × ((i : ℕ) → linked i us ≡ true → linked i vs ≡ false)
unfolding linked
Unique-append [] vs u = (u, tt, λ i h. cc)
Unique-append (x ∷ us) vs u =
    let r = Unique-append us vs u.1 in
    let out = linked-append x us vs in
    (
      r.0,
      (ground (arith, out, u.0), r.1),
      λ i h. elim (Bool-cases (i == x)) [
        | inl e ↦
            let at : i ≡ x = ground (arith, e) in
            subst (λ j. linked j vs ≡ false) (sym at) (ground (arith, out, u.0))
        | inr n ↦ r.2 i (ground (arith, h, n))
      ],
    )

pub last_present :
    (l : Links) (d : Dll) (us vs : List ℕ)
    → IsList l d (us ++ vs)
    → (last_or d.head us == 0) ≡ false
unfolding linked
last_present l d us vs r =
    entry_present l d (us ++ vs) (last_or d.head us) r
      (ground (arith, linked-append (last_or d.head us) us vs, linked-last_or d.head us))

pub first_present :
    (l : Links) (d : Dll) (us vs : List ℕ)
    → IsList l d (us ++ vs)
    → (head_or d.tail vs == 0) ≡ false
unfolding linked
first_present l d us [] r = ground (arith, r.tail_present)
first_present l d us (v ∷ vs) r =
    entry_present l d (us ++ v ∷ vs) v r (ground (arith, linked_mid v us vs))

pub prev-first :
    (l : Links) (d : Dll) (us vs : List ℕ)
    → IsList l d (us ++ vs)
    → l.prev (head_or d.tail vs) ≡ last_or d.head us
prev-first l d us [] r =
    let end = Chain-last l d.head (us ++ []) d.tail r.chain in end ∙ last-append_nil d.head us
prev-first l d us (v ∷ vs) r = Chain-last l d.head us v (Chain-at l d.head us v vs d.tail r.chain).0

pub next-at :
    (l : Links) (d : Dll) (us : List ℕ) (x : ℕ) (vs : List ℕ)
    → IsList l d (us ++ x ∷ vs)
    → l.next x ≡ head_or d.tail vs
next-at l d us x vs r = Chain-next l x vs d.tail (Chain-at l d.head us x vs d.tail r.chain).1

pub before-at :
    (l : Links) (d : Dll) (us vs : List ℕ)
    → IsList l d (us ++ vs)
    → (is_interior (head_or d.tail vs) l || is_tail (head_or d.tail vs) l) ≡ true
before-at l d us vs r =
    let p = prev-first l d us vs r in
    ground (arith, first_present l d us vs r, last_present l d us vs r, p)

pub interior-at :
    (l : Links) (d : Dll) (us : List ℕ) (x : ℕ) (vs : List ℕ)
    → IsList l d (us ++ x ∷ vs)
    → is_interior x l ≡ true
interior-at l d us x vs r =
    let p : l.prev x ≡ last_or d.head us = prev-first l d us (x ∷ vs) r in
    let n = next-at l d us x vs r in
    let behind =
      first_present l d (us ++ x ∷ []) vs
        (subst (λ xs. IsList l d xs) (sym (append_assoc us (x ∷ []) vs)) r) in
    let here = first_present l d us (x ∷ vs) r in
    ground (arith, p, n, behind, here, last_present l d us (x ∷ vs) r)

pub list_next-at :
    (l : Links) (d : Dll) (us : List ℕ) (x : ℕ) (vs : List ℕ)
    → IsList l d (us ++ x ∷ vs)
    → list_next x l ≡ some (head_or d.tail vs)
unfolding list_next
list_next-at l d us x vs r =
    let i = interior-at l d us x vs r in
    ap (λ b. assert b >> some (l.next x)) (or_true (is_head x l) i)
    ∙ ap (λ n. some n) (next-at l d us x vs r)

pub list_prev-at :
    (l : Links) (d : Dll) (us : List ℕ) (y : ℕ) (vs : List ℕ)
    → IsList l d (us ++ y ∷ vs)
    → list_prev (head_or d.tail vs) l ≡ some y
unfolding list_prev
list_prev-at l d us y vs r =
    let k = subst (λ xs. IsList l d xs) (sym (append_assoc us (y ∷ []) vs)) r in
    let e = head_or d.tail vs in
    let p = prev-first l d (us ++ y ∷ []) vs k ∙ last-append d.head us y [] in
    ap (λ b. assert b >> some (l.prev e)) (before-at l d (us ++ y ∷ []) vs k) ∙ ap (λ n. some n) p

-- No element is the first entry behind it.
pub not_first :
    (l : Links) (d : Dll) (us : List ℕ) (x : ℕ) (vs ws : List ℕ)
    → IsList l d (us ++ x ∷ (vs ++ ws))
    → (x == head_or d.tail ws) ≡ false
unfolding linked
not_first l d us x vs [] r =
    entry_not_tail l d (us ++ x ∷ (vs ++ [])) x r (ground (arith, linked_mid x us (vs ++ [])))
not_first l d us x vs (w ∷ ws) r =
    let u = (Unique-append us (x ∷ (vs ++ w ∷ ws)) r.unique.1).0 in
    let m = linked_mid w vs ws in
    elim (Bool-cases (x == w)) [
      | inl e ↦
          let at : x ≡ w = ground (arith, e) in let n = ap (λ j. linked j (vs ++ w ∷ ws)) at in cc
      | inr n ↦ n
    ]
