-- ===== src/Dll/Insert.antt =====
-- `list_insert` before the first entry of the rest of a list.
use algorithms_prepare.Prelude.{
  ℕ, ◌≡◌, refl, ap, sym, ◌∙◌, subst, true, false, not, ◌||◌, List, [], ◌∷◌, ◌++◌, some, ◌>>◌,
  assert, ◌==◌, arith,
}
use algorithms_prepare.Sched.{linked}
use algorithms_prepare.Sched.Queue.{Unique, linked-append}
use algorithms_prepare.Links.{Links, __list_add}
use algorithms_prepare.Links.Chain.{Chain, prev-linked}
use algorithms_prepare.Links.Insert.{behind, ahead, __list_add-Chain, behind-ahead}
use algorithms_prepare.Dll.{Dll, insert_links, list_insert}
use algorithms_prepare.Dll.Chained.{IsList, head_or, prev-first, before-at, Links-ext, linked_mid}

insert_links-__list_add :
    (l : Links) (before x : ℕ)
    → (x == before) ≡ false
    → (x == l.prev before) ≡ false
    → insert_links before x l ≡ __list_add x (l.prev before) before l
unfolding __list_add
insert_links-__list_add l before x n p =
    Links-ext _ _ (λ i. ground (arith, n, p)) (λ i. ground (arith, n, p))

first_other :
    (t w : ℕ) (us vs : List ℕ)
    → linked w (us ++ vs) ≡ false
    → linked t (w ∷ (us ++ vs)) ≡ false
    → (head_or t vs == w) ≡ false
unfolding linked
first_other t w us [] h f = ground (arith, f)
first_other t w us (v ∷ vs) h f = ground (arith, linked-append w us (v ∷ vs), h)

-- Before the first entry of the rest.
ahead-first :
    (t x : ℕ) (us vs : List ℕ)
    → Unique (us ++ vs)
    → linked t (us ++ vs) ≡ false
    → ahead (head_or t vs) x (us ++ vs) ≡ us ++ x ∷ vs
unfolding linked ahead
ahead-first t x [] [] u f = refl
ahead-first t x [] (v ∷ vs) u f = ground arith
ahead-first t x (w ∷ us) vs u f =
    let n : (head_or t vs == w) ≡ false = first_other t w us vs u.0 f in
    rw n (ap (λ ys. w ∷ ys) (ahead-first t x us vs u.1 (ground (arith, f))))

pub linked-insert :
    (i x : ℕ) (us vs : List ℕ) → linked i (us ++ x ∷ vs) ≡ (i == x || linked i (us ++ vs))
unfolding linked
linked-insert i x us vs = ground (arith, linked-append i us (x ∷ vs), linked-append i us vs)

Unique-insert :
    (x : ℕ) (us vs : List ℕ)
    → linked x (us ++ vs) ≡ false
    → Unique (us ++ vs)
    → Unique (us ++ x ∷ vs)
unfolding linked
Unique-insert x [] vs f u = (f, u)
Unique-insert x (w ∷ us) vs f u =
    (ground (arith, linked-insert w x us vs, f, u.0), Unique-insert x us vs (ground (arith, f)) u.1)

other_first :
    (x t : ℕ) (us vs : List ℕ) → linked x (t ∷ (us ++ vs)) ≡ false → (x == head_or t vs) ≡ false
unfolding linked
other_first x t us [] f = ground (arith, f)
other_first x t us (v ∷ vs) f = ground (arith, linked-append x us (v ∷ vs), f)

first_linked :
    (t : ℕ) (us vs : List ℕ) → (linked (head_or t vs) (us ++ vs) || head_or t vs == t) ≡ true
unfolding linked
first_linked t us [] = ground arith
first_linked t us (v ∷ vs) = ground (arith, linked_mid v us vs)

insert_links-Chain :
    (l : Links) (d : Dll) (us : List ℕ) (x : ℕ) (vs : List ℕ)
    → IsList l d (us ++ vs)
    → linked x (d.tail ∷ d.head ∷ (us ++ vs)) ≡ false
    → Chain (insert_links (head_or d.tail vs) x l) d.head (us ++ x ∷ vs) d.tail
unfolding linked
insert_links-Chain l d us x vs r f =
    let b = head_or d.tail vs in
    let xs = us ++ vs in
    let k = first_linked d.tail us vs in
    let (h, n) = prev-linked l d.head xs d.tail b r.chain k in
    let tail_out : linked d.tail xs ≡ false = ground (arith, r.tail_out) in
    let apart : (x == b) ≡ false = other_first x d.tail us vs (ground (arith, f)) in
    let behind_x : (x == l.prev b) ≡ false = ground (arith, h, f) in
    let added : Chain (__list_add x (l.prev b) (l.next (l.prev b)) l) d.head
        (behind (l.prev b) x d.head xs) d.tail =
      __list_add-Chain l (l.prev b) x d.head xs d.tail r.chain r.unique tail_out (ground (arith, f))
        (λ e. ground (arith, e, f)) h in
    let order =
      behind-ahead l b x d.head xs d.tail r.chain r.unique k
      ∙ ahead-first d.tail x us vs r.unique.1 tail_out in
    subst (λ m. Chain m d.head (us ++ x ∷ vs) d.tail)
      (sym (insert_links-__list_add l b x apart behind_x))
      (subst (λ ys. Chain (__list_add x (l.prev b) b l) d.head ys d.tail) order
        (subst
          (λ m. Chain (__list_add x (l.prev b) m l) d.head (behind (l.prev b) x d.head xs) d.tail) n
          added))

pub insert_links-IsList :
    (l : Links) (d : Dll) (us : List ℕ) (x : ℕ) (vs : List ℕ)
    → IsList l d (us ++ vs)
    → linked x (0 ∷ d.tail ∷ d.head ∷ (us ++ vs)) ≡ false
    → IsList (insert_links (head_or d.tail vs) x l) d (us ++ x ∷ vs)
unfolding linked
insert_links-IsList l d us x vs r f =
    let b = head_or d.tail vs in
    let tail_out = r.tail_out in
    let present = r.present in
    let first = first_linked d.tail us vs in
    let p = prev-first l d us vs r in
    let before = prev-linked l d.head (us ++ vs) d.tail b r.chain first in
    let apart : (x == b) ≡ false = other_first x d.tail us vs (ground (arith, f)) in
    record {
      chain = insert_links-Chain l d us x vs r (ground (arith, f));
      unique = (
        ground (arith, linked-insert d.head x us vs, f, r.unique.0),
        Unique-insert x us vs (ground (arith, f)) r.unique.1,
      );
      tail_out = ground (arith, linked-insert d.tail x us vs, f, tail_out);
      present = ground (arith, linked-insert 0 x us vs, f, present);
      tail_present = r.tail_present;
      head_end = ground (arith, r.head_end, r.unique.0, f, first, tail_out, apart);
      tail_end = ground (arith, r.tail_end, before.0, f, tail_out, apart);
    }

pub list_insert-at :
    (l : Links) (d : Dll) (us : List ℕ) (x : ℕ) (vs : List ℕ)
    → IsList l d (us ++ vs)
    → linked x (0 ∷ d.tail ∷ d.head ∷ (us ++ vs)) ≡ false
    → list_insert (head_or d.tail vs) x l ≡ some (insert_links (head_or d.tail vs) x l)
unfolding linked list_insert
list_insert-at l d us x vs r f =
    let some_x : not (x == 0) ≡ true = ground (arith, f) in
    let m = insert_links (head_or d.tail vs) x l in
    ap (λ b. assert b >> (assert (not (x == 0)) >> some m)) (before-at l d us vs r)
    ∙ ap (λ b. assert b >> some m) some_x
