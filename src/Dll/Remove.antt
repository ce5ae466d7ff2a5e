-- ===== src/Dll/Remove.antt =====
-- `list_remove` of an entry of a list.
use algorithms_prepare.Prelude.{
  ℕ, ◌≡◌, ap, sym, ◌∙◌, subst, inl, inr, true, false, List, [], ◌∷◌, ◌++◌, Option, some, ◌>>◌,
  assert, ◌==◌, arith, Bool-cases,
}
use algorithms_prepare.Sched.{linked, remove}
use algorithms_prepare.Sched.Queue.{Unique, linked-append, Unique-remove}
use algorithms_prepare.Links.{Links, __list_del}
use algorithms_prepare.Links.Chain.{Chain, next-linked, prev-linked}
use algorithms_prepare.Links.Delete.{__list_del-Chain}
use algorithms_prepare.Dll.{insert_links, list_insert, Dll, remove_links, list_remove}
use algorithms_prepare.Dll.Chained.{
  IsList, head_or, last_or, prev-first, next-at, interior-at, Links-ext, linked_mid, linked-last_or,
  entry_present, entry_not_tail, Unique-append,
}
use algorithms_prepare.Dll.Insert.{linked-insert, insert_links-IsList, list_insert-at}

remove_links-__list_del :
    (l : Links) (x : ℕ)
    → (x == l.prev x) ≡ false
    → remove_links x l ≡ __list_del (l.prev x) (l.next x) l
unfolding __list_del
remove_links-__list_del l x n = Links-ext _ _ (λ i. ground (arith, n)) (λ i. ground (arith, n))

pub remove-at :
    (x : ℕ) (us vs : List ℕ) → Unique (us ++ x ∷ vs) → remove x (us ++ x ∷ vs) ≡ us ++ vs
unfolding linked remove
remove-at x [] vs u = ground arith
remove-at x (w ∷ us) vs u =
    let n : (x == w) ≡ false = ground (arith, linked-append w us (x ∷ vs), u.0) in
    rw n (ap (λ ys. w ∷ ys) (remove-at x us vs u.1))

prev_other :
    (l : Links) (d : Dll) (us : List ℕ) (x : ℕ) (vs : List ℕ)
    → IsList l d (us ++ x ∷ vs)
    → (x == l.prev x) ≡ false
unfolding linked
prev_other l d us x vs r =
    let p = prev-first l d us (x ∷ vs) r in
    let h = linked-last_or d.head us in
    let u = Unique-append us (x ∷ vs) r.unique.1 in
    elim (Bool-cases (x == l.prev x)) [
      | inl e ↦
          let at : last_or d.head us ≡ x = ground (arith, e, p) in
          let here : linked x (d.head ∷ us) ≡ true =
            subst (λ j. linked j (d.head ∷ us) ≡ true) at h in
          elim (Bool-cases (linked x us)) [
            | inl m ↦ ground (arith, u.2 x m)
            | inr m ↦ ground (arith, here, m, linked-insert d.head x us vs, r.unique.0)
          ]
      | inr n ↦ n
    ]

pub remove_links-IsList :
    (l : Links) (d : Dll) (us : List ℕ) (x : ℕ) (vs : List ℕ)
    → IsList l d (us ++ x ∷ vs)
    → IsList (remove_links x l) d (us ++ vs)
unfolding linked __list_del
remove_links-IsList l d us x vs r =
    let xs = us ++ x ∷ vs in
    let here = linked_mid x us vs in
    let tail_out : linked d.tail xs ≡ false = ground (arith, r.tail_out) in
    let cut : Chain (__list_del (l.prev x) (l.next x) l) d.head (remove x xs) d.tail =
      __list_del-Chain l x d.head xs d.tail r.chain r.unique tail_out here in
    let n = next-linked l d.head xs d.tail x r.chain (ground (arith, here)) in
    let p = (prev-linked l d.head xs d.tail x r.chain (ground (arith, here))).0 in
    let left = remove-at x us vs r.unique.1 in
    let same = sym (remove_links-__list_del l x (prev_other l d us x vs r)) in
    let to : IsList (__list_del (l.prev x) (l.next x) l) d (us ++ vs) = record {
      chain = subst (λ ys. Chain (__list_del (l.prev x) (l.next x) l) d.head ys d.tail) left cut;
      unique = (
        ground (arith, linked-insert d.head x us vs, r.unique.0),
        subst Unique left (Unique-remove x xs r.unique.1),
      );
      tail_out = ground (arith, linked-insert d.tail x us vs, r.tail_out);
      present = ground (arith, linked-insert 0 x us vs, r.present);
      tail_present = r.tail_present;
      head_end = ground (arith, r.head_end, n, r.unique.0, r.tail_out);
      tail_end = ground (arith, r.tail_end, p, r.tail_out);
    } in
    subst (λ m. IsList m d (us ++ vs)) same to

pub list_remove-at :
    (l : Links) (d : Dll) (us : List ℕ) (x : ℕ) (vs : List ℕ)
    → IsList l d (us ++ x ∷ vs)
    → list_remove x l ≡ some (head_or d.tail vs, remove_links x l)
unfolding list_remove
list_remove-at l d us x vs r =
    let apart = prev_other l d us x vs r in
    let n : (remove_links x l).next x ≡ head_or d.tail vs =
      ground (arith, apart, next-at l d us x vs r) in
    let m = remove_links x l in
    ap (λ b. assert b >> some (m.next x, m)) (interior-at l d us x vs r) ∙ ap (λ i. some (i, m)) n

-- An entry that has left the list is outside it.
pub removed_out :
    (l : Links) (d : Dll) (us : List ℕ) (x : ℕ) (vs : List ℕ)
    → IsList l d (us ++ x ∷ vs)
    → linked x (0 ∷ d.tail ∷ d.head ∷ (us ++ vs)) ≡ false
unfolding linked
removed_out l d us x vs r =
    let here = linked_mid x us vs in
    let zero_no = entry_present l d (us ++ x ∷ vs) x r (ground (arith, here)) in
    let tail_no = entry_not_tail l d (us ++ x ∷ vs) x r (ground (arith, here)) in
    let u = Unique-append us (x ∷ vs) r.unique.1 in
    ground (
      arith,
      zero_no,
      tail_no,
      u.0.0,
      u.2 x,
      linked-append x us vs,
      linked-insert d.head x us vs,
      r.unique.0,
    )

-- The outcome of an insertion of `x` between `us` and `vs`, and of its removal.
pub record Inserted (d : Dll) (us : List ℕ) (x : ℕ) (vs : List ℕ) (o : Option Links) : Type 0 where
  pub links : Links
  pub returned : o ≡ some links
  pub stored : IsList links d (us ++ x ∷ vs)
  pub rest : Links
  pub removed : list_remove x links ≡ some (head_or d.tail vs, rest)
  pub restored : IsList rest d (us ++ vs)

-- On a list of list.c and an element that is not null and no entry of it, `list_insert` before any
-- element or the tail puts it at that place of the sequence, and `list_remove` of it returns the
-- element behind and leaves the links as the list before.
pub list_insert-Inserted :
    (l : Links) (d : Dll) (us : List ℕ) (x : ℕ) (vs : List ℕ)
    → IsList l d (us ++ vs)
    → linked x (0 ∷ d.tail ∷ d.head ∷ (us ++ vs)) ≡ false
    → Inserted d us x vs (list_insert (head_or d.tail vs) x l)
list_insert-Inserted l d us x vs r f =
    let m = insert_links (head_or d.tail vs) x l in
    let s = insert_links-IsList l d us x vs r f in
    record {
      links = m;
      returned = list_insert-at l d us x vs r f;
      stored = s;
      rest = remove_links x m;
      removed = list_remove-at m d us x vs s;
      restored = remove_links-IsList m d us x vs s;
    }
