-- ===== src/Proc/Unlink.antt =====
-- `remove_links` on the family tree.
use algorithms_prepare.Prelude.{
  ℕ, ◌≡◌, ◌∙◌, subst, inl, inr, true, false, List, [], ◌∷◌, ◌++◌, ◌==◌, arith, Bool-cases,
}
use algorithms_prepare.Sched.{linked}
use algorithms_prepare.Sched.Queue.{Unique, linked-append, Unique-remove}
use algorithms_prepare.Dll.Chained.{
  linked_other, head_or, last_or, linked_mid, linked-last_or, Unique-append,
}
use algorithms_prepare.Dll.Insert.{linked-insert}
use algorithms_prepare.Dll.Remove.{remove-at}
use algorithms_prepare.Proc.{Procs, remove_links}
use algorithms_prepare.Proc.Family.{
  Siblings, IsChildren, Siblings-frame, Siblings-at, parents_apart, first_apart, Changed,
}

head_out :
    (w : ℕ) (vs : List ℕ) → linked w vs ≡ false → (w == 0) ≡ false → (w == head_or 0 vs) ≡ false
unfolding linked
head_out w [] h n = n
head_out w (v ∷ vs) h n = ground (arith, h)

first_out :
    (w : ℕ) (us : List ℕ) (p : ℕ) (vs : List ℕ)
    → linked w (us ++ p ∷ vs) ≡ false
    → (w == 0) ≡ false
    → (w == head_or 0 vs) ≡ false
unfolding linked
first_out w us p vs h n = head_out w vs (ground (arith, linked-append w us (p ∷ vs), h)) n

last_out :
    (w x : ℕ) (us vs : List ℕ) → linked w (x ∷ (us ++ vs)) ≡ false → (w == last_or x us) ≡ false
unfolding linked
last_out w x us vs h = elim (Bool-cases (w == last_or x us)) [
  | inl e ↦
      let at : last_or x us ≡ w = ground (arith, e) in
      let here = subst (λ i. linked i (x ∷ us) ≡ true) at (linked-last_or x us) in
      absurd (ground (arith, here, h, linked-append w us vs))
  | inr e ↦ e
]

relink_first :
    (yptr optr yptr' optr' : ℕ → ℕ) (y p : ℕ) (vs : List ℕ)
    → Siblings yptr optr p vs
    → Unique (y ∷ p ∷ vs)
    → linked 0 vs ≡ false
    → ((i : ℕ) → (i == head_or 0 vs) ≡ false → yptr' i ≡ yptr i)
    → ((i : ℕ) → (i == y) ≡ false → optr' i ≡ optr i)
    → ((head_or 0 vs == 0) ≡ false → yptr' (head_or 0 vs) ≡ y)
    → Siblings yptr' optr' y vs
unfolding linked
relink_first yptr optr yptr' optr' y p [] s u z a b c = tt
relink_first yptr optr yptr' optr' y p (v ∷ vs) s u z a b c = (
  c (ground (arith, z)),
  b v (ground (arith, u.0)) ∙ s.1,
  Siblings-frame yptr optr yptr' optr' v vs (λ i m. a i (linked_other i v vs m u.1.1.0))
      (λ i m. b i (linked_other i y vs m (ground (arith, u.0)))) s.2,
)

module _ (yptr optr yptr' optr' : ℕ → ℕ) (p : ℕ) (vs : List ℕ) where
  -- Links that lead around `p`.
  relink :
      (y : ℕ) (us : List ℕ)
      → Siblings yptr optr y (us ++ p ∷ vs)
      → Unique (y ∷ (us ++ p ∷ vs))
      → linked 0 (us ++ p ∷ vs) ≡ false
      → ((i : ℕ) → (i == head_or 0 vs) ≡ false → yptr' i ≡ yptr i)
      → ((i : ℕ) → (i == last_or y us) ≡ false → optr' i ≡ optr i)
      → ((head_or 0 vs == 0) ≡ false → yptr' (head_or 0 vs) ≡ last_or y us)
      → ((last_or y us == 0) ≡ false → optr' (last_or y us) ≡ head_or 0 vs)
      → Siblings yptr' optr' y (us ++ vs)
  unfolding linked
  relink y [] s u z a b c d =
      relink_first yptr optr yptr' optr' y p vs s.2 u (ground (arith, z)) a b c
  relink y (w ∷ []) s u z a b c d = (
    a w (first_out w [] p vs u.1.0 (ground (arith, z))) ∙ s.0,
    d (ground (arith, z)),
    relink w [] s.2 u.1 (ground (arith, z)) a b c d,
  )
  relink y (w ∷ x ∷ us) s u z a b c d = (
    a w (first_out w (x ∷ us) p vs u.1.0 (ground (arith, z))) ∙ s.0,
    b w (last_out w x us (p ∷ vs) u.1.0) ∙ s.1,
    relink w (x ∷ us) s.2 u.1 (ground (arith, z)) a b c d,
  )

-- The links after `remove_links` lead around `p`.
remove_links-Siblings :
    (s : Procs) (us : List ℕ) (p : ℕ) (vs : List ℕ)
    → Siblings s.yptr s.optr 0 (us ++ p ∷ vs)
    → Unique (0 ∷ (us ++ p ∷ vs))
    → Siblings (remove_links p s).yptr (remove_links p s).optr 0 (us ++ vs)
unfolding remove_links
remove_links-Siblings s us p vs k u =
    let (young, old) = Siblings-at s.yptr s.optr 0 us p vs k in
    let s' = remove_links p s in
    let here = linked_mid p us vs in
    let some_p = linked_other p 0 (us ++ p ∷ vs) here u.0 in
    let apart : (p == head_or 0 vs) ≡ false =
      head_out p vs (Unique-append us (p ∷ vs) u.1).0.0 some_p in
    relink s.yptr s.optr s'.yptr s'.optr p vs 0 us k u u.0 (λ i n. ground (arith, old, n))
      (λ i n. ground (arith, young, old, n, apart)) (λ n. ground (arith, old, young, n))
      (λ n. ground (arith, young, old, n, apart))

remove_links-cptr :
    (s : Procs) (us : List ℕ) (p : ℕ) (vs : List ℕ)
    → IsChildren s (s.parent p) (us ++ p ∷ vs)
    → (remove_links p s).cptr (s.parent p) ≡ head_or 0 (us ++ vs)
unfolding remove_links linked
remove_links-cptr s [] p vs k =
    let (young, old) = Siblings-at s.yptr s.optr 0 [] p vs k.siblings in ground (arith, young, old)
remove_links-cptr s (u ∷ us) p vs k =
    let (young, old) = Siblings-at s.yptr s.optr 0 (u ∷ us) p vs k.siblings in
    ground (arith, young, old, k.youngest, last_out 0 u us (p ∷ vs) k.distinct.0)

last_apart :
    (s : Procs) (q q' : ℕ) (us ds : List ℕ) (i : ℕ)
    → ((c : ℕ) → linked c us ≡ true → s.parent c ≡ q)
    → IsChildren s q' ds
    → (q == q') ≡ false
    → linked i ds ≡ true
    → (i == last_or 0 us) ≡ false
last_apart s q q' [] ds i k k' n m = linked_other i 0 ds m k'.distinct.0
last_apart s q q' (u ∷ us) ds i k k' n m =
    parents_apart s.parent (last_or u us) i
      (ground (arith, k (last_or u us) (linked-last_or u us), k'.parents i m, n))

-- `remove_links` of any child of a process leaves the other children in their order, and keeps the
-- children of every other process.
pub remove_links-Changed :
    (s : Procs) (us : List ℕ) (p : ℕ) (vs : List ℕ)
    → IsChildren s (s.parent p) (us ++ p ∷ vs)
    → Changed s (remove_links p s) (s.parent p) (us ++ vs)
unfolding remove_links linked
remove_links-Changed s us p vs k =
    let cs = us ++ p ∷ vs in
    let (young, old) = Siblings-at s.yptr s.optr 0 us p vs k.siblings in
    let parents' : (c : ℕ) → linked c (us ++ vs) ≡ true → s.parent c ≡ s.parent p =
      λ c m. k.parents c (ground (arith, linked-insert c p us vs, m)) in
    record {
      children = record {
        youngest = remove_links-cptr s us p vs k;
        siblings = remove_links-Siblings s us p vs k.siblings k.distinct;
        distinct = (
          ground (arith, linked-insert 0 p us vs, k.distinct.0),
          subst Unique (remove-at p us vs k.distinct.1) (Unique-remove p cs k.distinct.1),
        );
        parents = parents';
      };
      others = λ q' ds n k'. record {
        youngest = ground (arith, k'.youngest, n);
        siblings =
            Siblings-frame s.yptr s.optr (remove_links p s).yptr (remove_links p s).optr 0 ds
              (λ i m. ground (
                arith,
                old,
                first_apart s (s.parent p) q' vs ds i
                    (λ c h. parents' c (ground (arith, linked-append c us vs, h))) k' n m,
              ))
              (λ i m. ground (
                arith,
                young,
                last_apart s (s.parent p) q' us ds i
                    (λ c h. parents' c (ground (arith, linked-append c us vs, h))) k' n m,
              ))
              k'.siblings;
        distinct = k'.distinct;
        parents = k'.parents;
      };
    }
