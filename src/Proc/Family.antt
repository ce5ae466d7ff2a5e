-- ===== src/Proc/Family.antt =====
-- `set_links` on the family tree: the children of a process, the youngest first.
use algorithms_prepare.Prelude.{
  ℕ, ◌≡◌, ap, ◌∙◌, inl, inr, true, false, List, [], ◌∷◌, ◌++◌, ◌==◌, arith, Bool-cases,
}
use algorithms_prepare.Sched.{linked}
use algorithms_prepare.Sched.Queue.{Unique}
use algorithms_prepare.Dll.Chained.{linked_other, head_or, last_or}
use algorithms_prepare.Proc.{Procs, set_links}

-- The elder siblings `cs` of `y`, each with the links to its neighbours.
abbrev pub Siblings : (ℕ → ℕ) → (ℕ → ℕ) → ℕ → List ℕ → Type 0
Siblings yptr optr y [] = Unit
Siblings yptr optr y (c ∷ cs) = (yptr c ≡ y) × (optr c ≡ head_or 0 cs) × Siblings yptr optr c cs

-- The children of `q` are `cs`.
pub record IsChildren (s : Procs) (q : ℕ) (cs : List ℕ) : Type 0 where
  pub youngest : s.cptr q ≡ head_or 0 cs
  pub siblings : Siblings s.yptr s.optr 0 cs
  pub distinct : Unique (0 ∷ cs)
  pub parents : (c : ℕ) → linked c cs ≡ true → s.parent c ≡ q

pub Siblings-frame :
    (yptr optr yptr' optr' : ℕ → ℕ) (y : ℕ) (cs : List ℕ)
    → ((i : ℕ) → linked i cs ≡ true → yptr' i ≡ yptr i)
    → ((i : ℕ) → linked i cs ≡ true → optr' i ≡ optr i)
    → Siblings yptr optr y cs
    → Siblings yptr' optr' y cs
unfolding linked
Siblings-frame yptr optr yptr' optr' y [] a b s = tt
Siblings-frame yptr optr yptr' optr' y (c ∷ cs) a b s = (
  a c (ground arith) ∙ s.0,
  b c (ground arith) ∙ s.1,
  Siblings-frame yptr optr yptr' optr' c cs (λ i m. a i (ground (arith, m)))
      (λ i m. b i (ground (arith, m))) s.2,
)

pub Siblings-at :
    (yptr optr : ℕ → ℕ) (y : ℕ) (us : List ℕ) (p : ℕ) (vs : List ℕ)
    → Siblings yptr optr y (us ++ p ∷ vs)
    → (yptr p ≡ last_or y us) × (optr p ≡ head_or 0 vs)
Siblings-at yptr optr y [] p vs s = (s.0, s.1)
Siblings-at yptr optr y (u ∷ us) p vs s = Siblings-at yptr optr u us p vs s.2

-- Children of two processes are two.
pub parents_apart : (parent : ℕ → ℕ) (a b : ℕ) → (parent a == parent b) ≡ false → (b == a) ≡ false
parents_apart parent a b n = elim (Bool-cases (b == a)) [
  | inl e ↦
      let at : parent b ≡ parent a = ap parent (ground (arith, e)) in absurd (ground (arith, at, n))
  | inr e ↦ e
]

pub first_apart :
    (s : Procs) (q q' : ℕ) (cs ds : List ℕ) (i : ℕ)
    → ((c : ℕ) → linked c cs ≡ true → s.parent c ≡ q)
    → IsChildren s q' ds
    → (q == q') ≡ false
    → linked i ds ≡ true
    → (i == head_or 0 cs) ≡ false
unfolding linked
first_apart s q q' [] ds i k k' n m = linked_other i 0 ds m k'.distinct.0
first_apart s q q' (c ∷ cs) ds i k k' n m =
    parents_apart s.parent c i (ground (arith, k c, k'.parents i m, n))

-- The outcome of a change of the children of `q` to `cs`; those of every other process stay.
pub record Changed (s s' : Procs) (q : ℕ) (cs : List ℕ) : Type 0 where
  pub children : IsChildren s' q cs
  pub others : (q' : ℕ) (ds : List ℕ) → (q == q') ≡ false → IsChildren s q' ds → IsChildren s' q' ds

set_links-Siblings :
    (s : Procs) (p : ℕ) (cs : List ℕ)
    → s.cptr (s.parent p) ≡ head_or 0 cs
    → Siblings s.yptr s.optr 0 cs
    → Unique (0 ∷ cs)
    → linked p (0 ∷ cs) ≡ false
    → Siblings (set_links p s).yptr (set_links p s).optr 0 (p ∷ cs)
unfolding set_links linked
set_links-Siblings s p [] y k u f = (ground (arith, y, f), ground (arith, y), tt)
set_links-Siblings s p (c ∷ cs) y k u f = (
  ground (arith, y, f, u.0),
  ground (arith, y),
  (
    ground (arith, y, u.0),
    ground (arith, k.1, f),
    Siblings-frame s.yptr s.optr (set_links p s).yptr (set_links p s).optr c cs
        (λ i m. ground (arith, y, m, f, u.1)) (λ i m. ground (arith, m, f)) k.2,
  ),
)

-- `set_links` of a process that is not null and no child yet makes it the youngest child of its
-- parent, before the others in their order, and keeps the children of every other process.
pub set_links-Changed :
    (s : Procs) (p : ℕ) (cs : List ℕ)
    → IsChildren s (s.parent p) cs
    → linked p (0 ∷ cs) ≡ false
    → Changed s (set_links p s) (s.parent p) (p ∷ cs)
unfolding set_links linked
set_links-Changed s p cs k f = record {
  children = record {
    youngest = ground arith;
    siblings = set_links-Siblings s p cs k.youngest k.siblings k.distinct f;
    distinct = (ground (arith, f, k.distinct.0), (ground (arith, f), k.distinct.1));
    parents = λ c m. elim (Bool-cases (c == p)) [
      | inl e ↦ ap s.parent (ground (arith, e))
      | inr e ↦ k.parents c (ground (arith, m, e))
    ];
  };
  others = λ q' ds n k'. record {
    youngest = ground (arith, k'.youngest, n);
    siblings =
        Siblings-frame s.yptr s.optr (set_links p s).yptr (set_links p s).optr 0 ds
          (λ i m. ground (
            arith,
            parents_apart s.parent p i (ground (arith, k'.parents i m, n)),
            first_apart s (s.parent p) q' cs ds i k.parents k' n m,
            k.youngest,
          ))
          (λ i m. ground (arith, parents_apart s.parent p i (ground (arith, k'.parents i m, n))))
          k'.siblings;
    distinct = k'.distinct;
    parents = k'.parents;
  };
}
