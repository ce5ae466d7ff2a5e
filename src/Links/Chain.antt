-- ===== src/Links/Chain.antt =====
-- Rings of entries: what the links of one say, and what other links leave alone.
use algorithms_prepare.Prelude.{
  ℕ, ◌≡◌, ◌∙◌, inl, inr, true, false, ◌||◌, List, [], ◌∷◌, ◌==◌, arith, Bool-cases,
}
use algorithms_prepare.Sched.{linked}
use algorithms_prepare.Sched.Queue.{Unique}
use algorithms_prepare.Links.{Links}

-- The links lead from `a` through `xs` to `b`, and back.
abbrev pub Chain : Links → ℕ → List ℕ → ℕ → Type 0
Chain l a [] b = (l.next a ≡ b) × (l.prev b ≡ a)
Chain l a (x ∷ xs) b = (l.next a ≡ x) × (l.prev x ≡ a) × Chain l x xs b

-- The list with the head `h` holds the entries `xs`.
abbrev pub IsRing : Links → ℕ → List ℕ → Type 0
IsRing l h xs = Unique (h ∷ xs) × Chain l h xs h

-- The links of a chain are what the chain says, and no others.
pub Chain-frame :
    (l l' : Links) (a : ℕ) (xs : List ℕ) (b : ℕ)
    → ((i : ℕ) → linked i (a ∷ xs) ≡ true → l'.next i ≡ l.next i)
    → ((i : ℕ) → (linked i xs || i == b) ≡ true → l'.prev i ≡ l.prev i)
    → Chain l a xs b
    → Chain l' a xs b
unfolding linked
Chain-frame l l' a [] b n p c = (n a (ground arith) ∙ c.0, p b (ground arith) ∙ c.1)
Chain-frame l l' a (x ∷ xs) b n p c = (
  n a (ground arith) ∙ c.0,
  p x (ground arith) ∙ c.1,
  Chain-frame l l' x xs b (λ i h. n i (ground (arith, h))) (λ i h. p i (ground (arith, h))) c.2,
)

-- The entry after one of the chain is in it, or is its end.
pub next-linked :
    (l : Links) (a : ℕ) (xs : List ℕ) (b i : ℕ)
    → Chain l a xs b
    → linked i (a ∷ xs) ≡ true
    → (linked (l.next i) xs || l.next i == b) ≡ true
unfolding linked
next-linked l a [] b i c h = ground (arith, h, c.0)
next-linked l a (x ∷ xs) b i c h = elim (Bool-cases (i == a)) [
  | inl e ↦ ground (arith, e, c.0)
  | inr e ↦ ground (arith, e, h, next-linked l x xs b i c.2)
]

-- The entry before one of the chain is in it, or is its start, and leads back.
pub prev-linked :
    (l : Links) (a : ℕ) (xs : List ℕ) (b i : ℕ)
    → Chain l a xs b
    → (linked i xs || i == b) ≡ true
    → (linked (l.prev i) (a ∷ xs) ≡ true) × (l.next (l.prev i) ≡ i)
unfolding linked
prev-linked l a [] b i c h = (ground (arith, h, c.1), ground (arith, h, c))
prev-linked l a (x ∷ xs) b i c h = elim (Bool-cases (i == x)) [
  | inl e ↦ (ground (arith, e, c.1), ground (arith, e, c.0, c.1))
  | inr e ↦ let r = prev-linked l x xs b i c.2 (ground (arith, e, h)) in (ground (arith, r.0), r.1)
]

-- No entry of a chain leads to itself.
pub next_self :
    (l : Links) (a : ℕ) (xs : List ℕ) (b i : ℕ)
    → Chain l a xs b
    → Unique xs
    → linked b xs ≡ false
    → linked i xs ≡ true
    → (l.next i == i) ≡ false
unfolding linked
next_self l a [] b i c u e h = cc
next_self l a (x ∷ xs) b i c u e h = elim (Bool-cases (i == x)) [
  | inl k ↦ let n = next-linked l x xs b i c.2 (ground (arith, k)) in ground (arith, k, n, u.0, e)
  | inr k ↦ next_self l x xs b i c.2 u.1 (ground (arith, e)) (ground (arith, h, k))
]
