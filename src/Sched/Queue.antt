-- ===== src/Sched/Queue.antt =====
-- The run list: a list of distinct processes, first in first out.
use algorithms_prepare.Prelude.{
  ℕ, ◌+◌, ◌≡◌, refl, true, false, ◌||◌, List, [], ◌∷◌, ◌++◌, if◌then◌else◌, ◌==◌, arith, length,
}
use algorithms_prepare.Sched.{linked, remove}

-- No process stands in the list twice.
abbrev pub Unique : List ℕ → Type 0
Unique [] = Unit
Unique (p ∷ xs) = (linked p xs ≡ false) × Unique xs

pub linked-append : (p : ℕ) (xs ys : List ℕ) → linked p (xs ++ ys) ≡ (linked p xs || linked p ys)
unfolding linked
linked-append p [] ys = refl
linked-append p (q ∷ xs) ys = ground (arith, linked-append p xs ys)

pub Unique-snoc : (p : ℕ) (xs : List ℕ) → linked p xs ≡ false → Unique xs → Unique (xs ++ p ∷ [])
unfolding linked
Unique-snoc p [] h u = (refl, tt)
Unique-snoc p (q ∷ xs) h u =
    (ground (arith, linked-append q xs (p ∷ []), u.0), Unique-snoc p xs (ground arith) u.1)

pub linked-remove :
    (p q : ℕ) (xs : List ℕ)
    → Unique xs
    → linked q (remove p xs) ≡ (if p == q then false else linked q xs)
unfolding linked remove
linked-remove p q [] u = ground arith
linked-remove p q (x ∷ xs) u = ground (arith, linked-remove p q xs u.1, u.0)

pub Unique-remove : (p : ℕ) (xs : List ℕ) → Unique xs → Unique (remove p xs)
unfolding linked remove
Unique-remove p [] u = tt
Unique-remove p (x ∷ xs) u = ground (arith, Unique-remove p xs u.1, linked-remove p x xs u.1, u.0)

pub length-remove :
    (p : ℕ) (xs : List ℕ) → linked p xs ≡ true → length xs ≡ length (remove p xs) + 1
unfolding linked remove
length-remove p [] h = cc
length-remove p (x ∷ xs) h = ground (arith, length-remove p xs)

pub remove_head : (p : ℕ) (xs : List ℕ) → remove p (p ∷ xs) ≡ xs
unfolding remove
remove_head p xs = ground arith
