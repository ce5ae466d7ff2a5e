-- ===== src/Hash/Buckets.antt =====
-- Chains and bucket arrays of the hash table: what is found in a bucket after each change of it.
use algorithms_prepare.Prelude.{
  ℕ, zero, suc, ◌+◌, ◌<◌, ◌≡◌, refl, sym, ap, ◌∙◌, true, false, List, [], ◌∷◌, Option, none, some,
  arith, if◌then◌else◌, ◌==◌, get_or, set, length, inl, inr, Bool-cases, ℕ_discrete,
  get_or-set_self, get_or-set_ne, All, ==-false, ==-self,
}
use algorithms_prepare.Hash.{HashFuncs, same, find_elem, unlink}

-- What the table needs of the client: `less` tells elements apart by an equivalence, and equal
-- elements have equal hashes.
pub record HashLaws {ℓ} {A : Type ℓ} (c : HashFuncs A) : Type ℓ where
  pub same_refl : (a : A) → same c a a ≡ true
  pub same_trans : (a b d : A) → same c a b ≡ true → same c b d ≡ true → same c a d ≡ true
  pub hash_same : (a b : A) → same c a b ≡ true → c.hash a ≡ c.hash b

-- The first of two answers.
abbrev pub or_else {ℓ} : {A : Type ℓ} → Option A → Option A → Option A
or_else none y = y
or_else (some x) y = some x

module _ {ℓ} {A : Type ℓ} (c : HashFuncs A) (laws : HashLaws c) where
  open laws use {same_refl, same_trans, hash_same}

  -- No element of the list equals a later one.
  abbrev pub Distinct : List A → Type ℓ
  Distinct [] = Unit
  Distinct (x ∷ xs) = (find_elem c xs x ≡ none) × Distinct xs

  pub same_sym : (a b : A) → same c a b ≡ true → same c b a ≡ true
  same_sym a b h = ground arith

  pub same_cong : (x a b : A) → same c a b ≡ true → same c x a ≡ same c x b
  same_cong x a b h = elim (Bool-cases (same c x a)) [
    | inl e ↦ e ∙ sym (same_trans x a b e h)
    | inr e ↦ elim (Bool-cases (same c x b)) [
      | inl f ↦ same_trans x b a f (same_sym a b h) ∙ sym f
      | inr f ↦ e ∙ sym f
    ]
  ]

  -- Equal elements find the same thing.
  pub find_cong : (xs : List A) (a b : A) → same c a b ≡ true → find_elem c xs a ≡ find_elem c xs b
  unfolding find_elem
  find_cong [] a b h = refl
  find_cong (x ∷ xs) a b h = rw (same_cong x a b h, find_cong xs a b h)

  pub find_found : (xs : List A) (a x : A) → find_elem c xs a ≡ some x → same c x a ≡ true
  unfolding find_elem
  find_found [] a x e = cc
  find_found (y ∷ xs) a x e = elim (Bool-cases (same c y a)) [
    | inl t ↦ ground (arith, t)
    | inr t ↦ find_found xs a x (ground (arith, t))
  ]

  -- Unlinking from a chain of distinct elements takes away just what equals `e`.
  pub find-unlink :
      (xs : List A) (e y : A)
      → Distinct xs
      → find_elem c (unlink c xs e) y ≡ (if same c e y then none else find_elem c xs y)
  unfolding find_elem unlink
  find-unlink [] e y d = ground arith
  find-unlink (x ∷ xs) e y d = elim (Bool-cases (same c x e)) [
    | inl t ↦ elim (Bool-cases (same c e y)) [
      | inl u ↦ rw (t, u) (sym (find_cong xs x y (same_trans x e y t u)) ∙ d.0)
      | inr u ↦ rw (t, u, apart x e y t u)
    ]
    | inr t ↦
        rw (t, find-unlink xs e y d.1)
          (elim (Bool-cases (same c x y)) [ inl w ↦ rw (w, not_both x e y t w) | inr w ↦ rw w ])
  ]
    where
      apart : (x e y : A) → same c x e ≡ true → same c e y ≡ false → same c x y ≡ false
      apart x e y t u = elim (Bool-cases (same c x y)) [
        | inl w ↦ ground (arith, same_trans e x y (same_sym x e t) w)
        | inr w ↦ w
      ]

      not_both : (x e y : A) → same c x e ≡ false → same c x y ≡ true → same c e y ≡ false
      not_both x e y t w = elim (Bool-cases (same c e y)) [
        | inl u ↦ ground (arith, same_trans x y e w (same_sym e y u))
        | inr u ↦ u
      ]

  pub unlink-All {κ} : (P : A → Type κ) (xs : List A) (e : A) → All P xs → All P (unlink c xs e)
  unfolding unlink
  unlink-All P [] e h = h
  unlink-All P (x ∷ xs) e h = elim (Bool-cases (same c x e)) [
    | inl t ↦ rw t h.1
    | inr t ↦ rw t (h.0, unlink-All P xs e h.1)
  ]

  pub unlink-Distinct : (xs : List A) (e : A) → Distinct xs → Distinct (unlink c xs e)
  unfolding unlink
  unlink-Distinct [] e d = d
  unlink-Distinct (x ∷ xs) e d = elim (Bool-cases (same c x e)) [
    | inl t ↦ rw t d.1
    | inr t ↦ rw t (find-unlink xs e x d.1 ∙ ground (arith, d.0), unlink-Distinct xs e d.1)
  ]

  -- Exactly one element goes, if one was found.
  pub length-unlink :
      (xs : List A) (e x : A) → find_elem c xs e ≡ some x → length xs ≡ suc (length (unlink c xs e))
  unfolding find_elem unlink
  length-unlink [] e x h = cc
  length-unlink (y ∷ xs) e x h = elim (Bool-cases (same c y e)) [
    | inl t ↦ rw t
    | inr t ↦ rw t (ap suc (length-unlink xs e x (ground (arith, t))))
  ]

-- The number of elements of all buckets.
abbrev pub total {ℓ} : {A : Type ℓ} → List (List A) → ℕ
total [] = 0
total (b ∷ bs) = length b + total bs

pub total-set {ℓ} :
    {A : Type ℓ} (bs : List (List A)) (i : ℕ) (b : List A)
    → i < length bs
    → total (set bs i b) + length (get_or bs i []) ≡ total bs + length b
total-set [] i b h = absurd (omega arith)
total-set (x ∷ bs) zero b h = omega arith
total-set (x ∷ bs) (suc i) b h = omega (arith, total-set bs i b (omega arith))

pub get_or-set_if {ℓ} :
    {A : Type ℓ} (xs : List A) (i j : ℕ) (v d : A)
    → i < length xs
    → get_or (set xs i v) j d ≡ (if i == j then v else get_or xs j d)
get_or-set_if xs i j v d h = elim (ℕ_discrete i j) [
  | yes e ↦ rw (← e, ==-self i, get_or-set_self xs i v d h)
  | no ne ↦ rw (==-false i j ne, get_or-set_ne xs i j v d ne)
]
