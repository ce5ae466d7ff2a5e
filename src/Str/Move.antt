-- ===== src/Str/Move.antt =====
-- The routines on blocks of memory: `memset`, `memcpy` and `memmove`.
use algorithms_prepare.Prelude.{
  ℕ, zero, suc, ◌+◌, ◌-◌, ◌≤◌, ◌<◌, ◌≡◌, ◌≢◌, ◌⊎◌, inl, inr, refl, ap, ◌∙◌, sym, ◌&&◌, ltb, arith,
  Bool-cases, ==-self, ==-false, ltb→lt,
}
use algorithms_prepare.Str.{Memory, store, memset, copy_up, copy_down, memcpy, memmove}

-- Outside the `n` bytes from `d` on.
abbrev pub Outside : ℕ → ℕ → ℕ → Type 0
Outside d n a = (a < d) ⊎ (d + n ≤ a)

-- The `n` bytes from `s` on in the old memory are those from `d` on in the new one; the rest stays.
pub record Moved (m : Memory) (d s n : ℕ) (m' : Memory) : Type 0 where
  pub inside : (i : ℕ) → i < n → m' (d + i) ≡ m (s + i)
  pub outside : (a : ℕ) → Outside d n a → m' a ≡ m a

pub store_self : (m : Memory) (a c : ℕ) → store m a c a ≡ c
store_self m a c = rw (==-self a) refl

pub store-other : (m : Memory) (a c b : ℕ) → a ≢ b → store m a c b ≡ m b
store-other m a c b n = rw (==-false a b n) refl

pub Outside-up : (d n a : ℕ) → Outside d (suc n) a → Outside (d + 1) n a
Outside-up d n a (inl l) = inl (omega (arith, l))
Outside-up d n a (inr l) = inr (omega (arith, l))

pub Outside-ne : (d n a : ℕ) → Outside d (suc n) a → d ≢ a
Outside-ne d n a (inl l) = omega (arith, l)
Outside-ne d n a (inr l) = omega (arith, l)

-- One byte and then the rest, upwards.
pub move_up :
    (m : Memory) (d s n : ℕ) (m' : Memory)
    → (d ≤ s) ⊎ (s + suc n ≤ d)
    → Moved (store m d (m s)) (d + 1) (s + 1) n m'
    → Moved m d s (suc n) m'
move_up m d s n m' h rest = record {
  inside = inside;
  outside =
      λ a o. rest.outside a (Outside-up d n a o) ∙ store-other m d (m s) a (Outside-ne d n a o);
}
  where
    apart : (d ≤ s) ⊎ (s + suc n ≤ d) → (i : ℕ) → i < n → d ≢ s + 1 + i
    apart (inl l) i b = omega (arith, l)
    apart (inr l) i b = omega (arith, l, b)

    inside : (i : ℕ) → i < suc n → m' (d + i) ≡ m (s + i)
    inside zero b =
        ap m' (omega arith)
        ∙ rest.outside d (inl (omega arith))
        ∙ store_self m d (m s)
        ∙ ap m (omega arith)
    inside (suc i) b =
        ap m' (omega arith)
        ∙ rest.inside i (omega (arith, b))
        ∙ store-other m d (m s) (s + 1 + i) (apart h i (omega (arith, b)))
        ∙ ap m (omega arith)

-- Copying upwards is right where the target does not start inside the source, or at its start.
pub copy_up-Moved :
    (m : Memory) (d s n : ℕ) → (d ≤ s) ⊎ (s + n ≤ d) → Moved m d s n (copy_up m d s n)
unfolding copy_up
copy_up-Moved m d s zero h = record {
  inside = λ i l. absurd (omega (arith, l));
  outside = λ a o. refl;
}
copy_up-Moved m d s (suc n) h = move_up m d s n (copy_up m d s (suc n)) h (
    copy_up-Moved (store m d (m s)) (d + 1) (s + 1) n
      (elim h [ inl l ↦ inl (omega (arith, l)) | inr l ↦ inr (omega (arith, l)) ]))

-- The last byte and then the rest, downwards.
move_down :
    (m : Memory) (d s n : ℕ) (m' : Memory)
    → s ≤ d
    → Moved (store m (d + n) (m (s + n))) d s n m'
    → Moved m d s (suc n) m'
move_down m d s n m' h rest = record {
  inside = λ i b. elim (Bool-cases (ltb i n)) [
    | inl l ↦
        rest.inside i (ltb→lt i n l)
        ∙ store-other m (d + n) (m (s + n)) (s + i) (ground (arith, l, h))
    | inr l ↦
        let last : i ≡ n = ground (arith, b, l) in
        ap (λ j. m' (d + j)) last
        ∙ rest.outside (d + n) (inr (omega arith))
        ∙ store_self m (d + n) (m (s + n))
        ∙ ap (λ j. m (s + j)) (sym last)
  ];
  outside = λ a o. rest.outside a (shrink a o) ∙ store-other m (d + n) (m (s + n)) a (differs a o);
}
  where
    shrink : (a : ℕ) → Outside d (suc n) a → Outside d n a
    shrink a (inl l) = inl l
    shrink a (inr l) = inr (omega (arith, l))

    differs : (a : ℕ) → Outside d (suc n) a → d + n ≢ a
    differs a (inl l) = omega (arith, l)
    differs a (inr l) = omega (arith, l)

pred_sum : (a b : ℕ) → a + suc b - 1 ≡ a + b
pred_sum a b = omega arith

-- Copying downwards is right where the target does not start before the source.
copy_down-Moved : (m : Memory) (d s n : ℕ) → s ≤ d → Moved m d s n (copy_down m (d + n) (s + n) n)
unfolding copy_down
copy_down-Moved m d s zero h = record {
  inside = λ i l. absurd (omega (arith, l));
  outside = λ a o. refl;
}
copy_down-Moved m d s (suc n) h =
    rw (pred_sum d n, pred_sum s n)
      (move_down m d s n _ h (copy_down-Moved (store m (d + n) (m (s + n))) d s n h))

-- `memmove` moves the `n` bytes, however the two blocks overlap, and changes no other byte.
pub memmove-Moved : (m : Memory) (d s n : ℕ) → Moved m d s n (memmove m d s n)
unfolding memmove
memmove-Moved m d s n = elim (Bool-cases (ltb s d && ltb d (s + n))) [
  | inl e ↦ rw e (copy_down-Moved m d s n (ground (arith, e)))
  | inr e ↦ rw e (
      copy_up-Moved m d s n (elim (Bool-cases (ltb s d)) [
        | inl l ↦ inr (ground (arith, e, l))
        | inr l ↦ inl (ground (arith, l))
      ]))
]

-- `memcpy` does what `memmove` does where the two blocks do not overlap, or the target starts at or before the source.
pub memcpy-memmove :
    (m : Memory) (d s n a : ℕ) → (d ≤ s) ⊎ (s + n ≤ d) → memcpy m d s n a ≡ memmove m d s n a
unfolding memcpy memmove
memcpy-memmove m d s n a (inl l) = ground (arith, l)
memcpy-memmove m d s n a (inr l) = ground (arith, l)

-- The outcome of `memset`.
pub record Set (m : Memory) (s c n : ℕ) (m' : Memory) : Type 0 where
  pub inside : (i : ℕ) → i < n → m' (s + i) ≡ c
  pub outside : (a : ℕ) → Outside s n a → m' a ≡ m a

pub set_up :
    (m : Memory) (s c n : ℕ) (m' : Memory) → Set (store m s c) (s + 1) c n m' → Set m s c (suc n) m'
set_up m s c n m' rest = record {
  inside = inside;
  outside = λ a o. rest.outside a (Outside-up s n a o) ∙ store-other m s c a (Outside-ne s n a o);
}
  where
    inside : (i : ℕ) → i < suc n → m' (s + i) ≡ c
    inside zero b = ap m' (omega arith) ∙ rest.outside s (inl (omega arith)) ∙ store_self m s c
    inside (suc i) b = ap m' (omega arith) ∙ rest.inside i (omega (arith, b))

-- `memset` sets the `n` bytes from `s` on to `c` and changes no other byte.
pub memset-Set : (m : Memory) (s c n : ℕ) → Set m s c n (memset m s c n)
unfolding memset
memset-Set m s c zero = record { inside = λ i l. absurd (omega (arith, l)); outside = λ a o. refl }
memset-Set m s c (suc n) =
    set_up m s c n (memset m s c (suc n)) (memset-Set (store m s c) (s + 1) c n)
