-- ===== src/Str/Copy.antt =====
-- The routines that copy strings: `strcpy` and `strncpy`.
use algorithms_prepare.Prelude.{
  ℕ, zero, suc, ◌+◌, ◌≤◌, ◌<◌, ◌≡◌, ◌≢◌, ◌⊎◌, inl, inr, refl, ap, ◌∙◌, sym, subst, true, false,
  some, ◌==◌, arith, ==_iff,
}
use algorithms_prepare.Str.{Memory, store, strcpy, strncpy}
use algorithms_prepare.Str.Scan.{
  IsString, IsString-head, IsString-empty, IsString-tail, IsString-suc, IsPrefix, plus_zero,
}
use algorithms_prepare.Str.Move.{
  Outside, Moved, move_up, Set, set_up, store_self, store-other, Outside-up, Outside-ne,
}

-- A string stays where a byte outside it is written.
IsString-store :
    (m : Memory) (a c s n : ℕ)
    → ((i : ℕ) → i ≤ n → a ≢ s + i)
    → IsString m s n
    → IsString (store m a c) s n
IsString-store m a c s n h p = record {
  body = λ i l e. p.body i l (sym (store-other m a c (s + i) (h i (omega (arith, l)))) ∙ e);
  end = store-other m a c (s + n) (h n (omega arith)) ∙ p.end;
}

-- The target does not start inside the source, or at its start.
abbrev pub Apart : ℕ → ℕ → ℕ → Type 0
Apart d s n = (d ≤ s) ⊎ (s + n ≤ d)

Apart-suc : (d s n : ℕ) → Apart d s (suc n) → Apart (d + 1) (s + 1) n
Apart-suc d s n (inl l) = inl (omega (arith, l))
Apart-suc d s n (inr l) = inr (omega (arith, l))

Apart-ne : (d s n i : ℕ) → Apart d s (suc n) → i < n → d ≢ s + 1 + i
Apart-ne d s n i (inl l) b = omega (arith, l)
Apart-ne d s n i (inr l) b = omega (arith, l, b)

Moved-nil : (m : Memory) (d s : ℕ) → Moved m d s 0 m
Moved-nil m d s = record { inside = λ i l. absurd (omega (arith, l)); outside = λ a o. refl }

-- `strcpy` moves a string and its zero where the target does not start inside the source, or starts
-- where it does, with fuel for every byte of it, and changes no other byte.
pub strcpy-Moved :
    (fuel : ℕ) (m : Memory) (d s n : ℕ)
    → IsString m s n
    → (d ≤ s) ⊎ (s + suc n ≤ d)
    → n < fuel
    → (m' : Memory) × (strcpy fuel m d s ≡ some m') × Moved m d s (suc n) m'
unfolding strcpy
strcpy-Moved zero m d s n h a l = absurd (omega (arith, l))
strcpy-Moved (suc fuel) m d s zero h a l = (
  store m d (m s),
  rw (IsString-empty m s h) refl,
  move_up m d s 0 _ a (Moved-nil (store m d (m s)) (d + 1) (s + 1)),
)
strcpy-Moved (suc fuel) m d s (suc n) h a l =
    let h' = IsString-suc m s n h in
    let (m', e, p) =
      strcpy-Moved fuel (store m d (m s)) (d + 1) (s + 1) n
        (IsString-store m d (m s) (s + 1) n (λ i b. Apart-ne d s (suc n) i a (omega (arith, b)))
          (IsString-tail m s n h'))
        (Apart-suc d s (suc n) a) (omega (arith, l)) in
    (m', rw (IsString-head m s n h') e, move_up m d s (suc n) m' a p)

-- The outcome of `strncpy` for a source with `r` characters among the first `len`.
pub record Padded (m : Memory) (d s len r : ℕ) (m' : Memory) : Type 0 where
  pub text : (i : ℕ) → i < r → m' (d + i) ≡ m (s + i)
  pub padding : (i : ℕ) → r ≤ i → i < len → m' (d + i) ≡ 0
  pub outside : (a : ℕ) → Outside d len a → m' a ≡ m a

set_zero :
    (m : Memory) (d s n : ℕ) → m s ≡ 0 → (d + n ≤ s) ⊎ (s < d) → Set m d 0 n (strncpy m d s n)
unfolding strncpy
set_zero m d s zero z a = record {
  inside = λ i l. absurd (omega (arith, l));
  outside = λ b o. refl;
}
set_zero m d s (suc n) z a =
    let empty : (m s == 0) ≡ true = (==_iff (m s) 0).1 z in
    let rest =
      set_zero (store m d (m s)) (d + 1) s n (store-other m d (m s) s (apart a) ∙ z) (next a) in
    rw empty (
      set_up m d 0 n _
        (subst (λ c. Set (store m d c) (d + 1) 0 n (strncpy (store m d (m s)) (d + 1) s n)) z rest))
  where
    apart : (d + suc n ≤ s) ⊎ (s < d) → d ≢ s
    apart (inl l) = omega (arith, l)
    apart (inr l) = omega (arith, l)

    next : (d + suc n ≤ s) ⊎ (s < d) → (d + 1 + n ≤ s) ⊎ (s < d + 1)
    next (inl l) = inl (omega (arith, l))
    next (inr l) = inr (omega (arith, l))

-- The source behind its first character, in the memory after the store.
IsPrefix-tail :
    (m : Memory) (d s n r : ℕ)
    → ((i : ℕ) → i < n → d ≢ s + 1 + i)
    → IsPrefix m s (suc n) (suc r)
    → IsPrefix (store m d (m s)) (s + 1) n r
IsPrefix-tail m d s n r h p = record {
  bound = omega (arith, p.bound);
  body = λ i l e. p.body (suc i) (omega (arith, l)) (
      ap m (omega arith)
      ∙ sym (store-other m d (m s) (s + 1 + i) (h i (omega (arith, l, p.bound))))
      ∙ e);
  end = λ l.
      store-other m d (m s) (s + 1 + r) (h r l) ∙ ap m (omega arith) ∙ p.end (omega (arith, l));
}

Padded-suc :
    (m : Memory) (d s n r : ℕ) (m' : Memory)
    → ((i : ℕ) → i < n → d ≢ s + 1 + i)
    → r ≤ n
    → Padded (store m d (m s)) (d + 1) (s + 1) n r m'
    → Padded m d s (suc n) (suc r) m'
Padded-suc m d s n r m' h b rest = record {
  text = text;
  padding = padding;
  outside =
      λ a o. rest.outside a (Outside-up d n a o) ∙ store-other m d (m s) a (Outside-ne d n a o);
}
  where
    text : (i : ℕ) → i < suc r → m' (d + i) ≡ m (s + i)
    text zero l =
        ap m' (omega arith)
        ∙ rest.outside d (inl (omega arith))
        ∙ store_self m d (m s)
        ∙ ap m (omega arith)
    text (suc i) l =
        ap m' (omega arith)
        ∙ rest.text i (omega (arith, l))
        ∙ store-other m d (m s) (s + 1 + i) (h i (omega (arith, l, b)))
        ∙ ap m (omega arith)

    padding : (i : ℕ) → suc r ≤ i → i < suc n → m' (d + i) ≡ 0
    padding zero l k = absurd (omega (arith, l))
    padding (suc i) l k = ap m' (omega arith) ∙ rest.padding i (omega (arith, l)) (omega (arith, k))

-- `strncpy` between blocks that do not overlap copies the characters before the first zero among
-- the `len`, fills the rest of the target with zeros and changes no other byte.
pub strncpy-Padded :
    (m : Memory) (d s len r : ℕ)
    → IsPrefix m s len r
    → (d + len ≤ s) ⊎ (s + len ≤ d)
    → Padded m d s len r (strncpy m d s len)
unfolding strncpy
strncpy-Padded m d s zero r p a = record {
  text = λ i l. absurd (omega (arith, l, p.bound));
  padding = λ i l k. absurd (omega (arith, k));
  outside = λ b o. refl;
}
strncpy-Padded m d s (suc n) zero p a =
    let z : m s ≡ 0 = ap m (omega arith) ∙ p.end (omega arith) in
    let w = set_zero m d s (suc n) z (elim a [ inl l ↦ inl l | inr l ↦ inr (omega (arith, l)) ]) in
    record {
      text = λ i l. absurd (omega (arith, l));
      padding = λ i l k. w.inside i k;
      outside = w.outside;
    }
strncpy-Padded m d s (suc n) (suc r) p a =
    let apart : (i : ℕ) → i < n → d ≢ s + 1 + i =
      λ i b. elim a [ inl l ↦ omega (arith, l) | inr l ↦ omega (arith, l, b) ] in
    let full : (m s == 0) ≡ false = ground (arith, p.body 0, ap m (plus_zero s)) in
    rw full (
      Padded-suc m d s n r _ apart (omega (arith, p.bound)) (
        strncpy-Padded (store m d (m s)) (d + 1) (s + 1) n r (IsPrefix-tail m d s n r apart p)
          (elim a [ inl l ↦ inl (omega (arith, l)) | inr l ↦ inr (omega (arith, l)) ])))
