-- ===== src/Vmm/Areas.antt =====
-- The list of areas: in order and apart, searched and inserted into.
use algorithms_prepare.Prelude.{
  ℕ, ◌+◌, ◌≤◌, ◌<◌, ◌≡◌, refl, inl, inr, Bool, true, false, ◌&&◌, ◌||◌, List, [], ◌∷◌, Option, none,
  some, ◌>>◌, if◌then◌else◌, ltb, leb, arith, length, Bool-cases,
}
use algorithms_prepare.Vmm.{Vma, covers, search, check_vma_overlap, check_after, insert_after}

-- Areas that are not empty, in order, none overlapping the next, and none below `low`.
abbrev pub AreOrdered : ℕ → List Vma → Type 0
AreOrdered low [] = Unit
AreOrdered low (v ∷ vs) = (low ≤ v.vm_start) × (v.vm_start < v.vm_end) × AreOrdered v.vm_end vs

-- Whether an area overlaps none of the list's.
abbrev pub apart : Vma → Vma → Bool
apart v w = leb v.vm_end w.vm_start || leb w.vm_end v.vm_start

unfoldable pub fits : Vma → List Vma → Bool
fits v [] = true
fits v (w ∷ ws) = apart v w && fits v ws

-- Nothing is found below the list.
pub search_below : (low a : ℕ) (vs : List Vma) → AreOrdered low vs → a < low → search a vs ≡ none
unfolding search
search_below low a [] o h = refl
search_below low a (v ∷ vs) o h = ground (arith, o.0, o.1, h, search_below v.vm_end a vs o.2)

-- An area that starts before the list and ends in it fits only if it ends before it.
fits_below :
    (v : Vma) (low : ℕ) (vs : List Vma) → AreOrdered low vs → v.vm_end ≤ low → fits v vs ≡ true
unfolding fits
fits_below v low [] o h = refl
fits_below v low (w ∷ ws) o h = ground (arith, o.0, o.1, h, fits_below v w.vm_end ws o.2)

-- The area before the place reached, or none at the head of the list.
abbrev pub IsBefore : Option Vma → ℕ → Type 0
IsBefore none low = low ≡ 0
IsBefore (some p) low = (p.vm_start < p.vm_end) × (low ≡ p.vm_end)

check_after-ok :
    (prev : Option Vma) (low : ℕ) (v : Vma)
    → IsBefore prev low
    → low ≤ v.vm_start
    → v.vm_start < v.vm_end
    → check_after prev v ≡ some tt
unfolding check_after check_vma_overlap
check_after-ok none low v b h p = refl
check_after-ok (some q) low v b h p = ground (arith, b.0, b.1, h, p)

-- The list with an area more.
pub record Inserted (low : ℕ) (v : Vma) (vs ws : List Vma) : Type 0 where
  pub ordered : AreOrdered low ws
  pub finds : (a : ℕ) → search a ws ≡ (if covers v a then some v else search a vs)
  pub longer : length ws ≡ length vs + 1

pub insert_after-Inserted :
    (prev : Option Vma) (low : ℕ) (v : Vma) (vs : List Vma)
    → IsBefore prev low
    → AreOrdered low vs
    → low ≤ v.vm_start
    → v.vm_start < v.vm_end
    → fits v vs ≡ true
    → (ws : List Vma) × (insert_after prev v vs ≡ some ws) × Inserted low v vs ws
unfolding insert_after search fits
insert_after-Inserted prev low v [] b o h p f = (
  v ∷ [],
  rw (check_after-ok prev low v b h p) refl,
  record { ordered = (h, p, tt); finds = λ a. refl; longer = refl },
)
insert_after-Inserted prev low v (w ∷ ws) b o h p f =
    elim (Bool-cases (ltb v.vm_start w.vm_start)) [
      | inl l ↦ (
        v ∷ w ∷ ws,
        rw (l, check_after-ok prev low v b h p)
            (unfold check_vma_overlap in ground (arith, p, l, f, o.1)),
        record {
          ordered = (h, p, (ground (arith, l, f, o.1), o.1, o.2));
          finds = λ a. refl;
          longer = omega arith;
        },
      )
      | inr l ↦
          let below : w.vm_end ≤ v.vm_start = ground (arith, l, f, p) in
          let rest : fits v ws ≡ true = ground (arith, f) in
          let (us, e, r) =
            insert_after-Inserted (some w) w.vm_end v ws (o.1, refl) o.2 below p rest in
          (
            w ∷ us,
            rw (l, e) refl,
            record {
              ordered = (o.0, o.1, r.ordered);
              finds = λ a. ground (arith, r.finds a, below);
              longer = omega (arith, r.longer);
            },
          )
    ]

then_none : (o : Option (Unit {0})) (b : Option (List Vma)) → b ≡ none → (o >> b) ≡ none
then_none none b e = refl
then_none (some _) b e = e

check_vma_overlap-none :
    (v w : Vma) → leb v.vm_end w.vm_start ≡ false → check_vma_overlap v w ≡ none
unfolding check_vma_overlap
check_vma_overlap-none v w h = ground (arith, h)

-- An area that starts inside the one before is refused.
insert_after_inside :
    (q v : Vma) (vs : List Vma)
    → AreOrdered q.vm_end vs
    → v.vm_start < q.vm_end
    → insert_after (some q) v vs ≡ none
unfolding insert_after check_after
insert_after_inside q v [] o h = rw (check_vma_overlap-none q v (ground (arith, h))) refl
insert_after_inside q v (w ∷ ws) o h =
    let before : ltb v.vm_start w.vm_start ≡ true = ground (arith, h, o.0) in
    rw (before, check_vma_overlap-none q v (ground (arith, h))) refl

-- An area that overlaps another is refused.
pub insert_after_overlap :
    (prev : Option Vma) (low : ℕ) (v : Vma) (vs : List Vma)
    → AreOrdered low vs
    → v.vm_start < v.vm_end
    → fits v vs ≡ false
    → insert_after prev v vs ≡ none
unfolding insert_after fits
insert_after_overlap prev low v [] o p f = cc
insert_after_overlap prev low v (w ∷ ws) o p f = elim (Bool-cases (ltb v.vm_start w.vm_start)) [
  | inl l ↦
      let over : leb v.vm_end w.vm_start ≡ false =
        ground (arith, f, o.1, fits_below v w.vm_end ws o.2) in
      rw (l, check_vma_overlap-none v w over) (then_none (check_after prev v) none refl)
  | inr l ↦ elim (Bool-cases (ltb v.vm_start w.vm_end)) [
    | inl h ↦ rw (l, insert_after_inside w v ws o.2 (ground (arith, h))) refl
    | inr h ↦ rw (l, insert_after_overlap (some w) w.vm_end v ws o.2 p (ground (arith, f, h))) refl
  ]
]
