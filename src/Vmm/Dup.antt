-- ===== src/Vmm/Dup.antt =====
-- `dup_mmap`, which copies an address space from its last area on.
use algorithms_prepare.Prelude.{
  ℕ, ◌<◌, ◌≡◌, refl, ap, inl, inr, Bool, true, false, List, [], ◌∷◌, ◌++◌, none, some, arith,
  length, All, Bool-cases, lt→ltb,
}
use algorithms_prepare.Vmm.{
  Vma, Mm, Ret, success, e_no_mem, insert_after, insert_vma_struct, check_vma_overlap, check_after,
  dup_vma, dup_list, dup_mmap,
}
use algorithms_prepare.Vmm.Areas.{AreOrdered}

-- An area in front of all others.
insert_front :
    (v : Vma) (vs : List Vma)
    → v.vm_start < v.vm_end
    → AreOrdered v.vm_end vs
    → insert_after none v vs ≡ some (v ∷ vs)
unfolding insert_after check_after check_vma_overlap
insert_front v [] p o = refl
insert_front v (w ∷ ws) p o = ground (arith, p, o.0, o.1)

-- An address space as `mm_create` makes it, with some areas in it.
abbrev pub holding : List Vma → Mm
holding ws = record { mmap_list = ws; mmap_cache = none; map_count = length ws }

abbrev BothSucceed : (Vma → Bool) → (Vma → Bool) → List Vma → Type 0
BothSucceed allocated copied = All (λ v. (allocated v ≡ true) × (copied v ≡ true))

-- The outcome of copying the areas `vs`, with those that are there then: all of them, or those behind
-- the last one that has no memory for its area, or that one too if it has none for its pages. The
-- cases exclude each other.
pub data Copied (allocated copied : Vma → Bool) (vs : List Vma) : Ret → List Vma → Type 0 where
  complete : BothSucceed allocated copied vs → Copied allocated copied vs success vs
  no_area :
      (us : List Vma) (v : Vma) (ws : List Vma)
      → vs ≡ us ++ v ∷ ws
      → BothSucceed allocated copied ws
      → allocated v ≡ false
      → Copied allocated copied vs e_no_mem ws
  no_pages :
      (us : List Vma) (v : Vma) (ws : List Vma)
      → vs ≡ us ++ v ∷ ws
      → BothSucceed allocated copied ws
      → allocated v ≡ true
      → copied v ≡ false
      → Copied allocated copied vs e_no_mem (v ∷ ws)

module _ (allocated copied : Vma → Bool) where
  insert_holding :
      (v : Vma) (vs : List Vma)
      → v.vm_start < v.vm_end
      → AreOrdered v.vm_end vs
      → insert_vma_struct (holding vs) v ≡ some (holding (v ∷ vs))
  unfolding insert_vma_struct
  insert_holding v vs p o =
      rw (lt→ltb v.vm_start v.vm_end p, insert_front v vs p o)
        (ap (λ n. some (record { mmap_list = v ∷ vs; mmap_cache = none; map_count = n }))
          (omega arith))

  -- A round after rounds that have succeeded so far.
  round :
      (v : Vma) (vs : List Vma)
      → v.vm_start < v.vm_end
      → AreOrdered v.vm_end vs
      → BothSucceed allocated copied vs
      → (r : Ret) × (ws : List Vma) × (dup_vma allocated copied v (success, holding vs)
          ≡ some (r, holding ws))
        × Copied allocated copied (v ∷ vs) r ws
  unfolding dup_vma
  round v vs p o k = elim (Bool-cases (allocated v)) [
    | inr n ↦ (e_no_mem, vs, rw (n, dup_vma) refl, no_area [] v vs refl k n)
    | inl a ↦ elim (Bool-cases (copied v)) [
      | inl c ↦
          (success, v ∷ vs, rw (a, dup_vma, insert_holding v vs p o, c) refl, complete ((a, c), k))
      | inr c ↦ (
        e_no_mem,
        v ∷ vs,
        rw (a, dup_vma, insert_holding v vs p o, c) refl,
        no_pages [] v vs refl k a c,
      )
    ]
  ]

  one_more :
      (v : Vma) (vs : List Vma)
      → v.vm_start < v.vm_end
      → AreOrdered v.vm_end vs
      → (r : Ret) (ws : List Vma) → Copied allocated copied vs r ws
      → (r' : Ret) × (ws' : List Vma) × (dup_vma allocated copied v (r, holding ws)
          ≡ some (r', holding ws'))
        × Copied allocated copied (v ∷ vs) r' ws'
  unfolding dup_vma
  one_more v vs p o _ _ (complete k) = round v vs p o k
  one_more v vs p o _ _ (no_area us w ws e k n) =
      (e_no_mem, ws, refl, no_area (v ∷ us) w ws (ap (λ xs. v ∷ xs) e) k n)
  one_more v vs p o _ _ (no_pages us w ws e k a n) =
      (e_no_mem, w ∷ ws, refl, no_pages (v ∷ us) w ws (ap (λ xs. v ∷ xs) e) k a n)

  dup_list-Copied :
      (low : ℕ) (vs : List Vma)
      → AreOrdered low vs
      → (r : Ret) × (ws : List Vma) × (dup_list allocated copied (holding []) vs
          ≡ some (r, holding ws))
        × Copied allocated copied vs r ws
  unfolding dup_list
  dup_list-Copied low [] o = (success, [], refl, complete tt)
  dup_list-Copied low (v ∷ vs) o =
      let (r, ws, d, c) = dup_list-Copied v.vm_end vs o.2 in
      let (r', ws', d', c') = one_more v vs o.1 o.2 r ws c in (r', ws', rw d d', c')

  -- `dup_mmap` of areas in order into a new address space fails no assert. It goes from the last
  -- area on and succeeds exactly if each gets memory for its area and its pages, with all areas
  -- copied; else it answers -E_NO_MEM at the last one that does not, and the areas behind that one
  -- are there, and that one too if only its pages failed.
  pub dup_mmap-Copied :
      (from : Mm)
      → AreOrdered 0 from.mmap_list
      → (r : Ret) × (ws : List Vma) × (dup_mmap allocated copied (holding []) from
          ≡ some (r, holding ws))
        × Copied allocated copied from.mmap_list r ws
  unfolding dup_mmap
  dup_mmap-Copied from o = dup_list-Copied 0 from.mmap_list o
