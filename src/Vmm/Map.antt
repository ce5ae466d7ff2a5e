-- ===== src/Vmm/Map.antt =====
-- `mm_map`.
use algorithms_prepare.Prelude.{ℕ, ◌<◌, ◌≤◌, ◌≡◌, Bool, true, false, Option, none, some, arith}
use algorithms_prepare.Vmm.{Vma, Mm, Ret, success, e_inval, e_no_mem, search, user_access}
use algorithms_prepare.Vmm.Areas.{fits}
use algorithms_prepare.Vmm.Find.{Found, Added}

abbrev pub area : ℕ → ℕ → ℕ → Vma
area start end flags = record { vm_start = start; vm_end = end; vm_flags = flags }

-- The addresses from `start` on below `end` are some, and all of them user memory.
abbrev pub IsUser : ℕ → ℕ → Type 0
IsUser start end = (0x200000 ≤ start) × (start < end) × (end ≤ 0xB0000000)

-- The outcome of `mm_map` for the pages from `start` to `end`; its cases exclude each other.
pub data Mapped (mm : Mm) (allocated : Bool) (start end flags : ℕ)
    : Option (Ret × Mm) → Type 0 where
  outside : (IsUser start end → ⊥) → Mapped mm allocated start end flags (some (e_inval, mm))
  taken :
      (w : Vma) (mm' : Mm)
      → IsUser start end
      → Found mm start (some w) mm'
      → Mapped mm allocated start end flags (some (e_inval, mm'))
  no_memory :
      IsUser start end
      → search start mm.mmap_list ≡ none
      → allocated ≡ false
      → Mapped mm allocated start end flags (some (e_no_mem, mm))
  mapped :
      (mm' : Mm)
      → IsUser start end
      → search start mm.mmap_list ≡ none
      → allocated ≡ true
      → fits (area start end flags) mm.mmap_list ≡ true
      → Added mm (area start end flags) mm'
      → Mapped mm allocated start end flags (some (success, mm'))
  collides :
      IsUser start end
      → search start mm.mmap_list ≡ none
      → allocated ≡ true
      → fits (area start end flags) mm.mmap_list ≡ false
      → Mapped mm allocated start end flags none

pub user_access-lt : (start end : ℕ) → user_access start end ≡ true → start < end
user_access-lt start end h = ground (arith, h)
