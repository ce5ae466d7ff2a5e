-- ===== src/Vmm/Tests.antt =====
-- The areas' theorems at an address space of two areas, the first of them cached.
use algorithms_prepare.Prelude.{
  ◌+◌, ◌%◌, ◌≡◌, refl, ap, ◌∙◌, Bool, true, false, List, [], ◌∷◌, none, some, arith, some-inj, ◌==◌,
}
use algorithms_prepare.Vmm.{
  Vma, Mm, Ret, success, covers, search, find_vma, look, insert_vma_struct, mm_map, map_found,
  insert_after, check_after, check_vma_overlap, word_mod, dup_mmap, user_mem_check, check_from,
  refused,
}
use algorithms_prepare.Vmm.Areas.{AreOrdered, fits}
use algorithms_prepare.Vmm.Find.{IsValid, Found, find_vma-Found, Added, insert_vma_struct-Added}
use algorithms_prepare.Vmm.Map.{area}
use algorithms_prepare.Vmm.Dup.{holding, Copied, dup_mmap-Copied}
use algorithms_prepare.Vmm.User.{Answered, user_mem_check-Answered}

abbrev heap : Vma
heap = area 0x800000 0x802000 3

abbrev text : Vma
text = area 0x900000 0x903000 1

abbrev space : Mm
space = record { mmap_list = heap ∷ text ∷ []; mmap_cache = some heap; map_count = 2 }

two-AreOrdered : AreOrdered 0 (heap ∷ text ∷ [])
two-AreOrdered = (omega arith, omega arith, (omega arith, omega arith, tt))

space-IsValid : IsValid space
unfolding search
space-IsValid = record {
  ordered = two-AreOrdered;
  counted = refl;
  cached = λ v e a c.
      let same : heap ≡ v = some-inj e in rw (ap (λ u. covers u a) same ∙ c) (ap some same);
}

abbrev page_more : Mm
page_more = record {
  mmap_list = heap ∷ area 0x850000 0x851000 3 ∷ text ∷ [];
  mmap_cache = some heap;
  map_count = 3;
}

-- A page between the areas is mapped.
between : mm_map true space 0x850010 0x10 3 ≡ some (success, page_more)
unfolding mm_map find_vma look search map_found insert_vma_struct insert_after check_after
    check_vma_overlap
between = refl

-- A request from below an area into it.
into : mm_map true space 0x7ff000 0x2000 3 ≡ none
unfolding mm_map find_vma look search map_found insert_vma_struct insert_after check_after
    check_vma_overlap
into = refl

find_vma_example : Found space 0x900010 (find_vma space 0x900010).0 (find_vma space 0x900010).1
find_vma_example = find_vma-Found space 0x900010 space-IsValid

gap_fits : fits (area 0x850000 0x851000 3) (heap ∷ text ∷ []) ≡ true
unfolding fits
gap_fits = refl

insert_vma_struct_example :
    (mm' : Mm) × (insert_vma_struct space (area 0x850000 0x851000 3) ≡ some mm')
    × Added space (area 0x850000 0x851000 3) mm'
insert_vma_struct_example =
    insert_vma_struct-Added space (area 0x850000 0x851000 3) space-IsValid (omega arith) gap_fits

-- Memory runs out at the first area.
abbrev only_text : Vma → Bool
only_text v = v.vm_flags == 1

dup_mmap_example :
    (r : Ret) × (ws : List Vma) × (dup_mmap (λ v. true) only_text (holding []) space
      ≡ some (r, holding ws))
    × Copied (λ v. true) only_text (heap ∷ text ∷ []) r ws
dup_mmap_example = dup_mmap-Copied (λ v. true) only_text space two-AreOrdered

user_mem_check_example :
    (r : Bool) × (mm' : Mm) × (user_mem_check 0x3001 space 0x800ff0 0x1000 true ≡ some (r, mm'))
    × Answered space true 0x800ff0 ((0x800ff0 + 0x1000) % word_mod) r mm'
user_mem_check_example =
    user_mem_check-Answered 0x3001 space 0x800ff0 0x1000 true space-IsValid (omega arith)

writable : user_mem_check 3 space 0x800ff0 0x1000 true ≡ some (true, space)
unfolding user_mem_check check_from find_vma look search refused
writable = refl

read_only :
    user_mem_check 3 space 0x902000 0x10 true
    ≡ some (false, record space { mmap_cache = some text })
unfolding user_mem_check check_from find_vma look search refused
read_only = refl
