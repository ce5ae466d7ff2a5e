-- ===== src/Vmm.antt =====
-- kern/mm/vmm.c of Mooc_OS_Lab/lab1 (the other labs hold the same file): the areas of an address
-- space. An area's fields do not change once it is made, so a pointer to an area is its value. `none`
-- is a failed assert; no address space is null; kmalloc and `copy_range` are Booleans, true where they succeed.
pub mod Areas
pub mod Find
pub mod Map
pub mod Dup
pub mod User
mod Tests
use algorithms_prepare.Prelude.{
  ℕ, zero, suc, ◌+◌, ◌-◌, ◌%◌, ◌^◌, Bool, true, false, not, ◌&&◌, ◌||◌, List, [], ◌∷◌, Option, none,
  some, bit_and, ◌>>=◌, ◌>>◌, assert, if◌then◌else◌, ltb, leb, ◌==◌,
}

abbrev pub pgsize : ℕ
pgsize = 4096

abbrev pub word_mod : ℕ
word_mod = 2 ^ 32

abbrev pub vm_read : ℕ
vm_read = 1

abbrev pub vm_write : ℕ
vm_write = 2

abbrev pub vm_stack : ℕ
vm_stack = 8

-- `vm_flags & flag`, as a condition.
abbrev pub flagged : ℕ → ℕ → Bool
flagged flags flag = not (bit_and flags flag == 0)

abbrev pub user_base : ℕ
user_base = 0x00200000

abbrev pub user_top : ℕ
user_top = 0xB0000000

abbrev pub user_access : ℕ → ℕ → Bool
user_access start end = leb user_base start && ltb start end && leb end user_top

abbrev pub round_down : ℕ → ℕ
round_down a = a - a % pgsize

abbrev pub round_up : ℕ → ℕ
round_up a = round_down ((a + (pgsize - 1)) % word_mod)

pub record Vma : Type 0 where
  pub vm_start : ℕ
  pub vm_end : ℕ
  pub vm_flags : ℕ

pub record Mm : Type 0 where
  pub mmap_list : List Vma
  pub mmap_cache : Option Vma
  pub map_count : ℕ

-- The negated error codes of libs/error.h.
pub data Ret : Type 0 where
  success e_inval e_no_mem : Ret

-- The fields of `mm_create` that are modelled.
abbrev pub mm_create : Bool → Option Mm
mm_create allocated =
    if allocated then some (record { mmap_list = []; mmap_cache = none; map_count = 0 }) else none

abbrev pub vma_create : Bool → ℕ → ℕ → ℕ → Option Vma
vma_create allocated start end flags =
    if allocated then some (record { vm_start = start; vm_end = end; vm_flags = flags }) else none

-- `vma->vm_start <= addr && addr < vma->vm_end`
abbrev pub covers : Vma → ℕ → Bool
covers v addr = leb v.vm_start addr && ltb addr v.vm_end

-- The loop of `find_vma`.
unfoldable pub search : ℕ → List Vma → Option Vma
search addr [] = none
search addr (v ∷ vs) = if covers v addr then some v else search addr vs

unfoldable pub look : Option Vma → ℕ → List Vma → Option Vma
look none addr vs = search addr vs
look (some v) addr vs = if covers v addr then some v else search addr vs

abbrev pub remember : Option Vma → Mm → Mm
remember none mm = mm
remember (some v) mm = record mm { mmap_cache = some v }

-- The area found, and the state with the cache anew.
unfoldable pub find_vma : Mm → ℕ → Option Vma × Mm
unfolding look
find_vma mm addr = let found = look mm.mmap_cache addr mm.mmap_list in (found, remember found mm)

unfoldable pub check_vma_overlap : Vma → Vma → Option (Unit {0})
check_vma_overlap prev next =
    assert (ltb prev.vm_start prev.vm_end)
    >> (assert (leb prev.vm_end next.vm_start) >> assert (ltb next.vm_start next.vm_end))

unfoldable pub check_after : Option Vma → Vma → Option (Unit {0})
unfolding check_vma_overlap
check_after none v = some tt
check_after (some prev) v = check_vma_overlap prev v

-- The loop of `insert_vma_struct`, with the checks and the insertion after it. `prev` is the area
-- before the rest of the list.
unfoldable pub insert_after : Option Vma → Vma → List Vma → Option (List Vma)
insert_after prev v [] = check_after prev v >> some (v ∷ [])
insert_after prev v (next ∷ vs) =
    let rest = insert_after (some next) v vs in
    if ltb v.vm_start next.vm_start
    then check_after prev v >> (check_vma_overlap v next >> some (v ∷ next ∷ vs))
    else (rest >>= λ ws. some (next ∷ ws))

unfoldable pub insert_vma_struct : Mm → Vma → Option Mm
insert_vma_struct mm v =
    assert (ltb v.vm_start v.vm_end)
    >> (insert_after none v mm.mmap_list >>= λ vs.
        some (record mm { mmap_list = vs; map_count = mm.map_count + 1 }))

-- `mm_map` behind the call of `find_vma`.
unfoldable pub map_found : Bool → ℕ → ℕ → ℕ → Option Vma → Mm → Option (Ret × Mm)
map_found allocated start end flags none mm = elim (vma_create allocated start end flags) [
  | none ↦ some (e_no_mem, mm)
  | some v ↦ insert_vma_struct mm v >>= λ mm'. some (success, mm')
]
map_found allocated start end flags (some found) mm =
    if ltb found.vm_start end
    then some (e_inval, mm)
    else elim (vma_create allocated start end flags) [
      | none ↦ some (e_no_mem, mm)
      | some v ↦ insert_vma_struct mm v >>= λ mm'. some (success, mm')
    ]

unfoldable pub mm_map : Bool → Mm → ℕ → ℕ → ℕ → Option (Ret × Mm)
mm_map allocated mm addr len flags =
    let start = round_down addr in
    let end = round_up ((addr + len) % word_mod) in
    if user_access start end
    then (let (found, mm') = find_vma mm start in map_found allocated start end flags found mm')
    else some (e_inval, mm)

-- One round of `dup_mmap`, unless an earlier one has failed.
unfoldable pub dup_vma : (Vma → Bool) → (Vma → Bool) → Vma → Ret × Mm → Option (Ret × Mm)
dup_vma allocated copied v (e_inval, to) = some (e_inval, to)
dup_vma allocated copied v (e_no_mem, to) = some (e_no_mem, to)
dup_vma allocated copied v (success, to) =
    elim (vma_create (allocated v) v.vm_start v.vm_end v.vm_flags) [
      | none ↦ some (e_no_mem, to)
      | some nvma ↦
          insert_vma_struct to nvma >>= λ to'. some (if copied v then success else e_no_mem, to')
    ]

-- `dup_mmap` walks the list from its end.
unfoldable pub dup_list : (Vma → Bool) → (Vma → Bool) → Mm → List Vma → Option (Ret × Mm)
dup_list allocated copied to [] = some (success, to)
dup_list allocated copied to (v ∷ vs) =
    dup_list allocated copied to vs >>= dup_vma allocated copied v

unfoldable pub dup_mmap : (Vma → Bool) → (Vma → Bool) → Mm → Mm → Option (Ret × Mm)
dup_mmap allocated copied to from = dup_list allocated copied to from.mmap_list

-- A round's refusal in `user_mem_check`.
unfoldable pub refused : Bool → ℕ → Vma → Bool
refused write start v =
    ltb start v.vm_start
    || not (flagged v.vm_flags (if write then vm_write else vm_read))
    || (write && flagged v.vm_flags vm_stack && ltb start ((v.vm_start + pgsize) % word_mod))

-- The loop of `user_mem_check`; the outer `none` is its end for want of fuel.
unfoldable pub check_from : ℕ → Bool → ℕ → ℕ → Mm → Option (Bool × Mm)
check_from zero write end start mm = none
check_from (suc fuel) write end start mm =
    if ltb start end
    then (let (found, mm') = find_vma mm start in
        elim found [
          | none ↦ some (false, mm')
          | some v ↦
              let rest = check_from fuel write end v.vm_end mm' in
              if refused write start v then some (false, mm') else rest
        ])
    else some (true, mm)

unfoldable pub user_mem_check : ℕ → Mm → ℕ → ℕ → Bool → Option (Bool × Mm)
user_mem_check fuel mm addr len write =
    let end = (addr + len) % word_mod in
    if user_access addr end then check_from fuel write end addr mm else some (false, mm)
