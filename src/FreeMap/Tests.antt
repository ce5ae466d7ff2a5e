-- ===== src/FreeMap/Tests.antt =====
-- The free map's theorems at a device of eight sectors, with a file that takes every write.
use algorithms_prepare.Prelude.{
  ℕ, zero, suc, ◌+◌, ◌≤◌, ◌<◌, ◌≡◌, refl, true, false, [], ◌∷◌, Option, some, arith,
}
use algorithms_prepare.Prelude.Bits.{bit}
use algorithms_prepare.Bitmap.{elem_idx}
use algorithms_prepare.Bitmap.View.{view, IsValid}
use algorithms_prepare.FreeMap.{FreeMap, Writer, free_map_allocate}
use algorithms_prepare.FreeMap.Laws.{Allocated, allocate-Allocated}

abbrev device : FreeMap
device = record { free_map = record { bit_cnt = 8; bits = 3 ∷ [] }; file_open = true; stored = [] }

device-IsValid : IsValid device.free_map
device-IsValid = record { small = omega arith; enough = omega arith; words = (omega arith, tt) }

abbrev accepting : Writer
accepting bits held = (true, bits)

abbrev failing : Writer
failing bits held = (false, held)

allocate_example :
    (r : Option ℕ) × (f' : FreeMap) × (free_map_allocate accepting device 3 ≡ some (r, f'))
    × Allocated accepting device 3 r f'
allocate_example = allocate-Allocated accepting (λ bits held e. refl) device 3 device-IsValid

device-taken : (j : ℕ) → 0 ≤ j → j < 0 + 2 → view device.free_map j ≡ true
unfolding view bit elem_idx
device-taken zero l u = refl
device-taken (suc zero) l u = refl
device-taken (suc (suc j)) l u = absurd (omega (arith, u))

device-free : view device.free_map 2 ≡ false
unfolding view bit elem_idx
device-free = refl
