-- ===== src/FreeMap.antt =====
-- filesys/free-map.c of proj-pregame: which sectors of the file system device are taken, in memory
-- and in the free map file. The file layer is a parameter: `write` takes the elements to be written
-- and what the file holds, and returns whether all of it was written and what the file holds then.
mod Tests
pub mod Laws
use algorithms_prepare.Prelude.{
  ℕ, ◌+◌, Bool, true, false, not, ◌&&◌, List, Option, none, some, ◌>>=◌, ◌>>◌, assert,
  if◌then◌else◌, ◌==◌, arith,
}
use algorithms_prepare.Bitmap.{
  Bitmap, bitmap_error, bitmap_mark, bitmap_all, bitmap_set_multiple, bitmap_scan_and_flip,
  bitmap_create,
}

pub record FreeMap : Type 0 where
  pub free_map : Bitmap
  -- `free_map_file` is not a null pointer.
  pub file_open : Bool
  -- What the file holds.
  pub stored : List ℕ

abbrev pub free_map_sector : ℕ
free_map_sector = 0

abbrev pub root_dir_sector : ℕ
root_dir_sector = 1

abbrev pub Writer : Type 0
Writer = List ℕ → List ℕ → Bool × List ℕ

-- `bitmap_write`, on the open free map file.
unfoldable pub bitmap_write : Writer → FreeMap → Bool × FreeMap
bitmap_write write f =
    let (success, held) = write f.free_map.bits f.stored in (success, record f { stored = held })

-- `sectors` is the size of the device; `struct_ok` and `block` are what malloc returns.
unfoldable pub free_map_init : Bool → Option (List ℕ) → ℕ → List ℕ → Option FreeMap
free_map_init struct_ok block sectors stored = do
  made ← bitmap_create struct_ok block sectors
  elim made [
    | none ↦ none
    | some b ↦ some (record {
      free_map = bitmap_mark (bitmap_mark b free_map_sector) root_dir_sector;
      file_open = false;
      stored = stored;
    })
  ]

-- After the flip: the write to the file, if it is open, and the way back if that fails.
unfoldable pub commit : Writer → FreeMap → ℕ → ℕ → Option (ℕ × FreeMap)
unfolding bitmap_write
commit write f sector cnt =
    if not (sector == bitmap_error) && f.file_open
    then (let (success, f') = bitmap_write write f in
        if success
        then some (sector, f')
        else (bitmap_set_multiple f'.free_map sector cnt false >>= λ b.
            some (bitmap_error, record f' { free_map = b })))
    else some (sector, f)

abbrev pub answer : ℕ × FreeMap → Option (Option ℕ × FreeMap)
answer (sector, f) = some (if sector == bitmap_error then none else some sector, f)

-- The sector that goes through `*sectorp`, or `none` for a false return.
unfoldable pub free_map_allocate : Writer → FreeMap → ℕ → Option (Option ℕ × FreeMap)
unfolding commit
free_map_allocate write f cnt = do
  (sector, b) ← bitmap_scan_and_flip f.free_map 0 cnt false
  commit write (record f { free_map = b }) sector cnt >>= answer

unfoldable pub free_map_release : Writer → FreeMap → ℕ → ℕ → Option FreeMap
unfolding bitmap_write
free_map_release write f sector cnt = do
  held ← bitmap_all f.free_map sector cnt
  assert held
  b ← bitmap_set_multiple f.free_map sector cnt false
  some (bitmap_write write (record f { free_map = b })).1
