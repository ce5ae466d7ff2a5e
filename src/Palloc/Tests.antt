-- ===== src/Palloc/Tests.antt =====
-- The page allocator's theorems at two pools of eight pages, of which the first kernel page is used.
use algorithms_prepare.Prelude.{
  ℕ, zero, suc, ◌+◌, ◌≤◌, ◌<◌, ◌≡◌, refl, Bool, true, false, [], ◌∷◌, none, some, arith,
}
use algorithms_prepare.Prelude.Bits.{bit}
use algorithms_prepare.Bitmap.{Bitmap, elem_idx, bitmap_size, bitmap_set_multiple}
use algorithms_prepare.Bitmap.View.{view, IsValid}
use algorithms_prepare.Bitmap.Range.{Filled, set_multiple-Filled}
use algorithms_prepare.Palloc.{
  Palloc, palloc_get_multiple, palloc_free_multiple, has, pal_user, pool_of, page_from_pool,
}
use algorithms_prepare.Palloc.Laws.{PallocIsValid, Got, Outcome, get_multiple-Outcome}
use algorithms_prepare.Palloc.RoundTrip.{free-get_multiple, free_twice, free_foreign}

abbrev kernel_map : Bitmap
kernel_map = record { bit_cnt = 8; bits = 1 ∷ [] }

abbrev user_map : Bitmap
user_map = record { bit_cnt = 8; bits = 0 ∷ [] }

abbrev pools : Palloc
pools = record {
  kernel_pool = record { used_map = kernel_map; base = 0xc0102000 };
  user_pool = record { used_map = user_map; base = 0xc010a000 };
  mem = λ a. 7;
}

kernel_map-IsValid : IsValid kernel_map
kernel_map-IsValid = record { small = omega arith; enough = omega arith; words = (omega arith, tt) }

user_map-IsValid : IsValid user_map
user_map-IsValid = record { small = omega arith; enough = omega arith; words = (omega arith, tt) }

pools-IsValid : PallocIsValid pools
pools-IsValid = record {
  kernel_valid = record {
    map_valid = kernel_map-IsValid;
    aligned = refl;
    not_null = omega arith;
    fits = omega arith;
  };
  user_valid = record {
    map_valid = user_map-IsValid;
    aligned = refl;
    not_null = omega arith;
    fits = omega arith;
  };
  apart = omega arith;
}

get_example : Outcome pools (has 2 pal_user) 2 3 (palloc_get_multiple 2 3 pools)
get_example = get_multiple-Outcome 2 3 pools pools-IsValid (omega arith)

-- The user pool's first page, handed out without flags besides PAL_USER.
user_after :
    (b : Bitmap) × (bitmap_set_multiple user_map 0 1 true ≡ some b) × Filled user_map 0 1 true b
user_after = set_multiple-Filled user_map 0 1 true user_map-IsValid (omega arith)

abbrev after : Palloc
after = record pools { user_pool = record { used_map = user_after.0; base = 0xc010a000 } }

user_page-free : (j : ℕ) → 0 ≤ j → j < 0 + 1 → view user_map j ≡ false
unfolding view bit elem_idx
user_page-free zero l u = refl
user_page-free (suc j) l u = absurd (omega (arith, u))

after-Got : Got pools true 4 1 0xc010a000 after
after-Got = record {
  index = 0;
  at = refl;
  in_pool = omega arith;
  were_free = user_page-free;
  first = λ k l. absurd (omega (arith, l));
  now_used = user_after.2;
  same_base = refl;
  other_pool = refl;
  memory = λ a. refl;
}

round_trip_example :
    (p'' : Palloc) × (palloc_free_multiple 0xc010a000 1 after ≡ some p'')
    × ((x : Bool) (j : ℕ) → view (pool_of x p'').used_map j ≡ view (pool_of x pools).used_map j)
    × PallocIsValid p''
round_trip_example =
    free-get_multiple pools after true 4 1 0xc010a000 pools-IsValid (omega arith) after-Got

freed_once : (p'' : Palloc) × (palloc_free_multiple 0xc010a000 1 after ≡ some p'')
freed_once =
    let (p'', e, _, _) =
      free-get_multiple pools after true 4 1 0xc010a000 pools-IsValid (omega arith) after-Got in
    (p'', e)

free_twice_example : palloc_free_multiple 0xc010a000 1 freed_once.0 ≡ none
free_twice_example =
    free_twice pools after freed_once.0 true 4 1 0xc010a000 pools-IsValid (omega arith) after-Got
      freed_once.1

foreign :
    (page_from_pool pools.kernel_pool 4096 ≡ false) × (page_from_pool pools.user_pool 4096 ≡ false)
unfolding page_from_pool bitmap_size
foreign = (refl, refl)

free_foreign_example : palloc_free_multiple 4096 1 pools ≡ none
free_foreign_example = free_foreign pools 4096 1 (omega arith) (omega arith) foreign.0 foreign.1
