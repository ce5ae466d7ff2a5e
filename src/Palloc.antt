-- ===== src/Palloc.antt =====
-- threads/palloc.c of proj-pregame: the page allocator. Pointers are 32-bit numbers, 0 is the null
-- pointer, and memory is a byte for each address. The pools' locks, which
-- `palloc_get_multiple` holds while it searches the map and no other call takes, are left out: each
-- call here runs to its end before the next one starts. `none` is a panic.
mod Tests
pub mod Laws
pub mod Free
pub mod RoundTrip
use algorithms_prepare.Prelude.{
  ℕ, ◌+◌, ◌-◌, ◌*◌, ◌/◌, ◌%◌, ◌^◌, ◌<◌, Bool, true, false, not, ◌&&◌, ◌||◌, List, Option, none,
  some, bit_and, ◌>>=◌, ◌>>◌, assert, if◌then◌else◌, ltb, leb, ◌==◌, arith,
}
use algorithms_prepare.Bitmap.{
  Bitmap, bitmap_error, bitmap_size, bitmap_all, bitmap_set_multiple, bitmap_scan_and_flip,
  bitmap_buf_size, bitmap_create_in_buf,
}

abbrev pub pgsize : ℕ
pgsize = 4096

abbrev pub ptr_mod : ℕ
ptr_mod = 2 ^ 32

abbrev pub null : ℕ
null = 0

abbrev pub phys_base : ℕ
phys_base = 0xc0000000

pub record Pool : Type 0 where
  pub used_map : Bitmap
  pub base : ℕ

pub record Palloc : Type 0 where
  pub kernel_pool : Pool
  pub user_pool : Pool
  pub mem : ℕ → ℕ

abbrev pub pal_assert : ℕ
pal_assert = 1

abbrev pub pal_zero : ℕ
pal_zero = 2

abbrev pub pal_user : ℕ
pal_user = 4

-- `flags & FLAG`, as a condition.
abbrev pub has : ℕ → ℕ → Bool
has flags flag = not (bit_and flags flag == 0)

abbrev pub pg_ofs : ℕ → ℕ
pg_ofs va = va % pgsize

abbrev pub pg_no : ℕ → ℕ
pg_no va = va / pgsize

-- `memset`
unfoldable pub memset : (ℕ → ℕ) → ℕ → ℕ → ℕ → ℕ → ℕ
memset mem dst value size a = if leb dst a && ltb a (dst + size) then value else mem a

-- The pool that a call works on, and the state with that pool anew.
abbrev pub pool_of : Bool → Palloc → Pool
pool_of true p = p.user_pool
pool_of false p = p.kernel_pool

abbrev pub with_pool : Bool → Palloc → Pool → Palloc
with_pool true p q = record p { user_pool = q }
with_pool false p q = record p { kernel_pool = q }

unfoldable pub page_from_pool : Pool → ℕ → Bool
page_from_pool q page =
    let page_no = pg_no page in
    let start_page = pg_no q.base in
    let end_page = start_page + bitmap_size q.used_map in
    leb start_page page_no && ltb page_no end_page

-- The pages filled with zeros, if the flags ask for it.
unfoldable pub cleared : ℕ → ℕ → ℕ → Palloc → Palloc
cleared flags page_cnt pages p =
    if has flags pal_zero then record p { mem = memset p.mem pages 0 (pgsize * page_cnt) } else p

-- The end of `palloc_get_multiple`, from the pointer that it found.
unfoldable pub finish : ℕ → ℕ → ℕ → Palloc → Option (ℕ × Palloc)
finish flags page_cnt pages p =
    if not (pages == null)
    then some (pages, cleared flags page_cnt pages p)
    else if has flags pal_assert
    then none
    else some (pages, p)

-- `palloc_get_multiple` behind its early return, on the pool that it chose.
unfoldable pub get_from : ℕ → ℕ → Bool → Palloc → Option (ℕ × Palloc)
get_from flags page_cnt user p =
    let pool = pool_of user p in
    do
      (page_idx, used) ← bitmap_scan_and_flip pool.used_map 0 page_cnt false
      let pages =
          if page_idx == bitmap_error then null else (pool.base + pgsize * page_idx) % ptr_mod
      finish flags page_cnt pages (with_pool user p (record pool { used_map = used }))

unfoldable pub palloc_get_multiple : ℕ → ℕ → Palloc → Option (ℕ × Palloc)
unfolding get_from
palloc_get_multiple flags page_cnt p =
    if page_cnt == 0 then some (null, p) else get_from flags page_cnt (has flags pal_user) p

unfoldable pub palloc_get_page : ℕ → Palloc → Option (ℕ × Palloc)
palloc_get_page flags p = palloc_get_multiple flags 1 p

-- The pool that holds the page; `none` is NOT_REACHED.
unfoldable pub owner : ℕ → Palloc → Option Bool
owner pages p =
    if page_from_pool p.kernel_pool pages
    then some false
    else if page_from_pool p.user_pool pages
    then some true
    else none

-- `palloc_free_multiple` on the pool that it chose. The memory is filled with 0xcc, as NDEBUG is not
-- defined.
unfoldable pub free_from : ℕ → ℕ → Palloc → Bool → Option Palloc
free_from pages page_cnt p user =
    let pool = pool_of user p in
    let page_idx = pg_no pages - pg_no pool.base in
    let filled = record p { mem = memset p.mem pages 0xcc (pgsize * page_cnt) } in
    do
      all_used ← bitmap_all pool.used_map page_idx page_cnt
      assert all_used
      used ← bitmap_set_multiple pool.used_map page_idx page_cnt false
      some (with_pool user filled (record pool { used_map = used }))

unfoldable pub palloc_free_multiple : ℕ → ℕ → Palloc → Option Palloc
unfolding owner free_from
palloc_free_multiple pages page_cnt p =
    assert (pg_ofs pages == 0)
    >> (if pages == null || page_cnt == 0
        then some p
        else owner pages p >>= free_from pages page_cnt p)

unfoldable pub palloc_free_page : ℕ → Palloc → Option Palloc
palloc_free_page page p = palloc_free_multiple page 1 p

abbrev pub div_round_up : ℕ → ℕ → ℕ
div_round_up x step = (x + (step - 1)) / step

-- `bits` is what memory holds at the base, behind the header of the bitmap.
unfoldable pub init_pool : ℕ → ℕ → List ℕ → Option Pool
init_pool base page_cnt bits = do
  let bm_pages = div_round_up (bitmap_buf_size page_cnt) pgsize
  assert (leb bm_pages page_cnt)
  used ← bitmap_create_in_buf (page_cnt - bm_pages) bits (bm_pages * pgsize)
  some (record { used_map = used; base = base + bm_pages * pgsize })

-- `(a - b) / PGSIZE` as a `size_t`: the difference is signed, and its quotient rounds towards zero.
unfoldable pub ptrdiff_pages : ℕ → ℕ → ℕ
ptrdiff_pages a b = if leb b a then (a - b) / pgsize else (ptr_mod - (b - a) / pgsize) % ptr_mod

-- `init_ram_pages` comes from the loader.
unfoldable pub palloc_init : ℕ → ℕ → List ℕ → List ℕ → (ℕ → ℕ) → Option Palloc
palloc_init init_ram_pages user_page_limit kernel_bits user_bits mem = do
  let free_start = 1024 * 1024 + phys_base
  assert (ltb (init_ram_pages * pgsize % ptr_mod) phys_base)
  let free_end = (init_ram_pages * pgsize % ptr_mod + phys_base) % ptr_mod
  let free_pages = ptrdiff_pages free_end free_start
  let half : ℕ = free_pages / 2
  let user_pages = if ltb user_page_limit half then user_page_limit else half
  let kernel_pages = free_pages - user_pages
  kernel ← init_pool free_start kernel_pages kernel_bits
  user ← init_pool (free_start + kernel_pages * pgsize) user_pages user_bits
  some (record { kernel_pool = kernel; user_pool = user; mem = mem })
