-- ===== src/Pmm.antt =====
-- kern/mm/default_pmm.c of Mooc_OS_Lab/lab1 (the other labs hold the same file), the first-fit page
-- allocator. A page is its index, the free list its pages in order (the list in memory is the business of
-- Links), and `none` a failed assert, or a list head that is taken for a page. There are fewer than 2^20
-- pages of memory, so no count of them wraps.
pub mod Blocks
pub mod Take
pub mod Handed
pub mod Alloc
pub mod Seek
pub mod Join
pub mod Replace
pub mod Merge
pub mod Free
pub mod Init
pub mod RoundTrip
mod Tests
use algorithms_prepare.Prelude.{
  ℕ, zero, suc, ◌+◌, ◌-◌, Bool, true, false, not, ◌&&◌, List, [], ◌∷◌, ◌++◌, Option, none, some,
  ◌>>=◌, ◌>>◌, assert, if◌then◌else◌, ltb, leb, ◌==◌,
}

-- The two bits of `flags`, and the other fields of `struct Page`.
pub record Page : Type 0 where
  pub page_reserved : Bool
  pub page_property : Bool
  pub property : ℕ
  pub ref : ℕ

abbrev pub Pages : Type 0
Pages = ℕ → Page

-- `free_area`, and the array of pages.
pub record Pmm : Type 0 where
  pub free_list : List ℕ
  pub nr_free : ℕ
  pub pages : Pages

abbrev pub set_page : Pages → ℕ → Page → Pages
set_page ps p x i = if i == p then x else ps i

abbrev pub set_property : Pages → ℕ → ℕ → Pages
set_property ps p n = set_page ps p (record (ps p) { property = n })

unfoldable pub default_init : Pmm → Pmm
default_init m = record m { free_list = []; nr_free = 0 }

abbrev pub init_page : ℕ → Pages → Pages
init_page p ps =
    set_page ps p (record { page_reserved = false; page_property = true; property = 0; ref = 0 })

-- The loop of `default_init_memmap`, for `n` pages from `p`; a page that is not reserved fails it.
unfoldable pub init_from : ℕ → ℕ → Pmm → Option Pmm
init_from zero p m = some m
init_from (suc n) p m =
    assert (m.pages p).page_reserved
    >> init_from n (p + 1)
        (record m { free_list = m.free_list ++ p ∷ []; pages = init_page p m.pages })

unfoldable pub default_init_memmap : ℕ → ℕ → Pmm → Option Pmm
default_init_memmap base n m =
    assert (ltb 0 n)
    >> (init_from n base m >>= λ m'.
        some (record m' { nr_free = m'.nr_free + n; pages = set_property m'.pages base n }))

-- SetPageReserved and ClearPageProperty
abbrev pub reserve : ℕ → Pages → Pages
reserve p ps = set_page ps p (record (ps p) { page_reserved = true; page_property = false })

-- The inner loop of `default_alloc_pages`: the first `n` pages of the list leave it.
unfoldable pub unlink : ℕ → List ℕ → Pages → Option (List ℕ × Pages)
unlink zero xs ps = some (xs, ps)
unlink (suc n) [] ps = none
unlink (suc n) (p ∷ xs) ps = unlink n xs (reserve p ps)

-- What is left of the block heads the list now.
unfoldable pub leave : ℕ → ℕ → List ℕ → Pages → Option Pages
leave n p [] ps = if ltb n (ps p).property then none else some ps
leave n p (q ∷ xs) ps =
    some (if ltb n (ps p).property then set_property ps q ((ps p).property - n) else ps)

unfoldable pub take_block : ℕ → ℕ → List ℕ → Pages → Option (List ℕ × Pages)
take_block n p xs ps = unlink n xs ps >>= λ r. leave n p r.0 r.1 >>= λ qs. some (r.0, reserve p qs)

-- The outer loop: the page found, the rest of the list anew, and the pages.
unfoldable pub alloc_from : ℕ → List ℕ → Pages → Option (Option ℕ × List ℕ × Pages)
alloc_from n [] ps = some (none, [], ps)
alloc_from n (p ∷ xs) ps =
    let rest = alloc_from n xs ps in
    if leb n (ps p).property
    then (take_block n p (p ∷ xs) ps >>= λ r. some (some p, r.0, r.1))
    else (rest >>= λ r. some (r.0, p ∷ r.1, r.2))

abbrev pub lowered : Option ℕ → ℕ → ℕ → ℕ
lowered none nr n = nr
lowered (some p) nr n = nr - n

unfoldable pub default_alloc_pages : ℕ → Pmm → Option (Option ℕ × Pmm)
default_alloc_pages n m =
    assert (ltb 0 n)
    >> (if ltb m.nr_free n
        then some (none, m)
        else alloc_from n m.free_list m.pages >>= λ r.
            some (r.0, record { free_list = r.1; nr_free = lowered r.0 m.nr_free n; pages = r.2 }))

-- The first loop of `default_free_pages`: the pages before its end, the last one first, and the rest.
unfoldable pub seek : ℕ → List ℕ → List ℕ → List ℕ × List ℕ
seek base seen [] = (seen, [])
seek base seen (p ∷ xs) = if ltb base p then (seen, p ∷ xs) else seek base (p ∷ seen) xs

-- The pages of a block in order, as the second loop inserts them.
unfoldable pub run : ℕ → ℕ → List ℕ
run p zero = []
run p (suc n) = p ∷ run (p + 1) n

abbrev pub free_base : ℕ → ℕ → Pages → Pages
free_base base n ps =
    set_page ps base (record { page_reserved = false; page_property = true; property = n; ref = 0 })

-- The block takes the one behind it, if they touch. The list's head is no page, so it touches nothing.
unfoldable pub join_next : ℕ → ℕ → List ℕ → Pages → Pages
join_next base n [] ps = ps
join_next base n (p ∷ xs) ps =
    if base + n == p
    then set_property (set_property ps base ((ps base).property + (ps p).property)) p 0
    else ps

-- The last loop: back to the page that heads the block before.
unfoldable pub join_back : ℕ → List ℕ → Pages → Pages
join_back base [] ps = ps
join_back base (p ∷ xs) ps =
    let rest = join_back base xs ps in
    if (ps p).property == 0
    then rest
    else set_property (set_property ps p ((ps p).property + (ps base).property)) base 0

unfoldable pub join_before : ℕ → List ℕ → Pages → Pages
join_before base [] ps = ps
join_before base (p ∷ xs) ps = if p + 1 == base then join_back base (p ∷ xs) ps else ps

unfoldable pub rev_onto : List ℕ → List ℕ → List ℕ
rev_onto [] ys = ys
rev_onto (x ∷ xs) ys = rev_onto xs (x ∷ ys)

unfoldable pub default_free_pages : ℕ → ℕ → Pmm → Option Pmm
default_free_pages base n m =
    assert (ltb 0 n)
    >> (assert (m.pages base).page_reserved
        >> (let r = seek base [] m.free_list in
            some (record {
              free_list = rev_onto r.0 (run base n ++ r.1);
              nr_free = m.nr_free + n;
              pages = join_before base r.0 (join_next base n r.1 (free_base base n m.pages));
            })))

abbrev pub default_nr_free_pages : Pmm → ℕ
default_nr_free_pages m = m.nr_free
