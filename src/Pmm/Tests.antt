-- ===== src/Pmm/Tests.antt =====
-- The allocator's theorems at a memory with the free blocks 10 to 12 and 20 to 23.
use algorithms_prepare.Prelude.{
  ℕ, ◌≡◌, refl, true, false, ◌&&◌, [], ◌∷◌, Option, none, some, if◌then◌else◌, ltb, leb, ◌==◌,
  arith,
}
use algorithms_prepare.Sched.{linked}
use algorithms_prepare.Pmm.{
  Pages, Pmm, run, reserve, default_alloc_pages, alloc_from, take_block, unlink, leave,
  default_free_pages, seek, rev_onto, join_next, join_before, join_back,
}
use algorithms_prepare.Pmm.Blocks.{pages_of, within, IsValid}
use algorithms_prepare.Pmm.Alloc.{Served, default_alloc_pages-Served}
use algorithms_prepare.Pmm.Free.{Freed, default_free_pages-Freed}
use algorithms_prepare.Pmm.RoundTrip.{Restored, free-alloc}

abbrev memory : Pages
memory i = record {
  page_reserved = leb 13 i && ltb i 20;
  page_property = i == 10;
  property = if i == 10 then 3 else if i == 20 then 4 else 0;
  ref = 0;
}

abbrev two_blocks : Pmm
two_blocks = record {
  free_list = 10 ∷ 11 ∷ 12 ∷ 20 ∷ 21 ∷ 22 ∷ 23 ∷ [];
  nr_free = 7;
  pages = memory;
}

two_blocks-IsValid : IsValid two_blocks
unfolding pages_of run
two_blocks-IsValid = record {
  blocks = record { base = 10; count = 3 } ∷ record { base = 20; count = 4 } ∷ [];
  listed = refl;
  are_blocks = (
    omega arith,
    (omega arith, refl, λ i l u. ground (arith, l, u)),
    (omega arith, (omega arith, refl, λ i l u. ground (arith, l, u)), tt),
  );
  counted = refl;
}

alloc_example :
    (r : Option ℕ) × (m' : Pmm) × (default_alloc_pages 4 two_blocks ≡ some (r, m'))
    × Served 4 two_blocks r m'
alloc_example = default_alloc_pages-Served 4 two_blocks (omega arith) two_blocks-IsValid

used_between :
    (i : ℕ) → within 13 7 i ≡ true → linked i (10 ∷ 11 ∷ 12 ∷ 20 ∷ 21 ∷ 22 ∷ 23 ∷ []) ≡ false
unfolding linked
used_between i w = ground (arith, w)

-- The seven pages between the blocks join them.
free_example :
    (m' : Pmm) × (default_free_pages 13 7 two_blocks ≡ some m') × Freed 13 7 two_blocks m'
free_example =
    default_free_pages-Freed 13 7 two_blocks (omega arith) two_blocks-IsValid refl used_between
      (λ i l u. ground (arith, l, u))

abbrev three_left : Pmm
three_left = record {
  free_list = 10 ∷ 11 ∷ 12 ∷ [];
  nr_free = 3;
  pages = reserve 20 (reserve 23 (reserve 22 (reserve 21 (reserve 20 memory))));
}

four_taken : default_alloc_pages 4 two_blocks ≡ some (some 20, three_left)
unfolding default_alloc_pages alloc_from take_block unlink leave
four_taken = refl

free-alloc_example :
    (m2 : Pmm) × (default_free_pages 20 4 three_left ≡ some m2) × Restored two_blocks m2
free-alloc_example =
    free-alloc 4 20 two_blocks three_left (omega arith) two_blocks-IsValid four_taken

abbrev all_reserved : Pmm
all_reserved = record {
  free_list = 3 ∷ [];
  nr_free = 9;
  pages = λ i. record { page_reserved = true; page_property = false; property = 5; ref = 2 };
}

-- The size of the block at `p`, and the number of free pages.
abbrev block_at : ℕ → Option Pmm → ℕ × ℕ
block_at p none = (0, 0)
block_at p (some m) = ((m.pages p).property, m.nr_free)

joined : block_at 10 (default_free_pages 13 7 two_blocks) ≡ (14, 14)
unfolding default_free_pages seek rev_onto join_next join_before join_back run
joined = refl
