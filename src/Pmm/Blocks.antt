-- ===== src/Pmm/Blocks.antt =====
-- The free list as a sequence of blocks.
use algorithms_prepare.Prelude.{
  ℕ, zero, suc, ◌+◌, ◌≤◌, ◌<◌, ◌≡◌, refl, ap, ◌∙◌, Bool, false, ◌&&◌, ◌||◌, List, [], ◌∷◌, ◌++◌,
  ltb, leb, arith, length,
}
use algorithms_prepare.Sched.{linked}
use algorithms_prepare.Sched.Queue.{linked-append}
use algorithms_prepare.Pmm.{Pages, Pmm, run}

pub record Block : Type 0 where
  pub base : ℕ
  pub count : ℕ

unfoldable pub pages_of : List Block → List ℕ
unfolding run
pages_of [] = []
pages_of (b ∷ bs) = run b.base b.count ++ pages_of bs

-- The first page of a block holds the block's size, the others hold zero.
abbrev pub IsBlock : Pages → Block → Type 0
IsBlock ps b =
    (0 < b.count)
    × ((ps b.base).property ≡ b.count)
    × ((i : ℕ) → b.base < i → i < b.base + b.count → (ps i).property ≡ 0)

-- Blocks in order, none below `low`, with a page between two of them.
abbrev pub AreBlocks : Pages → ℕ → List Block → Type 0
AreBlocks ps low [] = Unit
AreBlocks ps low (b ∷ bs) = (low ≤ b.base) × IsBlock ps b × AreBlocks ps (b.base + b.count + 1) bs

abbrev pub within : ℕ → ℕ → ℕ → Bool
within p n i = leb p i && ltb i (p + n)

pub linked-run : (i p n : ℕ) → linked i (run p n) ≡ within p n i
unfolding linked run
linked-run i p zero = ground arith
linked-run i p (suc n) = ground (arith, linked-run i (p + 1) n)

pub length-run : (p n : ℕ) → length (run p n) ≡ n
unfolding run
length-run p zero = refl
length-run p (suc n) = omega (arith, length-run (p + 1) n)

pub linked-block :
    (i p n : ℕ) (xs : List ℕ) → linked i (run p n ++ xs) ≡ (within p n i || linked i xs)
linked-block i p n xs = linked-append i (run p n) xs ∙ ap (λ x. x || linked i xs) (linked-run i p n)

pub linked-pages_of :
    (i : ℕ) (b : Block) (bs : List Block)
    → linked i (pages_of (b ∷ bs)) ≡ (within b.base b.count i || linked i (pages_of bs))
unfolding pages_of
linked-pages_of i b bs = linked-block i b.base b.count (pages_of bs)

-- No page below the blocks is in them.
pub linked_below :
    (ps : Pages) (low i : ℕ) (bs : List Block)
    → AreBlocks ps low bs
    → i < low
    → linked i (pages_of bs) ≡ false
unfolding pages_of linked
linked_below ps low i [] a h = refl
linked_below ps low i (b ∷ bs) a h =
    ground (arith, linked-pages_of i b bs, a.0, h, linked_below ps (b.base + b.count + 1) i bs a.2)

-- Other pages' properties, and a lower bound, do not matter.
pub AreBlocks-frame :
    (ps qs : Pages) (low low' : ℕ) (bs : List Block)
    → AreBlocks ps low bs
    → low' ≤ low
    → ((i : ℕ) → low ≤ i → (qs i).property ≡ (ps i).property)
    → AreBlocks qs low' bs
AreBlocks-frame ps qs low low' [] a h e = tt
AreBlocks-frame ps qs low low' (b ∷ bs) a h e = (
  omega (arith, h, a.0),
  (a.1.0, e b.base a.0 ∙ a.1.1, λ i l u. e i (omega (arith, a.0, l)) ∙ a.1.2 i l u),
  AreBlocks-frame ps qs (b.base + b.count + 1) (b.base + b.count + 1) bs a.2 (omega arith)
      (λ i l. e i (omega (arith, a.0, l))),
)

-- The allocator's invariant: the list is made of blocks, and counted.
pub record IsValid (m : Pmm) : Type 0 where
  pub blocks : List Block
  pub listed : m.free_list ≡ pages_of blocks
  pub are_blocks : AreBlocks m.pages 0 blocks
  pub counted : m.nr_free ≡ length m.free_list
