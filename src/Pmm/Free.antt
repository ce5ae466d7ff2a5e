-- ===== src/Pmm/Free.antt =====
-- `default_free_pages`: a run of used pages goes back to the list, in the order of the pages.
use algorithms_prepare.Prelude.{
  ℕ, ◌+◌, ◌<◌, ◌≡◌, refl, ap, sym, ◌∙◌, subst, inl, inr, true, false, ◌||◌, List, [], ◌∷◌, ◌++◌,
  some, ltb, arith, length, length-append, Bool-cases, lt→ltb,
}
use algorithms_prepare.Sched.{linked}
use algorithms_prepare.Pmm.{
  Pages, Pmm, run, seek, rev_onto, free_base, join_next, join_before, default_free_pages,
}
use algorithms_prepare.Pmm.Blocks.{
  Block, pages_of, AreBlocks, within, length-run, linked-block, IsValid,
}
use algorithms_prepare.Pmm.Seek.{linked-rev_onto, length-rev_onto, split}
use algorithms_prepare.Pmm.Merge.{join-Merged}

-- The outcome of giving `n` pages from `base` on back.
pub record Freed (base n : ℕ) (m m' : Pmm) : Type 0 where
  pub valid : IsValid m'
  pub listed : (i : ℕ) → linked i m'.free_list ≡ (linked i m.free_list || within base n i)
  pub counted : m'.nr_free ≡ m.nr_free + n
  pub others :
      (i : ℕ) → linked i m.free_list ≡ false → within base n i ≡ false → m'.pages i ≡ m.pages i

-- What stands in the list after the loop that seeks and the one that inserts.
inserted :
    (base n : ℕ) (seen xs : List ℕ) (i : ℕ)
    → linked i (rev_onto (seek base seen xs).0 (run base n ++ (seek base seen xs).1))
      ≡ (linked i seen || linked i xs || within base n i)
unfolding seek rev_onto linked
inserted base n seen [] i =
    linked-rev_onto i seen (run base n ++ []) ∙ ground (arith, linked-block i base n [])
inserted base n seen (x ∷ xs) i = elim (Bool-cases (ltb base x)) [
  | inl h ↦ rw h (
      linked-rev_onto i seen (run base n ++ x ∷ xs)
      ∙ ground (arith, linked-block i base n (x ∷ xs)))
  | inr h ↦ rw h (inserted base n (x ∷ seen) xs i ∙ ground arith)
]

inserted_length :
    (base n : ℕ) (seen xs : List ℕ)
    → length (rev_onto (seek base seen xs).0 (run base n ++ (seek base seen xs).1))
      ≡ length seen + length xs + n
unfolding seek rev_onto
inserted_length base n seen [] =
    length-rev_onto seen (run base n ++ [])
    ∙ omega (arith, length-append (run base n) [], length-run base n)
inserted_length base n seen (x ∷ xs) = elim (Bool-cases (ltb base x)) [
  | inl h ↦ rw h (
      length-rev_onto seen (run base n ++ x ∷ xs)
      ∙ omega (arith, length-append (run base n) (x ∷ xs), length-run base n))
  | inr h ↦ rw h (inserted_length base n (x ∷ seen) xs ∙ omega arith)
]

give_back :
    (base n nr : ℕ) (bs : List Block) (ps : Pages)
    → 0 < n
    → AreBlocks ps 0 bs
    → nr ≡ length (pages_of bs)
    → (ps base).page_reserved ≡ true
    → ((i : ℕ) → within base n i ≡ true → linked i (pages_of bs) ≡ false)
    → ((i : ℕ) → base < i → i < base + n → (ps i).property ≡ 0)
    → (m' : Pmm) × (default_free_pages base n
          (record { free_list = pages_of bs; nr_free = nr; pages = ps })
        ≡ some m')
      × Freed base n (record { free_list = pages_of bs; nr_free = nr; pages = ps }) m'
unfolding default_free_pages linked
give_back base n nr bs ps z a e r f t =
    let s = split base n 0 [] bs ps z a f in
    let whole = subst (λ us. AreBlocks ps 0 us) s.whole a in
    let g = join-Merged base n s.before s.last s.behind ps z t whole s.last_clear s.next_clear in
    let found = seek base [] (pages_of bs) in
    let qs = join_before base found.0 (join_next base n found.1 (free_base base n ps)) in
    (
      record { free_list = rev_onto found.0 (run base n ++ found.1); nr_free = nr + n; pages = qs },
      rw (lt→ltb 0 n z, r) refl,
      record {
        valid = record {
          blocks = g.blocks;
          listed = ap (λ u. rev_onto u.0 (run base n ++ u.1)) s.sought ∙ g.listed;
          are_blocks =
              subst
                (λ u.
                  AreBlocks (join_before base u.0 (join_next base n u.1 (free_base base n ps))) 0
                    g.blocks)
                (sym s.sought) g.are_blocks;
          counted = omega (arith, e, inserted_length base n [] (pages_of bs));
        };
        listed = λ i. inserted base n [] (pages_of bs) i;
        counted = refl;
        others = λ i l w.
            ap (λ u. join_before base u.0 (join_next base n u.1 (free_base base n ps)) i) s.sought
            ∙ g.others i w (ap (λ us. linked i (pages_of us)) (sym s.whole) ∙ l);
      },
    )

-- In a valid allocator `default_free_pages` of a positive count of used pages, the first of them
-- reserved and the others of no size, fails no assert: just these pages join the free list and are
-- counted, no other used page changes, and the allocator stays valid, so that the freed block is
-- one with the blocks that it touches.
pub default_free_pages-Freed :
    (base n : ℕ) (m : Pmm)
    → 0 < n
    → IsValid m
    → (m.pages base).page_reserved ≡ true
    → ((i : ℕ) → within base n i ≡ true → linked i m.free_list ≡ false)
    → ((i : ℕ) → base < i → i < base + n → (m.pages i).property ≡ 0)
    → (m' : Pmm) × (default_free_pages base n m ≡ some m') × Freed base n m m'
default_free_pages-Freed base n m z v r f t =
    subst
      (λ xs.
        let k : Pmm = record { free_list = xs; nr_free = m.nr_free; pages = m.pages } in
        (m' : Pmm) × (default_free_pages base n k ≡ some m') × Freed base n k m')
      (sym v.listed)
      (give_back base n m.nr_free v.blocks m.pages z v.are_blocks (v.counted ∙ ap length v.listed) r
        (λ i w. ap (linked i) (sym v.listed) ∙ f i w) t)
