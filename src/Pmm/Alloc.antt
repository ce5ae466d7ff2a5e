-- ===== src/Pmm/Alloc.antt =====
-- `default_alloc_pages`: the first free pages that are enough.
use algorithms_prepare.Prelude.{
  ℕ, ◌+◌, ◌-◌, ◌<◌, ◌≡◌, refl, ap, sym, ◌∙◌, subst, inl, inr, false, List, [], ◌∷◌, Option, none,
  some, ltb, ◌==◌, arith, length, Bool-cases, ltb→lt, lt→ltb,
}
use algorithms_prepare.Sched.{linked}
use algorithms_prepare.Pmm.{Pages, Pmm, reserve, alloc_from, default_alloc_pages, lowered}
use algorithms_prepare.Pmm.Blocks.{Block, pages_of, AreBlocks, AreBlocks-frame, IsValid}
use algorithms_prepare.Pmm.Take.{
  reserve_run, property-reserve_run, reserve_run-outside, alloc_from-exact, rest_of, carved_pages,
  alloc_from-more, alloc_from-pass,
}
use algorithms_prepare.Pmm.Handed.{
  Allocated, nothing_fits, handed, property-carved, more-Handed, exact-Handed, Allocated-pass,
  small-property,
}

-- The outcome for blocks from `low` on.
record Carved (n low : ℕ) (bs : List Block) (ps : Pages) : Type 0 where
  found : Option ℕ
  blocks : List Block
  qs : Pages
  result : alloc_from n (pages_of bs) ps ≡ some (found, pages_of blocks, qs)
  are_blocks : AreBlocks qs low blocks
  below : (i : ℕ) → i < low → qs i ≡ ps i
  allocated : Allocated n (pages_of bs) ps found (pages_of blocks) qs

pass-Carved :
    (n low : ℕ) (b : Block) (bs : List Block) (ps : Pages)
    → 0 < n
    → AreBlocks ps low (b ∷ bs)
    → b.count < n
    → Carved n (b.base + b.count + 1) bs ps
    → Carved n low (b ∷ bs) ps
unfolding pages_of
pass-Carved n low b bs ps z a h c = record {
  found = c.found;
  blocks = b ∷ c.blocks;
  qs = c.qs;
  result =
      alloc_from-pass n b.count b.base (pages_of bs) (pages_of c.blocks) ps c.qs c.found
        (λ i l u. small-property n b ps i a.1 h l u) c.result;
  are_blocks = (
    a.0,
    (
      a.1.0,
      ap (λ x. x.property) (c.below b.base (omega arith)) ∙ a.1.1,
      λ i l u. ap (λ x. x.property) (c.below i (omega (arith, u))) ∙ a.1.2 i l u,
    ),
    c.are_blocks,
  );
  below = λ i l. c.below i (omega (arith, l, a.0));
  allocated = Allocated-pass n low b bs ps c.qs c.found (pages_of c.blocks) a z h c.allocated;
}

exact-Carved :
    (low : ℕ) (b : Block) (bs : List Block) (ps : Pages)
    → AreBlocks ps low (b ∷ bs)
    → Carved b.count low (b ∷ bs) ps
exact-Carved low b bs ps a =
    let qs = reserve_run b.count b.base ps in
    record {
      found = some b.base;
      blocks = bs;
      qs = reserve b.base qs;
      result = alloc_from-exact b bs ps a.1;
      are_blocks =
          AreBlocks-frame ps (reserve b.base qs) (b.base + b.count + 1) low bs a.2
            (omega (arith, a.0))
            (λ i l. let e = property-reserve_run b.count b.base ps i in ground (arith, e));
      below = λ i l.
          let e = reserve_run-outside b.count b.base ps i in
          let low_page : (i == b.base) ≡ false = ground (arith, l, a.0) in
          rw low_page (e (ground (arith, l, a.0)));
      allocated = handed b.base (pages_of bs) (reserve b.base qs) (exact-Handed low b bs ps a);
    }

more-Carved :
    (n low : ℕ) (b : Block) (bs : List Block) (ps : Pages)
    → 0 < n
    → AreBlocks ps low (b ∷ bs)
    → n < b.count
    → Carved n low (b ∷ bs) ps
more-Carved n low b bs ps z a h = record {
  found = some b.base;
  blocks = rest_of n b ∷ bs;
  qs = carved_pages n b ps;
  result = alloc_from-more n b bs ps a.1 h;
  are_blocks = (
    omega (arith, a.0),
    (
      omega (arith, h),
      property-carved n b ps (b.base + n) ∙ ground (arith, a.1.1),
      λ i l u.
          property-carved n b ps i
          ∙ ground (arith, l, a.1.2 i (omega (arith, l)) (omega (arith, u, h))),
    ),
    AreBlocks-frame ps (carved_pages n b ps) (b.base + b.count + 1) (b.base + n + (b.count - n) + 1)
        bs a.2 (omega (arith, h)) (λ i l. property-carved n b ps i ∙ ground (arith, l, h)),
  );
  below = λ i l.
      let e = reserve_run-outside n b.base ps i in
      let low_page : (i == b.base) ≡ false = ground (arith, l, a.0) in
      let low_next : (i == b.base + n) ≡ false = ground (arith, l, a.0) in
      rw (low_page, low_next) (e (ground (arith, l, a.0)));
  allocated =
      handed b.base (pages_of (rest_of n b ∷ bs)) (carved_pages n b ps)
        (more-Handed n low b bs ps z a h);
}

carve :
    (n low : ℕ) (bs : List Block) (ps : Pages) → 0 < n → AreBlocks ps low bs → Carved n low bs ps
unfolding alloc_from pages_of linked
carve n low [] ps z a = record {
  found = none;
  blocks = [];
  qs = ps;
  result = refl;
  are_blocks = tt;
  below = λ i l. refl;
  allocated = nothing_fits λ q. (0, z, refl);
}
carve n low (b ∷ bs) ps z a = elim (Bool-cases (ltb b.count n)) [
  | inl h ↦
      pass-Carved n low b bs ps z a (ltb→lt b.count n h)
        (carve n (b.base + b.count + 1) bs ps z a.2)
  | inr h ↦ elim (Bool-cases (ltb n b.count)) [
    | inl l ↦ more-Carved n low b bs ps z a (ltb→lt n b.count l)
    | inr l ↦
        subst (λ k. Carved k low (b ∷ bs) ps) (ground (arith, h, l)) (exact-Carved low b bs ps a)
  ]
]

-- The outcome of `default_alloc_pages`.
pub record Served (n : ℕ) (m : Pmm) (r : Option ℕ) (m' : Pmm) : Type 0 where
  pub valid : IsValid m'
  pub allocated : Allocated n m.free_list m.pages r m'.free_list m'.pages

-- With fewer than `n` free pages none can be handed out.
too_few :
    (n : ℕ) (xs ys : List ℕ) (ps qs : Pages) (r : Option ℕ)
    → Allocated n xs ps r ys qs
    → length xs < n
    → Allocated n xs ps none xs ps
too_few n xs ys ps qs r (nothing_fits g) h = nothing_fits g
too_few n xs ys ps qs r (handed p us rs k) h = absurd (omega (arith, k.shorter, h))

length-lowered :
    (n : ℕ) (xs ys : List ℕ) (ps qs : Pages) (r : Option ℕ)
    → Allocated n xs ps r ys qs
    → lowered r (length xs) n ≡ length ys
length-lowered n xs ys ps qs r (nothing_fits g) = refl
length-lowered n xs ys ps qs r (handed p us rs k) = omega (arith, k.shorter)

serve :
    (n nr : ℕ) (bs : List Block) (ps : Pages)
    → 0 < n
    → AreBlocks ps 0 bs
    → nr ≡ length (pages_of bs)
    → (r : Option ℕ) × (m' : Pmm) × (default_alloc_pages n
          (record { free_list = pages_of bs; nr_free = nr; pages = ps })
        ≡ some (r, m'))
      × Served n (record { free_list = pages_of bs; nr_free = nr; pages = ps }) r m'
unfolding default_alloc_pages
serve n nr bs ps z a e =
    let c = carve n 0 bs ps z a in
    elim (Bool-cases (ltb nr n)) [
      | inl h ↦ (
        none,
        record { free_list = pages_of bs; nr_free = nr; pages = ps },
        rw (lt→ltb 0 n z, h) refl,
        record {
          valid = record { blocks = bs; listed = refl; are_blocks = a; counted = e };
          allocated =
              too_few n (pages_of bs) (pages_of c.blocks) ps c.qs c.found c.allocated
                (ground (arith, h, e));
        },
      )
      | inr h ↦ (
        c.found,
        record { free_list = pages_of c.blocks; nr_free = lowered c.found nr n; pages = c.qs },
        rw (lt→ltb 0 n z, h, c.result) refl,
        record {
          valid = record {
            blocks = c.blocks;
            listed = refl;
            are_blocks = c.are_blocks;
            counted =
                ap (λ k. lowered c.found k n) e
                ∙ length-lowered n (pages_of bs) (pages_of c.blocks) ps c.qs c.found c.allocated;
          };
          allocated = c.allocated;
        },
      )
    ]

-- In a valid allocator `default_alloc_pages` of a positive count fails no assert, leaves it valid
-- and hands out the first run of as many free pages, wherever there is one: these pages, and no
-- others, leave the free list, they are reserved, and no other used page changes. Without such a
-- run it returns NULL and changes nothing.
pub default_alloc_pages-Served :
    (n : ℕ) (m : Pmm)
    → 0 < n
    → IsValid m
    → (r : Option ℕ) × (m' : Pmm) × (default_alloc_pages n m ≡ some (r, m')) × Served n m r m'
default_alloc_pages-Served n m z v =
    subst
      (λ xs.
        let k : Pmm = record { free_list = xs; nr_free = m.nr_free; pages = m.pages } in
        (r : Option ℕ) × (m' : Pmm) × (default_alloc_pages n k ≡ some (r, m')) × Served n k r m')
      (sym v.listed)
      (serve n m.nr_free v.blocks m.pages z v.are_blocks (v.counted ∙ ap length v.listed))
