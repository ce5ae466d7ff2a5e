-- ===== src/Pmm/Handed.antt =====
-- What `default_alloc_pages` hands out of a block, and the blocks it passes.
use algorithms_prepare.Prelude.{
  ℕ, ◌+◌, ◌-◌, ◌≤◌, ◌<◌, ◌≡◌, ap, sym, ◌∙◌, subst, inl, inr, true, false, not, ◌&&◌, List, ◌∷◌,
  ◌++◌, Option, none, some, if◌then◌else◌, ltb, ◌==◌, arith, length, length-append, Bool-cases,
  ltb→lt,
}
use algorithms_prepare.Sched.{linked}
use algorithms_prepare.Pmm.{Pages, run, reserve}
use algorithms_prepare.Pmm.Blocks.{
  Block, pages_of, IsBlock, AreBlocks, within, length-run, linked-block, linked-pages_of,
  linked_below,
}
use algorithms_prepare.Pmm.Take.{
  reserve_run, property-reserve_run, reserved-reserve_run, reserve_run-outside, rest_of,
  split_block, carved_pages,
}

-- What `default_alloc_pages` does to the list and the pages where it hands out `n` pages from `p` on:
-- they were free and are free no more, they are reserved, and all but the first hold no size, so that
-- they can be given back; no other page that was used changes, and no page before `p` starts `n` free ones.
pub record Handed (n : ℕ) (xs : List ℕ) (ps : Pages) (p : ℕ) (ys : List ℕ) (qs : Pages)
    : Type 0 where
  pub free : (i : ℕ) → within p n i ≡ true → linked i xs ≡ true
  pub left : (i : ℕ) → linked i ys ≡ (linked i xs && not (within p n i))
  pub shorter : length xs ≡ length ys + n
  pub marked : (i : ℕ) → within p n i ≡ true → (qs i).page_reserved ≡ true
  pub tails : (i : ℕ) → p < i → i < p + n → (qs i).property ≡ 0
  pub others : (i : ℕ) → linked i xs ≡ false → qs i ≡ ps i
  pub is_first : (q : ℕ) → q < p → (i : ℕ) × (i < n) × (linked (q + i) xs ≡ false)

-- The outcome: without `n` free pages in a row nothing changes.
pub data Allocated (n : ℕ) (xs : List ℕ) (ps : Pages) : Option ℕ → List ℕ → Pages → Type 0 where
  nothing_fits :
      ((q : ℕ) → (i : ℕ) × (i < n) × (linked (q + i) xs ≡ false)) → Allocated n xs ps none xs ps
  handed :
      (p : ℕ) (ys : List ℕ) (qs : Pages) → Handed n xs ps p ys qs → Allocated n xs ps (some p) ys qs

pub start_used :
    (n low q : ℕ) (ps : Pages) (bs : List Block)
    → 0 < n
    → AreBlocks ps low bs
    → q < low
    → (i : ℕ) × (i < n) × (linked (q + i) (pages_of bs) ≡ false)
start_used n low q ps bs p a h = (0, p, linked_below ps low (q + 0) bs a (omega (arith, h)))

pub property-carved :
    (n : ℕ) (b : Block) (ps : Pages) (i : ℕ)
    → (carved_pages n b ps i).property
      ≡ (if i == b.base + n then (ps b.base).property - n else (ps i).property)
property-carved n b ps i =
    let e = property-reserve_run n b.base ps i in
    let f = property-reserve_run n b.base ps b.base in ground (arith, e, f)

pub more-Handed :
    (n low : ℕ) (b : Block) (bs : List Block) (ps : Pages)
    → 0 < n
    → AreBlocks ps low (b ∷ bs)
    → n < b.count
    → Handed n (pages_of (b ∷ bs)) ps b.base (pages_of (rest_of n b ∷ bs)) (carved_pages n b ps)
more-Handed n low b bs ps p a h = record {
  free = λ i w. ground (arith, w, h, linked-pages_of i b bs);
  left = λ i.
      let whole = linked-pages_of i b bs in
      let part = linked-pages_of i (rest_of n b) bs in
      let gap = linked_below ps (b.base + b.count + 1) i bs a.2 in
      ground (arith, whole, part, gap, h);
  shorter =
      ap length (split_block n b bs (omega (arith, h)))
      ∙ length-append (run b.base n) (pages_of (rest_of n b ∷ bs))
      ∙ omega (arith, length-run b.base n);
  marked = λ i w. let k = reserved-reserve_run n b.base ps i w in ground (arith, w, k);
  tails = λ i l u. property-carved n b ps i ∙ ground (arith, a.1.2 i l, l, u, h);
  others = λ i f.
      let o = reserve_run-outside n b.base ps i in
      let out : within b.base b.count i ≡ false = ground (arith, linked-pages_of i b bs, f) in
      let not_first : (i == b.base) ≡ false = ground (arith, out, h) in
      let not_next : (i == b.base + n) ≡ false = ground (arith, out, h) in
      rw (not_first, not_next) (o (ground (arith, out, h)));
  is_first = λ q l. start_used n b.base q ps (b ∷ bs) p (omega arith, a.1, a.2) l;
}

pub exact-Handed :
    (low : ℕ) (b : Block) (bs : List Block) (ps : Pages)
    → AreBlocks ps low (b ∷ bs)
    → Handed b.count
        (pages_of (b ∷ bs))
        ps
        b.base
        (pages_of bs)
        (reserve b.base (reserve_run b.count b.base ps))
unfolding pages_of
exact-Handed low b bs ps a = record {
  free = λ i w. ground (arith, w, linked-pages_of i b bs);
  left = λ i.
      let whole = linked-pages_of i b bs in
      let gap = linked_below ps (b.base + b.count + 1) i bs a.2 in ground (arith, whole, gap);
  shorter =
      length-append (run b.base b.count) (pages_of bs) ∙ omega (arith, length-run b.base b.count);
  marked = λ i w. let k = reserved-reserve_run b.count b.base ps i w in ground (arith, w, k);
  tails =
      λ i l u. let e = property-reserve_run b.count b.base ps i in ground (arith, e, a.1.2 i l u);
  others = λ i f.
      let o = reserve_run-outside b.count b.base ps i in
      let out : within b.base b.count i ≡ false = ground (arith, linked-pages_of i b bs, f) in
      let not_first : (i == b.base) ≡ false = ground (arith, out, a.1.0) in rw not_first (o out);
  is_first = λ q l. start_used b.count b.base q ps (b ∷ bs) a.1.0 (omega arith, a.1, a.2) l;
}

-- A block that is too small goes in front of the outcome for the blocks behind it.
pub start_used-pass :
    (n low : ℕ) (b : Block) (bs : List Block) (ps : Pages) (q : ℕ)
    → AreBlocks ps low (b ∷ bs)
    → b.count < n
    → ((i : ℕ) × (i < n) × (linked (q + i) (pages_of bs) ≡ false))
    → (i : ℕ) × (i < n) × (linked (q + i) (pages_of (b ∷ bs)) ≡ false)
start_used-pass n low b bs ps q a h (i, l, f) = elim (Bool-cases (ltb q (b.base + b.count))) [
  | inr past ↦ (i, l, ground (arith, linked-pages_of (q + i) b bs, f, past))
  | inl k ↦ elim (Bool-cases (ltb q b.base)) [
    | inl before ↦
        start_used n b.base q ps (b ∷ bs) (omega (arith, h)) (omega arith, a.1, a.2)
          (ltb→lt q b.base before)
    | inr in_block ↦ (
      b.base + b.count - q,
      ground (arith, k, in_block, h),
      ground (
        arith,
        k,
        in_block,
        linked-pages_of (q + (b.base + b.count - q)) b bs,
        linked_below ps (b.base + b.count + 1) (q + (b.base + b.count - q)) bs a.2,
      ),
    )
  ]
]

pub Handed-pass :
    (n low : ℕ) (b : Block) (bs : List Block) (ys : List ℕ) (ps qs : Pages) (p : ℕ)
    → AreBlocks ps low (b ∷ bs)
    → 0 < n
    → b.count < n
    → Handed n (pages_of bs) ps p ys qs
    → Handed n (pages_of (b ∷ bs)) ps p (run b.base b.count ++ ys) qs
unfolding pages_of
Handed-pass n low b bs ys ps qs p a z h k = record {
  free = λ i w. ground (arith, linked-pages_of i b bs, k.free i w);
  left = λ i.
      let below = linked_below ps (b.base + b.count + 1) i bs a.2 in
      ground (
        arith,
        linked-pages_of i b bs,
        linked-block i b.base b.count ys,
        k.left i,
        k.free i,
        below,
      );
  shorter =
      length-append (run b.base b.count) (pages_of bs)
      ∙ omega (arith, k.shorter, length-append (run b.base b.count) ys);
  marked = k.marked;
  tails = k.tails;
  others = λ i f. k.others i (ground (arith, linked-pages_of i b bs, f));
  is_first = λ q l. start_used-pass n low b bs ps q a h (k.is_first q l);
}

pub Allocated-pass :
    (n low : ℕ) (b : Block) (bs : List Block) (ps qs : Pages) (r : Option ℕ) (ys : List ℕ)
    → AreBlocks ps low (b ∷ bs)
    → 0 < n
    → b.count < n
    → Allocated n (pages_of bs) ps r ys qs
    → Allocated n (pages_of (b ∷ bs)) ps r (run b.base b.count ++ ys) qs
unfolding pages_of
Allocated-pass n low b bs ps qs r ys a z h (nothing_fits g) =
    nothing_fits λ q. start_used-pass n low b bs ps q a h (g q)
Allocated-pass n low b bs ps qs r ys a z h (handed p us rs k) =
    handed p (run b.base b.count ++ us) rs (Handed-pass n low b bs us ps rs p a z h k)

pub small-property :
    (n : ℕ) (b : Block) (ps : Pages) (i : ℕ)
    → IsBlock ps b
    → b.count < n
    → b.base ≤ i
    → i < b.base + b.count
    → (ps i).property < n
small-property n b ps i k h l u = elim (Bool-cases (i == b.base)) [
  | inl e ↦
      let at : i ≡ b.base = ground (arith, e) in
      subst (λ m. m < n) (sym (ap (λ j. (ps j).property) at ∙ k.1)) h
  | inr e ↦ let zero_there = k.2 i (ground (arith, e, l)) u in omega (arith, zero_there, h)
]
