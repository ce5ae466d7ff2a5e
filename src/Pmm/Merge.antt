-- ===== src/Pmm/Merge.antt =====
-- The freed block among the others: what `default_free_pages` makes of the blocks around it.
use algorithms_prepare.Prelude.{
  ℕ, ◌+◌, ◌<◌, ◌≡◌, refl, ap, sym, ◌∙◌, subst, inl, inr, false, List, [], ◌∷◌, ◌++◌, Option, none,
  some, if◌then◌else◌, ◌==◌, arith, Bool-cases,
}
use algorithms_prepare.Sched.{linked}
use algorithms_prepare.Sched.Queue.{linked-append}
use algorithms_prepare.Pmm.{Pages, run, rev_onto, free_base, join_next, join_before}
use algorithms_prepare.Pmm.Blocks.{
  Block, pages_of, IsBlock, AreBlocks, within, linked-pages_of, AreBlocks-frame,
}
use algorithms_prepare.Pmm.Take.{append_assoc, run_same, run-split}
use algorithms_prepare.Pmm.Seek.{
  rev_onto-append, rev_onto-rev_onto, from_last, LastClear, NextClear,
}
use algorithms_prepare.Pmm.Join.{
  NextJoined, next-NextJoined, join_before-gap, absorbed, join_before-touched,
}
use algorithms_prepare.Pmm.Replace.{
  pages_of-append, floor, AreBlocks-behind, IsBlock-kept, AreBlocks-replace,
}

-- The pages as `default_free_pages` leaves them, with the blocks `ds`, `o` and `es` there before.
abbrev pub seen_pages : List Block → Option Block → List ℕ
seen_pages ds o = rev_onto (pages_of (ds ++ from_last o [])) []

abbrev pub final_pages : ℕ → ℕ → List Block → Option Block → List Block → Pages → Pages
final_pages base n ds o es ps =
    join_before base (seen_pages ds o) (join_next base n (pages_of es) (free_base base n ps))

pub record Merged (base n : ℕ) (ds : List Block) (o : Option Block) (es : List Block)
    (ps qs : Pages) : Type 0 where
  pub blocks : List Block
  pub listed : rev_onto (seen_pages ds o) (run base n ++ pages_of es) ≡ pages_of blocks
  pub are_blocks : AreBlocks qs 0 blocks
  pub others :
      (i : ℕ)
      → within base n i ≡ false
      → linked i (pages_of (ds ++ from_last o es)) ≡ false
      → qs i ≡ ps i

pub none-Merged :
    (base n : ℕ) (ds es : List Block) (ps : Pages)
    → ds ≡ []
    → NextJoined base n es ps (join_next base n (pages_of es) (free_base base n ps))
    → Merged base n ds none es ps (final_pages base n ds none es ps)
unfolding pages_of rev_onto join_before
none-Merged base n ds es ps c j =
    subst (λ us. Merged base n us none es ps (final_pages base n us none es ps)) (sym c)
      (record {
        blocks = record { base = base; count = j.count } ∷ j.rest;
        listed = j.listed;
        are_blocks = (omega arith, j.is_block, j.are_blocks);
        others = j.others;
      })

pub seen-last :
    (ds : List Block) (b : Block)
    → seen_pages ds (some b) ≡ rev_onto (run b.base b.count) (rev_onto (pages_of ds) [])
unfolding pages_of rev_onto
seen-last ds b =
    ap (λ us. rev_onto us []) (pages_of-append ds (b ∷ []))
    ∙ rev_onto-append (pages_of ds) (run b.base b.count ++ []) []
    ∙ rev_onto-append (run b.base b.count) [] (rev_onto (pages_of ds) [])

pub list-last :
    (ds : List Block) (b : Block) (zs : List ℕ)
    → rev_onto (seen_pages ds (some b)) zs ≡ pages_of ds ++ (run b.base b.count ++ zs)
unfolding pages_of rev_onto
list-last ds b zs =
    rev_onto-rev_onto (pages_of (ds ++ b ∷ [])) [] zs
    ∙ ap (λ us. us ++ zs) (pages_of-append ds (b ∷ []))
    ∙ append_assoc (pages_of ds) (run b.base b.count ++ []) zs
    ∙ ap (λ us. pages_of ds ++ us) (append_assoc (run b.base b.count) [] zs)

pub used_behind :
    (i : ℕ) (ds : List Block) (b : Block) (es : List Block)
    → linked i (pages_of (ds ++ b ∷ es)) ≡ false
    → (within b.base b.count i ≡ false) × (linked i (pages_of es) ≡ false)
used_behind i ds b es f =
    let e = ap (linked i) (pages_of-append ds (b ∷ es)) in
    let g = linked-append i (pages_of ds) (pages_of (b ∷ es)) in
    let h = linked-pages_of i b es in (ground (arith, e, f, g, h), ground (arith, e, f, g, h))

pub gap-Merged :
    (base n : ℕ) (ds es : List Block) (b : Block) (ps qs : Pages)
    → AreBlocks ps 0 (ds ++ b ∷ es)
    → b.base + b.count < base
    → NextJoined base n es ps qs
    → Merged base n ds (some b) es ps qs
unfolding pages_of
gap-Merged base n ds es b ps qs a h j =
    let k = AreBlocks-behind ps 0 ds (b ∷ es) a in
    let block : Block = record { base = base; count = j.count } in
    record {
      blocks = ds ++ b ∷ block ∷ j.rest;
      listed =
          list-last ds b (run base n ++ pages_of es)
          ∙ ap (λ us. pages_of ds ++ (run b.base b.count ++ us)) j.listed
          ∙ sym (pages_of-append ds (b ∷ block ∷ j.rest));
      are_blocks =
          AreBlocks-replace ps qs 0 ds (b ∷ es) (b ∷ block ∷ j.rest) a
            (λ i l. j.below i (omega (arith, l, k.0, h)))
            (
              k.0,
              IsBlock-kept ps qs b k.1 (λ i l. j.below i (omega (arith, l, h))),
              (omega (arith, h), j.is_block, j.are_blocks),
            );
      others = λ i w f. j.others i w (used_behind i ds b es f).1;
    }

pub property-absorbed :
    (base p i : ℕ) (ps : Pages)
    → (absorbed base p ps i).property ≡ (
        if i == base
        then 0
        else if i == p
        then (ps p).property + (ps base).property
        else (ps i).property)
property-absorbed base p i ps = ground arith

pub touched-Merged :
    (base n : ℕ) (ds es : List Block) (b : Block) (ps qs : Pages)
    → 0 < n
    → AreBlocks ps 0 (ds ++ b ∷ es)
    → b.base + b.count ≡ base
    → NextJoined base n es ps qs
    → Merged base n ds (some b) es ps (absorbed base b.base qs)
unfolding pages_of
touched-Merged base n ds es b ps qs z a h j =
    let k = AreBlocks-behind ps 0 ds (b ∷ es) a in
    let same : (i : ℕ) → i < base → (qs i).property ≡ (ps i).property =
      λ i l. ap (λ x. x.property) (j.below i l) in
    let whole : Block = record { base = b.base; count = b.count + j.count } in
    let size = same b.base (omega (arith, h, k.1.0)) in
    record {
      blocks = ds ++ whole ∷ j.rest;
      listed =
          list-last ds b (run base n ++ pages_of es)
          ∙ ap (λ us. pages_of ds ++ (run b.base b.count ++ us)) j.listed
          ∙ ap (λ us. pages_of ds ++ us)
              (sym (append_assoc (run b.base b.count) (run base j.count) (pages_of j.rest))
                ∙ ap (λ us. us ++ pages_of j.rest)
                    (ap (λ us. run b.base b.count ++ us)
                        (run_same base (b.base + b.count) j.count j.count (sym h) refl)
                      ∙ sym (run-split b.base b.count j.count)))
          ∙ sym (pages_of-append ds (whole ∷ j.rest));
      are_blocks =
          AreBlocks-replace ps (absorbed base b.base qs) 0 ds (b ∷ es) (whole ∷ j.rest) a
            (λ i l.
              let off : (i == base) ≡ false = ground (arith, l, k.0, h, k.1.0) in
              let off2 : (i == b.base) ≡ false = ground (arith, l, k.0) in
              rw (off, off2) (j.below i (omega (arith, l, k.0, h))))
            (
              k.0,
              (
                omega (arith, k.1.0),
                ground (arith, h, k.1.0, k.1.1, size, j.is_block.1),
                λ i l u.
                    property-absorbed base b.base i qs
                    ∙ ground (arith, l, u, h, k.1.2 i l, same i, j.is_block.2 i),
              ),
              AreBlocks-frame qs (absorbed base b.base qs) (base + j.count + 1)
                  (b.base + (b.count + j.count) + 1) j.rest j.are_blocks (omega (arith, h))
                  (λ i l. ground (arith, l, h, k.1.0)),
            );
      others = λ i w f.
          let out = used_behind i ds b es f in
          let off : (i == base) ≡ false = ground (arith, w, z) in
          let off2 : (i == b.base) ≡ false = ground (arith, out.0, k.1.0) in
          rw (off, off2) (j.others i w out.1);
    }

pub join-Merged :
    (base n : ℕ) (ds : List Block) (o : Option Block) (es : List Block) (ps : Pages)
    → 0 < n
    → ((i : ℕ) → base < i → i < base + n → (ps i).property ≡ 0)
    → AreBlocks ps 0 (ds ++ from_last o es)
    → LastClear base o ds
    → NextClear (base + n) es
    → Merged base n ds o es ps (final_pages base n ds o es ps)
join-Merged base n ds none es ps z t a c k =
    let b = AreBlocks-behind ps 0 ds es a in
    none-Merged base n ds es ps c (next-NextJoined base n (floor 0 ds) es ps z t b k)
join-Merged base n ds (some b) es ps z t a c k =
    let rs = AreBlocks-behind ps 0 ds (b ∷ es) a in
    let qs = join_next base n (pages_of es) (free_base base n ps) in
    let xs = rev_onto (pages_of ds) [] in
    let j = next-NextJoined base n (b.base + b.count + 1) es ps z t rs.2 k in
    let kept : IsBlock qs b = IsBlock-kept ps qs b rs.1 (λ i l. j.below i (omega (arith, l, c))) in
    elim (Bool-cases (b.base + b.count == base)) [
      | inl h ↦
          let at : b.base + b.count ≡ base = ground (arith, h) in
          subst (λ us. Merged base n ds (some b) es ps us)
            (sym (
              ap (λ us. join_before base us qs) (seen-last ds b)
              ∙ join_before-touched base b xs qs kept at))
            (touched-Merged base n ds es b ps qs z a at j)
      | inr h ↦
          let gap : b.base + b.count < base = ground (arith, h, c) in
          subst (λ us. Merged base n ds (some b) es ps us)
            (sym (
              ap (λ us. join_before base us qs) (seen-last ds b)
              ∙ join_before-gap base b xs qs rs.1.0 gap))
            (gap-Merged base n ds es b ps qs a gap j)
    ]
