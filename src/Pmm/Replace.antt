-- ===== src/Pmm/Replace.antt =====
-- Blocks behind others, and their replacement.
use algorithms_prepare.Prelude.{
  ℕ, ◌+◌, ◌≤◌, ◌<◌, ◌≡◌, refl, ap, sym, ◌∙◌, List, [], ◌∷◌, ◌++◌, arith,
}
use algorithms_prepare.Pmm.{Pages, run}
use algorithms_prepare.Pmm.Blocks.{Block, pages_of, IsBlock, AreBlocks}
use algorithms_prepare.Pmm.Take.{append_assoc}

pub pages_of-append : (ds es : List Block) → pages_of (ds ++ es) ≡ pages_of ds ++ pages_of es
unfolding pages_of
pages_of-append [] es = refl
pages_of-append (d ∷ ds) es =
    ap (λ us. run d.base d.count ++ us) (pages_of-append ds es)
    ∙ sym (append_assoc (run d.base d.count) (pages_of ds) (pages_of es))

-- Where the blocks behind `ds` may start.
abbrev pub floor : ℕ → List Block → ℕ
floor low [] = low
floor low (d ∷ ds) = floor (d.base + d.count + 1) ds

pub low-floor :
    (ps : Pages) (low : ℕ) (ds es : List Block) → AreBlocks ps low (ds ++ es) → low ≤ floor low ds
low-floor ps low [] es a = omega arith
low-floor ps low (d ∷ ds) es a = omega (arith, a.0, low-floor ps (d.base + d.count + 1) ds es a.2)

pub AreBlocks-behind :
    (ps : Pages) (low : ℕ) (ds es : List Block)
    → AreBlocks ps low (ds ++ es)
    → AreBlocks ps (floor low ds) es
AreBlocks-behind ps low [] es a = a
AreBlocks-behind ps low (d ∷ ds) es a = AreBlocks-behind ps (d.base + d.count + 1) ds es a.2

pub IsBlock-kept :
    (ps qs : Pages) (b : Block)
    → IsBlock ps b
    → ((i : ℕ) → i < b.base + b.count → qs i ≡ ps i)
    → IsBlock qs b
IsBlock-kept ps qs b k e =
    let same : (i : ℕ) → i < b.base + b.count → (qs i).property ≡ (ps i).property =
      λ i l. ap (λ x. x.property) (e i l) in
    (k.0, same b.base (omega (arith, k.0)) ∙ k.1, λ i l u. same i u ∙ k.2 i l u)

-- The blocks behind may be replaced.
pub AreBlocks-replace :
    (ps qs : Pages) (low : ℕ) (ds es fs : List Block)
    → AreBlocks ps low (ds ++ es)
    → ((i : ℕ) → i < floor low ds → qs i ≡ ps i)
    → AreBlocks qs (floor low ds) fs
    → AreBlocks qs low (ds ++ fs)
AreBlocks-replace ps qs low [] es fs a e b = b
AreBlocks-replace ps qs low (d ∷ ds) es fs a e b =
    let up = low-floor ps (d.base + d.count + 1) ds es a.2 in
    (
      a.0,
      IsBlock-kept ps qs d a.1 (λ i l. e i (omega (arith, l, up))),
      AreBlocks-replace ps qs (d.base + d.count + 1) ds es fs a.2 e b,
    )
