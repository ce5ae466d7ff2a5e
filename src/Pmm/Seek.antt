-- ===== src/Pmm/Seek.antt =====
-- The first loop of `default_free_pages`: the place of the freed pages among the blocks.
use algorithms_prepare.Prelude.{
  ℕ, zero, suc, ◌+◌, ◌-◌, ◌≤◌, ◌<◌, ◌≡◌, refl, ap, sym, ◌∙◌, inl, inr, true, false, ◌||◌, List, [],
  ◌∷◌, ◌++◌, Option, none, some, ltb, arith, length, Bool-cases, ltb→lt, lt→ltb, ltb-false,
}
use algorithms_prepare.Sched.{linked}
use algorithms_prepare.Pmm.{Pages, run, seek, rev_onto}
use algorithms_prepare.Pmm.Blocks.{Block, pages_of, AreBlocks, within, linked-pages_of}
use algorithms_prepare.Pmm.Take.{block-cons}

pub linked-rev_onto :
    (i : ℕ) (xs ys : List ℕ) → linked i (rev_onto xs ys) ≡ (linked i xs || linked i ys)
unfolding linked rev_onto
linked-rev_onto i [] ys = refl
linked-rev_onto i (x ∷ xs) ys = ground (arith, linked-rev_onto i xs (x ∷ ys))

pub length-rev_onto : (xs ys : List ℕ) → length (rev_onto xs ys) ≡ length xs + length ys
unfolding rev_onto
length-rev_onto [] ys = omega arith
length-rev_onto (x ∷ xs) ys = omega (arith, length-rev_onto xs (x ∷ ys))

pub rev_onto-append : (xs ys zs : List ℕ) → rev_onto (xs ++ ys) zs ≡ rev_onto ys (rev_onto xs zs)
unfolding rev_onto
rev_onto-append [] ys zs = refl
rev_onto-append (x ∷ xs) ys zs = rev_onto-append xs ys (x ∷ zs)

pub rev_onto-rev_onto : (xs ys zs : List ℕ) → rev_onto (rev_onto xs ys) zs ≡ rev_onto ys (xs ++ zs)
unfolding rev_onto
rev_onto-rev_onto [] ys zs = refl
rev_onto-rev_onto (x ∷ xs) ys zs = rev_onto-rev_onto xs (x ∷ ys) zs

-- Pages up to `base` are passed.
seek-pass :
    (base p k : ℕ) (seen xs : List ℕ)
    → p + k ≤ base + 1
    → seek base seen (run p k ++ xs) ≡ seek base (rev_onto (run p k) seen) xs
unfolding seek run rev_onto
seek-pass base p zero seen xs h = refl
seek-pass base p (suc k) seen xs h =
    rw (ltb-false base p (omega (arith, h)))
      (seek-pass base (p + 1) k (p ∷ seen) xs (omega (arith, h)))

-- The block before the place, if any, and the blocks behind it.
abbrev pub from_last : Option Block → List Block → List Block
from_last none es = es
from_last (some b) es = b ∷ es

-- The last block before ends at `base` at the latest, the first one behind starts at `base + n` at the
-- earliest; with none before there are no others either.
abbrev pub LastClear : ℕ → Option Block → List Block → Type 0
LastClear base none ds = ds ≡ []
LastClear base (some b) ds = b.base + b.count ≤ base

abbrev pub NextClear : ℕ → List Block → Type 0
NextClear end [] = Unit
NextClear end (e ∷ es) = end ≤ e.base

pub record Split (base n : ℕ) (seen : List ℕ) (bs : List Block) : Type 0 where
  pub before : List Block
  pub last : Option Block
  pub behind : List Block
  pub whole : bs ≡ before ++ from_last last behind
  pub last_clear : LastClear base last before
  pub next_clear : NextClear (base + n) behind
  pub sought :
      seek base seen (pages_of bs)
      ≡ (rev_onto (pages_of (before ++ from_last last [])) seen, pages_of behind)

seek-stop :
    (base p : ℕ) (seen zs xs : List ℕ) → zs ≡ p ∷ xs → base < p → seek base seen zs ≡ (seen, zs)
unfolding seek
seek-stop base p seen zs xs e h = rw (e, lt→ltb base p h) refl

add_block :
    (base n : ℕ) (seen : List ℕ) (b : Block) (bs ds es : List Block) (o : Option Block)
    → b.base + b.count ≤ base
    → bs ≡ ds ++ from_last o es
    → LastClear base o ds
    → NextClear (base + n) es
    → seek base (rev_onto (run b.base b.count) seen) (pages_of bs) ≡ (
      rev_onto (pages_of (ds ++ from_last o [])) (rev_onto (run b.base b.count) seen),
      pages_of es,
    )
    → Split base n seen (b ∷ bs)
unfolding pages_of rev_onto
add_block base n seen b bs ds es none h w c k s = record {
  before = [];
  last = some b;
  behind = es;
  whole = ap (λ us. b ∷ us) (w ∙ ap (λ us. us ++ es) c);
  last_clear = h;
  next_clear = k;
  sought =
      seek-pass base b.base b.count seen (pages_of bs) (omega (arith, h))
      ∙ s
      ∙ ap (λ us. (us, pages_of es))
          (ap (λ us. rev_onto (pages_of (us ++ [])) (rev_onto (run b.base b.count) seen)) c
            ∙ sym (rev_onto-append (run b.base b.count) [] seen));
}
add_block base n seen b bs ds es (some d) h w c k s = record {
  before = b ∷ ds;
  last = some d;
  behind = es;
  whole = ap (λ us. b ∷ us) w;
  last_clear = c;
  next_clear = k;
  sought =
      seek-pass base b.base b.count seen (pages_of bs) (omega (arith, h))
      ∙ s
      ∙ ap (λ us. (us, pages_of es))
          (sym (rev_onto-append (run b.base b.count) (pages_of (ds ++ d ∷ [])) seen));
}

pub split :
    (base n low : ℕ) (seen : List ℕ) (bs : List Block) (ps : Pages)
    → 0 < n
    → AreBlocks ps low bs
    → ((i : ℕ) → within base n i ≡ true → linked i (pages_of bs) ≡ false)
    → Split base n seen bs
unfolding pages_of rev_onto seek
split base n low seen [] ps z a f = record {
  before = [];
  last = none;
  behind = [];
  whole = refl;
  last_clear = refl;
  next_clear = tt;
  sought = refl;
}
split base n low seen (b ∷ bs) ps z a f = elim (Bool-cases (ltb base b.base)) [
  | inl h ↦ record {
    before = [];
    last = none;
    behind = b ∷ bs;
    whole = refl;
    last_clear = refl;
    next_clear = ground (arith, h, a.1.0, f b.base, linked-pages_of b.base b bs);
    sought =
        seek-stop base b.base seen (pages_of (b ∷ bs))
          (run (b.base + 1) (b.count - 1) ++ pages_of bs) (block-cons b bs a.1.0)
          (ltb→lt base b.base h);
  }
  | inr h ↦
      let s =
        split base n (b.base + b.count + 1) (rev_onto (run b.base b.count) seen) bs ps z a.2
          (λ i w. ground (arith, f i w, linked-pages_of i b bs)) in
      add_block base n seen b bs s.before s.behind s.last
        (ground (arith, h, z, f base, linked-pages_of base b bs)) s.whole s.last_clear s.next_clear
        s.sought
]
