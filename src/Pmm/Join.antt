-- ===== src/Pmm/Join.antt =====
-- The end of `default_free_pages`: the freed block is joined with the ones it touches.
use algorithms_prepare.Prelude.{
  ℕ, zero, suc, ◌+◌, ◌-◌, ◌≤◌, ◌<◌, ◌≡◌, refl, ap, sym, ◌∙◌, subst, inl, inr, true, false, List, [],
  ◌∷◌, ◌++◌, if◌then◌else◌, ◌==◌, arith, Bool-cases,
}
use algorithms_prepare.Sched.{linked}
use algorithms_prepare.Pmm.{
  Pages, run, rev_onto, free_base, set_property, join_next, join_back, join_before,
}
use algorithms_prepare.Pmm.Blocks.{
  Block, pages_of, IsBlock, AreBlocks, within, linked-pages_of, AreBlocks-frame,
}
use algorithms_prepare.Pmm.Take.{run_same, run-cons, run-split, append_assoc, block-cons}
use algorithms_prepare.Pmm.Seek.{NextClear}

-- The freed pages with the block behind them, if they touch.
pub record NextJoined (base n : ℕ) (es : List Block) (ps qs : Pages) : Type 0 where
  pub count : ℕ
  pub rest : List Block
  pub listed : run base n ++ pages_of es ≡ pages_of (record { base = base; count = count } ∷ rest)
  pub is_block : IsBlock qs (record { base = base; count = count })
  pub are_blocks : AreBlocks qs (base + count + 1) rest
  pub below : (i : ℕ) → i < base → qs i ≡ ps i
  pub others : (i : ℕ) → within base n i ≡ false → linked i (pages_of es) ≡ false → qs i ≡ ps i

join_next-gap :
    (base n : ℕ) (e : Block) (es : List Block) (ps : Pages)
    → 0 < e.count
    → base + n < e.base
    → join_next base n (pages_of (e ∷ es)) ps ≡ ps
unfolding join_next
join_next-gap base n e es ps z h =
    let gap : (base + n == e.base) ≡ false = ground (arith, h) in rw (block-cons e es z, gap) refl

abbrev touched : ℕ → ℕ → Pages → Pages
touched base p ps = set_property (set_property ps base ((ps base).property + (ps p).property)) p 0

pub property-touched :
    (base p i : ℕ) (ps : Pages)
    → (touched base p ps i).property ≡ (
        if i == p
        then 0
        else if i == base
        then (ps base).property + (ps p).property
        else (ps i).property)
property-touched base p i ps = ground arith

join_next-touched :
    (base n : ℕ) (e : Block) (es : List Block) (ps : Pages)
    → 0 < e.count
    → base + n ≡ e.base
    → join_next base n (pages_of (e ∷ es)) ps ≡ touched base e.base ps
unfolding join_next
join_next-touched base n e es ps z h =
    let here : (base + n == e.base) ≡ true = ground (arith, h) in rw (block-cons e es z, here) refl

alone-NextJoined :
    (base n : ℕ) (es : List Block) (ps : Pages)
    → 0 < n
    → ((i : ℕ) → base < i → i < base + n → (ps i).property ≡ 0)
    → AreBlocks ps (base + n + 1) es
    → NextJoined base n es ps (free_base base n ps)
unfolding pages_of
alone-NextJoined base n es ps z t a = record {
  count = n;
  rest = es;
  listed = refl;
  is_block = (z, ground arith, λ i l u. ground (arith, l, t i l u));
  are_blocks =
      AreBlocks-frame ps (free_base base n ps) (base + n + 1) (base + n + 1) es a (omega arith)
        (λ i l. ground (arith, l));
  below = λ i l. let off : (i == base) ≡ false = ground (arith, l) in rw off refl;
  others = λ i w f. let off : (i == base) ≡ false = ground (arith, w, z) in rw off refl;
}

both-NextJoined :
    (base n low : ℕ) (e : Block) (es : List Block) (ps : Pages)
    → 0 < n
    → ((i : ℕ) → base < i → i < base + n → (ps i).property ≡ 0)
    → AreBlocks ps low (e ∷ es)
    → base + n ≡ e.base
    → NextJoined base n (e ∷ es) ps (touched base e.base (free_base base n ps))
unfolding pages_of
both-NextJoined base n low e es ps z t a h = record {
  count = n + e.count;
  rest = es;
  listed =
      sym (append_assoc (run base n) (run e.base e.count) (pages_of es))
      ∙ ap (λ us. us ++ pages_of es)
          (ap (λ us. run base n ++ us) (run_same e.base (base + n) e.count e.count (sym h) refl)
            ∙ sym (run-split base n e.count));
  is_block = (
    omega (arith, z),
    ground (arith, h, z, a.1.1),
    λ i l u.
        property-touched base e.base i (free_base base n ps)
        ∙ ground (arith, l, u, h, t i l, a.1.2 i),
  );
  are_blocks =
      AreBlocks-frame ps (touched base e.base (free_base base n ps)) (e.base + e.count + 1)
        (base + (n + e.count) + 1) es a.2 (omega (arith, h)) (λ i l. ground (arith, l, h, z));
  below = λ i l.
      let off : (i == base) ≡ false = ground (arith, l) in
      let off2 : (i == e.base) ≡ false = ground (arith, l, h) in rw (off, off2) refl;
  others = λ i w f.
      let off : (i == base) ≡ false = ground (arith, w, z) in
      let off2 : (i == e.base) ≡ false = ground (arith, linked-pages_of i e es, f, a.1.0) in
      rw (off, off2) refl;
}

pub next-NextJoined :
    (base n low : ℕ) (es : List Block) (ps : Pages)
    → 0 < n
    → ((i : ℕ) → base < i → i < base + n → (ps i).property ≡ 0)
    → AreBlocks ps low es
    → NextClear (base + n) es
    → NextJoined base n es ps (join_next base n (pages_of es) (free_base base n ps))
unfolding join_next pages_of
next-NextJoined base n low [] ps z t a c = alone-NextJoined base n [] ps z t tt
next-NextJoined base n low (e ∷ es) ps z t a c = elim (Bool-cases (base + n == e.base)) [
  | inl h ↦
      let at : base + n ≡ e.base = ground (arith, h) in
      subst (λ qs. NextJoined base n (e ∷ es) ps qs)
        (sym (join_next-touched base n e es (free_base base n ps) a.1.0 at))
        (both-NextJoined base n low e es ps z t a at)
  | inr h ↦
      let gap : base + n < e.base = ground (arith, h, c) in
      subst (λ qs. NextJoined base n (e ∷ es) ps qs)
        (sym (join_next-gap base n e es (free_base base n ps) a.1.0 gap))
        (alone-NextJoined base n (e ∷ es) ps z t (omega (arith, gap), a.1, a.2))
]

-- Pages of size zero are passed on the way back.
join_back-pass :
    (base p k : ℕ) (xs : List ℕ) (ps : Pages)
    → ((i : ℕ) → p ≤ i → i < p + k → (ps i).property ≡ 0)
    → join_back base (rev_onto (run p k) xs) ps ≡ join_back base xs ps
unfolding join_back rev_onto run
join_back-pass base p zero xs ps h = refl
join_back-pass base p (suc k) xs ps h =
    let here = h p (omega arith) (omega arith) in
    join_back-pass base (p + 1) k (p ∷ xs) ps (λ i l u. h i (omega (arith, l)) (omega (arith, u)))
    ∙ ground (arith, here)

rev-run :
    (p k : ℕ) (xs : List ℕ) → (ys : List ℕ) × (rev_onto (run (p + 1) k) (p ∷ xs) ≡ (p + k) ∷ ys)
unfolding rev_onto run
rev-run p zero xs = (xs, ap (λ q. q ∷ xs) (omega arith))
rev-run p (suc k) xs =
    let (ys, e) = rev-run (p + 1) k (p ∷ xs) in (ys, e ∙ ap (λ q. q ∷ ys) (omega arith))

rev-cons :
    (b : Block) (xs : List ℕ)
    → 0 < b.count
    → rev_onto (run b.base b.count) xs ≡ rev_onto (run (b.base + 1) (b.count - 1)) (b.base ∷ xs)
unfolding rev_onto
rev-cons b xs z = ap (λ us. rev_onto us xs) (run-cons b.base b.count z)

last_page :
    (b : Block) (xs : List ℕ)
    → 0 < b.count
    → (ys : List ℕ) × (rev_onto (run b.base b.count) xs ≡ (b.base + (b.count - 1)) ∷ ys)
last_page b xs z = let (ys, e) = rev-run b.base (b.count - 1) xs in (ys, rev-cons b xs z ∙ e)

pub join_before-gap :
    (base : ℕ) (b : Block) (xs : List ℕ) (ps : Pages)
    → 0 < b.count
    → b.base + b.count < base
    → join_before base (rev_onto (run b.base b.count) xs) ps ≡ ps
unfolding join_before
join_before-gap base b xs ps z h =
    let (ys, e) = last_page b xs z in
    let gap : (b.base + (b.count - 1) + 1 == base) ≡ false = ground (arith, h, z) in
    rw (e, gap) refl

abbrev pub absorbed : ℕ → ℕ → Pages → Pages
absorbed base p ps = set_property (set_property ps p ((ps p).property + (ps base).property)) base 0

pub join_before-touched :
    (base : ℕ) (b : Block) (xs : List ℕ) (ps : Pages)
    → IsBlock ps b
    → b.base + b.count ≡ base
    → join_before base (rev_onto (run b.base b.count) xs) ps ≡ absorbed base b.base ps
unfolding join_before join_back
join_before-touched base b xs ps k h =
    let (ys, e) = last_page b xs k.0 in
    let here : (b.base + (b.count - 1) + 1 == base) ≡ true = ground (arith, h, k.0) in
    let size : ((ps b.base).property == 0) ≡ false = ground (arith, k.0, k.1) in
    let start : join_before base (rev_onto (run b.base b.count) xs) ps
        ≡ join_back base (rev_onto (run b.base b.count) xs) ps =
      rw e (unfold join_before in rw here refl) in
    start
    ∙ ap (λ us. join_back base us ps) (rev-cons b xs k.0)
    ∙ join_back-pass base (b.base + 1) (b.count - 1) (b.base ∷ xs) ps
        (λ i l u. k.2 i (omega (arith, l)) (omega (arith, u, k.0)))
    ∙ rw size refl
