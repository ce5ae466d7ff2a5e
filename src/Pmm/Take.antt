-- ===== src/Pmm/Take.antt =====
-- The inner loop of `default_alloc_pages`, on a block.
use algorithms_prepare.Prelude.{
  ℕ, zero, suc, ◌+◌, ◌-◌, ◌≤◌, ◌<◌, ◌≡◌, refl, ap, sym, ◌∙◌, subst, inl, inr, true, false, List, [],
  ◌∷◌, ◌++◌, Option, some, leb, ◌==◌, arith, Bool-cases, lt→ltb, le→leb,
}
use algorithms_prepare.Pmm.{
  Pages, run, reserve, set_property, unlink, leave, take_block, alloc_from,
}
use algorithms_prepare.Pmm.Blocks.{Block, pages_of, IsBlock, within}

unfoldable pub reserve_run : ℕ → ℕ → Pages → Pages
reserve_run zero p ps = ps
reserve_run (suc n) p ps = reserve_run n (p + 1) (reserve p ps)

pub unlink-run :
    (n p : ℕ) (xs : List ℕ) (ps : Pages)
    → unlink n (run p n ++ xs) ps ≡ some (xs, reserve_run n p ps)
unfolding unlink run reserve_run
unlink-run zero p xs ps = refl
unlink-run (suc n) p xs ps = unlink-run n (p + 1) xs (reserve p ps)

pub property-reserve_run :
    (n p : ℕ) (ps : Pages) (i : ℕ) → (reserve_run n p ps i).property ≡ (ps i).property
unfolding reserve_run
property-reserve_run zero p ps i = refl
property-reserve_run (suc n) p ps i = property-reserve_run n (p + 1) (reserve p ps) i ∙ ground arith

pub reserved-kept :
    (n p : ℕ) (ps : Pages) (i : ℕ)
    → (ps i).page_reserved ≡ true
    → (reserve_run n p ps i).page_reserved ≡ true
unfolding reserve_run
reserved-kept zero p ps i h = h
reserved-kept (suc n) p ps i h = reserved-kept n (p + 1) (reserve p ps) i (ground (arith, h))

pub reserved-reserve_run :
    (n p : ℕ) (ps : Pages) (i : ℕ)
    → within p n i ≡ true
    → (reserve_run n p ps i).page_reserved ≡ true
unfolding reserve_run
reserved-reserve_run zero p ps i h = absurd (ground (arith, h))
reserved-reserve_run (suc n) p ps i h = elim (Bool-cases (i == p)) [
  | inl e ↦ reserved-kept n (p + 1) (reserve p ps) i (ground (arith, e))
  | inr e ↦ reserved-reserve_run n (p + 1) (reserve p ps) i (ground (arith, e, h))
]

pub reserve_run-outside :
    (n p : ℕ) (ps : Pages) (i : ℕ) → within p n i ≡ false → reserve_run n p ps i ≡ ps i
unfolding reserve_run
reserve_run-outside zero p ps i h = refl
reserve_run-outside (suc n) p ps i h =
    reserve_run-outside n (p + 1) (reserve p ps) i (ground (arith, h)) ∙ ground (arith, h)

pub run-cons : (p n : ℕ) → 0 < n → run p n ≡ p ∷ run (p + 1) (n - 1)
unfolding run
run-cons p zero h = absurd (omega (arith, h))
run-cons p (suc n) h = ap (λ k. p ∷ run (p + 1) k) (omega arith)

pub run_same : (p q n m : ℕ) → p ≡ q → n ≡ m → run p n ≡ run q m
run_same p q n m e f = ap (λ i. run i n) e ∙ ap (run q) f

pub run-split : (p n m : ℕ) → run p (n + m) ≡ run p n ++ run (p + n) m
unfolding run
run-split p zero m = run_same p (p + 0) (0 + m) m (omega arith) (omega arith)
run-split p (suc n) m =
    run_same p p (suc n + m) (suc (n + m)) refl (omega arith)
    ∙ ap (λ xs. p ∷ xs)
        (run-split (p + 1) n m
          ∙ ap (λ xs. run (p + 1) n ++ xs)
              (run_same (p + 1 + n) (p + suc n) m m (omega arith) refl))

pub append_assoc {ℓ} : {A : Type ℓ} (xs ys zs : List A) → (xs ++ ys) ++ zs ≡ xs ++ (ys ++ zs)
append_assoc [] ys zs = refl
append_assoc (x ∷ xs) ys zs = ap (λ us. x ∷ us) (append_assoc xs ys zs)

-- A block that is just large enough, and a larger one.
pub leave-exact :
    (n p : ℕ) (xs : List ℕ) (ps : Pages) → (ps p).property ≡ n → leave n p xs ps ≡ some ps
unfolding leave
leave-exact n p [] ps e = ground (arith, e)
leave-exact n p (x ∷ xs) ps e = ground (arith, e)

pub leave-more :
    (n p q : ℕ) (ws xs : List ℕ) (ps : Pages)
    → ws ≡ q ∷ xs
    → n < (ps p).property
    → leave n p ws ps ≡ some (set_property ps q ((ps p).property - n))
unfolding leave
leave-more n p q ws xs ps e h = rw (e, lt→ltb n (ps p).property h) refl

pub alloc_from-hit :
    (n p : ℕ) (zs xs ws : List ℕ) (ps qs rs : Pages)
    → zs ≡ p ∷ xs
    → n ≤ (ps p).property
    → unlink n zs ps ≡ some (ws, qs)
    → leave n p ws qs ≡ some rs
    → alloc_from n zs ps ≡ some (some p, ws, reserve p rs)
unfolding alloc_from take_block
alloc_from-hit n p zs xs ws ps qs rs e h u l =
    let hit : alloc_from n (p ∷ xs) ps ≡ some (some p, ws, reserve p rs) =
      rw (le→leb n (ps p).property h, subst (λ us. unlink n us ps ≡ some (ws, qs)) e u, l) refl in
    subst (λ us. alloc_from n us ps ≡ some (some p, ws, reserve p rs)) (sym e) hit

pub block-cons :
    (b : Block) (bs : List Block)
    → 0 < b.count
    → pages_of (b ∷ bs) ≡ b.base ∷ (run (b.base + 1) (b.count - 1) ++ pages_of bs)
unfolding pages_of
block-cons b bs h = ap (λ us. us ++ pages_of bs) (run-cons b.base b.count h)

pub alloc_from-exact :
    (b : Block) (bs : List Block) (ps : Pages)
    → IsBlock ps b
    → alloc_from b.count (pages_of (b ∷ bs)) ps
      ≡ some (some b.base, pages_of bs, reserve b.base (reserve_run b.count b.base ps))
unfolding pages_of
alloc_from-exact b bs ps k =
    let qs = reserve_run b.count b.base ps in
    alloc_from-hit b.count b.base (pages_of (b ∷ bs))
      (run (b.base + 1) (b.count - 1) ++ pages_of bs) (pages_of bs) ps qs qs (block-cons b bs k.0)
      (omega (arith, k.1)) (unlink-run b.count b.base (pages_of bs) ps)
      (leave-exact b.count b.base (pages_of bs) qs
        (property-reserve_run b.count b.base ps b.base ∙ k.1))

abbrev pub rest_of : ℕ → Block → Block
rest_of n b = record { base = b.base + n; count = b.count - n }

pub split_block :
    (n : ℕ) (b : Block) (bs : List Block)
    → n ≤ b.count
    → pages_of (b ∷ bs) ≡ run b.base n ++ pages_of (rest_of n b ∷ bs)
unfolding pages_of
split_block n b bs h =
    ap (λ us. us ++ pages_of bs)
      (run_same b.base b.base b.count (n + (b.count - n)) refl (omega (arith, h))
        ∙ run-split b.base n (b.count - n))
    ∙ append_assoc (run b.base n) (run (b.base + n) (b.count - n)) (pages_of bs)

abbrev pub carved_pages : ℕ → Block → Pages → Pages
carved_pages n b ps =
    let qs = reserve_run n b.base ps in
    reserve b.base (set_property qs (b.base + n) ((qs b.base).property - n))

pub alloc_from-more :
    (n : ℕ) (b : Block) (bs : List Block) (ps : Pages)
    → IsBlock ps b
    → n < b.count
    → alloc_from n (pages_of (b ∷ bs)) ps
      ≡ some (some b.base, pages_of (rest_of n b ∷ bs), carved_pages n b ps)
alloc_from-more n b bs ps k h =
    let qs = reserve_run n b.base ps in
    alloc_from-hit n b.base (pages_of (b ∷ bs)) (run (b.base + 1) (b.count - 1) ++ pages_of bs)
      (pages_of (rest_of n b ∷ bs)) ps qs (set_property qs (b.base + n) ((qs b.base).property - n))
      (block-cons b bs k.0) (omega (arith, k.1, h))
      (rw (split_block n b bs (omega (arith, h)))
        (unlink-run n b.base (pages_of (rest_of n b ∷ bs)) ps))
      (leave-more n b.base (b.base + n) (pages_of (rest_of n b ∷ bs))
        (run (b.base + n + 1) (b.count - n - 1) ++ pages_of bs) qs
        (block-cons (rest_of n b) bs (omega (arith, h)))
        (omega (arith, property-reserve_run n b.base ps b.base, k.1, h)))

-- Pages whose sizes are too small are passed over.
pub alloc_from-pass :
    (n k p : ℕ) (xs ys : List ℕ) (ps qs : Pages) (r : Option ℕ)
    → ((i : ℕ) → p ≤ i → i < p + k → (ps i).property < n)
    → alloc_from n xs ps ≡ some (r, ys, qs)
    → alloc_from n (run p k ++ xs) ps ≡ some (r, run p k ++ ys, qs)
unfolding alloc_from run
alloc_from-pass n zero p xs ys ps qs r h e = e
alloc_from-pass n (suc k) p xs ys ps qs r h e =
    let small : leb n (ps p).property ≡ false = ground (arith, h p (omega arith) (omega arith)) in
    rw
      (
        small,
        alloc_from-pass n k (p + 1) xs ys ps qs r
            (λ i l u. h i (omega (arith, l)) (omega (arith, u))) e,
      )
      refl
