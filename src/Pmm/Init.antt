-- ===== src/Pmm/Init.antt =====
-- `default_init` and `default_init_memmap`: the memory as one block.
use algorithms_prepare.Prelude.{
  ℕ, zero, suc, ◌+◌, ◌<◌, ◌≡◌, refl, ap, sym, ◌∙◌, inl, inr, true, false, List, [], ◌∷◌, ◌++◌, some,
  ◌==◌, arith, length, Bool-cases, lt→ltb,
}
use algorithms_prepare.Sched.{linked}
use algorithms_prepare.Pmm.{
  Pmm, run, init_page, init_from, default_init, default_init_memmap, set_property,
}
use algorithms_prepare.Pmm.Blocks.{pages_of, within, linked-run, length-run, IsValid}
use algorithms_prepare.Pmm.Take.{append_assoc}

append-nil : (xs : List ℕ) → xs ++ [] ≡ xs
append-nil [] = refl
append-nil (x ∷ xs) = ap (λ us. x ∷ us) (append-nil xs)

-- The loop's outcome.
record Filled (n p : ℕ) (m m' : Pmm) : Type 0 where
  listed : m'.free_list ≡ m.free_list ++ run p n
  counted : m'.nr_free ≡ m.nr_free
  cleared : (i : ℕ) → within p n i ≡ true → (m'.pages i).property ≡ 0
  others : (i : ℕ) → within p n i ≡ false → m'.pages i ≡ m.pages i

init_from-Filled :
    (n p : ℕ) (m : Pmm)
    → ((i : ℕ) → within p n i ≡ true → (m.pages i).page_reserved ≡ true)
    → (m' : Pmm) × (init_from n p m ≡ some m') × Filled n p m m'
unfolding init_from run
init_from-Filled zero p m h = (
  m,
  refl,
  record {
    listed = sym (append-nil m.free_list);
    counted = refl;
    cleared = λ i w. absurd (ground (arith, w));
    others = λ i w. refl;
  },
)
init_from-Filled (suc n) p m h =
    let k : Pmm = record m { free_list = m.free_list ++ p ∷ []; pages = init_page p m.pages } in
    let (m', e, f) =
      init_from-Filled n (p + 1) k
        (λ i w. let r = h i (ground (arith, w)) in ground (arith, w, r)) in
    (
      m',
      rw (h p (ground arith)) e,
      record {
        listed = f.listed ∙ append_assoc m.free_list (p ∷ []) (run (p + 1) n);
        counted = f.counted;
        cleared = λ i w. elim (Bool-cases (i == p)) [
          | inl g ↦
              let at : i ≡ p = ground (arith, g) in
              ap (λ j. (m'.pages j).property) at
              ∙ ap (λ x. x.property) (f.others p (ground arith))
              ∙ ground arith
          | inr g ↦ f.cleared i (ground (arith, w, g))
        ];
        others = λ i w.
            f.others i (ground (arith, w))
            ∙ (let off : (i == p) ≡ false = ground (arith, w) in rw off refl);
      },
    )

-- The outcome of the two, from whatever state: just the block is free.
pub record Started (base n : ℕ) (m m' : Pmm) : Type 0 where
  pub valid : IsValid m'
  pub listed : (i : ℕ) → linked i m'.free_list ≡ within base n i
  pub counted : m'.nr_free ≡ n
  pub others : (i : ℕ) → within base n i ≡ false → m'.pages i ≡ m.pages i

-- `default_init_memmap` of a positive count of reserved pages, after `default_init`, fails no
-- assert and leaves a valid allocator in which just these pages are free and counted, and no other
-- page has changed.
pub default_init_memmap-Started :
    (base n : ℕ) (m : Pmm)
    → 0 < n
    → ((i : ℕ) → within base n i ≡ true → (m.pages i).page_reserved ≡ true)
    → (m' : Pmm) × (default_init_memmap base n (default_init m) ≡ some m') × Started base n m m'
unfolding default_init default_init_memmap pages_of
default_init_memmap-Started base n m z h =
    let (k, e, f) = init_from-Filled n base (default_init m) h in
    (
      record k { nr_free = k.nr_free + n; pages = set_property k.pages base n },
      rw (lt→ltb 0 n z, e) refl,
      record {
        valid = record {
          blocks = record { base = base; count = n } ∷ [];
          listed = f.listed ∙ sym (append-nil (run base n));
          are_blocks = (
            omega arith,
            (
              z,
              ground arith,
              λ i l u. let c = f.cleared i (ground (arith, l, u)) in ground (arith, l, c),
            ),
            tt,
          );
          counted = omega (arith, f.counted, ap length f.listed, length-run base n);
        };
        listed = λ i. ap (linked i) f.listed ∙ linked-run i base n;
        counted = omega (arith, f.counted);
        others =
            λ i w. let off : (i == base) ≡ false = ground (arith, w, z) in rw off (f.others i w);
      },
    )
