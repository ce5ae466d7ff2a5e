-- ===== src/Pmm/RoundTrip.antt =====
-- Pages that were handed out are given back.
use algorithms_prepare.Prelude.{
  ℕ, ◌<◌, ◌≡◌, ap, sym, ◌∙◌, subst, List, Option, some, arith, some-inj,
}
use algorithms_prepare.Sched.{linked}
use algorithms_prepare.Pmm.{Pages, Pmm, default_alloc_pages, default_free_pages}
use algorithms_prepare.Pmm.Blocks.{IsValid}
use algorithms_prepare.Pmm.Handed.{Handed, Allocated, nothing_fits, handed}
use algorithms_prepare.Pmm.Alloc.{default_alloc_pages-Served}
use algorithms_prepare.Pmm.Free.{default_free_pages-Freed}

-- The same pages are free.
pub record Restored (m m' : Pmm) : Type 0 where
  pub valid : IsValid m'
  pub listed : (i : ℕ) → linked i m'.free_list ≡ linked i m.free_list
  pub counted : m'.nr_free ≡ m.nr_free

Handed-at :
    (n : ℕ) (xs ys : List ℕ) (ps qs : Pages) (r : Option ℕ) (p : ℕ)
    → Allocated n xs ps r ys qs
    → r ≡ some p
    → Handed n xs ps p ys qs
Handed-at n xs ys ps qs r p (nothing_fits g) e = cc
Handed-at n xs ys ps qs r p (handed q us rs k) e =
    subst (λ o. Handed n xs ps o us rs) (some-inj e) k

give-Restored :
    (n p : ℕ) (m m1 : Pmm)
    → 0 < n
    → IsValid m
    → IsValid m1
    → Handed n m.free_list m.pages p m1.free_list m1.pages
    → (m2 : Pmm) × (default_free_pages p n m1 ≡ some m2) × Restored m m2
give-Restored n p m m1 z v v1 k =
    let (m2, e, f) =
      default_free_pages-Freed p n m1 z v1 (k.marked p (ground (arith, z)))
        (λ i w. ground (arith, k.left i, w)) k.tails in
    (
      m2,
      e,
      record {
        valid = f.valid;
        listed = λ i. f.listed i ∙ ground (arith, k.left i, k.free i);
        counted = omega (arith, f.counted, v.counted, v1.counted, k.shorter);
      },
    )

-- In a valid allocator, pages that `default_alloc_pages` handed out can be given back; then the
-- same pages are free as before, as many are counted, and the allocator is valid.
pub free-alloc :
    (n p : ℕ) (m m1 : Pmm)
    → 0 < n
    → IsValid m
    → default_alloc_pages n m ≡ some (some p, m1)
    → (m2 : Pmm) × (default_free_pages p n m1 ≡ some m2) × Restored m m2
free-alloc n p m m1 z v e =
    let (r, k, f, s) = default_alloc_pages-Served n m z v in
    let same : (r, k) ≡ (some p, m1) = some-inj (sym f ∙ e) in
    let h =
      Handed-at n m.free_list k.free_list m.pages k.pages r p s.allocated (ap (λ u. u.0) same) in
    subst (λ u. (m2 : Pmm) × (default_free_pages p n u ≡ some m2) × Restored m m2)
      (ap (λ u. u.1) same) (give-Restored n p m k z v s.valid h)
