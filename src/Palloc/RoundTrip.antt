-- ===== src/Palloc/RoundTrip.antt =====
-- Pages that are handed out and given back, once and twice, and pages that no pool owns.
use algorithms_prepare.Prelude.{
  some-inj, ℕ, ◌<◌, ◌≡◌, sym, ap, ◌∙◌, Bool, true, false, not, none, some, arith, inl, inr,
  Bool-cases,
}
use algorithms_prepare.Bitmap.View.{view}
use algorithms_prepare.Bitmap.Range.{Filled, within}
use algorithms_prepare.Palloc.{Pool, Palloc, pool_of, page_from_pool, owner, palloc_free_multiple}
use algorithms_prepare.Palloc.Laws.{PoolIsValid, PallocIsValid, Got}
use algorithms_prepare.Palloc.Free.{Freed, free-used, free-unused}

-- A pool whose bits alone have changed.
PoolIsValid-Filled :
    (q q' : Pool) (i cnt : ℕ) (value : Bool)
    → PoolIsValid q
    → Filled q.used_map i cnt value q'.used_map
    → q'.base ≡ q.base
    → PoolIsValid q'
PoolIsValid-Filled q q' i cnt value v f b = record {
  map_valid = f.valid;
  aligned = rw b v.aligned;
  not_null = omega (arith, v.not_null);
  fits = omega (arith, v.fits, f.same_cnt);
}

-- A call that changes the bits of one pool keeps the allocator valid.
pub after-PallocIsValid :
    (user : Bool) (p p' : Palloc) (i cnt : ℕ) (value : Bool)
    → PallocIsValid p
    → Filled (pool_of user p).used_map i cnt value (pool_of user p').used_map
    → (pool_of user p').base ≡ (pool_of user p).base
    → pool_of (not user) p' ≡ pool_of (not user) p
    → PallocIsValid p'
after-PallocIsValid true p p' i cnt value v f b o = record {
  kernel_valid = rw o v.kernel_valid;
  user_valid = PoolIsValid-Filled p.user_pool p'.user_pool i cnt value v.user_valid f b;
  apart = rw (o, b) v.apart;
}
after-PallocIsValid false p p' i cnt value v f b o = record {
  kernel_valid = PoolIsValid-Filled p.kernel_pool p'.kernel_pool i cnt value v.kernel_valid f b;
  user_valid = rw o v.user_valid;
  apart = rw o (omega (arith, v.apart, f.same_cnt));
}

pub Got-PallocIsValid :
    (p p' : Palloc) (user : Bool) (flags cnt pages : ℕ)
    → PallocIsValid p
    → Got p user flags cnt pages p'
    → PallocIsValid p'
Got-PallocIsValid p p' user flags cnt pages v g =
    after-PallocIsValid user p p' g.index cnt true v g.now_used g.same_base g.other_pool

either_pool : (P : Bool → Type 0) (user x : Bool) → P user → P (not user) → P x
either_pool P true true a b = a
either_pool P true false a b = b
either_pool P false true a b = b
either_pool P false false a b = a

module _ (p p' : Palloc) (user : Bool) (flags cnt pages : ℕ) (v : PallocIsValid p) (pos : 0 < cnt)
    (g : Got p user flags cnt pages p') where
  freed :
      (p'' : Palloc) × (palloc_free_multiple pages cnt p' ≡ some p'')
      × Freed p' user g.index cnt p''
  freed =
      let (p'', e, f) =
        free-used user p' g.index cnt (Got-PallocIsValid p p' user flags cnt pages v g) pos
          (omega (arith, g.in_pool, g.now_used.same_cnt))
          (λ j l h. g.now_used.bits_of j ∙ ground arith) in
      (p'', rw (g.at, ← g.same_base) e, f)

  views_back :
      (p'' : Palloc)
      → Freed p' user g.index cnt p''
      → (x : Bool) (j : ℕ) → view (pool_of x p'').used_map j ≡ view (pool_of x p).used_map j
  views_back p'' f x j =
      either_pool (λ y. view (pool_of y p'').used_map j ≡ view (pool_of y p).used_map j) user x
        (elim (Bool-cases (within g.index cnt j)) [
          | inl e ↦ f.now_free.bits_of j ∙ rw e (sym (g.were_free j (ground arith) (ground arith)))
          | inr e ↦ f.now_free.bits_of j ∙ rw e (g.now_used.bits_of j ∙ rw e)
        ])
        (ap (λ (q : Pool). view q.used_map j) (f.other_pool ∙ g.other_pool))

  double :
      (p'' : Palloc) → Freed p' user g.index cnt p'' → palloc_free_multiple pages cnt p'' ≡ none
  double p'' f =
      let v1 = Got-PallocIsValid p p' user flags cnt pages v g in
      rw (g.at, ← g.same_base, ← f.same_base)
        (free-unused user p'' g.index cnt
          (after-PallocIsValid user p' p'' g.index cnt false v1 f.now_free f.same_base f.other_pool)
          pos (omega (arith, g.in_pool, g.now_used.same_cnt, f.now_free.same_cnt)) g.index
          (omega arith) (omega arith) (f.now_free.bits_of g.index ∙ ground arith))

-- Pages that `palloc_get_multiple` handed out from valid pools can be given back; then each page of
-- both pools is free or used as it was before, and the pools are valid.
pub free-get_multiple :
    (p p' : Palloc) (user : Bool) (flags cnt pages : ℕ)
    → PallocIsValid p
    → 0 < cnt
    → Got p user flags cnt pages p'
    → (p'' : Palloc) × (palloc_free_multiple pages cnt p' ≡ some p'')
      × ((x : Bool) (j : ℕ) → view (pool_of x p'').used_map j ≡ view (pool_of x p).used_map j)
      × PallocIsValid p''
free-get_multiple p p' user flags cnt pages v pos g =
    let (p'', e, f) = freed p p' user flags cnt pages v pos g in
    (
      p'',
      e,
      views_back p p' user flags cnt pages v pos g p'' f,
      after-PallocIsValid user p' p'' g.index cnt false
          (Got-PallocIsValid p p' user flags cnt pages v g) f.now_free f.same_base f.other_pool,
    )

-- Giving the pages of one call back twice panics.
pub free_twice :
    (p p' p'' : Palloc) (user : Bool) (flags cnt pages : ℕ)
    → PallocIsValid p
    → 0 < cnt
    → Got p user flags cnt pages p'
    → palloc_free_multiple pages cnt p' ≡ some p''
    → palloc_free_multiple pages cnt p'' ≡ none
free_twice p p' p'' user flags cnt pages v pos g e =
    let (q, e', f) = freed p p' user flags cnt pages v pos g in
    let same : q ≡ p'' = some-inj (sym e' ∙ e) in
    rw (← same) (double p p' user flags cnt pages v pos g q f)

-- Giving back a page that neither pool owns panics.
pub free_foreign :
    (p : Palloc) (pages cnt : ℕ)
    → 0 < pages
    → 0 < cnt
    → page_from_pool p.kernel_pool pages ≡ false
    → page_from_pool p.user_pool pages ≡ false
    → palloc_free_multiple pages cnt p ≡ none
unfolding palloc_free_multiple owner
free_foreign p pages cnt a b k u = ground arith
