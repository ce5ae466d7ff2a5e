-- ===== src/Palloc/Laws.antt =====
-- What the page allocator promises: which pages a call hands out and takes back.
use algorithms_prepare.Prelude.{
  ℕ, ◌+◌, ◌-◌, ◌*◌, ◌%◌, ◌≤◌, ◌<◌, ◌≡◌, refl, ◌∙◌, Bool, true, false, not, ◌&&◌, Option, none, some,
  ◌>>=◌, arith, if◌then◌else◌, ltb, leb, inl, inr, Bool-cases, ==-false,
}
use algorithms_prepare.Bitmap.{Bitmap, bitmap_error, bitmap_scan_and_flip}
use algorithms_prepare.Bitmap.View.{IsValid}
use algorithms_prepare.Bitmap.Range.{IsGroup, Filled}
use algorithms_prepare.Bitmap.Scan.{Flipped, flipped, unchanged, scan_and_flip-Flipped}
use algorithms_prepare.Palloc.{
  Pool, Palloc, pgsize, ptr_mod, null, pg_no, has, pal_zero, pal_user, pal_assert, pool_of,
  with_pool, memset, finish, cleared, get_from, palloc_get_multiple,
}

-- A pool's pages are real addresses: aligned, not null, and none past the end of memory.
pub record PoolIsValid (q : Pool) : Type 0 where
  pub map_valid : IsValid q.used_map
  pub aligned : q.base % pgsize ≡ 0
  pub not_null : 0 < q.base
  pub fits : q.base + pgsize * q.used_map.bit_cnt ≤ ptr_mod

-- The user pool starts where the kernel pool ends, or later.
pub record PallocIsValid (p : Palloc) : Type 0 where
  pub kernel_valid : PoolIsValid p.kernel_pool
  pub user_valid : PoolIsValid p.user_pool
  pub apart : p.kernel_pool.base + pgsize * p.kernel_pool.used_map.bit_cnt ≤ p.user_pool.base

pub pool-valid : (user : Bool) (p : Palloc) → PallocIsValid p → PoolIsValid (pool_of user p)
pool-valid true p v = v.user_valid
pool-valid false p v = v.kernel_valid

-- The page number within the pool of an address.
abbrev pub slot : Pool → ℕ → ℕ
slot q pages = pg_no pages - pg_no q.base

-- A call that handed out `cnt` pages of the pool `user`.
pub record Got (p : Palloc) (user : Bool) (flags cnt pages : ℕ) (p' : Palloc) : Type 0 where
  pub index : ℕ
  pub at : pages ≡ (pool_of user p).base + pgsize * index
  pub in_pool : index + cnt ≤ (pool_of user p).used_map.bit_cnt
  pub were_free : IsGroup (pool_of user p).used_map index cnt false
  pub first : (k : ℕ) → k < index → ¬ IsGroup (pool_of user p).used_map k cnt false
  pub now_used : Filled (pool_of user p).used_map index cnt true (pool_of user p').used_map
  pub same_base : (pool_of user p').base ≡ (pool_of user p).base
  pub other_pool : pool_of (not user) p' ≡ pool_of (not user) p
  pub memory :
      (a : ℕ)
      → p'.mem a ≡ (
          if has flags pal_zero && (leb pages a && ltb a (pages + pgsize * cnt))
          then 0
          else p.mem a)

pool_of-cleared :
    (user : Bool) (flags cnt pages : ℕ) (p : Palloc)
    → pool_of user (cleared flags cnt pages p) ≡ pool_of user p
unfolding cleared
pool_of-cleared true flags cnt pages p = ground arith
pool_of-cleared false flags cnt pages p = ground arith

pool_of-with_pool : (user : Bool) (p : Palloc) (q : Pool) → pool_of user (with_pool user p q) ≡ q
pool_of-with_pool true p q = refl
pool_of-with_pool false p q = refl

pool_of-not-with_pool :
    (user : Bool) (p : Palloc) (q : Pool)
    → pool_of (not user) (with_pool user p q) ≡ pool_of (not user) p
pool_of-not-with_pool true p q = refl
pool_of-not-with_pool false p q = refl

mem-with_pool : (user : Bool) (p : Palloc) (q : Pool) → (with_pool user p q).mem ≡ p.mem
mem-with_pool true p q = refl
mem-with_pool false p q = refl

mem-cleared :
    (flags cnt pages : ℕ) (p : Palloc) (a : ℕ)
    → (cleared flags cnt pages p).mem a
      ≡ (if has flags pal_zero && (leb pages a && ltb a (pages + pgsize * cnt)) then 0 else p.mem a)
unfolding cleared memset
mem-cleared flags cnt pages p a = ground arith

module _ (p : Palloc) (user : Bool) (flags cnt i : ℕ) (used : Bitmap) where
  abbrev handed : Palloc
  handed = with_pool user p (record (pool_of user p) { used_map = used })

  abbrev start : ℕ
  start = (pool_of user p).base + pgsize * i

  Got-finish :
      PoolIsValid (pool_of user p)
      → 0 < cnt
      → i + cnt ≤ (pool_of user p).used_map.bit_cnt
      → IsGroup (pool_of user p).used_map i cnt false
      → ((k : ℕ) → k < i → ¬ IsGroup (pool_of user p).used_map k cnt false)
      → Filled (pool_of user p).used_map i cnt true used
      → (finish flags cnt (start % ptr_mod) handed ≡ some (start, cleared flags cnt start handed))
        × Got p user flags cnt start (cleared flags cnt start handed)
  unfolding finish
  Got-finish v pos u g first fl = (
    rw (in_range, ==-false start null (omega (arith, v.not_null))),
    record {
      index = i;
      at = refl;
      in_pool = u;
      were_free = g;
      first = first;
      now_used = rw (pool_of-cleared user flags cnt start handed, pool_of-with_pool) fl;
      same_base = rw (pool_of-cleared user flags cnt start handed, pool_of-with_pool);
      other_pool =
          pool_of-cleared (not user) flags cnt start handed ∙ pool_of-not-with_pool user p _;
      memory = λ a. rw (mem-cleared flags cnt start handed a, mem-with_pool user p _);
    },
  )
    where
      in_range : start % ptr_mod ≡ start
      in_range = omega (arith, v.fits)

-- The outcome of `palloc_get_multiple`.
pub data Outcome (p : Palloc) (user : Bool) (flags cnt : ℕ) : Option (ℕ × Palloc) → Type 0 where
  got :
      {pages : ℕ} {p' : Palloc}
      → Got p user flags cnt pages p'
      → Outcome p user flags cnt (some (pages, p'))
  refused :
      has flags pal_assert ≡ false
      → ((k : ℕ)
          → k + cnt ≤ (pool_of user p).used_map.bit_cnt
          → ¬ IsGroup (pool_of user p).used_map k cnt false)
      → Outcome p user flags cnt (some (null, p))
  panicked :
      has flags pal_assert ≡ true
      → ((k : ℕ)
          → k + cnt ≤ (pool_of user p).used_map.bit_cnt
          → ¬ IsGroup (pool_of user p).used_map k cnt false)
      → Outcome p user flags cnt none

with_pool_self : (user : Bool) (p : Palloc) → with_pool user p (pool_of user p) ≡ p
with_pool_self true p = refl
with_pool_self false p = refl

-- From valid pools, `palloc_get_multiple` with a positive count hands out the first free run of the
-- pool that the flags name, marks just that run and leaves the other pool; with PAL_ZERO it zeroes
-- just those pages, else no memory changes. Without such a run it returns null and changes nothing,
-- or panics under PAL_ASSERT.
pub get_multiple-Outcome :
    (flags cnt : ℕ) (p : Palloc)
    → PallocIsValid p
    → 0 < cnt
    → Outcome p (has flags pal_user) flags cnt (palloc_get_multiple flags cnt p)
unfolding palloc_get_multiple
get_multiple-Outcome flags cnt p v pos = rw (==-false cnt 0 (omega arith)) (
    after (has flags pal_user) (
      scan_and_flip-Flipped (pool_of (has flags pal_user) p).used_map 0 cnt false
        (pool-valid (has flags pal_user) p v).map_valid (omega arith)))
  where
    after :
        (user : Bool)
        → ((s : ℕ) × (b : Bitmap) × (bitmap_scan_and_flip (pool_of user p).used_map 0 cnt false
              ≡ some (s, b))
            × Flipped (pool_of user p).used_map 0 cnt false s b)
        → Outcome p user flags cnt (get_from flags cnt user p)
    after user (s, b, e, flipped ne l u g first fl) =
        let (f, made) =
          Got-finish p user flags cnt s b (pool-valid user p v) pos u g
            (λ k h. first k (omega arith) h) fl in
        rw (e, ◌>>=◌, ==-false s bitmap_error ne, f) (got made)
    after user (s, b, e, unchanged e1 e2 all) =
        rw (e, ◌>>=◌, e1, e2, with_pool_self user p)
          (elim (Bool-cases (has flags pal_assert)) [
            | inl t ↦ unfold finish in rw t (panicked t (λ k h. all k (omega arith) h))
            | inr t ↦ unfold finish in rw t (refused t (λ k h. all k (omega arith) h))
          ])
