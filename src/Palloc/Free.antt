-- ===== src/Palloc/Free.antt =====
-- `palloc_free_multiple`: giving pages back, giving them back twice, and pages of neither pool.
use algorithms_prepare.Prelude.{
  ℕ, ◌+◌, ◌-◌, ◌*◌, ◌≤◌, ◌<◌, ◌≡◌, refl, ◌∙◌, Bool, true, false, not, ◌&&◌, none, some, ◌>>=◌,
  arith, if◌then◌else◌, ltb, leb, ◌==◌, inl, inr, Bool-cases, ==-false, le→leb, lt→ltb, ltb-false,
}
use algorithms_prepare.Bitmap.{Bitmap, bitmap_all, bitmap_size}
use algorithms_prepare.Bitmap.View.{view}
use algorithms_prepare.Bitmap.Range.{IsGroup, Filled, set_multiple-Filled, all-IsGroup}
use algorithms_prepare.Palloc.{
  Pool, Palloc, pgsize, null, pg_no, pg_ofs, pool_of, with_pool, memset, page_from_pool, owner,
  free_from, palloc_free_multiple,
}
use algorithms_prepare.Palloc.Laws.{PoolIsValid, PallocIsValid, pool-valid}

page_from_pool-true :
    (q : Pool) (i : ℕ)
    → PoolIsValid q
    → i < q.used_map.bit_cnt
    → page_from_pool q (q.base + pgsize * i) ≡ true
unfolding page_from_pool bitmap_size
page_from_pool-true q i v h = rw (
  le→leb (pg_no q.base) (pg_no (q.base + pgsize * i)) (omega arith),
  lt→ltb (pg_no (q.base + pgsize * i)) (pg_no q.base + q.used_map.bit_cnt)
      (omega (arith, v.aligned)),
)

page_from_pool-above :
    (q : Pool) (page : ℕ)
    → PoolIsValid q
    → q.base + pgsize * q.used_map.bit_cnt ≤ page
    → page_from_pool q page ≡ false
unfolding page_from_pool bitmap_size
page_from_pool-above q page v h = rw (
  le→leb (pg_no q.base) (pg_no page) (omega arith),
  ltb-false (pg_no page) (pg_no q.base + q.used_map.bit_cnt) (omega (arith, v.aligned)),
)

owner-slot :
    (user : Bool) (p : Palloc) (i : ℕ)
    → PallocIsValid p
    → i < (pool_of user p).used_map.bit_cnt
    → owner ((pool_of user p).base + pgsize * i) p ≡ some user
unfolding owner
owner-slot false p i v h = rw (page_from_pool-true p.kernel_pool i v.kernel_valid h)
owner-slot true p i v h = rw (
  page_from_pool-above p.kernel_pool (p.user_pool.base + pgsize * i) v.kernel_valid
      (omega (arith, v.apart)),
  page_from_pool-true p.user_pool i v.user_valid h,
)

-- What a call that gives back `cnt` pages at `pages` leaves behind.
pub record Freed (p : Palloc) (user : Bool) (i cnt : ℕ) (p' : Palloc) : Type 0 where
  pub now_free : Filled (pool_of user p).used_map i cnt false (pool_of user p').used_map
  pub same_base : (pool_of user p').base ≡ (pool_of user p).base
  pub other_pool : pool_of (not user) p' ≡ pool_of (not user) p
  pub memory :
      (a : ℕ)
      → p'.mem a ≡ (
          if leb ((pool_of user p).base + pgsize * i) a
            && ltb a ((pool_of user p).base + pgsize * i + pgsize * cnt)
          then 0xcc
          else p.mem a)

freed_lem :
    (user : Bool) (p : Palloc) (i cnt : ℕ) (b : Bitmap)
    → Filled (pool_of user p).used_map i cnt false b
    → Freed p user i cnt (
        with_pool user
          (record p { mem = memset p.mem ((pool_of user p).base + pgsize * i) 0xcc (pgsize * cnt) })
          (record (pool_of user p) { used_map = b }))
unfolding memset
freed_lem true p i cnt b f = record {
  now_free = f;
  same_base = refl;
  other_pool = refl;
  memory = λ a. refl;
}
freed_lem false p i cnt b f = record {
  now_free = f;
  same_base = refl;
  other_pool = refl;
  memory = λ a. refl;
}

module _ (user : Bool) (p : Palloc) (i cnt : ℕ) (v : PallocIsValid p) (pos : 0 < cnt)
    (u : i + cnt ≤ (pool_of user p).used_map.bit_cnt) where
  abbrev pub pages : ℕ
  pages = (pool_of user p).base + pgsize * i

  slot-pages : pg_no pages - pg_no (pool_of user p).base ≡ i
  slot-pages = let q = pool-valid user p v in omega (arith, q.aligned)

  pages-aligned : (pg_ofs pages == 0) ≡ true
  pages-aligned = let q = pool-valid user p v in ground (arith, q.aligned)

  pages-real : (pages == null) ≡ false
  pages-real = let q = pool-valid user p v in ==-false pages null (omega (arith, q.not_null))

  filled : Palloc
  filled = record p { mem = memset p.mem pages 0xcc (pgsize * cnt) }

  reaches : palloc_free_multiple pages cnt p ≡ free_from pages cnt p user
  unfolding palloc_free_multiple
  reaches = rw (
    pages-aligned,
    pages-real,
    ==-false cnt 0 (omega arith),
    owner-slot user p i v (omega arith),
    ◌>>=◌,
  )

  -- Giving back pages that are all in use frees them, fills them with 0xcc and changes nothing else.
  pub free-used :
      IsGroup (pool_of user p).used_map i cnt true
      → (p' : Palloc) × (palloc_free_multiple pages cnt p ≡ some p') × Freed p user i cnt p'
  unfolding filled free_from
  free-used g =
      let q = pool-valid user p v in
      let (r, e, to, from) = all-IsGroup (pool_of user p).used_map i cnt q.map_valid u in
      let (b, e2, fl) = set_multiple-Filled (pool_of user p).used_map i cnt false q.map_valid u in
      let all_used : bitmap_all (pool_of user p).used_map i cnt ≡ some true = e ∙ rw (from g) in
      (
        with_pool user filled (record (pool_of user p) { used_map = b }),
        reaches ∙ rw (slot-pages, all_used, ◌>>=◌, e2, ◌>>=◌),
        freed_lem user p i cnt b fl,
      )

  -- Giving back pages of which one is free panics.
  pub free-unused :
      (j : ℕ)
      → i ≤ j
      → j < i + cnt
      → view (pool_of user p).used_map j ≡ false
      → palloc_free_multiple pages cnt p ≡ none
  unfolding free_from
  free-unused j l h off =
      let q = pool-valid user p v in
      let (r, e, to, from) = all-IsGroup (pool_of user p).used_map i cnt q.map_valid u in
      let refused : bitmap_all (pool_of user p).used_map i cnt ≡ some false = elim (Bool-cases r) [
        | inl t ↦ absurd (ground (arith, to t j l h))
        | inr t ↦ e ∙ rw t
      ] in
      reaches ∙ rw (slot-pages, refused, ◌>>=◌)
