-- ===== src/FreeMap/Laws.antt =====
-- What the operations of filesys/free-map.c do to the set of free sectors.
use algorithms_prepare.Prelude.{
  ℕ, ◌+◌, ◌≤◌, ◌<◌, ◌≡◌, ◌≢◌, refl, sym, ap, ◌∙◌, true, false, List, Option, none, some, ◌>>=◌,
  arith, ltb, inl, inr, Bool-cases, ==-false,
}
use algorithms_prepare.Bitmap.{
  Bitmap, bitmap_error, bitmap_scan_and_flip, bitmap_all, bitmap_create, bitmap_mark,
}
use algorithms_prepare.Bitmap.View.{view, IsValid, view-mark}
use algorithms_prepare.Bitmap.Range.{
  IsGroup, Filled, set_multiple-Filled, set_all-Filled, within, all-IsGroup,
}
use algorithms_prepare.Bitmap.Scan.{Flipped, flipped, unchanged, scan_and_flip-Flipped}
use algorithms_prepare.FreeMap.{
  FreeMap, Writer, bitmap_write, commit, answer, free_map_allocate, free_map_release, free_map_init,
}

-- Every bit as before.
abbrev pub SameView : Bitmap → Bitmap → Type 0
SameView b b' = (j : ℕ) → view b' j ≡ view b j

-- The outcome of `free_map_allocate`.
pub data Allocated (write : Writer) (f : FreeMap) (cnt : ℕ) (r : Option ℕ) (f' : FreeMap)
    : Type 0 where
  allocated :
      (s : ℕ)
      → r ≡ some s
      → s + cnt ≤ f.free_map.bit_cnt
      → IsGroup f.free_map s cnt false
      → ((k : ℕ) → k < s → ¬ IsGroup f.free_map k cnt false)
      → Filled f.free_map s cnt true f'.free_map
      → (f.file_open ≡ true → f'.stored ≡ f'.free_map.bits)
      → Allocated write f cnt r f'
  no_room :
      r ≡ none
      → f' ≡ f
      → ((k : ℕ) → k + cnt ≤ f.free_map.bit_cnt → ¬ IsGroup f.free_map k cnt false)
      → Allocated write f cnt r f'
  not_stored :
      r ≡ none
      → IsValid f'.free_map
      → f'.free_map.bit_cnt ≡ f.free_map.bit_cnt
      → SameView f.free_map f'.free_map
      → f.file_open ≡ true
      → (bits : List ℕ) → (write bits f.stored).0 ≡ false
      → Allocated write f cnt r f'

undo :
    (b b1 b2 : Bitmap) (s cnt : ℕ)
    → IsGroup b s cnt false
    → Filled b s cnt true b1
    → Filled b1 s cnt false b2
    → SameView b b2
undo b b1 b2 s cnt g f1 f2 j = elim (Bool-cases (within s cnt j)) [
  | inl e ↦ f2.bits_of j ∙ rw e (sym (g j (ground arith) (ground arith)))
  | inr e ↦ f2.bits_of j ∙ rw e (f1.bits_of j ∙ rw e)
]

module _ (write : Writer)
    (write_full : (bits held : List ℕ)
      → (write bits held).0 ≡ true
      → (write bits held).1 ≡ bits) where
  committed :
      (f : FreeMap) (s cnt : ℕ) (b : Bitmap)
      → s ≢ bitmap_error
      → s + cnt ≤ f.free_map.bit_cnt
      → IsGroup f.free_map s cnt false
      → ((k : ℕ) → 0 ≤ k → k < s → ¬ IsGroup f.free_map k cnt false)
      → Filled f.free_map s cnt true b
      → (r : Option ℕ) × (f' : FreeMap) × ((commit write (record f { free_map = b }) s cnt
            >>= answer)
          ≡ some (r, f'))
        × Allocated write f cnt r f'
  unfolding commit bitmap_write
  committed f s cnt b ne u g first fl = elim (Bool-cases f.file_open) [
    | inr shut ↦ (
      some s,
      record f { free_map = b },
      rw (==-false s bitmap_error ne, shut, ==-false s bitmap_error ne),
      allocated s refl u g (λ k l. first k (omega arith) l) fl (λ e. cc),
    )
    | inl opened ↦ elim (Bool-cases (write b.bits f.stored).0) [
      | inl full ↦ (
        some s,
        record f { free_map = b; stored = (write b.bits f.stored).1 },
        rw (==-false s bitmap_error ne, opened, full, ==-false s bitmap_error ne),
        allocated s refl u g (λ k l. first k (omega arith) l) fl
            (λ e. write_full b.bits f.stored full),
      )
      | inr failed ↦
          let (b2, e, f2) =
            set_multiple-Filled b s cnt false fl.valid (omega (arith, fl.same_cnt)) in
          (
            none,
            record f { free_map = b2; stored = (write b.bits f.stored).1 },
            rw (==-false s bitmap_error ne, opened, failed, e, ◌>>=◌),
            not_stored refl f2.valid (f2.same_cnt ∙ fl.same_cnt)
                (undo f.free_map b b2 s cnt g fl f2) opened b.bits failed,
          )
    ]
  ]

  -- With a valid map and a writer that, when it reports success, has stored all elements,
  -- `free_map_allocate` never panics: it takes just the first free run of `cnt` sectors, also in
  -- the file if that is open, and returns its start; or it fails and leaves every sector as it was,
  -- since there is no such run or the write failed.
  pub allocate-Allocated :
      (f : FreeMap) (cnt : ℕ)
      → IsValid f.free_map
      → (r : Option ℕ) × (f' : FreeMap) × (free_map_allocate write f cnt ≡ some (r, f'))
        × Allocated write f cnt r f'
  unfolding free_map_allocate commit
  allocate-Allocated f cnt v = after (scan_and_flip-Flipped f.free_map 0 cnt false v (omega arith))
    where
      after :
          ((s : ℕ) × (b : Bitmap) × (bitmap_scan_and_flip f.free_map 0 cnt false ≡ some (s, b))
            × Flipped f.free_map 0 cnt false s b)
          → (r : Option ℕ) × (f' : FreeMap) × (free_map_allocate write f cnt ≡ some (r, f'))
            × Allocated write f cnt r f'
      after (s, b, e, flipped ne l u g first fl) =
          rw (e, ◌>>=◌) (committed f s cnt b ne u g first fl)
      after (s, b, e, unchanged e1 e2 all) =
          rw (e, ◌>>=◌, e1)
            (
              none,
              record f { free_map = b },
              refl,
              no_room refl (ap (λ (m : Bitmap). record f { free_map = m }) e2)
                  (λ k l. all k (omega arith) l),
            )

  -- With a valid map and a writer that, when it reports success, has stored all elements, releasing
  -- a run of taken sectors frees just those.
  pub release-Filled :
      (f : FreeMap) (s cnt : ℕ)
      → IsValid f.free_map
      → s + cnt ≤ f.free_map.bit_cnt
      → IsGroup f.free_map s cnt true
      → (f' : FreeMap) × (free_map_release write f s cnt ≡ some f')
        × Filled f.free_map s cnt false f'.free_map
  unfolding free_map_release bitmap_write
  release-Filled f s cnt v u g =
      let (r, e, to, from) = all-IsGroup f.free_map s cnt v u in
      let (b, e2, fl) = set_multiple-Filled f.free_map s cnt false v u in
      let all_used : bitmap_all f.free_map s cnt ≡ some true = e ∙ rw (from g) in
      rw (all_used, ◌>>=◌, e2, ◌>>=◌)
        (record f { free_map = b; stored = (write b.bits f.stored).1 }, refl, fl)

-- Releasing a run within a valid map that has a free sector panics.
pub release-free :
    (write : Writer) (f : FreeMap) (s cnt j : ℕ)
    → IsValid f.free_map
    → s + cnt ≤ f.free_map.bit_cnt
    → s ≤ j
    → j < s + cnt
    → view f.free_map j ≡ false
    → free_map_release write f s cnt ≡ none
unfolding free_map_release
release-free write f s cnt j v u l h off =
    let (r, e, to, from) = all-IsGroup f.free_map s cnt v u in
    let refused : bitmap_all f.free_map s cnt ≡ some false = elim (Bool-cases r) [
      | inl t ↦ absurd (ground (arith, to t j l h))
      | inr t ↦ e ∙ rw t
    ] in
    rw (refused, ◌>>=◌)

-- On a device of two sectors or more, with a block that fits it, `free_map_init` takes the sectors
-- 0 and 1 and leaves the others free, whatever the block held.
pub init-view :
    (bits : List ℕ) (sectors : ℕ) (stored : List ℕ)
    → IsValid (record { bit_cnt = sectors; bits = bits })
    → 2 ≤ sectors
    → (f : FreeMap) × (free_map_init true (some bits) sectors stored ≡ some f)
      × IsValid f.free_map
      × (f.free_map.bit_cnt ≡ sectors)
      × ((j : ℕ) → j < sectors → view f.free_map j ≡ ltb j 2)
unfolding free_map_init bitmap_create bitmap_mark
init-view bits sectors stored v h =
    let (b, e, fl) = set_all-Filled (record { bit_cnt = sectors; bits = bits }) false v in
    let (v0, w0) = view-mark b 0 fl.valid (omega (arith, fl.same_cnt)) in
    let (v1, w1) = view-mark (bitmap_mark b 0) 1 v0 (omega (arith, fl.same_cnt)) in
    rw (e, ◌>>=◌)
      (
        record { free_map = bitmap_mark (bitmap_mark b 0) 1; file_open = false; stored = stored },
        refl,
        v1,
        fl.same_cnt,
        λ j l. ground (arith, w1 j, w0 j, fl.bits_of j),
      )
