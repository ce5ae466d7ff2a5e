-- ===== src/Vmm/Find.antt =====
-- `find_vma` and `insert_vma_struct` under the invariant of the address space.
use algorithms_prepare.Prelude.{
  ℕ, ◌+◌, ◌≤◌, ◌<◌, ◌≡◌, refl, ap, sym, ◌∙◌, inl, inr, true, false, ◌&&◌, List, [], ◌∷◌, Option,
  none, some, if◌then◌else◌, ltb, arith, length, Bool-cases, some-inj, subst, ltb→lt, lt→ltb,
}
use algorithms_prepare.Vmm.{Vma, Mm, covers, search, look, remember, find_vma, insert_vma_struct}
use algorithms_prepare.Vmm.Areas.{
  AreOrdered, apart, fits, insert_after-Inserted, insert_after_overlap,
}

-- The invariant: the list in order, counted, and the cache one of its areas.
pub record IsValid (mm : Mm) : Type 0 where
  pub ordered : AreOrdered 0 mm.mmap_list
  pub counted : mm.map_count ≡ length mm.mmap_list
  pub cached :
      (v : Vma)
      → mm.mmap_cache ≡ some v
      → (a : ℕ) → covers v a ≡ true
      → search a mm.mmap_list ≡ some v

pub search-covers : (a : ℕ) (vs : List Vma) (v : Vma) → search a vs ≡ some v → covers v a ≡ true
unfolding search
search-covers a [] v e = cc
search-covers a (w ∷ ws) v e = elim (Bool-cases (covers w a)) [
  | inl c ↦
      let hit : search a (w ∷ ws) ≡ some w = rw c refl in
      ap (λ u. covers u a) (sym (some-inj (sym hit ∙ e))) ∙ c
  | inr c ↦
      let miss : search a (w ∷ ws) ≡ search a ws = rw c refl in search-covers a ws v (sym miss ∙ e)
]

pub search_above :
    (low a : ℕ) (vs : List Vma) (v : Vma)
    → AreOrdered low vs
    → search a vs ≡ some v
    → low ≤ v.vm_start
unfolding search
search_above low a [] v o e = cc
search_above low a (w ∷ ws) v o e = elim (Bool-cases (covers w a)) [
  | inl c ↦
      let hit : search a (w ∷ ws) ≡ some w = rw c refl in
      subst (λ u. low ≤ u.vm_start) (some-inj (sym hit ∙ e)) o.0
  | inr c ↦
      let miss : search a (w ∷ ws) ≡ search a ws = rw c refl in
      omega (arith, o.0, o.1, search_above w.vm_end a ws v o.2 (sym miss ∙ e))
]

-- What is found at one address of an area is found at all of them.
pub search_same :
    (low a b : ℕ) (vs : List Vma) (v : Vma)
    → AreOrdered low vs
    → search a vs ≡ some v
    → covers v b ≡ true
    → search b vs ≡ some v
unfolding search
search_same low a b [] v o e c = cc
search_same low a b (w ∷ ws) v o e c = elim (Bool-cases (covers w a)) [
  | inl d ↦
      let hit : search a (w ∷ ws) ≡ some w = rw d refl in
      let same : w ≡ v = some-inj (sym hit ∙ e) in rw (ap (λ u. covers u b) same ∙ c) (ap some same)
  | inr d ↦
      let miss : search a (w ∷ ws) ≡ search a ws = rw d refl in
      let above = search_above w.vm_end a ws v o.2 (sym miss ∙ e) in
      let behind : covers w b ≡ false = ground (arith, above, c) in
      rw behind (search_same w.vm_end a b ws v o.2 (sym miss ∙ e) c)
]

remember-IsValid :
    (mm : Mm) (a : ℕ) (o : Option Vma)
    → IsValid mm
    → search a mm.mmap_list ≡ o
    → IsValid (remember o mm)
remember-IsValid mm a none v e = v
remember-IsValid mm a (some w) v e = record {
  ordered = v.ordered;
  counted = v.counted;
  cached = λ u h b c.
      let same : w ≡ u = some-inj h in
      search_same 0 a b mm.mmap_list u v.ordered (e ∙ ap some same) c;
}

look-search :
    (c : Option Vma) (mm : Mm) (a : ℕ)
    → IsValid mm
    → mm.mmap_cache ≡ c
    → look c a mm.mmap_list ≡ search a mm.mmap_list
unfolding look
look-search none mm a v e = refl
look-search (some w) mm a v e = elim (Bool-cases (covers w a)) [
  | inl h ↦ rw h (sym (v.cached w e a h))
  | inr h ↦ rw h refl
]

pub remember-list : (o : Option Vma) (mm : Mm) → (remember o mm).mmap_list ≡ mm.mmap_list
remember-list none mm = refl
remember-list (some w) mm = refl

-- The outcome of `find_vma`.
pub record Found (mm : Mm) (a : ℕ) (r : Option Vma) (mm' : Mm) : Type 0 where
  pub valid : IsValid mm'
  pub same_list : mm'.mmap_list ≡ mm.mmap_list
  pub found : r ≡ search a mm.mmap_list

-- In a valid address space `find_vma`, with its cache, finds what a search of the list without the
-- cache finds, and keeps the list and validity.
pub find_vma-Found : (mm : Mm) (a : ℕ) → IsValid mm → Found mm a (find_vma mm a).0 (find_vma mm a).1
unfolding find_vma
find_vma-Found mm a v =
    let e = look-search mm.mmap_cache mm a v refl in
    record {
      valid = remember-IsValid mm a (look mm.mmap_cache a mm.mmap_list) v (sym e);
      same_list = remember-list (look mm.mmap_cache a mm.mmap_list) mm;
      found = e;
    }

-- The outcome of `insert_vma_struct`.
pub record Added (mm : Mm) (v : Vma) (mm' : Mm) : Type 0 where
  pub valid : IsValid mm'
  pub finds :
      (a : ℕ) → search a mm'.mmap_list ≡ (if covers v a then some v else search a mm.mmap_list)
  pub counted : mm'.map_count ≡ mm.map_count + 1

-- Whether two areas share an address decides what is found at the cached one's.
fits-found :
    (low a : ℕ) (v w : Vma) (vs : List Vma)
    → AreOrdered low vs
    → v.vm_start < v.vm_end
    → fits v vs ≡ true
    → search a vs ≡ some w
    → apart v w ≡ true
unfolding fits search
fits-found low a v w [] o p f e = cc
fits-found low a v w (u ∷ us) o p f e = elim (Bool-cases (covers u a)) [
  | inl d ↦
      let hit : search a (u ∷ us) ≡ some u = rw d refl in
      ap (apart v) (sym (some-inj (sym hit ∙ e))) ∙ ground (arith, f)
  | inr d ↦
      let miss : search a (u ∷ us) ≡ search a us = rw d refl in
      fits-found u.vm_end a v w us o.2 p (ground (arith, f)) (sym miss ∙ e)
]

-- In a valid address space `insert_vma_struct` of an area that is not empty and overlaps no other
-- fails no assert and keeps validity; then the area is found at its addresses, and at all others
-- what was found before.
pub insert_vma_struct-Added :
    (mm : Mm) (v : Vma)
    → IsValid mm
    → v.vm_start < v.vm_end
    → fits v mm.mmap_list ≡ true
    → (mm' : Mm) × (insert_vma_struct mm v ≡ some mm') × Added mm v mm'
unfolding insert_vma_struct
insert_vma_struct-Added mm v k p f =
    let (vs, e, r) = insert_after-Inserted none 0 v mm.mmap_list refl k.ordered (omega arith) p f in
    (
      record mm { mmap_list = vs; map_count = mm.map_count + 1 },
      rw (lt→ltb v.vm_start v.vm_end p, e) refl,
      record {
        valid = record {
          ordered = r.ordered;
          counted = omega (arith, k.counted, r.longer);
          cached = λ w h a c.
              let old = k.cached w h a c in
              let clear = fits-found 0 a v w mm.mmap_list k.ordered p f old in
              r.finds a ∙ ground (arith, old, clear, c, p);
        };
        finds = r.finds;
        counted = refl;
      },
    )

-- An empty area, or one that overlaps another, is refused by an assert.
pub insert_vma_struct_refused :
    (mm : Mm) (v : Vma)
    → IsValid mm
    → (ltb v.vm_start v.vm_end && fits v mm.mmap_list) ≡ false
    → insert_vma_struct mm v ≡ none
unfolding insert_vma_struct
insert_vma_struct_refused mm v k f = elim (Bool-cases (ltb v.vm_start v.vm_end)) [
  | inl p ↦
      rw
        (
          p,
          insert_after_overlap none 0 v mm.mmap_list k.ordered (ltb→lt v.vm_start v.vm_end p)
              (ground (arith, f, p)),
        )
        refl
  | inr p ↦ rw p refl
]
