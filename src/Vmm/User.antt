-- ===== src/Vmm/User.antt =====
-- `user_mem_check`: what it lets through is mapped with the right to it.
use algorithms_prepare.Prelude.{
  ℕ, zero, suc, ◌+◌, ◌%◌, ◌≤◌, ◌<◌, ◌≡◌, refl, sym, ◌∙◌, inl, inr, Bool, true, false, ◌&&◌, List,
  none, some, if◌then◌else◌, ltb, arith, Bool-cases, Option-cases, some-inj, subst, ltb→lt,
}
use algorithms_prepare.Vmm.{
  Vma, Mm, covers, search, find_vma, user_access, word_mod, flagged, vm_read, vm_write, vm_stack,
  refused, check_from, user_mem_check,
}
use algorithms_prepare.Vmm.Areas.{AreOrdered}
use algorithms_prepare.Vmm.Find.{IsValid, search-covers, search_same, find_vma-Found}

-- An area of the list that covers the address and grants the access.
abbrev pub Granted : List Vma → Bool → ℕ → Type 0
Granted vs write a =
    (v : Vma) × (search a vs ≡ some v)
    × (flagged v.vm_flags (if write then vm_write else vm_read) ≡ true)

-- Such an area, no stack that is written to.
abbrev pub GrantedPlain : List Vma → Bool → ℕ → Type 0
GrantedPlain vs write a =
    (v : Vma) × (search a vs ≡ some v)
    × (flagged v.vm_flags (if write then vm_write else vm_read) ≡ true)
    × ((write && flagged v.vm_flags vm_stack) ≡ false)

-- The outcome of the check from `start` to `end`.
pub record Checked (mm : Mm) (write : Bool) (end start : ℕ) (r : Bool) (mm' : Mm) : Type 0 where
  pub valid : IsValid mm'
  pub same_list : mm'.mmap_list ≡ mm.mmap_list
  pub granted : r ≡ true → (a : ℕ) → start ≤ a → a < end → Granted mm.mmap_list write a
  pub complete : ((a : ℕ) → start ≤ a → a < end → GrantedPlain mm.mmap_list write a) → r ≡ true

search-below : (a : ℕ) (vs : List Vma) (v : Vma) → search a vs ≡ some v → a < v.vm_end
search-below a vs v e = ground (arith, search-covers a vs v e)

refused-false :
    (write : Bool) (start : ℕ) (v : Vma)
    → refused write start v ≡ false
    → flagged v.vm_flags (if write then vm_write else vm_read) ≡ true
unfolding refused
refused-false write start v h = ground (arith, h)

refused-plain :
    (mm : Mm) (write : Bool) (start : ℕ) (v w : Vma)
    → search start mm.mmap_list ≡ some v
    → search start mm.mmap_list ≡ some w
    → flagged v.vm_flags (if write then vm_write else vm_read) ≡ true
    → (write && flagged v.vm_flags vm_stack) ≡ false
    → refused write start w ≡ false
unfolding refused
refused-plain mm write start v w e f g k =
    let same : v ≡ w = some-inj (sym e ∙ f) in
    let c = search-covers start mm.mmap_list v e in
    subst (λ u. refused write start u ≡ false) same (ground (arith, c, g, k))

-- One round more: the rest of this area, and what comes behind it.
extend :
    (mm : Mm) (write : Bool) (end start : ℕ) (v : Vma) (r : Bool) (mm1 mm' : Mm)
    → AreOrdered 0 mm.mmap_list
    → search start mm.mmap_list ≡ some v
    → mm1.mmap_list ≡ mm.mmap_list
    → refused write start v ≡ false
    → Checked mm1 write end v.vm_end r mm'
    → Checked mm write end start r mm'
extend mm write end start v r mm1 mm' o f s g c = record {
  valid = c.valid;
  same_list = c.same_list ∙ s;
  granted = λ k a l u. elim (Bool-cases (ltb a v.vm_end)) [
    | inl h ↦
        let here : covers v a ≡ true = ground (arith, h, l, search-covers start mm.mmap_list v f) in
        (v, search_same 0 start a mm.mmap_list v o f here, refused-false write start v g)
    | inr h ↦ subst (λ vs. Granted vs write a) s (c.granted k a (ground (arith, h)) u)
  ];
  complete = λ k. c.complete λ a l u.
      subst (λ vs. GrantedPlain vs write a) (sym s)
        (k a (omega (arith, l, search-below start mm.mmap_list v f)) u);
}

check_from-Checked :
    (fuel : ℕ) (write : Bool) (end start : ℕ) (mm : Mm)
    → IsValid mm
    → 0 < fuel
    → end < start + fuel
    → (r : Bool) × (mm' : Mm) × (check_from fuel write end start mm ≡ some (r, mm'))
      × Checked mm write end start r mm'
unfolding check_from
check_from-Checked zero write end start mm v z l = absurd (omega (arith, z))
check_from-Checked (suc fuel) write end start mm v z l = elim (Bool-cases (ltb start end)) [
  | inr h ↦ (
    true,
    mm,
    rw h refl,
    record {
      valid = v;
      same_list = refl;
      granted = λ k a p q. absurd (ground (arith, h, p, q));
      complete = λ k. refl;
    },
  )
  | inl h ↦
      let f = find_vma-Found mm start v in
      elim (Option-cases (find_vma mm start).0) [
        | inl e ↦ (
          false,
          (find_vma mm start).1,
          rw (h, e) refl,
          record {
            valid = f.valid;
            same_list = f.same_list;
            granted = λ k. cc;
            complete = λ k.
                let (w, i, _, _) = k start (omega arith) (ltb→lt start end h) in
                let nothing : search start mm.mmap_list ≡ none = sym f.found ∙ e in cc;
          },
        )
        | inr (w, e) ↦ elim (Bool-cases (refused write start w)) [
          | inl g ↦ (
            false,
            (find_vma mm start).1,
            rw (h, e, g) refl,
            record {
              valid = f.valid;
              same_list = f.same_list;
              granted = λ k. cc;
              complete = λ k.
                  let (u, i, x, y) = k start (omega arith) (ltb→lt start end h) in
                  let no = refused-plain mm write start u w i (sym f.found ∙ e) x y in cc;
            },
          )
          | inr g ↦
              let at : search start mm.mmap_list ≡ some w = sym f.found ∙ e in
              let (r, mm', d, c) =
                check_from-Checked fuel write end w.vm_end (find_vma mm start).1 f.valid
                  (ground (arith, l, h))
                  (ground (arith, l, search-covers start mm.mmap_list w at)) in
              (
                r,
                mm',
                rw (h, e, g) d,
                extend mm write end start w r (find_vma mm start).1 mm' v.ordered at f.same_list g
                    c,
              )
        ]
      ]
]

-- The answer of `user_mem_check` on the addresses from `addr` to `end`.
pub record Answered (mm : Mm) (write : Bool) (addr end : ℕ) (r : Bool) (mm' : Mm) : Type 0 where
  pub valid : IsValid mm'
  pub same_list : mm'.mmap_list ≡ mm.mmap_list
  pub user : r ≡ true → user_access addr end ≡ true
  pub granted : r ≡ true → (a : ℕ) → addr ≤ a → a < end → Granted mm.mmap_list write a
  pub complete :
      user_access addr end ≡ true
      → ((a : ℕ) → addr ≤ a → a < end → GrantedPlain mm.mmap_list write a)
      → r ≡ true

-- In a valid address space, with fuel beyond the length, `user_mem_check` ends and leaves the areas
-- as they are. If it grants the access, the range lies in user memory and each address of it in an
-- area that allows the access; and it does grant it where the range lies in user memory, in such
-- areas, none of them a stack that is written to.
pub user_mem_check-Answered :
    (fuel : ℕ) (mm : Mm) (addr len : ℕ) (write : Bool)
    → IsValid mm
    → len < fuel
    → (r : Bool) × (mm' : Mm) × (user_mem_check fuel mm addr len write ≡ some (r, mm'))
      × Answered mm write addr ((addr + len) % word_mod) r mm'
unfolding user_mem_check
user_mem_check-Answered fuel mm addr len write v l =
    let end = (addr + len) % word_mod in
    elim (Bool-cases (user_access addr end)) [
      | inl u ↦
          let (r, mm', e, c) =
            check_from-Checked fuel write end addr mm v (omega (arith, l)) (omega (arith, l)) in
          (
            r,
            mm',
            rw u e,
            record {
              valid = c.valid;
              same_list = c.same_list;
              user = λ k. u;
              granted = c.granted;
              complete = λ x. c.complete;
            },
          )
      | inr u ↦ (
        false,
        mm,
        rw u refl,
        record {
          valid = v;
          same_list = refl;
          user = λ k. cc;
          granted = λ k. cc;
          complete = λ x. cc;
        },
      )
    ]
