-- ===== src/Dll/Pass.antt =====
-- A pass of `list_sort` of lib/kernel/list.c, which merges the runs of a list two by two.
use algorithms_prepare.Prelude.{
  ℕ, zero, suc, ◌+◌, ◌<◌, ◌≤◌, ◌≡◌, ◌⊎◌, refl, ap, sym, ◌∙◌, subst, inl, inr, Bool, true, false,
  List, [], ◌∷◌, ◌++◌, length, length-append, Option, none, some, ◌>>=◌, ◌==◌, arith, ==-self,
}
use mathlib.Core.List.{append-nil, Perm}
use mathlib.Core.List.Perm
use algorithms_prepare.Links.{Links}
use algorithms_prepare.Pmm.Take.{append_assoc}
use algorithms_prepare.Dll.{Dll, find_end_of_run, inplace_merge, pass_from}
use algorithms_prepare.Dll.Chained.{IsList, head_or, not_first}
use algorithms_prepare.Dll.Ascending.{
  runs, run_rest, run_after, run-append, run-ascending, runs-run_after, runs-append, runs_nil,
}
use algorithms_prepare.Dll.Runs.{find_end_of_run-run_after}
use algorithms_prepare.Dll.Merge.{Merged, inplace_merge-Merged}

List-cases : (xs : List ℕ) → (xs ≡ []) ⊎ ((y : ℕ) × (ys : List ℕ) × (xs ≡ y ∷ ys))
List-cases [] = inl refl
List-cases (x ∷ xs) = inr (x, xs, refl)

module _ (less : ℕ → ℕ → Bool) where
  -- The outcome of a pass over the rest `zs` of a list: at most half as many runs, rounded up, and no
  -- more runs are left than it counts.
  pub record Passed (d : Dll) (us zs : List ℕ) (cnt : ℕ) (o : Option (ℕ × Links)) : Type 0 where
    pub count : ℕ
    pub links : Links
    pub list : List ℕ
    pub returned : o ≡ some (cnt + count, links)
    pub stored : IsList links d (us ++ list)
    pub same : Perm zs list
    pub size : length list ≡ length zs
    pub fewer : runs less list ≤ count
    pub halved : count + count ≤ suc (runs less zs)

  abbrev second : ℕ → ℕ → Dll → ℕ → ℕ → Links → ℕ → Option (ℕ × Links)
  second fuel n d a cnt l a1b0 = elim (a1b0 == d.tail) [
    | true ↦ some (cnt + 1, l)
    | false ↦ find_end_of_run less n a1b0 d.tail l >>= λ b1.
        inplace_merge less n a a1b0 b1 l >>= λ l'. pass_from less fuel n d b1 (cnt + 1) l'
  ]

  pass_from-second :
      (fuel n : ℕ) (l : Links) (d : Dll) (us : List ℕ) (a : ℕ) (zs : List ℕ) (cnt : ℕ)
      → IsList l d (us ++ a ∷ zs)
      → length zs < n
      → pass_from less (suc fuel) n d a cnt l
        ≡ second fuel n d a cnt l (head_or d.tail (run_after less a zs))
  unfolding pass_from
  pass_from-second fuel n l d us a zs cnt r h =
      let whole = subst (λ ys. IsList l d (us ++ a ∷ ys)) (sym (append-nil zs)) r in
      let turn : Bool → Option (ℕ × Links) = λ t. elim t [
        | true ↦ some (cnt, l)
        | false ↦ find_end_of_run less n a d.tail l >>= second fuel n d a cnt l
      ] in
      ap turn (not_first l d us a zs [] whole)
      ∙ ap (λ o. o >>= second fuel n d a cnt l) (find_end_of_run-run_after less l d us a zs n r h)

  second-merge :
      (fuel n : ℕ) (l : Links) (d : Dll) (us : List ℕ) (a b : ℕ) (bs : List ℕ) (cnt : ℕ)
      → IsList l d (us ++ b ∷ bs)
      → length bs < n
      → second fuel n d a cnt l b ≡ (
          inplace_merge less n a b (head_or d.tail (run_after less b bs)) l >>= λ l'.
          pass_from less fuel n d (head_or d.tail (run_after less b bs)) (cnt + 1) l')
  second-merge fuel n l d us a b bs cnt r h =
      let whole = subst (λ ys. IsList l d (us ++ b ∷ ys)) (sym (append-nil bs)) r in
      let turn : Bool → Option (ℕ × Links) = λ t. elim t [
        | true ↦ some (cnt + 1, l)
        | false ↦ find_end_of_run less n b d.tail l >>= λ b1.
            inplace_merge less n a b b1 l >>= λ l'. pass_from less fuel n d b1 (cnt + 1) l'
      ] in
      ap turn (not_first l d us b bs [] whole)
      ∙ ap
          (λ o. o >>= λ b1.
            inplace_merge less n a b b1 l >>= λ l'. pass_from less fuel n d b1 (cnt + 1) l')
          (find_end_of_run-run_after less l d us b bs n r h)

  -- Two runs merged, and the pass over what follows them.
  pass-append :
      (d : Dll) (us xs ys ws : List ℕ) (cnt : ℕ) (o : Option Links)
      (go : Links → Option (ℕ × Links))
      → (m : Merged less d us xs ys ws none o) → Passed d (us ++ m.list) ws (cnt + 1) (go m.links)
      → runs less (xs ++ (ys ++ ws)) ≡ suc (suc (runs less ws))
      → Passed d us (xs ++ (ys ++ ws)) cnt (o >>= go)
  pass-append d us xs ys ws cnt o go m q two = record {
    count = suc q.count;
    links = q.links;
    list = m.list ++ q.list;
    returned =
        ap (λ r. r >>= go) m.returned ∙ q.returned ∙ ap (λ k. some (k, q.links)) (omega arith);
    stored = subst (IsList q.links d) (append_assoc us m.list q.list) q.stored;
    same =
        subst (λ zs. Perm zs (m.list ++ q.list)) (append_assoc xs ys ws)
          (Perm.append m.same q.same);
    size = omega (
      arith,
      length-append m.list q.list,
      length-append xs (ys ++ ws),
      length-append ys ws,
      m.size,
      q.size,
    );
    fewer = omega (arith, runs-append less m.list q.list m.order, q.fewer);
    halved = omega (arith, q.halved, two);
  }

  nil-Passed :
      (fuel n : ℕ) (l : Links) (d : Dll) (us : List ℕ) (cnt : ℕ)
      → IsList l d (us ++ [])
      → Passed d us [] cnt (pass_from less (suc fuel) n d d.tail cnt l)
  unfolding pass_from runs
  nil-Passed fuel n l d us cnt r =
      let turn : Bool → Option (ℕ × Links) = λ t. elim t [
        | true ↦ some (cnt, l)
        | false ↦ find_end_of_run less n d.tail d.tail l >>= second fuel n d d.tail cnt l
      ] in
      record {
        count = 0;
        links = l;
        list = [];
        returned = ap turn (==-self d.tail) ∙ ap (λ k. some (k, l)) (omega arith);
        stored = r;
        same = Perm.rfl;
        size = refl;
        fewer = ground arith;
        halved = ground arith;
      }

  -- The last run alone.
  one-Passed :
      (fuel n : ℕ) (l : Links) (d : Dll) (us zs : List ℕ) (a cnt : ℕ)
      → IsList l d (us ++ zs)
      → runs less zs ≡ 1
      → Passed d us zs cnt (second fuel n d a cnt l d.tail)
  one-Passed fuel n l d us zs a cnt r one =
      let turn : Bool → Option (ℕ × Links) = λ t. elim t [
        | true ↦ some (cnt + 1, l)
        | false ↦ find_end_of_run less n d.tail d.tail l >>= λ b1.
            inplace_merge less n a d.tail b1 l >>= λ l'. pass_from less fuel n d b1 (cnt + 1) l'
      ] in
      record {
        count = 1;
        links = l;
        list = zs;
        returned = ap turn (==-self d.tail);
        stored = r;
        same = Perm.rfl;
        size = refl;
        fewer = omega (arith, one);
        halved = omega (arith, one);
      }

module _ (less : ℕ → ℕ → Bool) (asym : (x y : ℕ) → less x y ≡ true → less y x ≡ false) where
  -- Where `less` never holds both ways and the fuel exceeds the number of elements, a pass of
  -- `list_sort` over the rest of a list ends and fails no ASSERT: it keeps the elements, counts at
  -- most half of the ascending runs, rounded up, and leaves no more runs than it counts.
  pub pass_from-Passed :
      (l : Links) (d : Dll) (us zs : List ℕ) (cnt fuel n : ℕ)
      → IsList l d (us ++ zs)
      → length zs < fuel
      → length zs < n
      → Passed less d us zs cnt (pass_from less fuel n d (head_or d.tail zs) cnt l)
  pass_from-Passed l d us zs cnt zero n r h h' = absurd (omega (arith, h))
  pass_from-Passed l d us [] cnt (suc fuel) n r h h' = nil-Passed less fuel n l d us cnt r
  pass_from-Passed l d us (a ∷ zs) cnt (suc fuel) n r h h' =
      let xs = run_rest less a zs in
      let rest = run_after less a zs in
      let at : List ℕ → Option (ℕ × Links) =
        λ ys. second less fuel n d a cnt l (head_or d.tail ys) in
      let begin = pass_from-second less fuel n l d us a zs cnt r (omega (arith, h')) in
      let Goal : Option (ℕ × Links) → Type 0 = Passed less d us (a ∷ zs) cnt in
      elim (List-cases rest) [
        | inl e ↦
            let one =
              runs-run_after less a zs ∙ ap (λ ys. suc (runs less ys)) e ∙ ap suc (runs_nil less) in
            subst Goal (sym (begin ∙ ap at e)) (one-Passed less fuel n l d us (a ∷ zs) a cnt r one)
        | inr (b, bs, e) ↦
            let ys = run_rest less b bs in
            let ws = run_after less b bs in
            let first : xs ++ b ∷ bs ≡ zs = ap (λ q. xs ++ q) (sym e) ∙ run-append less a zs in
            let cut : a ∷ (xs ++ b ∷ (ys ++ ws)) ≡ a ∷ zs =
              ap (λ q. a ∷ (xs ++ b ∷ q)) (run-append less b bs) ∙ ap (λ q. a ∷ q) first in
            let r1 =
              subst (IsList l d) (sym (append_assoc us (a ∷ xs) (b ∷ bs)))
                (subst (λ q. IsList l d (us ++ a ∷ q)) (sym first) r) in
            let r2 = subst (λ q. IsList l d (us ++ q)) (sym cut) r in
            let size = ap length first ∙ refl in
            let len = length-append xs (b ∷ bs) in
            let len' = ap length (run-append less b bs) in
            let len2 = length-append ys ws in
            let m =
              inplace_merge-Merged less asym l d us (a ∷ xs) (b ∷ ys) ws n r2
                (omega (arith, h', size, len, len', len2)) (run-ascending less a zs)
                (run-ascending less b bs) in
            let q =
              pass_from-Passed m.links d (us ++ m.list) ws (cnt + 1) fuel n
                (subst (IsList m.links d) (sym (append_assoc us m.list ws)) m.stored)
                (omega (arith, h, size, len, len', len2))
                (omega (arith, h', size, len, len', len2)) in
            let two =
              ap (runs less) cut
              ∙ runs-run_after less a zs
              ∙ ap (λ ys. suc (runs less ys)) e
              ∙ ap suc (runs-run_after less b bs) in
            let merged =
              second-merge less fuel n l d (us ++ a ∷ xs) a b bs cnt r1
                (omega (arith, h', size, len)) in
            let go : Links → Option (ℕ × Links) =
              λ l'. pass_from less fuel n d (head_or d.tail ws) (cnt + 1) l' in
            subst Goal (sym (begin ∙ ap at e ∙ merged)) (
              subst
                (λ zs.
                  Passed less d us zs cnt (inplace_merge less n a b (head_or d.tail ws) l >>= go))
                cut
                (pass-append less d us (a ∷ xs) (b ∷ ys) ws cnt
                  (inplace_merge less n a b (head_or d.tail ws) l) go m q two))
      ]
