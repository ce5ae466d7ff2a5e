-- ===== src/Dll/Reverse.antt =====
-- `list_reverse` of lib/kernel/list.c.
use algorithms_prepare.Prelude.{
  ℕ, zero, suc, ◌<◌, ◌≡◌, refl, ap, sym, ◌∙◌, subst, inl, inr, Bool, true, false, ◌||◌, List, [],
  ◌∷◌, length, Option, some, ◌>>=◌, if◌then◌else◌, ◌==◌, arith, Bool-cases, ==-self,
}
use algorithms_prepare.Sched.{linked}
use algorithms_prepare.Sched.Queue.{Unique}
use algorithms_prepare.Links.{Links}
use algorithms_prepare.Links.Chain.{Chain}
use algorithms_prepare.Dll.{
  Dll, list_begin, list_empty, swap, reverse_from, swap_ends, list_reverse,
}
use algorithms_prepare.Dll.Chained.{
  IsList, linked_other, head_or, last_or, Chain-next, Chain-last, linked-last_or,
}
use algorithms_prepare.Dll.Ends.{list_empty-at}

-- The elements of `xs` in reverse, before `acc`.
abbrev pub reverse_onto : List ℕ → List ℕ → List ℕ
reverse_onto [] acc = acc
reverse_onto (x ∷ xs) acc = reverse_onto xs (x ∷ acc)

abbrev swap_all : List ℕ → Links → Links
swap_all [] l = l
swap_all (x ∷ xs) l = swap_all xs (swap x l)

abbrev Follows : Links → List ℕ → ℕ → Type 0
Follows l [] t = Unit
Follows l (x ∷ xs) t = (l.next x ≡ head_or t xs) × Follows l xs t

Follows-swap :
    (l : Links) (y : ℕ) (xs : List ℕ) (t : ℕ)
    → linked y xs ≡ false
    → Follows l xs t
    → Follows (swap y l) xs t
unfolding linked
Follows-swap l y [] t h f = tt
Follows-swap l y (x ∷ xs) t h f =
    (ground (arith, h, f.0), Follows-swap l y xs t (ground (arith, h)) f.1)

Follows-Chain : (l : Links) (a : ℕ) (xs : List ℕ) (t : ℕ) → Chain l a xs t → Follows l xs t
Follows-Chain l a [] t c = tt
Follows-Chain l a (x ∷ xs) t c = (Chain-next l x xs t c.2, Follows-Chain l x xs t c.2)

reverse_from-swap_all :
    (l : Links) (d : Dll) (xs : List ℕ) (fuel : ℕ)
    → Follows l xs d.tail
    → Unique xs
    → linked d.tail xs ≡ false
    → length xs < fuel
    → reverse_from fuel d (head_or d.tail xs) l ≡ some (swap_all xs l)
unfolding reverse_from linked
reverse_from-swap_all l d xs zero f u t h = absurd (omega (arith, h))
reverse_from-swap_all l d [] (suc fuel) f u t h =
    let turn : Bool → Option Links = λ b. elim b [
      | true ↦ some l
      | false ↦ reverse_from fuel d ((swap d.tail l).prev d.tail) (swap d.tail l)
    ] in
    ap turn (==-self d.tail)
reverse_from-swap_all l d (x ∷ xs) (suc fuel) f u t h =
    let turn : Bool → Option Links =
      λ b. elim b [ true ↦ some l | false ↦ reverse_from fuel d ((swap x l).prev x) (swap x l) ] in
    let on : (swap x l).prev x ≡ head_or d.tail xs = ground (arith, f.0) in
    let here : (x == d.tail) ≡ false = ground (arith, t) in
    ap turn here
    ∙ ap (λ e. reverse_from fuel d e (swap x l)) on
    ∙ reverse_from-swap_all (swap x l) d xs fuel (Follows-swap l x xs d.tail u.0 f.1) u.1
        (ground (arith, t)) (omega (arith, h))

-- What the loop does to each entry.
record Swapped (xs : List ℕ) (l l' : Links) (i : ℕ) : Type 0 where
  next_in : linked i xs ≡ true → l'.next i ≡ l.prev i
  prev_in : linked i xs ≡ true → l'.prev i ≡ l.next i
  next_out : linked i xs ≡ false → l'.next i ≡ l.next i
  prev_out : linked i xs ≡ false → l'.prev i ≡ l.prev i

swap_all-Swapped : (xs : List ℕ) (l : Links) (i : ℕ) → Unique xs → Swapped xs l (swap_all xs l) i
unfolding linked
swap_all-Swapped [] l i u = record {
  next_in = λ m. cc;
  prev_in = λ m. cc;
  next_out = λ m. refl;
  prev_out = λ m. refl;
}
swap_all-Swapped (x ∷ xs) l i u =
    let r = swap_all-Swapped xs (swap x l) i u.1 in
    elim (Bool-cases (i == x)) [
      | inl e ↦
          let at : i ≡ x = ground (arith, e) in
          let out : linked i xs ≡ false = subst (λ j. linked j xs ≡ false) (sym at) u.0 in
          record {
            next_in = λ m. r.next_out out ∙ ground (arith, e, ap l.prev at);
            prev_in = λ m. r.prev_out out ∙ ground (arith, e, ap l.next at);
            next_out = λ m. absurd (ground (arith, m, e));
            prev_out = λ m. absurd (ground (arith, m, e));
          }
      | inr e ↦ record {
        next_in = λ m. r.next_in (ground (arith, m, e)) ∙ ground (arith, e);
        prev_in = λ m. r.prev_in (ground (arith, m, e)) ∙ ground (arith, e);
        next_out = λ m. r.next_out (ground (arith, m, e)) ∙ ground (arith, e);
        prev_out = λ m. r.prev_out (ground (arith, m, e)) ∙ ground (arith, e);
      }
    ]

last_other : (w x : ℕ) (us : List ℕ) → linked w (x ∷ us) ≡ false → (w == last_or x us) ≡ false
last_other w x us h = elim (Bool-cases (w == last_or x us)) [
  | inl e ↦
      let at : last_or x us ≡ w = ground (arith, e) in
      let here = subst (λ i. linked i (x ∷ us) ≡ true) at (linked-last_or x us) in cc
  | inr e ↦ e
]

Chain-end : (l : Links) (a : ℕ) (xs : List ℕ) (b : ℕ) → Chain l a xs b → l.next (last_or a xs) ≡ b
Chain-end l a [] b c = c.0
Chain-end l a (x ∷ xs) b c = Chain-end l x xs b c.2

-- Links that lead back along the chain `x ∷ xs` to `h`, in front of `acc`.
reverse-Chain :
    (l l' : Links) (x : ℕ) (xs : List ℕ) (b h t : ℕ) (acc : List ℕ)
    → Chain l x xs b
    → Chain l' x acc t
    → ((i : ℕ) → linked i xs ≡ true → l'.next i ≡ l.prev i)
    → ((i : ℕ) → linked i (x ∷ xs) ≡ true → (i == last_or x xs) ≡ false → l'.prev i ≡ l.next i)
    → l'.next h ≡ last_or x xs
    → l'.prev (last_or x xs) ≡ h
    → Unique (x ∷ xs)
    → Chain l' h (reverse_onto (x ∷ xs) acc) t
unfolding linked
reverse-Chain l l' x [] b h t acc c k n p e s u = (e, s, k)
reverse-Chain l l' x (y ∷ xs) b h t acc c k n p e s u =
    let apart : (x == last_or y xs) ≡ false = last_other x y xs u.0 in
    reverse-Chain l l' y xs b h t (x ∷ acc) c.2
      (n y (ground arith) ∙ c.1, p x (ground arith) apart ∙ c.0, k) (λ i m. n i (ground (arith, m)))
      (λ i m q. p i (ground (arith, m)) q) e s u.1

linked-reverse_onto :
    (i : ℕ) (xs acc : List ℕ) → linked i (reverse_onto xs acc) ≡ (linked i xs || linked i acc)
unfolding linked
linked-reverse_onto i [] acc = refl
linked-reverse_onto i (x ∷ xs) acc = ground (arith, linked-reverse_onto i xs (x ∷ acc))

Unique-reverse_onto :
    (xs acc : List ℕ)
    → Unique xs
    → Unique acc
    → ((i : ℕ) → linked i xs ≡ true → linked i acc ≡ false)
    → Unique (reverse_onto xs acc)
unfolding linked
Unique-reverse_onto [] acc u v n = v
Unique-reverse_onto (x ∷ xs) acc u v n =
    Unique-reverse_onto xs (x ∷ acc) u.1 (n x (ground arith), v)
      (λ i m. elim (Bool-cases (i == x)) [
        | inl e ↦
            let at : i ≡ x = ground (arith, e) in
            let here = subst (λ j. linked j xs ≡ true) at m in let no_x = u.0 in cc
        | inr e ↦ ground (arith, e, n i (ground (arith, m)))
      ])

-- What the two calls of `swap` leave: the links at the ends turned round.
swap_ends-Chain :
    (l : Links) (d : Dll) (x : ℕ) (xs : List ℕ)
    → IsList l d (x ∷ xs)
    → Chain (swap_ends d (swap_all (x ∷ xs) l)) d.head (reverse_onto (x ∷ xs) []) d.tail
unfolding linked
swap_ends-Chain l d x xs r =
    let l1 = swap_all (x ∷ xs) l in
    let z = last_or x xs in
    let m = swap_ends d l1 in
    let at : (i : ℕ) → Swapped (x ∷ xs) l l1 i = λ i. swap_all-Swapped (x ∷ xs) l i r.unique.1 in
    let out = r.tail_out in
    let zin = linked-last_or x xs in
    let head_z = last_other d.head x xs r.unique.0 in
    let tail_z = last_other d.tail x xs (ground (arith, out)) in
    let nh : l1.next d.head ≡ x = (at d.head).next_out r.unique.0 ∙ r.chain.0 in
    let pt : l1.prev d.tail ≡ z =
      (at d.tail).prev_out (ground (arith, out)) ∙ Chain-last l d.head (x ∷ xs) d.tail r.chain in
    let pz : l1.prev z ≡ d.tail = (at z).prev_in zin ∙ Chain-end l x xs d.tail r.chain.2 in
    let nx : l1.next x ≡ d.head = (at x).next_in (ground arith) ∙ r.chain.1 in
    reverse-Chain l m x xs d.tail d.head d.tail [] r.chain.2
      (
        ground (arith, nh, pt, pz, out, r.unique.0, tail_z, head_z),
        ground (arith, nh, pt, pz, out, r.unique.0, tail_z, head_z),
      )
      (λ i k.
        let ix = linked_other i x xs k r.unique.1.0 in
        let ih = linked_other i d.head (x ∷ xs) (ground (arith, k)) r.unique.0 in
        ground (arith, nh, pt, ix, ih, (at i).next_in (ground (arith, k))))
      (λ i k q.
        let it = linked_other i d.tail (x ∷ xs) k (ground (arith, out)) in
        ground (arith, nh, pt, q, it, (at i).prev_in k))
      (ground (arith, nh, pt, out, r.unique.0, tail_z, head_z))
      (ground (arith, nh, pt, nx, out, r.unique.0, tail_z, head_z)) r.unique.1

-- The outcome of `list_reverse`.
pub record Reversed (d : Dll) (xs : List ℕ) (o : Option Links) : Type 0 where
  pub links : Links
  pub returned : o ≡ some links
  pub stored : IsList links d (reverse_onto xs [])

swap_ends-IsList :
    (l : Links) (d : Dll) (x : ℕ) (xs : List ℕ)
    → IsList l d (x ∷ xs)
    → IsList (swap_ends d (swap_all (x ∷ xs) l)) d (reverse_onto (x ∷ xs) [])
unfolding linked
swap_ends-IsList l d x xs r =
    let l1 = swap_all (x ∷ xs) l in
    let at : (i : ℕ) → Swapped (x ∷ xs) l l1 i = λ i. swap_all-Swapped (x ∷ xs) l i r.unique.1 in
    let ys = x ∷ xs in
    let out = r.tail_out in
    let zero_out = r.present in
    let head_z = last_other d.head x xs r.unique.0 in
    let tail_z = last_other d.tail x xs (ground (arith, out)) in
    let nh : l1.next d.head ≡ x = (at d.head).next_out r.unique.0 ∙ r.chain.0 in
    let pt : l1.prev d.tail ≡ last_or x xs =
      (at d.tail).prev_out (ground (arith, out)) ∙ Chain-last l d.head (x ∷ xs) d.tail r.chain in
    record {
      chain = swap_ends-Chain l d x xs r;
      unique = (
        ground (arith, linked-reverse_onto d.head ys [], r.unique.0),
        Unique-reverse_onto ys [] r.unique.1 tt (λ i m. refl),
      );
      tail_out = ground (arith, linked-reverse_onto d.tail ys [], out);
      present = ground (arith, linked-reverse_onto 0 ys [], zero_out);
      tail_present = r.tail_present;
      head_end = ground (arith, nh, pt, head_z, out, r.head_end, (at d.head).prev_out r.unique.0);
      tail_end =
          ground
            (arith, nh, pt, tail_z, out, r.tail_end, (at d.tail).next_out (ground (arith, out)));
    }

-- On a list of list.c, with fuel beyond the number of elements, `list_reverse` ends and the links
-- form the same list with its elements in reverse.
pub list_reverse-Reversed :
    (l : Links) (d : Dll) (xs : List ℕ) (fuel : ℕ)
    → IsList l d xs
    → length xs < fuel
    → Reversed d xs (list_reverse fuel d l)
unfolding list_reverse linked
list_reverse-Reversed l d [] fuel r h = record {
  links = l;
  returned = let here : list_empty d l ≡ true = ground (arith, r.chain.0) in rw here refl;
  stored = r;
}
list_reverse-Reversed l d (x ∷ xs) fuel r h =
    let go : Option Links → Option Links = λ o. o >>= λ l'. some (swap_ends d l') in
    record {
      links = swap_ends d (swap_all (x ∷ xs) l);
      returned =
          ap (λ b. if b then some l else go (reverse_from fuel d (list_begin d l) l))
            (list_empty-at l d [] x xs r)
          ∙ ap (λ e. go (reverse_from fuel d e l)) r.chain.0
          ∙ ap go (
              reverse_from-swap_all l d (x ∷ xs) fuel
                (Follows-Chain l d.head (x ∷ xs) d.tail r.chain) r.unique.1
                (ground (arith, r.tail_out)) h);
      stored = swap_ends-IsList l d x xs r;
    }
