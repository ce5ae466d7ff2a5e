-- ===== src/Dll/Ends.antt =====
-- The operations of lib/kernel/list.c at the two ends of a list, and `list_size`.
use algorithms_prepare.Prelude.{
  ℕ, zero, suc, ◌+◌, ◌<◌, ◌≡◌, ◌≢◌, refl, ap, sym, ◌∙◌, subst, Bool, true, false, not, List, [],
  ◌∷◌, ◌++◌, length, Option, some, ◌>>=◌, ◌>>◌, assert, ◌==◌, arith, ==-self,
}
use mathlib.Core.List.{append-nil}
use algorithms_prepare.Sched.{linked}
use algorithms_prepare.Links.{Links}
use algorithms_prepare.Pmm.Take.{append_assoc}
use algorithms_prepare.Dll.{
  Dll, list_init, list_begin, list_next, list_insert, insert_links, list_remove, remove_links,
  list_empty, list_front, list_back, list_push_front, list_push_back, list_pop_front, list_pop_back,
  size_from, list_size,
}
use algorithms_prepare.Dll.Chained.{
  IsList, head_or, last-append, not_first, list_next-at, Chain-next, prev-first,
}
use algorithms_prepare.Dll.Insert.{insert_links-IsList, list_insert-at}
use algorithms_prepare.Dll.Remove.{remove_links-IsList, list_remove-at}

-- `list_init`, on any links, forms the empty list.
pub list_init-IsList :
    (d : Dll) (l : Links) → d.head ≢ 0 → d.tail ≢ 0 → d.head ≢ d.tail → IsList (list_init d l) d []
unfolding list_init linked
list_init-IsList d l h t n = record {
  chain = (ground (arith, n), ground (arith, n));
  unique = (refl, tt);
  tail_out = ground (arith, n);
  present = ground (arith, h);
  tail_present = t;
  head_end = ground (arith, n);
  tail_end = ground (arith, n);
}

-- An element is pushed: the list holds `ys`.
pub record Pushed (d : Dll) (ys : List ℕ) (o : Option Links) : Type 0 where
  pub links : Links
  pub returned : o ≡ some links
  pub stored : IsList links d ys

-- The element `x` is popped, and `ys` left.
pub record Popped (d : Dll) (x : ℕ) (ys : List ℕ) (o : Option (ℕ × Links)) : Type 0 where
  pub links : Links
  pub returned : o ≡ some (x, links)
  pub stored : IsList links d ys

push-at :
    (l : Links) (d : Dll) (us : List ℕ) (x : ℕ) (vs : List ℕ) (before : ℕ)
    → IsList l d (us ++ vs)
    → linked x (0 ∷ d.tail ∷ d.head ∷ (us ++ vs)) ≡ false
    → before ≡ head_or d.tail vs
    → Pushed d (us ++ x ∷ vs) (list_insert before x l)
push-at l d us x vs before r f e = record {
  links = insert_links (head_or d.tail vs) x l;
  returned = ap (λ b. list_insert b x l) e ∙ list_insert-at l d us x vs r f;
  stored = insert_links-IsList l d us x vs r f;
}

list_push_front-Pushed :
    (l : Links) (d : Dll) (x : ℕ) (xs : List ℕ)
    → IsList l d xs
    → linked x (0 ∷ d.tail ∷ d.head ∷ xs) ≡ false
    → Pushed d (x ∷ xs) (list_push_front d x l)
unfolding list_push_front
list_push_front-Pushed l d x xs r f =
    push-at l d [] x xs (list_begin d l) r f (Chain-next l d.head xs d.tail r.chain)

list_push_back-Pushed :
    (l : Links) (d : Dll) (x : ℕ) (xs : List ℕ)
    → IsList l d xs
    → linked x (0 ∷ d.tail ∷ d.head ∷ xs) ≡ false
    → Pushed d (xs ++ x ∷ []) (list_push_back d x l)
unfolding list_push_back
list_push_back-Pushed l d x xs r f =
    let same = sym (append-nil xs) in
    push-at l d xs x [] d.tail (subst (IsList l d) same r)
      (subst (λ ys. linked x (0 ∷ d.tail ∷ d.head ∷ ys) ≡ false) same f) refl

pub list_empty-at :
    (l : Links) (d : Dll) (us : List ℕ) (x : ℕ) (vs : List ℕ)
    → IsList l d (us ++ x ∷ vs)
    → list_empty d l ≡ false
list_empty-at l d [] x vs r =
    let whole = subst (λ zs. IsList l d (x ∷ zs)) (sym (append-nil vs)) r in
    ap (λ b. b == d.tail) r.chain.0 ∙ not_first l d [] x vs [] whole
list_empty-at l d (u ∷ us) x vs r =
    let whole = subst (λ zs. IsList l d (u ∷ zs)) (sym (append-nil (us ++ x ∷ vs))) r in
    ap (λ b. b == d.tail) r.chain.0 ∙ not_first l d [] u (us ++ x ∷ vs) [] whole

list_pop_front-Popped :
    (l : Links) (d : Dll) (x : ℕ) (xs : List ℕ)
    → IsList l d (x ∷ xs)
    → Popped d x xs (list_pop_front d l)
unfolding list_pop_front list_front
list_pop_front-Popped l d x xs r =
    let go : ℕ → Option (ℕ × Links) = λ e. list_remove e l >>= λ r. some (e, r.1) in
    let front : Option ℕ → Option (ℕ × Links) = λ o. o >>= go in
    record {
      links = remove_links x l;
      returned =
          ap (λ b. front (assert (not b) >> some (l.next d.head))) (list_empty-at l d [] x xs r)
          ∙ ap go r.chain.0
          ∙ ap (λ o. o >>= λ r. some (x, r.1)) (list_remove-at l d [] x xs r);
      stored = remove_links-IsList l d [] x xs r;
    }

list_pop_back-Popped :
    (l : Links) (d : Dll) (x : ℕ) (xs : List ℕ)
    → IsList l d (xs ++ x ∷ [])
    → Popped d x xs (list_pop_back d l)
unfolding list_pop_back list_back
list_pop_back-Popped l d x xs r =
    let go : ℕ → Option (ℕ × Links) = λ e. list_remove e l >>= λ r. some (e, r.1) in
    let back : Option ℕ → Option (ℕ × Links) = λ o. o >>= go in
    let whole = subst (IsList l d) (sym (append-nil (xs ++ x ∷ []))) r in
    let last = prev-first l d (xs ++ x ∷ []) [] whole ∙ last-append d.head xs x [] in
    record {
      links = remove_links x l;
      returned =
          ap (λ b. back (assert (not b) >> some (l.prev d.tail))) (list_empty-at l d xs x [] r)
          ∙ ap go last
          ∙ ap (λ o. o >>= λ r. some (x, r.1)) (list_remove-at l d xs x [] r);
      stored =
          subst (IsList (remove_links x l) d) (append-nil xs) (remove_links-IsList l d xs x [] r);
    }

-- What the operations at the ends do to a list of `xs`, with an element `x` outside it.
pub record Ends (l : Links) (d : Dll) (x : ℕ) (xs : List ℕ) : Type 0 where
  pub push_front : Pushed d (x ∷ xs) (list_push_front d x l)
  pub push_back : Pushed d (xs ++ x ∷ []) (list_push_back d x l)
  pub front_back : Popped d x xs (list_push_front d x l >>= list_pop_front d)
  pub back_back : Popped d x xs (list_push_back d x l >>= list_pop_back d)

-- On a list of list.c and an element that is not null and no entry of it, `list_push_front` and
-- `list_push_back` put the element at the front and at the back, and `list_pop_front` and
-- `list_pop_back` then return it and leave the links as a list of the others.
pub list_push-Ends :
    (l : Links) (d : Dll) (x : ℕ) (xs : List ℕ)
    → IsList l d xs
    → linked x (0 ∷ d.tail ∷ d.head ∷ xs) ≡ false
    → Ends l d x xs
list_push-Ends l d x xs r f =
    let front = list_push_front-Pushed l d x xs r f in
    let back = list_push_back-Pushed l d x xs r f in
    record {
      push_front = front;
      push_back = back;
      front_back =
          subst (λ o. Popped d x xs (o >>= list_pop_front d)) (sym front.returned)
            (list_pop_front-Popped front.links d x xs front.stored);
      back_back =
          subst (λ o. Popped d x xs (o >>= list_pop_back d)) (sym back.returned)
            (list_pop_back-Popped back.links d x xs back.stored);
    }

size_from-length :
    (l : Links) (d : Dll) (us xs : List ℕ) (cnt fuel : ℕ)
    → IsList l d (us ++ xs)
    → length xs < fuel
    → size_from fuel d (head_or d.tail xs) cnt l ≡ some (cnt + length xs)
unfolding size_from
size_from-length l d us xs cnt zero r h = absurd (omega (arith, h))
size_from-length l d us [] cnt (suc fuel) r h =
    let turn : Bool → Option ℕ = λ t. elim t [
      | true ↦ some cnt
      | false ↦ list_next d.tail l >>= λ n. size_from fuel d n (cnt + 1) l
    ] in
    ap turn (==-self d.tail) ∙ ap some (omega arith)
size_from-length l d us (x ∷ xs) cnt (suc fuel) r h =
    let whole = subst (λ zs. IsList l d (us ++ x ∷ zs)) (sym (append-nil xs)) r in
    let k = subst (IsList l d) (sym (append_assoc us (x ∷ []) xs)) r in
    let go : Option ℕ → Option ℕ = λ o. o >>= λ n. size_from fuel d n (cnt + 1) l in
    let turn : Bool → Option ℕ = λ t. elim t [ true ↦ some cnt | false ↦ go (list_next x l) ] in
    ap turn (not_first l d us x xs [] whole)
    ∙ ap go (list_next-at l d us x xs r)
    ∙ size_from-length l d (us ++ x ∷ []) xs (cnt + 1) fuel k (omega (arith, h))
    ∙ ap some (omega arith)

-- `list_size` is the number of elements.
pub list_size-length :
    (l : Links) (d : Dll) (xs : List ℕ) (fuel : ℕ)
    → IsList l d xs
    → length xs < fuel
    → list_size fuel d l ≡ some (length xs)
unfolding list_size
list_size-length l d xs fuel r h =
    ap (λ b. size_from fuel d b 0 l) (Chain-next l d.head xs d.tail r.chain)
    ∙ size_from-length l d [] xs 0 fuel r h
    ∙ ap some (omega arith)
