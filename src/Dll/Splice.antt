-- ===== src/Dll/Splice.antt =====
-- `list_splice` of one entry, as a merge calls it.
use algorithms_prepare.Prelude.{
  ℕ, ◌≡◌, ap, sym, ◌∙◌, subst, true, false, ◌||◌, List, [], ◌∷◌, ◌++◌, Option, some, ◌>>=◌, ◌>>◌,
  assert, if◌then◌else◌, ◌==◌, arith,
}
use algorithms_prepare.Sched.{linked}
use algorithms_prepare.Links.{Links}
use algorithms_prepare.Pmm.Take.{append_assoc}
use algorithms_prepare.Dll.{
  Dll, list_prev, is_interior, is_tail, remove_links, splice_links, list_splice,
}
use algorithms_prepare.Dll.Chained.{IsList, head_or, interior-at, list_prev-at, not_first}
use algorithms_prepare.Dll.Insert.{insert_links-IsList}
use algorithms_prepare.Dll.Remove.{remove_links-IsList, removed_out}

-- The step of a merge: the entry `y` behind the entries `vs` goes before them.
pub list_splice-at :
    (l : Links) (d : Dll) (us : List ℕ) (x : ℕ) (vs : List ℕ) (y : ℕ) (ws : List ℕ)
    → IsList l d (us ++ x ∷ (vs ++ y ∷ ws))
    → list_splice x y (head_or d.tail ws) l ≡ some (splice_links x y y l)
unfolding list_splice
list_splice-at l d us x vs y ws r =
    let k = subst (IsList l d) (sym (append_assoc us (x ∷ vs) (y ∷ ws))) r in
    let e = head_or d.tail ws in
    let at = interior-at l d (us ++ x ∷ vs) y ws k in
    let before : (is_interior x l || is_tail x l) ≡ true =
      ground (arith, interior-at l d us x (vs ++ y ∷ ws) r) in
    let last : ℕ → Option Links =
      λ q. assert (is_interior y l) >> (assert (is_interior q l) >> some (splice_links x y q l)) in
    ap (λ b. assert b >> (if y == e then some l else (list_prev e l >>= last))) before
    ∙ ap (λ b. if b then some l else (list_prev e l >>= last))
        (not_first l d (us ++ x ∷ vs) y [] ws k)
    ∙ ap (λ o. o >>= last) (list_prev-at l d (us ++ x ∷ vs) y ws k)
    ∙ ap (λ b. assert b >> (assert b >> some (splice_links x y y l))) at

pub splice_links-IsList :
    (l : Links) (d : Dll) (us : List ℕ) (x : ℕ) (vs : List ℕ) (y : ℕ) (ws : List ℕ)
    → IsList l d (us ++ x ∷ (vs ++ y ∷ ws))
    → IsList (splice_links x y y l) d (us ++ y ∷ x ∷ (vs ++ ws))
splice_links-IsList l d us x vs y ws r =
    let k = subst (IsList l d) (sym (append_assoc us (x ∷ vs) (y ∷ ws))) r in
    let whole = append_assoc us (x ∷ vs) ws in
    let gone =
      subst (IsList (remove_links y l) d) whole (remove_links-IsList l d (us ++ x ∷ vs) y ws k) in
    let out =
      subst (λ xs. linked y (0 ∷ d.tail ∷ d.head ∷ xs) ≡ false) whole
        (removed_out l d (us ++ x ∷ vs) y ws k) in
    insert_links-IsList (remove_links y l) d us y (x ∷ (vs ++ ws)) gone out
