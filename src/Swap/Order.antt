-- ===== src/Swap/Order.antt =====
-- Pages are swapped out in the order in which they became swappable.
use algorithms_prepare.Prelude.{
  ℕ, ◌≡◌, refl, ap, sym, ◌∙◌, subst, false, List, [], ◌∷◌, ◌++◌, arith, length,
}
use algorithms_prepare.Sched.{linked}
use algorithms_prepare.Sched.Queue.{remove_head}
use algorithms_prepare.Links.{Links, list_del}
use algorithms_prepare.Links.Chain.{IsRing}
use algorithms_prepare.Links.Insert.{ahead_head, list_add-Joined, list_init-IsRing}
use algorithms_prepare.Links.Delete.{list_del-IsRing}
use algorithms_prepare.Swap.{
  fifo_init_mm, fifo_map_swappable, fifo_swap_out_victim, map_all, victims,
}

-- A page that becomes swappable is the last.
pub fifo_map_swappable-IsRing :
    (l : Links) (h p : ℕ) (xs : List ℕ)
    → IsRing l h xs
    → linked p (h ∷ xs) ≡ false
    → IsRing (fifo_map_swappable h p l) h (xs ++ p ∷ [])
unfolding fifo_map_swappable linked
fifo_map_swappable-IsRing l h p xs r f =
    subst (λ ys. IsRing (fifo_map_swappable h p l) h ys) (ahead_head h p xs r.0.0)
      (list_add-Joined l h xs h p r (ground arith) f).before

-- The first page is the victim.
pub fifo_swap_out_victim-IsRing :
    (l : Links) (h x : ℕ) (xs : List ℕ)
    → IsRing l h (x ∷ xs)
    → ((fifo_swap_out_victim h l).0 ≡ x) × IsRing (fifo_swap_out_victim h l).1 h xs
unfolding fifo_swap_out_victim linked
fifo_swap_out_victim-IsRing l h x xs r =
    let d = list_del-IsRing l h (x ∷ xs) x r (ground arith) in
    (
      r.1.0,
      subst (λ y. IsRing (list_del y l) h xs) (sym r.1.0)
          (subst (λ ys. IsRing (list_del x l) h ys) (remove_head x xs) d),
    )

append_nil : (xs : List ℕ) → xs ++ [] ≡ xs
append_nil [] = refl
append_nil (x ∷ xs) = ap (λ us. x ∷ us) (append_nil xs)

append_one : (p : ℕ) (xs ps : List ℕ) → (xs ++ p ∷ []) ++ ps ≡ xs ++ p ∷ ps
append_one p [] ps = refl
append_one p (x ∷ xs) ps = ap (λ us. x ∷ us) (append_one p xs ps)

-- No page of `ps` stands in the list or occurs twice.
abbrev pub AreFresh : List ℕ → List ℕ → Type 0
AreFresh [] xs = Unit
AreFresh (p ∷ ps) xs = (linked p xs ≡ false) × AreFresh ps (xs ++ p ∷ [])

map_all-IsRing :
    (l : Links) (h : ℕ) (ps xs : List ℕ)
    → IsRing l h xs
    → AreFresh ps (h ∷ xs)
    → IsRing (map_all h ps l) h (xs ++ ps)
unfolding map_all
map_all-IsRing l h [] xs r f = subst (λ ys. IsRing l h ys) (sym (append_nil xs)) r
map_all-IsRing l h (p ∷ ps) xs r f =
    subst (λ ys. IsRing (map_all h ps (fifo_map_swappable h p l)) h ys) (append_one p xs ps)
      (map_all-IsRing (fifo_map_swappable h p l) h ps (xs ++ p ∷ [])
        (fifo_map_swappable-IsRing l h p xs r f.0) f.1)

victims-IsRing :
    (l : Links) (h : ℕ) (xs ys : List ℕ)
    → IsRing l h (xs ++ ys)
    → ((victims (length xs) h l).0 ≡ xs) × IsRing (victims (length xs) h l).1 h ys
unfolding victims
victims-IsRing l h [] ys r = (refl, r)
victims-IsRing l h (x ∷ xs) ys r =
    let v = fifo_swap_out_victim-IsRing l h x (xs ++ ys) r in
    let k = victims-IsRing (fifo_swap_out_victim h l).1 h xs ys v.1 in
    (
      ap (λ y. y ∷ (victims (length xs) h (fifo_swap_out_victim h l).1).0) v.0
          ∙ ap (λ us. x ∷ us) k.0,
      k.1,
    )

-- On whatever links, after `_fifo_init_mm`, when distinct pages other than the list head become
-- swappable one after the other by `_fifo_map_swappable`, the victims of `_fifo_swap_out_victim`
-- are the first of them in that order, and the links form the list of the others.
pub victims-map_all :
    (l : Links) (h : ℕ) (xs ys : List ℕ)
    → AreFresh (xs ++ ys) (h ∷ [])
    → ((victims (length xs) h (map_all h (xs ++ ys) (fifo_init_mm h l))).0 ≡ xs)
      × IsRing (victims (length xs) h (map_all h (xs ++ ys) (fifo_init_mm h l))).1 h ys
victims-map_all l h xs ys f =
    let start : IsRing (fifo_init_mm h l) h [] = unfold fifo_init_mm in list_init-IsRing h l in
    victims-IsRing (map_all h (xs ++ ys) (fifo_init_mm h l)) h xs ys
      (map_all-IsRing (fifo_init_mm h l) h (xs ++ ys) [] start f)
