-- ===== src/Swap/Tests.antt =====
-- The order of victims for the pages 4, 9 and 2 on the list head 50, in a memory of stale links.
use algorithms_prepare.Prelude.{◌≡◌, refl, [], ◌∷◌}
use algorithms_prepare.Sched.{linked}
use algorithms_prepare.Links.{Links}
use algorithms_prepare.Links.Chain.{IsRing}
use algorithms_prepare.Swap.{fifo_init_mm, map_all, victims}
use algorithms_prepare.Swap.Order.{AreFresh, victims-map_all}

abbrev stale : Links
stale = record { prev = λ i. 6; next = λ i. 8 }

three-AreFresh : AreFresh (4 ∷ 9 ∷ 2 ∷ []) (50 ∷ [])
unfolding linked
three-AreFresh = (refl, (refl, (refl, tt)))

victims_example :
    ((victims 2 50 (map_all 50 (4 ∷ 9 ∷ 2 ∷ []) (fifo_init_mm 50 stale))).0 ≡ 4 ∷ 9 ∷ [])
    × IsRing (victims 2 50 (map_all 50 (4 ∷ 9 ∷ 2 ∷ []) (fifo_init_mm 50 stale))).1 50 (2 ∷ [])
victims_example = victims-map_all stale 50 (4 ∷ 9 ∷ []) (2 ∷ []) three-AreFresh
