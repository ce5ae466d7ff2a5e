-- ===== src/Swap.antt =====
-- kern/mm/swap_fifo.c of Mooc_OS_Lab/lab1 (the other labs hold the same file): the queue of pages that
-- may be swapped out, on the links of list.h. A page is the number of its entry. `in_tick` is zero, as
-- the assert on it wants.
pub mod Order
mod Tests
use algorithms_prepare.Prelude.{ℕ, zero, suc, List, [], ◌∷◌}
use algorithms_prepare.Links.{Links, list_init, list_add_before, list_next, list_del}

unfoldable pub fifo_init_mm : ℕ → Links → Links
fifo_init_mm head l = list_init head l

unfoldable pub fifo_map_swappable : ℕ → ℕ → Links → Links
fifo_map_swappable head entry l = list_add_before head entry l

-- The page, and the links without it.
unfoldable pub fifo_swap_out_victim : ℕ → Links → ℕ × Links
fifo_swap_out_victim head l = let le = list_next head l in (le, list_del le l)

-- One after the other: pages that become swappable, and victims.
unfoldable pub map_all : ℕ → List ℕ → Links → Links
map_all head [] l = l
map_all head (p ∷ ps) l = map_all head ps (fifo_map_swappable head p l)

unfoldable pub victims : ℕ → ℕ → Links → List ℕ × Links
victims zero head l = ([], l)
victims (suc n) head l =
    let first = fifo_swap_out_victim head l in
    let rest = victims n head first.1 in (first.0 ∷ rest.0, rest.1)
