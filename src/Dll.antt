-- ===== src/Dll.antt =====
-- lib/kernel/list.c of Pintos, doubly linked lists with a head and a tail entry: an element is its
-- address, 0 the null pointer, and the memory of all elements the two functions of Links. `less` is the
-- client's comparison with its `aux`. `none` is a failed ASSERT, or a loop that ran out of fuel.
pub mod Chained
pub mod Insert
pub mod Remove
pub mod Splice
pub mod Ascending
pub mod Runs
pub mod Merge
pub mod Pass
pub mod Sort
pub mod Ends
pub mod Query
pub mod Reverse
pub mod Unify
pub mod Ordered
mod Tests
use algorithms_prepare.Prelude.{
  ℕ, zero, suc, ◌+◌, Bool, true, false, not, ◌&&◌, ◌||◌, Option, none, some, ◌>>=◌, ◌>>◌, assert,
  if◌then◌else◌, ltb, ◌==◌,
}
use algorithms_prepare.Links.{Links, set_prev, set_next}

-- The addresses of the two entries of a `struct list`.
pub record Dll : Type 0 where
  pub head : ℕ
  pub tail : ℕ

abbrev pub is_head : ℕ → Links → Bool
is_head elem l = not (elem == 0) && (l.prev elem == 0) && not (l.next elem == 0)

abbrev pub is_interior : ℕ → Links → Bool
is_interior elem l = not (elem == 0) && not (l.prev elem == 0) && not (l.next elem == 0)

abbrev pub is_tail : ℕ → Links → Bool
is_tail elem l = not (elem == 0) && not (l.prev elem == 0) && (l.next elem == 0)

unfoldable pub list_init : Dll → Links → Links
list_init d l =
    set_next d.tail 0 (set_prev d.tail d.head (set_next d.head d.tail (set_prev d.head 0 l)))

abbrev pub list_begin : Dll → Links → ℕ
list_begin d l = l.next d.head

unfoldable pub list_next : ℕ → Links → Option ℕ
list_next elem l = assert (is_head elem l || is_interior elem l) >> some (l.next elem)

abbrev pub list_end : Dll → ℕ
list_end d = d.tail

abbrev pub list_rbegin : Dll → Links → ℕ
list_rbegin d l = l.prev d.tail

unfoldable pub list_prev : ℕ → Links → Option ℕ
list_prev elem l = assert (is_interior elem l || is_tail elem l) >> some (l.prev elem)

abbrev pub list_rend : Dll → ℕ
list_rend d = d.head

abbrev pub insert_links : ℕ → ℕ → Links → Links
insert_links before elem l =
    let l1 = set_next elem before (set_prev elem (l.prev before) l) in
    set_prev before elem (set_next (l1.prev before) elem l1)

unfoldable pub list_insert : ℕ → ℕ → Links → Option Links
list_insert before elem l =
    assert (is_interior before l || is_tail before l)
    >> (assert (not (elem == 0)) >> some (insert_links before elem l))

-- The six assignments of `list_splice`, in their order.
abbrev pub splice_links : ℕ → ℕ → ℕ → Links → Links
splice_links before first last l =
    let l1 = set_next (l.prev first) (l.next last) l in
    let l2 = set_prev (l1.next last) (l1.prev first) l1 in
    let l3 = set_next last before (set_prev first (l2.prev before) l2) in
    set_prev before last (set_next (l3.prev before) first l3)

unfoldable pub list_splice : ℕ → ℕ → ℕ → Links → Option Links
list_splice before first last l =
    assert (is_interior before l || is_tail before l)
    >> (if first == last
        then some l
        else (list_prev last l >>= λ q.
            assert (is_interior first l)
            >> (assert (is_interior q l) >> some (splice_links before first q l))))

abbrev pub remove_links : ℕ → Links → Links
remove_links elem l =
    let l1 = set_next (l.prev elem) (l.next elem) l in set_prev (l1.next elem) (l1.prev elem) l1

-- The element behind the removed one, and the links.
unfoldable pub list_remove : ℕ → Links → Option (ℕ × Links)
list_remove elem l =
    assert (is_interior elem l) >> (let l' = remove_links elem l in some (l'.next elem, l'))

abbrev pub list_empty : Dll → Links → Bool
list_empty d l = list_begin d l == list_end d

unfoldable pub list_push_front : Dll → ℕ → Links → Option Links
list_push_front d elem l = list_insert (list_begin d l) elem l

unfoldable pub list_push_back : Dll → ℕ → Links → Option Links
list_push_back d elem l = list_insert (list_end d) elem l

unfoldable pub list_front : Dll → Links → Option ℕ
list_front d l = assert (not (list_empty d l)) >> some (l.next d.head)

unfoldable pub list_back : Dll → Links → Option ℕ
list_back d l = assert (not (list_empty d l)) >> some (l.prev d.tail)

unfoldable pub list_pop_front : Dll → Links → Option (ℕ × Links)
list_pop_front d l = list_front d l >>= λ e. list_remove e l >>= λ r. some (e, r.1)

unfoldable pub list_pop_back : Dll → Links → Option (ℕ × Links)
list_pop_back d l = list_back d l >>= λ e. list_remove e l >>= λ r. some (e, r.1)

-- The loop of `list_size`.
unfoldable pub size_from : ℕ → Dll → ℕ → ℕ → Links → Option ℕ
size_from zero d e cnt l = none
size_from (suc fuel) d e cnt l = elim (e == list_end d) [
  | true ↦ some cnt
  | false ↦ list_next e l >>= λ n. size_from fuel d n (cnt + 1) l
]

unfoldable pub list_size : ℕ → Dll → Links → Option ℕ
list_size fuel d l = size_from fuel d (list_begin d l) 0 l

-- `swap` of the two links of an entry, and the loop of `list_reverse`.
abbrev pub swap : ℕ → Links → Links
swap e l = set_next e (l.prev e) (set_prev e (l.next e) l)

unfoldable pub reverse_from : ℕ → Dll → ℕ → Links → Option Links
reverse_from zero d e l = none
reverse_from (suc fuel) d e l = elim (e == list_end d) [
  | true ↦ some l
  | false ↦ let l' = swap e l in reverse_from fuel d (l'.prev e) l'
]

-- The two calls of `swap` behind the loop.
abbrev pub swap_ends : Dll → Links → Links
swap_ends d l =
    let l1 = set_prev d.tail (l.next d.head) (set_next d.head (l.prev d.tail) l) in
    let first = l1.next d.head in
    let last = l1.prev d.tail in set_next last (l1.prev first) (set_prev first (l1.next last) l1)

unfoldable pub list_reverse : ℕ → Dll → Links → Option Links
list_reverse fuel d l =
    if list_empty d l
    then some l
    else (reverse_from fuel d (list_begin d l) l >>= λ l'. some (swap_ends d l'))

module _ (less : ℕ → ℕ → Bool) where
  -- The loop of `is_sorted`.
  unfoldable pub is_sorted_from : ℕ → ℕ → ℕ → Links → Option Bool
  is_sorted_from zero a b l = none
  is_sorted_from (suc fuel) a b l = list_next a l >>= λ n. elim (n == b) [
    | true ↦ some true
    | false ↦ list_prev n l >>= λ p. elim (less n p) [
      | true ↦ some false
      | false ↦ is_sorted_from fuel n b l
    ]
  ]

  unfoldable pub is_sorted : ℕ → ℕ → ℕ → Links → Option Bool
  is_sorted fuel a b l = if a == b then some true else is_sorted_from fuel a b l

  -- The loop of `find_end_of_run`.
  unfoldable pub run_from : ℕ → ℕ → ℕ → Links → Option ℕ
  run_from zero a b l = none
  run_from (suc fuel) a b l = list_next a l >>= λ n. elim (n == b) [
    | true ↦ some n
    | false ↦ list_prev n l >>= λ p. elim (less n p) [ true ↦ some n | false ↦ run_from fuel n b l ]
  ]

  unfoldable pub find_end_of_run : ℕ → ℕ → ℕ → Links → Option ℕ
  find_end_of_run fuel a b l =
      assert (not (a == 0))
      >> (assert (not (b == 0)) >> (assert (not (a == b)) >> run_from fuel a b l))

  -- The loop of `inplace_merge`.
  unfoldable pub merge_from : ℕ → ℕ → ℕ → ℕ → Links → Option Links
  merge_from zero a0 a1b0 b1 l = none
  merge_from (suc fuel) a0 a1b0 b1 l = elim (not (a0 == a1b0) && not (a1b0 == b1)) [
    | false ↦ some l
    | true ↦ elim (less a1b0 a0) [
      | false ↦ list_next a0 l >>= λ n. merge_from fuel n a1b0 b1 l
      | true ↦ list_next a1b0 l >>= λ n.
          list_prev n l >>= λ p. list_splice a0 p n l >>= λ l'. merge_from fuel a0 n b1 l'
    ]
  ]

  unfoldable pub inplace_merge : ℕ → ℕ → ℕ → ℕ → Links → Option Links
  inplace_merge fuel a0 a1b0 b1 l =
      assert (not (a0 == 0))
      >> (assert (not (a1b0 == 0))
          >> (assert (not (b1 == 0))
              >> (is_sorted fuel a0 a1b0 l >>= λ s.
                  assert s
                  >> (is_sorted fuel a1b0 b1 l >>= λ r. assert r >> merge_from fuel a0 a1b0 b1 l))))

  -- A pass of `list_sort` from `a0` on, with the number of runs output so far; `n` is the fuel of the
  -- loops inside.
  unfoldable pub pass_from : ℕ → ℕ → Dll → ℕ → ℕ → Links → Option (ℕ × Links)
  pass_from zero n d a0 cnt l = none
  pass_from (suc fuel) n d a0 cnt l = elim (a0 == list_end d) [
    | true ↦ some (cnt, l)
    | false ↦ find_end_of_run n a0 (list_end d) l >>= λ a1b0. elim (a1b0 == list_end d) [
      | true ↦ some (cnt + 1, l)
      | false ↦ find_end_of_run n a1b0 (list_end d) l >>= λ b1.
          inplace_merge n a0 a1b0 b1 l >>= λ l'. pass_from fuel n d b1 (cnt + 1) l'
    ]
  ]

  unfoldable pub sort_passes : ℕ → ℕ → Dll → Links → Option Links
  sort_passes zero n d l = none
  sort_passes (suc fuel) n d l = pass_from n n d (list_begin d l) 0 l >>= λ r. elim (ltb 1 r.0) [
    | true ↦ sort_passes fuel n d r.1
    | false ↦ some r.1
  ]

  unfoldable pub list_sort : ℕ → Dll → Links → Option Links
  list_sort fuel d l = sort_passes fuel fuel d l >>= λ l'.
      is_sorted fuel (list_begin d l') (list_end d) l' >>= λ s. assert s >> some l'

  -- The loop of `list_insert_ordered`.
  unfoldable pub place_from : ℕ → Dll → ℕ → ℕ → Links → Option ℕ
  place_from zero d elem e l = none
  place_from (suc fuel) d elem e l = elim (e == list_end d) [
    | true ↦ some e
    | false ↦ elim (less elem e) [
      | true ↦ some e
      | false ↦ list_next e l >>= λ n. place_from fuel d elem n l
    ]
  ]

  unfoldable pub list_insert_ordered : ℕ → Dll → ℕ → Links → Option Links
  list_insert_ordered fuel d elem l =
      assert (not (elem == 0))
      >> (place_from fuel d elem (list_begin d l) l >>= λ e. list_insert e elem l)

  -- The loop of `list_unique`; `duplicates` may be null.
  unfoldable pub unique_from : ℕ → Dll → Option Dll → ℕ → Links → Option Links
  unique_from zero d duplicates elem l = none
  unique_from (suc fuel) d duplicates elem l = list_next elem l >>= λ next.
      elim (next == list_end d) [
        | true ↦ some l
        | false ↦ elim (not (less elem next) && not (less next elem)) [
          | true ↦ list_remove next l >>= λ r.
              elim duplicates [ none ↦ some r.1 | some u ↦ list_push_back u next r.1 ] >>= λ l'.
              unique_from fuel d duplicates elem l'
          | false ↦ unique_from fuel d duplicates next l
        ]
      ]

  unfoldable pub list_unique : ℕ → Dll → Option Dll → Links → Option Links
  list_unique fuel d duplicates l =
      if list_empty d l then some l else unique_from fuel d duplicates (list_begin d l) l

  -- The loops of `list_max` and `list_min`.
  unfoldable pub max_from : ℕ → Dll → ℕ → ℕ → Links → Option ℕ
  max_from zero d max e l = none
  max_from (suc fuel) d max e l = elim (e == list_end d) [
    | true ↦ some max
    | false ↦ list_next e l >>= λ n. max_from fuel d (if less max e then e else max) n l
  ]

  unfoldable pub list_max : ℕ → Dll → Links → Option ℕ
  list_max fuel d l =
      let max = list_begin d l in
      if max == list_end d then some max else (list_next max l >>= λ e. max_from fuel d max e l)

  unfoldable pub min_from : ℕ → Dll → ℕ → ℕ → Links → Option ℕ
  min_from zero d min e l = none
  min_from (suc fuel) d min e l = elim (e == list_end d) [
    | true ↦ some min
    | false ↦ list_next e l >>= λ n. min_from fuel d (if less e min then e else min) n l
  ]

  unfoldable pub list_min : ℕ → Dll → Links → Option ℕ
  list_min fuel d l =
      let min = list_begin d l in
      if min == list_end d then some min else (list_next min l >>= λ e. min_from fuel d min e l)
