-- ===== src/Dll/Tests.antt =====
-- The list's theorems at the elements 5, 9 and 7 between the ends 100 and 200.
use algorithms_prepare.Prelude.{ℕ, ◌≡◌, refl, true, false, [], ◌∷◌, none, some, ltb, ◌>>=◌, arith}
use algorithms_prepare.Sched.{linked}
use algorithms_prepare.Links.{Links, set_prev, set_next}
use algorithms_prepare.Dll.{Dll, inplace_merge, pass_from, list_sort, list_insert_ordered}
use algorithms_prepare.Dll.{
  sort_passes, find_end_of_run, run_from, is_sorted, is_sorted_from, merge_from, list_splice,
  list_next, list_prev,
}
use algorithms_prepare.Dll.Ascending.{ascending}
use algorithms_prepare.Dll.Chained.{IsList}
use algorithms_prepare.Dll.Ends.{Ends, list_push-Ends}
use algorithms_prepare.Dll.Pass.{Passed, pass_from-Passed}
use algorithms_prepare.Dll.{list_reverse}
use algorithms_prepare.Dll.Reverse.{Reversed, list_reverse-Reversed}
use algorithms_prepare.Dll.Sort.{Sorted, list_sort-Sorted}
use algorithms_prepare.Dll.Ordered.{list_insert_ordered-Sorted}

abbrev queue : Dll
queue = record { head = 100; tail = 200 }

abbrev join : ℕ → ℕ → Links → Links
join a b l = set_next a b (set_prev b a l)

abbrev nowhere : Links
nowhere = record { prev = λ i. 0; next = λ i. 0 }

abbrev three : Links
three = join 100 5 (join 5 9 (join 9 7 (join 7 200 nowhere)))

three-IsList : IsList three queue (5 ∷ 9 ∷ 7 ∷ [])
unfolding linked
three-IsList = record {
  chain = (refl, refl, (refl, refl, (refl, refl, (refl, refl))));
  unique = (refl, (refl, (refl, (refl, tt))));
  tail_out = refl;
  present = refl;
  tail_present = λ e. absurd (omega (arith, e));
  head_end = refl;
  tail_end = refl;
}

ltb_asym : (x y : ℕ) → ltb x y ≡ true → ltb y x ≡ false
ltb_asym x y h = ground (arith, h)

ltb_trans : (x y z : ℕ) → ltb x y ≡ true → ltb y z ≡ true → ltb x z ≡ true
ltb_trans x y z h k = ground (arith, h, k)

eight_out : linked 8 (0 ∷ 200 ∷ 100 ∷ 5 ∷ 9 ∷ 7 ∷ []) ≡ false
unfolding linked
eight_out = refl

Ends_example : Ends three queue 8 (5 ∷ 9 ∷ 7 ∷ [])
Ends_example = list_push-Ends three queue 8 (5 ∷ 9 ∷ 7 ∷ []) three-IsList eight_out

up_to_nine : ascending ltb none (5 ∷ 9 ∷ []) ≡ true
unfolding ascending
up_to_nine = refl

Reversed_example : Reversed queue (5 ∷ 9 ∷ 7 ∷ []) (list_reverse 9 queue three)
Reversed_example = list_reverse-Reversed three queue (5 ∷ 9 ∷ 7 ∷ []) 9 three-IsList (omega arith)

Passed_example : Passed ltb queue [] (5 ∷ 9 ∷ 7 ∷ []) 0 (pass_from ltb 9 9 queue 5 0 three)
Passed_example =
    pass_from-Passed ltb ltb_asym three queue [] (5 ∷ 9 ∷ 7 ∷ []) 0 9 9 three-IsList (omega arith)
      (omega arith)

Sorted_example : Sorted ltb queue (5 ∷ 9 ∷ 7 ∷ []) (list_sort ltb 9 queue three)
Sorted_example =
    list_sort-Sorted ltb ltb_asym three queue (5 ∷ 9 ∷ 7 ∷ []) 9 three-IsList (omega arith)

abbrev two : Links
two = join 100 5 (join 5 9 (join 9 200 nowhere))

two-IsList : IsList two queue (5 ∷ 9 ∷ [])
unfolding linked
two-IsList = record {
  chain = (refl, refl, (refl, refl, (refl, refl)));
  unique = (refl, (refl, (refl, tt)));
  tail_out = refl;
  present = refl;
  tail_present = λ e. absurd (omega (arith, e));
  head_end = refl;
  tail_end = refl;
}

seven_out : linked 7 (0 ∷ 200 ∷ 100 ∷ 5 ∷ 9 ∷ []) ≡ false
unfolding linked
seven_out = refl

ordered_example : Sorted ltb queue (7 ∷ 5 ∷ 9 ∷ []) (list_insert_ordered ltb 9 queue 7 two)
ordered_example =
    list_insert_ordered-Sorted ltb ltb_asym two queue 7 (5 ∷ 9 ∷ []) 9 two-IsList up_to_nine
      seven_out (omega arith)

-- `list_sort`, run.
sort_run : (list_sort ltb 9 queue three >>= λ l. some (l.next 5)) ≡ some 7
unfolding list_sort sort_passes pass_from find_end_of_run run_from inplace_merge is_sorted
    is_sorted_from merge_from list_splice list_next list_prev
sort_run = refl
