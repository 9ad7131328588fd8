-- ===== src/Iterable/Tests.antt =====
-- Loops over short values, and the theorems at concrete inputs.
use mathlib.Core.Option
use openscad_cpp_evaluator.Prelude.{
  ℕ, ◌+◌, ◌*◌, ◌/◌, ◌≡◌, refl, arith, true, [], ◌∷◌, map, none, some,
}
use openscad_cpp_evaluator.Value.{
  Doubles, OscRange, number, string, range, object, no_fields, field, is_empty,
}
use openscad_cpp_evaluator.Value.Naturals.{naturals}
use openscad_cpp_evaluator.Iterable.{
  ListBuilder, listed, in_range, range_walk, range_size, advance, access_all, range_element_count,
  expand_iterable, all_values, each_values, push, finish, append_each, append_each_into,
}
use openscad_cpp_evaluator.Iterable.Access.{IsCurrent, access_all-map}
use openscad_cpp_evaluator.Iterable.Walk.{numbers_from, expand_iterable-numbers_from}
use openscad_cpp_evaluator.Iterable.Builder.{finish-append_each}

-- [2 : 3 : 9].
abbrev threes : OscRange ℕ
threes = record { start = 2; step = 3; end = 9 }

three_values : range_walk naturals 5 threes 2 ≡ some (number 2 ∷ number 5 ∷ number 8 ∷ [])
unfolding range_walk in_range
three_values = refl

access_all-map_example :
    access_all naturals threes none (2 ∷ 0 ∷ 4 ∷ 4 ∷ [])
    ≡ map (λ i. advance naturals i threes 2) (2 ∷ 0 ∷ 4 ∷ 4 ∷ [])
unfolding IsCurrent
access_all-map_example = access_all-map naturals threes none (2 ∷ 0 ∷ 4 ∷ 4 ∷ []) tt

-- Sums are rounded down to multiples of four, so that from 8 a step of 1 leads nowhere.
abbrev coarse : Doubles ℕ
coarse = record naturals { plus = λ a b. (a + b) / 4 * 4 }

abbrev slow : OscRange ℕ
slow = record { start = 8; step = 1; end = 12 }

endless : range_walk coarse 9 slow 8 ≡ none
unfolding range_walk in_range
endless = refl

expand_iterable-numbers_from_example :
    let expanded = expand_iterable naturals (range threes) in
    (expanded.1 ≡ none)
    × (all_values naturals 5 expanded.0 ≡ some (numbers_from naturals threes 3 2))
    × (range_size naturals 5 threes 2 0 ≡ some 3)
unfolding range_element_count is_empty
expand_iterable-numbers_from_example =
    expand_iterable-numbers_from naturals threes true 3 5 refl (refl, (refl, (refl, refl)))
      (omega arith) (λ n h. ground (arith, h))

-- The elements of the range are counted as five, so the loop is begun.
slow_count : range_element_count naturals slow ≡ some 5
unfolding range_element_count is_empty
slow_count = refl

key_list :
    expand_iterable naturals (object (field (0x61 ∷ []) (number 1) no_fields))
    ≡ (listed (string (0x61 ∷ []) ∷ []), none)
unfolding expand_iterable
key_list = refl

abbrev begun : ListBuilder ℕ
begun = push (record { seed = none; rest = [] }) (number 7)

finish-append_each_example :
    Option.map finish (append_each naturals 9 begun (range threes))
    ≡ append_each_into naturals 9 (finish begun) (range threes)
finish-append_each_example = finish-append_each naturals 9 begun (range threes)

begun_values :
    append_each_into naturals 9 (finish begun) (range threes)
    ≡ some (number 7 ∷ number 2 ∷ number 5 ∷ number 8 ∷ [])
unfolding append_each_into each_values all_values expand_iterable range_element_count is_empty
    range_walk in_range finish push
begun_values = refl
