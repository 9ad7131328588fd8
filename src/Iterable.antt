-- ===== src/Iterable.antt =====
-- `IterableValues`, `expandIterable`, `appendEachInto` and `ListBuilder` of
-- include/openscad_cpp_evaluator/value.hpp and src/value.cpp: what a loop runs over. The elements of a
-- range are made one by one, by adding the step.
use openscad_cpp_evaluator.Prelude.{
  ℕ, zero, suc, ◌+◌, ◌-◌, Bool, true, false, not, ◌&&◌, ◌||◌, List, [], ◌∷◌, ◌++◌, map, Option,
  none, some, ltb, leb, if◌then◌else◌,
}
use openscad_cpp_evaluator.Utf8.{utf8_chars}
use openscad_cpp_evaluator.Value.{
  Doubles, OscRange, Value, Values, Fields, undef, boolean, number, string, vector, range, object,
  closure, no_fields, field, is_empty,
}
use openscad_cpp_evaluator.Value.Matrix.{elements}
pub mod Access
pub mod Walk
pub mod Builder
mod Tests

pub data Iterable (D : Type 0) : Type 0 where
  listed : List (Value D) → Iterable D
  lazy_range : OscRange D → Iterable D

-- The one-slot cache of `operator[]`.
pub record Cursor (D : Type 0) : Type 0 where
  pub index : ℕ
  pub position : D

abbrev pub keys : {D : Type 0} → Fields D → List (Value D)
keys no_fields = []
keys (field k v fs) = string k ∷ keys fs

module _ {D : Type 0} (double : Doubles D) where
  -- `<=` of doubles.
  abbrev pub at_most : D → D → Bool
  at_most a b = double.less a b || double.equal a b

  pub in_range : OscRange D → D → Bool
  in_range r x =
      if double.less double.zero_value r.step
      then at_most x (double.plus r.end double.tiny)
      else if double.less r.step double.zero_value
      then at_most (double.minus r.end double.tiny) x
      else false

  -- The iterator: `fuel` bounds the steps, and nothing is given if they do not suffice.
  pub range_walk : ℕ → OscRange D → D → Option (List (Value D))
  range_walk zero r x = none
  range_walk (suc fuel) r x = elim (in_range r x) [
    | false ↦ some []
    | true ↦ elim (range_walk fuel r (double.plus x r.step)) [
      | none ↦ none
      | some rest ↦ some (number x ∷ rest)
    ]
  ]

  -- `size` of a range, which counts by the same loop.
  pub range_size : ℕ → OscRange D → D → ℕ → Option ℕ
  range_size zero r x n = none
  range_size (suc fuel) r x n = elim (in_range r x) [
    | false ↦ some n
    | true ↦ range_size fuel r (double.plus x r.step) (suc n)
  ]

  -- The loop of `operator[]`: as many steps as the index is ahead of the cursor.
  pub advance : ℕ → OscRange D → D → D
  advance zero r x = x
  advance (suc n) r x = advance n r (double.plus x r.step)

  pub move_cursor : OscRange D → Option (Cursor D) → ℕ → Cursor D
  move_cursor r none i = record { index = i; position = advance i r r.start }
  move_cursor r (some c) i =
      if ltb i c.index
      then record { index = i; position = advance i r r.start }
      else record { index = i; position = advance (i - c.index) r c.position }

  -- A run of accesses at any places, in any order.
  pub access_all : OscRange D → Option (Cursor D) → List ℕ → List D
  access_all r c [] = []
  access_all r c (i ∷ places) =
      let moved = move_cursor r c i in moved.position ∷ access_all r (some moved) places

  pub range_element_count : OscRange D → Option ℕ
  range_element_count r =
      let ratio = double.divide (double.minus r.end r.start) r.step in
      let count = double.plus (double.floor (double.plus ratio double.tiny)) double.one in
      if double.equal r.step double.zero_value
        && (double.is_finite r.start && double.is_finite r.end)
      then some (double.to_size double.count_cap)
      else if is_empty double r
      then none
      else if not (double.less count double.count_cap)
      then some (double.to_size double.count_cap)
      else some (double.to_size count)

  abbrev pub too_many : Option ℕ → Option ℕ
  too_many none = none
  too_many (some n) = if leb 1000000 n then some n else none

  -- What is iterated, and the count of a range with too many elements.
  unfoldable pub expand_iterable : Value D → Iterable D × Option ℕ
  expand_iterable undef = (listed [], none)
  expand_iterable (range r) = elim (too_many (range_element_count r)) [
    | some n ↦ (listed [], some n)
    | none ↦ (lazy_range r, none)
  ]
  expand_iterable (object fs) = (listed (keys fs), none)
  expand_iterable (string s) = (listed (map string (utf8_chars s)), none)
  expand_iterable (vector xs) = (listed (elements xs), none)
  expand_iterable (boolean b) = (listed (boolean b ∷ []), none)
  expand_iterable (number d) = (listed (number d ∷ []), none)
  expand_iterable (closure n) = (listed (closure n ∷ []), none)

  -- All elements, if the fuel suffices for a range.
  pub all_values : ℕ → Iterable D → Option (List (Value D))
  all_values fuel (listed vs) = some vs
  all_values fuel (lazy_range r) = range_walk fuel r r.start

  -- What `each` adds.
  pub each_values : ℕ → Value D → Option (List (Value D))
  each_values fuel undef = some []
  each_values fuel (vector xs) = some (elements xs)
  each_values fuel (string s) = all_values fuel (expand_iterable (string s)).0
  each_values fuel (range r) = all_values fuel (expand_iterable (range r)).0
  each_values fuel (boolean b) = some (boolean b ∷ [])
  each_values fuel (number d) = some (number d ∷ [])
  each_values fuel (object fs) = some (object fs ∷ [])
  each_values fuel (closure n) = some (closure n ∷ [])

  pub append_each_into : ℕ → List (Value D) → Value D → Option (List (Value D))
  append_each_into fuel out v = elim (each_values fuel v) [
    | none ↦ none
    | some vs ↦ some (out ++ vs)
  ]

-- `ListBuilder`; the list that it starts from is extended by `listAppend`.
pub record ListBuilder (D : Type 0) : Type 0 where
  pub seed : Option (List (Value D))
  pub rest : List (Value D)

module _ {D : Type 0} where
  pub push : ListBuilder D → Value D → ListBuilder D
  push b v = record { seed = b.seed; rest = b.rest ++ v ∷ [] }

  pub finish : ListBuilder D → List (Value D)
  finish b = elim b.seed [ some vs ↦ vs ++ b.rest | none ↦ b.rest ]

  -- A list is the start of a builder that has nothing yet.
  pub seed_with : ListBuilder D → Value D → Option (ListBuilder D)
  seed_with b v = elim b.seed [
    | some vs ↦ none
    | none ↦ elim b.rest [
      | x ∷ xs ↦ none
      | [] ↦ elim v [
        | vector xs ↦ some (record { seed = some (elements xs); rest = [] })
        | _ ↦ none
      ]
    ]
  ]

  pub append_each : Doubles D → ℕ → ListBuilder D → Value D → Option (ListBuilder D)
  append_each double fuel b v = elim (seed_with b v) [
    | some seeded ↦ some seeded
    | none ↦ elim (append_each_into double fuel b.rest v) [
      | none ↦ none
      | some rest ↦ some (record { seed = b.seed; rest = rest })
    ]
  ]
