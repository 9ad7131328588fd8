-- ===== src/Indexing.antt =====
-- Indexing, members and ranges: `applyIndexAccess`, `applyMemberAccess` and `applyRange` of
-- src/expr_eval.cpp.
use openscad_cpp_evaluator.Prelude.{
  ℕ, zero, suc, ◌+◌, ◌-◌, ◌*◌, ◌/◌, ◌%◌, ◌^◌, bit_and, bit_or, Bool, true, false, not, ◌&&◌, ◌||◌,
  List, [], ◌∷◌, ◌++◌, Option, none, some, ltb, leb, ◌==◌, if◌then◌else◌, get_elem?,
}
use openscad_cpp_evaluator.Prelude.Bytes.{bytes_eq}
use openscad_cpp_evaluator.Utf8.{utf8_char_at}
use openscad_cpp_evaluator.Value.{
  Doubles, OscRange, Value, Values, Fields, undef, boolean, number, string, vector, range, object,
  closure, none_left, item, no_fields, field, osc_equal, osc_comparable, vec_add, vec_sub,
}
use openscad_cpp_evaluator.Value.Scale.{TypeName, osc_type_name, truthy, scale, div_scale, div_into}
use openscad_cpp_evaluator.Value.Matrix.{MatrixError, elements, matmul}
use openscad_cpp_evaluator.Operators.{
  Warning, Warned, quiet, undefined, begin_after_end, not_a_range, not_a_step,
}
pub mod Elements
mod Tests

module _ {D : Type 0} (double : Doubles D) where
  abbrev pub or_undef : Option (Value D) → Value D
  or_undef (some v) = v
  or_undef none = undef

  -- The character, or undef for the empty text that stands for none.
  pub char_value : List ℕ → Value D
  char_value [] = undef
  char_value (c ∷ cs) = string (c ∷ cs)

  pub range_part : OscRange D → ℕ → Value D
  range_part r i =
      if i == 0
      then number r.start
      else if i == 1
      then number r.step
      else if i == 2
      then number r.end
      else undef

  -- The first value under the key.
  pub find_field : List ℕ → Fields D → Value D
  find_field key no_fields = undef
  find_field key (field k v fs) = if bytes_eq k key then v else find_field key fs

  -- The index of a number, if it is not negative.
  abbrev pub index_of : Value D → Option ℕ
  index_of v = elim v [ number d ↦ double.to_int d | _ ↦ none ]

  pub apply_index_access : Value D → Value D → Value D
  apply_index_access (vector xs) idx = elim (index_of idx) [
    | none ↦ undef
    | some i ↦ or_undef (get_elem? (elements xs) i)
  ]
  apply_index_access (string s) idx = elim (index_of idx) [
    | none ↦ undef
    | some i ↦ char_value (utf8_char_at s i)
  ]
  apply_index_access (range r) idx = elim (index_of idx) [ none ↦ undef | some i ↦ range_part r i ]
  apply_index_access (object fs) idx = elim idx [ string key ↦ find_field key fs | _ ↦ undef ]
  apply_index_access undef idx = undef
  apply_index_access (boolean b) idx = undef
  apply_index_access (number d) idx = undef
  apply_index_access (closure n) idx = undef

  pub swizzle_index : List ℕ → Option ℕ
  swizzle_index member =
      if bytes_eq member (0x78 ∷ [])
      then some 0
      else if bytes_eq member (0x79 ∷ [])
      then some 1
      else if bytes_eq member (0x7a ∷ [])
      then some 2
      else if bytes_eq member (0x77 ∷ [])
      then some 3
      else none

  pub apply_member_access : Value D → List ℕ → Value D
  apply_member_access v member = elim v [
    | vector xs ↦ elim (swizzle_index member) [
      | none ↦ undef
      | some i ↦ or_undef (get_elem? (elements xs) i)
    ]
    | object fs ↦ find_field member fs
    | _ ↦ undef
  ]

  -- The warning for bounds that run backwards, for a step that was not written.
  pub range_warnings : D → D → Bool → List (Warning D)
  range_warnings start end implicit_step =
      if implicit_step && double.less double.tiny (double.minus start end)
      then begin_after_end ∷ []
      else []

  pub apply_range : Value D → Value D → Value D → Bool → Warned D
  apply_range start_v end_v step_v implicit_step =
      let no_range = undefined double (not_a_range start_v end_v) in
      let no_step = undefined double (not_a_step step_v) in
      elim start_v [
        | number start ↦ elim end_v [
          | number end ↦ elim step_v [
            | number step ↦ (
              range (record { start = start; step = step; end = end }),
              range_warnings start end implicit_step,
            )
            | _ ↦
                if implicit_step
                then (
                  range (record { start = start; step = double.one; end = end }),
                  range_warnings start end implicit_step,
                )
                else no_step
          ]
          | _ ↦ no_range
        ]
        | _ ↦ no_range
      ]
