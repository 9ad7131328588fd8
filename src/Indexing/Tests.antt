-- ===== src/Indexing/Tests.antt =====
-- Indexing, members and ranges of small values, and the theorem at a concrete input.
use openscad_cpp_evaluator.Prelude.{ℕ, ◌≡◌, refl, inr, true, [], ◌∷◌, get_elem?}
use openscad_cpp_evaluator.Prelude.Bytes.{bytes_eq}
use openscad_cpp_evaluator.Value.{
  Value, undef, number, string, vector, range, object, none_left, item, no_fields, field,
}
use openscad_cpp_evaluator.Value.Naturals.{naturals}
use openscad_cpp_evaluator.Value.Scale.{osc_type_name}
use openscad_cpp_evaluator.Value.Matrix.{elements}
use openscad_cpp_evaluator.Iterable.{expand_iterable}
use openscad_cpp_evaluator.Operators.{begin_after_end}
use openscad_cpp_evaluator.Indexing.{
  or_undef, range_part, find_field, apply_index_access, swizzle_index, apply_member_access,
  range_warnings, apply_range,
}
use openscad_cpp_evaluator.Indexing.Elements.{apply_index_access-element}

-- [1, "b"].
abbrev right : Value ℕ
right = vector (item (number 1) (item (string (0x62 ∷ [])) none_left))

apply_index_access-element_example :
    apply_index_access naturals right (number 1)
    ≡ or_undef naturals (get_elem? (number 1 ∷ string (0x62 ∷ []) ∷ []) 1)
unfolding osc_type_name expand_iterable elements
apply_index_access-element_example =
    apply_index_access-element naturals right 1 1 (number 1 ∷ string (0x62 ∷ []) ∷ []) (inr refl)
      refl refl

second_part :
    apply_index_access naturals (range (record { start = 1; step = 2; end = 9 })) (number 1)
    ≡ number 2
unfolding apply_index_access range_part
second_part = refl

no_key :
    apply_member_access naturals (object (field (0x61 ∷ []) (number 1) no_fields)) (0x62 ∷ [])
    ≡ undef
unfolding apply_member_access find_field bytes_eq
no_key = refl

letter : apply_member_access naturals right (0x79 ∷ []) ≡ string (0x62 ∷ [])
unfolding apply_member_access swizzle_index elements bytes_eq
letter = refl

backwards :
    apply_range naturals (number 5) (number 2) undef true
    ≡ (range (record { start = 5; step = 1; end = 2 }), begin_after_end ∷ [])
unfolding apply_range range_warnings
backwards = refl
