-- ===== src/Operators/Tests.antt =====
-- Operators on small values, and the theorems at concrete inputs.
use openscad_cpp_evaluator.Prelude.{ℕ, ◌≡◌, refl, arith, inl, inr, true, false, [], ◌∷◌, some}
use openscad_cpp_evaluator.Prelude.Bytes.{bytes_eq}
use openscad_cpp_evaluator.Value.{
  Value, undef, boolean, number, string, vector, none_left, item, osc_equal, items_equal,
  osc_comparable,
}
use openscad_cpp_evaluator.Value.Naturals.{naturals}
use openscad_cpp_evaluator.Value.Scale.{osc_type_name, number_type, vector_type, truthy}
use openscad_cpp_evaluator.Operators.{
  division, less_than, undefined_operation, bytes_less, value_less, items_less, shift_right,
  shift_left, shift_too_large, compare_values, shift_left_bits, shift_right_bits, arithmetic_shift,
  apply_binary_op, apply_unary_op, logical_not, on_two_numbers,
}
use openscad_cpp_evaluator.Operators.Order.{value_less-asymmetric}
use openscad_cpp_evaluator.Operators.Warnings.{
  IsArithmetic, WarnsIfUndef, apply_binary_op-WarnsIfUndef,
}

-- [1, "a"] and [1, "b"].
abbrev left : Value ℕ
left = vector (item (number 1) (item (string (0x61 ∷ [])) none_left))

abbrev right : Value ℕ
right = vector (item (number 1) (item (string (0x62 ∷ [])) none_left))

left-lt-right : value_less naturals left right ≡ some true
unfolding value_less items_less osc_equal items_equal osc_comparable bytes_less bytes_eq
left-lt-right = refl

value_less-asymmetric_example : value_less naturals right left ≡ some false
value_less-asymmetric_example =
    value_less-asymmetric naturals (λ a b. ground arith) (λ a b h. ground arith) left right
      left-lt-right

apply_binary_op-WarnsIfUndef_example :
    WarnsIfUndef (apply_binary_op naturals division (boolean true) (number 2))
apply_binary_op-WarnsIfUndef_example =
    apply_binary_op-WarnsIfUndef naturals division (boolean true) (number 2)
      (unfold IsArithmetic in inr (inr (inr (inl refl))))

shifted : apply_binary_op naturals shift_right (number 12) (number 2) ≡ (number 3, [])
unfolding apply_binary_op on_two_numbers shift_right_bits arithmetic_shift
shifted = refl

-- -1 >> 1 on the bit patterns of an int64_t.
shifted_sign :
    apply_binary_op naturals shift_right (number 0xffffffffffffffff) (number 1)
    ≡ (number 0xffffffffffffffff, [])
unfolding apply_binary_op on_two_numbers shift_right_bits arithmetic_shift
shifted_sign = refl

too_far : apply_binary_op naturals shift_left (number 1) (number 64) ≡ (undef, shift_too_large ∷ [])
unfolding apply_binary_op on_two_numbers shift_left_bits
too_far = refl

unordered :
    apply_binary_op naturals less_than left (number 2)
    ≡ (undef, undefined_operation vector_type less_than number_type ∷ [])
unfolding apply_binary_op compare_values osc_comparable osc_type_name
unordered = refl

negated : apply_unary_op naturals logical_not left ≡ (boolean false, [])
unfolding apply_unary_op truthy
negated = refl
