-- ===== src/Operators.antt =====
-- The operators of expressions: `valueLess`, `applyBinaryOp` and `applyUnaryOp` of
-- src/expr_eval.cpp. A result comes with the warnings
-- that are given on the way, without their positions.
use openscad_cpp_evaluator.Prelude.{
  ℕ, zero, suc, ◌+◌, ◌-◌, ◌*◌, ◌/◌, ◌%◌, ◌^◌, bit_and, bit_or, Bool, true, false, not, ◌&&◌, ◌||◌,
  List, [], ◌∷◌, ◌++◌, Option, none, some, ltb, leb, ◌==◌, if◌then◌else◌, get_elem?,
}
use openscad_cpp_evaluator.Prelude.Bytes.{bytes_eq}
use openscad_cpp_evaluator.Utf8.{utf8_char_at}
use openscad_cpp_evaluator.Value.{
  Doubles, OscRange, Value, Values, Fields, undef, boolean, number, string, vector, range, object,
  closure, none_left, item, no_fields, field, osc_equal, osc_comparable, vec_add, vec_sub,
}
use openscad_cpp_evaluator.Value.Scale.{TypeName, osc_type_name, truthy, scale, div_scale, div_into}
use openscad_cpp_evaluator.Value.Matrix.{MatrixError, elements, matmul}
pub mod Order
pub mod Warnings
mod Tests

pub data BinaryOp : Type 0 where
  addition subtraction multiplication division modulo_op exponent : BinaryOp
  equality inequality greater greater_equal less_than less_equal : BinaryOp
  bitwise_or bitwise_and shift_left shift_right : BinaryOp

pub data UnaryOp : Type 0 where
  unary_minus logical_not bitwise_not : UnaryOp

pub data Warning (D : Type 0) : Type 0 where
  undefined_operation : TypeName → BinaryOp → TypeName → Warning D
  undefined_unary : UnaryOp → TypeName → Warning D
  matrix_message : MatrixError → Warning D
  negative_shift shift_too_large begin_after_end : Warning D
  not_a_range : Value D → Value D → Warning D
  not_a_step : Value D → Warning D
  too_many_elements : ℕ → Warning D
  unknown_variable : List ℕ → Warning D
  duplicate_assignment : List ℕ → Value D → Warning D
  unexpected_named : List ℕ → Warning D
  too_many_positional : Warning D
  specified_both : List ℕ → List ℕ → Warning D

-- A value with the warnings given so far.
abbrev pub Warned : Type 0 → Type 0
Warned D = Value D × List (Warning D)

abbrev pub bool_less : Bool → Bool → Bool
bool_less a b = not a && b

-- `<` of two strings.
pub bytes_less : List ℕ → List ℕ → Bool
bytes_less [] [] = false
bytes_less [] (b ∷ ys) = true
bytes_less (a ∷ xs) [] = false
bytes_less (a ∷ xs) (b ∷ ys) = ltb a b || (a == b && bytes_less xs ys)

-- One round of the loop over two lists: equal elements leave it to the rest, others decide.
abbrev pub at_first_difference : Bool → Option Bool → Bool → Option Bool → Option Bool
at_first_difference true rest comparable less = rest
at_first_difference false rest true less = less
at_first_difference false rest false less = none

module _ {D : Type 0} (double : Doubles D) where
  -- Called on comparable values only; nothing for lists whose elements are not comparable.
  mutual
    pub value_less : Value D → Value D → Option Bool
    value_less undef w = none
    value_less (boolean a) w = elim w [ boolean b ↦ some (bool_less a b) | _ ↦ none ]
    value_less (number a) w = elim w [ number b ↦ some (double.less a b) | _ ↦ none ]
    value_less (string a) w = elim w [ string b ↦ some (bytes_less a b) | _ ↦ none ]
    value_less (vector a) w = elim w [ vector b ↦ items_less a b | _ ↦ none ]
    value_less (range a) w = none
    value_less (object a) w = none
    value_less (closure a) w = none

    -- The first pair of elements that differ decides, and then the sizes.
    pub items_less : Values D → Values D → Option Bool
    items_less none_left none_left = some false
    items_less none_left (item b ys) = some true
    items_less (item a xs) none_left = some false
    items_less (item a xs) (item b ys) =
        at_first_difference (osc_equal double a b) (items_less xs ys) (osc_comparable a b)
          (value_less a b)

  abbrev pub quiet : Value D → Warned D
  quiet v = (v, [])

  -- `warn` and undef.
  abbrev pub undefined : Warning D → Warned D
  undefined w = (undef, w ∷ [])

  abbrev pub undefined_pair : Value D → BinaryOp → Value D → Warned D
  undefined_pair a op b = undefined (undefined_operation (osc_type_name a) op (osc_type_name b))

  -- `warnIfUndef`.
  pub warn_if_undef : Value D → Value D → BinaryOp → Value D → Warned D
  warn_if_undef result a op b =
      let kept = quiet result in elim result [ undef ↦ undefined_pair a op b | _ ↦ kept ]

  abbrev pub truth_or_undef : Option Bool → Value D
  truth_or_undef (some b) = boolean b
  truth_or_undef none = undef

  -- `<` and `<=` on a pair, with `>` and `>=` on the pair the other way round.
  pub compare_values : BinaryOp → Value D → Value D → Option Bool → Warned D
  compare_values op a b result =
      if not (osc_comparable a b) then undefined_pair a op b else quiet (truth_or_undef result)

  abbrev pub or_equal : Option Bool → Bool → Option Bool
  or_equal (some less) equal = some (less || equal)
  or_equal none equal = none

  -- An operator on numbers, and the warning for anything else.
  pub on_two_numbers : (D → D → Warned D) → BinaryOp → Value D → Value D → Warned D
  on_two_numbers f op a b =
      let other = undefined_pair a op b in
      elim a [ number x ↦ elim b [ number y ↦ f x y | _ ↦ other ] | _ ↦ other ]

  pub add_values : Value D → Value D → Warned D
  add_values a b = warn_if_undef (vec_add double.plus a b) a addition b

  pub subtract_values : Value D → Value D → Warned D
  subtract_values a b = warn_if_undef (vec_sub double.minus a b) a subtraction b

  -- The message of `matmul`, or that of an undefined operation if it left none.
  abbrev pub product_warning : Value D → Value D → Option MatrixError → Warning D
  product_warning a b (some e) = matrix_message e
  product_warning a b none = undefined_operation (osc_type_name a) multiplication (osc_type_name b)

  pub checked_product : Value D → Value D → Value D → Option MatrixError → Warned D
  checked_product a b undef message = undefined (product_warning a b message)
  checked_product a b result message = quiet result

  pub multiply_lists_checked : Value D → Value D → Warned D
  multiply_lists_checked a b =
      let (result, message) = matmul double a b in checked_product a b result message

  pub multiply_values : Value D → Value D → Warned D
  multiply_values a b =
      let other = undefined_pair a multiplication b in
      elim a [
        | number x ↦ elim b [
          | number y ↦ quiet (number (double.times x y))
          | vector ys ↦ quiet (scale double x (vector ys))
          | _ ↦ other
        ]
        | vector xs ↦ elim b [
          | number y ↦ quiet (scale double y (vector xs))
          | vector ys ↦ multiply_lists_checked (vector xs) (vector ys)
          | _ ↦ other
        ]
        | _ ↦ other
      ]

  pub divide_values : Value D → Value D → Warned D
  divide_values a b =
      let other = undefined_pair a division b in
      elim a [
        | number x ↦ elim b [
          | number y ↦ quiet (number (double.divide x y))
          | vector ys ↦ quiet (div_into double x (vector ys))
          | _ ↦ other
        ]
        | vector xs ↦ elim b [ number y ↦ quiet (div_scale double (vector xs) y) | _ ↦ other ]
        | _ ↦ other
      ]

  -- Shifts of the bit pattern of an int64_t; a negative one has its highest bit set.
  pub shift_left_bits : D → D → Warned D
  shift_left_bits x y =
      let count = double.to_int64 y in
      if leb (2 ^ 63) count
      then undefined negative_shift
      else if leb 64 count
      then undefined shift_too_large
      else quiet (number (double.of_int64 (double.to_int64 x * 2 ^ count % 2 ^ 64)))

  pub arithmetic_shift : ℕ → ℕ → ℕ
  arithmetic_shift bits count =
      if leb (2 ^ 63) bits then bits / 2 ^ count + (2 ^ 64 - 2 ^ (64 - count)) else bits / 2 ^ count

  pub shift_right_bits : D → D → Warned D
  shift_right_bits x y =
      let count = double.to_int64 y in
      if leb (2 ^ 63) count
      then undefined negative_shift
      else if leb 64 count
      then undefined shift_too_large
      else quiet (number (double.of_int64 (arithmetic_shift (double.to_int64 x) count)))

  unfoldable pub apply_binary_op : BinaryOp → Value D → Value D → Warned D
  apply_binary_op addition a b = add_values a b
  apply_binary_op subtraction a b = subtract_values a b
  apply_binary_op multiplication a b = multiply_values a b
  apply_binary_op division a b = divide_values a b
  apply_binary_op modulo_op a b =
      on_two_numbers (λ x y. quiet (number (double.modulo x y))) modulo_op a b
  apply_binary_op exponent a b =
      on_two_numbers (λ x y. quiet (number (double.power x y))) exponent a b
  apply_binary_op equality a b = quiet (boolean (osc_equal double a b))
  apply_binary_op inequality a b = quiet (boolean (not (osc_equal double a b)))
  apply_binary_op greater a b = compare_values greater a b (value_less b a)
  apply_binary_op greater_equal a b =
      compare_values greater_equal a b (or_equal (value_less b a) (osc_equal double a b))
  apply_binary_op less_than a b = compare_values less_than a b (value_less a b)
  apply_binary_op less_equal a b =
      compare_values less_equal a b (or_equal (value_less a b) (osc_equal double a b))
  apply_binary_op bitwise_or a b =
      on_two_numbers
        (λ x y. quiet (number (double.of_int64 (bit_or (double.to_int64 x) (double.to_int64 y)))))
        bitwise_or a b
  apply_binary_op bitwise_and a b =
      on_two_numbers
        (λ x y. quiet (number (double.of_int64 (bit_and (double.to_int64 x) (double.to_int64 y)))))
        bitwise_and a b
  apply_binary_op shift_left a b = on_two_numbers shift_left_bits shift_left a b
  apply_binary_op shift_right a b = on_two_numbers shift_right_bits shift_right a b

  pub apply_unary_op : UnaryOp → Value D → Warned D
  apply_unary_op unary_minus v =
      let other = undefined (undefined_unary unary_minus (osc_type_name v)) in
      elim v [
        | vector xs ↦ quiet (scale double double.minus_one (vector xs))
        | number d ↦ quiet (number (double.negate d))
        | _ ↦ other
      ]
  apply_unary_op logical_not v = quiet (boolean (not (truthy double v)))
  apply_unary_op bitwise_not v =
      let other = undefined (undefined_unary bitwise_not (osc_type_name v)) in
      elim v [
        | number d ↦ quiet (number (double.of_int64 (2 ^ 64 - 1 - double.to_int64 d)))
        | _ ↦ other
      ]
