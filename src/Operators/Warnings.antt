-- ===== src/Operators/Warnings.antt =====
-- When the arithmetic operators warn.
use openscad_cpp_evaluator.Prelude.{◌≡◌, ◌≢◌, ◌⊎◌, inl, inr, refl, arith, [], Option, length}
use openscad_cpp_evaluator.Value.{Doubles, Value, undef, boolean, number, vector}
use openscad_cpp_evaluator.Value.Scale.{scale, div_scale, div_into, on_numbers}
use openscad_cpp_evaluator.Value.Matrix.{MatrixError}
use openscad_cpp_evaluator.Operators.{
  BinaryOp, addition, subtraction, multiplication, division, modulo_op, exponent, Warning, Warned,
  quiet, undefined, checked_product, warn_if_undef, on_two_numbers, add_values, subtract_values,
  multiply_lists_checked, multiply_values, divide_values, apply_binary_op,
}

-- `+`, `-`, `*`, `/`, `%` and `^`.
unfoldable pub IsArithmetic : BinaryOp → Type 0
IsArithmetic op =
    (op ≡ addition)
    ⊎ (op ≡ subtraction)
    ⊎ (op ≡ multiplication)
    ⊎ (op ≡ division)
    ⊎ (op ≡ modulo_op)
    ⊎ (op ≡ exponent)

-- One warning with an undefined result, and none with any other.
unfoldable pub WarnsIfUndef : {D : Type 0} → Warned D → Type 0
WarnsIfUndef r = ((r.0 ≡ undef) × (length r.1 ≡ 1)) ⊎ ((r.0 ≢ undef) × (r.1 ≡ []))

module _ {D : Type 0} (double : Doubles D) where
  on_undef : (w : Warning D) → WarnsIfUndef (undefined double w)
  unfolding WarnsIfUndef
  on_undef w = inl (refl, refl)

  on_value : (v : Value D) → v ≢ undef → WarnsIfUndef (quiet double v)
  unfolding WarnsIfUndef
  on_value v h = inr (h, refl)

  WarnsIfUndef-warn_if_undef :
      (v a b : Value D) (op : BinaryOp) → WarnsIfUndef (warn_if_undef double v a op b)
  unfolding warn_if_undef
  WarnsIfUndef-warn_if_undef undef a b op = on_undef _
  WarnsIfUndef-warn_if_undef (boolean x) a b op = on_value _ (λ e. cc)
  WarnsIfUndef-warn_if_undef v a b op = on_value v (λ e. cc)

  WarnsIfUndef-on_two_numbers :
      (f : D → D → D) (op : BinaryOp) (a b : Value D)
      → WarnsIfUndef (on_two_numbers double (λ x y. quiet double (number (f x y))) op a b)
  unfolding on_two_numbers
  WarnsIfUndef-on_two_numbers f op (number x) (number y) = on_value _ (λ e. cc)
  WarnsIfUndef-on_two_numbers f op (number x) _ = on_undef _
  WarnsIfUndef-on_two_numbers f op _ _ = on_undef _

  WarnsIfUndef-checked_product :
      (a b v : Value D) (message : Option MatrixError)
      → WarnsIfUndef (checked_product double a b v message)
  unfolding checked_product
  WarnsIfUndef-checked_product a b undef message = on_undef _
  WarnsIfUndef-checked_product a b v message = on_value v (λ e. cc)

  WarnsIfUndef-multiply_values : (a b : Value D) → WarnsIfUndef (multiply_values double a b)
  unfolding multiply_values multiply_lists_checked scale on_numbers
  WarnsIfUndef-multiply_values (number x) (number y) = on_value _ (λ e. cc)
  WarnsIfUndef-multiply_values (number x) (vector ys) = on_value _ (λ e. cc)
  WarnsIfUndef-multiply_values (number x) _ = on_undef _
  WarnsIfUndef-multiply_values (vector xs) (number y) = on_value _ (λ e. cc)
  WarnsIfUndef-multiply_values (vector xs) (vector ys) =
      WarnsIfUndef-checked_product (vector xs) (vector ys) _ _
  WarnsIfUndef-multiply_values (vector xs) _ = on_undef _
  WarnsIfUndef-multiply_values _ _ = on_undef _

  WarnsIfUndef-divide_values : (a b : Value D) → WarnsIfUndef (divide_values double a b)
  unfolding divide_values div_scale div_into on_numbers
  WarnsIfUndef-divide_values (number x) (number y) = on_value _ (λ e. cc)
  WarnsIfUndef-divide_values (number x) (vector ys) = on_value _ (λ e. cc)
  WarnsIfUndef-divide_values (number x) _ = on_undef _
  WarnsIfUndef-divide_values (vector xs) (number y) = on_value _ (λ e. cc)
  WarnsIfUndef-divide_values (vector xs) _ = on_undef _
  WarnsIfUndef-divide_values _ _ = on_undef _

  -- The operators `+`, `-`, `*`, `/`, `%` and `^` give exactly one warning if their result is undef, and
  -- none if it is anything else.
  pub apply_binary_op-WarnsIfUndef :
      (op : BinaryOp) (a b : Value D)
      → IsArithmetic op
      → WarnsIfUndef (apply_binary_op double op a b)
  unfolding apply_binary_op add_values subtract_values IsArithmetic
  apply_binary_op-WarnsIfUndef addition a b h = WarnsIfUndef-warn_if_undef _ a b addition
  apply_binary_op-WarnsIfUndef subtraction a b h = WarnsIfUndef-warn_if_undef _ a b subtraction
  apply_binary_op-WarnsIfUndef multiplication a b h = WarnsIfUndef-multiply_values a b
  apply_binary_op-WarnsIfUndef division a b h = WarnsIfUndef-divide_values a b
  apply_binary_op-WarnsIfUndef modulo_op a b h =
      WarnsIfUndef-on_two_numbers double.modulo modulo_op a b
  apply_binary_op-WarnsIfUndef exponent a b h =
      WarnsIfUndef-on_two_numbers double.power exponent a b
  apply_binary_op-WarnsIfUndef op a b h = ground arith
