-- ===== src/Value/Tests.antt =====
-- The theorems of the values at nested lists, with natural numbers for doubles.
use openscad_cpp_evaluator.Prelude.{ℕ, ◌-◌, none, ◌≡◌, refl, arith, true, false, List, [], ◌∷◌}
use openscad_cpp_evaluator.Value.{
  Value, undef, boolean, number, string, vector, none_left, item, osc_comparable, vec_combine,
  zip_combine, vec_sub,
}
use openscad_cpp_evaluator.Value.Naturals.{naturals}
use openscad_cpp_evaluator.Value.Scale.{div_scale, truthy, quotient, on_numbers, on_items}
use openscad_cpp_evaluator.Value.Matrix.{
  matmul, multiply_lists, multiply_nonempty, elements, from_elements, row_sums, dot_sum, row_sum,
}
use openscad_cpp_evaluator.Value.Product.{matrix_value, product, matmul-product}

-- [1, [2, "a"]] and [3].
abbrev nested : Value ℕ
nested = vector (
    item (number 1)
      (item (vector (item (number 2) (item (string (0x61 ∷ [])) none_left))) none_left))

abbrev single : Value ℕ
single = vector (item (number 3) none_left)

difference : vec_sub (λ a b. a - b) single nested ≡ vector (item (number 2) none_left)
unfolding vec_sub vec_combine zip_combine
difference = refl

incomparable : osc_comparable {D = ℕ} (number 1) (boolean true) ≡ false
unfolding osc_comparable
incomparable = refl

halved :
    div_scale naturals nested 0
    ≡ vector (item (number 1) (item (vector (item (number 2) (item undef none_left))) none_left))
unfolding div_scale on_numbers on_items quotient
halved = refl

true_list : truthy naturals single ≡ true
unfolding truthy
true_list = refl

-- [[1, 2], [3, 4]].
abbrev square : List (List ℕ)
square = (1 ∷ 2 ∷ []) ∷ (3 ∷ 4 ∷ []) ∷ []

matmul-product_example :
    matmul naturals (matrix_value square) (matrix_value square)
    ≡ (matrix_value (product naturals 2 square square), none)
matmul-product_example =
    matmul-product naturals (1 ∷ 2 ∷ []) ((3 ∷ 4 ∷ []) ∷ []) (1 ∷ 2 ∷ []) ((3 ∷ 4 ∷ []) ∷ [])
      (omega arith) (omega arith)

abbrev pair : Value ℕ
pair = vector (item (number 5) (item (number 6) none_left))

dot_product : matmul naturals pair pair ≡ (number 61, none)
unfolding matmul multiply_lists multiply_nonempty elements dot_sum
dot_product = refl

-- [[1, 2], [3, 4]] * [5, 6].
matrix_times_vector :
    matmul naturals (matrix_value square) pair
    ≡ (vector (item (number 17) (item (number 39) none_left)), none)
unfolding matmul multiply_lists multiply_nonempty elements from_elements row_sums row_sum
matrix_times_vector = refl
