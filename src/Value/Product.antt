-- ===== src/Value/Product.antt =====
-- `matmul` of two rectangular matrices of numbers, against the product row by column.
use openscad_cpp_evaluator.Prelude.{
  ℕ, zero, suc, ◌+◌, ◌<◌, ◌≤◌, ◌≡◌, refl, ap, arith, true, List, [], ◌∷◌, none, some, ◌==◌, map,
  length, length-map, get_elem?, get_or, All,
}
use openscad_cpp_evaluator.Value.{Doubles, Value, number}
use openscad_cpp_evaluator.Value.Matrix.{
  MatrixError, not_rectangular, done, elements, from_elements, list_value, row_of, add_product,
  column_sum, column_sums, vector_times_matrix, row_products, multiply_nonempty, multiply_lists,
  matmul,
}

module _ {D : Type 0} where
  elements-from_elements : (vs : List (Value D)) → elements (from_elements vs) ≡ vs
  unfolding elements from_elements
  elements-from_elements [] = refl
  elements-from_elements (v ∷ vs) = ap (λ t. v ∷ t) (elements-from_elements vs)

  -- A row and a matrix of numbers as values.
  abbrev pub row_value : List D → Value D
  row_value row = list_value (map number row)

  abbrev pub matrix_value : List (List D) → Value D
  matrix_value rows = list_value (map row_value rows)

  row_of-row_value :
      (row : List D) (cols : ℕ) (e : MatrixError)
      → length row ≡ cols
      → row_of (row_value row) cols e ≡ done (map number row)
  row_of-row_value row cols e h =
      let fits : (length (map number row) == cols) ≡ true = ground (arith, length-map row number) in
      rw (elements-from_elements (map number row), fits) refl

  get_elem?-map :
      (row : List D) (i : ℕ) (d : D)
      → i < length row
      → get_elem? (map number row) i ≡ some (number (get_or row i d))
  get_elem?-map [] i d h = absurd (omega arith)
  get_elem?-map (x ∷ row) zero d h = refl
  get_elem?-map (x ∷ row) (suc i) d h = get_elem?-map row i d (omega arith)

module _ {D : Type 0} (double : Doubles D) where
  -- The sum of products in order, on top of a sum.
  pub dot : D → List D → List D → D
  dot sum [] ys = sum
  dot sum (x ∷ xs) [] = sum
  dot sum (x ∷ xs) (y ∷ ys) = dot (add_product double sum x y) xs ys

  pub column : ℕ → List (List D) → List D
  column i rows = map (λ row. get_or row i double.zero_value) rows

  -- One row of the product: the columns from `i` on.
  pub product_row : ℕ → ℕ → List D → List (List D) → List D
  product_row zero i row b = []
  product_row (suc count) i row b =
      dot double.zero_value row (column i b) ∷ product_row count (suc i) row b

  pub product : ℕ → List (List D) → List (List D) → List (List D)
  product cols a b = map (λ row. product_row cols 0 row b) a

  column_sum-numbers :
      (cols i j : ℕ) (v : List D) (m : List (List D)) (sum : D)
      → i < cols
      → All (λ row. length row ≡ cols) m
      → column_sum double cols i j (map number v) (map row_value m) sum
        ≡ done (dot sum v (column i m))
  unfolding column_sum dot column
  column_sum-numbers cols i j [] [] sum low rect = refl
  column_sum-numbers cols i j (x ∷ v) [] sum low rect = refl
  column_sum-numbers cols i j [] (row ∷ m) sum low rect = refl
  column_sum-numbers cols i j (x ∷ v) (row ∷ m) sum low rect =
      let wide : i < length row = omega (arith, rect.0) in
      rw
        (
          row_of-row_value row cols (not_rectangular j) rect.0,
          get_elem?-map row i double.zero_value wide,
        )
        (column_sum-numbers cols i (suc j) v m
          (add_product double sum x (get_or row i double.zero_value)) low rect.1)

  column_sums-numbers :
      (cols count i : ℕ) (v : List D) (m : List (List D))
      → i + count ≤ cols
      → All (λ row. length row ≡ cols) m
      → column_sums double cols count i (map number v) (map row_value m)
        ≡ done (map number (product_row count i v m))
  unfolding column_sums product_row
  column_sums-numbers cols zero i v m low rect = refl
  column_sums-numbers cols (suc count) i v m low rect =
      rw
        (
          column_sum-numbers cols i 0 v m double.zero_value (omega arith) rect,
          column_sums-numbers cols count (suc i) v m (omega arith) rect,
        )
        refl

  vector_times_matrix-numbers :
      (v first_row : List D) (m : List (List D))
      → All (λ row. length row ≡ length first_row) m
      → vector_times_matrix double (map number v) (map number first_row) (map row_value m)
        ≡ done (row_value (product_row (length first_row) 0 v m))
  unfolding vector_times_matrix
  vector_times_matrix-numbers v first_row m rect =
      rw
        (
          length-map first_row number,
          column_sums-numbers (length first_row) (length first_row) 0 v m (omega arith) rect,
        )
        refl

  row_products-numbers :
      (i : ℕ) (a : List (List D)) (first_row : List D) (b : List (List D))
      → All (λ row. length row ≡ length b) a
      → All (λ row. length row ≡ length first_row) b
      → row_products double i (map row_value a) (map number first_row) (map row_value b)
        ≡ done (map row_value (product (length first_row) a b))
  unfolding row_products product
  row_products-numbers i [] first_row b ha hb = refl
  row_products-numbers i (row ∷ a) first_row b ha hb =
      let fits : (length (map number row) == length (map row_value b)) ≡ true =
        ground (arith, length-map row number, length-map b row_value, ha.0) in
      rw
        (
          elements-from_elements (map number row),
          fits,
          vector_times_matrix-numbers row first_row b hb,
          row_products-numbers (suc i) a first_row b ha.1 hb,
        )
        refl

  -- The product of two matrices of numbers, with as many columns in each row of the first as the
  -- second has rows, and rows of one length in the second, is the matrix of the sums of products of
  -- rows and columns, and there is no message.
  pub matmul-product :
      (a₀ : List D) (a : List (List D)) (b₀ : List D) (b : List (List D))
      → All (λ row. length row ≡ length (b₀ ∷ b)) (a₀ ∷ a)
      → All (λ row. length row ≡ length b₀) (b₀ ∷ b)
      → matmul double (matrix_value (a₀ ∷ a)) (matrix_value (b₀ ∷ b))
        ≡ (matrix_value (product (length b₀) (a₀ ∷ a) (b₀ ∷ b)), none)
  unfolding matmul multiply_lists multiply_nonempty
  matmul-product a₀ a b₀ b ha hb =
      let fits : (length (map number a₀) == length (map row_value (b₀ ∷ b))) ≡ true =
        ground (arith, length-map a₀ number, length-map (b₀ ∷ b) row_value, ha.0) in
      rw
        (
          elements-from_elements (map row_value (a₀ ∷ a)),
          elements-from_elements (map row_value (b₀ ∷ b)),
          elements-from_elements (map number a₀),
          elements-from_elements (map number b₀),
          fits,
          row_products-numbers 0 (a₀ ∷ a) b₀ (b₀ ∷ b) ha hb,
        )
        refl
