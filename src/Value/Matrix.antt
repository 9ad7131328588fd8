-- ===== src/Value/Matrix.antt =====
-- `matmul` of src/value.cpp: products of vectors and matrices, with the first thing that is wrong.
use openscad_cpp_evaluator.Prelude.{
  ℕ, zero, suc, not, List, [], ◌∷◌, Option, none, some, ◌==◌, if◌then◌else◌, length, get_elem?,
}
use openscad_cpp_evaluator.Value.{Doubles, Value, Values, undef, number, vector, none_left, item}
use openscad_cpp_evaluator.Value.Scale.{TypeName, osc_type_name}

-- The messages of the source, with the numbers and types that they name.
pub data MatrixError : Type 0 where
  empty_vectors : MatrixError
  lengths_differ rows_differ columns_differ inner_sizes_differ : ℕ → ℕ → MatrixError
  not_rectangular vector_not_numbers : ℕ → MatrixError
  matrix_not_numbers : ℕ → ℕ → MatrixError
  undefined_product : TypeName → TypeName → MatrixError
  row_length_differs : ℕ → ℕ → ℕ → MatrixError
  at_row : ℕ → MatrixError → MatrixError
  undefined_first_elements : TypeName → TypeName → MatrixError

pub data Outcome {ℓ} (A : Type ℓ) : Type ℓ where
  done : A → Outcome A
  failed : MatrixError → Outcome A

infixl 5 ◌>>=◌
abbrev pub ◌>>=◌ {ℓ κ} : {A : Type ℓ} {B : Type κ} → Outcome A → (A → Outcome B) → Outcome B
done a >>= f = f a
failed e >>= f = failed e

abbrev pub need {ℓ} : {A : Type ℓ} → Option A → MatrixError → Outcome A
need (some a) e = done a
need none e = failed e

module _ {D : Type 0} where
  unfoldable pub elements : Values D → List (Value D)
  elements none_left = []
  elements (item v xs) = v ∷ elements xs

  unfoldable pub from_elements : List (Value D) → Values D
  from_elements [] = none_left
  from_elements (v ∷ vs) = item v (from_elements vs)

  abbrev pub list_value : List (Value D) → Value D
  list_value vs = vector (from_elements vs)

  -- `listItems`.
  abbrev pub list_items : Value D → Option (List (Value D))
  list_items v = elim v [ vector xs ↦ some (elements xs) | _ ↦ none ]

  abbrev pub number_of : Value D → Option D
  number_of v = elim v [ number d ↦ some d | _ ↦ none ]

  -- A row of the expected length.
  abbrev pub row_of : Value D → ℕ → MatrixError → Outcome (List (Value D))
  row_of v cols e = elim (list_items v) [
    | none ↦ failed e
    | some row ↦ if length row == cols then done row else failed e
  ]

module _ {D : Type 0} (double : Doubles D) where
  abbrev pub add_product : D → D → D → D
  add_product sum x y = double.plus sum (double.times x y)

  -- The inner loop of `vectorTimesMatrix`: column `i`, from row `j` on. A row of the expected length has
  -- an entry there.
  unfoldable pub column_sum : ℕ → ℕ → ℕ → List (Value D) → List (Value D) → D → Outcome D
  column_sum cols i j v [] sum = done sum
  column_sum cols i j [] (r ∷ m) sum = done sum
  column_sum cols i j (x ∷ v) (r ∷ m) sum = do
    row ← row_of r cols (not_rectangular j)
    a ← need (number_of x) (vector_not_numbers j)
    entry ← need (get_elem? row i) (not_rectangular j)
    b ← need (number_of entry) (matrix_not_numbers j i)
    column_sum cols i (suc j) v m (add_product sum a b)

  -- The outer loop: `count` columns from `i` on.
  unfoldable pub column_sums :
      ℕ → ℕ → ℕ → List (Value D) → List (Value D) → Outcome (List (Value D))
  column_sums cols zero i v m = done []
  column_sums cols (suc count) i v m = do
    sum ← column_sum cols i 0 v m double.zero_value
    sums ← column_sums cols count (suc i) v m
    done (number sum ∷ sums)

  -- The number of columns is that of the first row.
  unfoldable pub vector_times_matrix :
      List (Value D) → List (Value D) → List (Value D) → Outcome (Value D)
  vector_times_matrix v first_row m = do
    sums ← column_sums (length first_row) (length first_row) 0 v m
    done (list_value sums)

  unfoldable pub dot_sum : List (Value D) → List (Value D) → D → Outcome D
  dot_sum [] b sum = done sum
  dot_sum (x ∷ a) [] sum = done sum
  dot_sum (x ∷ a) (y ∷ b) sum = elim (number_of x) [
    | none ↦ failed (undefined_product (osc_type_name x) (osc_type_name y))
    | some p ↦ elim (number_of y) [
      | none ↦ failed (undefined_product (osc_type_name x) (osc_type_name y))
      | some q ↦ dot_sum a b (add_product sum p q)
    ]
  ]

  -- One row of matrix times vector, from column `j` on.
  unfoldable pub row_sum : ℕ → ℕ → List (Value D) → List (Value D) → D → Outcome D
  row_sum i j [] b sum = done sum
  row_sum i j (x ∷ row) [] sum = done sum
  row_sum i j (x ∷ row) (y ∷ b) sum = do
    p ← need (number_of x) (matrix_not_numbers i j)
    q ← need (number_of y) (vector_not_numbers j)
    row_sum i (suc j) row b (add_product sum p q)

  unfoldable pub row_sums : ℕ → List (Value D) → List (Value D) → Outcome (List (Value D))
  row_sums i [] b = done []
  row_sums i (r ∷ a) b = do
    row ← row_of r (length b) (not_rectangular i)
    sum ← row_sum i 0 row b double.zero_value
    sums ← row_sums (suc i) a b
    done (number sum ∷ sums)

  abbrev pub in_row : ℕ → Outcome (Value D) → Outcome (Value D)
  in_row i (done v) = done v
  in_row i (failed e) = failed (at_row i e)

  abbrev pub items_or_none : Option (List (Value D)) → List (Value D)
  items_or_none (some row) = row
  items_or_none none = []

  unfoldable pub row_products :
      ℕ → List (Value D) → List (Value D) → List (Value D) → Outcome (List (Value D))
  row_products i [] first_row b = done []
  row_products i (r ∷ a) first_row b =
      let row = items_or_none (list_items r) in
      let rest = row_products (suc i) a first_row b in
      if not (length row == length b)
      then failed (row_length_differs (length row) (length b) i)
      else (in_row i (vector_times_matrix row first_row b) >>= λ product.
          rest >>= λ products. done (product ∷ products))

  -- `multiplyLists`, by the first element of each operand.
  unfoldable pub multiply_nonempty :
      Value D → List (Value D) → Value D → List (Value D) → Outcome (Value D)
  multiply_nonempty a₀ a b₀ b =
      let undefined = failed (undefined_first_elements (osc_type_name a₀) (osc_type_name b₀)) in
      elim (number_of a₀) [
        | some p ↦ elim (number_of b₀) [
          | some q ↦
              if not (length (a₀ ∷ a) == length (b₀ ∷ b))
              then failed (lengths_differ (length (a₀ ∷ a)) (length (b₀ ∷ b)))
              else (dot_sum (a₀ ∷ a) (b₀ ∷ b) double.zero_value >>= λ sum. done (number sum))
          | none ↦ elim (list_items b₀) [
            | none ↦ undefined
            | some first_row ↦
                if not (length (a₀ ∷ a) == length (b₀ ∷ b))
                then failed (rows_differ (length (a₀ ∷ a)) (length (b₀ ∷ b)))
                else vector_times_matrix (a₀ ∷ a) first_row (b₀ ∷ b)
          ]
        ]
        | none ↦ elim (list_items a₀) [
          | none ↦ undefined
          | some row ↦ elim (number_of b₀) [
            | some q ↦
                if not (length row == length (b₀ ∷ b))
                then failed (columns_differ (length row) (length (b₀ ∷ b)))
                else (row_sums 0 (a₀ ∷ a) (b₀ ∷ b) >>= λ sums. done (list_value sums))
            | none ↦ elim (list_items b₀) [
              | none ↦ undefined
              | some first_row ↦
                  if not (length row == length (b₀ ∷ b))
                  then failed (inner_sizes_differ (length row) (length (b₀ ∷ b)))
                  else (row_products 0 (a₀ ∷ a) first_row (b₀ ∷ b) >>= λ rows.
                      done (list_value rows))
            ]
          ]
        ]
      ]

  unfoldable pub multiply_lists : List (Value D) → List (Value D) → Outcome (Value D)
  multiply_lists [] b = failed empty_vectors
  multiply_lists (a₀ ∷ a) [] = failed empty_vectors
  multiply_lists (a₀ ∷ a) (b₀ ∷ b) = multiply_nonempty a₀ a b₀ b

  -- The value, and the message if there is one. `matmul` of something that is not a list has none.
  abbrev pub with_message : Outcome (Value D) → Value D × Option MatrixError
  with_message (done v) = (v, none)
  with_message (failed e) = (undef, some e)

  unfoldable pub matmul : Value D → Value D → Value D × Option MatrixError
  matmul a b = elim (list_items a) [
    | none ↦ (undef, none)
    | some xs ↦ elim (list_items b) [
      | none ↦ (undef, none)
      | some ys ↦ with_message (multiply_lists xs ys)
    ]
  ]
