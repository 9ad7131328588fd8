-- ===== src/Indexing/Elements.antt =====
-- Indexing against the elements that a loop runs over: `applyIndexAccess` of src/expr_eval.cpp and
-- `expandIterable` of src/value.cpp.
use openscad_cpp_evaluator.Prelude.{
  ℕ, zero, suc, ◌≡◌, refl, arith, ◌⊎◌, List, [], ◌∷◌, map, some, get_elem?, get_or, All,
}
use openscad_cpp_evaluator.Utf8.{utf8_chars}
use openscad_cpp_evaluator.Utf8.Chars.{IsChar, utf8_char_at-chars, utf8_chars_partition}
use openscad_cpp_evaluator.Value.{Doubles, Value, undef, number, string, vector}
use openscad_cpp_evaluator.Value.Scale.{osc_type_name, string_type, vector_type}
use openscad_cpp_evaluator.Value.Matrix.{elements}
use openscad_cpp_evaluator.Iterable.{listed, expand_iterable}
use openscad_cpp_evaluator.Indexing.{or_undef, char_value, apply_index_access}

module _ {D : Type 0} (double : Doubles D) where
  char_value-get_or :
      (chars : List (List ℕ)) (i : ℕ)
      → All IsChar chars
      → char_value double (get_or chars i []) ≡ or_undef double (get_elem? (map string chars) i)
  unfolding char_value
  char_value-get_or [] i h = refl
  char_value-get_or ([] ∷ cs) zero h = absurd h.0
  char_value-get_or ((b ∷ bs) ∷ cs) zero h = refl
  char_value-get_or (c ∷ cs) (suc i) h = char_value-get_or cs i h.1

  -- Indexing a string or a list by a number that is a valid index gives the element at that place of
  -- what a loop over the string or list runs over, and undef past its end.
  pub apply_index_access-element :
      (v : Value D) (d : D) (i : ℕ) (vs : List (Value D))
      → (osc_type_name v ≡ string_type) ⊎ (osc_type_name v ≡ vector_type)
      → double.to_int d ≡ some i
      → (expand_iterable double v).0 ≡ listed vs
      → apply_index_access double v (number d) ≡ or_undef double (get_elem? vs i)
  unfolding apply_index_access osc_type_name expand_iterable
  apply_index_access-element (string s) d i vs h e l =
      let same : vs ≡ map string (utf8_chars s) = cc in
      rw (same, apply_index_access, e, utf8_char_at-chars s i)
        (char_value-get_or (utf8_chars s) i (utf8_chars_partition s).1)
  apply_index_access-element (vector xs) d i vs h e l =
      let same : vs ≡ elements xs = cc in rw (same, apply_index_access, e)
  apply_index_access-element undef d i vs h e l = ground arith
  apply_index_access-element v d i vs h e l = ground arith
