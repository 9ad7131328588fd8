-- ===== src/Value/Sums.antt =====
-- Sums and differences of nested lists of numbers.
use openscad_cpp_evaluator.Prelude.{◌≡◌, refl, ap, Bool, true, false, ◌||◌}
use openscad_cpp_evaluator.Value.{
  Value, Values, undef, boolean, number, string, vector, range, object, closure, none_left, item,
  vec_combine, zip_combine, is_string, vec_add,
}

or_swap : (a b : Bool) → (a || b) ≡ (b || a)
or_swap true true = refl
or_swap true false = refl
or_swap false true = refl
or_swap false false = refl

module _ {D : Type 0} (plus : D → D → D) where
  module _ (commutes : (a b : D) → plus a b ≡ plus b a) where
    mutual
      unfolding vec_combine zip_combine

      vec_combine_comm : (v w : Value D) → vec_combine plus v w ≡ vec_combine plus w v
      vec_combine_comm undef w =
          elim w as (λ k. vec_combine plus undef k ≡ vec_combine plus k undef) [
            | undef ↦ refl
            | _ ↦ refl
          ]
      vec_combine_comm (boolean a) w =
          elim w as (λ k. vec_combine plus (boolean a) k ≡ vec_combine plus k (boolean a)) [
            | undef ↦ refl
            | _ ↦ refl
          ]
      vec_combine_comm (number a) w =
          elim w as (λ k. vec_combine plus (number a) k ≡ vec_combine plus k (number a)) [
            | number b ↦ ap number (commutes a b)
            | _ ↦ refl
          ]
      vec_combine_comm (string a) w =
          elim w as (λ k. vec_combine plus (string a) k ≡ vec_combine plus k (string a)) [
            | undef ↦ refl
            | _ ↦ refl
          ]
      vec_combine_comm (vector a) w =
          elim w as (λ k. vec_combine plus (vector a) k ≡ vec_combine plus k (vector a)) [
            | vector b ↦ ap vector (zip_combine_comm a b)
            | _ ↦ refl
          ]
      vec_combine_comm (range a) w =
          elim w as (λ k. vec_combine plus (range a) k ≡ vec_combine plus k (range a)) [
            | undef ↦ refl
            | _ ↦ refl
          ]
      vec_combine_comm (object a) w =
          elim w as (λ k. vec_combine plus (object a) k ≡ vec_combine plus k (object a)) [
            | undef ↦ refl
            | _ ↦ refl
          ]
      vec_combine_comm (closure a) w =
          elim w as (λ k. vec_combine plus (closure a) k ≡ vec_combine plus k (closure a)) [
            | undef ↦ refl
            | _ ↦ refl
          ]

      zip_combine_comm : (xs ys : Values D) → zip_combine plus xs ys ≡ zip_combine plus ys xs
      zip_combine_comm none_left none_left = refl
      zip_combine_comm none_left (item b ys) = refl
      zip_combine_comm (item a xs) none_left = refl
      zip_combine_comm (item a xs) (item b ys) =
          rw (vec_combine_comm a b, zip_combine_comm xs ys) refl

    -- The sum of two values, lists of different lengths and undefined sums included, does not depend
    -- on their order, if that of doubles does not.
    pub vec_add-commutes : (v w : Value D) → vec_add plus v w ≡ vec_add plus w v
    unfolding vec_add
    vec_add-commutes v w = rw (or_swap (is_string v) (is_string w), vec_combine_comm v w) refl
