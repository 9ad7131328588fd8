-- ===== src/Value/Equality.antt =====
-- `oscEqual` as a relation.
use openscad_cpp_evaluator.Prelude.{◌≡◌, refl, arith, Bool, true, false, ◌&&◌, ◌||◌}
use openscad_cpp_evaluator.Prelude.Bytes.{bytes_eq-sym}
use openscad_cpp_evaluator.Value.{
  Doubles, OscRange, Value, Values, Fields, undef, boolean, number, string, vector, range, object,
  closure, none_left, item, no_fields, field, bool_equal, is_empty, range_equal, osc_equal,
  items_equal, fields_equal,
}

bool_equal-sym : (a b : Bool) → bool_equal a b ≡ bool_equal b a
bool_equal-sym true true = refl
bool_equal-sym true false = refl
bool_equal-sym false true = refl
bool_equal-sym false false = refl

and-sym : (a b : Bool) → (a && b) ≡ (b && a)
and-sym true true = refl
and-sym true false = refl
and-sym false true = refl
and-sym false false = refl

or-sym : (a b : Bool) → (a || b) ≡ (b || a)
or-sym true true = refl
or-sym true false = refl
or-sym false true = refl
or-sym false false = refl

module _ {D : Type 0} (double : Doubles D)
    (symmetric : (a b : D) → double.equal a b ≡ double.equal b a) where
  range_equal-sym : (a b : OscRange D) → range_equal double a b ≡ range_equal double b a
  unfolding range_equal
  range_equal-sym a b =
      rw
        (
          or-sym (is_empty double a) (is_empty double b),
          and-sym (is_empty double a) (is_empty double b),
          symmetric a.start b.start,
          symmetric a.step b.step,
          symmetric a.end b.end,
        )
        refl

  mutual
    unfolding osc_equal items_equal fields_equal

    osc_equal_sym : (v w : Value D) → osc_equal double v w ≡ osc_equal double w v
    osc_equal_sym undef w = elim w as (λ k. osc_equal double undef k ≡ osc_equal double k undef) [
      | undef ↦ refl
      | _ ↦ refl
    ]
    osc_equal_sym (boolean a) w =
        elim w as (λ k. osc_equal double (boolean a) k ≡ osc_equal double k (boolean a)) [
          | boolean b ↦ bool_equal-sym a b
          | _ ↦ refl
        ]
    osc_equal_sym (number a) w =
        elim w as (λ k. osc_equal double (number a) k ≡ osc_equal double k (number a)) [
          | number b ↦ symmetric a b
          | _ ↦ refl
        ]
    osc_equal_sym (string a) w =
        elim w as (λ k. osc_equal double (string a) k ≡ osc_equal double k (string a)) [
          | string b ↦ bytes_eq-sym a b
          | _ ↦ refl
        ]
    osc_equal_sym (vector a) w =
        elim w as (λ k. osc_equal double (vector a) k ≡ osc_equal double k (vector a)) [
          | vector b ↦ items_equal_sym a b
          | _ ↦ refl
        ]
    osc_equal_sym (range a) w =
        elim w as (λ k. osc_equal double (range a) k ≡ osc_equal double k (range a)) [
          | range b ↦ range_equal-sym a b
          | _ ↦ refl
        ]
    osc_equal_sym (object a) w =
        elim w as (λ k. osc_equal double (object a) k ≡ osc_equal double k (object a)) [
          | object b ↦ fields_equal_sym a b
          | _ ↦ refl
        ]
    osc_equal_sym (closure a) w =
        elim w as (λ k. osc_equal double (closure a) k ≡ osc_equal double k (closure a)) [
          | closure b ↦ ground arith
          | _ ↦ refl
        ]

    items_equal_sym : (xs ys : Values D) → items_equal double xs ys ≡ items_equal double ys xs
    items_equal_sym none_left none_left = refl
    items_equal_sym none_left (item b ys) = refl
    items_equal_sym (item a xs) none_left = refl
    items_equal_sym (item a xs) (item b ys) = rw (osc_equal_sym a b, items_equal_sym xs ys) refl

    fields_equal_sym : (xs ys : Fields D) → fields_equal double xs ys ≡ fields_equal double ys xs
    fields_equal_sym no_fields no_fields = refl
    fields_equal_sym no_fields (field l b ys) = refl
    fields_equal_sym (field k a xs) no_fields = refl
    fields_equal_sym (field k a xs) (field l b ys) =
        rw (bytes_eq-sym k l, osc_equal_sym a b, fields_equal_sym xs ys) refl

  -- Equality of values is symmetric at any depth, if equality of doubles is.
  pub osc_equal-symmetric : (v w : Value D) → osc_equal double v w ≡ osc_equal double w v
  osc_equal-symmetric v w = osc_equal_sym v w
