-- ===== src/Value.antt =====
-- The value type of include/openscad_cpp_evaluator/value.hpp, with the tests of src/value.cpp on it.
-- The type of doubles and the operations on it that the tests use are parameters.
use openscad_cpp_evaluator.Prelude.{
  Option, ℕ, Bool, true, false, not, ◌&&◌, ◌||◌, List, [], ◌∷◌, ◌==◌, if◌then◌else◌,
}
use openscad_cpp_evaluator.Prelude.Bytes.{bytes_eq}
pub mod Equality
pub mod Sums
pub mod Scale
pub mod Matrix
pub mod Product
pub mod Naturals
mod Tests

-- The operations of C++ on a double: `==`, `<`, `std::isnan`, `std::isfinite`, `+`, `-`, `*`, `/`,
-- `std::fmod`, `std::pow`, unary `-`, `std::floor`, an infinity with the sign of a number, the casts of
-- `std::trunc` to an int64_t (as its bit pattern) and back, and to a size_t and an int (nothing for a
-- negative number), and the constants 0.0, 1.0, -1.0, NaN, 1e-10, -1e-10 and 4294967295.0.
pub record Doubles (D : Type 0) : Type 0 where
  pub equal : D → D → Bool
  pub less : D → D → Bool
  pub is_nan : D → Bool
  pub is_finite : D → Bool
  pub plus : D → D → D
  pub minus : D → D → D
  pub times : D → D → D
  pub divide : D → D → D
  pub modulo : D → D → D
  pub power : D → D → D
  pub negate : D → D
  pub floor : D → D
  pub signed_infinity : D → D
  pub to_int64 : D → ℕ
  pub of_int64 : ℕ → D
  pub to_size : D → ℕ
  pub to_int : D → Option ℕ
  pub zero_value : D
  pub one : D
  pub minus_one : D
  pub nan : D
  pub tiny : D
  pub minus_tiny : D
  pub count_cap : D

pub record OscRange (D : Type 0) : Type 0 where
  pub start : D
  pub step : D
  pub end : D

-- A list and an object are not null; a function is the number of its syntax node, which is all that
-- the tests look at.
mutual
  pub data Value (D : Type 0) : Type 0 where
    undef : Value D
    boolean : Bool → Value D
    number : D → Value D
    string : List ℕ → Value D
    vector : Values D → Value D
    range : OscRange D → Value D
    object : Fields D → Value D
    closure : ℕ → Value D

  pub data Values (D : Type 0) : Type 0 where
    none_left : Values D
    item : Value D → Values D → Values D

  pub data Fields (D : Type 0) : Type 0 where
    no_fields : Fields D
    field : List ℕ → Value D → Fields D → Fields D

abbrev pub bool_equal : Bool → Bool → Bool
bool_equal true b = b
bool_equal false b = not b

module _ {D : Type 0} (double : Doubles D) where
  unfoldable pub is_empty : OscRange D → Bool
  is_empty r =
      (double.is_nan r.start || double.is_nan r.step || double.is_nan r.end)
      || double.equal r.step double.zero_value
      || double.less (double.divide (double.minus r.end r.start) r.step) double.minus_tiny

  pub range_equal : OscRange D → OscRange D → Bool
  range_equal a b =
      if is_empty a || is_empty b
      then is_empty a && is_empty b
      else double.equal a.start b.start && double.equal a.step b.step && double.equal a.end b.end

  unfoldable mutual
    pub osc_equal : Value D → Value D → Bool
    osc_equal undef w = elim w [ undef ↦ true | _ ↦ false ]
    osc_equal (boolean a) w = elim w [ boolean b ↦ bool_equal a b | _ ↦ false ]
    osc_equal (number a) w = elim w [ number b ↦ double.equal a b | _ ↦ false ]
    osc_equal (string a) w = elim w [ string b ↦ bytes_eq a b | _ ↦ false ]
    osc_equal (vector a) w = elim w [ vector b ↦ items_equal a b | _ ↦ false ]
    osc_equal (range a) w = elim w [ range b ↦ range_equal a b | _ ↦ false ]
    osc_equal (object a) w = elim w [ object b ↦ fields_equal a b | _ ↦ false ]
    osc_equal (closure a) w = elim w [ closure b ↦ a == b | _ ↦ false ]

    -- The sizes are compared first, which gives the same.
    pub items_equal : Values D → Values D → Bool
    items_equal none_left none_left = true
    items_equal none_left (item b ys) = false
    items_equal (item a xs) none_left = false
    items_equal (item a xs) (item b ys) = osc_equal a b && items_equal xs ys

    pub fields_equal : Fields D → Fields D → Bool
    fields_equal no_fields no_fields = true
    fields_equal no_fields (field l b ys) = false
    fields_equal (field k a xs) no_fields = false
    fields_equal (field k a xs) (field l b ys) = bytes_eq k l && osc_equal a b && fields_equal xs ys

-- Whether an order of the two values is defined.
unfoldable pub osc_comparable : {D : Type 0} → Value D → Value D → Bool
osc_comparable v w = elim v [
  | boolean a ↦ elim w [ boolean b ↦ true | _ ↦ false ]
  | number a ↦ elim w [ number b ↦ true | _ ↦ false ]
  | string a ↦ elim w [ string b ↦ true | _ ↦ false ]
  | vector a ↦ elim w [ vector b ↦ true | _ ↦ false ]
  | _ ↦ false
]

module _ {D : Type 0} (op : D → D → D) where
  mutual
    pub vec_combine : Value D → Value D → Value D
    vec_combine undef w = undef
    vec_combine (boolean a) w = undef
    vec_combine (number a) w = elim w [ number b ↦ number (op a b) | _ ↦ undef ]
    vec_combine (string a) w = undef
    vec_combine (vector a) w = elim w [ vector b ↦ vector (zip_combine a b) | _ ↦ undef ]
    vec_combine (range a) w = undef
    vec_combine (object a) w = undef
    vec_combine (closure a) w = undef

    -- The loop up to the shorter length.
    pub zip_combine : Values D → Values D → Values D
    zip_combine none_left ys = none_left
    zip_combine (item a xs) none_left = none_left
    zip_combine (item a xs) (item b ys) = item (vec_combine a b) (zip_combine xs ys)

abbrev pub is_string : {D : Type 0} → Value D → Bool
is_string v = elim v [ string s ↦ true | _ ↦ false ]

-- `vecAdd` and `vecSub`, with the operator on doubles.
pub vec_add : {D : Type 0} → (D → D → D) → Value D → Value D → Value D
vec_add plus v w = if is_string v || is_string w then undef else vec_combine plus v w

pub vec_sub : {D : Type 0} → (D → D → D) → Value D → Value D → Value D
vec_sub minus v w = vec_combine minus v w
