-- ===== src/Value/Scale.antt =====
-- Type names, truth, and the products and quotients of a number and a nested list, of src/value.cpp.
use openscad_cpp_evaluator.Prelude.{Bool, true, false, not, [], if◌then◌else◌}
use openscad_cpp_evaluator.Value.{
  Doubles, Value, Values, undef, boolean, number, string, vector, range, object, closure, none_left,
  item, no_fields,
}

-- The texts that `oscTypeName` gives.
pub data TypeName : Type 0 where
  undefined_type bool_type number_type string_type vector_type object_type range_type : TypeName
  function_type : TypeName

module _ {D : Type 0} where
  unfoldable pub osc_type_name : Value D → TypeName
  osc_type_name undef = undefined_type
  osc_type_name (boolean b) = bool_type
  osc_type_name (number d) = number_type
  osc_type_name (string s) = string_type
  osc_type_name (vector xs) = vector_type
  osc_type_name (range r) = range_type
  osc_type_name (object fs) = object_type
  osc_type_name (closure n) = function_type

module _ {D : Type 0} (double : Doubles D) where
  unfoldable pub truthy : Value D → Bool
  truthy undef = false
  truthy (boolean b) = b
  truthy (number d) = not (double.equal d double.zero_value)
  truthy (string s) = elim s [ [] ↦ false | _ ↦ true ]
  truthy (vector xs) = elim xs [ none_left ↦ false | _ ↦ true ]
  truthy (range r) = true
  truthy (object fs) = elim fs [ no_fields ↦ false | _ ↦ true ]
  truthy (closure n) = true

  -- Division by a zero of either sign, with the rule written out.
  unfoldable pub quotient : D → D → D
  quotient a b =
      if double.equal b double.zero_value
      then (if double.equal a double.zero_value then double.nan else double.signed_infinity a)
      else double.divide a b

-- What `scale`, `divScale` and `divInto` share: the numbers of a nested list are replaced, its lists are
-- kept, and anything else in it becomes undef.
module _ {D : Type 0} (f : D → D) where
  unfoldable mutual
    pub on_numbers : Value D → Value D
    on_numbers undef = undef
    on_numbers (boolean b) = undef
    on_numbers (number d) = number (f d)
    on_numbers (string s) = undef
    on_numbers (vector xs) = vector (on_items xs)
    on_numbers (range r) = undef
    on_numbers (object fs) = undef
    on_numbers (closure n) = undef

    pub on_items : Values D → Values D
    on_items none_left = none_left
    on_items (item v xs) = item (on_numbers v) (on_items xs)

module _ {D : Type 0} (double : Doubles D) where
  unfoldable pub scale : D → Value D → Value D
  scale k v = on_numbers (double.times k) v

  unfoldable pub div_scale : Value D → D → Value D
  div_scale v k = on_numbers (λ d. quotient double d k) v

  unfoldable pub div_into : D → Value D → Value D
  div_into k v = on_numbers (quotient double k) v
