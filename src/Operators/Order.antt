-- ===== src/Operators/Order.antt =====
-- `valueLess` as an order.
use openscad_cpp_evaluator.Prelude.{
  ℕ, ◌≡◌, refl, ap, arith, Bool, true, false, List, [], ◌∷◌, Option, some, subst,
}
use openscad_cpp_evaluator.Value.{
  Doubles, Value, Values, undef, boolean, number, string, vector, range, object, closure, none_left,
  item, osc_equal, osc_comparable,
}
use openscad_cpp_evaluator.Value.Equality.{osc_equal-symmetric}
use openscad_cpp_evaluator.Operators.{
  bool_less, at_first_difference, bytes_less, value_less, items_less,
}

bool_less_asym : (a b : Bool) → bool_less a b ≡ true → bool_less b a ≡ false
bool_less_asym true b h = cc
bool_less_asym false true h = refl
bool_less_asym false false h = cc

bytes_less_asym : (xs ys : List ℕ) → bytes_less xs ys ≡ true → bytes_less ys xs ≡ false
unfolding bytes_less
bytes_less_asym [] [] h = cc
bytes_less_asym [] (b ∷ ys) h = refl
bytes_less_asym (a ∷ xs) [] h = cc
bytes_less_asym (a ∷ xs) (b ∷ ys) h = ground (arith, bytes_less_asym xs ys)

osc_comparable_sym :
    {D : Type 0} (v w : Value D) → osc_comparable v w ≡ true → osc_comparable w v ≡ true
unfolding osc_comparable
osc_comparable_sym undef w h = cc
osc_comparable_sym (boolean a) (boolean b) h = refl
osc_comparable_sym (boolean a) _ h = cc
osc_comparable_sym (number a) (number b) h = refl
osc_comparable_sym (number a) _ h = cc
osc_comparable_sym (string a) (string b) h = refl
osc_comparable_sym (string a) _ h = cc
osc_comparable_sym (vector a) (vector b) h = refl
osc_comparable_sym (vector a) _ h = cc
osc_comparable_sym (range a) w h = cc
osc_comparable_sym (object a) w h = cc
osc_comparable_sym (closure a) w h = cc

at_first_difference_asym :
    (equal comparable comparable' : Bool) (rest rest' less less' : Option Bool)
    → (comparable ≡ true → comparable' ≡ true)
    → (rest ≡ some true → rest' ≡ some false)
    → (less ≡ some true → less' ≡ some false)
    → at_first_difference equal rest comparable less ≡ some true
    → at_first_difference equal rest' comparable' less' ≡ some false
at_first_difference_asym true comparable comparable' rest rest' less less' f g h e = g e
at_first_difference_asym false true comparable' rest rest' less less' f g h e = rw (f refl) (h e)
at_first_difference_asym false false comparable' rest rest' less less' f g h e = cc

module _ {D : Type 0} (double : Doubles D)
    (symmetric : (a b : D) → double.equal a b ≡ double.equal b a)
    (asymmetric : (a b : D) → double.less a b ≡ true → double.less b a ≡ false) where
  mutual
    unfolding value_less items_less

    value_less_asym :
        (v w : Value D) → value_less double v w ≡ some true → value_less double w v ≡ some false
    value_less_asym undef w h = cc
    value_less_asym (boolean a) (boolean b) h = ap some (bool_less_asym a b (cc))
    value_less_asym (boolean a) _ h = cc
    value_less_asym (number a) (number b) h = ap some (asymmetric a b (cc))
    value_less_asym (number a) _ h = cc
    value_less_asym (string a) (string b) h = ap some (bytes_less_asym a b (cc))
    value_less_asym (string a) _ h = cc
    value_less_asym (vector a) (vector b) h = items_less_asym a b h
    value_less_asym (vector a) _ h = cc
    value_less_asym (range a) w h = cc
    value_less_asym (object a) w h = cc
    value_less_asym (closure a) w h = cc

    items_less_asym :
        (xs ys : Values D)
        → items_less double xs ys ≡ some true
        → items_less double ys xs ≡ some false
    items_less_asym none_left none_left h = cc
    items_less_asym none_left (item b ys) h = refl
    items_less_asym (item a xs) none_left h = cc
    items_less_asym (item a xs) (item b ys) h =
        subst
          (λ equal.
            at_first_difference equal (items_less double ys xs) (osc_comparable b a)
              (value_less double b a)
            ≡ some false)
          (osc_equal-symmetric double symmetric a b)
          (at_first_difference_asym (osc_equal double a b) (osc_comparable a b) (osc_comparable b a)
            (items_less double xs ys) (items_less double ys xs) (value_less double a b)
            (value_less double b a) (osc_comparable_sym a b) (items_less_asym xs ys)
            (value_less_asym a b) h)

  -- If `valueLess` holds of two values it answers false for them the other way round, at any depth, if
  -- equality of doubles is symmetric and their order never holds both ways.
  pub value_less-asymmetric :
      (v w : Value D) → value_less double v w ≡ some true → value_less double w v ≡ some false
  value_less-asymmetric v w h = value_less_asym v w h
