-- ===== src/Value/Naturals.antt =====
-- Natural numbers for doubles, for the tests: subtraction stops at zero, and a quotient is its dividend.
use openscad_cpp_evaluator.Prelude.{ℕ, ◌+◌, ◌-◌, ◌*◌, true, false, ◌==◌, ltb, some}
use openscad_cpp_evaluator.Value.{Doubles}

abbrev pub naturals : Doubles ℕ
naturals = record {
  equal = λ a b. a == b;
  less = ltb;
  is_nan = λ a. false;
  is_finite = λ a. true;
  plus = λ a b. a + b;
  minus = λ a b. a - b;
  times = λ a b. a * b;
  divide = λ a b. a;
  modulo = λ a b. a;
  power = λ a b. a;
  negate = λ a. a;
  floor = λ a. a;
  signed_infinity = λ a. a;
  to_int64 = λ a. a;
  of_int64 = λ a. a;
  to_size = λ a. a;
  to_int = λ a. some a;
  zero_value = 0;
  one = 1;
  minus_one = 0;
  nan = 0;
  tiny = 0;
  minus_tiny = 0;
  count_cap = 4294967295;
}
