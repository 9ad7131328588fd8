-- ===== src/Iterable/Walk.antt =====
-- The iterator and `size` of a range, of include/openscad_cpp_evaluator/value.hpp.
use mathlib.Core.Option
use openscad_cpp_evaluator.Prelude.{
  ℕ, zero, suc, ◌+◌, ◌<◌, ◌≡◌, refl, ap, ◌∙◌, arith, Bool, true, false, List, [], ◌∷◌, Option, none,
  some, length,
}
use openscad_cpp_evaluator.Value.{Doubles, OscRange, Value, number, range}
use openscad_cpp_evaluator.Iterable.{
  at_most, in_range, range_walk, range_size, range_element_count, too_many, expand_iterable,
  all_values, lazy_range,
}

module _ {D : Type 0} (double : Doubles D) (r : OscRange D) where
  -- The step changes nothing: the sum rounds back to where it was.
  pub record IsAbsorbed (x : D) : Type 0 where
    pub same : double.plus x r.step ≡ x
    pub within : in_range double r x ≡ true

  -- From a number within a range to which the range's step adds nothing, the iterator makes no end,
  -- whatever the number of its steps, and neither does the count of the elements.
  pub range_walk-absorbed :
      (fuel n : ℕ) (x : D)
      → IsAbsorbed x
      → (range_walk double fuel r x ≡ none) × (range_size double fuel r x n ≡ none)
  unfolding range_walk range_size
  range_walk-absorbed zero n x h = (refl, refl)
  range_walk-absorbed (suc fuel) n x h = (
    rw (h.within, range_walk, h.same, (range_walk-absorbed fuel n x h).0),
    rw (h.within, range_size, h.same) (range_walk-absorbed fuel (suc n) x h).1,
  )

  -- The direction of the range, and that the end is not passed yet.
  abbrev pub Goes : Bool → Type 0
  Goes true = double.less double.zero_value r.step ≡ true
  Goes false =
      (double.less double.zero_value r.step ≡ false) × (double.less r.step double.zero_value ≡ true)

  abbrev pub is_reached : Bool → D → Bool
  is_reached true x = at_most double x (double.plus r.end double.tiny)
  is_reached false x = at_most double (double.minus r.end double.tiny) x

  -- Of the numbers from `x` on, each the one before and the step, `k` come before the end is passed.
  abbrev pub Ends : Bool → ℕ → D → Type 0
  Ends up zero x = is_reached up x ≡ false
  Ends up (suc k) x = (is_reached up x ≡ true) × Ends up k (double.plus x r.step)

  abbrev pub numbers_from : ℕ → D → List (Value D)
  numbers_from zero x = []
  numbers_from (suc k) x = number x ∷ numbers_from k (double.plus x r.step)

  in_range-is_reached : (up : Bool) (x : D) → Goes up → in_range double r x ≡ is_reached up x
  unfolding in_range
  in_range-is_reached true x goes = rw goes refl
  in_range-is_reached false x goes = rw (goes.0, goes.1) refl

  range_walk-Ends :
      (up : Bool) (k fuel : ℕ) (x : D)
      → Goes up
      → Ends up k x
      → k < fuel
      → range_walk double fuel r x ≡ some (numbers_from k x)
  unfolding range_walk
  range_walk-Ends up k zero x goes ends lt = absurd (omega arith)
  range_walk-Ends up zero (suc fuel) x goes ends lt =
      let out : in_range double r x ≡ false = in_range-is_reached up x goes ∙ ends in
      rw (range_walk, out) refl
  range_walk-Ends up (suc k) (suc fuel) x goes ends lt =
      let inside : in_range double r x ≡ true = in_range-is_reached up x goes ∙ ends.0 in
      let rest = range_walk-Ends up k fuel (double.plus x r.step) goes ends.1 (omega arith) in
      rw (range_walk, inside, rest) refl

  length-numbers_from : (k : ℕ) (x : D) → length (numbers_from k x) ≡ k
  length-numbers_from zero x = refl
  length-numbers_from (suc k) x = omega (arith, length-numbers_from k (double.plus x r.step))

  -- `size` is the number of elements that the iterator makes, and does not end where it does not.
  pub range_size-counted :
      (fuel n : ℕ) (x : D)
      → range_size double fuel r x n ≡ Option.map (λ vs. n + length vs) (range_walk double fuel r x)
  unfolding range_walk range_size
  range_size-counted zero n x = refl
  range_size-counted (suc fuel) n x =
      let rest = range_size-counted fuel (suc n) (double.plus x r.step) in ground (arith, rest)

  guard-none :
      (count : Option ℕ) → ((n : ℕ) → count ≡ some n → n < 1000000) → too_many double count ≡ none
  guard-none none few = refl
  guard-none (some n) few = let lt = few n refl in ground arith

  -- A loop over a range that is not counted as a million elements or more: if the numbers that come of
  -- adding the step again and again pass the end after `k` of them, upward or downward, the loop ends
  -- within `k + 1` tests, runs over these `k` numbers, and `size` is `k`.
  pub expand_iterable-numbers_from :
      (up : Bool) (k fuel : ℕ)
      → Goes up
      → Ends up k r.start
      → k < fuel
      → ((n : ℕ) → range_element_count double r ≡ some n → n < 1000000)
      → let expanded = expand_iterable double (range r) in
        (expanded.1 ≡ none)
        × (all_values double fuel expanded.0 ≡ some (numbers_from k r.start))
        × (range_size double fuel r r.start 0 ≡ some k)
  unfolding expand_iterable all_values
  expand_iterable-numbers_from up k fuel goes ends lt few =
      let guard = guard-none (range_element_count double r) few in
      let walk = range_walk-Ends up k fuel r.start goes ends lt in
      let count = range_size-counted fuel 0 r.start in
      let lazy : (expand_iterable double (range r)).0 ≡ lazy_range r =
        rw (expand_iterable, guard) refl in
      (
        rw (expand_iterable, guard) refl,
        rw lazy walk,
        count
            ∙ ap (Option.map (λ vs. 0 + length vs)) walk
            ∙ ap some (omega (arith, length-numbers_from k r.start)),
      )
