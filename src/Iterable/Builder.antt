-- ===== src/Iterable/Builder.antt =====
-- `ListBuilder::appendEach` of include/openscad_cpp_evaluator/value.hpp.
use mathlib.Core.Option
use openscad_cpp_evaluator.Prelude.{
  ℕ, ◌≡◌, refl, sym, ap, List, [], ◌∷◌, ◌++◌, append_assoc, append-nil, Option, none, some, arith,
}
use openscad_cpp_evaluator.Value.{Doubles, Value, undef, vector}
use openscad_cpp_evaluator.Value.Matrix.{elements}
use openscad_cpp_evaluator.Iterable.{
  ListBuilder, finish, seed_with, append_each, each_values, append_each_into,
}

module _ {D : Type 0} (double : Doubles D) (fuel : ℕ) where
  abbrev builder : Option (List (Value D)) → List (Value D) → ListBuilder D
  builder seed rest = record { seed = seed; rest = rest }

  grown :
      (seed : Option (List (Value D))) (rest : List (Value D))
      → ((ws : List (Value D))
          → finish (builder seed rest) ++ ws ≡ finish (builder seed (rest ++ ws)))
      → (added : Option (List (Value D)))
      → Option.map finish (Option.map (builder seed) (Option.map (λ ws. rest ++ ws) added))
        ≡ Option.map (λ ws. finish (builder seed rest) ++ ws) added
  grown seed rest h none = refl
  grown seed rest h (some ws) = ap some (sym (h ws))

  finish-unseeded :
      (seed : Option (List (Value D))) (rest : List (Value D)) (v : Value D)
      → seed_with (builder seed rest) v ≡ none
      → Option.map finish (append_each double fuel (builder seed rest) v)
        ≡ append_each_into double fuel (finish (builder seed rest)) v
  unfolding append_each append_each_into finish
  finish-unseeded none rest v h = rw (append_each, h) (ground arith)
  finish-unseeded (some vs) rest v h =
      rw (append_each, h)
        (grown (some vs) rest (λ ws. append_assoc vs rest ws) (each_values double fuel v))

  finish-on :
      (seed : Option (List (Value D))) (rest : List (Value D)) (v : Value D)
      → Option.map finish (append_each double fuel (builder seed rest) v)
        ≡ append_each_into double fuel (finish (builder seed rest)) v
  finish-on (some vs) rest v = finish-unseeded (some vs) rest v (unfold seed_with in refl)
  finish-on none (x ∷ xs) v = finish-unseeded none (x ∷ xs) v (unfold seed_with in refl)
  finish-on none [] (vector xs) =
      unfold append_each append_each_into finish seed_with each_values in
      ap some (append-nil (elements xs))
  finish-on none [] undef = finish-unseeded none [] undef (unfold seed_with in refl)
  finish-on none [] v = finish-unseeded none [] v (unfold seed_with in refl)

  -- Adding the elements of a value to a builder gives the list that adding them to the builder's
  -- list gives, also where the builder takes the value as its start, and gives none where that gives
  -- none.
  pub finish-append_each :
      (b : ListBuilder D) (v : Value D)
      → Option.map finish (append_each double fuel b v) ≡ append_each_into double fuel (finish b) v
  finish-append_each b v = finish-on b.seed b.rest v
