-- ===== src/Iterable/Access.antt =====
-- The cache of `IterableValues::operator[]` in include/openscad_cpp_evaluator/value.hpp.
use openscad_cpp_evaluator.Prelude.{
  ℕ, zero, suc, ◌+◌, ◌-◌, ◌≡◌, refl, ap, ◌∙◌, arith, inl, inr, List, [], ◌∷◌, map, Option, none,
  some, ltb, Bool-cases,
}
use openscad_cpp_evaluator.Value.{Doubles, OscRange}
use openscad_cpp_evaluator.Iterable.{Cursor, advance, move_cursor, access_all}

module _ {D : Type 0} (double : Doubles D) (r : OscRange D) where
  advance-add :
      (m n : ℕ) (x : D) → advance double n r (advance double m r x) ≡ advance double (m + n) r x
  unfolding advance
  advance-add zero n x = let e : 0 + n ≡ n = omega arith in rw e
  advance-add (suc m) n x =
      let e : suc m + n ≡ suc (m + n) = omega arith in rw e (advance-add m n (double.plus x r.step))

  -- The position is that of the index.
  unfoldable pub IsCurrent : Option (Cursor D) → Type 0
  IsCurrent none = Unit
  IsCurrent (some c) = c.position ≡ advance double c.index r r.start

  move_cursor-position :
      (c : Option (Cursor D)) (i : ℕ)
      → IsCurrent c
      → (move_cursor double r c i).position ≡ advance double i r r.start
  unfolding move_cursor IsCurrent
  move_cursor-position none i h = refl
  move_cursor-position (some c) i h = elim (Bool-cases (ltb i c.index)) [
    | inl back ↦ rw back
    | inr ahead ↦ rw ahead (
        rw h (
          let e : c.index + (i - c.index) ≡ i = ground arith in
          advance-add c.index (i - c.index) r.start ∙ ap (λ k. advance double k r r.start) e))
  ]

  move_cursor-index : (c : Option (Cursor D)) (i : ℕ) → (move_cursor double r c i).index ≡ i
  unfolding move_cursor
  move_cursor-index none i = refl
  move_cursor-index (some c) i = ground arith

  move_cursor-IsCurrent :
      (c : Option (Cursor D)) (i : ℕ) → IsCurrent c → IsCurrent (some (move_cursor double r c i))
  unfolding IsCurrent
  move_cursor-IsCurrent c i h = rw (move_cursor-index c i) (move_cursor-position c i h)

  -- Accesses at any places in any order, the first of them from a cache that is empty or whose
  -- position is that of its index, give at each place the start of the range with the step added to it
  -- as often as the place says.
  pub access_all-map :
      (c : Option (Cursor D)) (places : List ℕ)
      → IsCurrent c
      → access_all double r c places ≡ map (λ i. advance double i r r.start) places
  unfolding access_all
  access_all-map c [] h = refl
  access_all-map c (i ∷ places) h =
      let rest =
        access_all-map (some (move_cursor double r c i)) places (move_cursor-IsCurrent c i h) in
      λ k. move_cursor-position c i h k ∷ rest k
