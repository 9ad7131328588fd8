-- ===== src/Arguments/Entries.antt =====
-- `BoundArgs` of include/openscad_cpp_evaluator/bound_args.hpp as a map, and the entries that
-- `buildBoundArgs` of src/bytecode_vm.cpp makes.
use openscad_cpp_evaluator.Prelude.{
  ℕ, suc, ◌≡◌, refl, sym, ◌∙◌, arith, Bool, false, List, [], ◌∷◌, none, some, if◌then◌else◌,
  get_elem?, drop, inl, inr, Bool-cases, Option-cases,
}
use openscad_cpp_evaluator.Prelude.Bytes.{bytes_eq, bytes_eq-eq, bytes_eq-sym}
use openscad_cpp_evaluator.Value.{Value}
use openscad_cpp_evaluator.Expression.{Name, find}
use openscad_cpp_evaluator.Arguments.{Supplied, BoundArgs, set_bound}
use openscad_cpp_evaluator.Arguments.Frames.{build_bound_args_from}
use openscad_cpp_evaluator.Arguments.Latest.{
  assignments, latest, drop-some, drop-none, drop-none_nil,
}

module _ {D : Type 0} where
  -- The entries have different names.
  abbrev pub IsKeyed : BoundArgs D → Type 0
  IsKeyed [] = Unit
  IsKeyed ((k, v) ∷ bound) = (find bound k ≡ none) × IsKeyed bound

  -- An entry is found as it was set, and the others as before.
  pub find-set_bound :
      (bound : BoundArgs D) (n k : Name) (v : Value D)
      → find (set_bound bound n v) k ≡ (if bytes_eq n k then some v else find bound k)
  unfolding find set_bound
  find-set_bound [] n k v = refl
  find-set_bound ((m, w) ∷ bound) n k v = elim (Bool-cases (bytes_eq m n)) [
    | inl same ↦ rw (same, ← bytes_eq-eq m n same) (ground arith)
    | inr other ↦ elim (Bool-cases (bytes_eq m k)) [
      | inl here ↦
          let apart : bytes_eq n k ≡ false = rw (← bytes_eq-eq m k here, bytes_eq-sym n m) other in
          rw (other, here, apart) refl
      | inr there ↦ rw (other, there) (find-set_bound bound n k v)
    ]
  ]

  pub set_bound-IsKeyed :
      (bound : BoundArgs D) (n : Name) (v : Value D) → IsKeyed bound → IsKeyed (set_bound bound n v)
  unfolding set_bound find
  set_bound-IsKeyed [] n v h = (refl, tt)
  set_bound-IsKeyed ((m, w) ∷ bound) n v h = elim (Bool-cases (bytes_eq m n)) [
    | inl same ↦ rw same h
    | inr other ↦ rw other (
      (rw (find-set_bound bound n m v, bytes_eq-sym n m, other) h.0),
      set_bound-IsKeyed bound n v h.1,
    )
  ]

  build-past :
      (emit : Bool) (params : List Name) (index : ℕ) (args : List (Supplied D))
      (bound : BoundArgs D) (v : Value D)
      → get_elem? params index ≡ none
      → (build_bound_args_from emit params index ((none, v) ∷ args) bound).0
        ≡ (build_bound_args_from emit params (suc index) args bound).0
  unfolding build_bound_args_from
  build-past emit params index args bound v past = rw (build_bound_args_from, past) refl

  build-here :
      (emit : Bool) (params : List Name) (index : ℕ) (args : List (Supplied D))
      (bound : BoundArgs D) (v : Value D) {p : Name}
      → get_elem? params index ≡ some p
      → (build_bound_args_from emit params index ((none, v) ∷ args) bound).0
        ≡ (build_bound_args_from emit params (suc index) args (set_bound bound p v)).0
  unfolding build_bound_args_from
  build-here emit params index args bound v here = rw (build_bound_args_from, here) refl

  -- The entries are those that were assigned last.
  pub build_bound_args_from-latest :
      (emit : Bool) (params : List Name) (index : ℕ) (args : List (Supplied D))
      (bound : BoundArgs D) (k : Name)
      → find (build_bound_args_from emit params index args bound).0 k
        ≡ latest some (assignments (drop index params) args) k (find bound k)
  unfolding build_bound_args_from latest assignments
  build_bound_args_from-latest emit params index [] bound k = refl
  build_bound_args_from-latest emit params index ((some n, v) ∷ args) bound k =
      rw (find-set_bound bound n k v) at
        (build_bound_args_from-latest emit params index args (set_bound bound n v) k)
  build_bound_args_from-latest emit params index ((none, v) ∷ args) bound k =
      elim (Option-cases (get_elem? params index)) [
        | inl past ↦
            let rest = build_bound_args_from-latest emit params (suc index) args bound k in
            let empty = drop-none_nil params index past in
            let still = sym (drop-none params index past) ∙ empty in
            rw (build-past emit params index args bound v past, empty) (rw still at rest)
        | inr (p, here) ↦
            let rest =
              build_bound_args_from-latest emit params (suc index) args (set_bound bound p v) k in
            rw (build-here emit params index args bound v here, drop-some params index here)
              (rw (find-set_bound bound p k v) at rest)
      ]

  pub build_bound_args_from-IsKeyed :
      (emit : Bool) (params : List Name) (index : ℕ) (args : List (Supplied D))
      (bound : BoundArgs D)
      → IsKeyed bound
      → IsKeyed (build_bound_args_from emit params index args bound).0
  unfolding build_bound_args_from
  build_bound_args_from-IsKeyed emit params index [] bound h = h
  build_bound_args_from-IsKeyed emit params index ((some n, v) ∷ args) bound h =
      build_bound_args_from-IsKeyed emit params index args (set_bound bound n v)
        (set_bound-IsKeyed bound n v h)
  build_bound_args_from-IsKeyed emit params index ((none, v) ∷ args) bound h =
      elim (Option-cases (get_elem? params index)) [
        | inl past ↦
            rw (build-past emit params index args bound v past)
              (build_bound_args_from-IsKeyed emit params (suc index) args bound h)
        | inr (p, here) ↦ rw (build-here emit params index args bound v here) (
            build_bound_args_from-IsKeyed emit params (suc index) args (set_bound bound p v)
              (set_bound-IsKeyed bound p v h))
      ]
