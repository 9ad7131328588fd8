-- ===== src/Arguments/ByName.antt =====
-- The binding of arguments by name (`buildBoundArgs` and `bindBoundArgsIntoFrame` of
-- src/bytecode_vm.cpp) against what a binding promises.
use openscad_cpp_evaluator.Prelude.{
  ℕ, suc, ◌≡◌, refl, arith, Bool, true, false, not, ◌&&◌, List, [], ◌∷◌, none, some, ◌==◌, leb,
  if◌then◌else◌, get_elem?, inl, inr, Bool-cases, Option-cases,
}
use openscad_cpp_evaluator.Prelude.Bytes.{bytes_eq, bytes_eq-eq}
use openscad_cpp_evaluator.Value.{Value}
use openscad_cpp_evaluator.Expression.{Name, find, is_dyn_name}
use openscad_cpp_evaluator.Arguments.{Supplied, BoundArgs, declares_param}
use openscad_cpp_evaluator.Arguments.Frames.{
  Param, names_of, ArgFrame, set_dyn, build_bound_args_from, build_bound_args, set_found,
  bind_found, bind_unmatched, bind_bound_args_into_frame,
}
use openscad_cpp_evaluator.Arguments.Layout.{
  IsLayout, set_param-filled, set_param-flags, set_param-dynamic, IsRest, IsRest-all, IsRest-first,
  IsRest-later, IsRest-end,
}
use openscad_cpp_evaluator.Arguments.Latest.{
  assignments, latest, latest-of, from, to_true, as_given, AreBound,
}
use openscad_cpp_evaluator.Arguments.Entries.{
  IsKeyed, build_bound_args_from-latest, build_bound_args_from-IsKeyed,
}

module _ {D : Type 0} where
  -- The second loop: a name that no parameter has gets the value of its entry.
  find-bind_unmatched :
      (params : List Name) (bound : BoundArgs D) (f : ArgFrame D) (k : Name)
      → IsKeyed bound
      → find (bind_unmatched params bound f).dyn k ≡ (
          if not (declares_param params k) && is_dyn_name k
          then from some (find bound k) (find f.dyn k)
          else find f.dyn k)
  unfolding bind_unmatched find
  find-bind_unmatched params [] f k h = ground arith
  find-bind_unmatched params ((n, v) ∷ bound) f k h = ground (
    arith,
    find-bind_unmatched params bound (set_dyn n v f) k h.1,
    find-bind_unmatched params bound f k h.1,
    bytes_eq-eq n k,
    h.0,
  )

  bind_unmatched-rest :
      (params : List Name) (bound : BoundArgs D) (f : ArgFrame D)
      → ((bind_unmatched params bound f).slots ≡ f.slots)
        × ((bind_unmatched params bound f).bound ≡ f.bound)
  unfolding bind_unmatched
  bind_unmatched-rest params [] f = (refl, refl)
  bind_unmatched-rest params ((n, v) ∷ bound) f =
      elim (Bool-cases (not (declares_param params n) && is_dyn_name n)) [
        | inl apart ↦ rw (apart, bind_unmatched) (bind_unmatched-rest params bound (set_dyn n v f))
        | inr other ↦ rw (other, bind_unmatched) (bind_unmatched-rest params bound f)
      ]

-- The first loop, over the parameters from number `i` on.
module _ {D : Type 0} (params : List Param) (layout : IsLayout params) (bound : BoundArgs D) where
  set_found-flags :
      (i : ℕ) (p : Param)
      → get_elem? params i ≡ some p
      → (f : ArgFrame D) (j : ℕ)
      → (set_found (find bound p.name) p i f).bound j
        ≡ (if i == j then from to_true (find bound p.name) (f.bound j) else f.bound j)
  set_found-flags i p here f j = elim (Option-cases (find bound p.name)) [
    | inl missing ↦ rw missing (ground arith)
    | inr (v, given) ↦ rw given (ground (arith, set_param-flags params layout i p here v f j))
  ]

  set_found-filled :
      (i : ℕ) (p : Param)
      → get_elem? params i ≡ some p
      → (f : ArgFrame D) (j : ℕ) (q : Param) → get_elem? params j ≡ some q
      → q.is_dyn ≡ false
      → (set_found (find bound p.name) p i f).slots q.slot
        ≡ (if i == j then from as_given (find bound p.name) (f.slots q.slot) else f.slots q.slot)
  set_found-filled i p here f j q there plain = elim (Option-cases (find bound p.name)) [
    | inl missing ↦ rw missing (ground arith)
    | inr (v, given) ↦
        rw given (ground (arith, set_param-filled params layout i p here v f j q there plain))
  ]

  set_found-dynamic :
      (i : ℕ) (p : Param)
      → get_elem? params i ≡ some p
      → (f : ArgFrame D) (k : Name)
      → find (set_found (find bound p.name) p i f).dyn k ≡ (
          if is_dyn_name p.name && bytes_eq p.name k
          then from some (find bound p.name) (find f.dyn k)
          else find f.dyn k)
  set_found-dynamic i p here f k = elim (Option-cases (find bound p.name)) [
    | inl missing ↦ rw missing (ground arith)
    | inr (v, given) ↦ rw given (ground (arith, set_param-dynamic params layout i p here v f k))
  ]

  bind_found-flags :
      (i : ℕ) (left : List Param)
      → IsRest params i left
      → (f : ArgFrame D) (j : ℕ) (q : Param) → get_elem? params j ≡ some q
      → (bind_found i left bound f).bound j
        ≡ (if leb i j then from to_true (find bound q.name) (f.bound j) else f.bound j)
  unfolding bind_found
  bind_found-flags i [] h f j q there = ground (arith, IsRest-end params i h j)
  bind_found-flags i (p ∷ left) h f j q there =
      let here = IsRest-first params i p left h in
      ground (
        arith,
        bind_found-flags (suc i) left (IsRest-later params i p left h)
            (set_found (find bound p.name) p i f) j q there,
        set_found-flags i p here f j,
      )

  bind_found-filled :
      (i : ℕ) (left : List Param)
      → IsRest params i left
      → (f : ArgFrame D) (j : ℕ) (q : Param) → get_elem? params j ≡ some q
      → q.is_dyn ≡ false
      → (bind_found i left bound f).slots q.slot
        ≡ (if leb i j then from as_given (find bound q.name) (f.slots q.slot) else f.slots q.slot)
  unfolding bind_found
  bind_found-filled i [] h f j q there plain = ground (arith, IsRest-end params i h j)
  bind_found-filled i (p ∷ left) h f j q there plain =
      let here = IsRest-first params i p left h in
      ground (
        arith,
        bind_found-filled (suc i) left (IsRest-later params i p left h)
            (set_found (find bound p.name) p i f) j q there plain,
        set_found-filled i p here f j q there plain,
      )

  bind_found-dynamic :
      (i : ℕ) (left : List Param)
      → IsRest params i left
      → (f : ArgFrame D) (k : Name) → is_dyn_name k ≡ true
      → find (bind_found i left bound f).dyn k ≡ (
          if declares_param (names_of left) k
          then from some (find bound k) (find f.dyn k)
          else find f.dyn k)
  unfolding bind_found declares_param
  bind_found-dynamic i [] h f k dynamic = refl
  bind_found-dynamic i (p ∷ left) h f k dynamic =
      let here = IsRest-first params i p left h in
      let rest =
        bind_found-dynamic (suc i) left (IsRest-later params i p left h)
          (set_found (find bound p.name) p i f) k dynamic in
      elim (Bool-cases (bytes_eq p.name k)) [
        | inl same ↦
            let e = bytes_eq-eq p.name k same in
            let given : is_dyn_name p.name ≡ true = rw e dynamic in
            let value : find bound p.name ≡ find bound k = rw e refl in
            rw same (ground (arith, rest, set_found-dynamic i p here f k, given, value))
        | inr other ↦ rw other (ground (arith, rest, set_found-dynamic i p here f k))
      ]

  bind_bound-AreBound :
      (made : List (Name × Value D)) (f : ArgFrame D)
      → IsKeyed bound
      → ((k : Name) → find bound k ≡ latest some made k none)
      → AreBound params made f (bind_bound_args_into_frame params bound f)
  unfolding bind_bound_args_into_frame
  bind_bound-AreBound made f keyed same =
      let all : IsRest params 0 params = IsRest-all params in
      let rest = bind_unmatched-rest (names_of params) bound (bind_found 0 params bound f) in
      record {
        flags = λ i p here.
            rw
              (
                rest.1,
                bind_found-flags 0 params all f i p here,
                latest-of to_true made p.name,
                ← same p.name,
              )
              (ground arith);
        filled = λ i p here plain.
            rw
              (
                rest.0,
                bind_found-filled 0 params all f i p here plain,
                latest-of as_given made p.name,
                ← same p.name,
              )
              (ground arith);
        dynamic = λ k d.
            rw
              (
                find-bind_unmatched (names_of params) bound (bind_found 0 params bound f) k keyed,
                bind_found-dynamic 0 params all f k d,
                latest-of some made k,
                ← same k,
              )
              (ground (arith, d));
      }

-- The match by name binds each parameter to the last value that the call assigns to its name, and the
-- names with a `$` that no parameter has to theirs.
pub bind_bound_args_into_frame-AreBound :
    {D : Type 0} (params : List Param)
    → IsLayout params
    → (emit : Bool) (args : List (Supplied D)) (f : ArgFrame D)
    → AreBound params
        (assignments (names_of params) args)
        f
        (bind_bound_args_into_frame params (build_bound_args emit (names_of params) args).0 f)
unfolding build_bound_args find
bind_bound_args_into_frame-AreBound params layout emit args f =
    bind_bound-AreBound params layout (build_bound_args_from emit (names_of params) 0 args []).0
      (assignments (names_of params) args) f
      (build_bound_args_from-IsKeyed emit (names_of params) 0 args [] tt)
      (λ k. build_bound_args_from-latest emit (names_of params) 0 args [] k)
