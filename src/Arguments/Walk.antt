-- ===== src/Arguments/Walk.antt =====
-- The binding of arguments by the tree walk (`bindArgs` and `bindCallArgsInto` of src/user_calls.cpp)
-- against the match by name and against what a binding promises.
use openscad_cpp_evaluator.Prelude.{
  ℕ, suc, ◌≡◌, refl, arith, true, List, [], ◌∷◌, some, if◌then◌else◌, get_elem?, inl, inr,
  Option-cases,
}
use openscad_cpp_evaluator.Prelude.Bytes.{bytes_eq-eq}
use openscad_cpp_evaluator.Value.{Doubles}
use openscad_cpp_evaluator.Expression.{
  Name, find, is_dyn_name, Globals, Context, eval, bind_let_name, bind_params,
}
use openscad_cpp_evaluator.Expression.Contexts.{find-bind_let_name}
use openscad_cpp_evaluator.Arguments.{
  Argument, positional, named, BoundArgs, set_bound, bind_args_from, bind_args,
}
use openscad_cpp_evaluator.Arguments.Frames.{build_bound_args_from, build_bound_args}
use openscad_cpp_evaluator.Arguments.ByTree.{evaluated}
use openscad_cpp_evaluator.Arguments.Entries.{IsKeyed}
use openscad_cpp_evaluator.Arguments.Latest.{from}

module _ {D : Type 0} (double : Doubles D) (globals : Globals D) (caller : Context D) where
  -- No argument's expression gives a warning.
  abbrev pub AreQuiet : List (Argument D) → Type 0
  AreQuiet [] = Unit
  AreQuiet (positional e ∷ args) = ((eval double globals caller e).1 ≡ []) × AreQuiet args
  AreQuiet (named n e ∷ args) = ((eval double globals caller e).1 ≡ []) × AreQuiet args

  bind_args_from-entries :
      (params : List Name) (index : ℕ) (args : List (Argument D)) (bound : BoundArgs D)
      → (bind_args_from double globals caller params index args bound).0
        ≡ (build_bound_args_from true params index (evaluated double globals caller args) bound).0
  unfolding bind_args_from build_bound_args_from evaluated
  bind_args_from-entries params index [] bound = refl
  bind_args_from-entries params index (named n e ∷ args) bound =
      bind_args_from-entries params index args (set_bound bound n (eval double globals caller e).0)
  bind_args_from-entries params index (positional e ∷ args) bound =
      elim (Option-cases (get_elem? params index)) [
        | inl past ↦
            rw (bind_args_from, build_bound_args_from, past)
              (bind_args_from-entries params (suc index) args bound)
        | inr (p, here) ↦
            rw (bind_args_from, build_bound_args_from, here)
              (bind_args_from-entries params (suc index) args
                (set_bound bound p (eval double globals caller e).0))
      ]

  bind_args_from-quiet :
      (params : List Name) (index : ℕ) (args : List (Argument D)) (bound : BoundArgs D)
      → AreQuiet args
      → bind_args_from double globals caller params index args bound
        ≡ build_bound_args_from true params index (evaluated double globals caller args) bound
  unfolding bind_args_from build_bound_args_from evaluated
  bind_args_from-quiet params index [] bound q = refl
  bind_args_from-quiet params index (named n e ∷ args) bound q =
      let v = (eval double globals caller e).0 in
      rw (q.0, bind_args_from-quiet params index args (set_bound bound n v) q.1) refl
  bind_args_from-quiet params index (positional e ∷ args) bound q =
      elim (Option-cases (get_elem? params index)) [
        | inl past ↦
            rw (bind_args_from, build_bound_args_from, past)
              (rw (bind_args_from-quiet params (suc index) args bound q.1) refl)
        | inr (p, here) ↦
            let v = (eval double globals caller e).0 in
            rw (bind_args_from, build_bound_args_from, here)
              (rw (q.0, bind_args_from-quiet params (suc index) args (set_bound bound p v) q.1)
                refl)
      ]

  -- The entries that the tree walk makes are those of the match by name on the values of the
  -- arguments, and if no argument's expression gives a warning, so are the warnings.
  pub bind_args-build_bound_args :
      (params : List Name) (args : List (Argument D))
      → ((bind_args double globals caller params args).0
          ≡ (build_bound_args true params (evaluated double globals caller args)).0)
        × (AreQuiet args
            → bind_args double globals caller params args
              ≡ build_bound_args true params (evaluated double globals caller args))
  unfolding bind_args build_bound_args
  bind_args-build_bound_args params args =
      (bind_args_from-entries params 0 args [], bind_args_from-quiet params 0 args [])

module _ {D : Type 0} where
  -- The entries are bound in a context, each name to its own value.
  pub find-bind_params :
      (bound : BoundArgs D) (c : Context D) (k : Name)
      → IsKeyed bound
      → (find (bind_params c bound).lets k
          ≡ (if is_dyn_name k then find c.lets k else from some (find bound k) (find c.lets k)))
        × (find (bind_params c bound).dyn k
            ≡ (if is_dyn_name k then from some (find bound k) (find c.dyn k) else find c.dyn k))
  unfolding bind_params find
  find-bind_params [] c k keyed = (ground arith, ground arith)
  find-bind_params ((n, v) ∷ bound) c k keyed =
      let rest = find-bind_params bound (bind_let_name c n v) k keyed.1 in
      let first = find-bind_let_name c n v k in
      (
        ground (arith, rest.0, first.0, bytes_eq-eq n k, keyed.0),
        ground (arith, rest.1, first.1, bytes_eq-eq n k, keyed.0),
      )
