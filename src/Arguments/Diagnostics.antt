-- ===== src/Arguments/Diagnostics.antt =====
-- The warnings of the planned binding (`planCallSiteArgs` of src/bytecode_compiler.cpp,
-- `warnPlannedArgs` of src/bytecode_vm.cpp) against those of the match by name, and what the two
-- bindings do with a parameter name that is declared twice.
use openscad_cpp_evaluator.Prelude.{
  ℕ, suc, ◌≡◌, refl, arith, true, false, not, ◌&&◌, List, [], ◌∷◌, none, some, inl, inr, get_elem?,
  map, Bool-cases, Option-cases,
}
use openscad_cpp_evaluator.Prelude.Bytes.{bytes_eq, bytes_eq_refl}
use openscad_cpp_evaluator.Value.{Doubles}
use openscad_cpp_evaluator.Expression.{Name, Expr, Globals, Context, eval, is_dyn_name}
use openscad_cpp_evaluator.Machine.{update}
use openscad_cpp_evaluator.Bytecode.{declare_params, declare, resolve, resolve_frame}
use openscad_cpp_evaluator.Arguments.{
  positional, Supplied, BoundArgs, set_bound, declares_param, is_config_variable, warn_named,
  warn_positional,
}
use openscad_cpp_evaluator.Arguments.Frames.{
  Param, compile_params, ArgFrame, set_param, build_bound_args_from, build_bound_args,
  bind_ast_args_from, bind_ast_args_into_frame,
}
use openscad_cpp_evaluator.Arguments.Plans.{
  bind_every_param_named, plan_named, plan_positional, plan_call_site_args, warn_planned_args,
  is_found, set_each, bind_planned_arg, bind_planned_args_into_frame,
}
use openscad_cpp_evaluator.Arguments.Indices.{
  indices, has_any, split, bind_every-split, plan_positional-some, plan_positional-none,
}

has_any-declares :
    (params : List Name) (n : Name) (i : ℕ) → has_any (indices params n i) ≡ declares_param params n
unfolding declares_param
has_any-declares [] n i = refl
has_any-declares (p ∷ params) n i = elim (Bool-cases (bytes_eq p n)) [
  | inl same ↦ rw same refl
  | inr other ↦ rw other (has_any-declares params n (suc i))
]

is_found-split : (is : List ℕ) → is_found (split is).param_index ≡ has_any is
is_found-split [] = refl
is_found-split (i ∷ is) = refl

quiet-split :
    (is : List ℕ)
    → ((split is).warn_unexpected_named ≡ false) × ((split is).warn_too_many_positional ≡ false)
quiet-split [] = (refl, refl)
quiet-split (i ∷ is) = (refl, refl)

module _ (params : List Name) where
  planned_named-warns :
      (n : Name)
      → ((plan_named params n).warn_unexpected_named
          ≡ (not (declares_param params n) && not (is_config_variable n)))
        × ((plan_named params n).warn_too_many_positional ≡ false)
  unfolding plan_named
  planned_named-warns n = (
    rw (bind_every-split params n 0, is_found-split, has_any-declares params n 0) refl,
    rw (bind_every-split params n 0) (quiet-split (indices params n 0)).1,
  )

module _ {D : Type 0} (params : List Name) where
  planned-warns :
      (index : ℕ) (args : List (Supplied D)) (bound : BoundArgs D)
      → warn_planned_args {D = D}
          (plan_call_site_args params index (map (λ a. a.0) args))
          (map (λ a. a.0) args)
        ≡ (build_bound_args_from true params index args bound).1
  unfolding warn_planned_args plan_call_site_args build_bound_args_from warn_named warn_positional
  planned-warns index [] bound = refl
  planned-warns index ((some n, v) ∷ args) bound =
      let rest = planned-warns index args (set_bound bound n v) in
      rw ((planned_named-warns params n).0, (planned_named-warns params n).1, rest) (ground arith)
  planned-warns index ((none, v) ∷ args) bound = elim (Option-cases (get_elem? params index)) [
    | inl past ↦
        rw
          (
            plan_positional-none params index past,
            build_bound_args_from,
            past,
            planned-warns (suc index) args bound,
          )
          refl
    | inr (p, here) ↦
        let quiet = quiet-split (indices params p 0) in
        rw
          (
            plan_positional-some params p index here,
            quiet.0,
            quiet.1,
            build_bound_args_from,
            here,
            planned-warns (suc index) args (set_bound bound p v),
          )
          refl
  ]

  -- What the plan says to warn of is what the match by name warns of, in the same order.
  pub warn_planned_args-build_bound_args :
      (args : List (Supplied D))
      → warn_planned_args {D = D}
          (plan_call_site_args params 0 (map (λ a. a.0) args))
          (map (λ a. a.0) args)
        ≡ (build_bound_args true params args).1
  unfolding build_bound_args
  warn_planned_args-build_bound_args args = planned-warns 0 args []

-- The parameters of a function that declares the name `n` twice and no other.
abbrev pub twice_declared : Name → List Param
twice_declared n = compile_params (n ∷ n ∷ []) 0

module _ {D : Type 0} (double : Doubles D) (globals : Globals D) (caller : Context D) where
  -- For a function whose only two parameters have one name, which has no `$`, the body reads the name
  -- from the second slot. In a call with a single positional argument the plan fills that slot with the
  -- argument's value; where the argument is evaluated in the binding, that slot is left as it was and
  -- the second parameter not flagged.
  pub repeated_name :
      (n : Name) (e : Expr D) (f : ArgFrame D)
      → is_dyn_name n ≡ false
      → let v = (eval double globals caller e).0 in
        let planned =
          bind_planned_args_into_frame
            (twice_declared n)
            (plan_call_site_args (n ∷ n ∷ []) 0 (none ∷ []))
            ((none, v) ∷ [])
            f in
        let evaluated =
          bind_ast_args_into_frame double globals caller (twice_declared n) (positional e ∷ []) f in
        (resolve (declare_params ([] ∷ []) (n ∷ n ∷ []) 0).0 n ≡ some 1)
        × (planned.slots 1 ≡ v)
        × (evaluated.0.slots 1 ≡ f.slots 1)
        × (evaluated.0.bound 1 ≡ f.bound 1)
  unfolding declare_params declare resolve resolve_frame compile_params bind_planned_args_into_frame
      plan_call_site_args plan_positional bind_every_param_named bind_planned_arg set_each set_param
      update bind_ast_args_into_frame bind_ast_args_from
  repeated_name n e f plain =
      let same = bytes_eq_refl n in
      (rw plain (rw same refl), rw (plain, same) refl, rw plain refl, refl)
