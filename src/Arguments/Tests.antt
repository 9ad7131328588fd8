-- ===== src/Arguments/Tests.antt =====
-- Arguments of small calls, and the theorems at concrete inputs.
use openscad_cpp_evaluator.Prelude.{ℕ, ◌≡◌, refl, true, false, List, [], ◌∷◌, none, some}
use openscad_cpp_evaluator.Prelude.Bytes.{bytes_eq}
use openscad_cpp_evaluator.Value.{undef, number}
use openscad_cpp_evaluator.Value.Naturals.{naturals}
use openscad_cpp_evaluator.Operators.{too_many_positional, unexpected_named}
use openscad_cpp_evaluator.Expression.{
  Name, number_literal, Globals, Context, is_dyn_name, find, eval,
}
use openscad_cpp_evaluator.Machine.{update}
use openscad_cpp_evaluator.Bytecode.{declare_params, resolve}
use openscad_cpp_evaluator.Prelude.{map}
use openscad_cpp_evaluator.Arguments.{
  Argument, positional, named, Supplied, is_config_variable, declares_param, bind_args,
}
use openscad_cpp_evaluator.Arguments.Frames.{
  Param, names_of, compile_params, ArgFrame, set_param, build_bound_args,
  bind_bound_args_into_frame, bind_ast_args_into_frame,
}
use openscad_cpp_evaluator.Arguments.Plans.{
  plan_call_site_args, bind_planned_args_into_frame, warn_planned_args, plan_named, plan_positional,
  bind_every_param_named, set_each, bind_planned_arg,
}
use openscad_cpp_evaluator.Arguments.Layout.{compile_params-IsLayout}
use openscad_cpp_evaluator.Arguments.Latest.{assignments, AreBound}
use openscad_cpp_evaluator.Arguments.ByPlan.{bind_planned_args_into_frame-AreBound}
use openscad_cpp_evaluator.Arguments.ByName.{bind_bound_args_into_frame-AreBound}
use openscad_cpp_evaluator.Arguments.ByTree.{evaluated, bind_ast_args_into_frame-AreBound}
use openscad_cpp_evaluator.Arguments.Walk.{AreQuiet, bind_args-build_bound_args}
use openscad_cpp_evaluator.Arguments.Diagnostics.{
  warn_planned_args-build_bound_args, twice_declared, repeated_name,
}

abbrev x_name : Name
x_name = 0x78 ∷ []

abbrev y_name : Name
y_name = 0x79 ∷ []

-- $a
abbrev dollar_a : Name
dollar_a = 0x24 ∷ 0x61 ∷ []

abbrev names : List Name
names = x_name ∷ dollar_a ∷ y_name ∷ []

abbrev params : List Param
params = compile_params names 0

abbrev globals : Globals ℕ
globals = record { pi = 3; lookup_variable = λ n. none }

abbrev caller : Context ℕ
caller = record { lets = []; dyn = [] }

-- (y = 5, 1, 2, z = 3, 4, 6)
abbrev given : List (Supplied ℕ)
given =
    (some y_name, number 5)
    ∷ (none, number 1)
    ∷ (none, number 2)
    ∷ (some (0x7a ∷ []), number 3)
    ∷ (none, number 4)
    ∷ (none, number 6)
    ∷ []

abbrev written : List (Argument ℕ)
written = named y_name (number_literal 5) ∷ positional (number_literal 1) ∷ []

abbrev fresh : ArgFrame ℕ
fresh = record { slots = λ k. undef; bound = λ i. false; dyn = [] }

-- The third positional argument replaces the named one.
last_wins :
    (bind_planned_args_into_frame params
        (plan_call_site_args names 0 (map (λ a. a.0) given))
        given
        fresh).slots
      1
    ≡ number 4
unfolding compile_params is_dyn_name plan_call_site_args plan_named plan_positional
    bind_every_param_named bytes_eq bind_planned_args_into_frame bind_planned_arg set_each update
    is_config_variable set_param
last_wins = refl

warned :
    warn_planned_args {D = ℕ}
      (plan_call_site_args names 0 (map (λ a. a.0) given))
      (map (λ a. a.0) given)
    ≡ unexpected_named (0x7a ∷ []) ∷ too_many_positional ∷ []
unfolding warn_planned_args plan_call_site_args plan_named plan_positional is_config_variable
    is_dyn_name bind_every_param_named bytes_eq
warned = refl

bind_planned_args_into_frame-AreBound_example :
    let result =
      bind_planned_args_into_frame params
        (plan_call_site_args (names_of params) 0 (map (λ a. a.0) given))
        given
        fresh in
    AreBound params (assignments (names_of params) given) fresh result
    × ((k : Name) → is_dyn_name k ≡ false → find result.dyn k ≡ find fresh.dyn k)
bind_planned_args_into_frame-AreBound_example =
    bind_planned_args_into_frame-AreBound params (compile_params-IsLayout names 0) given fresh

bind_bound_args_into_frame-AreBound_example :
    AreBound params
      (assignments (names_of params) given)
      fresh
      (bind_bound_args_into_frame params (build_bound_args true (names_of params) given).0 fresh)
bind_bound_args_into_frame-AreBound_example =
    bind_bound_args_into_frame-AreBound params (compile_params-IsLayout names 0) true given fresh

bind_ast_args_into_frame-AreBound_example :
    AreBound params
      (assignments (names_of params) (evaluated naturals globals caller written))
      fresh
      (bind_ast_args_into_frame naturals globals caller params written fresh).0
unfolding declares_param bytes_eq compile_params
bind_ast_args_into_frame-AreBound_example =
    bind_ast_args_into_frame-AreBound params (compile_params-IsLayout names 0)
      (refl, (refl, (refl, tt))) naturals globals caller written fresh

bind_args-build_bound_args_example :
    ((bind_args naturals globals caller names written).0
      ≡ (build_bound_args true names (evaluated naturals globals caller written)).0)
    × (AreQuiet naturals globals caller written
        → bind_args naturals globals caller names written
          ≡ build_bound_args true names (evaluated naturals globals caller written))
bind_args-build_bound_args_example =
    bind_args-build_bound_args naturals globals caller names written

warn_planned_args-build_bound_args_example :
    warn_planned_args {D = ℕ}
      (plan_call_site_args names 0 (map (λ a. a.0) given))
      (map (λ a. a.0) given)
    ≡ (build_bound_args true names given).1
warn_planned_args-build_bound_args_example = warn_planned_args-build_bound_args names given

repeated_name_example :
    let planned =
      bind_planned_args_into_frame
        (twice_declared x_name)
        (plan_call_site_args (x_name ∷ x_name ∷ []) 0 (none ∷ []))
        ((none, number 7) ∷ [])
        fresh in
    let evaluated =
      bind_ast_args_into_frame naturals globals caller
        (twice_declared x_name)
        (positional (number_literal 7) ∷ [])
        fresh in
    (resolve (declare_params ([] ∷ []) (x_name ∷ x_name ∷ []) 0).0 x_name ≡ some 1)
    × (planned.slots 1 ≡ number 7)
    × (evaluated.0.slots 1 ≡ undef)
    × (evaluated.0.bound 1 ≡ false)
unfolding is_dyn_name eval
repeated_name_example = repeated_name naturals globals caller x_name (number_literal 7) fresh refl
