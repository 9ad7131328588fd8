-- ===== src/Arguments/Plans.antt =====
-- Arguments of a call whose callee is known: the plan that `planCallSiteArgs` of
-- src/bytecode_compiler.cpp makes, and `bindPlannedArgsIntoFrame` and `warnPlannedArgs` of
-- src/bytecode_vm.cpp, which follow it.
use openscad_cpp_evaluator.Prelude.{
  ℕ, suc, Bool, true, false, not, ◌&&◌, List, [], ◌∷◌, ◌++◌, Option, none, some, ◌==◌,
  if◌then◌else◌, length, get_elem?,
}
use openscad_cpp_evaluator.Prelude.Bytes.{bytes_eq}
use openscad_cpp_evaluator.Value.{Value}
use openscad_cpp_evaluator.Operators.{Warning, unexpected_named, too_many_positional}
use openscad_cpp_evaluator.Expression.{Name, is_dyn_name}
use openscad_cpp_evaluator.Arguments.{Supplied, is_config_variable}
use openscad_cpp_evaluator.Arguments.Frames.{Param, ArgFrame, set_param, set_dyn}

-- `CallSite::ArgBind`.
pub record ArgBind : Type 0 where
  pub param_index : Option ℕ
  pub also_params : List ℕ
  pub to_dyn : Bool
  pub warn_unexpected_named : Bool
  pub warn_too_many_positional : Bool

abbrev pub no_bind : ArgBind
no_bind = record {
  param_index = none;
  also_params = [];
  to_dyn = false;
  warn_unexpected_named = false;
  warn_too_many_positional = false;
}

abbrev pub add_index : ArgBind → ℕ → ArgBind
add_index b i = elim b.param_index [
  | none ↦ record b { param_index = some i }
  | some first ↦ record b { also_params = b.also_params ++ i ∷ [] }
]

-- The parameters from number `i` on.
unfoldable pub bind_every_param_named : ArgBind → List Name → Name → ℕ → ArgBind
bind_every_param_named b [] n i = b
bind_every_param_named b (p ∷ params) n i =
    bind_every_param_named (if bytes_eq p n then add_index b i else b) params n (suc i)

abbrev pub name_or_empty : Option Name → Name
name_or_empty none = []
name_or_empty (some n) = n

abbrev pub is_found : Option ℕ → Bool
is_found none = false
is_found (some i) = true

unfoldable pub plan_named : List Name → Name → ArgBind
plan_named params n =
    let b = bind_every_param_named no_bind params n 0 in
    record b {
      warn_unexpected_named = not (is_found b.param_index) && not (is_config_variable n);
      to_dyn = not (is_found b.param_index) && is_dyn_name n;
    }

unfoldable pub plan_positional : List Name → ℕ → ArgBind
plan_positional params index = elim (get_elem? params index) [
  | some p ↦ bind_every_param_named no_bind params p 0
  | none ↦ record no_bind { warn_too_many_positional = index == length params }
]

unfoldable pub plan_call_site_args : List Name → ℕ → List (Option Name) → List ArgBind
plan_call_site_args params index [] = []
plan_call_site_args params index (some n ∷ args) =
    plan_named params n ∷ plan_call_site_args params index args
plan_call_site_args params index (none ∷ args) =
    plan_positional params index ∷ plan_call_site_args params (suc index) args

module _ {D : Type 0} where
  abbrev pub set_at : List Param → ℕ → Value D → ArgFrame D → ArgFrame D
  set_at params i v f = elim (get_elem? params i) [ none ↦ f | some p ↦ set_param p i v f ]

  unfoldable pub set_each : List Param → List ℕ → Value D → ArgFrame D → ArgFrame D
  set_each params [] v f = f
  set_each params (i ∷ is) v f = set_each params is v (set_at params i v f)

  abbrev pub set_named_dyn : Option Name → Value D → ArgFrame D → ArgFrame D
  set_named_dyn none v f = f
  set_named_dyn (some n) v f = set_dyn n v f

  unfoldable pub bind_planned_arg : List Param → ArgBind → Supplied D → ArgFrame D → ArgFrame D
  bind_planned_arg params b arg f = elim b.param_index [
    | some i ↦ set_at params i arg.1 (set_each params b.also_params arg.1 f)
    | none ↦ if b.to_dyn then set_named_dyn arg.0 arg.1 f else f
  ]

  unfoldable pub bind_planned_args_into_frame :
      List Param → List ArgBind → List (Supplied D) → ArgFrame D → ArgFrame D
  bind_planned_args_into_frame params [] args f = f
  bind_planned_args_into_frame params (b ∷ binds) [] f = f
  bind_planned_args_into_frame params (b ∷ binds) (arg ∷ args) f =
      bind_planned_args_into_frame params binds args (bind_planned_arg params b arg f)

  unfoldable pub warn_planned_args : List ArgBind → List (Option Name) → List (Warning D)
  warn_planned_args [] args = []
  warn_planned_args (b ∷ binds) [] = []
  warn_planned_args (b ∷ binds) (n ∷ args) =
      (if b.warn_unexpected_named then unexpected_named (name_or_empty n) ∷ [] else [])
      ++ ((if b.warn_too_many_positional then too_many_positional ∷ [] else [])
          ++ warn_planned_args binds args)
