-- ===== src/Arguments.antt =====
-- The arguments of a call and the parameters of what is called: `BoundArgs` of
-- include/openscad_cpp_evaluator/bound_args.hpp, the diagnostics of src/eval_error.cpp, and `bindArgs`,
-- `bindCallArgsInto` and `applyDefaults` of src/user_calls.cpp, which the tree walk uses.
use openscad_cpp_evaluator.Prelude.{
  ℕ, zero, suc, Bool, true, false, not, ◌&&◌, ◌||◌, List, [], ◌∷◌, ◌++◌, Option, none, some, ◌==◌,
  if◌then◌else◌, length, get_elem?, map,
}
use openscad_cpp_evaluator.Prelude.Bytes.{bytes_eq}
use openscad_cpp_evaluator.Value.{Doubles, Value, undef}
use openscad_cpp_evaluator.Operators.{Warning, unexpected_named, too_many_positional, Warned}
use openscad_cpp_evaluator.Expression.{
  Name, Expr, Bindings, find, is_dyn_name, Globals, Context, WarnedContext, bind_let_name,
  bind_params, eval,
}
pub mod Frames
pub mod Plans
pub mod Layout
pub mod Indices
pub mod Walk
pub mod Diagnostics
mod Tests
pub mod ByTree
pub mod ByPlan
pub mod ByName
pub mod Entries
pub mod Latest

pub data Argument (D : Type 0) : Type 0 where
  positional : Expr D → Argument D
  named : Name → Expr D → Argument D

pub record Parameter (D : Type 0) : Type 0 where
  pub name : Name
  pub default_value : Option (Expr D)

-- An argument that is evaluated, with its name if it has one.
abbrev pub Supplied : Type 0 → Type 0
Supplied D = Option Name × Value D

-- The entries in the order in which their names came up; `Expression.find` finds the one of a name.
abbrev pub BoundArgs : Type 0 → Type 0
BoundArgs D = Bindings D

abbrev pub Binding : Type 0 → Type 0
Binding D = BoundArgs D × List (Warning D)

abbrev pub children_name : Name
children_name = 0x24 ∷ 0x63 ∷ 0x68 ∷ 0x69 ∷ 0x6c ∷ 0x64 ∷ 0x72 ∷ 0x65 ∷ 0x6e ∷ []

unfoldable pub is_config_variable : Name → Bool
is_config_variable n = is_dyn_name n && not (bytes_eq n children_name)

unfoldable pub declares_param : List Name → Name → Bool
declares_param [] n = false
declares_param (p ∷ params) n = bytes_eq p n || declares_param params n

module _ {D : Type 0} where
  unfoldable pub set_bound : BoundArgs D → Name → Value D → BoundArgs D
  set_bound [] n v = (n, v) ∷ []
  set_bound ((k, w) ∷ bound) n v =
      if bytes_eq k n then (k, v) ∷ bound else (k, w) ∷ set_bound bound n v

  abbrev pub is_bound : BoundArgs D → Name → Bool
  is_bound bound n = elim (find bound n) [ none ↦ false | some v ↦ true ]

  -- What is said of a named argument, and of the positional argument with some index.
  unfoldable pub warn_named : List Name → Name → List (Warning D)
  warn_named params n =
      if not (is_config_variable n) && not (declares_param params n)
      then unexpected_named n ∷ []
      else []

  unfoldable pub warn_positional : List Name → ℕ → List (Warning D)
  warn_positional params i = if i == length params then too_many_positional ∷ [] else []

module _ {D : Type 0} (double : Doubles D) (globals : Globals D) (caller : Context D) where
  -- `index` positional arguments came before. One past the last parameter is not evaluated.
  unfoldable pub bind_args_from : List Name → ℕ → List (Argument D) → BoundArgs D → Binding D
  bind_args_from params index [] bound = (bound, [])
  bind_args_from params index (named n e ∷ args) bound =
      let v = eval double globals caller e in
      let rest = bind_args_from params index args (set_bound bound n v.0) in
      (rest.0, warn_named params n ++ (v.1 ++ rest.1))
  bind_args_from params index (positional e ∷ args) bound = elim (get_elem? params index) [
    | some p ↦
        let v = eval double globals caller e in
        let rest = bind_args_from params (suc index) args (set_bound bound p v.0) in
        (rest.0, v.1 ++ rest.1)
    | none ↦
        let rest = bind_args_from params (suc index) args bound in
        (rest.0, warn_positional params index ++ rest.1)
  ]

  unfoldable pub bind_args : List Name → List (Argument D) → Binding D
  bind_args params args = bind_args_from params 0 args []

-- The value of a parameter's default, or undef. Its expression sees the names with a `$` and none of
-- the lexical ones.
module _ {D : Type 0} (double : Doubles D) (globals : Globals D) where
  unfoldable pub default_of : Option (Expr D) → Bindings D → Warned D
  default_of none dyn = (undef, [])
  default_of (some e) dyn = eval double globals (record { lets = []; dyn = dyn }) e

  unfoldable pub apply_defaults : List (Parameter D) → BoundArgs D → Context D → WarnedContext D
  apply_defaults [] bound c = (c, [])
  apply_defaults (p ∷ params) bound c = elim (is_bound bound p.name) [
    | true ↦ apply_defaults params bound c
    | false ↦
        let v = default_of p.default_value c.dyn in
        let rest = apply_defaults params bound (bind_let_name c p.name v.0) in
        (rest.0, v.1 ++ rest.1)
  ]

  unfoldable pub bind_call_args_into :
      List (Parameter D) → BoundArgs D → Context D → WarnedContext D
  bind_call_args_into params bound c = apply_defaults params bound (bind_params c bound)

module _ {D : Type 0} where
  abbrev pub param_names : List (Parameter D) → List Name
  param_names params = map (λ p. p.name) params
