-- ===== src/Arguments/Frames.antt =====
-- How a frame of the virtual machine gets its arguments by the names of the parameters:
-- `buildBoundArgs`, `bindBoundArgsIntoFrame` and `bindAstArgsIntoFrame` of src/bytecode_vm.cpp.
use openscad_cpp_evaluator.Prelude.{
  ℕ, suc, Bool, not, ◌&&◌, ◌||◌, List, [], ◌∷◌, ◌++◌, Option, none, some, ◌==◌, if◌then◌else◌,
  get_elem?, map,
}
use openscad_cpp_evaluator.Prelude.Bytes.{bytes_eq}
use openscad_cpp_evaluator.Value.{Doubles, Value}
use openscad_cpp_evaluator.Operators.{Warning, unexpected_named}
use openscad_cpp_evaluator.Expression.{Name, Bindings, find, is_dyn_name, Globals, Context, eval}
use openscad_cpp_evaluator.Machine.{update}
use openscad_cpp_evaluator.Arguments.{
  Argument, positional, named, Supplied, BoundArgs, Binding, is_config_variable, declares_param,
  set_bound, warn_named, warn_positional,
}

-- `CompiledChunk::Param`; a parameter with a `$` has no slot.
pub record Param : Type 0 where
  pub name : Name
  pub slot : ℕ
  pub is_dyn : Bool

abbrev pub names_of : List Param → List Name
names_of params = map (λ p. p.name) params

-- The parameters of a chunk, the first free slot being `next`.
unfoldable pub compile_params : List Name → ℕ → List Param
compile_params [] next = []
compile_params (n ∷ names) next =
    record { name = n; slot = if is_dyn_name n then 0 else next; is_dyn = is_dyn_name n }
    ∷ compile_params names (if is_dyn_name n then next else suc next)

-- The fields of `VmFrame` that arguments are written to.
pub record ArgFrame (D : Type 0) : Type 0 where
  pub slots : ℕ → Value D
  pub bound : ℕ → Bool
  pub dyn : Bindings D

module _ {D : Type 0} where
  unfoldable pub set_param : Param → ℕ → Value D → ArgFrame D → ArgFrame D
  set_param p i v f = record {
    slots = if p.is_dyn then f.slots else update f.slots p.slot v;
    bound = λ j. i == j || f.bound j;
    dyn = if p.is_dyn then (p.name, v) ∷ f.dyn else f.dyn;
  }

  abbrev pub set_dyn : Name → Value D → ArgFrame D → ArgFrame D
  set_dyn n v f = record f { dyn = (n, v) ∷ f.dyn }

  -- The match by name, of arguments that are evaluated.
  unfoldable pub build_bound_args_from :
      Bool → List Name → ℕ → List (Supplied D) → BoundArgs D → Binding D
  build_bound_args_from emit params index [] bound = (bound, [])
  build_bound_args_from emit params index ((some n, v) ∷ args) bound =
      let rest = build_bound_args_from emit params index args (set_bound bound n v) in
      (rest.0, (if emit then warn_named params n else []) ++ rest.1)
  build_bound_args_from emit params index ((none, v) ∷ args) bound = elim (get_elem? params index) [
    | some p ↦ build_bound_args_from emit params (suc index) args (set_bound bound p v)
    | none ↦
        let rest = build_bound_args_from emit params (suc index) args bound in
        (rest.0, (if emit then warn_positional params index else []) ++ rest.1)
  ]

  unfoldable pub build_bound_args : Bool → List Name → List (Supplied D) → Binding D
  build_bound_args emit params args = build_bound_args_from emit params 0 args []

  abbrev pub set_found : Option (Value D) → Param → ℕ → ArgFrame D → ArgFrame D
  set_found none p i f = f
  set_found (some v) p i f = set_param p i v f

  -- The first loop of `bindBoundArgsIntoFrame`, over the parameters from number `i` on.
  unfoldable pub bind_found : ℕ → List Param → BoundArgs D → ArgFrame D → ArgFrame D
  bind_found i [] bound f = f
  bind_found i (p ∷ params) bound f =
      bind_found (suc i) params bound (set_found (find bound p.name) p i f)

  -- The second loop, over the entries.
  unfoldable pub bind_unmatched : List Name → BoundArgs D → ArgFrame D → ArgFrame D
  bind_unmatched params [] f = f
  bind_unmatched params ((k, v) ∷ bound) f =
      bind_unmatched params bound
        (if not (declares_param params k) && is_dyn_name k then set_dyn k v f else f)

  unfoldable pub bind_bound_args_into_frame : List Param → BoundArgs D → ArgFrame D → ArgFrame D
  bind_bound_args_into_frame params bound f =
      bind_unmatched (names_of params) bound (bind_found 0 params bound f)

-- The match of arguments that are evaluated one by one.
unfoldable pub first_named : List Param → Name → ℕ → Option (ℕ × Param)
first_named [] n i = none
first_named (p ∷ params) n i =
    if bytes_eq p.name n then some (i, p) else first_named params n (suc i)

module _ {D : Type 0} where
  abbrev pub set_first : Option (ℕ × Param) → Name → Value D → ArgFrame D → ArgFrame D
  set_first (some (i, p)) n v f = set_param p i v f
  set_first none n v f = if is_dyn_name n then set_dyn n v f else f

  abbrev pub warn_first : Option (ℕ × Param) → Name → List (Warning D)
  warn_first (some found) n = []
  warn_first none n = if is_config_variable n then [] else unexpected_named n ∷ []

module _ {D : Type 0} (double : Doubles D) (globals : Globals D) (caller : Context D) where
  unfoldable pub bind_ast_args_from :
      List Param → ℕ → List (Argument D) → ArgFrame D → ArgFrame D × List (Warning D)
  bind_ast_args_from params index [] f = (f, [])
  bind_ast_args_from params index (named n e ∷ args) f =
      let v = eval double globals caller e in
      let found = first_named params n 0 in
      let rest = bind_ast_args_from params index args (set_first found n v.0 f) in
      (rest.0, v.1 ++ (warn_first found n ++ rest.1))
  bind_ast_args_from params index (positional e ∷ args) f =
      let v = eval double globals caller e in
      elim (get_elem? params index) [
        | some p ↦
            let rest = bind_ast_args_from params (suc index) args (set_param p index v.0 f) in
            (rest.0, v.1 ++ rest.1)
        | none ↦
            let rest = bind_ast_args_from params (suc index) args f in
            (rest.0, v.1 ++ (warn_positional (names_of params) index ++ rest.1))
      ]

  unfoldable pub bind_ast_args_into_frame :
      List Param → List (Argument D) → ArgFrame D → ArgFrame D × List (Warning D)
  bind_ast_args_into_frame params args f = bind_ast_args_from params 0 args f
