-- ===== src/Calls.antt =====
-- Calls of user functions by the two engines: `evalUserFunction` of src/user_calls.cpp with the tree
-- walk, and `compileFunctionLike` of src/bytecode_compiler.cpp with `runCompiledFunction` and
-- `applyCompiledDefaultsToFrame` of src/bytecode_vm.cpp. The body and the defaults are the expressions
-- of `Expression`; a call that the walk cuts short (`evalFunctionBodyTrampoline`) does not occur in them.
use openscad_cpp_evaluator.Prelude.{
  ℕ, zero, suc, Bool, true, false, List, [], ◌∷◌, ◌++◌, Option, none, some, if◌then◌else◌,
}
use openscad_cpp_evaluator.Value.{Doubles, Value, undef}
use openscad_cpp_evaluator.Operators.{Warning, Warned}
use openscad_cpp_evaluator.Expression.{Name, Expr, Bindings, Globals, Context, eval}
use openscad_cpp_evaluator.Machine.{Instruction, update, run, frame_result, new_frame}
use openscad_cpp_evaluator.Bytecode.{declare_params, compile}
use openscad_cpp_evaluator.Arguments.{
  Argument, Parameter, param_names, bind_args, bind_call_args_into,
}
use openscad_cpp_evaluator.Arguments.Frames.{
  Param, compile_params, ArgFrame, bind_ast_args_into_frame,
}
pub mod Fuel
pub mod Defaults
pub mod Filling
pub mod Expected
pub mod Agreement
pub mod Bounds
pub mod Engines
mod Tests

-- `CompiledChunk`; a parameter without a default has no code.
pub record Chunk (D : Type 0) : Type 0 where
  pub params : List Param
  pub defaults : List (Option (List (Instruction D)))
  pub body : List (Instruction D)
  pub slot_count : ℕ

module _ {D : Type 0} where
  -- A default is compiled in a scope without names.
  unfoldable pub compile_default : Option (Expr D) → ℕ → Option (List (Instruction D)) × ℕ
  compile_default none next = (none, next)
  compile_default (some e) next = let code = compile [] e 0 next in (some code.0, code.1)

  unfoldable pub compile_defaults :
      List (Parameter D) → ℕ → List (Option (List (Instruction D))) × ℕ
  compile_defaults [] next = ([], next)
  compile_defaults (p ∷ params) next =
      let first = compile_default p.default_value next in
      let rest = compile_defaults params first.1 in (first.0 ∷ rest.0, rest.1)

  -- The whole of `compileFunctionLike`.
  unfoldable pub compile_chunk : List (Parameter D) → Expr D → Chunk D
  compile_chunk params body =
      let scope = declare_params ([] ∷ []) (param_names params) 0 in
      let defaults = compile_defaults params scope.1 in
      let code = compile scope.0 body 0 defaults.1 in
      record {
        params = compile_params (param_names params) 0;
        defaults = defaults.0;
        body = code.0;
        slot_count = code.1;
      }

  unfoldable pub fill_param : Param → Value D → ArgFrame D → ArgFrame D
  fill_param p v f = record f {
    slots = if p.is_dyn then f.slots else update f.slots p.slot v;
    dyn = if p.is_dyn then (p.name, v) ∷ f.dyn else f.dyn;
  }

-- What the code of a default leaves: its value, the names with a `$` (the frame of the default writes
-- to those of the call) and the warnings.
abbrev pub DefaultResult : Type 0 → Type 0
DefaultResult D = Value D × Bindings D × List (Warning D)

module _ {D : Type 0} (double : Doubles D) (globals : Globals D) (lets : Bindings D) where
  -- `fuel` bounds the instructions of each run.
  unfoldable pub run_default :
      ℕ → Option (List (Instruction D)) → ArgFrame D → Option (DefaultResult D)
  run_default fuel none f = some (undef, f.dyn, [])
  run_default fuel (some code) f =
      elim (run double globals lets fuel code (new_frame f.slots f.dyn)) [
        | none ↦ none
        | some g ↦ some (frame_result g, g.dyn, g.warnings)
      ]

  unfoldable pub apply_compiled_defaults :
      ℕ
      → ℕ
      → List Param
      → List (Option (List (Instruction D)))
      → ArgFrame D
      → Option (ArgFrame D × List (Warning D))
  apply_compiled_defaults fuel i [] codes f = some (f, [])
  apply_compiled_defaults fuel i (p ∷ params) [] f = some (f, [])
  apply_compiled_defaults fuel i (p ∷ params) (code ∷ codes) f = elim (f.bound i) [
    | true ↦ apply_compiled_defaults fuel (suc i) params codes f
    | false ↦ elim (run_default fuel code f) [
      | none ↦ none
      | some (v, dyn, ws) ↦
          elim (apply_compiled_defaults fuel (suc i) params codes
            (fill_param p v (record f { dyn = dyn }))) [
              | none ↦ none
              | some (g, ws') ↦ some (g, ws ++ ws')
            ]
    ]
  ]

-- The arguments are evaluated in the caller's context, and `child` is the context of the call.
module _ {D : Type 0} (double : Doubles D) (outside : Globals D) (caller : Context D)
    (globals : Globals D) (child : Context D) where
  abbrev pub empty_frame : ArgFrame D
  empty_frame = record { slots = λ k. undef; bound = λ i. false; dyn = child.dyn }

  unfoldable pub run_compiled_function : ℕ → Chunk D → List (Argument D) → Option (Warned D)
  run_compiled_function fuel chunk args =
      let f = bind_ast_args_into_frame double outside caller chunk.params args empty_frame in
      elim (apply_compiled_defaults double globals child.lets fuel 0 chunk.params chunk.defaults
        f.0) [
          | none ↦ none
          | some (g, ws) ↦
              elim (run double globals child.lets fuel chunk.body (new_frame g.slots g.dyn)) [
                | none ↦ none
                | some h ↦ some (frame_result h, f.1 ++ (ws ++ h.warnings))
              ]
        ]

  unfoldable pub eval_user_function : List (Parameter D) → Expr D → List (Argument D) → Warned D
  eval_user_function params body args =
      let bound = bind_args double outside caller (param_names params) args in
      let inner = bind_call_args_into double globals params bound.0 child in
      let r = eval double globals inner.0 body in (r.0, bound.1 ++ (inner.1 ++ r.1))
