-- ===== src/Calls/Bounds.antt =====
-- Which slots a compiled function names, its defaults and parameters included (`compileFunctionLike` of
-- src/bytecode_compiler.cpp).
use openscad_cpp_evaluator.Prelude.{
  ℕ, zero, suc, ◌<◌, ◌≤◌, ◌≡◌, arith, inl, inr, false, List, [], ◌∷◌, Option, none, some, length,
  get_elem?, All, Bool-cases,
}
use openscad_cpp_evaluator.Expression.{Name, Expr, is_dyn_name}
use openscad_cpp_evaluator.Machine.{Instruction}
use openscad_cpp_evaluator.Bytecode.{
  CompileScope, resolve, resolve_frame, declare, declare_params, compile,
}
use openscad_cpp_evaluator.Bytecode.Scopes.{compile-le}
use openscad_cpp_evaluator.Bytecode.Slots.{AreBounded, Fits-mono, params-Fit, widen}
use openscad_cpp_evaluator.Bytecode.Bounds.{bounded}
use openscad_cpp_evaluator.Arguments.{Parameter, param_names}
use openscad_cpp_evaluator.Arguments.Frames.{Param, compile_params}
use openscad_cpp_evaluator.Calls.{compile_default, compile_defaults, compile_chunk}
use openscad_cpp_evaluator.Calls.Agreement.{compile_defaults-le}

declare_params-le :
    (scope : CompileScope) (names : List Name) (next : ℕ)
    → next ≤ (declare_params scope names next).1
unfolding declare_params
declare_params-le scope [] next = omega arith
declare_params-le scope (n ∷ names) next = elim (Bool-cases (is_dyn_name n)) [
  | inl dynamic ↦ rw dynamic (declare_params-le scope names next)
  | inr plain ↦ rw plain (omega (arith, declare_params-le (declare scope n next) names (suc next)))
]

compile_params-lt :
    (scope : CompileScope) (names : List Name) (next i : ℕ) (p : Param)
    → get_elem? (compile_params names next) i ≡ some p
    → p.is_dyn ≡ false
    → p.slot < (declare_params scope names next).1
unfolding compile_params declare_params
compile_params-lt scope [] next i p h free = cc
compile_params-lt scope (n ∷ names) next zero p h free =
    let plain : is_dyn_name n ≡ false = ground arith in
    let here : p.slot ≡ next = ground arith in
    rw plain (omega (arith, here, declare_params-le (declare scope n next) names (suc next)))
compile_params-lt scope (n ∷ names) next (suc i) p h free = elim (Bool-cases (is_dyn_name n)) [
  | inl dynamic ↦ rw dynamic (compile_params-lt scope names next i p (rw dynamic at h) free)
  | inr plain ↦
      rw plain (compile_params-lt (declare scope n next) names (suc next) i p (rw plain at h) free)
]

module _ {D : Type 0} where
  -- The code of a default, if there is one.
  abbrev pub IsBoundedDefault : ℕ → Option (List (Instruction D)) → Type 0
  IsBoundedDefault slots none = Unit
  IsBoundedDefault slots (some code) = AreBounded slots (length code) code

  bounded_default :
      (default : Option (Expr D)) (next slots : ℕ)
      → (compile_default default next).1 ≤ slots
      → IsBoundedDefault slots (compile_default default next).0
  unfolding compile_default resolve
  bounded_default none next slots le = tt
  bounded_default (some e) next slots le =
      widen (compile [] e 0 next).0 (bounded e [] 0 next (λ n slot h. cc)) le (omega arith)

  bounded_defaults :
      (params : List (Parameter D)) (next slots : ℕ)
      → (compile_defaults params next).1 ≤ slots
      → All (IsBoundedDefault slots) (compile_defaults params next).0
  unfolding compile_defaults
  bounded_defaults [] next slots le = tt
  bounded_defaults (p ∷ params) next slots le =
      let first = compile_default p.default_value next in
      (
        bounded_default p.default_value next slots
            (omega (arith, compile_defaults-le params first.1)),
        bounded_defaults params first.1 slots le,
      )

  -- Every instruction of a compiled function, in its body and in the code of its defaults, loads, stores
  -- and clears only slots that the function's frame has, and jumps at most to the end of its code; the
  -- slots of its parameters without a `$` are slots of that frame too.
  pub compile_chunk-IsBounded :
      (params : List (Parameter D)) (body : Expr D)
      → let chunk = compile_chunk params body in
        AreBounded chunk.slot_count (length chunk.body) chunk.body
        × All (IsBoundedDefault chunk.slot_count) chunk.defaults
        × ((i : ℕ) (p : Param)
            → get_elem? chunk.params i ≡ some p
            → p.is_dyn ≡ false
            → p.slot < chunk.slot_count)
  unfolding compile_chunk resolve resolve_frame
  compile_chunk-IsBounded params body =
      let scope = declare_params ([] ∷ []) (param_names params) 0 in
      let defaults = compile_defaults params scope.1 in
      let code = compile scope.0 body 0 defaults.1 in
      let le = compile_defaults-le params scope.1 in
      let le_body = compile-le scope.0 body 0 defaults.1 in
      let fits = params-Fit (param_names params) ([] ∷ []) 0 (λ n slot h. ground (arith, h)) in
      (
        widen code.0 (bounded body scope.0 0 defaults.1 (Fits-mono scope.0 le fits)) (omega arith)
            (omega arith),
        bounded_defaults params scope.1 code.1 le_body,
        λ i p here free.
            omega (
              arith,
              compile_params-lt ([] ∷ []) (param_names params) 0 i p here free,
              le,
              le_body,
            ),
      )
