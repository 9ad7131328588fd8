-- ===== src/Calls/Engines.antt =====
-- A call of a compiled function with its arguments and defaults (`runCompiledFunction` of
-- src/bytecode_vm.cpp) against the same call in the tree walk (`evalUserFunction` of
-- src/user_calls.cpp).
use openscad_cpp_evaluator.Prelude.{ℕ, List, [], ◌∷◌}
use openscad_cpp_evaluator.Value.{Doubles, Value}
use openscad_cpp_evaluator.Expression.{Name, Expr, Bindings, Globals, Context, bind_params}
use openscad_cpp_evaluator.Bytecode.{declare_params}
use openscad_cpp_evaluator.Arguments.{
  Argument, Parameter, Supplied, param_names, BoundArgs, bind_args, apply_defaults,
}
use openscad_cpp_evaluator.Arguments.Frames.{
  Param, compile_params, ArgFrame, bind_ast_args_into_frame,
}
use openscad_cpp_evaluator.Arguments.Latest.{assignments}
use openscad_cpp_evaluator.Arguments.ByTree.{AreDistinct, evaluated}
use openscad_cpp_evaluator.Calls.{empty_frame}
use openscad_cpp_evaluator.Calls.Expected.{AreExpected}
use openscad_cpp_evaluator.Calls.Agreement.{isolated}

module _ {D : Type 0} (double : Doubles D) (outside : Globals D) (caller : Context D)
    (globals : Globals D) (dyn : Bindings D) where
  module _ (params : List (Parameter D)) (body : Expr D) (args : List (Argument D))
      (distinct : AreDistinct (param_names params))
      (expected : AreExpected (param_names params) 0 args) where
    abbrev compiled : List Param
    compiled = compile_params (param_names params) 0

    abbrev entries : BoundArgs D
    entries = (bind_args double outside caller (param_names params) args).0

    abbrev made : List (Name × Value D)
    made = assignments (param_names params) (evaluated double outside caller args)

    abbrev start : ArgFrame D
    start = empty_frame double outside caller globals (isolated dyn)

    abbrev filled_frame : ArgFrame D
    filled_frame = (bind_ast_args_into_frame double outside caller compiled args start).0

    abbrev values : List (Supplied D)
    values = evaluated double outside caller args

    abbrev bound_context : Context D
    bound_context = bind_params (isolated dyn) entries

    abbrev inner_context : Context D
    inner_context = (apply_defaults double globals params entries bound_context).0

    abbrev free_slot : ℕ
    free_slot = (declare_params ([] ∷ []) (param_names params) 0).1
