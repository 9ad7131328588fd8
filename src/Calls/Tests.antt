-- ===== src/Calls/Tests.antt =====
-- Calls by the two engines, and the theorem at concrete inputs.
use openscad_cpp_evaluator.Prelude.{ℕ, ◌≡◌, refl, List, [], ◌∷◌, none, some}
use openscad_cpp_evaluator.Prelude.Bytes.{bytes_eq}
use openscad_cpp_evaluator.Value.{number}
use openscad_cpp_evaluator.Value.Naturals.{naturals}
use openscad_cpp_evaluator.Value.Matrix.{list_value}
use openscad_cpp_evaluator.Expression.{
  Name, Expr, number_literal, identifier, list_literal, no_exprs, expr, Bindings, find, Globals,
  Context, is_dyn_name, eval, eval_all, eval_identifier, bind_let_name, bind_params,
}
use openscad_cpp_evaluator.Machine.{
  update, run, step, execute, pop_items, load_dyn_value, frame_result,
}
use openscad_cpp_evaluator.Bytecode.{
  compile, compile_identifier_load, resolve, resolve_frame, declare, declare_params,
}
use openscad_cpp_evaluator.Arguments.{
  Argument, positional, named, Parameter, declares_param, is_config_variable, set_bound, bind_args,
  bind_args_from, default_of, apply_defaults, bind_call_args_into, warn_named,
}
use openscad_cpp_evaluator.Arguments.Frames.{
  compile_params, set_param, first_named, bind_ast_args_from, bind_ast_args_into_frame,
}
use openscad_cpp_evaluator.Calls.{
  compile_default, compile_defaults, compile_chunk, fill_param, run_default,
  apply_compiled_defaults, run_compiled_function, eval_user_function,
}
use openscad_cpp_evaluator.Calls.Agreement.{isolated}
use openscad_cpp_evaluator.Prelude.{◌<◌, All, length, get_elem?, false}
use openscad_cpp_evaluator.Arguments.Frames.{Param}
use openscad_cpp_evaluator.Bytecode.Slots.{AreBounded}
use openscad_cpp_evaluator.Calls.Bounds.{IsBoundedDefault, compile_chunk-IsBounded}

abbrev x_name : Name
x_name = 0x78 ∷ []

abbrev y_name : Name
y_name = 0x79 ∷ []

-- $a
abbrev dollar_a : Name
dollar_a = 0x24 ∷ 0x61 ∷ []

abbrev globals : Globals ℕ
globals = record { pi = 3; lookup_variable = λ n. none }

abbrev caller : Context ℕ
caller = record { lets = []; dyn = (dollar_a, number 1) ∷ [] }

abbrev outer_dyn : Bindings ℕ
outer_dyn = (dollar_a, number 1) ∷ []

-- function(x, y = $a)
abbrev params : List (Parameter ℕ)
params =
    record { name = x_name; default_value = none }
    ∷ record { name = y_name; default_value = some (identifier dollar_a) }
    ∷ []

-- [y, x]
abbrev body : Expr ℕ
body = list_literal (expr (identifier y_name) (expr (identifier x_name) no_exprs))

-- (4, $a = 9)
abbrev args : List (Argument ℕ)
args = positional (number_literal 4) ∷ named dollar_a (number_literal 9) ∷ []

-- The default sees the argument with a `$`.
walked :
    eval_user_function naturals globals caller globals (isolated outer_dyn) params body args
    ≡ (list_value (number 9 ∷ number 4 ∷ []), [])
unfolding eval_user_function bind_args bind_args_from set_bound warn_named is_config_variable
    is_dyn_name bytes_eq declares_param bind_call_args_into apply_defaults default_of bind_params
    bind_let_name eval eval_all eval_identifier find
walked = refl

called :
    run_compiled_function naturals globals caller globals
      (isolated outer_dyn)
      9
      (compile_chunk params body)
      args
    ≡ some (list_value (number 9 ∷ number 4 ∷ []), [])
unfolding run_compiled_function compile_chunk compile_params compile_defaults compile_default
    declare_params declare compile compile_identifier_load resolve resolve_frame is_dyn_name
    bytes_eq bind_ast_args_into_frame bind_ast_args_from first_named set_param update
    is_config_variable apply_compiled_defaults run_default fill_param run step execute pop_items
    load_dyn_value frame_result find eval
called = refl

compile_chunk-IsBounded_example :
    let chunk = compile_chunk params body in
    AreBounded chunk.slot_count (length chunk.body) chunk.body
    × All (IsBoundedDefault chunk.slot_count) chunk.defaults
    × ((i : ℕ) (p : Param)
        → get_elem? chunk.params i ≡ some p
        → p.is_dyn ≡ false
        → p.slot < chunk.slot_count)
compile_chunk-IsBounded_example = compile_chunk-IsBounded params body
