-- ===== src/Bytecode/Tests.antt =====
-- Compiled functions on small expressions, and the theorems at concrete inputs.
use openscad_cpp_evaluator.Prelude.{ℕ, ◌≡◌, refl, true, List, [], ◌∷◌, none, some}
use openscad_cpp_evaluator.Value.{Value, undef, boolean, number}
use openscad_cpp_evaluator.Value.Scale.{truthy}
use openscad_cpp_evaluator.Value.Matrix.{list_value}
use openscad_cpp_evaluator.Operators.{apply_binary_op}
use openscad_cpp_evaluator.Expression.{
  Name, Expr, number_literal, identifier, list_literal, ternary, let_op, binary, no_exprs, expr,
  no_assignments, assign, find, is_dyn_name, is_repeated, Globals, eval_identifier, eval, eval_all,
  eval_assignments, assign_name, bind_let_name,
}
use openscad_cpp_evaluator.Bytecode.{resolve, declare, compile_identifier_load, store_name, compile}
use openscad_cpp_evaluator.Machine.{Frame, update, clear, pop_items, load_dyn_value, execute, step}
use openscad_cpp_evaluator.Bytecode.Pushes.{context}
use openscad_cpp_evaluator.Prelude.Bytes.{bytes_eq}
use openscad_cpp_evaluator.Value.{osc_equal}
use mathlib.Core.Option
use openscad_cpp_evaluator.Value.Naturals.{naturals}
use openscad_cpp_evaluator.Operators.{equality}
use openscad_cpp_evaluator.Expression.{bind_params}
use openscad_cpp_evaluator.Bytecode.{resolve_frame, compile_function_like, declare_params}
use openscad_cpp_evaluator.Machine.{new_frame, bind_args, run, frame_result}
use openscad_cpp_evaluator.Bytecode.Functions.{names_of}
use openscad_cpp_evaluator.Bytecode.Leak.{twice, twice-leaks}

abbrev x_name : Name
x_name = 0x78 ∷ []

-- $a
abbrev dollar_a : Name
dollar_a = 0x24 ∷ 0x61 ∷ []

abbrev globals : Globals ℕ
globals = record { pi = 3; lookup_variable = λ n. none }

abbrev blank : ℕ → Value ℕ
blank = λ k. undef

-- let(x = x == 4) x ? [x, $a] : y
abbrev body : Expr ℕ
body =
    let_op (assign x_name (binary equality (identifier x_name) (number_literal 4)) no_assignments) (
      ternary (identifier x_name)
        (list_literal (expr (identifier x_name) (expr (identifier dollar_a) no_exprs)))
        (identifier (0x79 ∷ [])))

abbrev arguments : List (Name × Value ℕ)
arguments = (x_name, number 4) ∷ (dollar_a, number 7) ∷ []

walked :
    eval naturals globals (bind_params (context [] []) arguments) body
    ≡ (list_value (boolean true ∷ number 7 ∷ []), [])
unfolding apply_binary_op osc_equal eval eval_all eval_assignments bind_params bind_let_name
    assign_name is_repeated eval_identifier is_dyn_name find bytes_eq truthy
walked = refl

called :
    Option.map frame_result (
      run naturals globals [] 20
        (compile_function_like (names_of arguments) body).0
        (bind_args 0 arguments (new_frame blank [])))
    ≡ some (list_value (boolean true ∷ number 7 ∷ []))
unfolding run step execute compile_function_like compile bind_args is_dyn_name
    compile_identifier_load resolve resolve_frame declare_params declare bytes_eq store_name
    is_repeated truthy update apply_binary_op osc_equal frame_result load_dyn_value find pop_items
    clear
called = refl

twice-leaks_example :
    (eval naturals globals (context ((dollar_a, number 5) ∷ []) []) (twice dollar_a 1)
      ≡ (list_value (number 1 ∷ number 5 ∷ []), []))
    × ((fuel : ℕ) × (f : Frame ℕ) × (run naturals globals [] fuel
            (compile_function_like [] (twice dollar_a 1)).0
            (new_frame blank ((dollar_a, number 5) ∷ []))
          ≡ some f)
        × (frame_result f ≡ list_value (number 1 ∷ number 1 ∷ [])))
unfolding is_dyn_name find bytes_eq
twice-leaks_example =
    twice-leaks naturals globals [] ((dollar_a, number 5) ∷ []) dollar_a 1 (number 5) blank refl
      refl refl
