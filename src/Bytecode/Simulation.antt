-- ===== src/Bytecode/Simulation.antt =====
-- Compiled expressions against the tree walk.
use openscad_cpp_evaluator.Prelude.{ℕ, suc, ◌+◌, ◌≡◌, refl, arith, List, [], ◌∷◌, some, get_elem?}
use openscad_cpp_evaluator.Value.{Doubles, Value, undef, boolean, number, string}
use openscad_cpp_evaluator.Operators.{Warning}
use openscad_cpp_evaluator.Expression.{
  Expr, number_literal, boolean_literal, string_literal, undefined_literal, commented, identifier,
  list_literal, range_literal, primary_index, primary_member, ternary, logical_and, logical_or,
  let_op, unary, binary, Exprs, no_exprs, expr, Assignments, no_assignments, assign, Bindings,
  Globals, eval,
}
use openscad_cpp_evaluator.Bytecode.{compile}
use openscad_cpp_evaluator.Machine.{Instruction, execute, push_const, push_bool}
use openscad_cpp_evaluator.Bytecode.Plain.{HasPlainLets, HavePlainLets, ArePlain}
use openscad_cpp_evaluator.Bytecode.Pushes.{
  RunsFrom, pushing_quietly, load-identifier, Simulates, SimulatesAll,
}
use openscad_cpp_evaluator.Bytecode.Runs.{Runs-place}
use openscad_cpp_evaluator.Bytecode.Operands.{
  simulate-unary, simulate-primary_member, simulate-binary, simulate-primary_index,
  simulate-range_literal,
}
use openscad_cpp_evaluator.Bytecode.Branches.{
  simulate-logical_and, simulate-logical_or, simulate-ternary,
}
use openscad_cpp_evaluator.Bytecode.ListLiterals.{
  simulate-no_exprs, simulate-expr, simulate-list_literal,
}
use openscad_cpp_evaluator.Bytecode.Lets.{
  SimulatesAssignments, simulate-no_assignments, simulate-assign, simulate-let_op,
}

module _ {D : Type 0} (double : Doubles D) (globals : Globals D) (outer dyn : Bindings D)
    (code : List (Instruction D)) where
  simulate-push_const :
      (v : Value D) (at next : ℕ) (stack : List (Value D)) (slots : ℕ → Value D)
      (ws : List (Warning D))
      → get_elem? code at ≡ some (push_const v)
      → RunsFrom double globals outer dyn code at stack slots ws next (at + 1) (v ∷ stack) []
  unfolding execute
  simulate-push_const v at next stack slots ws h =
      let e : suc at ≡ at + 1 = omega arith in
      Runs-place e (
        pushing_quietly double globals outer dyn code (push_const v) v at next stack stack slots ws
          h refl)

  mutual
    unfolding HasPlainLets compile eval execute

    simulate : (e : Expr D) → HasPlainLets e → Simulates double globals outer dyn code e
    simulate (number_literal d) h = λ scope at next lets stack slots ws stands agree.
        simulate-push_const (number d) at next stack slots ws stands.0
    simulate (boolean_literal b) h = λ scope at next lets stack slots ws stands agree.
        let e : suc at ≡ at + 1 = omega arith in
        Runs-place e (
          pushing_quietly double globals outer dyn code (push_bool b) (boolean b) at next stack
            stack slots ws stands.0 refl)
    simulate (string_literal s) h = λ scope at next lets stack slots ws stands agree.
        simulate-push_const (string s) at next stack slots ws stands.0
    simulate undefined_literal h = λ scope at next lets stack slots ws stands agree.
        simulate-push_const undef at next stack slots ws stands.0
    simulate (commented e) h = λ scope at next lets stack slots ws stands agree.
        simulate e h scope at next lets stack slots ws stands agree
    simulate (identifier n) h = λ scope at next lets stack slots ws stands agree.
        let e : suc at ≡ at + 1 = omega arith in
        Runs-place e (
          load-identifier double globals outer dyn code scope n at next lets stack slots ws stands.0
            agree)
    simulate (list_literal es) h =
        simulate-list_literal double globals outer dyn code es (simulate_all es h)
    simulate (range_literal a b c i) h =
        simulate-range_literal double globals outer dyn code a b c i (simulate a h.0)
          (simulate b h.1) (simulate c h.2)
    simulate (primary_index a b) h =
        simulate-primary_index double globals outer dyn code a b (simulate a h.0) (simulate b h.1)
    simulate (primary_member a member) h =
        simulate-primary_member double globals outer dyn code a member (simulate a h)
    simulate (ternary a b c) h =
        simulate-ternary double globals outer dyn code a b c (simulate a h.0) (simulate b h.1)
          (simulate c h.2)
    simulate (logical_and a b) h =
        simulate-logical_and double globals outer dyn code a b (simulate a h.0) (simulate b h.1)
    simulate (logical_or a b) h =
        simulate-logical_or double globals outer dyn code a b (simulate a h.0) (simulate b h.1)
    simulate (let_op assignments body) h =
        simulate-let_op double globals outer dyn code assignments body
          (simulate_assignments assignments h.0) (simulate body h.1)
    simulate (unary op a) h = simulate-unary double globals outer dyn code op a (simulate a h)
    simulate (binary op a b) h =
        simulate-binary double globals outer dyn code op a b (simulate a h.0) (simulate b h.1)

    simulate_all : (es : Exprs D) → HavePlainLets es → SimulatesAll double globals outer dyn code es
    simulate_all no_exprs h = simulate-no_exprs double globals outer dyn code
    simulate_all (expr e es) h =
        simulate-expr double globals outer dyn code e es (simulate e h.0) (simulate_all es h.1)

    simulate_assignments :
        (assignments : Assignments D)
        → ArePlain assignments
        → SimulatesAssignments double globals outer dyn code assignments
    simulate_assignments no_assignments h = simulate-no_assignments double globals outer dyn code
    simulate_assignments (assign n e rest) h =
        simulate-assign double globals outer dyn code n e rest h.0 (simulate e h.1)
          (simulate_assignments rest h.2)

  pub simulate_lem : (e : Expr D) → HasPlainLets e → Simulates double globals outer dyn code e
  simulate_lem e h = simulate e h
