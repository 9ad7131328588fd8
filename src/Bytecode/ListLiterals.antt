-- ===== src/Bytecode/ListLiterals.antt =====
-- List literals without clauses, compiled by src/bytecode_compiler.cpp to `BuildList`.
use openscad_cpp_evaluator.Prelude.{
  ℕ, suc, ◌+◌, ◌≡◌, refl, ap, ◌∙◌, arith, List, [], ◌∷◌, ◌++◌, append-nil, some, length,
  length-append,
}
use openscad_cpp_evaluator.Value.{Doubles, Value}
use openscad_cpp_evaluator.Expression.{
  Expr, list_literal, Exprs, no_exprs, expr, Bindings, Globals, Context, eval, eval_all,
}
use openscad_cpp_evaluator.Bytecode.{compile, compile_all, count_exprs}
use openscad_cpp_evaluator.Machine.{Instruction, pop_items, execute, build_list}
use openscad_cpp_evaluator.Bytecode.Reach.{Stands-append, arrived, Reach-step}
use openscad_cpp_evaluator.Bytecode.Scopes.{Agrees-Kept, compile-le}
use openscad_cpp_evaluator.Bytecode.Pushes.{context, Simulates, push_all, SimulatesAll}
use openscad_cpp_evaluator.Bytecode.Runs.{step-at, Runs-trans, Runs-after, Runs-place, Runs-quiet}

pop_items-push_all :
    {D : Type 0} (k : ℕ) (vs stack items : List (Value D))
    → pop_items (k + length vs) (push_all vs stack) items ≡ pop_items k stack (vs ++ items)
unfolding pop_items
pop_items-push_all k [] stack items = let e : k + 0 ≡ k = omega arith in rw e
pop_items-push_all k (v ∷ vs) stack items =
    let e : k + suc (length vs) ≡ suc k + length vs = omega arith in
    rw e (pop_items-push_all (suc k) vs (v ∷ stack) items)

module _ {D : Type 0} (double : Doubles D) (globals : Globals D) (outer dyn : Bindings D)
    (code : List (Instruction D)) where
  length-eval_all :
      (c : Context D) (es : Exprs D) → count_exprs es ≡ length (eval_all double globals c es).0
  unfolding eval_all
  length-eval_all c no_exprs = refl
  length-eval_all c (expr e es) = ap suc (length-eval_all c es)

  build-list :
      (es : Exprs D) (c : Context D) (stack : List (Value D))
      → pop_items (count_exprs es) (push_all (eval_all double globals c es).0 stack) []
        ≡ some ((eval_all double globals c es).0, stack)
  unfolding pop_items
  build-list es c stack =
      let vs = (eval_all double globals c es).0 in
      let e : count_exprs es ≡ 0 + length vs = omega (arith, length-eval_all c es) in
      rw e (pop_items-push_all 0 vs stack [] ∙ ap (λ l. some (l, stack)) (append-nil vs))

  pub simulate-no_exprs : SimulatesAll double globals outer dyn code no_exprs
  unfolding compile_all eval_all
  simulate-no_exprs scope at next lets stack slots ws stands agree =
      let e : at ≡ at + 0 = omega arith in Runs-place e (Runs-quiet arrived)

  pub simulate-expr :
      (e : Expr D) (es : Exprs D)
      → Simulates double globals outer dyn code e
      → SimulatesAll double globals outer dyn code es
      → SimulatesAll double globals outer dyn code (expr e es)
  unfolding compile_all eval_all
  simulate-expr e es sim sims scope at next lets stack slots ws stands agree =
      let a = compile scope e at next in
      let b = compile_all scope es (at + length a.0) a.1 in
      let (sa, sb) = Stands-append code at a.0 b.0 stands in
      let le = compile-le scope e at next in
      let place : at + length a.0 + length b.0 ≡ at + length (a.0 ++ b.0) =
        omega (arith, length-append a.0 b.0) in
      Runs-place place (
        Runs-trans le (sim scope at next lets stack slots ws sa agree)
          (λ s u kept. sims scope (at + length a.0) a.1 lets _ s u sb (Agrees-Kept le kept agree)))

  pub simulate-list_literal :
      (es : Exprs D)
      → SimulatesAll double globals outer dyn code es
      → Simulates double globals outer dyn code (list_literal es)
  unfolding compile eval execute
  simulate-list_literal es sims scope at next lets stack slots ws stands agree =
      let i = build_list (count_exprs es) in
      let a = compile_all scope es at next in
      let (sa, si) = Stands-append code at a.0 (i ∷ []) stands in
      let place : suc (at + length a.0) ≡ at + length (a.0 ++ i ∷ []) =
        omega (arith, length-append a.0 (i ∷ [])) in
      Runs-place place (
        Runs-after (sims scope at next lets stack slots ws sa agree) (λ s u.
          Reach-step double globals outer code (
            step-at double globals outer dyn code (at + length a.0) _ s u si.0
            ∙ rw (execute, build-list es (context dyn lets) stack) refl)))
