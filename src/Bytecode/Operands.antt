-- ===== src/Bytecode/Operands.antt =====
-- Operators with one, two and three operands, compiled by src/bytecode_compiler.cpp.
use openscad_cpp_evaluator.Prelude.{
  ℕ, suc, ◌+◌, ◌≡◌, refl, arith, Bool, List, [], ◌∷◌, ◌++◌, append-nil, some, length, length-append,
}
use openscad_cpp_evaluator.Value.{Doubles, Value}
use openscad_cpp_evaluator.Operators.{
  Warning, Warned, UnaryOp, BinaryOp, apply_binary_op, apply_unary_op,
}
use openscad_cpp_evaluator.Indexing.{apply_index_access, apply_member_access}
use openscad_cpp_evaluator.Expression.{
  Name, Expr, range_literal, primary_index, primary_member, unary, binary, Bindings, Globals, eval,
}
use openscad_cpp_evaluator.Bytecode.{CompileScope, compile}
use openscad_cpp_evaluator.Machine.{
  Instruction, execute, member_op, range_op, index_op, unary_op, binary_op,
}
use openscad_cpp_evaluator.Bytecode.Reach.{Stands, Stands-append}
use openscad_cpp_evaluator.Bytecode.Scopes.{Agrees, Agrees-Kept, compile-le}
use openscad_cpp_evaluator.Bytecode.Pushes.{context, RunsFrom, pushing, Simulates}
use openscad_cpp_evaluator.Bytecode.Runs.{state, Runs-trans, Runs-place}

module _ {D : Type 0} (double : Doubles D) (globals : Globals D) (outer dyn : Bindings D)
    (code : List (Instruction D)) where
  abbrev Sim : Expr D → Type 0
  Sim = Simulates double globals outer dyn code

  one_operand :
      (e : Expr D) (i : Instruction D) (r : Value D → Warned D)
      → Sim e
      → ((v : Value D) (at : ℕ) (stack : List (Value D)) (s : ℕ → Value D) (u : List (Warning D))
          → execute double globals outer i (state double globals outer dyn code at (v ∷ stack) s u)
            ≡ some
                (state double globals outer dyn code (suc at) ((r v).0 ∷ stack) s (u ++ (r v).1)))
      → (scope : CompileScope) (at next : ℕ) (lets : Bindings D) (stack : List (Value D))
        (slots : ℕ → Value D) (ws : List (Warning D))
      → Stands code at ((compile scope e at next).0 ++ i ∷ [])
      → Agrees outer scope next slots lets
      → RunsFrom double globals outer dyn code at stack slots ws next
          (at + length ((compile scope e at next).0 ++ i ∷ []))
          ((r (eval double globals (context dyn lets) e).0).0 ∷ stack)
          ((eval double globals (context dyn lets) e).1
            ++ (r (eval double globals (context dyn lets) e).0).1)
  one_operand e i r sim exec scope at next lets stack slots ws stands agree =
      let a = compile scope e at next in
      let (sa, si) = Stands-append code at a.0 (i ∷ []) stands in
      let place : suc (at + length a.0) ≡ at + length (a.0 ++ i ∷ []) =
        omega (arith, length-append a.0 (i ∷ [])) in
      Runs-place place (
        Runs-trans (compile-le scope e at next) (sim scope at next lets stack slots ws sa agree)
          (λ s u kept.
            pushing double globals outer dyn code i (at + length a.0) a.1 _ stack s u si.0
              (exec _ (at + length a.0) stack s u)))

  two_operands :
      (x y : Expr D) (i : Instruction D) (r : Value D → Value D → Warned D)
      → Sim x
      → Sim y
      → ((v w : Value D) (at : ℕ) (stack : List (Value D)) (s : ℕ → Value D) (u : List (Warning D))
          → execute double globals outer i
              (state double globals outer dyn code at (w ∷ v ∷ stack) s u)
            ≡ some (
                state double globals outer dyn code
                  (suc at)
                  ((r v w).0 ∷ stack)
                  s
                  (u ++ (r v w).1)))
      → (scope : CompileScope) (at next : ℕ) (lets : Bindings D) (stack : List (Value D))
        (slots : ℕ → Value D) (ws : List (Warning D))
      → let a = compile scope x at next in
        let b = compile scope y (at + length a.0) a.1 in
        let v = eval double globals (context dyn lets) x in
        let w = eval double globals (context dyn lets) y in
        Stands code at (a.0 ++ (b.0 ++ i ∷ []))
        → Agrees outer scope next slots lets
        → RunsFrom double globals outer dyn code at stack slots ws next
            (at + length (a.0 ++ (b.0 ++ i ∷ [])))
            ((r v.0 w.0).0 ∷ stack)
            (v.1 ++ (w.1 ++ (r v.0 w.0).1))
  two_operands x y i r sim_x sim_y exec scope at next lets stack slots ws stands agree =
      let a = compile scope x at next in
      let b = compile scope y (at + length a.0) a.1 in
      let (sa, sr) = Stands-append code at a.0 (b.0 ++ i ∷ []) stands in
      let (sb, si) = Stands-append code (at + length a.0) b.0 (i ∷ []) sr in
      let le = compile-le scope x at next in
      let place : suc (at + length a.0 + length b.0) ≡ at + length (a.0 ++ (b.0 ++ i ∷ [])) =
        omega (arith, length-append a.0 (b.0 ++ i ∷ []), length-append b.0 (i ∷ [])) in
      Runs-place place (
        Runs-trans le (sim_x scope at next lets stack slots ws sa agree) (λ s u kept.
          Runs-trans (compile-le scope y (at + length a.0) a.1)
            (sim_y scope (at + length a.0) a.1 lets _ s u sb (Agrees-Kept le kept agree))
            (λ s' u' kept'.
              pushing double globals outer dyn code i (at + length a.0 + length b.0) b.1 _ stack s'
                u' si.0 (exec _ _ (at + length a.0 + length b.0) stack s' u'))))

  pub simulate-unary : (op : UnaryOp) (e : Expr D) → Sim e → Sim (unary op e)
  unfolding compile eval execute
  simulate-unary op e sim =
      one_operand e (unary_op op) (apply_unary_op double op) sim (λ v at stack s u. refl)

  pub simulate-primary_member : (e : Expr D) (member : Name) → Sim e → Sim (primary_member e member)
  unfolding compile eval execute
  simulate-primary_member e member sim =
      one_operand e (member_op member) (λ v. (apply_member_access double v member, [])) sim
        (λ v at stack s u. rw (append-nil u))

  pub simulate-binary : (op : BinaryOp) (x y : Expr D) → Sim x → Sim y → Sim (binary op x y)
  unfolding compile eval execute
  simulate-binary op x y sim_x sim_y =
      two_operands x y (binary_op op) (apply_binary_op double op) sim_x sim_y
        (λ v w at stack s u. refl)

  pub simulate-primary_index : (x y : Expr D) → Sim x → Sim y → Sim (primary_index x y)
  unfolding compile eval execute
  simulate-primary_index x y sim_x sim_y =
      two_operands x y index_op (λ v w. (apply_index_access double v w, [])) sim_x sim_y
        (λ v w at stack s u. rw (append-nil u))

  pub simulate-range_literal :
      (x y z : Expr D) (implicit_step : Bool)
      → Sim x
      → Sim y
      → Sim z
      → Sim (range_literal x y z implicit_step)
  unfolding compile eval execute
  simulate-range_literal x y z implicit_step sim_x sim_y sim_z scope at next lets stack slots ws
        stands agree =
      let i = range_op implicit_step in
      let a = compile scope x at next in
      let b = compile scope y (at + length a.0) a.1 in
      let c = compile scope z (at + length a.0 + length b.0) b.1 in
      let (sa, sr) = Stands-append code at a.0 (b.0 ++ (c.0 ++ i ∷ [])) stands in
      let (sb, st) = Stands-append code (at + length a.0) b.0 (c.0 ++ i ∷ []) sr in
      let (sc, si) = Stands-append code (at + length a.0 + length b.0) c.0 (i ∷ []) st in
      let le_a = compile-le scope x at next in
      let le_b = compile-le scope y (at + length a.0) a.1 in
      let place : suc (at + length a.0 + length b.0 + length c.0)
          ≡ at + length (a.0 ++ (b.0 ++ (c.0 ++ i ∷ []))) =
        omega (
          arith,
          length-append a.0 (b.0 ++ (c.0 ++ i ∷ [])),
          length-append b.0 (c.0 ++ i ∷ []),
          length-append c.0 (i ∷ []),
        ) in
      Runs-place place (
        Runs-trans le_a (sim_x scope at next lets stack slots ws sa agree) (λ s u kept.
          let agree_y = Agrees-Kept le_a kept agree in
          Runs-trans le_b (sim_y scope (at + length a.0) a.1 lets _ s u sb agree_y) (λ s' u' kept'.
            Runs-trans (compile-le scope z (at + length a.0 + length b.0) b.1)
              (sim_z scope (at + length a.0 + length b.0) b.1 lets _ s' u' sc
                (Agrees-Kept le_b kept' agree_y))
              (λ s'' u'' kept''.
                pushing double globals outer dyn code i (at + length a.0 + length b.0 + length c.0)
                  c.1 _ stack s'' u'' si.0 refl))))
