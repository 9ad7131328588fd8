-- ===== src/Bytecode/Lets.antt =====
-- `let` expressions, whose names src/bytecode_compiler.cpp keeps in slots.
use openscad_cpp_evaluator.Prelude.{
  ℕ, suc, ◌+◌, ◌-◌, ◌≤◌, ◌≡◌, refl, sym, ap, ◌∙◌, arith, Bool, true, false, List, [], ◌∷◌, ◌++◌,
  append_assoc, append-nil, length, length-append, subst,
}
use openscad_cpp_evaluator.Value.{Doubles, Value}
use openscad_cpp_evaluator.Operators.{Warning}
use openscad_cpp_evaluator.Expression.{
  Name, Expr, let_op, Assignments, no_assignments, assign, Bindings, is_dyn_name, is_repeated,
  Globals, Context, eval, eval_assignments, assign_name, bind_let_name,
}
use openscad_cpp_evaluator.Bytecode.{
  CompileScope, declare, store_name, compile, compile_assignments,
}
use openscad_cpp_evaluator.Machine.{Instruction, update, clear, execute}
use openscad_cpp_evaluator.Bytecode.Reach.{Stands, Stands-append, arrived, Reach-trans, Reach-step}
use openscad_cpp_evaluator.Bytecode.Scopes.{
  Kept, Kept-trans, Kept-update, Kept-clear, Agrees, Agrees-Kept, Agrees-push, Agrees-declare,
  compile-le, compile_assignments-le,
}
use openscad_cpp_evaluator.Bytecode.Pushes.{context, RunsFrom, Simulates}
use openscad_cpp_evaluator.Bytecode.Runs.{state, Reaches, step-at, Runs-place, Runs-join}

module _ {D : Type 0} (double : Doubles D) (globals : Globals D) (outer dyn : Bindings D)
    (code : List (Instruction D)) where
  -- The code of assignments runs to its end, where the walk has bound what the slots hold.
  pub record Binds (at : ℕ) (stack : List (Value D)) (slots : ℕ → Value D) (ws : List (Warning D))
      (next after : ℕ) (stack' : List (Value D)) (scope' : CompileScope) (next' : ℕ) (c : Context D)
      (w : List (Warning D)) : Type 0 where
    pub slots' : ℕ → Value D
    pub kept : Kept next slots slots'
    pub agrees : Agrees outer scope' next' slots' c.lets
    pub same_dyn : c.dyn ≡ dyn
    pub reach :
        Reaches double globals outer dyn code
          (state double globals outer dyn code at stack slots ws)
          (state double globals outer dyn code after stack' slots' (ws ++ w))

  abbrev pub SimulatesAssignments : Assignments D → Type 0
  SimulatesAssignments assignments =
      (seen : List Name) (frame : List (Name × ℕ)) (frames : CompileScope) (at next : ℕ)
      (lets : Bindings D) (stack : List (Value D)) (slots : ℕ → Value D) (ws : List (Warning D))
      → let compiled = compile_assignments seen (frame ∷ frames) assignments at next in
        let bound = eval_assignments double globals seen (context dyn lets) assignments in
        Stands code at compiled.0
        → Agrees outer (frame ∷ frames) next slots lets
        → Binds at stack slots ws next (at + length compiled.0) stack compiled.1 compiled.2 bound.0
            bound.1

  Binds-before :
      {at mid next next' after : ℕ} {stack stack1 stack2 : List (Value D)}
      {slots slots1 : ℕ → Value D} {ws u w2 : List (Warning D)} (w1 : List (Warning D))
      {scope : CompileScope} {slot : ℕ} {c : Context D}
      → next ≤ next'
      → Kept next slots slots1
      → u ≡ ws ++ w1
      → Reaches double globals outer dyn code
          (state double globals outer dyn code at stack slots ws)
          (state double globals outer dyn code mid stack1 slots1 u)
      → Binds mid stack1 slots1 u next' after stack2 scope slot c w2
      → Binds at stack slots ws next after stack2 scope slot c (w1 ++ w2)
  Binds-before {at} {after = after} {stack} {stack2 = stack2} {slots = slots} {ws} {w2 = w2} w1 le
        kept same q b =
      record {
        slots' = b.slots';
        kept = Kept-trans le kept b.kept;
        agrees = b.agrees;
        same_dyn = b.same_dyn;
        reach =
            subst
              (λ all.
                Reaches double globals outer dyn code
                  (state double globals outer dyn code at stack slots ws)
                  (state double globals outer dyn code after stack2 b.slots' all))
              (ap (λ l. l ++ w2) same ∙ append_assoc ws w1 w2)
              (Reach-trans double globals outer code q b.reach);
      }

  -- The assignments after one whose value lies on the stack, and the instruction for its name.
  after_value :
      (repeated : Bool) (n : Name) (rest : Assignments D) (seen : List Name)
      → is_dyn_name n ≡ false
      → SimulatesAssignments rest
      → (frame : List (Name × ℕ)) (frames : CompileScope) (at next : ℕ) (lets : Bindings D)
        (v : Value D) (stack : List (Value D)) (slots : ℕ → Value D) (ws : List (Warning D))
      → let store = store_name repeated (frame ∷ frames) n next in
        let compiled = compile_assignments (n ∷ seen) store.1 rest (suc at) store.2 in
        let named = assign_name repeated (context dyn lets) n v in
        let bound = eval_assignments double globals (n ∷ seen) named.0 rest in
        Stands code at (store.0 ∷ compiled.0)
        → Agrees outer (frame ∷ frames) next slots lets
        → Binds at
            (v ∷ stack)
            slots
            ws
            next
            (suc at + length compiled.0)
            stack
            compiled.1
            compiled.2
            bound.0
            (named.1 ++ bound.1)
  unfolding store_name assign_name bind_let_name declare execute
  after_value true n rest seen plain sim frame frames at next lets v stack slots ws stands agree =
      Binds-before _ (omega arith) (λ k lt. refl) refl
        (Reach-step double globals outer code
          (step-at double globals outer dyn code at (v ∷ stack) slots ws stands.0))
        (sim (n ∷ seen) frame frames (suc at) next lets stack slots _ stands.1 agree)
  after_value false n rest seen plain sim frame frames at next lets v stack slots ws stands agree =
      let placed = rw plain at stands in
      rw (plain, bind_let_name)
        (Binds-before [] (omega arith) (Kept-update next next slots v (omega arith))
          (sym (append-nil ws))
          (Reach-step double globals outer code
            (step-at double globals outer dyn code at (v ∷ stack) slots ws placed.0))
          (sim (n ∷ seen) ((n, next) ∷ frame) frames (suc at) (suc next) ((n, v) ∷ lets) stack
            (update slots next v) ws placed.1
            (Agrees-declare frame frames next slots lets n v plain agree)))

  pub simulate-no_assignments : SimulatesAssignments no_assignments
  unfolding compile_assignments eval_assignments
  simulate-no_assignments seen frame frames at next lets stack slots ws stands agree =
      let e : at + 0 ≡ at = omega arith in
      rw e (record {
        slots' = slots;
        kept = λ k lt. refl;
        agrees = agree;
        same_dyn = refl;
        reach =
            subst
              (λ u.
                Reaches double globals outer dyn code
                  (state double globals outer dyn code at stack slots ws)
                  (state double globals outer dyn code at stack slots u))
              (sym (append-nil ws)) arrived;
      })

  pub simulate-assign :
      (n : Name) (e : Expr D) (rest : Assignments D)
      → is_dyn_name n ≡ false
      → Simulates double globals outer dyn code e
      → SimulatesAssignments rest
      → SimulatesAssignments (assign n e rest)
  unfolding compile_assignments eval_assignments
  simulate-assign n e rest plain sim sims seen frame frames at next lets stack slots ws stands
        agree =
      let repeated = is_repeated seen n in
      let a = compile (frame ∷ frames) e at next in
      let store = store_name {D = D} repeated (frame ∷ frames) n a.1 in
      let b = compile_assignments (n ∷ seen) store.1 rest (suc (at + length a.0)) store.2 in
      let (sa, sb) = Stands-append code at a.0 (store.0 ∷ b.0) stands in
      let le = compile-le (frame ∷ frames) e at next in
      let r = sim (frame ∷ frames) at next lets stack slots ws sa agree in
      let place : suc (at + length a.0) + length b.0 ≡ at + length (a.0 ++ store.0 ∷ b.0) =
        omega (arith, length-append a.0 (store.0 ∷ b.0)) in
      rw (← place) (
        Binds-before _ le r.kept refl r.reach (
          after_value repeated n rest seen plain sims frame frames (at + length a.0) a.1 lets _
            stack r.slots' _ sb (Agrees-Kept le r.kept agree)))

  pub simulate-let_op :
      (assignments : Assignments D) (body : Expr D)
      → SimulatesAssignments assignments
      → Simulates double globals outer dyn code body
      → Simulates double globals outer dyn code (let_op assignments body)
  unfolding compile eval execute
  simulate-let_op assignments body sims sim scope at next lets stack slots ws stands agree =
      let bound = compile_assignments [] ([] ∷ scope) assignments (suc at) next in
      let b = compile bound.1 body (suc at + length bound.0) bound.2 in
      let (sa, sb) = Stands-append code (suc at) bound.0 b.0 stands.1 in
      let cleared = clear slots next (bound.2 - next) in
      let kept = Kept-clear next (bound.2 - next) slots in
      let le = compile_assignments-le [] ([] ∷ scope) assignments (suc at) next in
      let binds =
        sims [] [] scope (suc at) next lets stack cleared ws sa
          (Agrees-push (Agrees-Kept (omega arith) kept agree)) in
      let child = eval_assignments double globals [] (context dyn lets) assignments in
      let place : suc at + length bound.0 + length b.0 ≡ at + suc (length (bound.0 ++ b.0)) =
        omega (arith, length-append bound.0 b.0) in
      let same : context dyn child.0.lets ≡ child.0 =
        ap (λ d. context d child.0.lets) (sym binds.same_dyn) in
      let after = suc at + length bound.0 in
      let opened : RunsFrom double globals outer dyn code at stack slots ws next after stack
          child.1 =
        record {
          slots' = binds.slots';
          kept = Kept-trans (omega arith) kept binds.kept;
          reach =
              Reach-trans double globals outer code
                (Reach-step double globals outer code
                  (step-at double globals outer dyn code at stack slots ws stands.0))
                binds.reach;
        } in
      Runs-place place (
        Runs-join opened le (
          subst
            (λ c.
              RunsFrom double globals outer dyn code after stack binds.slots' (ws ++ child.1)
                bound.2 (after + length b.0) ((eval double globals c body).0 ∷ stack)
                (eval double globals c body).1)
            same
            (sim bound.1 after bound.2 child.0.lets stack binds.slots' (ws ++ child.1) sb
              binds.agrees)))
