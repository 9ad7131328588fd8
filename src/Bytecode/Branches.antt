-- ===== src/Bytecode/Branches.antt =====
-- The ternary operator, `&&` and `||`, compiled to jumps by src/bytecode_compiler.cpp.
use openscad_cpp_evaluator.Prelude.{
  ℕ, suc, ◌+◌, ◌≡◌, refl, ◌∙◌, arith, inl, inr, Bool, true, false, not, List, [], ◌∷◌, ◌++◌, some,
  length, length-append, get_elem?, if◌then◌else◌, Bool-cases, subst,
}
use openscad_cpp_evaluator.Value.{Doubles, Value, boolean}
use openscad_cpp_evaluator.Value.Scale.{truthy}
use openscad_cpp_evaluator.Operators.{Warning, Warned}
use openscad_cpp_evaluator.Expression.{
  Expr, ternary, logical_and, logical_or, Bindings, Globals, eval,
}
use openscad_cpp_evaluator.Bytecode.{CompileScope, compile}
use openscad_cpp_evaluator.Machine.{
  Instruction, Frame, execute, push_bool, jump, jump_if_false, jump_if_true,
}
use openscad_cpp_evaluator.Bytecode.Reach.{Stands, Stands-append, Reach-trans, Reach-step}
use openscad_cpp_evaluator.Bytecode.Scopes.{Agrees, Agrees-Kept, compile-le}
use openscad_cpp_evaluator.Bytecode.Pushes.{context, RunsFrom, Simulates}
use openscad_cpp_evaluator.Bytecode.Runs.{
  state, Reaches, step-at, Runs-trans, Runs-before, Runs-after, Runs-place, Runs-weaker, Runs-quiet,
}

module _ {D : Type 0} (double : Doubles D) (globals : Globals D) (outer dyn : Bindings D)
    (code : List (Instruction D)) where
  abbrev Sim : Expr D → Type 0
  Sim = Simulates double globals outer dyn code

  abbrev Quiet : ℕ → List (Value D) → (ℕ → Value D) → List (Warning D) → ℕ → List (Value D) → Type 0
  Quiet at stack s u after stack' =
      Reaches double globals outer dyn code (state double globals outer dyn code at stack s u)
        (state double globals outer dyn code after stack' s u)

  -- One instruction that changes the place and the stack only.
  Quiet-step :
      (i : Instruction D) (at : ℕ) (stack : List (Value D)) (s : ℕ → Value D) (u : List (Warning D))
      (after : ℕ) (stack' : List (Value D))
      → get_elem? code at ≡ some i
      → execute double globals outer i (state double globals outer dyn code at stack s u)
        ≡ some (state double globals outer dyn code after stack' s u)
      → Quiet at stack s u after stack'
  Quiet-step i at stack s u after stack' h e =
      Reach-step double globals outer code
        (step-at double globals outer dyn code at stack s u h ∙ e)

  two_steps :
      {f g h : Frame D}
      → Reaches double globals outer dyn code f g
      → Reaches double globals outer dyn code g h
      → Reaches double globals outer dyn code f h
  two_steps = Reach-trans double globals outer code

  -- An instruction that takes a value and jumps if `jumps` holds of it.
  abbrev JumpsIf : (ℕ → Instruction D) → (Value D → Bool) → Type 0
  JumpsIf jump_if jumps =
      (v : Value D) (place at : ℕ) (stack : List (Value D)) (s : ℕ → Value D) (u : List (Warning D))
      → execute double globals outer (jump_if place)
          (state double globals outer dyn code at (v ∷ stack) s u)
        ≡ some (state double globals outer dyn code (if jumps v then place else suc at) stack s u)

  -- The end of `&&` and `||`, which stand for `b` if a jump is taken.
  ending :
      (jump_if : ℕ → Instruction D) (jumps : Value D → Bool) (b : Bool)
      → JumpsIf jump_if jumps
      → (v : Value D) (after : ℕ) (stack : List (Value D)) (s : ℕ → Value D) (u : List (Warning D))
      → Stands code after (
          jump_if (suc (suc (suc after)))
          ∷ push_bool (not b)
          ∷ jump (suc (suc (suc (suc after))))
          ∷ push_bool b
          ∷ [])
      → Quiet after
          (v ∷ stack)
          s
          u
          (suc (suc (suc (suc after))))
          (boolean (if jumps v then b else not b) ∷ stack)
  unfolding execute
  ending jump_if jumps b exec v after stack s u stands = elim (Bool-cases (jumps v)) [
    | inl taken ↦ rw taken (
        two_steps
          (Quiet-step (jump_if (suc (suc (suc after)))) after (v ∷ stack) s u
            (suc (suc (suc after))) stack stands.0
            (exec v (suc (suc (suc after))) after stack s u ∙ rw taken refl))
          (Quiet-step (push_bool b) (suc (suc (suc after))) stack s u _ _ stands.1.1.1.0 refl))
    | inr passed ↦ rw passed (
        two_steps
          (Quiet-step (jump_if (suc (suc (suc after)))) after (v ∷ stack) s u (suc after) stack
            stands.0 (exec v (suc (suc (suc after))) after stack s u ∙ rw passed refl))
          (two_steps (Quiet-step (push_bool (not b)) (suc after) stack s u _ _ stands.1.0 refl) (
            Quiet-step (jump (suc (suc (suc (suc after))))) (suc (suc after)) _ s u _ _ stands.1.1.0
              refl)))
  ]

  -- The right operand and the end, and their place.
  short_circuit :
      (x y : Expr D) (jump_if : ℕ → Instruction D) (jumps : Value D → Bool) (b : Bool)
      → JumpsIf jump_if jumps
      → Sim x
      → Sim y
      → (scope : CompileScope) (at next : ℕ) (lets : Bindings D) (stack : List (Value D))
        (slots : ℕ → Value D) (ws : List (Warning D))
      → let a = compile scope x at next in
        let c = compile scope y (suc (at + length a.0)) a.1 in
        let v = eval double globals (context dyn lets) x in
        let w = eval double globals (context dyn lets) y in
        let after = suc (at + length a.0) + length c.0 in
        let decided = suc (suc (suc after)) in
        let all =
          a.0
          ++ (jump_if decided
              ∷ (c.0
                  ++ (jump_if decided
                      ∷ push_bool (not b)
                      ∷ jump (suc decided)
                      ∷ push_bool b
                      ∷ []))) in
        Stands code at all
        → Agrees outer scope next slots lets
        → RunsFrom double globals outer dyn code at stack slots ws next
            (at + length all)
            (boolean (if jumps v.0 then b else (if jumps w.0 then b else not b)) ∷ stack)
            (v.1 ++ (if jumps v.0 then [] else w.1))
  unfolding execute
  short_circuit x y jump_if jumps b exec sim_x sim_y scope at next lets stack slots ws stands
        agree =
      let a = compile scope x at next in
      let c = compile scope y (suc (at + length a.0)) a.1 in
      let v = eval double globals (context dyn lets) x in
      let w = eval double globals (context dyn lets) y in
      let after = suc (at + length a.0) + length c.0 in
      let decided = suc (suc (suc after)) in
      let finish = jump_if decided ∷ push_bool (not b) ∷ jump (suc decided) ∷ push_bool b ∷ [] in
      let (sa, sr) = Stands-append code at a.0 (jump_if decided ∷ (c.0 ++ finish)) stands in
      let (sc, se) = Stands-append code (suc (at + length a.0)) c.0 finish sr.1 in
      let le = compile-le scope x at next in
      let place : suc decided ≡ at + length (a.0 ++ (jump_if decided ∷ (c.0 ++ finish))) =
        omega (
          arith,
          length-append a.0 (jump_if decided ∷ (c.0 ++ finish)),
          length-append c.0 finish,
        ) in
      Runs-place place (
        Runs-trans le (sim_x scope at next lets stack slots ws sa agree) (λ s u kept.
          elim (Bool-cases (jumps v.0)) [
            | inl taken ↦ rw taken (
                Runs-quiet (
                  two_steps
                    (Quiet-step (jump_if decided) (at + length a.0) (v.0 ∷ stack) s u decided stack
                      sr.0 (exec v.0 decided (at + length a.0) stack s u ∙ rw taken refl))
                    (Quiet-step (push_bool b) decided stack s u _ _ se.1.1.1.0 refl)))
            | inr passed ↦ rw passed (
                Runs-before
                  (Quiet-step (jump_if decided) (at + length a.0) (v.0 ∷ stack) s u
                    (suc (at + length a.0)) stack sr.0
                    (exec v.0 decided (at + length a.0) stack s u ∙ rw passed refl))
                  (Runs-after
                    (sim_y scope (suc (at + length a.0)) a.1 lets stack s u sc
                      (Agrees-Kept le kept agree))
                    (λ s' u'. ending jump_if jumps b exec w.0 after stack s' u' se)))
          ]))

  and_result :
      (t t' : Bool) (w : List (Warning D))
      → ◌≡◌ {A = Warned D}
          (
            boolean (if not t then false else (if not t' then false else true)),
            if not t then [] else w,
          )
          (if t then (boolean t', w) else (boolean false, []))
  and_result true true w = refl
  and_result true false w = refl
  and_result false t' w = refl

  or_result :
      (t t' : Bool) (w : List (Warning D))
      → ◌≡◌ {A = Warned D}
          (boolean (if t then true else (if t' then true else false)), if t then [] else w)
          (if t then (boolean true, []) else (boolean t', w))
  or_result true t' w = refl
  or_result false true w = refl
  or_result false false w = refl

  pub simulate-logical_and : (x y : Expr D) → Sim x → Sim y → Sim (logical_and x y)
  unfolding compile eval execute
  simulate-logical_and x y sim_x sim_y scope at next lets stack slots ws stands agree =
      let v = eval double globals (context dyn lets) x in
      let w = eval double globals (context dyn lets) y in
      subst
        (λ r.
          RunsFrom double globals outer dyn code at stack slots ws next
            (at + length (compile scope (logical_and x y) at next).0) (r.0 ∷ stack) (v.1 ++ r.1))
        (and_result (truthy double v.0) (truthy double w.0) w.1)
        (short_circuit x y jump_if_false (λ a. not (truthy double a)) false
          (λ a place here below s u. refl) sim_x sim_y scope at next lets stack slots ws stands
          agree)

  pub simulate-logical_or : (x y : Expr D) → Sim x → Sim y → Sim (logical_or x y)
  unfolding compile eval execute
  simulate-logical_or x y sim_x sim_y scope at next lets stack slots ws stands agree =
      let v = eval double globals (context dyn lets) x in
      let w = eval double globals (context dyn lets) y in
      subst
        (λ r.
          RunsFrom double globals outer dyn code at stack slots ws next
            (at + length (compile scope (logical_or x y) at next).0) (r.0 ∷ stack) (v.1 ++ r.1))
        (or_result (truthy double v.0) (truthy double w.0) w.1)
        (short_circuit x y jump_if_true (truthy double) true (λ a place here below s u. refl) sim_x
          sim_y scope at next lets stack slots ws stands agree)

  pub simulate-ternary : (x y z : Expr D) → Sim x → Sim y → Sim z → Sim (ternary x y z)
  unfolding compile eval execute
  simulate-ternary x y z sim_x sim_y sim_z scope at next lets stack slots ws stands agree =
      let c = compile scope x at next in
      let t = compile scope y (suc (at + length c.0)) c.1 in
      let no_place = suc (suc (at + length c.0) + length t.0) in
      let f = compile scope z no_place t.1 in
      let (sc, sr) =
        Stands-append code at c.0
          (jump_if_false no_place ∷ (t.0 ++ (jump (no_place + length f.0) ∷ f.0))) stands in
      let (st, se) =
        Stands-append code (suc (at + length c.0)) t.0 (jump (no_place + length f.0) ∷ f.0) sr.1 in
      let v = eval double globals (context dyn lets) x in
      let le = compile-le scope x at next in
      let place : no_place + length f.0
          ≡ at
            + length
                (c.0 ++ (jump_if_false no_place ∷ (t.0 ++ (jump (no_place + length f.0) ∷ f.0)))) =
        omega (
          arith,
          length-append c.0
              (jump_if_false no_place ∷ (t.0 ++ (jump (no_place + length f.0) ∷ f.0))),
          length-append t.0 (jump (no_place + length f.0) ∷ f.0),
        ) in
      Runs-place place (
        Runs-trans le (sim_x scope at next lets stack slots ws sc agree) (λ s u kept.
          let agree' = Agrees-Kept le kept agree in
          elim (Bool-cases (truthy double v.0)) [
            | inl taken ↦ rw taken (
                Runs-before
                  (Quiet-step (jump_if_false no_place) (at + length c.0) (v.0 ∷ stack) s u
                    (suc (at + length c.0)) stack sr.0 (rw taken refl))
                  (Runs-after (sim_y scope (suc (at + length c.0)) c.1 lets stack s u st agree')
                    (λ s' u'.
                      Quiet-step (jump (no_place + length f.0)) (suc (at + length c.0) + length t.0)
                        _ s' u' _ _ se.0 refl)))
            | inr passed ↦
                let le_t = compile-le scope y (suc (at + length c.0)) c.1 in
                rw passed (
                  Runs-before
                    (Quiet-step (jump_if_false no_place) (at + length c.0) (v.0 ∷ stack) s u
                      no_place stack sr.0 (rw passed refl))
                    (Runs-weaker le_t (
                      sim_z scope no_place t.1 lets stack s u se.1
                        (Agrees-Kept le_t (λ k lt. refl) agree'))))
          ]))
