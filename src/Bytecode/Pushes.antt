-- ===== src/Bytecode/Pushes.antt =====
-- Instructions of src/bytecode_vm.cpp that push a value, the loads of an identifier among them.
use openscad_cpp_evaluator.Prelude.{
  ℕ, suc, ◌+◌, ◌≡◌, refl, sym, ap, ◌∙◌, arith, inl, inr, true, List, [], ◌∷◌, ◌++◌, append-nil,
  some, length, get_elem?, Bool-cases, Option-cases,
}
use openscad_cpp_evaluator.Value.{Doubles, Value}
use openscad_cpp_evaluator.Operators.{Warning, Warned}
use openscad_cpp_evaluator.Expression.{
  Name, Expr, Exprs, Bindings, find, is_dyn_name, Globals, Context, eval_identifier, eval, eval_all,
}
use openscad_cpp_evaluator.Bytecode.{
  CompileScope, resolve, compile_identifier_load, compile, compile_all,
}
use openscad_cpp_evaluator.Machine.{Instruction, load_dyn_value, execute}
use openscad_cpp_evaluator.Bytecode.Reach.{Stands}
use openscad_cpp_evaluator.Bytecode.Scopes.{Agrees}
use openscad_cpp_evaluator.Bytecode.Runs.{state, step-at, Runs, Runs-step}

-- Values pushed one after the other.
abbrev pub push_all : {D : Type 0} → List (Value D) → List (Value D) → List (Value D)
push_all [] stack = stack
push_all (v ∷ vs) stack = push_all vs (v ∷ stack)

abbrev pub context : {D : Type 0} → Bindings D → Bindings D → Context D
context dyn lets = record { lets = lets; dyn = dyn }

module _ {D : Type 0} (double : Doubles D) (globals : Globals D) (outer dyn : Bindings D)
    (code : List (Instruction D)) where
  abbrev pub RunsFrom :
      ℕ
      → List (Value D)
      → (ℕ → Value D)
      → List (Warning D)
      → ℕ
      → ℕ
      → List (Value D)
      → List (Warning D)
      → Type 0
  RunsFrom = Runs double globals outer dyn code

  -- An instruction that gives a value and warnings.
  pub pushing :
      (i : Instruction D) {r : Warned D} (at next : ℕ) (stack stack' : List (Value D))
      (slots : ℕ → Value D) (ws : List (Warning D))
      → get_elem? code at ≡ some i
      → execute double globals outer i (state double globals outer dyn code at stack slots ws)
        ≡ some (state double globals outer dyn code (suc at) (r.0 ∷ stack') slots (ws ++ r.1))
      → RunsFrom at stack slots ws next (suc at) (r.0 ∷ stack') r.1
  pushing i at next stack stack' slots ws h e =
      Runs-step (step-at double globals outer dyn code at stack slots ws h ∙ e)

  -- An instruction that gives a value only.
  pub pushing_quietly :
      (i : Instruction D) (v : Value D) (at next : ℕ) (stack stack' : List (Value D))
      (slots : ℕ → Value D) (ws : List (Warning D))
      → get_elem? code at ≡ some i
      → execute double globals outer i (state double globals outer dyn code at stack slots ws)
        ≡ some (state double globals outer dyn code (suc at) (v ∷ stack') slots ws)
      → RunsFrom at stack slots ws next (suc at) (v ∷ stack') []
  pushing_quietly i v at next stack stack' slots ws h e =
      pushing i {r = (v, [])} at next stack stack' slots ws h (
        e
        ∙ ap (λ u. some (state double globals outer dyn code (suc at) (v ∷ stack') slots u))
            (sym (append-nil ws)))

  eval_identifier-dynamic :
      (n : Name) (lets : Bindings D)
      → is_dyn_name n ≡ true
      → find lets n ≡ find outer n
      → load_dyn_value double globals outer dyn n
        ≡ eval_identifier double globals (context dyn lets) n
  unfolding eval_identifier load_dyn_value
  eval_identifier-dynamic n lets d e = ground arith

  eval_identifier-free :
      (n : Name) (lets : Bindings D)
      → find lets n ≡ find outer n
      → eval_identifier double globals (context dyn outer) n
        ≡ eval_identifier double globals (context dyn lets) n
  unfolding eval_identifier
  eval_identifier-free n lets e = rw (eval_identifier, e) refl

  eval_identifier-local :
      (n : Name) (lets : Bindings D) (v : Value D)
      → find lets n ≡ some v
      → ◌≡◌ {A = Warned D} (v, []) (eval_identifier double globals (context dyn lets) n)
  unfolding eval_identifier
  eval_identifier-local n lets v e = rw (eval_identifier, e) refl

  pub load-identifier :
      (scope : CompileScope) (n : Name) (at next : ℕ) (lets : Bindings D) (stack : List (Value D))
      (slots : ℕ → Value D) (ws : List (Warning D))
      → get_elem? code at ≡ some (compile_identifier_load scope n)
      → Agrees outer scope next slots lets
      → RunsFrom at stack slots ws next
          (suc at)
          ((eval_identifier double globals (context dyn lets) n).0 ∷ stack)
          (eval_identifier double globals (context dyn lets) n).1
  unfolding compile_identifier_load execute
  load-identifier scope n at next lets stack slots ws h agree = elim (Bool-cases (is_dyn_name n)) [
    | inl dynamic ↦
        rw (← eval_identifier-dynamic n lets dynamic (agree.dynamic n dynamic))
          (pushing _ at next stack stack slots ws (rw dynamic at h) refl)
    | inr lexical ↦ elim (Option-cases (resolve scope n)) [
      | inl missing ↦
          rw (← eval_identifier-free n lets (agree.free n missing))
            (pushing _ at next stack stack slots ws (rw (lexical, missing) at h) refl)
      | inr (slot, found) ↦
          rw (← eval_identifier-local n lets (slots slot) (agree.local n slot found).1) (
            pushing_quietly _ (slots slot) at next stack stack slots ws (rw (lexical, found) at h)
              refl)
    ]
  ]

  -- Wherever the code of the expression stands, it pushes the value of the tree walk with its warnings,
  -- and leaves the slots in use alone.
  abbrev pub Simulates : Expr D → Type 0
  Simulates e =
      (scope : CompileScope) (at next : ℕ) (lets : Bindings D) (stack : List (Value D))
      (slots : ℕ → Value D) (ws : List (Warning D))
      → Stands code at (compile scope e at next).0
      → Agrees outer scope next slots lets
      → RunsFrom at stack slots ws next (at + length (compile scope e at next).0)
          ((eval double globals (context dyn lets) e).0 ∷ stack)
          (eval double globals (context dyn lets) e).1

  -- The same for expressions one after the other, whose values come to lie on the stack in order.
  abbrev pub SimulatesAll : Exprs D → Type 0
  SimulatesAll es =
      (scope : CompileScope) (at next : ℕ) (lets : Bindings D) (stack : List (Value D))
      (slots : ℕ → Value D) (ws : List (Warning D))
      → Stands code at (compile_all scope es at next).0
      → Agrees outer scope next slots lets
      → RunsFrom at stack slots ws next (at + length (compile_all scope es at next).0)
          (push_all (eval_all double globals (context dyn lets) es).0 stack)
          (eval_all double globals (context dyn lets) es).1
