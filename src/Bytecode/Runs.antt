-- ===== src/Bytecode/Runs.antt =====
-- Stretches of a run of the virtual machine of src/bytecode_vm.cpp that only write slots from some
-- number on.
use openscad_cpp_evaluator.Prelude.{
  ℕ, ◌≤◌, ◌≡◌, refl, sym, arith, List, [], ◌++◌, append_assoc, append-nil, some, get_elem?, subst,
}
use openscad_cpp_evaluator.Value.{Doubles, Value}
use openscad_cpp_evaluator.Operators.{Warning}
use openscad_cpp_evaluator.Expression.{Bindings, Globals}
use openscad_cpp_evaluator.Machine.{Instruction, Frame, execute, step}
use openscad_cpp_evaluator.Bytecode.Reach.{Reach, Reach-trans, Reach-step}
use openscad_cpp_evaluator.Bytecode.Scopes.{Kept, Kept-trans}

module _ {D : Type 0} (double : Doubles D) (globals : Globals D) (outer dyn : Bindings D)
    (code : List (Instruction D)) where
  abbrev pub state : ℕ → List (Value D) → (ℕ → Value D) → List (Warning D) → Frame D
  state at stack slots ws = record {
    pc = at;
    stack = stack;
    slots = slots;
    dyn = dyn;
    warnings = ws;
  }

  abbrev pub Reaches : Frame D → Frame D → Type 0
  Reaches = Reach double globals outer code

  pub step-at :
      (at : ℕ) {i : Instruction D} (stack : List (Value D)) (slots : ℕ → Value D)
      (ws : List (Warning D))
      → get_elem? code at ≡ some i
      → step double globals outer code (state at stack slots ws)
        ≡ execute double globals outer i (state at stack slots ws)
  unfolding step
  step-at at stack slots ws h = rw (step, h) refl

  -- From place `at` the run gets to place `after`, leaves the slots below `next` alone and adds the
  -- warnings `w`.
  pub record Runs (at : ℕ) (stack : List (Value D)) (slots : ℕ → Value D) (ws : List (Warning D))
      (next after : ℕ) (stack' : List (Value D)) (w : List (Warning D)) : Type 0 where
    pub slots' : ℕ → Value D
    pub kept : Kept next slots slots'
    pub reach : Reaches (state at stack slots ws) (state after stack' slots' (ws ++ w))

module _ {D : Type 0} {double : Doubles D} {globals : Globals D} {outer dyn : Bindings D}
    {code : List (Instruction D)} {at : ℕ} {stack : List (Value D)} {slots : ℕ → Value D}
    {ws : List (Warning D)} where
  -- A stretch and the next one, where the slots in between matter.
  pub Runs-join :
      {next mid next' after : ℕ} {stack1 stack2 : List (Value D)} {w1 w2 : List (Warning D)}
      (a : Runs double globals outer dyn code at stack slots ws next mid stack1 w1)
      → next ≤ next'
      → Runs double globals outer dyn code mid stack1 a.slots' (ws ++ w1) next' after stack2 w2
      → Runs double globals outer dyn code at stack slots ws next after stack2 (w1 ++ w2)
  Runs-join {after = after} {stack2 = stack2} {w1 = w1} {w2 = w2} a le b = record {
    slots' = b.slots';
    kept = Kept-trans le a.kept b.kept;
    reach =
        subst
          (λ u.
            Reaches double globals outer dyn code
              (state double globals outer dyn code at stack slots ws)
              (state double globals outer dyn code after stack2 b.slots' u))
          (append_assoc ws w1 w2) (Reach-trans double globals outer code a.reach b.reach);
  }

  pub Runs-trans :
      {next mid next' after : ℕ} {stack1 stack2 : List (Value D)} {w1 w2 : List (Warning D)}
      → next ≤ next'
      → Runs double globals outer dyn code at stack slots ws next mid stack1 w1
      → ((s : ℕ → Value D) (u : List (Warning D))
          → Kept next slots s
          → Runs double globals outer dyn code mid stack1 s u next' after stack2 w2)
      → Runs double globals outer dyn code at stack slots ws next after stack2 (w1 ++ w2)
  Runs-trans {w1 = w1} le a rest = Runs-join a le (rest a.slots' (ws ++ w1) a.kept)

  -- A single step.
  pub Runs-step :
      {next after : ℕ} {stack' : List (Value D)} {w : List (Warning D)}
      → step double globals outer code (state double globals outer dyn code at stack slots ws)
        ≡ some (state double globals outer dyn code after stack' slots (ws ++ w))
      → Runs double globals outer dyn code at stack slots ws next after stack' w
  Runs-step e = record {
    slots' = slots;
    kept = λ k lt. refl;
    reach = Reach-step double globals outer code e;
  }

  -- Steps without warnings before others.
  pub Runs-before :
      {mid next after : ℕ} {stack1 stack2 : List (Value D)} {w : List (Warning D)}
      → Reaches double globals outer dyn code
          (state double globals outer dyn code at stack slots ws)
          (state double globals outer dyn code mid stack1 slots ws)
      → Runs double globals outer dyn code mid stack1 slots ws next after stack2 w
      → Runs double globals outer dyn code at stack slots ws next after stack2 w
  Runs-before q a = record {
    slots' = a.slots';
    kept = a.kept;
    reach = Reach-trans double globals outer code q a.reach;
  }

  -- Steps without warnings after others.
  pub Runs-after :
      {mid next after : ℕ} {stack1 stack2 : List (Value D)} {w : List (Warning D)}
      → Runs double globals outer dyn code at stack slots ws next mid stack1 w
      → ((s : ℕ → Value D) (u : List (Warning D))
          → Reaches double globals outer dyn code
              (state double globals outer dyn code mid stack1 s u)
              (state double globals outer dyn code after stack2 s u))
      → Runs double globals outer dyn code at stack slots ws next after stack2 w
  Runs-after {w = w} a q = record {
    slots' = a.slots';
    kept = a.kept;
    reach = Reach-trans double globals outer code a.reach (q a.slots' (ws ++ w));
  }

  pub Runs-place :
      {next after after' : ℕ} {stack' : List (Value D)} {w : List (Warning D)}
      → after ≡ after'
      → Runs double globals outer dyn code at stack slots ws next after stack' w
      → Runs double globals outer dyn code at stack slots ws next after' stack' w
  Runs-place {next = next} {stack' = stack'} {w = w} e a =
      subst (λ place. Runs double globals outer dyn code at stack slots ws next place stack' w) e a

  pub Runs-weaker :
      {next next' after : ℕ} {stack' : List (Value D)} {w : List (Warning D)}
      → next ≤ next'
      → Runs double globals outer dyn code at stack slots ws next' after stack' w
      → Runs double globals outer dyn code at stack slots ws next after stack' w
  Runs-weaker le a = record {
    slots' = a.slots';
    kept = λ k lt. a.kept k (omega arith);
    reach = a.reach;
  }

  pub Runs-quiet :
      {next after : ℕ} {stack' : List (Value D)}
      → Reaches double globals outer dyn code
          (state double globals outer dyn code at stack slots ws)
          (state double globals outer dyn code after stack' slots ws)
      → Runs double globals outer dyn code at stack slots ws next after stack' []
  Runs-quiet {after = after} {stack' = stack'} q = record {
    slots' = slots;
    kept = λ k lt. refl;
    reach =
        subst
          (λ u.
            Reaches double globals outer dyn code
              (state double globals outer dyn code at stack slots ws)
              (state double globals outer dyn code after stack' slots u))
          (sym (append-nil ws)) q;
  }
