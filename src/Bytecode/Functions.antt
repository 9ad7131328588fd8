-- ===== src/Bytecode/Functions.antt =====
-- A call of a compiled function against the evaluation of its body by the tree walk.
use openscad_cpp_evaluator.Prelude.{ℕ, ◌≡◌, List}
use openscad_cpp_evaluator.Value.{Doubles, Value}
use openscad_cpp_evaluator.Operators.{Warned}
use openscad_cpp_evaluator.Expression.{Name, Bindings, Globals, Context}
use openscad_cpp_evaluator.Bytecode.{CompileScope}
use openscad_cpp_evaluator.Machine.{Frame}
use openscad_cpp_evaluator.Bytecode.Scopes.{Agrees}
use openscad_cpp_evaluator.Prelude.{map}
use openscad_cpp_evaluator.Machine.{new_frame, frame_result}

abbrev pub names_of : {D : Type 0} → List (Name × Value D) → List Name
names_of args = map (λ a. a.0) args

module _ {D : Type 0} (outer : Bindings D) where
  -- What holds of a frame whose arguments are bound, against the context of the walk.
  record Bound (scope : CompileScope) (next : ℕ) (f : Frame D) (c : Context D) : Type 0 where
    pub agrees : Agrees outer scope next f.slots c.lets
    pub frame : f ≡ new_frame f.slots c.dyn

module _ {D : Type 0} (double : Doubles D) (globals : Globals D) (outer dyn : Bindings D) where
  -- What a call gives that ends: the value and the warnings of the tree walk.
  pub record Gives (f : Frame D) (r : Warned D) : Type 0 where
    pub value : frame_result f ≡ r.0
    pub warned : f.warnings ≡ r.1
