-- ===== src/Machine.antt =====
-- The instructions of src/bytecode_vm.cpp and its loop over one frame, for the code of expressions
-- without calls, function literals and list comprehensions. An instruction holds its constant or
-- name itself instead of an index into the chunk's pool, and no position.
use openscad_cpp_evaluator.Prelude.{
  ℕ, zero, suc, ◌+◌, Bool, true, false, not, ◌&&◌, List, [], ◌∷◌, ◌++◌, Option, none, some, ltb,
  leb, ◌==◌, if◌then◌else◌, length, get_elem?,
}
use openscad_cpp_evaluator.Value.{Doubles, Value, undef, boolean}
use openscad_cpp_evaluator.Value.Scale.{truthy}
use openscad_cpp_evaluator.Value.Matrix.{list_value}
use openscad_cpp_evaluator.Operators.{
  BinaryOp, UnaryOp, Warning, duplicate_assignment, Warned, apply_binary_op, apply_unary_op,
}
use openscad_cpp_evaluator.Indexing.{apply_index_access, apply_member_access, apply_range}
use openscad_cpp_evaluator.Expression.{
  Name, Bindings, find, is_dyn_name, Globals, value_or_unknown, eval_identifier,
}

pub data Instruction (D : Type 0) : Type 0 where
  push_const : Value D → Instruction D
  push_bool : Bool → Instruction D
  load_local store_local : ℕ → Instruction D
  load_dyn store_dyn load_free warn_duplicate_let member_op : Name → Instruction D
  range_op : Bool → Instruction D
  index_op : Instruction D
  unary_op : UnaryOp → Instruction D
  binary_op : BinaryOp → Instruction D
  jump jump_if_false jump_if_true build_list : ℕ → Instruction D
  open_local_scope : ℕ → ℕ → Instruction D

-- A call that runs: `slots` gives a value for every number, those past the frame's last slot included.
pub record Frame (D : Type 0) : Type 0 where
  pub pc : ℕ
  pub stack : List (Value D)
  pub slots : ℕ → Value D
  pub dyn : Bindings D
  pub warnings : List (Warning D)

module _ {D : Type 0} where
  unfoldable pub update : (ℕ → Value D) → ℕ → Value D → ℕ → Value D
  update slots slot v k = if slot == k then v else slots k

  -- `count` slots from `first` on are undef.
  unfoldable pub clear : (ℕ → Value D) → ℕ → ℕ → ℕ → Value D
  clear slots first count k = if leb first k && ltb k (first + count) then undef else slots k

  -- The last `count` values of the stack, in the order in which they were pushed, before `items`.
  unfoldable pub pop_items :
      ℕ → List (Value D) → List (Value D) → Option (List (Value D) × List (Value D))
  pop_items zero stack items = some (items, stack)
  pop_items (suc count) [] items = none
  pop_items (suc count) (v ∷ stack) items = pop_items count stack (v ∷ items)

  abbrev pub at_next : Frame D → List (Value D) → Frame D
  at_next f stack = record f { pc = suc f.pc; stack = stack }

  abbrev pub push_result : Frame D → List (Value D) → Warned D → Frame D
  push_result f rest r = record f {
    pc = suc f.pc;
    stack = r.0 ∷ rest;
    warnings = f.warnings ++ r.1;
  }

module _ {D : Type 0} (double : Doubles D) (globals : Globals D) (lets : Bindings D) where
  -- `LoadDyn`, where `lets` is what the frame's context binds.
  unfoldable pub load_dyn_value : Bindings D → Name → Warned D
  load_dyn_value dyn n = elim (find lets n) [
    | some v ↦ (v, [])
    | none ↦ value_or_unknown (find dyn n) n
  ]

  -- One case of the switch; nothing where the stack has too few values.
  unfoldable pub execute : Instruction D → Frame D → Option (Frame D)
  execute (push_const v) f = some (at_next f (v ∷ f.stack))
  execute (push_bool b) f = some (at_next f (boolean b ∷ f.stack))
  execute (load_local slot) f = some (at_next f (f.slots slot ∷ f.stack))
  execute (store_local slot) f = elim f.stack [
    | [] ↦ none
    | v ∷ rest ↦ some (record (at_next f rest) { slots = update f.slots slot v })
  ]
  execute (load_dyn n) f = some (push_result f f.stack (load_dyn_value f.dyn n))
  execute (store_dyn n) f = elim f.stack [
    | [] ↦ none
    | v ∷ rest ↦ some (record (at_next f rest) { dyn = (n, v) ∷ f.dyn })
  ]
  execute (load_free n) f = some (
      push_result f f.stack
        (eval_identifier double globals (record { lets = lets; dyn = f.dyn }) n))
  execute (warn_duplicate_let n) f = elim f.stack [
    | [] ↦ none
    | v ∷ rest ↦
        some (record (at_next f rest) { warnings = f.warnings ++ duplicate_assignment n v ∷ [] })
  ]
  execute (member_op member) f = elim f.stack [
    | [] ↦ none
    | v ∷ rest ↦ some (at_next f (apply_member_access double v member ∷ rest))
  ]
  execute (range_op implicit_step) f = elim f.stack [
    | [] ↦ none
    | step ∷ below ↦ elim below [
      | [] ↦ none
      | end ∷ under ↦ elim under [
        | [] ↦ none
        | start ∷ rest ↦ some (push_result f rest (apply_range double start end step implicit_step))
      ]
    ]
  ]
  execute index_op f = elim f.stack [
    | [] ↦ none
    | index ∷ below ↦ elim below [
      | [] ↦ none
      | v ∷ rest ↦ some (at_next f (apply_index_access double v index ∷ rest))
    ]
  ]
  execute (unary_op op) f = elim f.stack [
    | [] ↦ none
    | v ∷ rest ↦ some (push_result f rest (apply_unary_op double op v))
  ]
  execute (binary_op op) f = elim f.stack [
    | [] ↦ none
    | b ∷ below ↦ elim below [
      | [] ↦ none
      | a ∷ rest ↦ some (push_result f rest (apply_binary_op double op a b))
    ]
  ]
  execute (jump place) f = some (record f { pc = place })
  execute (jump_if_false place) f = elim f.stack [
    | [] ↦ none
    | v ∷ rest ↦
        some (record f { pc = if not (truthy double v) then place else suc f.pc; stack = rest })
  ]
  execute (jump_if_true place) f = elim f.stack [
    | [] ↦ none
    | v ∷ rest ↦ some (record f { pc = if truthy double v then place else suc f.pc; stack = rest })
  ]
  execute (build_list count) f = elim (pop_items count f.stack []) [
    | none ↦ none
    | some (items, rest) ↦ some (at_next f (list_value items ∷ rest))
  ]
  execute (open_local_scope first count) f =
      some (record (at_next f f.stack) { slots = clear f.slots first count })

  unfoldable pub step : List (Instruction D) → Frame D → Option (Frame D)
  step code f = elim (get_elem? code f.pc) [ none ↦ none | some i ↦ execute i f ]

  -- The loop of `driveVm` over one frame, until its code ends: `fuel` bounds the instructions.
  unfoldable pub run : ℕ → List (Instruction D) → Frame D → Option (Frame D)
  run zero code f = none
  run (suc fuel) code f = elim (leb (length code) f.pc) [
    | true ↦ some f
    | false ↦ elim (step code f) [ none ↦ none | some g ↦ run fuel code g ]
  ]

-- The value that a frame hands back when its code has ended.
unfoldable pub frame_result : {D : Type 0} → Frame D → Value D
frame_result f = elim f.stack [ [] ↦ undef | v ∷ rest ↦ v ]

module _ {D : Type 0} where
  -- A frame before its first instruction.
  abbrev pub new_frame : (ℕ → Value D) → Bindings D → Frame D
  new_frame slots dyn = record { pc = 0; stack = []; slots = slots; dyn = dyn; warnings = [] }

  -- Arguments that are matched to the parameters, those without a `$` to the slots from `next` on.
  unfoldable pub bind_args : ℕ → List (Name × Value D) → Frame D → Frame D
  bind_args next [] f = f
  bind_args next ((n, v) ∷ args) f = elim (is_dyn_name n) [
    | true ↦ bind_args next args (record f { dyn = (n, v) ∷ f.dyn })
    | false ↦ bind_args (suc next) args (record f { slots = update f.slots next v })
  ]
