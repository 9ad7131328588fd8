-- ===== src/Bytecode.antt =====
-- The compilation of expressions by src/bytecode_compiler.cpp, for the expressions of `Expression`.
use openscad_cpp_evaluator.Prelude.{
  ℕ, zero, suc, ◌+◌, ◌-◌, Bool, true, false, not, ◌&&◌, List, [], ◌∷◌, ◌++◌, Option, none, some,
  ltb, leb, ◌==◌, if◌then◌else◌, length, get_elem?,
}
use openscad_cpp_evaluator.Prelude.Bytes.{bytes_eq}
use openscad_cpp_evaluator.Value.{Doubles, Value, undef, boolean, number, string}
use openscad_cpp_evaluator.Value.Scale.{truthy}
use openscad_cpp_evaluator.Value.Matrix.{list_value}
use openscad_cpp_evaluator.Operators.{
  BinaryOp, UnaryOp, Warning, duplicate_assignment, Warned, apply_binary_op, apply_unary_op,
}
use openscad_cpp_evaluator.Indexing.{apply_index_access, apply_member_access, apply_range}
use openscad_cpp_evaluator.Expression.{
  Name, Expr, number_literal, boolean_literal, string_literal, undefined_literal, commented,
  identifier, list_literal, range_literal, primary_index, primary_member, ternary, logical_and,
  logical_or, let_op, unary, binary, Exprs, no_exprs, expr, Assignments, no_assignments, assign,
  Bindings, find, is_dyn_name, is_repeated, Globals, Context, value_or_unknown, eval_identifier,
}
use openscad_cpp_evaluator.Machine.{
  Instruction, push_const, push_bool, load_local, store_local, load_dyn, store_dyn, load_free,
  warn_duplicate_let, member_op, range_op, index_op, unary_op, binary_op, jump, jump_if_false,
  jump_if_true, build_list, open_local_scope,
}
pub mod Reach
pub mod Scopes
pub mod Runs
pub mod Plain
pub mod Pushes
pub mod Operands
pub mod Branches
pub mod ListLiterals
pub mod Lets
pub mod Simulation
pub mod Functions
pub mod Leak
pub mod Slots
pub mod Bounds
mod Tests

-- One list of names with their slots for each frame, the innermost frame and the last name first.
abbrev pub CompileScope : Type 0
CompileScope = List (List (Name × ℕ))

unfoldable pub resolve_frame : List (Name × ℕ) → Name → Option ℕ
resolve_frame [] n = none
resolve_frame ((k, slot) ∷ frame) n = if bytes_eq k n then some slot else resolve_frame frame n

abbrev pub or_else : Option ℕ → Option ℕ → Option ℕ
or_else (some slot) other = some slot
or_else none other = other

unfoldable pub resolve : CompileScope → Name → Option ℕ
resolve [] n = none
resolve (frame ∷ frames) n = or_else (resolve_frame frame n) (resolve frames n)

unfoldable pub declare : CompileScope → Name → ℕ → CompileScope
declare [] n slot = []
declare (frame ∷ frames) n slot = ((n, slot) ∷ frame) ∷ frames

-- The parameters of a function: those with a `$` have no slot.
unfoldable pub declare_params : CompileScope → List Name → ℕ → CompileScope × ℕ
declare_params scope [] next = (scope, next)
declare_params scope (n ∷ names) next =
    if is_dyn_name n
    then declare_params scope names next
    else declare_params (declare scope n next) names (suc next)

-- The code of an expression and the next free slot.
abbrev pub Compiled : Type 0 → Type 0
Compiled D = List (Instruction D) × ℕ

abbrev pub count_exprs : {D : Type 0} → Exprs D → ℕ
count_exprs no_exprs = 0
count_exprs (expr e es) = suc (count_exprs es)

module _ {D : Type 0} where
  abbrev pub load_slot : Option ℕ → Name → Instruction D
  load_slot (some slot) n = load_local slot
  load_slot none n = load_free n

  unfoldable pub compile_identifier_load : CompileScope → Name → Instruction D
  compile_identifier_load scope n =
      if is_dyn_name n then load_dyn n else load_slot (resolve scope n) n

  -- The instruction for one assignment of a `let`, with the scope and the next slot after it.
  unfoldable pub store_name : Bool → CompileScope → Name → ℕ → Instruction D × CompileScope × ℕ
  store_name true scope n next = (warn_duplicate_let n, scope, next)
  store_name false scope n next =
      if is_dyn_name n
      then (store_dyn n, scope, next)
      else (store_local next, declare scope n next, suc next)

  -- Code that stands at place `at`, which its jumps name; `next` is the next free slot.
  unfoldable mutual
    pub compile : CompileScope → Expr D → ℕ → ℕ → Compiled D
    compile scope (number_literal d) at next = (push_const (number d) ∷ [], next)
    compile scope (boolean_literal b) at next = (push_bool b ∷ [], next)
    compile scope (string_literal s) at next = (push_const (string s) ∷ [], next)
    compile scope undefined_literal at next = (push_const undef ∷ [], next)
    compile scope (commented e) at next = compile scope e at next
    compile scope (identifier n) at next = (compile_identifier_load scope n ∷ [], next)
    compile scope (list_literal es) at next =
        let items = compile_all scope es at next in
        (items.0 ++ build_list (count_exprs es) ∷ [], items.1)
    compile scope (range_literal start end step implicit_step) at next =
        let a = compile scope start at next in
        let b = compile scope end (at + length a.0) a.1 in
        let c = compile scope step (at + length a.0 + length b.0) b.1 in
        (a.0 ++ (b.0 ++ (c.0 ++ range_op implicit_step ∷ [])), c.1)
    compile scope (primary_index left index) at next =
        let a = compile scope left at next in
        let b = compile scope index (at + length a.0) a.1 in (a.0 ++ (b.0 ++ index_op ∷ []), b.1)
    compile scope (primary_member left member) at next =
        let a = compile scope left at next in (a.0 ++ member_op member ∷ [], a.1)
    compile scope (ternary condition true_expr false_expr) at next =
        let c = compile scope condition at next in
        let t = compile scope true_expr (suc (at + length c.0)) c.1 in
        let no_place = suc (suc (at + length c.0) + length t.0) in
        let f = compile scope false_expr no_place t.1 in
        (c.0 ++ (jump_if_false no_place ∷ (t.0 ++ (jump (no_place + length f.0) ∷ f.0))), f.1)
    compile scope (logical_and left right) at next =
        let a = compile scope left at next in
        let b = compile scope right (suc (at + length a.0)) a.1 in
        let after = suc (at + length a.0) + length b.0 in
        let decided = suc (suc (suc after)) in
        (
          a.0
              ++ (jump_if_false decided
                  ∷ (b.0
                      ++ (jump_if_false decided
                          ∷ push_bool true
                          ∷ jump (suc decided)
                          ∷ push_bool false
                          ∷ []))),
          b.1,
        )
    compile scope (logical_or left right) at next =
        let a = compile scope left at next in
        let b = compile scope right (suc (at + length a.0)) a.1 in
        let after = suc (at + length a.0) + length b.0 in
        let decided = suc (suc (suc after)) in
        (
          a.0
              ++ (jump_if_true decided
                  ∷ (b.0
                      ++ (jump_if_true decided
                          ∷ push_bool false
                          ∷ jump (suc decided)
                          ∷ push_bool true
                          ∷ []))),
          b.1,
        )
    compile scope (let_op assignments body) at next =
        let bound = compile_assignments [] ([] ∷ scope) assignments (suc at) next in
        let b = compile bound.1 body (suc at + length bound.0) bound.2 in
        (open_local_scope next (bound.2 - next) ∷ (bound.0 ++ b.0), b.1)
    compile scope (unary op e) at next =
        let a = compile scope e at next in (a.0 ++ unary_op op ∷ [], a.1)
    compile scope (binary op left right) at next =
        let a = compile scope left at next in
        let b = compile scope right (at + length a.0) a.1 in
        (a.0 ++ (b.0 ++ binary_op op ∷ []), b.1)

    pub compile_all : CompileScope → Exprs D → ℕ → ℕ → Compiled D
    compile_all scope no_exprs at next = ([], next)
    compile_all scope (expr e es) at next =
        let a = compile scope e at next in
        let b = compile_all scope es (at + length a.0) a.1 in (a.0 ++ b.0, b.1)

    -- Also the scope that the body of the `let` is compiled in.
    pub compile_assignments :
        List Name → CompileScope → Assignments D → ℕ → ℕ → List (Instruction D) × CompileScope × ℕ
    compile_assignments seen scope no_assignments at next = ([], scope, next)
    compile_assignments seen scope (assign n e rest) at next =
        let a = compile scope e at next in
        let store = store_name (is_repeated seen n) scope n a.1 in
        let b = compile_assignments (n ∷ seen) store.1 rest (suc (at + length a.0)) store.2 in
        (a.0 ++ store.0 ∷ b.0, b.1, b.2)

  -- The code of the body of a function without defaults, and how many slots it has; `compile_chunk` of
  -- `Calls` has the defaults too.
  unfoldable pub compile_function_like : List Name → Expr D → Compiled D
  compile_function_like names body =
      let params = declare_params ([] ∷ []) names 0 in compile params.0 body 0 params.1
