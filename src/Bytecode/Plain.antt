-- ===== src/Bytecode/Plain.antt =====
-- Expressions (src/expr_eval.cpp) in which no `let` binds a name with a `$`.
use openscad_cpp_evaluator.Prelude.{◌≡◌, false}
use openscad_cpp_evaluator.Expression.{
  Expr, commented, list_literal, range_literal, primary_index, primary_member, ternary, logical_and,
  logical_or, let_op, unary, binary, Exprs, no_exprs, expr, Assignments, no_assignments, assign,
  is_dyn_name,
}

-- No `let` of the expression binds a name with a `$`.
unfoldable mutual
  pub HasPlainLets : {D : Type 0} → Expr D → Type 0
  HasPlainLets (commented e) = HasPlainLets e
  HasPlainLets (list_literal es) = HavePlainLets es
  HasPlainLets (range_literal a b c i) = HasPlainLets a × HasPlainLets b × HasPlainLets c
  HasPlainLets (primary_index a b) = HasPlainLets a × HasPlainLets b
  HasPlainLets (primary_member a member) = HasPlainLets a
  HasPlainLets (ternary a b c) = HasPlainLets a × HasPlainLets b × HasPlainLets c
  HasPlainLets (logical_and a b) = HasPlainLets a × HasPlainLets b
  HasPlainLets (logical_or a b) = HasPlainLets a × HasPlainLets b
  HasPlainLets (let_op assignments body) = ArePlain assignments × HasPlainLets body
  HasPlainLets (unary op a) = HasPlainLets a
  HasPlainLets (binary op a b) = HasPlainLets a × HasPlainLets b
  HasPlainLets e = Unit

  pub HavePlainLets : {D : Type 0} → Exprs D → Type 0
  HavePlainLets no_exprs = Unit
  HavePlainLets (expr e es) = HasPlainLets e × HavePlainLets es

  pub ArePlain : {D : Type 0} → Assignments D → Type 0
  ArePlain no_assignments = Unit
  ArePlain (assign n e rest) = (is_dyn_name n ≡ false) × HasPlainLets e × ArePlain rest
