-- ===== src/Expression.antt =====
-- The tree walk over expressions: `evalExpr`, `evalIdentifier`, `evalRangeLiteral`, `evalListLiteral`
-- and `evalLetExpr` of src/expr_eval.cpp, for expressions without calls, function literals, `echo`,
-- `assert` and clauses of list comprehensions. Operands are evaluated from left to right.
use openscad_cpp_evaluator.Prelude.{
  ℕ, Bool, true, false, ◌||◌, List, [], ◌∷◌, ◌++◌, Option, none, some, ◌==◌, if◌then◌else◌,
}
use openscad_cpp_evaluator.Prelude.Bytes.{bytes_eq}
use openscad_cpp_evaluator.Value.{Doubles, Value, undef, boolean, number, string}
use openscad_cpp_evaluator.Value.Scale.{truthy}
use openscad_cpp_evaluator.Value.Matrix.{list_value}
use openscad_cpp_evaluator.Operators.{
  BinaryOp, UnaryOp, Warning, unknown_variable, duplicate_assignment, Warned, apply_binary_op,
  apply_unary_op,
}
use openscad_cpp_evaluator.Indexing.{apply_index_access, apply_member_access, apply_range}
pub mod Contexts

abbrev pub Name : Type 0
Name = List ℕ

-- A string literal is the text that its escapes stand for.
mutual
  pub data Expr (D : Type 0) : Type 0 where
    number_literal : D → Expr D
    boolean_literal : Bool → Expr D
    string_literal : List ℕ → Expr D
    undefined_literal : Expr D
    commented : Expr D → Expr D
    identifier : Name → Expr D
    list_literal : Exprs D → Expr D
    range_literal : Expr D → Expr D → Expr D → Bool → Expr D
    primary_index : Expr D → Expr D → Expr D
    primary_member : Expr D → Name → Expr D
    ternary : Expr D → Expr D → Expr D → Expr D
    logical_and : Expr D → Expr D → Expr D
    logical_or : Expr D → Expr D → Expr D
    let_op : Assignments D → Expr D → Expr D
    unary : UnaryOp → Expr D → Expr D
    binary : BinaryOp → Expr D → Expr D → Expr D

  pub data Exprs (D : Type 0) : Type 0 where
    no_exprs : Exprs D
    expr : Expr D → Exprs D → Exprs D

  pub data Assignments (D : Type 0) : Type 0 where
    no_assignments : Assignments D
    assign : Name → Expr D → Assignments D → Assignments D

-- Bound names, the last binding first.
abbrev pub Bindings : Type 0 → Type 0
Bindings D = List (Name × Value D)

module _ {D : Type 0} where
  unfoldable pub find : Bindings D → Name → Option (Value D)
  find [] n = none
  find ((k, v) ∷ bs) n = if bytes_eq k n then some v else find bs n

unfoldable pub is_dyn_name : Name → Bool
is_dyn_name [] = false
is_dyn_name (c ∷ cs) = c == 0x24

unfoldable pub is_repeated : List Name → Name → Bool
is_repeated [] n = false
is_repeated (k ∷ ks) n = bytes_eq k n || is_repeated ks n

-- What stands outside the expression: the constant pi, and what a name that is declared outside of
-- every `let` evaluates to.
pub record Globals (D : Type 0) : Type 0 where
  pub pi : D
  pub lookup_variable : Name → Option (Warned D)

-- A list of values with the warnings given so far.
abbrev pub WarnedList : Type 0 → Type 0
WarnedList D = List (Value D) × List (Warning D)

-- The bindings of a context: the lexical ones and those of names with a `$`.
pub record Context (D : Type 0) : Type 0 where
  pub lets : Bindings D
  pub dyn : Bindings D

abbrev pub WarnedContext : Type 0 → Type 0
WarnedContext D = Context D × List (Warning D)

module _ {D : Type 0} where
  infixl 5 ◌>>=◌
  abbrev pub ◌>>=◌ : Warned D → (Value D → Warned D) → Warned D
  m >>= f = ((f m.0).0, m.1 ++ (f m.0).1)

  abbrev pub unknown : Name → Warned D
  unknown n = (undef, unknown_variable n ∷ [])

  abbrev pub value_or_unknown : Option (Value D) → Name → Warned D
  value_or_unknown (some v) n = (v, [])
  value_or_unknown none n = unknown n

  abbrev pub result_or_unknown : Option (Warned D) → Name → Warned D
  result_or_unknown (some r) n = r
  result_or_unknown none n = unknown n

  unfoldable pub bind_let_name : Context D → Name → Value D → Context D
  bind_let_name c n v =
      if is_dyn_name n
      then record { lets = c.lets; dyn = (n, v) ∷ c.dyn }
      else record { lets = (n, v) ∷ c.lets; dyn = c.dyn }

  -- A name that an earlier assignment of the same `let` has is not bound again.
  unfoldable pub assign_name : Bool → Context D → Name → Value D → WarnedContext D
  assign_name true c n v = (c, duplicate_assignment n v ∷ [])
  assign_name false c n v = (bind_let_name c n v, [])

  -- The arguments of a call, matched to the parameters.
  unfoldable pub bind_params : Context D → List (Name × Value D) → Context D
  bind_params c [] = c
  bind_params c ((n, v) ∷ args) = bind_params (bind_let_name c n v) args

module _ {D : Type 0} (double : Doubles D) (globals : Globals D) where
  unfoldable pub eval_identifier : Context D → Name → Warned D
  eval_identifier c n = elim (find c.lets n) [
    | some v ↦ (v, [])
    | none ↦
        if is_dyn_name n
        then value_or_unknown (find c.dyn n) n
        else if bytes_eq n (0x50 ∷ 0x49 ∷ [])
        then (number globals.pi, [])
        else result_or_unknown (globals.lookup_variable n) n
  ]

  -- The right operand of `&&` and `||`, given that the left one does not decide.
  abbrev pub as_truth : Warned D → Warned D
  as_truth m = (boolean (truthy double m.0), m.1)

  unfoldable mutual
    pub eval : Context D → Expr D → Warned D
    eval c (number_literal d) = (number d, [])
    eval c (boolean_literal b) = (boolean b, [])
    eval c (string_literal s) = (string s, [])
    eval c undefined_literal = (undef, [])
    eval c (commented e) = eval c e
    eval c (identifier n) = eval_identifier c n
    eval c (list_literal es) = (list_value (eval_all c es).0, (eval_all c es).1)
    eval c (range_literal start end step implicit_step) = do
      s ← eval c start
      e ← eval c end
      k ← eval c step
      apply_range double s e k implicit_step
    eval c (primary_index left index) = do
      v ← eval c left
      i ← eval c index
      (apply_index_access double v i, [])
    eval c (primary_member left member) = do
      v ← eval c left
      (apply_member_access double v member, [])
    eval c (ternary condition true_expr false_expr) =
        let yes_result = eval c true_expr in
        let no_result = eval c false_expr in
        eval c condition >>= λ v. if truthy double v then yes_result else no_result
    eval c (logical_and left right) =
        let rest = as_truth (eval c right) in
        eval c left >>= λ v. if truthy double v then rest else (boolean false, [])
    eval c (logical_or left right) =
        let rest = as_truth (eval c right) in
        eval c left >>= λ v. if truthy double v then (boolean true, []) else rest
    eval c (let_op assignments body) =
        let child = eval_assignments [] c assignments in
        ((eval child.0 body).0, child.1 ++ (eval child.0 body).1)
    eval c (unary op e) = do v ← eval c e; apply_unary_op double op v
    eval c (binary op left right) = do
      a ← eval c left
      b ← eval c right
      apply_binary_op double op a b

    pub eval_all : Context D → Exprs D → WarnedList D
    eval_all c no_exprs = ([], [])
    eval_all c (expr e es) = ((eval c e).0 ∷ (eval_all c es).0, (eval c e).1 ++ (eval_all c es).1)

    -- The assignments of a `let`, each seeing those before it, after the names `seen`.
    pub eval_assignments : List Name → Context D → Assignments D → WarnedContext D
    eval_assignments seen c no_assignments = (c, [])
    eval_assignments seen c (assign n e rest) =
        let v = eval c e in
        let bound = assign_name (is_repeated seen n) c n v.0 in
        let child = eval_assignments (n ∷ seen) bound.0 rest in
        (child.0, v.1 ++ (bound.1 ++ child.1))
