-- ===== src/Expression/Contexts.antt =====
-- The tree walk (src/expr_eval.cpp) looks at a context only by the names in it.
use openscad_cpp_evaluator.Prelude.{
  ◌≡◌, refl, arith, ap, Bool, true, false, not, ◌&&◌, inl, inr, if◌then◌else◌, List, [], ◌∷◌, some,
  Bool-cases,
}
use openscad_cpp_evaluator.Prelude.Bytes.{bytes_eq}
use openscad_cpp_evaluator.Value.{Doubles, Value}
use openscad_cpp_evaluator.Expression.{
  Name, Expr, number_literal, boolean_literal, string_literal, undefined_literal, commented,
  identifier, list_literal, range_literal, primary_index, primary_member, ternary, logical_and,
  logical_or, let_op, unary, binary, Exprs, no_exprs, expr, Assignments, no_assignments, assign,
  find, is_dyn_name, is_repeated, Globals, Context, bind_let_name, assign_name, eval_identifier,
  eval, eval_all, eval_assignments,
}

module _ {D : Type 0} where
  -- Two contexts in which every name has the same value: those with a `$` are looked up apart.
  pub record AreAlike (c c' : Context D) : Type 0 where
    pub lets : (n : Name) → find c.lets n ≡ find c'.lets n
    pub dyn : (n : Name) → is_dyn_name n ≡ true → find c.dyn n ≡ find c'.dyn n

  -- A binding is found, and the other names as before.
  pub find-bind_let_name :
      (c : Context D) (n : Name) (v : Value D) (k : Name)
      → (find (bind_let_name c n v).lets k
          ≡ (if bytes_eq n k && not (is_dyn_name n) then some v else find c.lets k))
        × (find (bind_let_name c n v).dyn k
            ≡ (if bytes_eq n k && is_dyn_name n then some v else find c.dyn k))
  unfolding bind_let_name find
  find-bind_let_name c n v k = elim (Bool-cases (is_dyn_name n)) [
    | inl dynamic ↦ rw dynamic (ground arith, ground arith)
    | inr plain ↦ rw plain (ground arith, ground arith)
  ]

  bind_let_name-AreAlike :
      (c c' : Context D) (n : Name) (v : Value D)
      → AreAlike c c'
      → AreAlike (bind_let_name c n v) (bind_let_name c' n v)
  unfolding bind_let_name find
  bind_let_name-AreAlike c c' n v a = elim (Bool-cases (is_dyn_name n)) [
    | inl dynamic ↦ rw dynamic (record {
      lets = a.lets;
      dyn = λ k d. ap (λ o. if bytes_eq n k then some v else o) (a.dyn k d);
    })
    | inr plain ↦ rw plain (record {
      lets = λ k. ap (λ o. if bytes_eq n k then some v else o) (a.lets k);
      dyn = a.dyn;
    })
  ]

  assign_name-AreAlike :
      (repeated : Bool) (c c' : Context D) (n : Name) (v : Value D)
      → AreAlike c c'
      → AreAlike (assign_name repeated c n v).0 (assign_name repeated c' n v).0
        × ((assign_name repeated c n v).1 ≡ (assign_name repeated c' n v).1)
  unfolding assign_name
  assign_name-AreAlike true c c' n v a = (a, refl)
  assign_name-AreAlike false c c' n v a = (bind_let_name-AreAlike c c' n v a, refl)

  module _ (double : Doubles D) (globals : Globals D) where
    eval_identifier-AreAlike :
        (c c' : Context D)
        → AreAlike c c'
        → (n : Name) → eval_identifier double globals c n ≡ eval_identifier double globals c' n
    unfolding eval_identifier
    eval_identifier-AreAlike c c' a n = ground (arith, a.lets n, a.dyn n)

    mutual
      unfolding eval eval_all eval_assignments

      eval_alike :
          (c c' : Context D)
          → AreAlike c c'
          → (e : Expr D) → eval double globals c e ≡ eval double globals c' e
      eval_alike c c' a (number_literal d) = refl
      eval_alike c c' a (boolean_literal b) = refl
      eval_alike c c' a (string_literal s) = refl
      eval_alike c c' a undefined_literal = refl
      eval_alike c c' a (commented e) = eval_alike c c' a e
      eval_alike c c' a (identifier n) = eval_identifier-AreAlike c c' a n
      eval_alike c c' a (list_literal es) = rw (eval_all_alike c c' a es) refl
      eval_alike c c' a (range_literal s e k i) =
          rw (eval_alike c c' a s, eval_alike c c' a e, eval_alike c c' a k) refl
      eval_alike c c' a (primary_index v i) = rw (eval_alike c c' a v, eval_alike c c' a i) refl
      eval_alike c c' a (primary_member v member) = rw (eval_alike c c' a v) refl
      eval_alike c c' a (ternary b v w) =
          rw (eval_alike c c' a b, eval_alike c c' a v, eval_alike c c' a w) refl
      eval_alike c c' a (logical_and v w) = rw (eval_alike c c' a v, eval_alike c c' a w) refl
      eval_alike c c' a (logical_or v w) = rw (eval_alike c c' a v, eval_alike c c' a w) refl
      eval_alike c c' a (let_op assignments body) =
          let (child, warned) = eval_assignments_alike [] c c' a assignments in
          rw (warned, eval_alike _ _ child body) refl
      eval_alike c c' a (unary op v) = rw (eval_alike c c' a v) refl
      eval_alike c c' a (binary op v w) = rw (eval_alike c c' a v, eval_alike c c' a w) refl

      eval_all_alike :
          (c c' : Context D)
          → AreAlike c c'
          → (es : Exprs D) → eval_all double globals c es ≡ eval_all double globals c' es
      eval_all_alike c c' a no_exprs = refl
      eval_all_alike c c' a (expr e es) = rw (eval_alike c c' a e, eval_all_alike c c' a es) refl

      eval_assignments_alike :
          (seen : List Name) (c c' : Context D)
          → AreAlike c c'
          → (assignments : Assignments D)
          → AreAlike
              (eval_assignments double globals seen c assignments).0
              (eval_assignments double globals seen c' assignments).0
            × ((eval_assignments double globals seen c assignments).1
                ≡ (eval_assignments double globals seen c' assignments).1)
      eval_assignments_alike seen c c' a no_assignments = (a, refl)
      eval_assignments_alike seen c c' a (assign n e rest) =
          let bound =
            assign_name-AreAlike (is_repeated seen n) c c' n (eval double globals c' e).0 a in
          let child = eval_assignments_alike (n ∷ seen) _ _ bound.0 rest in
          rw (eval_alike c c' a e) (child.0, rw (bound.1, child.1) refl)

    -- So the walk does not tell such contexts apart.
    pub eval-AreAlike :
        (c c' : Context D)
        → AreAlike c c'
        → (e : Expr D) → eval double globals c e ≡ eval double globals c' e
    eval-AreAlike c c' a e = eval_alike c c' a e
