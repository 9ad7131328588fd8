-- ===== src/Bytecode/Bounds.antt =====
-- Compiled code (src/bytecode_compiler.cpp) stays within the slots and the code of its frame.
use openscad_cpp_evaluator.Prelude.{
  ℕ, suc, ◌+◌, ◌≤◌, arith, true, false, List, [], ◌∷◌, ◌++◌, length, length-append, All,
}
use openscad_cpp_evaluator.Expression.{
  Name, Expr, number_literal, boolean_literal, string_literal, undefined_literal, commented,
  identifier, list_literal, range_literal, primary_index, primary_member, ternary, logical_and,
  logical_or, let_op, unary, binary, Exprs, no_exprs, expr, Assignments, no_assignments, assign,
  is_repeated,
}
use openscad_cpp_evaluator.Machine.{
  Instruction, push_bool, member_op, range_op, index_op, unary_op, binary_op, jump, jump_if_false,
  jump_if_true, build_list,
}
use openscad_cpp_evaluator.Bytecode.{
  CompileScope, resolve_frame, resolve, store_name, declare_params, compile, compile_all,
  compile_assignments, count_exprs, compile_function_like,
}
use openscad_cpp_evaluator.Bytecode.Scopes.{
  store_name-le, compile-le, compile_all-le, compile_assignments-le,
}
use openscad_cpp_evaluator.Bytecode.Slots.{
  IsBounded, AreBounded, Fits, Fits-push, Fits-mono, load-IsBounded, store-IsBounded, params-Fit,
  IsBounded-mono, front, widen, CodeFits,
}

module _ {D : Type 0} where
  mutual
    unfolding compile compile_all compile_assignments IsBounded

    pub bounded :
        (e : Expr D) (scope : CompileScope) (at next : ℕ)
        → Fits scope next
        → CodeFits (compile scope e at next) at
    bounded (number_literal d) scope at next fits = (tt, tt)
    bounded (boolean_literal b) scope at next fits = (tt, tt)
    bounded (string_literal s) scope at next fits = (tt, tt)
    bounded undefined_literal scope at next fits = (tt, tt)
    bounded (commented e) scope at next fits = bounded e scope at next fits
    bounded (identifier n) scope at next fits = (load-IsBounded D scope n next _ fits, tt)
    bounded (list_literal es) scope at next fits =
        let a = compile_all scope es at next in
        front a.0 (build_list (count_exprs es) ∷ []) (bounded_all es scope at next fits)
          (omega arith) (omega (arith, length-append a.0 (build_list (count_exprs es) ∷ [])))
          (tt, tt)
    bounded (range_literal x y z i) scope at next fits =
        let r : List (Instruction D) = range_op i ∷ [] in
        let a = compile scope x at next in
        let b = compile scope y (at + length a.0) a.1 in
        let c = compile scope z (at + length a.0 + length b.0) b.1 in
        let le_a = compile-le scope x at next in
        let le_b = compile-le scope y (at + length a.0) a.1 in
        let le_c = compile-le scope z (at + length a.0 + length b.0) b.1 in
        let la = length-append a.0 (b.0 ++ (c.0 ++ r)) in
        let lb = length-append b.0 (c.0 ++ r) in
        let lc = length-append c.0 r in
        front a.0 (b.0 ++ (c.0 ++ r)) (bounded x scope at next fits) (omega arith) (omega arith) (
          front b.0 (c.0 ++ r) (bounded y scope (at + length a.0) a.1 (Fits-mono scope le_a fits))
            le_c (omega arith)
            (front c.0 r
              (bounded z scope (at + length a.0 + length b.0) b.1
                (Fits-mono scope (let le : next ≤ b.1 = omega arith in le) fits))
              (omega arith) (omega arith) (tt, tt)))
    bounded (primary_index x y) scope at next fits =
        let a = compile scope x at next in
        let b = compile scope y (at + length a.0) a.1 in
        front a.0 (b.0 ++ index_op ∷ []) (bounded x scope at next fits)
          (compile-le scope y (at + length a.0) a.1)
          (omega (arith, length-append a.0 (b.0 ++ index_op ∷ [])))
          (front b.0 (index_op ∷ [])
            (bounded y scope (at + length a.0) a.1
              (Fits-mono scope (compile-le scope x at next) fits))
            (omega arith)
            (omega
              (arith, length-append a.0 (b.0 ++ index_op ∷ []), length-append b.0 (index_op ∷ [])))
            (tt, tt))
    bounded (primary_member x member) scope at next fits =
        let a = compile scope x at next in
        front a.0 (member_op member ∷ []) (bounded x scope at next fits) (omega arith)
          (omega (arith, length-append a.0 (member_op member ∷ []))) (tt, tt)
    bounded (ternary x y z) scope at next fits =
        let c = compile scope x at next in
        let t = compile scope y (suc (at + length c.0)) c.1 in
        let no_place = suc (suc (at + length c.0) + length t.0) in
        let f = compile scope z no_place t.1 in
        let after : List (Instruction D) = jump (no_place + length f.0) ∷ f.0 in
        let le_c = compile-le scope x at next in
        let le_t = compile-le scope y (suc (at + length c.0)) c.1 in
        let le_f = compile-le scope z no_place t.1 in
        let lc = length-append c.0 (jump_if_false no_place ∷ (t.0 ++ after)) in
        let lt = length-append t.0 after in
        let fits_f : Fits scope t.1 =
          Fits-mono scope (let le : next ≤ t.1 = omega arith in le) fits in
        front c.0 (jump_if_false no_place ∷ (t.0 ++ after)) (bounded x scope at next fits)
          (omega arith) (omega arith)
          (
            omega arith,
            front t.0 after
                (bounded y scope (suc (at + length c.0)) c.1 (Fits-mono scope le_c fits)) le_f
                (omega arith)
                (
                  omega arith,
                  widen f.0 (bounded z scope no_place t.1 fits_f) (omega arith) (omega arith),
                ),
          )
    bounded (logical_and x y) scope at next fits =
        let a = compile scope x at next in
        let b = compile scope y (suc (at + length a.0)) a.1 in
        let after = suc (at + length a.0) + length b.0 in
        let decided = suc (suc (suc after)) in
        let end : List (Instruction D) =
          jump_if_false decided ∷ push_bool true ∷ jump (suc decided) ∷ push_bool false ∷ [] in
        let le_a = compile-le scope x at next in
        let le_b = compile-le scope y (suc (at + length a.0)) a.1 in
        let la = length-append a.0 (jump_if_false decided ∷ (b.0 ++ end)) in
        let lb = length-append b.0 end in
        front a.0 (jump_if_false decided ∷ (b.0 ++ end)) (bounded x scope at next fits) le_b
          (omega arith)
          (
            omega arith,
            front b.0 end (bounded y scope (suc (at + length a.0)) a.1 (Fits-mono scope le_a fits))
                (omega arith) (omega arith) (omega arith, (tt, (omega arith, (tt, tt)))),
          )
    bounded (logical_or x y) scope at next fits =
        let a = compile scope x at next in
        let b = compile scope y (suc (at + length a.0)) a.1 in
        let after = suc (at + length a.0) + length b.0 in
        let decided = suc (suc (suc after)) in
        let end : List (Instruction D) =
          jump_if_true decided ∷ push_bool false ∷ jump (suc decided) ∷ push_bool true ∷ [] in
        let le_a = compile-le scope x at next in
        let le_b = compile-le scope y (suc (at + length a.0)) a.1 in
        let la = length-append a.0 (jump_if_true decided ∷ (b.0 ++ end)) in
        let lb = length-append b.0 end in
        front a.0 (jump_if_true decided ∷ (b.0 ++ end)) (bounded x scope at next fits) le_b
          (omega arith)
          (
            omega arith,
            front b.0 end (bounded y scope (suc (at + length a.0)) a.1 (Fits-mono scope le_a fits))
                (omega arith) (omega arith) (omega arith, (tt, (omega arith, (tt, tt)))),
          )
    bounded (let_op assignments body) scope at next fits =
        let bound = compile_assignments [] ([] ∷ scope) assignments (suc at) next in
        let b = compile bound.1 body (suc at + length bound.0) bound.2 in
        let le_a = compile_assignments-le [] ([] ∷ scope) assignments (suc at) next in
        let le_b = compile-le bound.1 body (suc at + length bound.0) bound.2 in
        let la = length-append bound.0 b.0 in
        let inner =
          bounded_assignments assignments [] ([] ∷ scope) (suc at) next
            (Fits-push scope next fits) in
        (
          omega arith,
          front bound.0 b.0 inner.0 (omega arith) (omega arith) (
              widen b.0 (bounded body bound.1 (suc at + length bound.0) bound.2 inner.1)
                (omega arith) (omega arith)),
        )
    bounded (unary op x) scope at next fits =
        let a = compile scope x at next in
        front a.0 (unary_op op ∷ []) (bounded x scope at next fits) (omega arith)
          (omega (arith, length-append a.0 (unary_op op ∷ []))) (tt, tt)
    bounded (binary op x y) scope at next fits =
        let a = compile scope x at next in
        let b = compile scope y (at + length a.0) a.1 in
        front a.0 (b.0 ++ binary_op op ∷ []) (bounded x scope at next fits)
          (compile-le scope y (at + length a.0) a.1)
          (omega (arith, length-append a.0 (b.0 ++ binary_op op ∷ [])))
          (front b.0 (binary_op op ∷ [])
            (bounded y scope (at + length a.0) a.1
              (Fits-mono scope (compile-le scope x at next) fits))
            (omega arith)
            (omega (
              arith,
              length-append a.0 (b.0 ++ binary_op op ∷ []),
              length-append b.0 (binary_op op ∷ []),
            ))
            (tt, tt))

    bounded_all :
        (es : Exprs D) (scope : CompileScope) (at next : ℕ)
        → Fits scope next
        → CodeFits (compile_all scope es at next) at
    bounded_all no_exprs scope at next fits = tt
    bounded_all (expr e es) scope at next fits =
        let a = compile scope e at next in
        let b = compile_all scope es (at + length a.0) a.1 in
        let la = length-append a.0 b.0 in
        front a.0 b.0 (bounded e scope at next fits) (compile_all-le scope es (at + length a.0) a.1)
          (omega arith)
          (widen b.0
            (bounded_all es scope (at + length a.0) a.1
              (Fits-mono scope (compile-le scope e at next) fits))
            (omega arith) (omega arith))

    bounded_assignments :
        (assignments : Assignments D) (seen : List Name) (scope : CompileScope) (at next : ℕ)
        → Fits scope next
        → let compiled = compile_assignments seen scope assignments at next in
          AreBounded compiled.2 (at + length compiled.0) compiled.0 × Fits compiled.1 compiled.2
    bounded_assignments no_assignments seen scope at next fits = (tt, fits)
    bounded_assignments (assign n e rest) seen scope at next fits =
        let a = compile scope e at next in
        let repeated = is_repeated seen n in
        let store = store_name {D = D} repeated scope n a.1 in
        let b = compile_assignments (n ∷ seen) store.1 rest (suc (at + length a.0)) store.2 in
        let le_e = compile-le scope e at next in
        let le_s = store_name-le D repeated scope n a.1 in
        let le_b = compile_assignments-le (n ∷ seen) store.1 rest (suc (at + length a.0)) store.2 in
        let la = length-append a.0 (store.0 ∷ b.0) in
        let stored =
          store-IsBounded D repeated scope n a.1 (at + length (a.0 ++ store.0 ∷ b.0))
            (Fits-mono scope le_e fits) in
        let others =
          bounded_assignments rest (n ∷ seen) store.1 (suc (at + length a.0)) store.2 stored.1 in
        (
          front a.0 (store.0 ∷ b.0) (bounded e scope at next fits) (omega arith) (omega arith) (
            IsBounded-mono store.0 le_b (omega arith) stored.0,
            widen b.0 others.0 (omega arith) (omega arith),
          ),
          others.1,
        )

  -- Every instruction of the body of a compiled function without defaults loads, stores and clears only slots that the function's
  -- frame has, and jumps at most to the end of the code, whatever the parameters and the body.
  pub compile_function_like-IsBounded :
      (names : List Name) (body : Expr D)
      → let compiled = compile_function_like names body in
        All (IsBounded compiled.1 (length compiled.0)) compiled.0
  unfolding compile_function_like resolve resolve_frame
  compile_function_like-IsBounded names body =
      let params = declare_params ([] ∷ []) names 0 in
      let compiled = compile params.0 body 0 params.1 in
      widen compiled.0
        (bounded body params.0 0 params.1
          (params-Fit names ([] ∷ []) 0 (λ n slot h. ground (arith, h))))
        (omega arith) (omega arith)
