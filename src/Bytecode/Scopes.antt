-- ===== src/Bytecode/Scopes.antt =====
-- The slots of a `CompileScope` against the bindings of the tree walk, and how compilation counts them.
use openscad_cpp_evaluator.Prelude.{
  ℕ, suc, ◌≤◌, ◌<◌, ◌≡◌, sym, ap, ◌∙◌, arith, inl, inr, Bool, true, false, List, [], ◌∷◌, none,
  some, Bool-cases,
}
use openscad_cpp_evaluator.Prelude.Bytes.{bytes_eq, bytes_eq-eq}
use openscad_cpp_evaluator.Value.{Value}
use openscad_cpp_evaluator.Expression.{
  Name, Expr, number_literal, boolean_literal, string_literal, undefined_literal, commented,
  identifier, list_literal, range_literal, primary_index, primary_member, ternary, logical_and,
  logical_or, let_op, unary, binary, Exprs, no_exprs, expr, Assignments, no_assignments, assign,
  Bindings, find, is_dyn_name, is_repeated,
}
use openscad_cpp_evaluator.Bytecode.{
  CompileScope, resolve_frame, resolve, store_name, compile, compile_all, compile_assignments,
}
use openscad_cpp_evaluator.Machine.{update, clear}

module _ {D : Type 0} where
  -- The slots below `next` are unchanged.
  abbrev pub Kept : ℕ → (ℕ → Value D) → (ℕ → Value D) → Type 0
  Kept next slots slots' = (k : ℕ) → k < next → slots' k ≡ slots k

  pub Kept-trans :
      {next next' : ℕ} {s s' s'' : ℕ → Value D}
      → next ≤ next'
      → Kept next s s'
      → Kept next' s' s''
      → Kept next s s''
  Kept-trans h p q k lt = q k (omega arith) ∙ p k lt

  pub Kept-update :
      (next slot : ℕ) (s : ℕ → Value D) (v : Value D) → next ≤ slot → Kept next s (update s slot v)
  unfolding update
  Kept-update next slot s v h k lt = ground arith

  pub Kept-clear : (next count : ℕ) (s : ℕ → Value D) → Kept next s (clear s next count)
  unfolding clear
  Kept-clear next count s k lt = ground arith

  -- The slot of a name that resolves is below `next` and holds what the walk has bound, and any other
  -- name is bound as outside of the expression.
  pub record Agrees (outer : Bindings D) (scope : CompileScope) (next : ℕ) (slots : ℕ → Value D)
      (lets : Bindings D) : Type 0 where
    pub local :
        (n : Name) (slot : ℕ)
        → resolve scope n ≡ some slot
        → (slot < next) × (find lets n ≡ some (slots slot))
    pub free : (n : Name) → resolve scope n ≡ none → find lets n ≡ find outer n
    pub dynamic : (n : Name) → is_dyn_name n ≡ true → find lets n ≡ find outer n

module _ {D : Type 0} {outer : Bindings D} where
  pub Agrees-Kept :
      {scope : CompileScope} {next next' : ℕ} {s s' : ℕ → Value D} {lets : Bindings D}
      → next ≤ next'
      → Kept next s s'
      → Agrees outer scope next s lets
      → Agrees outer scope next' s' lets
  Agrees-Kept h kept a = record {
    local = λ n slot r.
        let (lt, same) = a.local n slot r in (omega arith, same ∙ ap some (sym (kept slot lt)));
    free = a.free;
    dynamic = a.dynamic;
  }

  pub Agrees-push :
      {scope : CompileScope} {next : ℕ} {s : ℕ → Value D} {lets : Bindings D}
      → Agrees outer scope next s lets
      → Agrees outer ([] ∷ scope) next s lets
  unfolding resolve resolve_frame
  Agrees-push a = record { local = a.local; free = a.free; dynamic = a.dynamic }

  pub Agrees-declare :
      (frame : List (Name × ℕ)) (frames : CompileScope) (next : ℕ) (s : ℕ → Value D)
      (lets : Bindings D) (n : Name) (v : Value D)
      → is_dyn_name n ≡ false
      → Agrees outer (frame ∷ frames) next s lets
      → Agrees outer (((n, next) ∷ frame) ∷ frames) (suc next) (update s next v) ((n, v) ∷ lets)
  unfolding resolve resolve_frame find update
  Agrees-declare frame frames next s lets n v plain a = record {
    local = λ m slot r. elim (Bool-cases (bytes_eq n m)) [
      | inl same ↦
          let here : next ≡ slot = ground (arith, r) in (omega arith, rw same (ground arith))
      | inr other ↦
          let old : resolve (frame ∷ frames) m ≡ some slot = rw other at r in
          let (lt, same) = a.local m slot old in (omega arith, rw other (ground arith))
    ];
    free = λ m r. elim (Bool-cases (bytes_eq n m)) [
      | inl same ↦ ground (arith, r)
      | inr other ↦ rw other (a.free m (rw other at r))
    ];
    dynamic = λ m d. elim (Bool-cases (bytes_eq n m)) [
      | inl same ↦ ground (arith, bytes_eq-eq n m same, d, plain)
      | inr other ↦ rw other (a.dynamic m d)
    ];
  }

pub store_name-le :
    (D : Type 0) (repeated : Bool) (scope : CompileScope) (n : Name) (next : ℕ)
    → next ≤ (store_name {D = D} repeated scope n next).2
unfolding store_name
store_name-le D true scope n next = omega arith
store_name-le D false scope n next = ground arith

-- Compilation only takes slots.
module _ {D : Type 0} where
  mutual
    unfolding compile compile_all compile_assignments

    pub compile-le :
        (scope : CompileScope) (e : Expr D) (at next : ℕ) → next ≤ (compile scope e at next).1
    compile-le scope (number_literal d) at next = omega arith
    compile-le scope (boolean_literal b) at next = omega arith
    compile-le scope (string_literal s) at next = omega arith
    compile-le scope undefined_literal at next = omega arith
    compile-le scope (commented e) at next = compile-le scope e at next
    compile-le scope (identifier n) at next = omega arith
    compile-le scope (list_literal es) at next = compile_all-le scope es at next
    compile-le scope (range_literal a b c i) at next =
        omega (arith, compile-le scope a at next, compile-le scope b, compile-le scope c)
    compile-le scope (primary_index a b) at next =
        omega (arith, compile-le scope a at next, compile-le scope b)
    compile-le scope (primary_member a member) at next = compile-le scope a at next
    compile-le scope (ternary c t f) at next =
        omega (arith, compile-le scope c, compile-le scope t, compile-le scope f)
    compile-le scope (logical_and a b) at next =
        omega (arith, compile-le scope a, compile-le scope b)
    compile-le scope (logical_or a b) at next =
        omega (arith, compile-le scope a, compile-le scope b)
    compile-le scope (let_op assignments body) at next =
        let bound = compile_assignments [] ([] ∷ scope) assignments (suc at) next in
        omega (
          arith,
          compile_assignments-le [] ([] ∷ scope) assignments (suc at) next,
          compile-le bound.1 body,
        )
    compile-le scope (unary op a) at next = compile-le scope a at next
    compile-le scope (binary op a b) at next = omega (arith, compile-le scope a, compile-le scope b)

    pub compile_all-le :
        (scope : CompileScope) (es : Exprs D) (at next : ℕ)
        → next ≤ (compile_all scope es at next).1
    compile_all-le scope no_exprs at next = omega arith
    compile_all-le scope (expr e es) at next =
        omega (arith, compile-le scope e, compile_all-le scope es)

    pub compile_assignments-le :
        (seen : List Name) (scope : CompileScope) (assignments : Assignments D) (at next : ℕ)
        → next ≤ (compile_assignments seen scope assignments at next).2
    compile_assignments-le seen scope no_assignments at next = omega arith
    compile_assignments-le seen scope (assign n e rest) at next =
        let a = compile scope e at next in
        let store = store_name {D = D} (is_repeated seen n) scope n a.1 in
        omega (
          arith,
          compile-le scope e,
          store_name-le D (is_repeated seen n) scope n a.1,
          compile_assignments-le (n ∷ seen) store.1 rest,
        )
