-- ===== src/Bytecode/Leak.antt =====
-- A `let` that binds a name with a `$`, compiled by src/bytecode_compiler.cpp to `StoreDyn`.
use openscad_cpp_evaluator.Prelude.{ℕ, ◌≡◌, refl, true, [], ◌∷◌, none, some}
use openscad_cpp_evaluator.Value.{Doubles, Value, number}
use openscad_cpp_evaluator.Value.Matrix.{list_value}
use openscad_cpp_evaluator.Expression.{
  Name, Expr, number_literal, identifier, list_literal, let_op, no_exprs, expr, no_assignments,
  assign, Bindings, find, is_dyn_name, is_repeated, Globals, eval_identifier, eval, assign_name,
  bind_let_name,
}
use openscad_cpp_evaluator.Bytecode.{
  compile_identifier_load, store_name, compile, compile_all, compile_assignments,
}
use openscad_cpp_evaluator.Machine.{
  Frame, clear, pop_items, load_dyn_value, execute, step, push_const, load_dyn, store_dyn,
  build_list, open_local_scope,
}
use openscad_cpp_evaluator.Bytecode.Pushes.{context}
use openscad_cpp_evaluator.Prelude.Bytes.{bytes_eq_refl}
use openscad_cpp_evaluator.Bytecode.{compile_function_like, declare_params}
use openscad_cpp_evaluator.Machine.{new_frame, run, frame_result}

-- `[let($a = d) $a, $a]`.
abbrev pub twice : {D : Type 0} → Name → D → Expr D
twice n d = list_literal (
    expr (let_op (assign n (number_literal d) no_assignments) (identifier n))
      (expr (identifier n) no_exprs))

module _ {D : Type 0} (double : Doubles D) (globals : Globals D) (outer dyn : Bindings D) where
  twice-code :
      (n : Name) (d : D)
      → is_dyn_name n ≡ true
      → (compile_function_like [] (twice n d)).0
        ≡ open_local_scope 0 0
          ∷ push_const (number d)
          ∷ store_dyn n
          ∷ load_dyn n
          ∷ load_dyn n
          ∷ build_list 2
          ∷ []
  unfolding compile_function_like declare_params compile compile_all compile_assignments store_name
      is_repeated compile_identifier_load
  twice-code n d h = rw h refl

  bound-load :
      (n : Name) (v : Value D) (below : Bindings D)
      → find outer n ≡ none
      → load_dyn_value double globals outer ((n, v) ∷ below) n ≡ (v, [])
  unfolding load_dyn_value find
  bound-load n v below h = rw (load_dyn_value, h, bytes_eq_refl n) refl

  abbrev leaked : Name → D → (ℕ → Value D) → Frame D
  leaked n d slots = record {
    pc = 6;
    stack = list_value (number d ∷ number d ∷ []) ∷ [];
    slots = clear slots 0 0;
    dyn = (n, number d) ∷ dyn;
    warnings = [];
  }

  twice-run :
      (n : Name) (d : D) (slots : ℕ → Value D)
      → find outer n ≡ none
      → run double globals outer 7
          (open_local_scope 0 0
            ∷ push_const (number d)
            ∷ store_dyn n
            ∷ load_dyn n
            ∷ load_dyn n
            ∷ build_list 2
            ∷ [])
          (new_frame slots dyn)
        ≡ some (leaked n d slots)
  unfolding run step execute pop_items
  twice-run n d slots h = rw (bound-load n (number d) dyn h) refl

  eval_identifier-dyn :
      (n : Name) (v : Value D) (lets below : Bindings D)
      → is_dyn_name n ≡ true
      → find lets n ≡ none
      → find below n ≡ some v
      → eval_identifier double globals (context below lets) n ≡ (v, [])
  unfolding eval_identifier
  eval_identifier-dyn n v lets below dynamic free bound =
      rw (eval_identifier, free) (rw (dynamic, bound) refl)

  eval-twice :
      (n : Name) (d : D) (v : Value D)
      → is_dyn_name n ≡ true
      → find outer n ≡ none
      → find dyn n ≡ some v
      → eval double globals (context dyn outer) (twice n d) ≡ (list_value (number d ∷ v ∷ []), [])
  unfolding eval is_repeated assign_name bind_let_name find
  eval-twice n d v dynamic free bound =
      let inner : find ((n, number d) ∷ dyn) n ≡ some (number d) = rw (bytes_eq_refl n) refl in
      rw
        (
          bind_let_name,
          dynamic,
          eval_identifier-dyn n (number d) outer ((n, number d) ∷ dyn) dynamic free inner,
          eval_identifier-dyn n v outer dyn dynamic free bound,
        )
        refl

  -- The value of a name with a `$` that a `let` binds stays after the `let` in compiled code: of the list
  -- of `let($a = d) $a` and `$a`, the tree walk gives d and the outer value of `$a`, and the compiled
  -- function gives d twice, for every such name that has an outer value and no lexical one.
  pub twice-leaks :
      (n : Name) (d : D) (v : Value D) (slots : ℕ → Value D)
      → is_dyn_name n ≡ true
      → find outer n ≡ none
      → find dyn n ≡ some v
      → (eval double globals (context dyn outer) (twice n d) ≡ (list_value (number d ∷ v ∷ []), []))
        × ((fuel : ℕ) × (f : Frame D) × (run double globals outer fuel
                (compile_function_like [] (twice n d)).0
                (new_frame slots dyn)
              ≡ some f)
            × (frame_result f ≡ list_value (number d ∷ number d ∷ [])))
  unfolding frame_result
  twice-leaks n d v slots dynamic free bound = (
    eval-twice n d v dynamic free bound,
    (7, leaked n d slots, rw (twice-code n d dynamic) (twice-run n d slots free), refl),
  )
