-- ===== src/Calls/Filling.antt =====
-- All defaults of a call: the loop of `applyCompiledDefaultsToFrame` (src/bytecode_vm.cpp) against that
-- of `applyDefaults` (src/user_calls.cpp).
use openscad_cpp_evaluator.Prelude.{
  ℕ, suc, ◌+◌, ◌≡◌, refl, ◌∙◌, arith, true, false, List, [], ◌∷◌, ◌++◌, Option, some, inl, inr,
  Bool-cases,
}
use openscad_cpp_evaluator.Value.{Doubles, Value}
use openscad_cpp_evaluator.Operators.{Warning}
use openscad_cpp_evaluator.Expression.{
  Name, Globals, Context, WarnedContext, is_dyn_name, bind_let_name, find,
}
use openscad_cpp_evaluator.Machine.{Instruction}
use openscad_cpp_evaluator.Bytecode.{declare_params, declare}
use openscad_cpp_evaluator.Arguments.{
  Parameter, param_names, BoundArgs, is_bound, default_of, apply_defaults,
}
use openscad_cpp_evaluator.Arguments.Frames.{Param, compile_params, ArgFrame}
use openscad_cpp_evaluator.Arguments.Layout.{IsLayout, IsRest, IsRest-first, IsRest-later}
use openscad_cpp_evaluator.Calls.{
  compile_default, compile_defaults, fill_param, run_default, apply_compiled_defaults,
}
use openscad_cpp_evaluator.Calls.Fuel.{run_default-more, apply_compiled_defaults-more}
use openscad_cpp_evaluator.Calls.Defaults.{
  IsPlainDefault, run_default-eval, Inv, keep-plain, fill-dynamic, fill-plain,
}

-- No default has a `let` that binds a name with a `$`.
abbrev pub ArePlainDefaults : {D : Type 0} → List (Parameter D) → Type 0
ArePlainDefaults [] = Unit
ArePlainDefaults (p ∷ params) = IsPlainDefault p.default_value × ArePlainDefaults params

module _ {D : Type 0} (double : Doubles D) (globals : Globals D) (params : List Param)
    (layout : IsLayout params) (bound : BoundArgs D) where
  abbrev walked : List (Parameter D) → Context D → WarnedContext D
  walked left c = apply_defaults double globals left bound c

  -- With some fuel the loop ends, gives the warnings of the walk, and leaves a frame that agrees with
  -- the walk's context.
  pub record Filled (left : List (Parameter D)) (i next free_slot : ℕ) (frame : List (Name × ℕ))
      (f : ArgFrame D) (c : Context D) : Type 0 where
    pub fuel : ℕ
    pub result : ArgFrame D
    pub names : List (Name × ℕ)
    pub done :
        apply_compiled_defaults double globals [] fuel i
          (compile_params (param_names left) next)
          (compile_defaults left free_slot).0
          f
        ≡ some (result, (walked left c).1)
    pub scope : (declare_params (frame ∷ []) (param_names left) next).0 ≡ names ∷ []
    pub inv :
        Inv params layout bound names
          (declare_params (frame ∷ []) (param_names left) next).1
          result
          (walked left c).0

  module _ (i : ℕ) (p : Param) (left : List Param) (code : Option (List (Instruction D)))
      (codes : List (Option (List (Instruction D)))) (f : ArgFrame D) where
    skips :
        (fuel : ℕ)
        → f.bound i ≡ true
        → apply_compiled_defaults double globals [] fuel i (p ∷ left) (code ∷ codes) f
          ≡ apply_compiled_defaults double globals [] fuel (suc i) left codes f
    unfolding apply_compiled_defaults
    skips fuel h = rw (h, apply_compiled_defaults) refl

    fills :
        (fuel more : ℕ) {v : Value D} {ws us : List (Warning D)} {g : ArgFrame D}
        → f.bound i ≡ false
        → run_default double globals [] fuel code f ≡ some (v, f.dyn, ws)
        → apply_compiled_defaults double globals [] more (suc i) left codes (fill_param p v f)
          ≡ some (g, us)
        → apply_compiled_defaults double globals [] (fuel + more) i (p ∷ left) (code ∷ codes) f
          ≡ some (g, ws ++ us)
    unfolding apply_compiled_defaults
    fills fuel more h run rest =
        let run' = run_default-more double globals [] more fuel code f run in
        let e : more + fuel ≡ fuel + more = omega arith in
        let rest' =
          rw e at
            (apply_compiled_defaults-more double globals [] fuel more (suc i) left codes _ rest) in
        rw (apply_compiled_defaults, h, run', rest') refl

  Filled-nil :
      (i next free_slot : ℕ) (frame : List (Name × ℕ)) (f : ArgFrame D) (c : Context D)
      → Inv params layout bound frame next f c
      → Filled [] i next free_slot frame f c
  unfolding compile_params declare_params compile_defaults apply_defaults apply_compiled_defaults
  Filled-nil i next free_slot frame f c v = record {
    fuel = 0;
    result = f;
    names = frame;
    done = refl;
    scope = refl;
    inv = v;
  }

  -- One parameter, and those after it.
  module _ (p : Parameter D) (left : List (Parameter D)) (i next free_slot : ℕ)
      (frame : List (Name × ℕ)) (f : ArgFrame D) (c : Context D)
      (flag : f.bound i ≡ is_bound bound p.name) where
    abbrev after_code : ℕ
    after_code = (compile_default p.default_value free_slot).1

    abbrev value : Value D
    value = (default_of double globals p.default_value c.dyn).0

    walked-given : is_bound bound p.name ≡ true → walked (p ∷ left) c ≡ walked left c
    unfolding apply_defaults
    walked-given has = rw (apply_defaults, has) refl

    walked-absent :
        is_bound bound p.name ≡ false
        → walked (p ∷ left) c ≡ (
          (walked left (bind_let_name c p.name value)).0,
          (default_of double globals p.default_value c.dyn).1
              ++ (walked left (bind_let_name c p.name value)).1,
        )
    unfolding apply_defaults
    walked-absent absent = rw (apply_defaults, absent) refl

    Filled-skip :
        (q : Param) (next' : ℕ) (frame' : List (Name × ℕ))
        → is_bound bound p.name ≡ true
        → compile_params (p.name ∷ param_names left) next
          ≡ q ∷ compile_params (param_names left) next'
        → declare_params (frame ∷ []) (p.name ∷ param_names left) next
          ≡ declare_params (frame' ∷ []) (param_names left) next'
        → Filled left (suc i) next' after_code frame' f c
        → Filled (p ∷ left) i next free_slot frame f c
    unfolding compile_defaults
    Filled-skip q next' frame' has layout_eq scope_eq r = record {
      fuel = r.fuel;
      result = r.result;
      names = r.names;
      done =
          rw (layout_eq, walked-given has)
            (skips i q (compile_params (param_names left) next')
                (compile_default p.default_value free_slot).0 (compile_defaults left after_code).0 f
                r.fuel (flag ∙ has)
              ∙ r.done);
      scope = rw scope_eq r.scope;
      inv = rw (scope_eq, walked-given has) r.inv;
    }

    Filled-fill :
        (q : Param) (next' : ℕ) (frame' : List (Name × ℕ))
        → is_bound bound p.name ≡ false
        → compile_params (p.name ∷ param_names left) next
          ≡ q ∷ compile_params (param_names left) next'
        → declare_params (frame ∷ []) (p.name ∷ param_names left) next
          ≡ declare_params (frame' ∷ []) (param_names left) next'
        → IsPlainDefault p.default_value
        → ((k : Name) → is_dyn_name k ≡ true → find f.dyn k ≡ find c.dyn k)
        → Filled left
            (suc i)
            next'
            after_code
            frame'
            (fill_param q value f)
            (bind_let_name c p.name value)
        → Filled (p ∷ left) i next free_slot frame f c
    unfolding compile_defaults
    Filled-fill q next' frame' absent layout_eq scope_eq plain alike r =
        let (fuel, run) =
          run_default-eval double globals p.default_value free_slot f c.dyn plain alike in
        record {
          fuel = fuel + r.fuel;
          result = r.result;
          names = r.names;
          done =
              rw (layout_eq, walked-absent absent)
                (fills i q (compile_params (param_names left) next')
                  (compile_default p.default_value free_slot).0 (compile_defaults left after_code).0
                  f fuel r.fuel (flag ∙ absent) run r.done);
          scope = rw scope_eq r.scope;
          inv = rw (scope_eq, walked-absent absent) r.inv;
        }

  -- How the parameters are laid out, by whether they have a `$`.
  module _ (n : Name) (names : List Name) (next : ℕ) (frame : List (Name × ℕ)) where
    compile_params-dynamic :
        is_dyn_name n ≡ true
        → compile_params (n ∷ names) next
          ≡ record { name = n; slot = 0; is_dyn = true } ∷ compile_params names next
    unfolding compile_params
    compile_params-dynamic h = rw (compile_params, h) refl

    compile_params-plain :
        is_dyn_name n ≡ false
        → compile_params (n ∷ names) next
          ≡ record { name = n; slot = next; is_dyn = false } ∷ compile_params names (suc next)
    unfolding compile_params
    compile_params-plain h = rw (compile_params, h) refl

    declare_params-dynamic :
        is_dyn_name n ≡ true
        → declare_params (frame ∷ []) (n ∷ names) next ≡ declare_params (frame ∷ []) names next
    unfolding declare_params
    declare_params-dynamic h = rw (declare_params, h) refl

    declare_params-plain :
        is_dyn_name n ≡ false
        → declare_params (frame ∷ []) (n ∷ names) next
          ≡ declare_params (((n, next) ∷ frame) ∷ []) names (suc next)
    unfolding declare_params declare
    declare_params-plain h = rw (declare_params, h) refl

  pub apply_compiled_defaults-Filled :
      (left : List (Parameter D)) (i next free_slot : ℕ) (frame : List (Name × ℕ)) (f : ArgFrame D)
      (c : Context D)
      → ArePlainDefaults left
      → IsRest params i (compile_params (param_names left) next)
      → Inv params layout bound frame next f c
      → Filled left i next free_slot frame f c
  apply_compiled_defaults-Filled [] i next free_slot frame f c plain rest v =
      Filled-nil i next free_slot frame f c v
  apply_compiled_defaults-Filled (p ∷ left) i next free_slot frame f c plain rest v =
      let names = param_names left in
      let after = (compile_default p.default_value free_slot).1 in
      let v' = (default_of double globals p.default_value c.dyn).0 in
      elim (Bool-cases (is_dyn_name p.name)) [
        | inl dynamic ↦
            let q : Param = record { name = p.name; slot = 0; is_dyn = true } in
            let laid = compile_params-dynamic p.name names next frame dynamic in
            let scope = declare_params-dynamic p.name names next frame dynamic in
            let rest' : IsRest params i (q ∷ compile_params names next) = rw laid at rest in
            let here = IsRest-first params i q (compile_params names next) rest' in
            let later = IsRest-later params i q (compile_params names next) rest' in
            let flag = v.flags i q here in
            elim (Bool-cases (is_bound bound p.name)) [
              | inl has ↦
                  Filled-skip p left i next free_slot frame f c flag q next frame has laid scope (
                    apply_compiled_defaults-Filled left (suc i) next after frame f c plain.1 later
                      v)
              | inr absent ↦
                  Filled-fill p left i next free_slot frame f c flag q next frame absent laid scope
                    plain.0 v.dyn
                    (apply_compiled_defaults-Filled left (suc i) next after frame _ _ plain.1 later
                      (fill-dynamic params layout bound i q v' here refl v))
            ]
        | inr free ↦
            let q : Param = record { name = p.name; slot = next; is_dyn = false } in
            let laid = compile_params-plain p.name names next frame free in
            let scope = declare_params-plain p.name names next frame free in
            let rest' : IsRest params i (q ∷ compile_params names (suc next)) = rw laid at rest in
            let here = IsRest-first params i q (compile_params names (suc next)) rest' in
            let later = IsRest-later params i q (compile_params names (suc next)) rest' in
            let flag = v.flags i q here in
            let frame' = (p.name, next) ∷ frame in
            elim (Bool-cases (is_bound bound p.name)) [
              | inl has ↦
                  Filled-skip p left i next free_slot frame f c flag q (suc next) frame' has laid
                    scope
                    (apply_compiled_defaults-Filled left (suc i) (suc next) after frame' f c plain.1
                      later (keep-plain params layout bound i q here refl refl has v))
              | inr absent ↦
                  Filled-fill p left i next free_slot frame f c flag q (suc next) frame' absent laid
                    scope plain.0 v.dyn
                    (apply_compiled_defaults-Filled left (suc i) (suc next) after frame' _ _ plain.1
                      later (fill-plain params layout bound i q v' here refl refl absent v))
            ]
      ]
