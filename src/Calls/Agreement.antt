-- ===== src/Calls/Agreement.antt =====
-- The frame of a compiled call (src/bytecode_vm.cpp) against the context of the tree walk
-- (src/user_calls.cpp): when the arguments are bound, and when the body runs.
use openscad_cpp_evaluator.Prelude.{
  ℕ, suc, ◌+◌, ◌≤◌, ◌≡◌, refl, ap, arith, true, false, List, [], ◌∷◌, none, some, inl, inr,
  if◌then◌else◌, length, Bool-cases, Option-cases,
}
use openscad_cpp_evaluator.Value.{Doubles, Value}
use openscad_cpp_evaluator.Expression.{
  Name, Expr, Bindings, find, Globals, Context, is_dyn_name, bind_params, eval,
}
use openscad_cpp_evaluator.Expression.Contexts.{eval-AreAlike}
use openscad_cpp_evaluator.Machine.{Frame, run, new_frame, frame_result}
use openscad_cpp_evaluator.Bytecode.{CompileScope, resolve, resolve_frame, compile}
use openscad_cpp_evaluator.Bytecode.Plain.{HasPlainLets}
use openscad_cpp_evaluator.Bytecode.Reach.{Stands-self, run-Reach}
use openscad_cpp_evaluator.Bytecode.Runs.{state}
use openscad_cpp_evaluator.Bytecode.Scopes.{Agrees, compile-le}
use openscad_cpp_evaluator.Bytecode.Simulation.{simulate_lem}
use openscad_cpp_evaluator.Arguments.{Parameter, BoundArgs, is_bound}
use openscad_cpp_evaluator.Arguments.Frames.{Param, names_of, compile_params, ArgFrame}
use openscad_cpp_evaluator.Arguments.Layout.{IsLayout}
use openscad_cpp_evaluator.Arguments.Latest.{latest, latest-of, to_true, as_given, AreBound}
use openscad_cpp_evaluator.Arguments.Entries.{IsKeyed}
use openscad_cpp_evaluator.Arguments.Walk.{find-bind_params}
use openscad_cpp_evaluator.Calls.{compile_default, compile_defaults}
use openscad_cpp_evaluator.Calls.Defaults.{Inv}

-- The context of a call that sees no lexical names of its caller.
abbrev pub isolated : {D : Type 0} → Bindings D → Context D
isolated dyn = record { lets = []; dyn = dyn }

-- The compiled parameters keep their names.
pub names_of-compile_params :
    (names : List Name) (next : ℕ) → names_of (compile_params names next) ≡ names
unfolding compile_params
names_of-compile_params [] next = refl
names_of-compile_params (n ∷ names) next =
    ap (λ (ns : List Name). n ∷ ns)
      (names_of-compile_params names (if is_dyn_name n then next else suc next))

pub compile_defaults-le :
    {D : Type 0} (params : List (Parameter D)) (next : ℕ) → next ≤ (compile_defaults params next).1
unfolding compile_defaults compile_default
compile_defaults-le [] next = omega arith
compile_defaults-le (p ∷ params) next = elim (Option-cases p.default_value) [
  | inl missing ↦ rw missing (compile_defaults-le params next)
  | inr (e, present) ↦
      rw present
        (omega (arith, compile-le [] e 0 next, compile_defaults-le params (compile [] e 0 next).1))
]

module _ {D : Type 0} (params : List Param) (layout : IsLayout params)
    (made : List (Name × Value D)) (bound : BoundArgs D) (keyed : IsKeyed bound)
    (last : (k : Name) → find bound k ≡ latest some made k none) (dyn : Bindings D)
    (f g : ArgFrame D) (no_flags : (i : ℕ) → f.bound i ≡ false) (same_dyn : f.dyn ≡ dyn)
    (b : AreBound params made f g) where
  -- When the arguments are bound, the frame agrees with the walk's context.
  pub bound-Inv : Inv params layout bound [] 0 g (bind_params (isolated dyn) bound)
  unfolding resolve_frame find
  bound-Inv = record {
    flags = λ j q there. ground (
      arith,
      b.flags j q there,
      latest-of to_true made q.name (f.bound j),
      last q.name,
      no_flags j,
    );
    given = λ j q there free has. ground (
      arith,
      (find-bind_params bound (isolated dyn) q.name keyed).0,
      b.filled j q there free,
      latest-of as_given made q.name (f.slots q.slot),
      last q.name,
      layout.marked j q there,
    );
    local = λ n slot h. cc;
    free = λ n h absent. ground (arith, (find-bind_params bound (isolated dyn) n keyed).0);
    dynamic = λ n d. ground (arith, (find-bind_params bound (isolated dyn) n keyed).0);
    dyn = λ k d. ground (
      arith,
      (find-bind_params bound (isolated dyn) k keyed).1,
      b.dynamic k d,
      latest-of some made k (find f.dyn k),
      last k,
      ap (λ t. find t k) same_dyn,
    );
  }

-- The frame that the body runs in, against the walk's context.
module _ {D : Type 0} (params : List Param) (layout : IsLayout params) (bound : BoundArgs D) where
  pub Inv-Agrees :
      (names : List (Name × ℕ)) (next next' : ℕ) (g : ArgFrame D) (c : Context D)
      → Inv params layout bound names next g c
      → ((n : Name)
          → resolve_frame names n ≡ none
          → is_dyn_name n ≡ false
          → is_bound bound n ≡ false)
      → next ≤ next'
      → Agrees [] (names ∷ []) next' g.slots c.lets
  unfolding resolve find
  Inv-Agrees names next next' g c v unbound le = record {
    local = λ n slot h.
        let here : resolve_frame names n ≡ some slot = ground (arith, h) in
        let (lt, value) = v.local n slot here in (omega arith, value);
    free = λ n h.
        let missing : resolve_frame names n ≡ none = ground (arith, h) in
        elim (Bool-cases (is_dyn_name n)) [
          | inl dynamic ↦ v.dynamic n dynamic
          | inr plain ↦ v.free n missing (unbound n missing plain)
        ];
    dynamic = v.dynamic;
  }

module _ {D : Type 0} (double : Doubles D) (globals : Globals D) where
  -- Compiled code in a frame that agrees with a context gives what the walk gives in the context.
  pub run-Agrees :
      (scope : CompileScope) (next : ℕ) (g : ArgFrame D) (c : Context D) (body : Expr D)
      → HasPlainLets body
      → Agrees [] scope next g.slots c.lets
      → ((k : Name) → is_dyn_name k ≡ true → find g.dyn k ≡ find c.dyn k)
      → (fuel : ℕ) × (h : Frame D) × (run double globals [] fuel
            (compile scope body 0 next).0
            (new_frame g.slots g.dyn)
          ≡ some h)
        × ((frame_result h, h.warnings) ≡ eval double globals c body)
  unfolding frame_result
  run-Agrees scope next g c body plain agree alike =
      let code = (compile scope body 0 next).0 in
      let runs =
        simulate_lem double globals [] g.dyn code body plain scope 0 next c.lets [] g.slots []
          (Stands-self [] code) agree in
      let (fuel, same) = run-Reach double globals [] code runs.reach (ground arith) in
      let inner : Context D = record { lets = c.lets; dyn = g.dyn } in
      let r = eval double globals inner body in
      (
        fuel,
        state double globals [] g.dyn code (0 + length code) (r.0 ∷ []) runs.slots' r.1,
        same,
        eval-AreAlike double globals inner c (record { lets = λ k. refl; dyn = alike }) body,
      )
