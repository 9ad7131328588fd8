-- ===== src/Calls/Defaults.antt =====
-- Defaults of parameters in compiled calls (`applyCompiledDefaultsToFrame` of src/bytecode_vm.cpp)
-- against those of the tree walk (`applyDefaults` of src/user_calls.cpp).
use openscad_cpp_evaluator.Prelude.{
  ℕ, suc, ◌<◌, ◌≡◌, refl, ap, arith, true, false, List, [], ◌∷◌, Option, none, some, inl, inr, ◌==◌,
  if◌then◌else◌, get_elem?, Bool-cases,
}
use mathlib.Core.Option.{some-injective}
use openscad_cpp_evaluator.Prelude.Bytes.{bytes_eq, bytes_eq-eq}
use openscad_cpp_evaluator.Value.{Doubles, Value}
use openscad_cpp_evaluator.Expression.{
  Name, Expr, Bindings, find, is_dyn_name, Globals, Context, bind_let_name,
}
use openscad_cpp_evaluator.Expression.Contexts.{eval-AreAlike, find-bind_let_name}
use openscad_cpp_evaluator.Machine.{Instruction, Frame, update, run, new_frame, frame_result}
use openscad_cpp_evaluator.Bytecode.{resolve, resolve_frame, compile}
use openscad_cpp_evaluator.Bytecode.Plain.{HasPlainLets}
use openscad_cpp_evaluator.Bytecode.Reach.{Stands-self, run-Reach}
use openscad_cpp_evaluator.Bytecode.Scopes.{Agrees}
use openscad_cpp_evaluator.Bytecode.Simulation.{simulate_lem}
use openscad_cpp_evaluator.Arguments.{BoundArgs, is_bound, default_of}
use openscad_cpp_evaluator.Arguments.Frames.{Param, ArgFrame}
use openscad_cpp_evaluator.Arguments.Layout.{IsLayout}
use openscad_cpp_evaluator.Calls.{compile_default, fill_param, run_default}

-- The default of a parameter, if it has one, has no `let` that binds a name with a `$`.
abbrev pub IsPlainDefault : {D : Type 0} → Option (Expr D) → Type 0
IsPlainDefault none = Unit
IsPlainDefault (some e) = HasPlainLets e

module _ {D : Type 0} (double : Doubles D) (globals : Globals D) where
  no_names : (next : ℕ) (slots : ℕ → Value D) → Agrees [] [] next slots []
  unfolding resolve
  no_names next slots = record { local = λ n slot h. cc; free = λ n h. refl; dynamic = λ n h. refl }

  run_default-done :
      (fuel : ℕ) (code : List (Instruction D)) (f : ArgFrame D) {g : Frame D}
      → run double globals [] fuel code (new_frame f.slots f.dyn) ≡ some g
      → run_default double globals [] fuel (some code) f ≡ some (frame_result g, g.dyn, g.warnings)
  unfolding run_default
  run_default-done fuel code f h = rw (run_default, h) refl

  -- The code of a default gives what the walk gives for it, and leaves the names with a `$`.
  pub run_default-eval :
      (o : Option (Expr D)) (next : ℕ) (f : ArgFrame D) (dyn : Bindings D)
      → IsPlainDefault o
      → ((k : Name) → is_dyn_name k ≡ true → find f.dyn k ≡ find dyn k)
      → (fuel : ℕ) × (run_default double globals [] fuel (compile_default o next).0 f
          ≡ some ((default_of double globals o dyn).0, f.dyn, (default_of double globals o dyn).1))
  unfolding run_default compile_default default_of frame_result
  run_default-eval none next f dyn plain alike = (0, refl)
  run_default-eval (some e) next f dyn plain alike =
      let code = (compile [] e 0 next).0 in
      let runs =
        simulate_lem double globals [] f.dyn code e plain [] 0 next [] [] f.slots []
          (Stands-self [] code) (no_names next f.slots) in
      let (fuel, same) = run-Reach double globals [] code runs.reach (ground arith) in
      let walk =
        eval-AreAlike double globals (record { lets = []; dyn = f.dyn })
          (record { lets = []; dyn = dyn }) (record { lets = λ k. refl; dyn = alike }) e in
      (fuel, rw (← walk) (run_default-done fuel code f same))

module _ {D : Type 0} (params : List Param) (layout : IsLayout params) (bound : BoundArgs D) where
  -- The frame of a call against the context of the walk, when the parameters in `frame` have their
  -- values and the others have them if an argument gave them.
  pub record Inv (frame : List (Name × ℕ)) (next : ℕ) (f : ArgFrame D) (c : Context D)
      : Type 0 where
    pub flags :
        (j : ℕ) (q : Param) → get_elem? params j ≡ some q → f.bound j ≡ is_bound bound q.name
    pub given :
        (j : ℕ) (q : Param)
        → get_elem? params j ≡ some q
        → q.is_dyn ≡ false
        → is_bound bound q.name ≡ true
        → find c.lets q.name ≡ some (f.slots q.slot)
    pub local :
        (n : Name) (slot : ℕ)
        → resolve_frame frame n ≡ some slot
        → (slot < next) × (find c.lets n ≡ some (f.slots slot))
    pub free :
        (n : Name) → resolve_frame frame n ≡ none → is_bound bound n ≡ false → find c.lets n ≡ none
    pub dynamic : (n : Name) → is_dyn_name n ≡ true → find c.lets n ≡ none
    pub dyn : (k : Name) → is_dyn_name k ≡ true → find f.dyn k ≡ find c.dyn k

  -- A parameter without a `$` that an argument gave.
  pub keep-plain :
      {frame : List (Name × ℕ)} {next : ℕ} {f : ArgFrame D} {c : Context D} (i : ℕ) (p : Param)
      → get_elem? params i ≡ some p
      → p.is_dyn ≡ false
      → p.slot ≡ next
      → is_bound bound p.name ≡ true
      → Inv frame next f c
      → Inv ((p.name, next) ∷ frame) (suc next) f c
  unfolding resolve_frame
  keep-plain {next = next} {f = f} {c = c} i p here plain slot has v = record {
    flags = v.flags;
    given = v.given;
    local = λ n place h. elim (Bool-cases (bytes_eq p.name n)) [
      | inl same ↦
          let e = bytes_eq-eq p.name n same in
          let at_next : some next ≡ some place = rw same at h in
          let stored : find c.lets p.name ≡ some (f.slots p.slot) = v.given i p here plain has in
          let number : next ≡ place = some-injective next place at_next in
          (omega arith, rw (← e, ← number, ← slot) stored)
      | inr other ↦ let (lt, value) = v.local n place (rw other at h) in (omega arith, value)
    ];
    free = λ n h absent. elim (Bool-cases (bytes_eq p.name n)) [
      | inl same ↦ let no_way : some next ≡ none = rw same at h in cc
      | inr other ↦ v.free n (rw other at h) absent
    ];
    dynamic = v.dynamic;
    dyn = v.dyn;
  }

  -- A parameter with a `$` that no argument gave.
  pub fill-dynamic :
      {frame : List (Name × ℕ)} {next : ℕ} {f : ArgFrame D} {c : Context D} (i : ℕ) (p : Param)
      (v : Value D)
      → get_elem? params i ≡ some p
      → p.is_dyn ≡ true
      → Inv frame next f c
      → Inv frame next (fill_param p v f) (bind_let_name c p.name v)
  unfolding fill_param bind_let_name find
  fill-dynamic i p v here dynamic w =
      let named : is_dyn_name p.name ≡ true = ground (arith, layout.marked i p here) in
      rw (dynamic, named)
        (record {
          flags = w.flags;
          given = w.given;
          local = w.local;
          free = w.free;
          dynamic = w.dynamic;
          dyn = λ k d. ap (λ o. if bytes_eq p.name k then some v else o) (w.dyn k d);
        })

  fill_param-slots :
      (p : Param) (v : Value D) (f : ArgFrame D) (k : ℕ)
      → p.is_dyn ≡ false
      → (fill_param p v f).slots k ≡ (if p.slot == k then v else f.slots k)
  unfolding fill_param update
  fill_param-slots p v f k plain = rw plain refl

  fill_param-dyn :
      (p : Param) (v : Value D) (f : ArgFrame D) → p.is_dyn ≡ false → (fill_param p v f).dyn ≡ f.dyn
  unfolding fill_param
  fill_param-dyn p v f plain = rw plain refl

  fill_param-bound : (p : Param) (v : Value D) (f : ArgFrame D) → (fill_param p v f).bound ≡ f.bound
  unfolding fill_param
  fill_param-bound p v f = refl

  -- A parameter that an argument gave has a slot of its own.
  given-elsewhere :
      (i j : ℕ) (p q : Param)
      → get_elem? params i ≡ some p
      → get_elem? params j ≡ some q
      → p.is_dyn ≡ false
      → q.is_dyn ≡ false
      → is_bound bound p.name ≡ false
      → is_bound bound q.name ≡ true
      → ((p.slot == q.slot) ≡ false) × (bytes_eq p.name q.name ≡ false)
  given-elsewhere i j p q here there plain free absent has = (
    elim (Bool-cases (p.slot == q.slot)) [
      | inl same ↦
          let e : p.slot ≡ q.slot = ground arith in
          let place : i ≡ j = layout.distinct i j p q here there plain free e in
          let one : some p ≡ some q = rw (← here, ← there, place) refl in
          let no_way : is_bound bound q.name ≡ false = rw (← some-injective p q one) absent in cc
      | inr other ↦ other
    ],
    elim (Bool-cases (bytes_eq p.name q.name)) [
      | inl same ↦
          let no_way : is_bound bound q.name ≡ false =
            rw (← bytes_eq-eq p.name q.name same) absent in
          cc
      | inr other ↦ other
    ],
  )

  -- A parameter without a `$` that no argument gave.
  pub fill-plain :
      {frame : List (Name × ℕ)} {next : ℕ} {f : ArgFrame D} {c : Context D} (i : ℕ) (p : Param)
      (v : Value D)
      → get_elem? params i ≡ some p
      → p.is_dyn ≡ false
      → p.slot ≡ next
      → is_bound bound p.name ≡ false
      → Inv frame next f c
      → Inv ((p.name, next) ∷ frame) (suc next) (fill_param p v f) (bind_let_name c p.name v)
  unfolding resolve_frame
  fill-plain {frame} {next} {f} {c} i p v here plain slot absent w =
      let named : is_dyn_name p.name ≡ false = ground (arith, layout.marked i p here) in
      let lets = λ (n : Name). (find-bind_let_name c p.name v n).0 in
      let others = λ (n : Name). (find-bind_let_name c p.name v n).1 in
      let slots = λ (k : ℕ). fill_param-slots p v f k plain in
      record {
        flags = λ j q there. rw (fill_param-bound p v f) (w.flags j q there);
        given = λ j q there free has.
            let apart = given-elsewhere i j p q here there plain free absent has in
            ground (arith, apart.0, apart.1, slots q.slot, lets q.name, w.given j q there free has);
        local = λ n place h. elim (Bool-cases (bytes_eq p.name n)) [
          | inl same ↦
              let number : some next ≡ some place = rw same at h in
              let at_next = some-injective next place number in
              (omega arith, ground (arith, slots place, lets n, named, same, slot, at_next))
          | inr other ↦
              let (lt, value) = w.local n place (rw other at h) in
              (omega arith, ground (arith, slots place, lets n, other, value, lt, slot))
        ];
        free = λ n h missing. elim (Bool-cases (bytes_eq p.name n)) [
          | inl same ↦ let no_way : some next ≡ none = rw same at h in cc
          | inr other ↦ ground (arith, lets n, w.free n (rw other at h) missing)
        ];
        dynamic = λ n d. elim (Bool-cases (bytes_eq p.name n)) [
          | inl same ↦
              let no_way : is_dyn_name n ≡ false = rw (bytes_eq-eq p.name n same) at named in cc
          | inr other ↦ ground (arith, lets n, w.dynamic n d)
        ];
        dyn = λ k d. rw (fill_param-dyn p v f plain) (ground (arith, others k, named, w.dyn k d));
      }
