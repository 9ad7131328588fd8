-- ===== src/Calls/Expected.antt =====
-- Calls whose arguments all belong to a parameter or to a name with a `$` other than `$children`: neither engine warns of them
-- (`bindArgs` of src/user_calls.cpp, `bindAstArgsIntoFrame` of src/bytecode_vm.cpp).
use openscad_cpp_evaluator.Prelude.{
  ℕ, zero, suc, ◌≡◌, refl, ◌∙◌, arith, true, false, ◌||◌, List, [], ◌∷◌, Option, none, some, inl,
  inr, if◌then◌else◌, get_elem?, drop, Bool-cases,
}
use openscad_cpp_evaluator.Prelude.Bytes.{bytes_eq, bytes_eq-eq}
use mathlib.Core.Option.{some-injective}
use openscad_cpp_evaluator.Value.{Doubles, Value}
use openscad_cpp_evaluator.Expression.{Name, Globals, Context, is_dyn_name, eval}
use openscad_cpp_evaluator.Bytecode.{declare_params, declare, resolve_frame}
use openscad_cpp_evaluator.Arguments.{
  Argument, positional, named, BoundArgs, is_config_variable, declares_param, set_bound, warn_named,
  bind_args_from, bind_args,
}
use openscad_cpp_evaluator.Arguments.Frames.{
  Param, names_of, ArgFrame, set_param, set_first, warn_first, first_named, bind_ast_args_from,
  bind_ast_args_into_frame,
}
use openscad_cpp_evaluator.Arguments.ByTree.{evaluated, declares_param-get}
use openscad_cpp_evaluator.Arguments.Latest.{assignments, latest, drop-some}

-- `index` positional arguments came before.
abbrev pub AreExpected : {D : Type 0} → List Name → ℕ → List (Argument D) → Type 0
AreExpected params index [] = Unit
AreExpected params index (named n e ∷ args) =
    ((declares_param params n || is_config_variable n) ≡ true) × AreExpected params index args
AreExpected params index (positional e ∷ args) =
    ((p : Name) × (get_elem? params index ≡ some p)) × AreExpected params (suc index) args

warn_first-expected :
    (D : Type 0) (params : List Param) (n : Name) (i : ℕ)
    → (declares_param (names_of params) n || is_config_variable n) ≡ true
    → warn_first {D = D} (first_named params n i) n ≡ []
unfolding first_named declares_param
warn_first-expected D [] n i h = ground arith
warn_first-expected D (p ∷ params) n i h = elim (Bool-cases (bytes_eq p.name n)) [
  | inl same ↦ rw same refl
  | inr other ↦ rw other (warn_first-expected D params n (suc i) (rw other at h))
]

warn_named-expected :
    (D : Type 0) (params : List Name) (n : Name)
    → (declares_param params n || is_config_variable n) ≡ true
    → warn_named {D = D} params n ≡ []
unfolding warn_named
warn_named-expected D params n h = ground arith

get_elem?-some :
    (params : List Param) (i : ℕ) {n : Name}
    → get_elem? (names_of params) i ≡ some n
    → (p : Param) × (get_elem? params i ≡ some p) × (p.name ≡ n)
get_elem?-some [] i h = cc
get_elem?-some (p ∷ params) zero {n} h = (p, refl, some-injective p.name n h)
get_elem?-some (p ∷ params) (suc i) h = get_elem?-some params i h

module _ {D : Type 0} (double : Doubles D) (globals : Globals D) (caller : Context D)
    (params : List Param) where
  same_warnings :
      (index : ℕ) (args : List (Argument D)) (bound : BoundArgs D) (f : ArgFrame D)
      → AreExpected (names_of params) index args
      → (bind_ast_args_from double globals caller params index args f).1
        ≡ (bind_args_from double globals caller (names_of params) index args bound).1
  unfolding bind_ast_args_from bind_args_from warn_named
  same_warnings index [] bound f h = refl
  same_warnings index (named n e ∷ args) bound f h =
      let quiet : warn_named {D = D} (names_of params) n ≡ [] =
        warn_named-expected D (names_of params) n h.0 in
      let v = (eval double globals caller e).0 in
      rw
        (
          quiet,
          warn_first-expected D params n 0 h.0,
          same_warnings index args (set_bound bound n v) (set_first (first_named params n 0) n v f)
              h.1,
        )
        refl
  same_warnings index (positional e ∷ args) bound f (here, h) =
      let (p, found, same) = get_elem?-some params index here.1 in
      let v = (eval double globals caller e).0 in
      rw (bind_ast_args_from, bind_args_from, found, here.1)
        (rw (same_warnings (suc index) args (set_bound bound here.0 v) (set_param p index v f) h)
          refl)

  -- The two engines warn alike.
  pub bind_ast_args_into_frame-bind_args :
      (args : List (Argument D)) (f : ArgFrame D)
      → AreExpected (names_of params) 0 args
      → (bind_ast_args_into_frame double globals caller params args f).1
        ≡ (bind_args double globals caller (names_of params) args).1
  unfolding bind_ast_args_into_frame bind_args
  bind_ast_args_into_frame-bind_args args f h = same_warnings 0 args [] f h

module _ {D : Type 0} (double : Doubles D) (globals : Globals D) (caller : Context D) where
  -- Nothing is assigned to a name without a `$` that is no parameter.
  pub latest-unexpected :
      (params : List Name) (index : ℕ) (args : List (Argument D)) (k : Name) (o : Option (Value D))
      → AreExpected params index args
      → declares_param params k ≡ false
      → is_dyn_name k ≡ false
      → latest some (assignments (drop index params) (evaluated double globals caller args)) k o ≡ o
  unfolding latest assignments evaluated is_config_variable
  latest-unexpected params index [] k o h absent plain = refl
  latest-unexpected params index (named n e ∷ args) k o h absent plain =
      let v = (eval double globals caller e).0 in
      let apart : bytes_eq n k ≡ false = elim (Bool-cases (bytes_eq n k)) [
        | inl same ↦
            let known = rw (bytes_eq-eq n k same) at (h.0) in ground (arith, known, absent, plain)
        | inr other ↦ other
      ] in
      let skip : (if bytes_eq n k then some v else o) ≡ o = rw apart refl in
      latest-unexpected params index args k _ h.1 absent plain ∙ skip
  latest-unexpected params index (positional e ∷ args) k o h absent plain =
      let v = (eval double globals caller e).0 in
      let skip : (if bytes_eq h.0.0 k then some v else o) ≡ o =
        rw (declares_param-get params index k h.0.1 absent) refl in
      rw (drop-some params index h.0.1)
        (latest-unexpected params (suc index) args k _ h.1 absent plain ∙ skip)

-- A name that the scope of the parameters does not have is none of them.
pub resolve_frame-undeclared :
    (names : List Name) (next : ℕ) (frame result : List (Name × ℕ)) (n : Name)
    → (declare_params (frame ∷ []) names next).0 ≡ result ∷ []
    → resolve_frame result n ≡ none
    → is_dyn_name n ≡ false
    → (declares_param names n ≡ false) × (resolve_frame frame n ≡ none)
unfolding declare_params declare declares_param resolve_frame
resolve_frame-undeclared [] next frame result n e h plain =
    let same : frame ≡ result = cc in (refl, rw same h)
resolve_frame-undeclared (m ∷ names) next frame result n e h plain =
    elim (Bool-cases (is_dyn_name m)) [
      | inl dynamic ↦
          let rest = resolve_frame-undeclared names next frame result n (rw dynamic at e) h plain in
          let apart : bytes_eq m n ≡ false = elim (Bool-cases (bytes_eq m n)) [
            | inl same ↦
                let no_way : is_dyn_name n ≡ true = rw (bytes_eq-eq m n same) at dynamic in cc
            | inr other ↦ other
          ] in
          (rw apart rest.0, rest.1)
      | inr free ↦
          let rest =
            resolve_frame-undeclared names (suc next) ((m, next) ∷ frame) result n (rw free at e) h
              plain in
          (ground (arith, rest.0, rest.1), ground (arith, rest.1))
    ]
