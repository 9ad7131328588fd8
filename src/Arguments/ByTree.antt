-- ===== src/Arguments/ByTree.antt =====
-- The binding of arguments that are evaluated one by one (`bindAstArgsIntoFrame` of
-- src/bytecode_vm.cpp) against what a binding promises: it fills one parameter of a name only.
use openscad_cpp_evaluator.Prelude.{
  ℕ, zero, suc, ◌≡◌, ◌≢◌, refl, sym, ap, ◌∙◌, arith, true, false, List, [], ◌∷◌, none, some, ◌==◌,
  get_elem?, drop, inl, inr, Bool-cases, Option-cases,
}
use openscad_cpp_evaluator.Prelude.Bytes.{bytes_eq, bytes_eq-eq, bytes_eq_refl, bytes_eq-sym}
use mathlib.Core.Option.{some-injective}
use openscad_cpp_evaluator.Value.{Doubles, Value}
use openscad_cpp_evaluator.Expression.{Name, Expr, is_dyn_name, Globals, Context, eval}
use openscad_cpp_evaluator.Arguments.{Argument, positional, named, Supplied, declares_param}
use openscad_cpp_evaluator.Arguments.Frames.{
  Param, names_of, ArgFrame, set_param, first_named, set_first, bind_ast_args_from,
  bind_ast_args_into_frame,
}
use openscad_cpp_evaluator.Arguments.Layout.{
  IsLayout, set_param-filled, set_param-flags, set_param-dynamic, IsRest, IsRest-all, IsRest-first,
  IsRest-later,
}
use openscad_cpp_evaluator.Arguments.Latest.{
  assignments, latest, AreBound, AreBound-nil, AreBound-cons, unfound-AreBound, drop-some,
  drop-none, drop-none_nil,
}

-- No name is declared twice.
abbrev pub AreDistinct : List Name → Type 0
AreDistinct [] = Unit
AreDistinct (n ∷ names) = (declares_param names n ≡ false) × AreDistinct names

pub declares_param-get :
    (names : List Name) (i : ℕ) {p : Name} (k : Name)
    → get_elem? names i ≡ some p
    → declares_param names k ≡ false
    → bytes_eq p k ≡ false
unfolding declares_param
declares_param-get [] i k here h = cc
declares_param-get (q ∷ names) zero {p} k here h = rw (← some-injective q p here) (ground arith)
declares_param-get (q ∷ names) (suc i) k here h = declares_param-get names i k here (ground arith)

-- A declared name is not found among those that differ from it.
absent-name :
    (names : List Name) (i : ℕ) (n : Name)
    → declares_param names n ≡ false
    → get_elem? names i ≢ some n
absent-name names i n absent here =
    let no_way = declares_param-get names i n here absent in let yes_way = bytes_eq_refl n in cc

same_index :
    (names : List Name)
    → AreDistinct names
    → (i j : ℕ) (n : Name) → get_elem? names i ≡ some n
    → get_elem? names j ≡ some n
    → i ≡ j
same_index [] d i j n a b = cc
same_index (m ∷ names) d zero zero n a b = refl
same_index (m ∷ names) d zero (suc j) n a b =
    absurd (absent-name names j n (rw (← some-injective m n a) d.0) b)
same_index (m ∷ names) d (suc i) zero n a b =
    absurd (absent-name names i n (rw (← some-injective m n b) d.0) a)
same_index (m ∷ names) d (suc i) (suc j) n a b = ap suc (same_index names d.1 i j n a b)

-- The arguments with their values.
module _ {D : Type 0} (double : Doubles D) (globals : Globals D) (caller : Context D) where
  unfoldable pub evaluated : List (Argument D) → List (Supplied D)
  evaluated [] = []
  evaluated (positional e ∷ args) = (none, (eval double globals caller e).0) ∷ evaluated args
  evaluated (named n e ∷ args) = (some n, (eval double globals caller e).0) ∷ evaluated args

get_elem?-names_of :
    (params : List Param) (i : ℕ) {p : Param}
    → get_elem? params i ≡ some p
    → get_elem? (names_of params) i ≡ some p.name
get_elem?-names_of [] i h = cc
get_elem?-names_of (q ∷ params) zero {p} h = ap (λ (r : Param). some r.name) (some-injective q p h)
get_elem?-names_of (q ∷ params) (suc i) h = get_elem?-names_of params i h

names_of-outside :
    (params : List Param) (i : ℕ) → get_elem? params i ≡ none → get_elem? (names_of params) i ≡ none
names_of-outside [] i h = refl
names_of-outside (q ∷ params) zero h = cc
names_of-outside (q ∷ params) (suc i) h = names_of-outside params i h

first_named-none :
    (i : ℕ) (left : List Param) (n : Name)
    → first_named left n i ≡ none
    → (k : ℕ) (q : Param) → get_elem? left k ≡ some q
    → bytes_eq n q.name ≡ false
unfolding first_named
first_named-none i [] n e k q there = cc
first_named-none i (p ∷ left) n e zero q there =
    let one : p ≡ q = some-injective p q there in
    rw (← one, bytes_eq-sym n p.name) (ground (arith, e))
first_named-none i (p ∷ left) n e (suc k) q there =
    first_named-none (suc i) left n (ground (arith, e)) k q there

module _ (params : List Param) where
  first_named-some :
      (i : ℕ) (left : List Param)
      → IsRest params i left
      → (n : Name) {j : ℕ} {p : Param} → first_named left n i ≡ some (j, p)
      → (get_elem? params j ≡ some p) × (p.name ≡ n)
  unfolding first_named
  first_named-some i [] h n e = cc
  first_named-some i (q ∷ left) h n {j} {p} e = elim (Bool-cases (bytes_eq q.name n)) [
    | inl same ↦
        let here : some (i, q) ≡ some (j, p) = rw same at e in
        let one = some-injective (i, q) (j, p) here in
        let number : i ≡ j = ap (λ (t : ℕ × Param). t.0) one in
        let twin : q ≡ p = ap (λ (t : ℕ × Param). t.1) one in
        (
          rw (← number, ← twin) (IsRest-first params i q left h),
          rw (← twin) (bytes_eq-eq q.name n same),
        )
    | inr other ↦ first_named-some (suc i) left (IsRest-later params i q left h) n (rw other at e)
  ]

  module _ (distinct : AreDistinct (names_of params)) where
    same_place :
        (i j : ℕ) (p q : Param)
        → get_elem? params i ≡ some p
        → get_elem? params j ≡ some q
        → (i == j) ≡ bytes_eq p.name q.name
    same_place i j p q here there = elim (Bool-cases (bytes_eq p.name q.name)) [
      | inl same ↦
          let e : i ≡ j =
            same_index (names_of params) distinct i j q.name
              (rw (← bytes_eq-eq p.name q.name same) (get_elem?-names_of params i here))
              (get_elem?-names_of params j there) in
          rw same (ground arith)
      | inr other ↦ elim (Bool-cases (i == j)) [
        | inl e ↦
            let at_one : i ≡ j = ground arith in
            let one : some p ≡ some q = rw (← here, ← there, at_one) refl in
            let twin : bytes_eq p.name q.name ≡ true =
              rw (some-injective p q one) (bytes_eq_refl q.name) in
            cc
        | inr e ↦ rw (e, other) refl
      ]
    ]

module _ {D : Type 0} (params : List Param) (layout : IsLayout params)
    (distinct : AreDistinct (names_of params)) where
  set_param-AreBound :
      (i : ℕ) (p : Param) (v : Value D) (f : ArgFrame D)
      → get_elem? params i ≡ some p
      → AreBound params ((p.name, v) ∷ []) f (set_param p i v f)
  unfolding latest
  set_param-AreBound i p v f here = record {
    flags = λ j q there. ground (
      arith,
      set_param-flags params layout i p here v f j,
      same_place params distinct i j p q here there,
    );
    filled = λ j q there plain. ground (
      arith,
      set_param-filled params layout i p here v f j q there plain,
      same_place params distinct i j p q here there,
    );
    dynamic = λ k d. elim (Bool-cases (bytes_eq p.name k)) [
      | inl e ↦
          let given : is_dyn_name p.name ≡ true = rw (bytes_eq-eq p.name k e) d in
          ground (arith, set_param-dynamic params layout i p here v f k, given)
      | inr other ↦ ground (arith, set_param-dynamic params layout i p here v f k)
    ];
  }

  set_first-AreBound :
      (n : Name) (v : Value D) (f : ArgFrame D)
      → AreBound params ((n, v) ∷ []) f (set_first (first_named params n 0) n v f)
  set_first-AreBound n v f = elim (Option-cases (first_named params n 0)) [
    | inl missing ↦ rw missing (unfound-AreBound params n v (first_named-none 0 params n missing) f)
    | inr ((i, p), found) ↦
        let (here, same) = first_named-some params 0 params (IsRest-all params) n found in
        rw (found, ← same) (set_param-AreBound i p v f here)
  ]

  module _ (double : Doubles D) (globals : Globals D) (caller : Context D) where
    ast-past :
        (index : ℕ) (e : Expr D) (args : List (Argument D)) (f : ArgFrame D)
        → get_elem? params index ≡ none
        → (bind_ast_args_from double globals caller params index (positional e ∷ args) f).0
          ≡ (bind_ast_args_from double globals caller params (suc index) args f).0
    unfolding bind_ast_args_from
    ast-past index e args f past = rw (past, bind_ast_args_from) refl

    ast-here :
        (index : ℕ) (e : Expr D) (args : List (Argument D)) (f : ArgFrame D) {p : Param}
        → get_elem? params index ≡ some p
        → (bind_ast_args_from double globals caller params index (positional e ∷ args) f).0
          ≡ (bind_ast_args_from double globals caller params
              (suc index)
              args
              (set_param p index (eval double globals caller e).0 f)).0
    unfolding bind_ast_args_from
    ast-here index e args f here = rw (here, bind_ast_args_from) refl

    ast-AreBound :
        (index : ℕ) (args : List (Argument D)) (f : ArgFrame D)
        → AreBound params
            (assignments (drop index (names_of params)) (evaluated double globals caller args))
            f
            (bind_ast_args_from double globals caller params index args f).0
    unfolding bind_ast_args_from assignments evaluated
    ast-AreBound index [] f = AreBound-nil params f
    ast-AreBound index (named n e ∷ args) f =
        AreBound-cons (set_first-AreBound n (eval double globals caller e).0 f)
          (ast-AreBound index args _)
    ast-AreBound index (positional e ∷ args) f = elim (Option-cases (get_elem? params index)) [
      | inl past ↦
          let rest = ast-AreBound (suc index) args f in
          let far = names_of-outside params index past in
          let empty = drop-none_nil (names_of params) index far in
          let still = sym (drop-none (names_of params) index far) ∙ empty in
          rw (ast-past index e args f past, empty) (rw still at rest)
      | inr (p, here) ↦
          let far = drop-some (names_of params) index (get_elem?-names_of params index here) in
          rw (ast-here index e args f here, far)
            (AreBound-cons (set_param-AreBound index p (eval double globals caller e).0 f here)
              (ast-AreBound (suc index) args _))
    ]

    -- Where no parameter name is declared twice, the match of arguments that are evaluated one by one
    -- binds each parameter to the last value that the call assigns to its name, and the names with a
    -- `$` that no parameter has to theirs.
    pub bind_ast_args_into_frame-AreBound :
        (args : List (Argument D)) (f : ArgFrame D)
        → AreBound params
            (assignments (names_of params) (evaluated double globals caller args))
            f
            (bind_ast_args_into_frame double globals caller params args f).0
    unfolding bind_ast_args_into_frame
    bind_ast_args_into_frame-AreBound args f = ast-AreBound 0 args f
