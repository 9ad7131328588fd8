-- ===== src/Arguments/Layout.antt =====
-- The parameters of a chunk (`compileFunctionLike` of src/bytecode_compiler.cpp) have slots of their
-- own, and what a write to one of them leaves alone.
use openscad_cpp_evaluator.Prelude.{
  ℕ, zero, suc, ◌+◌, ◌-◌, ◌≤◌, ◌<◌, ◌≡◌, refl, ap, arith, true, false, ◌&&◌, ◌||◌, List, [], ◌∷◌,
  none, some, ◌==◌, if◌then◌else◌, get_elem?, inl, inr, Bool-cases,
}
use openscad_cpp_evaluator.Prelude.Bytes.{bytes_eq}
use openscad_cpp_evaluator.Value.{Value}
use openscad_cpp_evaluator.Expression.{Name, find, is_dyn_name}
use openscad_cpp_evaluator.Machine.{update}
use openscad_cpp_evaluator.Arguments.Frames.{Param, compile_params, ArgFrame, set_param}

pub record IsLayout (params : List Param) : Type 0 where
  pub marked : (i : ℕ) (p : Param) → get_elem? params i ≡ some p → p.is_dyn ≡ is_dyn_name p.name
  pub distinct :
      (i j : ℕ) (p q : Param)
      → get_elem? params i ≡ some p
      → get_elem? params j ≡ some q
      → p.is_dyn ≡ false
      → q.is_dyn ≡ false
      → p.slot ≡ q.slot
      → i ≡ j

compile_params-le :
    (names : List Name) (next i : ℕ) (p : Param)
    → get_elem? (compile_params names next) i ≡ some p
    → p.is_dyn ≡ false
    → next ≤ p.slot
unfolding compile_params
compile_params-le [] next i p h a = cc
compile_params-le (n ∷ names) next zero p h a = ground arith
compile_params-le (n ∷ names) next (suc i) p h a = elim (Bool-cases (is_dyn_name n)) [
  | inl dynamic ↦ compile_params-le names next i p (rw dynamic at h) a
  | inr plain ↦ omega (arith, compile_params-le names (suc next) i p (rw plain at h) a)
]

compile_params-marked :
    (names : List Name) (next i : ℕ) (p : Param)
    → get_elem? (compile_params names next) i ≡ some p
    → p.is_dyn ≡ is_dyn_name p.name
unfolding compile_params
compile_params-marked [] next i p h = cc
compile_params-marked (n ∷ names) next zero p h = ground arith
compile_params-marked (n ∷ names) next (suc i) p h =
    compile_params-marked names (if is_dyn_name n then next else suc next) i p h

-- A parameter without a `$` and those after it.
compile_params-lt :
    (n : Name) (names : List Name) (next j : ℕ) (p q : Param)
    → get_elem? (compile_params (n ∷ names) next) 0 ≡ some p
    → get_elem? (compile_params (n ∷ names) next) (suc j) ≡ some q
    → p.is_dyn ≡ false
    → q.is_dyn ≡ false
    → p.slot < q.slot
unfolding compile_params
compile_params-lt n names next j p q hp hq plain free =
    let named : is_dyn_name n ≡ false = ground arith in
    let here : p.slot ≡ next = ground arith in
    omega (arith, here, compile_params-le names (suc next) j q (rw named at hq) free)

compile_params-distinct :
    (names : List Name) (next i j : ℕ) (p q : Param)
    → get_elem? (compile_params names next) i ≡ some p
    → get_elem? (compile_params names next) j ≡ some q
    → p.is_dyn ≡ false
    → q.is_dyn ≡ false
    → p.slot ≡ q.slot
    → i ≡ j
unfolding compile_params
compile_params-distinct [] next i j p q hp hq a b e = cc
compile_params-distinct (n ∷ names) next zero zero p q hp hq a b e = refl
compile_params-distinct (n ∷ names) next zero (suc j) p q hp hq a b e =
    absurd (omega (arith, compile_params-lt n names next j p q hp hq a b))
compile_params-distinct (n ∷ names) next (suc i) zero p q hp hq a b e =
    absurd (omega (arith, compile_params-lt n names next i q p hq hp b a))
compile_params-distinct (n ∷ names) next (suc i) (suc j) p q hp hq a b e =
    ap suc
      (compile_params-distinct names (if is_dyn_name n then next else suc next) i j p q hp hq a b e)

pub compile_params-IsLayout : (names : List Name) (next : ℕ) → IsLayout (compile_params names next)
compile_params-IsLayout names next = record {
  marked = compile_params-marked names next;
  distinct = compile_params-distinct names next;
}

module _ {D : Type 0} (params : List Param) (layout : IsLayout params) (i : ℕ) (p : Param)
    (here : get_elem? params i ≡ some p) (v : Value D) (f : ArgFrame D) where
  -- A write to one parameter fills the slot of no other.
  pub set_param-filled :
      (j : ℕ) (q : Param)
      → get_elem? params j ≡ some q
      → q.is_dyn ≡ false
      → (set_param p i v f).slots q.slot ≡ (if i == j then v else f.slots q.slot)
  unfolding set_param update
  set_param-filled j q there plain = elim (Bool-cases (i == j)) [
    | inl same ↦
        let e : i ≡ j = ground arith in
        let one : some p ≡ some q = rw (← here, ← there, e) refl in
        let twin : p ≡ q = ground arith in rw (same, twin, plain) (ground arith)
    | inr other ↦ elim (Bool-cases p.is_dyn) [
      | inl dynamic ↦ rw (other, dynamic) refl
      | inr free ↦ rw (other, free) (ground (arith, layout.distinct i j p q here there free plain))
    ]
  ]

  pub set_param-flags : (j : ℕ) → (set_param p i v f).bound j ≡ (i == j || f.bound j)
  unfolding set_param
  set_param-flags j = refl

  pub set_param-dynamic :
      (k : Name)
      → find (set_param p i v f).dyn k
        ≡ (if is_dyn_name p.name && bytes_eq p.name k then some v else find f.dyn k)
  unfolding set_param find
  set_param-dynamic k = elim (Bool-cases p.is_dyn) [
    | inl dynamic ↦
        let named : is_dyn_name p.name ≡ true = ground (arith, layout.marked i p here) in
        rw (dynamic, named) refl
    | inr plain ↦
        let named : is_dyn_name p.name ≡ false = ground (arith, layout.marked i p here) in
        rw (plain, named) refl
  ]

-- A list of parameters from some number on.
abbrev pub IsRest : List Param → ℕ → List Param → Type 0
IsRest params i left = (k : ℕ) → get_elem? params (i + k) ≡ get_elem? left k

module _ (params : List Param) where
  pub IsRest-all : IsRest params 0 params
  IsRest-all k = let e : 0 + k ≡ k = omega arith in rw e refl

  pub IsRest-first :
      (i : ℕ) (p : Param) (left : List Param)
      → IsRest params i (p ∷ left)
      → get_elem? params i ≡ some p
  IsRest-first i p left h = let e : i ≡ i + 0 = omega arith in rw e (h 0)

  pub IsRest-later :
      (i : ℕ) (p : Param) (left : List Param)
      → IsRest params i (p ∷ left)
      → IsRest params (suc i) left
  IsRest-later i p left h k = let e : suc i + k ≡ i + suc k = omega arith in rw e (h (suc k))

  pub IsRest-end : (i : ℕ) → IsRest params i [] → (j : ℕ) → i ≤ j → get_elem? params j ≡ none
  IsRest-end i h j le = let e : j ≡ i + (j - i) = omega arith in rw e (h (j - i))
