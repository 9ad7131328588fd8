-- ===== src/Bytecode/Slots.antt =====
-- Which slots and places the instructions of src/bytecode_compiler.cpp may name.
use openscad_cpp_evaluator.Prelude.{
  ℕ, suc, ◌+◌, ◌≤◌, ◌<◌, ◌≡◌, arith, inl, inr, Bool, true, false, List, [], ◌∷◌, ◌++◌, some, length,
  Bool-cases, Option-cases, All,
}
use openscad_cpp_evaluator.Prelude.Bytes.{bytes_eq}
use openscad_cpp_evaluator.Expression.{Name, is_dyn_name}
use openscad_cpp_evaluator.Machine.{
  Instruction, load_local, store_local, jump, jump_if_false, jump_if_true, open_local_scope,
}
use openscad_cpp_evaluator.Bytecode.{
  CompileScope, resolve_frame, resolve, declare, Compiled, compile_identifier_load, store_name,
  declare_params,
}

-- An instruction addresses the first `slots` slots and jumps to places up to `last`.
unfoldable pub IsBounded : {D : Type 0} → ℕ → ℕ → Instruction D → Type 0
IsBounded slots last (load_local slot) = slot < slots
IsBounded slots last (store_local slot) = slot < slots
IsBounded slots last (open_local_scope first count) = first + count ≤ slots
IsBounded slots last (jump place) = place ≤ last
IsBounded slots last (jump_if_false place) = place ≤ last
IsBounded slots last (jump_if_true place) = place ≤ last
IsBounded slots last i = Unit

abbrev pub AreBounded : {D : Type 0} → ℕ → ℕ → List (Instruction D) → Type 0
AreBounded slots last code = All (IsBounded slots last) code

-- The names that resolve have slots below `next`.
abbrev pub Fits : CompileScope → ℕ → Type 0
Fits scope next = (n : Name) (slot : ℕ) → resolve scope n ≡ some slot → slot < next

pub Fits-push : (scope : CompileScope) (next : ℕ) → Fits scope next → Fits ([] ∷ scope) next
unfolding resolve resolve_frame
Fits-push scope next fits n slot h = fits n slot h

pub Fits-mono :
    (scope : CompileScope) {next next' : ℕ} → next ≤ next' → Fits scope next → Fits scope next'
Fits-mono scope le fits n slot h = let lt = fits n slot h in omega arith

pub Fits-declare :
    (scope : CompileScope) (next : ℕ) (name : Name)
    → Fits scope next
    → Fits (declare scope name next) (suc next)
unfolding resolve resolve_frame declare
Fits-declare [] next name fits n slot h = cc
Fits-declare (frame ∷ frames) next name fits n slot h = elim (Bool-cases (bytes_eq name n)) [
  | inl same ↦ ground (arith, h)
  | inr other ↦ let lt = fits n slot (rw other at h) in omega arith
]

pub load-IsBounded :
    (D : Type 0) (scope : CompileScope) (n : Name) (next last : ℕ)
    → Fits scope next
    → IsBounded next last (compile_identifier_load {D = D} scope n)
unfolding compile_identifier_load IsBounded
load-IsBounded D scope n next last fits = elim (Bool-cases (is_dyn_name n)) [
  | inl dynamic ↦ rw dynamic tt
  | inr lexical ↦ elim (Option-cases (resolve scope n)) [
    | inl missing ↦ rw (lexical, missing) tt
    | inr (slot, found) ↦ rw (lexical, found) (fits n slot found)
  ]
]

-- The instruction for a name, and the scope after it.
pub store-IsBounded :
    (D : Type 0) (repeated : Bool) (scope : CompileScope) (n : Name) (next last : ℕ)
    → Fits scope next
    → let store = store_name {D = D} repeated scope n next in
      IsBounded store.2 last store.0 × Fits store.1 store.2
unfolding store_name IsBounded
store-IsBounded D true scope n next last fits = (tt, fits)
store-IsBounded D false scope n next last fits = elim (Bool-cases (is_dyn_name n)) [
  | inl dynamic ↦ rw dynamic (tt, fits)
  | inr lexical ↦ rw lexical (omega arith, Fits-declare scope next n fits)
]

pub params-Fit :
    (names : List Name) (scope : CompileScope) (next : ℕ)
    → Fits scope next
    → Fits (declare_params scope names next).0 (declare_params scope names next).1
unfolding declare_params
params-Fit [] scope next fits = fits
params-Fit (n ∷ names) scope next fits = elim (Bool-cases (is_dyn_name n)) [
  | inl dynamic ↦ rw dynamic (params-Fit names scope next fits)
  | inr plain ↦
      rw plain (params-Fit names (declare scope n next) (suc next) (Fits-declare scope next n fits))
]

module _ {D : Type 0} where
  pub IsBounded-mono :
      (i : Instruction D) {k k' l l' : ℕ} → k ≤ k' → l ≤ l' → IsBounded k l i → IsBounded k' l' i
  unfolding IsBounded
  IsBounded-mono (load_local slot) p q h = omega arith
  IsBounded-mono (store_local slot) p q h = omega arith
  IsBounded-mono (open_local_scope first count) p q h = omega arith
  IsBounded-mono (jump place) p q h = omega arith
  IsBounded-mono (jump_if_false place) p q h = omega arith
  IsBounded-mono (jump_if_true place) p q h = omega arith
  IsBounded-mono i p q h = tt

  -- Code in front of other code.
  pub front :
      (xs ys : List (Instruction D)) {k k' l l' : ℕ}
      → AreBounded k l xs
      → k ≤ k'
      → l ≤ l'
      → AreBounded k' l' ys
      → AreBounded k' l' (xs ++ ys)
  front [] ys h p q rest = rest
  front (x ∷ xs) ys h p q rest = (IsBounded-mono x p q h.0, front xs ys h.1 p q rest)

  pub widen :
      (xs : List (Instruction D)) {k k' l l' : ℕ}
      → AreBounded k l xs
      → k ≤ k'
      → l ≤ l'
      → AreBounded k' l' xs
  widen [] h p q = tt
  widen (x ∷ xs) h p q = (IsBounded-mono x p q h.0, widen xs h.1 p q)

  abbrev pub CodeFits : Compiled D → ℕ → Type 0
  CodeFits compiled at = AreBounded compiled.1 (at + length compiled.0) compiled.0
