-- ===== src/Bytecode/Reach.antt =====
-- Runs of the virtual machine of src/bytecode_vm.cpp as sequences of steps, and code in its place.
use openscad_cpp_evaluator.Prelude.{
  ℕ, zero, suc, ◌+◌, ◌≡◌, refl, arith, true, false, List, [], ◌∷◌, ◌++◌, none, some, leb, length,
  get_elem?, subst, length-append, append_assoc, Option-cases, inl, inr,
}
use openscad_cpp_evaluator.Value.{Doubles}
use openscad_cpp_evaluator.Expression.{Bindings, Globals}
use openscad_cpp_evaluator.Machine.{Instruction, Frame, step, run}

-- The instructions stand at the place and those after it.
abbrev pub Stands : {D : Type 0} → List (Instruction D) → ℕ → List (Instruction D) → Type 0
Stands code at [] = Unit
Stands code at (i ∷ part) = (get_elem? code at ≡ some i) × Stands code (suc at) part

module _ {D : Type 0} (code : List (Instruction D)) where
  pub Stands-append :
      (at : ℕ) (xs ys : List (Instruction D))
      → Stands code at (xs ++ ys)
      → Stands code at xs × Stands code (at + length xs) ys
  Stands-append at [] ys h = (tt, let e : at + 0 ≡ at = omega arith in rw e h)
  Stands-append at (x ∷ xs) ys h =
      let e : at + suc (length xs) ≡ suc at + length xs = omega arith in
      let rest = Stands-append (suc at) xs ys h.1 in ((h.0, rest.0), rw e rest.1)

pub get_elem?-length :
    {D : Type 0} (before : List (Instruction D)) (x : Instruction D) (after : List (Instruction D))
    → get_elem? (before ++ x ∷ after) (length before) ≡ some x
get_elem?-length [] x after = refl
get_elem?-length (y ∷ before) x after = get_elem?-length before x after

pub Stands-self :
    {D : Type 0} (before code : List (Instruction D)) → Stands (before ++ code) (length before) code
Stands-self before [] = tt
Stands-self before (x ∷ code) =
    let place : length (before ++ x ∷ []) ≡ suc (length before) =
      omega (arith, length-append before (x ∷ [])) in
    (
      get_elem?-length before x code,
      subst (λ all. Stands all (suc (length before)) code) (append_assoc before (x ∷ []) code)
          (subst (λ at. Stands ((before ++ x ∷ []) ++ code) at code) place
            (Stands-self (before ++ x ∷ []) code)),
    )

get_elem?-lt :
    {D : Type 0} (code : List (Instruction D)) (at : ℕ) {i : Instruction D}
    → get_elem? code at ≡ some i
    → leb (length code) at ≡ false
get_elem?-lt [] at h = cc
get_elem?-lt (x ∷ code) zero h = ground arith
get_elem?-lt (x ∷ code) (suc at) h = ground (arith, get_elem?-lt code at h)

module _ {D : Type 0} (double : Doubles D) (globals : Globals D) (lets : Bindings D)
    (code : List (Instruction D)) where
  pub data Reach : Frame D → Frame D → Type 0 where
    arrived : {f : Frame D} → Reach f f
    one_more : {f g h : Frame D} → step double globals lets code f ≡ some g → Reach g h → Reach f h

  pub Reach-trans : {f g h : Frame D} → Reach f g → Reach g h → Reach f h
  Reach-trans arrived r = r
  Reach-trans (one_more e q) r = one_more e (Reach-trans q r)

  pub Reach-step : {f g : Frame D} → step double globals lets code f ≡ some g → Reach f g
  Reach-step e = one_more e arrived

  step-within :
      (f : Frame D) {g : Frame D}
      → step double globals lets code f ≡ some g
      → leb (length code) f.pc ≡ false
  unfolding step
  step-within f {g} e = elim (Option-cases (get_elem? code f.pc)) [
    | inl missing ↦ let stuck : none ≡ some g = rw (step, missing) at e in cc
    | inr (i, found) ↦ get_elem?-lt code f.pc found
  ]

  -- A run that gets past the code ends, with fuel for its steps.
  pub run-Reach :
      {f g : Frame D}
      → Reach f g
      → leb (length code) g.pc ≡ true
      → (fuel : ℕ) × (run double globals lets fuel code f ≡ some g)
  unfolding run
  run-Reach arrived h = (1, rw (run, h))
  run-Reach {f} (one_more e q) h =
      let (fuel, same) = run-Reach q h in (suc fuel, rw (run, step-within f e, e) same)
