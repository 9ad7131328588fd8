-- ===== src/Calls/Fuel.antt =====
-- More fuel gives the same result (`driveVm` and `applyCompiledDefaultsToFrame` of
-- src/bytecode_vm.cpp).
use openscad_cpp_evaluator.Prelude.{
  ℕ, zero, suc, ◌+◌, ◌≡◌, arith, List, [], ◌∷◌, Option, none, some, leb, length, inl, inr,
  Bool-cases, Option-cases,
}
use openscad_cpp_evaluator.Value.{Doubles}
use openscad_cpp_evaluator.Operators.{Warning}
use openscad_cpp_evaluator.Expression.{Bindings, Globals}
use openscad_cpp_evaluator.Machine.{Instruction, Frame, step, run, new_frame}
use openscad_cpp_evaluator.Arguments.Frames.{Param, ArgFrame}
use openscad_cpp_evaluator.Calls.{run_default, apply_compiled_defaults, fill_param, DefaultResult}

module _ {D : Type 0} (double : Doubles D) (globals : Globals D) (lets : Bindings D)
    (more : ℕ) where
  pub run-more :
      (fuel : ℕ) (code : List (Instruction D)) (f : Frame D) {g : Frame D}
      → run double globals lets fuel code f ≡ some g
      → run double globals lets (fuel + more) code f ≡ some g
  unfolding run
  run-more zero code f h = cc
  run-more (suc fuel) code f {g} h =
      let e : suc fuel + more ≡ suc (fuel + more) = omega arith in
      rw e (elim (Bool-cases (leb (length code) f.pc)) [
        | inl done ↦ rw (done, run) (rw (run, done) at h)
        | inr on ↦ elim (Option-cases (step double globals lets code f)) [
          | inl stuck ↦ let no_way : none ≡ some g = rw (run, on, stuck) at h in cc
          | inr (next, one) ↦ rw (run, on, one) (run-more fuel code next (rw (run, on, one) at h))
        ]
      ])

  pub run_default-more :
      (fuel : ℕ) (code : Option (List (Instruction D))) (f : ArgFrame D) {r : DefaultResult D}
      → run_default double globals lets fuel code f ≡ some r
      → run_default double globals lets (fuel + more) code f ≡ some r
  unfolding run_default
  run_default-more fuel none f h = h
  run_default-more fuel (some code) f {r} h =
      elim (Option-cases (run double globals lets fuel code (new_frame f.slots f.dyn))) [
        | inl stuck ↦ let no_way : none ≡ some r = rw (run_default, stuck) at h in cc
        | inr (g, done) ↦
            rw (run_default, run-more fuel code (new_frame f.slots f.dyn) done)
              (rw (run_default, done) at h)
      ]

  pub apply_compiled_defaults-more :
      (fuel i : ℕ) (params : List Param) (codes : List (Option (List (Instruction D))))
      (f : ArgFrame D) {r : ArgFrame D × List (Warning D)}
      → apply_compiled_defaults double globals lets fuel i params codes f ≡ some r
      → apply_compiled_defaults double globals lets (fuel + more) i params codes f ≡ some r
  unfolding apply_compiled_defaults
  apply_compiled_defaults-more fuel i [] codes f h = h
  apply_compiled_defaults-more fuel i (p ∷ params) [] f h = h
  apply_compiled_defaults-more fuel i (p ∷ params) (code ∷ codes) f {r} h =
      elim (Bool-cases (f.bound i)) [
        | inl given ↦
            rw (given, apply_compiled_defaults)
              (apply_compiled_defaults-more fuel (suc i) params codes f
                (rw (given, apply_compiled_defaults) at h))
        | inr open_one ↦ elim (Option-cases (run_default double globals lets fuel code f)) [
          | inl stuck ↦
              let no_way : none ≡ some r = rw (apply_compiled_defaults, open_one, stuck) at h in cc
          | inr ((v, dyn, ws), done) ↦
              let next = fill_param p v (record f { dyn = dyn }) in
              let on = run_default-more fuel code f done in
              elim (Option-cases
                (apply_compiled_defaults double globals lets fuel (suc i) params codes next)) [
                  | inl stuck ↦
                      let no_way : none ≡ some r =
                        rw (apply_compiled_defaults, open_one, done, stuck) at h in
                      cc
                  | inr (q, rest) ↦
                      let later =
                        apply_compiled_defaults-more fuel (suc i) params codes next rest in
                      rw (apply_compiled_defaults, open_one, on, later)
                        (rw (apply_compiled_defaults, open_one, done, rest) at h)
                ]
        ]
      ]
