-- ===== src/ScopeTrail/Chains.antt =====
-- The levels that a reader's walk up the storage passes, and what changes such a reader does not see.
use openscad_cpp_evaluator.Prelude.{
  ℕ, zero, suc, ◌≤◌, ◌<◌, ◌≡◌, sym, ◌∙◌, ◌≢◌, List, arith, subst, Option, none, some,
}
use openscad_cpp_evaluator.ScopeTrail.{Parent, Entry, slot, parent_of, as_level}
use openscad_cpp_evaluator.ScopeTrail.Lookup.{
  Upward, binding_at, Resolves, outside, found, inherited,
}

-- The levels that a reader's walk passes.
pub data OnChain (ps : List Parent) : ℕ → ℕ → Type 0 where
  self : {l : ℕ} → 0 < l → OnChain ps l l
  above : {l m : ℕ} → OnChain ps (parent_of ps (suc l)) m → OnChain ps (suc l) m

module _ {κ} {T : Type κ} where
  -- A change at one level only is not seen by a reader whose chain does not pass that level.
  pub Resolves-elsewhere :
      (ps qs : List Parent) (es fs : List (Entry T)) (level : ℕ)
      → ((m : ℕ) → m ≢ level → slot qs m ≡ slot ps m)
      → ((m : ℕ) → m ≢ level → binding_at fs m ≡ binding_at es m)
      → {l : ℕ} {r : Option T} → ¬ OnChain ps l level
      → Resolves ps es l r
      → Resolves qs fs l r
  Resolves-elsewhere ps qs es fs level sp sb off outside = outside
  Resolves-elsewhere ps qs es fs level sp sb off (found {l = l} b) =
      found (sb (suc l) (λ e. off (subst (OnChain ps (suc l)) e (self (omega arith)))) ∙ b)
  Resolves-elsewhere ps qs es fs level sp sb off (inherited {l = l} {r = r} b h) =
      let ne : suc l ≢ level = λ e. off (subst (OnChain ps (suc l)) e (self (omega arith))) in
      inherited (sb (suc l) ne ∙ b) (
        subst (λ p. Resolves qs fs (as_level p) r) (sym (sp (suc l) ne))
          (Resolves-elsewhere ps qs es fs level sp sb (λ c. off (above c)) h))

  pub Resolves-subst :
      {ps qs : List Parent} {es fs : List (Entry T)} {l : ℕ} {r : Option T}
      → ps ≡ qs
      → es ≡ fs
      → Resolves ps es l r
      → Resolves qs fs l r
  Resolves-subst {ps} {fs = fs} {l = l} {r = r} p e h =
      subst (λ q. Resolves q fs l r) p (subst (λ f. Resolves ps f l r) e h)

  pub inherited_at :
      (ps : List Parent) (es : List (Entry T)) (l : ℕ) {r : Option T}
      → 0 < l
      → binding_at es l ≡ none
      → Resolves ps es (parent_of ps l) r
      → Resolves ps es l r
  inherited_at ps es zero h b q = absurd (omega arith)
  inherited_at ps es (suc l) h b q = inherited b q

  pub found_at :
      (ps : List Parent) (es : List (Entry T)) (l : ℕ) {v : T}
      → 0 < l
      → binding_at es l ≡ some v
      → Resolves ps es l (some v)
  found_at ps es zero h b = absurd (omega arith)
  found_at ps es (suc l) h b = found b

-- A reader's chain goes down.
pub OnChain-le : (ps : List Parent) → Upward ps → {l m : ℕ} → OnChain ps l m → m ≤ l
OnChain-le ps u (self h) = omega arith
OnChain-le ps u (above {l = l} c) = omega (arith, u l, OnChain-le ps u c)
