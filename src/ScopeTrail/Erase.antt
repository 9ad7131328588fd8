-- ===== src/ScopeTrail/Erase.antt =====
-- What `popLevel` removes from the stack of one name.
use openscad_cpp_evaluator.Prelude.{
  ℕ, ◌≡◌, refl, sym, ap, ◌∙◌, ◌≢◌, ◌⊎◌, inl, inr, List, [], ◌∷◌, arith, ◌==◌, if◌then◌else◌, All,
  Bool-cases, subst, ==_iff, none,
}
use mathlib.Core.Logic.{ite, if_pos, if_neg}
use openscad_cpp_evaluator.ScopeTrail.{Entry, update, erase_level, erase_names}
use openscad_cpp_evaluator.ScopeTrail.Lookup.{AllBelow, Descending, binding_at}

-- A name is among those that a level wrote.
abbrev pub Contains : {K : Type 0} → K → List K → Type 0
Contains k [] = ⊥
Contains k (x ∷ xs) = (x ≡ k) ⊎ Contains k xs

module _ {κ} {T : Type κ} where
  -- The entries of all levels but one.
  pub without : ℕ → List (Entry T) → List (Entry T)
  without l [] = []
  without l (e ∷ es) = if e.level == l then without l es else e ∷ without l es

  without-below : (l : ℕ) (es : List (Entry T)) → AllBelow l es → without l es ≡ es
  unfolding without
  without-below l [] b = refl
  without-below l (e ∷ es) b = ground (arith, without-below l es b.1)

  without-erase_level : (l : ℕ) (es : List (Entry T)) → without l (erase_level l es) ≡ without l es
  unfolding without erase_level
  without-erase_level l [] = refl
  without-erase_level l (e ∷ es) = ground (arith, without-erase_level l es)

  erase_level-without :
      (l : ℕ) (es : List (Entry T)) → Descending es → erase_level l es ≡ without l es
  unfolding without erase_level
  erase_level-without l [] de = refl
  erase_level-without l (e ∷ es) de = elim (Bool-cases (e.level == l)) [
    | inl h ↦
        rw h (sym (without-below l es (subst (λ n. AllBelow n es) ((==_iff e.level l).0 h) de.0)))
    | inr h ↦ rw (h, without) (ap (λ t. e ∷ t) (erase_level-without l es de.1))
  ]

  without-without : (l : ℕ) (es : List (Entry T)) → without l (without l es) ≡ without l es
  unfolding without
  without-without l [] = refl
  without-without l (e ∷ es) = ground (arith, without-without l es)

  -- What holds of every entry holds of those that are kept; and what is kept is of other levels.
  pub All-without {μ} :
      (P : Entry T → Type μ) (l : ℕ) (es : List (Entry T))
      → All P es
      → All (λ e. P e × (e.level ≢ l)) (without l es)
  unfolding without
  All-without P l [] h = tt
  All-without P l (e ∷ es) h = elim (Bool-cases (e.level == l)) [
    | inl same ↦ rw (same, without) (All-without P l es h.1)
    | inr other ↦ rw (other, without) ((h.0, ground arith), All-without P l es h.1)
  ]

  AllBelow-without : (n l : ℕ) (es : List (Entry T)) → AllBelow n es → AllBelow n (without l es)
  unfolding without
  AllBelow-without n l [] b = tt
  AllBelow-without n l (e ∷ es) b = ground (arith, AllBelow-without n l es b.1)

  pub Descending-without : (l : ℕ) (es : List (Entry T)) → Descending es → Descending (without l es)
  unfolding without
  Descending-without l [] de = tt
  Descending-without l (e ∷ es) de = elim (Bool-cases (e.level == l)) [
    | inl same ↦ rw (same, without) (Descending-without l es de.1)
    | inr other ↦
        rw (other, without) (AllBelow-without e.level l es de.0, Descending-without l es de.1)
  ]

  -- The bindings of the other levels stay, and the level has none.
  pub binding_at-without :
      (l m : ℕ) (es : List (Entry T))
      → binding_at (without l es) m ≡ (if m == l then none else binding_at es m)
  unfolding without binding_at
  binding_at-without l m [] = ground arith
  binding_at-without l m (e ∷ es) = ground (arith, binding_at-without l m es)

-- The loop over the names, seen from the stack of one name.
module _ {κ} {K : Type 0} (d : Discrete K) {T : Type κ} (k : K) (l : ℕ) where
  erase_for : List K → List (Entry T) → List (Entry T)
  erase_for [] es = es
  erase_for (n ∷ ns) es = erase_for ns (ite (d k n) (erase_level l es) es)

  update-erase :
      (n : K) (stacks : K → List (Entry T))
      → update d stacks n (erase_level l (stacks n)) k
        ≡ ite (d k n) (erase_level l (stacks k)) (stacks k)
  update-erase n stacks = elim (d k n) [
    | yes e ↦ rw (if_pos _ e, if_pos _ e, e) refl
    | no e ↦ rw (if_neg _ e, if_neg _ e) refl
  ]

  erase_names-for :
      (ns : List K) (stacks : K → List (Entry T))
      → erase_names d ns l stacks k ≡ erase_for ns (stacks k)
  unfolding erase_names erase_for
  erase_names-for [] stacks = refl
  erase_names-for (n ∷ ns) stacks = erase_names-for ns _ ∙ ap (erase_for ns) (update-erase n stacks)

  without-erase_for :
      (ns : List K) (es : List (Entry T)) → without l (erase_for ns es) ≡ without l es
  unfolding erase_for
  without-erase_for [] es = refl
  without-erase_for (n ∷ ns) es = without-erase_for ns _ ∙ one_round (d k n)
    where
      one_round : (c : Dec (k ≡ n)) → without l (ite c (erase_level l es) es) ≡ without l es
      one_round (yes e) = without-erase_level l es
      one_round (no e) = refl

  -- A stack with no entry of the level stays as it is.
  erase_for-clean :
      (ns : List K) (es : List (Entry T)) → without l es ≡ es → Descending es → erase_for ns es ≡ es
  unfolding erase_for
  erase_for-clean [] es h de = refl
  erase_for-clean (n ∷ ns) es h de = rw (one_round (d k n)) (erase_for-clean ns es h de)
    where
      one_round : (c : Dec (k ≡ n)) → ite c (erase_level l es) es ≡ es
      one_round (yes e) = erase_level-without l es de ∙ h
      one_round (no e) = refl

  -- If the name is listed, all its entries of the level go.
  erase_for-Contains :
      (ns : List K) (es : List (Entry T))
      → Contains k ns
      → Descending es
      → erase_for ns es ≡ without l es
  unfolding erase_for
  erase_for-Contains [] es h de = elim h [ ]
  erase_for-Contains (n ∷ ns) es h de = round (d k n) h (λ c. erase_for-Contains ns es c de)
    where
      round :
          (c : Dec (k ≡ n))
          → Contains k (n ∷ ns)
          → (Contains k ns → erase_for ns es ≡ without l es)
          → erase_for ns (ite c (erase_level l es) es) ≡ without l es
      round (yes e) c rest =
          rw (erase_level-without l es de)
            (erase_for-clean ns (without l es) (without-without l es) (Descending-without l es de))
      round (no e) (inl c) rest = absurd (e (sym c))
      round (no e) (inr c) rest = rest c

  -- Either the level wrote the name, or the name's stack has no entry of it.
  recorded_or_clean :
      (dirty : ℕ → List K) (es : List (Entry T))
      → All (λ e. Contains k (dirty e.level)) es
      → Contains k (dirty l) ⊎ (without l es ≡ es)
  unfolding without
  recorded_or_clean dirty [] h = inr refl
  recorded_or_clean dirty (e ∷ es) h = elim (Bool-cases (e.level == l)) [
    | inl same ↦ inl (subst (λ n. Contains k (dirty n)) ((==_iff e.level l).0 same) h.0)
    | inr other ↦ elim (recorded_or_clean dirty es h.1) [
      | inl c ↦ inl c
      | inr clean ↦ inr (rw (other, without) (ap (λ t. e ∷ t) clean))
    ]
  ]

  -- The loop of `popLevel` leaves exactly the entries of the other levels.
  pub erase_names-without :
      (dirty : ℕ → List K) (stacks : K → List (Entry T))
      → All (λ e. Contains k (dirty e.level)) (stacks k)
      → Descending (stacks k)
      → erase_names d (dirty l) l stacks k ≡ without l (stacks k)
  erase_names-without dirty stacks h de =
      erase_names-for (dirty l) stacks ∙ elim (recorded_or_clean dirty (stacks k) h) [
        | inl c ↦ erase_for-Contains (dirty l) (stacks k) c de
        | inr clean ↦ erase_for-clean (dirty l) (stacks k) clean de ∙ sym clean
      ]
