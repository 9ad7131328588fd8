-- ===== src/ScopeTrail/Lookup.antt =====
-- `lookup`, a merge of two sorted sequences, against the plain reading: go up the chain of levels and
-- take the first binding of the name that a level of the chain made.
use openscad_cpp_evaluator.Prelude.{
  ℕ, zero, suc, ◌+◌, ◌≤◌, ◌<◌, ◌≡◌, refl, false, List, [], ◌∷◌, Option, none, some, inl, inr, arith,
  ltb, ◌==◌, if◌then◌else◌, length, Bool-cases,
}
use openscad_cpp_evaluator.ScopeTrail.{Parent, Entry, Storage, parent_of, walk, lookup}

module _ {κ} {T : Type κ} where
  -- The binding that one level made.
  unfoldable pub binding_at : List (Entry T) → ℕ → Option T
  binding_at [] l = none
  binding_at (e ∷ es) l = if e.level == l then some e.value else binding_at es l

  -- What a reader at a level sees: the binding of that level, else what its parent sees.
  pub data Resolves (ps : List Parent) (es : List (Entry T)) : ℕ → Option T → Type κ where
    outside : Resolves ps es zero none
    found : {l : ℕ} {v : T} → binding_at es (suc l) ≡ some v → Resolves ps es (suc l) (some v)
    inherited :
        {l : ℕ} {r : Option T}
        → binding_at es (suc l) ≡ none
        → Resolves ps es (parent_of ps (suc l)) r
        → Resolves ps es (suc l) r

-- A level's parent is below it, or it has none.
abbrev pub Upward : List Parent → Type 0
Upward ps = (l : ℕ) → parent_of ps (suc l) ≤ l

-- The entries of one name, newest first, have falling levels.
module _ {κ} {T : Type κ} where
  abbrev pub AllBelow : ℕ → List (Entry T) → Type 0
  AllBelow n [] = Unit
  AllBelow n (e ∷ es) = (e.level < n) × AllBelow n es

  abbrev pub Descending : List (Entry T) → Type 0
  Descending [] = Unit
  Descending (e ∷ es) = AllBelow e.level es × Descending es

  pub AllBelow-le : (m n : ℕ) (es : List (Entry T)) → m ≤ n → AllBelow m es → AllBelow n es
  AllBelow-le m n [] h b = tt
  AllBelow-le m n (e ∷ es) h b = (omega arith, AllBelow-le m n es h b.1)

  pub binding_at-AllBelow : (n : ℕ) (es : List (Entry T)) → AllBelow n es → binding_at es n ≡ none
  unfolding binding_at
  binding_at-AllBelow n [] b = refl
  binding_at-AllBelow n (e ∷ es) b = ground (arith, binding_at-AllBelow n es b.1)

  pub Resolves-nil :
      (ps : List Parent) → Upward ps → (k l : ℕ) → l ≤ k → Resolves {T = T} ps [] l none
  unfolding binding_at
  Resolves-nil ps u k zero h = outside
  Resolves-nil ps u zero (suc l) h = absurd (omega arith)
  Resolves-nil ps u (suc k) (suc l) h =
      inherited refl (Resolves-nil ps u k (parent_of ps (suc l)) (omega (arith, u l)))

  -- An entry of a deeper level is not on the chain.
  pub Resolves-skip :
      (ps : List Parent)
      → Upward ps
      → (e : Entry T) (es : List (Entry T)) {l : ℕ} {r : Option T} → l < e.level
      → Resolves ps es l r
      → Resolves ps (e ∷ es) l r
  unfolding binding_at
  Resolves-skip ps u e es h outside = outside
  Resolves-skip ps u e es h (found {l = l} b) = found (ground arith)
  Resolves-skip ps u e es h (inherited {l = l} b r) =
      inherited (ground arith) (Resolves-skip ps u e es (omega (arith, u l)) r)

  unbound :
      (a : ℕ) (e : Entry T) (es : List (Entry T))
      → Descending (e ∷ es)
      → e.level < suc a
      → binding_at (e ∷ es) (suc a) ≡ none
  unbound a e es de h =
      binding_at-AllBelow (suc a) (e ∷ es) (h, AllBelow-le e.level (suc a) es (omega arith) de.0)

  walk-Resolves :
      (ps : List Parent)
      → Upward ps
      → (fuel : ℕ) (es : List (Entry T)) (a : ℕ) → Descending es
      → a + length es < fuel
      → Resolves ps es a (walk fuel ps es a)
  unfolding walk binding_at
  walk-Resolves ps u zero es a de h = absurd (omega arith)
  walk-Resolves ps u (suc fuel) [] a de h = Resolves-nil ps u a a (omega arith)
  walk-Resolves ps u (suc fuel) (e ∷ es) zero de h = outside
  walk-Resolves ps u (suc fuel) (e ∷ es) (suc a) de h =
      let nz : (suc a == 0) ≡ false = ground arith in
      elim (Bool-cases (ltb (suc a) e.level)) [
        | inl deeper ↦
            rw (nz, deeper, walk)
              (Resolves-skip ps u e es (ground arith)
                (walk-Resolves ps u fuel es (suc a) de.1 (omega arith)))
        | inr le ↦ elim (Bool-cases (e.level == suc a)) [
          | inl here ↦ rw (nz, le, here, walk) (found (ground arith))
          | inr above ↦
              rw (nz, le, above, walk)
                (inherited (unbound a e es de (ground arith))
                  (walk-Resolves ps u fuel (e ∷ es) (parent_of ps (suc a)) de (omega (arith, u a))))
        ]
      ]

  -- What a level sees is determined.
  pub Resolves-unique :
      (ps : List Parent) (es : List (Entry T)) {l : ℕ} {q r : Option T}
      → Resolves ps es l q
      → Resolves ps es l r
      → q ≡ r
  Resolves-unique ps es outside outside = refl
  Resolves-unique ps es (found b) (found c) = cc
  Resolves-unique ps es (found b) (inherited c r) = cc
  Resolves-unique ps es (inherited b q) (found c) = cc
  Resolves-unique ps es (inherited b q) (inherited c r) = Resolves-unique ps es q r

module _ {ℓ κ} {K : Type ℓ} {T : Type κ} where
  -- In a storage whose stacks are sorted and whose parents lie below their children, `lookup` ends
  -- within its fuel and returns what the reader's level sees: the binding made at the nearest level of
  -- its chain that bound the name, or nothing if none did.
  pub lookup-Resolves :
      (s : Storage K T) (name : K) (my_level : ℕ)
      → Upward s.parents
      → Descending (s.stacks name)
      → Resolves s.parents (s.stacks name) my_level (lookup name my_level s)
  unfolding lookup
  lookup-Resolves s name my_level u de = walk-Resolves s.parents u _ _ my_level de (omega arith)
