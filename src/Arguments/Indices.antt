-- ===== src/Arguments/Indices.antt =====
-- The numbers of the parameters that `bindEveryParamNamed` and `planCallSiteArgs` of
-- src/bytecode_compiler.cpp record.
use openscad_cpp_evaluator.Prelude.{
  ℕ, zero, suc, ◌+◌, ◌≡◌, refl, arith, Bool, true, false, ◌||◌, List, [], ◌∷◌, ◌++◌, append_assoc,
  append-nil, ◌<◌, none, some, ◌==◌, if◌then◌else◌, length, get_elem?, inl, inr, Bool-cases,
}
use openscad_cpp_evaluator.Prelude.Bytes.{bytes_eq, bytes_eq_refl, bytes_eq-sym}
use mathlib.Core.Option.{some-injective}
use openscad_cpp_evaluator.Expression.{Name}
use openscad_cpp_evaluator.Arguments.Frames.{Param, names_of}
use openscad_cpp_evaluator.Arguments.Plans.{
  ArgBind, no_bind, bind_every_param_named, plan_positional,
}

-- The numbers, from `i` on, of the parameters of a name.
abbrev pub indices : List Name → Name → ℕ → List ℕ
indices [] n i = []
indices (p ∷ params) n i =
    if bytes_eq p n then i ∷ indices params n (suc i) else indices params n (suc i)

abbrev pub holds : List ℕ → ℕ → Bool
holds [] j = false
holds (i ∷ is) j = i == j || holds is j

abbrev pub has_any : List ℕ → Bool
has_any [] = false
has_any (i ∷ is) = true

-- What `bindEveryParamNamed` finds.
abbrev pub split : List ℕ → ArgBind
split [] = no_bind
split (i ∷ is) = record no_bind { param_index = some i; also_params = is }

bind_every-found :
    (params : List Name) (n : Name) (i first : ℕ) (also : List ℕ)
    → bind_every_param_named
        (record no_bind { param_index = some first; also_params = also })
        params
        n
        i
      ≡ record no_bind { param_index = some first; also_params = also ++ indices params n i }
unfolding bind_every_param_named
bind_every-found [] n i first also = rw append-nil refl
bind_every-found (p ∷ params) n i first also = elim (Bool-cases (bytes_eq p n)) [
  | inl same ↦
      rw (same, ← append_assoc also (i ∷ []) (indices params n (suc i)))
        (bind_every-found params n (suc i) first (also ++ i ∷ []))
  | inr other ↦ rw other (bind_every-found params n (suc i) first also)
]

pub bind_every-split :
    (params : List Name) (n : Name) (i : ℕ)
    → bind_every_param_named no_bind params n i ≡ split (indices params n i)
unfolding bind_every_param_named
bind_every-split [] n i = refl
bind_every-split (p ∷ params) n i = elim (Bool-cases (bytes_eq p n)) [
  | inl same ↦ rw same (bind_every-found params n (suc i) i [])
  | inr other ↦ rw other (bind_every-split params n (suc i))
]

pub holds-none : (is : List ℕ) (j : ℕ) → has_any is ≡ false → holds is j ≡ false
holds-none [] j h = refl
holds-none (i ∷ is) j h = cc

pub has_any-false : (is : List ℕ) → has_any is ≡ false → is ≡ []
has_any-false [] h = refl
has_any-false (i ∷ is) h = cc

indices-above :
    (params : List Name) (n : Name) (i j : ℕ) → j < i → holds (indices params n i) j ≡ false
indices-above [] n i j lt = refl
indices-above (p ∷ params) n i j lt =
    let later = indices-above params n (suc i) j (omega arith) in
    elim (Bool-cases (bytes_eq p n)) [
      | inl same ↦ rw same (ground (arith, later))
      | inr other ↦ rw other later
    ]

-- A number is found just if its parameter has the name.
pub holds-indices :
    (params : List Param) (n : Name) (i k : ℕ) (p : Param)
    → get_elem? params k ≡ some p
    → holds (indices (names_of params) n i) (i + k) ≡ bytes_eq n p.name
holds-indices [] n i k p h = cc
holds-indices (q ∷ params) n i zero p h =
    let here : i + 0 ≡ i = omega arith in
    let first : bytes_eq n p.name ≡ bytes_eq q.name n =
      rw (← some-injective q p h) (bytes_eq-sym n q.name) in
    let later = indices-above (names_of params) n (suc i) i (omega arith) in
    elim (Bool-cases (bytes_eq q.name n)) [
      | inl same ↦ rw (here, first, same) (ground arith)
      | inr other ↦ rw (here, first, other) later
    ]
holds-indices (q ∷ params) n i (suc k) p h =
    let next : i + suc k ≡ suc i + k = omega arith in
    let found = holds-indices params n (suc i) k p h in
    elim (Bool-cases (bytes_eq q.name n)) [
      | inl same ↦ rw (next, same) (ground (arith, found))
      | inr other ↦ rw (next, other) found
    ]

pub indices-any :
    (params : List Name) (n : Name) (i index : ℕ)
    → get_elem? params index ≡ some n
    → has_any (indices params n i) ≡ true
indices-any [] n i index h = cc
indices-any (p ∷ params) n i zero h = rw (some-injective p n h, bytes_eq_refl n) refl
indices-any (p ∷ params) n i (suc index) h = elim (Bool-cases (bytes_eq p n)) [
  | inl same ↦ rw same refl
  | inr other ↦ rw other (indices-any params n (suc i) index h)
]

pub plan_positional-some :
    (params : List Name) (n : Name) (index : ℕ)
    → get_elem? params index ≡ some n
    → plan_positional params index ≡ split (indices params n 0)
unfolding plan_positional
plan_positional-some params n index h = rw (h, plan_positional) (bind_every-split params n 0)

pub plan_positional-none :
    (params : List Name) (index : ℕ)
    → get_elem? params index ≡ none
    → plan_positional params index
      ≡ record no_bind { warn_too_many_positional = index == length params }
unfolding plan_positional
plan_positional-none params index h = rw (h, plan_positional) refl
