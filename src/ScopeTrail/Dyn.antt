-- ===== src/ScopeTrail/Dyn.antt =====
-- The `$`-variables: `DynNameIntern`, which numbers their names, and the two views, of values and of
-- "explicitly set" flags, on the one trail of `DynEntry`s. `IndexedScopeTrailStorage` runs the same
-- algorithm as `ScopeTrailStorage` with the numbers for keys, so the trail here is a `Storage`.
use openscad_cpp_evaluator.Prelude.{
  ℕ, zero, suc, ◌≡◌, refl, sym, ap, ◌∙◌, inl, inr, ◌⊎◌, false, List, [], ◌∷◌, ◌++◌, Bool, Option,
  none, some, length, get_elem?, Option-cases,
}
use mathlib.Core.Logic.{if_pos, if_neg}
use openscad_cpp_evaluator.ScopeTrail.{Storage, update, set_binding, lookup}
use openscad_cpp_evaluator.ScopeTrail.Lookup.{AllBelow}
use openscad_cpp_evaluator.ScopeTrail.Levels.{IsOpen}
use openscad_cpp_evaluator.ScopeTrail.Invariant.{IsValid}
use openscad_cpp_evaluator.ScopeTrail.Visible.{lookup-set_binding_self}

pub record Intern (K : Type 0) : Type 0 where
  pub ids : K → Option ℕ
  pub names : List K

module _ {K : Type 0} (d : Discrete K) where
  pub id_for : K → Intern K → ℕ × Intern K
  id_for name t = elim (t.ids name) [
    | some id ↦ (id, t)
    | none ↦ (
      length t.names,
      record { ids = update d t.ids name (some (length t.names)); names = t.names ++ name ∷ [] },
    )
  ]

unfoldable pub name_for : {K : Type 0} → ℕ → Intern K → Option K
name_for id t = get_elem? t.names id

-- The two directions of the table agree.
pub record Agrees {K : Type 0} (t : Intern K) : Type 0 where
  pub named : (name : K) (id : ℕ) → t.ids name ≡ some id → name_for id t ≡ some name
  pub numbered : (id : ℕ) (name : K) → name_for id t ≡ some name → t.ids name ≡ some id

get_elem?-append_old {ℓ} :
    {A : Type ℓ} (xs ys : List A) (i : ℕ) {x : A}
    → get_elem? xs i ≡ some x
    → get_elem? (xs ++ ys) i ≡ some x
get_elem?-append_old [] ys i h = cc
get_elem?-append_old (x ∷ xs) ys zero h = h
get_elem?-append_old (x ∷ xs) ys (suc i) h = get_elem?-append_old xs ys i h

get_elem?-append_last {ℓ} :
    {A : Type ℓ} (xs : List A) (x : A) → get_elem? (xs ++ x ∷ []) (length xs) ≡ some x
get_elem?-append_last [] x = refl
get_elem?-append_last (y ∷ xs) x = get_elem?-append_last xs x

get_elem?-append_cases {ℓ} :
    {A : Type ℓ} (xs : List A) (x y : A) (i : ℕ)
    → get_elem? (xs ++ x ∷ []) i ≡ some y
    → (get_elem? xs i ≡ some y) ⊎ ((i ≡ length xs) × (x ≡ y))
get_elem?-append_cases [] x y zero h = inr (refl, cc)
get_elem?-append_cases [] x y (suc i) h = cc
get_elem?-append_cases (z ∷ xs) x y zero h = inl h
get_elem?-append_cases (z ∷ xs) x y (suc i) h = elim (get_elem?-append_cases xs x y i h) [
  | inl e ↦ inl e
  | inr e ↦ inr (ap suc e.0, e.1)
]

module _ {K : Type 0} (d : Discrete K) (name : K) (t : Intern K) (a : Agrees t) where
  module _ (fresh : t.ids name ≡ none) where
    new_named :
        (n : K) (id : ℕ)
        → update d t.ids name (some (length t.names)) n ≡ some id
        → get_elem? (t.names ++ name ∷ []) id ≡ some n
    new_named n id h = elim (d n name) [
      | yes q ↦
          let last : length t.names ≡ id =
            cc (h, if_pos (d n name) q (some (length t.names)) (t.ids n)) in
          rw (← last, q) (get_elem?-append_last t.names name)
      | no q ↦
          get_elem?-append_old t.names _ id
            (unfold name_for in a.named n id (sym (if_neg (d n name) q _ _) ∙ h))
    ]

    new_numbered :
        (id : ℕ) (n : K)
        → get_elem? (t.names ++ name ∷ []) id ≡ some n
        → update d t.ids name (some (length t.names)) n ≡ some id
    new_numbered id n h = elim (get_elem?-append_cases t.names name n id h) [
      | inl old ↦
          let known : t.ids n ≡ some id = unfold name_for in a.numbered id n old in
          if_neg (d n name) (λ q. cc (ap t.ids q)) _ _ ∙ known
      | inr last ↦ if_pos (d n name) (sym last.1) _ _ ∙ ap some (sym last.0)
    ]

  -- Asking for a name's number keeps the two directions of the table consistent.
  pub id_for-Agrees : Agrees (id_for d name t).1
  unfolding id_for name_for
  id_for-Agrees = elim (Option-cases (t.ids name)) [
    | inr (id, e) ↦ rw (e, id_for) a
    | inl e ↦ rw (e, id_for) (record { named = new_named e; numbered = new_numbered e })
  ]

  -- In a consistent table the number given for a name, new or not, is taken back to that name.
  pub name_for-id_for : name_for (id_for d name t).0 (id_for d name t).1 ≡ some name
  unfolding id_for name_for
  name_for-id_for = elim (Option-cases (t.ids name)) [
    | inr (id, e) ↦ rw (e, id_for) (a.named name id e)
    | inl e ↦ rw (e, id_for) (get_elem?-append_last t.names name)
  ]

  -- Numbers that were given out keep their names.
  pub name_for-id_for_other :
      (id : ℕ) {other : K}
      → name_for id t ≡ some other
      → name_for id (id_for d name t).1 ≡ some other
  unfolding id_for name_for
  name_for-id_for_other id h = elim (Option-cases (t.ids name)) [
    | inr (k, e) ↦ rw (e, id_for) h
    | inl e ↦ rw (e, id_for) (get_elem?-append_old t.names _ id h)
  ]

pub record DynEntry (V : Type 0) : Type 0 where
  pub value : V
  pub explicitly_set : Bool

module _ {V : Type 0} where
  abbrev pub was_explicit : Option (DynEntry V) → Bool
  was_explicit none = false
  was_explicit (some e) = e.explicitly_set

  abbrev pub value_of : Option (DynEntry V) → Option V
  value_of none = none
  value_of (some e) = some e.value

  abbrev pub seen_value : V → Option (DynEntry V) → V
  seen_value undef none = undef
  seen_value undef (some e) = e.value

module _ {K V : Type 0} (d : Discrete K) where
  -- `DynValueView::set` and `find`.
  pub set_value : K → V → ℕ → Storage K (DynEntry V) → Storage K (DynEntry V)
  set_value name x level s =
      set_binding d name (record { value = x; explicitly_set = was_explicit (lookup name level s) })
        level s

  -- `DynExplicitView::set`; a `Value` is undef until it is set.
  pub set_explicit : V → K → Bool → ℕ → Storage K (DynEntry V) → Storage K (DynEntry V)
  set_explicit undef name flag level s =
      set_binding d name
        (record { value = seen_value undef (lookup name level s); explicitly_set = flag }) level s

module _ {K V : Type 0} where
  pub find_value : K → ℕ → Storage K (DynEntry V) → Option V
  find_value name level s = value_of (lookup name level s)

  pub find_explicit : K → ℕ → Storage K (DynEntry V) → Bool
  find_explicit name level s = was_explicit (lookup name level s)

module _ {K V : Type 0} (d : Discrete K) (name : K) (level : ℕ) (s : Storage K (DynEntry V))
    (v : IsValid s) (o : IsOpen s.parents level) (b : AllBelow (suc level) (s.stacks name)) where
  -- Setting a value, at an open level when no deeper level holds the name, is read back at that level,
  -- and leaves the flag that the level saw, its own or an outer one's, as it was.
  pub find-set_value :
      (x : V)
      → (find_value name level (set_value d name x level s) ≡ some x)
        × (find_explicit name level (set_value d name x level s) ≡ find_explicit name level s)
  unfolding find_value find_explicit set_value
  find-set_value x =
      let seen =
        lookup-set_binding_self d name
          (record { value = x; explicitly_set = was_explicit (lookup name level s) }) level s v o
          b in
      (ap value_of seen, ap was_explicit seen)

  -- Under the same conditions setting the flag is read back, and leaves the value that the level saw;
  -- where it saw none it sees undef now.
  pub find-set_explicit :
      (undef : V) (flag : Bool)
      → (find_explicit name level (set_explicit d undef name flag level s) ≡ flag)
        × (find_value name level (set_explicit d undef name flag level s)
            ≡ some (seen_value undef (lookup name level s)))
  unfolding find_value find_explicit set_explicit
  find-set_explicit undef flag =
      let seen =
        lookup-set_binding_self d name
          (record { value = seen_value undef (lookup name level s); explicitly_set = flag }) level s
          v o b in
      (ap was_explicit seen, ap value_of seen)
