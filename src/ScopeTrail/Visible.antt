-- ===== src/ScopeTrail/Visible.antt =====
-- What readers see after each operation of the storage.
use openscad_cpp_evaluator.Prelude.{
  ℕ, zero, suc, ◌+◌, ◌≤◌, ◌<◌, ◌≡◌, refl, ◌∙◌, ◌≢◌, inl, inr, List, [], ◌∷◌, ◌++◌, arith, ◌==◌,
  if◌then◌else◌, All, Bool-cases, none, some,
}
use mathlib.Core.Logic.{ite, if_pos, if_neg}
use openscad_cpp_evaluator.ScopeTrail.{
  up, dead, Entry, Storage, open_level, kill, mark_dead, top_is, set_top, set_binding, pop_level,
  slot, lookup,
}
use openscad_cpp_evaluator.ScopeTrail.Lookup.{
  AllBelow, binding_at, Resolves, outside, inherited, Resolves-unique, lookup-Resolves,
}
use openscad_cpp_evaluator.ScopeTrail.Levels.{
  IsOpen, slot-kill, slot-kill_self, slot-append_ne, slot-append_length, open_is_inside,
}
use openscad_cpp_evaluator.ScopeTrail.Chains.{
  OnChain, Resolves-elsewhere, Resolves-subst, inherited_at, found_at, OnChain-le,
}
use openscad_cpp_evaluator.ScopeTrail.Erase.{without, binding_at-without, erase_names-without}
use openscad_cpp_evaluator.ScopeTrail.Invariant.{
  IsValid, set_binding-IsValid, pop_level-IsValid, open_level-IsValid,
}

module _ {κ} {T : Type κ} where
  -- The entries after a write: the level has the value, the other levels are as before.
  unfoldable pub write : ℕ → T → List (Entry T) → List (Entry T)
  write level x es =
      if top_is level es then set_top x es else record { value = x; level = level } ∷ es

  binding_at-write :
      (level m : ℕ) (x : T) (es : List (Entry T))
      → binding_at (write level x es) m ≡ (if m == level then some x else binding_at es m)
  unfolding write top_is set_top binding_at
  binding_at-write level m x [] = ground arith
  binding_at-write level m x (e ∷ es) = ground arith

module _ {κ} {K : Type 0} (d : Discrete K) {T : Type κ} where
  pub stacks-set_binding :
      (name k : K) (x : T) (level : ℕ) (s : Storage K T)
      → (set_binding d name x level s).stacks k
        ≡ ite (d k name) (write level x (s.stacks name)) (s.stacks k)
  unfolding set_binding write
  stacks-set_binding name k x level s = elim (Bool-cases (top_is level (s.stacks name))) [
    | inl e ↦ rw e refl
    | inr e ↦ rw e refl
  ]

  pub next_level-set_binding :
      (name : K) (x : T) (level : ℕ) (s : Storage K T)
      → (set_binding d name x level s).next_level ≡ s.next_level
  unfolding set_binding
  next_level-set_binding name x level s = elim (Bool-cases (top_is level (s.stacks name))) [
    | inl e ↦ rw e refl
    | inr e ↦ rw e refl
  ]

  pub parents-set_binding :
      (name : K) (x : T) (level : ℕ) (s : Storage K T)
      → (set_binding d name x level s).parents ≡ s.parents
  unfolding set_binding
  parents-set_binding name x level s = elim (Bool-cases (top_is level (s.stacks name))) [
    | inl e ↦ rw e refl
    | inr e ↦ rw e refl
  ]

  module _ (name : K) (x : T) (level : ℕ) (s : Storage K T) (v : IsValid s)
      (o : IsOpen s.parents level) (b : AllBelow (suc level) (s.stacks name)) where
    written : Storage K T
    written = set_binding d name x level s

    reads_written :
        (l : ℕ) → Resolves s.parents (write level x (s.stacks name)) l (lookup name l written)
    unfolding written
    reads_written l =
        let w = set_binding-IsValid d name x level s v o b in
        let stack = stacks-set_binding name name x level s ∙ if_pos (d name name) refl _ _ in
        Resolves-subst (parents-set_binding name x level s) stack (
          lookup-Resolves (set_binding d name x level s) name l w.levels.upward (w.descending name))

    -- A write at an open level, when no deeper level holds the name, is what a reader at that level
    -- sees.
    pub lookup-set_binding_self : lookup name level (set_binding d name x level s) ≡ some x
    unfolding written
    lookup-set_binding_self =
        Resolves-unique s.parents (write level x (s.stacks name)) (reads_written level) (
          found_at s.parents (write level x (s.stacks name)) level o.0
            (binding_at-write level level x (s.stacks name) ∙ ground arith))

    -- Under the same conditions the write changes nothing for a reader whose chain of levels does not
    -- pass the level that was written.
    pub lookup-set_binding_elsewhere :
        (l : ℕ)
        → ¬ OnChain s.parents l level
        → lookup name l (set_binding d name x level s) ≡ lookup name l s
    unfolding written
    lookup-set_binding_elsewhere l off =
        Resolves-unique s.parents (write level x (s.stacks name)) (reads_written l) (
          Resolves-elsewhere s.parents s.parents (s.stacks name) (write level x (s.stacks name))
            level (λ m ne. refl) (λ m ne. binding_at-write level m x (s.stacks name) ∙ ground arith)
            off (lookup-Resolves s name l v.levels.upward (v.descending name)))

  -- A write changes no reader's view of another name.
  pub lookup-set_binding_other :
      (name k : K) (x : T) (level l : ℕ) (s : Storage K T)
      → k ≢ name
      → lookup k l (set_binding d name x level s) ≡ lookup k l s
  unfolding lookup
  lookup-set_binding_other name k x level l s ne =
      let stack = stacks-set_binding name k x level s ∙ if_neg (d k name) ne _ _ in
      rw (parents-set_binding name x level s, stack) refl

  module _ (level : ℕ) (s : Storage K T) (v : IsValid s) where
    stacks-pop_level : (k : K) → (pop_level d level s).stacks k ≡ without level (s.stacks k)
    unfolding pop_level mark_dead
    stacks-pop_level k =
        erase_names-without d k level s.dirty s.stacks (v.recorded k) (v.descending k)

    parents-pop_level : (pop_level d level s).parents ≡ (kill level s.next_level s.parents).1
    unfolding pop_level mark_dead
    parents-pop_level = refl

    reads_popped :
        (k : K) (l : ℕ)
        → Resolves
            (kill level s.next_level s.parents).1
            (without level (s.stacks k))
            l
            (lookup k l (pop_level d level s))
    reads_popped k l =
        let w = pop_level-IsValid d level s v in
        Resolves-subst parents-pop_level (stacks-pop_level k)
          (lookup-Resolves (pop_level d level s) k l w.levels.upward (w.descending k))

    -- Popping a level changes nothing for a reader whose chain does not pass it.
    pub lookup-pop_level :
        (k : K) (l : ℕ)
        → ¬ OnChain s.parents l level
        → lookup k l (pop_level d level s) ≡ lookup k l s
    lookup-pop_level k l off =
        Resolves-unique (kill level s.next_level s.parents).1 (without level (s.stacks k))
          (reads_popped k l)
          (Resolves-elsewhere s.parents (kill level s.next_level s.parents).1 (s.stacks k)
            (without level (s.stacks k)) level (slot-kill s.parents s.next_level level v.levels)
            (λ m ne. binding_at-without level m (s.stacks k) ∙ ground arith) off
            (lookup-Resolves s k l v.levels.upward (v.descending k)))

    -- After its own level is popped a reader sees nothing.
    pub lookup-pop_level_self : (k : K) → lookup k level (pop_level d level s) ≡ none
    lookup-pop_level_self k =
        Resolves-unique (kill level s.next_level s.parents).1 (without level (s.stacks k))
          (reads_popped k level)
          (cut_off level (slot-kill_self s.parents s.next_level level v.levels)
            (binding_at-without level level (s.stacks k) ∙ ground arith))
      where
        cut_off :
            (l : ℕ)
            → slot (kill level s.next_level s.parents).1 l ≡ dead
            → binding_at (without level (s.stacks k)) l ≡ none
            → Resolves (kill level s.next_level s.parents).1 (without level (s.stacks k)) l none
        cut_off zero e b = outside
        cut_off (suc l) e b = inherited b (rw e outside)

-- From here on a level is opened below `parent`.
module _ {κ} {K : Type 0} {T : Type κ} (parent : ℕ) (s : Storage K T) (h : parent ≤ s.next_level)
    (v : IsValid s) where
  unseen :
      (l : ℕ) (es : List (Entry T))
      → s.next_level < l
      → All (λ e. IsOpen s.parents e.level) es
      → binding_at es l ≡ none
  unfolding binding_at
  unseen l [] lt o = refl
  unseen l (e ∷ es) lt o =
      ground (arith, open_is_inside s.parents e.level o.0.1, v.levels.sized, unseen l es lt o.1)

  new_slot : slot (s.parents ++ up parent ∷ []) (s.next_level + 1) ≡ up parent
  new_slot = rw v.levels.sized at (slot-append_length s.parents parent)

  reads_opened :
      (k : K) (l : ℕ)
      → Resolves (s.parents ++ up parent ∷ []) (s.stacks k) l (lookup k l (open_level parent s).1)
  unfolding open_level
  reads_opened k l =
      let w = open_level-IsValid parent s h v in
      lookup-Resolves (open_level parent s).1 k l w.levels.upward (w.descending k)

  -- Opening a level changes nothing for the readers at the levels that are there.
  pub lookup-open_level :
      (k : K) (l : ℕ) → l ≤ s.next_level → lookup k l (open_level parent s).1 ≡ lookup k l s
  lookup-open_level k l le =
      Resolves-unique (s.parents ++ up parent ∷ []) (s.stacks k) (reads_opened k l) (
        Resolves-elsewhere s.parents (s.parents ++ up parent ∷ []) (s.stacks k) (s.stacks k)
          (s.next_level + 1) (λ m ne. slot-append_ne s.parents parent m (rw v.levels.sized ne))
          (λ m ne. refl) (λ c. omega (arith, OnChain-le s.parents v.levels.upward c))
          (lookup-Resolves s k l v.levels.upward (v.descending k)))

  -- A reader at the new level sees what the parent level sees, although its number may have belonged
  -- to a level that was popped; below level 0 that is nothing.
  pub lookup-open_level_new :
      (k : K) → lookup k (open_level parent s).0 (open_level parent s).1 ≡ lookup k parent s
  lookup-open_level_new k =
      Resolves-unique (s.parents ++ up parent ∷ []) (s.stacks k)
        (reads_opened k (open_level parent s).0)
        (unfold open_level in
          inherited_at (s.parents ++ up parent ∷ []) (s.stacks k) (s.next_level + 1) (omega arith)
            (unseen (s.next_level + 1) (s.stacks k) (omega arith) (v.live k))
            (rw (new_slot, ← lookup-open_level k parent h) (reads_opened k parent)))
