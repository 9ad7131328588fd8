-- ===== src/ScopeTrail/Scopes.antt =====
-- Whole scopes: a scope that is opened, writes and is popped leaves no trace; and a write that is out
-- of order, from an outer scope while an inner one is still held.
use openscad_cpp_evaluator.Prelude.{
  ℕ, zero, suc, ◌+◌, ◌≤◌, ◌<◌, ◌≡◌, refl, sym, ap, ◌∙◌, inl, inr, false, List, [], ◌∷◌, arith, ◌==◌,
  All, subst, some, length,
}
use mathlib.Core.Logic.{if_pos}
use openscad_cpp_evaluator.ScopeTrail.{
  Parent, Entry, Storage, open_level, set_binding, pop_level, parent_of, walk, lookup, top_is,
}
use openscad_cpp_evaluator.ScopeTrail.Lookup.{AllBelow, Upward}
use openscad_cpp_evaluator.ScopeTrail.Levels.{IsOpen, open_is_inside}
use openscad_cpp_evaluator.ScopeTrail.Invariant.{
  IsValid, set_binding-IsValid, open_level-IsValid, pop_level-IsValid, pop_level-IsValid,
}
use openscad_cpp_evaluator.ScopeTrail.Chains.{OnChain, self, above, OnChain-le}
use openscad_cpp_evaluator.ScopeTrail.Visible.{
  lookup-set_binding_elsewhere, lookup-set_binding_other, next_level-set_binding,
  parents-set_binding, stacks-set_binding, write, lookup-pop_level, lookup-open_level,
}

module _ {κ} {K : Type 0} (d : Discrete K) {T : Type κ} where
  -- The writes of a scope, in order.
  unfoldable pub set_all : List (K × T) → ℕ → Storage K T → Storage K T
  set_all [] level s = s
  set_all ((name, x) ∷ rest) level s = set_all rest level (set_binding d name x level s)

  -- The life of a scope: opened below `parent`, written to, popped.
  unfoldable pub run_scope : ℕ → List (K × T) → Storage K T → Storage K T
  run_scope parent writes s =
      let level = (open_level parent s).0 in
      pop_level d level (set_all writes level (open_level parent s).1)

  -- No level is deeper than the newest, so a write there is in order.
  newest : (s : Storage K T) → IsValid s → (name : K) → AllBelow (suc s.next_level) (s.stacks name)
  newest s v name = below (s.stacks name) (v.live name)
    where
      below :
          (es : List (Entry T))
          → All (λ e. IsOpen s.parents e.level) es
          → AllBelow (suc s.next_level) es
      below [] o = tt
      below (e ∷ es) o =
          (omega (arith, open_is_inside s.parents e.level o.0.1, v.levels.sized), below es o.1)

  -- A valid storage whose newest level is the one at hand.
  record Holds (level : ℕ) (s : Storage K T) : Type 0 where
    valid : IsValid s
    top : s.next_level ≡ level
    pos : 0 < level

  Holds-IsOpen : (level : ℕ) (s : Storage K T) → Holds level s → IsOpen s.parents level
  Holds-IsOpen level s h = (
    h.pos,
    elim h.valid.levels.tight [
      | inl z ↦ absurd (omega (arith, h.top, h.pos))
      | inr o ↦ rw h.top at o
    ],
  )

  Holds-AllBelow :
      (level : ℕ) (s : Storage K T)
      → Holds level s
      → (name : K) → AllBelow (suc level) (s.stacks name)
  Holds-AllBelow level s h name = rw h.top at (newest s h.valid name)

  set_binding-Holds :
      (name : K) (x : T) (level : ℕ) (s : Storage K T)
      → Holds level s
      → Holds level (set_binding d name x level s)
  set_binding-Holds name x level s h = record {
    valid =
        set_binding-IsValid d name x level s h.valid (Holds-IsOpen level s h)
          (Holds-AllBelow level s h name);
    top = next_level-set_binding d name x level s ∙ h.top;
    pos = h.pos;
  }

  set_all-Holds :
      (writes : List (K × T)) (level : ℕ) (s : Storage K T)
      → Holds level s
      → Holds level (set_all writes level s)
  unfolding set_all
  set_all-Holds [] level s h = h
  set_all-Holds ((name, x) ∷ rest) level s h =
      set_all-Holds rest level _ (set_binding-Holds name x level s h)

  -- A reader at a lower level does not have the newest one on its chain.
  off_chain :
      (level l : ℕ) (s : Storage K T) → Holds level s → l < level → ¬ OnChain s.parents l level
  off_chain level l s h lt c = omega (arith, OnChain-le s.parents h.valid.levels.upward c)

  lookup-set_all :
      (writes : List (K × T)) (level l : ℕ) (s : Storage K T) (k : K)
      → Holds level s
      → l < level
      → lookup k l (set_all writes level s) ≡ lookup k l s
  unfolding set_all
  lookup-set_all [] level l s k h lt = refl
  lookup-set_all ((name, x) ∷ rest) level l s k h lt =
      lookup-set_all rest level l (set_binding d name x level s) k
        (set_binding-Holds name x level s h) lt
      ∙ step (d k name)
    where
      at_name : lookup name l (set_binding d name x level s) ≡ lookup name l s
      at_name =
          lookup-set_binding_elsewhere d name x level s h.valid (Holds-IsOpen level s h)
            (Holds-AllBelow level s h name) l (off_chain level l s h lt)

      step : Dec (k ≡ name) → lookup k l (set_binding d name x level s) ≡ lookup k l s
      step (yes e) =
          subst (λ n. lookup n l (set_binding d name x level s) ≡ lookup n l s) (sym e) at_name
      step (no e) = lookup-set_binding_other d name k x level l s e

  open_level-Holds :
      (parent : ℕ) (s : Storage K T)
      → parent ≤ s.next_level
      → IsValid s
      → Holds (open_level parent s).0 (open_level parent s).1
  open_level-Holds parent s h v = record {
    valid = open_level-IsValid parent s h v;
    top = unfold open_level in refl;
    pos = unfold open_level in omega arith;
  }

  -- In a valid storage, a scope that is opened below an existing level, writes any names and is popped, leaves what every
  -- reader at a level that was there sees of every name as it was.
  pub lookup-run_scope :
      (parent : ℕ) (writes : List (K × T)) (s : Storage K T) (k : K) (l : ℕ)
      → IsValid s
      → parent ≤ s.next_level
      → l ≤ s.next_level
      → lookup k l (run_scope parent writes s) ≡ lookup k l s
  unfolding run_scope
  lookup-run_scope parent writes s k l v h le =
      let level = (open_level parent s).0 in
      let opened = (open_level parent s).1 in
      let o : Holds level opened = open_level-Holds parent s h v in
      let w : Holds level (set_all writes level opened) = set_all-Holds writes level opened o in
      let lt : l < level = unfold open_level in omega arith in
      lookup-pop_level d level (set_all writes level opened) w.valid k l (off_chain level l _ w lt)
      ∙ lookup-set_all writes level l opened k o lt
      ∙ lookup-open_level parent s h v k l le

  -- A scope keeps the invariant.
  pub run_scope-IsValid :
      (parent : ℕ) (writes : List (K × T)) (s : Storage K T)
      → IsValid s
      → parent ≤ s.next_level
      → IsValid (run_scope parent writes s)
  unfolding run_scope
  run_scope-IsValid parent writes s v h =
      pop_level-IsValid d _ _
        (set_all-Holds writes _ (open_level parent s).1 (open_level-Holds parent s h v)).valid

module _ {κ} {T : Type κ} (ps : List Parent) (e : Entry T) (es : List (Entry T)) where
  walk_here : (fuel : ℕ) → 0 < fuel → 0 < e.level → walk fuel ps (e ∷ es) e.level ≡ some e.value
  unfolding walk
  walk_here zero h pos = absurd (omega arith)
  walk_here (suc fuel) h pos = ground arith

  walk_miss :
      (fuel a : ℕ)
      → e.level < suc a
      → walk (suc fuel) ps (e ∷ es) (suc a) ≡ walk fuel ps (e ∷ es) (parent_of ps (suc a))
  unfolding walk
  walk_miss fuel a h = ground arith

  -- The walk reaches a level of the chain that has the newest entry.
  walk_up :
      Upward ps
      → (fuel : ℕ) {a m : ℕ} → OnChain ps a m
      → m ≡ e.level
      → 0 < m
      → a < fuel
      → walk fuel ps (e ∷ es) a ≡ some e.value
  walk_up u fuel (self {l = l} h) q pos lt = rw q (walk_here fuel (omega arith) (omega arith))
  walk_up u zero (above c) q pos lt = absurd (omega arith)
  walk_up u (suc fuel) (above {l = l} c) q pos lt =
      walk_miss fuel l (omega (arith, u l, OnChain-le ps u c))
      ∙ walk_up u fuel c q pos (omega (arith, u l))

module _ {κ} {K : Type 0} (d : Discrete K) {T : Type κ} where
  -- A write at an outer level while a deeper level, with the outer one on its chain, has the newest
  -- binding of the name: a reader at the deeper level, which saw its own binding before, sees the
  -- outer write after.
  pub set_binding_out_of_order :
      (name : K) (x : T) (level : ℕ) (s : Storage K T) (e : Entry T) (es : List (Entry T))
      → Upward s.parents
      → s.stacks name ≡ e ∷ es
      → level < e.level
      → 0 < level
      → OnChain s.parents e.level level
      → (lookup name e.level s ≡ some e.value)
        × (lookup name e.level (set_binding d name x level s) ≡ some x)
  unfolding lookup write top_is
  set_binding_out_of_order name x level s e es u st lt pos c =
      let other : (e.level == level) ≡ false = ground arith in
      let now : Entry T = record { value = x; level = level } in
      let stack : (set_binding d name x level s).stacks name ≡ now ∷ e ∷ es =
        stacks-set_binding d name name x level s
        ∙ if_pos (d name name) refl (write level x (s.stacks name)) (s.stacks name)
        ∙ ap (write level x) st
        ∙ rw other refl in
      let fuel : ℕ = e.level + suc (length (e ∷ es)) + 1 in
      let room : e.level < fuel = omega arith in
      let up_to : walk fuel s.parents (now ∷ e ∷ es) e.level ≡ some x =
        walk_up s.parents now (e ∷ es) u fuel c refl pos room in
      let some_fuel : 0 < e.level + length (e ∷ es) + 1 = omega arith in
      let pos' : 0 < e.level = omega arith in
      (
        rw st (walk_here s.parents e es _ some_fuel pos'),
        rw (parents-set_binding d name x level s, stack) up_to,
      )
