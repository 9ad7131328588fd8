-- ===== src/ScopeTrail/Invariant.antt =====
-- What always holds of a storage, and that each operation keeps it.
use openscad_cpp_evaluator.Prelude.{
  ℕ, suc, ◌≤◌, ◌<◌, ◌≡◌, refl, inl, inr, false, List, [], ◌∷◌, ◌++◌, arith, All, Bool-cases,
  ℕ_discrete,
}
use mathlib.Core.Logic.{if_pos, if_neg}
use openscad_cpp_evaluator.ScopeTrail.{
  Entry, Storage, update, open_level, mark_dead, top_is, set_top, set_binding, erase_names,
  pop_level, empty_storage,
}
use openscad_cpp_evaluator.ScopeTrail.Lookup.{AllBelow, AllBelow-le, Descending}
use openscad_cpp_evaluator.ScopeTrail.Levels.{
  IsOpen, Levels, Levels-append, IsOpen-append, kill-Levels, slot-kill,
}
use openscad_cpp_evaluator.ScopeTrail.Erase.{
  Contains, without, All-without, Descending-without, erase_names-without,
}

pub record IsValid {κ} {K : Type 0} {T : Type κ} (s : Storage K T) : Type 0 where
  pub levels : Levels s.parents s.next_level
  pub descending : (k : K) → Descending (s.stacks k)
  pub live : (k : K) → All {A = Entry T} (λ e. IsOpen s.parents e.level) (s.stacks k)
  pub recorded : (k : K) → All {A = Entry T} (λ e. Contains k (s.dirty e.level)) (s.stacks k)

All-imp {ℓ μ ν} :
    {A : Type ℓ} {P : A → Type μ} {Q : A → Type ν}
    → ((a : A) → P a → Q a)
    → (xs : List A) → All P xs
    → All Q xs
All-imp f [] h = tt
All-imp f (x ∷ xs) h = (f x h.0, All-imp f xs h.1)

Contains-append : {K : Type 0} (k : K) (xs ys : List K) → Contains k xs → Contains k (xs ++ ys)
Contains-append k [] ys h = absurd h
Contains-append k (x ∷ xs) ys (inl e) = inl e
Contains-append k (x ∷ xs) ys (inr h) = inr (Contains-append k xs ys h)

Contains-last : {K : Type 0} (k : K) (xs : List K) → Contains k (xs ++ k ∷ [])
Contains-last k [] = inl refl
Contains-last k (x ∷ xs) = inr (Contains-last k xs)

-- What holds of the new value and of the old ones holds after an update.
update-holds {κ μ} :
    {K : Type 0} (d : Discrete K) {V : Type κ} (Q : K → V → Type μ) (f : K → V) (k : K) (v : V)
    → Q k v
    → ((j : K) → Q j (f j))
    → (j : K) → Q j (update d f k v j)
update-holds d Q f k v new old j = elim (d j k) [
  | yes e ↦ rw (if_pos _ e, e) new
  | no e ↦ rw (if_neg _ e) (old j)
]

module _ {κ} {T : Type κ} where
  AllBelow-set_top :
      (n : ℕ) (x : T) (es : List (Entry T)) → AllBelow n es → AllBelow n (set_top x es)
  unfolding set_top
  AllBelow-set_top n x [] b = tt
  AllBelow-set_top n x (e ∷ es) b = b

  Descending-set_top : (x : T) (es : List (Entry T)) → Descending es → Descending (set_top x es)
  unfolding set_top
  Descending-set_top x [] b = tt
  Descending-set_top x (e ∷ es) b = b

  -- A property of levels is not touched by a new value.
  All-set_top :
      (P : ℕ → Type 0) (x : T) (es : List (Entry T))
      → All (λ e. P e.level) es
      → All (λ e. P e.level) (set_top x es)
  unfolding set_top
  All-set_top P x [] h = tt
  All-set_top P x (e ∷ es) h = h

  -- A stack whose top is no entry of the level has only entries of lower levels.
  pub AllBelow-push :
      (level : ℕ) (es : List (Entry T))
      → top_is level es ≡ false
      → AllBelow (suc level) es
      → Descending es
      → AllBelow level es
  unfolding top_is
  AllBelow-push level [] h b de = tt
  AllBelow-push level (e ∷ es) h b de =
      let lt : e.level < level = ground arith in
      (lt, AllBelow-le e.level level es (omega arith) de.0)

module _ {κ} {K : Type 0} {T : Type κ} where
  pub empty_storage-IsValid : IsValid {K = K} {T = T} empty_storage
  empty_storage-IsValid = record {
    levels = record { sized = omega arith; upward = λ l. omega arith; tight = inl refl };
    descending = λ k. tt;
    live = λ k. tt;
    recorded = λ k. tt;
  }

  -- Opening a level below an open one, or a root level, keeps the invariant.
  pub open_level-IsValid :
      (parent : ℕ) (s : Storage K T)
      → parent ≤ s.next_level
      → IsValid s
      → IsValid (open_level parent s).1
  unfolding open_level
  open_level-IsValid parent s h v = record {
    levels = Levels-append s.parents parent s.next_level v.levels h;
    descending = v.descending;
    live = λ k. All-imp (λ e o. IsOpen-append s.parents parent e.level o) (s.stacks k) (v.live k);
    recorded = v.recorded;
  }

module _ {κ} {K : Type 0} (d : Discrete K) {T : Type κ} where
  -- Popping a level keeps the invariant.
  pub pop_level-IsValid : (level : ℕ) (s : Storage K T) → IsValid s → IsValid (pop_level d level s)
  unfolding pop_level mark_dead
  pop_level-IsValid level s v = record {
    levels = kill-Levels s.parents s.next_level level v.levels;
    descending = λ k. rw (left k) (Descending-without level (s.stacks k) (v.descending k));
    live = λ k. rw (left k) (
        All-imp
          (λ e o. (o.0.0, rw (slot-kill s.parents s.next_level level v.levels e.level o.1) o.0.1)) _
          (All-without _ level (s.stacks k) (v.live k)));
    recorded = λ k. rw (left k) (
        All-imp (λ e c. rw (if_neg _ c.1) c.0) _ (All-without _ level (s.stacks k) (v.recorded k)));
  }
    where
      left : (k : K) → erase_names d (s.dirty level) level s.stacks k ≡ without level (s.stacks k)
      left k = erase_names-without d k level s.dirty s.stacks (v.recorded k) (v.descending k)

  module _ (name : K) (x : T) (level : ℕ) (s : Storage K T) (v : IsValid s)
      (o : IsOpen s.parents level) (b : AllBelow (suc level) (s.stacks name)) where
    overwrite-IsValid :
        IsValid (record s { stacks = update d s.stacks name (set_top x (s.stacks name)) })
    overwrite-IsValid = record {
      levels = v.levels;
      descending =
          update-holds d (λ k es. Descending {T = T} es) _ _ _
            (Descending-set_top x _ (v.descending name)) v.descending;
      live =
          update-holds d (λ k es. All {A = Entry T} (λ e. IsOpen s.parents e.level) es) _ _ _
            (All-set_top (IsOpen s.parents) x _ (v.live name)) v.live;
      recorded =
          update-holds d (λ k es. All {A = Entry T} (λ e. Contains k (s.dirty e.level)) es) _ _ _
            (All-set_top (λ l. Contains name (s.dirty l)) x _ (v.recorded name)) v.recorded;
    }

    more_dirty : ℕ → List K
    more_dirty = update ℕ_discrete s.dirty level (s.dirty level ++ name ∷ [])

    still_recorded : (k : K) (l : ℕ) → Contains k (s.dirty l) → Contains k (more_dirty l)
    unfolding more_dirty
    still_recorded k l c = elim (ℕ_discrete l level) [
      | yes e ↦ rw (if_pos _ e) (Contains-append k (s.dirty level) _ (rw e at c))
      | no e ↦ rw (if_neg _ e) c
    ]

    push-IsValid :
        top_is level (s.stacks name) ≡ false
        → IsValid (record s {
          stacks = update d s.stacks name (record { value = x; level = level } ∷ s.stacks name);
          dirty = more_dirty;
        })
    unfolding more_dirty
    push-IsValid h = record {
      levels = v.levels;
      descending =
          update-holds d (λ k es. Descending {T = T} es) _ _ _
            (AllBelow-push level _ h b (v.descending name), v.descending name) v.descending;
      live =
          update-holds d (λ k es. All {A = Entry T} (λ e. IsOpen s.parents e.level) es) _ _ _
            (o, v.live name) v.live;
      recorded =
          update-holds d (λ k es. All {A = Entry T} (λ e. Contains k (more_dirty e.level)) es) _ _ _
            (
              rw (if_pos (ℕ_discrete level level) refl) (Contains-last name (s.dirty level)),
              All-imp (λ e c. still_recorded name e.level c) _ (v.recorded name),
            )
            (λ k. All-imp (λ e c. still_recorded k e.level c) _ (v.recorded k));
    }

    -- A write at an open level keeps the invariant, if no deeper level holds the name.
    pub set_binding-IsValid : IsValid (set_binding d name x level s)
    unfolding set_binding more_dirty
    set_binding-IsValid = elim (Bool-cases (top_is level (s.stacks name))) [
      | inl e ↦ rw e overwrite-IsValid
      | inr e ↦ rw e (push-IsValid e)
    ]
