-- ===== src/ScopeTrail.antt =====
-- include/openscad_cpp_evaluator/scope_trail.hpp: the storage behind every scope. One
-- `ScopeTrailStorage` holds the bindings of all scopes. Each name has a stack of entries, tagged with
-- the level (scope instantiation) that made them, and a read walks the chain of levels from its own.
-- A stack is a list with the last pushed entry first; `stacks_` and `dirty_` are functions, empty at a
-- key that the maps do not have.
pub mod Lookup
pub mod Levels
pub mod Erase
pub mod Invariant
pub mod Dyn
pub mod Scopes
mod Tests
pub mod Chains
pub mod Visible
use openscad_cpp_evaluator.Prelude.{
  ℕ, zero, suc, ◌+◌, ◌-◌, Bool, true, false, List, [], ◌∷◌, ◌++◌, Option, none, some, ltb, ◌==◌,
  if◌then◌else◌, length, get_or, set, take, ℕ_discrete,
}
use mathlib.Core.Logic.{ite}

-- A slot of `parent_`: -1 for a level that was popped, else the parent's level, 0 for none.
pub data Parent : Type 0 where
  dead : Parent
  up : ℕ → Parent

pub record Entry {ℓ} (T : Type ℓ) : Type ℓ where
  pub value : T
  pub level : ℕ

pub record Storage {ℓ κ} (K : Type ℓ) (T : Type κ) : Type (ℓ ⊔ κ) where
  pub stacks : K → List (Entry T)
  pub dirty : ℕ → List K
  pub parents : List Parent
  pub next_level : ℕ

-- Both -1 and 0 end the walk, whose condition is `ancestor > 0`.
abbrev pub as_level : Parent → ℕ
as_level dead = 0
as_level (up p) = p

abbrev pub is_dead : Parent → Bool
is_dead dead = true
is_dead (up p) = false

-- The levels read are in range; `dead` stands for a slot past the end.
abbrev pub slot : List Parent → ℕ → Parent
slot ps l = get_or ps l dead

abbrev pub parent_of : List Parent → ℕ → ℕ
parent_of ps l = as_level (slot ps l)

abbrev pub update {ℓ κ} : {K : Type ℓ} {V : Type κ} → Discrete K → (K → V) → K → V → K → V
update d f k v j = ite (d j k) v (f j)

module _ {ℓ κ} {K : Type ℓ} {T : Type κ} where
  abbrev pub empty_storage : Storage K T
  empty_storage = record { stacks = λ k. []; dirty = λ l. []; parents = up 0 ∷ []; next_level = 0 }

  pub open_level : ℕ → Storage K T → ℕ × Storage K T
  open_level parent s = (
    s.next_level + 1,
    record s { next_level = s.next_level + 1; parents = s.parents ++ up parent ∷ [] },
  )

module _ {κ} {T : Type κ} where
  -- `!vec.empty() && vec.back().level == level`.
  pub top_is : ℕ → List (Entry T) → Bool
  top_is level [] = false
  top_is level (e ∷ es) = e.level == level

  pub set_top : T → List (Entry T) → List (Entry T)
  set_top v [] = []
  set_top v (e ∷ es) = record e { value = v } ∷ es

  -- The scan from the back that removes the last entry of one level.
  pub erase_level : ℕ → List (Entry T) → List (Entry T)
  erase_level level [] = []
  erase_level level (e ∷ es) = if e.level == level then es else e ∷ erase_level level es

  -- The merge loop of `lookup`: from the back of the stack and from the reader's own level upwards.
  pub walk : ℕ → List Parent → List (Entry T) → ℕ → Option T
  walk zero ps es ancestor = none
  walk (suc fuel) ps [] ancestor = none
  walk (suc fuel) ps (e ∷ es) ancestor = elim (ancestor == 0) [
    | true ↦ none
    | false ↦ elim (ltb ancestor e.level) [
      | true ↦ walk fuel ps es ancestor
      | false ↦ elim (e.level == ancestor) [
        | true ↦ some e.value
        | false ↦ walk fuel ps (e ∷ es) (parent_of ps ancestor)
      ]
    ]
  ]

module _ {ℓ κ} {K : Type ℓ} {T : Type κ} where
  -- Each round drops an entry or goes to a smaller level.
  pub lookup : K → ℕ → Storage K T → Option T
  lookup name my_level s =
      walk (my_level + length (s.stacks name) + 1) s.parents (s.stacks name) my_level

  pub has : K → ℕ → Storage K T → Bool
  has name my_level s = elim (lookup name my_level s) [ none ↦ false | some v ↦ true ]

-- The loop of `markDead`.
pub shrink : ℕ → List Parent → ℕ × List Parent
shrink zero ps = (zero, ps)
shrink (suc n) ps = elim (is_dead (slot ps (suc n))) [
  | true ↦ shrink n (take (length ps - 1) ps)
  | false ↦ (suc n, ps)
]

-- The two fields that `markDead` writes.
pub kill : ℕ → ℕ → List Parent → ℕ × List Parent
kill level next ps =
    let qs = set ps level dead in if level == next then shrink next qs else (next, qs)

module _ {ℓ κ} {K : Type ℓ} {T : Type κ} where
  pub mark_dead : ℕ → Storage K T → Storage K T
  mark_dead level s = record s {
    parents = (kill level s.next_level s.parents).1;
    next_level = (kill level s.next_level s.parents).0;
  }

module _ {ℓ κ} {K : Type ℓ} (d : Discrete K) {T : Type κ} where
  pub set_binding : K → T → ℕ → Storage K T → Storage K T
  set_binding name v level s =
      let es = s.stacks name in
      if top_is level es
      then record s { stacks = update d s.stacks name (set_top v es) }
      else record s {
        stacks = update d s.stacks name (record { value = v; level = level } ∷ es);
        dirty = update ℕ_discrete s.dirty level (s.dirty level ++ name ∷ []);
      }

  pub erase_names : List K → ℕ → (K → List (Entry T)) → K → List (Entry T)
  erase_names [] level stacks = stacks
  erase_names (name ∷ names) level stacks =
      erase_names names level (update d stacks name (erase_level level (stacks name)))

  pub pop_level : ℕ → Storage K T → Storage K T
  pop_level level s = mark_dead level (record s {
    stacks = erase_names (s.dirty level) level s.stacks;
    dirty = update ℕ_discrete s.dirty level [];
  })
