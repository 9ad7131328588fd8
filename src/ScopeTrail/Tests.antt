-- ===== src/ScopeTrail/Tests.antt =====
-- The storage on small programs, and the theorems at concrete inputs. Names are numbers here.
use openscad_cpp_evaluator.Prelude.{ℕ, ◌≡◌, refl, arith, [], ◌∷◌, none, some, ℕ_discrete}
use openscad_cpp_evaluator.ScopeTrail.{
  Storage, empty_storage, open_level, set_binding, pop_level, lookup, walk, top_is, set_top,
  erase_level, erase_names, mark_dead, kill, shrink,
}
use openscad_cpp_evaluator.ScopeTrail.Lookup.{Resolves, lookup-Resolves}
use openscad_cpp_evaluator.ScopeTrail.Invariant.{
  IsValid, empty_storage-IsValid, open_level-IsValid, set_binding-IsValid, pop_level-IsValid,
}
use openscad_cpp_evaluator.ScopeTrail.Chains.{OnChain, self, above, OnChain-le}
use openscad_cpp_evaluator.ScopeTrail.Visible.{
  lookup-set_binding_elsewhere, lookup-pop_level, lookup-pop_level_self,
}
use openscad_cpp_evaluator.ScopeTrail.Scopes.{
  run_scope, set_all, lookup-run_scope, set_binding_out_of_order,
}
use openscad_cpp_evaluator.ScopeTrail.Dyn.{DynEntry}

-- The root level 1 binds name 7 to 10.
abbrev opened : Storage ℕ ℕ
opened = (open_level 0 empty_storage).1

abbrev rooted : Storage ℕ ℕ
rooted = set_binding ℕ_discrete 7 10 1 opened

opened-IsValid : IsValid opened
opened-IsValid = open_level-IsValid 0 empty_storage (omega arith) empty_storage-IsValid

rooted-IsValid : IsValid rooted
unfolding open_level
rooted-IsValid = set_binding-IsValid ℕ_discrete 7 10 1 opened opened-IsValid (omega arith, refl) tt

-- A child scope shadows the name, a grandchild reads the shadow, and popping both uncovers it.
shadowed :
    lookup 7 3 (open_level 2 (set_binding ℕ_discrete 7 20 2 (open_level 1 rooted).1)).1 ≡ some 20
unfolding lookup walk set_binding top_is open_level ℕ_discrete
shadowed = refl

uncovered : lookup 7 1 (run_scope ℕ_discrete 1 ((7, 20) ∷ []) rooted) ≡ some 10
unfolding lookup walk set_binding top_is open_level run_scope set_all pop_level mark_dead kill
    shrink erase_names erase_level ℕ_discrete
uncovered = refl

lookup-Resolves_example : Resolves rooted.parents (rooted.stacks 7) 1 (lookup 7 1 rooted)
lookup-Resolves_example =
    lookup-Resolves rooted 7 1 rooted-IsValid.levels.upward (rooted-IsValid.descending 7)

set_binding-IsValid_example : IsValid (set_binding ℕ_discrete 7 11 1 rooted)
unfolding set_binding top_is set_top open_level ℕ_discrete
set_binding-IsValid_example =
    set_binding-IsValid ℕ_discrete 7 11 1 rooted rooted-IsValid (omega arith, refl)
      (omega arith, tt)

pop_level-IsValid_example : IsValid (pop_level ℕ_discrete 1 rooted)
pop_level-IsValid_example = pop_level-IsValid ℕ_discrete 1 rooted rooted-IsValid

open_level-IsValid_example : IsValid (open_level 1 rooted).1
unfolding set_binding top_is open_level
open_level-IsValid_example = open_level-IsValid 1 rooted (omega arith) rooted-IsValid

-- Level 2, below level 1, holds the name too.
abbrev nested : Storage ℕ ℕ
nested = set_binding ℕ_discrete 7 20 2 (open_level 1 rooted).1

deeper-IsValid : IsValid (open_level 1 rooted).1
unfolding set_binding top_is open_level
deeper-IsValid = open_level-IsValid 1 rooted (omega arith) rooted-IsValid

nested-IsValid : IsValid nested
unfolding set_binding top_is open_level ℕ_discrete
nested-IsValid =
    set_binding-IsValid ℕ_discrete 7 20 2 (open_level 1 rooted).1 deeper-IsValid (omega arith, refl)
      (omega arith, tt)

below_two : ¬ OnChain nested.parents 1 2
below_two c = omega (arith, OnChain-le nested.parents nested-IsValid.levels.upward c)

lookup-set_binding_elsewhere_example :
    lookup 7 1 (set_binding ℕ_discrete 7 30 2 nested) ≡ lookup 7 1 nested
unfolding set_binding top_is open_level ℕ_discrete
lookup-set_binding_elsewhere_example =
    lookup-set_binding_elsewhere ℕ_discrete 7 30 2 nested nested-IsValid (omega arith, refl)
      (omega arith, (omega arith, tt)) 1 below_two

lookup-pop_level_example : lookup 7 1 (pop_level ℕ_discrete 2 nested) ≡ lookup 7 1 nested
lookup-pop_level_example = lookup-pop_level ℕ_discrete 2 nested nested-IsValid 7 1 below_two

lookup-pop_level_self_example : lookup 7 2 (pop_level ℕ_discrete 2 nested) ≡ none
lookup-pop_level_self_example = lookup-pop_level_self ℕ_discrete 2 nested nested-IsValid 7

lookup-run_scope_example :
    lookup 7 1 (run_scope ℕ_discrete 1 ((7, 20) ∷ (8, 5) ∷ []) rooted) ≡ lookup 7 1 rooted
unfolding set_binding top_is open_level
lookup-run_scope_example =
    lookup-run_scope ℕ_discrete 1 ((7, 20) ∷ (8, 5) ∷ []) rooted 7 1 rooted-IsValid (omega arith)
      (omega arith)

-- `f = let(x = 20) function() x; x = 30;`: the captured level 2 reads 30.
set_binding_out_of_order_example :
    (lookup 7 2 nested ≡ some 20) × (lookup 7 2 (set_binding ℕ_discrete 7 30 1 nested) ≡ some 30)
unfolding set_binding top_is open_level ℕ_discrete
set_binding_out_of_order_example =
    set_binding_out_of_order ℕ_discrete 7 30 1 nested (record { value = 20; level = 2 })
      (record { value = 10; level = 1 } ∷ []) nested-IsValid.levels.upward refl (omega arith)
      (omega arith) (above (self (omega arith)))

abbrev dyn_opened : Storage ℕ (DynEntry ℕ)
dyn_opened = (open_level 0 empty_storage).1
