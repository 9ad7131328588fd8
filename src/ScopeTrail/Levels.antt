-- ===== src/ScopeTrail/Levels.antt =====
-- `parent_`, the vector of levels: what always holds of it, as levels are opened and popped.
use openscad_cpp_evaluator.Prelude.{
  ℕ, zero, suc, ◌+◌, ◌-◌, ◌≤◌, ◌<◌, ◌≡◌, refl, sym, ap, ◌∙◌, ◌≢◌, ◌⊎◌, inl, inr, true, false, List,
  [], ◌∷◌, ◌++◌, arith, ◌==◌, Bool-cases, length, set, take, length-append, length-set, length-take,
  get_or_outside, get_or-append_lt, get_or-append_length, get_or-set_ne, get_or-take,
  get_or-set_default, ℕ_discrete, dec_lt,
}
use openscad_cpp_evaluator.ScopeTrail.{Parent, dead, up, is_dead, slot, shrink, kill}
use openscad_cpp_evaluator.ScopeTrail.Lookup.{Upward}

-- A level that holds entries is open: it is above 0 and was not popped.
abbrev pub IsOpen : List Parent → ℕ → Type 0
IsOpen ps l = (0 < l) × (is_dead (slot ps l) ≡ false)

-- `parent_` has one slot for each level up to the newest, and the newest is no popped one.
pub record Levels (ps : List Parent) (next : ℕ) : Type 0 where
  pub sized : length ps ≡ next + 1
  pub upward : Upward ps
  pub tight : (next ≡ 0) ⊎ (is_dead (slot ps next) ≡ false)

pub open_is_inside : (ps : List Parent) (l : ℕ) → is_dead (slot ps l) ≡ false → l < length ps
open_is_inside ps l o = elim (dec_lt l (length ps)) [
  | yes h ↦ h
  | no h ↦ cc (ap is_dead (get_or_outside dead ps l (omega arith)))
]

module _ (ps : List Parent) (parent : ℕ) where
  pub slot-append_lt : (l : ℕ) → l < length ps → slot (ps ++ up parent ∷ []) l ≡ slot ps l
  slot-append_lt l h = get_or-append_lt dead ps _ l h

  pub slot-append_length : slot (ps ++ up parent ∷ []) (length ps) ≡ up parent
  slot-append_length = get_or-append_length dead ps [] (up parent)

  pub slot-append_ne : (l : ℕ) → l ≢ length ps → slot (ps ++ up parent ∷ []) l ≡ slot ps l
  slot-append_ne l ne = elim (dec_lt l (length ps)) [
    | yes lt ↦ slot-append_lt l lt
    | no ge ↦
        get_or_outside dead (ps ++ up parent ∷ []) l
          (omega (arith, length-append ps (up parent ∷ [])))
        ∙ sym (get_or_outside dead ps l (omega arith))
  ]

  Upward-append : Upward ps → parent < length ps → Upward (ps ++ up parent ∷ [])
  Upward-append u h l = elim (dec_lt (suc l) (length ps)) [
    | yes lt ↦ rw (slot-append_lt (suc l) lt) (u l)
    | no ge ↦ elim (ℕ_discrete (suc l) (length ps)) [
      | yes e ↦ rw (e, get_or-append_length dead ps [] (up parent)) (omega arith)
      | no ne ↦
          rw (get_or_outside dead (ps ++ up parent ∷ []) (suc l) (rw length-append (omega arith)))
            (omega arith)
    ]
  ]

  pub Levels-append :
      (next : ℕ) → Levels ps next → parent ≤ next → Levels (ps ++ up parent ∷ []) (next + 1)
  Levels-append next v h = record {
    sized = rw length-append (omega (arith, v.sized));
    upward = Upward-append v.upward (omega (arith, v.sized));
    tight = inr (rw (← v.sized, get_or-append_length dead ps [] (up parent)) refl);
  }

  pub IsOpen-append : (l : ℕ) → IsOpen ps l → IsOpen (ps ++ up parent ∷ []) l
  IsOpen-append l o = (o.0, rw (slot-append_lt l (open_is_inside ps l o.1)) o.1)

Upward-take : (n : ℕ) (ps : List Parent) → Upward ps → Upward (take n ps)
Upward-take n ps u l = elim (dec_lt (suc l) n) [
  | yes lt ↦ rw (get_or-take dead n ps (suc l) lt) (u l)
  | no ge ↦
      rw (get_or_outside dead (take n ps) (suc l) (omega (arith, length-take n ps))) (omega arith)
]

shrink-Levels :
    (n : ℕ) (ps : List Parent)
    → length ps ≡ n + 1
    → Upward ps
    → Levels (shrink n ps).1 (shrink n ps).0
unfolding shrink
shrink-Levels zero ps h u = record { sized = h; upward = u; tight = inl refl }
shrink-Levels (suc n) ps h u = elim (Bool-cases (is_dead (slot ps (suc n)))) [
  | inl e ↦
      rw (e, shrink)
        (shrink-Levels n (take (length ps - 1) ps) (omega (arith, length-take (length ps - 1) ps))
          (Upward-take (length ps - 1) ps u))
  | inr e ↦ rw (e, shrink) (record { sized = h; upward = u; tight = inr e })
]

is_dead→dead : (p : Parent) → is_dead p ≡ true → p ≡ dead
is_dead→dead dead h = refl
is_dead→dead (up p) h = cc

slot-pop_back :
    (ps : List Parent) (n : ℕ)
    → length ps ≡ n + 1
    → is_dead (slot ps n) ≡ true
    → (l : ℕ) → slot (take (length ps - 1) ps) l ≡ slot ps l
slot-pop_back ps n h e l =
    let m : ℕ = length ps - 1 in
    elim (dec_lt l m) [
      | yes lt ↦ get_or-take dead m ps l lt
      | no ge ↦
          get_or_outside dead (take m ps) l (omega (arith, length-take m ps))
          ∙ sym (elim (ℕ_discrete l n) [
            | yes q ↦ rw q (is_dead→dead (slot ps n) e)
            | no q ↦ get_or_outside dead ps l (omega arith)
          ])
    ]

-- What is dropped reads as popped before and after, so no slot changes.
shrink-slot :
    (n : ℕ) (ps : List Parent) → length ps ≡ n + 1 → (l : ℕ) → slot (shrink n ps).1 l ≡ slot ps l
unfolding shrink
shrink-slot zero ps h l = refl
shrink-slot (suc n) ps h l = elim (Bool-cases (is_dead (slot ps (suc n)))) [
  | inl e ↦
      rw (e, shrink)
        (shrink-slot n (take (length ps - 1) ps) (omega (arith, length-take (length ps - 1) ps)) l
          ∙ slot-pop_back ps (suc n) h e l)
  | inr e ↦ rw (e, shrink) refl
]

Upward-set : (ps : List Parent) (level : ℕ) → Upward ps → Upward (set ps level dead)
Upward-set ps level u l = elim (ℕ_discrete (suc l) level) [
  | yes e ↦ rw (e, get_or-set_default dead ps level) (omega arith)
  | no ne ↦ rw (get_or-set_ne dead ps level (suc l) dead ne) (u l)
]

module _ (ps : List Parent) (next level : ℕ) (v : Levels ps next) where
  pub kill-Levels : Levels (kill level next ps).1 (kill level next ps).0
  unfolding kill
  kill-Levels = elim (Bool-cases (level == next)) [
    | inl e ↦
        rw (e, kill)
          (shrink-Levels next (set ps level dead) (length-set ps level dead ∙ v.sized)
            (Upward-set ps level v.upward))
    | inr e ↦
        rw (e, kill)
          (record {
            sized = length-set ps level dead ∙ v.sized;
            upward = Upward-set ps level v.upward;
            tight = elim v.tight [
              | inl z ↦ inl z
              | inr o ↦ inr (rw (get_or-set_ne dead ps level next dead (λ q. ground arith)) o)
            ];
          })
  ]

  -- The slots of the other levels read as before, and that of the level as popped.
  pub slot-kill : (l : ℕ) → l ≢ level → slot (kill level next ps).1 l ≡ slot ps l
  unfolding kill
  slot-kill l ne =
      let same : slot (set ps level dead) l ≡ slot ps l = get_or-set_ne dead ps level l dead ne in
      elim (Bool-cases (level == next)) [
        | inl e ↦
            rw (e, kill)
              (shrink-slot next (set ps level dead) (length-set ps level dead ∙ v.sized) l ∙ same)
        | inr e ↦ rw (e, kill) same
      ]

  pub slot-kill_self : slot (kill level next ps).1 level ≡ dead
  unfolding kill
  slot-kill_self =
      let gone : slot (set ps level dead) level ≡ dead = get_or-set_default dead ps level in
      elim (Bool-cases (level == next)) [
        | inl e ↦
            rw (e, kill)
              (shrink-slot next (set ps level dead) (length-set ps level dead ∙ v.sized) level
                ∙ gone)
        | inr e ↦ rw (e, kill) gone
      ]
