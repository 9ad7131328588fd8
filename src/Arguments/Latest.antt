-- ===== src/Arguments/Latest.antt =====
-- What binding the arguments of a call promises: the assignments of values to names that a call makes,
-- and a frame in which each parameter has the last value that was assigned to its name.
use openscad_cpp_evaluator.Prelude.{
  ℕ, zero, suc, ◌≡◌, refl, arith, Bool, true, false, List, [], ◌∷◌, Option, none, some,
  if◌then◌else◌, get_elem?, drop, inl, inr, Bool-cases,
}
use openscad_cpp_evaluator.Prelude.Bytes.{bytes_eq, bytes_eq-eq}
use openscad_cpp_evaluator.Value.{Value}
use openscad_cpp_evaluator.Expression.{Name, find, is_dyn_name}
use openscad_cpp_evaluator.Arguments.{Supplied}
use openscad_cpp_evaluator.Arguments.Frames.{Param, ArgFrame, set_dyn}

module _ {D : Type 0} where
  -- The assignments that the arguments make, in order: a named argument to its name, a positional one
  -- to the next parameter that no positional argument took, if any is left.
  unfoldable pub assignments : List Name → List (Supplied D) → List (Name × Value D)
  assignments left [] = []
  assignments left ((some n, v) ∷ args) = (n, v) ∷ assignments left args
  assignments [] ((none, v) ∷ args) = assignments [] args
  assignments (p ∷ left) ((none, v) ∷ args) = (p, v) ∷ assignments left args

  -- The last value that is assigned to a name, as `of` makes it, or else `old`.
  unfoldable pub latest : {A : Type 0} → (Value D → A) → List (Name × Value D) → Name → A → A
  latest of [] n old = old
  latest of ((k, v) ∷ made) n old = latest of made n (if bytes_eq k n then of v else old)

  abbrev pub as_given : Value D → Value D
  as_given v = v

  abbrev pub to_true : Value D → Bool
  to_true v = true

  -- Each parameter is flagged and its slot filled as the last assignment to its name says, and is left
  -- alone if there is none; so are the names with a `$`, be they parameters or not.
  pub record AreBound (params : List Param) (made : List (Name × Value D)) (f g : ArgFrame D)
      : Type 0 where
    pub flags :
        (i : ℕ) (p : Param)
        → get_elem? params i ≡ some p
        → g.bound i ≡ latest to_true made p.name (f.bound i)
    pub filled :
        (i : ℕ) (p : Param)
        → get_elem? params i ≡ some p
        → p.is_dyn ≡ false
        → g.slots p.slot ≡ latest as_given made p.name (f.slots p.slot)
    pub dynamic :
        (k : Name) → is_dyn_name k ≡ true → find g.dyn k ≡ latest some made k (find f.dyn k)

  pub AreBound-nil : (params : List Param) (f : ArgFrame D) → AreBound params [] f f
  unfolding latest
  AreBound-nil params f = record {
    flags = λ i p h. refl;
    filled = λ i p h plain. refl;
    dynamic = λ k h. refl;
  }

  -- A single assignment and those after it.
  pub AreBound-cons :
      {params : List Param} {n : Name} {v : Value D} {made : List (Name × Value D)}
      {f g h : ArgFrame D}
      → AreBound params ((n, v) ∷ []) f g
      → AreBound params made g h
      → AreBound params ((n, v) ∷ made) f h
  unfolding latest
  AreBound-cons a b = record {
    flags = λ i p e. rw (← a.flags i p e) (b.flags i p e);
    filled = λ i p e plain. rw (← a.filled i p e plain) (b.filled i p e plain);
    dynamic = λ k d. rw (← a.dynamic k d) (b.dynamic k d);
  }

  abbrev pub from : {A : Type 0} → (Value D → A) → Option (Value D) → A → A
  from of none old = old
  from of (some v) old = of v

  latest-from :
      {A : Type 0} (of : Value D → A) (made : List (Name × Value D)) (n : Name)
      (o : Option (Value D)) (old : A)
      → latest of made n (from of o old) ≡ from of (latest some made n o) old
  unfolding latest
  latest-from of [] n o old = refl
  latest-from of ((k, v) ∷ made) n o old = elim (Bool-cases (bytes_eq k n)) [
    | inl same ↦ rw same (latest-from of made n (some v) old)
    | inr other ↦ rw other (latest-from of made n o old)
  ]

  -- Every reading of the assignments goes by the last value.
  pub latest-of :
      {A : Type 0} (of : Value D → A) (made : List (Name × Value D)) (n : Name) (old : A)
      → latest of made n old ≡ from of (latest some made n none) old
  latest-of of made n old = latest-from of made n none old

-- A name that no parameter has.
module _ {D : Type 0} (params : List Param) (n : Name) (v : Value D)
    (missing : (i : ℕ) (p : Param) → get_elem? params i ≡ some p → bytes_eq n p.name ≡ false) where
  pub unfound-AreBound :
      (f : ArgFrame D)
      → AreBound params ((n, v) ∷ []) f (if is_dyn_name n then set_dyn n v f else f)
  unfolding latest find
  unfound-AreBound f = elim (Bool-cases (is_dyn_name n)) [
    | inl dynamic ↦ rw dynamic (record {
      flags = λ i p here. rw (missing i p here) refl;
      filled = λ i p here plain. rw (missing i p here) refl;
      dynamic = λ k d. refl;
    })
    | inr plain ↦ rw plain (record {
      flags = λ i p here. rw (missing i p here) refl;
      filled = λ i p here free. rw (missing i p here) refl;
      dynamic = λ k d.
          let other : bytes_eq n k ≡ false = ground (arith, bytes_eq-eq n k, plain, d) in
          rw other refl;
    })
  ]

-- The positional arguments from some index on take the parameters from there on.
pub drop-some :
    {A : Type 0} (xs : List A) (i : ℕ) {x : A}
    → get_elem? xs i ≡ some x
    → drop i xs ≡ x ∷ drop (suc i) xs
drop-some [] i h = cc
drop-some (x ∷ xs) zero h = cc
drop-some (x ∷ xs) (suc i) h = drop-some xs i h

pub drop-none :
    {A : Type 0} (xs : List A) (i : ℕ) → get_elem? xs i ≡ none → drop i xs ≡ drop (suc i) xs
drop-none [] zero h = refl
drop-none [] (suc i) h = refl
drop-none (x ∷ xs) zero h = cc
drop-none (x ∷ xs) (suc i) h = drop-none xs i h

pub drop-none_nil : {A : Type 0} (xs : List A) (i : ℕ) → get_elem? xs i ≡ none → drop i xs ≡ []
drop-none_nil [] zero h = refl
drop-none_nil [] (suc i) h = refl
drop-none_nil (x ∷ xs) zero h = cc
drop-none_nil (x ∷ xs) (suc i) h = drop-none_nil xs i h
