-- ===== src/Arguments/ByPlan.antt =====
-- The planned binding of arguments (`planCallSiteArgs` of src/bytecode_compiler.cpp,
-- `bindPlannedArgsIntoFrame` of src/bytecode_vm.cpp) against what a binding promises.
use openscad_cpp_evaluator.Prelude.{
  ℕ, suc, ◌≡◌, refl, sym, ap, subst, ◌∙◌, arith, true, false, ◌&&◌, ◌||◌, List, [], ◌∷◌, Option,
  none, some, if◌then◌else◌, get_elem?, drop, map, inl, inr, Bool-cases, Option-cases,
}
use openscad_cpp_evaluator.Prelude.Bytes.{bytes_eq, bytes_eq-eq}
use openscad_cpp_evaluator.Value.{Value}
use openscad_cpp_evaluator.Expression.{Name, find, is_dyn_name}
use openscad_cpp_evaluator.Arguments.{Supplied}
use openscad_cpp_evaluator.Arguments.Frames.{Param, names_of, ArgFrame, set_dyn}
use openscad_cpp_evaluator.Arguments.Plans.{
  ArgBind, no_bind, bind_every_param_named, plan_named, plan_positional, plan_call_site_args,
  set_at, set_each, bind_planned_arg, bind_planned_args_into_frame,
}
use openscad_cpp_evaluator.Arguments.Layout.{
  IsLayout, set_param-filled, set_param-flags, set_param-dynamic, IsRest, IsRest-all, IsRest-first,
  IsRest-later,
}
use openscad_cpp_evaluator.Arguments.Latest.{
  assignments, latest, AreBound, unfound-AreBound, AreBound-nil, AreBound-cons, drop-some,
  drop-none, drop-none_nil,
}
use openscad_cpp_evaluator.Arguments.Indices.{
  indices, holds, has_any, split, bind_every-split, holds-none, has_any-false, holds-indices,
  indices-any, plan_positional-some, plan_positional-none,
}

module _ {D : Type 0} (params : List Param) (layout : IsLayout params) (n : Name)
    (v : Value D) where
  abbrev IsNamed : List ℕ → Type 0
  IsNamed [] = Unit
  IsNamed (i ∷ is) = ((p : Param) × (get_elem? params i ≡ some p) × (p.name ≡ n)) × IsNamed is

  -- What a frame is after the parameters with some numbers are set.
  record AreSet (is : List ℕ) (f g : ArgFrame D) : Type 0 where
    flags : (j : ℕ) → g.bound j ≡ (holds is j || f.bound j)
    filled :
        (j : ℕ) (q : Param)
        → get_elem? params j ≡ some q
        → q.is_dyn ≡ false
        → g.slots q.slot ≡ (if holds is j then v else f.slots q.slot)
    dynamic :
        (k : Name)
        → find g.dyn k
          ≡ (if has_any is && (is_dyn_name n && bytes_eq n k) then some v else find f.dyn k)

  set_at-AreSet :
      (i : ℕ) (f : ArgFrame D) → IsNamed (i ∷ []) → AreSet (i ∷ []) f (set_at params i v f)
  set_at-AreSet i f ((p, here, same), _) =
      rw (here, set_at)
        (record {
          flags = λ j. ground (arith, set_param-flags params layout i p here v f j);
          filled = λ j q there plain.
              ground (arith, set_param-filled params layout i p here v f j q there plain);
          dynamic =
              λ k. rw (← same) (ground (arith, set_param-dynamic params layout i p here v f k));
        })

  AreSet-trans :
      (is js : List ℕ) (f g h : ArgFrame D)
      → AreSet is f g
      → AreSet js g h
      → (holds_both : List ℕ) → ((j : ℕ) → holds holds_both j ≡ (holds is j || holds js j))
      → has_any holds_both ≡ (has_any is || has_any js)
      → AreSet holds_both f h
  AreSet-trans is js f g h a b both e any = record {
    flags = λ j. ground (arith, a.flags j, b.flags j, e j);
    filled =
        λ j q there plain. ground (arith, a.filled j q there plain, b.filled j q there plain, e j);
    dynamic = λ k. ground (arith, a.dynamic k, b.dynamic k, any);
  }

  set_each-AreSet :
      (is : List ℕ) (f : ArgFrame D) → IsNamed is → AreSet is f (set_each params is v f)
  unfolding set_each
  set_each-AreSet [] f h = record {
    flags = λ j. refl;
    filled = λ j q there plain. refl;
    dynamic = λ k. refl;
  }
  set_each-AreSet (i ∷ is) f h =
      AreSet-trans (i ∷ []) is f (set_at params i v f) (set_each params is v (set_at params i v f))
        (set_at-AreSet i f (h.0, tt)) (set_each-AreSet is (set_at params i v f) h.1) (i ∷ is)
        (λ j. ground arith) refl

  -- The numbers that are found are those of parameters with the name.
  indices-IsNamed :
      (i : ℕ) (left : List Param) → IsRest params i left → IsNamed (indices (names_of left) n i)
  indices-IsNamed i [] h = tt
  indices-IsNamed i (p ∷ left) h =
      let later = indices-IsNamed (suc i) left (IsRest-later params i p left h) in
      elim (Bool-cases (bytes_eq p.name n)) [
        | inl same ↦ rw same ((p, IsRest-first params i p left h, bytes_eq-eq p.name n same), later)
        | inr other ↦ rw other later
      ]

  abbrev found : List ℕ
  found = indices (names_of params) n 0

  -- Every parameter of the name is set.
  AreSet-AreBound :
      (f g : ArgFrame D)
      → has_any found ≡ true
      → AreSet found f g
      → AreBound params ((n, v) ∷ []) f g
  unfolding latest
  AreSet-AreBound f g any a = record {
    flags = λ i p here. ground (arith, a.flags i, holds-indices params n 0 i p here);
    filled = λ i p here plain.
        ground (arith, a.filled i p here plain, holds-indices params n 0 i p here);
    dynamic = λ k d. elim (Bool-cases (bytes_eq n k)) [
      | inl same ↦
          let given : is_dyn_name n ≡ true = rw (bytes_eq-eq n k same) d in
          ground (arith, a.dynamic k, any, given)
      | inr other ↦ ground (arith, a.dynamic k, any)
    ];
  }

  set_split :
      (is : List ℕ) (f : ArgFrame D)
      → has_any is ≡ true
      → IsNamed is
      → (b : ArgBind) → b.param_index ≡ (split is).param_index
      → b.also_params ≡ (split is).also_params
      → (name : Option Name) → AreSet is f (bind_planned_arg params b (name, v) f)
  unfolding bind_planned_arg
  set_split [] f any h b e also name = cc
  set_split (i ∷ is) f any h b e also name =
      rw (e, also)
        (AreSet-trans is (i ∷ []) f (set_each params is v f)
          (set_at params i v (set_each params is v f)) (set_each-AreSet is f h.1)
          (set_at-AreSet i (set_each params is v f) (h.0, tt)) (i ∷ is) (λ j. ground arith)
          (ground arith))

  set_missing :
      (f : ArgFrame D) (b : ArgBind)
      → b.param_index ≡ none
      → b.to_dyn ≡ is_dyn_name n
      → bind_planned_arg params b (some n, v) f ≡ (if is_dyn_name n then set_dyn n v f else f)
  unfolding bind_planned_arg
  set_missing f b e d = rw (e, d) refl

  found-IsNamed : IsNamed found
  found-IsNamed = indices-IsNamed 0 params (IsRest-all params)

  found-none :
      has_any found ≡ false → (bind_every_param_named no_bind (names_of params) n 0) ≡ no_bind
  found-none missing = rw (bind_every-split (names_of params) n 0, has_any-false found missing) refl

  -- A name without a `$` gets no dynamic value.
  AreSet-plain :
      (is : List ℕ) (f g : ArgFrame D) (k : Name)
      → is_dyn_name k ≡ false
      → AreSet is f g
      → find g.dyn k ≡ find f.dyn k
  AreSet-plain is f g k plain a = elim (Bool-cases (bytes_eq n k)) [
    | inl same ↦
        let free : is_dyn_name n ≡ false = rw (bytes_eq-eq n k same) plain in
        ground (arith, a.dynamic k, free)
    | inr other ↦ ground (arith, a.dynamic k, other)
  ]

  found-AreSet :
      (f : ArgFrame D)
      → has_any found ≡ true
      → AreSet found f (bind_planned_arg params (plan_named (names_of params) n) (some n, v) f)
  unfolding plan_named
  found-AreSet f any =
      set_split found f any found-IsNamed (plan_named (names_of params) n)
        (rw (bind_every-split (names_of params) n 0) refl)
        (rw (bind_every-split (names_of params) n 0) refl) (some n)

  missing-set_dyn :
      (f : ArgFrame D)
      → has_any found ≡ false
      → bind_planned_arg params (plan_named (names_of params) n) (some n, v) f
        ≡ (if is_dyn_name n then set_dyn n v f else f)
  unfolding plan_named
  missing-set_dyn f missing =
      set_missing f (plan_named (names_of params) n) (rw (found-none missing) refl)
        (rw (found-none missing) refl)

  planned_named-plain :
      (f : ArgFrame D) (k : Name)
      → is_dyn_name k ≡ false
      → find (bind_planned_arg params (plan_named (names_of params) n) (some n, v) f).dyn k
        ≡ find f.dyn k
  unfolding find
  planned_named-plain f k plain = elim (Bool-cases (has_any found)) [
    | inl any ↦ AreSet-plain found f _ k plain (found-AreSet f any)
    | inr missing ↦ rw (missing-set_dyn f missing) (elim (Bool-cases (is_dyn_name n)) [
      | inr free ↦ rw free refl
      | inl dynamic ↦
          let apart : bytes_eq n k ≡ false = ground (arith, bytes_eq-eq n k, plain, dynamic) in
          rw dynamic (rw apart refl)
    ])
  ]

  planned_named-AreBound :
      (f : ArgFrame D)
      → AreBound params
          ((n, v) ∷ [])
          f
          (bind_planned_arg params (plan_named (names_of params) n) (some n, v) f)
  planned_named-AreBound f = elim (Bool-cases (has_any found)) [
    | inl any ↦ AreSet-AreBound f _ any (found-AreSet f any)
    | inr missing ↦ rw (missing-set_dyn f missing) (
        unfound-AreBound params n v
          (λ i p here.
            ground (arith, holds-indices params n 0 i p here, holds-none found i missing))
          f)
  ]

  -- The parameter at a positional argument's place has its own name.
  planned_positional-AreSet :
      (index : ℕ) (f : ArgFrame D)
      → get_elem? (names_of params) index ≡ some n
      → AreSet found f
          (bind_planned_arg params (plan_positional (names_of params) index) (none, v) f)
  planned_positional-AreSet index f here =
      let any = indices-any (names_of params) n 0 index here in
      let plan = plan_positional-some (names_of params) n index here in
      set_split found f any found-IsNamed (plan_positional (names_of params) index) (rw plan refl)
        (rw plan refl) none

  planned_positional-AreBound :
      (index : ℕ) (f : ArgFrame D)
      → get_elem? (names_of params) index ≡ some n
      → AreBound params
          ((n, v) ∷ [])
          f
          (bind_planned_arg params (plan_positional (names_of params) index) (none, v) f)
  planned_positional-AreBound index f here =
      AreSet-AreBound f _ (indices-any (names_of params) n 0 index here)
        (planned_positional-AreSet index f here)

module _ {D : Type 0} (params : List Param) (layout : IsLayout params) where
  bind_planned_arg-past :
      (index : ℕ) (v : Value D) (f : ArgFrame D)
      → get_elem? (names_of params) index ≡ none
      → bind_planned_arg params (plan_positional (names_of params) index) (none, v) f ≡ f
  unfolding bind_planned_arg
  bind_planned_arg-past index v f past = rw (plan_positional-none (names_of params) index past) refl

  planned-AreBound :
      (index : ℕ) (args : List (Supplied D)) (f : ArgFrame D)
      → AreBound params (assignments (drop index (names_of params)) args) f (
          bind_planned_args_into_frame params
            (plan_call_site_args (names_of params) index (map (λ a. a.0) args))
            args
            f)
  unfolding assignments plan_call_site_args bind_planned_args_into_frame
  planned-AreBound index [] f = AreBound-nil params f
  planned-AreBound index ((some n, v) ∷ args) f =
      AreBound-cons (planned_named-AreBound params layout n v f) (planned-AreBound index args _)
  planned-AreBound index ((none, v) ∷ args) f =
      elim (Option-cases (get_elem? (names_of params) index)) [
        | inl past ↦
            let rest = planned-AreBound (suc index) args f in
            let empty = drop-none_nil (names_of params) index past in
            let still = sym (drop-none (names_of params) index past) ∙ empty in
            subst
              (λ g.
                AreBound params (assignments (drop index (names_of params)) ((none, v) ∷ args)) f (
                  bind_planned_args_into_frame params
                    (plan_call_site_args (names_of params) (suc index) (map (λ a. a.0) args)) args
                    g))
              (sym (bind_planned_arg-past index v f past)) (rw empty (rw still at rest))
        | inr (n, here) ↦ rw (drop-some (names_of params) index here) (
            AreBound-cons (planned_positional-AreBound params layout n v index f here)
              (planned-AreBound (suc index) args _))
      ]

  planned-plain :
      (k : Name)
      → is_dyn_name k ≡ false
      → (index : ℕ) (args : List (Supplied D)) (f : ArgFrame D)
      → find
          (bind_planned_args_into_frame params
            (plan_call_site_args (names_of params) index (map (λ a. a.0) args))
            args
            f).dyn
          k
        ≡ find f.dyn k
  unfolding plan_call_site_args bind_planned_args_into_frame
  planned-plain k plain index [] f = refl
  planned-plain k plain index ((some n, v) ∷ args) f =
      planned-plain k plain index args _ ∙ planned_named-plain params layout n v f k plain
  planned-plain k plain index ((none, v) ∷ args) f =
      planned-plain k plain (suc index) args _
      ∙ elim (Option-cases (get_elem? (names_of params) index)) [
        | inl past ↦ ap (λ (g : ArgFrame D). find g.dyn k) (bind_planned_arg-past index v f past)
        | inr (n, here) ↦
            AreSet-plain params layout n v (indices (names_of params) n 0) f _ k plain
              (planned_positional-AreSet params layout n v index f here)
      ]

  -- A call whose arguments go by the plan that was made for it when it was compiled binds each
  -- parameter to the last value that the call assigns to its name, those of one name all alike, and
  -- gives names with a `$` that no parameter has their values too. It leaves alone the slots and flags
  -- of parameters without an assignment, and gives no name without a `$` a dynamic value.
  pub bind_planned_args_into_frame-AreBound :
      (args : List (Supplied D)) (f : ArgFrame D)
      → let result =
          bind_planned_args_into_frame params
            (plan_call_site_args (names_of params) 0 (map (λ a. a.0) args))
            args
            f in
        AreBound params (assignments (names_of params) args) f result
        × ((k : Name) → is_dyn_name k ≡ false → find result.dyn k ≡ find f.dyn k)
  bind_planned_args_into_frame-AreBound args f =
      (planned-AreBound 0 args f, λ k plain. planned-plain k plain 0 args f)
