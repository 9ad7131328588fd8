-- ===== src/CallArgs/Resolved.antt =====
-- What the arguments that `resolveArgs` (src/builtins/call_args.cpp) makes are like.
use openscad_cpp_evaluator.Prelude.{
  ℕ, to_int-small, zero, suc, ◌+◌, ◌^◌, ◌<◌, ◌≡◌, refl, sym, ap, arith, true, false, List, [], ◌∷◌,
  ◌++◌, some, ltb, if◌then◌else◌, length, get_or, set, replicate, append_assoc, length-append, inl,
  inr, Bool-cases,
}
use openscad_cpp_evaluator.Prelude.Bytes.{bytes_eq, bytes_eq-eq}
use openscad_cpp_evaluator.Value.{Doubles, Value, undef}
use openscad_cpp_evaluator.Value.Matrix.{elements, from_elements}
use openscad_cpp_evaluator.Expression.{Name, Bindings, find, is_dyn_name, Globals, Context, eval}
use openscad_cpp_evaluator.Arguments.{Argument, positional, named}
use openscad_cpp_evaluator.Arguments.Latest.{latest}
use openscad_cpp_evaluator.CallArgs.{
  CallArgs, find_entry, count_from, positional_count, positional_at, store_each, all_positional,
  fields_of, entries_of, call_args_to_value, number_from, value_to_call_args, set_dyn_names,
  resolve_args_from, resolve_args, resolve_call_args, or_value,
}

module _ {D : Type 0} where
  elements-from_elements : (vs : List (Value D)) → elements (from_elements vs) ≡ vs
  unfolding elements from_elements
  elements-from_elements [] = refl
  elements-from_elements (v ∷ vs) = ap (λ us. v ∷ us) (elements-from_elements vs)

  entries_of-fields_of : (entries : Bindings D) → entries_of (fields_of entries) ≡ entries
  entries_of-fields_of [] = refl
  entries_of-fields_of ((n, v) ∷ entries) = ap (λ us. (n, v) ∷ us) (entries_of-fields_of entries)

  count_from-number_from :
      (i : ℕ) (vs : List (Value D)) → count_from i (number_from i vs) ≡ i + length vs
  unfolding count_from
  count_from-number_from i [] = omega arith
  count_from-number_from i (v ∷ vs) =
      let next : (if ltb i (i + 1) then i + 1 else i) ≡ suc i = ground arith in
      rw (count_from, next) (omega (arith, count_from-number_from (suc i) vs))

  set-append :
      (before after : List (Value D)) (v w : Value D)
      → set (before ++ w ∷ after) (length before) v ≡ before ++ v ∷ after
  set-append [] after v w = refl
  set-append (u ∷ before) after v w = ap (λ us. u ∷ us) (set-append before after v w)

  store_each-number_from :
      (before vs : List (Value D)) (i : ℕ)
      → i ≡ length before
      → store_each (number_from i vs) (before ++ replicate (length vs) undef) ≡ before ++ vs
  unfolding store_each
  store_each-number_from before [] i e = refl
  store_each-number_from before (v ∷ vs) i e =
      let ended : suc i ≡ length (before ++ v ∷ []) =
        rw (length-append before (v ∷ [])) (omega (arith, e)) in
      let stored : before ++ v ∷ replicate (length vs) undef
          ≡ (before ++ v ∷ []) ++ replicate (length vs) undef =
        sym (append_assoc before (v ∷ []) (replicate (length vs) undef)) in
      rw
        (
          e,
          set-append before (replicate (length vs) undef) v undef,
          stored,
          ← e,
          store_each-number_from (before ++ v ∷ []) vs (suc i) ended,
        )
        (append_assoc before (v ∷ []) vs)

  get_or-find_entry :
      (i : ℕ) (vs : List (Value D)) (k : ℕ)
      → or_value (find_entry (number_from i vs) (i + k)) undef ≡ get_or vs k undef
  unfolding find_entry
  get_or-find_entry i [] k = refl
  get_or-find_entry i (v ∷ vs) zero = ground arith
  get_or-find_entry i (v ∷ vs) (suc k) =
      let e : i + suc k ≡ suc i + k = omega arith in
      rw e (ground (arith, get_or-find_entry (suc i) vs k))

  -- The positional arguments have the numbers from 0 on.
  abbrev pub IsNumbered : CallArgs D → Type 0
  IsNumbered args = (vs : List (Value D)) × (args.numbered ≡ number_from 0 vs)

  all_positional-numbered :
      (args : CallArgs D) (vs : List (Value D))
      → args.numbered ≡ number_from 0 vs
      → all_positional args ≡ vs
  unfolding all_positional positional_count
  all_positional-numbered args vs e =
      let count : count_from 0 (number_from 0 vs) ≡ length vs =
        omega (arith, count_from-number_from 0 vs) in
      rw (e, count) (store_each-number_from [] vs 0 refl)

  round_trip :
      (args : CallArgs D) → IsNumbered args → value_to_call_args (call_args_to_value args) ≡ args
  unfolding value_to_call_args call_args_to_value from_elements
  round_trip args (vs, e) =
      rw
        (
          all_positional-numbered args vs e,
          elements-from_elements vs,
          entries_of-fields_of args.with_name,
          ← e,
        )
        refl

  find-set_dyn_names :
      (entries dyn : Bindings D) (k : Name)
      → is_dyn_name k ≡ true
      → find (set_dyn_names entries dyn) k ≡ latest some entries k (find dyn k)
  unfolding set_dyn_names latest find
  find-set_dyn_names [] dyn k d = refl
  find-set_dyn_names ((n, v) ∷ entries) dyn k d = elim (Bool-cases (is_dyn_name n)) [
    | inl dynamic ↦ rw dynamic (find-set_dyn_names entries ((n, v) ∷ dyn) k d)
    | inr plain ↦
        let apart : bytes_eq n k ≡ false = ground (arith, bytes_eq-eq n k, plain, d) in
        rw (plain, apart) (find-set_dyn_names entries dyn k d)
  ]

module _ {D : Type 0} (double : Doubles D) (globals : Globals D) (ctx : Context D) where
  resolve_args_from-numbered :
      (i : ℕ) (args : List (Argument D))
      → (vs : List (Value D)) × ((resolve_args_from double globals ctx i args).0.numbered
          ≡ number_from i vs)
  unfolding resolve_args_from
  resolve_args_from-numbered i [] = ([], refl)
  resolve_args_from-numbered i (positional e ∷ args) =
      let (vs, same) = resolve_args_from-numbered (suc i) args in
      ((eval double globals ctx e).0 ∷ vs, ap (λ us. (i, (eval double globals ctx e).0) ∷ us) same)
  resolve_args_from-numbered i (named n e ∷ args) = resolve_args_from-numbered i args

  -- The arguments of a call are the same again after they were kept as a value.
  pub value_to_call_args-call_args_to_value :
      (args : List (Argument D))
      → let resolved = (resolve_args double globals ctx args).0 in
        value_to_call_args (call_args_to_value resolved) ≡ resolved
  unfolding resolve_args
  value_to_call_args-call_args_to_value args =
      round_trip (resolve_args_from double globals ctx 0 args).0 (resolve_args_from-numbered 0 args)

  -- All positional arguments, taken at once, are those that are read one by one at places that fit an
  -- `int`, undef past the last, and their number is the count.
  pub positional_at-all_positional :
      (args : List (Argument D)) (pos : ℕ)
      → pos < 2 ^ 31
      → let resolved = (resolve_args double globals ctx args).0 in
        (positional_at resolved pos ≡ get_or (all_positional resolved) pos undef)
        × (positional_count resolved ≡ length (all_positional resolved))
  unfolding resolve_args positional_at positional_count
  positional_at-all_positional args pos small =
      let (vs, e) = resolve_args_from-numbered 0 args in
      let all = all_positional-numbered (resolve_args_from double globals ctx 0 args).0 vs e in
      let start : 0 + pos ≡ pos = omega arith in
      let read : or_value (find_entry (number_from 0 vs) pos) undef ≡ get_or vs pos undef =
        rw start at (get_or-find_entry 0 vs pos) in
      (
        rw (to_int-small pos small, all, e) read,
        rw (all, e) (omega (arith, count_from-number_from 0 vs)),
      )

  -- In the context that a builtin runs in, a name with a `$` has the value of the last argument with
  -- that name, and its value in the caller's context if there is none; the lexical names are the caller's.
  pub resolve_call_args-latest :
      (args : List (Argument D)) (k : Name)
      → is_dyn_name k ≡ true
      → let resolved = resolve_call_args double globals ctx args in
        (find resolved.1.dyn k ≡ latest some resolved.0.with_name k (find ctx.dyn k))
        × (resolved.1.lets ≡ ctx.lets)
  unfolding resolve_call_args
  resolve_call_args-latest args k d =
      (find-set_dyn_names (resolve_args double globals ctx args).0.with_name ctx.dyn k d, refl)
