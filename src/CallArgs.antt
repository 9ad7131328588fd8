-- ===== src/CallArgs.antt =====
-- The arguments of a builtin's call: src/builtins/call_args.cpp. A positional argument is kept with its
-- number.
use openscad_cpp_evaluator.Prelude.{
  ℕ, to_int, zero, suc, ◌+◌, ◌%◌, ◌^◌, Bool, true, false, not, ◌&&◌, ◌||◌, List, [], ◌∷◌, ◌++◌,
  Option, none, some, ◌==◌, ltb, if◌then◌else◌, length, set, replicate,
}
use openscad_cpp_evaluator.Value.{
  Doubles, Value, Values, Fields, undef, vector, object, none_left, item, no_fields, field,
}
use openscad_cpp_evaluator.Value.Matrix.{list_value, elements}
use openscad_cpp_evaluator.Operators.{Warning, specified_both, Warned}
use openscad_cpp_evaluator.Expression.{
  Name, Expr, Bindings, find, is_dyn_name, Globals, Context, eval,
}
use openscad_cpp_evaluator.Arguments.{Argument, positional, named, set_bound}
pub mod Resolved
mod Tests

pub record CallArgs (D : Type 0) : Type 0 where
  pub numbered : List (ℕ × Value D)
  pub with_name : Bindings D

module _ {D : Type 0} where
  abbrev pub set_entry : List (ℕ × Value D) → ℕ → Value D → List (ℕ × Value D)
  set_entry [] pos v = (pos, v) ∷ []
  set_entry ((k, w) ∷ entries) pos v =
      if k == pos then (k, v) ∷ entries else (k, w) ∷ set_entry entries pos v

  pub set_positional : CallArgs D → ℕ → Value D → CallArgs D
  set_positional args pos v = record args { numbered = set_entry args.numbered pos v }

  pub set_named : CallArgs D → Name → Value D → CallArgs D
  set_named args n v = record args { with_name = set_bound args.with_name n v }

  pub find_entry : List (ℕ × Value D) → ℕ → Option (Value D)
  find_entry [] pos = none
  find_entry ((k, v) ∷ entries) pos = if k == pos then some v else find_entry entries pos

  -- A value that is given and is not undef.
  abbrev pub defined : Option (Value D) → Option (Value D)
  defined none = none
  defined (some undef) = none
  defined (some v) = some v

  abbrev pub or_value : Option (Value D) → Value D → Value D
  or_value none other = other
  or_value (some v) other = v

  abbrev pub find_at : CallArgs D → Option ℕ → Option (Value D)
  find_at args none = none
  find_at args (some pos) = find_entry args.numbered pos

  pub get_arg : CallArgs D → Option ℕ → Name → Value D → Value D
  get_arg args pos n default_value =
      or_value (defined (find args.with_name n))
        (or_value (defined (find_at args pos)) default_value)

  pub get_arg_or_alias : CallArgs D → Option ℕ → Name → Name → Value D → Warned D
  get_arg_or_alias args pos n alias default_value =
      let other = get_arg args none alias undef in
      elim (defined (some (get_arg args pos n undef))) [
        | some v ↦
            (v, elim (defined (some other)) [ none ↦ [] | some w ↦ specified_both n alias ∷ [] ])
        | none ↦ (or_value (defined (some other)) default_value, [])
      ]

  -- One more than the greatest number, and `least` at least.
  pub count_from : ℕ → List (ℕ × Value D) → ℕ
  count_from least [] = least
  count_from least ((i, v) ∷ entries) =
      count_from (if ltb least (i + 1) then i + 1 else least) entries

  pub positional_count : CallArgs D → ℕ
  positional_count args = count_from 0 args.numbered

  -- No argument has a negative number.
  pub positional_at : CallArgs D → ℕ → Value D
  positional_at args pos = or_value (find_at args (to_int pos)) undef

  pub store_each : List (ℕ × Value D) → List (Value D) → List (Value D)
  store_each [] out = out
  store_each ((i, v) ∷ entries) out = store_each entries (set out i v)

  pub all_positional : CallArgs D → List (Value D)
  all_positional args = store_each args.numbered (replicate (positional_count args) undef)

  abbrev pub fields_of : Bindings D → Fields D
  fields_of [] = no_fields
  fields_of ((n, v) ∷ entries) = field n v (fields_of entries)

  abbrev pub entries_of : Fields D → Bindings D
  entries_of no_fields = []
  entries_of (field n v fs) = (n, v) ∷ entries_of fs

  pub call_args_to_value : CallArgs D → Value D
  call_args_to_value args =
      list_value (list_value (all_positional args) ∷ object (fields_of args.with_name) ∷ [])

  abbrev pub number_from : ℕ → List (Value D) → List (ℕ × Value D)
  number_from i [] = []
  number_from i (v ∷ vs) = (i, v) ∷ number_from (suc i) vs

  abbrev pub numbered_in : Value D → List (ℕ × Value D)
  numbered_in (vector vs) = number_from 0 (elements vs)
  numbered_in v = []

  abbrev pub named_in : Value D → Bindings D
  named_in (object fs) = entries_of fs
  named_in v = []

  abbrev pub no_args : CallArgs D
  no_args = record { numbered = []; with_name = [] }

  pub value_to_call_args : Value D → CallArgs D
  value_to_call_args (vector (item v (item w none_left))) = record {
    numbered = numbered_in v;
    with_name = named_in w;
  }
  value_to_call_args v = no_args

  -- The loop that sets the names with a `$`.
  pub set_dyn_names : Bindings D → Bindings D → Bindings D
  set_dyn_names [] dyn = dyn
  set_dyn_names ((n, v) ∷ entries) dyn =
      set_dyn_names entries (if is_dyn_name n then (n, v) ∷ dyn else dyn)

module _ {D : Type 0} (double : Doubles D) (globals : Globals D) (ctx : Context D) where
  -- `index` positional arguments came before.
  pub resolve_args_from : ℕ → List (Argument D) → CallArgs D × List (Warning D)
  resolve_args_from index [] = (no_args, [])
  resolve_args_from index (positional e ∷ args) =
      let v = eval double globals ctx e in
      let rest = resolve_args_from (suc index) args in
      (record rest.0 { numbered = (index, v.0) ∷ rest.0.numbered }, v.1 ++ rest.1)
  resolve_args_from index (named n e ∷ args) =
      let v = eval double globals ctx e in
      let rest = resolve_args_from index args in
      (record rest.0 { with_name = (n, v.0) ∷ rest.0.with_name }, v.1 ++ rest.1)

  pub resolve_args : List (Argument D) → CallArgs D × List (Warning D)
  resolve_args args = resolve_args_from 0 args

  -- The arguments, and the context in which the call runs. The context is a copy also where no
  -- argument has a name with a `$`, which makes no difference to a list.
  pub resolve_call_args : List (Argument D) → CallArgs D × Context D × List (Warning D)
  resolve_call_args args =
      let resolved = resolve_args args in
      (resolved.0, record ctx { dyn = set_dyn_names resolved.0.with_name ctx.dyn }, resolved.1)
