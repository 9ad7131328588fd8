-- ===== src/CallArgs/Tests.antt =====
-- The arguments of small calls of builtins, and the theorems at concrete inputs.
use openscad_cpp_evaluator.Prelude.{ℕ, ◌≡◌, refl, arith, List, [], ◌∷◌, none, some, length, get_or}
use openscad_cpp_evaluator.Prelude.Bytes.{bytes_eq}
use openscad_cpp_evaluator.Value.{undef, number}
use openscad_cpp_evaluator.Value.Naturals.{naturals}
use openscad_cpp_evaluator.Operators.{specified_both}
use openscad_cpp_evaluator.Expression.{
  Name, number_literal, Globals, Context, find, is_dyn_name, eval,
}
use openscad_cpp_evaluator.Arguments.{Argument, positional, named, set_bound}
use openscad_cpp_evaluator.Arguments.Latest.{latest}
use openscad_cpp_evaluator.CallArgs.{
  CallArgs, set_positional, set_named, find_entry, get_arg, get_arg_or_alias, count_from,
  positional_count, positional_at, all_positional, call_args_to_value, value_to_call_args,
  set_dyn_names, resolve_args_from, resolve_args, resolve_call_args,
}
use openscad_cpp_evaluator.CallArgs.Resolved.{
  value_to_call_args-call_args_to_value, positional_at-all_positional, resolve_call_args-latest,
}

abbrev height_name : Name
height_name = 0x68 ∷ 0x74 ∷ []

abbrev h_name : Name
h_name = 0x68 ∷ []

-- $a
abbrev dollar_a : Name
dollar_a = 0x24 ∷ 0x61 ∷ []

abbrev globals : Globals ℕ
globals = record { pi = 3; lookup_variable = λ n. none }

abbrev caller : Context ℕ
caller = record { lets = []; dyn = (dollar_a, number 9) ∷ [] }

-- (1, $a = 5, ht = 2, 3, h = 4)
abbrev written : List (Argument ℕ)
written =
    positional (number_literal 1)
    ∷ named dollar_a (number_literal 5)
    ∷ named height_name (number_literal 2)
    ∷ positional (number_literal 3)
    ∷ named h_name (number_literal 4)
    ∷ []

abbrev given : CallArgs ℕ
given = record {
  numbered = (0, number 1) ∷ (1, number 3) ∷ [];
  with_name = (dollar_a, number 5) ∷ (height_name, number 2) ∷ (h_name, number 4) ∷ [];
}

written_given : (resolve_args naturals globals caller written).0 ≡ given
unfolding resolve_args resolve_args_from eval
written_given = refl

-- A name goes before a place.
named_first : get_arg given (some 0) height_name undef ≡ number 2
unfolding get_arg find bytes_eq
named_first = refl

-- A name that is given as undef counts as not given.
undef_skipped : get_arg (set_named given height_name undef) (some 1) height_name undef ≡ number 3
unfolding get_arg find find_entry bytes_eq set_named set_bound
undef_skipped = refl

both_given :
    get_arg_or_alias given none height_name h_name undef
    ≡ (number 2, specified_both height_name h_name ∷ [])
unfolding get_arg_or_alias get_arg find bytes_eq
both_given = refl

-- A gap is undef.
gap :
    let args = set_positional given 3 (number 7) in
    (positional_count args ≡ 4) × (positional_at args 2 ≡ undef)
unfolding positional_count count_from positional_at find_entry set_positional
gap = (refl, refl)

overridden :
    find (resolve_call_args naturals globals caller written).1.dyn dollar_a ≡ some (number 5)
unfolding resolve_call_args resolve_args resolve_args_from eval set_dyn_names is_dyn_name find
    bytes_eq
overridden = refl

value_to_call_args-call_args_to_value_example :
    let resolved = (resolve_args naturals globals caller written).0 in
    value_to_call_args (call_args_to_value resolved) ≡ resolved
value_to_call_args-call_args_to_value_example =
    value_to_call_args-call_args_to_value naturals globals caller written

positional_at-all_positional_example :
    let resolved = (resolve_args naturals globals caller written).0 in
    (positional_at resolved 1 ≡ get_or (all_positional resolved) 1 undef)
    × (positional_count resolved ≡ length (all_positional resolved))
positional_at-all_positional_example =
    positional_at-all_positional naturals globals caller written 1 (omega arith)

resolve_call_args-latest_example :
    let resolved = resolve_call_args naturals globals caller written in
    (find resolved.1.dyn dollar_a
      ≡ latest some resolved.0.with_name dollar_a (find caller.dyn dollar_a))
    × (resolved.1.lets ≡ caller.lets)
unfolding is_dyn_name
resolve_call_args-latest_example =
    resolve_call_args-latest naturals globals caller written dollar_a refl
