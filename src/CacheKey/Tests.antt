-- ===== src/CacheKey/Tests.antt =====
-- Keys of small values and subtrees, and the theorems at concrete inputs.
use openscad_cpp_evaluator.Prelude.{
  ℕ, zero, suc, ◌≡◌, refl, ap, ◌∙◌, sym, arith, Bool, true, false, List, [], ◌∷◌, some, length,
}
use openscad_cpp_evaluator.Prelude.Bytes.{bytes_eq}
use openscad_cpp_evaluator.Value.{
  Value, Fields, boolean, string, vector, none_left, item, no_fields, field,
}
use openscad_cpp_evaluator.CacheKey.{
  Formats, Node, node, no_nodes, child, fields_have_closure, value_has_closure, key_has_closure,
  keys_have_closure, len_prefixed, canon_value, canon_items, canon_fields, canon_params, cache_key,
  cache_keys, get, put, clear_entries,
}
use openscad_cpp_evaluator.CacheKey.Prefix.{IsDigits, IsFaithful}
use openscad_cpp_evaluator.CacheKey.Canon.{first_byte}
use openscad_cpp_evaluator.CacheKey.Keys.{IsSameNode, cache_key-injective}
use openscad_cpp_evaluator.CacheKey.Lookup.{
  Change, put_subtree, clear_all, ArePutSafely, WasPut, cache_after, get-WasPut,
}

-- A size is written in ones, and a truth value stands for a double.
ones : ℕ → List ℕ
ones zero = []
ones (suc n) = 0x31 ∷ ones n

abbrev zeros : List ℕ
zeros =
    0x30 ∷ 0x30 ∷ 0x30 ∷ 0x30 ∷ 0x30 ∷ 0x30 ∷ 0x30 ∷ 0x30 ∷ 0x30 ∷ 0x30 ∷ 0x30 ∷ 0x30 ∷ 0x30 ∷ 0x30
    ∷ 0x30 ∷ []

abbrev hex_of : Bool → List ℕ
hex_of true = 0x31 ∷ zeros
hex_of false = 0x30 ∷ zeros

abbrev unary_format : Formats Bool
unary_format = record { decimal = ones; hex_bits = hex_of; pointer = λ n. [] }

ones-IsDigits : (n : ℕ) → IsDigits (ones n)
unfolding ones
ones-IsDigits zero = tt
ones-IsDigits (suc n) = ((λ e. omega arith, λ e. omega arith, λ e. omega arith), ones-IsDigits n)

length-ones : (n : ℕ) → length (ones n) ≡ n
unfolding ones
length-ones zero = refl
length-ones (suc n) = ap suc (length-ones n)

hex_length : (d : Bool) → length (hex_of d) ≡ 16
hex_length true = refl
hex_length false = refl

hex_injective : (d e : Bool) → hex_of d ≡ hex_of e → d ≡ e
hex_injective true true h = refl
hex_injective true false h = absurd (omega (arith, ap first_byte h))
hex_injective false true h = absurd (omega (arith, ap first_byte h))
hex_injective false false h = refl

unary_format-IsFaithful : IsFaithful unary_format
unary_format-IsFaithful = record {
  decimal_digits = ones-IsDigits;
  decimal_injective = λ m n h. sym (length-ones m) ∙ ap length h ∙ length-ones n;
  hex_length = hex_length;
  hex_injective = hex_injective;
}

-- ["a"]
abbrev texts : Value Bool
texts = vector (item (string (0x61 ∷ [])) none_left)

canonical_text :
    canon_value unary_format texts
    ≡ 0x4c ∷ 0x31 ∷ 0x28 ∷ 0x31 ∷ 0x31 ∷ 0x31 ∷ 0x31 ∷ 0x3a ∷ 0x73 ∷ 0x31 ∷ 0x3a ∷ 0x61 ∷ 0x29 ∷ []
unfolding canon_value canon_items len_prefixed ones
canonical_text = refl

-- cube(center = true) in a union.
abbrev cube : Node Bool
cube = node (0x63 ∷ []) true (field (0x61 ∷ []) (boolean true) no_fields) no_nodes

abbrev tree : Node Bool
tree = node (0x75 ∷ []) true no_fields (child cube no_nodes)

abbrev keep_order : Fields Bool → Fields Bool
keep_order fs = fs

cache_key-injective_example : IsSameNode keep_order tree tree
unfolding key_has_closure keys_have_closure fields_have_closure value_has_closure
cache_key-injective_example =
    cache_key-injective unary_format unary_format-IsFaithful keep_order (λ fs. refl) tree tree refl
      refl refl

abbrev changes : List (Change Bool ℕ)
changes = put_subtree cube 7 ∷ clear_all ∷ put_subtree cube 5 ∷ []

found :
    get (cache_after unary_format keep_order changes) (cache_key unary_format keep_order cube)
    ≡ some 7
unfolding get put clear_entries cache_after cache_key cache_keys canon_params canon_fields
    canon_value len_prefixed ones bytes_eq
found = refl

get-WasPut_example : (m : Node Bool) × WasPut m 7 changes × IsSameNode keep_order m cube
unfolding key_has_closure keys_have_closure fields_have_closure value_has_closure ArePutSafely
get-WasPut_example =
    get-WasPut unary_format unary_format-IsFaithful keep_order (λ fs. refl) changes cube 7
      (refl, (refl, tt)) refl found
