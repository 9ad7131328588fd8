-- ===== src/CacheKey.antt =====
-- The keys of the geometry cache, src/manifold_cache.cpp: canonValue, valueHasClosure, canonParams and
-- cacheKey, and the entries of ManifoldCache.
use openscad_cpp_evaluator.Prelude.{
  ℕ, zero, suc, Bool, true, false, ◌||◌, List, [], ◌∷◌, ◌++◌, Option, none, some, length,
  if◌then◌else◌,
}
use openscad_cpp_evaluator.Prelude.Bytes.{bytes_eq}
use openscad_cpp_evaluator.Value.{
  OscRange, Value, Values, Fields, undef, boolean, number, string, vector, range, object, closure,
  none_left, item, no_fields, field,
}
pub mod Prefix
pub mod Canon
pub mod Keys
pub mod Lookup
mod Tests

-- What the C++ library formats: a size in decimal, the 16 hex digits of a double's bits, and the
-- address of a function's node.
pub record Formats (D : Type 0) : Type 0 where
  pub decimal : ℕ → List ℕ
  pub hex_bits : D → List ℕ
  pub pointer : ℕ → List ℕ

abbrev pub count_items : {D : Type 0} → Values D → ℕ
count_items none_left = 0
count_items (item v xs) = suc (count_items xs)

abbrev pub count_fields : {D : Type 0} → Fields D → ℕ
count_fields no_fields = 0
count_fields (field k v fs) = suc (count_fields fs)

-- The parameters of a node, in any order.
mutual
  pub data Node (D : Type 0) : Type 0 where
    node : List ℕ → Bool → Fields D → Nodes D → Node D

  pub data Nodes (D : Type 0) : Type 0 where
    no_nodes : Nodes D
    child : Node D → Nodes D → Nodes D

abbrev pub count_nodes : {D : Type 0} → Nodes D → ℕ
count_nodes no_nodes = 0
count_nodes (child n ns) = suc (count_nodes ns)

module _ {D : Type 0} where
  unfoldable mutual
    pub value_has_closure : Value D → Bool
    value_has_closure undef = false
    value_has_closure (boolean b) = false
    value_has_closure (number d) = false
    value_has_closure (string s) = false
    value_has_closure (vector xs) = items_have_closure xs
    value_has_closure (range r) = false
    value_has_closure (object fs) = fields_have_closure fs
    value_has_closure (closure n) = true

    pub items_have_closure : Values D → Bool
    items_have_closure none_left = false
    items_have_closure (item v xs) = value_has_closure v || items_have_closure xs

    pub fields_have_closure : Fields D → Bool
    fields_have_closure no_fields = false
    fields_have_closure (field k v fs) = value_has_closure v || fields_have_closure fs

  -- `keyHasClosure` of a node.
  unfoldable mutual
    pub key_has_closure : Node D → Bool
    key_has_closure (node kind builtin params children) =
        fields_have_closure params || keys_have_closure children

    pub keys_have_closure : Nodes D → Bool
    keys_have_closure no_nodes = false
    keys_have_closure (child n ns) = key_has_closure n || keys_have_closure ns

module _ {D : Type 0} (format : Formats D) where
  unfoldable pub len_prefixed : List ℕ → List ℕ
  len_prefixed s = format.decimal (length s) ++ 0x3a ∷ s

  -- `open` is what stands for the kind of collection.
  abbrev pub enclosed : ℕ → ℕ → List ℕ → List ℕ
  enclosed open_byte count contents =
      open_byte ∷ (format.decimal count ++ 0x28 ∷ (contents ++ 0x29 ∷ []))

  unfoldable mutual
    pub canon_value : Value D → List ℕ
    canon_value undef = 0x75 ∷ []
    canon_value (boolean b) = 0x62 ∷ (if b then 0x54 else 0x46) ∷ []
    canon_value (number d) = 0x64 ∷ format.hex_bits d
    canon_value (string s) = 0x73 ∷ len_prefixed s
    canon_value (vector xs) = enclosed 0x4c (count_items xs) (canon_items xs)
    canon_value (range r) =
        0x72 ∷ (format.hex_bits r.start ++ (format.hex_bits r.step ++ format.hex_bits r.end))
    canon_value (object fs) = enclosed 0x4f (count_fields fs) (canon_fields fs)
    canon_value (closure n) = 0x46 ∷ format.pointer n

    pub canon_items : Values D → List ℕ
    canon_items none_left = []
    canon_items (item v xs) = len_prefixed (canon_value v) ++ canon_items xs

    pub canon_fields : Fields D → List ℕ
    canon_fields no_fields = []
    canon_fields (field k v fs) =
        len_prefixed k ++ (len_prefixed (canon_value v) ++ canon_fields fs)

  -- `sort` is `std::sort` of the entries by their names.
  module _ (sort : Fields D → Fields D) where
    unfoldable pub canon_params : Fields D → List ℕ
    canon_params params =
        let entries = sort params in enclosed 0x50 (count_fields entries) (canon_fields entries)

    unfoldable mutual
      pub cache_key : Node D → List ℕ
      cache_key (node kind builtin params children) =
          0x4e
          ∷ 0x28
          ∷ (len_prefixed kind
              ++ ((if builtin then 0x31 else 0x30)
                  ∷ (len_prefixed (canon_params params)
                      ++ (format.decimal (count_nodes children)
                          ++ 0x5b ∷ (cache_keys children ++ 0x5d ∷ 0x29 ∷ [])))))

      pub cache_keys : Nodes D → List ℕ
      cache_keys no_nodes = []
      cache_keys (child n ns) = len_prefixed (cache_key n) ++ cache_keys ns

-- The entries of a `ManifoldCache`; `B` is what is kept for a subtree, its bodies and warnings.
abbrev pub Entries : Type 0 → Type 0
Entries B = List (List ℕ × B)

module _ {B : Type 0} where
  unfoldable pub get : Entries B → List ℕ → Option B
  get [] key = none
  get ((k, b) ∷ entries) key = if bytes_eq k key then some b else get entries key

  unfoldable pub put : Entries B → List ℕ → B → Entries B
  put [] key b = (key, b) ∷ []
  put ((k, old) ∷ entries) key b =
      if bytes_eq k key then (k, b) ∷ entries else (k, old) ∷ put entries key b

  unfoldable pub clear_entries : Entries B → Entries B
  clear_entries entries = []
