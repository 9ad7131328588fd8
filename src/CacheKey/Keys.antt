-- ===== src/CacheKey/Keys.antt =====
-- cacheKey of src/manifold_cache.cpp tells subtrees apart.
use openscad_cpp_evaluator.Prelude.{
  ℕ, ◌≡◌, refl, ap, ◌∙◌, arith, Bool, true, false, List, ◌∷◌, ◌++◌, if◌then◌else◌,
}
use openscad_cpp_evaluator.Value.{Fields}
use openscad_cpp_evaluator.CacheKey.{
  Formats, Node, node, Nodes, no_nodes, child, count_fields, count_nodes, fields_have_closure,
  key_has_closure, keys_have_closure, canon_params, cache_key, cache_keys,
}
use openscad_cpp_evaluator.CacheKey.Prefix.{
  IsFaithful, or-false, digits_bracket, count_eq, len_prefixed-injective, tail_eq,
}
use openscad_cpp_evaluator.CacheKey.Canon.{first_byte, len_prefixed-two, enclosed_eq, fields_eq}

module _ {D : Type 0} (sort : Fields D → Fields D) where
  -- Subtrees with the same kinds and children, and the same parameters up to their order.
  unfoldable mutual
    pub IsSameNode : Node D → Node D → Type 0
    IsSameNode (node kind builtin params children) (node kind' builtin' params' children') =
        (kind ≡ kind')
        × (builtin ≡ builtin')
        × (sort params ≡ sort params')
        × AreSameNodes children children'

    pub AreSameNodes : Nodes D → Nodes D → Type 0
    AreSameNodes no_nodes no_nodes = Unit
    AreSameNodes no_nodes (child n ns) = ⊥
    AreSameNodes (child m ms) no_nodes = ⊥
    AreSameNodes (child m ms) (child n ns) = IsSameNode m n × AreSameNodes ms ns

builtin_eq :
    (a b : Bool) (r r' : List ℕ)
    → ◌≡◌ {A = List ℕ} ((if a then 0x31 else 0x30) ∷ r) ((if b then 0x31 else 0x30) ∷ r')
    → (a ≡ b) × (r ≡ r')
builtin_eq true true r r' h = (refl, tail_eq h)
builtin_eq true false r r' h = absurd (omega (arith, ap first_byte h))
builtin_eq false true r r' h = absurd (omega (arith, ap first_byte h))
builtin_eq false false r r' h = (refl, tail_eq h)

module _ {D : Type 0} (format : Formats D) (faithful : IsFaithful format)
    (sort : Fields D → Fields D)
    (sort_reorders : (fs : Fields D) → fields_have_closure (sort fs) ≡ fields_have_closure fs) where
  canon_params_eq :
      (fs gs : Fields D)
      → fields_have_closure fs ≡ false
      → fields_have_closure gs ≡ false
      → canon_params format sort fs ≡ canon_params format sort gs
      → sort fs ≡ sort gs
  unfolding canon_params
  canon_params_eq fs gs h k e =
      let (count, contents) =
        enclosed_eq format faithful 0x50 (count_fields (sort fs)) (count_fields (sort gs)) _ _ e in
      (fields_eq format faithful (sort fs) (sort gs) _ _ (sort_reorders fs ∙ h)
        (sort_reorders gs ∙ k) count contents).0

  mutual
    unfolding cache_key cache_keys key_has_closure keys_have_closure IsSameNode AreSameNodes

    key_eq :
        (m n : Node D)
        → key_has_closure m ≡ false
        → key_has_closure n ≡ false
        → cache_key format sort m ≡ cache_key format sort n
        → IsSameNode sort m n
    key_eq (node kind builtin params children) (node kind' builtin' params' children') h k e =
        let (hp, hc) = or-false (fields_have_closure params) (keys_have_closure children) h in
        let (kp, kc) = or-false (fields_have_closure params') (keys_have_closure children') k in
        let (same_kind, after_kind) =
          len_prefixed-injective format faithful kind kind' _ _ (tail_eq (tail_eq e)) in
        let (same_builtin, after_builtin) = builtin_eq builtin builtin' _ _ after_kind in
        let (same_params, after_params) =
          len_prefixed-injective format faithful (canon_params format sort params)
            (canon_params format sort params') _ _ after_builtin in
        let (count, contents) =
          count_eq format faithful 0x5b (count_nodes children) (count_nodes children') _ _
            digits_bracket after_params in
        (
          same_kind,
          same_builtin,
          canon_params_eq params params' hp kp same_params,
          keys_eq children children' _ _ hc kc count contents,
        )

    keys_eq :
        (ms ns : Nodes D) (r r' : List ℕ)
        → keys_have_closure ms ≡ false
        → keys_have_closure ns ≡ false
        → count_nodes ms ≡ count_nodes ns
        → cache_keys format sort ms ++ r ≡ cache_keys format sort ns ++ r'
        → AreSameNodes sort ms ns
    keys_eq no_nodes no_nodes r r' h k c e = tt
    keys_eq no_nodes (child n ns) r r' h k c e = absurd (omega arith)
    keys_eq (child m ms) no_nodes r r' h k c e = absurd (omega arith)
    keys_eq (child m ms) (child n ns) r r' h k c e =
        let (hm, hs) = or-false (key_has_closure m) (keys_have_closure ms) h in
        let (kn, ks) = or-false (key_has_closure n) (keys_have_closure ns) k in
        let (same, rest) =
          len_prefixed-two format faithful (cache_key format sort m) (cache_key format sort n) _ _ r
            r' e in
        (key_eq m n hm kn same, keys_eq ms ns r r' hs ks (omega arith) rest)

  -- Two subtrees without functions in their parameters that have one key have the same kinds and children
  -- and the same parameters, up to the order of the parameters of each node.
  pub cache_key-injective :
      (m n : Node D)
      → key_has_closure m ≡ false
      → key_has_closure n ≡ false
      → cache_key format sort m ≡ cache_key format sort n
      → IsSameNode sort m n
  cache_key-injective m n h k e = key_eq m n h k e
