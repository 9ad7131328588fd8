-- ===== src/CacheKey/Lookup.antt =====
-- What ManifoldCache of src/manifold_cache.cpp finds under the key of a subtree.
use openscad_cpp_evaluator.Prelude.{
  ℕ, ◌≡◌, refl, ◌∙◌, sym, arith, inl, inr, ◌⊎◌, true, false, List, [], ◌∷◌, some, if◌then◌else◌,
  Bool-cases,
}
use openscad_cpp_evaluator.Prelude.Bytes.{bytes_eq, bytes_eq-eq, bytes_eq_refl}
use openscad_cpp_evaluator.Value.{Fields}
use openscad_cpp_evaluator.CacheKey.{
  Formats, Node, fields_have_closure, key_has_closure, cache_key, Entries, get, put, clear_entries,
}
use openscad_cpp_evaluator.CacheKey.Prefix.{IsFaithful}
use openscad_cpp_evaluator.CacheKey.Keys.{IsSameNode, cache_key-injective}

module _ {B : Type 0} where
  pub get-put :
      (entries : Entries B) (k key : List ℕ) (b : B)
      → get (put entries k b) key ≡ (if bytes_eq k key then some b else get entries key)
  unfolding get put
  get-put [] k key b = refl
  get-put ((j, old) ∷ entries) k key b = elim (Bool-cases (bytes_eq j k)) [
    | inl same ↦ let e : j ≡ k = bytes_eq-eq j k same in rw (same, e) (ground arith)
    | inr other ↦ elim (Bool-cases (bytes_eq j key)) [
      | inl found ↦ elim (Bool-cases (bytes_eq k key)) [
        | inl equal ↦
            let e : j ≡ k = bytes_eq-eq j key found ∙ sym (bytes_eq-eq k key equal) in
            let both : bytes_eq j k ≡ true = rw e (bytes_eq_refl k) in cc
        | inr apart ↦ rw (other, apart, found) refl
      ]
      | inr missed ↦ rw (other, missed) (get-put entries k key b)
    ]
  ]

empty_get : {B : Type 0} {b : B} (key : List ℕ) → get {B = B} [] key ≡ some b → ⊥
unfolding get
empty_get key h = cc

-- Puts and clears of the cache.
pub data Change (D B : Type 0) : Type 0 where
  put_subtree : Node D → B → Change D B
  clear_all : Change D B

module _ {D B : Type 0} where
  -- Only subtrees whose key has no closure are put.
  unfoldable pub ArePutSafely : List (Change D B) → Type 0
  ArePutSafely [] = Unit
  ArePutSafely (put_subtree n b ∷ changes) = (key_has_closure n ≡ false) × ArePutSafely changes
  ArePutSafely (clear_all ∷ changes) = ArePutSafely changes

  -- The subtree was put with this content, and no clear came after it.
  unfoldable pub WasPut : Node D → B → List (Change D B) → Type 0
  WasPut m b [] = ⊥
  WasPut m b (put_subtree n c ∷ changes) = ((m ≡ n) × (b ≡ c)) ⊎ WasPut m b changes
  WasPut m b (clear_all ∷ changes) = ⊥

module _ {D B : Type 0} (format : Formats D) (sort : Fields D → Fields D) where
  -- The entries after the changes, the last of which stands first.
  unfoldable pub cache_after : List (Change D B) → Entries B
  cache_after [] = []
  cache_after (put_subtree n b ∷ changes) = put (cache_after changes) (cache_key format sort n) b
  cache_after (clear_all ∷ changes) = clear_entries (cache_after changes)

module _ {D B : Type 0} (format : Formats D) (faithful : IsFaithful format)
    (sort : Fields D → Fields D)
    (sort_reorders : (fs : Fields D) → fields_have_closure (sort fs) ≡ fields_have_closure fs) where
  -- What is found under the key of a subtree without closures was put for the same subtree, up to the
  -- order of parameters, and no clear came after that, if only subtrees without closures are put.
  pub get-WasPut :
      (changes : List (Change D B)) (n : Node D) (b : B)
      → ArePutSafely changes
      → key_has_closure n ≡ false
      → get (cache_after format sort changes) (cache_key format sort n) ≡ some b
      → (m : Node D) × WasPut m b changes × IsSameNode sort m n
  unfolding cache_after ArePutSafely WasPut clear_entries
  get-WasPut [] n b safe plain h = absurd (empty_get (cache_key format sort n) h)
  get-WasPut (clear_all ∷ changes) n b safe plain h = absurd (empty_get (cache_key format sort n) h)
  get-WasPut (put_subtree p c ∷ changes) n b safe plain h =
      let found =
        sym (
          get-put (cache_after format sort changes) (cache_key format sort p)
            (cache_key format sort n) c)
        ∙ h in
      elim (Bool-cases (bytes_eq (cache_key format sort p) (cache_key format sort n))) [
        | inl equal ↦
            let same : some c ≡ some b = rw equal at found in
            (
              p,
              inl (refl, cc),
              cache_key-injective format faithful sort sort_reorders p n safe.0 plain
                  (bytes_eq-eq _ _ equal),
            )
        | inr other ↦
            let (m, was, like) = get-WasPut changes n b safe.1 plain (rw other at found) in
            (m, inr was, like)
      ]
