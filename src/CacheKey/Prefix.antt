-- ===== src/CacheKey/Prefix.antt =====
-- Texts with a length in front (appendLenPrefixed of src/manifold_cache.cpp) can be told apart.
use openscad_cpp_evaluator.Prelude.{
  ℕ, ◌≡◌, ◌≢◌, refl, ◌∙◌, sym, arith, Bool, true, false, ◌||◌, List, [], ◌∷◌, ◌++◌, append_assoc,
  length, All,
}
use openscad_cpp_evaluator.CacheKey.{Formats, len_prefixed}

-- No byte with a meaning of its own.
abbrev pub IsDigits : List ℕ → Type 0
IsDigits s = All (λ c. (c ≢ 0x3a) × (c ≢ 0x28) × (c ≢ 0x5b)) s

-- What `std::to_string` and the hex digits of a double's bits promise.
pub record IsFaithful {D : Type 0} (format : Formats D) : Type 0 where
  pub decimal_digits : (n : ℕ) → IsDigits (format.decimal n)
  pub decimal_injective : (m n : ℕ) → format.decimal m ≡ format.decimal n → m ≡ n
  pub hex_length : (d : D) → length (format.hex_bits d) ≡ 16
  pub hex_injective : (d e : D) → format.hex_bits d ≡ format.hex_bits e → d ≡ e

pub or-false : (a b : Bool) → (a || b) ≡ false → (a ≡ false) × (b ≡ false)
or-false true b h = cc
or-false false b h = (refl, h)

head_eq : {x y : ℕ} {xs ys : List ℕ} → ◌≡◌ {A = List ℕ} (x ∷ xs) (y ∷ ys) → x ≡ y
head_eq h = cc

pub tail_eq : {x y : ℕ} {xs ys : List ℕ} → ◌≡◌ {A = List ℕ} (x ∷ xs) (y ∷ ys) → xs ≡ ys
tail_eq h = cc

-- Texts before a separator that neither of them has.
pub before_separator :
    (c : ℕ) (xs ys r r' : List ℕ)
    → All (λ d. d ≢ c) xs
    → All (λ d. d ≢ c) ys
    → xs ++ c ∷ r ≡ ys ++ c ∷ r'
    → (xs ≡ ys) × (r ≡ r')
before_separator c [] [] r r' hx hy h = (refl, tail_eq h)
before_separator c [] (y ∷ ys) r r' hx hy h = absurd (hy.0 (sym (head_eq h)))
before_separator c (x ∷ xs) [] r r' hx hy h = absurd (hx.0 (head_eq h))
before_separator c (x ∷ xs) (y ∷ ys) r r' hx hy h =
    let (same, rest) = before_separator c xs ys r r' hx.1 hy.1 (tail_eq h) in
    (let e : x ≡ y = head_eq h in cc, rest)

pub same_length :
    (xs ys r r' : List ℕ) → length xs ≡ length ys → xs ++ r ≡ ys ++ r' → (xs ≡ ys) × (r ≡ r')
same_length [] [] r r' l h = (refl, h)
same_length [] (y ∷ ys) r r' l h = absurd (omega arith)
same_length (x ∷ xs) [] r r' l h = absurd (omega arith)
same_length (x ∷ xs) (y ∷ ys) r r' l h =
    let (same, rest) = same_length xs ys r r' (omega arith) (tail_eq h) in
    (let e : x ≡ y = head_eq h in cc, rest)

digits_colon : (s : List ℕ) → IsDigits s → All (λ d. d ≢ 0x3a) s
digits_colon [] h = tt
digits_colon (c ∷ s) h = (h.0.0, digits_colon s h.1)

pub digits_paren : (s : List ℕ) → IsDigits s → All (λ d. d ≢ 0x28) s
digits_paren [] h = tt
digits_paren (c ∷ s) h = (h.0.1, digits_paren s h.1)

pub digits_bracket : (s : List ℕ) → IsDigits s → All (λ d. d ≢ 0x5b) s
digits_bracket [] h = tt
digits_bracket (c ∷ s) h = (h.0.2, digits_bracket s h.1)

module _ {D : Type 0} (format : Formats D) (faithful : IsFaithful format) where
  -- A count before a separator.
  pub count_eq :
      (c : ℕ) (m n : ℕ) (r r' : List ℕ)
      → ((s : List ℕ) → IsDigits s → All (λ d. d ≢ c) s)
      → format.decimal m ++ c ∷ r ≡ format.decimal n ++ c ∷ r'
      → (m ≡ n) × (r ≡ r')
  count_eq c m n r r' digits h =
      let (same, rest) =
        before_separator c (format.decimal m) (format.decimal n) r r'
          (digits _ (faithful.decimal_digits m)) (digits _ (faithful.decimal_digits n)) h in
      (faithful.decimal_injective m n same, rest)

  pub len_prefixed-injective :
      (s t r r' : List ℕ)
      → len_prefixed format s ++ r ≡ len_prefixed format t ++ r'
      → (s ≡ t) × (r ≡ r')
  unfolding len_prefixed
  len_prefixed-injective s t r r' h =
      let grouped : format.decimal (length s) ++ 0x3a ∷ (s ++ r)
          ≡ format.decimal (length t) ++ 0x3a ∷ (t ++ r') =
        sym (append_assoc (format.decimal (length s)) (0x3a ∷ s) r)
        ∙ h
        ∙ append_assoc (format.decimal (length t)) (0x3a ∷ t) r' in
      let (same, rest) =
        count_eq 0x3a (length s) (length t) (s ++ r) (t ++ r') digits_colon grouped in
      same_length s t r r' same rest
