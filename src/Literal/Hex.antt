-- ===== src/Literal/Hex.antt =====
-- Code points written as `\U` escapes of six digits.
use openscad_cpp_evaluator.Prelude.{
  ℕ, suc, ◌+◌, ◌*◌, ◌/◌, ◌%◌, ◌^◌, ◌<◌, ◌≡◌, refl, ◌∙◌, ap, arith, Bool, ◌&&◌, ◌||◌, List, [], ◌∷◌,
  some, ltb, if◌then◌else◌, length, append_assoc, append-nil, concat, map, All,
}
use openscad_cpp_evaluator.Utf8.{utf8_encode}
use openscad_cpp_evaluator.Literal.{
  Unescaped, backslash, hex_digit, hex_digits, encode_escaped_code_point, hex_escape, escape_round,
  loop_round, unescape_loop, unescape_string_literal,
}
use openscad_cpp_evaluator.Literal.Loop.{
  loop_enough, loop_defined, extended, nothing, unescape_string_literal-loop,
}

-- What a number stands for: a code point other than 0 and the surrogates has its encoding, all other
-- numbers are a space.
abbrev pub is_encodable : ℕ → Bool
is_encodable cp = ltb 0 cp && (ltb cp 0xd800 || (ltb 0xdfff cp && ltb cp 0x110000))

abbrev pub encoded : ℕ → List ℕ
encoded cp = if is_encodable cp then utf8_encode cp else 0x20 ∷ []

encode_escaped_code_point-encoded : (cp : ℕ) → encode_escaped_code_point cp ≡ encoded cp
unfolding encode_escaped_code_point
encode_escaped_code_point-encoded cp = ground arith

pub hex_char : ℕ → ℕ
hex_char d = if ltb d 10 then 48 + d else 87 + d

-- Six digits.
pub write_code_point : ℕ → List ℕ
write_code_point cp =
    backslash
    ∷ 0x55
    ∷ hex_char (cp / 16 ^ 5 % 16)
    ∷ hex_char (cp / 16 ^ 4 % 16)
    ∷ hex_char (cp / 16 ^ 3 % 16)
    ∷ hex_char (cp / 16 ^ 2 % 16)
    ∷ hex_char (cp / 16 % 16)
    ∷ hex_char (cp % 16)
    ∷ []

hex_digit-hex_char : (d : ℕ) → d < 16 → hex_digit (hex_char d) ≡ some d
unfolding hex_digit hex_char
hex_digit-hex_char d h = ground arith

hex_digits-step :
    (count d v : ℕ) (s : List ℕ)
    → d < 16
    → hex_digits (suc count) (hex_char d ∷ s) v ≡ hex_digits count s (v * 16 + d)
unfolding hex_digits
hex_digits-step count d v s h = rw (hex_digits, hex_digit-hex_char d h) refl

abbrev digits_of : ℕ → List ℕ → List ℕ
digits_of cp s =
    hex_char (cp / 16 ^ 5 % 16)
    ∷ hex_char (cp / 16 ^ 4 % 16)
    ∷ hex_char (cp / 16 ^ 3 % 16)
    ∷ hex_char (cp / 16 ^ 2 % 16)
    ∷ hex_char (cp / 16 % 16)
    ∷ hex_char (cp % 16)
    ∷ s

hex_digits-digits_of :
    (cp : ℕ) (s : List ℕ) → cp < 16 ^ 6 → hex_digits 6 (digits_of cp s) 0 ≡ some cp
unfolding hex_digits
hex_digits-digits_of cp s h =
    let d₅ = cp / 16 ^ 5 % 16 in
    let d₄ = cp / 16 ^ 4 % 16 in
    let d₃ = cp / 16 ^ 3 % 16 in
    let d₂ = cp / 16 ^ 2 % 16 in
    let d₁ = cp / 16 % 16 in
    let v₅ = 0 * 16 + d₅ in
    let v₄ = v₅ * 16 + d₄ in
    let v₃ = v₄ * 16 + d₃ in
    let v₂ = v₃ * 16 + d₂ in
    let v₁ = v₂ * 16 + d₁ in
    let whole : v₁ * 16 + cp % 16 ≡ cp = omega arith in
    let s₀ = hex_char (cp % 16) ∷ s in
    let s₁ = hex_char d₁ ∷ s₀ in
    let s₂ = hex_char d₂ ∷ s₁ in
    let s₃ = hex_char d₃ ∷ s₂ in
    hex_digits-step 5 d₅ 0 (hex_char d₄ ∷ s₃) (omega arith)
    ∙ hex_digits-step 4 d₄ v₅ s₃ (omega arith)
    ∙ hex_digits-step 3 d₃ v₄ s₂ (omega arith)
    ∙ hex_digits-step 2 d₂ v₃ s₁ (omega arith)
    ∙ hex_digits-step 1 d₁ v₂ s₀ (omega arith)
    ∙ hex_digits-step 0 (cp % 16) v₁ s (omega arith)
    ∙ ap some whole

code_point_round :
    (cp : ℕ) (s : List ℕ)
    → cp < 16 ^ 6
    → loop_round backslash (0x55 ∷ digits_of cp s)
      ≡ record { bytes = encode_escaped_code_point cp; undefined = 0; rest = s }
unfolding loop_round escape_round hex_escape
code_point_round cp s h = rw (hex_digits-digits_of cp s h) refl

loop-write_code_points :
    (cps : List ℕ) (acc : Unescaped)
    → All (λ cp. cp < 16 ^ 6) cps
    → unescape_loop
        (length (concat (map write_code_point cps)))
        (concat (map write_code_point cps))
        acc
      ≡ extended acc (concat (map encode_escaped_code_point cps))
unfolding unescape_loop write_code_point
loop-write_code_points [] acc h = rw (append-nil acc.out) refl
loop-write_code_points (cp ∷ cps) acc h =
    let after = concat (map write_code_point cps) in
    loop_defined (length (0x55 ∷ digits_of cp after)) backslash (0x55 ∷ digits_of cp after) acc
      (encode_escaped_code_point cp) after (code_point_round cp after h.0)
    ∙ loop_enough (length (0x55 ∷ digits_of cp after)) (length after) after
        (extended acc (encode_escaped_code_point cp)) (omega arith) (omega arith)
    ∙ loop-write_code_points cps (extended acc (encode_escaped_code_point cp)) h.1
    ∙ ap (λ t. record { out = t; undefined_escapes = acc.undefined_escapes })
        (append_assoc acc.out (encode_escaped_code_point cp)
          (concat (map encode_escaped_code_point cps)))

all_encoded : (cps : List ℕ) → map encode_escaped_code_point cps ≡ map encoded cps
all_encoded [] = refl
all_encoded (cp ∷ cps) = rw (encode_escaped_code_point-encoded cp, all_encoded cps) refl

-- A literal of `\U` escapes, of numbers below 16^6, stands for the UTF-8 encodings of those numbers, a
-- space for 0, for a surrogate and for a number above 0x10ffff, and no escape is undefined.
pub unescape_string_literal-write_code_points :
    (cps : List ℕ)
    → All (λ cp. cp < 16 ^ 6) cps
    → unescape_string_literal (concat (map write_code_point cps))
      ≡ record { out = concat (map encoded cps); undefined_escapes = 0 }
unescape_string_literal-write_code_points cps h =
    unescape_string_literal-loop (concat (map write_code_point cps))
    ∙ loop-write_code_points cps nothing h
    ∙ ap (λ t. record { out = concat t; undefined_escapes = 0 }) (all_encoded cps)
