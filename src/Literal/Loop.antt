-- ===== src/Literal/Loop.antt =====
-- The loop of `unescapeStringLiteral`: its rounds, its fuel, and the plain part that it skips.
use openscad_cpp_evaluator.Prelude.{
  ℕ, zero, suc, ◌+◌, ◌≤◌, ◌≡◌, refl, sym, ◌∙◌, ap, arith, true, false, List, [], ◌∷◌, ◌++◌, Option,
  none, some, ◌==◌, length, length-drop, drop, append_assoc, append-nil, Bool-cases, inl, inr,
}
use openscad_cpp_evaluator.Literal.{
  Unescaped, Round, undefined_escape, is_hex_letter, plain_round, backslash, hex_escape,
  simple_escape, escape_round, loop_round, unescape_loop, unescape_parts, is_special, is_line_end,
  split_plain, unescape_string_literal,
}

nothing_added : (n : ℕ) → n + 0 ≡ n
nothing_added n = omega arith

-- A round takes one character at least.
hex_escape_or-shorter :
    (next : ℕ) (rest : List ℕ) (found : Option (List ℕ × ℕ))
    → length
        (elim found as (λ o. Round) [
          | none ↦ undefined_escape next rest
          | some (bytes, n) ↦ record { bytes = bytes; undefined = 0; rest = drop n rest }
        ]).rest
      ≤ length rest
hex_escape_or-shorter next rest none = omega arith
hex_escape_or-shorter next rest (some (bytes, n)) = omega (arith, length-drop n rest)

simple_escape_or-shorter :
    (next : ℕ) (rest : List ℕ) (found : Option (List ℕ))
    → length
        (elim found as (λ o. Round) [
          | none ↦ undefined_escape next rest
          | some bytes ↦ record { bytes = bytes; undefined = 0; rest = rest }
        ]).rest
      ≤ length rest
simple_escape_or-shorter next rest none = omega arith
simple_escape_or-shorter next rest (some bytes) = omega arith

pub escape_round-shorter :
    (next : ℕ) (rest : List ℕ) → length (escape_round next rest).rest ≤ length rest
unfolding escape_round
escape_round-shorter next rest = elim (Bool-cases (is_hex_letter next)) [
  | inl hex ↦ rw hex (hex_escape_or-shorter next rest (hex_escape next rest))
  | inr plain ↦ rw plain (simple_escape_or-shorter next rest (simple_escape next))
]

pub loop_round-shorter : (c : ℕ) (raw : List ℕ) → length (loop_round c raw).rest ≤ length raw
unfolding loop_round
loop_round-shorter c [] = elim (Bool-cases (is_line_end c)) [
  | inl ending ↦ rw ending (omega arith)
  | inr other ↦ rw other (omega arith)
]
loop_round-shorter c (next ∷ rest) = elim (Bool-cases (is_line_end c)) [
  | inl ending ↦ rw ending (omega arith)
  | inr other ↦ elim (Bool-cases (c == backslash)) [
    | inl escape ↦ rw (other, escape) (omega (arith, escape_round-shorter next rest))
    | inr plain ↦ rw (other, plain) (omega arith)
  ]
]

-- Any fuel that is enough gives the same.
pub loop_enough :
    (fuel more : ℕ) (raw : List ℕ) (acc : Unescaped)
    → length raw ≤ fuel
    → length raw ≤ more
    → unescape_loop fuel raw acc ≡ unescape_loop more raw acc
unfolding unescape_loop
loop_enough zero zero [] acc h g = refl
loop_enough zero (suc more) [] acc h g = refl
loop_enough (suc fuel) zero [] acc h g = refl
loop_enough (suc fuel) (suc more) [] acc h g = refl
loop_enough zero more (c ∷ raw) acc h g = absurd (omega arith)
loop_enough (suc fuel) zero (c ∷ raw) acc h g = absurd (omega arith)
loop_enough (suc fuel) (suc more) (c ∷ raw) acc h g =
    let r = loop_round c raw in
    let shorter = loop_round-shorter c raw in
    loop_enough fuel more r.rest
      (record { out = acc.out ++ r.bytes; undefined_escapes = acc.undefined_escapes + r.undefined })
      (omega (arith, shorter)) (omega (arith, shorter))

-- A character with no special meaning.
pub plain_is_kept :
    (c : ℕ) (raw : List ℕ) → is_special c ≡ false → loop_round c raw ≡ plain_round c raw
unfolding loop_round
plain_is_kept c [] h = let other : is_line_end c ≡ false = ground arith in rw other refl
plain_is_kept c (next ∷ rest) h =
    let other : is_line_end c ≡ false = ground arith in
    let plain : (c == backslash) ≡ false = ground arith in rw (other, plain) refl

abbrev pub extended : Unescaped → List ℕ → Unescaped
extended acc bytes = record { out = acc.out ++ bytes; undefined_escapes = acc.undefined_escapes }

-- One round of the loop, by what it appends.
pub loop_step :
    (fuel c : ℕ) (raw : List ℕ) (acc : Unescaped) (bytes rest : List ℕ) (u : ℕ)
    → loop_round c raw ≡ record { bytes = bytes; undefined = u; rest = rest }
    → unescape_loop (suc fuel) (c ∷ raw) acc
      ≡ unescape_loop fuel rest
          (record { out = acc.out ++ bytes; undefined_escapes = acc.undefined_escapes + u })
unfolding unescape_loop
loop_step fuel c raw acc bytes rest u h =
    ap
      (λ (r : Round). unescape_loop fuel r.rest (record {
        out = acc.out ++ r.bytes;
        undefined_escapes = acc.undefined_escapes + r.undefined;
      }))
      h

-- A round that counts no undefined escape.
pub loop_defined :
    (fuel c : ℕ) (raw : List ℕ) (acc : Unescaped) (bytes rest : List ℕ)
    → loop_round c raw ≡ record { bytes = bytes; undefined = 0; rest = rest }
    → unescape_loop (suc fuel) (c ∷ raw) acc ≡ unescape_loop fuel rest (extended acc bytes)
loop_defined fuel c raw acc bytes rest h =
    loop_step fuel c raw acc bytes rest 0 h
    ∙ ap (λ n. unescape_loop fuel rest (record { out = acc.out ++ bytes; undefined_escapes = n }))
        (nothing_added acc.undefined_escapes)

split_plain-special :
    (c : ℕ) (raw : List ℕ) → is_special c ≡ true → split_plain (c ∷ raw) ≡ ([], c ∷ raw)
unfolding split_plain
split_plain-special c raw h = rw h refl

split_plain-plain :
    (c : ℕ) (raw : List ℕ)
    → is_special c ≡ false
    → split_plain (c ∷ raw) ≡ (c ∷ (split_plain raw).0, (split_plain raw).1)
unfolding split_plain
split_plain-plain c raw h = rw h refl

-- The loop skips a prefix without special characters.
abbrev from_split : List ℕ × List ℕ → Unescaped → Unescaped
from_split p acc = unescape_loop (length p.1) p.1 (extended acc p.0)

loop_from_split :
    (raw : List ℕ) (acc : Unescaped)
    → unescape_loop (length raw) raw acc ≡ from_split (split_plain raw) acc
unfolding split_plain unescape_loop
loop_from_split [] acc = rw (append-nil acc.out) refl
loop_from_split (c ∷ raw) acc = elim (Bool-cases (is_special c)) [
  | inl special ↦
      ap
        (λ t.
          unescape_loop (suc (length raw)) (c ∷ raw)
            (record { out = t; undefined_escapes = acc.undefined_escapes }))
        (sym (append-nil acc.out))
      ∙ ap (λ p. from_split p acc) (sym (split_plain-special c raw special))
  | inr plain ↦
      loop_defined (length raw) c raw acc (c ∷ []) raw (plain_is_kept c raw plain)
      ∙ loop_from_split raw (extended acc (c ∷ []))
      ∙ ap
          (λ t.
            unescape_loop (length (split_plain raw).1) (split_plain raw).1
              (record { out = t; undefined_escapes = acc.undefined_escapes }))
          (append_assoc acc.out (c ∷ []) (split_plain raw).0)
      ∙ ap (λ p. from_split p acc) (sym (split_plain-plain c raw plain))
]

abbrev pub nothing : Unescaped
nothing = record { out = []; undefined_escapes = 0 }

split_joined : (raw : List ℕ) → (split_plain raw).0 ++ (split_plain raw).1 ≡ raw
unfolding split_plain
split_joined [] = refl
split_joined (c ∷ raw) = elim (Bool-cases (is_special c)) [
  | inl special ↦ rw (split_plain, special) refl
  | inr plain ↦ rw (split_plain, plain) (ap (λ t. c ∷ t) (split_joined raw))
]

parts_from_split :
    (raw plain rest : List ℕ)
    → plain ++ rest ≡ raw
    → unescape_parts raw plain rest ≡ from_split (plain, rest) nothing
unfolding unescape_parts unescape_loop
parts_from_split raw plain [] h =
    ap (λ t. record { out = t; undefined_escapes = 0 }) (sym h ∙ append-nil plain)
parts_from_split raw plain (c ∷ cs) h = refl

-- The fast path and the start at the first special character change nothing: the result is that of
-- the loop over the whole text.
pub unescape_string_literal-loop :
    (raw : List ℕ) → unescape_string_literal raw ≡ unescape_loop (length raw) raw nothing
unfolding unescape_string_literal
unescape_string_literal-loop raw =
    parts_from_split raw (split_plain raw).0 (split_plain raw).1 (split_joined raw)
    ∙ sym (loop_from_split raw nothing)
