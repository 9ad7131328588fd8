-- ===== src/Literal.antt =====
-- src/value.cpp, `unescapeStringLiteral`: what the text of a string literal stands for.
use openscad_cpp_evaluator.Prelude.{
  ℕ, zero, suc, ◌+◌, ◌-◌, ◌*◌, ◌≤◌, Bool, true, false, not, ◌&&◌, ◌||◌, List, [], ◌∷◌, ◌++◌, Option,
  none, some, ltb, leb, ◌==◌, if◌then◌else◌, length, take, drop,
}
use openscad_cpp_evaluator.Utf8.{utf8_encode}
pub mod Loop
pub mod Escape
pub mod Hex
mod Tests

abbrev pub backslash : ℕ
backslash = 0x5c

-- The value of a hex digit.
pub hex_digit : ℕ → Option ℕ
hex_digit c =
    if leb 48 c && leb c 57
    then some (c - 48)
    else if leb 97 c && leb c 102
    then some (c - 97 + 10)
    else if leb 65 c && leb c 70
    then some (c - 65 + 10)
    else none

-- `hexDigits`: the value of `count` digits, if all are hex digits and there are as many.
pub hex_digits : ℕ → List ℕ → ℕ → Option ℕ
hex_digits zero s v = some v
hex_digits (suc count) [] v = none
hex_digits (suc count) (c ∷ s) v = elim (hex_digit c) [
  | none ↦ none
  | some d ↦ hex_digits count s (v * 16 + d)
]

pub encode_escaped_code_point : ℕ → List ℕ
encode_escaped_code_point cp =
    if cp == 0 || (leb 0xd800 cp && leb cp 0xdfff) || ltb 0x10ffff cp
    then 0x20 ∷ []
    else utf8_encode cp

pub record Unescaped : Type 0 where
  pub out : List ℕ
  pub undefined_escapes : ℕ

abbrev pub is_line_end : ℕ → Bool
is_line_end c = c == 0x0a || c == 0x0d

-- A hex escape with its digits: what it adds, and how many characters it takes behind its letter.
pub hex_escape : ℕ → List ℕ → Option (List ℕ × ℕ)
hex_escape next rest =
    if next == 0x78
    then elim (hex_digits 2 rest 0) [
      | none ↦ none
      | some cp ↦ if leb cp 0x7f then some (encode_escaped_code_point cp, 2) else none
    ]
    else (let n = if next == 0x75 then 4 else 6 in
        elim (hex_digits n rest 0) [
          | none ↦ none
          | some cp ↦ some (encode_escaped_code_point cp, n)
        ])

abbrev pub is_hex_letter : ℕ → Bool
is_hex_letter c = c == 0x78 || c == 0x75 || c == 0x55

-- The character that a one-letter escape stands for; nothing at the end of a line.
pub simple_escape : ℕ → Option (List ℕ)
simple_escape next =
    if next == 0x6e
    then some (0x0a ∷ [])
    else if next == 0x74
    then some (0x09 ∷ [])
    else if next == 0x72
    then some (0x0d ∷ [])
    else if is_line_end next
    then some []
    else if next == backslash || next == 0x22
    then some (next ∷ [])
    else none

-- One round of the loop: what it appends, the undefined escapes it counts, and what is left.
pub record Round : Type 0 where
  pub bytes : List ℕ
  pub undefined : ℕ
  pub rest : List ℕ

abbrev pub undefined_escape : ℕ → List ℕ → Round
undefined_escape next rest = record { bytes = next ∷ []; undefined = 1; rest = rest }

-- The `switch`, behind a backslash.
pub escape_round : ℕ → List ℕ → Round
escape_round next rest =
    if is_hex_letter next
    then elim (hex_escape next rest) [
      | none ↦ undefined_escape next rest
      | some (bytes, n) ↦ record { bytes = bytes; undefined = 0; rest = drop n rest }
    ]
    else elim (simple_escape next) [
      | none ↦ undefined_escape next rest
      | some bytes ↦ record { bytes = bytes; undefined = 0; rest = rest }
    ]

abbrev pub plain_round : ℕ → List ℕ → Round
plain_round c rest = record { bytes = c ∷ []; undefined = 0; rest = rest }

pub loop_round : ℕ → List ℕ → Round
loop_round c [] =
    if is_line_end c then record { bytes = []; undefined = 0; rest = [] } else plain_round c []
loop_round c (next ∷ rest) =
    if is_line_end c
    then record { bytes = []; undefined = 0; rest = next ∷ rest }
    else if not (c == backslash)
    then plain_round c (next ∷ rest)
    else escape_round next rest

pub unescape_loop : ℕ → List ℕ → Unescaped → Unescaped
unescape_loop zero raw acc = acc
unescape_loop (suc fuel) [] acc = acc
unescape_loop (suc fuel) (c ∷ raw) acc =
    let r = loop_round c raw in
    unescape_loop fuel r.rest
      (record { out = acc.out ++ r.bytes; undefined_escapes = acc.undefined_escapes + r.undefined })

abbrev pub is_special : ℕ → Bool
is_special c = c == backslash || is_line_end c

-- `find_first_of`: the text up to the first special character, and from there on.
pub split_plain : List ℕ → List ℕ × List ℕ
split_plain [] = ([], [])
split_plain (c ∷ raw) =
    let (plain, rest) = split_plain raw in if is_special c then ([], c ∷ raw) else (c ∷ plain, rest)

-- The text as it is where nothing is special, and else the loop behind the plain part.
pub unescape_parts : List ℕ → List ℕ → List ℕ → Unescaped
unescape_parts raw plain [] = record { out = raw; undefined_escapes = 0 }
unescape_parts raw plain (c ∷ cs) =
    unescape_loop (suc (length cs)) (c ∷ cs) (record { out = plain; undefined_escapes = 0 })

pub unescape_string_literal : List ℕ → Unescaped
unescape_string_literal raw = unescape_parts raw (split_plain raw).0 (split_plain raw).1
