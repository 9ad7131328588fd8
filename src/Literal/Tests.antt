-- ===== src/Literal/Tests.antt =====
-- The theorems of the literals at small texts, and runs of the escapes.
use openscad_cpp_evaluator.Prelude.{ℕ, ◌≡◌, refl, arith, List, [], ◌∷◌, concat, map}
use openscad_cpp_evaluator.Literal.{
  unescape_string_literal, unescape_parts, split_plain, unescape_loop, loop_round, escape_round,
  hex_escape, simple_escape, hex_digits, hex_digit,
}
use openscad_cpp_evaluator.Literal.Escape.{escape_string, unescape_string_literal-escape_string}
use openscad_cpp_evaluator.Literal.Loop.{nothing, unescape_string_literal-loop}
use openscad_cpp_evaluator.Literal.Hex.{
  encoded, write_code_point, unescape_string_literal-write_code_points,
}

-- The text a, backslash, line feed, quote.
abbrev mixed : List ℕ
mixed = 0x61 ∷ 0x5c ∷ 0x0a ∷ 0x22 ∷ []

unescape_string_literal-escape_string_example :
    unescape_string_literal (escape_string mixed) ≡ record { out = mixed; undefined_escapes = 0 }
unescape_string_literal-escape_string_example = unescape_string_literal-escape_string mixed

-- A smiley, a lone surrogate and a letter.
abbrev code_points : List ℕ
code_points = 0x1f600 ∷ 0xd83d ∷ 0x41 ∷ []

unescape_string_literal-write_code_points_example :
    unescape_string_literal (concat (map write_code_point code_points))
    ≡ record { out = concat (map encoded code_points); undefined_escapes = 0 }
unescape_string_literal-write_code_points_example =
    unescape_string_literal-write_code_points code_points
      (omega arith, (omega arith, (omega arith, tt)))

-- `\xff` is above ASCII, so it is an undefined escape and stands for its last three characters.
high_byte :
    unescape_string_literal (0x5c ∷ 0x78 ∷ 0x66 ∷ 0x66 ∷ [])
    ≡ record { out = 0x78 ∷ 0x66 ∷ 0x66 ∷ []; undefined_escapes = 1 }
unfolding unescape_string_literal unescape_parts split_plain unescape_loop loop_round escape_round
    hex_escape simple_escape hex_digits hex_digit
high_byte = refl

unescape_string_literal-loop_example :
    unescape_string_literal (0x61 ∷ 0x5c ∷ 0x6e ∷ [])
    ≡ unescape_loop 3 (0x61 ∷ 0x5c ∷ 0x6e ∷ []) nothing
unescape_string_literal-loop_example = unescape_string_literal-loop (0x61 ∷ 0x5c ∷ 0x6e ∷ [])
