-- ===== src/Utf8/Tests.antt =====
-- The functions on short strings, and the theorems at concrete inputs.
use openscad_cpp_evaluator.Prelude.{
  ℕ, ◌≡◌, refl, arith, List, [], ◌∷◌, ◌++◌, map, get_or, concat, All,
}
use openscad_cpp_evaluator.Utf8.{
  is_continuation, next_char_start, skip_continuations, utf8_encode, utf8_is_ascii, utf8_length,
  utf8_char_at, utf8_chars, utf8_decode_first, count_chars, find_char, low_six,
}
use openscad_cpp_evaluator.Utf8.Chars.{
  IsChar, StartsFresh, utf8_chars_partition, utf8_char_at-chars,
}
use openscad_cpp_evaluator.Utf8.Encode.{encode_all, utf8_chars-encode_all}
use openscad_cpp_evaluator.Utf8.Decode.{utf8_decode_first-encode}

-- "aé—z"
abbrev sample : List ℕ
sample = 0x61 ∷ 0xc3 ∷ 0xa9 ∷ 0xe2 ∷ 0x80 ∷ 0x94 ∷ 0x7a ∷ []

sample_length : utf8_length sample ≡ 4
unfolding utf8_length utf8_is_ascii count_chars next_char_start skip_continuations is_continuation
sample_length = refl

sample_second : utf8_char_at sample 1 ≡ 0xc3 ∷ 0xa9 ∷ []
unfolding utf8_char_at utf8_is_ascii find_char next_char_start skip_continuations is_continuation
sample_second = refl

encode_dash : utf8_encode 0x2014 ≡ 0xe2 ∷ 0x80 ∷ 0x94 ∷ []
unfolding utf8_encode
encode_dash = refl

decode_lone_lead : utf8_decode_first (0xc3 ∷ []) ≡ 0xc3
unfolding utf8_decode_first low_six
decode_lone_lead = refl

utf8_chars_partition_example :
    (concat (utf8_chars sample) ≡ sample)
    × All IsChar (utf8_chars sample)
    × StartsFresh (utf8_chars sample)
utf8_chars_partition_example = utf8_chars_partition sample

utf8_char_at-chars_example : utf8_char_at sample 2 ≡ get_or (utf8_chars sample) 2 []
utf8_char_at-chars_example = utf8_char_at-chars sample 2

abbrev points : List ℕ
points = 0x61 ∷ 0xe9 ∷ 0x2014 ∷ 0x1f600 ∷ []

utf8_chars-encode_all_example : utf8_chars (encode_all points) ≡ map utf8_encode points
utf8_chars-encode_all_example = utf8_chars-encode_all points (omega arith)

utf8_decode_first-encode_example : utf8_decode_first (utf8_encode 0x1f600 ++ 0x7a ∷ []) ≡ 0x1f600
utf8_decode_first-encode_example = utf8_decode_first-encode 0x1f600 (0x7a ∷ []) (omega arith)
