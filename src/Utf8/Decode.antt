-- ===== src/Utf8/Decode.antt =====
-- `utf8DecodeFirst` (for `ord()`) undoes `utf8Encode` (for `chr()`).
use openscad_cpp_evaluator.Prelude.{
  ℕ, ◌+◌, ◌*◌, ◌/◌, ◌%◌, ◌^◌, ◌<◌, ◌≡◌, refl, ◌∙◌, not, true, List, ◌++◌, bit_and, bit_or, arith,
  ◌==◌, ◌&&◌,
}
use openscad_cpp_evaluator.Prelude.Bits.{holds_below, holds_below_at, bit_and_63, bit_or-shift_left}
use openscad_cpp_evaluator.Utf8.{utf8_encode, low_six, utf8_decode_first}
use openscad_cpp_evaluator.Utf8.Encode.{
  trail, encode_1, encode_2, encode_3, encode_4, Width, one, two, three, four, width,
}

-- The bits that a lead byte carries, and the classes that it is not in.
lead2_table :
    holds_below 32 (λ x. bit_and (0xc0 + x) 0xe0 == 0xc0 && bit_and (0xc0 + x) 0x1f == x) ≡ true
unfolding holds_below
lead2_table = refl

lead3_table :
    holds_below 16 (λ x.
      not (bit_and (0xe0 + x) 0xe0 == 0xc0)
      && bit_and (0xe0 + x) 0xf0 == 0xe0
      && bit_and (0xe0 + x) 0x0f == x)
    ≡ true
unfolding holds_below
lead3_table = refl

lead4_table :
    holds_below 8 (λ x.
      not (bit_and (0xf0 + x) 0xe0 == 0xc0)
      && not (bit_and (0xf0 + x) 0xf0 == 0xe0)
      && bit_and (0xf0 + x) 0xf8 == 0xf0
      && bit_and (0xf0 + x) 0x07 == x)
    ≡ true
unfolding holds_below
lead4_table = refl

trail_bits : (x : ℕ) → bit_and (trail x) 0x3f ≡ x % 64
trail_bits x = rw bit_and_63 (omega arith)

-- Three and four groups of bits, joined as the source joins them.
join_three :
    (a m l : ℕ)
    → m < 64
    → l < 64
    → bit_or (bit_or (a * 2 ^ 12) (m * 2 ^ 6)) l ≡ a * 4096 + m * 64 + l
join_three a m l hm hl =
    let inner : bit_or (a * 2 ^ 12) (m * 2 ^ 6) ≡ (a * 64 + m) * 2 ^ 6 =
      bit_or-shift_left 12 (m * 2 ^ 6) a (omega arith) ∙ omega arith in
    rw (inner, bit_or-shift_left 6 l (a * 64 + m) (omega arith)) (omega arith)

join_four :
    (a m n l : ℕ)
    → m < 64
    → n < 64
    → l < 64
    → bit_or (bit_or (bit_or (a * 2 ^ 18) (m * 2 ^ 12)) (n * 2 ^ 6)) l
      ≡ a * 262144 + m * 4096 + n * 64 + l
join_four a m n l hm hn hl =
    let inner : bit_or (a * 2 ^ 18) (m * 2 ^ 12) ≡ (a * 64 + m) * 2 ^ 12 =
      bit_or-shift_left 18 (m * 2 ^ 12) a (omega arith) ∙ omega arith in
    rw (inner, join_three (a * 64 + m) n l hn hl) (omega arith)

decode-Width : (cp : ℕ) (rest : List ℕ) → Width cp → utf8_decode_first (utf8_encode cp ++ rest) ≡ cp
unfolding utf8_decode_first low_six
decode-Width cp rest (one h) = rw (encode_1 cp h) (ground arith)
decode-Width cp rest (two lo hi) = rw (encode_2 cp lo hi) (
    ground (
      arith,
      holds_below_at 32 _ (cp / 64) lead2_table (omega arith),
      trail_bits cp,
      bit_or-shift_left 6 (cp % 64) (cp / 64) (omega arith),
    ))
decode-Width cp rest (three lo hi) = rw (encode_3 cp lo hi) (
    ground (
      arith,
      holds_below_at 16 _ (cp / 4096) lead3_table (omega arith),
      trail_bits (cp / 64),
      trail_bits cp,
      join_three (cp / 4096) (cp / 64 % 64) (cp % 64) (omega arith) (omega arith),
    ))
decode-Width cp rest (four lo hi) = rw (encode_4 cp lo hi) (
    ground (
      arith,
      holds_below_at 8 _ (cp / 262144) lead4_table (omega arith),
      trail_bits (cp / 4096),
      trail_bits (cp / 64),
      trail_bits cp,
      join_four (cp / 262144) (cp / 4096 % 64) (cp / 64 % 64) (cp % 64) (omega arith) (omega arith)
          (omega arith),
    ))

-- Decoding the first character of a text that begins with an encoded code point, below 0x200000,
-- gives that code point, whatever follows.
pub utf8_decode_first-encode :
    (cp : ℕ) (rest : List ℕ) → cp < 0x200000 → utf8_decode_first (utf8_encode cp ++ rest) ≡ cp
utf8_decode_first-encode cp rest h = decode-Width cp rest (width cp h)
