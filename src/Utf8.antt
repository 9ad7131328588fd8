-- ===== src/Utf8.antt =====
-- src/utf8.cpp: a string is stored as UTF-8 bytes and read as characters. A `std::string` is the
-- list of its bytes, and an index into it a position in that list.
pub mod Scan
pub mod Chars
pub mod Encode
pub mod Decode
mod Tests
use openscad_cpp_evaluator.Prelude.{
  ℕ, zero, suc, ◌+◌, ◌-◌, ◌*◌, ◌/◌, ◌%◌, ◌^◌, bit_and, bit_or, Bool, true, false, not, ◌&&◌, List,
  [], ◌∷◌, Option, none, some, ltb, leb, ◌==◌, if◌then◌else◌, length, drop, take, get_elem?, get_or,
}

-- `isContinuation`: 0b10xxxxxx.
pub is_continuation : ℕ → Bool
is_continuation c = bit_and c 0xc0 == 0x80

-- The loop of `nextCharStart`; the list is what the loop has not passed yet.
pub skip_continuations : List ℕ → ℕ → ℕ
skip_continuations [] i = i
skip_continuations (c ∷ rest) i = elim (is_continuation c) [
  | true ↦ skip_continuations rest (i + 1)
  | false ↦ i
]

pub next_char_start : List ℕ → ℕ → ℕ
next_char_start s i = skip_continuations (drop (i + 1) s) (i + 1)

pub utf8_encode : ℕ → List ℕ
utf8_encode cp =
    if leb cp 0x7f
    then cp ∷ []
    else if leb cp 0x7ff
    then bit_or 0xc0 (cp / 2 ^ 6) ∷ bit_or 0x80 (bit_and cp 0x3f) ∷ []
    else if leb cp 0xffff
    then bit_or 0xe0 (cp / 2 ^ 12)
      ∷ bit_or 0x80 (bit_and (cp / 2 ^ 6) 0x3f)
      ∷ bit_or 0x80 (bit_and cp 0x3f)
      ∷ []
    else bit_or 0xf0 (cp / 2 ^ 18 % 2 ^ 8)
      ∷ bit_or 0x80 (bit_and (cp / 2 ^ 12) 0x3f)
      ∷ bit_or 0x80 (bit_and (cp / 2 ^ 6) 0x3f)
      ∷ bit_or 0x80 (bit_and cp 0x3f)
      ∷ []

pub utf8_is_ascii : List ℕ → Bool
utf8_is_ascii [] = true
utf8_is_ascii (c ∷ rest) = if leb 0x80 c then false else utf8_is_ascii rest

-- `s.substr(b, n)`.
abbrev pub substr : List ℕ → ℕ → ℕ → List ℕ
substr s b n = take n (drop b s)

-- The loops below step by `nextCharStart` from position `b`; each round passes one byte at least, so
-- one round for each byte is enough fuel.
pub count_chars : ℕ → List ℕ → ℕ → ℕ → ℕ
count_chars zero s b n = n
count_chars (suc fuel) s b n = elim (ltb b (length s)) [
  | true ↦ count_chars fuel s (next_char_start s b) (n + 1)
  | false ↦ n
]

pub utf8_length : List ℕ → ℕ
utf8_length s = if utf8_is_ascii s then length s else count_chars (length s) s 0 0

pub find_char : ℕ → List ℕ → ℕ → ℕ → ℕ → List ℕ
find_char zero s i b seen = []
find_char (suc fuel) s i b seen = elim (ltb b (length s)) [
  | true ↦ elim (seen == i) [
    | true ↦ substr s b (next_char_start s b - b)
    | false ↦ find_char fuel s i (next_char_start s b) (seen + 1)
  ]
  | false ↦ []
]

-- One byte as a string, if the index is in range.
pub byte_at : List ℕ → ℕ → List ℕ
byte_at s i = elim (get_elem? s i) [ none ↦ [] | some c ↦ c ∷ [] ]

pub utf8_char_at : List ℕ → ℕ → List ℕ
utf8_char_at s i = if utf8_is_ascii s then byte_at s i else find_char (length s) s i 0 0

pub single_bytes : List ℕ → List (List ℕ)
single_bytes [] = []
single_bytes (c ∷ rest) = (c ∷ []) ∷ single_bytes rest

pub collect_chars : ℕ → List ℕ → ℕ → List (List ℕ)
collect_chars zero s b = []
collect_chars (suc fuel) s b = elim (ltb b (length s)) [
  | true ↦ substr s b (next_char_start s b - b) ∷ collect_chars fuel s (next_char_start s b)
  | false ↦ []
]

pub utf8_chars : List ℕ → List (List ℕ)
utf8_chars s = if utf8_is_ascii s then single_bytes s else collect_chars (length s) s 0

-- `b(i + 1) & 0x3F`, the bits of the i-th byte behind the first.
pub low_six : List ℕ → ℕ → ℕ
low_six rest i = bit_and (get_or rest i 0) 0x3f

-- `utf8DecodeFirst` of src/builtins/function_builtins.cpp: the code point of the first character, for
-- `ord()`.
pub utf8_decode_first : List ℕ → ℕ
utf8_decode_first [] = 0
utf8_decode_first (c0 ∷ rest) =
    if ltb c0 0x80
    then c0
    else if bit_and c0 0xe0 == 0xc0 && leb 1 (length rest)
    then bit_or (bit_and c0 0x1f * 2 ^ 6) (low_six rest 0)
    else if bit_and c0 0xf0 == 0xe0 && leb 2 (length rest)
    then bit_or (bit_or (bit_and c0 0x0f * 2 ^ 12) (low_six rest 0 * 2 ^ 6)) (low_six rest 1)
    else if bit_and c0 0xf8 == 0xf0 && leb 3 (length rest)
    then bit_or
        (bit_or (bit_or (bit_and c0 0x07 * 2 ^ 18) (low_six rest 0 * 2 ^ 12))
          (low_six rest 1 * 2 ^ 6))
        (low_six rest 2)
    else c0
