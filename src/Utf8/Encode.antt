-- ===== src/Utf8/Encode.antt =====
-- `utf8Encode` against the scan: an encoded code point is one character, and a text of encoded code
-- points is read back as them.
use openscad_cpp_evaluator.Prelude.{
  ℕ, ◌+◌, ◌/◌, ◌%◌, ◌≤◌, ◌<◌, ◌≡◌, refl, ap, ◌∙◌, Bool, not, true, false, List, [], ◌∷◌, ◌++◌, map,
  bit_and, bit_or, arith, ◌==◌, ◌&&◌, if◌then◌else◌, concat, All, dec_lt,
}
use openscad_cpp_evaluator.Prelude.Bits.{holds_below, holds_below_at, bit_and_63}
use openscad_cpp_evaluator.Utf8.{is_continuation, utf8_encode, utf8_chars}
use openscad_cpp_evaluator.Utf8.Scan.{ascii_byte, continues, glue, split_chars, utf8_chars-split}
use openscad_cpp_evaluator.Utf8.Chars.{IsChar}

-- A byte that is set by `base | x`, for x below the bound, is their sum; it is a continuation byte or
-- not, by its class.
abbrev OrTable : ℕ → ℕ → Bool → Type 0
OrTable bound base class =
    holds_below bound (λ x.
      bit_or base x == base + x
      && (if class then is_continuation (base + x) else not (is_continuation (base + x))))
    ≡ true

trail_table : OrTable 64 0x80 true
unfolding holds_below is_continuation
trail_table = refl

lead2_table : OrTable 32 0xc0 false
unfolding holds_below is_continuation
lead2_table = refl

lead3_table : OrTable 16 0xe0 false
unfolding holds_below is_continuation
lead3_table = refl

lead4_table : OrTable 8 0xf0 false
unfolding holds_below is_continuation
lead4_table = refl

or_byte :
    (bound base : ℕ) (class : Bool)
    → OrTable bound base class
    → (x : ℕ) → x < bound
    → (bit_or base x ≡ base + x) × (is_continuation (base + x) ≡ class)
or_byte bound base true t x h = ground (arith, holds_below_at bound _ x t h)
or_byte bound base false t x h = ground (arith, holds_below_at bound _ x t h)

-- The bytes of an encoded code point, in plain arithmetic.
abbrev pub trail : ℕ → ℕ
trail x = 0x80 + x % 64

trail_byte : (x : ℕ) → bit_or 0x80 (bit_and x 0x3f) ≡ trail x
trail_byte x = rw bit_and_63 ((or_byte 64 0x80 true trail_table (x % 64) (omega arith)).0)

trail_continues : (x : ℕ) → is_continuation (trail x) ≡ true
trail_continues x = (or_byte 64 0x80 true trail_table (x % 64) (omega arith)).1

pub encode_1 : (cp : ℕ) → cp < 0x80 → utf8_encode cp ≡ cp ∷ []
unfolding utf8_encode
encode_1 cp h = ground arith

pub encode_2 : (cp : ℕ) → 0x80 ≤ cp → cp < 0x800 → utf8_encode cp ≡ (0xc0 + cp / 64) ∷ trail cp ∷ []
unfolding utf8_encode
encode_2 cp lo hi =
    ground (arith, or_byte 32 0xc0 false lead2_table (cp / 64) (omega arith), trail_byte cp)

pub encode_3 :
    (cp : ℕ)
    → 0x800 ≤ cp
    → cp < 0x10000
    → utf8_encode cp ≡ (0xe0 + cp / 4096) ∷ trail (cp / 64) ∷ trail cp ∷ []
unfolding utf8_encode
encode_3 cp lo hi = ground (
  arith,
  or_byte 16 0xe0 false lead3_table (cp / 4096) (omega arith),
  trail_byte (cp / 64),
  trail_byte cp,
)

pub encode_4 :
    (cp : ℕ)
    → 0x10000 ≤ cp
    → cp < 0x200000
    → utf8_encode cp ≡ (0xf0 + cp / 262144) ∷ trail (cp / 4096) ∷ trail (cp / 64) ∷ trail cp ∷ []
unfolding utf8_encode
encode_4 cp lo hi = ground (
  arith,
  or_byte 8 0xf0 false lead4_table (cp / 262144) (omega arith),
  trail_byte (cp / 4096),
  trail_byte (cp / 64),
  trail_byte cp,
)

-- The four lengths of an encoding.
pub data Width (cp : ℕ) : Type 0 where
  one : cp < 0x80 → Width cp
  two : 0x80 ≤ cp → cp < 0x800 → Width cp
  three : 0x800 ≤ cp → cp < 0x10000 → Width cp
  four : 0x10000 ≤ cp → cp < 0x200000 → Width cp

pub width : (cp : ℕ) → cp < 0x200000 → Width cp
width cp h = elim (dec_lt cp 0x80) [
  | yes a ↦ one a
  | no a ↦ elim (dec_lt cp 0x800) [
    | yes b ↦ two (omega arith) b
    | no b ↦ elim (dec_lt cp 0x10000) [
      | yes c ↦ three (omega arith) c
      | no c ↦ four (omega arith) h
    ]
  ]
]

-- A character that begins with a byte that is no continuation byte.
abbrev pub IsWhole : List ℕ → Type 0
IsWhole x = (continues x ≡ false) × IsChar x

encode-Width : (cp : ℕ) → Width cp → IsWhole (utf8_encode cp)
unfolding continues
encode-Width cp (one h) = rw (encode_1 cp h) (ascii_byte cp h, tt)
encode-Width cp (two lo hi) =
    rw (encode_2 cp lo hi)
      ((or_byte 32 0xc0 false lead2_table (cp / 64) (omega arith)).1, (trail_continues cp, tt))
encode-Width cp (three lo hi) = rw (encode_3 cp lo hi) (
  (or_byte 16 0xe0 false lead3_table (cp / 4096) (omega arith)).1,
  (trail_continues (cp / 64), (trail_continues cp, tt)),
)
encode-Width cp (four lo hi) = rw (encode_4 cp lo hi) (
  (or_byte 8 0xf0 false lead4_table (cp / 262144) (omega arith)).1,
  (trail_continues (cp / 4096), (trail_continues (cp / 64), (trail_continues cp, tt))),
)

pub encode-IsWhole : (cp : ℕ) → cp < 0x200000 → IsWhole (utf8_encode cp)
encode-IsWhole cp h = encode-Width cp (width cp h)

split_chars-whole :
    (c : ℕ) (t rest : List ℕ)
    → IsChar (c ∷ t)
    → continues rest ≡ false
    → split_chars (c ∷ t ++ rest) ≡ (c ∷ t) ∷ split_chars rest
unfolding split_chars
split_chars-whole c [] rest h fresh = rw fresh refl
split_chars-whole c (d ∷ t) rest h fresh =
    rw (h.0, split_chars-whole d t rest h.1 fresh) (unfold glue in refl)

pub split_chars-append :
    (x rest : List ℕ)
    → IsWhole x
    → continues rest ≡ false
    → split_chars (x ++ rest) ≡ x ∷ split_chars rest
split_chars-append [] rest h fresh = absurd h.1
split_chars-append (c ∷ t) rest h fresh = split_chars-whole c t rest h.1 fresh

-- The text that a sequence of code points makes.
abbrev pub encode_all : List ℕ → List ℕ
encode_all cps = concat (map utf8_encode cps)

continues-append : (x rest : List ℕ) → IsWhole x → continues (x ++ rest) ≡ false
unfolding continues
continues-append [] rest h = absurd h.1
continues-append (c ∷ t) rest h = h.0

continues-encode_all :
    (cps : List ℕ) → All (λ cp. cp < 0x200000) cps → continues (encode_all cps) ≡ false
continues-encode_all [] h = unfold continues in refl
continues-encode_all (cp ∷ cps) h = continues-append (utf8_encode cp) _ (encode-IsWhole cp h.0)

split_chars-encode_all :
    (cps : List ℕ)
    → All (λ cp. cp < 0x200000) cps
    → split_chars (encode_all cps) ≡ map utf8_encode cps
split_chars-encode_all [] h = unfold split_chars in refl
split_chars-encode_all (cp ∷ cps) h =
    split_chars-append (utf8_encode cp) (encode_all cps) (encode-IsWhole cp h.0)
      (continues-encode_all cps h.1)
    ∙ ap (λ t. utf8_encode cp ∷ t) (split_chars-encode_all cps h.1)

-- A text made of encoded code points, each below 0x200000, is read back as exactly the encodings of
-- those code points, one character for each.
pub utf8_chars-encode_all :
    (cps : List ℕ)
    → All (λ cp. cp < 0x200000) cps
    → utf8_chars (encode_all cps) ≡ map utf8_encode cps
utf8_chars-encode_all cps h = rw utf8_chars-split (split_chars-encode_all cps h)
