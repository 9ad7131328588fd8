-- ===== src/Zip/Bytes.antt =====
-- Little-endian numbers: `putLE` and `readU16`, `readU32`, `readU64`.
use openscad_cpp_evaluator.Prelude.{
  ℕ, zero, suc, ◌+◌, ◌*◌, ◌/◌, ◌%◌, ◌^◌, ◌<◌, ◌≡◌, ◌∙◌, sym, refl, arith, bit_and, bit_or, List, [],
  ◌∷◌, get_or, drop,
}
use openscad_cpp_evaluator.Prelude.Bits.{bit_and_255, bit_or-shift}

-- `(v >> (8 * i)) & 0xFF`.
abbrev pub le_byte : ℕ → ℕ → ℕ
le_byte v i = bit_and (v / 2 ^ (8 * i)) 0xff

-- `putLE` for a type of 2 and of 4 bytes.
abbrev pub put_u16 : ℕ → List ℕ
put_u16 v = le_byte v 0 ∷ le_byte v 1 ∷ []

abbrev pub put_u32 : ℕ → List ℕ
put_u32 v = le_byte v 0 ∷ le_byte v 1 ∷ le_byte v 2 ∷ le_byte v 3 ∷ []

-- The byte at a position; the positions read are guarded in `Read`.
abbrev pub byte : List ℕ → ℕ → ℕ
byte file p = get_or file p 0

unfoldable pub read_u16 : List ℕ → ℕ → ℕ
read_u16 file p = bit_or (byte file p) (byte file (p + 1) * 2 ^ 8)

unfoldable pub read_u32 : List ℕ → ℕ → ℕ
read_u32 file p =
    bit_or (bit_or (bit_or (byte file p) (byte file (p + 1) * 2 ^ 8)) (byte file (p + 2) * 2 ^ 16))
      (byte file (p + 3) * 2 ^ 24)

unfoldable pub read_u64 : List ℕ → ℕ → ℕ
read_u64 file p = bit_or (read_u32 file p) (read_u32 file (p + 4) * 2 ^ 32)

-- Reading behind position p is reading what stands there.
byte-drop : (p k : ℕ) (file : List ℕ) → byte (drop p file) k ≡ byte file (p + k)
byte-drop zero k file = let e : 0 + k ≡ k = omega arith in rw e
byte-drop (suc p) k [] = refl
byte-drop (suc p) k (b ∷ file) =
    let e : suc p + k ≡ suc (p + k) = omega arith in rw e (byte-drop p k file)

byte_behind : (p k j : ℕ) (file : List ℕ) → byte file (p + k + j) ≡ byte (drop p file) (k + j)
byte_behind p k j file =
    let e : p + k + j ≡ p + (k + j) = omega arith in rw e (sym (byte-drop p (k + j) file))

pub read_u16-drop : (p k : ℕ) (file : List ℕ) → read_u16 file (p + k) ≡ read_u16 (drop p file) k
unfolding read_u16
read_u16-drop p k file = rw (← byte-drop p k file, byte_behind p k 1 file) refl

pub read_u32-drop : (p k : ℕ) (file : List ℕ) → read_u32 file (p + k) ≡ read_u32 (drop p file) k
unfolding read_u32
read_u32-drop p k file =
    rw
      (← byte-drop p k file, byte_behind p k 1 file, byte_behind p k 2 file, byte_behind p k 3 file)
      refl

le_byte-eq : (v i : ℕ) → le_byte v i ≡ v / 2 ^ (8 * i) % 256
le_byte-eq v i = bit_and_255 (v / 2 ^ (8 * i))

-- A number that fits is read back from its bytes.
pub join_u16 : (v : ℕ) → v < 2 ^ 16 → bit_or (le_byte v 0) (le_byte v 1 * 2 ^ 8) ≡ v
join_u16 v h =
    bit_or-shift 8 (le_byte v 0) (le_byte v 1) (omega (arith, le_byte-eq v 0))
    ∙ omega (arith, le_byte-eq v 0, le_byte-eq v 1)

pub join_u32 :
    (v : ℕ)
    → v < 2 ^ 32
    → bit_or
        (bit_or (bit_or (le_byte v 0) (le_byte v 1 * 2 ^ 8)) (le_byte v 2 * 2 ^ 16))
        (le_byte v 3 * 2 ^ 24)
      ≡ v
join_u32 v h =
    let two = bit_or-shift 8 (le_byte v 0) (le_byte v 1) (omega (arith, le_byte-eq v 0)) in
    let three =
      bit_or-shift 16 (le_byte v 0 + le_byte v 1 * 2 ^ 8) (le_byte v 2)
        (omega (arith, le_byte-eq v 0, le_byte-eq v 1)) in
    let four =
      bit_or-shift 24 (le_byte v 0 + le_byte v 1 * 2 ^ 8 + le_byte v 2 * 2 ^ 16) (le_byte v 3)
        (omega (arith, le_byte-eq v 0, le_byte-eq v 1, le_byte-eq v 2)) in
    rw (two, three, four)
      (omega (arith, le_byte-eq v 0, le_byte-eq v 1, le_byte-eq v 2, le_byte-eq v 3))
