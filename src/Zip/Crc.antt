-- ===== src/Zip/Crc.antt =====
-- `crc32` of src/zip_stored.cpp, with its table.
use openscad_cpp_evaluator.Prelude.{
  ℕ, zero, suc, ◌+◌, ◌/◌, ◌^◌, ◌≡◌, refl, bit_and, bit_xor, List, [], ◌∷◌, ◌==◌, if◌then◌else◌,
  get_or,
}

-- The inner loop of the table: `count` rounds on one entry.
pub crc_rounds : ℕ → ℕ → ℕ
crc_rounds zero c = c
crc_rounds (suc count) c =
    crc_rounds count (if bit_and c 1 == 1 then bit_xor 0xedb88320 (c / 2) else c / 2)

table_from : ℕ → ℕ → List ℕ
table_from zero i = []
table_from (suc n) i = crc_rounds 8 i ∷ table_from n (i + 1)

pub crc_table : List ℕ
unfolding table_from crc_rounds
crc_table = table_from 256 0

pub crc_bytes : List ℕ → ℕ → ℕ
crc_bytes [] crc = crc
crc_bytes (b ∷ rest) crc =
    crc_bytes rest (bit_xor (get_or crc_table (bit_and (bit_xor crc b) 0xff) 0) (crc / 2 ^ 8))

unfoldable pub crc32 : List ℕ → ℕ
unfolding crc_bytes crc_table
crc32 bytes = bit_xor (crc_bytes bytes 0xffffffff) 0xffffffff

-- The check value of CRC-32: the text "123456789".
check_value : crc32 (0x31 ∷ 0x32 ∷ 0x33 ∷ 0x34 ∷ 0x35 ∷ 0x36 ∷ 0x37 ∷ 0x38 ∷ 0x39 ∷ []) ≡ 0xcbf43926
unfolding crc32
check_value = refl
