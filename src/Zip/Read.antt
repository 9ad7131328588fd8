-- ===== src/Zip/Read.antt =====
-- The reader: `parseCentralDirectory`, `extractEntry` and the two lookups. Additions of a `size_t` and
-- a `uint64_t` wrap at 2^64, as in the source.
use openscad_cpp_evaluator.Prelude.{
  ℕ, to_int, zero, suc, ◌+◌, ◌-◌, ◌%◌, ◌^◌, min, Bool, true, false, not, ◌&&◌, ◌||◌, List, [], ◌∷◌,
  map, Option, none, some, ltb, leb, ◌==◌, if◌then◌else◌, length, take, drop,
}
use openscad_cpp_evaluator.Prelude.Bytes.{bytes_eq}
use openscad_cpp_evaluator.Zip.Bytes.{read_u16, read_u32, read_u64}

-- The messages of the exceptions, without the file's name.
pub data Error : Type 0 where
  not_zip no_end corrupt_zip64_end corrupt_offset corrupt_entry corrupt_name : Error
  corrupt_zip64_extra corrupt_local_header truncated_entry inflate_failed no_entry : Error
  unsupported_method : ℕ → Error

pub data Result {ℓ} (A : Type ℓ) : Type ℓ where
  ok : A → Result A
  err : Error → Result A

infixl 5 ◌>>=◌
abbrev pub ◌>>=◌ {ℓ κ} : {A : Type ℓ} {B : Type κ} → Result A → (A → Result B) → Result B
ok a >>= f = f a
err e >>= f = err e

pub record CentralDirEntry : Type 0 where
  pub name : List ℕ
  pub method : ℕ
  pub compressed_size : ℕ
  pub uncompressed_size : ℕ
  pub local_header_offset : ℕ

-- `pos + n > file.size()` on 64-bit numbers.
abbrev pub past_end : List ℕ → ℕ → ℕ → Bool
past_end file pos n = ltb (length file) ((pos + n) % 2 ^ 64)

-- The backward scan for the end record, from `back` on, `rounds` positions at most.
unfoldable pub find_end : ℕ → List ℕ → ℕ → Option ℕ
find_end zero file back = none
find_end (suc rounds) file back = elim (read_u32 file (length file - back) == 0x06054b50) [
  | true ↦ some (length file - back)
  | false ↦ find_end rounds file (back + 1)
]

-- The entry count and the offset of the directory, from the ZIP64 end record where the classic one
-- says so.
unfoldable pub directory_place : List ℕ → ℕ → Result (ℕ × ℕ)
directory_place file eocd =
    let count = read_u16 file (eocd + 10) in
    let offset = read_u32 file (eocd + 16) in
    if (count == 0xffff || offset == 0xffffffff)
      && leb 20 eocd
      && read_u32 file (eocd - 20) == 0x07064b50
    then (let z64 = read_u64 file (eocd - 20 + 8) in
        if past_end file z64 56 || not (read_u32 file z64 == 0x06064b50)
        then err corrupt_zip64_end
        else ok (read_u64 file (z64 + 32), read_u64 file (z64 + 48)))
    else ok (count, offset)

-- The three sizes that a ZIP64 extra field may replace, in its order.
pub record Sizes : Type 0 where
  pub uncompressed : ℕ
  pub compressed : ℕ
  pub offset : ℕ

-- One round of the inner loop: the value, and the position behind it.
pub take_u64 : List ℕ → ℕ → ℕ → ℕ → Result (ℕ × ℕ)
take_u64 file q q_end v =
    if not (v == 0xffffffff)
    then ok (v, q)
    else if ltb q_end (q + 8)
    then err corrupt_zip64_extra
    else ok (read_u64 file q, q + 8)

pub read_zip64_extra : List ℕ → ℕ → ℕ → Sizes → Result Sizes
read_zip64_extra file q q_end s = do
  (u, q₁) ← take_u64 file q q_end s.uncompressed
  (c, q₂) ← take_u64 file q₁ q_end s.compressed
  (o, q₃) ← take_u64 file q₂ q_end s.offset
  ok (record { uncompressed = u; compressed = c; offset = o })

-- The loop over the extra fields; each takes 4 bytes at least.
unfoldable pub scan_extra : ℕ → List ℕ → ℕ → ℕ → Sizes → Result Sizes
scan_extra zero file x x_end s = ok s
scan_extra (suc fuel) file x x_end s = elim (leb (x + 4) x_end) [
  | false ↦ ok s
  | true ↦ elim (read_u16 file x == 1) [
    | true ↦ read_zip64_extra file (x + 4) (min (x + 4 + read_u16 file (x + 2)) x_end) s
    | false ↦ scan_extra fuel file (x + 4 + read_u16 file (x + 2)) x_end s
  ]
]

-- One entry of the directory at `p`, and where the next one begins.
unfoldable pub parse_entry : List ℕ → ℕ → Result (CentralDirEntry × ℕ)
parse_entry file p =
    if past_end file p 46 || not (read_u32 file p == 0x02014b50)
    then err corrupt_entry
    else (let name_len = read_u16 file (p + 28) in
        let extra_len = read_u16 file (p + 30) in
        if past_end file p (46 + name_len + extra_len)
        then err corrupt_name
        else (scan_extra (extra_len + 1) file (p + 46 + name_len) (p + 46 + name_len + extra_len)
              (record {
                uncompressed = read_u32 file (p + 24);
                compressed = read_u32 file (p + 20);
                offset = read_u32 file (p + 42);
              })
            >>= λ s. ok (
              record {
                name = take name_len (drop (p + 46) file);
                method = read_u16 file (p + 10);
                compressed_size = s.compressed;
                uncompressed_size = s.uncompressed;
                local_header_offset = s.offset;
              },
              p + (46 + name_len + extra_len + read_u16 file (p + 32)),
            )))

unfoldable pub parse_entries : ℕ → List ℕ → ℕ → Result (List CentralDirEntry)
parse_entries zero file p = ok []
parse_entries (suc n) file p = elim (parse_entry file p) [
  | err e ↦ err e
  | ok (entry, next) ↦ elim (parse_entries n file next) [
    | err e ↦ err e
    | ok rest ↦ ok (entry ∷ rest)
  ]
]

unfoldable pub parse_central_directory : List ℕ → Result (List CentralDirEntry)
parse_central_directory file =
    if ltb (length file) 22
    then err not_zip
    else elim (find_end (min (length file) (22 + 65536) - 21) file 22) [
      | none ↦ err no_end
      | some eocd ↦ elim (directory_place file eocd) [
        | err e ↦ err e
        | ok (count, offset) ↦
            if leb (length file) offset then err corrupt_offset else parse_entries count file offset
      ]
    ]

-- `std::tolower` in the C locale.
unfoldable pub lower : ℕ → ℕ
lower c = if leb 65 c && leb c 90 then c + 32 else c

unfoldable pub ends_with_lower : List ℕ → List ℕ → Bool
ends_with_lower name suffix =
    leb (length suffix) (length name)
    && bytes_eq (map lower (drop (length name - length suffix) name)) (map lower suffix)

-- `stbi_zlib_decode_noheader_buffer`: it gets the sizes of the buffer and of the bytes, each as an
-- `int`, and gives the bytes decoded, if any.
abbrev pub Inflater : Type 0
Inflater = Option ℕ → Option ℕ → List ℕ → Option (List ℕ)

module _ (inflate : Inflater) where
  unfoldable pub inflate_entry : List ℕ → ℕ → Result (List ℕ)
  inflate_entry bytes size = elim (inflate (to_int size) (to_int (length bytes)) bytes) [
    | none ↦ err inflate_failed
    | some out ↦ if length out == size then ok out else err inflate_failed
  ]

  unfoldable pub extract_entry : List ℕ → CentralDirEntry → Result (List ℕ)
  extract_entry file entry =
      if not (entry.method == 0) && not (entry.method == 8)
      then err (unsupported_method entry.method)
      else (let lh = entry.local_header_offset in
          if past_end file lh 30 || not (read_u32 file lh == 0x04034b50)
          then err corrupt_local_header
          else (let start =
                (lh + 30 + read_u16 file (lh + 26) + read_u16 file (lh + 28)) % 2 ^ 64 in
              let bytes = take entry.compressed_size (drop start file) in
              if past_end file start entry.compressed_size
              then err truncated_entry
              else if entry.method == 0
              then ok bytes
              else inflate_entry bytes entry.uncompressed_size))

  unfoldable pub extract_first :
      (CentralDirEntry → Bool) → List ℕ → List CentralDirEntry → Result (List ℕ)
  extract_first matches file [] = err no_entry
  extract_first matches file (e ∷ es) = elim (matches e) [
    | true ↦ extract_entry file e
    | false ↦ extract_first matches file es
  ]

  -- `readStoredZipEntry` on the bytes of the file.
  unfoldable pub read_stored_zip_entry : List ℕ → List ℕ → Result (List ℕ)
  read_stored_zip_entry file name = do
    entries ← parse_central_directory file
    extract_first (λ e. bytes_eq e.name name) file entries

  -- `readStoredZipEntryBySuffix`: an entry whose name, in lower case, ends with the suffix.
  unfoldable pub read_stored_zip_entry_by_suffix : List ℕ → List ℕ → Result (List ℕ)
  read_stored_zip_entry_by_suffix file suffix = do
    entries ← parse_central_directory file
    extract_first (λ e. ends_with_lower e.name suffix) file entries
