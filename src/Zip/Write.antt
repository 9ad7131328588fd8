-- ===== src/Zip/Write.antt =====
-- `writeZipEntries` and its two callers.
use openscad_cpp_evaluator.Prelude.{
  ℕ, to_int, ◌+◌, ◌-◌, ◌%◌, ◌^◌, ◌&&◌, Option, none, some, List, [], ◌∷◌, ◌++◌, map, ltb,
  if◌then◌else◌, length, take, drop,
}
use openscad_cpp_evaluator.Zip.Bytes.{put_u16, put_u32}
use openscad_cpp_evaluator.Zip.Crc.{crc32}

-- An entry as the callers hand it over, and as it is placed in the archive.
pub record ZipEntry : Type 0 where
  pub name : List ℕ
  pub data_bytes : List ℕ

pub record PlacedEntry : Type 0 where
  pub name : List ℕ
  pub method : ℕ
  pub data_bytes : List ℕ
  pub crc : ℕ
  pub uncompressed_size : ℕ

abbrev pub dos_time : ℕ
dos_time = 0

abbrev pub dos_date : ℕ
dos_date = 20513

-- `static_cast<uint32_t>(bytes.size())`, and the same for a uint16_t.
abbrev pub size_u32 : List ℕ → ℕ
size_u32 bytes = length bytes % 2 ^ 32

abbrev pub size_u16 : List ℕ → ℕ
size_u16 bytes = length bytes % 2 ^ 16

abbrev pub local_signature : ℕ
local_signature = 0x04034b50

abbrev pub central_signature : ℕ
central_signature = 0x02014b50

abbrev pub end_signature : ℕ
end_signature = 0x06054b50

abbrev pub local_header : PlacedEntry → List ℕ
local_header e =
    put_u32 local_signature
    ++ put_u16 20
    ++ put_u16 0
    ++ put_u16 e.method
    ++ put_u16 dos_time
    ++ put_u16 dos_date
    ++ put_u32 e.crc
    ++ put_u32 (size_u32 e.data_bytes)
    ++ put_u32 e.uncompressed_size
    ++ put_u16 (size_u16 e.name)
    ++ put_u16 0

abbrev pub central_header : PlacedEntry → ℕ → List ℕ
central_header e offset =
    put_u32 central_signature
    ++ put_u16 20
    ++ put_u16 20
    ++ put_u16 0
    ++ put_u16 e.method
    ++ put_u16 dos_time
    ++ put_u16 dos_date
    ++ put_u32 e.crc
    ++ put_u32 (size_u32 e.data_bytes)
    ++ put_u32 e.uncompressed_size
    ++ put_u16 (size_u16 e.name)
    ++ put_u16 0
    ++ put_u16 0
    ++ put_u16 0
    ++ put_u16 0
    ++ put_u32 0
    ++ put_u32 offset

-- The first loop: the bytes so far, and the offset of each entry.
unfoldable pub write_locals : List PlacedEntry → List ℕ → List ℕ × List ℕ
write_locals [] out = (out, [])
write_locals (e ∷ es) out =
    let (all, offsets) = write_locals es (((out ++ local_header e) ++ e.name) ++ e.data_bytes) in
    (all, size_u32 out ∷ offsets)

-- The second loop, which reads `offsets[i]`.
unfoldable pub write_centrals : List PlacedEntry → List ℕ → List ℕ → List ℕ
write_centrals [] offsets out = out
write_centrals (e ∷ es) [] out = out
write_centrals (e ∷ es) (o ∷ offsets) out =
    write_centrals es offsets ((out ++ central_header e o) ++ e.name)

abbrev pub end_record : ℕ → ℕ → ℕ → List ℕ
end_record count size start =
    put_u32 end_signature
    ++ put_u16 0
    ++ put_u16 0
    ++ put_u16 (count % 2 ^ 16)
    ++ put_u16 (count % 2 ^ 16)
    ++ put_u32 size
    ++ put_u32 start
    ++ put_u16 0

-- The bytes that are written to the file.
unfoldable pub write_zip_entries : List PlacedEntry → List ℕ
write_zip_entries es =
    let (locals, offsets) = write_locals es [] in
    let start = size_u32 locals in
    let out = write_centrals es offsets locals in
    out ++ end_record (length es) ((size_u32 out + 2 ^ 32 - start) % 2 ^ 32) start

unfoldable pub place_stored : ZipEntry → PlacedEntry
place_stored e = record {
  name = e.name;
  method = 0;
  data_bytes = e.data_bytes;
  crc = crc32 e.data_bytes;
  uncompressed_size = size_u32 e.data_bytes;
}

unfoldable pub write_stored_zip : List ZipEntry → List ℕ
write_stored_zip es = write_zip_entries (map place_stored es)

-- `stbi_zlib_compress`, which gives a zlib stream or fails: a header of 2 bytes, the raw stream, a
-- trailer of 4. It gets the size as an `int`.
abbrev pub Compressor : Type 0
Compressor = Option ℕ → List ℕ → Option (List ℕ)

module _ (zlib : Compressor) where
  unfoldable pub deflate_raw : List ℕ → List ℕ
  deflate_raw bytes = elim (zlib (to_int (length bytes)) bytes) [
    | none ↦ []
    | some z ↦ if ltb 6 (length z) then take (length z - 6) (drop 2 z) else []
  ]

  unfoldable pub place_deflated : ZipEntry → PlacedEntry
  place_deflated e =
      let z = deflate_raw e.data_bytes in
      if ltb 0 (length z) && ltb (length z) (length e.data_bytes)
      then record {
        name = e.name;
        method = 8;
        data_bytes = z;
        crc = crc32 e.data_bytes;
        uncompressed_size = size_u32 e.data_bytes;
      }
      else place_stored e

  unfoldable pub write_deflate_zip : List ZipEntry → List ℕ
  write_deflate_zip es = write_zip_entries (map place_deflated es)
