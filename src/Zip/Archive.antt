-- ===== src/Zip/Archive.antt =====
-- The writers of stored and of compressed archives against the readers by name and by suffix.
use openscad_cpp_evaluator.Prelude.{
  ℕ, to_int-small, ◌+◌, ◌-◌, ◌%◌, ◌^◌, ◌<◌, ◌≤◌, ◌≡◌, ◌≢◌, refl, ◌∙◌, ap, arith, Bool, true, false,
  ◌&&◌, List, [], ◌∷◌, map, All, length, length-map, ltb, ◌==◌, some, inl, inr, ◌⊎◌, Bool-cases,
}
use openscad_cpp_evaluator.Prelude.Bytes.{bytes_eq}
use openscad_cpp_evaluator.Zip.Write.{
  Compressor, ZipEntry, PlacedEntry, size_u32, place_stored, write_zip_entries, write_stored_zip,
  deflate_raw, place_deflated, write_deflate_zip,
}
use openscad_cpp_evaluator.Zip.Crc.{crc32}
use openscad_cpp_evaluator.Zip.Read.{Inflater}
use openscad_cpp_evaluator.Zip.Read.{
  ◌>>=◌, past_end, parse_central_directory, extract_first, Result, ok, err, no_entry, inflate_entry,
  ends_with_lower, read_stored_zip_entry, read_stored_zip_entry_by_suffix,
}
use openscad_cpp_evaluator.Zip.Suffix.{has_ending, ends_with_lower-has_ending}
use openscad_cpp_evaluator.Zip.Layout.{locals_size, centrals_size, archive_size}
use openscad_cpp_evaluator.Zip.Entries.{Fits, content}
use openscad_cpp_evaluator.Zip.RoundTrip.{Writable, first_content, extract_first-write}

-- In a file of 30 bytes or more a local header at an offset of 2^64 - 30 or above passes the check of
-- the file's end, since the sum in the check wraps.
pub past_end-wraps :
    (file : List ℕ) (lh : ℕ)
    → 30 ≤ length file
    → 2 ^ 64 - 30 ≤ lh
    → lh < 2 ^ 64
    → past_end file lh 30 ≡ false
past_end-wraps file lh long low high =
    let wrapped : (lh + 30) % 2 ^ 64 ≡ lh + 30 - 2 ^ 64 = omega arith in rw wrapped (ground arith)

-- The data of the first entry whose name matches: what a reader of the archive is to give.
unfoldable pub first_data : (List ℕ → Bool) → List ZipEntry → Result (List ℕ)
first_data matches [] = err no_entry
first_data matches (e ∷ es) = elim (matches e.name) [
  | true ↦ ok e.data_bytes
  | false ↦ first_data matches es
]

first_data-same :
    (f g : List ℕ → Bool)
    → ((n : List ℕ) → f n ≡ g n)
    → (es : List ZipEntry) → first_data f es ≡ first_data g es
unfolding first_data
first_data-same f g same [] = refl
first_data-same f g same (e ∷ es) = elim (Bool-cases (g e.name)) [
  | inl hit ↦
      let both : f e.name ≡ true = same e.name ∙ hit in rw (first_data, both, first_data, hit) refl
  | inr miss ↦
      let both : f e.name ≡ false = same e.name ∙ miss in
      rw (first_data, both, first_data, miss) (first_data-same f g same es)
]

-- The size of an archive whose entries are stored as they are.
unfoldable pub stored_size : List ZipEntry → ℕ
stored_size [] = 22
stored_size (e ∷ es) = 76 + length e.name + length e.name + length e.data_bytes + stored_size es

-- An archive that needs no ZIP64: short names, fewer than 65535 entries, less than 4 GiB.
unfoldable pub IsClassic : List ZipEntry → Type 0
IsClassic es =
    All (λ e. length e.name < 2 ^ 16) es × length es < 0xffff × stored_size es < 2 ^ 32 - 1

-- A placed entry from which data below a limit comes back.
Keeps : ℕ → Inflater → ZipEntry → PlacedEntry → Type 0
Keeps limit inflate e placed =
    (placed.name ≡ e.name)
    × length placed.data_bytes ≤ length e.data_bytes
    × (placed.uncompressed_size ≡ length e.data_bytes % 2 ^ 32)
    × ((placed.method ≡ 0) ⊎ (placed.method ≡ 8))
    × (length e.data_bytes < limit → content inflate placed ≡ ok e.data_bytes)

module _ (limit : ℕ) (inflate : Inflater) (place : ZipEntry → PlacedEntry) where
  module _ (keeps : (e : ZipEntry) → Keeps limit inflate e (place e)) where
    archive_size-placed : (es : List ZipEntry) → archive_size (map place es) ≤ stored_size es
    unfolding archive_size locals_size centrals_size stored_size Keeps
    archive_size-placed [] = omega arith
    archive_size-placed (e ∷ es) =
        omega (arith, archive_size-placed es, keeps e, ap length (keeps e).0)

    placed-Fits :
        (es : List ZipEntry)
        → All (λ e. length e.name < 2 ^ 16) es
        → stored_size es < 2 ^ 32 - 1
        → All Fits (map place es)
    unfolding Fits stored_size Keeps
    placed-Fits [] names small = names
    placed-Fits (e ∷ es) names small = (
      (
        omega (arith, names.0, ap length (keeps e).0),
        omega (arith, keeps e),
        omega (arith, (keeps e).2),
        (keeps e).3,
      ),
      placed-Fits es names.1 (omega arith),
    )

    first_content-placed :
        (matches : List ℕ → Bool) (es : List ZipEntry)
        → stored_size es < limit
        → first_content inflate matches (map place es) ≡ first_data matches es
    unfolding first_content first_data stored_size Keeps
    first_content-placed matches [] small = refl
    first_content-placed matches (e ∷ es) small =
        let named = (keeps e).0 in
        elim (Bool-cases (matches e.name)) [
          | inl hit ↦ rw (first_content, first_data, named, hit) ((keeps e).4 (omega arith))
          | inr miss ↦
              rw (first_content, first_data, named, miss)
                (first_content-placed matches es (omega arith))
        ]

    placed-Writable : (es : List ZipEntry) → IsClassic es → Writable (map place es)
    unfolding Writable IsClassic
    placed-Writable es classic = (
      placed-Fits es classic.0 classic.2,
      omega (arith, length-map es place, classic.1),
      omega (arith, archive_size-placed es, classic.2),
    )

    read-written :
        (matches : List ℕ → Bool) (es : List ZipEntry)
        → IsClassic es
        → stored_size es < limit
        → (parse_central_directory (write_zip_entries (map place es))
            >>= extract_first inflate
                (λ entry. matches entry.name)
                (write_zip_entries (map place es)))
          ≡ first_data matches es
    unfolding IsClassic
    read-written matches es classic small =
        extract_first-write (map place es) (placed-Writable es classic) inflate matches
        ∙ first_content-placed matches es small

module _ (inflate : Inflater) where
  Keeps-place_stored : (limit : ℕ) (e : ZipEntry) → Keeps limit inflate e (place_stored e)
  unfolding Keeps place_stored content
  Keeps-place_stored limit e = (refl, omega arith, refl, inl refl, λ small. refl)

  -- An archive of stored entries that needs no ZIP64 gives back, by name, the data of the first entry
  -- of that name, and the error of a missing entry if there is none.
  pub read_stored_zip_entry-write_stored_zip :
      (es : List ZipEntry) (name : List ℕ)
      → IsClassic es
      → read_stored_zip_entry inflate (write_stored_zip es) name
        ≡ first_data (λ n. bytes_eq n name) es
  unfolding read_stored_zip_entry write_stored_zip IsClassic
  read_stored_zip_entry-write_stored_zip es name classic =
      read-written (2 ^ 32 - 1) inflate place_stored (Keeps-place_stored (2 ^ 32 - 1))
        (λ n. bytes_eq n name) es classic classic.2

  -- Where the inflater takes back what the compressor made of data below 2^31 bytes, each time that
  -- made anything.
  module _ (zlib : Compressor)
      (inverse : (bytes : List ℕ)
        → length bytes < 2 ^ 31
        → deflate_raw zlib bytes ≢ []
        → inflate
            (some (length bytes))
            (some (length (deflate_raw zlib bytes)))
            (deflate_raw zlib bytes)
          ≡ some bytes) where
    Keeps-compressed :
        (e : ZipEntry)
        → 0 < length (deflate_raw zlib e.data_bytes)
        → length (deflate_raw zlib e.data_bytes) < length e.data_bytes
        → Keeps (2 ^ 31) inflate e (record {
          name = e.name;
          method = 8;
          data_bytes = deflate_raw zlib e.data_bytes;
          crc = crc32 e.data_bytes;
          uncompressed_size = size_u32 e.data_bytes;
        })
    unfolding Keeps content inflate_entry
    Keeps-compressed e some_bytes shorter = (
      refl,
      omega arith,
      refl,
      inr refl,
      λ small.
          let kept : length e.data_bytes % 2 ^ 32 ≡ length e.data_bytes = omega arith in
          let made : deflate_raw zlib e.data_bytes ≢ [] =
            λ none_made. omega (arith, ap length none_made) in
          let whole : (length e.data_bytes == length e.data_bytes) ≡ true = ground arith in
          let sizes = to_int-small (length e.data_bytes) small in
          let packed =
            to_int-small (length (deflate_raw zlib e.data_bytes)) (omega (arith, shorter, small)) in
          rw (kept, inflate_entry, sizes, packed, inverse e.data_bytes small made, kept, whole)
            refl,
    )

    Keeps-place_deflated : (e : ZipEntry) → Keeps (2 ^ 31) inflate e (place_deflated zlib e)
    unfolding place_deflated
    Keeps-place_deflated e =
        let z = deflate_raw zlib e.data_bytes in
        elim (Bool-cases (ltb 0 (length z) && ltb (length z) (length e.data_bytes))) [
          | inl smaller ↦ rw smaller (Keeps-compressed e (ground arith) (ground arith))
          | inr larger ↦ rw larger (Keeps-place_stored (2 ^ 31) e)
        ]

    -- A compressed archive that needs no ZIP64 and has less than 2^31 bytes when it is stored, so that
    -- the sizes that are handed to the compressor and the inflater fit an `int`, gives back, by suffix
    -- without regard to case of the letters A to Z, the data of the first entry whose name ends so, if
    -- the inflater takes back what the compressor made.
    pub read_stored_zip_entry_by_suffix-write_deflate_zip :
        (es : List ZipEntry) (suffix : List ℕ)
        → IsClassic es
        → stored_size es < 2 ^ 31
        → read_stored_zip_entry_by_suffix inflate (write_deflate_zip zlib es) suffix
          ≡ first_data (λ n. has_ending n suffix) es
    unfolding read_stored_zip_entry_by_suffix write_deflate_zip
    read_stored_zip_entry_by_suffix-write_deflate_zip es suffix classic small =
        read-written (2 ^ 31) inflate (place_deflated zlib) Keeps-place_deflated
          (λ n. ends_with_lower n suffix) es classic small
        ∙ first_data-same (λ n. ends_with_lower n suffix) (λ n. has_ending n suffix)
            (λ n. ends_with_lower-has_ending n suffix) es
