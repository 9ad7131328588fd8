-- ===== src/Zip/Entries.antt =====
-- What `writeZipEntries` wrote is what `parseCentralDirectory` and `extractEntry` read.
use openscad_cpp_evaluator.Prelude.{
  ℕ, ◌+◌, ◌-◌, ◌%◌, ◌^◌, ◌<◌, ◌≤◌, ◌≡◌, refl, sym, ◌∙◌, ap, arith, false, not, List, [], ◌∷◌, ◌++◌,
  append_assoc, length, length-append, take, drop, drop-drop, drop-length, take-length, length-drop,
  leb, ◌==◌, if◌then◌else◌, ◌⊎◌, inl, inr, ◌&&◌,
}
use openscad_cpp_evaluator.Zip.Bytes.{
  read_u16, read_u32, read_u16-drop, read_u32-drop, join_u16, join_u32,
}
use openscad_cpp_evaluator.Zip.Write.{PlacedEntry, local_header, central_header}
use openscad_cpp_evaluator.Zip.Read.{Inflater}
use openscad_cpp_evaluator.Zip.Read.{
  Result, ok, CentralDirEntry, past_end, Sizes, scan_extra, parse_entry, extract_entry,
  inflate_entry,
}
use openscad_cpp_evaluator.Zip.Layout.{local_size}

-- What the header's fields can hold.
unfoldable pub Fits : PlacedEntry → Type 0
Fits e =
    length e.name < 2 ^ 16
    × length e.data_bytes < 2 ^ 32 - 1
    × e.uncompressed_size < 2 ^ 32 - 1
    × ((e.method ≡ 0) ⊎ (e.method ≡ 8))

-- The entry of the directory for a placed entry at an offset.
unfoldable pub dir_entry : PlacedEntry → ℕ → CentralDirEntry
dir_entry e o = record {
  name = e.name;
  method = e.method;
  compressed_size = length e.data_bytes;
  uncompressed_size = e.uncompressed_size;
  local_header_offset = o;
}

unfoldable pub dir_entries : List PlacedEntry → ℕ → List CentralDirEntry
dir_entries [] o = []
dir_entries (e ∷ es) o = dir_entry e o ∷ dir_entries es (o + local_size e)

-- No read goes past the end of a file below 4 GiB, and the bytes of a test do not wrap.
past_end-false :
    (file : List ℕ) (p n : ℕ)
    → p + n ≤ length file
    → length file < 2 ^ 32
    → past_end file p n ≡ false
past_end-false file p n h small =
    let e : (p + n) % 2 ^ 64 ≡ p + n = omega arith in rw e (ground arith)

-- The fields of a header, at their places in it.
module _ (e : PlacedEntry) (fits : Fits e) (tail : List ℕ) where
  stored_u16 : (bytes : List ℕ) → length bytes < 2 ^ 16 → length bytes % 2 ^ 16 ≡ length bytes
  stored_u16 bytes h = omega arith

  stored_u32 : (bytes : List ℕ) → length bytes < 2 ^ 32 - 1 → length bytes % 2 ^ 32 ≡ length bytes
  stored_u32 bytes h = omega arith

  method_bound : e.method < 2 ^ 16
  unfolding Fits
  method_bound = elim fits.3 [ inl h ↦ omega arith | inr h ↦ omega arith ]

  central_fields :
      (o : ℕ)
      → o < 2 ^ 32 - 1
      → (read_u32 (central_header e o ++ tail) 0 ≡ 0x02014b50)
        × (read_u16 (central_header e o ++ tail) 10 ≡ e.method)
        × (read_u32 (central_header e o ++ tail) 20 ≡ length e.data_bytes)
        × (read_u32 (central_header e o ++ tail) 24 ≡ e.uncompressed_size)
        × (read_u16 (central_header e o ++ tail) 28 ≡ length e.name)
        × (read_u16 (central_header e o ++ tail) 30 ≡ 0)
        × (read_u16 (central_header e o ++ tail) 32 ≡ 0)
        × (read_u32 (central_header e o ++ tail) 42 ≡ o)
  unfolding Fits read_u16 read_u32
  central_fields o low = (
    refl,
    join_u16 e.method method_bound,
    join_u32 (length e.data_bytes % 2 ^ 32) (omega arith) ∙ stored_u32 e.data_bytes fits.1,
    join_u32 e.uncompressed_size (omega (arith, fits.2)),
    join_u16 (length e.name % 2 ^ 16) (omega arith) ∙ stored_u16 e.name fits.0,
    refl,
    refl,
    join_u32 o (omega arith),
  )

  local_fields :
      (read_u32 (local_header e ++ tail) 0 ≡ 0x04034b50)
      × (read_u16 (local_header e ++ tail) 26 ≡ length e.name)
      × (read_u16 (local_header e ++ tail) 28 ≡ 0)
  unfolding Fits read_u16 read_u32
  local_fields =
      (refl, join_u16 (length e.name % 2 ^ 16) (omega arith) ∙ stored_u16 e.name fits.0, refl)

-- An empty extra field ends the loop over it at once.
scan_extra-empty : (file : List ℕ) (x : ℕ) (s : Sizes) → scan_extra (0 + 1) file x (x + 0) s ≡ ok s
unfolding scan_extra
scan_extra-empty file x s =
    let e : leb (x + 4) (x + 0) ≡ false = ground arith in rw (scan_extra, e) refl

-- What an entry holds: its bytes, or what the inflater makes of them.
unfoldable pub content : Inflater → PlacedEntry → Result (List ℕ)
content inflate e =
    if e.method == 0
    then ok e.data_bytes
    else inflate_entry inflate e.data_bytes e.uncompressed_size

module _ (file : List ℕ) (small : length file < 2 ^ 32) where
  -- A record stands at p.
  module _ (p : ℕ) (bytes rest : List ℕ) (at : drop p file ≡ bytes ++ rest) where
    inside : length bytes ≤ length file - p
    inside = omega (arith, ap length at, length-append bytes rest, length-drop p file)

    pub u16_at : (k v : ℕ) → read_u16 (bytes ++ rest) k ≡ v → read_u16 file (p + k) ≡ v
    u16_at k v h = read_u16-drop p k file ∙ ap (λ t. read_u16 t k) at ∙ h

    pub u32_at : (k v : ℕ) → read_u32 (bytes ++ rest) k ≡ v → read_u32 file (p + k) ≡ v
    u32_at k v h = read_u32-drop p k file ∙ ap (λ t. read_u32 t k) at ∙ h

  module _ (e : PlacedEntry) (fits : Fits e) (p o : ℕ) (rest : List ℕ) (low : o < 2 ^ 32 - 1) where
    pub parse_entry_at :
        drop p file ≡ central_header e o ++ (e.name ++ rest)
        → parse_entry file p ≡ ok (dir_entry e o, p + (46 + length e.name))
    unfolding parse_entry dir_entry
    parse_entry_at at =
        let u16 = u16_at p (central_header e o) (e.name ++ rest) at in
        let u32 = u32_at p (central_header e o) (e.name ++ rest) at in
        let f = central_fields e fits (e.name ++ rest) o low in
        let zero_at : p ≡ p + 0 = omega arith in
        let room =
          inside p (central_header e o ++ e.name) rest
            (at ∙ sym (append_assoc (central_header e o) e.name rest)) in
        let long = length-append (central_header e o) e.name in
        let header_inside = past_end-false file p 46 (omega (arith, room, long)) small in
        let name_inside =
          past_end-false file p (46 + length e.name + 0) (omega (arith, room, long)) small in
        let signature = ap (read_u32 file) zero_at ∙ u32 0 0x02014b50 f.0 in
        let next : 46 + length e.name + 0 + 0 ≡ 46 + length e.name = omega arith in
        let name_at : take (length e.name) (drop (p + 46) file) ≡ e.name =
          ap (take (length e.name)) (sym (drop-drop 46 p file) ∙ ap (drop 46) at)
          ∙ take-length e.name rest in
        rw
          (
            header_inside,
            signature,
            u16 28 (length e.name) f.4,
            u16 30 0 f.5,
            name_inside,
            scan_extra-empty file (p + 46 + length e.name),
            u16 10 e.method f.1,
            u16 32 0 f.6,
            name_at,
            u32 20 (length e.data_bytes) f.2,
            u32 24 e.uncompressed_size f.3,
            u32 42 o f.7,
            next,
          )
          refl

  module _ (inflate : Inflater) where
    pub extract_entry_at :
        (e : PlacedEntry)
        → Fits e
        → (o : ℕ) → (rest : List ℕ)
        → drop o file ≡ local_header e ++ (e.name ++ (e.data_bytes ++ rest))
        → extract_entry inflate file (dir_entry e o) ≡ content inflate e
    unfolding extract_entry dir_entry content Fits
    extract_entry_at e fits o rest at =
        let body = e.name ++ (e.data_bytes ++ rest) in
        let u16 = u16_at o (local_header e) body at in
        let f = local_fields e fits body in
        let zero_at : o ≡ o + 0 = omega arith in
        let signature =
          ap (read_u32 file) zero_at ∙ u32_at o (local_header e) body at 0 0x04034b50 f.0 in
        let record_bytes = local_header e ++ (e.name ++ e.data_bytes) in
        let joined : drop o file ≡ record_bytes ++ rest =
          at
          ∙ ap (λ t. local_header e ++ t) (sym (append_assoc e.name e.data_bytes rest))
          ∙ sym (append_assoc (local_header e) (e.name ++ e.data_bytes) rest) in
        let room = inside o record_bytes rest joined in
        let long = length-append (local_header e) (e.name ++ e.data_bytes) in
        let long_name = length-append e.name e.data_bytes in
        let header_inside = past_end-false file o 30 (omega (arith, room, long, long_name)) small in
        let start : ℕ = o + 30 + length e.name + 0 in
        let no_wrap : start % 2 ^ 64 ≡ start = omega (arith, room, long, long_name, small) in
        let data_inside =
          past_end-false file start (length e.data_bytes) (omega (arith, room, long, long_name))
            small in
        let place : start ≡ o + (30 + length e.name) = omega arith in
        let data_at : take (length e.data_bytes) (drop start file) ≡ e.data_bytes =
          ap (take (length e.data_bytes)) (
            ap (λ t. drop t file) place
            ∙ sym (drop-drop (30 + length e.name) o file)
            ∙ ap (drop (30 + length e.name)) at
            ∙ sym (drop-drop (length e.name) 30 (local_header e ++ body))
            ∙ drop-length e.name (e.data_bytes ++ rest))
          ∙ take-length e.data_bytes rest in
        let known : (not (e.method == 0) && not (e.method == 8)) ≡ false = elim fits.3 [
          | inl h ↦ rw h refl
          | inr h ↦ rw h refl
        ] in
        rw
          (
            known,
            header_inside,
            signature,
            u16 26 (length e.name) f.1,
            u16 28 0 f.2,
            no_wrap,
            data_inside,
            data_at,
          )
          refl
