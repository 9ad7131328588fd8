-- ===== src/Zip/RoundTrip.antt =====
-- A written archive read back as a whole.
use openscad_cpp_evaluator.Prelude.{
  some, append-nil, min, ◌||◌, inl, inr, Bool-cases, ℕ, suc, ◌+◌, ◌-◌, ◌%◌, ◌^◌, ◌<◌, ◌≡◌, refl,
  sym, ◌∙◌, ap, arith, Bool, true, false, List, [], ◌∷◌, ◌++◌, All, append_assoc, length, drop,
  drop-drop, drop-length, ltb, leb, ◌==◌,
}
use openscad_cpp_evaluator.Zip.Bytes.{read_u16, read_u32, join_u16, join_u32}
use openscad_cpp_evaluator.Zip.Write.{
  PlacedEntry, local_header, central_header, end_record, write_zip_entries,
}
use openscad_cpp_evaluator.Zip.Read.{Inflater}
use openscad_cpp_evaluator.Zip.Read.{
  ◌>>=◌, Result, ok, err, no_entry, find_end, directory_place, parse_entries,
  parse_central_directory, extract_first,
}
use openscad_cpp_evaluator.Zip.Layout.{
  local_size, locals_size, centrals_size, archive_size, locals, centrals, length-locals,
  length-centrals, length-write_zip_entries, write_zip_entries-eq,
}
use openscad_cpp_evaluator.Zip.Entries.{
  Fits, dir_entry, dir_entries, u16_at, u32_at, parse_entry_at, extract_entry_at, content,
}

-- What the format without ZIP64 can hold.
unfoldable pub Writable : List PlacedEntry → Type 0
Writable es = All Fits es × length es < 0xffff × archive_size es < 2 ^ 32 - 1

module _ (file : List ℕ) (small : length file < 2 ^ 32) where
  parse_entries_at :
      (es : List PlacedEntry) (p o : ℕ) (rest : List ℕ)
      → All Fits es
      → o + locals_size es < 2 ^ 32 - 1
      → drop p file ≡ centrals es o ++ rest
      → parse_entries (length es) file p ≡ ok (dir_entries es o)
  unfolding parse_entries dir_entries centrals locals_size
  parse_entries_at [] p o rest fits low at = refl
  parse_entries_at (e ∷ es) p o rest fits low at =
      let after = centrals es (o + local_size e) ++ rest in
      let here : drop p file ≡ central_header e o ++ (e.name ++ after) =
        at
        ∙ append_assoc (central_header e o) (e.name ++ centrals es (o + local_size e)) rest
        ∙ ap (λ t. central_header e o ++ t)
            (append_assoc e.name (centrals es (o + local_size e)) rest) in
      let next : drop (p + (46 + length e.name)) file ≡ after =
        sym (drop-drop (46 + length e.name) p file)
        ∙ ap (drop (46 + length e.name)) here
        ∙ sym (drop-drop (length e.name) 46 (central_header e o ++ (e.name ++ after)))
        ∙ drop-length e.name after in
      rw
        (
          parse_entries,
          parse_entry_at file small e fits.0 p o after (omega arith) here,
          parse_entries_at es (p + (46 + length e.name)) (o + local_size e) rest fits.1
              (omega arith) next,
        )
        refl

-- The content of the first entry whose name matches.
module _ (inflate : Inflater) (matches : List ℕ → Bool) where
  unfoldable pub first_content : List PlacedEntry → Result (List ℕ)
  first_content [] = err no_entry
  first_content (e ∷ es) = elim (matches e.name) [
    | true ↦ content inflate e
    | false ↦ first_content es
  ]

  extract_first_at :
      (file : List ℕ)
      → length file < 2 ^ 32
      → (es : List PlacedEntry) → (o : ℕ) → (rest : List ℕ) → All Fits es
      → drop o file ≡ locals es ++ rest
      → extract_first inflate (λ entry. matches entry.name) file (dir_entries es o)
        ≡ first_content es
  unfolding extract_first dir_entries locals first_content dir_entry
  extract_first_at file small [] o rest fits at = refl
  extract_first_at file small (e ∷ es) o rest fits at =
      let after = locals es ++ rest in
      let body = e.name ++ (e.data_bytes ++ after) in
      let here : drop o file ≡ local_header e ++ body =
        at
        ∙ append_assoc (local_header e) (e.name ++ (e.data_bytes ++ locals es)) rest
        ∙ ap (λ t. local_header e ++ t)
            (append_assoc e.name (e.data_bytes ++ locals es) rest
              ∙ ap (λ t. e.name ++ t) (append_assoc e.data_bytes (locals es) rest)) in
      let place : o + local_size e ≡ o + (30 + (length e.name + length e.data_bytes)) =
        omega arith in
      let next : drop (o + local_size e) file ≡ after =
        ap (λ t. drop t file) place
        ∙ sym (drop-drop (30 + (length e.name + length e.data_bytes)) o file)
        ∙ ap (drop (30 + (length e.name + length e.data_bytes))) here
        ∙ sym (drop-drop (length e.name + length e.data_bytes) 30 (local_header e ++ body))
        ∙ sym (drop-drop (length e.data_bytes) (length e.name) body)
        ∙ ap (drop (length e.data_bytes)) (drop-length e.name (e.data_bytes ++ after))
        ∙ drop-length e.data_bytes after in
      elim (Bool-cases (matches e.name)) [
        | inl hit ↦
            rw (first_content, hit) (extract_entry_at file small inflate e fits.0 o after here)
        | inr miss ↦
            rw (first_content, miss)
              (extract_first_at file small es (o + local_size e) rest fits.1 next)
      ]

-- The fields of the end record.
end_fields :
    (count size start : ℕ)
    → count < 0xffff
    → start < 2 ^ 32 - 1
    → (read_u32 (end_record count size start ++ []) 0 ≡ 0x06054b50)
      × (read_u16 (end_record count size start ++ []) 10 ≡ count)
      × (read_u32 (end_record count size start ++ []) 16 ≡ start)
unfolding read_u16 read_u32
end_fields count size start hc hs =
    let kept : count % 2 ^ 16 ≡ count = omega arith in
    (refl, join_u16 (count % 2 ^ 16) (omega arith) ∙ kept, join_u32 start (omega arith))

-- The end record of an archive without a comment is found in the first round.
module _ (file : List ℕ) (small : length file < 2 ^ 32) (eocd : ℕ)
    (size : eocd + 22 ≡ length file) where
  find_end-first :
      read_u32 file eocd ≡ 0x06054b50
      → find_end (min (length file) (22 + 65536) - 21) file 22 ≡ some eocd
  unfolding find_end
  find_end-first signature =
      let rounds : min (length file) (22 + 65536) - 21 ≡ suc (min (length file) (22 + 65536) - 22) =
        omega arith in
      let back : length file - 22 ≡ eocd = omega arith in
      rw (rounds, find_end, back, signature) (ap some back)

  directory_place-classic :
      (count start : ℕ)
      → count < 0xffff
      → start < 2 ^ 32 - 1
      → read_u16 file (eocd + 10) ≡ count
      → read_u32 file (eocd + 16) ≡ start
      → directory_place file eocd ≡ ok (count, start)
  unfolding directory_place
  directory_place-classic count start hc hs c o =
      let no_zip64 : (count == 0xffff || start == 0xffffffff) ≡ false = ground arith in
      rw (directory_place, c, o, no_zip64) refl

-- The directory of a written archive.
module _ (es : List PlacedEntry) (writable : Writable es) where
  parse_central_directory-write :
      parse_central_directory (write_zip_entries es) ≡ ok (dir_entries es 0)
  unfolding Writable archive_size parse_central_directory
  parse_central_directory-write =
      let start = locals_size es in
      let file = write_zip_entries es in
      let tail = end_record (length es) (centrals_size es) start in
      let whole : file ≡ locals es ++ (centrals es 0 ++ tail) =
        write_zip_entries-eq es (omega (arith, writable.2)) in
      let size : start + centrals_size es + 22 ≡ length file =
        sym (length-write_zip_entries es (omega (arith, writable.2))) in
      let dir_at : drop start file ≡ centrals es 0 ++ tail =
        ap (drop start) whole
        ∙ ap (λ n. drop n (locals es ++ (centrals es 0 ++ tail))) (sym (length-locals es))
        ∙ drop-length (locals es) (centrals es 0 ++ tail) in
      let end_at : drop (start + centrals_size es) file ≡ tail ++ [] =
        sym (drop-drop (centrals_size es) start file)
        ∙ ap (drop (centrals_size es)) dir_at
        ∙ ap (λ n. drop n (centrals es 0 ++ tail)) (sym (length-centrals es 0))
        ∙ drop-length (centrals es 0) tail
        ∙ sym (append-nil tail) in
      let small : length file < 2 ^ 32 = omega (arith, size, writable.2) in
      let eocd = start + centrals_size es in
      let f =
        end_fields (length es) (centrals_size es) start writable.1 (omega (arith, writable.2)) in
      let zero_at : eocd ≡ eocd + 0 = omega arith in
      let signature =
        ap (read_u32 file) zero_at ∙ u32_at file small eocd tail [] end_at 0 0x06054b50 f.0 in
      let long_enough : ltb (length file) 22 ≡ false = ground (arith, size) in
      let inside : leb (length file) start ≡ false = ground (arith, size) in
      rw
        (
          parse_central_directory,
          long_enough,
          find_end-first file small eocd size signature,
          directory_place-classic file small eocd size (length es) start writable.1
              (omega (arith, writable.2)) (u16_at file small eocd tail [] end_at 10 (length es) f.1)
              (u32_at file small eocd tail [] end_at 16 start f.2),
          inside,
        )
        (parse_entries_at file small es start 0 tail writable.0 (omega (arith, writable.2)) dir_at)

  -- Its first entry with a matching name is extracted.
  pub extract_first-write :
      (inflate : Inflater)
      → (matches : List ℕ → Bool)
      → (parse_central_directory (write_zip_entries es)
          >>= extract_first inflate (λ entry. matches entry.name) (write_zip_entries es))
        ≡ first_content inflate matches es
  unfolding Writable archive_size
  extract_first-write inflate matches =
      let file = write_zip_entries es in
      let tail = centrals es 0 ++ end_record (length es) (centrals_size es) (locals_size es) in
      let whole : file ≡ locals es ++ tail = write_zip_entries-eq es (omega (arith, writable.2)) in
      let small : length file < 2 ^ 32 =
        omega (arith, length-write_zip_entries es (omega (arith, writable.2)), writable.2) in
      rw parse_central_directory-write
        (extract_first_at inflate matches file small es 0 tail writable.0 whole)
