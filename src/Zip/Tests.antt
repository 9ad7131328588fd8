-- ===== src/Zip/Tests.antt =====
-- The theorems of the ZIP modules at an archive of two files, and a compressor of runs of one byte.
use openscad_cpp_evaluator.Prelude.{
  ℕ, ◌≡◌, ◌≢◌, refl, sym, ap, arith, List, [], ◌∷◌, length, replicate, none, some, if◌then◌else◌,
  false, Bool-cases, inl, inr,
}
use openscad_cpp_evaluator.Prelude.Bytes.{bytes_eq, bytes_eq_iff}
use openscad_cpp_evaluator.Zip.Write.{Compressor}
use openscad_cpp_evaluator.Zip.Read.{Inflater}
use openscad_cpp_evaluator.Prelude.{◌<◌, ◌^◌}
use openscad_cpp_evaluator.Zip.Write.{ZipEntry, write_stored_zip, write_deflate_zip, deflate_raw}
use openscad_cpp_evaluator.Zip.Read.{
  ok, past_end, read_stored_zip_entry, read_stored_zip_entry_by_suffix,
}
use openscad_cpp_evaluator.Zip.Suffix.{has_ending}
use openscad_cpp_evaluator.Zip.Archive.{
  stored_size, IsClassic, first_data, past_end-wraps, read_stored_zip_entry-write_stored_zip,
  read_stored_zip_entry_by_suffix-write_deflate_zip,
}

abbrev name_a : List ℕ
name_a = 0x61 ∷ 0x2e ∷ 0x58 ∷ []

abbrev name_b : List ℕ
name_b = 0x62 ∷ []

abbrev two_files : List ZipEntry
two_files =
    record { name = name_a; data_bytes = 7 ∷ 7 ∷ 7 ∷ [] }
    ∷ record { name = name_b; data_bytes = 1 ∷ 2 ∷ [] }
    ∷ []

two_files-IsClassic : IsClassic two_files
unfolding IsClassic stored_size
two_files-IsClassic = ((omega arith, (omega arith, tt)), omega arith, omega arith)

-- Nothing was compressed, so no inflater is needed.
abbrev no_inflate : Inflater
no_inflate size packed bytes = none

read_stored_zip_entry-write_stored_zip_example :
    read_stored_zip_entry no_inflate (write_stored_zip two_files) name_b
    ≡ first_data (λ n. bytes_eq n name_b) two_files
read_stored_zip_entry-write_stored_zip_example =
    read_stored_zip_entry-write_stored_zip no_inflate two_files name_b two_files-IsClassic

second_is_found : first_data (λ n. bytes_eq n name_b) two_files ≡ ok (1 ∷ 2 ∷ [])
unfolding first_data bytes_eq
second_is_found = refl

-- A run of one byte is kept as that byte; anything else is not compressed.
run_zlib : Compressor
run_zlib size [] = none
run_zlib size (c ∷ rest) =
    if bytes_eq rest (replicate (length rest) c)
    then some (0x78 ∷ 0x9c ∷ c ∷ 0 ∷ 0 ∷ 0 ∷ 0 ∷ [])
    else none

run_inflate : Inflater
run_inflate size packed [] = none
run_inflate none packed (c ∷ rest) = none
run_inflate (some size) packed (c ∷ rest) = some (replicate size c)

run_inverse :
    (bytes : List ℕ)
    → length bytes < 2 ^ 31
    → deflate_raw run_zlib bytes ≢ []
    → run_inflate
        (some (length bytes))
        (some (length (deflate_raw run_zlib bytes)))
        (deflate_raw run_zlib bytes)
      ≡ some bytes
unfolding deflate_raw run_zlib run_inflate
run_inverse [] small made = absurd (made refl)
run_inverse (c ∷ rest) small made = elim (Bool-cases (bytes_eq rest (replicate (length rest) c))) [
  | inl run ↦
      rw (deflate_raw, run_zlib, run)
        (ap (λ t. some (c ∷ t)) (sym ((bytes_eq_iff rest (replicate (length rest) c)).0 run)))
  | inr mixed ↦ absurd (made (rw (deflate_raw, run_zlib, mixed) refl))
]

read_stored_zip_entry_by_suffix-write_deflate_zip_example :
    read_stored_zip_entry_by_suffix run_inflate
      (write_deflate_zip run_zlib two_files)
      (0x2e ∷ 0x78 ∷ [])
    ≡ first_data (λ n. has_ending n (0x2e ∷ 0x78 ∷ [])) two_files
read_stored_zip_entry_by_suffix-write_deflate_zip_example =
    read_stored_zip_entry_by_suffix-write_deflate_zip run_inflate run_zlib run_inverse two_files
      (0x2e ∷ 0x78 ∷ []) two_files-IsClassic (unfold stored_size in omega arith)

past_end-wraps_example : past_end (replicate 30 0) 0xfffffffffffffff0 30 ≡ false
past_end-wraps_example =
    past_end-wraps (replicate 30 0) 0xfffffffffffffff0 (omega arith) (omega arith) (omega arith)
