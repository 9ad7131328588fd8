-- ===== src/Zip/Layout.antt =====
-- The bytes that `writeZipEntries` gives, as one formula: the local records, the directory and the
-- end record, for archives below 4 GiB.
use openscad_cpp_evaluator.Prelude.{
  ℕ, ◌+◌, ◌-◌, ◌%◌, ◌^◌, ◌<◌, ◌≡◌, refl, ◌∙◌, ap, arith, List, [], ◌∷◌, ◌++◌, append_assoc,
  append-nil, length, length-append,
}
use openscad_cpp_evaluator.Zip.Write.{
  PlacedEntry, local_header, central_header, end_record, write_locals, write_centrals,
  write_zip_entries,
}

-- What one entry takes before the directory, and in all.
abbrev pub local_size : PlacedEntry → ℕ
local_size e = 30 + length e.name + length e.data_bytes

unfoldable pub locals_size : List PlacedEntry → ℕ
locals_size [] = 0
locals_size (e ∷ es) = local_size e + locals_size es

unfoldable pub centrals_size : List PlacedEntry → ℕ
centrals_size [] = 0
centrals_size (e ∷ es) = 46 + length e.name + centrals_size es

unfoldable pub archive_size : List PlacedEntry → ℕ
archive_size es = locals_size es + centrals_size es + 22

unfoldable pub locals : List PlacedEntry → List ℕ
locals [] = []
locals (e ∷ es) = local_header e ++ (e.name ++ (e.data_bytes ++ locals es))

unfoldable pub centrals : List PlacedEntry → ℕ → List ℕ
centrals [] o = []
centrals (e ∷ es) o = central_header e o ++ (e.name ++ centrals es (o + local_size e))

offsets : List PlacedEntry → ℕ → List ℕ
offsets [] o = []
offsets (e ∷ es) o = o ∷ offsets es (o + local_size e)

pub length-locals : (es : List PlacedEntry) → length (locals es) ≡ locals_size es
unfolding locals locals_size
length-locals [] = refl
length-locals (e ∷ es) =
    rw
      (
        length-append (local_header e) (e.name ++ (e.data_bytes ++ locals es)),
        length-append e.name (e.data_bytes ++ locals es),
        length-append e.data_bytes (locals es),
        length-locals es,
      )
      (omega arith)

pub length-centrals : (es : List PlacedEntry) (o : ℕ) → length (centrals es o) ≡ centrals_size es
unfolding centrals centrals_size
length-centrals [] o = refl
length-centrals (e ∷ es) o =
    rw
      (
        length-append (central_header e o) (e.name ++ centrals es (o + local_size e)),
        length-append e.name (centrals es (o + local_size e)),
        length-centrals es (o + local_size e),
      )
      (omega arith)

-- A number below its width is kept.
pub fits_u32 : (v : ℕ) → v < 2 ^ 32 → v % 2 ^ 32 ≡ v
fits_u32 v h = omega arith

write_locals-eq :
    (es : List PlacedEntry) (out : List ℕ)
    → length out + locals_size es < 2 ^ 32
    → write_locals es out ≡ (out ++ locals es, offsets es (length out))
unfolding write_locals locals locals_size offsets
write_locals-eq [] out h = rw (append-nil out) refl
write_locals-eq (e ∷ es) out h =
    let here = (((out ++ local_header e) ++ e.name) ++ e.data_bytes) in
    let joined : here ≡ out ++ (local_header e ++ (e.name ++ e.data_bytes)) =
      ap (λ t. t ++ e.data_bytes) (append_assoc out (local_header e) e.name)
      ∙ append_assoc out (local_header e ++ e.name) e.data_bytes in
    let len : length here ≡ length out + local_size e =
      ap length joined
      ∙ length-append out (local_header e ++ (e.name ++ e.data_bytes))
      ∙ omega (arith, length-append e.name e.data_bytes) in
    let all : here ++ locals es
        ≡ out ++ (local_header e ++ (e.name ++ (e.data_bytes ++ locals es))) =
      ap (λ t. t ++ locals es) joined
      ∙ append_assoc out (local_header e ++ (e.name ++ e.data_bytes)) (locals es)
      ∙ ap (λ t. out ++ (local_header e ++ t)) (append_assoc e.name e.data_bytes (locals es)) in
    rw (write_locals-eq es here (omega arith), all, len, fits_u32 (length out) (omega arith)) refl

write_centrals-eq :
    (es : List PlacedEntry) (o : ℕ) (out : List ℕ)
    → write_centrals es (offsets es o) out ≡ out ++ centrals es o
unfolding write_centrals offsets centrals
write_centrals-eq [] o out = rw (append-nil out) refl
write_centrals-eq (e ∷ es) o out =
    write_centrals-eq es (o + local_size e) ((out ++ central_header e o) ++ e.name)
    ∙ append_assoc (out ++ central_header e o) e.name (centrals es (o + local_size e))
    ∙ append_assoc out (central_header e o) (e.name ++ centrals es (o + local_size e))

-- The whole file.
pub write_zip_entries-eq :
    (es : List PlacedEntry)
    → archive_size es < 2 ^ 32
    → write_zip_entries es
      ≡ locals es ++ (centrals es 0 ++ end_record (length es) (centrals_size es) (locals_size es))
unfolding write_zip_entries archive_size
write_zip_entries-eq es h =
    let start = fits_u32 (locals_size es) (omega arith) in
    let size : ((locals_size es + centrals_size es) % 2 ^ 32 + 2 ^ 32 - locals_size es) % 2 ^ 32
        ≡ centrals_size es =
      omega arith in
    rw
      (
        write_locals-eq es [] (omega arith),
        write_centrals-eq es 0 (locals es),
        length-append (locals es) (centrals es 0),
        length-locals es,
        length-centrals es 0,
        start,
        size,
        append_assoc (locals es) (centrals es 0),
      )
      refl

pub length-write_zip_entries :
    (es : List PlacedEntry)
    → archive_size es < 2 ^ 32
    → length (write_zip_entries es) ≡ archive_size es
unfolding archive_size
length-write_zip_entries es h =
    let tail = end_record (length es) (centrals_size es) (locals_size es) in
    ap length (write_zip_entries-eq es h)
    ∙ length-append (locals es) (centrals es 0 ++ tail)
    ∙ omega (arith, length-append (centrals es 0) tail, length-locals es, length-centrals es 0)
