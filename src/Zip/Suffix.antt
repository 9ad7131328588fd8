-- ===== src/Zip/Suffix.antt =====
-- The ends of names: `endsWithLower` of src/zip_stored.cpp.
use openscad_cpp_evaluator.Prelude.{
  ℕ, suc, ◌+◌, ◌-◌, ◌≤◌, ◌≡◌, ◌≢◌, refl, arith, Bool, true, false, ◌&&◌, ◌||◌, List, [], ◌∷◌, map,
  leb, ◌==◌, length, inl, inr, Bool-cases,
}
use openscad_cpp_evaluator.Prelude.Bytes.{bytes_eq}
use openscad_cpp_evaluator.Zip.Read.{lower, ends_with_lower}

abbrev is_upper : ℕ → Bool
is_upper c = leb 0x41 c && leb c 0x5a

-- The same character, or the two cases of a letter.
abbrev pub is_same_letter : ℕ → ℕ → Bool
is_same_letter a b = a == b || (is_upper a && b == a + 32) || (is_upper b && a == b + 32)

abbrev pub are_same_letters : List ℕ → List ℕ → Bool
are_same_letters [] [] = true
are_same_letters [] (b ∷ ys) = false
are_same_letters (a ∷ xs) [] = false
are_same_letters (a ∷ xs) (b ∷ ys) = is_same_letter a b && are_same_letters xs ys

-- The name or what is left of it behind some of its characters is the suffix.
abbrev pub has_ending : List ℕ → List ℕ → Bool
has_ending [] suffix = are_same_letters [] suffix
has_ending (c ∷ name) suffix = are_same_letters (c ∷ name) suffix || has_ending name suffix

lower-is_same_letter : (a b : ℕ) → (lower a == lower b) ≡ is_same_letter a b
unfolding lower
lower-is_same_letter a b = ground arith

bytes_eq-are_same_letters :
    (xs ys : List ℕ) → bytes_eq (map lower xs) (map lower ys) ≡ are_same_letters xs ys
unfolding bytes_eq
bytes_eq-are_same_letters [] [] = refl
bytes_eq-are_same_letters [] (b ∷ ys) = refl
bytes_eq-are_same_letters (a ∷ xs) [] = refl
bytes_eq-are_same_letters (a ∷ xs) (b ∷ ys) =
    rw (lower-is_same_letter a b, bytes_eq-are_same_letters xs ys) refl

are_same_letters-length : (xs ys : List ℕ) → length xs ≢ length ys → are_same_letters xs ys ≡ false
are_same_letters-length [] [] ne = absurd (ne refl)
are_same_letters-length [] (b ∷ ys) ne = refl
are_same_letters-length (a ∷ xs) [] ne = refl
are_same_letters-length (a ∷ xs) (b ∷ ys) ne =
    let rest = are_same_letters-length xs ys (λ e. ne (omega (arith, e))) in ground (arith, rest)

has_ending-long :
    (name suffix : List ℕ)
    → length name ≤ length suffix
    → length name ≢ length suffix
    → has_ending name suffix ≡ false
has_ending-long [] suffix le ne = are_same_letters-length [] suffix ne
has_ending-long (c ∷ name) suffix le ne =
    let here = are_same_letters-length (c ∷ name) suffix ne in
    let rest = has_ending-long name suffix (omega arith) (λ e. omega (arith, e)) in
    ground (arith, here, rest)

-- The test of the code is that the name ends so.
pub ends_with_lower-has_ending :
    (name suffix : List ℕ) → ends_with_lower name suffix ≡ has_ending name suffix
unfolding ends_with_lower bytes_eq
ends_with_lower-has_ending [] [] = ground arith
ends_with_lower-has_ending [] (b ∷ suffix) = ground arith
ends_with_lower-has_ending (c ∷ name) suffix =
    elim (Bool-cases (leb (length suffix) (length name))) [
      | inl short ↦
          let rest = ends_with_lower-has_ending name suffix in
          let here = are_same_letters-length (c ∷ name) suffix (λ e. ground (arith, e, short)) in
          let skip : length (c ∷ name) - length suffix ≡ suc (length name - length suffix) =
            ground arith in
          rw (skip, here) (ground (arith, rest, short))
      | inr long ↦ elim (Bool-cases (suc (length name) == length suffix)) [
        | inl whole ↦
            let start : length (c ∷ name) - length suffix ≡ 0 = ground arith in
            let rest = has_ending-long name suffix (ground arith) (λ e. ground (arith, e)) in
            let same = bytes_eq-are_same_letters (c ∷ name) suffix in
            rw (start, rest) (ground (arith, same))
        | inr more ↦
            let gone = has_ending-long (c ∷ name) suffix (ground arith) (λ e. ground (arith, e)) in
            ground (arith, gone)
      ]
    ]
