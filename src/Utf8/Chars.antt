-- ===== src/Utf8/Chars.antt =====
-- What the functions of src/utf8.cpp promise about characters.
use openscad_cpp_evaluator.Prelude.{
  ℕ, zero, suc, ◌+◌, ◌-◌, ◌≤◌, ◌≡◌, refl, sym, ap, ◌∙◌, Bool, true, false, List, [], ◌∷◌, inl, inr,
  arith, ltb, ◌==◌, if◌then◌else◌, length, drop, take, get_or, concat, All, Bool-cases, lt→ltb,
}
use openscad_cpp_evaluator.Utf8.{
  is_continuation, next_char_start, utf8_is_ascii, count_chars, utf8_length, find_char, byte_at,
  utf8_char_at, single_bytes, utf8_chars,
}
use openscad_cpp_evaluator.Utf8.Scan.{
  continues, glue, split_chars, split_chars-cons, lead_run, collect_chars-eq, utf8_chars-split,
  in_range, at_end, shorter, drop-next_char_start, substr-next_char_start,
}

glue-concat :
    (b : Bool) (c : ℕ) (more : List (List ℕ))
    → concat (if b then glue c more else (c ∷ []) ∷ more) ≡ c ∷ concat more
unfolding glue
glue-concat true c [] = refl
glue-concat true c (x ∷ xs) = refl
glue-concat false c more = refl

concat-split_chars : (s : List ℕ) → concat (split_chars s) ≡ s
unfolding split_chars
concat-split_chars [] = refl
concat-split_chars (c ∷ rest) =
    glue-concat (continues rest) c (split_chars rest) ∙ ap (λ t. c ∷ t) (concat-split_chars rest)

-- A character: one byte of any kind, then continuation bytes only.
abbrev pub IsChar : List ℕ → Type 0
IsChar [] = ⊥
IsChar (c ∷ rest) = All (λ d. is_continuation d ≡ true) rest

-- Every character but the first begins with a byte that is no continuation.
abbrev pub StartsFresh : List (List ℕ) → Type 0
StartsFresh [] = Unit
StartsFresh (x ∷ xs) = All (λ y. continues y ≡ false) xs

run_continues : (l : List ℕ) → All (λ d. is_continuation d ≡ true) (take (lead_run l) l)
unfolding lead_run
run_continues [] = tt
run_continues (c ∷ rest) = elim (Bool-cases (is_continuation c)) [
  | inl e ↦ rw (e, lead_run) (e, run_continues rest)
  | inr e ↦ rw (e, lead_run) tt
]

run_ends : (l : List ℕ) → continues (drop (lead_run l) l) ≡ false
unfolding lead_run continues
run_ends [] = refl
run_ends (c ∷ rest) = elim (Bool-cases (is_continuation c)) [
  | inl e ↦ rw (e, lead_run) (run_ends rest)
  | inr e ↦ rw (e, lead_run) e
]

split_shape :
    (fuel : ℕ) (s : List ℕ)
    → length s ≤ fuel
    → All IsChar (split_chars s)
      × (continues s ≡ false → All (λ y. continues y ≡ false) (split_chars s))
split_shape fuel [] h = unfold split_chars in (tt, λ _. tt)
split_shape zero (c ∷ rest) h = absurd (omega arith)
split_shape (suc fuel) (c ∷ rest) h =
    let (chars, fresh) =
      split_shape fuel (drop (lead_run rest) rest) (omega (arith, shorter rest)) in
    rw split_chars-cons
      ((run_continues rest, chars), λ first. (unfold continues in first, fresh (run_ends rest)))

split_chars-StartsFresh : (s : List ℕ) → StartsFresh (split_chars s)
split_chars-StartsFresh [] = unfold split_chars in tt
split_chars-StartsFresh (c ∷ rest) =
    rw split_chars-cons
      ((split_shape (length rest) (drop (lead_run rest) rest) (shorter rest)).1 (run_ends rest))

count_chars-eq :
    (fuel : ℕ) (s : List ℕ) (b : ℕ) (l : List ℕ) (n : ℕ)
    → drop b s ≡ l
    → length l ≤ fuel
    → count_chars fuel s b n ≡ n + length (split_chars l)
unfolding count_chars
count_chars-eq zero s b [] n at h = unfold split_chars in omega arith
count_chars-eq zero s b (c ∷ rest) n at h = absurd (omega arith)
count_chars-eq (suc fuel) s b [] n at h =
    rw (at_end s b at, count_chars) (unfold split_chars in omega arith)
count_chars-eq (suc fuel) s b (c ∷ rest) n at h =
    rw (lt→ltb _ _ (in_range s b c rest at), count_chars, split_chars-cons)
      (omega (
        arith,
        (count_chars-eq fuel s (next_char_start s b) _ (n + 1) (drop-next_char_start s b c rest at)
            (omega (arith, shorter rest))),
      ))

find_char-eq :
    (fuel : ℕ) (s : List ℕ) (i b : ℕ) (l : List ℕ) (seen : ℕ)
    → drop b s ≡ l
    → length l ≤ fuel
    → seen ≤ i
    → find_char fuel s i b seen ≡ get_or (split_chars l) (i - seen) []
unfolding find_char
find_char-eq zero s i b [] seen at h lo = unfold split_chars in refl
find_char-eq zero s i b (c ∷ rest) seen at h lo = absurd (omega arith)
find_char-eq (suc fuel) s i b [] seen at h lo =
    rw (at_end s b at, find_char) (unfold split_chars in refl)
find_char-eq (suc fuel) s i b (c ∷ rest) seen at h lo =
    let more : ltb b (length s) ≡ true = lt→ltb _ _ (in_range s b c rest at) in
    elim (Bool-cases (seen == i)) [
      | inl e ↦
          let z : i - seen ≡ 0 = ground arith in
          rw (more, e, find_char, z, split_chars-cons) (substr-next_char_start s b c rest at)
      | inr e ↦
          let z : i - seen ≡ suc (i - (seen + 1)) = ground arith in
          rw (more, e, find_char, z, split_chars-cons)
            (find_char-eq fuel s i (next_char_start s b) _ (seen + 1)
              (drop-next_char_start s b c rest at) (omega (arith, shorter rest)) (ground arith))
    ]

length-single_bytes : (s : List ℕ) → length (single_bytes s) ≡ length s
unfolding single_bytes
length-single_bytes [] = refl
length-single_bytes (c ∷ rest) = ap suc (length-single_bytes rest)

byte_at-eq : (s : List ℕ) (i : ℕ) → byte_at s i ≡ get_or (single_bytes s) i []
unfolding byte_at single_bytes
byte_at-eq [] i = refl
byte_at-eq (c ∷ rest) zero = refl
byte_at-eq (c ∷ rest) (suc i) = byte_at-eq rest i

-- The characters of a string, malformed or not, are its bytes in order, cut into pieces: each piece
-- is one byte followed by continuation bytes only, and each piece but the first begins with a byte
-- that is no continuation byte.
pub utf8_chars_partition :
    (s : List ℕ)
    → (concat (utf8_chars s) ≡ s) × All IsChar (utf8_chars s) × StartsFresh (utf8_chars s)
utf8_chars_partition s =
    rw utf8_chars-split
      (concat-split_chars s, (split_shape (length s) s (omega arith)).0, split_chars-StartsFresh s)

-- The count is the number of characters that `utf8Chars` lists, on the ASCII path and on the other.
pub utf8_length-chars : (s : List ℕ) → utf8_length s ≡ length (utf8_chars s)
unfolding utf8_length utf8_chars
utf8_length-chars s = elim (Bool-cases (utf8_is_ascii s)) [
  | inl e ↦ rw e (sym (length-single_bytes s))
  | inr e ↦
      rw (e, collect_chars-eq (length s) s 0 s refl (omega arith))
        (omega (arith, count_chars-eq (length s) s 0 s 0 refl (omega arith)))
]

-- Indexing gives the character of that number in the list of `utf8Chars`, and the empty string past
-- its end.
pub utf8_char_at-chars : (s : List ℕ) (i : ℕ) → utf8_char_at s i ≡ get_or (utf8_chars s) i []
unfolding utf8_char_at utf8_chars
utf8_char_at-chars s i =
    let same : i - 0 ≡ i = omega arith in
    elim (Bool-cases (utf8_is_ascii s)) [
      | inl e ↦ rw e (byte_at-eq s i)
      | inr e ↦
          rw (e, collect_chars-eq (length s) s 0 s refl (omega arith))
            (rw same at (find_char-eq (length s) s i 0 s 0 refl (omega arith) (omega arith)))
    ]
