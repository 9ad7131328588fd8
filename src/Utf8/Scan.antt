-- ===== src/Utf8/Scan.antt =====
-- The scanning loops of src/utf8.cpp against one structural split of the bytes into characters.
use openscad_cpp_evaluator.Prelude.{
  ℕ, zero, suc, ◌+◌, ◌-◌, ◌≤◌, ◌<◌, ◌≡◌, refl, ap, Bool, not, true, false, List, [], ◌∷◌, inl, inr,
  arith, ltb, if◌then◌else◌, length, drop, take, Bool-cases, length-drop, drop-drop, lt→ltb,
}
use openscad_cpp_evaluator.Prelude.Bits.{holds_below, holds_below_at}
use openscad_cpp_evaluator.Utf8.{
  is_continuation, skip_continuations, next_char_start, utf8_is_ascii, substr, single_bytes,
  collect_chars, utf8_chars,
}

-- How many continuation bytes a list begins with.
unfoldable pub lead_run : List ℕ → ℕ
lead_run [] = 0
lead_run (c ∷ rest) = if is_continuation c then suc (lead_run rest) else 0

skip_continuations-eq : (l : List ℕ) (i : ℕ) → skip_continuations l i ≡ i + lead_run l
unfolding skip_continuations lead_run
skip_continuations-eq [] i = omega arith
skip_continuations-eq (c ∷ rest) i = ground (arith, skip_continuations-eq rest (i + 1))

lead_run-le : (l : List ℕ) → lead_run l ≤ length l
unfolding lead_run
lead_run-le [] = omega arith
lead_run-le (c ∷ rest) = ground (arith, lead_run-le rest)

-- The split: a byte, with the continuation bytes behind it, is a character.
unfoldable pub continues : List ℕ → Bool
continues [] = false
continues (c ∷ rest) = is_continuation c

unfoldable pub glue : ℕ → List (List ℕ) → List (List ℕ)
glue c [] = (c ∷ []) ∷ []
glue c (x ∷ xs) = (c ∷ x) ∷ xs

unfoldable pub split_chars : List ℕ → List (List ℕ)
unfolding continues glue
split_chars [] = []
split_chars (c ∷ rest) =
    let more = split_chars rest in if continues rest then glue c more else (c ∷ []) ∷ more

pub split_chars-cons :
    (c : ℕ) (rest : List ℕ)
    → split_chars (c ∷ rest)
      ≡ (c ∷ take (lead_run rest) rest) ∷ split_chars (drop (lead_run rest) rest)
unfolding split_chars lead_run
split_chars-cons c [] = refl
split_chars-cons c (d ∷ rest) = elim (Bool-cases (is_continuation d)) [
  | inl e ↦ rw (e, split_chars-cons d rest) refl
  | inr e ↦ rw e refl
]

-- Where the scan of `s` stands at `b`, with `c` there and `rest` behind it.
module _ (s : List ℕ) (b c : ℕ) (rest : List ℕ) (at : drop b s ≡ c ∷ rest) where
  drop-suc : drop (b + 1) s ≡ rest
  drop-suc = rw (← drop-drop, at) refl

  next_char_start-eq : next_char_start s b ≡ b + 1 + lead_run rest
  unfolding next_char_start
  next_char_start-eq = rw drop-suc (skip_continuations-eq rest (b + 1))

  pub drop-next_char_start : drop (next_char_start s b) s ≡ drop (lead_run rest) rest
  drop-next_char_start = rw (next_char_start-eq, ← drop-drop, drop-suc) refl

  pub substr-next_char_start : substr s b (next_char_start s b - b) ≡ c ∷ take (lead_run rest) rest
  substr-next_char_start =
      let e : b + 1 + lead_run rest - b ≡ suc (lead_run rest) = omega arith in
      rw (next_char_start-eq, e, at) refl

  pub in_range : b < length s
  in_range = omega (arith, ap length at, length-drop b s)

pub at_end : (s : List ℕ) (b : ℕ) → drop b s ≡ [] → ltb b (length s) ≡ false
at_end s b e = ground (arith, ap length e, length-drop b s)

pub shorter : (rest : List ℕ) → length (drop (lead_run rest) rest) ≤ length rest
shorter rest = omega (arith, length-drop (lead_run rest) rest)

pub collect_chars-eq :
    (fuel : ℕ) (s : List ℕ) (b : ℕ) (l : List ℕ)
    → drop b s ≡ l
    → length l ≤ fuel
    → collect_chars fuel s b ≡ split_chars l
unfolding collect_chars
collect_chars-eq zero s b [] at h = unfold split_chars in refl
collect_chars-eq zero s b (c ∷ rest) at h = absurd (omega arith)
collect_chars-eq (suc fuel) s b [] at h =
    rw (at_end s b at, collect_chars) (unfold split_chars in refl)
collect_chars-eq (suc fuel) s b (c ∷ rest) at h =
    rw
      (
        lt→ltb _ _ (in_range s b c rest at),
        collect_chars,
        split_chars-cons,
        substr-next_char_start s b c rest at,
      )
      (ap (λ t. (c ∷ take (lead_run rest) rest) ∷ t)
        (collect_chars-eq fuel s _ _ (drop-next_char_start s b c rest at)
          (omega (arith, shorter rest))))

-- The plain path of an ASCII string agrees with the scan: none of its bytes is a continuation byte.
ascii_table : holds_below 0x80 (λ c. not (is_continuation c)) ≡ true
unfolding holds_below is_continuation
ascii_table = refl

pub ascii_byte : (c : ℕ) → c < 0x80 → is_continuation c ≡ false
ascii_byte c h = ground (arith, holds_below_at 0x80 (λ c. not (is_continuation c)) c ascii_table h)

ascii_continues : (s : List ℕ) → utf8_is_ascii s ≡ true → continues s ≡ false
unfolding utf8_is_ascii continues
ascii_continues [] h = refl
ascii_continues (c ∷ rest) h = ground (arith, ascii_byte c)

pub ascii-split_chars : (s : List ℕ) → utf8_is_ascii s ≡ true → single_bytes s ≡ split_chars s
unfolding single_bytes split_chars utf8_is_ascii
ascii-split_chars [] h = refl
ascii-split_chars (c ∷ rest) h =
    let tail : utf8_is_ascii rest ≡ true = ground arith in
    rw (ascii_continues rest tail) (ap (λ t. (c ∷ []) ∷ t) (ascii-split_chars rest tail))

-- Both paths of `utf8Chars` give the split.
pub utf8_chars-split : (s : List ℕ) → utf8_chars s ≡ split_chars s
unfolding utf8_chars
utf8_chars-split s = elim (Bool-cases (utf8_is_ascii s)) [
  | inl e ↦ rw e (ascii-split_chars s e)
  | inr e ↦ rw e (collect_chars-eq (length s) s 0 s refl (omega arith))
]
