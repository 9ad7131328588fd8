-- ===== src/Literal/Escape.antt =====
-- Texts written as string literals, and read back.
use openscad_cpp_evaluator.Prelude.{
  ℕ, suc, ◌≡◌, refl, ◌∙◌, ap, arith, false, List, [], ◌∷◌, ◌++◌, ◌==◌, if◌then◌else◌, length,
  append_assoc, append-nil, ℕ_discrete,
}
use openscad_cpp_evaluator.Literal.{
  Unescaped, plain_round, backslash, simple_escape, escape_round, loop_round, unescape_loop,
  is_special, unescape_string_literal,
}
use openscad_cpp_evaluator.Literal.Loop.{
  loop_enough, plain_is_kept, loop_defined, extended, nothing, unescape_string_literal-loop,
}

-- A way to write a text as a literal: a backslash before a backslash and a quote, and the two line
-- ends by their letters.
pub escape_char : ℕ → List ℕ
escape_char c =
    if c == backslash
    then backslash ∷ backslash ∷ []
    else if c == 0x22
    then backslash ∷ 0x22 ∷ []
    else if c == 0x0a
    then backslash ∷ 0x6e ∷ []
    else if c == 0x0d
    then backslash ∷ 0x72 ∷ []
    else c ∷ []

pub escape_string : List ℕ → List ℕ
escape_string [] = []
escape_string (c ∷ s) = escape_char c ++ escape_string s

-- Two characters that stand for one.
loop_pair :
    (letter c : ℕ) (s : List ℕ) (acc : Unescaped)
    → loop_round backslash (letter ∷ s) ≡ plain_round c s
    → unescape_loop (suc (suc (length s))) (backslash ∷ letter ∷ s) acc
      ≡ unescape_loop (length s) s (extended acc (c ∷ []))
loop_pair letter c s acc h =
    loop_defined (suc (length s)) backslash (letter ∷ s) acc (c ∷ []) s h
    ∙ loop_enough (suc (length s)) (length s) s (extended acc (c ∷ [])) (omega arith) (omega arith)

loop-escape_char :
    (c : ℕ) (s : List ℕ) (acc : Unescaped)
    → unescape_loop (length (escape_char c ++ s)) (escape_char c ++ s) acc
      ≡ unescape_loop (length s) s (extended acc (c ∷ []))
unfolding escape_char loop_round escape_round simple_escape
loop-escape_char c s acc = elim (ℕ_discrete c backslash) [
  | yes e ↦ rw e (loop_pair backslash backslash s acc refl)
  | no h₁ ↦ elim (ℕ_discrete c 0x22) [
    | yes e ↦ rw e (loop_pair 0x22 0x22 s acc refl)
    | no h₂ ↦ elim (ℕ_discrete c 0x0a) [
      | yes e ↦ rw e (loop_pair 0x6e 0x0a s acc refl)
      | no h₃ ↦ elim (ℕ_discrete c 0x0d) [
        | yes e ↦ rw e (loop_pair 0x72 0x0d s acc refl)
        | no h₄ ↦
            let e₁ : (c == backslash) ≡ false = ground arith in
            let e₂ : (c == 0x22) ≡ false = ground arith in
            let e₃ : (c == 0x0a) ≡ false = ground arith in
            let e₄ : (c == 0x0d) ≡ false = ground arith in
            let plain : is_special c ≡ false = rw (e₁, e₃, e₄) refl in
            rw (e₁, e₂, e₃, e₄)
              (loop_defined (length s) c s acc (c ∷ []) s (plain_is_kept c s plain))
      ]
    ]
  ]
]

loop-escape_string :
    (s : List ℕ) (acc : Unescaped)
    → unescape_loop (length (escape_string s)) (escape_string s) acc ≡ extended acc s
unfolding escape_string unescape_loop
loop-escape_string [] acc = rw (append-nil acc.out) refl
loop-escape_string (c ∷ s) acc =
    loop-escape_char c (escape_string s) acc
    ∙ loop-escape_string s (extended acc (c ∷ []))
    ∙ ap (λ t. record { out = t; undefined_escapes = acc.undefined_escapes })
        (append_assoc acc.out (c ∷ []) s)

-- A text that is written as a literal, with its backslashes, quotes and line ends escaped, is read
-- back as it was, and no escape is undefined.
pub unescape_string_literal-escape_string :
    (s : List ℕ)
    → unescape_string_literal (escape_string s) ≡ record { out = s; undefined_escapes = 0 }
unescape_string_literal-escape_string s =
    unescape_string_literal-loop (escape_string s) ∙ loop-escape_string s nothing
