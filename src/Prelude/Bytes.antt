-- ===== src/Prelude/Bytes.antt =====
-- Equality of texts, as lists of bytes.
use Prim.Native.Nat.{ℕ}
use mathlib.Core.Path.{◌≡◌, refl, sym, ap, ◌∙◌}
use mathlib.Core.Logic.{◌↔◌}
use mathlib.Core.Bool.{Bool, true, false, ◌&&◌}
use mathlib.Core.List.{List, [], ◌∷◌}
use native.Mathlib.Omega.{arith}
use openscad_cpp_evaluator.Prelude.Tests.{◌==◌}

unfoldable pub bytes_eq : List ℕ → List ℕ → Bool
bytes_eq [] [] = true
bytes_eq [] (b ∷ ys) = false
bytes_eq (a ∷ xs) [] = false
bytes_eq (a ∷ xs) (b ∷ ys) = a == b && bytes_eq xs ys

-- `==` of two strings tells them apart.
pub bytes_eq-eq : (xs ys : List ℕ) → bytes_eq xs ys ≡ true → xs ≡ ys
unfolding bytes_eq
bytes_eq-eq [] [] h = refl
bytes_eq-eq [] (b ∷ ys) h = ground arith
bytes_eq-eq (a ∷ xs) [] h = ground arith
bytes_eq-eq (a ∷ xs) (b ∷ ys) h =
    let same : a ≡ b = ground arith in
    let rest : bytes_eq xs ys ≡ true = ground arith in rw (same, bytes_eq-eq xs ys rest) refl

pub bytes_eq_refl : (xs : List ℕ) → bytes_eq xs xs ≡ true
unfolding bytes_eq
bytes_eq_refl [] = refl
bytes_eq_refl (a ∷ xs) =
    let same : (a == a) ≡ true = ground arith in rw (same, bytes_eq_refl xs) refl

pub bytes_eq_iff : (xs ys : List ℕ) → (bytes_eq xs ys ≡ true) ↔ (xs ≡ ys)
bytes_eq_iff xs ys = (bytes_eq-eq xs ys, λ e. ap (bytes_eq xs) (sym e) ∙ bytes_eq_refl xs)

pub bytes_eq-sym : (xs ys : List ℕ) → bytes_eq xs ys ≡ bytes_eq ys xs
unfolding bytes_eq
bytes_eq-sym [] [] = refl
bytes_eq-sym [] (b ∷ ys) = refl
bytes_eq-sym (a ∷ xs) [] = refl
bytes_eq-sym (a ∷ xs) (b ∷ ys) =
    let head : (a == b) ≡ (b == a) = ground arith in rw (head, bytes_eq-sym xs ys) refl
