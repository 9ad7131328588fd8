-- ===== src/Prelude/Bits.antt =====
-- Masks, shifts and disjoint unions of bits as arithmetic, for numbers of any size.
use Prim.Native.Nat.{
  ℕ, zero, suc, ◌+◌, ◌-◌, ◌*◌, ◌/◌, ◌%◌, ◌^◌, ◌≤◌, ◌<◌, min, max, digits, bit_and, bit_or,
  bit_and-bitwise, bit_or-bitwise,
}
use mathlib.Core.Path.{◌≡◌, refl, sym, ap, ◌∙◌}
use native.Mathlib.Omega.{arith}
use mathlib.Core.Bool.{Bool, true, ◌&&◌}
use native.Mathlib.Nat.{pow-suc}

-- The count of digits to go does not matter, once it is large enough.
module _ (z : ℕ → ℕ) (f : ℕ → ℕ → ℕ) where
  digits_enough : (n a b k : ℕ) → a ≤ n → digits z f (n + k) a b ≡ digits z f n a b
  digits_enough zero zero b zero h = refl
  digits_enough zero zero b (suc k) h = let e : 0 + suc k ≡ suc k = omega arith in rw e
  digits_enough zero (suc a) b k h = absurd (omega arith)
  digits_enough (suc n) zero b k h = let e : suc n + k ≡ suc (n + k) = omega arith in rw e
  digits_enough (suc n) (suc a) b k h =
      let e : suc n + k ≡ suc (n + k) = omega arith in
      rw (e, digits_enough n (suc a / 2) (b / 2) k (omega arith))

  digits_lowest :
      (a b : ℕ)
      → digits z f (suc a) (suc a) b
        ≡ digits z f (suc a / 2) (suc a / 2) (b / 2) * 2 + f (suc a % 2) (b % 2)
  digits_lowest a b =
      let e : suc a / 2 + (a - suc a / 2) ≡ a = omega arith in
      ap (λ t. t * 2 + f (suc a % 2) (b % 2))
        (rw e at (digits_enough (suc a / 2) (suc a / 2) (b / 2) (a - suc a / 2) (omega arith)))

-- One step of the operations, at the lowest binary digit.
pub bit_and_lowest : (a b : ℕ) → bit_and a b ≡ bit_and (a / 2) (b / 2) * 2 + min (a % 2) (b % 2)
bit_and_lowest zero b = omega (arith, bit_and-bitwise 0 b, bit_and-bitwise 0 (b / 2))
bit_and_lowest (suc a) b =
    bit_and-bitwise (suc a) b
    ∙ digits_lowest (λ _. 0) min a b
    ∙ ap (λ t. t * 2 + min (suc a % 2) (b % 2)) (sym (bit_and-bitwise (suc a / 2) (b / 2)))

pub bit_or_lowest : (a b : ℕ) → bit_or a b ≡ bit_or (a / 2) (b / 2) * 2 + max (a % 2) (b % 2)
bit_or_lowest zero b = omega (arith, bit_or-bitwise 0 b, bit_or-bitwise 0 (b / 2))
bit_or_lowest (suc a) b =
    bit_or-bitwise (suc a) b
    ∙ digits_lowest (λ t. t) max a b
    ∙ ap (λ t. t * 2 + max (suc a % 2) (b % 2)) (sym (bit_or-bitwise (suc a / 2) (b / 2)))

bit_and_0 : (k a : ℕ) → a ≤ k → bit_and a 0 ≡ 0
bit_and_0 k zero h = refl
bit_and_0 zero (suc a) h = absurd (omega arith)
bit_and_0 (suc k) (suc a) h =
    omega (arith, bit_and_lowest (suc a) 0, bit_and_0 k (suc a / 2) (omega arith))

bit_and_1 : (a : ℕ) → bit_and a 1 ≡ a % 2
bit_and_1 a = omega (arith, bit_and_lowest a 1, bit_and_0 (a / 2) (a / 2) (omega arith))

bit_and_3 : (a : ℕ) → bit_and a 3 ≡ a % 4
bit_and_3 a = omega (arith, bit_and_lowest a 3, bit_and_1 (a / 2))

bit_and_7 : (a : ℕ) → bit_and a 7 ≡ a % 8
bit_and_7 a = omega (arith, bit_and_lowest a 7, bit_and_3 (a / 2))

bit_and_15 : (a : ℕ) → bit_and a 15 ≡ a % 16
bit_and_15 a = omega (arith, bit_and_lowest a 15, bit_and_7 (a / 2))

bit_and_31 : (a : ℕ) → bit_and a 31 ≡ a % 32
bit_and_31 a = omega (arith, bit_and_lowest a 31, bit_and_15 (a / 2))

-- A mask of six ones keeps the six lowest bits, and one of eight the lowest byte.
pub bit_and_63 : (a : ℕ) → bit_and a 0x3f ≡ a % 64
bit_and_63 a = omega (arith, bit_and_lowest a 63, bit_and_31 (a / 2))

bit_and_127 : (a : ℕ) → bit_and a 127 ≡ a % 128
bit_and_127 a = omega (arith, bit_and_lowest a 127, bit_and_63 (a / 2))

pub bit_and_255 : (a : ℕ) → bit_and a 0xff ≡ a % 256
bit_and_255 a = omega (arith, bit_and_lowest a 255, bit_and_127 (a / 2))

-- Bits below position k and bits from k on do not meet, so their union is their sum.
pub bit_or-shift : (k x y : ℕ) → x < 2 ^ k → bit_or x (y * 2 ^ k) ≡ x + y * 2 ^ k
bit_or-shift zero zero y h = bit_or-bitwise 0 (y * 2 ^ 0) ∙ omega arith
bit_or-shift zero (suc x) y h = absurd (omega arith)
bit_or-shift (suc k) x y h =
    let p : y * 2 ^ suc k ≡ y * 2 ^ k * 2 = omega (arith, ap (λ (t : ℕ). y * t) (pow-suc 2 k)) in
    let half : y * 2 ^ suc k / 2 ≡ y * 2 ^ k = omega arith in
    let even : y * 2 ^ suc k % 2 ≡ 0 = omega arith in
    let room : x / 2 < 2 ^ k = omega (arith, pow-suc 2 k) in
    bit_or_lowest x (y * 2 ^ suc k) ∙ rw (half, even, bit_or-shift k (x / 2) y room) (omega arith)

bit_or_0 : (k y : ℕ) → y ≤ k → bit_or y 0 ≡ y
bit_or_0 k zero h = refl
bit_or_0 zero (suc y) h = absurd (omega arith)
bit_or_0 (suc k) (suc y) h =
    omega (arith, bit_or_lowest (suc y) 0, bit_or_0 k (suc y / 2) (omega arith))

-- The same with the high bits first.
pub bit_or-shift_left : (k x y : ℕ) → x < 2 ^ k → bit_or (y * 2 ^ k) x ≡ y * 2 ^ k + x
bit_or-shift_left zero zero y h =
    let one : y * 2 ^ 0 ≡ y = omega arith in rw (one, bit_or_0 y y (omega arith)) (omega arith)
bit_or-shift_left zero (suc x) y h = absurd (omega arith)
bit_or-shift_left (suc k) x y h =
    let p : y * 2 ^ suc k ≡ y * 2 ^ k * 2 = omega (arith, ap (λ (t : ℕ). y * t) (pow-suc 2 k)) in
    let half : y * 2 ^ suc k / 2 ≡ y * 2 ^ k = omega arith in
    let even : y * 2 ^ suc k % 2 ≡ 0 = omega arith in
    let room : x / 2 < 2 ^ k = omega (arith, pow-suc 2 k) in
    bit_or_lowest (y * 2 ^ suc k) x
    ∙ rw (half, even, bit_or-shift_left k (x / 2) y room) (omega arith)

-- A test that passes at every number below a bound, by evaluation.
unfoldable pub holds_below : ℕ → (ℕ → Bool) → Bool
holds_below zero p = true
holds_below (suc n) p = p n && holds_below n p

pub holds_below_at : (n : ℕ) (p : ℕ → Bool) (x : ℕ) → holds_below n p ≡ true → x < n → p x ≡ true
unfolding holds_below
holds_below_at zero p x h lt = absurd (omega arith)
holds_below_at (suc n) p x h lt = ground (arith, holds_below_at n p x)
