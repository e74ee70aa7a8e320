-- ===== src/Base/Bits.antt =====
-- The bits of an unsigned word: how `&`, `|` and `^` read bit by bit, and that a word is determined
-- by its bits. A word stays a number; `test_bit i x` is the source's `x & (1 << i)`.
pub mod Words
pub mod Xor
use Prim.Native.Nat.{
  ℕ, zero, suc, ◌+◌, ◌*◌, ◌-◌, ◌/◌, ◌%◌, ◌^◌, ◌≤◌, ◌<◌, min, max, bit_and, bit_or, bit_xor, digits,
  differ, bit_and-bitwise, bit_or-bitwise, bit_xor-bitwise,
}
use mathlib.Core.Path.{◌≡◌, refl, ◌∙◌, ap, ap₂, sym}
use mathlib.Core.Logic.{◌≢◌, ◌⊎◌, inl, inr}
use mathlib.Core.Bool.{Bool, true, false, ◌&&◌, ◌||◌, not}
use native.Mathlib.Omega.{arith}
use debian_ocfs2_tools.Base.Tests.{◌==◌, ltb, if◌then◌else◌, Bool-cases}

-- The count of digits that the definitions of the operations recur on may be any bound.
module _ (z : ℕ → ℕ) (f : ℕ → ℕ → ℕ) where
  digits-fuel : (n m a b : ℕ) → a ≤ n → a ≤ m → digits z f n a b ≡ digits z f m a b
  digits-fuel zero zero a b p q = refl
  digits-fuel zero (suc m) zero b p q = refl
  digits-fuel zero (suc m) (suc a) b p q = absurd (omega arith)
  digits-fuel (suc n) zero zero b p q = refl
  digits-fuel (suc n) zero (suc a) b p q = absurd (omega arith)
  digits-fuel (suc n) (suc m) zero b p q = refl
  digits-fuel (suc n) (suc m) (suc a) b p q =
      let below : suc a / 2 ≤ n = omega arith in
      let above : suc a / 2 ≤ m = omega arith in
      ap (λ d. d * 2 + f (suc a % 2) (b % 2)) (digits-fuel n m (suc a / 2) (b / 2) below above)

  digits-suc :
      (a b : ℕ)
      → digits z f (suc a) (suc a) b
        ≡ digits z f (suc a / 2) (suc a / 2) (b / 2) * 2 + f (suc a % 2) (b % 2)
  digits-suc a b =
      ap (λ d. d * 2 + f (suc a % 2) (b % 2))
        (digits-fuel a (suc a / 2) (suc a / 2) (b / 2) (omega arith) (omega arith))

pub bit_and-digits : (a b : ℕ) → bit_and a b ≡ bit_and (a / 2) (b / 2) * 2 + min (a % 2) (b % 2)
bit_and-digits zero b = simp bit_and-bitwise (omega arith)
bit_and-digits (suc a) b = simp bit_and-bitwise (digits-suc (λ _. 0) min a b)

pub bit_or-digits : (a b : ℕ) → bit_or a b ≡ bit_or (a / 2) (b / 2) * 2 + max (a % 2) (b % 2)
bit_or-digits zero b = simp bit_or-bitwise (omega arith)
bit_or-digits (suc a) b = simp bit_or-bitwise (digits-suc (λ y. y) max a b)

-- Exclusive or of two digits.
pub xor_digit : ℕ → ℕ → ℕ
xor_digit x y = (x + y) % 2

differ-xor_digit : (x y : ℕ) → x < 2 → y < 2 → differ x y ≡ xor_digit x y
unfolding xor_digit
differ-xor_digit zero zero p q = refl
differ-xor_digit zero (suc zero) p q = refl
differ-xor_digit (suc zero) zero p q = refl
differ-xor_digit (suc zero) (suc zero) p q = refl
differ-xor_digit zero (suc (suc y)) p q = absurd (omega arith)
differ-xor_digit (suc zero) (suc (suc y)) p q = absurd (omega arith)
differ-xor_digit (suc (suc x)) y p q = absurd (omega arith)

pub bit_xor-digits :
    (a b : ℕ) → bit_xor a b ≡ bit_xor (a / 2) (b / 2) * 2 + xor_digit (a % 2) (b % 2)
unfolding xor_digit
bit_xor-digits zero b = simp bit_xor-bitwise (omega arith)
bit_xor-digits (suc a) b = simp bit_xor-bitwise (
    digits-suc (λ y. y) differ a b
    ∙ ap (λ d. digits (λ y. y) differ (suc a / 2) (suc a / 2) (b / 2) * 2 + d)
        (differ-xor_digit (suc a % 2) (b % 2) (omega arith) (omega arith)))

-- Bit `i` of a word.
unfoldable pub test_bit : ℕ → ℕ → Bool
test_bit zero x = x % 2 == 1
test_bit (suc i) x = test_bit i (x / 2)

pub test_bit-bit_and : (i a b : ℕ) → test_bit i (bit_and a b) ≡ test_bit i a && test_bit i b
unfolding test_bit
test_bit-bit_and zero a b = ground (arith, bit_and-digits a b)
test_bit-bit_and (suc i) a b =
    let half : bit_and a b / 2 ≡ bit_and (a / 2) (b / 2) = omega (arith, bit_and-digits a b) in
    rw half (test_bit-bit_and i (a / 2) (b / 2))

pub test_bit-bit_or : (i a b : ℕ) → test_bit i (bit_or a b) ≡ test_bit i a || test_bit i b
unfolding test_bit
test_bit-bit_or zero a b = ground (arith, bit_or-digits a b)
test_bit-bit_or (suc i) a b =
    let half : bit_or a b / 2 ≡ bit_or (a / 2) (b / 2) = omega (arith, bit_or-digits a b) in
    rw half (test_bit-bit_or i (a / 2) (b / 2))

abbrev pub xor : Bool → Bool → Bool
xor true b = not b
xor false b = b

pub test_bit-bit_xor : (i a b : ℕ) → test_bit i (bit_xor a b) ≡ xor (test_bit i a) (test_bit i b)
unfolding test_bit xor_digit
test_bit-bit_xor zero a b = ground (arith, bit_xor-digits a b)
test_bit-bit_xor (suc i) a b =
    let half : bit_xor a b / 2 ≡ bit_xor (a / 2) (b / 2) =
      unfold xor_digit in omega (arith, bit_xor-digits a b) in
    rw half (test_bit-bit_xor i (a / 2) (b / 2))
