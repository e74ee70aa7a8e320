-- ===== src/Base/Bits/Words.antt =====
-- Words are determined by their bits; the masks of `k` ones; clearing bits by `& ~m` in 32 bits.
use Prim.Native.Nat.{ℕ, zero, suc, ◌+◌, ◌-◌, ◌/◌, ◌%◌, ◌^◌, ◌≤◌, ◌<◌, bit_and, bit_or, bit_xor}
use mathlib.Core.Path.{◌≡◌, refl, ◌∙◌, ap, sym}
use mathlib.Core.Logic.{◌≢◌, ◌⊎◌, inl, inr}
use mathlib.Core.Bool.{Bool, true, false, ◌&&◌, ◌||◌, not}
use native.Mathlib.Omega.{arith}
use native.Mathlib.Nat.{pow-suc, one-le-pow}
use debian_ocfs2_tools.Base.Tests.{◌==◌, ltb, Bool-cases}
use debian_ocfs2_tools.Base.Bits.{
  test_bit, test_bit-bit_or, test_bit-bit_and, test_bit-bit_xor, bit_or-digits,
}

-- Zero has no bit set.
pub test_bit-zero : (i : ℕ) → test_bit i 0 ≡ false
unfolding test_bit
test_bit-zero zero = refl
test_bit-zero (suc i) = test_bit-zero i

-- A number that is not zero has a bit set.
nonzero_bit_fuel : (n x : ℕ) → x ≤ n → x ≢ 0 → (i : ℕ) × (test_bit i x ≡ true)
unfolding test_bit
nonzero_bit_fuel zero x h ne = absurd (omega arith)
nonzero_bit_fuel (suc n) x h ne = elim (Bool-cases (x % 2 == 1)) [
  | inl odd ↦ (0, odd)
  | inr even ↦
      let (i, set) = nonzero_bit_fuel n (x / 2) (omega arith) (ground arith) in (suc i, set)
]

pub nonzero_bit : (x : ℕ) → x ≢ 0 → (i : ℕ) × (test_bit i x ≡ true)
nonzero_bit x ne = nonzero_bit_fuel x x (omega arith) ne

-- Two words with the same bits are equal.
bits_ext_fuel : (n a b : ℕ) → a ≤ n → b ≤ n → ((i : ℕ) → test_bit i a ≡ test_bit i b) → a ≡ b
unfolding test_bit
bits_ext_fuel zero a b p q h = omega arith
bits_ext_fuel (suc n) a b p q h =
    let halves : a / 2 ≡ b / 2 =
      bits_ext_fuel n (a / 2) (b / 2) (omega arith) (omega arith) (λ i. h (suc i)) in
    let low : (a % 2 == 1) ≡ (b % 2 == 1) = h 0 in ground arith

pub bits_ext : (a b : ℕ) → ((i : ℕ) → test_bit i a ≡ test_bit i b) → a ≡ b
bits_ext a b h = bits_ext_fuel (a + b) a b (omega arith) (omega arith) h

-- The mask of `k` ones.
pub test_bit-ones : (k i : ℕ) → test_bit i (2 ^ k - 1) ≡ ltb i k
unfolding test_bit
test_bit-ones zero i = test_bit-zero i ∙ ground arith
test_bit-ones (suc k) zero = ground (arith, pow-suc 2 k, one-le-pow k 2)
test_bit-ones (suc k) (suc i) =
    let half : (2 ^ suc k - 1) / 2 ≡ 2 ^ k - 1 = omega (arith, pow-suc 2 k, one-le-pow k 2) in
    rw half (test_bit-ones k i ∙ ground arith)

-- A word below `2 ^ k` has no bit from `k` on.
pub test_bit-high : (k i x : ℕ) → x < 2 ^ k → k ≤ i → test_bit i x ≡ false
unfolding test_bit
test_bit-high zero i x h le = let none_left : x ≡ 0 = omega arith in rw none_left (test_bit-zero i)
test_bit-high (suc k) zero x h le = absurd (omega arith)
test_bit-high (suc k) (suc i) x h le =
    test_bit-high k i (x / 2) (omega (arith, pow-suc 2 k)) (omega arith)

-- All ones in 32 bits.
abbrev pub u32_ones : ℕ
u32_ones = 2 ^ 32 - 1

-- `a & ~m` on 32-bit words.
unfoldable pub bit_clear : ℕ → ℕ → ℕ
bit_clear a m = bit_and a (bit_xor m u32_ones)

pub test_bit-bit_clear :
    (i a m : ℕ) → a < 2 ^ 32 → test_bit i (bit_clear a m) ≡ test_bit i a && not (test_bit i m)
unfolding bit_clear
test_bit-bit_clear i a m h = elim (Bool-cases (ltb i 32)) [
  | inl low ↦ ground (
    arith,
    test_bit-bit_and i a (bit_xor m u32_ones),
    test_bit-bit_xor i m u32_ones,
    test_bit-ones 32 i,
  )
  | inr high ↦
      ground
        (arith, test_bit-bit_and i a (bit_xor m u32_ones), test_bit-high 32 i a h (ground arith))
]

-- The C truth value of `a & b`.
unfoldable pub meets : ℕ → ℕ → Bool
meets a b = not (bit_and a b == 0)

pub bit_of_meets :
    (a b : ℕ) → meets a b ≡ true → (i : ℕ) × (test_bit i a ≡ true) × (test_bit i b ≡ true)
unfolding meets
bit_of_meets a b h =
    let (i, set) = nonzero_bit (bit_and a b) (ground arith) in
    (i, ground (arith, test_bit-bit_and i a b), ground (arith, test_bit-bit_and i a b))

pub meets_of_bit : (a b i : ℕ) → test_bit i a ≡ true → test_bit i b ≡ true → meets a b ≡ true
unfolding meets
meets_of_bit a b i p q = elim (Bool-cases (bit_and a b == 0)) [
  | inl none_common ↦
      let empty : bit_and a b ≡ 0 = ground arith in
      let both : test_bit i (bit_and a b) ≡ true = ground (arith, test_bit-bit_and i a b) in
      cc (sym both, ap (test_bit i) empty, test_bit-zero i)
  | inr some_common ↦ rw some_common
]

pub bit_or-lt : (k a b : ℕ) → a < 2 ^ k → b < 2 ^ k → bit_or a b < 2 ^ k
bit_or-lt zero a b p q =
    let left : a ≡ 0 = omega arith in
    let right : b ≡ 0 = omega arith in rw (left, right) (omega arith)
bit_or-lt (suc k) a b p q = omega (
  arith,
  pow-suc 2 k,
  bit_or-digits a b,
  bit_or-lt k (a / 2) (b / 2) (omega (arith, pow-suc 2 k)) (omega (arith, pow-suc 2 k)),
)

-- One flag: the word with the single bit `k`.
pub test_bit-power : (k i : ℕ) → test_bit i (2 ^ k) ≡ (i == k)
unfolding test_bit
test_bit-power zero zero = refl
test_bit-power zero (suc i) = ground (arith, test_bit-zero i)
test_bit-power (suc k) zero = ground (arith, pow-suc 2 k)
test_bit-power (suc k) (suc i) =
    let half : 2 ^ suc k / 2 ≡ 2 ^ k = omega (arith, pow-suc 2 k) in
    rw half (test_bit-power k i ∙ ground arith)

pub bit_or-zero : (a : ℕ) → bit_or a 0 ≡ a
bit_or-zero a = bits_ext _ _ (λ i. test_bit-bit_or i a 0 ∙ ground (arith, test_bit-zero i))

pub meets-zero : (a : ℕ) → meets a 0 ≡ false
meets-zero a = elim (Bool-cases (meets a 0)) [
  | inl h ↦ let (i, p, q) = bit_of_meets a 0 h in cc (q, test_bit-zero i)
  | inr h ↦ h
]

-- For a single flag, `a & flag` says whether that bit is set.
pub meets-power : (a k : ℕ) → meets a (2 ^ k) ≡ test_bit k a
meets-power a k = elim (Bool-cases (meets a (2 ^ k))) [
  | inl h ↦
      let (i, p, q) = bit_of_meets a (2 ^ k) h in
      let here : i ≡ k = ground (arith, test_bit-power k i) in
      h ∙ sym p ∙ ap (λ j. test_bit j a) here
  | inr h ↦ elim (Bool-cases (test_bit k a)) [
    | inl set ↦ cc (meets_of_bit a (2 ^ k) k set (ground (arith, test_bit-power k k)))
    | inr clear ↦ rw (h, clear)
  ]
]

-- Setting a flag that is set changes nothing.
pub bit_or-power : (a k : ℕ) → test_bit k a ≡ true → bit_or a (2 ^ k) ≡ a
bit_or-power a k set =
    bits_ext _ _ (λ i. test_bit-bit_or i a (2 ^ k) ∙ absorbed i (Bool-cases (i == k)))
  where
    absorbed :
        (i : ℕ)
        → ((i == k) ≡ true) ⊎ ((i == k) ≡ false)
        → test_bit i a || test_bit i (2 ^ k) ≡ test_bit i a
    absorbed i (inl e) = let here : i ≡ k = ground arith in rw here (ground arith)
    absorbed i (inr ne) = ground (arith, test_bit-power k i)

-- A word that holds a single flag holds each bit of that flag.
pub at_power : (k i a : ℕ) → test_bit k a ≡ true → test_bit i (2 ^ k) ≡ true → test_bit i a ≡ true
at_power k i a set h = let here : i ≡ k = ground (arith, test_bit-power k i) in rw here set
