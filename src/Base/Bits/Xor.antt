-- ===== src/Base/Bits/Xor.antt =====
-- The laws of exclusive or, and how the high and the low part of a word read.
use Prim.Native.Nat.{ℕ, zero, suc, ◌+◌, ◌-◌, ◌*◌, ◌/◌, ◌%◌, ◌^◌, ◌<◌, min, bit_and, bit_xor}
use mathlib.Core.Path.{◌≡◌, refl, ◌∙◌, ap, ap₂, sym}
use mathlib.Core.Bool.{Bool, true, false}
use native.Mathlib.Omega.{arith}
use native.Mathlib.Omega.{div_any, pow_step}
use native.Mathlib.Nat.{pow-suc, div-div-eq-div-mul, mul_assoc, one-le-pow}
use debian_ocfs2_tools.Base.Bits.{
  test_bit, xor, test_bit-bit_xor, test_bit-bit_and, bit_and-digits, bit_xor-digits, xor_digit,
}
use debian_ocfs2_tools.Base.Bits.Words.{bits_ext, test_bit-zero}

pub xor_assoc : (a b c : Bool) → xor (xor a b) c ≡ xor a (xor b c)
xor_assoc true true true = refl
xor_assoc true true false = refl
xor_assoc true false c = refl
xor_assoc false b c = refl

xor_comm : (a b : Bool) → xor a b ≡ xor b a
xor_comm true true = refl
xor_comm true false = refl
xor_comm false true = refl
xor_comm false false = refl

xor_self : (a : Bool) → xor a a ≡ false
xor_self true = refl
xor_self false = refl

pub bit_xor_assoc : (a b c : ℕ) → bit_xor (bit_xor a b) c ≡ bit_xor a (bit_xor b c)
bit_xor_assoc a b c = bits_ext _ _ (λ i.
    test_bit-bit_xor i (bit_xor a b) c
    ∙ ap (λ x. xor x (test_bit i c)) (test_bit-bit_xor i a b)
    ∙ xor_assoc (test_bit i a) (test_bit i b) (test_bit i c)
    ∙ sym (test_bit-bit_xor i a (bit_xor b c) ∙ ap (xor (test_bit i a)) (test_bit-bit_xor i b c)))

pub bit_xor_comm : (a b : ℕ) → bit_xor a b ≡ bit_xor b a
bit_xor_comm a b = bits_ext _ _ (λ i.
    test_bit-bit_xor i a b ∙ xor_comm (test_bit i a) (test_bit i b) ∙ sym (test_bit-bit_xor i b a))

pub bit_xor_self : (a : ℕ) → bit_xor a a ≡ 0
bit_xor_self a =
    bits_ext _ _ (λ i. test_bit-bit_xor i a a ∙ xor_self (test_bit i a) ∙ sym (test_bit-zero i))

pub bit_xor_zero : (a : ℕ) → bit_xor a 0 ≡ a
bit_xor_zero a = bits_ext _ _ (λ i.
    test_bit-bit_xor i a 0
    ∙ ap (xor (test_bit i a)) (test_bit-zero i)
    ∙ xor_comm (test_bit i a) false)

-- What is xored twice is gone.
pub bit_xor_cancel : (a b : ℕ) → bit_xor a (bit_xor a b) ≡ b
bit_xor_cancel a b =
    sym (bit_xor_assoc a a b)
    ∙ ap (λ x. bit_xor x b) (bit_xor_self a)
    ∙ bit_xor_comm 0 b
    ∙ bit_xor_zero b

pub bit_xor_injective : (a b c : ℕ) → bit_xor a b ≡ bit_xor a c → b ≡ c
bit_xor_injective a b c h = sym (bit_xor_cancel a b) ∙ ap (bit_xor a) h ∙ bit_xor_cancel a c

pub bit_xor-lt : (k a b : ℕ) → a < 2 ^ k → b < 2 ^ k → bit_xor a b < 2 ^ k
unfolding xor_digit
bit_xor-lt zero a b p q =
    let left : a ≡ 0 = omega arith in
    let right : b ≡ 0 = omega arith in rw (left, right) (omega arith)
bit_xor-lt (suc k) a b p q = omega (
  arith,
  pow-suc 2 k,
  bit_xor-digits a b,
  bit_xor-lt k (a / 2) (b / 2) (omega (arith, pow-suc 2 k)) (omega (arith, pow-suc 2 k)),
)

-- The bits of `x >> 8`.
pub test_bit-shift : (i x : ℕ) → test_bit i (x / 2 ^ 8) ≡ test_bit (i + 8) x
unfolding test_bit
test_bit-shift i x =
    let eighth : x / 2 ^ 8 ≡ x / 2 / 2 / 2 / 2 / 2 / 2 / 2 / 2 = omega arith in
    let further : i + 8 ≡ suc (suc (suc (suc (suc (suc (suc (suc i))))))) = omega arith in
    ap (test_bit i) eighth ∙ sym (ap (λ j. test_bit j x) further)

pub bit_xor-shift : (a b : ℕ) → bit_xor a b / 2 ^ 8 ≡ bit_xor (a / 2 ^ 8) (b / 2 ^ 8)
bit_xor-shift a b = bits_ext _ _ (λ i.
    test_bit-shift i (bit_xor a b)
    ∙ test_bit-bit_xor (i + 8) a b
    ∙ sym (
        test_bit-bit_xor i (a / 2 ^ 8) (b / 2 ^ 8)
        ∙ ap₂ xor (test_bit-shift i a) (test_bit-shift i b)))

-- One more bit of a quotient and of a remainder by a power of two.
div-pow : (k a : ℕ) → a / 2 ^ suc k ≡ a / 2 / 2 ^ k
div-pow k a = ap (λ d. a / d) (pow_step 2 k) ∙ sym (div-div-eq-div-mul a 2 (2 ^ k))

mul-pow : (k a : ℕ) → 2 ^ suc k * a ≡ 2 * (2 ^ k * a)
mul-pow k a = ap (λ d. d * a) (pow_step 2 k) ∙ mul_assoc 2 (2 ^ k) a

mod-pow : (k a : ℕ) → a % 2 ^ suc k ≡ a / 2 % 2 ^ k * 2 + a % 2
mod-pow k a =
    let whole : 2 ^ suc k * (a / 2 ^ suc k) ≡ 2 * (2 ^ k * (a / 2 / 2 ^ k)) =
      ap (λ q. 2 ^ suc k * q) (div-pow k a) ∙ mul-pow k (a / 2 / 2 ^ k) in
    omega (arith, whole, div_any a (2 ^ suc k), div_any (a / 2) (2 ^ k))

bit_and_zero : (a : ℕ) → bit_and a 0 ≡ 0
bit_and_zero a = bits_ext _ _ (λ i. test_bit-bit_and i a 0 ∙ ground (arith, test_bit-zero i))

-- A mask of `k` ones below a mask `m` reads the two parts of a word.
pub bit_and-mask :
    (k a m : ℕ) → bit_and a (2 ^ k - 1 + 2 ^ k * m) ≡ a % 2 ^ k + 2 ^ k * bit_and (a / 2 ^ k) m
bit_and-mask zero a m =
    let all : a / 1 ≡ a = omega arith in
    let mask : 2 ^ 0 - 1 + 2 ^ 0 * m ≡ m = omega arith in rw (mask, all) (omega arith)
bit_and-mask (suc k) a m =
    let mask : 2 ^ suc k - 1 + 2 ^ suc k * m ≡ 2 * (2 ^ k - 1 + 2 ^ k * m) + 1 =
      omega (arith, mul-pow k m, pow-suc 2 k, one-le-pow k 2) in
    let half : (2 * (2 ^ k - 1 + 2 ^ k * m) + 1) / 2 ≡ 2 ^ k - 1 + 2 ^ k * m = omega arith in
    let rest = bit_and-mask k (a / 2) m in
    let digits = bit_and-digits a (2 * (2 ^ k - 1 + 2 ^ k * m) + 1) in
    let high : 2 ^ suc k * bit_and (a / 2 ^ suc k) m ≡ 2 * (2 ^ k * bit_and (a / 2 / 2 ^ k) m) =
      ap (λ q. 2 ^ suc k * bit_and q m) (div-pow k a) ∙ mul-pow k (bit_and (a / 2 / 2 ^ k) m) in
    ap (bit_and a) mask
    ∙ digits
    ∙ ap (λ x. bit_and (a / 2) x * 2 + min (a % 2) ((2 * (2 ^ k - 1 + 2 ^ k * m) + 1) % 2)) half
    ∙ omega (arith, rest, high, mod-pow k a)

-- A mask of `k` ones.
pub bit_and-ones : (k a : ℕ) → bit_and a (2 ^ k - 1) ≡ a % 2 ^ k
bit_and-ones k a =
    ap (bit_and a) (omega arith)
    ∙ bit_and-mask k a 0
    ∙ ap (λ x. a % 2 ^ k + 2 ^ k * x) (bit_and_zero (a / 2 ^ k))
    ∙ omega arith

-- The low bits of an exclusive or come from the low bits.
pub bit_xor-low : (k x u v : ℕ) → u % 2 ^ k ≡ v % 2 ^ k → bit_xor x u % 2 ^ k ≡ bit_xor x v % 2 ^ k
bit_xor-low zero x u v h = omega arith
bit_xor-low (suc k) x u v h =
    let halves : u / 2 % 2 ^ k ≡ v / 2 % 2 ^ k = omega (arith, mod-pow k u, mod-pow k v) in
    let last : u % 2 ≡ v % 2 = omega (arith, mod-pow k u, mod-pow k v) in
    let digits : (w : ℕ) → bit_xor x w / 2 ≡ bit_xor (x / 2) (w / 2) =
      λ w. unfold xor_digit in omega (arith, bit_xor-digits x w) in
    let low : bit_xor x u % 2 ≡ bit_xor x v % 2 =
      unfold xor_digit in omega (arith, bit_xor-digits x u, bit_xor-digits x v) in
    mod-pow k (bit_xor x u)
    ∙ ap₂ (λ q r. q * 2 + r)
        (ap (λ q. q % 2 ^ k) (digits u)
          ∙ bit_xor-low k (x / 2) (u / 2) (v / 2) halves
          ∙ sym (ap (λ q. q % 2 ^ k) (digits v)))
        low
    ∙ sym (mod-pow k (bit_xor x v))

-- A mask above `k` bits that are clear.
pub bit_and-skip : (k a m : ℕ) → bit_and a (2 ^ k * m) ≡ 2 ^ k * bit_and (a / 2 ^ k) m
bit_and-skip zero a m =
    let all : a / 1 ≡ a = omega arith in
    let mask : 2 ^ 0 * m ≡ m = omega arith in rw (mask, all) (omega arith)
bit_and-skip (suc k) a m =
    let half : 2 * (2 ^ k * m) / 2 ≡ 2 ^ k * m = omega arith in
    let rest = bit_and-skip k (a / 2) m in
    let digits = bit_and-digits a (2 * (2 ^ k * m)) in
    let high : 2 ^ suc k * bit_and (a / 2 ^ suc k) m ≡ 2 * (2 ^ k * bit_and (a / 2 / 2 ^ k) m) =
      ap (λ q. 2 ^ suc k * bit_and q m) (div-pow k a) ∙ mul-pow k (bit_and (a / 2 / 2 ^ k) m) in
    ap (bit_and a) (mul-pow k m)
    ∙ digits
    ∙ ap (λ x. bit_and (a / 2) x * 2 + min (a % 2) (2 * (2 ^ k * m) % 2)) half
    ∙ omega (arith, rest, high)

pub power-add : (k m : ℕ) → 2 ^ (k + m) ≡ 2 ^ k * 2 ^ m
power-add zero m =
    let none_more : 0 + m ≡ m = omega arith in ap (λ n. 2 ^ n) none_more ∙ omega arith
power-add (suc k) m =
    let next : 2 ^ (suc k + m) ≡ 2 * 2 ^ (k + m) =
      ap (λ n. 2 ^ n) (omega arith) ∙ pow_step 2 (k + m) in
    next ∙ ap (λ x. 2 * x) (power-add k m) ∙ sym (mul-pow k (2 ^ m))
