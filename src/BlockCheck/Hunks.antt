-- ===== src/BlockCheck/Hunks.antt =====
-- ocfs2_hamming_encode over the parts of a buffer.
use debian_ocfs2_tools.Base.{
  ℕ, zero, suc, ◌+◌, ◌*◌, ◌/◌, ◌%◌, ◌^◌, ◌<◌, ◌≡◌, ◌∙◌, refl, sym, ap, ap₂, arith, List, [], ◌∷◌,
  ◌++◌, length, All, bit_xor, some,
}
use mathlib.Core.Option.{some-injective}
use debian_ocfs2_tools.Base.Bits.{test_bit}
use debian_ocfs2_tools.Base.Bits.Xor.{bit_xor_assoc}
use debian_ocfs2_tools.Bitops.{byte, test_bit_of}
use debian_ocfs2_tools.Bitops.Bit.{IsByte, test_bit_of-bit}
use debian_ocfs2_tools.BlockCheck.{hamming_encode}
use debian_ocfs2_tools.BlockCheck.Encode.{places, places-split, places-same, hamming_encode-places}

-- The bits of two buffers one behind the other.
byte-append_left : (xs ys : List ℕ) (i : ℕ) → i < length xs → byte (xs ++ ys) i ≡ byte xs i
byte-append_left [] ys i lt = absurd (omega arith)
byte-append_left (x ∷ xs) ys zero lt = refl
byte-append_left (x ∷ xs) ys (suc i) lt = byte-append_left xs ys i (omega arith)

byte-append_right : (xs ys : List ℕ) (i : ℕ) → byte (xs ++ ys) (length xs + i) ≡ byte ys i
byte-append_right [] ys i = ap (byte ys) (omega arith)
byte-append_right (x ∷ xs) ys i =
    let next : suc (length xs) + i ≡ suc (length xs + i) = omega arith in
    ap (byte (x ∷ (xs ++ ys))) next ∙ byte-append_right xs ys i

All-append : (xs ys : List ℕ) → All IsByte xs → All IsByte ys → All IsByte (xs ++ ys)
All-append [] ys p q = q
All-append (x ∷ xs) ys p q = (p.0, All-append xs ys p.1 q)

test_bit_of-append_left :
    (xs ys : List ℕ) (j : ℕ) → j < 8 * length xs → test_bit_of j (xs ++ ys) ≡ test_bit_of j xs
test_bit_of-append_left xs ys j lt =
    test_bit_of-bit j (xs ++ ys)
    ∙ ap (test_bit (j % 8)) (byte-append_left xs ys (j / 8) (omega arith))
    ∙ sym (test_bit_of-bit j xs)

test_bit_of-append_right :
    (xs ys : List ℕ) (j : ℕ) → test_bit_of (8 * length xs + j) (xs ++ ys) ≡ test_bit_of j ys
test_bit_of-append_right xs ys j =
    let low : (8 * length xs + j) % 8 ≡ j % 8 = omega arith in
    let high : (8 * length xs + j) / 8 ≡ length xs + j / 8 = omega arith in
    test_bit_of-bit (8 * length xs + j) (xs ++ ys)
    ∙ ap₂ (λ b i. test_bit b (byte (xs ++ ys) i)) low high
    ∙ ap (test_bit (j % 8)) (byte-append_right xs ys (j / 8))
    ∙ sym (test_bit_of-bit j ys)

-- The parity of a buffer can be computed in hunks: what ocfs2_hamming_encode returns for the first
-- part goes into the call for the second part, which is told where its bits begin, and the result is
-- that of one call for the whole buffer.
pub hamming_encode-hunks :
    (first second : List ℕ) (parity sofar : ℕ)
    → All IsByte first
    → All IsByte second
    → 0 < length first
    → 0 < length second
    → 8 * length first + 8 * length second < 2 ^ 31
    → hamming_encode parity first (8 * length first) 0 ≡ some sofar
    → hamming_encode sofar second (8 * length second) (8 * length first)
      ≡ hamming_encode parity (first ++ second) (8 * length first + 8 * length second) 0
hamming_encode-hunks first second parity sofar bytes more one two small h =
    let a = 8 * length first in
    let b = 8 * length second in
    let whole = first ++ second in
    let front : places first 0 0 a ≡ places whole 0 0 a =
      places-same first whole 0 0 0 0 a refl (λ j lt.
        let at : 0 + j ≡ j = omega arith in
        ap (λ k. test_bit_of k first) at
        ∙ sym (test_bit_of-append_left first second j lt)
        ∙ ap (λ k. test_bit_of k whole) (sym at)) in
    let back : places second a 0 b ≡ places whole 0 (0 + a) b =
      places-same second whole a 0 0 (0 + a) b (omega arith) (λ j lt.
        let at : 0 + j ≡ j = omega arith in
        let there : a + j ≡ 0 + a + j = omega arith in
        ap (λ k. test_bit_of k second) at
        ∙ sym (test_bit_of-append_right first second j)
        ∙ ap (λ k. test_bit_of k whole) there) in
    let first_parity : sofar ≡ bit_xor parity (places first 0 0 a) =
      some-injective _ _
        (sym h ∙ hamming_encode-places first bytes 0 a (omega arith) parity (omega arith)) in
    hamming_encode-places second more a b (omega arith) sofar (omega arith)
    ∙ ap some (
        ap (λ s. bit_xor s (places second a 0 b)) first_parity
        ∙ bit_xor_assoc parity (places first 0 0 a) (places second a 0 b)
        ∙ ap (bit_xor parity) (ap₂ bit_xor front back ∙ sym (places-split whole 0 0 a b)))
    ∙ sym (
        hamming_encode-places whole (All-append first second bytes more) 0 (a + b) (omega arith)
          parity (omega arith))
