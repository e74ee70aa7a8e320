-- ===== src/BlockCheck/Encode.antt =====
-- ocfs2_hamming_encode adds the places of the data bits that are set.
use debian_ocfs2_tools.Base.{
  ℕ, zero, suc, ◌+◌, ◌-◌, ◌^◌, ◌<◌, ◌≤◌, ◌≡◌, ◌∙◌, refl, sym, ap, ap₂, ◌==◌, ltb, if_true, if_false,
  ltb→lt, ltb_false→le, true, false, arith, Bool-cases, inl, inr, List, All, bit_xor, if◌then◌else◌,
  some,
}
use debian_ocfs2_tools.Base.Bits.Xor.{bit_xor_assoc, bit_xor_comm, bit_xor_zero}
use debian_ocfs2_tools.Bitops.{test_bit_of, find_next_bit_set}
use debian_ocfs2_tools.Bitops.Bit.{IsByte}
use debian_ocfs2_tools.Bitops.Find.Next.{find_next_bit_set-IsNext}
use debian_ocfs2_tools.BlockCheck.{encode_from, hamming_encode}
use debian_ocfs2_tools.BlockCheck.Code.{
  IsCache, IsCache-zero, IsCache-le, IsCode-IsCache, calc_code_bit-IsCode, calc_code_bit-place,
  place_of,
}

-- What a bit of the data adds.
abbrev pub term : List ℕ → ℕ → ℕ → ℕ
term buf nr i = if test_bit_of i buf then place_of (nr + i) else 0

-- The places of the bits that are set among `n` bits from `i` on, added without carry.
unfoldable pub places : List ℕ → ℕ → ℕ → ℕ → ℕ
places buf nr i zero = 0
places buf nr i (suc n) = bit_xor (term buf nr i) (places buf nr (i + 1) n)

zero_xor : (a : ℕ) → bit_xor 0 a ≡ a
zero_xor a = bit_xor_comm 0 a ∙ bit_xor_zero a

pub places-split :
    (buf : List ℕ) (nr i m n : ℕ)
    → places buf nr i (m + n) ≡ bit_xor (places buf nr i m) (places buf nr (i + m) n)
unfolding places
places-split buf nr i zero n =
    let none_more : 0 + n ≡ n = omega arith in
    let same : i + 0 ≡ i = omega arith in
    ap (places buf nr i) none_more
    ∙ sym (zero_xor (places buf nr (i + 0) n) ∙ ap (λ j. places buf nr j n) same)
places-split buf nr i (suc m) n =
    let more : suc m + n ≡ suc (m + n) = omega arith in
    let on : i + 1 + m ≡ i + suc m = omega arith in
    ap (places buf nr i) more
    ∙ ap (bit_xor (term buf nr i)) (places-split buf nr (i + 1) m n)
    ∙ sym (bit_xor_assoc (term buf nr i) (places buf nr (i + 1) m) (places buf nr (i + 1 + m) n))
    ∙ ap (λ j. bit_xor (bit_xor (term buf nr i) (places buf nr (i + 1) m)) (places buf nr j n)) on

-- Bits that are clear add nothing.
pub places-clear :
    (buf : List ℕ) (nr i n : ℕ)
    → ((j : ℕ) → i ≤ j → j < i + n → test_bit_of j buf ≡ false)
    → places buf nr i n ≡ 0
unfolding places
places-clear buf nr i zero h = refl
places-clear buf nr i (suc n) h =
    let here : test_bit_of i buf ≡ false = h i (omega arith) (omega arith) in
    rw here (
      zero_xor (places buf nr (i + 1) n)
      ∙ places-clear buf nr (i + 1) n (λ j le lt. h j (omega arith) (omega arith)))

-- Two buffers whose bits are alike have the same places.
pub places-same :
    (buf other : List ℕ) (nr base i k n : ℕ)
    → nr + i ≡ base + k
    → ((j : ℕ) → j < n → test_bit_of (i + j) buf ≡ test_bit_of (k + j) other)
    → places buf nr i n ≡ places other base k n
unfolding places
places-same buf other nr base i k zero at h = refl
places-same buf other nr base i k (suc n) at h =
    let first : i ≡ i + 0 = omega arith in
    let last : k + 0 ≡ k = omega arith in
    let here : test_bit_of i buf ≡ test_bit_of k other =
      ap (λ j. test_bit_of j buf) first ∙ h 0 (omega arith) ∙ ap (λ j. test_bit_of j other) last in
    ap₂ bit_xor (ap₂ (λ t b. if t then place_of b else 0) here at) (
      places-same buf other nr base (i + 1) (k + 1) n (omega arith) (λ j lt.
        let more : i + 1 + j ≡ i + (j + 1) = omega arith in
        let less : k + (j + 1) ≡ k + 1 + j = omega arith in
        ap (λ m. test_bit_of m buf) more
        ∙ h (j + 1) (omega arith)
        ∙ ap (λ m. test_bit_of m other) less))

-- The next bit that is set adds its place to those of the bits behind it.
places-next :
    (buf : List ℕ) (nr d parity i found : ℕ)
    → i ≤ found
    → found < d
    → test_bit_of found buf ≡ true
    → ((j : ℕ) → i ≤ j → j < found → test_bit_of j buf ≡ false)
    → bit_xor (bit_xor parity (place_of (nr + found))) (places buf nr (found + 1) (d - (found + 1)))
      ≡ bit_xor parity (places buf nr i (d - i))
unfolding places
places-next buf nr d parity i found ge lt set before =
    let left = d - (found + 1) in
    let parts : d - i ≡ (found - i) + suc left = omega arith in
    let at : i + (found - i) ≡ found = omega arith in
    let here : places buf nr (i + (found - i)) (suc left)
        ≡ bit_xor (place_of (nr + found)) (places buf nr (found + 1) left) =
      ap (λ j. places buf nr j (suc left)) at
      ∙ ap (λ b. bit_xor (if b then place_of (nr + found) else 0) (places buf nr (found + 1) left))
          set in
    let clear : places buf nr i (found - i) ≡ 0 =
      places-clear buf nr i (found - i) (λ j le below. before j le (omega arith)) in
    bit_xor_assoc parity (place_of (nr + found)) (places buf nr (found + 1) left)
    ∙ ap (bit_xor parity) (
        sym (
          ap (places buf nr i) parts
          ∙ places-split buf nr i (found - i) (suc left)
          ∙ ap₂ bit_xor clear here
          ∙ zero_xor _))

module _ (buf : List ℕ) (bytes : All IsByte buf) (nr d : ℕ) (small : nr + d < 2 ^ 31) where
  encode_from-places :
      (fuel parity i p : ℕ)
      → i ≤ d
      → d < i + fuel
      → IsCache (nr + i) p
      → encode_from fuel parity buf d nr i p ≡ bit_xor parity (places buf nr i (d - i))
  unfolding encode_from
  encode_from-places zero parity i p le enough cache = absurd (omega arith)
  encode_from-places (suc fuel) parity i p le enough cache =
      let found = find_next_bit_set buf d i in
      let next = find_next_bit_set-IsNext buf bytes d i in
      elim (Bool-cases (ltb found d)) [
        | inl inside ↦
            let lt : found < d = ltb→lt found d inside in
            let (ge, set) = next.found lt in
            let later = IsCache-le (nr + i) (nr + found) p cache (omega arith) in
            let code = calc_code_bit-IsCode (nr + found) p later (omega arith) in
            if_true _ _ inside
            ∙ encode_from-places fuel _ (found + 1) _ (omega arith) (omega arith)
                (IsCode-IsCache (nr + found) (nr + (found + 1)) _ _ code (omega arith))
            ∙ ap (λ b. bit_xor (bit_xor parity b) (places buf nr (found + 1) (d - (found + 1))))
                (calc_code_bit-place (nr + found) p later (omega arith))
            ∙ places-next buf nr d parity i found ge lt set
                (λ j le_j below. next.none j le_j (omega arith) below)
        | inr outside ↦
            let past : d ≤ found = ltb_false→le found d outside in
            if_false _ _ outside
            ∙ sym (
                ap (bit_xor parity) (
                  places-clear buf nr i (d - i)
                    (λ j le_j lt. next.none j le_j (omega arith) (omega arith)))
                ∙ bit_xor_zero parity)
      ]

  -- ocfs2_hamming_encode adds to a parity the places, in the code, of all data bits that are set.
  pub hamming_encode-places :
      (parity : ℕ)
      → 0 < d
      → hamming_encode parity buf d nr ≡ some (bit_xor parity (places buf nr 0 d))
  unfolding hamming_encode
  hamming_encode-places parity some_bits =
      let more : (d == 0) ≡ false = ground arith in
      let all : d - 0 ≡ d = omega arith in
      rw more (
        ap some (
          encode_from-places (d + 1) parity 0 0 (omega arith) (omega arith) (IsCache-zero (nr + 0))
          ∙ ap (λ n. bit_xor parity (places buf nr 0 n)) all))
