-- ===== src/Bitops/Find/Whole.antt =====
-- The searches from a whole byte on.
use debian_ocfs2_tools.Base.{
  ℕ, zero, suc, ◌+◌, ◌-◌, ◌/◌, ◌%◌, ◌^◌, ◌<◌, ◌≤◌, ◌≡◌, ◌≢◌, ◌∙◌, refl, sym, ap, Bool, true, false,
  not, List, ltb, leb, arith, if◌then◌else◌, inl, inr, ◌⊎◌, bit_and, bit_xor, All, min,
}
use debian_ocfs2_tools.Base.Bits.{test_bit, test_bit-bit_and, test_bit-bit_xor}
use debian_ocfs2_tools.Base.Bits.Words.{
  nonzero_bit, bits_ext, test_bit-ones, test_bit-high, test_bit-zero, u32_ones,
}
use debian_ocfs2_tools.Bitops.{
  byte, test_bit_of, skip_bytes, last_mask, found_in, scan_set, scan_clear,
}
use debian_ocfs2_tools.Bitops.Bit.{IsByte, byte-lt, test_bit_of-bit}
use debian_ocfs2_tools.Bitops.Find.{
  IsNext, IsNext-later, IsSkipped, skip_bytes-IsSkipped, found_in-IsNext, lt_or_le,
}

-- The mask keeps the bits below `size`.
mask_bits : (k : ℕ) → k ≤ 8 → 255 / 2 ^ (8 - k) ≡ 2 ^ k - 1
mask_bits zero h = refl
mask_bits (suc zero) h = refl
mask_bits (suc (suc zero)) h = refl
mask_bits (suc (suc (suc zero))) h = refl
mask_bits (suc (suc (suc (suc zero)))) h = refl
mask_bits (suc (suc (suc (suc (suc zero))))) h = refl
mask_bits (suc (suc (suc (suc (suc (suc zero)))))) h = refl
mask_bits (suc (suc (suc (suc (suc (suc (suc zero))))))) h = refl
mask_bits (suc (suc (suc (suc (suc (suc (suc (suc zero)))))))) h = refl
mask_bits (suc (suc (suc (suc (suc (suc (suc (suc (suc k))))))))) h = absurd (omega arith)

last_mask-eq : (size res : ℕ) → res < size → last_mask size res ≡ 2 ^ min 8 (size - res) - 1
unfolding last_mask
last_mask-eq size res lt = elim (lt_or_le size (res + 8)) [
  | inl short ↦
      let k : min 8 (size - res) ≡ size - res = omega arith in
      let t : ltb size (res + 8) ≡ true = ground arith in
      rw (k, t) (mask_bits (size - res) (omega arith))
  | inr long ↦
      let k : min 8 (size - res) ≡ 8 = omega arith in
      let t : ltb size (res + 8) ≡ false = ground arith in rw (k, t) refl
]

-- A byte that is not 0 has a bit that is set, and one that is not 255 has a bit that is clear.
set_in : (x : ℕ) → x < 256 → x ≢ 0 → (e : ℕ) × (e < 8) × (test_bit e x ≡ true)
set_in x lt ne =
    let (e, h) = nonzero_bit x ne in
    elim (lt_or_le e 8) [
      | inl inside ↦ (e, inside, h)
      | inr outside ↦ absurd cc (h, test_bit-high 8 e x lt outside)
    ]

clear_in : (x : ℕ) → x < 256 → x ≢ 255 → (e : ℕ) × (e < 8) × (test_bit e x ≡ false)
clear_in x lt ne =
    let differ : bit_xor x 255 ≢ 0 = λ z. ne (
      bits_ext x 255 (λ i. ground (
        arith,
        test_bit-bit_xor i x 255,
        test_bit-ones 8 i,
        ap (test_bit i) z,
        test_bit-zero i,
      ))) in
    let (e, h) = nonzero_bit (bit_xor x 255) differ in
    elim (lt_or_le e 8) [
      | inl inside ↦ (e, inside, ground (arith, test_bit-bit_xor e x 255, test_bit-ones 8 e))
      | inr outside ↦ absurd (
          ground
            (arith, test_bit-bit_xor e x 255, test_bit-ones 8 e, test_bit-high 8 e x lt outside))
    ]

-- A search that passes over bytes without a wanted position, and looks at the byte where it stops.
module _ (addr : List ℕ) (wanted : ℕ → Bool) (plain : ℕ)
    (nothing : (j : ℕ) → byte addr (j / 8) ≡ plain → wanted j ≡ false)
    (something : (res : ℕ)
      → res % 8 ≡ 0
      → byte addr (res / 8) ≢ plain
      → (e : ℕ) × (e < 8) × (wanted (res + e) ≡ true)) where
  scan-IsNext :
      (size from res bits : ℕ)
      → IsSkipped plain addr size from res
      → (res < size → (i : ℕ) → i < min 8 (size - res) → test_bit i bits ≡ wanted (res + i))
      → IsNext wanted size from (if leb size res then size else found_in size res bits)
  scan-IsNext size from res bits skipped says =
      let before : (i : ℕ) → from ≤ i → i < res → i < size → wanted i ≡ false =
        λ i ge lt _. nothing i (skipped.passed i ge lt) in
      elim (lt_or_le res size) [
        | inr ends ↦
            let t : leb size res ≡ true = ground arith in
            rw t (record {
              found = λ lt. absurd (omega arith);
              none = λ i ge lt _. before i ge (omega arith) lt;
            })
        | inl goes ↦
            let t : leb size res ≡ false = ground arith in
            let k = min 8 (size - res) in
            let last : (size ≤ res + k) ⊎ ((e : ℕ) × (e < k) × (wanted (res + e) ≡ true)) =
              elim (lt_or_le (res + 8) size) [
                | inr short ↦ inl (omega arith)
                | inl long ↦ elim skipped.stops [
                  | inl ends ↦ absurd (omega arith)
                  | inr other ↦
                      let (e, lt, w) = something res skipped.whole other in inr (e, omega arith, w)
                ]
              ] in
            rw t (
              IsNext-later wanted size from res _ skipped.later before
                (found_in-IsNext wanted size res bits k (omega arith) (says goes) last))
      ]

pub bit_at :
    (addr : List ℕ) (res i : ℕ)
    → res % 8 ≡ 0
    → i < 8
    → test_bit_of (res + i) addr ≡ test_bit i (byte addr (res / 8))
bit_at addr res i whole lt =
    let low : (res + i) % 8 ≡ i = omega arith in
    let high : (res + i) / 8 ≡ res / 8 = omega arith in
    test_bit_of-bit (res + i) addr ∙ rw (low, high) refl

abbrev pub is_set : List ℕ → ℕ → Bool
is_set addr i = test_bit_of i addr

abbrev pub is_clear : List ℕ → ℕ → Bool
is_clear addr i = not (test_bit_of i addr)

-- The bits of the byte, below `size`.
masked :
    (x size res i : ℕ)
    → res < size
    → i < min 8 (size - res)
    → test_bit i (bit_and x (last_mask size res)) ≡ test_bit i x
masked x size res i goes lt = ground (
  arith,
  test_bit-bit_and i x (last_mask size res),
  ap (test_bit i) (last_mask-eq size res goes),
  test_bit-ones (min 8 (size - res)) i,
)

module _ (addr : List ℕ) (bytes : All IsByte addr) where
  pub scan_set-IsNext :
      (size from : ℕ) → from % 8 ≡ 0 → IsNext (is_set addr) size from (scan_set addr size from)
  unfolding scan_set
  scan_set-IsNext size from whole =
      let res = skip_bytes 0 addr size size from in
      let skipped = skip_bytes-IsSkipped 0 addr size size from (omega arith) whole in
      scan-IsNext addr (is_set addr) 0
        (λ j e. test_bit_of-bit j addr ∙ ap (test_bit (j % 8)) e ∙ test_bit-zero (j % 8))
        (λ res whole ne.
          let (e, lt, h) = set_in (byte addr (res / 8)) (byte-lt addr (res / 8) bytes) ne in
          (e, lt, bit_at addr res e whole lt ∙ h))
        size from res (bit_and (byte addr (res / 8)) (last_mask size res)) skipped
        (λ goes i lt.
          masked (byte addr (res / 8)) size res i goes lt
          ∙ sym (bit_at addr res i skipped.whole (omega arith)))

  pub scan_clear-IsNext :
      (size from : ℕ) → from % 8 ≡ 0 → IsNext (is_clear addr) size from (scan_clear addr size from)
  unfolding scan_clear
  scan_clear-IsNext size from whole =
      let res = skip_bytes 255 addr size size from in
      let skipped = skip_bytes-IsSkipped 255 addr size size from (omega arith) whole in
      let x = bit_and (byte addr (res / 8)) (last_mask size res) in
      scan-IsNext addr (is_clear addr) 255
        (λ j e.
          ground (arith, test_bit-ones 8 (j % 8), test_bit_of-bit j addr ∙ ap (test_bit (j % 8)) e))
        (λ res whole ne.
          let (e, lt, h) = clear_in (byte addr (res / 8)) (byte-lt addr (res / 8) bytes) ne in
          (e, lt, ap not (bit_at addr res e whole lt ∙ h)))
        size from res (bit_xor x u32_ones) skipped
        (λ goes i lt. ground (
          arith,
          test_bit-bit_xor i x u32_ones,
          test_bit-ones 32 i,
          masked (byte addr (res / 8)) size res i goes lt,
          bit_at addr res i skipped.whole (omega arith),
        ))
