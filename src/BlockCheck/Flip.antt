-- ===== src/BlockCheck/Flip.antt =====
-- What a flipped bit does to the parity, and how large a parity is.
use debian_ocfs2_tools.Base.{
  ℕ, zero, suc, ◌+◌, ◌-◌, ◌*◌, ◌/◌, ◌%◌, ◌^◌, ◌<◌, ◌≤◌, ◌≡◌, ◌≢◌, ◌∙◌, refl, sym, ap, ap₂, ◌==◌,
  ==_iff, if_true, if_false, Bool, true, false, not, arith, Bool-cases, inl, inr, ◌⊎◌, List, length,
  All, bit_xor, if◌then◌else◌, some,
}
use mathlib.Core.Option.{none, none-ne-some, some-injective}
use debian_ocfs2_tools.Base.Bits.{xor, test_bit, test_bit-bit_xor}
use debian_ocfs2_tools.Base.Bits.Words.{test_bit-power}
use debian_ocfs2_tools.Base.Bits.Xor.{
  bit_xor_assoc, bit_xor_comm, bit_xor_zero, bit_xor_self, bit_xor-lt,
}
use debian_ocfs2_tools.Bitops.{byte, test_bit_of}
use debian_ocfs2_tools.Bitops.Bit.{IsByte, test_bit_of-bit}
use debian_ocfs2_tools.BlockCheck.{bump, calc_code_bit, hamming_encode, hamming_encode_block}
use debian_ocfs2_tools.BlockCheck.Code.{place_of, place_of-le}
use debian_ocfs2_tools.BlockCheck.Encode.{
  term, places, places-split, places-same, hamming_encode-places,
}
use debian_ocfs2_tools.BlockCheck.Fix.{flip_bit}
use debian_ocfs2_tools.BlockCheck.Bytes.{byte-flip_bit}

xor_comm : (a b : Bool) → xor a b ≡ xor b a
xor_comm a b = ground arith

pub test_bit_of-flip_bit :
    (j : ℕ) (buf : List ℕ) (k : ℕ)
    → j < 8 * length buf
    → test_bit_of k (flip_bit j buf) ≡ xor (k == j) (test_bit_of k buf)
test_bit_of-flip_bit j buf k inside =
    test_bit_of-bit k (flip_bit j buf)
    ∙ ap (test_bit (k % 8)) (byte-flip_bit j buf (k / 8) inside)
    ∙ elim (Bool-cases (k / 8 == j / 8)) [
      | inl same ↦
          let at : k / 8 ≡ j / 8 = (==_iff _ _).0 same in
          ap (test_bit (k % 8)) (if_true _ _ same)
          ∙ test_bit-bit_xor (k % 8) (byte buf (j / 8)) (2 ^ (j % 8))
          ∙ flipped at
      | inr other ↦
          let differ : (k == j) ≡ false = ground arith in
          ap (test_bit (k % 8)) (if_false _ _ other)
          ∙ sym (ap (λ b. xor b (test_bit_of k buf)) differ ∙ test_bit_of-bit k buf)
    ]
  where
    flipped :
        k / 8 ≡ j / 8
        → xor (test_bit (k % 8) (byte buf (j / 8))) (test_bit (k % 8) (2 ^ (j % 8)))
          ≡ xor (k == j) (test_bit_of k buf)
    flipped at =
        let bits : (k % 8 == j % 8) ≡ (k == j) = ground arith in
        ap (xor (test_bit (k % 8) (byte buf (j / 8)))) (test_bit-power (j % 8) (k % 8) ∙ bits)
        ∙ xor_comm _ (k == j)
        ∙ ap (xor (k == j))
            (ap (λ q. test_bit (k % 8) (byte buf q)) (sym at) ∙ sym (test_bit_of-bit k buf))

-- Flipping a data bit adds its place to the parity.
pub places-flip_bit :
    (j d : ℕ) (buf : List ℕ)
    → j < d
    → j < 8 * length buf
    → places (flip_bit j buf) 0 0 d ≡ bit_xor (places buf 0 0 d) (place_of j)
unfolding places
places-flip_bit j d buf lt inside =
    let left = d - (j + 1) in
    let parts : d ≡ j + suc left = omega arith in
    let changed = flip_bit j buf in
    let start : 0 + j ≡ j = omega arith in
    let front : places changed 0 0 j ≡ places buf 0 0 j =
      places-same changed buf 0 0 0 0 j refl (λ k below. same_bit (0 + k) (omega arith)) in
    let back : places changed 0 (0 + j + 1) left ≡ places buf 0 (0 + j + 1) left =
      places-same changed buf 0 0 (0 + j + 1) (0 + j + 1) left refl
        (λ k below. same_bit (0 + j + 1 + k) (omega arith)) in
    ap (places changed 0 0) parts
    ∙ places-split changed 0 0 j (suc left)
    ∙ ap₂ bit_xor front (ap₂ bit_xor here back)
    ∙ shuffle (places buf 0 0 j) (term buf 0 (0 + j)) (place_of j) (places buf 0 (0 + j + 1) left)
    ∙ sym (
        ap (λ x. bit_xor x (place_of j))
          (ap (places buf 0 0) parts ∙ places-split buf 0 0 j (suc left)))
  where
    same_bit : (k : ℕ) → k ≢ j → test_bit_of k (flip_bit j buf) ≡ test_bit_of k buf
    same_bit k ne =
        let other : (k == j) ≡ false = ground arith in
        test_bit_of-flip_bit j buf k inside ∙ ap (λ b. xor b (test_bit_of k buf)) other

    toggled :
        (b : Bool) (l m : ℕ) → m ≡ l → (if not b then m else 0) ≡ bit_xor (if b then m else 0) l
    toggled true l m at = sym (ap (λ x. bit_xor x l) at ∙ bit_xor_self l)
    toggled false l m at = at ∙ sym (bit_xor_comm 0 l ∙ bit_xor_zero l)

    here : term (flip_bit j buf) 0 (0 + j) ≡ bit_xor (term buf 0 (0 + j)) (place_of j)
    here =
        let at : 0 + (0 + j) ≡ j = omega arith in
        let same : (0 + j == j) ≡ true = ground arith in
        ap (λ b. if b then place_of (0 + (0 + j)) else 0)
          (test_bit_of-flip_bit j buf (0 + j) inside
            ∙ ap (λ b. xor b (test_bit_of (0 + j) buf)) same)
        ∙ toggled (test_bit_of (0 + j) buf) (place_of j) (place_of (0 + (0 + j))) (ap place_of at)

    shuffle :
        (p t l r : ℕ) → bit_xor p (bit_xor (bit_xor t l) r) ≡ bit_xor (bit_xor p (bit_xor t r)) l
    shuffle p t l r =
        ap (bit_xor p)
          (bit_xor_assoc t l r ∙ ap (bit_xor t) (bit_xor_comm l r) ∙ sym (bit_xor_assoc t r l))
        ∙ sym (bit_xor_assoc p (bit_xor t r) l)

last : place_of 32767 ≡ 32784
unfolding place_of calc_code_bit bump
last = refl

-- The parity of up to 32768 bits has 16 bits.
places-lt : (buf : List ℕ) (i n : ℕ) → i + n ≤ 32768 → places buf 0 i n < 2 ^ 16
unfolding places
places-lt buf i zero h = omega arith
places-lt buf i (suc n) h =
    bit_xor-lt 16 (term buf 0 i) (places buf 0 (i + 1) n) (term-lt (Bool-cases (test_bit_of i buf)))
      (places-lt buf (i + 1) n (omega arith))
  where
    term-lt : ((test_bit_of i buf ≡ true) ⊎ (test_bit_of i buf ≡ false)) → term buf 0 i < 2 ^ 16
    term-lt (inl on) = omega (
      arith,
      if_true (place_of (0 + i)) 0 on,
      last,
      place_of-le (0 + i) 32767 (omega arith) (omega arith),
    )
    term-lt (inr off) = omega (arith, if_false (place_of (0 + i)) 0 off)

pub hamming_encode_block-places :
    (buf : List ℕ) (blocksize : ℕ)
    → All IsByte buf
    → 0 < blocksize
    → blocksize ≤ 4096
    → hamming_encode_block buf blocksize ≡ some (places buf 0 0 (blocksize * 8))
unfolding hamming_encode_block
hamming_encode_block-places buf blocksize bytes pos small =
    hamming_encode-places buf bytes 0 (blocksize * 8) (omega arith) 0 (omega arith)
    ∙ ap some (
        bit_xor_comm 0 (places buf 0 0 (blocksize * 8))
        ∙ bit_xor_zero (places buf 0 0 (blocksize * 8)))

-- The parity that ocfs2_hamming_encode_block computes for a block of up to 4096 bytes, the largest
-- that the file system has, fits the 16 bits of bc_ecc.
pub hamming_encode_block-lt :
    (buf : List ℕ) (blocksize ecc : ℕ)
    → All IsByte buf
    → blocksize ≤ 4096
    → hamming_encode_block buf blocksize ≡ some ecc
    → ecc < 2 ^ 16
hamming_encode_block-lt buf blocksize ecc bytes small h = elim (Bool-cases (blocksize == 0)) [
  | inl empty ↦
      let no_bits : (blocksize * 8 == 0) ≡ true = ground arith in
      let none_yet : hamming_encode_block buf blocksize ≡ none =
        unfold hamming_encode_block hamming_encode in if_true _ _ no_bits in
      absurd (none-ne-some ecc (sym none_yet ∙ h))
  | inr some_bytes ↦
      let returned = hamming_encode_block-places buf blocksize bytes (ground arith) (omega arith) in
      let value : places buf 0 0 (blocksize * 8) ≡ ecc = some-injective _ _ (sym returned ∙ h) in
      omega (arith, value, places-lt buf 0 (blocksize * 8) (omega arith))
]
