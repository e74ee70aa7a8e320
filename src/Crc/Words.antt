-- ===== src/Crc/Words.antt =====
-- Four bytes at a time give what one byte at a time gives.
use debian_ocfs2_tools.Base.{
  ℕ, ◌+◌, ◌*◌, ◌/◌, ◌%◌, ◌^◌, ◌<◌, ◌≡◌, ◌∙◌, refl, sym, ap, ap₂, ◌==◌, List, [], ◌∷◌, get_or,
  bit_and, bit_xor, arith, All, Bool-cases, inl, inr,
}
use debian_ocfs2_tools.Base.Bits.Xor.{
  bit_xor_assoc, bit_xor_zero, bit_xor-shift, bit_and-ones, bit_xor-low,
}
use debian_ocfs2_tools.Bitops.Bit.{IsByte}
use debian_ocfs2_tools.Crc.{
  crc32table_le, do_crc, crc_align, word_crc, le32_word, crc_words, crc_bytes, crc32_le,
}

-- `x & 255`
pub low_byte : (x : ℕ) → bit_and x 255 ≡ x % 256
low_byte x = bit_and-ones 8 x

-- The low byte of `x ^ w` is that of `x ^ a`, when `a` is the low byte of `w`.
low-bit_xor : (x a w : ℕ) → bit_xor x (a + 256 * w) % 256 ≡ bit_xor x a % 256
low-bit_xor x a w = bit_xor-low 8 x (a + 256 * w) a (omega arith)

-- A word that is xored into the sum gives one byte, and stays in the sum with the others.
do_crc-word : (c a w : ℕ) → a < 256 → do_crc (bit_xor c (a + 256 * w)) 0 ≡ bit_xor (do_crc c a) w
unfolding do_crc
do_crc-word c a w lt =
    let index : bit_and (bit_xor (bit_xor c (a + 256 * w)) 0) 255 ≡ bit_and (bit_xor c a) 255 =
      low_byte (bit_xor (bit_xor c (a + 256 * w)) 0)
      ∙ ap (λ x. x % 256) (bit_xor_zero (bit_xor c (a + 256 * w)))
      ∙ low-bit_xor c a w
      ∙ sym (low_byte (bit_xor c a)) in
    let above : (a + 256 * w) / 2 ^ 8 ≡ w = omega arith in
    let high : bit_xor c (a + 256 * w) / 2 ^ 8 ≡ bit_xor (c / 2 ^ 8) w =
      bit_xor-shift c (a + 256 * w) ∙ ap (bit_xor (c / 2 ^ 8)) above in
    ap₂ (λ i h. bit_xor (get_or crc32table_le i 0) h) index high
    ∙ sym (bit_xor_assoc (get_or crc32table_le (bit_and (bit_xor c a) 255) 0) (c / 2 ^ 8) w)

word_crc-bytes :
    (c b0 b1 b2 b3 : ℕ)
    → b0 < 256
    → b1 < 256
    → b2 < 256
    → b3 < 256
    → word_crc c (le32_word b0 b1 b2 b3) ≡ do_crc (do_crc (do_crc (do_crc c b0) b1) b2) b3
unfolding word_crc le32_word
word_crc-bytes c b0 b1 b2 b3 h0 h1 h2 h3 =
    let third : b3 ≡ b3 + 256 * 0 = omega arith in
    ap (λ x. do_crc (do_crc (do_crc x 0) 0) 0) (do_crc-word c b0 (b1 + 256 * (b2 + 256 * b3)) h0)
    ∙ ap (λ x. do_crc (do_crc x 0) 0) (do_crc-word (do_crc c b0) b1 (b2 + 256 * b3) h1)
    ∙ ap (λ x. do_crc x 0) (do_crc-word (do_crc (do_crc c b0) b1) b2 b3 h2)
    ∙ ap (λ x. do_crc (bit_xor (do_crc (do_crc (do_crc c b0) b1) b2) x) 0) third
    ∙ do_crc-word (do_crc (do_crc (do_crc c b0) b1) b2) b3 0 h3
    ∙ bit_xor_zero _

crc_words-bytes :
    (c : ℕ) (p : List ℕ)
    → All IsByte p
    → crc_bytes (crc_words c p).0 (crc_words c p).1 ≡ crc_bytes c p
unfolding crc_words crc_bytes
crc_words-bytes c [] h = refl
crc_words-bytes c (b0 ∷ []) h = refl
crc_words-bytes c (b0 ∷ b1 ∷ []) h = refl
crc_words-bytes c (b0 ∷ b1 ∷ b2 ∷ []) h = refl
crc_words-bytes c (b0 ∷ b1 ∷ b2 ∷ b3 ∷ rest) h =
    crc_words-bytes (word_crc c (le32_word b0 b1 b2 b3)) rest h.1.1.1.1
    ∙ ap (λ x. crc_bytes x rest) (word_crc-bytes c b0 b1 b2 b3 h.0 h.1.0 h.1.1.0 h.1.1.1.0)

crc_align-bytes :
    (c addr : ℕ) (p : List ℕ)
    → All IsByte p
    → (crc_bytes (crc_align c addr p).0 (crc_align c addr p).1 ≡ crc_bytes c p)
      × All IsByte (crc_align c addr p).1
unfolding crc_align crc_bytes
crc_align-bytes c addr [] h = (refl, tt)
crc_align-bytes c addr (x ∷ xs) h = elim (Bool-cases (addr % 4 == 0)) [
  | inl aligned ↦ rw aligned (refl, h)
  | inr unaligned ↦ rw unaligned (crc_align-bytes (do_crc c x) (addr + 1) xs h.1)
]

-- Wherever the buffer lies, crc32_le computes the sum that goes over its bytes one by one.
pub crc32_le-bytes :
    (crc addr : ℕ) (p : List ℕ) → All IsByte p → crc32_le crc addr p ≡ crc_bytes crc p
unfolding crc32_le
crc32_le-bytes crc addr p h =
    let aligned = crc_align-bytes crc addr p h in
    crc_words-bytes (crc_align crc addr p).0 (crc_align crc addr p).1 aligned.1 ∙ aligned.0
