-- ===== src/Crc/Examples.antt =====
-- The sum of a small buffer.
use debian_ocfs2_tools.Base.{ℕ, ◌^◌, ◌-◌, ◌≡◌, ◌≢◌, refl, List, [], ◌∷◌, set, arith, All}
use debian_ocfs2_tools.Bitops.Bit.{IsByte}
use debian_ocfs2_tools.Crc.{
  crc32table_le, do_crc, crc_align, word_crc, le32_word, crc_words, crc_bytes, crc32_le,
}
use debian_ocfs2_tools.Crc.Words.{crc32_le-bytes}
use debian_ocfs2_tools.Crc.Detect.{crc32_le-set}

-- "123456789", whose sum is the check value of this CRC, before the last complement.
abbrev digits : List ℕ
digits = 49 ∷ 50 ∷ 51 ∷ 52 ∷ 53 ∷ 54 ∷ 55 ∷ 56 ∷ 57 ∷ []

digits-bytes : All IsByte digits
digits-bytes = (
  omega arith,
  (
    omega arith,
    (
      omega arith,
      (omega arith, (omega arith, (omega arith, (omega arith, (omega arith, (omega arith, tt)))))),
    ),
  ),
)

check_value : crc32_le (2 ^ 32 - 1) 2 digits ≡ 2 ^ 32 - 1 - 0xCBF43926
unfolding crc32_le crc_align crc_words word_crc le32_word crc_bytes do_crc crc32table_le
check_value = refl

crc32_le-bytes_example : crc32_le (2 ^ 32 - 1) 2 digits ≡ crc_bytes (2 ^ 32 - 1) digits
crc32_le-bytes_example = crc32_le-bytes (2 ^ 32 - 1) 2 digits digits-bytes

crc32_le-set_example : crc32_le (2 ^ 32 - 1) 5 (set digits 3 7) ≢ crc32_le (2 ^ 32 - 1) 2 digits
crc32_le-set_example =
    crc32_le-set (2 ^ 32 - 1) 2 5 digits 3 7 (omega arith) digits-bytes (omega arith) (omega arith)
      (omega arith)
