-- ===== src/BlockCheck/Examples.antt =====
-- The check codes of a small block.
use debian_ocfs2_tools.Base.{
  ℕ, ◌+◌, ◌*◌, ◌^◌, ◌<◌, ◌≡◌, refl, List, [], ◌∷◌, ◌++◌, length, arith, All, some, ok, inr,
  if◌then◌else◌, leb, ltb, ◌&&◌, ◌-◌,
}
use debian_ocfs2_tools.Bitops.{
  find_next_bit_set, scan_set, skip_bytes, last_mask, found_in, ffs, ffs_from,
}
use debian_ocfs2_tools.Base.Bits.Words.{bit_clear}
use debian_ocfs2_tools.Bitops.Bit.{IsByte}
use debian_ocfs2_tools.BlockCheck.{
  hc_hweight32, bump, calc_code_bit, encode_from, hamming_encode, hamming_encode_block, hamming_fix,
  block_check_compute, block_check_validate,
}
use debian_ocfs2_tools.BlockCheck.Weight.{weight, hc_hweight32-weight}
use debian_ocfs2_tools.BlockCheck.Code.{place_of}
use debian_ocfs2_tools.BlockCheck.Hunks.{hamming_encode-hunks}
use debian_ocfs2_tools.BlockCheck.Fix.{flip_bit, hamming_fix-place}
use debian_ocfs2_tools.BlockCheck.Flip.{hamming_encode_block-lt}
use debian_ocfs2_tools.BlockCheck.Block.{
  block_check_validate-compute, block_check_validate-flip_bit,
}

-- A block of 12 bytes, with the check information from the third byte on.
abbrev block : List ℕ
block = 17 ∷ 200 ∷ 1 ∷ 2 ∷ 3 ∷ 4 ∷ 5 ∷ 6 ∷ 7 ∷ 8 ∷ 96 ∷ 3 ∷ []

abbrev first : List ℕ
first = 17 ∷ 200 ∷ []

abbrev second : List ℕ
second = 96 ∷ []

first-bytes : All IsByte first
first-bytes = (omega arith, (omega arith, tt))

second-bytes : All IsByte second
second-bytes = (omega arith, tt)

block-bytes : All IsByte block
block-bytes =
    let small : (x : ℕ) → x < 256 → IsByte x = λ x h. h in
    (
      small 17 (omega arith),
      (
        small 200 (omega arith),
        (
          small 1 (omega arith),
          (
            small 2 (omega arith),
            (
              small 3 (omega arith),
              (
                small 4 (omega arith),
                (
                  small 5 (omega arith),
                  (
                    small 6 (omega arith),
                    (
                      small 7 (omega arith),
                      (
                        small 8 (omega arith),
                        (small 96 (omega arith), (small 3 (omega arith), tt)),
                      ),
                    ),
                  ),
                ),
              ),
            ),
          ),
        ),
      ),
    )

block_check_validate-compute_example :
    (out : List ℕ) × (block_check_compute 0 block 12 2 ≡ some out)
    × (block_check_validate 3 out 12 2 ≡ some (ok tt, out))
block_check_validate-compute_example =
    block_check_validate-compute block 12 2 block-bytes refl (omega arith) (omega arith) 0 3

block_check_validate-flip_bit_example :
    (out : List ℕ) × (block_check_compute 0 block 12 2 ≡ some out)
    × (block_check_validate 1 (flip_bit 90 out) 12 2 ≡ some (ok tt, out))
block_check_validate-flip_bit_example =
    block_check_validate-flip_bit block 12 2 block-bytes refl (omega arith) (omega arith) 0 1 90
      (omega arith) (inr (omega arith))

hamming_fix-place_example :
    hamming_fix first 16 8 (place_of 12)
    ≡ some (if leb 8 12 && ltb 12 (8 + 16) then flip_bit (12 - 8) first else first)
hamming_fix-place_example =
    hamming_fix-place first first-bytes 8 16 12 (omega arith) (omega arith) (omega arith)

-- Data bits 0, 4, 11, 14 and 15 stand at the places 3, 9, 16 + 1, 20 and 21 of the code.
encode_first : hamming_encode 0 first 16 0 ≡ some 26
unfolding hamming_encode encode_from calc_code_bit bump find_next_bit_set scan_set skip_bytes
    last_mask found_in ffs ffs_from bit_clear
encode_first = refl

encode_first_block : hamming_encode_block first 2 ≡ some 26
unfolding hamming_encode_block
encode_first_block = encode_first

hamming_encode-hunks_example :
    hamming_encode 26 second (8 * length second) (8 * length first)
    ≡ hamming_encode 0 (first ++ second) (8 * length first + 8 * length second) 0
hamming_encode-hunks_example =
    hamming_encode-hunks first second 0 26 first-bytes second-bytes (omega arith) (omega arith)
      (omega arith) encode_first

hamming_encode_block-lt_example : 26 < 2 ^ 16
hamming_encode_block-lt_example =
    hamming_encode_block-lt first 2 26 first-bytes (omega arith) encode_first_block

hc_hweight32-weight_example : hc_hweight32 0xF0000001 ≡ weight 32 0xF0000001
hc_hweight32-weight_example = hc_hweight32-weight 0xF0000001
