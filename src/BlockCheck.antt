-- ===== src/BlockCheck.antt =====
-- The check codes of metadata blocks, libocfs2/blockcheck.c: a Hamming code that corrects one bit,
-- and the sum that tells whether a block is whole. A buffer is a list of bytes; a size is given in
-- bits or bytes as in the source. `abort` is `none`.
pub mod Weight
pub mod Code
pub mod Encode
pub mod Hunks
pub mod Fix
pub mod Bytes
pub mod Check
pub mod Flip
pub mod Validate
pub mod Block
mod Examples
use debian_ocfs2_tools.Base.{
  ℕ, zero, suc, ◌+◌, ◌-◌, ◌*◌, ◌/◌, ◌%◌, ◌^◌, Bool, true, false, ◌==◌, ltb, leb, List, [], ◌∷◌,
  Option, none, some, Result, ok, err, io_error, get_or, set, take, replicate, bit_and, bit_xor,
  if◌then◌else◌,
}
use debian_ocfs2_tools.Base.Bits.Words.{meets}
use debian_ocfs2_tools.Bitops.{byte, set_bit, clear_bit, test_bit_of, find_next_bit_set}
use debian_ocfs2_tools.Crc.{crc32_le}

-- `hc_hweight32`. The masks leave room in each field for the sum, so no sum is cut.
unfoldable pub hc_hweight32 : ℕ → ℕ
hc_hweight32 w =
    let pairs = bit_and w 0x55555555 + bit_and (w / 2 ^ 1) 0x55555555 in
    let nibbles = bit_and pairs 0x33333333 + bit_and (pairs / 2 ^ 2) 0x33333333 in
    let bytes = bit_and nibbles 0x0F0F0F0F + bit_and (nibbles / 2 ^ 4) 0x0F0F0F0F in
    let halves = bit_and bytes 0x00FF00FF + bit_and (bytes / 2 ^ 8) 0x00FF00FF in
    bit_and halves 0x0000FFFF + bit_and (halves / 2 ^ 16) 0x0000FFFF

-- The loop of `calc_code_bit`: `b` goes up for each power of two below it. A round doubles the power,
-- so as many rounds as a word has bits are enough.
unfoldable pub bump : ℕ → ℕ → ℕ → ℕ × ℕ
bump zero b p = (b, p)
bump (suc fuel) b p =
    let rest = bump fuel (b + 1) (p + 1) in if ltb (2 ^ p) (b + 1) then rest else (b, p)

-- `calc_code_bit`, with the cached count of parity bits: the bit in the code, and the count then.
unfoldable pub calc_code_bit : ℕ → ℕ → ℕ × ℕ
unfolding bump
calc_code_bit i p = bump 32 (i + 1 + p) p

-- The loop of `ocfs2_hamming_encode`. Each round goes at least one bit on, so `d` rounds and the one
-- that finds nothing are enough.
unfoldable pub encode_from : ℕ → ℕ → List ℕ → ℕ → ℕ → ℕ → ℕ → ℕ
unfolding find_next_bit_set calc_code_bit
encode_from zero parity buf d nr i p = parity
encode_from (suc fuel) parity buf d nr i p =
    let found = find_next_bit_set buf d i in
    let code = calc_code_bit (nr + found) p in
    let rest = encode_from fuel (bit_xor parity code.0) buf d nr (found + 1) code.1 in
    if ltb found d then rest else parity

-- `ocfs2_hamming_encode`
unfoldable pub hamming_encode : ℕ → List ℕ → ℕ → ℕ → Option ℕ
unfolding encode_from
hamming_encode parity buf d nr =
    if d == 0 then none else some (encode_from (d + 1) parity buf d nr 0 0)

-- `ocfs2_hamming_encode_block`
unfoldable pub hamming_encode_block : List ℕ → ℕ → Option ℕ
unfolding hamming_encode
hamming_encode_block buf blocksize = hamming_encode 0 buf (blocksize * 8) 0

-- The `while` loop over parity bits. No two powers of two above 2 are neighbours, so one step is
-- enough.
unfoldable pub skip_parity : ℕ → ℕ → ℕ
unfolding hc_hweight32
skip_parity zero b = b
skip_parity (suc fuel) b =
    let rest = skip_parity fuel (b + 1) in if hc_hweight32 b == 1 then rest else b

-- The loop of `ocfs2_hamming_fix`, with the count of bits left.
unfoldable pub fix_from : ℕ → List ℕ → ℕ → ℕ → ℕ → List ℕ
unfolding skip_parity test_bit_of clear_bit set_bit
fix_from zero buf i b fix = buf
fix_from (suc left) buf i b fix =
    let here = skip_parity 1 b in
    let rest = fix_from left buf (i + 1) (here + 1) fix in
    if here == fix
    then (if test_bit_of i buf then (clear_bit i buf).1 else (set_bit i buf).1)
    else rest

-- `ocfs2_hamming_fix`
unfoldable pub hamming_fix : List ℕ → ℕ → ℕ → ℕ → Option (List ℕ)
unfolding hc_hweight32 calc_code_bit fix_from
hamming_fix buf d nr fix =
    if d == 0
    then none
    else some (
        if hc_hweight32 fix == 1
        then buf
        else if leb (calc_code_bit (nr + d) 0).0 fix
        then buf
        else if ltb fix (calc_code_bit nr 0).0
        then buf
        else fix_from d buf 0 (calc_code_bit nr 0).0 fix)

-- `ocfs2_hamming_fix_block`
unfoldable pub hamming_fix_block : List ℕ → ℕ → ℕ → Option (List ℕ)
unfolding hamming_fix
hamming_fix_block buf blocksize fix = hamming_fix buf (blocksize * 8) 0 fix

-- Bytes that are written from an offset on.
unfoldable pub write_at : List ℕ → ℕ → List ℕ → List ℕ
write_at buf off [] = buf
write_at buf off (x ∷ xs) = write_at (set buf off x) (off + 1) xs

-- `struct ocfs2_block_check`: its two fields, and the bytes of a field, low byte first.
pub record OcfsBlockCheck : Type 0 where
  pub bc_crc32e : ℕ
  pub bc_ecc : ℕ

abbrev pub le32_bytes : ℕ → List ℕ
le32_bytes x = x % 256 ∷ x / 256 % 256 ∷ x / 65536 % 256 ∷ x / 16777216 % 256 ∷ []

abbrev pub le16_bytes : ℕ → List ℕ
le16_bytes x = x % 256 ∷ x / 256 % 256 ∷ []

-- The check information lies in the block, at the offset `off`.
unfoldable pub read_check : List ℕ → ℕ → OcfsBlockCheck
read_check buf off = record {
  bc_crc32e =
      byte buf off
      + 256 * byte buf (off + 1)
      + 65536 * byte buf (off + 2)
      + 16777216 * byte buf (off + 3);
  bc_ecc = byte buf (off + 4) + 256 * byte buf (off + 5);
}

unfoldable pub write_check : List ℕ → ℕ → OcfsBlockCheck → List ℕ
unfolding write_at
write_check buf off check =
    write_at (write_at buf off (le32_bytes check.bc_crc32e)) (off + 4) (le16_bytes check.bc_ecc)

-- The `memset` over the check information.
unfoldable pub clear_check : List ℕ → ℕ → List ℕ
unfolding write_at
clear_check buf off = write_at buf off (replicate 8 0)

-- `crc32_le(~0, data, blocksize)`, for a block at the address `addr`.
unfoldable pub block_crc : ℕ → List ℕ → ℕ → ℕ
unfolding crc32_le
block_crc addr buf blocksize = crc32_le (2 ^ 32 - 1) addr (take blocksize buf)

-- `ocfs2_block_check_compute`: the block with its check information.
unfoldable pub block_check_compute : ℕ → List ℕ → ℕ → ℕ → Option (List ℕ)
unfolding clear_check block_crc hamming_encode_block write_check
block_check_compute addr buf blocksize off =
    let cleared = clear_check buf off in
    elim (hamming_encode_block cleared blocksize) [
      | none ↦ none
      | some ecc ↦ some (
          write_check cleared off
            (record { bc_crc32e = block_crc addr cleared blocksize; bc_ecc = ecc % 2 ^ 16 }))
    ]

-- The end of `ocfs2_block_check_validate`, for the block that may have been fixed.
unfoldable pub check_again : ℕ → ℕ → ℕ → OcfsBlockCheck → List ℕ → Result (Unit {0}) × List ℕ
unfolding block_crc write_check
check_again addr blocksize off check buf = (
  if block_crc addr buf blocksize == check.bc_crc32e then ok tt else err io_error,
  write_check buf off check,
)

-- The fixup of `ocfs2_block_check_validate`.
unfoldable pub try_ecc : ℕ → ℕ → ℕ → OcfsBlockCheck → List ℕ → Option (Result (Unit {0}) × List ℕ)
unfolding hamming_encode_block hamming_fix_block check_again
try_ecc addr blocksize off check buf = elim (hamming_encode_block buf blocksize) [
  | none ↦ none
  | some ecc ↦ elim (hamming_fix_block buf blocksize (bit_xor ecc check.bc_ecc)) [
    | none ↦ none
    | some fixed ↦ some (check_again addr blocksize off check fixed)
  ]
]

-- `ocfs2_block_check_validate`: the error, and the block then.
unfoldable pub block_check_validate : ℕ → List ℕ → ℕ → ℕ → Option (Result (Unit {0}) × List ℕ)
unfolding read_check clear_check block_crc write_check try_ecc
block_check_validate addr buf blocksize off =
    let check = read_check buf off in
    let cleared = clear_check buf off in
    if block_crc addr cleared blocksize == check.bc_crc32e
    then some (ok tt, write_check cleared off check)
    else try_ecc addr blocksize off check cleared

-- `ocfs2_meta_ecc`, for the incompat features of the file system.
unfoldable pub meta_ecc : ℕ → Bool
unfolding meets
meta_ecc s_feature_incompat = meets s_feature_incompat 0x800

-- `ocfs2_compute_meta_ecc`
unfoldable pub compute_meta_ecc : ℕ → ℕ → List ℕ → ℕ → ℕ → Option (List ℕ)
unfolding meta_ecc block_check_compute
compute_meta_ecc s_feature_incompat addr buf fs_blocksize off =
    if meta_ecc s_feature_incompat then block_check_compute addr buf fs_blocksize off else some buf

-- `ocfs2_validate_meta_ecc`
unfoldable pub validate_meta_ecc : ℕ → ℕ → List ℕ → ℕ → ℕ → Option (Result (Unit {0}) × List ℕ)
unfolding meta_ecc block_check_validate
validate_meta_ecc s_feature_incompat addr buf fs_blocksize off =
    if meta_ecc s_feature_incompat
    then block_check_validate addr buf fs_blocksize off
    else some (ok tt, buf)
