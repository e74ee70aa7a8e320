-- ===== src/BlockCheck/Block.antt =====
-- A block whose check information was computed is accepted, and one flipped bit is corrected.
use debian_ocfs2_tools.Base.{
  ℕ, ◌+◌, ◌-◌, ◌*◌, ◌/◌, ◌%◌, ◌^◌, ◌<◌, ◌≤◌, ◌≡◌, ◌≢◌, ◌∙◌, sym, ap, ap₂, ◌==◌, leb, ltb, ==_iff,
  if_true, if_false, true, false, ◌&&◌, arith, List, length, All, bit_xor, Option, none, some, ok,
}
use debian_ocfs2_tools.Base.Bits.Xor.{bit_xor_comm, bit_xor_cancel, bit_xor-lt}
use debian_ocfs2_tools.Bitops.{byte}
use debian_ocfs2_tools.Bitops.Bit.{IsByte, byte-lt}
use debian_ocfs2_tools.Crc.{crc32_le}
use debian_ocfs2_tools.Crc.Words.{crc32_le-bytes}
use debian_ocfs2_tools.Crc.Detect.{crc32_le-lt, crc32_le-set}
use debian_ocfs2_tools.BlockCheck.{
  OcfsBlockCheck, read_check, write_check, clear_check, block_crc, block_check_compute, check_again,
  block_check_validate, hamming_encode_block, hamming_fix_block,
}
use debian_ocfs2_tools.BlockCheck.Code.{place_of}
use debian_ocfs2_tools.BlockCheck.Encode.{places}
use debian_ocfs2_tools.BlockCheck.Fix.{flip_bit, hamming_fix-place}
use debian_ocfs2_tools.BlockCheck.Bytes.{
  Outside, All-clear_check, All-flip_bit, length-clear_check, length-write_check, flip_bit-flip_bit,
  length-flip_bit,
}
use debian_ocfs2_tools.BlockCheck.Check.{
  IsCheck, read_check-write_check, read_check-flip_bit, clear_check-write_check,
  clear_check-flip_bit,
}
use debian_ocfs2_tools.BlockCheck.Flip.{
  hamming_encode_block-places, hamming_encode_block-lt, places-flip_bit,
}
use debian_ocfs2_tools.BlockCheck.Validate.{
  block_crc-whole, flipped_byte, validate-parts, try_ecc-parts, power-lt,
}

-- A block of the file system, with room for its check information.
module _ (buf : List ℕ) (blocksize off : ℕ) (bytes : All IsByte buf)
    (whole : length buf ≡ blocksize) (fits : off + 8 ≤ blocksize) (small : blocksize ≤ 4096) where
  cleared : List ℕ
  cleared = clear_check buf off

  -- What is computed for the block.
  computed : OcfsBlockCheck
  computed = record {
    bc_crc32e = crc32_le (2 ^ 32 - 1) 0 cleared;
    bc_ecc = places cleared 0 0 (blocksize * 8);
  }

  cleared-bytes : All IsByte cleared
  unfolding cleared
  cleared-bytes = All-clear_check buf off bytes

  length-cleared : length cleared ≡ blocksize
  unfolding cleared
  length-cleared = length-clear_check buf off ∙ whole

  encoded : hamming_encode_block cleared blocksize ≡ some (places cleared 0 0 (blocksize * 8))
  encoded = hamming_encode_block-places cleared blocksize cleared-bytes (omega arith) small

  ecc-lt : places cleared 0 0 (blocksize * 8) < 2 ^ 16
  ecc-lt = hamming_encode_block-lt cleared blocksize _ cleared-bytes small encoded

  computed-IsCheck : IsCheck computed
  unfolding computed
  computed-IsCheck = record {
    crc_lt = crc32_le-lt (2 ^ 32 - 1) 0 cleared (omega arith) cleared-bytes;
    ecc_lt = ecc-lt;
  }

  -- The sum does not depend on where the block lies.
  crc-cleared : (addr : ℕ) → block_crc addr cleared blocksize ≡ crc32_le (2 ^ 32 - 1) 0 cleared
  crc-cleared addr =
      block_crc-whole addr cleared blocksize length-cleared
      ∙ crc32_le-bytes (2 ^ 32 - 1) addr cleared cleared-bytes
      ∙ sym (crc32_le-bytes (2 ^ 32 - 1) 0 cleared cleared-bytes)

  compute-written :
      (addr : ℕ)
      → block_check_compute addr buf blocksize off ≡ some (write_check cleared off computed)
  unfolding block_check_compute cleared computed
  compute-written addr =
      let cut : places cleared 0 0 (blocksize * 8) % 2 ^ 16 ≡ places cleared 0 0 (blocksize * 8) =
        omega (arith, ecc-lt) in
      ap
        (λ o. elim o as (λ _. Option (List ℕ)) [
          | none ↦ none
          | some ecc ↦ some (
              write_check cleared off
                (record { bc_crc32e = block_crc addr cleared blocksize; bc_ecc = ecc % 2 ^ 16 }))
        ])
        encoded
      ∙ ap₂ (λ c e. some (write_check cleared off (record { bc_crc32e = c; bc_ecc = e })))
          (crc-cleared addr) cut

  clear_written : clear_check (write_check cleared off computed) off ≡ cleared
  unfolding cleared
  clear_written = clear_check-write_check buf off computed (omega (arith, whole))

  module _ (moved j : ℕ) (inside : j < 8 * blocksize) (out : Outside off (j / 8)) where
    damaged : List ℕ
    damaged = flip_bit j cleared

    damaged-bytes : All IsByte damaged
    unfolding damaged
    damaged-bytes = All-flip_bit j cleared cleared-bytes

    length-damaged : length damaged ≡ blocksize
    unfolding damaged
    length-damaged = length-flip_bit j cleared ∙ length-cleared

    read-damaged : read_check (flip_bit j (write_check cleared off computed)) off ≡ computed
    read-damaged =
        let written : length (write_check cleared off computed) ≡ blocksize =
          length-write_check cleared off computed ∙ length-cleared in
        read_check-flip_bit (write_check cleared off computed) off j (omega arith) out (omega arith)
        ∙ read_check-write_check cleared off computed (omega (arith, length-cleared))
            computed-IsCheck

    clear-damaged : clear_check (flip_bit j (write_check cleared off computed)) off ≡ damaged
    unfolding damaged cleared
    clear-damaged =
        clear_check-flip_bit buf off j computed (omega (arith, whole)) out (omega (arith, whole))

    -- The sum sees the damage.
    crc-damaged : block_crc moved damaged blocksize ≢ computed.bc_crc32e
    unfolding damaged flip_bit computed
    crc-damaged h =
        crc32_le-set (2 ^ 32 - 1) 0 moved cleared (j / 8) _ (omega arith) cleared-bytes
          (bit_xor-lt 8 (byte cleared (j / 8)) (2 ^ (j % 8)) (byte-lt cleared (j / 8) cleared-bytes)
            (power-lt (j % 8) 8 (omega arith)))
          (omega (arith, length-cleared)) (flipped_byte (byte cleared (j / 8)) (j % 8))
          (sym (block_crc-whole moved damaged blocksize length-damaged) ∙ h)

    -- The parity tells where it is.
    encode-damaged :
        hamming_encode_block damaged blocksize
        ≡ some (bit_xor (places cleared 0 0 (blocksize * 8)) (place_of j))
    encode-damaged =
        hamming_encode_block-places damaged blocksize damaged-bytes (omega arith) small
        ∙ ap some (
            unfold damaged in
            places-flip_bit j (blocksize * 8) cleared (omega arith) (omega (arith, length-cleared)))

    syndrome :
        bit_xor (bit_xor (places cleared 0 0 (blocksize * 8)) (place_of j)) computed.bc_ecc
        ≡ place_of j
    unfolding computed
    syndrome =
        let parity = places cleared 0 0 (blocksize * 8) in
        bit_xor_comm (bit_xor parity (place_of j)) parity ∙ bit_xor_cancel parity (place_of j)

    fix-damaged : hamming_fix_block damaged blocksize (place_of j) ≡ some cleared
    unfolding hamming_fix_block damaged
    fix-damaged =
        let hit : leb 0 j && ltb j (0 + blocksize * 8) ≡ true = ground arith in
        let at : j - 0 ≡ j = omega arith in
        hamming_fix-place damaged damaged-bytes 0 (blocksize * 8) j (omega arith) (omega arith)
          (omega arith)
        ∙ ap some (
            if_true _ _ hit
            ∙ ap (λ k. flip_bit k damaged) at
            ∙ flip_bit-flip_bit j cleared (omega (arith, length-cleared)))

    flipped-corrected :
        block_check_validate moved (flip_bit j (write_check cleared off computed)) blocksize off
        ≡ some (ok tt, write_check cleared off computed)
    flipped-corrected =
        let seen : (block_crc moved damaged blocksize == computed.bc_crc32e) ≡ false =
          not_equal _ _ crc-damaged in
        let agreed : (block_crc moved cleared blocksize == computed.bc_crc32e) ≡ true =
          unfold computed in (==_iff _ _).1 (crc-cleared moved) in
        validate-parts moved _ blocksize off computed damaged read-damaged clear-damaged
        ∙ if_false _ _ seen
        ∙ try_ecc-parts moved blocksize off computed damaged _ cleared encode-damaged
            (ap (hamming_fix_block damaged blocksize) syndrome ∙ fix-damaged)
        ∙ (unfold check_again in
            ap (λ r. some (r, write_check cleared off computed)) (if_true _ _ agreed))
      where
        not_equal : (x y : ℕ) → x ≢ y → (x == y) ≡ false
        not_equal x y ne = ground arith

  -- ocfs2_block_check_validate accepts what ocfs2_block_check_compute wrote, and leaves it as it is.
  -- The block has up to 4096 bytes, with its check information inside; it may lie elsewhere in memory
  -- by then.
  pub block_check_validate-compute :
      (addr moved : ℕ)
      → (out : List ℕ) × (block_check_compute addr buf blocksize off ≡ some out)
        × (block_check_validate moved out blocksize off ≡ some (ok tt, out))
  block_check_validate-compute addr moved = (
    write_check cleared off computed,
    compute-written addr,
    unfold computed in
        validate-parts moved _ blocksize off computed cleared
          (read_check-write_check cleared off computed (omega (arith, length-cleared))
            computed-IsCheck)
          clear_written
        ∙ if_true _ _ ((==_iff _ _).1 (crc-cleared moved)),
  )

  -- One bit that flips outside of the check information, after it was computed, is corrected by
  -- ocfs2_block_check_validate: it returns no error, and the block that ocfs2_block_check_compute
  -- wrote. The block has up to 4096 bytes, with its check information inside.
  pub block_check_validate-flip_bit :
      (addr moved j : ℕ)
      → j < 8 * blocksize
      → Outside off (j / 8)
      → (out : List ℕ) × (block_check_compute addr buf blocksize off ≡ some out)
        × (block_check_validate moved (flip_bit j out) blocksize off ≡ some (ok tt, out))
  block_check_validate-flip_bit addr moved j inside out =
      (write_check cleared off computed, compute-written addr, flipped-corrected moved j inside out)
