-- ===== src/BlockCheck/Validate.antt =====
-- ocfs2_block_check_validate in terms of what it reads, and of the cleared block.
use debian_ocfs2_tools.Base.{
  ℕ, zero, suc, ◌-◌, ◌^◌, ◌<◌, ◌≤◌, ◌≡◌, ◌≢◌, ◌∙◌, sym, ap, ap₂, ◌==◌, arith, List, [], ◌∷◌, length,
  take, bit_xor, if◌then◌else◌, Option, none, some, ok, Result,
}
use native.Mathlib.Nat.{one-le-pow, pow-suc, pow-le-pow_right}
use debian_ocfs2_tools.Base.Bits.Xor.{bit_xor_zero, bit_xor_injective}
use debian_ocfs2_tools.Crc.{crc32_le}
use debian_ocfs2_tools.BlockCheck.{
  OcfsBlockCheck, read_check, write_check, clear_check, block_crc, check_again, try_ecc,
  block_check_validate, hamming_encode_block, hamming_fix_block,
}

take-length : (buf : List ℕ) (n : ℕ) → length buf ≡ n → take n buf ≡ buf
take-length [] n h = ap (λ k. take k []) (sym h)
take-length (x ∷ xs) zero h = absurd (omega arith)
take-length (x ∷ xs) (suc n) h = ap (λ l. x ∷ l) (take-length xs n (omega arith))

pub block_crc-whole :
    (addr : ℕ) (buf : List ℕ) (blocksize : ℕ)
    → length buf ≡ blocksize
    → block_crc addr buf blocksize ≡ crc32_le (2 ^ 32 - 1) addr buf
unfolding block_crc
block_crc-whole addr buf blocksize h = ap (crc32_le (2 ^ 32 - 1) addr) (take-length buf blocksize h)

pub flipped_byte : (x k : ℕ) → bit_xor x (2 ^ k) ≢ x
flipped_byte x k h =
    let gone : 2 ^ k ≡ 0 = bit_xor_injective x (2 ^ k) 0 (h ∙ sym (bit_xor_zero x)) in
    omega (arith, one-le-pow k 2 (omega arith))

-- Validation in terms of what is read, and of the cleared block.
pub validate-parts :
    (addr : ℕ) (buf : List ℕ) (blocksize off : ℕ) (check : OcfsBlockCheck) (cleared : List ℕ)
    → read_check buf off ≡ check
    → clear_check buf off ≡ cleared
    → block_check_validate addr buf blocksize off ≡ (
        if block_crc addr cleared blocksize == check.bc_crc32e
        then some (ok tt, write_check cleared off check)
        else try_ecc addr blocksize off check cleared)
unfolding block_check_validate
validate-parts addr buf blocksize off check cleared read clear =
    ap₂
      (λ c b.
        if block_crc addr b blocksize == c.bc_crc32e
        then some (ok tt, write_check b off c)
        else try_ecc addr blocksize off c b)
      read clear

pub try_ecc-parts :
    (addr blocksize off : ℕ) (check : OcfsBlockCheck) (buf : List ℕ) (ecc : ℕ) (fixed : List ℕ)
    → hamming_encode_block buf blocksize ≡ some ecc
    → hamming_fix_block buf blocksize (bit_xor ecc check.bc_ecc) ≡ some fixed
    → try_ecc addr blocksize off check buf ≡ some (check_again addr blocksize off check fixed)
unfolding try_ecc
try_ecc-parts addr blocksize off check buf ecc fixed encode fix =
    ap
      (λ o. elim o as (λ _. Option (Result (Unit {0}) × List ℕ)) [
        | none ↦ none
        | some e ↦ elim (hamming_fix_block buf blocksize (bit_xor e check.bc_ecc)) [
          | none ↦ none
          | some f ↦ some (check_again addr blocksize off check f)
        ]
      ])
      encode
    ∙ ap
        (λ o. elim o as (λ _. Option (Result (Unit {0}) × List ℕ)) [
          | none ↦ none
          | some f ↦ some (check_again addr blocksize off check f)
        ])
        fix

pub power-lt : (k n : ℕ) → k < n → 2 ^ k < 2 ^ n
power-lt k n lt =
    let next : suc k ≤ n = omega arith in
    omega (
      arith,
      pow-suc 2 k,
      one-le-pow k 2 (omega arith),
      pow-le-pow_right {n = 2} (omega arith) next,
    )
