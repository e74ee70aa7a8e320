-- ===== src/BlockCheck/Check.antt =====
-- The fields of the check information are read as they were written.
use debian_ocfs2_tools.Base.{
  ℕ, ◌+◌, ◌*◌, ◌/◌, ◌%◌, ◌^◌, ◌<◌, ◌≤◌, ◌≡◌, ◌∙◌, refl, sym, ap, ap₂, ◌==◌, if_false, if◌then◌else◌,
  bit_xor, arith, inl, inr, List, length, false,
}
use debian_ocfs2_tools.Bitops.{byte}
use debian_ocfs2_tools.BlockCheck.{
  OcfsBlockCheck, write_at, write_check, clear_check, read_check, le32_bytes, le16_bytes,
}
use debian_ocfs2_tools.BlockCheck.Fix.{flip_bit}
use debian_ocfs2_tools.BlockCheck.Bytes.{
  write_at-inside, write_at-outside, length-write_at, byte-flip_bit, Outside, clear_check-same,
  write_check-Outside, length-write_check, length-flip_bit, clear_check-Outside, clear_check-zero,
  length-clear_check, byte_ext, where_is,
}

-- The fields fit their words.
pub record IsCheck (check : OcfsBlockCheck) : Type 0 where
  pub crc_lt : check.bc_crc32e < 2 ^ 32
  pub ecc_lt : check.bc_ecc < 2 ^ 16

pub read_check-write_check :
    (buf : List ℕ) (off : ℕ) (check : OcfsBlockCheck)
    → off + 8 ≤ length buf
    → IsCheck check
    → read_check (write_check buf off check) off ≡ check
unfolding read_check write_check
read_check-write_check buf off check fits small =
    let crc = check.bc_crc32e in
    let ecc = check.bc_ecc in
    let first = write_at buf off (le32_bytes crc) in
    let same : length first ≡ length buf = length-write_at (le32_bytes crc) buf off in
    let low : (k : ℕ)
        → k < 4
        → byte (write_check buf off check) (off + k) ≡ byte (le32_bytes crc) k =
      λ k lt.
        unfold write_check in
        write_at-outside (le16_bytes ecc) first (off + 4) (off + k) (omega arith)
          (inl (omega arith))
        ∙ write_at-inside (le32_bytes crc) buf off k (omega arith) lt in
    let high : (k : ℕ)
        → k < 2
        → byte (write_check buf off check) (off + 4 + k) ≡ byte (le16_bytes ecc) k =
      λ k lt.
        unfold write_check in write_at-inside (le16_bytes ecc) first (off + 4) k (omega arith) lt in
    let written = write_check buf off check in
    let at0 : off ≡ off + 0 = omega arith in
    let at4 : off + 4 ≡ off + 4 + 0 = omega arith in
    let at5 : off + 5 ≡ off + 4 + 1 = omega arith in
    let crc_back : byte written off
          + 256 * byte written (off + 1)
          + 65536 * byte written (off + 2)
          + 16777216 * byte written (off + 3)
        ≡ crc =
      omega (
        arith,
        ap (byte written) at0,
        low 0 (omega arith),
        low 1 (omega arith),
        low 2 (omega arith),
        low 3 (omega arith),
        small.crc_lt,
      ) in
    let ecc_back : byte written (off + 4) + 256 * byte written (off + 5) ≡ ecc = omega (
      arith,
      ap (byte written) at4,
      ap (byte written) at5,
      high 0 (omega arith),
      high 1 (omega arith),
      small.ecc_lt,
    ) in
    ap₂ (λ c e. record { bc_crc32e = c; bc_ecc = e }) crc_back ecc_back

-- What is read depends on the eight bytes only.
pub read_check-same :
    (a b : List ℕ) (off : ℕ)
    → ((k : ℕ) → k < 8 → byte a (off + k) ≡ byte b (off + k))
    → read_check a off ≡ read_check b off
unfolding read_check
read_check-same a b off h =
    let at0 : off ≡ off + 0 = omega arith in
    let first : byte a off ≡ byte b off =
      ap (byte a) at0 ∙ h 0 (omega arith) ∙ sym (ap (byte b) at0) in
    ap₂ (λ c e. record { bc_crc32e = c; bc_ecc = e })
      (omega (arith, first, h 1 (omega arith), h 2 (omega arith), h 3 (omega arith)))
      (omega (arith, h 4 (omega arith), h 5 (omega arith)))

-- A bit outside of the check information.
module _ (buf : List ℕ) (off j : ℕ) (fits : off + 8 ≤ length buf) (out : Outside off (j / 8))
    (inside : j < 8 * length buf) where
  elsewhere : (i k : ℕ) → k < 8 → i ≡ off + k → (i == j / 8) ≡ false
  elsewhere i k lt at = elim out [ inl before ↦ ground arith | inr behind ↦ ground arith ]

  pub read_check-flip_bit : read_check (flip_bit j buf) off ≡ read_check buf off
  read_check-flip_bit =
      read_check-same (flip_bit j buf) buf off (λ k lt.
        byte-flip_bit j buf (off + k) inside ∙ if_false _ _ (elsewhere (off + k) k lt refl))

-- Clearing the check information of a block that was written gives the cleared block, also when a
-- bit elsewhere was flipped meanwhile.
pub clear_check-write_check :
    (buf : List ℕ) (off : ℕ) (check : OcfsBlockCheck)
    → off + 8 ≤ length buf
    → clear_check (write_check (clear_check buf off) off check) off ≡ clear_check buf off
clear_check-write_check buf off check fits =
    let cleared = clear_check buf off in
    let same : length cleared ≡ length buf = length-clear_check buf off in
    let written = length-write_check cleared off check in
    clear_check-same _ buf off (omega arith) (omega arith) (λ i o.
      write_check-Outside cleared off i check (omega arith) o
      ∙ clear_check-Outside buf off i fits o)

-- Clearing a block that is cleared.
pub clear_check-fixed :
    (buf : List ℕ) (off : ℕ)
    → off + 8 ≤ length buf
    → ((k : ℕ) → k < 8 → byte buf (off + k) ≡ 0)
    → clear_check buf off ≡ buf
clear_check-fixed buf off fits zeros = byte_ext _ _ (length-clear_check buf off) (λ i lt.
    elim (where_is off i) [
      | inl o ↦ clear_check-Outside buf off i fits o
      | inr (k, k_lt, at) ↦
          ap (byte (clear_check buf off)) at
          ∙ clear_check-zero buf off k fits k_lt
          ∙ sym (ap (byte buf) at ∙ zeros k k_lt)
    ])

pub clear_check-flip_bit :
    (buf : List ℕ) (off j : ℕ) (check : OcfsBlockCheck)
    → off + 8 ≤ length buf
    → Outside off (j / 8)
    → j < 8 * length buf
    → clear_check (flip_bit j (write_check (clear_check buf off) off check)) off
      ≡ flip_bit j (clear_check buf off)
clear_check-flip_bit buf off j check fits out inside =
    let cleared = clear_check buf off in
    let same : length cleared ≡ length buf = length-clear_check buf off in
    let written = write_check cleared off check in
    let length_written : length written ≡ length buf =
      length-write_check cleared off check ∙ same in
    let flipped : length (flip_bit j written) ≡ length buf =
      length-flip_bit j written ∙ length_written in
    let length_cleared : length (flip_bit j cleared) ≡ length buf =
      length-flip_bit j cleared ∙ same in
    clear_check-same (flip_bit j written) (flip_bit j cleared) off (omega arith) (omega arith)
      (λ i o.
        byte-flip_bit j written i (omega arith)
        ∙ ap₂ (λ x y. if i == j / 8 then bit_xor x (2 ^ (j % 8)) else y)
            (write_check-Outside cleared off (j / 8) check (omega arith) out)
            (write_check-Outside cleared off i check (omega arith) o)
        ∙ sym (byte-flip_bit j cleared i (omega arith)))
    ∙ clear_check-fixed (flip_bit j cleared) off (omega arith) (λ k lt.
      byte-flip_bit j cleared (off + k) (omega arith)
      ∙ if_false _ _ (elsewhere cleared off j (omega arith) out (omega arith) (off + k) k lt refl)
      ∙ clear_check-zero buf off k fits lt)
