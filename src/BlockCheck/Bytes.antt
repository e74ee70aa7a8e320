-- ===== src/BlockCheck/Bytes.antt =====
-- The bytes of a block whose check information is written, cleared and read, and which has a bit
-- flipped.
use debian_ocfs2_tools.Base.{
  ℕ, zero, suc, ◌+◌, ◌-◌, ◌*◌, ◌/◌, ◌%◌, ◌^◌, ◌<◌, ◌≤◌, ◌≡◌, ◌∙◌, refl, sym, ap, ap₂, ◌==◌, ltb,
  ==_iff, if_true, if_false, true, false, arith, Bool-cases, inl, inr, ◌⊎◌, List, [], ◌∷◌, length,
  length-set, set, replicate, All, bit_xor, if◌then◌else◌, ltb→lt, ltb_false→le,
}
use native.Mathlib.Nat.{pow-le-pow_right, pow-suc, one-le-pow}
use debian_ocfs2_tools.Base.Bits.Xor.{bit_xor_assoc, bit_xor_self, bit_xor_zero, bit_xor-lt}
use debian_ocfs2_tools.Bitops.{byte}
use debian_ocfs2_tools.Bitops.Bit.{IsByte, byte-lt, byte-set}
use debian_ocfs2_tools.Crc.Detect.{All-set}
use debian_ocfs2_tools.BlockCheck.{
  OcfsBlockCheck, write_at, write_check, clear_check, le32_bytes, le16_bytes,
}
use debian_ocfs2_tools.BlockCheck.Fix.{flip_bit}

-- Buffers of the same length with the same bytes are the same.
pub byte_ext :
    (xs ys : List ℕ)
    → length xs ≡ length ys
    → ((i : ℕ) → i < length xs → byte xs i ≡ byte ys i)
    → xs ≡ ys
byte_ext [] [] e h = refl
byte_ext [] (y ∷ ys) e h = absurd (omega arith)
byte_ext (x ∷ xs) [] e h = absurd (omega arith)
byte_ext (x ∷ xs) (y ∷ ys) e h =
    ap₂ ◌∷◌ (h 0 (omega arith)) (byte_ext xs ys (omega arith) (λ i lt. h (suc i) (omega arith)))

pub length-write_at : (xs buf : List ℕ) (off : ℕ) → length (write_at buf off xs) ≡ length buf
unfolding write_at
length-write_at [] buf off = refl
length-write_at (x ∷ xs) buf off =
    length-write_at xs (set buf off x) (off + 1) ∙ length-set buf off x

-- Outside of what is written a byte is what it was, inside it is what is written.
pub write_at-outside :
    (xs buf : List ℕ) (off i : ℕ)
    → off + length xs ≤ length buf
    → (i < off) ⊎ (off + length xs ≤ i)
    → byte (write_at buf off xs) i ≡ byte buf i
unfolding write_at
write_at-outside [] buf off i fits out = refl
write_at-outside (x ∷ xs) buf off i fits out =
    let other : (i == off) ≡ false = elim out [
      | inl before ↦ ground arith
      | inr behind ↦ ground arith
    ] in
    write_at-outside xs (set buf off x) (off + 1) i (omega (arith, length-set buf off x))
      (elim out [ inl before ↦ inl (omega arith) | inr behind ↦ inr (omega arith) ])
    ∙ byte-set buf off i x (omega arith)
    ∙ if_false _ _ other

pub write_at-inside :
    (xs buf : List ℕ) (off k : ℕ)
    → off + length xs ≤ length buf
    → k < length xs
    → byte (write_at buf off xs) (off + k) ≡ byte xs k
unfolding write_at
write_at-inside [] buf off k fits lt = absurd (omega arith)
write_at-inside (x ∷ xs) buf off zero fits lt =
    let here : off + 0 ≡ off = omega arith in
    let same : (off + 0 == off) ≡ true = (==_iff _ _).1 here in
    write_at-outside xs (set buf off x) (off + 1) (off + 0) (omega (arith, length-set buf off x))
      (inl (omega arith))
    ∙ byte-set buf off (off + 0) x (omega arith)
    ∙ if_true _ _ same
write_at-inside (x ∷ xs) buf off (suc k) fits lt =
    let next : off + suc k ≡ off + 1 + k = omega arith in
    ap (byte (write_at (set buf off x) (off + 1) xs)) next
    ∙ write_at-inside xs (set buf off x) (off + 1) k (omega (arith, length-set buf off x))
        (omega arith)

-- Flipping a bit changes one byte.
pub length-flip_bit : (j : ℕ) (buf : List ℕ) → length (flip_bit j buf) ≡ length buf
unfolding flip_bit
length-flip_bit j buf = length-set buf (j / 8) _

pub byte-flip_bit :
    (j : ℕ) (buf : List ℕ) (i : ℕ)
    → j < 8 * length buf
    → byte (flip_bit j buf) i
      ≡ (if i == j / 8 then bit_xor (byte buf (j / 8)) (2 ^ (j % 8)) else byte buf i)
unfolding flip_bit
byte-flip_bit j buf i inside = byte-set buf (j / 8) i _ (omega arith)

pub flip_bit-flip_bit :
    (j : ℕ) (buf : List ℕ) → j < 8 * length buf → flip_bit j (flip_bit j buf) ≡ buf
flip_bit-flip_bit j buf inside =
    byte_ext _ _ (length-flip_bit j (flip_bit j buf) ∙ length-flip_bit j buf) (λ i lt.
      byte-flip_bit j (flip_bit j buf) i (omega (arith, length-flip_bit j buf))
      ∙ elim (Bool-cases (i == j / 8)) [
        | inl here ↦
            let at : i ≡ j / 8 = (==_iff _ _).0 here in
            let refl_eq : (j / 8 == j / 8) ≡ true = (==_iff _ _).1 refl in
            if_true _ _ here
            ∙ ap (λ b. bit_xor b (2 ^ (j % 8)))
                (byte-flip_bit j buf (j / 8) inside ∙ if_true _ _ refl_eq)
            ∙ bit_xor_assoc (byte buf (j / 8)) (2 ^ (j % 8)) (2 ^ (j % 8))
            ∙ ap (bit_xor (byte buf (j / 8))) (bit_xor_self (2 ^ (j % 8)))
            ∙ bit_xor_zero (byte buf (j / 8))
            ∙ sym (ap (byte buf) at)
        | inr other ↦ if_false _ _ other ∙ byte-flip_bit j buf i inside ∙ if_false _ _ other
      ])

-- Bytes stay bytes.
pub All-flip_bit : (j : ℕ) (buf : List ℕ) → All IsByte buf → All IsByte (flip_bit j buf)
unfolding flip_bit
All-flip_bit j buf bytes = All-set buf (j / 8) _ bytes (
    bit_xor-lt 8 (byte buf (j / 8)) (2 ^ (j % 8)) (byte-lt buf (j / 8) bytes)
      (power-lt (j % 8) (omega arith)))
  where
    power-lt : (k : ℕ) → k < 8 → 2 ^ k < 2 ^ 8
    power-lt k lt =
        let next : suc k ≤ 8 = omega arith in
        omega (
          arith,
          pow-suc 2 k,
          one-le-pow k 2 (omega arith),
          pow-le-pow_right {n = 2} (omega arith) next,
        )

All-write_at :
    (xs buf : List ℕ) (off : ℕ) → All IsByte buf → All IsByte xs → All IsByte (write_at buf off xs)
unfolding write_at
All-write_at [] buf off bytes more = bytes
All-write_at (x ∷ xs) buf off bytes more =
    All-write_at xs (set buf off x) (off + 1) (All-set buf off x bytes more.0) more.1

pub All-clear_check : (buf : List ℕ) (off : ℕ) → All IsByte buf → All IsByte (clear_check buf off)
unfolding clear_check
All-clear_check buf off bytes =
    let zero_byte : IsByte 0 = omega arith in
    All-write_at (replicate 8 0) buf off bytes (
      zero_byte,
      (zero_byte, (zero_byte, (zero_byte, (zero_byte, (zero_byte, (zero_byte, (zero_byte, tt))))))),
    )

pub length-clear_check : (buf : List ℕ) (off : ℕ) → length (clear_check buf off) ≡ length buf
unfolding clear_check
length-clear_check buf off = length-write_at (replicate 8 0) buf off

pub length-write_check :
    (buf : List ℕ) (off : ℕ) (check : OcfsBlockCheck)
    → length (write_check buf off check) ≡ length buf
unfolding write_check
length-write_check buf off check =
    length-write_at (le16_bytes check.bc_ecc) _ (off + 4)
    ∙ length-write_at (le32_bytes check.bc_crc32e) buf off

-- The check information is cleared.
pub clear_check-zero :
    (buf : List ℕ) (off k : ℕ)
    → off + 8 ≤ length buf
    → k < 8
    → byte (clear_check buf off) (off + k) ≡ 0
unfolding clear_check
clear_check-zero buf off k fits lt =
    write_at-inside (replicate 8 0) buf off k fits lt ∙ byte-zeros 8 k
  where
    byte-zeros : (n i : ℕ) → byte (replicate n 0) i ≡ 0
    byte-zeros zero i = refl
    byte-zeros (suc n) zero = refl
    byte-zeros (suc n) (suc i) = byte-zeros n i

-- Outside of the check information.
abbrev pub Outside : ℕ → ℕ → Type 0
Outside off i = (i < off) ⊎ (off + 8 ≤ i)

pub clear_check-Outside :
    (buf : List ℕ) (off i : ℕ)
    → off + 8 ≤ length buf
    → Outside off i
    → byte (clear_check buf off) i ≡ byte buf i
unfolding clear_check
clear_check-Outside buf off i fits out = write_at-outside (replicate 8 0) buf off i fits out

pub write_check-Outside :
    (buf : List ℕ) (off i : ℕ) (check : OcfsBlockCheck)
    → off + 8 ≤ length buf
    → Outside off i
    → byte (write_check buf off check) i ≡ byte buf i
unfolding write_check
write_check-Outside buf off i check fits out =
    let first = write_at buf off (le32_bytes check.bc_crc32e) in
    let same : length first ≡ length buf = length-write_at (le32_bytes check.bc_crc32e) buf off in
    write_at-outside (le16_bytes check.bc_ecc) first (off + 4) i (omega arith)
      (elim out [ inl before ↦ inl (omega arith) | inr behind ↦ inr (omega arith) ])
    ∙ write_at-outside (le32_bytes check.bc_crc32e) buf off i (omega arith)
        (elim out [ inl before ↦ inl (omega arith) | inr behind ↦ inr (omega arith) ])

pub where_is : (off i : ℕ) → (Outside off i) ⊎ ((k : ℕ) × (k < 8) × (i ≡ off + k))
where_is off i = elim (Bool-cases (ltb i off)) [
  | inl before ↦ inl (inl (ltb→lt i off before))
  | inr not_before ↦ elim (Bool-cases (ltb i (off + 8))) [
    | inl inside ↦ inr (i - off, ground arith, ground arith)
    | inr behind ↦ inl (inr (ltb_false→le i (off + 8) behind))
  ]
]

-- Two blocks that agree outside of the check information are cleared to the same block.
pub clear_check-same :
    (a b : List ℕ) (off : ℕ)
    → length a ≡ length b
    → off + 8 ≤ length a
    → ((i : ℕ) → Outside off i → byte a i ≡ byte b i)
    → clear_check a off ≡ clear_check b off
clear_check-same a b off e fits h =
    byte_ext _ _ (length-clear_check a off ∙ e ∙ sym (length-clear_check b off)) (λ i lt.
      elim (where_is off i) [
        | inl out ↦
            clear_check-Outside a off i fits out
            ∙ h i out
            ∙ sym (clear_check-Outside b off i (omega arith) out)
        | inr (k, k_lt, at) ↦
            ap (byte (clear_check a off)) at
            ∙ clear_check-zero a off k fits k_lt
            ∙ sym (ap (byte (clear_check b off)) at ∙ clear_check-zero b off k (omega arith) k_lt)
      ])
