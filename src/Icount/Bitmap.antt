-- ===== src/Icount/Bitmap.antt =====
-- A bitmap of one buffer, by the operations of Bitops.
use debian_ocfs2_tools.Base.{
  Option, none, some, if◌then◌else◌, ℕ, zero, suc, ◌*◌, ◌/◌, ◌%◌, ◌^◌, ◌<◌, ◌≤◌, ◌≡◌, ap, List, [],
  ◌∷◌, set, length, length-set, arith, All, Bool-cases, inl, inr, ltb, bit_and, bit_xor,
}
use debian_ocfs2_tools.Base.Bits.{bit_and-digits}
use native.Mathlib.Nat.{pow-suc, pow-le-pow_right}
use Prim.Native.Nat.{bit_and-bitwise}
use debian_ocfs2_tools.Base.Bits.Words.{bit_or-lt, bit_clear, u32_ones}
use debian_ocfs2_tools.Bitops.{byte, set_bit, clear_bit, test_bit_of, find_next_bit_set}
use debian_ocfs2_tools.Icount.{BlockBitmap, IsNextBit}
use debian_ocfs2_tools.Bitops.Find.Next.{find_next_bit_set-IsNext}
use debian_ocfs2_tools.Bitops.Bit.{IsByte, byte-lt, set_bit-bits, clear_bit-bits}

pub set-IsByte : (addr : List ℕ) (i v : ℕ) → All IsByte addr → IsByte v → All IsByte (set addr i v)
set-IsByte [] i v h small = tt
set-IsByte (x ∷ xs) zero v h small = (small, h.1)
set-IsByte (x ∷ xs) (suc i) v h small = (h.0, set-IsByte xs i v h.1 small)

zero_and : (b : ℕ) → bit_and 0 b ≡ 0
zero_and b = simp bit_and-bitwise (omega arith)

bit_and-lt : (k a b : ℕ) → a < 2 ^ k → bit_and a b < 2 ^ k
bit_and-lt zero a b p =
    let none_left : a ≡ 0 = omega arith in rw none_left (omega (arith, zero_and b))
bit_and-lt (suc k) a b p = omega (
  arith,
  pow-suc 2 k,
  bit_and-digits a b,
  bit_and-lt k (a / 2) (b / 2) (omega (arith, pow-suc 2 k)),
)

bit_clear-IsByte : (a m : ℕ) → IsByte a → IsByte (bit_clear a m)
unfolding bit_clear
bit_clear-IsByte a m small = bit_and-lt 8 a (bit_xor m u32_ones) small

mask-IsByte : (k : ℕ) → k < 8 → IsByte (2 ^ k)
mask-IsByte k h =
    let le : 2 ^ k ≤ 2 ^ 7 = pow-le-pow_right {n = 2} (omega arith) {i = k} {j = 7} (omega arith) in
    omega arith

pub set_bit-buffer :
    (nr : ℕ) (addr : List ℕ)
    → All IsByte addr
    → (length (set_bit nr addr).1 ≡ length addr) × All IsByte (set_bit nr addr).1
unfolding set_bit
set_bit-buffer nr addr bytes = (
  length-set addr (nr / 8) _,
  set-IsByte addr (nr / 8) _ bytes (
      bit_or-lt 8 (byte addr (nr / 8)) (2 ^ (nr % 8)) (byte-lt addr (nr / 8) bytes)
        (mask-IsByte (nr % 8) (omega arith))),
)

pub clear_bit-buffer :
    (nr : ℕ) (addr : List ℕ)
    → All IsByte addr
    → (length (clear_bit nr addr).1 ≡ length addr) × All IsByte (clear_bit nr addr).1
unfolding clear_bit
clear_bit-buffer nr addr bytes = (
  length-set addr (nr / 8) _,
  set-IsByte addr (nr / 8) _ bytes
      (bit_clear-IsByte (byte addr (nr / 8)) (2 ^ (nr % 8)) (byte-lt addr (nr / 8) bytes)),
)

-- The buffer, whose elements are bytes.
pub record Buffer : Type 0 where
  pub br_bitmap : List ℕ
  pub bytes : All IsByte br_bitmap

unfoldable pub next_of : List ℕ → ℕ → Option ℕ
next_of addr start =
    let size = 8 * length addr in
    let next = find_next_bit_set addr size start in if ltb next size then some next else none

pub next_of-IsNextBit :
    (addr : List ℕ) (start : ℕ)
    → All IsByte addr
    → IsNextBit (λ j. test_bit_of j addr) (8 * length addr) start (next_of addr start)
unfolding next_of IsNextBit
next_of-IsNextBit addr start bytes =
    let size = 8 * length addr in
    let next = find_next_bit_set-IsNext addr bytes size start in
    elim (Bool-cases (ltb (find_next_bit_set addr size start) size)) [
      | inl inside ↦
          let (ge, is_set) = next.found (ground arith) in
          rw inside (ge, ground arith, is_set, λ i le lt. next.none i le (ground arith) lt)
      | inr outside ↦ rw outside (λ i le lt. next.none i le lt (ground arith))
    ]

unfoldable pub buffer_bitmap : BlockBitmap
unfolding next_of
buffer_bitmap = record {
  State = Buffer;
  b_total_bits = λ b. 8 * length b.br_bitmap;
  set_bit = λ b nr. record {
    br_bitmap = (set_bit nr b.br_bitmap).1;
    bytes = (set_bit-buffer nr b.br_bitmap b.bytes).1;
  };
  clear_bit = λ b nr. record {
    br_bitmap = (clear_bit nr b.br_bitmap).1;
    bytes = (clear_bit-buffer nr b.br_bitmap b.bytes).1;
  };
  test_bit = λ b nr. test_bit_of nr b.br_bitmap;
  find_next_set = λ b start. next_of b.br_bitmap start;
  b_total_bits-set_bit = λ b nr. ap (λ n. 8 * n) (set_bit-buffer nr b.br_bitmap b.bytes).0;
  b_total_bits-clear_bit = λ b nr. ap (λ n. 8 * n) (clear_bit-buffer nr b.br_bitmap b.bytes).0;
  test_bit-set_bit = λ b nr j inside. (set_bit-bits nr b.br_bitmap inside).1 j;
  test_bit-clear_bit = λ b nr j inside. (clear_bit-bits nr b.br_bitmap b.bytes inside).1 j;
  find_next_set-IsNextBit = λ b start _. next_of-IsNextBit b.br_bitmap start b.bytes;
}
