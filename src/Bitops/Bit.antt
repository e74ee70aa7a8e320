-- ===== src/Bitops/Bit.antt =====
-- Setting and clearing one bit.
use debian_ocfs2_tools.Base.{
  ℕ, zero, suc, ◌*◌, ◌/◌, ◌%◌, ◌^◌, ◌<◌, ◌≡◌, refl, ◌==◌, ◌&&◌, ◌||◌, not, List, [], ◌∷◌, set,
  length, arith, All, if◌then◌else◌, bit_or,
}
use debian_ocfs2_tools.Base.Bits.{test_bit, test_bit-bit_or}
use debian_ocfs2_tools.Base.Bits.Words.{meets-power, bit_clear, test_bit-bit_clear, test_bit-power}
use debian_ocfs2_tools.Bitops.{byte, set_bit, clear_bit, test_bit_of}

abbrev pub IsByte : ℕ → Type 0
IsByte x = x < 256

pub byte-lt : (addr : List ℕ) (i : ℕ) → All IsByte addr → byte addr i < 256
byte-lt [] i h = omega arith
byte-lt (x ∷ xs) zero h = h.0
byte-lt (x ∷ xs) (suc i) h = byte-lt xs i h.1

pub byte-set :
    (addr : List ℕ) (i j v : ℕ)
    → i < length addr
    → byte (set addr i v) j ≡ (if j == i then v else byte addr j)
byte-set [] i j v h = absurd (omega arith)
byte-set (x ∷ xs) zero zero v h = refl
byte-set (x ∷ xs) zero (suc j) v h = ground arith
byte-set (x ∷ xs) (suc i) zero v h = ground arith
byte-set (x ∷ xs) (suc i) (suc j) v h = ground (arith, byte-set xs i j v (omega arith))

-- `ocfs2_test_bit` reads the bit.
pub test_bit_of-bit :
    (nr : ℕ) (addr : List ℕ) → test_bit_of nr addr ≡ test_bit (nr % 8) (byte addr (nr / 8))
unfolding test_bit_of
test_bit_of-bit nr addr = meets-power (byte addr (nr / 8)) (nr % 8)

-- Setting a bit of the buffer returns what it was, sets it, and leaves all other bits.
pub set_bit-bits :
    (nr : ℕ) (addr : List ℕ)
    → nr < 8 * length addr
    → ((set_bit nr addr).0 ≡ test_bit_of nr addr)
      × ((j : ℕ) → test_bit_of j (set_bit nr addr).1 ≡ (j == nr) || test_bit_of j addr)
unfolding set_bit test_bit_of
set_bit-bits nr addr inside = (
  refl,
  λ j.
      let at =
        byte-set addr (nr / 8) (j / 8) (bit_or (byte addr (nr / 8)) (2 ^ (nr % 8))) (omega arith) in
      ground (
        arith,
        at,
        meets-power (byte addr (j / 8)) (j % 8),
        meets-power (bit_or (byte addr (nr / 8)) (2 ^ (nr % 8))) (j % 8),
        test_bit-bit_or (j % 8) (byte addr (nr / 8)) (2 ^ (nr % 8)),
        test_bit-power (nr % 8) (j % 8),
      ),
)

-- Clearing a bit of the buffer returns what it was, clears it, and leaves all other bits.
pub clear_bit-bits :
    (nr : ℕ) (addr : List ℕ)
    → All IsByte addr
    → nr < 8 * length addr
    → ((clear_bit nr addr).0 ≡ test_bit_of nr addr)
      × ((j : ℕ) → test_bit_of j (clear_bit nr addr).1 ≡ not (j == nr) && test_bit_of j addr)
unfolding clear_bit test_bit_of
clear_bit-bits nr addr bytes inside = (
  refl,
  λ j.
      let at =
        byte-set addr (nr / 8) (j / 8) (bit_clear (byte addr (nr / 8)) (2 ^ (nr % 8)))
          (omega arith) in
      let small = byte-lt addr (nr / 8) bytes in
      ground (
        arith,
        at,
        meets-power (byte addr (j / 8)) (j % 8),
        meets-power (bit_clear (byte addr (nr / 8)) (2 ^ (nr % 8))) (j % 8),
        test_bit-bit_clear (j % 8) (byte addr (nr / 8)) (2 ^ (nr % 8)) (omega arith),
        test_bit-power (nr % 8) (j % 8),
      ),
)
