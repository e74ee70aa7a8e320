-- ===== src/Bitops.antt =====
-- Bits in a buffer, libocfs2/bitops.c. A buffer is a list of bytes, and reads as zero behind its end;
-- offsets and sizes are not negative.
pub mod Bit
pub mod Ffs
pub mod Find
mod Examples
use debian_ocfs2_tools.Base.{
  ℕ, zero, suc, ◌+◌, ◌-◌, ◌*◌, ◌/◌, ◌%◌, ◌^◌, Bool, true, false, ◌==◌, ◌&&◌, not, ltb, leb, List,
  get_or, set, bit_and, bit_or, bit_xor, if◌then◌else◌,
}
use debian_ocfs2_tools.Base.Bits.Words.{meets, bit_clear, u32_ones}

abbrev pub byte : List ℕ → ℕ → ℕ
byte addr i = get_or addr i 0

-- `ocfs2_set_bit`: whether the bit was set, and the buffer then
unfoldable pub set_bit : ℕ → List ℕ → Bool × List ℕ
unfolding meets
set_bit nr addr =
    let old = byte addr (nr / 8) in
    let mask = 2 ^ (nr % 8) in (meets old mask, set addr (nr / 8) (bit_or old mask))

-- `ocfs2_clear_bit`
unfoldable pub clear_bit : ℕ → List ℕ → Bool × List ℕ
unfolding meets bit_clear
clear_bit nr addr =
    let old = byte addr (nr / 8) in
    let mask = 2 ^ (nr % 8) in (meets old mask, set addr (nr / 8) (bit_clear old mask))

-- `ocfs2_test_bit`
unfoldable pub test_bit_of : ℕ → List ℕ → Bool
unfolding meets
test_bit_of nr addr = meets (byte addr (nr / 8)) (2 ^ (nr % 8))

-- `ffs` of the C library: one more than the lowest bit of an `int` that is set, or 0.
unfoldable pub ffs_from : ℕ → ℕ → ℕ → ℕ
ffs_from zero k n = 0
ffs_from (suc fuel) k n = if n % 2 == 1 then k + 1 else ffs_from fuel (k + 1) (n / 2)

unfoldable pub ffs : ℕ → ℕ
unfolding ffs_from
ffs n = ffs_from 32 0 n

-- The `while` loop of both searches: it passes over the bytes that are `plain`, 0 or 255. Each round
-- goes 8 bits on, so `size` rounds are enough.
unfoldable pub skip_bytes : ℕ → List ℕ → ℕ → ℕ → ℕ → ℕ
skip_bytes plain addr size zero res = res
skip_bytes plain addr size (suc fuel) res =
    let rest = skip_bytes plain addr size fuel (res + 8) in
    if ltb res size && byte addr (res / 8) == plain then rest else res

-- The mask for the last byte.
unfoldable pub last_mask : ℕ → ℕ → ℕ
last_mask size res = if ltb size (res + 8) then 255 / 2 ^ (8 - (size - res)) else 255

-- The code behind the loop, for the bits of the byte that are searched.
unfoldable pub found_in : ℕ → ℕ → ℕ → ℕ
unfolding ffs
found_in size res bits = if ffs bits == 0 then size else res + ffs bits - 1

-- The search from a whole byte on.
unfoldable pub scan_set : List ℕ → ℕ → ℕ → ℕ
unfolding skip_bytes last_mask found_in
scan_set addr size from =
    let res = skip_bytes 0 addr size size from in
    if leb size res
    then size
    else found_in size res (bit_and (byte addr (res / 8)) (last_mask size res))

unfoldable pub scan_clear : List ℕ → ℕ → ℕ → ℕ
unfolding skip_bytes last_mask found_in
scan_clear addr size from =
    let res = skip_bytes 255 addr size size from in
    if leb size res
    then size
    else found_in size res (bit_xor (bit_and (byte addr (res / 8)) (last_mask size res)) u32_ones)

-- `ocfs2_find_next_bit_set`
unfoldable pub find_next_bit_set : List ℕ → ℕ → ℕ → ℕ
unfolding ffs bit_clear scan_set
find_next_bit_set addr size offset =
    let bit = offset % 8 in
    let res = offset / 8 * 8 in
    let here = ffs (bit_clear (byte addr (offset / 8)) (2 ^ bit - 1)) in
    if size == 0
    then 0
    else if not (bit == 0)
    then (if not (here == 0) then res + here - 1 else scan_set addr size (res + 8))
    else scan_set addr size res

-- `ocfs2_find_next_bit_clear`
unfoldable pub find_next_bit_clear : List ℕ → ℕ → ℕ → ℕ
unfolding ffs bit_clear scan_clear
find_next_bit_clear addr size offset =
    let bit = offset % 8 in
    let res = offset / 8 * 8 in
    let complement = bit_xor (byte addr (offset / 8)) u32_ones in
    let here = ffs (bit_and (bit_clear complement (2 ^ bit - 1)) 255) in
    if size == 0
    then 0
    else if not (bit == 0)
    then (if not (here == 0) then res + here - 1 else scan_clear addr size (res + 8))
    else scan_clear addr size res

-- `ocfs2_find_first_bit_set` and `ocfs2_find_first_bit_clear`
unfoldable pub find_first_bit_set : List ℕ → ℕ → ℕ
unfolding find_next_bit_set
find_first_bit_set addr size = find_next_bit_set addr size 0

unfoldable pub find_first_bit_clear : List ℕ → ℕ → ℕ
unfolding find_next_bit_clear
find_first_bit_clear addr size = find_next_bit_clear addr size 0
