-- ===== src/Bitops/Examples.antt =====
-- Bits of a small buffer.
use debian_ocfs2_tools.Base.{ℕ, ◌≡◌, refl, ◌==◌, ◌&&◌, ◌||◌, not, List, [], ◌∷◌, arith, All}
use debian_ocfs2_tools.Base.Bits.Words.{bit_clear}
use debian_ocfs2_tools.Bitops.{
  set_bit, clear_bit, test_bit_of, ffs, ffs_from, skip_bytes, last_mask, found_in, scan_set,
  scan_clear, find_next_bit_set, find_next_bit_clear,
}
use debian_ocfs2_tools.Bitops.Bit.{IsByte, set_bit-bits, clear_bit-bits}
use debian_ocfs2_tools.Bitops.Find.{IsNext}
use debian_ocfs2_tools.Bitops.Find.Whole.{is_set, is_clear}
use debian_ocfs2_tools.Bitops.Find.Next.{find_next_bit_set-IsNext, find_next_bit_clear-IsNext}

abbrev buffer : List ℕ
buffer = 0 ∷ 0x90 ∷ 255 ∷ []

buffer-bytes : All IsByte buffer
buffer-bytes = (omega arith, (omega arith, (omega arith, tt)))

set_bit-bits_example :
    ((set_bit 9 buffer).0 ≡ test_bit_of 9 buffer)
    × ((j : ℕ) → test_bit_of j (set_bit 9 buffer).1 ≡ (j == 9) || test_bit_of j buffer)
set_bit-bits_example = set_bit-bits 9 buffer (omega arith)

clear_bit-bits_example :
    ((clear_bit 12 buffer).0 ≡ test_bit_of 12 buffer)
    × ((j : ℕ) → test_bit_of j (clear_bit 12 buffer).1 ≡ not (j == 12) && test_bit_of j buffer)
clear_bit-bits_example = clear_bit-bits 12 buffer buffer-bytes (omega arith)

find_next_bit_set-IsNext_example : IsNext (is_set buffer) 24 3 (find_next_bit_set buffer 24 3)
find_next_bit_set-IsNext_example = find_next_bit_set-IsNext buffer buffer-bytes 24 3

find_next_bit_clear-IsNext_example :
    IsNext (is_clear buffer) 24 12 (find_next_bit_clear buffer 24 12)
find_next_bit_clear-IsNext_example = find_next_bit_clear-IsNext buffer buffer-bytes 24 12

find_set : find_next_bit_set buffer 24 3 ≡ 12
unfolding find_next_bit_set scan_set skip_bytes last_mask found_in ffs ffs_from bit_clear
find_set = refl

find_clear : find_next_bit_clear buffer 24 15 ≡ 24
unfolding find_next_bit_clear scan_clear skip_bytes last_mask found_in ffs ffs_from bit_clear
find_clear = refl

-- In the byte where it starts the search does not look at the size.
find_behind_size : find_next_bit_set buffer 10 9 ≡ 12
unfolding find_next_bit_set scan_set skip_bytes last_mask found_in ffs ffs_from bit_clear
find_behind_size = refl
