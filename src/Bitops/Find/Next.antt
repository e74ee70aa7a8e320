-- ===== src/Bitops/Find/Next.antt =====
-- The searches from any position on.
use debian_ocfs2_tools.Base.{
  ℕ, ◌+◌, ◌-◌, ◌*◌, ◌/◌, ◌%◌, ◌^◌, ◌<◌, ◌≤◌, ◌≡◌, ◌∙◌, ap, Bool, true, false, ◌==◌, ◌&&◌, not, List,
  ltb, arith, if◌then◌else◌, Bool-cases, inl, inr, bit_and, bit_xor, All,
}
use debian_ocfs2_tools.Base.Bits.{test_bit, test_bit-bit_and, test_bit-bit_xor}
use debian_ocfs2_tools.Base.Bits.Words.{
  test_bit-ones, test_bit-high, bit_clear, test_bit-bit_clear, u32_ones,
}
use debian_ocfs2_tools.Bitops.{
  byte, ffs, scan_set, scan_clear, find_next_bit_set, find_next_bit_clear,
}
use debian_ocfs2_tools.Bitops.Bit.{IsByte, byte-lt}
use debian_ocfs2_tools.Bitops.Ffs.{ffs-IsLowest}
use debian_ocfs2_tools.Bitops.Find.{IsNext, IsNext-later, lt_or_le}
use debian_ocfs2_tools.Bitops.Find.Whole.{
  bit_at, is_set, is_clear, scan_set-IsNext, scan_clear-IsNext,
}

-- The rest of the byte in which a search starts: `bits` has the wanted positions of the byte, from
-- `offset` on.
part-IsNext :
    (wanted : ℕ → Bool) (size offset bits rest : ℕ)
    → ((i : ℕ)
        → i < 32
        → test_bit i bits ≡ ltb i 8 && not (ltb i (offset % 8)) && wanted (offset / 8 * 8 + i))
    → IsNext wanted size (offset / 8 * 8 + 8) rest
    → IsNext wanted size offset
        (if not (ffs bits == 0) then offset / 8 * 8 + ffs bits - 1 else rest)
part-IsNext wanted size offset bits rest says next = elim (ffs-IsLowest bits) [
  | inl (e, nothing) ↦
      let t : not (ffs bits == 0) ≡ false = ground arith in
      rw t (
        IsNext-later wanted size offset (offset / 8 * 8 + 8) rest (omega arith)
          (λ i ge lt _.
            let d = i - offset / 8 * 8 in
            let here : i ≡ offset / 8 * 8 + d = omega arith in
            let inside : ltb d 8 ≡ true = ground arith in
            let behind : ltb d (offset % 8) ≡ false = ground arith in
            let small : d < 32 = omega arith in
            ap wanted here ∙ cc (says d small, nothing d small, inside, behind))
          next)
  | inr (d, e, lowest) ↦
      let t : not (ffs bits == 0) ≡ true = ground arith in
      let at : offset / 8 * 8 + ffs bits - 1 ≡ offset / 8 * 8 + d = omega arith in
      let bit = says d lowest.inside in
      let here = lowest.here in
      let parts : (d < 8) × (offset % 8 ≤ d) × (wanted (offset / 8 * 8 + d) ≡ true) =
        ground arith in
      rw (t, at)
        (record {
          found = λ lt. (omega arith, parts.2);
          none = λ i ge lt below.
              let x = i - offset / 8 * 8 in
              let here : i ≡ offset / 8 * 8 + x = omega arith in
              let inside : ltb x 8 ≡ true = ground arith in
              let behind : ltb x (offset % 8) ≡ false = ground arith in
              let small : x < 32 = omega arith in
              let less : x < d = omega arith in
              ap wanted here ∙ cc (says x small, lowest.below x less, inside, behind);
        })
]

-- The three ways through a search: no size, a start within a byte, a start at a whole byte.
search-IsNext :
    (wanted : ℕ → Bool) (size offset bits : ℕ) (scan : ℕ → ℕ)
    → ((i : ℕ)
        → i < 32
        → test_bit i bits ≡ ltb i 8 && not (ltb i (offset % 8)) && wanted (offset / 8 * 8 + i))
    → ((from : ℕ) → from % 8 ≡ 0 → IsNext wanted size from (scan from))
    → IsNext wanted size offset (
        if size == 0
        then 0
        else if not (offset % 8 == 0)
        then (if not (ffs bits == 0)
            then offset / 8 * 8 + ffs bits - 1
            else scan (offset / 8 * 8 + 8))
        else scan (offset / 8 * 8))
search-IsNext wanted size offset bits scan says scans = elim (Bool-cases (size == 0)) [
  | inl none ↦
      let z : size ≡ 0 = ground arith in
      rw none (record {
        found = λ lt. absurd (omega arith);
        none = λ i ge lt below. absurd (omega arith);
      })
  | inr some ↦ elim (Bool-cases (offset % 8 == 0)) [
    | inl whole ↦
        let z : offset % 8 ≡ 0 = ground arith in
        let same : offset / 8 * 8 ≡ offset = omega arith in rw (some, whole, same) (scans offset z)
    | inr part ↦
        rw (some, part)
          (part-IsNext wanted size offset bits (scan (offset / 8 * 8 + 8)) says
            (scans (offset / 8 * 8 + 8) (omega arith)))
  ]
]

module _ (addr : List ℕ) (bytes : All IsByte addr) where
  -- The bits of the byte in which the search starts.
  set_part :
      (offset i : ℕ)
      → i < 32
      → test_bit i (bit_clear (byte addr (offset / 8)) (2 ^ (offset % 8) - 1))
        ≡ ltb i 8 && not (ltb i (offset % 8)) && is_set addr (offset / 8 * 8 + i)
  set_part offset i lt =
      let x = byte addr (offset / 8) in
      let small : x < 256 = byte-lt addr (offset / 8) bytes in
      let bits = test_bit-bit_clear i x (2 ^ (offset % 8) - 1) (omega arith) in
      let low = test_bit-ones (offset % 8) i in
      let back : offset / 8 * 8 / 8 ≡ offset / 8 = omega arith in
      elim (lt_or_le i 8) [
        | inl inside ↦
            let here : is_set addr (offset / 8 * 8 + i) ≡ test_bit i x =
              bit_at addr (offset / 8 * 8) i (omega arith) inside
              ∙ ap (λ n. test_bit i (byte addr n)) back in
            ground (arith, bits, low, here)
        | inr outside ↦ ground (arith, bits, low, test_bit-high 8 i x small outside)
      ]

  clear_part :
      (offset i : ℕ)
      → i < 32
      → test_bit i (
          bit_and
            (bit_clear (bit_xor (byte addr (offset / 8)) u32_ones) (2 ^ (offset % 8) - 1))
            255)
        ≡ ltb i 8 && not (ltb i (offset % 8)) && is_clear addr (offset / 8 * 8 + i)
  unfolding bit_clear
  clear_part offset i lt =
      let x = byte addr (offset / 8) in
      let y = bit_xor x u32_ones in
      let m = 2 ^ (offset % 8) - 1 in
      let back : offset / 8 * 8 / 8 ≡ offset / 8 = omega arith in
      let here : i < 8 → is_clear addr (offset / 8 * 8 + i) ≡ not (test_bit i x) = λ inside.
        ap not (
          bit_at addr (offset / 8 * 8) i (omega arith) inside
          ∙ ap (λ n. test_bit i (byte addr n)) back) in
      ground (
        arith,
        test_bit-bit_and i (bit_and y (bit_xor m u32_ones)) 255,
        test_bit-bit_and i y (bit_xor m u32_ones),
        test_bit-bit_xor i x u32_ones,
        test_bit-bit_xor i m u32_ones,
        test_bit-ones 8 i,
        test_bit-ones 32 i,
        test_bit-ones (offset % 8) i,
        here,
      )

  -- `ocfs2_find_next_bit_set` finds the first bit that is set at or behind an offset, in a buffer of
  -- bytes: a result below the size is such a bit, and none lies before it; any other result means
  -- that no bit is set from the offset up to the size.
  pub find_next_bit_set-IsNext :
      (size offset : ℕ) → IsNext (is_set addr) size offset (find_next_bit_set addr size offset)
  unfolding find_next_bit_set
  find_next_bit_set-IsNext size offset =
      search-IsNext (is_set addr) size offset
        (bit_clear (byte addr (offset / 8)) (2 ^ (offset % 8) - 1)) (scan_set addr size)
        (set_part offset) (scan_set-IsNext addr bytes size)

  -- `ocfs2_find_next_bit_clear` finds the first bit that is clear at or behind an offset, in a buffer
  -- of bytes: a result below the size is such a bit, and none lies before it; any other result means
  -- that no bit is clear from the offset up to the size.
  pub find_next_bit_clear-IsNext :
      (size offset : ℕ) → IsNext (is_clear addr) size offset (find_next_bit_clear addr size offset)
  unfolding find_next_bit_clear
  find_next_bit_clear-IsNext size offset =
      search-IsNext (is_clear addr) size offset
        (bit_and (bit_clear (bit_xor (byte addr (offset / 8)) u32_ones) (2 ^ (offset % 8) - 1)) 255)
        (scan_clear addr size) (clear_part offset) (scan_clear-IsNext addr bytes size)
