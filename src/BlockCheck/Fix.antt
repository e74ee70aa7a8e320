-- ===== src/BlockCheck/Fix.antt =====
-- ocfs2_hamming_fix flips the data bit that stands at a place of the code.
use debian_ocfs2_tools.Base.{
  ℕ, zero, suc, ◌+◌, ◌-◌, ◌/◌, ◌%◌, ◌^◌, ◌<◌, ◌≤◌, ◌≡◌, ◌∙◌, sym, ap, ◌==◌, ltb, leb, ltb→lt,
  ltb_false→le, lt→ltb, le→leb, lt→leb_false, le→ltb_false, leb_false→lt, Bool, leb→le, ==_iff,
  if_true, if_false, true, false, ◌&&◌, arith, Bool-cases, inl, inr, List, set, All, bit_xor,
  bit_or, if◌then◌else◌, some,
}
use native.Mathlib.Nat.{pow-le-pow_right}
use debian_ocfs2_tools.Base.Bits.{test_bit, test_bit-bit_xor, test_bit-bit_or}
use debian_ocfs2_tools.Base.Bits.Words.{bits_ext, bit_clear, test_bit-bit_clear, test_bit-power}
use debian_ocfs2_tools.Bitops.{byte, set_bit, clear_bit, test_bit_of}
use debian_ocfs2_tools.Bitops.Bit.{IsByte, byte-lt, test_bit_of-bit}
use debian_ocfs2_tools.BlockCheck.{hc_hweight32, skip_parity, fix_from, hamming_fix}
use debian_ocfs2_tools.BlockCheck.Weight.{hc_hweight32-between, hc_hweight32-power}
use debian_ocfs2_tools.BlockCheck.Code.{
  IsCode, IsCode-next, IsCode-lt, IsCode-place, place_of, place_of-IsCode, place_of-lt,
  place_of_mono, place_of-le,
}

-- The buffer with one bit changed.
unfoldable pub flip_bit : ℕ → List ℕ → List ℕ
flip_bit j buf = set buf (j / 8) (bit_xor (byte buf (j / 8)) (2 ^ (j % 8)))

set_flips : (x k : ℕ) → test_bit k x ≡ false → bit_or x (2 ^ k) ≡ bit_xor x (2 ^ k)
set_flips x k clear = bits_ext _ _ (λ i.
    test_bit-bit_or i x (2 ^ k)
    ∙ elim (Bool-cases (i == k)) [
      | inl same ↦
          let here : i ≡ k = ground arith in
          ground (arith, ap (λ j. test_bit j x) here, test_bit-power k i)
      | inr other ↦ ground (arith, test_bit-power k i)
    ]
    ∙ sym (test_bit-bit_xor i x (2 ^ k)))

clear_flips : (x k : ℕ) → x < 2 ^ 32 → test_bit k x ≡ true → bit_clear x (2 ^ k) ≡ bit_xor x (2 ^ k)
clear_flips x k small set = bits_ext _ _ (λ i.
    test_bit-bit_clear i x (2 ^ k) small
    ∙ elim (Bool-cases (i == k)) [
      | inl same ↦
          let here : i ≡ k = ground arith in
          ground (arith, ap (λ j. test_bit j x) here, test_bit-power k i)
      | inr other ↦ ground (arith, test_bit-power k i)
    ]
    ∙ sym (test_bit-bit_xor i x (2 ^ k)))

-- What the loop does to the bit that it finds.
toggle-flip_bit :
    (j : ℕ) (buf : List ℕ)
    → All IsByte buf
    → (if test_bit_of j buf then (clear_bit j buf).1 else (set_bit j buf).1) ≡ flip_bit j buf
unfolding clear_bit set_bit flip_bit
toggle-flip_bit j buf bytes = elim (Bool-cases (test_bit_of j buf)) [
  | inl on ↦
      if_true _ _ on
      ∙ ap (set buf (j / 8)) (
          clear_flips (byte buf (j / 8)) (j % 8) (omega (arith, byte-lt buf (j / 8) bytes))
            (sym (test_bit_of-bit j buf) ∙ on))
  | inr off ↦
      if_false _ _ off
      ∙ ap (set buf (j / 8))
          (set_flips (byte buf (j / 8)) (j % 8) (sym (test_bit_of-bit j buf) ∙ off))
]

exponent-lt : (p n : ℕ) → 2 ^ p < 2 ^ n → p < n
exponent-lt p n lt = elim (Bool-cases (ltb p n)) [
  | inl less ↦ ltb→lt p n less
  | inr more ↦
      absurd (omega (arith, pow-le-pow_right {n = 2} (omega arith) (ltb_false→le p n more)))
]

-- A place of the code is no parity bit.
place-hc_hweight32 : (i p b : ℕ) → IsCode i p b → b < 2 ^ 32 → (hc_hweight32 b == 1) ≡ false
place-hc_hweight32 i p b code small =
    let next : suc (p - 1) ≡ p = omega (arith, code.some_parity) in
    hc_hweight32-between b (p - 1) code.above (omega (arith, ap (λ k. 2 ^ k) next, code.below))
      small

-- The `while` loop goes from one place to the next.
skip_parity-place :
    (i p b q c : ℕ) → IsCode i p b → IsCode (i + 1) q c → c < 2 ^ 32 → skip_parity 1 (b + 1) ≡ c
unfolding skip_parity
skip_parity-place i p b q c code later small = elim (IsCode-next i p b code) [
  | inl next ↦
      let same = IsCode-place (i + 1) p q (b + 1) c next later in
      if_false _ _ (place-hc_hweight32 (i + 1) p (b + 1) next (omega (arith, same))) ∙ same
  | inr (parity, next) ↦
      let same = IsCode-place (i + 1) (p + 1) q (b + 2) c next later in
      let power : (hc_hweight32 (b + 1) == 1) ≡ true =
        ap (λ x. hc_hweight32 x == 1) parity
        ∙ hc_hweight32-power p (exponent-lt p 32 (omega (arith, parity, same))) in
      if_true _ _ power ∙ omega (arith, same)
]

module _ (buf : List ℕ) (bytes : All IsByte buf) (nr : ℕ) where
  fix_from-hit :
      (left i j b : ℕ)
      → i ≤ j
      → j < i + left
      → nr + j < 2 ^ 31
      → skip_parity 1 b ≡ place_of (nr + i)
      → fix_from left buf i b (place_of (nr + j)) ≡ flip_bit j buf
  unfolding fix_from
  fix_from-hit zero i j b le enough small at = absurd (omega arith)
  fix_from-hit (suc left) i j b le enough small at = elim (Bool-cases (i == j)) [
    | inl same ↦
        let here : i ≡ j = (==_iff i j).0 same in
        let found : (skip_parity 1 b == place_of (nr + j)) ≡ true =
          (==_iff _ _).1 (at ∙ ap (λ k. place_of (nr + k)) here) in
        if_true _ _ found ∙ toggle-flip_bit i buf bytes ∙ ap (λ k. flip_bit k buf) here
    | inr before ↦
        let lt : i < j = ground arith in
        let code = place_of-IsCode (nr + i) (omega arith) in
        let target = place_of-IsCode (nr + j) small in
        let less = IsCode-lt (nr + i) (nr + j) _ _ _ _ code target (omega arith) in
        let other : (skip_parity 1 b == place_of (nr + j)) ≡ false =
          not_equal _ _ (omega (arith, at, less)) in
        let on : nr + i + 1 ≡ nr + (i + 1) = omega arith in
        let next : skip_parity 1 (skip_parity 1 b + 1) ≡ place_of (nr + (i + 1)) =
          ap (λ x. skip_parity 1 (x + 1)) at
          ∙ skip_parity-place (nr + i) _ _ _ _ code (place_of-IsCode (nr + i + 1) (omega arith))
              (place_of-lt (nr + i + 1) (omega arith))
          ∙ ap place_of on in
        if_false _ _ other
        ∙ fix_from-hit left (i + 1) j (skip_parity 1 b + 1) (omega arith) (omega arith) small next
  ]
    where
      not_equal : (x y : ℕ) → x < y → (x == y) ≡ false
      not_equal x y h = ground arith

  -- Called with the place of a data bit in the code, ocfs2_hamming_fix flips that bit if it lies in the
  -- hunk, and changes nothing if it lies before or behind it.
  pub hamming_fix-place :
      (d t : ℕ)
      → 0 < d
      → nr + d < 2 ^ 31
      → t < 2 ^ 31
      → hamming_fix buf d nr (place_of t)
        ≡ some (if leb nr t && ltb t (nr + d) then flip_bit (t - nr) buf else buf)
  unfolding hamming_fix place_of
  hamming_fix-place d t pos small small_t =
      let some_bits : (d == 0) ≡ false = ground arith in
      let data_bit : (hc_hweight32 (place_of t) == 1) ≡ false =
        place-hc_hweight32 t _ _ (place_of-IsCode t small_t) (place_of-lt t small_t) in
      if_false _ _ some_bits
      ∙ ap some (
          if_false _ _ data_bit ∙ elim (Bool-cases (ltb t (nr + d))) [
            | inr behind ↦
                let le = place_of-le (nr + d) t (ltb_false→le t (nr + d) behind) small_t in
                if_true _ _ (le→leb _ _ le) ∙ sym (if_false _ _ (off (leb nr t) _ behind))
            | inl below ↦
                let lt = place_of_mono t (nr + d) (ltb→lt t (nr + d) below) small in
                if_false _ _ (lt→leb_false _ _ lt) ∙ elim (Bool-cases (leb nr t)) [
                  | inl inside ↦
                      let le = place_of-le nr t (leb→le nr t inside) small_t in
                      let at : nr + (t - nr) ≡ t = omega (arith, leb→le nr t inside) in
                      if_false _ _ (le→ltb_false _ _ le)
                      ∙ sym (ap (λ k. fix_from d buf 0 (place_of nr) (place_of k)) at)
                      ∙ fix_from-hit d 0 (t - nr) (place_of nr) (omega arith)
                          (omega (arith, leb→le nr t inside, ltb→lt t (nr + d) below))
                          (omega (arith, at)) (start nr (omega arith))
                      ∙ sym (if_true _ _ (on _ _ inside below))
                  | inr before ↦
                      let earlier = place_of_mono t nr (leb_false→lt nr t before) (omega arith) in
                      if_true _ _ (lt→ltb _ _ earlier) ∙ sym (if_false _ _ (off_left _ _ before))
                ]
          ])
    where
      off : (a b : Bool) → b ≡ false → a && b ≡ false
      off a b h = ground arith

      off_left : (a b : Bool) → a ≡ false → a && b ≡ false
      off_left a b h = ground arith

      on : (a b : Bool) → a ≡ true → b ≡ true → a && b ≡ true
      on a b h k = ground arith

      start : (n : ℕ) → n < 2 ^ 31 → skip_parity 1 (place_of n) ≡ place_of (n + 0)
      start n lt =
          let first : n ≡ n + 0 = omega arith in
          unfold skip_parity in
          if_false _ _ (place-hc_hweight32 n _ _ (place_of-IsCode n lt) (place_of-lt n lt))
          ∙ ap place_of first
