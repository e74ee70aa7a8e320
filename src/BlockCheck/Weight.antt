-- ===== src/BlockCheck/Weight.antt =====
-- hc_hweight32 counts the bits that are set.
use debian_ocfs2_tools.Base.{
  ℕ, zero, suc, ◌+◌, ◌-◌, ◌*◌, ◌/◌, ◌%◌, ◌^◌, ◌<◌, ◌≤◌, ◌≡◌, ◌∙◌, refl, sym, ap, ap₂, ◌==◌, bit_and,
  arith, Bool-cases, inl, inr, true, false, leb, leb→le, ==_iff,
}
use native.Mathlib.Nat.{
  one-le-pow, mod-lt, mod-eq_of_lt, div-eq_of_lt, add-mul-mod_self_left, add-mul-div_left,
  mul_assoc, mul-add, mul-le-mul_left, pow-le-pow_right, pow-suc,
}
use debian_ocfs2_tools.Base.Bits.Xor.{bit_and-mask, bit_and-skip, bit_and-ones, power-add}
use debian_ocfs2_tools.BlockCheck.{hc_hweight32}

-- The sum of the lowest `n` fields of `k` bits.
unfoldable pub fields : ℕ → ℕ → ℕ → ℕ
fields k zero w = 0
fields k (suc n) w = w % 2 ^ k + fields k n (w / 2 ^ k)

-- How many of the lowest `n` bits are set.
abbrev pub weight : ℕ → ℕ → ℕ
weight n w = fields 1 n w

-- The mask with every other field of `k` bits.
unfoldable every_other : ℕ → ℕ → ℕ
every_other k zero = 0
every_other k (suc n) = 2 ^ k - 1 + 2 ^ k * (2 ^ k * every_other k n)

every_other-parts :
    (k n w : ℕ)
    → bit_and w (every_other k (suc n))
      ≡ w % 2 ^ k + 2 ^ (k + k) * bit_and (w / 2 ^ k / 2 ^ k) (every_other k n)
unfolding every_other
every_other-parts k n w =
    let m = every_other k n in
    bit_and-mask k w (2 ^ k * m)
    ∙ ap (λ x. w % 2 ^ k + 2 ^ k * x) (bit_and-skip k (w / 2 ^ k) m)
    ∙ ap (λ x. w % 2 ^ k + x)
        (sym (mul_assoc (2 ^ k) (2 ^ k) (bit_and (w / 2 ^ k / 2 ^ k) m))
          ∙ ap (λ d. d * bit_and (w / 2 ^ k / 2 ^ k) m) (sym (power-add k k)))

-- One stage of the count adds the fields in pairs.
add_fields :
    (k n w : ℕ)
    → 1 ≤ k
    → fields (k + k) n (bit_and w (every_other k n) + bit_and (w / 2 ^ k) (every_other k n))
      ≡ fields k (n + n) w
unfolding fields
add_fields k zero w h = refl
add_fields k (suc n) w h =
    let low = w % 2 ^ k + w / 2 ^ k % 2 ^ k in
    let w2 = w / 2 ^ k / 2 ^ k in
    let m = every_other k n in
    let high = bit_and w2 m + bit_and (w2 / 2 ^ k) m in
    let sum : bit_and w (every_other k (suc n)) + bit_and (w / 2 ^ k) (every_other k (suc n))
        ≡ low + 2 ^ (k + k) * high =
      omega (
        arith,
        every_other-parts k n w,
        every_other-parts k n (w / 2 ^ k),
        mul-add (2 ^ (k + k)) (bit_and w2 m) (bit_and (w2 / 2 ^ k) m),
      ) in
    let small : low < 2 ^ (k + k) = omega (
      arith,
      mod-lt w {m = 2 ^ k} (one-le-pow k 2 (omega arith)),
      mod-lt (w / 2 ^ k) {m = 2 ^ k} (one-le-pow k 2 (omega arith)),
      power-add k k,
      mul-le-mul_left (2 ^ k) (pow-le-pow_right {n = 2} (omega arith) h),
    ) in
    let pos : 0 < 2 ^ (k + k) = one-le-pow (k + k) 2 (omega arith) in
    let twice : suc n + suc n ≡ suc (suc (n + n)) = omega arith in
    ap (fields (k + k) (suc n)) sum
    ∙ ap₂ (λ x y. x + fields (k + k) n y)
        (add-mul-mod_self_left low (2 ^ (k + k)) high ∙ mod-eq_of_lt small)
        (add-mul-div_left low high pos ∙ ap (λ x. x + high) (div-eq_of_lt small) ∙ omega arith)
    ∙ ap (λ x. low + x) (add_fields k n w2 h)
    ∙ omega arith
    ∙ sym (ap (λ x. fields k x w) twice)

-- hc_hweight32 counts the bits of a 32-bit word that are set.
pub hc_hweight32-weight : (w : ℕ) → hc_hweight32 w ≡ weight 32 w
unfolding hc_hweight32 every_other
hc_hweight32-weight w =
    let pairs = bit_and w 0x55555555 + bit_and (w / 2 ^ 1) 0x55555555 in
    let nibbles = bit_and pairs 0x33333333 + bit_and (pairs / 2 ^ 2) 0x33333333 in
    let bytes = bit_and nibbles 0x0F0F0F0F + bit_and (nibbles / 2 ^ 4) 0x0F0F0F0F in
    let halves = bit_and bytes 0x00FF00FF + bit_and (bytes / 2 ^ 8) 0x00FF00FF in
    let all = bit_and halves 0x0000FFFF + bit_and (halves / 2 ^ 16) 0x0000FFFF in
    let whole : fields 32 1 all ≡ all =
      unfold fields in omega (arith, bit_and-ones 16 halves, bit_and-ones 16 (halves / 2 ^ 16)) in
    sym whole
    ∙ add_fields 16 1 halves (omega arith)
    ∙ add_fields 8 2 bytes (omega arith)
    ∙ add_fields 4 4 nibbles (omega arith)
    ∙ add_fields 2 8 pairs (omega arith)
    ∙ add_fields 1 16 w (omega arith)

weight-zero : (n w : ℕ) → w < 2 ^ n → weight n w ≡ 0 → w ≡ 0
unfolding fields
weight-zero zero w lt h = omega arith
weight-zero (suc n) w lt h =
    omega (arith, weight-zero n (w / 2) (omega (arith, pow-suc 2 n)) (omega arith))

weight-one : (n w : ℕ) → w < 2 ^ n → weight n w ≡ 1 → (k : ℕ) × (k < n) × (w ≡ 2 ^ k)
unfolding fields
weight-one zero w lt h = absurd (omega arith)
weight-one (suc n) w lt h = elim (Bool-cases (w % 2 == 1)) [
  | inl odd ↦
      let rest = weight-zero n (w / 2) (omega (arith, pow-suc 2 n)) (ground arith) in
      (0, omega arith, ground arith)
  | inr even ↦
      let (k, lt_n, e) = weight-one n (w / 2) (omega (arith, pow-suc 2 n)) (ground arith) in
      (suc k, omega arith, ground (arith, pow-suc 2 k))
]

weight-power : (n k : ℕ) → k < n → weight n (2 ^ k) ≡ 1
unfolding fields
weight-power zero k lt = absurd (omega arith)
weight-power (suc n) zero lt = ap (λ x. 1 + x) (weight-none n)
  where
    weight-none : (m : ℕ) → weight m 0 ≡ 0
    weight-none zero = refl
    weight-none (suc m) = omega (arith, weight-none m)
weight-power (suc n) (suc k) lt =
    let half : 2 ^ suc k / 2 ≡ 2 ^ k = omega (arith, pow-suc 2 k) in
    let even : 2 ^ suc k % 2 ≡ 0 = omega (arith, pow-suc 2 k) in
    ap₂ (λ x y. x + weight n y) even half ∙ omega (arith, weight-power n k (omega arith))

-- A number that lies between two neighbouring powers of two is no parity bit.
pub hc_hweight32-between :
    (b p : ℕ) → 2 ^ p < b → b < 2 ^ suc p → b < 2 ^ 32 → (hc_hweight32 b == 1) ≡ false
hc_hweight32-between b p above below lt = elim (Bool-cases (hc_hweight32 b == 1)) [
  | inl one ↦
      let (k, lt32, e) = weight-one 32 b lt (sym (hc_hweight32-weight b) ∙ (==_iff _ _).0 one) in
      absurd (no_power k e)
  | inr other ↦ other
]
  where
    no_power : (k : ℕ) → b ≡ 2 ^ k → ⊥
    no_power k e = elim (Bool-cases (leb k p)) [
      | inl le ↦ omega (arith, pow-le-pow_right {n = 2} (omega arith) (leb→le k p le))
      | inr gt ↦
          let over : suc p ≤ k = ground arith in
          omega (arith, pow-le-pow_right {n = 2} (omega arith) over)
    ]

pub hc_hweight32-power : (k : ℕ) → k < 32 → (hc_hweight32 (2 ^ k) == 1) ≡ true
hc_hweight32-power k lt = (==_iff _ _).1 (hc_hweight32-weight (2 ^ k) ∙ weight-power 32 k lt)
