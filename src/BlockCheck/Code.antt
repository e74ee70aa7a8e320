-- ===== src/BlockCheck/Code.antt =====
-- Where a data bit stands in the code: behind one parity bit for each power of two.
use debian_ocfs2_tools.Base.{
  ℕ, zero, suc, ◌+◌, ◌-◌, ◌^◌, ◌<◌, ◌≤◌, ◌≡◌, refl, ap, ◌==◌, ltb, ltb→lt, arith, Bool-cases, inl,
  inr, ◌⊎◌, leb, leb→le,
}
use native.Mathlib.Nat.{pow-suc, one-le-pow}
use debian_ocfs2_tools.Base.Bits.Xor.{power-add}
use debian_ocfs2_tools.BlockCheck.{bump, calc_code_bit}

-- Data bit `i` is bit `b` of the code, with `p` parity bits before it: `b` lies between the powers of
-- two number `p - 1` and `p`.
pub record IsCode (i p b : ℕ) : Type 0 where
  pub counted : b ≡ i + 1 + p
  pub some_parity : 1 ≤ p
  pub above : 2 ^ (p - 1) < b
  pub below : b < 2 ^ p

-- What a cached count of parity bits must be: not more than stand before the bit.
unfoldable pub IsCache : ℕ → ℕ → Type 0
IsCache i p = (p ≡ 0) ⊎ ((1 ≤ p) × (2 ^ (p - 1) < i + 1 + p))

pub IsCache-zero : (i : ℕ) → IsCache i 0
unfolding IsCache
IsCache-zero i = inl refl

pub IsCache-le : (i j p : ℕ) → IsCache i p → i ≤ j → IsCache j p
unfolding IsCache
IsCache-le i j p (inl none_yet) le = inl none_yet
IsCache-le i j p (inr (pos, above)) le = inr (pos, omega arith)

-- The count for a bit is a cache for every later bit.
pub IsCode-IsCache : (i j p b : ℕ) → IsCode i p b → i ≤ j → IsCache j p
unfolding IsCache
IsCode-IsCache i j p b code le = inr (code.some_parity, omega (arith, code.counted, code.above))

-- The loop stops when the power is not below, and has room to stop.
bump-IsCode :
    (fuel i p : ℕ)
    → IsCache i p
    → i + 2 + p + fuel ≤ 2 ^ (p + fuel)
    → IsCode i (bump fuel (i + 1 + p) p).1 (bump fuel (i + 1 + p) p).0
unfolding bump IsCache
bump-IsCode zero i p cache enough = elim cache [
  | inl none_yet ↦ absurd (omega (arith, ap (λ k. 2 ^ (k + 0)) none_yet))
  | inr (pos, above) ↦ record {
    counted = refl;
    some_parity = pos;
    above = above;
    below = let all : p + 0 ≡ p = omega arith in omega (arith, ap (λ k. 2 ^ k) all);
  }
]
bump-IsCode (suc fuel) i p cache enough = elim (Bool-cases (ltb (2 ^ p) (i + 1 + p + 1))) [
  | inl goes_on ↦
      let shift : i + 1 + p + 1 ≡ i + 1 + (p + 1) = omega arith in
      let further : p + suc fuel ≡ p + 1 + fuel = omega arith in
      let last : p + 1 - 1 ≡ p = omega arith in
      rw (goes_on, shift)
        (bump-IsCode fuel i (p + 1)
          (inr (
            omega arith,
            omega (arith, ap (λ k. 2 ^ k) last, ltb→lt (2 ^ p) (i + 1 + p + 1) goes_on),
          ))
          (omega (arith, ap (λ k. 2 ^ k) further)))
  | inr ends ↦
      let stop : i + 1 + p + 1 ≤ 2 ^ p = ground arith in
      rw ends (record {
        counted = refl;
        some_parity = elim cache [
          | inl none_yet ↦ absurd (omega (arith, ap (λ k. 2 ^ k) none_yet))
          | inr (pos, above) ↦ pos
        ];
        above = elim cache [
          | inl none_yet ↦ absurd (omega (arith, ap (λ k. 2 ^ k) none_yet))
          | inr (pos, above) ↦ above
        ];
        below = omega arith;
      })
]

power-above : (p : ℕ) → p < 2 ^ p
power-above zero = omega arith
power-above (suc p) = omega (arith, power-above p, pow-suc 2 p)

-- `calc_code_bit` finds the place in the code of a data bit, from any cache.
pub calc_code_bit-IsCode :
    (i p : ℕ) → IsCache i p → i < 2 ^ 31 → IsCode i (calc_code_bit i p).1 (calc_code_bit i p).0
unfolding calc_code_bit
calc_code_bit-IsCode i p cache lt =
    bump-IsCode 32 i p cache (omega (arith, power-add p 32, power-above p))

-- Powers of two grow faster than their exponents.
power-gap : (m n : ℕ) → m ≤ n → 2 ^ m + n ≤ 2 ^ n + m
power-gap m zero le =
    let none_less : m ≡ 0 = omega arith in omega (arith, ap (λ k. 2 ^ k) none_less)
power-gap m (suc n) le = elim (Bool-cases (m == suc n)) [
  | inl same ↦ let here : m ≡ suc n = ground arith in omega (arith, ap (λ k. 2 ^ k) here)
  | inr less ↦
      omega (arith, power-gap m n (ground arith), pow-suc 2 n, one-le-pow n 2 (omega arith))
]

-- Later data bits have no fewer parity bits before them, and stand later in the code.
pub IsCode-le : (i j p q b c : ℕ) → IsCode i p b → IsCode j q c → i ≤ j → p ≤ q
IsCode-le i j p q b c code later le = elim (Bool-cases (leb p q)) [
  | inl right ↦ leb→le p q right
  | inr wrong ↦
      let less : q ≤ p - 1 = ground arith in
      absurd (
        omega (
          arith,
          power-gap q (p - 1) less,
          code.counted,
          code.some_parity,
          code.above,
          later.counted,
          later.below,
        ))
]

pub IsCode-lt : (i j p q b c : ℕ) → IsCode i p b → IsCode j q c → i < j → b < c
IsCode-lt i j p q b c code later lt =
    omega (arith, code.counted, later.counted, IsCode-le i j p q b c code later (omega arith))

-- A data bit has one place, and a place one data bit.
pub IsCode-place : (i p q b c : ℕ) → IsCode i p b → IsCode i q c → b ≡ c
IsCode-place i p q b c code other = omega (
  arith,
  code.counted,
  other.counted,
  IsCode-le i i p q b c code other (omega arith),
  IsCode-le i i q p c b other code (omega arith),
)

pub IsCode-bit : (i j p q b : ℕ) → IsCode i p b → IsCode j q b → i ≡ j
IsCode-bit i j p q b code other = elim (Bool-cases (ltb i j)) [
  | inl before ↦ absurd (omega (arith, IsCode-lt i j p q b b code other (ltb→lt i j before)))
  | inr not_before ↦ elim (Bool-cases (ltb j i)) [
    | inl after ↦ absurd (omega (arith, IsCode-lt j i q p b b other code (ltb→lt j i after)))
    | inr not_after ↦ ground arith
  ]
]

-- The place of data bit `i`.
unfoldable pub place_of : ℕ → ℕ
place_of i = (calc_code_bit i 0).0

bump-le : (fuel b p : ℕ) → (bump fuel b p).1 ≤ p + fuel
unfolding bump
bump-le zero b p = omega arith
bump-le (suc fuel) b p = elim (Bool-cases (ltb (2 ^ p) (b + 1))) [
  | inl goes_on ↦ rw goes_on (omega (arith, bump-le fuel (b + 1) (p + 1)))
  | inr ends ↦ rw ends (omega arith)
]

pub place_of-IsCode : (i : ℕ) → i < 2 ^ 31 → IsCode i (calc_code_bit i 0).1 (place_of i)
unfolding place_of
place_of-IsCode i lt = calc_code_bit-IsCode i 0 (IsCache-zero i) lt

pub place_of-lt : (i : ℕ) → i < 2 ^ 31 → place_of i < 2 ^ 32
unfolding place_of
place_of-lt i lt =
    let code = place_of-IsCode i lt in
    let few : (calc_code_bit i 0).1 ≤ 0 + 32 = unfold calc_code_bit in bump-le 32 (i + 1 + 0) 0 in
    omega (arith, code.counted, few)

-- The cache does not change what `calc_code_bit` returns.
pub calc_code_bit-place : (i p : ℕ) → IsCache i p → i < 2 ^ 31 → (calc_code_bit i p).0 ≡ place_of i
unfolding place_of
calc_code_bit-place i p cache lt =
    IsCode-place i _ _ _ _ (calc_code_bit-IsCode i p cache lt)
      (calc_code_bit-IsCode i 0 (IsCache-zero i) lt)

-- The next data bit stands next in the code, unless a parity bit does.
pub IsCode-next :
    (i p b : ℕ)
    → IsCode i p b
    → (IsCode (i + 1) p (b + 1)) ⊎ ((b + 1 ≡ 2 ^ p) × IsCode (i + 1) (p + 1) (b + 2))
IsCode-next i p b code = elim (Bool-cases (ltb (b + 1) (2 ^ p))) [
  | inl room ↦ inl (record {
    counted = omega (arith, code.counted);
    some_parity = code.some_parity;
    above = omega (arith, code.above);
    below = ltb→lt (b + 1) (2 ^ p) room;
  })
  | inr full ↦
      let parity : b + 1 ≡ 2 ^ p = ground (arith, code.below) in
      let last : p + 1 - 1 ≡ p = omega arith in
      let next : p + 1 ≡ suc p = omega arith in
      inr (
        parity,
        record {
          counted = omega (arith, code.counted);
          some_parity = omega arith;
          above = omega (arith, ap (λ k. 2 ^ k) last);
          below = omega (arith, ap (λ k. 2 ^ k) next, pow-suc 2 p, code.counted);
        },
      )
]

pub place_of_mono : (i j : ℕ) → i < j → j < 2 ^ 31 → place_of i < place_of j
place_of_mono i j lt small =
    IsCode-lt i j _ _ _ _ (place_of-IsCode i (omega arith)) (place_of-IsCode j small) lt

pub place_of-le : (i j : ℕ) → i ≤ j → j < 2 ^ 31 → place_of i ≤ place_of j
place_of-le i j le small = elim (Bool-cases (ltb i j)) [
  | inl less ↦ omega (arith, place_of_mono i j (ltb→lt i j less) small)
  | inr not_less ↦ let same : i ≡ j = ground arith in omega (arith, ap place_of same)
]
