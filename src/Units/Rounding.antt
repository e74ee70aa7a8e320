-- ===== src/Units/Rounding.antt =====
-- Which way the conversions between bytes and clusters round.
use native.Mathlib.Nat.{
  one-le-pow, pow-le-pow_right, mul-le-mul_left, le-div_iff_mul-le, div-lt_iff_lt-mul,
}
use debian_ocfs2_tools.Base.{
  ℕ, ◌+◌, ◌-◌, ◌*◌, ◌/◌, ◌%◌, ◌^◌, ◌<◌, ◌≤◌, ◌≡◌, refl, ◌↔◌, ltb, arith, if◌then◌else◌, Bool-cases,
  inl, inr, true, false,
}
use debian_ocfs2_tools.Units.{clusters_to_bytes, bytes_to_clusters, clusters_in_bytes}

-- The bound of a result to 32 bits does not matter to a smaller number.
saturate_le :
    (r n : ℕ) → n < 2 ^ 32 - 1 → (n ≤ (if ltb (2 ^ 32 - 1) r then 2 ^ 32 - 1 else r)) ↔ (n ≤ r)
saturate_le r n small = elim (Bool-cases (ltb (2 ^ 32 - 1) r)) [
  | inl above ↦ rw above (λ _. ground arith, λ _. omega arith)
  | inr below ↦ rw below (λ h. h, λ h. h)
]

le_saturate :
    (r n : ℕ) → n < 2 ^ 32 - 1 → ((if ltb (2 ^ 32 - 1) r then 2 ^ 32 - 1 else r) ≤ n) ↔ (r ≤ n)
le_saturate r n small = elim (Bool-cases (ltb (2 ^ 32 - 1) r)) [
  | inl above ↦ rw above (λ h. absurd (omega arith), λ h. absurd (ground arith))
  | inr below ↦ rw below (λ h. h, λ h. h)
]

module _ (bits : ℕ) (small : bits ≤ 31) where
  cluster_le : 2 ^ bits ≤ 2 ^ 31
  cluster_le = pow-le-pow_right {n = 2} (omega arith) {i = bits} {j = 31} small

  clusters_to_bytes-product : (n : ℕ) → n < 2 ^ 32 → clusters_to_bytes bits n ≡ n * 2 ^ bits
  unfolding clusters_to_bytes
  clusters_to_bytes-product n word =
      let size = 2 ^ bits in
      let positive : 1 ≤ size = one-le-pow bits 2 (omega arith) in
      let above : n * 1 ≤ n * size = mul-le-mul_left n positive in
      let below : n * size ≤ n * 2 ^ 31 = mul-le-mul_left n cluster_le in
      let fits : n * size % 2 ^ 64 ≡ n * size = omega arith in
      let whole : ltb (n * size) n ≡ false = ground arith in rw (fits, whole) refl

  sum_div : (bytes n : ℕ) → ((bytes + 2 ^ bits - 1) / 2 ^ bits ≤ n) ↔ (bytes ≤ n * 2 ^ bits)
  sum_div bytes n =
      let size = 2 ^ bits in
      let positive : 0 < size = one-le-pow bits 2 (omega arith) in
      let next : (n + 1) * size ≡ n * size + size = omega arith in
      let (to, from) = div-lt_iff_lt-mul {k = size} {x = bytes + size - 1} {y = n + 1} positive in
      (
        λ h. let less = to (omega arith) in omega arith,
        λ h. let less = from (omega arith) in omega arith,
      )

  in_bytes :
      (bytes n : ℕ)
      → bytes < 2 ^ 64
      → n < 2 ^ 32 - 1
      → (clusters_in_bytes bits bytes ≤ n) ↔ (bytes ≤ n * 2 ^ bits)
  unfolding clusters_in_bytes
  in_bytes bytes n u64 word =
      let size = 2 ^ bits in
      let positive : 0 < size = one-le-pow bits 2 (omega arith) in
      let le = cluster_le in
      let next : (n + 1) * size ≤ (n + 1) * 2 ^ 31 = mul-le-mul_left (n + 1) le in
      let split : (n + 1) * size ≡ n * size + size = omega arith in
      elim (Bool-cases (ltb (bytes + size - 1) (2 ^ 64))) [
        | inl fits ↦
            let sum : (bytes + size - 1) % 2 ^ 64 ≡ bytes + size - 1 = ground arith in
            let whole : ltb (bytes + size - 1) bytes ≡ false = ground arith in
            let (to, from) = le_saturate ((bytes + size - 1) / size) n word in
            let (down, up) = sum_div bytes n in rw (sum, whole) (λ h. down (to h), λ h. from (up h))
        | inr wraps ↦
            let over : 2 ^ 64 ≤ bytes + size - 1 = ground arith in
            let sum : (bytes + size - 1) % 2 ^ 64 ≡ bytes + size - 1 - 2 ^ 64 = omega arith in
            let wrapped : ltb (bytes + size - 1 - 2 ^ 64) bytes ≡ true = ground arith in
            let (to, from) = le_saturate ((2 ^ 64 - 1) / size) n word in
            let many : n + 1 ≤ (2 ^ 64 - 1) / size =
              (le-div_iff_mul-le {k = size} {x = n + 1} {y = 2 ^ 64 - 1} positive).1
                (omega arith) in
            rw (sum, wrapped)
              (λ h. let le = to h in absurd (omega arith), λ h. absurd (omega arith))
      ]

-- For clusters of less than 2 ^ 32 bytes, numbers of bytes of 64 bits and less than 2 ^ 32 - 1 clusters,
-- `ocfs2_bytes_to_clusters` rounds down and `ocfs2_clusters_in_bytes` rounds up: so many clusters fit the
-- bytes just if the first is not below their number, and hold the bytes just if the second is not above.
pub clusters_to_bytes-adjoint :
    (bits bytes n : ℕ)
    → bits ≤ 31
    → bytes < 2 ^ 64
    → n < 2 ^ 32 - 1
    → ((n ≤ bytes_to_clusters bits bytes) ↔ (clusters_to_bytes bits n ≤ bytes))
      × ((clusters_in_bytes bits bytes ≤ n) ↔ (bytes ≤ clusters_to_bytes bits n))
unfolding bytes_to_clusters
clusters_to_bytes-adjoint bits bytes n small u64 word =
    let product = clusters_to_bytes-product bits small n (omega arith) in
    let (to, from) = saturate_le (bytes / 2 ^ bits) n word in
    let (mul, div) =
      le-div_iff_mul-le {k = 2 ^ bits} {x = n} {y = bytes} (one-le-pow bits 2 (omega arith)) in
    rw product ((λ h. mul (to h), λ h. from (div h)), in_bytes bits small bytes n u64 word)
