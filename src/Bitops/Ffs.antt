-- ===== src/Bitops/Ffs.antt =====
-- The lowest bit that is set.
use debian_ocfs2_tools.Base.{
  ℕ, zero, suc, ◌+◌, ◌/◌, ◌%◌, ◌<◌, ◌≡◌, ◌≢◌, ◌∙◌, refl, true, false, ◌==◌, arith, Bool-cases, inl,
  inr, ◌⊎◌,
}
use debian_ocfs2_tools.Base.Bits.{test_bit}
use debian_ocfs2_tools.Bitops.{ffs_from, ffs}

-- No bit below `f` is set.
abbrev pub NoneBelow : ℕ → ℕ → Type 0
NoneBelow f n = (i : ℕ) → i < f → test_bit i n ≡ false

-- What `ffs` says of a number, for its lowest `f` bits.
pub record IsLowest (f n d : ℕ) : Type 0 where
  pub inside : d < f
  pub here : test_bit d n ≡ true
  pub below : NoneBelow d n

NoneBelow-suc : (f n : ℕ) → n % 2 ≢ 1 → NoneBelow f (n / 2) → NoneBelow (suc f) n
unfolding test_bit
NoneBelow-suc f n even h zero lt = ground arith
NoneBelow-suc f n even h (suc i) lt = h i (omega arith)

IsLowest-suc : (f n d : ℕ) → n % 2 ≢ 1 → IsLowest f (n / 2) d → IsLowest (suc f) n (suc d)
unfolding test_bit
IsLowest-suc f n d even l = record {
  inside = omega (arith, l.inside);
  here = l.here;
  below = NoneBelow-suc d n even l.below;
}

ffs_from-IsLowest :
    (f k n : ℕ)
    → ((ffs_from f k n ≡ 0) × NoneBelow f n)
      ⊎ ((d : ℕ) × (ffs_from f k n ≡ k + d + 1) × IsLowest f n d)
unfolding ffs_from test_bit
ffs_from-IsLowest zero k n = inl (refl, λ i lt. absurd (omega arith))
ffs_from-IsLowest (suc f) k n = elim (Bool-cases (n % 2 == 1)) [
  | inl odd ↦ inr (
    0,
    rw odd (omega arith),
    record { inside = omega arith; here = odd; below = λ i lt. absurd (omega arith) },
  )
  | inr even ↦
      let ne : n % 2 ≢ 1 = ground arith in
      elim (ffs_from-IsLowest f (k + 1) (n / 2)) [
        | inl (e, none) ↦ inl (rw even e, NoneBelow-suc f n ne none)
        | inr (d, e, l) ↦ inr (suc d, rw even (e ∙ omega arith), IsLowest-suc f n d ne l)
      ]
]

pub ffs-IsLowest :
    (n : ℕ) → ((ffs n ≡ 0) × NoneBelow 32 n) ⊎ ((d : ℕ) × (ffs n ≡ d + 1) × IsLowest 32 n d)
unfolding ffs
ffs-IsLowest n = elim (ffs_from-IsLowest 32 0 n) [
  | inl none ↦ inl none
  | inr (d, e, l) ↦ inr (d, e ∙ omega arith, l)
]
