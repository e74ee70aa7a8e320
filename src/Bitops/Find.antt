-- ===== src/Bitops/Find.antt =====
-- The pieces of a search for a bit: the bytes that are passed over, and the byte that is looked at.
pub mod Whole
pub mod Next
use debian_ocfs2_tools.Base.{
  ℕ, zero, suc, ◌+◌, ◌-◌, ◌*◌, ◌/◌, ◌%◌, ◌<◌, ◌≤◌, ◌≡◌, ◌≢◌, ◌∙◌, refl, sym, ap, Bool, true, false,
  ◌==◌, ◌&&◌, not, List, ltb, leb, arith, if◌then◌else◌, Bool-cases, inl, inr, ◌⊎◌,
}
use debian_ocfs2_tools.Base.Bits.{test_bit}
use debian_ocfs2_tools.Bitops.{byte, ffs, skip_bytes, found_in}
use debian_ocfs2_tools.Bitops.Ffs.{ffs-IsLowest, IsLowest}

-- The result of a search below `size`, from `offset` on: if it is below `size` it is a position that
-- is wanted, and no position before it is; if not, no position is wanted.
pub record IsNext (wanted : ℕ → Bool) (size offset r : ℕ) : Type 0 where
  pub found : r < size → (offset ≤ r) × (wanted r ≡ true)
  pub none : (i : ℕ) → offset ≤ i → i < size → i < r → wanted i ≡ false

-- A search that starts later, where nothing is wanted before.
pub IsNext-later :
    (wanted : ℕ → Bool) (size offset res r : ℕ)
    → offset ≤ res
    → ((i : ℕ) → offset ≤ i → i < res → i < size → wanted i ≡ false)
    → IsNext wanted size res r
    → IsNext wanted size offset r
IsNext-later wanted size offset res r le before next = record {
  found = λ lt. let (ge, w) = next.found lt in (omega arith, w);
  none = λ i ge lt below. elim (Bool-cases (ltb i res)) [
    | inl early ↦ before i ge (ground arith) lt
    | inr late ↦ next.none i (ground arith) lt below
  ];
}

-- Where the loop stops.
pub record IsSkipped (plain : ℕ) (addr : List ℕ) (size res r : ℕ) : Type 0 where
  pub later : res ≤ r
  pub whole : r % 8 ≡ 0
  pub passed : (j : ℕ) → res ≤ j → j < r → byte addr (j / 8) ≡ plain
  pub stops : size ≤ r ⊎ (byte addr (r / 8) ≢ plain)

pub skip_bytes-IsSkipped :
    (plain : ℕ) (addr : List ℕ) (size fuel res : ℕ)
    → size ≤ res + 8 * fuel
    → res % 8 ≡ 0
    → IsSkipped plain addr size res (skip_bytes plain addr size fuel res)
unfolding skip_bytes
skip_bytes-IsSkipped plain addr size zero res enough whole = record {
  later = omega arith;
  whole = whole;
  passed = λ j ge lt. absurd (omega arith);
  stops = inl (omega arith);
}
skip_bytes-IsSkipped plain addr size (suc fuel) res enough whole =
    elim (Bool-cases (ltb res size && byte addr (res / 8) == plain)) [
      | inl goes_on ↦
          let rest =
            skip_bytes-IsSkipped plain addr size fuel (res + 8) (omega arith) (omega arith) in
          rw goes_on (record {
            later = omega (arith, rest.later);
            whole = rest.whole;
            passed = λ j ge lt. elim (Bool-cases (ltb j (res + 8))) [
              | inl here ↦ let same : j / 8 ≡ res / 8 = ground arith in rw same (ground arith)
              | inr beyond ↦ rest.passed j (ground arith) lt
            ];
            stops = rest.stops;
          })
      | inr ends ↦ rw ends (record {
        later = omega arith;
        whole = whole;
        passed = λ j ge lt. absurd (omega arith);
        stops = ground arith;
      })
    ]

-- One of two numbers is below the other, or not.
pub lt_or_le : (a b : ℕ) → (a < b) ⊎ (b ≤ a)
lt_or_le a b = elim (Bool-cases (ltb a b)) [
  | inl lt ↦ inl (ground arith)
  | inr ge ↦ inr (ground arith)
]

-- The lowest `k` bits of `bits` say what is wanted from `res` on. Either nothing follows them below
-- `size`, or one of them is set.
pub found_in-IsNext :
    (wanted : ℕ → Bool) (size res bits k : ℕ)
    → k ≤ 32
    → ((i : ℕ) → i < k → test_bit i bits ≡ wanted (res + i))
    → (size ≤ res + k) ⊎ ((e : ℕ) × (e < k) × (wanted (res + e) ≡ true))
    → IsNext wanted size res (found_in size res bits)
unfolding found_in
found_in-IsNext wanted size res bits k le says last = elim (ffs-IsLowest bits) [
  | inl (e, nothing) ↦ rw e (record {
    found = λ lt. absurd (omega arith);
    none = λ i ge lt _.
        let here : i ≡ res + (i - res) = omega arith in
        elim last [
          | inl ends ↦
              ap wanted here ∙ sym (says (i - res) (omega arith)) ∙ nothing (i - res) (omega arith)
          | inr (x, lt_k, w) ↦ absurd cc (says x lt_k, nothing x (omega arith), w)
        ];
  })
  | inr (d, e, lowest) ↦
      let small : ((size ≤ res + d) × (size ≤ res + k)) ⊎ (d < k) = elim (lt_or_le d k) [
        | inl inside ↦ inr inside
        | inr le_d ↦ elim last [
          | inl ends ↦ inl (omega arith, ends)
          | inr (x, lt_k, w) ↦ absurd cc (says x lt_k, lowest.below x (omega arith), w)
        ]
      ] in
      let some : (ffs bits == 0) ≡ false = ground arith in
      let at : res + ffs bits - 1 ≡ res + d = omega arith in
      rw (some, at)
        (record {
          found = λ lt. elim small [
            | inl ends ↦ absurd (omega arith)
            | inr inside ↦ (omega arith, sym (says d inside) ∙ lowest.here)
          ];
          none = λ i ge lt below.
              let here : i ≡ res + (i - res) = omega arith in
              let inside : i - res < k = elim small [
                | inl ends ↦ omega arith
                | inr inside ↦ omega arith
              ] in
              ap wanted here ∙ sym (says (i - res) inside) ∙ lowest.below (i - res) (omega arith);
        })
]
