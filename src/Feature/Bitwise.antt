-- ===== src/Feature/Bitwise.antt =====
-- What the operations of feature_string.c do to each single flag: a set of features is read as the
-- set of the bits of its three words.
use debian_ocfs2_tools.Base.{
  ℕ, ◌<◌, ◌^◌, ◌≡◌, Bool, true, false, ◌&&◌, ◌||◌, not, inl, inr, Bool-cases, arith,
}
use debian_ocfs2_tools.Base.Bits.{test_bit, test_bit-bit_or}
use debian_ocfs2_tools.Base.Bits.Words.{
  meets, test_bit-bit_clear, bit_of_meets, meets_of_bit, bit_or-lt, bits_ext, test_bit-zero,
}
use debian_ocfs2_tools.Feature.{
  FsOptions, no_options, merge_features, feature_match, clear_features,
}

pub data Word : Type 0 where
  compat_word incompat_word ro_compat_word : Word

abbrev pub word : Word → FsOptions → ℕ
word compat_word o = o.opt_compat
word incompat_word o = o.opt_incompat
word ro_compat_word o = o.opt_ro_compat

-- Flag `i` of a word is set.
abbrev pub has : Word → ℕ → FsOptions → Bool
has w i o = test_bit i (word w o)

-- Some flag is in both sets.
abbrev pub Shared : FsOptions → FsOptions → Type 0
Shared a b = (w : Word) × (i : ℕ) × (has w i a ≡ true) × (has w i b ≡ true)

-- The words fit `uint32_t`.
pub record IsU32 (o : FsOptions) : Type 0 where
  pub compat_fits : o.opt_compat < 2 ^ 32
  pub incompat_fits : o.opt_incompat < 2 ^ 32
  pub ro_compat_fits : o.opt_ro_compat < 2 ^ 32

pub has-merge_features :
    (w : Word) (i : ℕ) (a b : FsOptions) → has w i (merge_features a b) ≡ has w i a || has w i b
unfolding merge_features
has-merge_features compat_word i a b = test_bit-bit_or i _ _
has-merge_features incompat_word i a b = test_bit-bit_or i _ _
has-merge_features ro_compat_word i a b = test_bit-bit_or i _ _

pub has-clear_features :
    (w : Word) (i : ℕ) (d r : FsOptions)
    → IsU32 d
    → has w i (clear_features d r) ≡ has w i d && not (has w i r)
unfolding clear_features
has-clear_features compat_word i d r h = test_bit-bit_clear i _ _ h.compat_fits
has-clear_features incompat_word i d r h = test_bit-bit_clear i _ _ h.incompat_fits
has-clear_features ro_compat_word i d r h = test_bit-bit_clear i _ _ h.ro_compat_fits

pub merge_features-IsU32 : (a b : FsOptions) → IsU32 a → IsU32 b → IsU32 (merge_features a b)
unfolding merge_features
merge_features-IsU32 a b p q = record {
  compat_fits = bit_or-lt 32 _ _ p.compat_fits q.compat_fits;
  incompat_fits = bit_or-lt 32 _ _ p.incompat_fits q.incompat_fits;
  ro_compat_fits = bit_or-lt 32 _ _ p.ro_compat_fits q.ro_compat_fits;
}

Shared-of_meets : (w : Word) (a b : FsOptions) → meets (word w a) (word w b) ≡ true → Shared a b
Shared-of_meets w a b h = let (i, p, q) = bit_of_meets (word w a) (word w b) h in (w, i, p, q)

pub feature_match-Shared : (a b : FsOptions) → feature_match a b ≡ true → Shared a b
unfolding feature_match
feature_match-Shared a b h = elim (Bool-cases (meets a.opt_compat b.opt_compat)) [
  | inl p ↦ Shared-of_meets compat_word a b p
  | inr p ↦ elim (Bool-cases (meets a.opt_incompat b.opt_incompat)) [
    | inl q ↦ Shared-of_meets incompat_word a b q
    | inr q ↦ Shared-of_meets ro_compat_word a b (ground arith)
  ]
]

meets_of_shared :
    (w : Word) (i : ℕ) (a b : FsOptions)
    → has w i a ≡ true
    → has w i b ≡ true
    → feature_match a b ≡ true
unfolding feature_match
meets_of_shared compat_word i a b p q = ground (arith, meets_of_bit a.opt_compat b.opt_compat i p q)
meets_of_shared incompat_word i a b p q =
    ground (arith, meets_of_bit a.opt_incompat b.opt_incompat i p q)
meets_of_shared ro_compat_word i a b p q =
    ground (arith, meets_of_bit a.opt_ro_compat b.opt_ro_compat i p q)

pub Shared-feature_match : (a b : FsOptions) → Shared a b → feature_match a b ≡ true
Shared-feature_match a b (w, i, p, q) = meets_of_shared w i a b p q

-- Sets with the same flags are equal.
pub options_ext : (a b : FsOptions) → ((w : Word) (i : ℕ) → has w i a ≡ has w i b) → a ≡ b
options_ext a b h =
    let p : a.opt_compat ≡ b.opt_compat = bits_ext _ _ (h compat_word) in
    let q : a.opt_incompat ≡ b.opt_incompat = bits_ext _ _ (h incompat_word) in
    let r : a.opt_ro_compat ≡ b.opt_ro_compat = bits_ext _ _ (h ro_compat_word) in
    λ i. record { opt_compat = p i; opt_incompat = q i; opt_ro_compat = r i }

pub merge_features_assoc :
    (a b c : FsOptions)
    → merge_features (merge_features a b) c ≡ merge_features a (merge_features b c)
merge_features_assoc a b c = options_ext _ _ λ w i. ground (
  arith,
  has-merge_features w i (merge_features a b) c,
  has-merge_features w i a b,
  has-merge_features w i a (merge_features b c),
  has-merge_features w i b c,
)

has-no_options : (w : Word) (i : ℕ) → has w i no_options ≡ false
has-no_options compat_word i = test_bit-zero i
has-no_options incompat_word i = test_bit-zero i
has-no_options ro_compat_word i = test_bit-zero i

pub merge_features-no_options : (a : FsOptions) → merge_features a no_options ≡ a
merge_features-no_options a =
    options_ext _ _ λ w i. ground (arith, has-merge_features w i a no_options, has-no_options w i)

pub no_options-merge_features : (a : FsOptions) → merge_features no_options a ≡ a
no_options-merge_features a =
    options_ext _ _ λ w i. ground (arith, has-merge_features w i no_options a, has-no_options w i)
