-- ===== src/Feature/Merge.antt =====
-- `ocfs2_merge_feature_flags_with_level`: what mkfs.ocfs2 sets, from a level, the features asked for
-- and the features asked not to be there.
use debian_ocfs2_tools.Base.{
  ℕ, ◌≡◌, refl, true, false, ◌&&◌, ◌||◌, inl, inr, ◌⊎◌, Bool-cases, arith, All, All-zip₃, not, ok,
  err, conflicting_features, ◌↔◌,
}
use debian_ocfs2_tools.Base.Bits.{test_bit}
use debian_ocfs2_tools.Base.Bits.Words.{meets, meets-zero, at_power, test_bit-zero}
use debian_ocfs2_tools.Feature.Bitwise.{
  Word, compat_word, incompat_word, ro_compat_word, has, Shared, IsU32, has-merge_features,
  has-clear_features, merge_features-IsU32, feature_match-Shared, Shared-feature_match,
}
use debian_ocfs2_tools.Feature.Deps.{
  Subset, feature_clear_deps_closure, closed-compat, closed-incompat,
}
use debian_ocfs2_tools.Feature.{
  FsOptions, FeatureFlags, FeatureLevel, level_default, level_max_compat, level_max_features,
  feature_level_defaults, merge_features, feature_match, check_feature_flags, clear_features,
  feature_clear_deps, supported_features, ro_compat, unwritten_flags, ro_compat_unwritten,
  merge_feature_flags_with_level,
}

-- The check for a zero reverse word changes nothing.
pub check_feature_flags-feature_match :
    (a b : FsOptions) → check_feature_flags a b ≡ not (feature_match a b)
unfolding check_feature_flags feature_match
check_feature_flags-feature_match a b =
    ground (arith, meets-zero a.opt_compat, meets-zero a.opt_incompat, meets-zero a.opt_ro_compat)

feature_level_defaults-IsU32 : (level : FeatureLevel) → IsU32 (feature_level_defaults level)
feature_level_defaults-IsU32 level_default = omega arith
feature_level_defaults-IsU32 level_max_compat = omega arith
feature_level_defaults-IsU32 level_max_features = omega arith

-- The two results of the function, with the conflict as a shared flag.
pub merge_cases :
    (level : FeatureLevel) (fs rs : FsOptions)
    → Shared fs (feature_clear_deps rs)
        × (merge_feature_flags_with_level level fs rs ≡ err conflicting_features)
      ⊎ (feature_match fs (feature_clear_deps rs) ≡ false)
        × (merge_feature_flags_with_level level fs rs
            ≡ ok (
                clear_features
                  (merge_features (feature_level_defaults level) fs)
                  (feature_clear_deps rs)))
unfolding merge_feature_flags_with_level
merge_cases level fs rs = elim (Bool-cases (feature_match fs (feature_clear_deps rs))) [
  | inl m ↦ inl (
    feature_match-Shared fs _ m,
    rw (check_feature_flags-feature_match fs (feature_clear_deps rs), m),
  )
  | inr n ↦ inr (n, rw (check_feature_flags-feature_match fs (feature_clear_deps rs), n))
]

-- The merge is refused exactly where a feature asked for is in the closed set of features to clear.
pub merge_conflict_iff :
    (level : FeatureLevel) (fs rs : FsOptions)
    → (merge_feature_flags_with_level level fs rs ≡ err conflicting_features)
      ↔ Shared fs (feature_clear_deps rs)
merge_conflict_iff level fs rs = elim (merge_cases level fs rs) [
  | inl (shared, e) ↦ (λ _. shared, λ _. e)
  | inr (n, e) ↦
      (λ h. cc (h, e), λ shared. cc (n, Shared-feature_match fs (feature_clear_deps rs) shared))
]

-- Where the merge succeeds, a flag is in the result exactly if the level or the user sets it and it is
-- not in the closed set of features to clear.
pub has-merge_feature_flags :
    (level : FeatureLevel) (fs rs dest : FsOptions)
    → IsU32 fs
    → merge_feature_flags_with_level level fs rs ≡ ok dest
    → (w : Word) (i : ℕ)
    → has w i dest
      ≡ (has w i (feature_level_defaults level) || has w i fs)
        && not (has w i (feature_clear_deps rs))
has-merge_feature_flags level fs rs dest fits e w i = elim (merge_cases level fs rs) [
  | inl (shared, e') ↦ cc (e, e')
  | inr (n, e') ↦
      let level_fits = feature_level_defaults-IsU32 level in
      let out : dest
          ≡ clear_features (merge_features (feature_level_defaults level) fs)
              (feature_clear_deps rs) =
        cc (e, e') in
      rw out (
        rw (
          has-clear_features w i (merge_features (feature_level_defaults level) fs)
              (feature_clear_deps rs) (merge_features-IsU32 _ _ level_fits fits),
          has-merge_features w i (feature_level_defaults level) fs,
        ))
]

-- A set that holds, with each feature, all that the feature depends on.
abbrev pub IsForwardClosed : FsOptions → Type 0
IsForwardClosed o =
    All (λ f. feature_match o f.ff_own_flags ≡ true → Subset f.ff_flags o) supported_features

pub both_words :
    (o : FsOptions)
    → test_bit 4 o.opt_incompat ≡ true
    → test_bit 0 o.opt_ro_compat ≡ true
    → Subset unwritten_flags o
both_words o sparse unwritten = record { within = within_both }
  where
    within_both : (w : Word) (i : ℕ) → has w i unwritten_flags ≡ true → has w i o ≡ true
    within_both compat_word i h = cc (h, test_bit-zero i)
    within_both incompat_word i h = at_power 4 i o.opt_incompat sparse h
    within_both ro_compat_word i h = at_power 0 i o.opt_ro_compat unwritten h

pub IsForwardClosed-from :
    (o : FsOptions)
    → (feature_match o (ro_compat ro_compat_unwritten) ≡ true → Subset unwritten_flags o)
    → IsForwardClosed o
IsForwardClosed-from o unwritten_closed = (
  closed-incompat o 3,
  (
    closed-incompat o 4,
    (
      closed-compat o 0,
      (
        unwritten_closed,
        (
          closed-incompat o 8,
          (closed-incompat o 6, (closed-incompat o 11, (closed-incompat o 9, tt))),
        ),
      ),
    ),
  ),
)

pub feature_level_defaults-IsForwardClosed :
    (level : FeatureLevel) → IsForwardClosed (feature_level_defaults level)
unfolding test_bit feature_match meets
feature_level_defaults-IsForwardClosed level_default =
    IsForwardClosed-from _ (λ _. both_words _ refl refl)
feature_level_defaults-IsForwardClosed level_max_compat = IsForwardClosed-from _ (λ h. cc)
feature_level_defaults-IsForwardClosed level_max_features =
    IsForwardClosed-from _ (λ _. both_words _ refl refl)

-- One feature of the table: if the result has it, the result has what it depends on.
module _ (level fs r dest : FsOptions)
    (bits : (w : Word) (i : ℕ)
      → has w i dest ≡ (has w i level || has w i fs) && not (has w i r)) where
  kept_in :
      (f : FeatureFlags)
      → (feature_match level f.ff_own_flags ≡ true → Subset f.ff_flags level)
      → (feature_match fs f.ff_own_flags ≡ true → Subset f.ff_flags fs)
      → (feature_match r f.ff_flags ≡ true → Subset f.ff_own_flags r)
      → (feature_match dest f.ff_own_flags ≡ true → Subset f.ff_flags dest)
  kept_in f of_level of_fs of_r m = record { within = keep }
    where
      shared : Shared dest f.ff_own_flags
      shared = feature_match-Shared dest f.ff_own_flags m

      clear : feature_match r f.ff_flags ≡ false
      clear = elim (Bool-cases (feature_match r f.ff_flags)) [
        | inl hit ↦
            let own = (of_r hit).within shared.0 shared.1 shared.3 in
            ground (arith, bits shared.0 shared.1, own, shared.2)
        | inr n ↦ n
      ]

      source : Subset f.ff_flags level ⊎ Subset f.ff_flags fs
      source = elim (Bool-cases (has shared.0 shared.1 level)) [
        | inl h ↦ inl (of_level (Shared-feature_match level _ (shared.0, shared.1, h, shared.3)))
        | inr n ↦
            let h : has shared.0 shared.1 fs ≡ true =
              ground (arith, bits shared.0 shared.1, shared.2) in
            inr (of_fs (Shared-feature_match fs _ (shared.0, shared.1, h, shared.3)))
      ]

      not_cleared : (w : Word) (i : ℕ) → has w i f.ff_flags ≡ true → has w i r ≡ false
      not_cleared w i h = elim (Bool-cases (has w i r)) [
        | inl hit ↦ cc (clear, Shared-feature_match r f.ff_flags (w, i, hit, h))
        | inr n ↦ n
      ]

      keep : (w : Word) (i : ℕ) → has w i f.ff_flags ≡ true → has w i dest ≡ true
      keep w i h = elim source [
        | inl s ↦ ground (arith, bits w i, s.within w i h, not_cleared w i h)
        | inr s ↦ ground (arith, bits w i, s.within w i h, not_cleared w i h)
      ]

-- The merged set holds what each of its features depends on, if the features asked for do.
pub merge_feature_flags-IsForwardClosed :
    (level : FeatureLevel) (fs rs dest : FsOptions)
    → IsU32 fs
    → IsForwardClosed fs
    → merge_feature_flags_with_level level fs rs ≡ ok dest
    → IsForwardClosed dest
merge_feature_flags-IsForwardClosed level fs rs dest fits closed e =
    All-zip₃ supported_features
      (kept_in (feature_level_defaults level) fs (feature_clear_deps rs) dest
        (has-merge_feature_flags level fs rs dest fits e))
      (feature_level_defaults-IsForwardClosed level) closed (feature_clear_deps_closure rs).1
