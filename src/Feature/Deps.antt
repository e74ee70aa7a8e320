-- ===== src/Feature/Deps.antt =====
-- `ocfs2_feature_clear_deps`: clearing a feature clears what depends on it.
use debian_ocfs2_tools.Base.{
  ℕ, ◌^◌, ◌≡◌, sym, ◌∙◌, true, inl, inr, Bool-cases, arith, List, [], ◌∷◌, All, codes,
}
use mathlib.Core.Bool.{false≢true}
use debian_ocfs2_tools.Base.Bits.{test_bit}
use debian_ocfs2_tools.Base.Bits.Words.{
  meets-zero, meets-power, bit_or-zero, bit_or-power, test_bit-zero, at_power,
}
use debian_ocfs2_tools.Feature.Bitwise.{
  Word, compat_word, incompat_word, ro_compat_word, has, has-merge_features, feature_match-Shared,
  Shared-feature_match,
}
use debian_ocfs2_tools.Feature.{
  FsOptions, FeatureFlags, merge_features, feature_match, clear_dep, clear_deps_from,
  feature_clear_deps, supported_features, standalone, compat, incompat, ro_compat,
  ro_compat_unwritten, unwritten_flags,
}

-- Every flag of one set is in the other.
pub record Subset (a b : FsOptions) : Type 0 where
  pub within : (w : Word) (i : ℕ) → has w i a ≡ true → has w i b ≡ true

-- A set of features to clear that holds each feature which depends on one in the set.
abbrev pub IsReverseClosed : FsOptions → Type 0
IsReverseClosed r =
    All (λ f. feature_match r f.ff_flags ≡ true → Subset f.ff_own_flags r) supported_features

module _ (r : FsOptions) where
  Subset-refl : Subset r r
  Subset-refl = record { within = λ w i h. h }

  merge_features-left : (f : FsOptions) → Subset r (merge_features r f)
  merge_features-left f = record { within = λ w i h. ground (arith, has-merge_features w i r f) }

  clear_dep-grows : (f : FeatureFlags) → Subset r (clear_dep r f)
  unfolding clear_dep
  clear_dep-grows f = elim (Bool-cases (feature_match r f.ff_flags)) [
    | inl m ↦ rw m (merge_features-left f.ff_own_flags)
    | inr n ↦ rw n Subset-refl
  ]

Subset-trans : (a b c : FsOptions) → Subset a b → Subset b c → Subset a c
Subset-trans a b c p q = record { within = λ w i h. q.within w i (p.within w i h) }

clear_deps_from-grows : (r : FsOptions) (fs : List FeatureFlags) → Subset r (clear_deps_from r fs)
unfolding clear_deps_from
clear_deps_from-grows r [] = Subset-refl r
clear_deps_from-grows r (f ∷ fs) =
    Subset-trans r (clear_dep r f) _ (clear_dep-grows r f)
      (clear_deps_from-grows (clear_dep r f) fs)

-- A closed superset of a set holds all that one step adds.
clear_dep-least :
    (r c : FsOptions) (f : FeatureFlags)
    → Subset r c
    → (feature_match c f.ff_flags ≡ true → Subset f.ff_own_flags c)
    → Subset (clear_dep r f) c
unfolding clear_dep
clear_dep-least r c f sub closed = elim (Bool-cases (feature_match r f.ff_flags)) [
  | inl m ↦
      let (w, i, p, q) = feature_match-Shared r f.ff_flags m in
      let own : Subset f.ff_own_flags c =
        closed (Shared-feature_match c f.ff_flags (w, i, sub.within w i p, q)) in
      rw m (record { within = λ w i h. added w i (sub.within w i) (own.within w i) h })
  | inr n ↦ rw n sub
]
  where
    added :
        (w : Word) (i : ℕ)
        → (has w i r ≡ true → has w i c ≡ true)
        → (has w i f.ff_own_flags ≡ true → has w i c ≡ true)
        → has w i (merge_features r f.ff_own_flags) ≡ true
        → has w i c ≡ true
    added w i old new h = ground (arith, has-merge_features w i r f.ff_own_flags)

clear_deps_from-least :
    (r c : FsOptions) (fs : List FeatureFlags)
    → Subset r c
    → All (λ f. feature_match c f.ff_flags ≡ true → Subset f.ff_own_flags c) fs
    → Subset (clear_deps_from r fs) c
unfolding clear_deps_from
clear_deps_from-least r c [] sub closed = sub
clear_deps_from-least r c (f ∷ fs) sub closed =
    clear_deps_from-least (clear_dep r f) c fs (clear_dep-least r c f sub closed.0) closed.1

-- A feature with one flag that depends on nothing adds nothing to a set.
module _ (r : FsOptions) (k : ℕ) (name : List ℕ) where
  clear_dep-compat : clear_dep r (standalone name (compat (2 ^ k))) ≡ r
  unfolding clear_dep feature_match merge_features
  clear_dep-compat = elim (Bool-cases (test_bit k r.opt_compat)) [
    | inl set ↦ ground (
      arith,
      meets-power r.opt_compat k,
      bit_or-power r.opt_compat k set,
      bit_or-zero r.opt_incompat,
      bit_or-zero r.opt_ro_compat,
    )
    | inr clear ↦
        ground
          (arith, meets-power r.opt_compat k, meets-zero r.opt_incompat, meets-zero r.opt_ro_compat)
  ]

  clear_dep-incompat : clear_dep r (standalone name (incompat (2 ^ k))) ≡ r
  unfolding clear_dep feature_match merge_features
  clear_dep-incompat = elim (Bool-cases (test_bit k r.opt_incompat)) [
    | inl set ↦ ground (
      arith,
      meets-power r.opt_incompat k,
      bit_or-power r.opt_incompat k set,
      bit_or-zero r.opt_compat,
      bit_or-zero r.opt_ro_compat,
    )
    | inr clear ↦
        ground
          (arith, meets-power r.opt_incompat k, meets-zero r.opt_compat, meets-zero r.opt_ro_compat)
  ]

abbrev unwritten : FeatureFlags
unwritten = record {
  ff_str = codes "unwritten";
  ff_own_flags = ro_compat ro_compat_unwritten;
  ff_flags = unwritten_flags;
}

-- Over the table as it stands only `unwritten` depends on another feature, `sparse`.
feature_clear_deps-unwritten : (r : FsOptions) → feature_clear_deps r ≡ clear_dep r unwritten
unfolding feature_clear_deps
feature_clear_deps-unwritten r = rw (
  clear_dep-incompat r 3 (codes "local"),
  clear_dep-incompat r 4 (codes "sparse"),
  clear_dep-compat r 0 (codes "backup-super"),
  clear_dep-incompat (clear_dep r unwritten) 8 (codes "extended-slotmap"),
  clear_dep-incompat (clear_dep r unwritten) 6 (codes "inline-data"),
  clear_dep-incompat (clear_dep r unwritten) 11 (codes "metaecc"),
  clear_dep-incompat (clear_dep r unwritten) 9 (codes "xattr"),
)

-- A set that meets a single flag holds it.
module _ (c : FsOptions) (k : ℕ) where
  pub closed-compat : feature_match c (compat (2 ^ k)) ≡ true → Subset (compat (2 ^ k)) c
  unfolding feature_match
  closed-compat m =
      let here : test_bit k c.opt_compat ≡ true = ground (
        arith,
        meets-power c.opt_compat k,
        meets-zero c.opt_incompat,
        meets-zero c.opt_ro_compat,
      ) in
      record { within = within_compat here }
    where
      within_compat :
          test_bit k c.opt_compat ≡ true
          → (w : Word) (i : ℕ) → has w i (compat (2 ^ k)) ≡ true
          → has w i c ≡ true
      within_compat here compat_word i h = at_power k i c.opt_compat here h
      within_compat here incompat_word i h = cc (h, test_bit-zero i)
      within_compat here ro_compat_word i h = cc (h, test_bit-zero i)

  pub closed-incompat : feature_match c (incompat (2 ^ k)) ≡ true → Subset (incompat (2 ^ k)) c
  unfolding feature_match
  closed-incompat m =
      let here : test_bit k c.opt_incompat ≡ true = ground (
        arith,
        meets-power c.opt_incompat k,
        meets-zero c.opt_compat,
        meets-zero c.opt_ro_compat,
      ) in
      record { within = within_incompat here }
    where
      within_incompat :
          test_bit k c.opt_incompat ≡ true
          → (w : Word) (i : ℕ) → has w i (incompat (2 ^ k)) ≡ true
          → has w i c ≡ true
      within_incompat here compat_word i h = cc (h, test_bit-zero i)
      within_incompat here incompat_word i h = at_power k i c.opt_incompat here h
      within_incompat here ro_compat_word i h = cc (h, test_bit-zero i)

merge_features-right : (r f : FsOptions) → Subset f (merge_features r f)
merge_features-right r f = record {
  within = λ w i h. ground (arith, has-merge_features w i r f, Bool-cases (has w i r));
}

clear_dep-closed :
    (r : FsOptions) (f : FeatureFlags)
    → feature_match (clear_dep r f) f.ff_flags ≡ true
    → Subset f.ff_own_flags (clear_dep r f)
unfolding clear_dep
clear_dep-closed r f h = elim (Bool-cases (feature_match r f.ff_flags)) [
  | inl m ↦ rw m (merge_features-right r f.ff_own_flags)
  | inr n ↦ absurd (false≢true (sym n ∙ (rw n at h)))
]

clear_dep-unwritten-IsReverseClosed : (r : FsOptions) → IsReverseClosed (clear_dep r unwritten)
clear_dep-unwritten-IsReverseClosed r =
    let c = clear_dep r unwritten in
    let dependent = clear_dep-closed r unwritten in
    (
      closed-incompat c 3,
      (
        closed-incompat c 4,
        (
          closed-compat c 0,
          (
            dependent,
            (
              closed-incompat c 8,
              (closed-incompat c 6, (closed-incompat c 11, (closed-incompat c 9, tt))),
            ),
          ),
        ),
      ),
    )

-- `ocfs2_feature_clear_deps` gives the least set that holds the given one and is closed: it holds
-- every feature that depends on one in the set, and it lies in every such set.
pub feature_clear_deps_closure :
    (r : FsOptions)
    → Subset r (feature_clear_deps r)
      × IsReverseClosed (feature_clear_deps r)
      × ((c : FsOptions) → Subset r c → IsReverseClosed c → Subset (feature_clear_deps r) c)
feature_clear_deps_closure r = (
  unfold feature_clear_deps in clear_deps_from-grows r supported_features,
  rw (feature_clear_deps-unwritten r) (clear_dep-unwritten-IsReverseClosed r),
  λ d sub closed.
      unfold feature_clear_deps in clear_deps_from-least r d supported_features sub closed,
)
