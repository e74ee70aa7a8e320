-- ===== src/Feature/Parse/Closed.antt =====
-- What holds of every pair of feature sets that `ocfs2_parse_feature` accepts.
use debian_ocfs2_tools.Base.{
  ℕ, ◌≡◌, refl, Bool, true, false, List, [], ◌∷◌, some, if◌then◌else◌, ok, inl, inr, arith, All,
  Bool-cases, Option-cases, str_eq, Result-cases,
}
use mathlib.Core.Path.{subst}
use debian_ocfs2_tools.Feature.Bitwise.{
  Word, has, Shared, IsU32, has-merge_features, merge_features-IsU32, feature_match-Shared,
  Shared-feature_match,
}
use debian_ocfs2_tools.Feature.Deps.{Subset, IsReverseClosed, feature_clear_deps_closure}
use debian_ocfs2_tools.Feature.Merge.{
  IsForwardClosed, IsForwardClosed-from, both_words, check_feature_flags-feature_match,
}
use debian_ocfs2_tools.Feature.{
  FsOptions, FeatureFlags, no_options, merge_features, feature_match, feature_clear_deps,
  supported_features, unwritten_flags,
}
use debian_ocfs2_tools.Base.Bits.{test_bit}
use debian_ocfs2_tools.Base.Bits.Words.{meets}
use debian_ocfs2_tools.Feature.Parse.{
  strip_no, find_feature, parse_tokens, check_parsed, parse_feature, split_commas,
}

-- What the search finds has each property that the table's entries have.
pub find_feature-All :
    (P : FeatureFlags → Type 0) (fs : List FeatureFlags) (name : List ℕ) (f : FeatureFlags)
    → All P fs
    → find_feature fs name ≡ some f
    → P f
unfolding find_feature
find_feature-All P [] name f p e = cc
find_feature-All P (g ∷ fs) name f p e = elim (Bool-cases (str_eq name g.ff_str)) [
  | inl m ↦ let found : some g ≡ some f = rw m at e in let same : g ≡ f = cc in subst P same p.0
  | inr n ↦ find_feature-All P fs name f p.1 (rw n at e)
]

check_parsed-eq :
    (a b ff rf : FsOptions)
    → check_parsed a b ≡ ok (ff, rf)
    → (ff ≡ a) × (rf ≡ feature_clear_deps b) × (feature_match a (feature_clear_deps b) ≡ false)
unfolding check_parsed
check_parsed-eq a b ff rf e =
    ground (arith, check_feature_flags-feature_match a (feature_clear_deps b))

merge_features-closed :
    (a b : FsOptions) (f : FeatureFlags)
    → (feature_match a f.ff_own_flags ≡ true → Subset f.ff_flags a)
    → (feature_match b f.ff_own_flags ≡ true → Subset f.ff_flags b)
    → (feature_match (merge_features a b) f.ff_own_flags ≡ true
        → Subset f.ff_flags (merge_features a b))
merge_features-closed a b f of_a of_b m = elim (Bool-cases (has w i a)) [
  | inl h ↦
      let sub = of_a (Shared-feature_match a f.ff_own_flags (w, i, h, shared.3)) in
      record { within = λ w i h. ground (arith, has-merge_features w i a b, sub.within w i h) }
  | inr n ↦
      let h : has w i b ≡ true = ground (arith, has-merge_features w i a b, shared.2) in
      let sub = of_b (Shared-feature_match b f.ff_own_flags (w, i, h, shared.3)) in
      record {
        within = λ w i h.
            ground (arith, has-merge_features w i a b, sub.within w i h, Bool-cases (has w i a));
      }
]
  where
    shared : Shared (merge_features a b) f.ff_own_flags
    shared = feature_match-Shared _ _ m

    w : Word
    w = shared.0

    i : ℕ
    i = shared.1

All-zip :
    {A : Type 0} {P Q R : A → Type 0} (xs : List A)
    → ((x : A) → P x → Q x → R x)
    → All P xs
    → All Q xs
    → All R xs
All-zip [] f p q = tt
All-zip (x ∷ xs) f p q = (f x p.0 q.0, All-zip xs f p.1 q.1)

-- The sets that the tokens ask for: 32-bit words, with all that each feature depends on.
pub record IsRequest (o : FsOptions) : Type 0 where
  pub fits : IsU32 o
  pub closed : IsForwardClosed o

merge_features-IsRequest :
    (a b : FsOptions) → IsRequest a → IsRequest b → IsRequest (merge_features a b)
merge_features-IsRequest a b p q = record {
  fits = merge_features-IsU32 a b p.fits q.fits;
  closed = All-zip supported_features (merge_features-closed a b) p.closed q.closed;
}

no_options-IsRequest : IsRequest no_options
unfolding feature_match meets
no_options-IsRequest = record { fits = omega arith; closed = IsForwardClosed-from _ (λ h. cc) }

-- Each entry of the table asks for a request that is closed.
supported_features-IsRequest : All (λ f. IsRequest f.ff_flags) supported_features
unfolding feature_match meets test_bit
supported_features-IsRequest = (
  record { fits = omega arith; closed = IsForwardClosed-from _ (λ h. cc) },
  (
    record { fits = omega arith; closed = IsForwardClosed-from _ (λ h. cc) },
    (
      record { fits = omega arith; closed = IsForwardClosed-from _ (λ h. cc) },
      (
        record {
          fits = omega arith;
          closed = IsForwardClosed-from _ (λ _. both_words unwritten_flags refl refl);
        },
        (
          record { fits = omega arith; closed = IsForwardClosed-from _ (λ h. cc) },
          (
            record { fits = omega arith; closed = IsForwardClosed-from _ (λ h. cc) },
            (
              record { fits = omega arith; closed = IsForwardClosed-from _ (λ h. cc) },
              (record { fits = omega arith; closed = IsForwardClosed-from _ (λ h. cc) }, tt),
            ),
          ),
        ),
      ),
    ),
  ),
)

next_request :
    (reverse : Bool) (a flags : FsOptions)
    → IsRequest a
    → IsRequest flags
    → IsRequest (if reverse then a else merge_features a flags)
next_request true a flags p q = p
next_request false a flags p q = merge_features-IsRequest a flags p q

-- The loop keeps the set that is asked for a closed one.
parse_tokens-IsRequest :
    (tokens : List (List ℕ)) (a b ff rf : FsOptions)
    → IsRequest a
    → parse_tokens tokens a b ≡ ok (ff, rf)
    → IsRequest ff
unfolding parse_tokens
parse_tokens-IsRequest [] a b ff rf h e = let same : a ≡ ff = ground arith in subst IsRequest same h
parse_tokens-IsRequest ([] ∷ tokens) a b ff rf h e =
    let same : a ≡ ff = ground arith in subst IsRequest same h
parse_tokens-IsRequest ((c ∷ cs) ∷ tokens) a b ff rf h e =
    elim (Option-cases (find_feature supported_features (strip_no (c ∷ cs)).1)) [
      | inl n ↦ cc (rw (n, parse_tokens) at e)
      | inr (f, found) ↦
          let of_f =
            find_feature-All (λ f. IsRequest f.ff_flags) supported_features (strip_no (c ∷ cs)).1 f
              supported_features-IsRequest found in
          parse_tokens-IsRequest tokens _ _ ff rf
            (next_request (strip_no (c ∷ cs)).0 a f.ff_flags h of_f) (rw (found, parse_tokens) at e)
    ]

-- A string that is accepted gives a set of features to set that holds all that each of them depends
-- on, a set of features to clear that holds all that depend on each of them, and no feature in both.
pub parse_feature-ok :
    (opts : List ℕ) (ff rf : FsOptions)
    → parse_feature opts ≡ ok (ff, rf)
    → IsRequest ff × IsReverseClosed rf × ¬ Shared ff rf
unfolding parse_feature
parse_feature-ok opts ff rf e =
    elim (Result-cases (parse_tokens (split_commas opts) no_options no_options)) [
      | inr (code, failed) ↦ cc (rw failed at e)
      | inl ((a, b), parsed) ↦
          let (same, closed, apart) = check_parsed-eq a b ff rf (rw parsed at e) in
          let request =
            parse_tokens-IsRequest (split_commas opts) no_options no_options a b
              no_options-IsRequest parsed in
          (
            rw same request,
            rw closed (feature_clear_deps_closure b).1,
            λ shared. cc (apart, closed, same, Shared-feature_match ff rf shared),
          )
    ]
