-- ===== src/Feature/Parse.antt =====
-- `ocfs2_parse_feature` and `ocfs2_parse_feature_level`: the strings given to `--fs-features` and
-- `--fs-feature-level`. What the source leaves in its out parameters on an error is not modelled.
pub mod Closed
pub mod Format
use debian_ocfs2_tools.Base.{
  ℕ, ◌≡◌, Bool, true, false, ◌&&◌, ◌==◌, List, [], ◌∷◌, Option, none, some, if◌then◌else◌, Result,
  ok, err, unsupp_feature, conflicting_features, require, ◌>>◌, ◌>>=◌, str_eq,
}
use debian_ocfs2_tools.Feature.{
  FsOptions, FeatureFlags, FeatureLevel, no_options, merge_features, check_feature_flags,
  feature_clear_deps, supported_features, feature_levels_table,
}

abbrev pub comma : ℕ
comma = b','

abbrev pub prepend : ℕ → List (List ℕ) → List (List ℕ)
prepend c [] = (c ∷ []) ∷ []
prepend c (token ∷ tokens) = (c ∷ token) ∷ tokens

-- The pieces that `strchr(token, ',')` cuts the string into.
unfoldable pub split_commas : List ℕ → List (List ℕ)
split_commas [] = [] ∷ []
split_commas (c ∷ cs) =
    let rest = split_commas cs in if c == comma then [] ∷ rest else prepend c rest

-- `strstr(token, "no") == token`: whether the feature is to be cleared, and its name.
unfoldable pub strip_no : List ℕ → Bool × List ℕ
strip_no (a ∷ b ∷ name) = if a == b'n' && b == b'o' then (true, name) else (false, a ∷ b ∷ name)
strip_no name = (false, name)

-- The search of `ocfs2_supported_features` by name.
unfoldable pub find_feature : List FeatureFlags → List ℕ → Option FeatureFlags
unfolding str_eq
find_feature [] name = none
find_feature (f ∷ fs) name = if str_eq name f.ff_str then some f else find_feature fs name

-- The loop over the tokens; it stops at an empty one.
unfoldable pub parse_tokens : List (List ℕ) → FsOptions → FsOptions → Result (FsOptions × FsOptions)
parse_tokens [] feature_flags reverse_flags = ok (feature_flags, reverse_flags)
parse_tokens ([] ∷ tokens) feature_flags reverse_flags = ok (feature_flags, reverse_flags)
parse_tokens ((c ∷ cs) ∷ tokens) feature_flags reverse_flags =
    let (reverse, name) = strip_no (c ∷ cs) in
    elim (find_feature supported_features name) [
      | none ↦ err unsupp_feature
      | some f ↦
          parse_tokens tokens
            (if reverse then feature_flags else merge_features feature_flags f.ff_flags)
            (if reverse then merge_features reverse_flags f.ff_own_flags else reverse_flags)
    ]

-- The end of `ocfs2_parse_feature`, after the loop.
unfoldable pub check_parsed : FsOptions → FsOptions → Result (FsOptions × FsOptions)
check_parsed feature_flags reverse_flags = do
  let reverse = feature_clear_deps reverse_flags
  require (check_feature_flags feature_flags reverse) conflicting_features
  ok (feature_flags, reverse)

unfoldable pub parse_feature : List ℕ → Result (FsOptions × FsOptions)
parse_feature opts = do
  (feature_flags, reverse_flags) ← parse_tokens (split_commas opts) no_options no_options
  check_parsed feature_flags reverse_flags

unfoldable pub find_level : List (List ℕ × FeatureLevel) → List ℕ → Result FeatureLevel
unfolding str_eq
find_level [] typestr = err unsupp_feature
find_level ((name, level) ∷ rest) typestr =
    if str_eq typestr name then ok level else find_level rest typestr

unfoldable pub parse_feature_level : List ℕ → Result FeatureLevel
unfolding find_level
parse_feature_level typestr = find_level feature_levels_table typestr
