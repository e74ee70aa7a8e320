-- ===== src/Feature/Examples.antt =====
-- Runs of feature_string.c on concrete strings, and its theorems at concrete inputs.
use mathlib.Core.List.{Memᴰ}
use debian_ocfs2_tools.Base.{
  ℕ, ◌≡◌, refl, true, ◌&&◌, ◌||◌, not, List, [], ◌∷◌, if◌then◌else◌, ok, err, codes, no_space,
  unsupp_feature, conflicting_features, arith, ◌↔◌, length, ltb,
}
use debian_ocfs2_tools.Feature.Bitwise.{incompat_word, has, Shared}
use debian_ocfs2_tools.Feature.Deps.{Subset, IsReverseClosed, feature_clear_deps_closure}
use debian_ocfs2_tools.Feature.Merge.{
  IsForwardClosed, merge_conflict_iff, has-merge_feature_flags, merge_feature_flags-IsForwardClosed,
}
use debian_ocfs2_tools.Feature.Parse.{
  split_commas, strip_no, find_feature, parse_tokens, check_parsed, parse_feature,
  parse_feature_level,
}
use debian_ocfs2_tools.Feature.Parse.Closed.{IsRequest, parse_feature-ok}
use debian_ocfs2_tools.Feature.Parse.Format.{
  Choice, enabled, disabled, parse_feature-format_choices,
}
use debian_ocfs2_tools.Feature.Print.{
  print_name, print_features_from, differ, snprint_feature_flags, is_empty, snprint_tunefs_flags,
}
use debian_ocfs2_tools.Feature.Print.Words.{join_words}
use debian_ocfs2_tools.Feature.Print.Text.{printable_tunefs, snprint_tunefs_flags-printable}
use debian_ocfs2_tools.Feature.{
  FsOptions, FeatureFlags, no_options, level_default, level_max_compat, feature_level_defaults,
  feature_match, merge_features, clear_dep, feature_clear_deps, clear_features,
  merge_feature_flags_with_level, check_feature_flags, incompat, unwritten_flags,
}

-- `nosparse` clears unwritten extents too.
abbrev nosparse : FsOptions
nosparse = incompat 0x10

clear_deps-nosparse :
    feature_clear_deps nosparse ≡ record { opt_compat = 0; opt_incompat = 0x10; opt_ro_compat = 1 }
unfolding feature_clear_deps clear_dep feature_match merge_features
clear_deps-nosparse = refl

abbrev mixed : List ℕ
mixed = codes "unwritten,noxattr"

abbrev mixed_clear : FsOptions
mixed_clear = incompat 0x200

mixed_parses : parse_feature mixed ≡ ok (unwritten_flags, mixed_clear)
unfolding parse_feature split_commas strip_no find_feature parse_tokens check_parsed
    feature_clear_deps clear_dep feature_match merge_features check_feature_flags
mixed_parses = refl

-- The loop stops at an empty token, whatever follows it.
empty_token_stops : parse_feature (codes "xattr,,nonsense") ≡ ok (incompat 0x200, no_options)
unfolding parse_feature split_commas strip_no find_feature parse_tokens check_parsed
    feature_clear_deps clear_dep feature_match merge_features check_feature_flags
empty_token_stops = refl

unknown_feature : parse_feature (codes "sparse,quota") ≡ err unsupp_feature
unfolding parse_feature split_commas strip_no find_feature parse_tokens check_parsed
    feature_clear_deps clear_dep feature_match merge_features check_feature_flags
unknown_feature = refl

max_compat_level : parse_feature_level (codes "max-compat") ≡ ok level_max_compat
unfolding parse_feature_level
max_compat_level = refl

feature_clear_deps_closure_example :
    Subset nosparse (feature_clear_deps nosparse)
    × IsReverseClosed (feature_clear_deps nosparse)
    × ((c : FsOptions)
        → Subset nosparse c
        → IsReverseClosed c
        → Subset (feature_clear_deps nosparse) c)
feature_clear_deps_closure_example = feature_clear_deps_closure nosparse

parse_feature-ok_example :
    IsRequest unwritten_flags × IsReverseClosed mixed_clear × ¬ Shared unwritten_flags mixed_clear
parse_feature-ok_example = parse_feature-ok mixed unwritten_flags mixed_clear mixed_parses

abbrev merged : FsOptions
merged = record { opt_compat = 3; opt_incompat = 0x50; opt_ro_compat = 1 }

merged_is : merge_feature_flags_with_level level_default unwritten_flags mixed_clear ≡ ok merged
unfolding merge_feature_flags_with_level feature_clear_deps clear_dep feature_match merge_features
    check_feature_flags clear_features
merged_is = refl

merge_feature_flags-IsForwardClosed_example : IsForwardClosed merged
merge_feature_flags-IsForwardClosed_example =
    merge_feature_flags-IsForwardClosed level_default unwritten_flags mixed_clear merged
      parse_feature-ok_example.0.fits parse_feature-ok_example.0.closed merged_is

has-merge_feature_flags_example :
    has incompat_word 9 merged
    ≡ (has incompat_word 9 (feature_level_defaults level_default)
        || has incompat_word 9 unwritten_flags)
      && not (has incompat_word 9 (feature_clear_deps mixed_clear))
has-merge_feature_flags_example =
    has-merge_feature_flags level_default unwritten_flags mixed_clear merged (omega arith) merged_is
      incompat_word 9

merge_conflict_iff_example :
    (merge_feature_flags_with_level level_default unwritten_flags nosparse
      ≡ err conflicting_features)
    ↔ Shared unwritten_flags (feature_clear_deps nosparse)
merge_conflict_iff_example = merge_conflict_iff level_default unwritten_flags nosparse

abbrev sparse_entry : FeatureFlags
sparse_entry = record {
  ff_str = codes "sparse";
  ff_own_flags = incompat 0x10;
  ff_flags = incompat 0x10;
}

abbrev choices : List Choice
choices = (true, sparse_entry) ∷ []

parse_feature-format_choices_example : parse_feature (codes "nosparse") ≡ (
    if feature_match (enabled choices) (feature_clear_deps (disabled choices))
    then err conflicting_features
    else ok (enabled choices, feature_clear_deps (disabled choices)))
parse_feature-format_choices_example =
    parse_feature-format_choices choices (Memᴰ.tail (Memᴰ.head refl), tt)

snprint_merged :
    snprint_feature_flags 64 merged
    ≡ ok (codes "sparse backup-super unwritten inline-data strict-journal-super")
unfolding snprint_feature_flags print_features_from print_name feature_match merge_features differ
snprint_merged = refl

snprint_tunefs_flags-printable_example : snprint_tunefs_flags 64 5 ≡ (
    if is_empty (join_words (printable_tunefs 5))
      || ltb (length (join_words (printable_tunefs 5))) 64
    then ok (join_words (printable_tunefs 5))
    else err no_space)
snprint_tunefs_flags-printable_example = snprint_tunefs_flags-printable 64 5
