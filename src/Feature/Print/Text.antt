-- ===== src/Feature/Print/Text.antt =====
-- The text that the printing functions write, against a plain description of it.
use debian_ocfs2_tools.Base.{
  ℕ, ◌≡◌, ◌∙◌, refl, Bool, false, ◌==◌, ◌||◌, not, List, [], ◌∷◌, ◌++◌, if◌then◌else◌, ok, err,
  no_space, inl, inr, Bool-cases, length, ltb, bit_or, All, ◌>>=◌, Result-cases,
}
use debian_ocfs2_tools.Base.Bits.Words.{meets}
use debian_ocfs2_tools.Feature.{FsOptions, no_options, merge_features, feature_match}
use debian_ocfs2_tools.Feature.Print.Words.{
  join_words, print_words, print_words-start, print_words-finish, unnamed, All-unnamed,
}
use debian_ocfs2_tools.Feature.Print.{
  FeatureName, feature_names, Printer, is_empty, print_name, start, differ, TunefsFlagName,
  tunefs_flag_names, print_tunefs_from, snprint_tunefs_flags,
}

-- The names of the flags that a set has, in the order of the table.
abbrev pub matching : List FeatureName → FsOptions → List (List ℕ)
matching [] flags = []
matching (n ∷ ns) flags =
    if feature_match flags n.fn_flag then n.fn_name ∷ matching ns flags else matching ns flags

-- The flags of a set that have a name.
abbrev pub named : List FeatureName → FsOptions → FsOptions → FsOptions
named [] flags found = found
named (n ∷ ns) flags found =
    named ns flags (if feature_match flags n.fn_flag then merge_features found n.fn_flag else found)

abbrev matching_tunefs : List TunefsFlagName → ℕ → List (List ℕ)
matching_tunefs [] flags = []
matching_tunefs (n ∷ ns) flags =
    if meets flags n.tfn_flag
    then n.tfn_name ∷ matching_tunefs ns flags
    else matching_tunefs ns flags

abbrev named_tunefs : List TunefsFlagName → ℕ → ℕ → ℕ
named_tunefs [] flags found = found
named_tunefs (n ∷ ns) flags found =
    named_tunefs ns flags (if meets flags n.tfn_flag then bit_or found n.tfn_flag else found)

print_tunefs_from-words :
    (ns : List TunefsFlagName) (flags found : ℕ) (p : Printer)
    → print_tunefs_from ns flags found p
      ≡ (print_words (matching_tunefs ns flags) p >>= λ p'. ok (named_tunefs ns flags found, p'))
unfolding print_tunefs_from print_words
print_tunefs_from-words [] flags found p = refl
print_tunefs_from-words (n ∷ ns) flags found p = elim (Bool-cases (meets flags n.tfn_flag)) [
  | inl m ↦ rw m (elim (Result-cases (print_name n.tfn_name p)) [
    | inl (p', e) ↦ rw e (print_tunefs_from-words ns flags (bit_or found n.tfn_flag) p')
    | inr (code, e) ↦ rw e
  ])
  | inr no_match ↦ rw no_match (print_tunefs_from-words ns flags found p)
]

-- What is to be printed: the names of the flags in the order of the table, then `unknown` if some
-- flag has no name.
abbrev pub printable : FsOptions → List (List ℕ)
printable flags =
    matching feature_names flags ++ unnamed (differ (named feature_names flags no_options) flags)

abbrev pub printable_tunefs : ℕ → List (List ℕ)
printable_tunefs flags =
    matching_tunefs tunefs_flag_names flags
    ++ unnamed (not (named_tunefs tunefs_flag_names flags 0 == flags))

matching_tunefs-nonempty :
    (ns : List TunefsFlagName) (flags : ℕ) (b : Bool)
    → All (λ n. is_empty n.tfn_name ≡ false) ns
    → All (λ w. is_empty w ≡ false) (matching_tunefs ns flags ++ unnamed b)
matching_tunefs-nonempty [] flags b h = All-unnamed b
matching_tunefs-nonempty (n ∷ ns) flags b h = elim (Bool-cases (meets flags n.tfn_flag)) [
  | inl m ↦ rw m (h.0, matching_tunefs-nonempty ns flags b h.1)
  | inr no_match ↦ rw no_match (matching_tunefs-nonempty ns flags b h.1)
]

-- For every buffer size the printed text of the flags of an interrupted tunefs.ocfs2 is the names of
-- the flags in the order of the table, with `unknown` behind them if some flag has no name,
-- separated by spaces; it is refused exactly where a text that is not empty does not leave room for
-- the terminator.
pub snprint_tunefs_flags-printable :
    (size : ℕ) (flags : ℕ)
    → snprint_tunefs_flags size flags ≡ (
        if is_empty (join_words (printable_tunefs flags))
          || ltb (length (join_words (printable_tunefs flags))) size
        then ok (join_words (printable_tunefs flags))
        else err no_space)
unfolding snprint_tunefs_flags
snprint_tunefs_flags-printable size flags =
    rw (print_tunefs_from-words tunefs_flag_names flags 0 (start size)) (
      print_words-finish (named_tunefs tunefs_flag_names flags 0) (λ found. not (found == flags))
        (matching_tunefs tunefs_flag_names flags) (start size)
      ∙ print_words-start size (printable_tunefs flags)
          (matching_tunefs-nonempty tunefs_flag_names flags _ (refl, (refl, tt))))
