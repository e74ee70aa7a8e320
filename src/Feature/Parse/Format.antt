-- ===== src/Feature/Parse/Format.antt =====
-- A list of features to set and to clear, written as the option string, is parsed back.
use mathlib.Core.List.{Memᴰ}
use debian_ocfs2_tools.Base.{
  ℕ, ◌≡◌, ◌∙◌, refl, sym, ap, Bool, true, false, ◌==◌, List, [], ◌∷◌, ◌++◌, map, some,
  if◌then◌else◌, ok, err, conflicting_features, arith, All, not, ◌&&◌, subst,
}
use debian_ocfs2_tools.Feature.Bitwise.{
  merge_features_assoc, merge_features-no_options, no_options-merge_features,
}
use debian_ocfs2_tools.Feature.Merge.{check_feature_flags-feature_match}
use debian_ocfs2_tools.Feature.{
  FsOptions, FeatureFlags, no_options, merge_features, feature_match, feature_clear_deps,
  supported_features,
}
use debian_ocfs2_tools.Feature.Parse.{
  comma, split_commas, strip_no, find_feature, parse_tokens, check_parsed, parse_feature,
}

-- A feature, and whether it is to be cleared.
abbrev pub Choice : Type 0
Choice = Bool × FeatureFlags

abbrev pub format_choice : Choice → List ℕ
format_choice (true, f) = b'n' ∷ b'o' ∷ f.ff_str
format_choice (false, f) = f.ff_str

-- The choices, separated by commas.
abbrev pub format_choices : List Choice → List ℕ
format_choices [] = []
format_choices (c ∷ []) = format_choice c
format_choices (c ∷ d ∷ cs) = format_choice c ++ (comma ∷ format_choices (d ∷ cs))

-- All that the features to set need.
abbrev pub enabled : List Choice → FsOptions
enabled [] = no_options
enabled ((true, f) ∷ cs) = enabled cs
enabled ((false, f) ∷ cs) = merge_features f.ff_flags (enabled cs)

-- The features to clear, themselves.
abbrev pub disabled : List Choice → FsOptions
disabled [] = no_options
disabled ((true, f) ∷ cs) = merge_features f.ff_own_flags (disabled cs)
disabled ((false, f) ∷ cs) = disabled cs

abbrev no_commas : List ℕ → Bool
no_commas [] = true
no_commas (c ∷ cs) = not (c == comma) && no_commas cs

abbrev is_empty : List ℕ → Bool
is_empty [] = true
is_empty (_ ∷ _) = false

-- What the parser needs to know of a name in the table.
record IsPlain (f : FeatureFlags) : Type 0 where
  no_comma : no_commas f.ff_str ≡ true
  nonempty : is_empty f.ff_str ≡ false
  positive : strip_no f.ff_str ≡ (false, f.ff_str)
  named : find_feature supported_features f.ff_str ≡ some f

supported_features-IsPlain : All IsPlain supported_features
unfolding strip_no find_feature
supported_features-IsPlain = (
  record { no_comma = refl; nonempty = refl; positive = refl; named = refl },
  (
    record { no_comma = refl; nonempty = refl; positive = refl; named = refl },
    (
      record { no_comma = refl; nonempty = refl; positive = refl; named = refl },
      (
        record { no_comma = refl; nonempty = refl; positive = refl; named = refl },
        (
          record { no_comma = refl; nonempty = refl; positive = refl; named = refl },
          (
            record { no_comma = refl; nonempty = refl; positive = refl; named = refl },
            (
              record { no_comma = refl; nonempty = refl; positive = refl; named = refl },
              (record { no_comma = refl; nonempty = refl; positive = refl; named = refl }, tt),
            ),
          ),
        ),
      ),
    ),
  ),
)

Mem-All : {A : Type 0} (P : A → Type 0) (x : A) (xs : List A) → All P xs → Memᴰ x xs → P x
Mem-All P x [] p m = elim m [ ]
Mem-All P x (y ∷ ys) p (Memᴰ.head e) = subst P (sym e) p.0
Mem-All P x (y ∷ ys) p (Memᴰ.tail m) = Mem-All P x ys p.1 m

-- A piece without a comma is cut off whole.
split_commas-append :
    (t rest : List ℕ)
    → no_commas t ≡ true
    → split_commas (t ++ (comma ∷ rest)) ≡ t ∷ split_commas rest
unfolding split_commas
split_commas-append [] rest h = refl
split_commas-append (c ∷ t) rest h = ground (arith, split_commas-append t rest)

split_commas-plain : (t : List ℕ) → no_commas t ≡ true → split_commas t ≡ t ∷ []
unfolding split_commas
split_commas-plain [] h = refl
split_commas-plain (c ∷ t) h = ground (arith, split_commas-plain t)

format_choice-no_commas : (c : Choice) → IsPlain c.1 → no_commas (format_choice c) ≡ true
format_choice-no_commas (true, f) p = p.no_comma
format_choice-no_commas (false, f) p = p.no_comma

split_commas-format :
    (c : Choice) (cs : List Choice)
    → All (λ c. IsPlain c.1) (c ∷ cs)
    → split_commas (format_choices (c ∷ cs)) ≡ map format_choice (c ∷ cs)
split_commas-format c [] p = split_commas-plain (format_choice c) (format_choice-no_commas c p.0)
split_commas-format c (d ∷ cs) p =
    split_commas-append (format_choice c) (format_choices (d ∷ cs)) (format_choice-no_commas c p.0)
    ∙ ap (λ ts. format_choice c ∷ ts) (split_commas-format d cs p.1)

-- One token that names a feature of the table.
parse_tokens-found :
    (t : List ℕ) (ts : List (List ℕ)) (a b : FsOptions) (f : FeatureFlags)
    → is_empty t ≡ false
    → find_feature supported_features (strip_no t).1 ≡ some f
    → parse_tokens (t ∷ ts) a b
      ≡ parse_tokens ts
          (if (strip_no t).0 then a else merge_features a f.ff_flags)
          (if (strip_no t).0 then merge_features b f.ff_own_flags else b)
unfolding parse_tokens
parse_tokens-found [] ts a b f h e = cc
parse_tokens-found (c ∷ cs) ts a b f h e = rw (e, parse_tokens)

parse_tokens-choices :
    (cs : List Choice) (a b : FsOptions)
    → All (λ c. IsPlain c.1) cs
    → parse_tokens (map format_choice cs) a b
      ≡ ok (merge_features a (enabled cs), merge_features b (disabled cs))
unfolding parse_tokens strip_no
parse_tokens-choices [] a b p = rw (merge_features-no_options a, merge_features-no_options b)
parse_tokens-choices ((true, f) ∷ cs) a b p =
    parse_tokens-found (format_choice (true, f)) (map format_choice cs) a b f refl p.0.named
    ∙ parse_tokens-choices cs a (merge_features b f.ff_own_flags) p.1
    ∙ rw (merge_features_assoc b f.ff_own_flags (disabled cs))
parse_tokens-choices ((false, f) ∷ cs) a b p =
    parse_tokens-found f.ff_str (map format_choice cs) a b f p.0.nonempty
      (rw (p.0.positive) p.0.named)
    ∙ rw p.0.positive refl
    ∙ parse_tokens-choices cs (merge_features a f.ff_flags) b p.1
    ∙ rw (merge_features_assoc a f.ff_flags (enabled cs))

parse_format-choices :
    (cs : List Choice)
    → All (λ c. IsPlain c.1) cs
    → parse_tokens (split_commas (format_choices cs)) no_options no_options
      ≡ ok (enabled cs, disabled cs)
unfolding parse_tokens split_commas
parse_format-choices [] p = refl
parse_format-choices (c ∷ cs) p =
    ap (λ ts. parse_tokens ts no_options no_options) (split_commas-format c cs p)
    ∙ parse_tokens-choices (c ∷ cs) no_options no_options p
    ∙ rw (
      no_options-merge_features (enabled (c ∷ cs)),
      no_options-merge_features (disabled (c ∷ cs)),
    )

-- The option string of any choice of the table's features is parsed back: to the features asked for
-- with all that they depend on, and to the closed set of the features to clear; it is refused as a
-- conflict exactly where these two share a flag.
pub parse_feature-format_choices :
    (cs : List Choice)
    → All (λ c. Memᴰ c.1 supported_features) cs
    → parse_feature (format_choices cs) ≡ (
        if feature_match (enabled cs) (feature_clear_deps (disabled cs))
        then err conflicting_features
        else ok (enabled cs, feature_clear_deps (disabled cs)))
unfolding parse_feature check_parsed
parse_feature-format_choices cs inside = rw (parse_format-choices cs (All-map cs inside)) (
    rw (check_feature_flags-feature_match (enabled cs) (feature_clear_deps (disabled cs)))
      (ground arith))
  where
    All-map :
        (cs : List Choice) → All (λ c. Memᴰ c.1 supported_features) cs → All (λ c. IsPlain c.1) cs
    All-map [] m = tt
    All-map (c ∷ cs) m =
        (Mem-All IsPlain c.1 supported_features supported_features-IsPlain m.0, All-map cs m.1)
