-- ===== src/Feature.antt =====
-- libocfs2/feature_string.c: the feature flags of a file system, their names, and the tables that
-- mkfs.ocfs2 and tunefs.ocfs2 read. The three words of `ocfs2_fs_options` are 32-bit numbers.
pub mod Incompat
pub mod Bitwise
pub mod Deps
pub mod Merge
pub mod Parse
pub mod Print
mod Examples
use debian_ocfs2_tools.Base.{
  ℕ, Bool, true, false, List, [], ◌∷◌, bit_or, codes, ◌&&◌, ◌||◌, not, ◌==◌, if◌then◌else◌, Result,
  ok, err, conflicting_features, require, ◌>>◌, ◌>>=◌,
}
use debian_ocfs2_tools.Base.Bits.Words.{meets, bit_clear}

-- `ocfs2_fs_options`
pub record FsOptions : Type 0 where
  pub opt_compat : ℕ
  pub opt_incompat : ℕ
  pub opt_ro_compat : ℕ

abbrev pub no_options : FsOptions
no_options = record { opt_compat = 0; opt_incompat = 0; opt_ro_compat = 0 }

-- The compat and ro_compat flags of include/ocfs2-kernel/ocfs2_fs.h; the incompat ones are in
-- `Incompat`.
abbrev pub compat_backup_sb : ℕ
compat_backup_sb = 0x0001

abbrev pub compat_jbd2_sb : ℕ
compat_jbd2_sb = 0x0002

abbrev pub ro_compat_unwritten : ℕ
ro_compat_unwritten = 0x0001

-- One flag of one word, as the tables write it.
abbrev pub compat : ℕ → FsOptions
compat x = record { opt_compat = x; opt_incompat = 0; opt_ro_compat = 0 }

abbrev pub incompat : ℕ → FsOptions
incompat x = record { opt_compat = 0; opt_incompat = x; opt_ro_compat = 0 }

abbrev pub ro_compat : ℕ → FsOptions
ro_compat x = record { opt_compat = 0; opt_incompat = 0; opt_ro_compat = x }

-- `struct fs_feature_flags`: a feature's own flag, and that flag with all that it depends on.
pub record FeatureFlags : Type 0 where
  pub ff_str : List ℕ
  pub ff_own_flags : FsOptions
  pub ff_flags : FsOptions

abbrev pub standalone : List ℕ → FsOptions → FeatureFlags
standalone name flags = record { ff_str = name; ff_own_flags = flags; ff_flags = flags }

abbrev pub unwritten_flags : FsOptions
unwritten_flags = record {
  opt_compat = 0;
  opt_incompat = Incompat.sparse_alloc;
  opt_ro_compat = ro_compat_unwritten;
}

-- `ocfs2_supported_features`, without the entry that ends the table.
abbrev pub supported_features : List FeatureFlags
supported_features =
    standalone (codes "local") (incompat Incompat.local_mount)
    ∷ standalone (codes "sparse") (incompat Incompat.sparse_alloc)
    ∷ standalone (codes "backup-super") (compat compat_backup_sb)
    ∷ record {
      ff_str = codes "unwritten";
      ff_own_flags = ro_compat ro_compat_unwritten;
      ff_flags = unwritten_flags;
    }
    ∷ standalone (codes "extended-slotmap") (incompat Incompat.extended_slot_map)
    ∷ standalone (codes "inline-data") (incompat Incompat.inline_data)
    ∷ standalone (codes "metaecc") (incompat Incompat.meta_ecc)
    ∷ standalone (codes "xattr") (incompat Incompat.xattr)
    ∷ []

-- `enum ocfs2_feature_levels`
pub data FeatureLevel : Type 0 where
  level_default level_max_compat level_max_features : FeatureLevel

-- `ocfs2_feature_levels_table`
abbrev pub feature_levels_table : List (List ℕ × FeatureLevel)
feature_levels_table =
    (codes "default", level_default)
    ∷ (codes "max-compat", level_max_compat)
    ∷ (codes "max-features", level_max_features)
    ∷ []

-- `feature_level_defaults`
abbrev pub feature_level_defaults : FeatureLevel → FsOptions
feature_level_defaults level_default = record {
  opt_compat = bit_or compat_backup_sb compat_jbd2_sb;
  opt_incompat = bit_or Incompat.sparse_alloc Incompat.inline_data;
  opt_ro_compat = ro_compat_unwritten;
}
feature_level_defaults level_max_compat = record {
  opt_compat = bit_or compat_backup_sb compat_jbd2_sb;
  opt_incompat = 0;
  opt_ro_compat = 0;
}
feature_level_defaults level_max_features = record {
  opt_compat = bit_or compat_backup_sb compat_jbd2_sb;
  opt_incompat = bit_or Incompat.sparse_alloc (
      bit_or Incompat.extended_slot_map
        (bit_or Incompat.inline_data (bit_or Incompat.meta_ecc Incompat.xattr)));
  opt_ro_compat = ro_compat_unwritten;
}

unfoldable pub merge_features : FsOptions → FsOptions → FsOptions
merge_features features new_features = record {
  opt_compat = bit_or features.opt_compat new_features.opt_compat;
  opt_incompat = bit_or features.opt_incompat new_features.opt_incompat;
  opt_ro_compat = bit_or features.opt_ro_compat new_features.opt_ro_compat;
}

-- True where the source returns 1: no flag is in both sets.
unfoldable pub check_feature_flags : FsOptions → FsOptions → Bool
unfolding meets
check_feature_flags fs_flags fs_r_flags =
    if not (fs_r_flags.opt_compat == 0) && meets fs_flags.opt_compat fs_r_flags.opt_compat
    then false
    else if not (fs_r_flags.opt_incompat == 0)
        && meets fs_flags.opt_incompat fs_r_flags.opt_incompat
    then false
    else if not (fs_r_flags.opt_ro_compat == 0)
        && meets fs_flags.opt_ro_compat fs_r_flags.opt_ro_compat
    then false
    else true

unfoldable pub feature_match : FsOptions → FsOptions → Bool
unfolding meets
feature_match a b =
    meets a.opt_compat b.opt_compat
    || meets a.opt_incompat b.opt_incompat
    || meets a.opt_ro_compat b.opt_ro_compat

-- One step of the loop of `ocfs2_feature_clear_deps`.
unfoldable pub clear_dep : FsOptions → FeatureFlags → FsOptions
clear_dep reverse_set f =
    if feature_match reverse_set f.ff_flags
    then merge_features reverse_set f.ff_own_flags
    else reverse_set

unfoldable pub clear_deps_from : FsOptions → List FeatureFlags → FsOptions
clear_deps_from reverse_set [] = reverse_set
clear_deps_from reverse_set (f ∷ fs) = clear_deps_from (clear_dep reverse_set f) fs

-- `ocfs2_feature_clear_deps`
unfoldable pub feature_clear_deps : FsOptions → FsOptions
unfolding clear_deps_from
feature_clear_deps reverse_set = clear_deps_from reverse_set supported_features

-- `dest->opt_x &= ~reverse_set->opt_x` for the three words.
unfoldable pub clear_features : FsOptions → FsOptions → FsOptions
unfolding bit_clear
clear_features dest reverse_set = record {
  opt_compat = bit_clear dest.opt_compat reverse_set.opt_compat;
  opt_incompat = bit_clear dest.opt_incompat reverse_set.opt_incompat;
  opt_ro_compat = bit_clear dest.opt_ro_compat reverse_set.opt_ro_compat;
}

-- `ocfs2_merge_feature_flags_with_level`; the result is `*dest`. The closed reverse set, which the
-- source writes back, is `feature_clear_deps reverse_set`.
unfoldable pub merge_feature_flags_with_level :
    FeatureLevel → FsOptions → FsOptions → Result FsOptions
merge_feature_flags_with_level level feature_set reverse_set = do
  let reverse = feature_clear_deps reverse_set
  require (check_feature_flags feature_set reverse) conflicting_features
  ok (clear_features (merge_features (feature_level_defaults level) feature_set) reverse)
