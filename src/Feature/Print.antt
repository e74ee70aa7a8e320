-- ===== src/Feature/Print.antt =====
-- `ocfs2_snprint_feature_flags` and `ocfs2_snprint_tunefs_flags`: the printable names of the flags
-- of a superblock. Both loops are one, over the table of the names and the type of the flags.
pub mod Words
pub mod Text
use debian_ocfs2_tools.Base.{
  ℕ, ◌+◌, ◌-◌, ◌≤◌, ◌<◌, ◌≡◌, ◌∙◌, refl, sym, ap, Bool, true, false, ◌==◌, ◌&&◌, not, List, [], ◌∷◌,
  ◌++◌, if◌then◌else◌, Result, ok, err, no_space, inl, inr, arith, Bool-cases, codes, length, leb,
  ◌||◌, ◌>>=◌, ltb, bit_or, length-append,
}
use debian_ocfs2_tools.Base.Bits.Words.{meets}
use debian_ocfs2_tools.Feature.Incompat
use debian_ocfs2_tools.Feature.{
  FsOptions, no_options, merge_features, feature_match, compat, incompat, ro_compat,
  compat_backup_sb, compat_jbd2_sb, ro_compat_unwritten,
}

-- `struct feature_name`
pub record FeatureName : Type 0 where
  pub fn_name : List ℕ
  pub fn_flag : FsOptions

abbrev feature_name : List ℕ → FsOptions → FeatureName
feature_name name flag = record { fn_name = name; fn_flag = flag }

-- `ocfs2_feature_names`, without the entry that ends the table.
abbrev pub feature_names : List FeatureName
feature_names =
    feature_name (codes "heartbeat-device") (incompat Incompat.heartbeat_dev)
    ∷ feature_name (codes "aborted-resize") (incompat Incompat.resize_inprog)
    ∷ feature_name (codes "local") (incompat Incompat.local_mount)
    ∷ feature_name (codes "sparse") (incompat Incompat.sparse_alloc)
    ∷ feature_name (codes "extended-slotmap") (incompat Incompat.extended_slot_map)
    ∷ feature_name (codes "aborted-tunefs") (incompat Incompat.tunefs_inprog)
    ∷ feature_name (codes "userspace-stack") (incompat Incompat.userspace_stack)
    ∷ feature_name (codes "backup-super") (compat compat_backup_sb)
    ∷ feature_name (codes "unwritten") (ro_compat ro_compat_unwritten)
    ∷ feature_name (codes "inline-data") (incompat Incompat.inline_data)
    ∷ feature_name (codes "strict-journal-super") (compat compat_jbd2_sb)
    ∷ feature_name (codes "metaecc") (incompat Incompat.meta_ecc)
    ∷ feature_name (codes "xattr") (incompat Incompat.xattr)
    ∷ []

-- What has been written so far, and the room that is left.
pub record Printer : Type 0 where
  pub text : List ℕ
  pub remain : ℕ

abbrev pub is_empty : List ℕ → Bool
is_empty [] = true
is_empty (_ ∷ _) = false

-- `snprintf(ptr, remain, "%s%s", ptr == str ? "" : sep, name)`, which does not fail, and the test
-- `printed >= remain`. A text that is cut is not used.
unfoldable pub print_name : List ℕ → Printer → Result Printer
print_name name p =
    let piece = if is_empty p.text then name else b' ' ∷ name in
    if leb p.remain (length piece)
    then err no_space
    else ok (record { text = p.text ++ piece; remain = p.remain - length piece })

abbrev pub start : ℕ → Printer
start size = record { text = []; remain = size }

abbrev pub unknown : List ℕ
unknown = codes "unknown"

-- The test of three words at the end: some flag has no name.
unfoldable pub differ : FsOptions → FsOptions → Bool
differ found flags =
    not (found.opt_compat == flags.opt_compat)
    || not (found.opt_ro_compat == flags.opt_ro_compat)
    || not (found.opt_incompat == flags.opt_incompat)

-- The loop of `ocfs2_snprint_feature_flags`.
unfoldable pub print_features_from :
    List FeatureName → FsOptions → FsOptions → Printer → Result (FsOptions × Printer)
print_features_from [] flags found p = ok (found, p)
print_features_from (n ∷ ns) flags found p =
    let named = do
      p' ← print_name n.fn_name p
      print_features_from ns flags (merge_features found n.fn_flag) p'
    in let skipped = print_features_from ns flags found p in
      if feature_match flags n.fn_flag then named else skipped

-- The result is the text in `str`; where it is empty, nothing was written to `str`.
unfoldable pub snprint_feature_flags : ℕ → FsOptions → Result (List ℕ)
snprint_feature_flags size flags = do
  (found, p) ← print_features_from feature_names flags no_options (start size)
  p' ← if differ found flags then print_name unknown p else ok p
  ok p'.text

-- `struct tunefs_flag_name`
pub record TunefsFlagName : Type 0 where
  pub tfn_name : List ℕ
  pub tfn_flag : ℕ

-- `ocfs2_tunefs_flag_names`, without the entry that ends the table.
abbrev pub tunefs_flag_names : List TunefsFlagName
tunefs_flag_names =
    record { tfn_name = codes "remove-slot"; tfn_flag = 0x0001 }
    ∷ record { tfn_name = codes "dir-trailer"; tfn_flag = 0x0002 }
    ∷ []

-- The loop of `ocfs2_snprint_tunefs_flags`.
unfoldable pub print_tunefs_from : List TunefsFlagName → ℕ → ℕ → Printer → Result (ℕ × Printer)
print_tunefs_from [] flags found p = ok (found, p)
print_tunefs_from (n ∷ ns) flags found p =
    let named = do
      p' ← print_name n.tfn_name p
      print_tunefs_from ns flags (bit_or found n.tfn_flag) p'
    in let skipped = print_tunefs_from ns flags found p in
      if meets flags n.tfn_flag then named else skipped

unfoldable pub snprint_tunefs_flags : ℕ → ℕ → Result (List ℕ)
snprint_tunefs_flags size flags = do
  (found, p) ← print_tunefs_from tunefs_flag_names flags 0 (start size)
  p' ← if not (found == flags) then print_name unknown p else ok p
  ok p'.text
