-- ===== src/Dir.antt =====
-- Directory blocks: libocfs2/dir_iterate.c, the trailer tests of libocfs2/dirblock.c, and the
-- callbacks of libocfs2/link.c, unlink.c and lookup.c.
-- A buffer is read and written one `struct ocfs2_dir_entry` at a time, at byte offsets; it is modelled
-- by the entry that stands at each offset. A write to one of them leaves the others as they are only
-- if they do not overlap; that is so for the blocks that ocfs2_read_dir_block accepts, where an entry
-- has 12 bytes before its name, and Chain asks for it.
pub mod Procs
pub mod Chain
pub mod Walk
pub mod Link
pub mod LinkWalk
pub mod LinkBlock
pub mod First
pub mod Unlink
pub mod Lookup
mod Examples
use debian_ocfs2_tools.Base.{
  ℕ, zero, suc, ◌+◌, ◌-◌, ◌*◌, ◌/◌, ◌%◌, Bool, true, false, ◌==◌, ◌&&◌, ◌||◌, not, ltb, leb, List,
  [], ◌∷◌, if◌then◌else◌, Option, none, some,
}

-- `struct ocfs2_dir_entry`; `name` holds the `name_len` bytes of the name.
pub record Dirent : Type 0 where
  pub inode : ℕ
  pub rec_len : ℕ  -- 16 bits
  pub name_len : ℕ  -- 8 bits
  pub file_type : ℕ  -- 8 bits
  pub name : List ℕ

abbrev pub Block : Type 0
Block = ℕ → Dirent

abbrev pub update : Block → ℕ → Dirent → Block
update b k d = λ j. if j == k then d else b j

-- `name_len & 0xFF`
abbrev pub name_bytes : Dirent → ℕ
name_bytes d = d.name_len % 256

-- `OCFS2_DIR_REC_LEN`
abbrev pub dir_rec_len : ℕ → ℕ
dir_rec_len n = (n + 15) / 4 * 4

-- What the walk of one directory needs to know: `fs_blocksize`, whether the directory has trailers,
-- and the flags of `ocfs2_dir_iterate`.
pub record Context : Type 0 where
  pub blocksize : ℕ
  pub has_trailer : Bool
  pub include_empty : Bool
  pub include_removed : Bool
  pub exclude_dots : Bool
  pub include_trailer : Bool

-- `ocfs2_dir_trailer_blk_off`; the trailer has 64 bytes.
abbrev pub trailer_blk_off : ℕ → ℕ
trailer_blk_off blocksize = blocksize - 64

-- `ocfs2_dir_has_trailer`, from the two features of the file system and the flag of the inode.
unfoldable pub dir_has_trailer : Bool → Bool → Bool → Bool
dir_has_trailer support_inline_data inline_data_fl meta_ecc =
    if support_inline_data && inline_data_fl then false else meta_ecc

-- `ocfs2_skip_dir_trailer`
unfoldable pub skip_dir_trailer : Context → ℕ → Bool
skip_dir_trailer c offset =
    if not c.has_trailer
    then false
    else if not (offset == trailer_blk_off c.blocksize)
    then false
    else true

-- The test of `ocfs2_process_dir_entry` for a corrupt entry.
unfoldable pub is_corrupt : ℕ → ℕ → Dirent → Bool
is_corrupt blocksize offset d =
    ltb blocksize (offset + d.rec_len)
    || ltb d.rec_len 8
    || not (d.rec_len % 4 == 0)
    || ltb d.rec_len (name_bytes d + 8)

-- `is_dots` of libocfs2/dir_util.h
unfoldable pub is_dots : List ℕ → ℕ → Bool
is_dots (a ∷ b ∷ _) len = a == b'.' && (len == 1 || len == 2 && b == b'.')
is_dots (a ∷ []) len = a == b'.' && len == 1
is_dots [] len = false

-- The entry is passed over without a call of the callback.
unfoldable pub is_skipped : Context → ℕ → Dirent → Bool
unfolding skip_dir_trailer is_dots
is_skipped c offset d =
    if skip_dir_trailer c offset
    then not c.include_trailer
    else if d.inode == 0 && not c.include_empty
    then true
    else c.exclude_dots && is_dots d.name d.name_len

-- `ocfs2_validate_entry`: each round goes at least 8 bytes on, so `final_offset` rounds are enough.
unfoldable pub validate_entry : ℕ → Block → ℕ → ℕ → Bool
validate_entry zero buf offset final_offset = offset == final_offset
validate_entry (suc fuel) buf offset final_offset =
    let d = buf offset in
    let rest = validate_entry fuel buf (offset + d.rec_len) final_offset in
    if ltb offset final_offset
    then (if ltb d.rec_len 8 || not (d.rec_len % 4 == 0) || ltb d.rec_len (name_bytes d + 8)
        then false
        else rest)
    else offset == final_offset

-- The search for the next removed entry that looks valid.
unfoldable pub skip_removed : ℕ → Block → ℕ → ℕ → ℕ
unfolding validate_entry
skip_removed zero buf offset final_offset = offset
skip_removed (suc fuel) buf offset final_offset =
    let rest = skip_removed fuel buf (offset + 4) final_offset in
    if ltb offset final_offset && not (validate_entry final_offset buf offset final_offset)
    then rest
    else offset

-- The variables of the loop of `ocfs2_process_dir_entry`, with the buffer and the private data.
pub record Scan (S : Type 0) : Type 0 where
  pub offset : ℕ
  pub entry : ℕ
  pub next_real_entry : ℕ
  pub changed : ℕ
  pub do_abort : ℕ
  pub buf : Block
  pub priv : S

-- What a callback does: the buffer and the private data that it leaves, and whether its result has
-- `OCFS2_DIRENT_CHANGED` and `OCFS2_DIRENT_ABORT`.
pub record Reply (S : Type 0) : Type 0 where
  pub buf : Block
  pub priv : S
  pub changed : Bool
  pub abort : Bool

-- The callback sees which entry it is (`OCFS2_DIRENT_DOT_FILE` is 1, `DOT_DOT` 2, `OTHER` 3,
-- `DELETED` 4), its offset, the buffer and the private data.
abbrev pub Callback : Type 0 → Type 0
Callback S = ℕ → ℕ → Block → S → Reply S

pub data Outcome (S : Type 0) : Type 0 where
  finished : Scan S → Outcome S
  corrupted : Scan S → Outcome S

module _ {S : Type 0} (c : Context) (func : Callback S) where
  -- The call of the callback.
  unfoldable pub visit : Scan S → Scan S × Bool
  unfolding is_skipped
  visit s =
      let which = if ltb s.offset s.next_real_entry then 4 else s.entry in
      let r = func which s.offset s.buf s.priv in
      if is_skipped c s.offset (s.buf s.offset) then (s, false) else (
        record s {
          entry = if ltb s.entry 3 then s.entry + 1 else s.entry;
          changed = if r.changed then s.changed + 1 else s.changed;
          do_abort = if r.abort then s.do_abort + 1 else s.do_abort;
          buf = r.buf;
          priv = r.priv;
        },
        r.abort,
      )

  -- The code behind the label `next`.
  unfoldable pub advance : Scan S → Scan S
  unfolding skip_removed
  advance s =
      let d = s.buf s.offset in
      let real =
        if s.next_real_entry == s.offset
        then s.next_real_entry + d.rec_len
        else s.next_real_entry in
      let size = (name_bytes d + 11) / 4 * 4 in
      let final_offset = s.offset + d.rec_len in
      if c.include_removed && not (d.rec_len == size)
      then record s {
        next_real_entry = real;
        offset = skip_removed final_offset s.buf (s.offset + size) final_offset;
      }
      else record s { next_real_entry = real; offset = final_offset }

  -- `ocfs2_process_dir_entry`; `none` where the fuel runs out.
  unfoldable pub process_dir_entry : ℕ → Scan S → Option (Outcome S)
  process_dir_entry zero s = none
  process_dir_entry (suc fuel) s =
      let rest = process_dir_entry fuel (advance (visit s).0) in
      if ltb s.offset c.blocksize
      then (if is_corrupt c.blocksize s.offset (s.buf s.offset)
          then some (corrupted s)
          else if (visit s).1
          then some (finished (visit s).0)
          else rest)
      else some (finished s)
