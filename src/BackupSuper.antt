-- ===== src/BackupSuper.antt =====
-- The places of the backup super blocks, libocfs2/backup_super.c and `ocfs2_backup_super_blkno` of
-- include/ocfs2-kernel/ocfs2_fs.h. Writing the backups is not modelled.
pub mod Offsets
mod Examples
use debian_ocfs2_tools.Base.{
  ℕ, zero, suc, ◌+◌, ◌-◌, ◌*◌, ◌/◌, ◌^◌, min, Bool, true, false, ◌&&◌, ◌||◌, not, ltb, leb, List,
  [], ◌∷◌, ◌++◌, length, replicate, get_or, Option, none, some, if◌then◌else◌, Result, ok, err,
  ◌>>◌, require, no_backup_super,
}

-- What is asked of the file system
pub record Device : Type 0 where
  pub fs_blocksize : ℕ
  pub fs_blocks : ℕ

-- `OCFS2_MAX_BACKUP_SUPERBLOCKS`
abbrev pub max_backups : ℕ
max_backups = 6

-- `ocfs2_backup_super_blkno`
unfoldable pub backup_super_blkno : ℕ → ℕ → ℕ
backup_super_blkno blocksize index =
    if ltb index max_backups then 1073741824 * 2 ^ (2 * index) / blocksize else 0

-- The size of a block, or of a byte where there is no file system.
unfoldable pub unit_of : Option Device → ℕ
unit_of none = 1
unit_of (some fs) = fs.fs_blocksize

-- The place lies behind the volume.
unfoldable pub is_behind : Option Device → ℕ → Bool
is_behind none blkno = false
is_behind (some fs) blkno = leb fs.fs_blocks blkno

-- The loop of `ocfs2_get_backup_super_offsets`, from number `i` on
unfoldable pub offsets_from : Option Device → ℕ → ℕ → List ℕ
unfolding backup_super_blkno unit_of is_behind
offsets_from fs i zero = []
offsets_from fs i (suc rest) =
    let more = offsets_from fs (i + 1) rest in
    let blkno = backup_super_blkno (unit_of fs) i in if is_behind fs blkno then [] else blkno ∷ more

-- `ocfs2_get_backup_super_offsets`: how many there are, and the array of `len` places
unfoldable pub get_backup_super_offsets : Option Device → ℕ → ℕ × List ℕ
unfolding offsets_from
get_backup_super_offsets fs len =
    let found = offsets_from fs 0 (min len max_backups) in
    (length found, found ++ replicate (len - length found) 0)

-- The block that `ocfs2_read_backup_super` reads; an array of six places reads as zero behind its end.
unfoldable pub read_backup_super : Bool → Device → ℕ → Result ℕ
unfolding get_backup_super_offsets
read_backup_super has_backups fs backup =
    let r = get_backup_super_offsets (some fs) max_backups in
    require has_backups no_backup_super
    >> (require (not (ltb backup 1 || ltb r.0 backup)) no_backup_super >> ok (get_or r.1 backup 0))
