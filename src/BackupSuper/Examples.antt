-- ===== src/BackupSuper/Examples.antt =====
-- The backups of a volume of 8 GiB with blocks of 4 KiB.
use debian_ocfs2_tools.Base.{ℕ, ◌<◌, ◌≤◌, ◌≡◌, refl, min, true, [], ◌∷◌, get_or, some, ok}
use debian_ocfs2_tools.BackupSuper.{
  Device, backup_super_blkno, unit_of, is_behind, offsets_from, get_backup_super_offsets,
  read_backup_super,
}
use debian_ocfs2_tools.BackupSuper.Offsets.{place_of, IsInside, get_backup_super_offsets-places}

abbrev small : Device
small = record { fs_blocksize = 4096; fs_blocks = 2097152 }

two_backups : get_backup_super_offsets (some small) 4 ≡ (2, 262144 ∷ 1048576 ∷ 0 ∷ 0 ∷ [])
unfolding get_backup_super_offsets offsets_from is_behind unit_of backup_super_blkno
two_backups = refl

get_backup_super_offsets-places_example :
    let r = get_backup_super_offsets (some small) 4 in
    (r.0 ≤ min 4 6)
    × ((j : ℕ)
        → j < r.0
        → (get_or r.1 j 0 ≡ place_of (some small) j)
          × IsInside (some small) (place_of (some small) j))
    × ((j : ℕ) → r.0 ≤ j → get_or r.1 j 0 ≡ 0)
    × (r.0 < min 4 6 → ¬ IsInside (some small) (place_of (some small) r.0))
get_backup_super_offsets-places_example = get_backup_super_offsets-places (some small) 4

-- The first backup is read at the place of the second, and the second at block 0.
first_reads_second : read_backup_super true small 1 ≡ ok 1048576
unfolding read_backup_super get_backup_super_offsets offsets_from is_behind unit_of
    backup_super_blkno
first_reads_second = refl

second_reads_zero : read_backup_super true small 2 ≡ ok 0
unfolding read_backup_super get_backup_super_offsets offsets_from is_behind unit_of
    backup_super_blkno
second_reads_zero = refl
