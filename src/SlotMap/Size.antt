-- ===== src/SlotMap/Size.antt =====
-- `ocfs2_format_slot_map`: the slot map is given the room that it needs, and emptied.
use debian_ocfs2_tools.Base.{
  ℕ, zero, suc, ◌+◌, ◌-◌, ◌*◌, ◌/◌, ◌%◌, Bool, true, false, ◌==◌, ◌&&◌, not, ltb, List,
  if◌then◌else◌, replicate, Result, ok, err, ◌>>=◌, ◌>>◌, require, internal_failure, too_many_slots,
}
use debian_ocfs2_tools.SlotMap.{SlotData, map_size, FileWrite, store_slot_map}
pub mod Format

-- The fields of the inode of the system file that matter here, with what the file holds.
pub record SlotInode : Type 0 where
  pub i_clusters : ℕ
  pub i_size : ℕ
  pub bytes : List ℕ

-- `ocfs2_extend_allocation`, by a number of clusters, and `ocfs2_truncate`, to a size
abbrev pub Resize : Type 0
Resize = ℕ → SlotInode → Result SlotInode

module _ (extend_allocation truncate : Resize) (clustersize : ℕ) where
  -- The clusters for so many bytes, in an `unsigned int`
  unfoldable pub needed_clusters : ℕ → ℕ
  needed_clusters needed_bytes = (needed_bytes + clustersize - 1) % 4294967296 / clustersize

  -- The size is that of the allocation.
  unfoldable pub size_of_clusters : SlotInode → SlotInode
  size_of_clusters di = record di { i_size = di.i_clusters * clustersize }

  -- The allocation is made as large as that.
  unfoldable pub adjust : ℕ → SlotInode → Result SlotInode
  unfolding size_of_clusters
  adjust clusters di =
      if clusters == 0
      then err internal_failure
      else if clusters == di.i_clusters
      then ok di
      else if ltb di.i_clusters clusters
      then (extend_allocation (clusters - di.i_clusters) di >>= λ di'. ok (size_of_clusters di'))
      else truncate (clusters * clustersize) di >>= λ di'. ok (size_of_clusters di')

  -- `ocfs2_size_slot_map`; the inode is written last.
  unfoldable pub size_slot_map : ℕ → SlotInode → Result SlotInode
  unfolding needed_clusters adjust
  size_slot_map needed_bytes di = adjust (needed_clusters needed_bytes) di

  -- `OCFS2_MAX_SLOTS`
  abbrev pub max_slots : ℕ
  max_slots = 255

  -- The data of `ocfs2_alloc_slot_map_data`
  unfoldable pub alloc_slot_map_data : ℕ → List SlotData
  alloc_slot_map_data num_slots = replicate num_slots (record { sd_valid = 0; sd_node_num = 0 })

  -- The end of `ocfs2_format_slot_map`: an empty map that covers the entire allocation
  unfoldable pub fill_slot_map : FileWrite → ℕ → Bool → SlotInode → Result SlotInode
  unfolding alloc_slot_map_data store_slot_map
  fill_slot_map file_write blocksize extended di =
      let actual_slots = if extended then di.i_size / 8 else di.i_size / 2 in
      store_slot_map file_write blocksize extended (alloc_slot_map_data actual_slots) di.bytes
      >>= λ written. ok (record di { bytes = written })

  -- `ocfs2_format_slot_map`, once the inode of the system file is read; `is_system` says that its
  -- flags have `OCFS2_VALID_FL` and `OCFS2_SYSTEM_FL`.
  unfoldable pub format_slot_map : FileWrite → ℕ → Bool → ℕ → Bool → SlotInode → Result SlotInode
  unfolding map_size size_slot_map fill_slot_map
  format_slot_map file_write blocksize extended needed_slots is_system di =
      require is_system internal_failure
      >> (require (not (not extended && ltb max_slots needed_slots)) too_many_slots
          >> (size_slot_map (map_size extended needed_slots) di
              >>= fill_slot_map file_write blocksize extended))
