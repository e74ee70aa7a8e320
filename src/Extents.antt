-- ===== src/Extents.antt =====
-- The check of extent lists, fsck.ocfs2/extent.c. The answer to a question of `prompt` is a function
-- of the problem and of the record in question. Memory is available, and blocks can be written.
pub mod Check
pub mod Silent
pub mod Leaf
pub mod Depth
mod Examples
use debian_ocfs2_tools.Base.{
  ℕ, zero, suc, ◌+◌, ◌-◌, ◌*◌, ◌/◌, ◌%◌, Bool, true, false, ◌==◌, ◌&&◌, ◌||◌, not, ltb, leb, List,
  [], ◌∷◌, if◌then◌else◌, Result, ok, err, min,
}

-- `struct ocfs2_extent_rec`; the word holds `e_int_clusters`, or `e_leaf_clusters` in its low 16 bits
-- and `e_flags` in its high 8 bits.
pub record ExtentRec : Type 0 where
  pub e_cpos : ℕ
  pub e_word : ℕ
  pub e_blkno : ℕ

abbrev pub e_leaf_clusters : ExtentRec → ℕ
e_leaf_clusters er = er.e_word % 65536

abbrev pub e_flags : ExtentRec → ℕ
e_flags er = er.e_word / 16777216

-- `struct ocfs2_extent_list`
pub record ExtentList : Type 0 where
  pub l_tree_depth : ℕ
  pub l_count : ℕ
  pub l_next_free_rec : ℕ
  pub l_recs : List ExtentRec

-- `struct ocfs2_extent_block`
pub record ExtentBlock : Type 0 where
  pub h_fs_generation : ℕ
  pub h_blkno : ℕ
  pub h_list : ExtentList

-- What the check knows of the file system: a cluster has `bpc` blocks.
pub record Volume : Type 0 where
  pub fs_blocks : ℕ
  pub fs_clusters : ℕ
  pub fs_blocksize : ℕ
  pub fs_generation : ℕ
  pub bpc : ℕ
  pub clustersize : ℕ
  pub writes_unwritten : Bool
  pub sparse_alloc : Bool

-- The `PR_*` codes of the questions
pub data Problem : Type 0 where
  eb_blkno eb_gen eb_gen_fix extent_eb_invalid extent_marked_unwritten : Problem
  extent_blkno_unaligned extent_clusters_overrun extent_list_depth : Problem
  extent_list_count extent_list_free extent_blkno_range : Problem

-- `struct extent_info`, with the clusters marked as allocated, the last ones first, and the extent
-- blocks on the disk; an extent block may be unreadable.
pub record State : Type 0 where
  pub ei_max_size : ℕ
  pub ei_clusters : ℕ
  pub ei_expected_depth : ℕ
  pub ei_expect_depth : Bool
  pub marked : List (ℕ × ℕ)
  pub blocks : ℕ → Result ExtentBlock

-- `ocfs2_rec_clusters` and `ocfs2_set_rec_clusters`
unfoldable pub rec_clusters : ℕ → ExtentRec → ℕ
rec_clusters tree_depth er = if tree_depth == 0 then e_leaf_clusters er else er.e_word

unfoldable pub set_rec_clusters : ℕ → ExtentRec → ℕ → ExtentRec
set_rec_clusters tree_depth er clusters =
    if tree_depth == 0
    then record er { e_word = er.e_word - e_leaf_clusters er + clusters % 65536 }
    else record er { e_word = clusters % 4294967296 }

-- `ocfs2_blocks_to_clusters`
unfoldable pub blocks_to_clusters : Volume → ℕ → ℕ
blocks_to_clusters fs blocks = min (blocks / fs.bpc) 4294967295

-- `ocfs2_clusters_to_blocks`
unfoldable pub clusters_to_blocks : Volume → ℕ → ℕ
clusters_to_blocks fs clusters = clusters * fs.bpc

-- `ocfs2_block_out_of_range`
unfoldable pub block_out_of_range : Volume → ℕ → Bool
block_out_of_range fs block = ltb block 2 || ltb fs.fs_blocks block

-- `OCFS2_EXT_UNWRITTEN` is bit 0 of the flags.
unfoldable pub is_unwritten : ExtentRec → Bool
is_unwritten er = e_flags er % 2 == 1

unfoldable pub clear_unwritten : ExtentRec → ExtentRec
clear_unwritten er = record er { e_word = er.e_word - 16777216 }

-- `ocfs2_extent_recs_per_eb`
abbrev pub extent_recs_per_eb : ℕ → ℕ
extent_recs_per_eb blocksize = (blocksize - 64) / 16

abbrev pub Prompt : Type 0
Prompt = Problem → ExtentRec → Bool
