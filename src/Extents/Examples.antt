-- ===== src/Extents/Examples.antt =====
-- A small volume, and a damaged list of extents.
use debian_ocfs2_tools.Base.{
  ok, if◌then◌else◌, ◌+◌, ◌==◌, subst, ◌≡◌, refl, true, false, [], ◌∷◌, arith, err, io_error,
}
use debian_ocfs2_tools.Extents.Depth.{check_eb-enough}
use debian_ocfs2_tools.Extents.{
  ExtentBlock, ExtentList, Volume, State, rec_clusters, set_rec_clusters, blocks_to_clusters,
  clusters_to_blocks, block_out_of_range, is_unwritten, clear_unwritten, Prompt,
}
use debian_ocfs2_tools.Extents.Check.{
  check_unwritten, check_aligned, check_overrun, check_data, check_er, account, check_recs,
  check_depth, check_count, check_free, check_el, check_eb, no_rec,
}
use debian_ocfs2_tools.Extents.Silent.{check_el-silent}
use debian_ocfs2_tools.Extents.Leaf.{IsVolume}
use debian_ocfs2_tools.Extents.Leaf.Stable.{check_el-sound_list}
use debian_ocfs2_tools.Extents.Leaf.List.{IsSoundList, check_el-IsSoundList}

abbrev volume : Volume
volume = record {
  fs_blocks = 64;
  fs_clusters = 16;
  fs_blocksize = 512;
  fs_generation = 7;
  bpc = 4;
  clustersize = 2048;
  writes_unwritten = false;
  sparse_alloc = false;
}

volume-IsVolume : IsVolume volume
volume-IsVolume = record {
  some_blocks = omega arith;
  blocks_inside = omega arith;
  clusters_fit = omega arith;
}

abbrev all_yes : Prompt
all_yes p er = true

abbrev all_no : Prompt
all_no p er = false

abbrev fresh : State
fresh = record {
  ei_max_size = 0;
  ei_clusters = 0;
  ei_expected_depth = 0;
  ei_expect_depth = false;
  marked = [];
  blocks = λ b. err io_error;
}

-- A record that begins within a cluster, goes beyond the volume and is unwritten, one out of range, and
-- one that is sound; the list claims more records than there is room for.
abbrev damaged : ExtentList
damaged = record {
  l_tree_depth = 0;
  l_count = 9;
  l_next_free_rec = 3;
  l_recs =
      record { e_cpos = 0; e_word = 16777221; e_blkno = 57 }
      ∷ record { e_cpos = 5; e_word = 1; e_blkno = 1 }
      ∷ record { e_cpos = 6; e_word = 1; e_blkno = 8 }
      ∷ [];
}

abbrev repaired : ExtentList
repaired = record {
  l_tree_depth = 0;
  l_count = 3;
  l_next_free_rec = 2;
  l_recs =
      record { e_cpos = 0; e_word = 2; e_blkno = 56 }
      ∷ record { e_cpos = 6; e_word = 1; e_blkno = 8 }
      ∷ no_rec
      ∷ [];
}

damaged-repaired :
    (check_el volume all_yes (check_eb volume all_yes 1) 3 fresh damaged).1 ≡ repaired
unfolding check_el check_depth check_count check_free check_recs check_er check_data check_unwritten
    check_aligned check_overrun account rec_clusters set_rec_clusters blocks_to_clusters
    clusters_to_blocks block_out_of_range is_unwritten clear_unwritten
damaged-repaired = refl

check_el-IsSoundList_example :
    IsSoundList volume 3 (check_el volume all_yes (check_eb volume all_yes 1) 3 fresh damaged).1
check_el-IsSoundList_example =
    check_el-IsSoundList volume volume-IsVolume all_yes (λ p er. refl) (check_eb volume all_yes 1) 3
      fresh damaged refl (λ h. refl) refl

repaired-IsSoundList : IsSoundList volume 3 repaired
repaired-IsSoundList = subst (IsSoundList volume 3) damaged-repaired (
    check_el-IsSoundList volume volume-IsVolume all_yes (λ p er. refl) (check_eb volume all_yes 1) 3
      fresh damaged refl (λ h. refl) refl)

check_el-sound_list_example :
    ((check_el volume all_yes (check_eb volume all_yes 1) 3 fresh repaired).1 ≡ repaired)
    × ((check_el volume all_yes (check_eb volume all_yes 1) 3 fresh repaired).2 ≡ false)
check_el-sound_list_example =
    check_el-sound_list volume volume-IsVolume all_yes (check_eb volume all_yes 1) 3 fresh repaired
      repaired-IsSoundList (λ h. refl)

check_el-silent_example :
    let c = check_el volume all_no (check_eb volume all_no 2) 3 fresh damaged in
    (c.0.blocks ≡ fresh.blocks) × (c.1 ≡ damaged) × (c.2 ≡ false)
check_el-silent_example = check_el-silent volume all_no (λ p er. refl) 2 3 fresh damaged

-- Clearing the flag of an unwritten extent is not counted as a change.
abbrev flagged : ExtentList
flagged = record {
  l_tree_depth = 0;
  l_count = 1;
  l_next_free_rec = 1;
  l_recs = record { e_cpos = 0; e_word = 16777217; e_blkno = 8 } ∷ [];
}

unwritten_not_counted :
    (check_el volume all_yes (check_eb volume all_yes 1) 1 fresh flagged).2 ≡ false
unfolding check_el check_depth check_count check_free check_recs check_er check_data check_unwritten
    check_aligned check_overrun account rec_clusters set_rec_clusters blocks_to_clusters
    clusters_to_blocks block_out_of_range is_unwritten clear_unwritten
unwritten_not_counted = refl

-- The clusters of an extent that was cut are marked as if it had not been.
cut_marked_whole :
    (check_el volume all_yes (check_eb volume all_yes 1) 3 fresh damaged).0.marked
    ≡ (2, 1) ∷ (14, 5) ∷ []
unfolding check_el check_depth check_count check_free check_recs check_er check_data check_unwritten
    check_aligned check_overrun account rec_clusters set_rec_clusters blocks_to_clusters
    clusters_to_blocks block_out_of_range is_unwritten clear_unwritten
cut_marked_whole = refl

-- An extent block at block 8 that refers to a leaf at block 12.
abbrev node : ExtentBlock
node = record {
  h_fs_generation = 7;
  h_blkno = 8;
  h_list = record {
    l_tree_depth = 1;
    l_count = 28;
    l_next_free_rec = 1;
    l_recs = record { e_cpos = 0; e_word = 1; e_blkno = 12 } ∷ [];
  };
}

abbrev leaf : ExtentBlock
leaf = record { h_fs_generation = 7; h_blkno = 12; h_list = flagged }

abbrev below_inode : State
below_inode = record fresh {
  ei_expected_depth = 1;
  ei_expect_depth = true;
  blocks = λ b. if b == 8 then ok node else if b == 12 then ok leaf else err io_error;
}

check_eb-enough_example :
    check_eb volume all_yes 2 below_inode 8 ≡ check_eb volume all_yes (2 + 3) below_inode 8
check_eb-enough_example = check_eb-enough volume all_yes 2 3 below_inode 8 refl refl (omega arith)
