-- ===== src/Extents/Check.antt =====
-- `check_er`, `check_el` and `check_eb` of fsck.ocfs2/extent.c.
use debian_ocfs2_tools.Base.{
  ℕ, zero, suc, ◌+◌, ◌-◌, ◌*◌, ◌%◌, Bool, true, false, ◌==◌, ◌&&◌, ◌||◌, not, ltb, List, [], ◌∷◌,
  ◌++◌, if◌then◌else◌, Result, ok, err, min, max, take, drop, length, Errcode,
  bad_extent_block_magic,
}
use debian_ocfs2_tools.Extents.{
  ExtentRec, ExtentList, ExtentBlock, Volume, Problem, State, rec_clusters, set_rec_clusters,
  blocks_to_clusters, clusters_to_blocks, block_out_of_range, is_unwritten, clear_unwritten,
  extent_recs_per_eb, Prompt,
}

-- `check_eb`, on the number of an extent block: the state then, and whether the block is valid
abbrev pub CheckEb : Type 0
CheckEb = State → ℕ → State × Bool

-- A record that stands for a question that is not about one.
abbrev pub no_rec : ExtentRec
no_rec = record { e_cpos = 0; e_word = 0; e_blkno = 0 }

-- What the loop of `check_el` has done: the state, the records that are in use, those behind
-- them, and whether something has changed.
pub record Checked : Type 0 where
  pub state : State
  pub kept : List ExtentRec
  pub behind : List ExtentRec
  pub changed : Bool

module _ (fs : Volume) (prompt : Prompt) where
  -- The three tests of `check_er` on a record of data. The first repair does not set `*changed`.
  unfoldable pub check_unwritten : ExtentRec → ExtentRec
  unfolding is_unwritten clear_unwritten
  check_unwritten er =
      if not fs.writes_unwritten && is_unwritten er && prompt Problem.extent_marked_unwritten er
      then clear_unwritten er
      else er

  unfoldable pub check_aligned : ExtentRec → ExtentRec × Bool
  unfolding blocks_to_clusters clusters_to_blocks
  check_aligned er =
      let first_block = clusters_to_blocks fs (blocks_to_clusters fs er.e_blkno) in
      if not (first_block == er.e_blkno) && prompt Problem.extent_blkno_unaligned er
      then (record er { e_blkno = first_block }, true)
      else (er, false)

  unfoldable pub check_overrun : ExtentRec → ℕ → ExtentRec × Bool
  unfolding blocks_to_clusters set_rec_clusters
  check_overrun er clusters =
      let last_cluster = (blocks_to_clusters fs er.e_blkno + clusters) % 4294967296 in
      if ltb fs.fs_clusters last_cluster && prompt Problem.extent_clusters_overrun er
      then (set_rec_clusters 0 er (clusters - (last_cluster - fs.fs_clusters)), true)
      else (er, false)

  unfoldable pub check_data : ExtentRec → ExtentRec × Bool
  unfolding check_unwritten check_aligned check_overrun rec_clusters
  check_data er =
      let clusters = rec_clusters 0 er in
      let a = check_aligned (check_unwritten er) in
      let o = check_overrun a.0 clusters in (o.0, a.1 || o.1)

  module _ (check_eb : CheckEb) where
    -- The branch of `check_er` for a record that refers to an extent block.
    unfoldable pub check_child : ℕ → State → ExtentRec → State × ExtentRec × Bool
    check_child tree_depth st er =
        let below =
          check_eb (record st { ei_expect_depth = true; ei_expected_depth = tree_depth - 1 })
            er.e_blkno in
        if not below.1 && prompt Problem.extent_eb_invalid er
        then (below.0, record er { e_blkno = 0 }, true)
        else (below.0, er, false)

    -- `check_er`: the state, the record, and whether it has changed
    unfoldable pub check_er : ℕ → State → ExtentRec → State × ExtentRec × Bool
    unfolding block_out_of_range check_child check_data
    check_er tree_depth st er =
        if block_out_of_range fs er.e_blkno
        then (st, er, false)
        else if not (tree_depth == 0)
        then check_child tree_depth st er
        else (st, (check_data er).0, (check_data er).1)

    -- The end of a round of the loop of `check_el`.
    unfoldable pub account : ℕ → State → ExtentRec → ℕ → State
    unfolding blocks_to_clusters
    account tree_depth st er clusters = if not (tree_depth == 0) then st else record st {
      marked = (blocks_to_clusters fs er.e_blkno, clusters) ∷ st.marked;
      ei_clusters = st.ei_clusters + clusters;
      ei_max_size =
          max st.ei_max_size ((er.e_cpos + clusters) % 4294967296 * fs.clustersize % 4294967296);
    }

    abbrev pub keep : ExtentRec → Bool → Checked → Checked
    keep er er_changed c = record c { kept = er ∷ c.kept; changed = er_changed || c.changed }

    -- The loop of `check_el`, from record number `i` on. A record that is removed leaves a record of
    -- zeros behind those that follow it, or stays where it is if none does.
    unfoldable pub check_recs : ℕ → Bool → ℕ → State → List ExtentRec → List ExtentRec → Checked
    unfolding rec_clusters check_er account block_out_of_range
    check_recs tree_depth trust_next_free i st [] behind = record {
      state = st;
      kept = [];
      behind = behind;
      changed = false;
    }
    check_recs tree_depth trust_next_free i st (er ∷ ers) behind =
        let clusters = rec_clusters tree_depth er in
        let checked = check_er tree_depth st er in
        let st' = checked.0 in
        let er' = checked.1 in
        let er_changed = checked.2 in
        let skipped = check_recs tree_depth trust_next_free (i + 1) st ers behind in
        let distrusted = check_recs tree_depth trust_next_free (i + 1) st' ers behind in
        let removed =
          check_recs tree_depth trust_next_free i st' ers
            (elim ers [ [] ↦ er' ∷ behind | _ ∷ _ ↦ no_rec ∷ behind ]) in
        let accounted =
          check_recs tree_depth trust_next_free (i + 1) (account tree_depth st' er' clusters) ers
            behind in
        if fs.sparse_alloc && not (tree_depth == 0) && i == 0 && clusters == 0
        then keep er false skipped
        else if block_out_of_range fs er'.e_blkno && prompt Problem.extent_blkno_range er'
        then (if not trust_next_free
            then keep er' er_changed distrusted
            else record removed { changed = true })
        else keep er' er_changed accounted

    -- The tests of `check_el` before its loop, on the head of the list.
    unfoldable pub check_depth : State → ExtentList → ExtentList × Bool
    check_depth st el =
        if st.ei_expect_depth
          && not (el.l_tree_depth == st.ei_expected_depth)
          && prompt Problem.extent_list_depth no_rec
        then (record el { l_tree_depth = st.ei_expected_depth }, true)
        else (el, false)

    unfoldable pub check_count : ℕ → ExtentList → ExtentList × Bool
    check_count max_recs el =
        if ltb max_recs el.l_count && prompt Problem.extent_list_count no_rec
        then (record el { l_count = max_recs }, true)
        else (el, false)

    -- Whether `l_next_free_rec` is to be trusted, too.
    unfoldable pub check_free : ℕ → ExtentList → ExtentList × Bool × Bool
    check_free max_recs el =
        if ltb (min max_recs el.l_count) el.l_next_free_rec
        then (if prompt Problem.extent_list_free no_rec
            then (record el { l_next_free_rec = el.l_count }, true, true)
            else (el, false, false))
        else (el, false, true)

    -- `check_el`: the state, the list, and whether it has changed. `l_next_free_rec` goes down with
    -- each record that is removed.
    unfoldable pub check_el : ℕ → State → ExtentList → State × ExtentList × Bool
    unfolding check_depth check_count check_free check_recs
    check_el max_recs st el =
        let d = check_depth st el in
        let n = check_count max_recs d.0 in
        let f = check_free max_recs n.0 in
        let el' = f.0 in
        let trust = f.2 in
        let used = if trust then el'.l_next_free_rec else min max_recs el'.l_count in
        let c =
          check_recs el'.l_tree_depth trust 0 st (take used el'.l_recs) (drop used el'.l_recs) in
        (
          c.state,
          record el' {
            l_recs = c.kept ++ c.behind;
            l_next_free_rec = el'.l_next_free_rec - (length (take used el'.l_recs) - length c.kept);
          },
          d.1 || n.1 || f.1 || c.changed,
        )

  -- `check_eb` on a block that was read: the block, whether it is valid, and whether it has changed so
  -- far
  unfoldable pub check_header : ℕ → ExtentBlock → ExtentBlock × Bool × Bool
  check_header blkno eb =
      let wrong_place = not (eb.h_blkno == blkno) && prompt Problem.eb_blkno no_rec in
      let eb' = if wrong_place then record eb { h_blkno = blkno } else eb in
      if not (eb.h_fs_generation == fs.fs_generation)
      then (if prompt Problem.eb_gen no_rec
          then (eb', false, wrong_place)
          else if prompt Problem.eb_gen_fix no_rec
          then (record eb' { h_fs_generation = fs.fs_generation }, true, true)
          else (eb', true, wrong_place))
      else (eb', true, wrong_place)

  unfoldable pub is_bad_magic : Errcode → Bool
  is_bad_magic bad_extent_block_magic = true
  is_bad_magic _ = false

  -- The rest of `check_eb`, on what `ocfs2_read_extent_block_nocheck` gave: only a block without the
  -- signature of an extent block is invalid.
  unfoldable pub check_read : CheckEb → State → ℕ → Result ExtentBlock → State × Bool
  unfolding check_header check_el is_bad_magic
  check_read below st blkno (err e) = (st, not (is_bad_magic e))
  check_read below st blkno (ok eb) =
      let h = check_header blkno eb in
      let c = check_el below (extent_recs_per_eb fs.fs_blocksize) st h.0.h_list in
      if not h.1
      then (st, false)
      else if h.2 || c.2
      then (
        record c.0 {
          blocks = λ b. if b == blkno then ok (record h.0 { h_list = c.1 }) else c.0.blocks b;
        },
        true,
      )
      else (c.0, true)

  -- `check_eb`, to a given depth of nesting
  unfoldable pub check_eb : ℕ → CheckEb
  unfolding check_read
  check_eb zero st blkno = (st, true)
  check_eb (suc fuel) st blkno = check_read (check_eb fuel) st blkno (st.blocks blkno)
