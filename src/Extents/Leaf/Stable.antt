-- ===== src/Extents/Leaf/Stable.antt =====
-- A sound list of data extents is left as it is, whatever the answers are.
use debian_ocfs2_tools.Base.{
  ℕ, ◌+◌, ◌-◌, ◌%◌, ◌≤◌, ◌≡◌, ◌∙◌, refl, ap, ap₂, Bool, true, false, ◌==◌, ◌&&◌, ◌||◌, not, ltb,
  arith, Bool-cases, inl, inr, min, List, [], ◌∷◌, ◌++◌, take, drop, take-append-drop, length, All,
}
use debian_ocfs2_tools.Extents.{
  ExtentRec, ExtentList, Volume, Problem, State, e_leaf_clusters, rec_clusters, block_out_of_range,
  is_unwritten, blocks_to_clusters, clusters_to_blocks, Prompt,
}
use debian_ocfs2_tools.Extents.Check.{
  CheckEb, check_unwritten, check_aligned, check_overrun, check_data, check_er, account, check_recs,
  check_depth, check_count, check_free, check_el,
}
use debian_ocfs2_tools.Extents.Leaf.{IsVolume, IsSound}
use debian_ocfs2_tools.Extents.Leaf.List.{IsSoundList}

module _ (fs : Volume) (ok_fs : IsVolume fs) (prompt : Prompt) (check_eb : CheckEb) where
  sound_data : (er : ExtentRec) → IsSound fs er → check_data fs prompt er ≡ (er, false)
  unfolding check_data check_unwritten check_aligned check_overrun rec_clusters
  sound_data er sound =
      let first = blocks_to_clusters fs er.e_blkno in
      let no_flag : (not fs.writes_unwritten && is_unwritten er) ≡ false =
        elim (Bool-cases fs.writes_unwritten) [
          | inl supported ↦ rw supported refl
          | inr unsupported ↦ rw (unsupported, sound.written unsupported) refl
        ] in
      let start : (clusters_to_blocks fs first == er.e_blkno) ≡ true =
        rw sound.aligned (ground arith) in
      let fits : (first + e_leaf_clusters er) % 4294967296 ≡ first + e_leaf_clusters er =
        omega (arith, ok_fs.clusters_fit, sound.inside) in
      let inside : ltb fs.fs_clusters (first + e_leaf_clusters er) ≡ false =
        ground (arith, sound.inside) in
      rw no_flag (rw start (rw fits (rw inside refl)))

  sound_er :
      (st : State) (er : ExtentRec)
      → IsSound fs er
      → check_er fs prompt check_eb 0 st er ≡ (st, er, false)
  unfolding check_er
  sound_er st er sound = rw sound.in_range (ap (λ p. (st, p.0, p.1)) (sound_data er sound))

  sound_recs :
      (trust : Bool) (i : ℕ) (st : State) (recs behind : List ExtentRec)
      → All (IsSound fs) recs
      → let c = check_recs fs prompt check_eb 0 trust i st recs behind in
        (c.kept ≡ recs) × (c.behind ≡ behind) × (c.changed ≡ false)
  unfolding check_recs
  sound_recs trust i st [] behind sound = (refl, refl, refl)
  sound_recs trust i st (er ∷ ers) behind (sound, sounds) =
      let e = sound_er st er sound in
      let e₁ : (check_er fs prompt check_eb 0 st er).1 ≡ er = ap (λ p. p.1) e in
      let e₂ : (check_er fs prompt check_eb 0 st er).2 ≡ false = ap (λ p. p.2) e in
      let st' = (check_er fs prompt check_eb 0 st er).0 in
      let er' = (check_er fs prompt check_eb 0 st er).1 in
      let no_tree : (fs.sparse_alloc && false && i == 0 && rec_clusters 0 er == 0) ≡ false =
        ground arith in
      let in_range : block_out_of_range fs er'.e_blkno ≡ false =
        ap (λ er. block_out_of_range fs er.e_blkno) e₁ ∙ sound.in_range in
      let stays : (block_out_of_range fs er'.e_blkno && prompt Problem.extent_blkno_range er')
          ≡ false =
        ground arith in
      let (k, h, c) =
        sound_recs trust (i + 1) (account fs prompt check_eb 0 st' er' (rec_clusters 0 er)) ers
          behind sounds in
      rw no_tree (rw stays (ap₂ ◌∷◌ e₁ k, h, ap₂ ◌||◌ e₂ c))

  depth_sound :
      (st : State) (el : ExtentList)
      → el.l_tree_depth ≡ 0
      → (st.ei_expect_depth ≡ true → st.ei_expected_depth ≡ 0)
      → check_depth fs prompt check_eb st el ≡ (el, false)
  unfolding check_depth
  depth_sound st el leaf expected = elim (Bool-cases st.ei_expect_depth) [
    | inl expects ↦
        let same : (el.l_tree_depth == st.ei_expected_depth) ≡ true =
          rw (leaf, expected expects) refl in
        rw (expects, same) refl
    | inr not_expects ↦ rw not_expects refl
  ]

  count_sound :
      (max_recs : ℕ) (el : ExtentList)
      → el.l_count ≤ max_recs
      → check_count fs prompt check_eb max_recs el ≡ (el, false)
  unfolding check_count
  count_sound max_recs el fits = ground arith

  free_sound :
      (max_recs : ℕ) (el : ExtentList)
      → el.l_count ≤ max_recs
      → el.l_next_free_rec ≤ el.l_count
      → check_free fs prompt check_eb max_recs el ≡ (el, false, true)
  unfolding check_free
  free_sound max_recs el fits free =
      let under : ltb (min max_recs el.l_count) el.l_next_free_rec ≡ false = ground arith in
      rw under refl

  -- The list that the loop leaves.
  loop_sound :
      (st : State) (el : ExtentList)
      → el.l_tree_depth ≡ 0
      → All (IsSound fs) (take el.l_next_free_rec el.l_recs)
      → let used = el.l_next_free_rec in
        let c =
          check_recs fs prompt check_eb el.l_tree_depth true 0 st
            (take used el.l_recs)
            (drop used el.l_recs) in
        (record el {
          l_recs = c.kept ++ c.behind;
          l_next_free_rec = used - (length (take used el.l_recs) - length c.kept);
        }
          ≡ el)
        × (c.changed ≡ false)
  loop_sound st el leaf sound = rw leaf (
      let used = el.l_next_free_rec in
      let recs = take used el.l_recs in
      let (k, h, c) = sound_recs true 0 st recs (drop used el.l_recs) sound in
      let all : used - (length recs - length recs) ≡ used = omega arith in
      (
        ap₂
              (λ kept behind. record el {
                l_tree_depth = 0;
                l_recs = kept ++ behind;
                l_next_free_rec = used - (length recs - length kept);
              })
              k h
            ∙ ap₂
                (λ recs free. record el { l_tree_depth = 0; l_recs = recs; l_next_free_rec = free })
                (take-append-drop used el.l_recs) all,
        c,
      ))

  -- On a volume whose numbers fit together, `check_el` leaves a sound list of data extents as it is and
  -- says that it has not changed, whatever is answered, where no depth or the depth 0 is expected: what
  -- it has repaired needs no second repair.
  pub check_el-sound_list :
      (max_recs : ℕ) (st : State) (el : ExtentList)
      → IsSoundList fs max_recs el
      → (st.ei_expect_depth ≡ true → st.ei_expected_depth ≡ 0)
      → ((check_el fs prompt check_eb max_recs st el).1 ≡ el)
        × ((check_el fs prompt check_eb max_recs st el).2 ≡ false)
  unfolding check_el
  check_el-sound_list max_recs st el sound expected =
      let d = depth_sound st el sound.is_leaf expected in
      let n = count_sound max_recs el sound.count_fits in
      let f = free_sound max_recs el sound.count_fits sound.free_fits in
      let d₀ : (check_depth fs prompt check_eb st el).0 ≡ el = ap (λ p. p.0) d in
      let d₁ : (check_depth fs prompt check_eb st el).1 ≡ false = ap (λ p. p.1) d in
      let n₀ : (check_count fs prompt check_eb max_recs el).0 ≡ el = ap (λ p. p.0) n in
      let n₁ : (check_count fs prompt check_eb max_recs el).1 ≡ false = ap (λ p. p.1) n in
      let f₀ : (check_free fs prompt check_eb max_recs el).0 ≡ el = ap (λ p. p.0) f in
      let f₁ : (check_free fs prompt check_eb max_recs el).1 ≡ false = ap (λ p. p.1) f in
      let f₂ : (check_free fs prompt check_eb max_recs el).2 ≡ true = ap (λ p. p.2) f in
      rw d₀ (
        rw n₀ (rw (d₁, n₁) (rw f₂ (rw (f₀, f₁) (loop_sound st el sound.is_leaf sound.recs_sound)))))
