-- ===== src/Extents/Leaf/List.antt =====
-- A list of data extents after the check, if every question is answered with yes.
use debian_ocfs2_tools.Base.{
  ℕ, ◌+◌, ◌-◌, ◌≤◌, ◌≡◌, ◌∙◌, refl, sym, ap, subst, true, false, ◌==◌, ◌&&◌, ltb, arith, Bool-cases,
  inl, inr, ◌⊎◌, min, List, [], ◌∷◌, ◌++◌, take, drop, length, length-take, All,
}
use debian_ocfs2_tools.Base.Round.{take-append}
use debian_ocfs2_tools.Extents.{
  ExtentRec, ExtentList, Volume, Problem, State, rec_clusters, block_out_of_range, Prompt,
}
use debian_ocfs2_tools.Extents.Check.{
  CheckEb, check_er, account, check_recs, check_depth, check_count, check_free, check_el, no_rec,
}
use debian_ocfs2_tools.Extents.Leaf.{IsVolume, IsSound, check_data-IsSound}

-- A list of data extents in which there is nothing to repair, in a block with room for so many.
pub record IsSoundList (fs : Volume) (max_recs : ℕ) (el : ExtentList) : Type 0 where
  pub is_leaf : el.l_tree_depth ≡ 0
  pub count_fits : el.l_count ≤ max_recs
  pub free_fits : el.l_next_free_rec ≤ el.l_count
  pub recs_sound : All (IsSound fs) (take el.l_next_free_rec el.l_recs)

module _ (fs : Volume) (ok_fs : IsVolume fs) (prompt : Prompt)
    (yes : (p : Problem) (er : ExtentRec) → prompt p er ≡ true) (check_eb : CheckEb) where
  checked_er :
      (st : State) (er : ExtentRec)
      → let er' = (check_er fs prompt check_eb 0 st er).1 in
        (block_out_of_range fs er'.e_blkno ≡ true) ⊎ IsSound fs er'
  unfolding check_er
  checked_er st er = elim (Bool-cases (block_out_of_range fs er.e_blkno)) [
    | inl out ↦ rw out (inl out)
    | inr inside ↦ rw inside (check_data-IsSound fs ok_fs prompt yes er inside)
  ]

  check_recs-IsSound :
      (i : ℕ) (st : State) (recs behind : List ExtentRec)
      → let c = check_recs fs prompt check_eb 0 true i st recs behind in
        All (IsSound fs) c.kept × (length c.kept ≤ length recs)
  unfolding check_recs
  check_recs-IsSound i st [] behind = (tt, omega arith)
  check_recs-IsSound i st (er ∷ ers) behind =
      let checked = check_er fs prompt check_eb 0 st er in
      let st' = checked.0 in
      let er' = checked.1 in
      let no_tree : (fs.sparse_alloc && false && i == 0 && rec_clusters 0 er == 0) ≡ false =
        ground arith in
      let answered = yes Problem.extent_blkno_range er' in
      rw no_tree (elim (checked_er st er) [
        | inl out ↦
            let (sound, fewer) =
              check_recs-IsSound i st' ers
                (elim ers [ [] ↦ er' ∷ behind | _ ∷ _ ↦ no_rec ∷ behind ]) in
            rw (out, answered) (sound, omega (arith, fewer))
        | inr stays ↦
            let (sound, fewer) =
              check_recs-IsSound (i + 1) (account fs prompt check_eb 0 st' er' (rec_clusters 0 er))
                ers behind in
            rw stays.in_range ((stays, sound), omega (arith, fewer))
      ])

  depth_stays :
      (st : State) (el : ExtentList)
      → el.l_tree_depth ≡ 0
      → (st.ei_expect_depth ≡ true → st.ei_expected_depth ≡ 0)
      → (check_depth fs prompt check_eb st el).0 ≡ el
  unfolding check_depth
  depth_stays st el leaf expected = elim (Bool-cases st.ei_expect_depth) [
    | inl expects ↦
        let same : (el.l_tree_depth == st.ei_expected_depth) ≡ true =
          rw (leaf, expected expects) refl in
        rw (expects, same) refl
    | inr not_expects ↦ rw not_expects refl
  ]

  count_repaired :
      (max_recs : ℕ) (el : ExtentList)
      → let el' = (check_count fs prompt check_eb max_recs el).0 in
        (el'.l_count ≤ max_recs) × (el'.l_tree_depth ≡ el.l_tree_depth) × (el'.l_recs ≡ el.l_recs)
  unfolding check_count
  count_repaired max_recs el = elim (Bool-cases (ltb max_recs el.l_count)) [
    | inl more ↦ rw (more, yes Problem.extent_list_count no_rec) (omega arith, refl, refl)
    | inr fewer ↦ rw fewer (ground arith, refl, refl)
  ]

  free_repaired :
      (max_recs : ℕ) (el : ExtentList)
      → el.l_count ≤ max_recs
      → let f = check_free fs prompt check_eb max_recs el in
        (f.0.l_next_free_rec ≤ el.l_count)
        × (f.0.l_count ≡ el.l_count)
        × (f.0.l_tree_depth ≡ el.l_tree_depth)
        × (f.0.l_recs ≡ el.l_recs)
        × (f.2 ≡ true)
  unfolding check_free
  free_repaired max_recs el fits =
      let least : min max_recs el.l_count ≡ el.l_count = omega arith in
      elim (Bool-cases (ltb el.l_count el.l_next_free_rec)) [
        | inl more ↦
            rw least
              (rw (more, yes Problem.extent_list_free no_rec) (omega arith, refl, refl, refl, refl))
        | inr fewer ↦ rw least (rw fewer (ground arith, refl, refl, refl, refl))
      ]

  -- The list that the loop leaves.
  loop_repaired :
      (max_recs used count depth next_free : ℕ) (st : State) (recs : List ExtentRec)
      → length recs ≡ max_recs
      → used ≤ count
      → count ≤ max_recs
      → depth ≡ 0
      → next_free ≡ used
      → let c = check_recs fs prompt check_eb depth true 0 st (take used recs) (drop used recs) in
        IsSoundList fs max_recs (record {
          l_tree_depth = depth;
          l_count = count;
          l_next_free_rec = next_free - (length (take used recs) - length c.kept);
          l_recs = c.kept ++ c.behind;
        })
  loop_repaired max_recs used count depth next_free st recs len le fits leaf e =
      rw (leaf, e)
        (let c = check_recs fs prompt check_eb 0 true 0 st (take used recs) (drop used recs) in
          let (sound, fewer) = check_recs-IsSound 0 st (take used recs) (drop used recs) in
          let all_used : length (take used recs) ≡ used = omega (arith, length-take used recs) in
          let free : used - (length (take used recs) - length c.kept) ≡ length c.kept =
            omega (arith, fewer) in
          let none : length c.kept - length c.kept ≡ 0 = omega arith in
          let kept : take (length c.kept) (c.kept ++ c.behind) ≡ c.kept ++ [] =
            take-append (length c.kept) c.kept c.behind (omega arith)
            ∙ ap (λ n. c.kept ++ take n c.behind) none in
          record {
            is_leaf = refl;
            count_fits = fits;
            free_fits = omega arith;
            recs_sound =
                subst (λ n. All (IsSound fs) (take n (c.kept ++ c.behind))) (sym free)
                  (subst (All (IsSound fs)) (sym kept) (All-append_nil c.kept sound));
          })
    where
      All-append_nil : (es : List ExtentRec) → All (IsSound fs) es → All (IsSound fs) (es ++ [])
      All-append_nil [] h = tt
      All-append_nil (e ∷ es) h = (h.0, All-append_nil es h.1)

  -- On a volume whose numbers fit together, `check_el` with every question answered with yes turns any
  -- list that claims to hold data extents, in a block with room for `max_recs` records and where no
  -- depth or the depth 0 is expected, into a sound one: the counts fit, and every record in use lies in
  -- the volume, begins at a cluster and has no flag that the volume does not support.
  pub check_el-IsSoundList :
      (max_recs : ℕ) (st : State) (el : ExtentList)
      → el.l_tree_depth ≡ 0
      → (st.ei_expect_depth ≡ true → st.ei_expected_depth ≡ 0)
      → length el.l_recs ≡ max_recs
      → IsSoundList fs max_recs (check_el fs prompt check_eb max_recs st el).1
  unfolding check_el
  check_el-IsSoundList max_recs st el leaf expected len =
      let d = depth_stays st el leaf expected in
      let (n_count, n_depth, n_recs) = count_repaired max_recs el in
      let n = (check_count fs prompt check_eb max_recs el).0 in
      let (f_free, f_count, f_depth, f_recs, f_trust) = free_repaired max_recs n n_count in
      let f = (check_free fs prompt check_eb max_recs n).0 in
      rw d (
        rw f_trust (
          loop_repaired max_recs f.l_next_free_rec f.l_count f.l_tree_depth f.l_next_free_rec st
            f.l_recs (ap length (f_recs ∙ n_recs) ∙ len) (omega arith) (omega arith)
            (f_depth ∙ n_depth ∙ leaf) refl))
