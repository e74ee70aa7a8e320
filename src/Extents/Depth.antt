-- ===== src/Extents/Depth.antt =====
-- How deep the check goes: not deeper than the depth that is expected, if a list that claims another
-- depth is corrected.
use mathlib.Core.Path.{fun_ext}
use debian_ocfs2_tools.Base.{
  ℕ, zero, suc, ◌+◌, ◌-◌, ◌≤◌, ◌<◌, ◌≡◌, ◌∙◌, refl, ap, ap₂, Bool, true, false, ◌==◌, ◌&&◌, ◌||◌,
  not, arith, if◌then◌else◌, Bool-cases, inl, inr, min, List, [], ◌∷◌, ◌++◌, take, drop, length,
  Result, ok, err,
}
use debian_ocfs2_tools.Extents.{
  ExtentRec, ExtentList, ExtentBlock, Volume, Problem, State, rec_clusters, block_out_of_range,
  extent_recs_per_eb, Prompt,
}
use debian_ocfs2_tools.Extents.Check.{
  CheckEb, check_child, check_er, account, Checked, check_recs, check_depth, check_count,
  check_free, check_el, check_header, check_read, check_eb, no_rec, keep,
}

-- Two checks of extent blocks agree where a depth below `f` is expected.
abbrev Agree : ℕ → CheckEb → CheckEb → Type 0
Agree f below below' =
    (st : State) (b : ℕ)
    → st.ei_expect_depth ≡ true
    → st.ei_expected_depth < f
    → below st b ≡ below' st b

module _ (fs : Volume) (prompt : Prompt) where
  module _ (f : ℕ) (below below' : CheckEb) (agree : Agree f below below') where
    er_agree :
        (depth : ℕ) (st : State) (er : ExtentRec)
        → depth ≤ f
        → check_er fs prompt below depth st er ≡ check_er fs prompt below' depth st er
    unfolding check_er check_child
    er_agree depth st er le = elim (Bool-cases (block_out_of_range fs er.e_blkno)) [
      | inl out ↦ rw out refl
      | inr inside ↦ elim (Bool-cases (depth == 0)) [
        | inl leaf ↦ rw (inside, leaf) refl
        | inr tree ↦
            let less : depth - 1 < f = ground arith in
            let e =
              agree (record st { ei_expect_depth = true; ei_expected_depth = depth - 1 }) er.e_blkno
                refl less in
            rw (inside, tree) (rw e refl)
      ]
    ]

    -- A round of the loop, over what it calls.
    abbrev round :
        ℕ
        → Bool
        → ℕ
        → State
        → ExtentRec
        → List ExtentRec
        → List ExtentRec
        → State × ExtentRec × Bool
        → (ℕ → State → List ExtentRec → Checked)
        → Checked
    round depth trust i st er ers behind checked rest =
        let er' = checked.1 in
        if fs.sparse_alloc && not (depth == 0) && i == 0 && rec_clusters depth er == 0
        then keep fs prompt below er false (rest (i + 1) st behind)
        else if block_out_of_range fs er'.e_blkno && prompt Problem.extent_blkno_range er'
        then (if not trust
            then keep fs prompt below er' checked.2 (rest (i + 1) checked.0 behind)
            else record (rest i checked.0
                (elim ers [ [] ↦ er' ∷ behind | _ ∷ _ ↦ no_rec ∷ behind ])) { changed = true })
        else keep fs prompt below er' checked.2 (
            rest (i + 1) (account fs prompt below depth checked.0 er' (rec_clusters depth er))
              behind)

    recs_agree :
        (depth : ℕ) (trust : Bool) (recs : List ExtentRec) (i : ℕ) (st : State)
        (behind : List ExtentRec)
        → depth ≤ f
        → check_recs fs prompt below depth trust i st recs behind
          ≡ check_recs fs prompt below' depth trust i st recs behind
    unfolding check_recs account
    recs_agree depth trust [] i st behind le = refl
    recs_agree depth trust (er ∷ ers) i st behind le =
        ap₂ (round depth trust i st er ers behind) (er_agree depth st er le) (
          fun_ext
            (λ i. fun_ext (λ st. fun_ext (λ behind. recs_agree depth trust ers i st behind le))))

    depth_is :
        (st : State) (el : ExtentList)
        → prompt Problem.extent_list_depth no_rec ≡ true
        → st.ei_expect_depth ≡ true
        → (check_depth fs prompt below st el).0.l_tree_depth ≡ st.ei_expected_depth
    unfolding check_depth
    depth_is st el fixes expects = elim (Bool-cases (el.l_tree_depth == st.ei_expected_depth)) [
      | inl same ↦ rw (expects, same) (ground arith)
      | inr other ↦ rw (expects, other) (rw fixes refl)
    ]

    count_depth :
        (max_recs : ℕ) (el : ExtentList)
        → (check_count fs prompt below max_recs el).0.l_tree_depth ≡ el.l_tree_depth
    unfolding check_count
    count_depth max_recs el = ground arith

    free_depth :
        (max_recs : ℕ) (el : ExtentList)
        → (check_free fs prompt below max_recs el).0.l_tree_depth ≡ el.l_tree_depth
    unfolding check_free
    free_depth max_recs el = ground arith

    el_agree :
        (max_recs : ℕ) (st : State) (el : ExtentList)
        → prompt Problem.extent_list_depth no_rec ≡ true
        → st.ei_expect_depth ≡ true
        → st.ei_expected_depth ≤ f
        → check_el fs prompt below max_recs st el ≡ check_el fs prompt below' max_recs st el
    unfolding check_el check_depth check_count check_free
    el_agree max_recs st el fixes expects le =
        let d = check_depth fs prompt below st el in
        let n = check_count fs prompt below max_recs d.0 in
        let f' = check_free fs prompt below max_recs n.0 in
        let el' = f'.0 in
        let used = if f'.2 then el'.l_next_free_rec else min max_recs el'.l_count in
        let depth : el'.l_tree_depth ≡ st.ei_expected_depth =
          free_depth max_recs n.0 ∙ count_depth max_recs d.0 ∙ depth_is st el fixes expects in
        ap
          (λ c. (
            c.state,
            record el' {
              l_recs = c.kept ++ c.behind;
              l_next_free_rec =
                  el'.l_next_free_rec - (length (take used el'.l_recs) - length c.kept);
            },
            d.1 || n.1 || f'.1 || c.changed,
          ))
          (recs_agree el'.l_tree_depth f'.2 (take used el'.l_recs) 0 st (drop used el'.l_recs)
            (omega arith))

    read_agree :
        (st : State) (b : ℕ) (r : Result ExtentBlock)
        → prompt Problem.extent_list_depth no_rec ≡ true
        → st.ei_expect_depth ≡ true
        → st.ei_expected_depth ≤ f
        → check_read fs prompt below st b r ≡ check_read fs prompt below' st b r
    unfolding check_read
    read_agree st b (err e) fixes expects le = refl
    read_agree st b (ok eb) fixes expects le =
        let h = check_header fs prompt b eb in
        ap
          (λ c.
            if not h.1
            then (st, false)
            else if h.2 || c.2
            then (
              record c.0 {
                blocks = λ x. if x == b then ok (record h.0 { h_list = c.1 }) else c.0.blocks x;
              },
              true,
            )
            else (c.0, true))
          (el_agree (extent_recs_per_eb fs.fs_blocksize) st h.0.h_list fixes expects le)

  -- Where a list that claims another depth than is expected is corrected, one more level of fuel than
  -- the depth that is expected is enough: more fuel changes nothing in the check of an extent block.
  pub check_eb-enough :
      (f k : ℕ) (st : State) (b : ℕ)
      → prompt Problem.extent_list_depth no_rec ≡ true
      → st.ei_expect_depth ≡ true
      → st.ei_expected_depth < f
      → check_eb fs prompt f st b ≡ check_eb fs prompt (f + k) st b
  unfolding check_eb
  check_eb-enough zero k st b fixes expects lt = absurd (omega arith)
  check_eb-enough (suc f) k st b fixes expects lt =
      let more : suc f + k ≡ suc (f + k) = omega arith in
      rw more (
        read_agree f (check_eb fs prompt f) (check_eb fs prompt (f + k))
          (λ st b expects lt. check_eb-enough f k st b fixes expects lt) st b (st.blocks b) fixes
          expects (omega arith))
