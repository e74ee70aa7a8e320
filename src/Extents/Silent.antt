-- ===== src/Extents/Silent.antt =====
-- What the check does if every question is answered with no: it looks, and changes nothing.
use debian_ocfs2_tools.Base.{
  ℕ, zero, suc, ◌+◌, ◌-◌, ◌≡◌, ◌∙◌, refl, ap, ap₂, Bool, true, false, ◌==◌, ◌&&◌, ◌||◌, not, ltb,
  arith, if◌then◌else◌, Bool-cases, inl, inr, min, List, [], ◌∷◌, ◌++◌, take, drop,
  take-append-drop, length, Result, ok, err,
}
use debian_ocfs2_tools.Extents.{
  ExtentRec, ExtentList, ExtentBlock, Volume, Problem, State, rec_clusters, block_out_of_range,
  extent_recs_per_eb, Prompt,
}
use debian_ocfs2_tools.Extents.Check.{
  CheckEb, check_unwritten, check_aligned, check_overrun, check_data, check_child, check_er,
  account, check_recs, check_depth, check_count, check_free, check_el, check_header, check_read,
  check_eb, no_rec,
}

module _ (fs : Volume) (prompt : Prompt)
    (no : (p : Problem) (er : ExtentRec) → prompt p er ≡ false) where
  data_stays : (er : ExtentRec) → check_data fs prompt er ≡ (er, false)
  unfolding check_data check_unwritten check_aligned check_overrun
  data_stays er = ground (
    arith,
    no Problem.extent_marked_unwritten er,
    no Problem.extent_blkno_unaligned er,
    no Problem.extent_clusters_overrun er,
  )

  header_stays :
      (blkno : ℕ) (eb : ExtentBlock) → check_header fs prompt blkno eb ≡ (eb, true, false)
  unfolding check_header
  header_stays blkno eb =
      ground
        (arith, no Problem.eb_blkno no_rec, no Problem.eb_gen no_rec, no Problem.eb_gen_fix no_rec)

  module _ (eb_check : CheckEb)
      (stays : (st : State) (b : ℕ) → (eb_check st b).0.blocks ≡ st.blocks) where
    er_stays :
        (depth : ℕ) (st : State) (er : ExtentRec)
        → let c = check_er fs prompt eb_check depth st er in
          (c.0.blocks ≡ st.blocks) × (c.1 ≡ er) × (c.2 ≡ false)
    unfolding check_er check_child
    er_stays depth st er = elim (Bool-cases (block_out_of_range fs er.e_blkno)) [
      | inl out ↦ rw out (refl, refl, refl)
      | inr inside ↦ rw inside (elim (Bool-cases (depth == 0)) [
        | inl leaf ↦ rw leaf (refl, ap (λ p. p.0) (data_stays er), ap (λ p. p.1) (data_stays er))
        | inr tree ↦
            let below = record st { ei_expect_depth = true; ei_expected_depth = depth - 1 } in
            let declined : (not (eb_check below er.e_blkno).1
                  && prompt Problem.extent_eb_invalid er)
                ≡ false =
              ground (arith, no Problem.extent_eb_invalid er) in
            rw tree (rw declined (stays below er.e_blkno, refl, refl))
      ])
    ]

    account_stays :
        (depth : ℕ) (st : State) (er : ExtentRec) (clusters : ℕ)
        → (account fs prompt eb_check depth st er clusters).blocks ≡ st.blocks
    unfolding account
    account_stays depth st er clusters = ground arith

    recs_stay :
        (depth : ℕ) (trust : Bool) (i : ℕ) (st : State) (recs behind : List ExtentRec)
        → let c = check_recs fs prompt eb_check depth trust i st recs behind in
          (c.state.blocks ≡ st.blocks) × (c.kept ≡ recs) × (c.behind ≡ behind) × (c.changed ≡ false)
    unfolding check_recs
    recs_stay depth trust i st [] behind = (refl, refl, refl, refl)
    recs_stay depth trust i st (er ∷ ers) behind =
        let clusters = rec_clusters depth er in
        let st' = (check_er fs prompt eb_check depth st er).0 in
        let er' = (check_er fs prompt eb_check depth st er).1 in
        let (blocks, same, unchanged) = er_stays depth st er in
        let declined : (block_out_of_range fs er'.e_blkno && prompt Problem.extent_blkno_range er')
            ≡ false =
          ground (arith, no Problem.extent_blkno_range er') in
        let st'' = account fs prompt eb_check depth st' er' clusters in
        elim (Bool-cases (fs.sparse_alloc && not (depth == 0) && i == 0 && clusters == 0)) [
          | inl skip ↦
              let (b, k, h, c) = recs_stay depth trust (i + 1) st ers behind in
              rw skip (b, ap (λ l. er ∷ l) k, h, c)
          | inr look ↦
              let (b, k, h, c) = recs_stay depth trust (i + 1) st'' ers behind in
              rw look (
                rw declined (
                  b ∙ account_stays depth st' er' clusters ∙ blocks,
                  ap₂ ◌∷◌ same k,
                  h,
                  ap₂ ◌||◌ unchanged c,
                ))
        ]

    depth_stays :
        (st : State) (el : ExtentList) → check_depth fs prompt eb_check st el ≡ (el, false)
    unfolding check_depth
    depth_stays st el = ground (arith, no Problem.extent_list_depth no_rec)

    count_stays :
        (max_recs : ℕ) (el : ExtentList) → check_count fs prompt eb_check max_recs el ≡ (el, false)
    unfolding check_count
    count_stays max_recs el = ground (arith, no Problem.extent_list_count no_rec)

    free_stays :
        (max_recs : ℕ) (el : ExtentList)
        → let f = check_free fs prompt eb_check max_recs el in (f.0 ≡ el) × (f.1 ≡ false)
    unfolding check_free
    free_stays max_recs el = elim (Bool-cases (ltb (min max_recs el.l_count) el.l_next_free_rec)) [
      | inl more ↦ rw (more, no Problem.extent_list_free no_rec) (refl, refl)
      | inr fewer ↦ rw fewer (refl, refl)
    ]

    -- The list that the loop leaves.
    loop_stays :
        (trust : Bool) (used : ℕ) (st : State) (el : ExtentList)
        → let c =
            check_recs fs prompt eb_check el.l_tree_depth trust 0 st
              (take used el.l_recs)
              (drop used el.l_recs) in
          (c.state.blocks ≡ st.blocks)
          × (record el {
            l_recs = c.kept ++ c.behind;
            l_next_free_rec = el.l_next_free_rec - (length (take used el.l_recs) - length c.kept);
          }
              ≡ el)
          × (c.changed ≡ false)
    loop_stays trust used st el =
        let recs = take used el.l_recs in
        let (b, k, h, c) = recs_stay el.l_tree_depth trust 0 st recs (drop used el.l_recs) in
        let all : el.l_next_free_rec - (length recs - length recs) ≡ el.l_next_free_rec =
          omega arith in
        (
          b,
          ap₂
                (λ kept behind. record el {
                  l_recs = kept ++ behind;
                  l_next_free_rec = el.l_next_free_rec - (length recs - length kept);
                })
                k h
              ∙ ap₂ (λ recs next. record el { l_recs = recs; l_next_free_rec = next })
                  (take-append-drop used el.l_recs) all,
          c,
        )

    -- If the check of the blocks below writes none, the check of a list writes none, leaves the list
    -- as it is and says so.
    el_stays :
        (max_recs : ℕ) (st : State) (el : ExtentList)
        → let c = check_el fs prompt eb_check max_recs st el in
          (c.0.blocks ≡ st.blocks) × (c.1 ≡ el) × (c.2 ≡ false)
    unfolding check_el
    el_stays max_recs st el =
        let d = depth_stays st el in
        let n = count_stays max_recs el in
        let (f₀, f₁) = free_stays max_recs el in
        let d₀ : (check_depth fs prompt eb_check st el).0 ≡ el = ap (λ p. p.0) d in
        let d₁ : (check_depth fs prompt eb_check st el).1 ≡ false = ap (λ p. p.1) d in
        let n₀ : (check_count fs prompt eb_check max_recs el).0 ≡ el = ap (λ p. p.0) n in
        let n₁ : (check_count fs prompt eb_check max_recs el).1 ≡ false = ap (λ p. p.1) n in
        let f = check_free fs prompt eb_check max_recs el in
        rw d₀ (
          rw n₀ (
            rw (d₁, n₁)
              (rw (f₀, f₁)
                (loop_stays f.2 (if f.2 then el.l_next_free_rec else min max_recs el.l_count) st
                  el))))

  read_stays :
      (below : CheckEb)
      → ((st : State) (b : ℕ) → (below st b).0.blocks ≡ st.blocks)
      → (st : State) (b : ℕ) (r : Result ExtentBlock)
      → (check_read fs prompt below st b r).0.blocks ≡ st.blocks
  unfolding check_read
  read_stays below stays st b (err e) = refl
  read_stays below stays st b (ok eb) =
      let h = header_stays b eb in
      let h₀ : (check_header fs prompt b eb).0 ≡ eb = ap (λ p. p.0) h in
      let h₁ : (check_header fs prompt b eb).1 ≡ true = ap (λ p. p.1) h in
      let h₂ : (check_header fs prompt b eb).2 ≡ false = ap (λ p. p.2) h in
      let (blocks, same, unchanged) =
        el_stays below stays (extent_recs_per_eb fs.fs_blocksize) st eb.h_list in
      rw (h₀, h₁, h₂) (rw unchanged blocks)

  -- If every question is answered with no, the check of an extent block writes no block, to any depth
  -- of nesting.
  eb_stays : (fuel : ℕ) (st : State) (b : ℕ) → (check_eb fs prompt fuel st b).0.blocks ≡ st.blocks
  unfolding check_eb
  eb_stays zero st b = refl
  eb_stays (suc fuel) st b = read_stays (check_eb fs prompt fuel) (eb_stays fuel) st b (st.blocks b)

  -- If every question is answered with no, `check_el` leaves any list as it is, says that it has not
  -- changed, and writes none of the extent blocks below it, to any depth of nesting.
  pub check_el-silent :
      (fuel max_recs : ℕ) (st : State) (el : ExtentList)
      → let c = check_el fs prompt (check_eb fs prompt fuel) max_recs st el in
        (c.0.blocks ≡ st.blocks) × (c.1 ≡ el) × (c.2 ≡ false)
  check_el-silent fuel = el_stays (check_eb fs prompt fuel) (eb_stays fuel)
