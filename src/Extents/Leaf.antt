-- ===== src/Extents/Leaf.antt =====
-- What the check repairs in a list of data extents if every question is answered with yes.
pub mod List
pub mod Stable
use debian_ocfs2_tools.Base.{
  ℕ, zero, suc, ◌+◌, ◌-◌, ◌*◌, ◌/◌, ◌%◌, ◌<◌, ◌≤◌, ◌≡◌, ◌≢◌, ◌∙◌, refl, sym, ap, Bool, true, false,
  ◌==◌, ◌&&◌, ◌||◌, not, ltb, arith, if◌then◌else◌, Bool-cases, inl, inr, ◌⊎◌, min,
}
use native.Mathlib.Nat.{mul-div_cancel, div-mul-le_self, le-div_iff_mul-le}
use debian_ocfs2_tools.Extents.{
  ExtentRec, e_leaf_clusters, e_flags, Volume, Problem, rec_clusters, set_rec_clusters,
  blocks_to_clusters, clusters_to_blocks, block_out_of_range, is_unwritten, clear_unwritten, Prompt,
}
use debian_ocfs2_tools.Extents.Check.{check_unwritten, check_aligned, check_overrun, check_data}

-- The numbers of the volume fit together, and in 32 bits.
pub record IsVolume (fs : Volume) : Type 0 where
  pub some_blocks : 0 < fs.bpc
  pub blocks_inside : fs.fs_blocks / fs.bpc ≤ fs.fs_clusters
  pub clusters_fit : fs.fs_clusters + 65536 ≤ 4294967296

-- A record of data extents in which there is nothing to repair.
pub record IsSound (fs : Volume) (er : ExtentRec) : Type 0 where
  pub in_range : block_out_of_range fs er.e_blkno ≡ false
  pub aligned : clusters_to_blocks fs (blocks_to_clusters fs er.e_blkno) ≡ er.e_blkno
  pub inside : blocks_to_clusters fs er.e_blkno + e_leaf_clusters er ≤ fs.fs_clusters
  pub written : fs.writes_unwritten ≡ false → is_unwritten er ≡ false

module _ (fs : Volume) (ok_fs : IsVolume fs) (prompt : Prompt)
    (yes : (p : Problem) (er : ExtentRec) → prompt p er ≡ true) where
  -- The first repair clears the flag and nothing else.
  check_unwritten-lem :
      (er : ExtentRec)
      → let er' = check_unwritten fs prompt er in
        (er'.e_blkno ≡ er.e_blkno)
        × (e_leaf_clusters er' ≡ e_leaf_clusters er)
        × (fs.writes_unwritten ≡ false → is_unwritten er' ≡ false)
  unfolding check_unwritten is_unwritten clear_unwritten
  check_unwritten-lem er = elim (Bool-cases (not fs.writes_unwritten && e_flags er % 2 == 1)) [
    | inl set ↦
        let answered = yes Problem.extent_marked_unwritten er in
        let odd : er.e_word / 16777216 % 2 ≡ 1 = ground arith in
        rw (set, answered)
          (
            refl,
            omega arith,
            λ _. let even : (er.e_word - 16777216) / 16777216 % 2 ≡ 0 = omega arith in rw even refl,
          )
    | inr clear ↦ rw clear (refl, refl, λ w. ground arith)
  ]

  clusters-le :
      (er : ExtentRec)
      → block_out_of_range fs er.e_blkno ≡ false
      → er.e_blkno / fs.bpc ≤ fs.fs_clusters
  unfolding block_out_of_range
  clusters-le er inside =
      let below : er.e_blkno ≤ fs.fs_blocks = ground arith in
      let le : er.e_blkno / fs.bpc ≤ fs.fs_blocks / fs.bpc =
        (le-div_iff_mul-le ok_fs.some_blocks).1
          (omega (arith, div-mul-le_self er.e_blkno fs.bpc)) in
      omega (arith, le, ok_fs.blocks_inside)

  check_aligned-lem :
      (er : ExtentRec)
      → block_out_of_range fs er.e_blkno ≡ false
      → let er' = (check_aligned fs prompt er).0 in
        (er'.e_word ≡ er.e_word)
        × (er'.e_blkno ≤ er.e_blkno)
        × (clusters_to_blocks fs (blocks_to_clusters fs er'.e_blkno) ≡ er'.e_blkno)
  unfolding check_aligned block_out_of_range clusters_to_blocks blocks_to_clusters
  check_aligned-lem er inside =
      let clusters = er.e_blkno / fs.bpc in
      let small : min clusters 4294967295 ≡ clusters =
        omega (arith, ok_fs.clusters_fit, clusters-le er inside) in
      let start_le : clusters * fs.bpc ≤ er.e_blkno = div-mul-le_self er.e_blkno fs.bpc in
      let again : clusters * fs.bpc / fs.bpc ≡ clusters =
        mul-div_cancel clusters ok_fs.some_blocks in
      elim (Bool-cases (clusters * fs.bpc == er.e_blkno)) [
        | inl same ↦
            let e : clusters * fs.bpc ≡ er.e_blkno = ground arith in
            rw small (rw same (refl, omega arith, rw small e))
        | inr differ ↦
            let answered = yes Problem.extent_blkno_unaligned er in
            rw small (rw (differ, answered) (refl, start_le, rw again (rw small refl)))
      ]

  check_overrun-lem :
      (er : ExtentRec)
      → blocks_to_clusters fs er.e_blkno ≤ fs.fs_clusters
      → let er' = (check_overrun fs prompt er (e_leaf_clusters er)).0 in
        (er'.e_blkno ≡ er.e_blkno)
        × (e_flags er' ≡ e_flags er)
        × (blocks_to_clusters fs er.e_blkno + e_leaf_clusters er' ≤ fs.fs_clusters)
  unfolding check_overrun set_rec_clusters
  check_overrun-lem er inside =
      let first = blocks_to_clusters fs er.e_blkno in
      let clusters = e_leaf_clusters er in
      let fits : (first + clusters) % 4294967296 ≡ first + clusters =
        omega (arith, ok_fs.clusters_fit) in
      elim (Bool-cases (ltb fs.fs_clusters (first + clusters))) [
        | inl over ↦
            let answered = yes Problem.extent_clusters_overrun er in
            let more : fs.fs_clusters < first + clusters = ground arith in
            rw fits (rw (over, answered) (refl, omega arith, omega arith))
        | inr under ↦ rw fits (rw under (refl, refl, ground arith))
      ]

  -- The clusters of a block that is not behind one in range lie in the volume.
  first-le :
      (er : ExtentRec) (blkno : ℕ)
      → block_out_of_range fs er.e_blkno ≡ false
      → blkno ≤ er.e_blkno
      → blocks_to_clusters fs blkno ≤ fs.fs_clusters
  unfolding blocks_to_clusters
  first-le er blkno inside le =
      let below : blkno / fs.bpc ≤ er.e_blkno / fs.bpc =
        (le-div_iff_mul-le ok_fs.some_blocks).1 (omega (arith, div-mul-le_self blkno fs.bpc)) in
      omega (arith, below, clusters-le er inside)

  -- The repairs of a record of data in range give a record in which there is nothing to repair, or
  -- one that has moved out of range, which the loop removes.
  pub check_data-IsSound :
      (er : ExtentRec)
      → block_out_of_range fs er.e_blkno ≡ false
      → let er' = (check_data fs prompt er).0 in
        (block_out_of_range fs er'.e_blkno ≡ true) ⊎ IsSound fs er'
  unfolding check_data rec_clusters is_unwritten
  check_data-IsSound er inside =
      let u = check_unwritten fs prompt er in
      let (u_blkno, u_clusters, u_written) = check_unwritten-lem er in
      let u_inside : block_out_of_range fs u.e_blkno ≡ false =
        ap (block_out_of_range fs) u_blkno ∙ inside in
      let a = (check_aligned fs prompt u).0 in
      let (a_word, a_le, a_aligned) = check_aligned-lem u u_inside in
      let same : e_leaf_clusters er ≡ e_leaf_clusters a =
        sym u_clusters ∙ ap (λ w. w % 65536) (sym a_word) in
      let first_le = first-le u a.e_blkno u_inside a_le in
      let (o_blkno, o_flags, o_inside) = check_overrun-lem a first_le in
      let written : fs.writes_unwritten ≡ false
          → (e_flags (check_overrun fs prompt a (e_leaf_clusters a)).0 % 2 == 1) ≡ false =
        λ w. ap (λ f. f % 2 == 1) (o_flags ∙ ap (λ x. x / 16777216) a_word) ∙ u_written w in
      rw same (elim (Bool-cases (block_out_of_range fs a.e_blkno)) [
        | inl out ↦ inl (ap (block_out_of_range fs) o_blkno ∙ out)
        | inr stays ↦ inr (record {
          in_range = ap (block_out_of_range fs) o_blkno ∙ stays;
          aligned =
              ap (λ b. clusters_to_blocks fs (blocks_to_clusters fs b)) o_blkno
              ∙ a_aligned
              ∙ sym o_blkno;
          inside = rw o_blkno o_inside;
          written = written;
        })
      ])
