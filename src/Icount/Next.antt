-- ===== src/Icount/Next.antt =====
-- `o2fsck_icount_next_blkno`: the next inode that has a count.
use debian_ocfs2_tools.Base.{
  ℕ, ◌<◌, ◌≤◌, ◌≡◌, ◌≢◌, ◌∙◌, refl, true, false, ltb, arith, Bool-cases, inl, inr, Option, none,
  some, Option-cases,
}
use debian_ocfs2_tools.Icount.{
  Icount, BlockBitmap, IsNextBit, earlier, icount_get, icount_next_blkno,
}
use debian_ocfs2_tools.Icount.Sorted.{inorder, find}
use debian_ocfs2_tools.Icount.Set.{IsCounted, count_of, icount_get-count_of}
use debian_ocfs2_tools.Icount.NextNode.{IsNodeFrom, searched_node, searched_node-IsNodeFrom}

-- What is found: no inode from `start` on has a count, or this one is the first.
unfoldable pub IsNextCount : (ℕ → ℕ) → ℕ → ℕ → Option ℕ → Type 0
IsNextCount get total start none = (k : ℕ) → start ≤ k → k < total → get k ≡ 0
IsNextCount get total start (some found) =
    (start ≤ found)
    × (found < total)
    × (1 ≤ get found)
    × ((k : ℕ) → start ≤ k → k < found → get k ≡ 0)

module _ (bitmap : BlockBitmap) (icount : Icount bitmap) (c : IsCounted bitmap icount) where
  counts : ℕ → Option ℕ
  counts k = find (inorder icount.ic_multiple_tree) k

  no_count :
      (k : ℕ)
      → bitmap.test_bit icount.ic_single_bm k ≡ false
      → counts k ≡ none
      → icount_get bitmap icount k ≡ 0
  unfolding counts count_of
  no_count k clear missing = icount_get-count_of bitmap icount k c.sorted ∙ rw (clear, missing) refl

  bit_count :
      (k : ℕ) → bitmap.test_bit icount.ic_single_bm k ≡ true → 1 ≤ icount_get bitmap icount k
  unfolding count_of
  bit_count k is_set =
      let one : icount_get bitmap icount k ≡ 1 =
        icount_get-count_of bitmap icount k c.sorted ∙ rw is_set refl in
      omega arith

  node_count :
      (k : ℕ)
      → counts k ≢ none
      → (k < bitmap.b_total_bits icount.ic_single_bm) × (1 ≤ icount_get bitmap icount k)
  unfolding counts count_of
  node_count k there = elim (Option-cases (counts k)) [
    | inl missing ↦ absurd (there missing)
    | inr (n, found) ↦
        let (known, many, clear) = c.apart k n found in
        let reads : icount_get bitmap icount k ≡ n =
          icount_get-count_of bitmap icount k c.sorted ∙ rw (clear, found) refl in
        (known, omega arith)
  ]

  earlier-IsNextCount :
      (start : ℕ) (in_blkno next_bit : Option ℕ)
      → IsNodeFrom (inorder icount.ic_multiple_tree) start in_blkno
      → IsNextBit
          (bitmap.test_bit icount.ic_single_bm)
          (bitmap.b_total_bits icount.ic_single_bm)
          start
          next_bit
      → IsNextCount
          (icount_get bitmap icount)
          (bitmap.b_total_bits icount.ic_single_bm)
          start
          (earlier in_blkno next_bit)
  unfolding IsNodeFrom IsNextBit IsNextCount earlier counts
  earlier-IsNextCount start none none n b = λ k ge lt. no_count k (b k ge lt) (n k ge)
  earlier-IsNextCount start none (some r) n b =
      (b.0, b.1, bit_count r b.2, λ k ge lt. no_count k (b.3 k ge lt) (n k ge))
  earlier-IsNextCount start (some m) none n b =
      let (known, counted) = node_count m n.1 in
      (n.0, known, counted, λ k ge lt. no_count k (b k ge (omega arith)) (n.2 k ge lt))
  earlier-IsNextCount start (some m) (some r) n b = elim (Bool-cases (ltb r m)) [
    | inl bit ↦
        let lt : r < m = ground arith in
        rw bit (
          b.0,
          b.1,
          bit_count r b.2,
          λ k ge less. no_count k (b.3 k ge less) (n.2 k ge (omega arith)),
        )
    | inr other ↦
        let le : m ≤ r = ground arith in
        let (known, counted) = node_count m n.1 in
        rw other
          (n.0, known, counted, λ k ge less. no_count k (b.3 k ge (omega arith)) (n.2 k ge less))
  ]

-- From a number that the bitmap has, on counts that are well-formed, `o2fsck_icount_next_blkno` finds the
-- first number with a count; where it finds none, no number from there on has a count.
pub icount_next_blkno-IsNextCount :
    (bitmap : BlockBitmap) (icount : Icount bitmap) (start : ℕ)
    → IsCounted bitmap icount
    → start < bitmap.b_total_bits icount.ic_single_bm
    → IsNextCount
        (icount_get bitmap icount)
        (bitmap.b_total_bits icount.ic_single_bm)
        start
        (icount_next_blkno bitmap icount start)
unfolding icount_next_blkno searched_node
icount_next_blkno-IsNextCount bitmap icount start c inside =
    earlier-IsNextCount bitmap icount c start _ _
      (searched_node-IsNodeFrom icount.ic_multiple_tree start c.sorted)
      (bitmap.find_next_set-IsNextBit icount.ic_single_bm start inside)
