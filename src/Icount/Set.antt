-- ===== src/Icount/Set.antt =====
-- What `o2fsck_icount_set` does to the tree, and how a count is read from the bitmap and the tree.
use debian_ocfs2_tools.Base.{
  ℕ, ◌<◌, ◌≤◌, ◌≡◌, ◌∙◌, refl, Bool, true, false, ltb, List, arith, Bool-cases, inl, inr,
  if◌then◌else◌, Option, none, some, Option-cases,
}
use debian_ocfs2_tools.Icount.{
  Tree, Icount, BlockBitmap, set_count, icount_get, icount_insert, set_tree,
}
use debian_ocfs2_tools.Icount.Sorted.{Pair, inorder, IsSorted, find}
use debian_ocfs2_tools.Icount.Search.{icount_search-find}
use debian_ocfs2_tools.Icount.Write.{IsWritten}
use debian_ocfs2_tools.Icount.Nodes.{
  set_count-IsWritten, link_node-IsLinked, remove, remove-IsWritten,
}

-- Every inode is counted in one place: a bit for a single link, a node for more.
pub record IsCounted (bitmap : BlockBitmap) (icount : Icount bitmap) : Type 0 where
  pub sorted : IsSorted (inorder icount.ic_multiple_tree)
  pub apart :
      (k n : ℕ)
      → find (inorder icount.ic_multiple_tree) k ≡ some n
      → (k < bitmap.b_total_bits icount.ic_single_bm)
        × (2 ≤ n)
        × (bitmap.test_bit icount.ic_single_bm k ≡ false)

-- The count of a number, from the two places.
unfoldable pub count_of : Bool → Option ℕ → ℕ
count_of true found = 1
count_of false none = 0
count_of false (some n) = n

pub icount_get-count_of :
    (bitmap : BlockBitmap) (icount : Icount bitmap) (blkno : ℕ)
    → IsSorted (inorder icount.ic_multiple_tree)
    → icount_get bitmap icount blkno
      ≡ count_of
          (bitmap.test_bit icount.ic_single_bm blkno)
          (find (inorder icount.ic_multiple_tree) blkno)
unfolding icount_get count_of
icount_get-count_of bitmap icount blkno h =
    let found = icount_search-find icount.ic_multiple_tree blkno none h in
    elim (Bool-cases (bitmap.test_bit icount.ic_single_bm blkno)) [
      | inl single ↦ rw single refl
      | inr other ↦ rw other (elim (Option-cases (find (inorder icount.ic_multiple_tree) blkno)) [
        | inl missing ↦ rw (found ∙ missing) (rw missing refl)
        | inr (n, there) ↦ rw (found ∙ there) (rw there refl)
      ])
    ]

-- What is in the tree for a count.
unfoldable pub in_tree : ℕ → Option ℕ
in_tree count = if ltb 1 count then some count else none

IsWritten-same : (ps : List Pair) (k : ℕ) → IsSorted ps → find ps k ≡ none → IsWritten ps k none ps
IsWritten-same ps k h missing = record {
  sorted = h;
  at = missing;
  others = λ _ _. refl;
  keys = λ _ _ all. all;
}

module _ (rb_insert_color : Tree → Tree) (rb_erase : Tree → ℕ → Tree)
    (rb_insert_color-inorder : (t : Tree) → inorder (rb_insert_color t) ≡ inorder t)
    (rb_erase-inorder : (t : Tree) (k : ℕ)
      → IsSorted (inorder t)
      → inorder (rb_erase t k) ≡ remove (inorder t) k) where
  abbrev pub IsWrittenTree : Tree → ℕ → ℕ → Tree → Type 1
  IsWrittenTree t blkno count t' =
      (set_tree rb_insert_color rb_erase t blkno count ≡ some t')
      × IsWritten (inorder t) blkno (in_tree count) (inorder t')

  pub set_tree-IsWritten :
      (t : Tree) (blkno count : ℕ)
      → IsSorted (inorder t)
      → (t' : Tree) × IsWrittenTree t blkno count t'
  unfolding set_tree icount_insert in_tree
  set_tree-IsWritten t blkno count h = elim (Option-cases (find (inorder t) blkno)) [
    | inl missing ↦
        let searched = icount_search-find t blkno none h ∙ missing in
        elim (Bool-cases (ltb 1 count)) [
          | inl many ↦
              let (linked, (links, written)) = link_node-IsLinked t blkno count h missing in
              (
                rb_insert_color linked,
                (
                  rw (set_tree, searched, many, icount_insert, links) refl,
                  rw (many, rb_insert_color-inorder linked) written,
                ),
              )
          | inr few ↦ (
            t,
            (
              rw (set_tree, searched, few) refl,
              rw few (IsWritten-same (inorder t) blkno h missing),
            ),
          )
        ]
    | inr (n, found) ↦
        let searched = icount_search-find t blkno none h ∙ found in
        elim (Bool-cases (ltb count 2)) [
          | inl few ↦
              let not_many : ltb 1 count ≡ false = ground arith in
              (
                rb_erase t blkno,
                (
                  rw (set_tree, searched, few) refl,
                  rw (not_many, rb_erase-inorder t blkno h) (remove-IsWritten (inorder t) blkno h),
                ),
              )
          | inr many ↦
              let above_one : ltb 1 count ≡ true = ground arith in
              (
                set_count t blkno count,
                (
                  rw (set_tree, searched, many) refl,
                  rw above_one (set_count-IsWritten t blkno count n h found),
                ),
              )
        ]
  ]
