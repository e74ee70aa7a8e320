-- ===== src/Icount/Update.antt =====
-- The counts of fsck.ocfs2 as a function of the block number: what `o2fsck_icount_set` and
-- `o2fsck_icount_delta` leave, and what they keep.
use debian_ocfs2_tools.Base.{
  ℕ, ◌+◌, ◌-◌, ◌%◌, ◌^◌, ◌<◌, ◌≤◌, ◌≡◌, ◌∙◌, refl, sym, ap, false, ◌==◌, ltb, leb, arith,
  Bool-cases, inl, inr, if◌then◌else◌, if_true, if_false, some,
}
use debian_ocfs2_tools.Icount.{
  Tree, Icount, BlockBitmap, icount_get, icount_set, icount_add, icount_drop,
}
use debian_ocfs2_tools.Icount.Sorted.{IsSorted, inorder, find}
use debian_ocfs2_tools.Icount.Set.{
  IsCounted, count_of, icount_get-count_of, in_tree, set_tree-IsWritten,
}
use debian_ocfs2_tools.Icount.Write.{IsWritten}
use debian_ocfs2_tools.Icount.Nodes.{remove}

-- What a change of one count leaves: the counts are well-formed, the new one is read at its number, and
-- all others are read as before.
pub record IsUpdated (bitmap : BlockBitmap) (icount : Icount bitmap) (blkno count : ℕ)
    (icount' : Icount bitmap) : Type 0 where
  pub counted : IsCounted bitmap icount'
  pub same_total :
      bitmap.b_total_bits icount'.ic_single_bm ≡ bitmap.b_total_bits icount.ic_single_bm
  pub reads :
      (k : ℕ)
      → icount_get bitmap icount' k ≡ (if k == blkno then count else icount_get bitmap icount k)

count_of-in_tree : (count : ℕ) → count_of (count == 1) (in_tree count) ≡ count
unfolding count_of in_tree
count_of-in_tree count = elim (Bool-cases (count == 1)) [
  | inl single ↦ rw single (ground arith)
  | inr other ↦ rw other (elim (Bool-cases (ltb 1 count)) [
    | inl many ↦ rw many refl
    | inr few ↦ rw few (ground arith)
  ])
]

in_tree-many : (count n : ℕ) → in_tree count ≡ some n → (2 ≤ count) × (n ≡ count)
unfolding in_tree
in_tree-many count n h = elim (Bool-cases (ltb 1 count)) [
  | inl many ↦ (ground arith, ground arith)
  | inr few ↦ absurd (ground arith)
]

module _ (bitmap : BlockBitmap) where
  -- The bitmap that a count leaves.
  single_bm : bitmap.State → ℕ → ℕ → bitmap.State
  single_bm bm blkno count =
      if count == 1 then bitmap.set_bit bm blkno else bitmap.clear_bit bm blkno

  record IsMarked (blkno count : ℕ) (bm bm' : bitmap.State) : Type 0 where
    same_total : bitmap.b_total_bits bm' ≡ bitmap.b_total_bits bm
    bits :
        (j : ℕ) → bitmap.test_bit bm' j ≡ (if j == blkno then count == 1 else bitmap.test_bit bm j)

  single_bm-IsMarked :
      (bm : bitmap.State) (blkno count : ℕ)
      → blkno < bitmap.b_total_bits bm
      → IsMarked blkno count bm (single_bm bm blkno count)
  unfolding single_bm
  single_bm-IsMarked bm blkno count inside = elim (Bool-cases (count == 1)) [
    | inl single ↦ rw single (record {
      same_total = bitmap.b_total_bits-set_bit bm blkno;
      bits = λ j. bitmap.test_bit-set_bit bm blkno j inside ∙ ground (arith, single);
    })
    | inr other ↦ rw other (record {
      same_total = bitmap.b_total_bits-clear_bit bm blkno;
      bits = λ j. bitmap.test_bit-clear_bit bm blkno j inside ∙ ground (arith, other);
    })
  ]

  IsUpdated-counts :
      (bm bm' : bitmap.State) (t t' : Tree) (blkno count : ℕ)
      → blkno < bitmap.b_total_bits bm
      → IsCounted bitmap (record { ic_single_bm = bm; ic_multiple_tree = t })
      → IsMarked blkno count bm bm'
      → IsWritten (inorder t) blkno (in_tree count) (inorder t')
      → IsUpdated bitmap
          (record { ic_single_bm = bm; ic_multiple_tree = t })
          blkno
          count
          (record { ic_single_bm = bm'; ic_multiple_tree = t' })
  IsUpdated-counts bm bm' t t' blkno count inside c m w = record {
    counted = record {
      sorted = w.sorted;
      apart = λ k n found. elim (Bool-cases (k == blkno)) [
        | inl here ↦
            let same : k ≡ blkno = ground arith in
            let (many, n_count) =
              in_tree-many count n (sym w.at ∙ ap (find (inorder t')) (sym same) ∙ found) in
            (omega arith, omega arith, m.bits k ∙ if_true _ _ here ∙ ground arith)
        | inr elsewhere ↦
            let (known, many, clear) = c.apart k n (sym (w.others k (ground arith)) ∙ found) in
            (omega (arith, m.same_total), many, m.bits k ∙ if_false _ _ elsewhere ∙ clear)
      ];
    };
    same_total = m.same_total;
    reads = λ k. icount_get-count_of bitmap _ k w.sorted ∙ elim (Bool-cases (k == blkno)) [
      | inl here ↦
          let same : k ≡ blkno = ground arith in
          ap (λ s. count_of s (find (inorder t') k)) (m.bits k ∙ if_true _ _ here)
          ∙ ap (count_of (count == 1)) (ap (find (inorder t')) same ∙ w.at)
          ∙ count_of-in_tree count
          ∙ sym (if_true _ _ here)
      | inr elsewhere ↦
          ap (λ s. count_of s (find (inorder t') k)) (m.bits k ∙ if_false _ _ elsewhere)
          ∙ ap (count_of (bitmap.test_bit bm k)) (w.others k (ground arith))
          ∙ sym (icount_get-count_of bitmap _ k c.sorted)
          ∙ sym (if_false _ _ elsewhere)
    ];
  }

  IsUpdated-same :
      (icount : Icount bitmap) (blkno : ℕ)
      → IsCounted bitmap icount
      → IsUpdated bitmap icount blkno (icount_get bitmap icount blkno) icount
  IsUpdated-same icount blkno c = record {
    counted = c;
    same_total = refl;
    reads = λ k. elim (Bool-cases (k == blkno)) [
      | inl here ↦
          let same : k ≡ blkno = ground arith in
          ap (icount_get bitmap icount) same ∙ sym (if_true _ _ here)
      | inr elsewhere ↦ sym (if_false _ _ elsewhere)
    ];
  }

  -- The operations on the counts.
  module _ (rb_insert_color : Tree → Tree) (rb_erase : Tree → ℕ → Tree)
      (rb_insert_color-inorder : (t : Tree) → inorder (rb_insert_color t) ≡ inorder t)
      (rb_erase-inorder : (t : Tree) (k : ℕ)
        → IsSorted (inorder t)
        → inorder (rb_erase t k) ≡ remove (inorder t) k) where
    -- Where the tree's balancing keeps the nodes in their order and its erasing takes out one number,
    -- `o2fsck_icount_set` on counts that are well-formed and a block number that the bitmap has returns,
    -- keeps the counts well-formed, and changes what is read at this number, to the count that is set,
    -- and at no other.
    pub icount_set-IsUpdated :
        (icount : Icount bitmap) (blkno count : ℕ)
        → IsCounted bitmap icount
        → blkno < bitmap.b_total_bits icount.ic_single_bm
        → (icount' : Icount bitmap) × (icount_set bitmap rb_insert_color rb_erase icount blkno count
            ≡ some icount')
          × IsUpdated bitmap icount blkno count icount'
    unfolding icount_set single_bm
    icount_set-IsUpdated icount blkno count c inside =
        let known : leb (bitmap.b_total_bits icount.ic_single_bm) blkno ≡ false = ground arith in
        let bm = icount.ic_single_bm in
        let t = icount.ic_multiple_tree in
        let (t', (sets, written)) =
          set_tree-IsWritten rb_insert_color rb_erase rb_insert_color-inorder rb_erase-inorder t
            blkno count c.sorted in
        (
          record { ic_single_bm = single_bm bm blkno count; ic_multiple_tree = t' },
          rw (icount_set, known, sets) refl,
          IsUpdated-counts bm (single_bm bm blkno count) t t' blkno count inside c
              (single_bm-IsMarked bm blkno count inside) written,
        )

    -- Where the tree's balancing keeps the nodes in their order and its erasing takes out one number,
    -- `o2fsck_icount_delta` upwards on counts that are well-formed, for a block number that the bitmap has
    -- and a sum that fits 16 bits, returns, keeps the counts well-formed, adds the change to what is read
    -- at the number, and changes no other count.
    pub icount_add-IsUpdated :
        (icount : Icount bitmap) (blkno delta : ℕ)
        → IsCounted bitmap icount
        → blkno < bitmap.b_total_bits icount.ic_single_bm
        → icount_get bitmap icount blkno + delta < 65536
        → (icount' : Icount bitmap) × (icount_add bitmap rb_insert_color rb_erase icount blkno delta
            ≡ some icount')
          × IsUpdated bitmap icount blkno (icount_get bitmap icount blkno + delta) icount'
    unfolding icount_add
    icount_add-IsUpdated icount blkno delta c inside small = elim (Bool-cases (delta == 0)) [
      | inl nothing ↦
          let unchanged : icount_get bitmap icount blkno + delta ≡ icount_get bitmap icount blkno =
            ground arith in
          (icount, rw nothing refl, rw unchanged (IsUpdated-same icount blkno c))
      | inr something ↦
          let sum : (icount_get bitmap icount blkno + delta) % 65536
              ≡ icount_get bitmap icount blkno + delta =
            omega arith in
          let (icount', sets, updated) =
            icount_set-IsUpdated icount blkno (icount_get bitmap icount blkno + delta) c inside in
          (
            icount',
            if_false _ _ something
                ∙ ap (icount_set bitmap rb_insert_color rb_erase icount blkno) sum
                ∙ sets,
            updated,
          )
    ]

    -- Where the tree's balancing keeps the nodes in their order and its erasing takes out one number,
    -- `o2fsck_icount_delta` downwards on counts that are well-formed, for a block number that the bitmap
    -- has and a change that is not above the count there, which fits 16 bits, returns, keeps the counts
    -- well-formed, takes the change from what is read at the number, and changes no other count.
    pub icount_drop-IsUpdated :
        (icount : Icount bitmap) (blkno delta : ℕ)
        → IsCounted bitmap icount
        → blkno < bitmap.b_total_bits icount.ic_single_bm
        → icount_get bitmap icount blkno < 65536
        → delta ≤ icount_get bitmap icount blkno
        → (icount' : Icount bitmap) × (icount_drop bitmap rb_insert_color rb_erase icount blkno
              delta
            ≡ some icount')
          × IsUpdated bitmap icount blkno (icount_get bitmap icount blkno - delta) icount'
    unfolding icount_drop
    icount_drop-IsUpdated icount blkno delta c inside u16 enough = elim (Bool-cases (delta == 0)) [
      | inl nothing ↦
          let unchanged : icount_get bitmap icount blkno - delta ≡ icount_get bitmap icount blkno =
            ground arith in
          (icount, rw nothing refl, rw unchanged (IsUpdated-same icount blkno c))
      | inr something ↦
          let left : (icount_get bitmap icount blkno + 2 ^ 32 - delta) % 65536
              ≡ icount_get bitmap icount blkno - delta =
            omega arith in
          let (icount', sets, updated) =
            icount_set-IsUpdated icount blkno (icount_get bitmap icount blkno - delta) c inside in
          (
            icount',
            if_false _ _ something
                ∙ ap (icount_set bitmap rb_insert_color rb_erase icount blkno) left
                ∙ sets,
            updated,
          )
    ]
