-- ===== src/Icount/Examples.antt =====
-- A file system of sixteen blocks: one inode with a single link at 3, one with two links at 5.
use debian_ocfs2_tools.Base.{
  ℕ, ◌+◌, ◌-◌, ◌≡◌, ◌∙◌, refl, sym, ap, false, ◌==◌, List, [], ◌∷◌, arith, Bool-cases, inl, inr,
  if_true, if_false, none, some,
}
use debian_ocfs2_tools.Bitops.{test_bit_of, find_next_bit_set}
use debian_ocfs2_tools.Icount.{
  Tree, leaf, node, Icount, icount_search, icount_get, icount_set, icount_add, icount_drop,
  icount_next_blkno,
}
use debian_ocfs2_tools.Icount.Sorted.{Pair, inorder, IsSorted, find}
use debian_ocfs2_tools.Icount.Bitmap.{Buffer, buffer_bitmap}
use debian_ocfs2_tools.Icount.Nodes.{remove}
use debian_ocfs2_tools.Icount.Set.{IsCounted}
use debian_ocfs2_tools.Bitops.{byte}
use debian_ocfs2_tools.Bitops.Bit.{test_bit_of-bit}
use debian_ocfs2_tools.Base.Bits.{test_bit}
use debian_ocfs2_tools.Base.Bits.Words.{test_bit-zero}
use debian_ocfs2_tools.Base.{zero, suc, ◌/◌, ◌%◌}
use debian_ocfs2_tools.Icount.{icount_new}
use debian_ocfs2_tools.Icount.Session.{Call, last_count, set_all, IsFunction, set_all-new}
use debian_ocfs2_tools.Icount.Update.{
  IsUpdated, icount_set-IsUpdated, icount_add-IsUpdated, icount_drop-IsUpdated,
}
use debian_ocfs2_tools.Icount.Next.{IsNextCount, icount_next_blkno-IsNextCount}

-- A tree that is never balanced.
abbrev unbalanced : Tree → Tree
unbalanced t = t

spine : List Pair → Tree
spine [] = leaf
spine (p ∷ ps) = node leaf p.key p.count (spine ps)

erase : Tree → ℕ → Tree
erase t k = spine (remove (inorder t) k)

inorder-spine : (ps : List Pair) → inorder (spine ps) ≡ ps
unfolding inorder spine
inorder-spine [] = refl
inorder-spine (p ∷ ps) = ap (λ qs. p ∷ qs) (inorder-spine ps)

inorder-erase : (t : Tree) (k : ℕ) → inorder (erase t k) ≡ remove (inorder t) k
unfolding erase
inorder-erase t k = inorder-spine (remove (inorder t) k)

abbrev bits : Buffer
bits = record { br_bitmap = 8 ∷ 0 ∷ []; bytes = (omega arith, (omega arith, tt)) }

abbrev inodes : Icount buffer_bitmap
unfolding buffer_bitmap
inodes = record { ic_single_bm = bits; ic_multiple_tree = node leaf 5 2 leaf }

inodes-IsCounted : IsCounted buffer_bitmap inodes
unfolding inodes buffer_bitmap inorder find IsSorted test_bit_of
inodes-IsCounted = record {
  sorted = (tt, tt);
  apart = λ k n found. elim (Bool-cases (5 == k)) [
    | inl here ↦
        let same : 5 ≡ k = ground arith in
        let two : some 2 ≡ some n = sym (if_true (some 2) none here) ∙ found in
        (omega arith, ground (arith, two), ap (λ j. test_bit_of j (8 ∷ 0 ∷ [])) (sym same))
    | inr elsewhere ↦
        let missing : none ≡ some n = sym (if_false (some 2) none elsewhere) ∙ found in
        absurd (grind (arith, missing))
  ];
}

one_link : icount_get buffer_bitmap inodes 3 ≡ 1
unfolding inodes buffer_bitmap icount_get test_bit_of
one_link = refl

two_links : icount_get buffer_bitmap inodes 5 ≡ 2
unfolding inodes buffer_bitmap icount_get test_bit_of icount_search
two_links = refl

next_after_four : icount_next_blkno buffer_bitmap inodes 4 ≡ some 5
unfolding inodes buffer_bitmap icount_next_blkno find_next_bit_set icount_search
next_after_four = refl

icount_set-IsUpdated_example :
    (icount' : Icount buffer_bitmap) × (icount_set buffer_bitmap unbalanced erase inodes 3 4
      ≡ some icount')
    × IsUpdated buffer_bitmap inodes 3 4 icount'
unfolding inodes buffer_bitmap
icount_set-IsUpdated_example =
    icount_set-IsUpdated buffer_bitmap unbalanced erase (λ t. refl) (λ t k _. inorder-erase t k)
      inodes 3 4 inodes-IsCounted (omega arith)

icount_add-IsUpdated_example :
    (icount' : Icount buffer_bitmap) × (icount_add buffer_bitmap unbalanced erase inodes 3 1
      ≡ some icount')
    × IsUpdated buffer_bitmap inodes 3 (icount_get buffer_bitmap inodes 3 + 1) icount'
unfolding inodes buffer_bitmap icount_get test_bit_of
icount_add-IsUpdated_example =
    icount_add-IsUpdated buffer_bitmap unbalanced erase (λ t. refl) (λ t k _. inorder-erase t k)
      inodes 3 1 inodes-IsCounted (omega arith) (omega (arith, one_link))

icount_drop-IsUpdated_example :
    (icount' : Icount buffer_bitmap) × (icount_drop buffer_bitmap unbalanced erase inodes 5 1
      ≡ some icount')
    × IsUpdated buffer_bitmap inodes 5 (icount_get buffer_bitmap inodes 5 - 1) icount'
unfolding inodes buffer_bitmap icount_get test_bit_of icount_search
icount_drop-IsUpdated_example =
    icount_drop-IsUpdated buffer_bitmap unbalanced erase (λ t. refl) (λ t k _. inorder-erase t k)
      inodes 5 1 inodes-IsCounted (omega arith) (omega (arith, two_links))
      (omega (arith, two_links))

icount_next_blkno-IsNextCount_example :
    IsNextCount (icount_get buffer_bitmap inodes) 16 4 (icount_next_blkno buffer_bitmap inodes 4)
unfolding inodes buffer_bitmap
icount_next_blkno-IsNextCount_example =
    icount_next_blkno-IsNextCount buffer_bitmap inodes 4 inodes-IsCounted (omega arith)

abbrev no_bits : buffer_bitmap.State
unfolding buffer_bitmap
no_bits = record { br_bitmap = 0 ∷ 0 ∷ []; bytes = (omega arith, (omega arith, tt)) }

byte_zero : (i : ℕ) → byte (0 ∷ 0 ∷ []) i ≡ 0
byte_zero zero = refl
byte_zero (suc zero) = refl
byte_zero (suc (suc i)) = refl

no_bit_set : (k : ℕ) → buffer_bitmap.test_bit no_bits k ≡ false
unfolding buffer_bitmap no_bits
no_bit_set k =
    test_bit_of-bit k (0 ∷ 0 ∷ [])
    ∙ ap (test_bit (k % 8)) (byte_zero (k / 8))
    ∙ test_bit-zero (k % 8)

abbrev calls : List Call
calls =
    record { blkno = 3; count = 1 }
    ∷ (record { blkno = 5; count = 2 } ∷ (record { blkno = 3; count = 2 } ∷ []))

set_all-new_example :
    (icount' : Icount buffer_bitmap) × (set_all buffer_bitmap unbalanced erase
        (icount_new buffer_bitmap no_bits)
        calls
      ≡ some icount')
    × IsFunction buffer_bitmap (last_count (λ _. 0) calls) icount'
unfolding buffer_bitmap no_bits
set_all-new_example =
    set_all-new buffer_bitmap unbalanced erase (λ t. refl) (λ t k _. inorder-erase t k) no_bits
      calls no_bit_set (omega arith, (omega arith, (omega arith, tt)))
