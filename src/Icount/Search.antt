-- ===== src/Icount/Search.antt =====
-- The search of the tree and the writes into it, against the sorted list of its nodes.
use debian_ocfs2_tools.Base.{
  ℕ, ◌<◌, ◌≡◌, ◌∙◌, refl, sym, ap, true, false, ltb, ◌∷◌, ◌++◌, arith, Bool-cases, inl, inr, Option,
  some,
}
use debian_ocfs2_tools.Icount.{Tree, leaf, node, icount_search}
use debian_ocfs2_tools.Icount.Sorted.{
  Pair, inorder, IsSorted, find, IsSorted-IsSplit, find-left, find-right, find-middle,
}

-- The three ways of the descent.
pub data Way : ℕ → ℕ → Type 0 where
  lower : {m n : ℕ} → m < n → ltb m n ≡ true → Way m n
  higher : {m n : ℕ} → n < m → ltb m n ≡ false → ltb n m ≡ true → Way m n
  here : {m n : ℕ} → m ≡ n → ltb m n ≡ false → ltb n m ≡ false → Way m n

pub way : (m n : ℕ) → Way m n
way m n = elim (Bool-cases (ltb m n)) [
  | inl below ↦ lower (ground arith) below
  | inr not_below ↦ elim (Bool-cases (ltb n m)) [
    | inl above ↦ higher (ground arith) not_below above
    | inr not_above ↦ here (ground arith) not_below not_above
  ]
]

pub icount_search-find :
    (t : Tree) (blkno : ℕ) (last_left : Option ℕ)
    → IsSorted (inorder t)
    → (icount_search t blkno last_left).in_icount ≡ find (inorder t) blkno
unfolding icount_search inorder find
icount_search-find leaf blkno last_left h = refl
icount_search-find (node l k c r) blkno last_left h =
    let p : Pair = record { key = k; count = c } in
    let s = IsSorted-IsSplit (inorder l) p (inorder r) h in
    elim (way blkno k) [
      | lower lt below ↦ rw below (
          icount_search-find l blkno (some k) s.lower
          ∙ sym (find-left (inorder l) p (inorder r) blkno s lt))
      | higher gt not_below above ↦ rw not_below (
          rw above (
            icount_search-find r blkno last_left s.higher
            ∙ sym (find-right (inorder l) p (inorder r) blkno s gt)))
      | here same not_below not_above ↦ rw not_below (
          rw not_above (
            sym (find-middle (inorder l) p (inorder r) s)
            ∙ ap (find (inorder l ++ (p ∷ inorder r))) (sym same)))
    ]
