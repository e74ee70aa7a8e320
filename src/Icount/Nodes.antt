-- ===== src/Icount/Nodes.antt =====
-- The operations on the tree, as writes into the sorted list of its nodes.
use debian_ocfs2_tools.Base.{
  ℕ, ◌<◌, ◌≡◌, ◌∙◌, refl, sym, false, List, [], ◌∷◌, arith, All, Bool-cases, inl, inr,
  if◌then◌else◌, if_false, none, some, ◌==◌,
}
use debian_ocfs2_tools.Icount.{Tree, leaf, node, set_count, link_node}
use debian_ocfs2_tools.Icount.Sorted.{
  Pair, inorder, IsSorted, find, IsSorted-IsSplit, find-left, find-right, find-middle,
}
use debian_ocfs2_tools.Icount.Search.{lower, higher, here, way}
use debian_ocfs2_tools.Icount.Write.{IsWritten, IsWritten-left, IsWritten-right, IsWritten-middle}

-- The count of a node that is in the tree.
pub set_count-IsWritten :
    (t : Tree) (blkno count n : ℕ)
    → IsSorted (inorder t)
    → find (inorder t) blkno ≡ some n
    → IsWritten (inorder t) blkno (some count) (inorder (set_count t blkno count))
unfolding set_count inorder find
set_count-IsWritten leaf blkno count n h found = absurd (grind (arith, found))
set_count-IsWritten (node l k c r) blkno count n h found =
    let p : Pair = record { key = k; count = c } in
    let s = IsSorted-IsSplit (inorder l) p (inorder r) h in
    elim (way blkno k) [
      | lower lt below ↦
          let l_found = sym (find-left (inorder l) p (inorder r) blkno s lt) ∙ found in
          rw below (
            IsWritten-left (inorder l) p (inorder r) s blkno (some count) _ lt
              (set_count-IsWritten l blkno count n s.lower l_found))
      | higher gt not_below above ↦
          let r_found = sym (find-right (inorder l) p (inorder r) blkno s gt) ∙ found in
          rw not_below (
            rw above (
              IsWritten-right (inorder l) p (inorder r) s blkno (some count) _ gt
                (set_count-IsWritten r blkno count n s.higher r_found)))
      | here same not_below not_above ↦
          rw not_below (rw not_above (rw same (IsWritten-middle (inorder l) p (inorder r) count s)))
    ]

IsWritten-nil :
    (blkno count : ℕ) → IsWritten [] blkno (some count) (record { key = blkno; count = count } ∷ [])
unfolding find IsSorted
IsWritten-nil blkno count = record {
  sorted = (tt, tt);
  at = ground arith;
  others = λ k ne. let other : (blkno == k) ≡ false = ground arith in if_false _ _ other;
  keys = λ P here _. (here, tt);
}

-- A node that is linked.
abbrev pub IsLinked : Tree → ℕ → ℕ → Tree → Type 1
IsLinked t blkno count t' =
    (link_node t blkno count ≡ some t') × IsWritten (inorder t) blkno (some count) (inorder t')

pub link_node-IsLinked :
    (t : Tree) (blkno count : ℕ)
    → IsSorted (inorder t)
    → find (inorder t) blkno ≡ none
    → (t' : Tree) × IsLinked t blkno count t'
unfolding link_node inorder find
link_node-IsLinked leaf blkno count h missing =
    (node leaf blkno count leaf, (refl, IsWritten-nil blkno count))
link_node-IsLinked (node l k c r) blkno count h missing =
    let p : Pair = record { key = k; count = c } in
    let s = IsSorted-IsSplit (inorder l) p (inorder r) h in
    elim (way blkno k) [
      | lower lt below ↦
          let l_missing = sym (find-left (inorder l) p (inorder r) blkno s lt) ∙ missing in
          let (t', linked) = link_node-IsLinked l blkno count s.lower l_missing in
          (
            node t' k c r,
            (
              rw below (rw linked.0 refl),
              IsWritten-left (inorder l) p (inorder r) s blkno (some count) _ lt linked.1,
            ),
          )
      | higher gt not_below above ↦
          let r_missing = sym (find-right (inorder l) p (inorder r) blkno s gt) ∙ missing in
          let (t', linked) = link_node-IsLinked r blkno count s.higher r_missing in
          (
            node l k c t',
            (
              rw not_below (rw above (rw linked.0 refl)),
              IsWritten-right (inorder l) p (inorder r) s blkno (some count) _ gt linked.1,
            ),
          )
      | here same not_below not_above ↦
          absurd (grind (arith, same, missing, find-middle (inorder l) p (inorder r) s))
    ]

-- The list without a number, which `rb_erase` leaves.
unfoldable pub remove : List Pair → ℕ → List Pair
remove [] k = []
remove (p ∷ ps) k = let rest = remove ps k in if p.key == k then rest else p ∷ rest

remove-All : (P : Pair → Type 0) (ps : List Pair) (k : ℕ) → All P ps → All P (remove ps k)
unfolding remove
remove-All P [] k h = tt
remove-All P (p ∷ ps) k h = elim (Bool-cases (p.key == k)) [
  | inl same ↦ rw same (remove-All P ps k h.1)
  | inr other ↦ rw other (h.0, remove-All P ps k h.1)
]

remove-IsSorted : (ps : List Pair) (k : ℕ) → IsSorted ps → IsSorted (remove ps k)
unfolding remove IsSorted
remove-IsSorted [] k h = tt
remove-IsSorted (p ∷ ps) k h = elim (Bool-cases (p.key == k)) [
  | inl same ↦ rw same (remove-IsSorted ps k h.1)
  | inr other ↦ rw other (remove-All (λ q. p.key < q.key) ps k h.0, remove-IsSorted ps k h.1)
]

find-remove :
    (ps : List Pair) (k j : ℕ) → find (remove ps k) j ≡ (if k == j then none else find ps j)
unfolding remove find
find-remove [] k j = ground arith
find-remove (p ∷ ps) k j = elim (Bool-cases (p.key == k)) [
  | inl same ↦ rw same (find-remove ps k j ∙ ground arith)
  | inr other ↦ rw other (rw (find-remove ps k j) ground arith)
]

pub remove-IsWritten : (ps : List Pair) (k : ℕ) → IsSorted ps → IsWritten ps k none (remove ps k)
remove-IsWritten ps k h = record {
  sorted = remove-IsSorted ps k h;
  at = find-remove ps k k ∙ ground arith;
  others = λ j ne. find-remove ps k j ∙ ground arith;
  keys = λ P _ all. remove-All (λ q. P q.key) ps k all;
}
