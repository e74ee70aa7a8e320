-- ===== src/Icount/NextNode.antt =====
-- The node of the tree that comes next, by the search of icount.c.
use debian_ocfs2_tools.Base.{
  ℕ, ◌<◌, ◌≤◌, ◌≡◌, ◌≢◌, ◌∙◌, refl, sym, ap, false, ltb, List, [], ◌∷◌, ◌++◌, arith, Bool-cases,
  inl, inr, if◌then◌else◌, if_false, Option, none, some, Option-cases, ◌==◌,
}
use debian_ocfs2_tools.Icount.{Tree, leaf, node, SearchResult, icount_search}
use debian_ocfs2_tools.Icount.Sorted.{
  Pair, inorder, AllBelow, IsSorted, find, IsSplit, All-weaken, IsSorted-IsSplit, find-left,
  find-right, find-middle,
}
use debian_ocfs2_tools.Icount.Search.{lower, higher, here, way, icount_search-find}

-- The number of the next node, from a number on; `up_to` is a number below which it is searched.
unfoldable pub IsNextNode : List Pair → ℕ → Option ℕ → Type 0
IsNextNode ps blkno none = (k : ℕ) → blkno < k → find ps k ≡ none
IsNextNode ps blkno (some n) =
    (blkno < n) × (find ps n ≢ none) × ((k : ℕ) → blkno < k → k < n → find ps k ≡ none)

-- What is found below a node, or the node that was passed last.
unfoldable or_last : Option ℕ → Option ℕ → Option ℕ
or_last none last_left = last_left
or_last (some n) last_left = some n

next_node : (t : Tree) (blkno : ℕ) → Option ℕ
unfolding or_last
next_node leaf blkno = none
next_node (node l k c r) blkno =
    let lower = next_node l blkno in
    let higher = next_node r blkno in if ltb blkno k then or_last lower (some k) else higher

or_last_assoc :
    (o : Option ℕ) (k : ℕ) (last_left : Option ℕ)
    → or_last o (some k) ≡ or_last (or_last o (some k)) last_left
unfolding or_last
or_last_assoc none k last_left = refl
or_last_assoc (some n) k last_left = refl

or_last_none : (o : Option ℕ) → or_last o none ≡ o
unfolding or_last
or_last_none none = refl
or_last_none (some n) = refl

next-next_node :
    (t : Tree) (blkno : ℕ) (last_left : Option ℕ)
    → IsSorted (inorder t)
    → find (inorder t) blkno ≡ none
    → (icount_search t blkno last_left).next ≡ or_last (next_node t blkno) last_left
unfolding icount_search next_node or_last inorder find
next-next_node leaf blkno last_left h missing = refl
next-next_node (node l k c r) blkno last_left h missing =
    let p : Pair = record { key = k; count = c } in
    let s = IsSorted-IsSplit (inorder l) p (inorder r) h in
    elim (way blkno k) [
      | lower lt below ↦
          let l_missing = sym (find-left (inorder l) p (inorder r) blkno s lt) ∙ missing in
          rw below (
            next-next_node l blkno (some k) s.lower l_missing
            ∙ or_last_assoc (next_node l blkno) k last_left)
      | higher gt not_below above ↦
          let r_missing = sym (find-right (inorder l) p (inorder r) blkno s gt) ∙ missing in
          rw (not_below, above) (next-next_node r blkno last_left s.higher r_missing)
      | here same not_below not_above ↦
          absurd (grind (arith, same, missing, find-middle (inorder l) p (inorder r) s))
    ]

-- A number that is found below an element.
find-beyond : (ps : List Pair) (k : ℕ) → AllBelow k ps → find ps k ≡ none
unfolding find
find-beyond [] k h = refl
find-beyond (p ∷ ps) k h =
    let other : (p.key == k) ≡ false = ground (arith, h.0) in
    if_false _ _ other ∙ find-beyond ps k h.1

found_below : (ps : List Pair) (n k : ℕ) → AllBelow k ps → find ps n ≢ none → n < k
found_below ps n k below there = elim (Bool-cases (ltb n k)) [
  | inl lt ↦ ground arith
  | inr ge ↦ absurd (there (find-beyond ps n (All-weaken _ _ (λ p h. ground (arith, h)) ps below)))
]

-- The next number on the left of an element or that element, and on its right.
module _ (xs : List Pair) (p : Pair) (ys : List Pair) (s : IsSplit xs p ys) (blkno : ℕ) where
  next-left :
      (o : Option ℕ)
      → blkno < p.key
      → IsNextNode xs blkno o
      → IsNextNode (xs ++ (p ∷ ys)) blkno (or_last o (some p.key))
  unfolding or_last IsNextNode
  next-left none lt next = (
    lt,
    λ missing. absurd (grind (arith, sym (find-middle xs p ys s) ∙ missing)),
    λ k gt less. find-left xs p ys k s less ∙ next k gt,
  )
  next-left (some n) lt next =
      let less = found_below xs n p.key s.below next.1 in
      (
        next.0,
        λ missing. next.1 (sym (find-left xs p ys n s less) ∙ missing),
        λ k gt k_less. find-left xs p ys k s (omega arith) ∙ next.2 k gt k_less,
      )

  next-right :
      (o : Option ℕ) → p.key ≤ blkno → IsNextNode ys blkno o → IsNextNode (xs ++ (p ∷ ys)) blkno o
  unfolding IsNextNode
  next-right none le next = λ k gt. find-right xs p ys k s (omega arith) ∙ next k gt
  next-right (some n) le next = (
    next.0,
    λ missing. next.1 (sym (find-right xs p ys n s (omega (arith, next.0))) ∙ missing),
    λ k gt k_less. find-right xs p ys k s (omega arith) ∙ next.2 k gt k_less,
  )

next_node-IsNextNode :
    (t : Tree) (blkno : ℕ) → IsSorted (inorder t) → IsNextNode (inorder t) blkno (next_node t blkno)
unfolding next_node or_last inorder find IsNextNode
next_node-IsNextNode leaf blkno h = λ k _. refl
next_node-IsNextNode (node l k c r) blkno h =
    let p : Pair = record { key = k; count = c } in
    let s = IsSorted-IsSplit (inorder l) p (inorder r) h in
    elim (Bool-cases (ltb blkno k)) [
      | inl below ↦ rw below (
          next-left (inorder l) p (inorder r) s blkno (next_node l blkno) (ground arith)
            (next_node-IsNextNode l blkno s.lower))
      | inr not_below ↦ rw not_below (
          next-right (inorder l) p (inorder r) s blkno (next_node r blkno) (ground arith)
            (next_node-IsNextNode r blkno s.higher))
    ]

-- The node that `o2fsck_icount_next_blkno` goes on with.
unfoldable pub IsNodeFrom : List Pair → ℕ → Option ℕ → Type 0
IsNodeFrom ps start none = (k : ℕ) → start ≤ k → find ps k ≡ none
IsNodeFrom ps start (some n) =
    (start ≤ n) × (find ps n ≢ none) × ((k : ℕ) → start ≤ k → k < n → find ps k ≡ none)

IsNodeFrom-next :
    (ps : List Pair) (start : ℕ) (o : Option ℕ)
    → find ps start ≡ none
    → IsNextNode ps start o
    → IsNodeFrom ps start o
unfolding IsNextNode IsNodeFrom
IsNodeFrom-next ps start none missing next = λ k ge. elim (way start k) [
  | lower lt _ ↦ next k lt
  | higher gt _ _ ↦ absurd (omega arith)
  | here same _ _ ↦ ap (find ps) (sym same) ∙ missing
]
IsNodeFrom-next ps start (some n) missing next = (
  omega (arith, next.0),
  next.1,
  λ k ge lt. elim (way start k) [
    | lower gt _ ↦ next.2 k gt lt
    | higher less _ _ ↦ absurd (omega arith)
    | here same _ _ ↦ ap (find ps) (sym same) ∙ missing
  ],
)

unfoldable pub searched_node : SearchResult → ℕ → Option ℕ
searched_node r start = elim r.in_icount [ some n ↦ some start | none ↦ r.next ]

pub searched_node-IsNodeFrom :
    (t : Tree) (start : ℕ)
    → IsSorted (inorder t)
    → IsNodeFrom (inorder t) start (searched_node (icount_search t start none) start)
unfolding searched_node IsNodeFrom
searched_node-IsNodeFrom t start h =
    let found = icount_search-find t start none h in
    elim (Option-cases (find (inorder t) start)) [
      | inr (n, there) ↦ rw (found ∙ there) (
        omega arith,
        λ missing. absurd (grind (arith, there, missing)),
        λ k ge lt. absurd (omega arith),
      )
      | inl missing ↦
          let next = next-next_node t start none h missing ∙ or_last_none (next_node t start) in
          rw (found ∙ missing) (
            rw next (
              IsNodeFrom-next (inorder t) start (next_node t start) missing
                (next_node-IsNextNode t start h)))
    ]
