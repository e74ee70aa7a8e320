-- ===== src/Icount.antt =====
-- The link counts that fsck.ocfs2 gathers, fsck.ocfs2/icount.c: the inodes with a single link in a
-- bitmap, those with more in a tree that is sorted by block number. The bitmap of libocfs2/bitmap.c is
-- an interface; the balancing of the tree is the kernel's, and a parameter.
pub mod Sorted
pub mod Search
pub mod Write
pub mod Nodes
pub mod Bitmap
pub mod Set
pub mod Update
pub mod NextNode
pub mod Next
pub mod Session
mod Examples
use debian_ocfs2_tools.Base.{
  ℕ, zero, suc, ◌+◌, ◌-◌, ◌%◌, ◌^◌, ◌<◌, ◌≤◌, ◌≡◌, Bool, true, false, ◌==◌, ◌&&◌, ◌||◌, not, ltb,
  leb, if◌then◌else◌, Option, none, some,
}

-- What a search for the next bit finds.
unfoldable pub IsNextBit : (ℕ → Bool) → ℕ → ℕ → Option ℕ → Type 0
IsNextBit is_set total start none = (i : ℕ) → start ≤ i → i < total → is_set i ≡ false
IsNextBit is_set total start (some r) =
    (start ≤ r) × (r < total) × (is_set r ≡ true) × ((i : ℕ) → start ≤ i → i < r → is_set i ≡ false)

-- The operations of a block bitmap that the counts use, on bits below `b_total_bits`, and what the
-- counts rely on.
pub record BlockBitmap : Type 1 where
  pub State : Type 0
  pub b_total_bits : State → ℕ
  pub set_bit : State → ℕ → State
  pub clear_bit : State → ℕ → State
  pub test_bit : State → ℕ → Bool
  -- `none` for OCFS2_ET_BIT_NOT_FOUND
  pub find_next_set : State → ℕ → Option ℕ
  pub b_total_bits-set_bit : (b : State) (nr : ℕ) → b_total_bits (set_bit b nr) ≡ b_total_bits b
  pub b_total_bits-clear_bit : (b : State) (nr : ℕ) → b_total_bits (clear_bit b nr) ≡ b_total_bits b
  pub test_bit-set_bit :
      (b : State) (nr j : ℕ)
      → nr < b_total_bits b
      → test_bit (set_bit b nr) j ≡ (j == nr) || test_bit b j
  pub test_bit-clear_bit :
      (b : State) (nr j : ℕ)
      → nr < b_total_bits b
      → test_bit (clear_bit b nr) j ≡ not (j == nr) && test_bit b j
  pub find_next_set-IsNextBit :
      (b : State) (start : ℕ)
      → start < b_total_bits b
      → IsNextBit (test_bit b) (b_total_bits b) start (find_next_set b start)

-- The tree of `icount_node`.
pub data Tree : Type 0 where
  leaf : Tree
  node : Tree → ℕ → ℕ → Tree → Tree

-- `o2fsck_icount`
pub record Icount (bitmap : BlockBitmap) : Type 0 where
  pub ic_single_bm : bitmap.State
  pub ic_multiple_tree : Tree

-- What `icount_search` finds: the count of the node, and the block number of the next one.
pub record SearchResult : Type 0 where
  pub in_icount : Option ℕ
  pub next : Option ℕ

-- `icount_search`; `last_left` is its local variable.
unfoldable pub icount_search : Tree → ℕ → Option ℕ → SearchResult
icount_search leaf blkno last_left = record { in_icount = none; next = last_left }
icount_search (node left in_blkno in_icount right) blkno last_left =
    let lower = icount_search left blkno (some in_blkno) in
    let higher = icount_search right blkno last_left in
    if ltb blkno in_blkno
    then lower
    else if ltb in_blkno blkno
    then higher
    else record { in_icount = some in_icount; next = none }

-- The count of the node that was found is written.
unfoldable pub set_count : Tree → ℕ → ℕ → Tree
set_count leaf blkno count = leaf
set_count (node left in_blkno in_icount right) blkno count =
    let lower = set_count left blkno count in
    let higher = set_count right blkno count in
    if ltb blkno in_blkno
    then node lower in_blkno in_icount right
    else if ltb in_blkno blkno
    then node left in_blkno in_icount higher
    else node left in_blkno count right

-- The descent of `icount_insert` and `rb_link_node`; `none` where the number is in the tree, since the
-- loop does not end then.
unfoldable pub link_node : Tree → ℕ → ℕ → Option Tree
link_node leaf blkno count = some (node leaf blkno count leaf)
link_node (node left in_blkno in_icount right) blkno count =
    let lower = link_node left blkno count in
    let higher = link_node right blkno count in
    if ltb blkno in_blkno
    then elim lower [ none ↦ none | some t ↦ some (node t in_blkno in_icount right) ]
    else if ltb in_blkno blkno
    then elim higher [ none ↦ none | some t ↦ some (node left in_blkno in_icount t) ]
    else none

-- `icount_insert`, with `rb_insert_color` of the kernel's tree
unfoldable pub icount_insert : (Tree → Tree) → Tree → ℕ → ℕ → Option Tree
unfolding link_node
icount_insert rb_insert_color t blkno count = elim (link_node t blkno count) [
  | none ↦ none
  | some linked ↦ some (rb_insert_color linked)
]

-- Of the node and the bit that were found, the one that comes first.
unfoldable pub earlier : Option ℕ → Option ℕ → Option ℕ
earlier none next_bit = next_bit
earlier (some in_blkno) none = some in_blkno
earlier (some in_blkno) (some next_bit) =
    some (if ltb next_bit in_blkno then next_bit else in_blkno)

module _ (bitmap : BlockBitmap) where
  -- `o2fsck_icount_new`, on the bitmap that it has allocated.
  unfoldable pub icount_new : bitmap.State → Icount bitmap
  icount_new bm = record { ic_single_bm = bm; ic_multiple_tree = leaf }

  -- The tests of the bitmap and of the tree, by which `o2fsck_icount_get` and `o2fsck_icount_delta` read
  -- a count, for a number that the bitmap has. For any other the test of the bitmap is not specified, as
  -- in the source, where `was_set` is not initialised then.
  unfoldable pub icount_get : Icount bitmap → ℕ → ℕ
  unfolding icount_search
  icount_get icount blkno =
      if bitmap.test_bit icount.ic_single_bm blkno
      then 1
      else elim (icount_search icount.ic_multiple_tree blkno none).in_icount [
        | none ↦ 0
        | some n ↦ n
      ]

  -- `o2fsck_icount_next_blkno`; `none` where it returns an error
  unfoldable pub icount_next_blkno : Icount bitmap → ℕ → Option ℕ
  unfolding icount_search earlier
  icount_next_blkno icount start =
      let next_bit = bitmap.find_next_set icount.ic_single_bm start in
      let r = icount_search icount.ic_multiple_tree start none in
      earlier (elim r.in_icount [ some n ↦ some start | none ↦ r.next ]) next_bit

-- `rb_insert_color` and `rb_erase` of the kernel's tree.
module _ (rb_insert_color : Tree → Tree) (rb_erase : Tree → ℕ → Tree) where
  -- What `o2fsck_icount_set` does to the tree.
  unfoldable pub set_tree : Tree → ℕ → ℕ → Option Tree
  unfolding icount_search set_count icount_insert
  set_tree t blkno count = elim (icount_search t blkno none).in_icount [
    | some n ↦ some (if ltb count 2 then rb_erase t blkno else set_count t blkno count)
    | none ↦ if ltb 1 count then icount_insert rb_insert_color t blkno count else some t
  ]

module _ (bitmap : BlockBitmap) (rb_insert_color : Tree → Tree) (rb_erase : Tree → ℕ → Tree) where
  -- `o2fsck_icount_set`; `o2fsck_bitmap_set` and `o2fsck_bitmap_clear` end the program for a number that
  -- the bitmap does not have.
  unfoldable pub icount_set : Icount bitmap → ℕ → ℕ → Option (Icount bitmap)
  unfolding set_tree
  icount_set icount blkno count =
      let bm =
        if count == 1
        then bitmap.set_bit icount.ic_single_bm blkno
        else bitmap.clear_bit icount.ic_single_bm blkno in
      let tree = set_tree rb_insert_color rb_erase icount.ic_multiple_tree blkno count in
      if leb (bitmap.b_total_bits icount.ic_single_bm) blkno then none else elim tree [
        | none ↦ none
        | some t ↦ some (record { ic_single_bm = bm; ic_multiple_tree = t })
      ]

  -- `o2fsck_icount_delta`, up and down; the sum is cut to 16 bits.
  unfoldable pub icount_add : Icount bitmap → ℕ → ℕ → Option (Icount bitmap)
  unfolding icount_get icount_set
  icount_add icount blkno delta =
      if delta == 0
      then some icount
      else icount_set icount blkno ((icount_get bitmap icount blkno + delta) % 65536)

  unfoldable pub icount_drop : Icount bitmap → ℕ → ℕ → Option (Icount bitmap)
  unfolding icount_get icount_set
  icount_drop icount blkno delta =
      if delta == 0
      then some icount
      else icount_set icount blkno ((icount_get bitmap icount blkno + 2 ^ 32 - delta) % 65536)
