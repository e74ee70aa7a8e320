-- ===== src/Icount/Session.antt =====
-- Counts from the start of a check on: new ones, and any number of calls of `o2fsck_icount_set`.
use debian_ocfs2_tools.Base.{
  ℕ, ◌<◌, ◌≡◌, ◌∙◌, refl, ap, false, ◌==◌, List, [], ◌∷◌, arith, All, if◌then◌else◌, Option, none,
  some,
}
use debian_ocfs2_tools.Icount.{
  Tree, Icount, BlockBitmap, icount_search, icount_get, icount_new, icount_set,
}
use debian_ocfs2_tools.Icount.Sorted.{inorder, IsSorted, find}
use debian_ocfs2_tools.Icount.Nodes.{remove}
use debian_ocfs2_tools.Icount.Set.{IsCounted}
use debian_ocfs2_tools.Icount.Update.{icount_set-IsUpdated}

-- A call: the block number and the count.
pub record Call : Type 0 where
  pub blkno : ℕ
  pub count : ℕ

-- What the counts are to be after some calls.
unfoldable pub last_count : (ℕ → ℕ) → List Call → ℕ → ℕ
last_count get [] k = get k
last_count get (c ∷ cs) k = last_count (λ j. if j == c.blkno then c.count else get j) cs k

last_count_ext :
    (cs : List Call) (f g : ℕ → ℕ)
    → ((j : ℕ) → f j ≡ g j)
    → (k : ℕ) → last_count f cs k ≡ last_count g cs k
unfolding last_count
last_count_ext [] f g same k = same k
last_count_ext (c ∷ cs) f g same k =
    last_count_ext cs _ _ (λ j. ap (λ n. if j == c.blkno then c.count else n) (same j)) k

new-IsCounted : (bitmap : BlockBitmap) (bm : bitmap.State) → IsCounted bitmap (icount_new bitmap bm)
unfolding icount_new inorder IsSorted find
new-IsCounted bitmap bm = record { sorted = tt; apart = λ k n found. absurd (grind (arith, found)) }

get_new :
    (bitmap : BlockBitmap) (bm : bitmap.State) (k : ℕ)
    → bitmap.test_bit bm k ≡ false
    → icount_get bitmap (icount_new bitmap bm) k ≡ 0
unfolding icount_new icount_get icount_search
get_new bitmap bm k clear = rw clear refl

-- The counts behave as a function.
pub record IsFunction (bitmap : BlockBitmap) (get : ℕ → ℕ) (icount' : Icount bitmap) : Type 0 where
  pub counted : IsCounted bitmap icount'
  pub reads : (k : ℕ) → icount_get bitmap icount' k ≡ get k

module _ (bitmap : BlockBitmap) (rb_insert_color : Tree → Tree) (rb_erase : Tree → ℕ → Tree) where
  unfoldable pub set_all : Icount bitmap → List Call → Option (Icount bitmap)
  unfolding icount_set
  set_all icount [] = some icount
  set_all icount (c ∷ cs) =
      elim (icount_set bitmap rb_insert_color rb_erase icount c.blkno c.count) [
        | none ↦ none
        | some icount' ↦ set_all icount' cs
      ]

module _ (bitmap : BlockBitmap) (rb_insert_color : Tree → Tree) (rb_erase : Tree → ℕ → Tree)
    (rb_insert_color-inorder : (t : Tree) → inorder (rb_insert_color t) ≡ inorder t)
    (rb_erase-inorder : (t : Tree) (k : ℕ)
      → IsSorted (inorder t)
      → inorder (rb_erase t k) ≡ remove (inorder t) k) where
  set_all-IsFunction :
      (icount : Icount bitmap) (cs : List Call)
      → IsCounted bitmap icount
      → All (λ c. c.blkno < bitmap.b_total_bits icount.ic_single_bm) cs
      → (icount' : Icount bitmap) × (set_all bitmap rb_insert_color rb_erase icount cs
          ≡ some icount')
        × IsFunction bitmap (last_count (icount_get bitmap icount) cs) icount'
  unfolding set_all last_count
  set_all-IsFunction icount [] c inside = (icount, refl, record { counted = c; reads = λ k. refl })
  set_all-IsFunction icount (call ∷ cs) c inside =
      let (next, sets, updated) =
        icount_set-IsUpdated bitmap rb_insert_color rb_erase rb_insert_color-inorder
          rb_erase-inorder icount call.blkno call.count c inside.0 in
      let (last, rest, same) =
        set_all-IsFunction next cs updated.counted (rw updated.same_total inside.1) in
      (
        last,
        rw (set_all, sets) rest,
        record {
          counted = same.counted;
          reads = λ k. same.reads k ∙ last_count_ext cs _ _ updated.reads k;
        },
      )

  -- Where the tree's balancing keeps the nodes in their order and its erasing takes out one number, any
  -- calls of `o2fsck_icount_set` on new counts over an empty bitmap, for block numbers that it has, return
  -- and leave well-formed counts, of which `o2fsck_icount_get` says for each number the count of the last
  -- call for it, or 0 where there is none.
  pub set_all-new :
      (bm : bitmap.State) (cs : List Call)
      → ((k : ℕ) → bitmap.test_bit bm k ≡ false)
      → All (λ c. c.blkno < bitmap.b_total_bits bm) cs
      → (icount' : Icount bitmap) × (set_all bitmap rb_insert_color rb_erase
            (icount_new bitmap bm)
            cs
          ≡ some icount')
        × IsFunction bitmap (last_count (λ _. 0) cs) icount'
  unfolding icount_new
  set_all-new bm cs empty inside =
      let (last, sets, same) =
        set_all-IsFunction (icount_new bitmap bm) cs (new-IsCounted bitmap bm) inside in
      (
        last,
        sets,
        record {
          counted = same.counted;
          reads = λ k. same.reads k ∙ last_count_ext cs _ _ (λ j. get_new bitmap bm j (empty j)) k;
        },
      )
