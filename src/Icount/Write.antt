-- ===== src/Icount/Write.antt =====
-- The writes into the tree, against the sorted list of its nodes.
use debian_ocfs2_tools.Base.{ℕ, ◌<◌, ◌≡◌, ◌≢◌, ◌∙◌, sym, ap, List, ◌∷◌, ◌++◌, All, Option, some}
use debian_ocfs2_tools.Icount.Sorted.{
  Pair, IsSorted, find, IsSplit, All-join, All-append_left, All-append_right, IsSorted-join,
  find-left, find-right, find-middle,
}
use debian_ocfs2_tools.Icount.Search.{lower, higher, here, way}

-- What a write leaves: the new count at its number, the old ones elsewhere.
pub record IsWritten (old : List Pair) (blkno : ℕ) (count : Option ℕ) (result : List Pair)
    : Type 1 where
  pub sorted : IsSorted result
  pub at : find result blkno ≡ count
  pub others : (k : ℕ) → blkno ≢ k → find result k ≡ find old k
  -- What holds of the number and of all old ones holds of the new ones.
  pub keys : (P : ℕ → Type 0) → P blkno → All (λ p. P p.key) old → All (λ p. P p.key) result

-- A write on one side of a node.
module _ (xs : List Pair) (p : Pair) (ys : List Pair) (s : IsSplit xs p ys) (blkno : ℕ)
    (count : Option ℕ) where
  pub IsWritten-left :
      (xs' : List Pair)
      → blkno < p.key
      → IsWritten xs blkno count xs'
      → IsWritten (xs ++ (p ∷ ys)) blkno count (xs' ++ (p ∷ ys))
  IsWritten-left xs' lt w =
      let s' : IsSplit xs' p ys = record {
        lower = w.sorted;
        higher = s.higher;
        below = w.keys (λ k. k < p.key) lt s.below;
        above = s.above;
      } in
      record {
        sorted = IsSorted-join xs' p ys s';
        at = find-left xs' p ys blkno s' lt ∙ w.at;
        others = λ k ne. elim (way k p.key) [
          | lower k_lt _ ↦
              find-left xs' p ys k s' k_lt ∙ w.others k ne ∙ sym (find-left xs p ys k s k_lt)
          | higher k_gt _ _ ↦ find-right xs' p ys k s' k_gt ∙ sym (find-right xs p ys k s k_gt)
          | here same _ _ ↦
              ap (find (xs' ++ (p ∷ ys))) same
              ∙ find-middle xs' p ys s'
              ∙ sym (find-middle xs p ys s)
              ∙ ap (find (xs ++ (p ∷ ys))) (sym same)
        ];
        keys = λ P here all.
            All-join (λ q. P q.key) xs' (p ∷ ys)
              (w.keys P here (All-append_left (λ q. P q.key) xs (p ∷ ys) all))
              (All-append_right (λ q. P q.key) xs (p ∷ ys) all);
      }

  pub IsWritten-right :
      (ys' : List Pair)
      → p.key < blkno
      → IsWritten ys blkno count ys'
      → IsWritten (xs ++ (p ∷ ys)) blkno count (xs ++ (p ∷ ys'))
  IsWritten-right ys' gt w =
      let s' : IsSplit xs p ys' = record {
        lower = s.lower;
        higher = w.sorted;
        below = s.below;
        above = w.keys (λ k. p.key < k) gt s.above;
      } in
      record {
        sorted = IsSorted-join xs p ys' s';
        at = find-right xs p ys' blkno s' gt ∙ w.at;
        others = λ k ne. elim (way k p.key) [
          | lower k_lt _ ↦ find-left xs p ys' k s' k_lt ∙ sym (find-left xs p ys k s k_lt)
          | higher k_gt _ _ ↦
              find-right xs p ys' k s' k_gt ∙ w.others k ne ∙ sym (find-right xs p ys k s k_gt)
          | here same _ _ ↦
              ap (find (xs ++ (p ∷ ys'))) same
              ∙ find-middle xs p ys' s'
              ∙ sym (find-middle xs p ys s)
              ∙ ap (find (xs ++ (p ∷ ys))) (sym same)
        ];
        keys = λ P here all.
            let rest = All-append_right (λ q. P q.key) xs (p ∷ ys) all in
            All-join (λ q. P q.key) xs (p ∷ ys') (All-append_left (λ q. P q.key) xs (p ∷ ys) all)
              (rest.0, w.keys P here rest.1);
      }

-- A write at a node.
pub IsWritten-middle :
    (xs : List Pair) (p : Pair) (ys : List Pair) (count : ℕ)
    → IsSplit xs p ys
    → IsWritten
        (xs ++ (p ∷ ys))
        p.key
        (some count)
        (xs ++ (record { key = p.key; count = count } ∷ ys))
IsWritten-middle xs p ys count s =
    let q : Pair = record { key = p.key; count = count } in
    let s' : IsSplit xs q ys = record {
      lower = s.lower;
      higher = s.higher;
      below = s.below;
      above = s.above;
    } in
    record {
      sorted = IsSorted-join xs q ys s';
      at = find-middle xs q ys s';
      others = λ k ne. elim (way k p.key) [
        | lower k_lt _ ↦ find-left xs q ys k s' k_lt ∙ sym (find-left xs p ys k s k_lt)
        | higher k_gt _ _ ↦ find-right xs q ys k s' k_gt ∙ sym (find-right xs p ys k s k_gt)
        | here same _ _ ↦ absurd (ne (sym same))
      ];
      keys = λ P here all.
          let rest = All-append_right (λ r. P r.key) xs (p ∷ ys) all in
          All-join (λ r. P r.key) xs (q ∷ ys) (All-append_left (λ r. P r.key) xs (p ∷ ys) all)
            (here, rest.1);
    }
