-- ===== src/Dir/Link/Split.antt =====
-- An entry in use that is split, with the room behind it free.
use debian_ocfs2_tools.Base.{
  ℕ, ◌+◌, ◌-◌, ◌%◌, ◌≤◌, ◌<◌, ◌≡◌, ◌≢◌, ◌∙◌, refl, sym, true, false, List, ◌∷◌, arith, subst,
}
use debian_ocfs2_tools.Dir.{Dirent, Block, update, name_bytes}
use debian_ocfs2_tools.Dir.Procs.{LinkStruct, absorb, link_proc}
use debian_ocfs2_tools.Dir.Chain.{Entry, entry_of, IsPlaced, Lists, used_as, free_as, Lists-agree}
use debian_ocfs2_tools.Dir.Link.{absorb_step, absorb-kept, absorb-inode, need, least, IsKept}
use debian_ocfs2_tools.Dir.Link.{IsRequest}

module _ (ls : LinkStruct) (ok_ls : IsRequest ls) where
  -- The two halves of an entry that is split.
  unfoldable pub front : ℕ → Block → Dirent
  front o b = record (absorb ls o b) { rec_len = least ls ok_ls o b % 65536 }

  unfoldable pub back : ℕ → Block → Dirent
  back o b =
      let d = absorb ls o b in
      record (update b o d (o + least ls ok_ls o b)) {
        inode = 0;
        name_len = 0;
        rec_len = (d.rec_len - least ls ok_ls o b) % 65536;
      }

  unfoldable pub split_buf : ℕ → Block → Block
  split_buf o b =
      update (update (update b o (absorb ls o b)) o (front o b)) (o + least ls ok_ls o b) (back o b)

  pub link_proc-split :
      (w o : ℕ) (b : Block)
      → (absorb ls o b).inode ≢ 0
      → least ls ok_ls o b + (need ls ok_ls) ≤ (absorb ls o b).rec_len
      → link_proc w o b ls
        ≡ record { buf = split_buf o b; priv = ls; changed = true; abort = false }
  unfolding link_proc split_buf front back least need
  link_proc-split w o b ne le = ground arith

  pub least-bounds :
      (o : ℕ) (b : Block)
      → (12 ≤ least ls ok_ls o b)
        × (least ls ok_ls o b % 4 ≡ 0)
        × (name_bytes (absorb ls o b) + 12 ≤ least ls ok_ls o b)
  unfolding least
  least-bounds o b = omega arith

  pub need-bounds :
      (12 ≤ (need ls ok_ls))
      × ((need ls ok_ls) % 4 ≡ 0)
      × (ls.namelen + 12 ≤ (need ls ok_ls))
      × (0 < (need ls ok_ls))
  unfolding need
  need-bounds = omega arith

  pub split_at : (o : ℕ) (b : Block) → split_buf o b o ≡ front o b
  unfolding split_buf
  split_at o b = ground (arith, least-bounds o b)

  pub split_after : (o : ℕ) (b : Block) → split_buf o b (o + least ls ok_ls o b) ≡ back o b
  unfolding split_buf
  split_after o b = ground arith

  pub split_other :
      (o j : ℕ) (b : Block) → j ≢ o → j ≢ o + least ls ok_ls o b → split_buf o b j ≡ b j
  unfolding split_buf
  split_other o j b p q = ground arith

  -- An entry in use that is split.
  pub split_used :
      (w o : ℕ) (b : Block) (es : List Entry)
      → o < ls.blockend
      → IsPlaced ls.blockend o (b o)
      → (b o).inode ≢ 0
      → Lists ls.blockend b (o + (b o).rec_len) es
      → least ls ok_ls o b + (need ls ok_ls) ≤ (absorb ls o b).rec_len
      → IsKept ls ok_ls o b (entry_of (b o) ∷ es) (link_proc w o b ls)
  unfolding front back
  split_used w o b es lt p ne rest room =
      let d = absorb ls o b in
      let (p', rest') = absorb_step ls ok_ls o b p rest in
      let ne' : d.inode ≢ 0 = λ z. ne (sym (absorb-inode ls ok_ls o b) ∙ z) in
      let m = least ls ok_ls o b in
      let bounds = least-bounds o b in
      let wide = need-bounds in
      let front_len : m % 65536 ≡ m = omega (arith, ok_ls.block_small) in
      let back_len : (d.rec_len - m) % 65536 ≡ d.rec_len - m = omega (arith, ok_ls.block_small) in
      let front_placed : IsPlaced ls.blockend o (front o b) = record {
        inside = omega arith;
        minimum = omega arith;
        aligned = omega arith;
        fits = omega arith;
      } in
      let back_placed : IsPlaced ls.blockend (o + m) (back o b) = record {
        inside = omega arith;
        minimum = omega arith;
        aligned = omega arith;
        fits = omega arith;
      } in
      let tail : Lists ls.blockend (split_buf o b) (o + m + (d.rec_len - m) % 65536) es =
        Lists-agree ls.blockend b (split_buf o b)
          (λ j h. sym (split_other o j b (omega arith) (omega arith)))
          (subst (λ k. Lists ls.blockend b k es) (omega arith) rest') in
      let second : Lists ls.blockend (split_buf o b) (o + m % 65536) es =
        subst (λ k. Lists ls.blockend (split_buf o b) k es) (omega arith)
          (free_as ls.blockend (split_buf o b) (o + m) es (back o b) (split_after o b) (omega arith)
            back_placed refl tail) in
      rw (link_proc-split w o b ne' room) (record {
        goes_on = refl;
        same_priv = refl;
        placed = rw (split_at o b) front_placed;
        lists = rw (← absorb-kept ls ok_ls o b) (
            used_as ls.blockend (split_buf o b) o es (front o b) (split_at o b) lt front_placed ne'
              second);
        no_room = rw (split_at o b) (record {
          in_use = λ _. unfold least need in omega arith;
          not_in_use = λ z. absurd (ne' z);
        });
        framed = record {
          below = λ j h. split_other o j b (omega arith) (omega arith);
          above = λ j h. split_other o j b (omega arith) (omega arith);
        };
      })
