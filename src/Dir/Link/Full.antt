-- ===== src/Dir/Link/Full.antt =====
-- Entries that leave no room for the new one.
use debian_ocfs2_tools.Base.{ℕ, ◌+◌, ◌<◌, ◌≡◌, ◌≢◌, ◌∙◌, refl, sym, List, ◌∷◌, arith}
use debian_ocfs2_tools.Dir.{Block, update}
use debian_ocfs2_tools.Dir.Procs.{LinkStruct, absorb, link_proc}
use debian_ocfs2_tools.Dir.Chain.{
  Entry, entry_of, IsPlaced, Lists, used_as, free_as, Lists-agree, update_self, update-AgreeFrom,
}
use debian_ocfs2_tools.Dir.Link.{
  absorb_step, absorb-kept, absorb-inode, need, least, IsKept, keep_reply, link_proc-used_full,
  link_proc-free_full, keep-IsFramed,
}
use debian_ocfs2_tools.Dir.Link.{IsRequest}

module _ (ls : LinkStruct) (ok_ls : IsRequest ls) where
  -- An entry in use that cannot be split.
  pub used_full :
      (w o : ℕ) (b : Block) (es : List Entry)
      → o < ls.blockend
      → IsPlaced ls.blockend o (b o)
      → (b o).inode ≢ 0
      → Lists ls.blockend b (o + (b o).rec_len) es
      → (absorb ls o b).rec_len < least ls ok_ls o b + (need ls ok_ls)
      → IsKept ls ok_ls o b (entry_of (b o) ∷ es) (link_proc w o b ls)
  unfolding keep_reply least need
  used_full w o b es lt p ne rest full =
      let d = absorb ls o b in
      let (p', rest') = absorb_step ls ok_ls o b p rest in
      let ne' : d.inode ≢ 0 = λ z. ne (sym (absorb-inode ls ok_ls o b) ∙ z) in
      let here : update b o d o ≡ d = update_self b o d in
      let later =
        Lists-agree ls.blockend b (update b o d)
          (update-AgreeFrom b o (o + d.rec_len) d (omega arith)) rest' in
      rw (link_proc-used_full ls ok_ls w o b ne' full) (record {
        goes_on = refl;
        same_priv = refl;
        placed = rw here p';
        lists =
            rw (← absorb-kept ls ok_ls o b)
              (used_as ls.blockend (update b o d) o es d here lt p' ne' later);
        no_room = rw here (record { in_use = λ _. full; not_in_use = λ z. absurd (ne' z) });
        framed = keep-IsFramed ls ok_ls o b lt;
      })

  -- A free entry that is too small.
  pub free_full :
      (w o : ℕ) (b : Block) (es : List Entry)
      → o < ls.blockend
      → IsPlaced ls.blockend o (b o)
      → (b o).inode ≡ 0
      → Lists ls.blockend b (o + (b o).rec_len) es
      → (absorb ls o b).rec_len < (need ls ok_ls)
      → IsKept ls ok_ls o b es (link_proc w o b ls)
  unfolding keep_reply need
  free_full w o b es lt p z rest full =
      let d = absorb ls o b in
      let (p', rest') = absorb_step ls ok_ls o b p rest in
      let z' : d.inode ≡ 0 = absorb-inode ls ok_ls o b ∙ z in
      let here : update b o d o ≡ d = update_self b o d in
      let later =
        Lists-agree ls.blockend b (update b o d)
          (update-AgreeFrom b o (o + d.rec_len) d (omega arith)) rest' in
      rw (link_proc-free_full ls ok_ls w o b z' full) (record {
        goes_on = refl;
        same_priv = refl;
        placed = rw here p';
        lists = free_as ls.blockend (update b o d) o es d here lt p' z' later;
        no_room = rw here (record { in_use = λ ne. absurd (ne z'); not_in_use = λ _. full });
        framed = keep-IsFramed ls ok_ls o b lt;
      })
