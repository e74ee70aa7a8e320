-- ===== src/Dir/Link/Fill.antt =====
-- A free entry that takes the name.
use debian_ocfs2_tools.Base.{ℕ, ◌+◌, ◌%◌, ◌≤◌, ◌<◌, ◌≡◌, ◌∙◌, refl, sym, true, List, arith, take}
use debian_ocfs2_tools.Dir.{Dirent, Block, update}
use debian_ocfs2_tools.Dir.Procs.{LinkStruct, absorb, link_proc}
use debian_ocfs2_tools.Dir.Chain.{
  Entry, entry_of, IsPlaced, Lists, used_as, Lists-agree, update_self, update_ne,
}
use debian_ocfs2_tools.Dir.Link.{absorb_step, absorb-inode, need, IsDone}
use debian_ocfs2_tools.Dir.Link.Split.{need-bounds}
use debian_ocfs2_tools.Dir.Link.{new_entry, IsRequest}

module _ (ls : LinkStruct) (ok_ls : IsRequest ls) where
  -- The free entry that takes the name.
  unfoldable pub filled : ℕ → Block → Dirent
  filled o b = record (absorb ls o b) {
    inode = ls.inode;
    name_len = ls.namelen % 256;
    name = take ls.namelen ls.name;
    file_type = ls.flags % 256;
  }

  pub link_proc-fill :
      (w o : ℕ) (b : Block)
      → (absorb ls o b).inode ≡ 0
      → (need ls ok_ls) ≤ (absorb ls o b).rec_len
      → link_proc w o b ls ≡ record {
        buf = update (update b o (absorb ls o b)) o (filled o b);
        priv = record ls { done = ls.done + 1 };
        changed = true;
        abort = true;
      }
  unfolding link_proc filled need
  link_proc-fill w o b z le = ground arith

  pub fill_free :
      (w o : ℕ) (b : Block) (es : List Entry)
      → o < ls.blockend
      → IsPlaced ls.blockend o (b o)
      → (b o).inode ≡ 0
      → Lists ls.blockend b (o + (b o).rec_len) es
      → (need ls ok_ls) ≤ (absorb ls o b).rec_len
      → IsDone ls ok_ls o b es (link_proc w o b ls)
  unfolding filled
  fill_free w o b es lt p z rest room =
      let d = absorb ls o b in
      let (p', rest') = absorb_step ls ok_ls o b p rest in
      let z' : d.inode ≡ 0 = absorb-inode ls ok_ls o b ∙ z in
      let wide = need-bounds ls ok_ls in
      let b₁ = update b o d in
      let b₂ = update b₁ o (filled o b) in
      let here : b₂ o ≡ filled o b = update_self b₁ o (filled o b) in
      let placed_here : IsPlaced ls.blockend o (filled o b) = record {
        inside = p'.inside;
        minimum = p'.minimum;
        aligned = p'.aligned;
        fits = omega arith;
      } in
      let later : Lists ls.blockend b₂ (o + d.rec_len) es =
        Lists-agree ls.blockend b b₂
          (λ j h.
            sym (update_ne b₁ o j (filled o b) (omega arith) ∙ update_ne b o j d (omega arith)))
          rest' in
      let kept_len : ls.namelen % 256 ≡ ls.namelen = omega (arith, ok_ls.short_name) in
      let kept_type : ls.flags % 256 ≡ ls.flags = omega (arith, ok_ls.small_type) in
      let same_entry : entry_of (filled o b) ≡ new_entry ls = rw (kept_len, kept_type) in
      rw (link_proc-fill w o b z' room) (record {
        stops = refl;
        counted = refl;
        placed = rw here placed_here;
        lists =
            rw (← same_entry)
              (used_as ls.blockend b₂ o es (filled o b) here lt placed_here ok_ls.real_inode later);
        framed = record {
          below =
              λ j h. update_ne b₁ o j (filled o b) (omega arith) ∙ update_ne b o j d (omega arith);
          above =
              λ j h. update_ne b₁ o j (filled o b) (omega arith) ∙ update_ne b o j d (omega arith);
        };
      })
