-- ===== src/Dir/Unlink.antt =====
-- What `ocfs2_unlink` does to one directory block.
use debian_ocfs2_tools.Base.{
  ℕ, ◌+◌, ◌%◌, ◌≤◌, ◌≡◌, ◌∙◌, refl, ap, Bool, true, false, ◌==◌, ◌&&◌, ◌||◌, List, ◌∷◌, ◌++◌, arith,
  inl, inr, ◌⊎◌, none, some, strn_eq, All,
}
use debian_ocfs2_tools.Dir.{Block, update, Scan, finished, process_dir_entry}
use debian_ocfs2_tools.Dir.Procs.{UnlinkStruct, other_name, unlink_proc}
use debian_ocfs2_tools.Dir.Chain.{Entry, entry_of, Lists, update_self, update_ne}
use debian_ocfs2_tools.Dir.LinkWalk.{IsBlockEnd}
use debian_ocfs2_tools.Dir.LinkBlock.{start}
use debian_ocfs2_tools.Dir.First.{plain_context, c}
use debian_ocfs2_tools.Dir.First.Search.{search_block}

-- The entry has the name asked for.
unfoldable pub has_name : List ℕ → ℕ → Entry → Bool
has_name name namelen e = e.name_len % 256 == namelen && strn_eq (e.name_len % 256) name e.name

-- The entry has the name, if one is given, and the inode, if one is given.
unfoldable pub is_wanted : UnlinkStruct → Entry → Bool
unfolding has_name
is_wanted ls e =
    let named : Bool = elim ls.name [ none ↦ true | some name ↦ has_name name ls.namelen e ] in
    named && (ls.inode == 0 || e.inode == ls.inode)

module _ (ls : UnlinkStruct) where
  unlink_misses :
      (w o : ℕ) (b : Block)
      → is_wanted ls (entry_of (b o)) ≡ false
      → unlink_proc w o b ls ≡ record { buf = b; priv = ls; changed = false; abort = false }
  unfolding unlink_proc other_name is_wanted has_name
  unlink_misses w o b h = ground arith

  unlink_hits :
      (w o : ℕ) (b : Block)
      → is_wanted ls (entry_of (b o)) ≡ true
      → unlink_proc w o b ls ≡ record {
        buf = update b o (record (b o) { inode = 0 });
        priv = record ls { done = ls.done + 1 };
        changed = true;
        abort = true;
      }
  unfolding unlink_proc other_name is_wanted has_name
  unlink_hits w o b h = ground arith

  -- No entry is wanted, and the block is as it was.
  pub record IsAbsent (b : Block) (es : List Entry) (s' : Scan UnlinkStruct) : Type 0 where
    pub none_wanted : All (λ e. is_wanted ls e ≡ false) es
    pub same_buf : s'.buf ≡ b
    pub same_priv : s'.priv ≡ ls

  -- The first entry that is wanted is gone.
  pub record IsUnlinked (blockend : ℕ) (b : Block) (es : List Entry) (s' : Scan UnlinkStruct)
      : Type 0 where
    pub before : List Entry
    pub gone : Entry
    pub after : List Entry
    pub split : es ≡ before ++ (gone ∷ after)
    pub wanted : is_wanted ls gone ≡ true
    pub first : All (λ e. is_wanted ls e ≡ false) before
    pub lists : Lists blockend s'.buf 0 (before ++ after)
    pub counted : s'.priv ≡ record ls { done = ls.done + 1 }
    pub framed : (j : ℕ) → blockend ≤ j → s'.buf j ≡ b j

-- The walk of a well-formed block, whose entries have room for their names and do not overlap, with or
-- without a trailer, ends, finds no corrupt entry, and either no entry that the block lists is wanted
-- and nothing has changed, or the first entry that is wanted is no longer listed, while all others are,
-- in the same order, and it is counted once.
pub unlink_block :
    (ls : UnlinkStruct) (blocksize : ℕ) (has_trailer : Bool) (blockend entry : ℕ) (b : Block)
    (es : List Entry)
    → IsBlockEnd blocksize has_trailer blockend b
    → Lists blockend b 0 es
    → (s' : Scan UnlinkStruct) × (process_dir_entry
          (plain_context blocksize has_trailer)
          unlink_proc
          (blocksize + 2)
          (start entry b ls)
        ≡ some (finished s'))
      × (IsAbsent ls b es s' ⊎ IsUnlinked ls blockend b es s')
unfolding c
unlink_block ls blocksize has_trailer blockend entry b es end_ok lists =
    let (s', runs, outcome) =
      search_block unlink_proc (is_wanted ls) ls (unlink_misses ls)
        (λ w o b h. ap (λ r. r.abort) (unlink_hits ls w o b h)) blocksize has_trailer blockend 12
        (omega arith) (blocksize + 2) (start entry b ls) es (omega arith) refl end_ok lists in
    (
      s',
      runs,
      elim outcome [
        | inl m ↦
            inl (record {
              none_wanted = m.none_match;
              same_buf = m.same_buf;
              same_priv = m.same_priv;
            })
        | inr h ↦
            let acted = unlink_hits ls h.role h.place b h.match_here in
            let buf' : s'.buf ≡ update b h.place (record (b h.place) { inode = 0 }) =
              h.acted_buf ∙ ap (λ r. r.buf) acted in
            inr (record {
              before = h.before;
              gone = entry_of (b h.place);
              after = h.after;
              split = h.split;
              wanted = h.match_here;
              first = h.none_before;
              lists =
                  h.without s'.buf (λ j ne. ap (λ x. x j) buf' ∙ update_ne b h.place j _ ne)
                    (ap (λ x. x h.place) buf' ∙ update_self b h.place _);
              framed =
                  λ j le. ap (λ x. x j) buf' ∙ update_ne b h.place j _ (omega (arith, h.in_block));
              counted = h.acted_priv ∙ ap (λ r. r.priv) acted;
            })
      ],
    )
