-- ===== src/Dir/Link.antt =====
-- One call of `link_proc` on a well-formed block: it keeps what the block lists, or adds the new
-- entry at the offset at which it is called.
pub mod Full
pub mod Split
pub mod Fill
pub mod Call
use debian_ocfs2_tools.Base.{
  ℕ, ◌+◌, ◌-◌, ◌%◌, ◌≤◌, ◌<◌, ◌≡◌, ◌≢◌, ◌∙◌, refl, sym, true, false, List, ◌∷◌, ◌++◌, arith,
  Bool-cases, inl, inr, ◌⊎◌, take, subst, ltb,
}
use native.Mathlib.Nat.{add_assoc}
use debian_ocfs2_tools.Dir.{Dirent, Block, update, name_bytes, dir_rec_len, Reply}
use debian_ocfs2_tools.Dir.Procs.{LinkStruct, absorbs, absorb, link_proc}
use debian_ocfs2_tools.Dir.Chain.{
  Entry, entry_of, IsPlaced, Lists, stop, used, free, used_as, free_as, Lists-agree, Lists-free,
  update_self, update_ne, update-AgreeFrom,
}

-- The entry that linking adds.
abbrev pub new_entry : LinkStruct → Entry
new_entry ls = record {
  inode = ls.inode;
  name_len = ls.namelen;
  file_type = ls.flags;
  name = take ls.namelen ls.name;
}

-- The arguments of `ocfs2_link` are sound, and the block is not larger than 16 bits.
pub record IsRequest (ls : LinkStruct) : Type 0 where
  pub block_small : ls.blockend < 65536
  pub short_name : ls.namelen < 256
  pub real_inode : ls.inode ≢ 0
  pub small_type : ls.flags < 256

-- A list with one entry more.
abbrev pub Added : Entry → List Entry → List Entry → Type 0
Added e old new =
    (before : List Entry) × (after : List Entry) × (old ≡ before ++ after)
    × (new ≡ before ++ (e ∷ after))

module _ (ls : LinkStruct) (ok_ls : IsRequest ls) where
  absorbs_inside :
      (o : ℕ) (b : Block)
      → absorbs ls o b ≡ true
      → let n = o + (b o).rec_len in
        (n < ls.blockend) × ((b n).inode ≡ 0) × (n + (b n).rec_len ≤ ls.blockend)
  unfolding absorbs
  absorbs_inside o b h = ground arith

  absorb-eq :
      (o : ℕ) (b : Block)
      → absorbs ls o b ≡ true
      → absorb ls o b ≡ record (b o) { rec_len = (b o).rec_len + (b (o + (b o).rec_len)).rec_len }
  unfolding absorb
  absorb-eq o b h =
      let inside = absorbs_inside o b h in
      let small : ((b o).rec_len + (b (o + (b o).rec_len)).rec_len) % 65536
          ≡ (b o).rec_len + (b (o + (b o).rec_len)).rec_len =
        omega (arith, ok_ls.block_small) in
      rw h (rw small)

  -- The entry after the one at `offset`, if it is free and inside, gives its room away.
  absorb_step :
      (o : ℕ) (b : Block) {es : List Entry}
      → IsPlaced ls.blockend o (b o)
      → Lists ls.blockend b (o + (b o).rec_len) es
      → IsPlaced ls.blockend o (absorb ls o b)
        × Lists ls.blockend b (o + (absorb ls o b).rec_len) es
  unfolding absorb
  absorb_step o b {es} p rest = elim (Bool-cases (absorbs ls o b)) [
    | inl merged ↦
        let inside = absorbs_inside o b merged in
        let (p', rest') = Lists-free ls.blockend b inside.0 inside.1 rest in
        rw (absorb-eq o b merged) (
          record {
            inside = omega arith;
            minimum = omega arith;
            aligned = omega arith;
            fits = omega arith;
          },
          subst (λ k. Lists ls.blockend b k es)
              (add_assoc o (b o).rec_len (b (o + (b o).rec_len)).rec_len) rest',
        )
    | inr alone ↦ rw alone (p, rest)
  ]

  absorb-kept : (o : ℕ) (b : Block) → entry_of (absorb ls o b) ≡ entry_of (b o)
  unfolding absorb
  absorb-kept o b = ground arith

  absorb-inode : (o : ℕ) (b : Block) → (absorb ls o b).inode ≡ (b o).inode
  unfolding absorb
  absorb-inode o b = ground arith

  unfoldable pub need : ℕ
  need = dir_rec_len ls.namelen

  unfoldable pub least : ℕ → Block → ℕ
  least o b = dir_rec_len (name_bytes (absorb ls o b))

  -- The new entry does not fit at an offset.
  pub record HasNoRoom (d : Dirent) : Type 0 where
    pub in_use : d.inode ≢ 0 → d.rec_len < dir_rec_len (name_bytes d) + dir_rec_len ls.namelen
    pub not_in_use : d.inode ≡ 0 → d.rec_len < dir_rec_len ls.namelen

  -- Nothing but the entries between an offset and the end of the block is written.
  pub record IsFramed (o : ℕ) (b b' : Block) : Type 0 where
    pub below : (j : ℕ) → j < o → b' j ≡ b j
    pub above : (j : ℕ) → ls.blockend ≤ j → b' j ≡ b j

  -- The call that leaves the entries as they are, and the one that adds the new one.
  pub record IsKept (o : ℕ) (b : Block) (es : List Entry) (r : Reply LinkStruct) : Type 0 where
    pub goes_on : r.abort ≡ false
    pub same_priv : r.priv ≡ ls
    pub placed : IsPlaced ls.blockend o (r.buf o)
    pub lists : Lists ls.blockend r.buf o es
    pub no_room : HasNoRoom (r.buf o)
    pub framed : IsFramed o b r.buf

  pub record IsDone (o : ℕ) (b : Block) (es : List Entry) (r : Reply LinkStruct) : Type 0 where
    pub stops : r.abort ≡ true
    pub counted : r.priv ≡ record ls { done = ls.done + 1 }
    pub placed : IsPlaced ls.blockend o (r.buf o)
    pub lists : Lists ls.blockend r.buf o (new_entry ls ∷ es)
    pub framed : IsFramed o b r.buf

  unfoldable pub keep_reply : ℕ → Block → Reply LinkStruct
  keep_reply o b = record {
    buf = update b o (absorb ls o b);
    priv = ls;
    changed = absorbs ls o b;
    abort = false;
  }

  link_proc-used_full :
      (w o : ℕ) (b : Block)
      → (absorb ls o b).inode ≢ 0
      → (absorb ls o b).rec_len < least o b + need
      → link_proc w o b ls ≡ keep_reply o b
  unfolding link_proc keep_reply least need
  link_proc-used_full w o b ne lt = ground arith

  link_proc-free_full :
      (w o : ℕ) (b : Block)
      → (absorb ls o b).inode ≡ 0
      → (absorb ls o b).rec_len < need
      → link_proc w o b ls ≡ keep_reply o b
  unfolding link_proc keep_reply need
  link_proc-free_full w o b z lt = ground arith

  keep-IsFramed : (o : ℕ) (b : Block) → o < ls.blockend → IsFramed o b (keep_reply o b).buf
  unfolding keep_reply
  keep-IsFramed o b lt = record {
    below = λ j h. update_ne b o j _ (omega arith);
    above = λ j h. update_ne b o j _ (omega arith);
  }
