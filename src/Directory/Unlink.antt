-- ===== src/Directory/Unlink.antt =====
-- `ocfs2_unlink` over the blocks of a directory.
use debian_ocfs2_tools.Base.{
  ℕ, ◌+◌, ◌≡◌, ◌∙◌, refl, sym, ap, Bool, true, false, ◌==◌, ◌&&◌, not, subst, arith, Bool-cases,
  inl, inr, ◌⊎◌, if◌then◌else◌, if_true, if_false, none, some, List, [], ◌∷◌, ◌++◌, All,
}
use debian_ocfs2_tools.Base.Round.{append_assoc}
use debian_ocfs2_tools.Dir.{Block, Context, Reply}
use debian_ocfs2_tools.Dir.Procs.{UnlinkStruct, unlink_proc, other_name}
use debian_ocfs2_tools.Dir.Chain.{Entry, Lists}
use debian_ocfs2_tools.Dir.LinkWalk.{IsBlockEnd}
use debian_ocfs2_tools.Dir.First.{plain_context}
use debian_ocfs2_tools.Dir.Unlink.{is_wanted, unlink_block}
use debian_ocfs2_tools.Directory.{Io, Filesys, Walked, block_end, iterate_blocks, put}
use debian_ocfs2_tools.Directory.Sound.{is_sound, is_sound-Lists}
use debian_ocfs2_tools.Directory.{dir_end}
use debian_ocfs2_tools.Directory.Stored.{IsWorking, IsHonest, process_dir_block-finished}
use debian_ocfs2_tools.Directory.Blocks.{DirLists, no_blocks, block_lists, iterate-step, true_false}

unlink_proc-IsHonest : IsHonest (λ (ls : UnlinkStruct). ls.done) unlink_proc
unfolding unlink_proc
unlink_proc-IsHonest = record {
  told = λ w o b ls h. elim (Bool-cases (other_name ls.name ls.namelen (b o))) [
    | inl other ↦ rw other refl
    | inr named ↦ elim (Bool-cases (not (ls.inode == 0) && not ((b o).inode == ls.inode))) [
      | inl other ↦ rw (named, other) refl
      | inr same ↦ true_false (
          sym (ap (λ (r : Reply UnlinkStruct). r.changed) (if_false _ _ named ∙ if_false _ _ same))
          ∙ h)
    ]
  ];
  counted = λ w o b ls. elim (Bool-cases (other_name ls.name ls.namelen (b o))) [
    | inl other ↦ rw other refl
    | inr named ↦ elim (Bool-cases (not (ls.inode == 0) && not ((b o).inode == ls.inode))) [
      | inl other ↦ rw (named, other) refl
      | inr same ↦ rw (named, same) refl
    ]
  ];
}

IsBlockEnd-same :
    (blocksize : ℕ) (has_trailer : Bool) (blockend : ℕ) (b b' : Block)
    → b' blockend ≡ b blockend
    → IsBlockEnd blocksize has_trailer blockend b
    → IsBlockEnd blocksize has_trailer blockend b'
IsBlockEnd-same blocksize has_trailer blockend b b' same h = record {
  plain = h.plain;
  trailed = h.trailed;
  trailer_placed = λ t. rw same (h.trailer_placed t);
  trailer_len = λ t. rw same (h.trailer_len t);
}

All-append : (P : Entry → Type 0) (xs ys : List Entry) → All P xs → All P ys → All P (xs ++ ys)
All-append P [] ys p q = q
All-append P (x ∷ xs) ys p q = (p.0, All-append P xs ys p.1 q)

module _ (fs : Filesys) (io : Io) (working : IsWorking io) (ls : UnlinkStruct) where
  abbrev AreListed : List Block → List Entry → Type 0
  AreListed = DirLists fs.fs_blocksize fs.has_trailer (block_end fs)

  abbrev c : Context
  c = plain_context fs.fs_blocksize fs.has_trailer

  -- No entry was wanted.
  pub record IsAbsentDir (es : List Entry) (w : Walked UnlinkStruct) : Type 0 where
    pub no_error : w.errcode ≡ none
    pub not_counted : w.priv ≡ ls
    pub none_wanted : All (λ e. is_wanted ls e ≡ false) es
    pub lists : AreListed w.blocks es

  -- The first entry that was wanted is gone.
  pub record IsUnlinkedDir (es : List Entry) (w : Walked UnlinkStruct) : Type 0 where
    pub no_error : w.errcode ≡ none
    pub counted : w.priv ≡ record ls { done = ls.done + 1 }
    pub before : List Entry
    pub gone : Entry
    pub after : List Entry
    pub split : es ≡ before ++ (gone ∷ after)
    pub wanted : is_wanted ls gone ≡ true
    pub first : All (λ e. is_wanted ls e ≡ false) before
    pub lists : AreListed w.blocks (before ++ after)

  goes_on : (m n : ℕ) → m ≡ n → not (m == n) ≡ false
  goes_on m n h = ground arith

  stops : (m n : ℕ) → m ≡ n + 1 → not (m == n) ≡ true
  stops m n h = ground arith

  pub unlink_walk :
      (k : ℕ) {bs : List Block} {es : List Entry}
      → AreListed bs es
      → (w : Walked UnlinkStruct) × (iterate_blocks io c unlink_proc k bs ls ≡ some w)
        × (IsAbsentDir es w ⊎ IsUnlinkedDir es w)
  unfolding iterate_blocks
  unlink_walk k no_blocks = (
    record { blocks = []; priv = ls; errcode = none },
    refl,
    inl (record { no_error = refl; not_counted = refl; none_wanted = tt; lists = no_blocks }),
  )
  unlink_walk k (block_lists {b = b} {bs = bs} {es = es} {rest = rest} end_ok lists more) =
      let (s', runs, outcome) =
        unlink_block ls fs.fs_blocksize fs.has_trailer (block_end fs) (if k == 0 then 1 else 3) b es
          end_ok lists in
      let sound =
        is_sound-Lists fs.fs_blocksize fs.has_trailer (block_end fs) b b es end_ok lists in
      let sound' : is_sound (dir_end fs.fs_blocksize fs.has_trailer) s'.buf ≡ true = elim outcome [
        | inl missed ↦
            ap (is_sound (dir_end fs.fs_blocksize fs.has_trailer)) missed.same_buf ∙ sound
        | inr u ↦
            is_sound-Lists fs.fs_blocksize fs.has_trailer (block_end fs) b s'.buf
              (u.before ++ u.after) end_ok u.lists
      ] in
      let done =
        process_dir_block-finished (λ (ls : UnlinkStruct). ls.done) c unlink_proc
          unlink_proc-IsHonest io k b ls s' working sound sound' runs in
      let step = iterate-step io c unlink_proc k b bs ls _ done in
      elim outcome [
        | inl missed ↦
            let on : not (s'.priv.done == ls.done) ≡ false =
              goes_on s'.priv.done ls.done (ap (λ p. p.done) missed.same_priv) in
            let (w, walks, what) = unlink_walk (k + 1) more in
            let listed : (rest' : List Entry) (bs' : List Block)
                → AreListed bs' rest'
                → AreListed (s'.buf ∷ bs') (es ++ rest') =
              λ rest' bs' l.
                block_lists
                  (IsBlockEnd-same _ _ _ b s'.buf (ap (λ x. x (block_end fs)) missed.same_buf)
                    end_ok)
                  (subst (λ x. Lists (block_end fs) x 0 es) (sym missed.same_buf) lists) l in
            (
              record w { blocks = s'.buf ∷ w.blocks },
              step
                  ∙ if_false _ _ on
                  ∙ ap (put io c unlink_proc s'.buf)
                      (ap (iterate_blocks io c unlink_proc (k + 1) bs) missed.same_priv ∙ walks),
              elim what [
                | inl none_here ↦ inl (record {
                  no_error = none_here.no_error;
                  not_counted = none_here.not_counted;
                  none_wanted =
                      All-append (λ e. is_wanted ls e ≡ false) es rest missed.none_wanted
                        none_here.none_wanted;
                  lists = listed rest w.blocks none_here.lists;
                })
                | inr u ↦ inr (record {
                  no_error = u.no_error;
                  counted = u.counted;
                  before = es ++ u.before;
                  gone = u.gone;
                  after = u.after;
                  split =
                      ap (λ l. es ++ l) u.split ∙ sym (append_assoc es u.before (u.gone ∷ u.after));
                  wanted = u.wanted;
                  first =
                      All-append (λ e. is_wanted ls e ≡ false) es u.before missed.none_wanted
                        u.first;
                  lists =
                      subst (AreListed (s'.buf ∷ w.blocks)) (sym (append_assoc es u.before u.after))
                        (listed (u.before ++ u.after) w.blocks u.lists);
                })
              ],
            )
        | inr u ↦
            let stop : not (s'.priv.done == ls.done) ≡ true =
              stops s'.priv.done ls.done (ap (λ p. p.done) u.counted) in
            (
              record { blocks = s'.buf ∷ bs; priv = s'.priv; errcode = none },
              step ∙ if_true _ _ stop,
              inr (record {
                no_error = refl;
                counted = u.counted;
                before = u.before;
                gone = u.gone;
                after = u.after ++ rest;
                split = ap (λ l. l ++ rest) u.split ∙ append_assoc u.before (u.gone ∷ u.after) rest;
                wanted = u.wanted;
                first = u.first;
                lists = subst (AreListed (s'.buf ∷ bs)) (append_assoc u.before u.after rest) (
                    block_lists
                      (IsBlockEnd-same _ _ _ b s'.buf (u.framed (block_end fs) (omega arith))
                        end_ok)
                      u.lists more);
              }),
            )
      ]
