-- ===== src/Directory/Linked.antt =====
-- `ocfs2_link` on a whole directory.
use debian_ocfs2_tools.Base.{
  ℕ, ◌≤◌, ◌<◌, ◌≡◌, ◌∙◌, refl, sym, ap, true, false, ◌==◌, ◌||◌, ltb, subst, arith, Bool-cases,
  ==_iff, inl, inr, ◌⊎◌, if◌then◌else◌, if_true, if_false, Option, none, some, List, [], ◌∷◌, ◌++◌,
  length, Errcode, internal_failure, Result, ok, err,
}
use debian_ocfs2_tools.Dir.{Block, trailer_blk_off}
use debian_ocfs2_tools.Dir.Procs.{LinkStruct, link_proc}
use debian_ocfs2_tools.Dir.Chain.{Entry}
use debian_ocfs2_tools.Dir.Link.{IsRequest, Added, new_entry}
use debian_ocfs2_tools.Dir.LinkWalk.{link_context}
use debian_ocfs2_tools.Directory.{
  Io, Filesys, Directory, Walked, block_end, new_block, expand_dir, dir_iterate, iterate_blocks,
  link_again, link_expanded, link_first, link,
}
use debian_ocfs2_tools.Directory.Stored.{IsWorking}
use debian_ocfs2_tools.Directory.Blocks.{DirLists, append_nil}
use debian_ocfs2_tools.Directory.Link.{walk-Ends, iterate_blocks-link_proc}
use debian_ocfs2_tools.Directory.Expand.{
  IsFormat, new_block_sound, new_block-listed, new_block-added,
}
use debian_ocfs2_tools.Directory.Grow.{IsDenied, IsExpanded, larger, denied, expand_dir-IsExpanded}

-- The entry that `ocfs2_link` is asked to add is sound.
pub record IsArgument (fs : Filesys) (name : List ℕ) (ino flags : ℕ) : Type 0 where
  pub known : 2 ≤ ino
  pub in_range : ino ≤ fs.fs_blocks
  pub short : length name < 256
  pub small_type : flags < 256

-- What `ocfs2_link` passes to its callback.
abbrev pub request : Filesys → List ℕ → ℕ → ℕ → LinkStruct
request fs name ino flags = record {
  name = name;
  namelen = length name;
  inode = ino;
  flags = flags;
  done = 0;
  blockend = block_end fs;
}

module _ (fs : Filesys) (format : IsFormat fs) (io : Io) (working : IsWorking io)
    (writable : fs.fs_rw ≡ true) (name : List ℕ) (ino flags : ℕ)
    (sound : IsArgument fs name ino flags) where
  abbrev ls : LinkStruct
  ls = request fs name ino flags

  abbrev AreListed : List Block → List Entry → Type 0
  AreListed = DirLists fs.fs_blocksize fs.has_trailer (block_end fs)

  ok_ls : IsRequest ls
  ok_ls = record {
    block_small = small_end (Bool-cases fs.has_trailer);
    short_name = sound.short;
    real_inode = omega (arith, sound.known);
    small_type = sound.small_type;
  }
    where
      small_end : ((fs.has_trailer ≡ true) ⊎ (fs.has_trailer ≡ false)) → block_end fs < 65536
      small_end (inl t) =
          omega (arith, if_true (trailer_blk_off fs.fs_blocksize) fs.fs_blocksize t, format.small)
      small_end (inr f) =
          omega (arith, if_false (trailer_blk_off fs.fs_blocksize) fs.fs_blocksize f, format.small)

  -- What a call for a directory that lists `es` may leave: the entry added, or an error of the
  -- allocation and the same entries.
  pub record IsLinkedTo (es : List Entry) (r : Result (Unit {0})) (dir : Directory) : Type 0 where
    pub no_error : r ≡ ok tt
    pub entries : List Entry
    pub added : Added (new_entry ls) es entries
    pub lists : AreListed dir.blocks entries

  pub record IsDeniedTo (es : List Entry) (r : Result (Unit {0})) (dir : Directory) : Type 0 where
    pub code : Errcode
    pub error : r ≡ err code
    pub denied : IsDenied fs io working writable code
    pub lists : AreListed dir.blocks es

  -- How a call ends.
  abbrev Ended : List Entry → Directory → Option (Result (Unit {0}) × Directory) → Type 0
  Ended es dir call =
      (r : Result (Unit {0})) × (dir' : Directory) × (call ≡ some (r, dir'))
      × (IsLinkedTo es r dir' ⊎ IsDeniedTo es r dir')

  read :
      {S : Type 0} (c : _) (func : _) (bs : List Block) (p : S)
      → dir_iterate io c func bs p ≡ iterate_blocks io c func 0 bs p
  unfolding dir_iterate
  read c func bs p = rw working.inode_read refl

  -- What follows a walk.
  again-after :
      (dir : Directory) (w : Walked LinkStruct)
      → dir_iterate io (link_context fs.fs_blocksize fs.has_trailer) link_proc dir.blocks ls
        ≡ some w
      → w.errcode ≡ none
      → link_again fs io ls dir
        ≡ some (
            if w.priv.done == 0
            then (err internal_failure, record dir { blocks = w.blocks })
            else (ok tt, record dir { blocks = w.blocks }))
  unfolding link_again
  again-after dir w runs no_error =
      ap
        (λ o. elim o as (λ _. Option (Result (Unit {0}) × Directory)) [
          | none ↦ none
          | some w ↦ elim w.errcode [
            | some e ↦ some (err e, record dir { blocks = w.blocks })
            | none ↦ some (
                if w.priv.done == 0
                then (err internal_failure, record dir { blocks = w.blocks })
                else (ok tt, record dir { blocks = w.blocks }))
          ]
        ])
        runs
      ∙ rw no_error refl

  first-after :
      (dir : Directory) (w : Walked LinkStruct)
      → dir_iterate io (link_context fs.fs_blocksize fs.has_trailer) link_proc dir.blocks ls
        ≡ some w
      → w.errcode ≡ none
      → link_first fs io ls dir ≡ (
          if w.priv.done == 0
          then link_expanded fs io w.priv (record dir { blocks = w.blocks })
          else some (ok tt, record dir { blocks = w.blocks }))
  unfolding link_first
  first-after dir w runs no_error =
      ap
        (λ o. elim o as (λ _. Option (Result (Unit {0}) × Directory)) [
          | none ↦ none
          | some w ↦ elim w.errcode [
            | some e ↦ some (err e, record dir { blocks = w.blocks })
            | none ↦
                if w.priv.done == 0
                then link_expanded fs io w.priv (record dir { blocks = w.blocks })
                else some (ok tt, record dir { blocks = w.blocks })
          ]
        ])
        runs
      ∙ rw no_error refl

  link_again-Ended :
      (dir dir' : Directory) (es : List Entry)
      → AreListed dir.blocks es
      → dir'.blocks ≡ dir.blocks ++ (new_block fs ∷ [])
      → Ended es dir (link_again fs io ls dir')
  link_again-Ended dir dir' es listed more =
      let (w, walks, ends) =
        walk-Ends io working ls ok_ls fs.fs_blocksize fs.has_trailer ⊥ 0 listed
          (new_block-listed fs format io working ls ok_ls refl)
          (new_block-added fs format io working ls ok_ls refl) in
      let runs : dir_iterate io (link_context fs.fs_blocksize fs.has_trailer) link_proc dir'.blocks
            ls
          ≡ some w =
        ap (λ bs. dir_iterate io (link_context fs.fs_blocksize fs.has_trailer) link_proc bs ls) more
        ∙ read _ _ _ _
        ∙ walks in
      elim ends [
        | inl (can, full) ↦ absurd can
        | inr add ↦
            let counted : (w.priv.done == 0) ≡ false =
              unfold_count w.priv.done (ap (λ p. p.done) add.counted) in
            (
              ok tt,
              record dir' { blocks = w.blocks },
              again-after dir' w runs add.no_error ∙ ap some (if_false _ _ counted),
              inl (record {
                no_error = refl;
                entries = add.entries;
                added = subst (λ l. Added (new_entry ls) l add.entries) (append_nil es) add.added;
                lists = add.lists;
              }),
            )
      ]
    where
      unfold_count : (n : ℕ) → n ≡ 1 → (n == 0) ≡ false
      unfold_count n h = ground arith

  link_expanded-Ended :
      (dir : Directory) (es : List Entry)
      → AreListed dir.blocks es
      → Ended es dir (link_expanded fs io ls dir)
  unfolding link_expanded
  link_expanded-Ended dir es listed =
      go (expand_dir fs io dir)
        (expand_dir-IsExpanded fs io working writable (new_block_sound fs format) dir)
    where
      go :
          (expanded : Result (Unit {0}) × Directory)
          → IsExpanded fs io working writable dir expanded
          → Ended es dir (elim expanded.0 [
            | err e ↦ some (err e, expanded.1)
            | ok u ↦ link_again fs io ls expanded.1
          ])
      go _ (larger dir' more) = link_again-Ended dir dir' es listed more
      go _ (denied e dir' same why) = (
        err e,
        dir',
        refl,
        inr (record {
          code = e;
          error = refl;
          denied = why;
          lists = subst (λ bs. AreListed bs es) (sym same) listed;
        }),
      )

  link_first-Ended :
      (dir : Directory) (es : List Entry)
      → AreListed dir.blocks es
      → Ended es dir (link_first fs io ls dir)
  link_first-Ended dir es listed =
      let (w, walks, ends) =
        iterate_blocks-link_proc io working ls ok_ls fs.fs_blocksize fs.has_trailer 0 listed in
      let runs : dir_iterate io (link_context fs.fs_blocksize fs.has_trailer) link_proc dir.blocks
            ls
          ≡ some w =
        read _ _ _ _ ∙ walks in
      let left : Directory = record dir { blocks = w.blocks } in
      elim ends [
        | inl (can, full) ↦
            let uncounted : (w.priv.done == 0) ≡ true =
              (==_iff _ _).1 (ap (λ p. p.done) full.not_counted) in
            let (r, dir', ends', what) = link_expanded-Ended left es full.lists in
            (
              r,
              dir',
              first-after dir w runs full.no_error
                  ∙ if_true _ _ uncounted
                  ∙ ap (λ p. link_expanded fs io p left) full.not_counted
                  ∙ ends',
              what,
            )
        | inr add ↦
            let counted : (w.priv.done == 0) ≡ false =
              not_zero w.priv.done (ap (λ p. p.done) add.counted) in
            (
              ok tt,
              left,
              first-after dir w runs add.no_error ∙ if_false _ _ counted,
              inl (record {
                no_error = refl;
                entries = add.entries;
                added = add.added;
                lists = add.lists;
              }),
            )
      ]
    where
      not_zero : (n : ℕ) → n ≡ 1 → (n == 0) ≡ false
      not_zero n h = ground arith

  -- ocfs2_link, for a sound name, inode and type, on a directory whose blocks are well formed, on a
  -- volume that can be written and a device that works: either it returns no error, and the directory
  -- lists the new entry once, with all that it listed before in the same order, in an old block or in a
  -- new one; or it returns the error of the allocation of a new block, and the directory lists what it
  -- listed before.
  pub link-IsLinkedTo :
      (dir : Directory) (es : List Entry)
      → AreListed dir.blocks es
      → (r : Result (Unit {0})) × (dir' : Directory) × (link fs io name ino flags dir
          ≡ some (r, dir'))
        × (IsLinkedTo es r dir' ⊎ IsDeniedTo es r dir')
  unfolding link
  link-IsLinkedTo dir es listed =
      let (r, dir', ends, what) = link_first-Ended dir es listed in
      let known : ltb ino 2 || ltb fs.fs_blocks ino ≡ false =
        ground (arith, sound.known, sound.in_range) in
      (r, dir', rw (writable, known, working.inode_read) ends, what)
