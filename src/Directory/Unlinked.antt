-- ===== src/Directory/Unlinked.antt =====
-- `ocfs2_unlink` on a whole directory.
use debian_ocfs2_tools.Base.{
  ℕ, ◌≡◌, ◌∙◌, refl, ap, true, false, ◌==◌, not, arith, ==_iff, inl, inr, ◌⊎◌, if◌then◌else◌,
  if_true, if_false, Option, none, some, List, ◌∷◌, ◌++◌, length, All, dir_no_space, Result, ok,
  err,
}
use debian_ocfs2_tools.Dir.Procs.{UnlinkStruct, unlink_proc}
use debian_ocfs2_tools.Dir.Chain.{Entry}
use debian_ocfs2_tools.Dir.First.{plain_context}
use debian_ocfs2_tools.Dir.Unlink.{is_wanted}
use debian_ocfs2_tools.Directory.{Io, Filesys, Directory, Walked, block_end, dir_iterate, unlink}
use debian_ocfs2_tools.Directory.Stored.{IsWorking, dir_iterate-read}
use debian_ocfs2_tools.Directory.Blocks.{DirLists}
use debian_ocfs2_tools.Directory.Unlink.{unlink_walk}

-- The request of a call.
abbrev pub request : Option (List ℕ) → ℕ → UnlinkStruct
request name ino = record {
  name = name;
  namelen = elim name [ none ↦ 0 | some n ↦ length n ];
  inode = ino;
  done = 0;
}

module _ (fs : Filesys) (io : Io) (working : IsWorking io) (writable : fs.fs_rw ≡ true) where
  unlink-after :
      (name : Option (List ℕ)) (ino : ℕ) (dir : Directory) (w : Walked UnlinkStruct)
      → dir_iterate io
          (plain_context fs.fs_blocksize fs.has_trailer)
          unlink_proc
          dir.blocks
          (request name ino)
        ≡ some w
      → w.errcode ≡ none
      → unlink fs io name ino dir
        ≡ some (
            if w.priv.done == 0
            then (err dir_no_space, record dir { blocks = w.blocks })
            else (ok tt, record dir { blocks = w.blocks }))
  unfolding unlink
  unlink-after name ino dir w runs no_error =
      if_false _ _ (ap not writable)
      ∙ ap
          (λ o. elim o as (λ _. Option (Result (Unit {0}) × Directory)) [
            | none ↦ none
            | some v ↦ elim v.errcode [
              | some e ↦ some (err e, record dir { blocks = v.blocks })
              | none ↦ some (
                  if v.priv.done == 0
                  then (err dir_no_space, record dir { blocks = v.blocks })
                  else (ok tt, record dir { blocks = v.blocks }))
            ]
          ])
          runs
      ∙ rw no_error refl

  -- What a call leaves where an entry was wanted.
  pub record IsUnlinkedFrom (ls : UnlinkStruct) (es : List Entry) (r : Result (Unit {0}))
      (dir : Directory) : Type 0 where
    pub no_error : r ≡ ok tt
    pub before : List Entry
    pub gone : Entry
    pub after : List Entry
    pub split : es ≡ before ++ (gone ∷ after)
    pub wanted : is_wanted ls gone ≡ true
    pub first : All (λ e. is_wanted ls e ≡ false) before
    pub lists : DirLists fs.fs_blocksize fs.has_trailer (block_end fs) dir.blocks (before ++ after)

  -- And where none was.
  pub record IsNotFound (ls : UnlinkStruct) (es : List Entry) (r : Result (Unit {0}))
      (dir : Directory) : Type 0 where
    pub error : r ≡ err dir_no_space
    pub none_wanted : All (λ e. is_wanted ls e ≡ false) es
    pub lists : DirLists fs.fs_blocksize fs.has_trailer (block_end fs) dir.blocks es

  -- ocfs2_unlink, on a directory whose blocks are well formed, on a volume that can be written and a
  -- device that works: either it takes out the first entry of the name and the inode that are asked
  -- for, and the directory lists all others in the same order; or there is none, and it returns
  -- OCFS2_ET_DIR_NO_SPACE and the directory lists what it listed before.
  pub unlink-IsUnlinkedFrom :
      (name : Option (List ℕ)) (ino : ℕ) (dir : Directory) (es : List Entry)
      → DirLists fs.fs_blocksize fs.has_trailer (block_end fs) dir.blocks es
      → (r : Result (Unit {0})) × (dir' : Directory) × (unlink fs io name ino dir ≡ some (r, dir'))
        × (IsUnlinkedFrom (request name ino) es r dir' ⊎ IsNotFound (request name ino) es r dir')
  unlink-IsUnlinkedFrom name ino dir es listed =
      let ls = request name ino in
      let (w, walks, what) = unlink_walk fs io working ls 0 listed in
      let left : Directory = record dir { blocks = w.blocks } in
      let runs =
        dir_iterate-read io (plain_context fs.fs_blocksize fs.has_trailer) unlink_proc dir.blocks ls
          working
        ∙ walks in
      elim what [
        | inl missed ↦
            let uncounted : (w.priv.done == 0) ≡ true =
              (==_iff _ _).1 (ap (λ p. p.done) missed.not_counted) in
            (
              err dir_no_space,
              left,
              unlink-after name ino dir w runs missed.no_error ∙ ap some (if_true _ _ uncounted),
              inr (record { error = refl; none_wanted = missed.none_wanted; lists = missed.lists }),
            )
        | inr u ↦
            let counted : (w.priv.done == 0) ≡ false =
              not_zero w.priv.done (ap (λ p. p.done) u.counted) in
            (
              ok tt,
              left,
              unlink-after name ino dir w runs u.no_error ∙ ap some (if_false _ _ counted),
              inl (record {
                no_error = refl;
                before = u.before;
                gone = u.gone;
                after = u.after;
                split = u.split;
                wanted = u.wanted;
                first = u.first;
                lists = u.lists;
              }),
            )
      ]
    where
      not_zero : (n : ℕ) → n ≡ 1 → (n == 0) ≡ false
      not_zero n h = ground arith
