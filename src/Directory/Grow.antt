-- ===== src/Directory/Grow.antt =====
-- What `ocfs2_expand_dir` leaves.
use debian_ocfs2_tools.Base.{
  subst, sym, Option, ◌∙◌, ◌≡◌, refl, ap, true, leb, Bool-cases, Option-cases, inl, inr, none, some,
  [], ◌∷◌, ◌++◌, length, Errcode, Result, ok, err,
}
use debian_ocfs2_tools.Directory.{
  Io, Filesys, Directory, block_end, write_dir_block, new_block, get_room, add_block, expand_dir,
}
use debian_ocfs2_tools.Directory.Sound.{is_sound, write_dir_block_sound}
use debian_ocfs2_tools.Directory.Stored.{IsWorking}

module _ (fs : Filesys) (io : Io) (working : IsWorking io) (writable : fs.fs_rw ≡ true) where
  -- An error of a call that finds room for a new block.
  pub data IsDenied (e : Errcode) : Type 0 where
    not_extended : io.extend_allocation ≡ some e → IsDenied e
    not_mapped : io.get_blocks ≡ some e → IsDenied e
    not_counted : io.write_inode ≡ some e → IsDenied e

  -- A directory that is expanded has one more block.
  pub data IsExpanded (dir : Directory) : Result (Unit {0}) × Directory → Type 0 where
    larger :
        (dir' : Directory)
        → dir'.blocks ≡ dir.blocks ++ (new_block fs ∷ [])
        → IsExpanded dir (ok tt, dir')
    denied :
        (e : Errcode) (dir' : Directory)
        → dir'.blocks ≡ dir.blocks
        → IsDenied e
        → IsExpanded dir (err e, dir')

  module _ (sound : is_sound (block_end fs) (new_block fs) ≡ true) where
    new_written :
        (dir : Directory)
        → write_dir_block io (block_end fs) (length dir.blocks) (new_block fs) ≡ none
    new_written dir =
        write_dir_block_sound io (block_end fs) (length dir.blocks) (new_block fs)
          (working.block_written (length dir.blocks)) sound

    -- The steps of `add_block`, by the answers.
    add_steps :
        Directory → Option Errcode → Option Errcode → Option Errcode → Result (Unit {0}) × Directory
    add_steps dir mapped written counted = elim mapped [
      | some e ↦ (err e, dir)
      | none ↦ elim written [
        | some e ↦ (err e, dir)
        | none ↦ elim counted [
          | some e ↦ (err e, dir)
          | none ↦ (ok tt, record dir { blocks = dir.blocks ++ (new_block fs ∷ []) })
        ]
      ]
    ]

    add_steps-IsExpanded :
        (dir dir' : Directory) (mapped counted : Option Errcode)
        → dir'.blocks ≡ dir.blocks
        → io.get_blocks ≡ mapped
        → io.write_inode ≡ counted
        → IsExpanded dir (add_steps dir' mapped none counted)
    unfolding add_steps
    add_steps-IsExpanded dir dir' (some e) counted same m c = denied e dir' same (not_mapped m)
    add_steps-IsExpanded dir dir' none (some e) same m c = denied e dir' same (not_counted c)
    add_steps-IsExpanded dir dir' none none same m c =
        larger _ (ap (λ l. l ++ (new_block fs ∷ [])) same)

    add_block-steps :
        (dir : Directory) (mapped written counted : Option Errcode)
        → io.get_blocks ≡ mapped
        → write_dir_block io (block_end fs) (length dir.blocks) (new_block fs) ≡ written
        → io.write_inode ≡ counted
        → add_block fs io dir ≡ add_steps dir mapped written counted
    unfolding add_block add_steps
    add_block-steps dir mapped written counted m w c =
        ap
          (λ g.
            add_steps dir g (write_dir_block io (block_end fs) (length dir.blocks) (new_block fs))
              io.write_inode)
          m
        ∙ ap (λ g. add_steps dir mapped g io.write_inode) w
        ∙ ap (λ g. add_steps dir mapped written g) c

    add_block-IsExpanded :
        (dir dir' : Directory) → dir'.blocks ≡ dir.blocks → IsExpanded dir (add_block fs io dir')
    add_block-IsExpanded dir dir' same =
        subst (IsExpanded dir)
          (sym
            (add_block-steps dir' io.get_blocks none io.write_inode refl (new_written dir') refl))
          (add_steps-IsExpanded dir dir' io.get_blocks io.write_inode same refl refl)

    pub expand_dir-IsExpanded : (dir : Directory) → IsExpanded dir (expand_dir fs io dir)
    unfolding expand_dir get_room
    expand_dir-IsExpanded dir = elim (Bool-cases (leb dir.totl_blks (length dir.blocks))) [
      | inr room ↦ rw (writable, working.inode_read, room) (add_block-IsExpanded dir dir refl)
      | inl used ↦ elim (Option-cases io.extend_allocation) [
        | inr (e, h) ↦
            rw (writable, working.inode_read, used, h) (denied e dir refl (not_extended h))
        | inl extended ↦
            rw (writable, working.inode_read, used, extended) (add_block-IsExpanded dir _ refl)
      ]
    ]
