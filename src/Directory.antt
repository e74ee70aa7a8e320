-- ===== src/Directory.antt =====
-- A directory whose entries stand in blocks of their own: ocfs2_process_dir_block and ocfs2_dir_iterate
-- of libocfs2/dir_iterate.c, ocfs2_expand_dir of expanddir.c, ocfs2_link, ocfs2_unlink and
-- ocfs2_lookup. A directory is the list of its blocks up to its size; what the device and the
-- allocator answer is a parameter. A result is `none` where the walk of a block runs out of fuel.
pub mod Sound
pub mod Stored
pub mod Blocks
pub mod Link
pub mod Expand
pub mod Grow
pub mod Linked
pub mod Find
pub mod Unlink
pub mod Unlinked
pub mod Session
mod Examples
use debian_ocfs2_tools.Base.{
  ℕ, zero, suc, ◌+◌, ◌-◌, ◌*◌, ◌%◌, Bool, true, false, ◌==◌, ◌&&◌, ◌||◌, not, ltb, leb, List, [],
  ◌∷◌, ◌++◌, length, if◌then◌else◌, Option, none, some, Errcode, ro_filesys, invalid_argument,
  internal_failure, dir_no_space, dir_corrupted, file_not_found, Result, ok, err,
}
use debian_ocfs2_tools.Dir.{
  Dirent, Block, Context, Callback, Scan, Outcome, finished, corrupted, process_dir_entry,
  trailer_blk_off, name_bytes,
}
use debian_ocfs2_tools.Dir.Procs.{
  LinkStruct, link_proc, UnlinkStruct, unlink_proc, LookupStruct, lookup_proc,
}
use debian_ocfs2_tools.Dir.LinkWalk.{link_context}
use debian_ocfs2_tools.Dir.LinkBlock.{start}
use debian_ocfs2_tools.Dir.First.{plain_context}

-- The errors of the calls that read and write blocks and inodes, and that find or allocate blocks; a
-- block is known by its number in the directory. The errors of the device, of the check information of a
-- trailer and of its signature are one; the check of the entries is not among them.
pub record Io : Type 0 where
  pub read_inode : Option Errcode
  pub write_inode : Option Errcode
  pub read_block : ℕ → Option Errcode
  pub write_block : ℕ → Option Errcode
  pub extend_allocation : Option Errcode
  pub get_blocks : Option Errcode

-- What `ocfs2_process_dir_block` leaves: the block on the device, the private data, the error of the
-- context, and whether the iteration is to stop.
pub record BlockDone (S : Type 0) : Type 0 where
  pub block : Block
  pub priv : S
  pub errcode : Option Errcode
  pub abort : Bool

-- What an iteration leaves.
pub record Walked (S : Type 0) : Type 0 where
  pub blocks : List Block
  pub priv : S
  pub errcode : Option Errcode

-- The end of the entries of a block.
unfoldable pub dir_end : ℕ → Bool → ℕ
dir_end blocksize has_trailer = if has_trailer then trailer_blk_off blocksize else blocksize

-- `ocfs2_swap_dir_entries_direction`, on a machine that stores the low byte first: whether it returns no
-- error. Each round goes at least 12 bytes on, so `end` rounds are enough.
unfoldable pub swap_dir_entries : ℕ → Block → ℕ → ℕ → Bool
swap_dir_entries zero buf p end = true
swap_dir_entries (suc fuel) buf p end =
    let d = buf p in
    let broken = ltb d.rec_len 12 || not (d.rec_len % 4 == 0) in
    let rec_len = if broken then 12 else d.rec_len in
    let rest = swap_dir_entries fuel buf (p + rec_len) end in
    if ltb (p + 12) end then not broken && not (ltb rec_len (name_bytes d + 12)) && rest else true

-- `ocfs2_read_dir_block`, for a block with entries up to `end`
unfoldable pub read_dir_block : Io → ℕ → ℕ → Block → Option Errcode
unfolding swap_dir_entries
read_dir_block io end blockcnt b = elim (io.read_block blockcnt) [
  | some e ↦ some e
  | none ↦ if swap_dir_entries end b 0 end then none else some dir_corrupted
]

-- `ocfs2_write_dir_block`
unfoldable pub write_dir_block : Io → ℕ → ℕ → Block → Option Errcode
unfolding swap_dir_entries
write_dir_block io end blockcnt b =
    if swap_dir_entries end b 0 end then io.write_block blockcnt else some dir_corrupted

module _ {S : Type 0} (io : Io) (c : Context) (func : Callback S) where
  -- The code behind the walk of a block: the block is written back if it was changed.
  unfoldable pub write_back : ℕ → Block → Outcome S → BlockDone S
  unfolding dir_end write_dir_block
  write_back blockcnt b (corrupted s) = record {
    block = b;
    priv = s.priv;
    errcode = some dir_corrupted;
    abort = true;
  }
  write_back blockcnt b (finished s) =
      if not (s.changed == 0)
      then elim (write_dir_block io (dir_end c.blocksize c.has_trailer) blockcnt s.buf) [
        | none ↦ record {
          block = s.buf;
          priv = s.priv;
          errcode = none;
          abort = not (s.do_abort == 0);
        }
        | some e ↦ record { block = b; priv = s.priv; errcode = some e; abort = true }
      ]
      else record { block = b; priv = s.priv; errcode = none; abort = not (s.do_abort == 0) }

  -- `ocfs2_process_dir_block`
  unfoldable pub process_dir_block : ℕ → Block → S → Option (BlockDone S)
  unfolding dir_end read_dir_block write_back
  process_dir_block blockcnt b priv =
      let entry = if blockcnt == 0 then 1 else 3 in
      elim (read_dir_block io (dir_end c.blocksize c.has_trailer) blockcnt b) [
        | some e ↦ some (record { block = b; priv = priv; errcode = some e; abort = true })
        | none ↦ elim (process_dir_entry c func (c.blocksize + 2) (start entry b priv)) [
          | none ↦ none
          | some outcome ↦ some (write_back blockcnt b outcome)
        ]
      ]

  -- A block that is done stands before those that follow.
  abbrev pub put : Block → Option (Walked S) → Option (Walked S)
  put b none = none
  put b (some w) = some (record w { blocks = b ∷ w.blocks })

  -- The loop over the blocks below the size of the directory.
  unfoldable pub iterate_blocks : ℕ → List Block → S → Option (Walked S)
  unfolding process_dir_block
  iterate_blocks blockcnt [] priv = some (record { blocks = []; priv = priv; errcode = none })
  iterate_blocks blockcnt (b ∷ bs) priv = elim (process_dir_block blockcnt b priv) [
    | none ↦ none
    | some d ↦
        let rest = put d.block (iterate_blocks (blockcnt + 1) bs d.priv) in
        if d.abort
        then some (record { blocks = d.block ∷ bs; priv = d.priv; errcode = d.errcode })
        else rest
  ]

  -- `ocfs2_dir_iterate`
  unfoldable pub dir_iterate : List Block → S → Option (Walked S)
  unfolding iterate_blocks
  dir_iterate blocks priv = elim io.read_inode [
    | some e ↦ some (record { blocks = blocks; priv = priv; errcode = some e })
    | none ↦ iterate_blocks 0 blocks priv
  ]

-- A directory: its blocks up to `i_size`, and how many blocks are allocated for it.
pub record Directory : Type 0 where
  pub blocks : List Block
  pub totl_blks : ℕ

-- What the operations know of the file system.
pub record Filesys : Type 0 where
  pub fs_rw : Bool
  pub fs_blocks : ℕ
  pub fs_blocksize : ℕ
  pub blocks_per_cluster : ℕ
  pub has_trailer : Bool

-- `blockend` of `ocfs2_link`
abbrev pub block_end : Filesys → ℕ
block_end fs = if fs.has_trailer then trailer_blk_off fs.fs_blocksize else fs.fs_blocksize

abbrev no_entry : Dirent
no_entry = record { inode = 0; rec_len = 0; name_len = 0; file_type = 0; name = [] }

-- The block that `ocfs2_expand_dir` writes: one entry that is free, and the trailer.
unfoldable pub new_block : Filesys → Block
new_block fs o =
    if o == 0
    then record no_entry { rec_len = block_end fs }
    else if fs.has_trailer
    then (if o == trailer_blk_off fs.fs_blocksize
        then record no_entry { rec_len = 64 }
        else no_entry)
    else no_entry

-- `ocfs2_extend_allocation` by one cluster, where no block is left.
unfoldable pub get_room : Filesys → Io → Directory → Result Directory
get_room fs io dir =
    if leb dir.totl_blks (length dir.blocks)
    then elim io.extend_allocation [
      | some e ↦ err e
      | none ↦ ok (record dir { totl_blks = dir.totl_blks + fs.blocks_per_cluster })
    ]
    else ok dir

-- The new block is mapped, written, and counted in the size of the inode.
unfoldable pub add_block : Filesys → Io → Directory → Result (Unit {0}) × Directory
unfolding new_block write_dir_block
add_block fs io dir = elim io.get_blocks [
  | some e ↦ (err e, dir)
  | none ↦ elim (write_dir_block io (block_end fs) (length dir.blocks) (new_block fs)) [
    | some e ↦ (err e, dir)
    | none ↦ elim io.write_inode [
      | some e ↦ (err e, dir)
      | none ↦ (ok tt, record dir { blocks = dir.blocks ++ (new_block fs ∷ []) })
    ]
  ]
]

-- `ocfs2_expand_dir`
unfoldable pub expand_dir : Filesys → Io → Directory → Result (Unit {0}) × Directory
unfolding get_room add_block
expand_dir fs io dir = if not fs.fs_rw then (err ro_filesys, dir) else elim io.read_inode [
  | some e ↦ (err e, dir)
  | none ↦ elim (get_room fs io dir) [ err e ↦ (err e, dir) | ok larger ↦ add_block fs io larger ]
]

-- The end of `ocfs2_link`: the second walk.
unfoldable pub link_again :
    Filesys → Io → LinkStruct → Directory → Option (Result (Unit {0}) × Directory)
unfolding dir_iterate
link_again fs io ls dir =
    elim (dir_iterate io (link_context fs.fs_blocksize fs.has_trailer) link_proc dir.blocks ls) [
      | none ↦ none
      | some w ↦
          let left = record dir { blocks = w.blocks } in
          elim w.errcode [
            | some e ↦ some (err e, left)
            | none ↦ some (if w.priv.done == 0 then (err internal_failure, left) else (ok tt, left))
          ]
    ]

-- The directory has no room for the entry.
unfoldable pub link_expanded :
    Filesys → Io → LinkStruct → Directory → Option (Result (Unit {0}) × Directory)
unfolding expand_dir link_again
link_expanded fs io ls dir =
    let expanded = expand_dir fs io dir in
    elim expanded.0 [ err e ↦ some (err e, expanded.1) | ok u ↦ link_again fs io ls expanded.1 ]

-- The first walk of `ocfs2_link`.
unfoldable pub link_first :
    Filesys → Io → LinkStruct → Directory → Option (Result (Unit {0}) × Directory)
unfolding dir_iterate link_expanded
link_first fs io ls dir =
    elim (dir_iterate io (link_context fs.fs_blocksize fs.has_trailer) link_proc dir.blocks ls) [
      | none ↦ none
      | some w ↦
          let left = record dir { blocks = w.blocks } in
          elim w.errcode [
            | some e ↦ some (err e, left)
            | none ↦
                if w.priv.done == 0 then link_expanded fs io w.priv left else some (ok tt, left)
          ]
    ]

-- `ocfs2_link`, for a name that is not a null pointer
unfoldable pub link :
    Filesys → Io → List ℕ → ℕ → ℕ → Directory → Option (Result (Unit {0}) × Directory)
unfolding link_first
link fs io name ino flags dir =
    if not fs.fs_rw
    then some (err ro_filesys, dir)
    else if ltb ino 2 || ltb fs.fs_blocks ino
    then some (err invalid_argument, dir)
    else elim io.read_inode [
      | some e ↦ some (err e, dir)
      | none ↦
          link_first fs io
            (record {
              name = name;
              namelen = length name;
              inode = ino;
              flags = flags;
              done = 0;
              blockend = block_end fs;
            })
            dir
    ]

-- `ocfs2_unlink`; `name` is `none` for a null pointer
unfoldable pub unlink :
    Filesys → Io → Option (List ℕ) → ℕ → Directory → Option (Result (Unit {0}) × Directory)
unfolding dir_iterate
unlink fs io name ino dir =
    let namelen : ℕ = elim name [ none ↦ 0 | some n ↦ length n ] in
    let ls : UnlinkStruct = record { name = name; namelen = namelen; inode = ino; done = 0 } in
    if not fs.fs_rw
    then some (err ro_filesys, dir)
    else elim (dir_iterate io (plain_context fs.fs_blocksize fs.has_trailer) unlink_proc dir.blocks
        ls) [
          | none ↦ none
          | some w ↦
              let left = record dir { blocks = w.blocks } in
              elim w.errcode [
                | some e ↦ some (err e, left)
                | none ↦ some (if w.priv.done == 0 then (err dir_no_space, left) else (ok tt, left))
              ]
        ]

-- `ocfs2_lookup`: the error, or what `*inode` holds; it held `old`.
unfoldable pub lookup : Filesys → Io → List ℕ → ℕ → ℕ → Directory → Option (Result ℕ)
unfolding dir_iterate
lookup fs io name namelen old dir =
    let ls : LookupStruct = record { name = name; len = namelen; inode = old; found = 0 } in
    elim (dir_iterate io (plain_context fs.fs_blocksize fs.has_trailer) lookup_proc dir.blocks ls) [
      | none ↦ none
      | some w ↦ elim w.errcode [
        | some e ↦ some (err e)
        | none ↦ some (if w.priv.found == 0 then err file_not_found else ok w.priv.inode)
      ]
    ]
