-- ===== src/Directory/Examples.antt =====
-- Calls for a small directory.
use debian_ocfs2_tools.Base.{
  ℕ, ◌==◌, if◌then◌else◌, ◌≡◌, ◌⊎◌, ◌++◌, refl, true, false, List, [], ◌∷◌, Option, none, some,
  codes, arith, Result, ok, strn_eq,
}
use debian_ocfs2_tools.Dir.{
  Dirent, Block, skip_dir_trailer, is_corrupt, is_dots, is_skipped, visit, advance,
  process_dir_entry, validate_entry, skip_removed,
}
use debian_ocfs2_tools.Dir.Procs.{absorbs, absorb, link_proc}
use debian_ocfs2_tools.Dir.Chain.{Entry, entry_of, stop, used}
use debian_ocfs2_tools.Dir.LinkWalk.{IsBlockEnd}
use debian_ocfs2_tools.Dir.Link.{new_entry}
use debian_ocfs2_tools.Dir.Unlink.{has_name}
use debian_ocfs2_tools.Dir.Lookup.{find_name}
use debian_ocfs2_tools.Directory.{
  Io, Filesys, Directory, new_block, write_back, process_dir_block, iterate_blocks, dir_iterate,
  get_room, add_block, swap_dir_entries, expand_dir, link_again, link_expanded, link_first, link,
  unlink, lookup,
}
use debian_ocfs2_tools.Directory.Stored.{IsWorking}
use debian_ocfs2_tools.Directory.Blocks.{DirLists, no_blocks, block_lists}
use debian_ocfs2_tools.Directory.Expand.{IsFormat}
use debian_ocfs2_tools.Directory.Linked.{
  IsArgument, IsLinkedTo, IsDeniedTo, request, link-IsLinkedTo,
}
use debian_ocfs2_tools.Directory.Find.{said, lookup-find_name}
use debian_ocfs2_tools.Directory.Unlinked.{IsUnlinkedFrom, IsNotFound, unlink-IsUnlinkedFrom}
use debian_ocfs2_tools.Directory.Unlinked
use debian_ocfs2_tools.Directory.Session.{lookup-link}

abbrev fs : Filesys
fs = record {
  fs_rw = true;
  fs_blocks = 1000;
  fs_blocksize = 512;
  blocks_per_cluster = 8;
  has_trailer = false;
}

fs-IsFormat : IsFormat fs
fs-IsFormat = record { small = omega arith; room = omega arith; aligned = refl }

abbrev works : Io
works = record {
  read_inode = none;
  write_inode = none;
  read_block = λ k. none;
  write_block = λ k. none;
  extend_allocation = none;
  get_blocks = none;
}

works-IsWorking : IsWorking works
works-IsWorking = record { inode_read = refl; block_read = λ k. refl; block_written = λ k. refl }

-- A block with `.` and a block with a file.
abbrev dot : Dirent
dot = record { inode = 5; rec_len = 512; name_len = 1; file_type = 2; name = codes "." }

abbrev foo : Dirent
foo = record { inode = 8; rec_len = 512; name_len = 3; file_type = 1; name = codes "foo" }

abbrev dot_block : Block
dot_block o = dot

abbrev foo_block : Block
foo_block o = foo

abbrev dir : Directory
dir = record { blocks = dot_block ∷ foo_block ∷ []; totl_blks = 2 }

abbrev entries : List Entry
entries = (entry_of dot ∷ []) ++ ((entry_of foo ∷ []) ++ [])

plain-IsBlockEnd : (b : Block) → IsBlockEnd 512 false 512 b
plain-IsBlockEnd b = record {
  plain = λ h. refl;
  trailed = λ h. cc;
  trailer_placed = λ h. absurd cc;
  trailer_len = λ h. cc;
}

dir-listed : DirLists 512 false 512 dir.blocks entries
dir-listed =
    block_lists (plain-IsBlockEnd dot_block)
      (used (omega arith)
        (record { inside = omega arith; minimum = omega arith; aligned = refl; fits = omega arith })
        (omega arith) (stop refl))
      (block_lists (plain-IsBlockEnd foo_block)
        (used (omega arith)
          (record {
            inside = omega arith;
            minimum = omega arith;
            aligned = refl;
            fits = omega arith;
          })
          (omega arith) (stop refl))
        no_blocks)

ab-IsArgument : IsArgument fs (codes "ab") 9 1
ab-IsArgument = record {
  known = omega arith;
  in_range = omega arith;
  short = omega arith;
  small_type = omega arith;
}

link-IsLinkedTo_example :
    (r : Result (Unit {0})) × (dir' : Directory) × (link fs works (codes "ab") 9 1 dir
      ≡ some (r, dir'))
    × (IsLinkedTo fs fs-IsFormat works works-IsWorking refl
          (codes "ab")
          9
          1
          ab-IsArgument
          entries
          r
          dir'
        ⊎ IsDeniedTo fs fs-IsFormat works works-IsWorking refl
            (codes "ab")
            9
            1
            ab-IsArgument
            entries
            r
            dir')
link-IsLinkedTo_example =
    link-IsLinkedTo fs fs-IsFormat works works-IsWorking refl (codes "ab") 9 1 ab-IsArgument dir
      entries dir-listed

lookup-find_name_example :
    lookup fs works (codes "foo") 3 0 dir
    ≡ some (said fs works works-IsWorking (find_name (codes "foo") 3 entries))
lookup-find_name_example =
    lookup-find_name fs works works-IsWorking (codes "foo") 3 0 dir entries dir-listed

unlink-IsUnlinkedFrom_example :
    (r : Result (Unit {0})) × (dir' : Directory) × (unlink fs works (some (codes "foo")) 0 dir
      ≡ some (r, dir'))
    × (IsUnlinkedFrom fs works works-IsWorking refl
          (Unlinked.request (some (codes "foo")) 0)
          entries
          r
          dir'
        ⊎ IsNotFound fs works works-IsWorking refl
            (Unlinked.request (some (codes "foo")) 0)
            entries
            r
            dir')
unlink-IsUnlinkedFrom_example =
    unlink-IsUnlinkedFrom fs works works-IsWorking refl (some (codes "foo")) 0 dir entries
      dir-listed

-- What the directory is after a call.
abbrev left : Option (Result (Unit {0}) × Directory) → Directory
left none = dir
left (some call) = call.1

abbrev linked : Directory
linked = left (link fs works (codes "ab") 9 1 dir)

linked_lem : link fs works (codes "ab") 9 1 dir ≡ some (ok tt, linked)
unfolding link link_first link_again link_expanded expand_dir get_room add_block new_block
    dir_iterate iterate_blocks process_dir_block write_back process_dir_entry visit advance
    is_skipped is_corrupt is_dots skip_dir_trailer skip_removed validate_entry link_proc absorb
    absorbs
linked_lem = refl

ab-missing : find_name (codes "ab") 2 entries ≡ none
unfolding find_name has_name strn_eq
ab-missing = refl

lookup-link_example :
    ((old : ℕ) → lookup fs works (codes "ab") 2 old linked ≡ some (ok 9))
    × ((other : List ℕ) (len old : ℕ)
        → has_name other len (new_entry (request fs (codes "ab") 9 1)) ≡ false
        → lookup fs works other len old linked ≡ lookup fs works other len old dir)
lookup-link_example =
    lookup-link fs fs-IsFormat works works-IsWorking refl (codes "ab") 9 1 ab-IsArgument dir linked
      entries dir-listed linked_lem ab-missing

-- A name that reaches into the next entry is refused, although the walk of the block accepts it.
abbrev overlapping : Block
overlapping o =
    if o == 0
    then record { inode = 5; rec_len = 12; name_len = 3; file_type = 1; name = codes "abc" }
    else record { inode = 8; rec_len = 52; name_len = 0; file_type = 1; name = [] }

overlapping_refused : swap_dir_entries 64 overlapping 0 64 ≡ false
unfolding swap_dir_entries
overlapping_refused = refl

overlapping_walked : is_corrupt 64 0 (overlapping 0) ≡ false
unfolding is_corrupt
overlapping_walked = refl
