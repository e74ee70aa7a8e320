-- ===== src/Dir/Examples.antt =====
-- Runs of link_proc, unlink_proc and lookup_proc over a small block, and the theorems on it.
use debian_ocfs2_tools.Base.{
  ◌≡◌, ◌⊎◌, refl, true, ◌==◌, List, [], ◌∷◌, if◌then◌else◌, Option, some, codes, arith,
}
use debian_ocfs2_tools.Dir.{
  Dirent, Block, Scan, Outcome, finished, skip_dir_trailer, is_corrupt, is_dots, is_skipped, visit,
  advance, process_dir_entry, validate_entry, skip_removed,
}
use debian_ocfs2_tools.Dir.Procs.{
  LinkStruct, absorbs, absorb, link_proc, UnlinkStruct, unlink_proc, LookupStruct, lookup_proc,
}
use debian_ocfs2_tools.Dir.Chain.{Entry, entry_of, Lists, stop, used, free}
use debian_ocfs2_tools.Dir.Link.{IsRequest}
use debian_ocfs2_tools.Dir.LinkWalk.{IsBlockEnd, link_context}
use debian_ocfs2_tools.Dir.LinkBlock.{IsRefused, IsLinked, start, link_block}
use debian_ocfs2_tools.Dir.First.{plain_context}
use debian_ocfs2_tools.Dir.Unlink.{IsAbsent, IsUnlinked, unlink_block}
use debian_ocfs2_tools.Dir.Lookup.{find_name, answer, lookup_block}

abbrev dot : Dirent
dot = record { inode = 5; rec_len = 16; name_len = 1; file_type = 2; name = codes "." }

abbrev gap : Dirent
gap = record { inode = 0; rec_len = 16; name_len = 3; file_type = 1; name = codes "old" }

abbrev foo : Dirent
foo = record { inode = 8; rec_len = 32; name_len = 3; file_type = 1; name = codes "foo" }

abbrev trailer : Dirent
trailer = record { inode = 0; rec_len = 64; name_len = 0; file_type = 0; name = [] }

-- A block of 128 bytes: an entry in use, one that is free, one in use, and the trailer.
abbrev block : Block
block o = if o == 0 then dot else if o == 16 then gap else if o == 32 then foo else trailer

abbrev entries : List Entry
entries = entry_of dot ∷ entry_of foo ∷ []

block-Lists : Lists 64 block 0 entries
block-Lists =
    used (ground arith)
      (record {
        inside = ground arith;
        minimum = ground arith;
        aligned = refl;
        fits = ground arith;
      })
      (ground arith)
      (free (ground arith)
        (record {
          inside = ground arith;
          minimum = ground arith;
          aligned = refl;
          fits = ground arith;
        })
        refl
        (used (ground arith)
          (record {
            inside = ground arith;
            minimum = ground arith;
            aligned = refl;
            fits = ground arith;
          })
          (ground arith) (stop refl)))

block-IsBlockEnd : IsBlockEnd 128 true 64 block
block-IsBlockEnd = record {
  plain = λ h. cc;
  trailed = λ h. refl;
  trailer_placed = λ h. record {
    inside = ground arith;
    minimum = ground arith;
    aligned = refl;
    fits = ground arith;
  };
  trailer_len = λ h. refl;
}

abbrev adds_ab : LinkStruct
adds_ab = record { name = codes "ab"; namelen = 2; inode = 9; flags = 1; done = 0; blockend = 64 }

adds_ab-IsRequest : IsRequest adds_ab
adds_ab-IsRequest = record {
  block_small = ground arith;
  short_name = ground arith;
  real_inode = ground arith;
  small_type = ground arith;
}

abbrev drops_foo : UnlinkStruct
drops_foo = record { name = some (codes "foo"); namelen = 3; inode = 0; done = 0 }

abbrev asks_foo : LookupStruct
asks_foo = record { name = codes "foo"; len = 3; inode = 0; found = 0 }

link_block_example :
    (s' : Scan LinkStruct) × (process_dir_entry
        (link_context 128 true)
        link_proc
        130
        (start 1 block adds_ab)
      ≡ some (finished s'))
    × (IsRefused adds_ab adds_ab-IsRequest 128 true 0 block entries s'
        ⊎ IsLinked adds_ab adds_ab-IsRequest 128 true 0 block entries s')
link_block_example =
    link_block adds_ab adds_ab-IsRequest 128 true 1 block entries block-IsBlockEnd block-Lists

unlink_block_example :
    (s' : Scan UnlinkStruct) × (process_dir_entry
        (plain_context 128 true)
        unlink_proc
        130
        (start 1 block drops_foo)
      ≡ some (finished s'))
    × (IsAbsent drops_foo block entries s' ⊎ IsUnlinked drops_foo 64 block entries s')
unlink_block_example =
    unlink_block drops_foo 128 true 64 1 block entries block-IsBlockEnd block-Lists

lookup_block_example :
    (s' : Scan LookupStruct) × (process_dir_entry
        (plain_context 128 true)
        lookup_proc
        130
        (start 1 block asks_foo)
      ≡ some (finished s'))
    × (s'.buf ≡ block)
    × (s'.priv ≡ answer (find_name (codes "foo") 3 entries) asks_foo)
lookup_block_example =
    lookup_block asks_foo 128 true 64 1 block entries 12 (omega arith) block-IsBlockEnd block-Lists

-- The new entry takes the room of the free one.
abbrev end_of : {S : Type 0} → Option (Outcome S) → Block → Block
end_of (some (finished s)) b = s.buf
end_of _ b = b

link_block-room :
    let b =
      end_of
        (process_dir_entry (link_context 128 true) link_proc 130 (start 1 block adds_ab))
        block in
    b 16 ≡ record { inode = 9; rec_len = 16; name_len = 2; file_type = 1; name = codes "ab" }
unfolding process_dir_entry visit advance is_corrupt is_skipped skip_dir_trailer is_dots link_proc
    absorb absorbs skip_removed validate_entry
link_block-room = refl
