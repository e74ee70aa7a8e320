-- ===== src/Dir/Lookup.antt =====
-- What `ocfs2_lookup` does on one directory block.
use debian_ocfs2_tools.Base.{
  ◌≤◌, ℕ, ◌+◌, ◌≡◌, ◌∙◌, refl, ap, Bool, true, false, List, [], ◌∷◌, ◌++◌, arith, inl, inr,
  if◌then◌else◌, Option, none, some, All,
}
use debian_ocfs2_tools.Dir.{Block, Scan, finished, process_dir_entry}
use debian_ocfs2_tools.Dir.Procs.{LookupStruct, lookup_proc}
use debian_ocfs2_tools.Dir.Chain.{Entry, entry_of, ListsWith}
use debian_ocfs2_tools.Dir.LinkWalk.{IsBlockEnd}
use debian_ocfs2_tools.Dir.LinkBlock.{start}
use debian_ocfs2_tools.Dir.Unlink.{has_name}
use debian_ocfs2_tools.Dir.First.{plain_context, c}
use debian_ocfs2_tools.Dir.First.Search.{search_block}

-- What a directory says of a name: the inode of the first entry of that name.
unfoldable pub find_name : List ℕ → ℕ → List Entry → Option ℕ
find_name name len [] = none
find_name name len (e ∷ es) = if has_name name len e then some e.inode else find_name name len es

find_name-first :
    (name : List ℕ) (len : ℕ) (before : List Entry) (e : Entry) (after : List Entry)
    → All (λ e. has_name name len e ≡ false) before
    → has_name name len e ≡ true
    → find_name name len (before ++ (e ∷ after)) ≡ some e.inode
unfolding find_name
find_name-first name len [] e after h hit = rw hit refl
find_name-first name len (x ∷ before) e after (miss, h) hit =
    rw miss (find_name-first name len before e after h hit)

find_name-none :
    (name : List ℕ) (len : ℕ) (es : List Entry)
    → All (λ e. has_name name len e ≡ false) es
    → find_name name len es ≡ none
unfolding find_name
find_name-none name len [] h = refl
find_name-none name len (x ∷ es) (miss, h) = rw miss (find_name-none name len es h)

-- The private data after the walk: the inode and the count.
unfoldable pub answer : Option ℕ → LookupStruct → LookupStruct
answer none ls = ls
answer (some inode) ls = record ls { inode = inode; found = ls.found + 1 }

module _ (ls : LookupStruct) where
  lookup_misses :
      (w o : ℕ) (b : Block)
      → has_name ls.name ls.len (entry_of (b o)) ≡ false
      → lookup_proc w o b ls ≡ record { buf = b; priv = ls; changed = false; abort = false }
  unfolding lookup_proc has_name
  lookup_misses w o b h = ground arith

  lookup_hits :
      (w o : ℕ) (b : Block)
      → has_name ls.name ls.len (entry_of (b o)) ≡ true
      → lookup_proc w o b ls ≡ record {
        buf = b;
        priv = record ls { inode = (b o).inode; found = ls.found + 1 };
        changed = false;
        abort = true;
      }
  unfolding lookup_proc has_name
  lookup_hits w o b h = ground arith

-- The walk of a well-formed block, whose entries have room for their names behind a header of at least 8
-- bytes, with or without a trailer, ends, finds no corrupt entry, changes nothing in the block, and gives the inode of the first entry of the name that the block lists, or
-- leaves the private data as they were where there is none.
pub lookup_block :
    (ls : LookupStruct) (blocksize : ℕ) (has_trailer : Bool) (blockend entry : ℕ) (b : Block)
    (es : List Entry) (header : ℕ)
    → 8 ≤ header
    → IsBlockEnd blocksize has_trailer blockend b
    → ListsWith header blockend b 0 es
    → (s' : Scan LookupStruct) × (process_dir_entry
          (plain_context blocksize has_trailer)
          lookup_proc
          (blocksize + 2)
          (start entry b ls)
        ≡ some (finished s'))
      × (s'.buf ≡ b)
      × (s'.priv ≡ answer (find_name ls.name ls.len es) ls)
unfolding c answer
lookup_block ls blocksize has_trailer blockend entry b es header wide end_ok lists =
    let (s', runs, outcome) =
      search_block lookup_proc (has_name ls.name ls.len) ls (lookup_misses ls)
        (λ w o b h. ap (λ r. r.abort) (lookup_hits ls w o b h)) blocksize has_trailer blockend
        header wide (blocksize + 2) (start entry b ls) es (omega arith) refl end_ok lists in
    (
      s',
      runs,
      elim outcome [
        | inl m ↦ m.same_buf
        | inr h ↦ h.acted_buf ∙ ap (λ r. r.buf) (lookup_hits ls h.role h.place b h.match_here)
      ],
      elim outcome [
        | inl m ↦ rw (find_name-none ls.name ls.len es m.none_match) m.same_priv
        | inr h ↦ rw h.split (
            rw
              (find_name-first ls.name ls.len h.before (entry_of (b h.place)) h.after h.none_before
                h.match_here)
              (h.acted_priv ∙ ap (λ r. r.priv) (lookup_hits ls h.role h.place b h.match_here)))
      ],
    )
