-- ===== src/Dir/Procs.antt =====
-- The callbacks of libocfs2/link.c, unlink.c and lookup.c. Their private data is the `struct` of
-- each file; a name is a list of bytes without a terminator, and its length is kept beside it.
use debian_ocfs2_tools.Base.{
  ℕ, ◌+◌, ◌-◌, ◌%◌, Bool, true, false, ◌==◌, ◌&&◌, ◌||◌, not, ltb, leb, List, Option, none, some,
  if◌then◌else◌, strn_eq, take,
}
use debian_ocfs2_tools.Dir.{Dirent, Block, update, name_bytes, dir_rec_len, Reply, Callback}

-- `struct link_struct` of link.c
pub record LinkStruct : Type 0 where
  pub name : List ℕ
  pub namelen : ℕ
  pub inode : ℕ
  pub flags : ℕ
  pub done : ℕ
  pub blockend : ℕ

abbrev u16 : ℕ → ℕ
u16 n = n % 65536

abbrev u8 : ℕ → ℕ
u8 n = n % 256

-- The next entry is not in use, and is absorbed into this one.
unfoldable pub absorbs : LinkStruct → ℕ → Block → Bool
absorbs ls offset buf =
    let d = buf offset in
    let next = buf (offset + d.rec_len) in
    ltb (offset + d.rec_len) (ls.blockend - 8)
    && next.inode == 0
    && leb (offset + d.rec_len + next.rec_len) ls.blockend

unfoldable pub absorb : LinkStruct → ℕ → Block → Dirent
absorb ls offset buf =
    let d = buf offset in
    if absorbs ls offset buf
    then record d { rec_len = u16 (d.rec_len + (buf (offset + d.rec_len)).rec_len) }
    else d

-- `link_proc`
unfoldable pub link_proc : Callback LinkStruct
link_proc entry offset buf ls =
    let need = dir_rec_len ls.namelen in
    let merged = absorbs ls offset buf in
    let d = absorb ls offset buf in
    let buf' = update buf offset d in
    let min_rec_len = dir_rec_len (name_bytes d) in
    let next = buf' (offset + min_rec_len) in
    let keep : Reply LinkStruct = record {
      buf = buf';
      priv = ls;
      changed = merged;
      abort = false;
    } in
    if not (d.inode == 0)
    then (if ltb d.rec_len (min_rec_len + need) then keep else record {
      buf =
          update (update buf' offset (record d { rec_len = u16 min_rec_len }))
            (offset + min_rec_len)
            (record next { inode = 0; name_len = 0; rec_len = u16 (d.rec_len - min_rec_len) });
      priv = ls;
      changed = true;
      abort = false;
    })
    else if ltb d.rec_len need
    then keep
    else record {
      buf = update buf' offset (record d {
        inode = ls.inode;
        name_len = u8 ls.namelen;
        name = take ls.namelen ls.name;
        file_type = u8 ls.flags;
      });
      priv = record ls { done = ls.done + 1 };
      changed = true;
      abort = true;
    }

-- `struct link_struct` of unlink.c; `name` is `none` for a null pointer.
pub record UnlinkStruct : Type 0 where
  pub name : Option (List ℕ)
  pub namelen : ℕ
  pub inode : ℕ
  pub done : ℕ

-- The name that is asked for, if any, is not that of the entry.
unfoldable pub other_name : Option (List ℕ) → ℕ → Dirent → Bool
other_name none namelen d = false
other_name (some name) namelen d =
    not (name_bytes d == namelen) || not (strn_eq (name_bytes d) name d.name)

-- `unlink_proc`
unfoldable pub unlink_proc : Callback UnlinkStruct
unfolding other_name
unlink_proc entry offset buf ls =
    let d = buf offset in
    let keep : Reply UnlinkStruct = record {
      buf = buf;
      priv = ls;
      changed = false;
      abort = false;
    } in
    if other_name ls.name ls.namelen d
    then keep
    else if not (ls.inode == 0) && not (d.inode == ls.inode)
    then keep
    else record {
      buf = update buf offset (record d { inode = 0 });
      priv = record ls { done = ls.done + 1 };
      changed = true;
      abort = true;
    }

-- `struct lookup_struct` of lookup.c; `inode` is what `*inode` holds.
pub record LookupStruct : Type 0 where
  pub name : List ℕ
  pub len : ℕ
  pub inode : ℕ
  pub found : ℕ

-- `lookup_proc`
unfoldable pub lookup_proc : Callback LookupStruct
lookup_proc entry offset buf ls =
    let d = buf offset in
    let keep : Reply LookupStruct = record {
      buf = buf;
      priv = ls;
      changed = false;
      abort = false;
    } in
    if not (ls.len == name_bytes d)
    then keep
    else if not (strn_eq (name_bytes d) ls.name d.name)
    then keep
    else record {
      buf = buf;
      priv = record ls { inode = d.inode; found = ls.found + 1 };
      changed = false;
      abort = true;
    }
