-- ===== src/Directory/Session.antt =====
-- Calls one after the other: what `ocfs2_lookup` says after `ocfs2_link`.
use debian_ocfs2_tools.Base.{
  ℕ, zero, suc, ◌%◌, ◌<◌, ◌≡◌, ◌∙◌, refl, sym, ap, true, false, ◌==◌, subst, arith, Option-cases,
  ==_iff, inl, inr, if_true, if_false, none, some, List, [], ◌∷◌, length, Errcode, Result, ok, err,
}
use mathlib.Core.Option.{some-injective}
use debian_ocfs2_tools.Dir.Chain.{Entry}
use debian_ocfs2_tools.Dir.Link.{Added, new_entry}
use debian_ocfs2_tools.Directory.{Io, Filesys, Directory, block_end, link}
use debian_ocfs2_tools.Directory.Stored.{IsWorking}
use debian_ocfs2_tools.Directory.Blocks.{DirLists}
use debian_ocfs2_tools.Directory.Expand.{IsFormat}
use debian_ocfs2_tools.Base.{take, strn_eq}
use mathlib.Core.Option.{none-ne-some}
use debian_ocfs2_tools.Dir.Unlink.{has_name}
use debian_ocfs2_tools.Dir.Lookup.{find_name}
use debian_ocfs2_tools.Directory.{lookup}
use debian_ocfs2_tools.Directory.Find.{
  find_name-append_none, find_name-append_some, lookup-find_name, said,
}
use debian_ocfs2_tools.Directory.Linked.{IsArgument, request, link-IsLinkedTo}

strn_eq_self : (n : ℕ) (s : List ℕ) → strn_eq n s s ≡ true
unfolding strn_eq
strn_eq_self zero s = refl
strn_eq_self (suc n) [] = refl
strn_eq_self (suc n) (x ∷ xs) = ground (arith, strn_eq_self n xs)

take_all : (s : List ℕ) → take (length s) s ≡ s
take_all [] = refl
take_all (x ∷ xs) = ap (λ l. x ∷ l) (take_all xs)

-- The new entry has its name.
has_name-new_entry :
    (fs : Filesys) (name : List ℕ) (ino flags : ℕ)
    → length name < 256
    → has_name name (length name) (new_entry (request fs name ino flags)) ≡ true
unfolding has_name
has_name-new_entry fs name ino flags short =
    let whole : length name % 256 ≡ length name = omega arith in
    let long : (length name % 256 == length name) ≡ true = (==_iff _ _).1 whole in
    rw (long, take_all name) (strn_eq_self (length name % 256) name)

ok_err : (e : Errcode) → Path (Result (Unit {0})) (ok tt) (err e) → ⊥
ok_err e h = absurd cc

-- A new entry is found by its name, and does not hide others.
find_name-Added :
    (name : List ℕ) (len : ℕ) (e : Entry) (old new : List Entry)
    → Added e old new
    → find_name name len old ≡ none
    → has_name name len e ≡ true
    → find_name name len new ≡ some e.inode
find_name-Added name len e old new (before, after, p, q) missing named =
    elim (Option-cases (find_name name len before)) [
      | inr (i, hit) ↦ absurd (
          none-ne-some i (
            sym missing
            ∙ ap (find_name name len) p
            ∙ find_name-append_some name len before after i hit))
      | inl nothing ↦
          ap (find_name name len) q
          ∙ find_name-append_none name len before (e ∷ after) nothing
          ∙ (unfold find_name in if_true _ _ named)
    ]

find_name-passes :
    (name : List ℕ) (len : ℕ) (e : Entry) (es : List Entry)
    → has_name name len e ≡ false
    → find_name name len (e ∷ es) ≡ find_name name len es
unfolding find_name
find_name-passes name len e es other = if_false _ _ other

find_name-other :
    (name : List ℕ) (len : ℕ) (e : Entry) (old new : List Entry)
    → Added e old new
    → has_name name len e ≡ false
    → find_name name len new ≡ find_name name len old
find_name-other name len e old new (before, after, p, q) other =
    elim (Option-cases (find_name name len before)) [
      | inr (i, hit) ↦
          ap (find_name name len) q
          ∙ find_name-append_some name len before (e ∷ after) i hit
          ∙ sym (ap (find_name name len) p ∙ find_name-append_some name len before after i hit)
      | inl nothing ↦
          ap (find_name name len) q
          ∙ find_name-append_none name len before (e ∷ after) nothing
          ∙ find_name-passes name len e after other
          ∙ sym (ap (find_name name len) p ∙ find_name-append_none name len before after nothing)
    ]

module _ (fs : Filesys) (format : IsFormat fs) (io : Io) (working : IsWorking io)
    (writable : fs.fs_rw ≡ true) (name : List ℕ) (ino flags : ℕ)
    (sound : IsArgument fs name ino flags) (dir dir' : Directory) (es : List Entry)
    (listed : DirLists fs.fs_blocksize fs.has_trailer (block_end fs) dir.blocks es)
    (linked : link fs io name ino flags dir ≡ some (ok tt, dir')) where
  -- The entries after the call.
  linked_entries :
      (entries : List Entry) × Added (new_entry (request fs name ino flags)) es entries
      × DirLists fs.fs_blocksize fs.has_trailer (block_end fs) dir'.blocks entries
  linked_entries =
      let (r, left, ends, what) =
        link-IsLinkedTo fs format io working writable name ino flags sound dir es listed in
      let both = some-injective _ _ (sym linked ∙ ends) in
      elim what [
        | inr refused ↦ absurd (ok_err refused.code (ap (λ b. b.0) both ∙ refused.error))
        | inl done ↦ (
          done.entries,
          done.added,
          subst (λ bs. DirLists fs.fs_blocksize fs.has_trailer (block_end fs) bs done.entries)
              (sym (ap (λ b. b.1.blocks) both)) done.lists,
        )
      ]

  -- When ocfs2_link has returned no error for a name that the directory did not hold, ocfs2_lookup of the
  -- name gives the inode that was linked; and of any name that is not that of the new entry it says
  -- what it said before.
  pub lookup-link :
      find_name name (length name) es ≡ none
      → ((old : ℕ) → lookup fs io name (length name) old dir' ≡ some (ok ino))
        × ((other : List ℕ) (len old : ℕ)
            → has_name other len (new_entry (request fs name ino flags)) ≡ false
            → lookup fs io other len old dir' ≡ lookup fs io other len old dir)
  lookup-link missing =
      let (entries, added, lists) = linked_entries in
      (
        λ old.
            lookup-find_name fs io working name (length name) old dir' entries lists
            ∙ ap (λ o. some (said fs io working o))
                (find_name-Added name (length name) _ es entries added missing
                  (has_name-new_entry fs name ino flags sound.short)),
        λ other len old differs.
            lookup-find_name fs io working other len old dir' entries lists
            ∙ ap (λ o. some (said fs io working o))
                (find_name-other other len _ es entries added differs)
            ∙ sym (lookup-find_name fs io working other len old dir es listed),
      )
