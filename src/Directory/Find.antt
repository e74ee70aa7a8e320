-- ===== src/Directory/Find.antt =====
-- Walks that stop at the first entry that is wanted, over the blocks of a directory: `ocfs2_lookup` and
-- `ocfs2_unlink`.
use debian_ocfs2_tools.Base.{
  ℕ, ◌+◌, ◌≡◌, ◌∙◌, refl, sym, ap, true, false, ◌==◌, not, arith, Bool-cases, Option-cases, inl,
  inr, if◌then◌else◌, if_true, if_false, Option, none, some, List, [], ◌∷◌, ◌++◌, file_not_found,
  Result, ok, err, strn_eq,
}
use mathlib.Core.Option.{none-ne-some}
use debian_ocfs2_tools.Dir.{Block, Context, name_bytes}
use debian_ocfs2_tools.Dir.Procs.{LookupStruct, lookup_proc}
use debian_ocfs2_tools.Dir.Chain.{Entry}
use debian_ocfs2_tools.Dir.First.{plain_context}
use debian_ocfs2_tools.Dir.Unlink.{has_name}
use debian_ocfs2_tools.Dir.Lookup.{find_name, answer, lookup_block}
use debian_ocfs2_tools.Directory.{
  Io, Filesys, Directory, Walked, block_end, iterate_blocks, put, lookup,
}
use debian_ocfs2_tools.Directory.Sound.{is_sound, is_sound-Lists}
use debian_ocfs2_tools.Directory.{dir_end}
use debian_ocfs2_tools.Directory.Stored.{
  IsWorking, IsHonest, process_dir_block-finished, dir_iterate-read,
}
use debian_ocfs2_tools.Directory.Blocks.{DirLists, no_blocks, block_lists, iterate-step}

lookup_proc-IsHonest : IsHonest (λ (ls : LookupStruct). ls.found) lookup_proc
unfolding lookup_proc
lookup_proc-IsHonest = record {
  told = λ w o b ls h. elim (Bool-cases (ls.len == name_bytes (b o))) [
    | inr other ↦ rw other refl
    | inl long ↦ elim (Bool-cases (strn_eq (name_bytes (b o)) ls.name (b o).name)) [
      | inr other ↦ rw (long, other) refl
      | inl same ↦ rw (long, same) refl
    ]
  ];
  counted = λ w o b ls. elim (Bool-cases (ls.len == name_bytes (b o))) [
    | inr other ↦ rw other refl
    | inl long ↦ elim (Bool-cases (strn_eq (name_bytes (b o)) ls.name (b o).name)) [
      | inr other ↦ rw (long, other) refl
      | inl same ↦ rw (long, same) refl
    ]
  ];
}

-- What a name means in two lists of entries one after the other.
pub find_name-append_none :
    (name : List ℕ) (len : ℕ) (es rest : List Entry)
    → find_name name len es ≡ none
    → find_name name len (es ++ rest) ≡ find_name name len rest
unfolding find_name
find_name-append_none name len [] rest h = refl
find_name-append_none name len (e ∷ es) rest h = elim (Bool-cases (has_name name len e)) [
  | inl here ↦ absurd (none-ne-some e.inode (sym h ∙ if_true _ _ here))
  | inr elsewhere ↦
      if_false _ _ elsewhere
      ∙ find_name-append_none name len es rest (sym (if_false _ _ elsewhere) ∙ h)
]

pub find_name-append_some :
    (name : List ℕ) (len : ℕ) (es rest : List Entry) (i : ℕ)
    → find_name name len es ≡ some i
    → find_name name len (es ++ rest) ≡ some i
unfolding find_name
find_name-append_some name len [] rest i h = absurd (none-ne-some i h)
find_name-append_some name len (e ∷ es) rest i h = elim (Bool-cases (has_name name len e)) [
  | inl here ↦ if_true _ _ here ∙ sym (if_true _ _ here) ∙ h
  | inr elsewhere ↦
      if_false _ _ elsewhere
      ∙ find_name-append_some name len es rest i (sym (if_false _ _ elsewhere) ∙ h)
]

module _ (fs : Filesys) (io : Io) (working : IsWorking io) where
  abbrev AreListed : List Block → List Entry → Type 0
  AreListed = DirLists fs.fs_blocksize fs.has_trailer (block_end fs)

  abbrev c : Context
  c = plain_context fs.fs_blocksize fs.has_trailer

  goes_on : (m n : ℕ) → m ≡ n → not (m == n) ≡ false
  goes_on m n h = ground arith

  stops : (m n : ℕ) → m ≡ n + 1 → not (m == n) ≡ true
  stops m n h = ground arith

  -- What a walk of `ocfs2_lookup` leaves.
  record IsAnswered (ls : LookupStruct) (bs : List Block) (es : List Entry)
      (w : Walked LookupStruct) : Type 0 where
    no_error : w.errcode ≡ none
    answered : w.priv ≡ answer (find_name ls.name ls.len es) ls

  lookup_walk :
      (ls : LookupStruct) (k : ℕ) {bs : List Block} {es : List Entry}
      → AreListed bs es
      → (w : Walked LookupStruct) × (iterate_blocks io c lookup_proc k bs ls ≡ some w)
        × IsAnswered ls bs es w
  unfolding iterate_blocks answer find_name
  lookup_walk ls k no_blocks = (
    record { blocks = []; priv = ls; errcode = none },
    refl,
    record { no_error = refl; answered = refl },
  )
  lookup_walk ls k (block_lists {b = b} {bs = bs} {es = es} {rest = rest} end_ok lists more) =
      let (s', runs, same, priv) =
        lookup_block ls fs.fs_blocksize fs.has_trailer (block_end fs) (if k == 0 then 1 else 3) b es
          12 (omega arith) end_ok lists in
      let sound =
        is_sound-Lists fs.fs_blocksize fs.has_trailer (block_end fs) b b es end_ok lists in
      let done =
        process_dir_block-finished (λ (ls : LookupStruct). ls.found) c lookup_proc
          lookup_proc-IsHonest io k b ls s' working sound
          (ap (is_sound (dir_end fs.fs_blocksize fs.has_trailer)) same ∙ sound) runs in
      let step = iterate-step io c lookup_proc k b bs ls _ done in
      elim (Option-cases (find_name ls.name ls.len es)) [
        | inl nothing ↦
            let missed : s'.priv ≡ ls = priv ∙ ap (λ o. answer o ls) nothing in
            let on : not (s'.priv.found == ls.found) ≡ false =
              goes_on s'.priv.found ls.found (ap (λ p. p.found) missed) in
            let (w, walks, what) = lookup_walk ls (k + 1) more in
            (
              record w { blocks = s'.buf ∷ w.blocks },
              step
                  ∙ if_false _ _ on
                  ∙ ap (put io c lookup_proc s'.buf)
                      (ap (iterate_blocks io c lookup_proc (k + 1) bs) missed ∙ walks),
              record {
                no_error = what.no_error;
                answered =
                    what.answered
                    ∙ ap (λ o. answer o ls)
                        (sym (find_name-append_none ls.name ls.len es rest nothing));
              },
            )
        | inr (i, hit) ↦
            let found : s'.priv ≡ answer (some i) ls = priv ∙ ap (λ o. answer o ls) hit in
            let stop : not (s'.priv.found == ls.found) ≡ true =
              stops s'.priv.found ls.found (ap (λ p. p.found) found) in
            (
              record { blocks = s'.buf ∷ bs; priv = s'.priv; errcode = none },
              step ∙ if_true _ _ stop,
              record {
                no_error = refl;
                answered =
                    found
                    ∙ ap (λ o. answer o ls)
                        (sym (find_name-append_some ls.name ls.len es rest i hit));
              },
            )
      ]

  -- What `ocfs2_lookup` says of a name that the entries give.
  abbrev pub said : Option ℕ → Result ℕ
  said none = err file_not_found
  said (some i) = ok i

  -- ocfs2_lookup, on a directory whose blocks are well formed and a device that works, gives the inode
  -- of the first entry of the name among those that the blocks list, one after the other, and fails
  -- with OCFS2_ET_FILE_NOT_FOUND if there is none.
  pub lookup-find_name :
      (name : List ℕ) (namelen old : ℕ) (dir : Directory) (es : List Entry)
      → AreListed dir.blocks es
      → lookup fs io name namelen old dir ≡ some (said (find_name name namelen es))
  unfolding lookup
  lookup-find_name name namelen old dir es listed =
      let ls : LookupStruct = record { name = name; len = namelen; inode = old; found = 0 } in
      let (w, walks, what) = lookup_walk ls 0 listed in
      ap
        (λ o. elim o as (λ _. Option (Result ℕ)) [
          | none ↦ none
          | some v ↦ elim v.errcode [
            | some e ↦ some (err e)
            | none ↦ some (if v.priv.found == 0 then err file_not_found else ok v.priv.inode)
          ]
        ])
        (dir_iterate-read io c lookup_proc dir.blocks ls working ∙ walks)
      ∙ rw what.no_error
          (ap some (ap told_by what.answered ∙ told_said (find_name name namelen es)))
    where
      told_by : LookupStruct → Result ℕ
      told_by p = if p.found == 0 then err file_not_found else ok p.inode

      told_said :
          (o : Option ℕ)
          → told_by (answer o (record { name = name; len = namelen; inode = old; found = 0 }))
            ≡ said o
      told_said none = unfold answer in refl
      told_said (some i) = unfold answer in refl
