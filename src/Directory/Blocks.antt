-- ===== src/Directory/Blocks.antt =====
-- The blocks of a directory, the iteration over them, and what `link_proc` says of itself.
use debian_ocfs2_tools.Base.{
  ℕ, ◌+◌, ◌≡◌, ◌∙◌, refl, sym, ap, Bool, true, false, ◌==◌, ltb, subst, Bool-cases, ==_iff, inl,
  inr, ◌⊎◌, if◌then◌else◌, if_true, if_false, Option, none, some, List, [], ◌∷◌, ◌++◌,
}
use mathlib.Core.Path.{fun_ext}
use debian_ocfs2_tools.Base.Round.{append_assoc}
use debian_ocfs2_tools.Dir.{Block, Context, Callback, Reply, update, name_bytes, dir_rec_len}
use debian_ocfs2_tools.Dir.Procs.{LinkStruct, absorbs, absorb, link_proc}
use debian_ocfs2_tools.Dir.Chain.{Entry, Lists}
use debian_ocfs2_tools.Dir.Link.{Added}
use debian_ocfs2_tools.Dir.LinkWalk.{IsBlockEnd}
use debian_ocfs2_tools.Directory.{Io, BlockDone, Walked, process_dir_block, iterate_blocks, put}
use debian_ocfs2_tools.Directory.Stored.{IsHonest}

-- The blocks of a directory are well formed, and list the entries in use, block after block.
pub data DirLists (blocksize : ℕ) (has_trailer : Bool) (blockend : ℕ)
    : List Block → List Entry → Type 0 where
  no_blocks : DirLists blocksize has_trailer blockend [] []
  block_lists :
      {b : Block} {bs : List Block} {es rest : List Entry}
      → IsBlockEnd blocksize has_trailer blockend b
      → Lists blockend b 0 es
      → DirLists blocksize has_trailer blockend bs rest
      → DirLists blocksize has_trailer blockend (b ∷ bs) (es ++ rest)

pub DirLists-append :
    {blocksize : ℕ} {has_trailer : Bool} {blockend : ℕ} {bs tail : List Block}
    {es tail_es : List Entry}
    → DirLists blocksize has_trailer blockend bs es
    → DirLists blocksize has_trailer blockend tail tail_es
    → DirLists blocksize has_trailer blockend (bs ++ tail) (es ++ tail_es)
DirLists-append no_blocks tails = tails
DirLists-append {blocksize = blocksize} {has_trailer = has_trailer} {blockend = blockend}
      {tail = tail} {tail_es = tail_es}
      (block_lists {b = b} {bs = bs} {es = es} {rest = rest} end_ok lists more) tails =
    subst (DirLists blocksize has_trailer blockend (b ∷ (bs ++ tail)))
      (sym (append_assoc es rest tail_es)) (block_lists end_ok lists (DirLists-append more tails))

pub append_nil : {A : Type 0} (xs : List A) → xs ++ [] ≡ xs
append_nil [] = refl
append_nil (x ∷ xs) = ap (λ l. x ∷ l) (append_nil xs)

-- What the iteration does with the first block.
pub iterate-step :
    {S : Type 0} (io : Io) (c : Context) (func : Callback S) (k : ℕ) (b : Block) (bs : List Block)
    (p : S) (d : BlockDone S)
    → process_dir_block io c func k b p ≡ some d
    → iterate_blocks io c func k (b ∷ bs) p ≡ (
        if d.abort
        then some (record { blocks = d.block ∷ bs; priv = d.priv; errcode = d.errcode })
        else put io c func d.block (iterate_blocks io c func (k + 1) bs d.priv))
unfolding iterate_blocks
iterate-step {S} io c func k b bs p d h =
    ap
      (λ o. elim o as (λ _. Option (Walked S)) [
        | none ↦ none
        | some d ↦
            if d.abort
            then some (record { blocks = d.block ∷ bs; priv = d.priv; errcode = d.errcode })
            else put io c func d.block (iterate_blocks io c func (k + 1) bs d.priv)
      ])
      h

absorb-alone :
    (ls : LinkStruct) (o : ℕ) (b : Block) → absorbs ls o b ≡ false → update b o (absorb ls o b) ≡ b
unfolding absorb
absorb-alone ls o b alone = rw alone (fun_ext (λ j. same j (Bool-cases (j == o))))
  where
    same : (j : ℕ) → ((j == o) ≡ true) ⊎ ((j == o) ≡ false) → update b o (b o) j ≡ b j
    same j (inl e) = let here : j ≡ o = (==_iff _ _).0 e in if_true _ _ e ∙ sym (ap b here)
    same j (inr ne) = if_false _ _ ne

-- What an honest reply says.
record IsTrue (b : Block) (ls : LinkStruct) (r : Reply LinkStruct) : Type 0 where
  told : r.changed ≡ false → r.buf ≡ b
  counted : r.priv.done ≡ (if r.abort then ls.done + 1 else ls.done)

pub true_false {ℓ} : {X : Type ℓ} → true ≡ false → X
true_false h = absurd cc

IsTrue-changed :
    (b : Block) (ls : LinkStruct) (r : Reply LinkStruct)
    → r.changed ≡ true
    → r.priv.done ≡ (if r.abort then ls.done + 1 else ls.done)
    → IsTrue b ls r
IsTrue-changed b ls r said counted = record {
  told = λ h. true_false (sym said ∙ h);
  counted = counted;
}

link_proc-IsTrue : (w o : ℕ) (b : Block) (ls : LinkStruct) → IsTrue b ls (link_proc w o b ls)
unfolding link_proc
link_proc-IsTrue w o b ls =
    let d = absorb ls o b in
    let need = dir_rec_len ls.namelen in
    elim (Bool-cases (d.inode == 0)) [
      | inl free ↦ elim (Bool-cases (ltb d.rec_len need)) [
        | inl full ↦ rw (free, full) (record { told = absorb-alone ls o b; counted = refl })
        | inr room ↦ rw (free, room) (IsTrue-changed b ls _ refl refl)
      ]
      | inr used ↦ elim (Bool-cases (ltb d.rec_len (dir_rec_len (name_bytes d) + need))) [
        | inl full ↦ rw (used, full) (record { told = absorb-alone ls o b; counted = refl })
        | inr room ↦ rw (used, room) (IsTrue-changed b ls _ refl refl)
      ]
    ]

pub link_proc-IsHonest : IsHonest (λ (ls : LinkStruct). ls.done) link_proc
link_proc-IsHonest = record {
  told = λ w o b ls. (link_proc-IsTrue w o b ls).told;
  counted = λ w o b ls. (link_proc-IsTrue w o b ls).counted;
}

-- A list of entries with one more, as part of a longer one.
pub Added-left :
    (e : Entry) (old new rest : List Entry) → Added e old new → Added e (old ++ rest) (new ++ rest)
Added-left e old new rest (before, after, p, q) = (
  before,
  after ++ rest,
  ap (λ l. l ++ rest) p ∙ append_assoc before after rest,
  ap (λ l. l ++ rest) q ∙ append_assoc before (e ∷ after) rest,
)

pub Added-right :
    (e : Entry) (es old new : List Entry) → Added e old new → Added e (es ++ old) (es ++ new)
Added-right e es old new (before, after, p, q) = (
  es ++ before,
  after,
  ap (λ l. es ++ l) p ∙ sym (append_assoc es before after),
  ap (λ l. es ++ l) q ∙ sym (append_assoc es before (e ∷ after)),
)
