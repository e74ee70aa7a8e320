-- ===== src/Directory/Link.antt =====
-- A walk of `ocfs2_link` over the blocks of a directory.
use debian_ocfs2_tools.Base.{
  ℕ, ◌+◌, ◌≡◌, ◌∙◌, refl, sym, ap, Bool, true, false, ◌==◌, not, subst, arith, inl, inr, ◌⊎◌,
  if◌then◌else◌, if_true, if_false, Option, none, some, List, [], ◌∷◌, ◌++◌,
}
use debian_ocfs2_tools.Base.Round.{append_assoc}
use debian_ocfs2_tools.Dir.{Block}
use debian_ocfs2_tools.Dir.Procs.{LinkStruct, link_proc}
use debian_ocfs2_tools.Dir.Chain.{Entry, Lists}
use debian_ocfs2_tools.Dir.Link.{IsRequest, Added, new_entry}
use debian_ocfs2_tools.Dir.LinkWalk.{IsBlockEnd, link_context}
use debian_ocfs2_tools.Dir.LinkBlock.{IsBlockEnd-transfer, link_block}
use debian_ocfs2_tools.Directory.{Io, BlockDone, Walked, process_dir_block, iterate_blocks, put}
use debian_ocfs2_tools.Directory.Sound.{is_sound, is_sound-Lists}
use debian_ocfs2_tools.Directory.{dir_end}
use debian_ocfs2_tools.Dir.{Scan}
use debian_ocfs2_tools.Dir.LinkBlock.{IsRefused, IsLinked}
use debian_ocfs2_tools.Directory.Stored.{IsWorking, process_dir_block-finished}
use debian_ocfs2_tools.Directory.Blocks.{
  DirLists, no_blocks, block_lists, DirLists-append, append_nil, iterate-step, link_proc-IsHonest,
  Added-left, Added-right,
}

module _ (io : Io) (working : IsWorking io) (ls : LinkStruct) (ok_ls : IsRequest ls) (blocksize : ℕ)
    (has_trailer : Bool) where
  abbrev AreListed : List Block → List Entry → Type 0
  AreListed = DirLists blocksize has_trailer ls.blockend

  -- A walk over all blocks that found no room.
  pub record IsFullDir (es : List Entry) (w : Walked LinkStruct) : Type 0 where
    pub no_error : w.errcode ≡ none
    pub not_counted : w.priv ≡ ls
    pub lists : AreListed w.blocks es

  -- A walk that added the entry, in one block.
  pub record IsAddedDir (es : List Entry) (w : Walked LinkStruct) : Type 0 where
    pub no_error : w.errcode ≡ none
    pub counted : w.priv ≡ record ls { done = ls.done + 1 }
    pub entries : List Entry
    pub added : Added (new_entry ls) es entries
    pub lists : AreListed w.blocks entries

  -- What the walk of a block leaves is sound.
  pub left_sound :
      (b : Block) (es : List Entry) (s' : Scan LinkStruct)
      → IsBlockEnd blocksize has_trailer ls.blockend b
      → IsRefused ls ok_ls blocksize has_trailer 0 b es s'
        ⊎ IsLinked ls ok_ls blocksize has_trailer 0 b es s'
      → is_sound (dir_end blocksize has_trailer) s'.buf ≡ true
  left_sound b es s' end_ok (inl r) =
      is_sound-Lists blocksize has_trailer ls.blockend b s'.buf es end_ok r.lists
  left_sound b es s' end_ok (inr a) =
      is_sound-Lists blocksize has_trailer ls.blockend b s'.buf a.entries end_ok a.lists

  pub first_block :
      (k : ℕ) (b : Block) (es : List Entry)
      → IsBlockEnd blocksize has_trailer ls.blockend b
      → Lists ls.blockend b 0 es
      → (d : BlockDone LinkStruct) × (process_dir_block io
            (link_context blocksize has_trailer)
            link_proc
            k
            b
            ls
          ≡ some d)
        × (d.errcode ≡ none)
        × (((d.abort ≡ false)
              × (d.priv ≡ ls)
              × IsBlockEnd blocksize has_trailer ls.blockend d.block
              × Lists ls.blockend d.block 0 es)
            ⊎ ((d.abort ≡ true)
                × (d.priv ≡ record ls { done = ls.done + 1 })
                × IsBlockEnd blocksize has_trailer ls.blockend d.block
                × ((entries : List Entry) × Added (new_entry ls) es entries
                    × Lists ls.blockend d.block 0 entries)))
  first_block k b es end_ok lists =
      let (s', runs, outcome) =
        link_block ls ok_ls blocksize has_trailer (if k == 0 then 1 else 3) b es end_ok lists in
      (
        record {
          block = s'.buf;
          priv = s'.priv;
          errcode = none;
          abort = not (s'.priv.done == ls.done);
        },
        process_dir_block-finished (λ (ls : LinkStruct). ls.done)
            (link_context blocksize has_trailer) link_proc link_proc-IsHonest io k b ls s' working
            (is_sound-Lists blocksize has_trailer ls.blockend b b es end_ok lists)
            (left_sound b es s' end_ok outcome) runs,
        refl,
        elim outcome [
          | inl r ↦
              let same : s'.priv.done ≡ ls.done = ap (λ p. p.done) r.same_priv in
              inl (
                ground arith,
                r.same_priv,
                IsBlockEnd-transfer ls ok_ls blocksize has_trailer b s'.buf
                    (r.framed.above ls.blockend (omega arith)) end_ok,
                r.lists,
              )
          | inr a ↦
              let more : s'.priv.done ≡ ls.done + 1 = ap (λ p. p.done) a.counted in
              inr (
                ground arith,
                a.counted,
                IsBlockEnd-transfer ls ok_ls blocksize has_trailer b s'.buf
                    (a.framed.above ls.blockend (omega arith)) end_ok,
                (a.entries, a.added, a.lists),
              )
        ],
      )

  -- How a walk ends: with the entry added, or, if `Full` can be, with no room found.
  abbrev pub Ends : Type 0 → List Entry → Walked LinkStruct → Type 0
  Ends Full es w = (Full × IsFullDir es w) ⊎ IsAddedDir es w

  abbrev pub walk : ℕ → List Block → Option (Walked LinkStruct)
  walk k bs = iterate_blocks io (link_context blocksize has_trailer) link_proc k bs ls

  Ends-cons :
      (Full : Type 0) (b : Block) (es rest : List Entry) (w : Walked LinkStruct)
      → IsBlockEnd blocksize has_trailer ls.blockend b
      → Lists ls.blockend b 0 es
      → Ends Full rest w
      → Ends Full (es ++ rest) (record w { blocks = b ∷ w.blocks })
  Ends-cons Full b es rest w end_ok lists (inl (can, full)) = inl (
    can,
    record {
      no_error = full.no_error;
      not_counted = full.not_counted;
      lists = block_lists end_ok lists full.lists;
    },
  )
  Ends-cons Full b es rest w end_ok lists (inr add) = inr (record {
    no_error = add.no_error;
    counted = add.counted;
    entries = es ++ add.entries;
    added = Added-right (new_entry ls) es rest add.entries add.added;
    lists = block_lists end_ok lists add.lists;
  })

  -- A walk over well-formed blocks and over others behind them.
  pub walk-Ends :
      (Full : Type 0) (k : ℕ) {bs tail : List Block} {es tail_es : List Entry}
      → AreListed bs es
      → AreListed tail tail_es
      → ((i : ℕ) → (w : Walked LinkStruct) × (walk i tail ≡ some w) × Ends Full tail_es w)
      → (w : Walked LinkStruct) × (walk k (bs ++ tail) ≡ some w) × Ends Full (es ++ tail_es) w
  walk-Ends Full k no_blocks tails ends = ends k
  walk-Ends Full k {tail = tail} {tail_es = tail_es}
        (block_lists {b = b} {bs = bs} {es = es} {rest = rest} end_ok lists more) tails ends =
      let (d, runs, no_error, outcome) = first_block k b es end_ok lists in
      let step =
        iterate-step io (link_context blocksize has_trailer) link_proc k b (bs ++ tail) ls d runs in
      elim outcome [
        | inl (on, same_priv, end_ok', lists') ↦
            let (w, walks, what) = walk-Ends Full (k + 1) more tails ends in
            let walked : iterate_blocks io (link_context blocksize has_trailer) link_proc (k + 1)
                  (bs ++ tail) d.priv
                ≡ some w =
              ap
                (iterate_blocks io (link_context blocksize has_trailer) link_proc (k + 1)
                  (bs ++ tail))
                same_priv
              ∙ walks in
            (
              record w { blocks = d.block ∷ w.blocks },
              step
                  ∙ if_false _ _ on
                  ∙ ap (put io (link_context blocksize has_trailer) link_proc d.block) walked,
              subst (λ l. Ends Full l (record w { blocks = d.block ∷ w.blocks }))
                  (sym (append_assoc es rest tail_es))
                  (Ends-cons Full d.block es (rest ++ tail_es) w end_ok' lists' what),
            )
        | inr (stop, counted, end_ok', (entries, added, lists')) ↦ (
          record { blocks = d.block ∷ (bs ++ tail); priv = d.priv; errcode = d.errcode },
          step ∙ if_true _ _ stop,
          subst
              (λ l.
                Ends Full l
                  (record { blocks = d.block ∷ (bs ++ tail); priv = d.priv; errcode = d.errcode }))
              (sym (append_assoc es rest tail_es))
              (inr (record {
                no_error = no_error;
                counted = counted;
                entries = entries ++ (rest ++ tail_es);
                added = Added-left (new_entry ls) es entries (rest ++ tail_es) added;
                lists = block_lists end_ok' lists' (DirLists-append more tails);
              })),
        )
      ]

  -- A walk of ocfs2_link over well-formed blocks either finds that no block has room for the entry,
  -- and then the blocks list the same entries, or adds it in one block, which ends the walk, and then
  -- the blocks list it once, and all other entries in the same order.
  pub iterate_blocks-link_proc :
      (k : ℕ) {bs : List Block} {es : List Entry}
      → AreListed bs es
      → (w : Walked LinkStruct) × (walk k bs ≡ some w) × Ends (Unit {0}) es w
  unfolding iterate_blocks
  iterate_blocks-link_proc k {bs = bs} {es = es} listed =
      let (w, walks, ends) = walk-Ends (Unit {0}) k listed no_blocks (λ i. (
        record { blocks = []; priv = ls; errcode = none },
        refl,
        inl (tt, record { no_error = refl; not_counted = refl; lists = no_blocks }),
      )) in
      (
        w,
        ap (walk k) (sym (append_nil bs)) ∙ walks,
        subst (λ l. Ends (Unit {0}) l w) (append_nil es) ends,
      )
