-- ===== src/Directory/Expand.antt =====
-- The block that `ocfs2_expand_dir` adds takes any entry.
use debian_ocfs2_tools.Base.{
  ℕ, suc, ◌+◌, ◌-◌, ◌%◌, ◌≤◌, ◌<◌, ◌≡◌, ◌∙◌, refl, sym, ap, Bool, true, false, ◌==◌, ◌&&◌, not, ltb,
  subst, arith, le→ltb_false, ==_iff, inl, inr, if◌then◌else◌, if_true, if_false, Option, some,
  List, [], ◌∷◌,
}
use mathlib.Core.Option.{some-injective}
use debian_ocfs2_tools.Dir.{Block, Scan, finished, dir_rec_len, process_dir_entry, trailer_blk_off}
use debian_ocfs2_tools.Dir.Procs.{LinkStruct, absorbs, absorb, link_proc}
use debian_ocfs2_tools.Dir.Chain.{Entry, IsPlaced, IsPlacedWith, Lists, stop, free}
use debian_ocfs2_tools.Dir.Link.{IsRequest}
use debian_ocfs2_tools.Dir.LinkWalk.{IsBlockEnd, link_context, process-stop, reply, after}
use debian_ocfs2_tools.Dir.LinkWalk
use debian_ocfs2_tools.Dir.LinkBlock.{start, link_block}
use debian_ocfs2_tools.Directory.{Io, Filesys, Walked, block_end, new_block}
use debian_ocfs2_tools.Directory.Sound.{is_sound, is_sound-at, is_sound-Lists}
use debian_ocfs2_tools.Directory.Stored.{IsWorking, process_dir_block-finished}
use debian_ocfs2_tools.Directory.Blocks.{
  DirLists, no_blocks, block_lists, link_proc-IsHonest, iterate-step,
}
use debian_ocfs2_tools.Directory.Link.{Ends, walk, left_sound, iterate_blocks-link_proc}

-- The blocks have a size that the file system can have, with room for a name of any length.
pub record IsFormat (fs : Filesys) : Type 0 where
  pub small : fs.fs_blocksize < 65536
  pub room : 268 ≤ block_end fs
  pub aligned : block_end fs % 4 ≡ 0

module _ (fs : Filesys) (format : IsFormat fs) where
  cut : fs.has_trailer ≡ true → block_end fs ≡ fs.fs_blocksize - 64
  cut t = if_true _ _ t

  trailer_at :
      fs.has_trailer ≡ true
      → new_block fs (block_end fs)
        ≡ record { inode = 0; rec_len = 64; name_len = 0; file_type = 0; name = [] }
  unfolding new_block
  trailer_at t =
      let not_first : (block_end fs == 0) ≡ false = not_zero (block_end fs) format.room in
      let here : (block_end fs == trailer_blk_off fs.fs_blocksize) ≡ true =
        (==_iff _ _).1 (cut t) in
      if_false _ _ not_first ∙ if_true _ _ t ∙ if_true _ _ here
    where
      not_zero : (n : ℕ) → 268 ≤ n → (n == 0) ≡ false
      not_zero n le = ground arith

  new_block-IsBlockEnd : IsBlockEnd fs.fs_blocksize fs.has_trailer (block_end fs) (new_block fs)
  unfolding new_block
  new_block-IsBlockEnd = record {
    plain = λ t. if_false _ _ t;
    trailed = λ t. omega (arith, cut t, format.room);
    trailer_placed = λ t.
        subst (IsPlacedWith 8 fs.fs_blocksize (block_end fs)) (sym (trailer_at t)) (record {
          inside = omega (arith, cut t, format.room);
          minimum = omega arith;
          aligned = refl;
          fits = omega arith;
        });
    trailer_len = λ t. ap (λ d. d.rec_len) (trailer_at t);
  }

  new_block-Lists : Lists (block_end fs) (new_block fs) 0 []
  unfolding new_block
  new_block-Lists =
      free (omega (arith, format.room))
        (record {
          inside = omega arith;
          minimum = omega (arith, format.room);
          aligned = format.aligned;
          fits = omega (arith, format.room);
        })
        refl (stop (omega arith))

  pub new_block_sound : is_sound (block_end fs) (new_block fs) ≡ true
  new_block_sound = is_sound-at (block_end fs) (new_block fs) [] new_block-Lists

-- A free entry that is long enough takes the new one.
takes_free :
    (ls : LinkStruct) (w o : ℕ) (b : Block)
    → (b o).inode ≡ 0
    → absorbs ls o b ≡ false
    → dir_rec_len ls.namelen ≤ (b o).rec_len
    → (link_proc w o b ls).abort ≡ true
unfolding link_proc absorb
takes_free ls w o b empty alone room =
    let free : ((b o).inode == 0) ≡ true = (==_iff _ _).1 empty in
    let fits : ltb (b o).rec_len (dir_rec_len ls.namelen) ≡ false = le→ltb_false _ _ room in
    rw alone (rw free (rw fits refl))

module _ (fs : Filesys) (format : IsFormat fs) (ls : LinkStruct)
    (at_end : ls.blockend ≡ block_end fs) (short : ls.namelen < 256) where
  new_block-takes : (w : ℕ) → (link_proc w 0 (new_block fs) ls).abort ≡ true
  new_block-takes w =
      takes_free ls w 0 (new_block fs) (unfold new_block in refl)
        (unfold new_block absorbs in
          off (ltb (0 + block_end fs) (ls.blockend - 8)) _ _ (le→ltb_false _ _ (omega arith)))
        (unfold new_block in omega (arith, format.room))
    where
      off : (a b d : Bool) → a ≡ false → (a && b && d) ≡ false
      off a b d h = ground arith

-- `ocfs2_link` for a sound request, on well-formed blocks.
module _ (fs : Filesys) (format : IsFormat fs) (io : Io) (working : IsWorking io) (ls : LinkStruct)
    (ok_ls : IsRequest ls) (at_end : ls.blockend ≡ block_end fs) where
  abbrev AreListed : List Block → List Entry → Type 0
  AreListed = DirLists fs.fs_blocksize fs.has_trailer ls.blockend

  abbrev walked : ℕ → List Block → Option (Walked LinkStruct)
  walked k bs = walk io working ls ok_ls fs.fs_blocksize fs.has_trailer k bs

  pub new_block-listed : AreListed (new_block fs ∷ []) []
  new_block-listed =
      subst (λ e. DirLists fs.fs_blocksize fs.has_trailer e (new_block fs ∷ []) []) (sym at_end)
        (block_lists (new_block-IsBlockEnd fs format) (new_block-Lists fs format) no_blocks)

  end_ok : IsBlockEnd fs.fs_blocksize fs.has_trailer ls.blockend (new_block fs)
  end_ok =
      subst (λ e. IsBlockEnd fs.fs_blocksize fs.has_trailer e (new_block fs)) (sym at_end)
        (new_block-IsBlockEnd fs format)

  -- The walk of a new block stops at its first entry.
  new_block-stops :
      (entry : ℕ)
      → (s' : Scan LinkStruct) × (process_dir_entry
            (link_context fs.fs_blocksize fs.has_trailer)
            link_proc
            (fs.fs_blocksize + 2)
            (start entry (new_block fs) ls)
          ≡ some (finished s'))
        × (s'.priv.done ≡ ls.done + 1)
  unfolding LinkWalk.c
  new_block-stops entry =
      let s = start entry (new_block fs) ls in
      let r = reply ls ok_ls fs.fs_blocksize fs.has_trailer s in
      let placed : IsPlaced ls.blockend 0 (new_block fs 0) =
        subst (λ e. IsPlaced e 0 (new_block fs 0)) (sym at_end)
          (unfold new_block in
            record {
              inside = omega arith;
              minimum = omega (arith, format.room);
              aligned = format.aligned;
              fits = omega (arith, format.room);
            }) in
      let fuel : fs.fs_blocksize + 2 ≡ suc (fs.fs_blocksize + 1) = omega arith in
      let stops : r.abort ≡ true =
        unfold reply in new_block-takes fs format ls at_end ok_ls.short_name _ in
      let counted : r.priv.done ≡ (if r.abort then ls.done + 1 else ls.done) =
        unfold reply in link_proc-IsHonest.counted _ 0 (new_block fs) ls in
      (
        after ls ok_ls fs.fs_blocksize fs.has_trailer s r,
        ap (λ f. process_dir_entry (link_context fs.fs_blocksize fs.has_trailer) link_proc f s) fuel
            ∙ process-stop ls ok_ls fs.fs_blocksize fs.has_trailer (new_block fs) end_ok
                (fs.fs_blocksize + 1) s (omega (arith, format.room)) placed refl stops,
        (unfold after in counted ∙ if_true _ _ stops),
      )

  finished_injective : (t u : Scan LinkStruct) → finished t ≡ finished u → t ≡ u
  finished_injective t u e = cc

  -- The walk of a new block adds the entry.
  pub new_block-added :
      (k : ℕ)
      → (w : Walked LinkStruct) × (walked k (new_block fs ∷ []) ≡ some w)
        × Ends io working ls ok_ls fs.fs_blocksize fs.has_trailer ⊥ [] w
  new_block-added k =
      let (w, walks, ends) =
        iterate_blocks-link_proc io working ls ok_ls fs.fs_blocksize fs.has_trailer k
          new_block-listed in
      let entry = if k == 0 then 1 else 3 in
      let listed : Lists ls.blockend (new_block fs) 0 [] =
        subst (λ e. Lists e (new_block fs) 0 []) (sym at_end) (new_block-Lists fs format) in
      let (s₁, runs₁, counted₁) = new_block-stops entry in
      let (s', runs, outcome) =
        link_block ls ok_ls fs.fs_blocksize fs.has_trailer entry (new_block fs) [] end_ok listed in
      let same_end : s₁ ≡ s' = finished_injective s₁ s' (some-injective _ _ (sym runs₁ ∙ runs)) in
      let counted : s'.priv.done ≡ ls.done + 1 = ap (λ t. t.priv.done) (sym same_end) ∙ counted₁ in
      let done =
        process_dir_block-finished (λ (ls : LinkStruct). ls.done)
          (link_context fs.fs_blocksize fs.has_trailer) link_proc link_proc-IsHonest io k
          (new_block fs) ls s' working
          (is_sound-Lists fs.fs_blocksize fs.has_trailer ls.blockend (new_block fs) (new_block fs)
            [] end_ok listed)
          (left_sound io working ls ok_ls fs.fs_blocksize fs.has_trailer (new_block fs) [] s' end_ok
            outcome)
          runs in
      let step =
        iterate-step io (link_context fs.fs_blocksize fs.has_trailer) link_proc k (new_block fs) []
          ls _ done in
      let stop : not (s'.priv.done == ls.done) ≡ true = ground arith in
      let same : w.priv ≡ s'.priv =
        ap (λ v. v.priv) (some-injective _ _ (sym walks ∙ step ∙ if_true _ _ stop)) in
      (
        w,
        walks,
        elim ends [
          | inl (can, full) ↦
              absurd
                (omega (arith, counted, ap (λ p. p.done) same, ap (λ p. p.done) full.not_counted))
          | inr added ↦ inr added
        ],
      )
