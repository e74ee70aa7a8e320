-- ===== src/Dir/LinkWalk.antt =====
-- The walk of one directory block that `ocfs2_link` starts: `ocfs2_process_dir_entry` with
-- `link_proc`, on blocks with and without a trailer.
use debian_ocfs2_tools.Base.{
  ℕ, suc, ◌+◌, ◌≤◌, ◌<◌, ◌≡◌, ◌∙◌, refl, ap, Bool, true, false, ◌==◌, arith, Bool-cases, inl, inr,
  if◌then◌else◌, ltb, some,
}
use debian_ocfs2_tools.Dir.{
  Dirent, Block, Context, Scan, Reply, finished, skip_dir_trailer, is_skipped, visit, advance,
  process_dir_entry,
}
use debian_ocfs2_tools.Dir.Walk.{process_end, process_step}
use debian_ocfs2_tools.Dir.Procs.{LinkStruct, link_proc}
use debian_ocfs2_tools.Dir.Chain.{IsPlacedWith, IsPlaced}
use debian_ocfs2_tools.Dir.Link.{IsRequest, HasNoRoom}

-- `ocfs2_link` walks with `OCFS2_DIRENT_FLAG_INCLUDE_EMPTY`.
abbrev pub link_context : ℕ → Bool → Context
link_context blocksize has_trailer = record {
  blocksize = blocksize;
  has_trailer = has_trailer;
  include_empty = true;
  include_removed = false;
  exclude_dots = false;
  include_trailer = false;
}

-- The end of the entries, which `ocfs2_link` keeps in `blockend`, and the trailer that follows.
pub record IsBlockEnd (blocksize : ℕ) (has_trailer : Bool) (blockend : ℕ) (b : Block) : Type 0 where
  pub plain : has_trailer ≡ false → blockend ≡ blocksize
  pub trailed : has_trailer ≡ true → blockend + 64 ≡ blocksize
  pub trailer_placed : has_trailer ≡ true → IsPlacedWith 8 blocksize blockend (b blockend)
  pub trailer_len : has_trailer ≡ true → (b blockend).rec_len ≡ 64

-- From an offset on no entry has room for the name.
pub data IsFull (ls : LinkStruct) (ok_ls : IsRequest ls) (b : Block) : ℕ → Type 0 where
  full_end : {o : ℕ} → o ≡ ls.blockend → IsFull ls ok_ls b o
  full_at :
      {o : ℕ}
      → o < ls.blockend
      → HasNoRoom ls ok_ls (b o)
      → IsFull ls ok_ls b (o + (b o).rec_len)
      → IsFull ls ok_ls b o

module _ (ls : LinkStruct) (ok_ls : IsRequest ls) (blocksize : ℕ) (has_trailer : Bool) where
  unfoldable pub c : Context
  c = link_context blocksize has_trailer

  unfoldable pub after : Scan LinkStruct → Reply LinkStruct → Scan LinkStruct
  after s r = record s {
    entry = if ltb s.entry 3 then s.entry + 1 else s.entry;
    changed = if r.changed then s.changed + 1 else s.changed;
    do_abort = if r.abort then s.do_abort + 1 else s.do_abort;
    buf = r.buf;
    priv = r.priv;
  }

  unfoldable pub which : Scan LinkStruct → ℕ
  which s = if ltb s.offset s.next_real_entry then 4 else s.entry

  unfoldable pub real : Scan LinkStruct → ℕ
  real s =
      if s.next_real_entry == s.offset
      then s.next_real_entry + (s.buf s.offset).rec_len
      else s.next_real_entry

  unfoldable pub next : Scan LinkStruct → Scan LinkStruct
  next s = record s { next_real_entry = real s; offset = s.offset + (s.buf s.offset).rec_len }

  unfoldable pub reply : Scan LinkStruct → Reply LinkStruct
  reply s = link_proc (which s) s.offset s.buf ls

  advance-next : (s : Scan LinkStruct) → advance c link_proc s ≡ next s
  unfolding advance next real c
  advance-next s = refl

  module _ (b₀ : Block) (end_ok : IsBlockEnd blocksize has_trailer ls.blockend b₀) where
    pub within : ls.blockend ≤ blocksize
    within = elim (Bool-cases has_trailer) [
      | inl t ↦ omega (arith, end_ok.trailed t)
      | inr f ↦ omega (arith, end_ok.plain f)
    ]

    is_skipped-inside : (o : ℕ) (d : Dirent) → o < ls.blockend → is_skipped c o d ≡ false
    unfolding is_skipped skip_dir_trailer c
    is_skipped-inside o d lt = elim (Bool-cases has_trailer) [
      | inl t ↦ ground (arith, end_ok.trailed t)
      | inr f ↦ ground arith
    ]

    visit-inside :
        (s : Scan LinkStruct)
        → s.offset < ls.blockend
        → s.priv ≡ ls
        → visit c link_proc s ≡ (after s (reply s), (reply s).abort)
    unfolding visit after reply which
    visit-inside s lt e = rw (is_skipped-inside s.offset (s.buf s.offset) lt) (rw e refl)

    pub process-more :
        (f : ℕ) (s : Scan LinkStruct)
        → s.offset < ls.blockend
        → IsPlaced ls.blockend s.offset (s.buf s.offset)
        → s.priv ≡ ls
        → (reply s).abort ≡ false
        → process_dir_entry c link_proc (suc f) s
          ≡ process_dir_entry c link_proc f (next (after s (reply s)))
    unfolding c
    process-more f s lt p e goes_on =
        let v = after s (reply s) in
        process_step c link_proc ls.blockend f s v (reply s).abort (omega arith) within lt p
          (visit-inside s lt e)
        ∙ ap
            (λ a.
              if a
              then some (finished v)
              else process_dir_entry c link_proc f (advance c link_proc v))
            goes_on
        ∙ ap (process_dir_entry c link_proc f) (advance-next v)

    pub process-stop :
        (f : ℕ) (s : Scan LinkStruct)
        → s.offset < ls.blockend
        → IsPlaced ls.blockend s.offset (s.buf s.offset)
        → s.priv ≡ ls
        → (reply s).abort ≡ true
        → process_dir_entry c link_proc (suc f) s ≡ some (finished (after s (reply s)))
    unfolding c
    process-stop f s lt p e stops =
        let v = after s (reply s) in
        process_step c link_proc ls.blockend f s v (reply s).abort (omega arith) within lt p
          (visit-inside s lt e)
        ∙ ap
            (λ a.
              if a
              then some (finished v)
              else process_dir_entry c link_proc f (advance c link_proc v))
            stops

    visit-trailer :
        (s : Scan LinkStruct)
        → has_trailer ≡ true
        → s.offset ≡ ls.blockend
        → visit c link_proc s ≡ (s, false)
    unfolding visit is_skipped skip_dir_trailer c
    visit-trailer s t at_end = ground (arith, end_ok.trailed t)

    -- Behind the entries the walk passes over the trailer, if there is one, and ends.
    pub process-tail :
        (f : ℕ) (s : Scan LinkStruct)
        → s.buf ≡ b₀
        → s.offset ≡ ls.blockend
        → (s' : Scan LinkStruct) × (process_dir_entry c link_proc (suc (suc f)) s
            ≡ some (finished s'))
          × (s'.buf ≡ s.buf)
          × (s'.priv ≡ s.priv)
    unfolding c next
    process-tail f s same at_end = elim (Bool-cases has_trailer) [
      | inl t ↦
          let placed : IsPlacedWith 8 blocksize s.offset (s.buf s.offset) =
            rw (same, at_end) (end_ok.trailer_placed t) in
          let len : (s.buf s.offset).rec_len ≡ 64 = rw (same, at_end) (end_ok.trailer_len t) in
          (
            next s,
            process_step c link_proc blocksize (suc f) s s false (omega arith) (omega arith)
                  (omega (arith, end_ok.trailed t)) placed (visit-trailer s t at_end)
                ∙ ap (process_dir_entry c link_proc (suc f)) (advance-next s)
                ∙ process_end c link_proc f (next s) (omega (arith, end_ok.trailed t)),
            refl,
            refl,
          )
      | inr none_there ↦ (
        s,
        process_end c link_proc (suc f) s (omega (arith, end_ok.plain none_there)),
        refl,
        refl,
      )
    ]
