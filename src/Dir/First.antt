-- ===== src/Dir/First.antt =====
-- Walks that act on the first entry in use that matches, as those of `ocfs2_unlink` and
-- `ocfs2_lookup` do: with no flags, over a well-formed block.
pub mod Search
use debian_ocfs2_tools.Base.{
  ℕ, zero, suc, ◌+◌, ◌≤◌, ◌<◌, ◌≡◌, ◌≢◌, ◌∙◌, refl, sym, ap, Bool, true, false, ◌==◌, List, [], ◌∷◌,
  ◌++◌, arith, Bool-cases, inl, inr, ◌⊎◌, if◌then◌else◌, ltb, some, All,
}
use debian_ocfs2_tools.Dir.{
  Block, Context, Callback, Scan, Reply, finished, skip_dir_trailer, is_skipped, visit, advance,
  process_dir_entry,
}
use debian_ocfs2_tools.Dir.Walk.{process_end, process_step}
use debian_ocfs2_tools.Dir.Chain.{
  Entry, entry_of, IsPlacedWith, ListsWith, stop, used, free, used_as, free_as, Lists-le,
  Lists-agree,
}
use debian_ocfs2_tools.Dir.LinkWalk.{IsBlockEnd}

-- No flags.
abbrev pub plain_context : ℕ → Bool → Context
plain_context blocksize has_trailer = record {
  blocksize = blocksize;
  has_trailer = has_trailer;
  include_empty = false;
  include_removed = false;
  exclude_dots = false;
  include_trailer = false;
}

module _ {S : Type 0} (func : Callback S) (matches : Entry → Bool) (p₀ : S)
    (misses : (w o : ℕ) (b : Block)
      → matches (entry_of (b o)) ≡ false
      → func w o b p₀ ≡ record { buf = b; priv = p₀; changed = false; abort = false })
    (hits : (w o : ℕ) (b : Block) → matches (entry_of (b o)) ≡ true → (func w o b p₀).abort ≡ true)
    (blocksize : ℕ) (has_trailer : Bool) (blockend header : ℕ) (wide : 8 ≤ header) where
  -- No entry that is listed matches, and nothing has changed.
  pub record IsMissed (b : Block) (p : S) (es : List Entry) (s' : Scan S) : Type 0 where
    pub none_match : All (λ e. matches e ≡ false) es
    pub same_buf : s'.buf ≡ b
    pub same_priv : s'.priv ≡ p

  -- The callback has acted on the first entry that matches, which stands at offset `place`.
  pub record IsHit (o : ℕ) (b : Block) (p : S) (es : List Entry) (s' : Scan S) : Type 0 where
    pub place : ℕ
    pub role : ℕ
    pub before : List Entry
    pub after : List Entry
    pub split : es ≡ before ++ (entry_of (b place) ∷ after)
    pub none_before : All (λ e. matches e ≡ false) before
    pub match_here : matches (entry_of (b place)) ≡ true
    pub acted_buf : s'.buf ≡ (func role place b p).buf
    pub acted_priv : s'.priv ≡ (func role place b p).priv
    pub not_below : o ≤ place
    pub in_block : place < blockend
    pub without :
        (b' : Block)
        → ((j : ℕ) → j ≢ place → b' j ≡ b j)
        → b' place ≡ record (b place) { inode = 0 }
        → ListsWith header blockend b' o (before ++ after)

  unfoldable pub c : Context
  c = plain_context blocksize has_trailer

  unfoldable pub next : Scan S → Scan S
  next s = record s {
    next_real_entry =
        if s.next_real_entry == s.offset
        then s.next_real_entry + (s.buf s.offset).rec_len
        else s.next_real_entry;
    offset = s.offset + (s.buf s.offset).rec_len;
  }

  advance-next : (s : Scan S) → advance c func s ≡ next s
  unfolding advance next c
  advance-next s = refl

  unfoldable pub which : Scan S → ℕ
  which s = if ltb s.offset s.next_real_entry then 4 else s.entry

  unfoldable pub reply : Scan S → Reply S
  reply s = func (which s) s.offset s.buf s.priv

  unfoldable pub called : Scan S → Reply S → Scan S
  called s r = record s {
    entry = if ltb s.entry 3 then s.entry + 1 else s.entry;
    changed = if r.changed then s.changed + 1 else s.changed;
    do_abort = if r.abort then s.do_abort + 1 else s.do_abort;
    buf = r.buf;
    priv = r.priv;
  }

  unfoldable pub quiet : Scan S → Reply S
  quiet s = record { buf = s.buf; priv = s.priv; changed = false; abort = false }

  module _ (b₀ : Block) (end_ok : IsBlockEnd blocksize has_trailer blockend b₀) where
    pub within : blockend ≤ blocksize
    within = elim (Bool-cases has_trailer) [
      | inl t ↦ omega (arith, end_ok.trailed t)
      | inr f ↦ omega (arith, end_ok.plain f)
    ]

    visit-free : (s : Scan S) → (s.buf s.offset).inode ≡ 0 → visit c func s ≡ (s, false)
    unfolding visit is_skipped skip_dir_trailer c
    visit-free s z = ground arith

    visit-used :
        (s : Scan S)
        → s.offset < blockend
        → (s.buf s.offset).inode ≢ 0
        → visit c func s ≡ (called s (reply s), (reply s).abort)
    unfolding visit is_skipped skip_dir_trailer c called which reply
    visit-used s lt ne = elim (Bool-cases has_trailer) [
      | inl t ↦ ground (arith, end_ok.trailed t)
      | inr f ↦ ground arith
    ]

    pub process-free :
        (f : ℕ) (s : Scan S)
        → s.offset < blockend
        → IsPlacedWith header blockend s.offset (s.buf s.offset)
        → (s.buf s.offset).inode ≡ 0
        → process_dir_entry c func (suc f) s ≡ process_dir_entry c func f (next s)
    unfolding c
    process-free f s lt p z =
        process_step c func blockend f s s false wide within lt p (visit-free s z)
        ∙ ap (process_dir_entry c func f) (advance-next s)

    pub process-miss :
        (f : ℕ) (s : Scan S)
        → s.offset < blockend
        → IsPlacedWith header blockend s.offset (s.buf s.offset)
        → (s.buf s.offset).inode ≢ 0
        → s.priv ≡ p₀
        → matches (entry_of (s.buf s.offset)) ≡ false
        → process_dir_entry c func (suc f) s
          ≡ process_dir_entry c func f (next (called s (quiet s)))
    unfolding c which
    process-miss f s lt p ne e miss =
        let silent : reply s ≡ quiet s =
          unfold reply quiet in rw e (misses (which s) s.offset s.buf miss) in
        let seen : visit c func s ≡ (called s (quiet s), (quiet s).abort) =
          visit-used s lt ne ∙ ap (λ r. (called s r, r.abort)) silent in
        unfold quiet in
        process_step c func blockend f s (called s (quiet s)) false wide within lt p seen
        ∙ ap (process_dir_entry c func f) (advance-next (called s (quiet s)))

    pub process-hit :
        (f : ℕ) (s : Scan S)
        → s.offset < blockend
        → IsPlacedWith header blockend s.offset (s.buf s.offset)
        → (s.buf s.offset).inode ≢ 0
        → s.priv ≡ p₀
        → matches (entry_of (s.buf s.offset)) ≡ true
        → process_dir_entry c func (suc f) s ≡ some (finished (called s (reply s)))
    unfolding c which
    process-hit f s lt p ne e hit =
        let stops : (reply s).abort ≡ true =
          unfold reply in rw e (hits (which s) s.offset s.buf hit) in
        process_step c func blockend f s (called s (reply s)) (reply s).abort wide within lt p
          (visit-used s lt ne)
        ∙ ap
            (λ a.
              if a
              then some (finished (called s (reply s)))
              else process_dir_entry c func f (advance c func (called s (reply s))))
            stops

    visit-trailer :
        (s : Scan S) → has_trailer ≡ true → s.offset ≡ blockend → visit c func s ≡ (s, false)
    unfolding visit is_skipped skip_dir_trailer c
    visit-trailer s t at_end = ground (arith, end_ok.trailed t)

    -- Behind the entries the walk passes over the trailer, if there is one, and ends.
    pub process-tail :
        (f : ℕ) (s : Scan S)
        → s.buf ≡ b₀
        → s.offset ≡ blockend
        → (s' : Scan S) × (process_dir_entry c func (suc (suc f)) s ≡ some (finished s'))
          × (s'.buf ≡ s.buf)
          × (s'.priv ≡ s.priv)
    unfolding c next
    process-tail f s same at_end = elim (Bool-cases has_trailer) [
      | inl t ↦
          let placed : IsPlacedWith 8 blocksize s.offset (s.buf s.offset) =
            rw (same, at_end) (end_ok.trailer_placed t) in
          let len : (s.buf s.offset).rec_len ≡ 64 = rw (same, at_end) (end_ok.trailer_len t) in
          (
            next s,
            process_step c func blocksize (suc f) s s false (omega arith) (omega arith)
                  (omega (arith, end_ok.trailed t)) placed (visit-trailer s t at_end)
                ∙ ap (process_dir_entry c func (suc f)) (advance-next s)
                ∙ process_end c func f (next s) (omega (arith, end_ok.trailed t)),
            refl,
            refl,
          )
      | inr none_there ↦
          (s, process_end c func (suc f) s (omega (arith, end_ok.plain none_there)), refl, refl)
    ]
