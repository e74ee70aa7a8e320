-- ===== src/Dir/First/Search.antt =====
-- The walk as a whole: it misses all entries, or hits the first one that matches.
use debian_ocfs2_tools.Base.{
  ◌≤◌, ℕ, zero, suc, ◌+◌, ◌<◌, ◌≡◌, ◌≢◌, ◌∙◌, refl, sym, ap, Bool, true, false, List, [], ◌∷◌,
  arith, Bool-cases, inl, inr, ◌⊎◌, some,
}
use debian_ocfs2_tools.Dir.{Block, Callback, Scan, finished, process_dir_entry}
use debian_ocfs2_tools.Dir.Chain.{
  Entry, entry_of, IsPlacedWith, ListsWith, stop, used, free, used_as, free_as, Lists-le,
  Lists-agree,
}
use debian_ocfs2_tools.Dir.LinkWalk.{IsBlockEnd}
use debian_ocfs2_tools.Dir.First.{
  IsMissed, IsHit, next, which, reply, called, quiet, within, process-free, process-miss,
  process-hit, process-tail, c,
}

module _ {S : Type 0} (func : Callback S) (matches : Entry → Bool) (p₀ : S)
    (misses : (w o : ℕ) (b : Block)
      → matches (entry_of (b o)) ≡ false
      → func w o b p₀ ≡ record { buf = b; priv = p₀; changed = false; abort = false })
    (hits : (w o : ℕ) (b : Block) → matches (entry_of (b o)) ≡ true → (func w o b p₀).abort ≡ true)
    (blocksize : ℕ) (has_trailer : Bool) (blockend header : ℕ) (wide : 8 ≤ header) where
  -- Where the walk of a block ends.
  abbrev pub Searched : ℕ → Scan S → List Entry → Type 0
  Searched f s es =
      (s' : Scan S) × (process_dir_entry
          (c func matches p₀ misses hits blocksize has_trailer blockend header wide) func f s
        ≡ some (finished s'))
      × (IsMissed func matches p₀ misses hits blocksize has_trailer blockend header wide s.buf
            s.priv es s'
          ⊎ IsHit func matches p₀ misses hits blocksize has_trailer blockend header wide s.offset
              s.buf s.priv es s')

  IsHit-here :
      (s : Scan S) (es : List Entry)
      → s.offset < blockend
      → IsPlacedWith header blockend s.offset (s.buf s.offset)
      → matches (entry_of (s.buf s.offset)) ≡ true
      → ListsWith header blockend s.buf (s.offset + (s.buf s.offset).rec_len) es
      → IsHit func matches p₀ misses hits blocksize has_trailer blockend header wide s.offset s.buf
          s.priv
          (entry_of (s.buf s.offset) ∷ es)
          (called func matches p₀ misses hits blocksize has_trailer blockend header wide s
            (reply func matches p₀ misses hits blocksize has_trailer blockend header wide s))
  unfolding called reply
  IsHit-here s es lt p hit rest = record {
    place = s.offset;
    role = which func matches p₀ misses hits blocksize has_trailer blockend header wide s;
    before = [];
    after = es;
    split = refl;
    none_before = tt;
    match_here = hit;
    acted_buf = refl;
    acted_priv = refl;
    not_below = omega arith;
    in_block = lt;
    without = λ b' others here.
        free_as blockend b' s.offset es (record (s.buf s.offset) { inode = 0 }) here lt
          (record { inside = p.inside; minimum = p.minimum; aligned = p.aligned; fits = p.fits })
          refl (Lists-agree blockend s.buf b' (λ j h. sym (others j (omega arith))) rest);
  }

  -- A hit behind an entry that is free, and behind one that does not match.
  IsHit-after_free :
      (o : ℕ) (b : Block) (p : S) (es : List Entry) (s' : Scan S)
      → o < blockend
      → IsPlacedWith header blockend o (b o)
      → (b o).inode ≡ 0
      → IsHit func matches p₀ misses hits blocksize has_trailer blockend header wide
          (o + (b o).rec_len)
          b
          p
          es
          s'
      → IsHit func matches p₀ misses hits blocksize has_trailer blockend header wide o b p es s'
  IsHit-after_free o b p es s' lt placed z h = record {
    place = h.place;
    role = h.role;
    before = h.before;
    after = h.after;
    split = h.split;
    none_before = h.none_before;
    match_here = h.match_here;
    acted_buf = h.acted_buf;
    acted_priv = h.acted_priv;
    not_below = omega (arith, h.not_below);
    in_block = h.in_block;
    without = λ b' others here.
        free_as blockend b' o _ (b o) (others o (omega (arith, placed.minimum))) lt placed z
          (h.without b' others here);
  }

  IsHit-after_used :
      (o : ℕ) (b : Block) (p : S) (es : List Entry) (s' : Scan S)
      → o < blockend
      → IsPlacedWith header blockend o (b o)
      → (b o).inode ≢ 0
      → matches (entry_of (b o)) ≡ false
      → IsHit func matches p₀ misses hits blocksize has_trailer blockend header wide
          (o + (b o).rec_len)
          b
          p
          es
          s'
      → IsHit func matches p₀ misses hits blocksize has_trailer blockend header wide o b p
          (entry_of (b o) ∷ es)
          s'
  IsHit-after_used o b p es s' lt placed ne miss h = record {
    place = h.place;
    role = h.role;
    before = entry_of (b o) ∷ h.before;
    after = h.after;
    split = ap (λ l. entry_of (b o) ∷ l) h.split;
    none_before = (miss, h.none_before);
    match_here = h.match_here;
    acted_buf = h.acted_buf;
    acted_priv = h.acted_priv;
    not_below = omega (arith, h.not_below);
    in_block = h.in_block;
    without = λ b' others here.
        used_as blockend b' o _ (b o) (others o (omega (arith, placed.minimum))) lt placed ne
          (h.without b' others here);
  }

  pub search_block :
      (f : ℕ) (s : Scan S) (es : List Entry)
      → blocksize + 1 < s.offset + f
      → s.priv ≡ p₀
      → IsBlockEnd blocksize has_trailer blockend s.buf
      → ListsWith header blockend s.buf s.offset es
      → Searched f s es
  unfolding next called quiet
  search_block zero s es fuel e end_ok lists = absurd (
      omega (
        arith,
        Lists-le blockend s.buf lists,
        within func matches p₀ misses hits blocksize has_trailer blockend header wide s.buf end_ok,
      ))
  search_block (suc zero) s es fuel e end_ok lists = absurd (
      omega (
        arith,
        Lists-le blockend s.buf lists,
        within func matches p₀ misses hits blocksize has_trailer blockend header wide s.buf end_ok,
      ))
  search_block (suc (suc f)) s es fuel e end_ok (stop at_end) =
      let (s', runs, same_buf, same_priv) =
        process-tail func matches p₀ misses hits blocksize has_trailer blockend header wide s.buf
          end_ok f s refl at_end in
      (s', runs, inl (record { none_match = tt; same_buf = same_buf; same_priv = same_priv }))
  search_block (suc (suc f)) s es fuel e end_ok (free lt p z rest) =
      let (s', runs, outcome) =
        search_block (suc f)
          (next func matches p₀ misses hits blocksize has_trailer blockend header wide s) es
          (omega (arith, p.minimum)) e end_ok rest in
      (
        s',
        process-free func matches p₀ misses hits blocksize has_trailer blockend header wide s.buf
              end_ok (suc f) s lt p z
            ∙ runs,
        elim outcome [
          | inl m ↦
              inl (record {
                none_match = m.none_match;
                same_buf = m.same_buf;
                same_priv = m.same_priv;
              })
          | inr h ↦ inr (IsHit-after_free s.offset s.buf s.priv es s' lt p z h)
        ],
      )
  search_block (suc (suc f)) s es fuel e end_ok (used {es = tail} lt p ne rest) =
      elim (Bool-cases (matches (entry_of (s.buf s.offset)))) [
        | inl hit ↦ (
          called func matches p₀ misses hits blocksize has_trailer blockend header wide s
              (reply func matches p₀ misses hits blocksize has_trailer blockend header wide s),
          process-hit func matches p₀ misses hits blocksize has_trailer blockend header wide s.buf
              end_ok (suc f) s lt p ne e hit,
          inr (IsHit-here s tail lt p hit rest),
        )
        | inr miss ↦
            let (s', runs, outcome) =
              search_block (suc f)
                (next func matches p₀ misses hits blocksize has_trailer blockend header wide (
                  called func matches p₀ misses hits blocksize has_trailer blockend header wide s (
                    quiet func matches p₀ misses hits blocksize has_trailer blockend header wide
                      s)))
                tail (omega (arith, p.minimum)) e end_ok rest in
            (
              s',
              process-miss func matches p₀ misses hits blocksize has_trailer blockend header wide
                    s.buf end_ok (suc f) s lt p ne e miss
                  ∙ runs,
              elim outcome [
                | inl m ↦ inl (record {
                  none_match = (miss, m.none_match);
                  same_buf = m.same_buf;
                  same_priv = m.same_priv;
                })
                | inr h ↦ inr (IsHit-after_used s.offset s.buf s.priv tail s' lt p ne miss h)
              ],
            )
      ]
