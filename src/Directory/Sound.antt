-- ===== src/Directory/Sound.antt =====
-- A well-formed block passes the checks of `ocfs2_read_dir_block` and `ocfs2_write_dir_block`.
use debian_ocfs2_tools.Base.{
  ℕ, zero, suc, ◌+◌, ◌%◌, ◌≡◌, ◌∙◌, refl, sym, ap, Bool, true, false, ◌==◌, ◌||◌, not, ltb,
  if◌then◌else◌, if_true, if_false, Bool-cases, inl, inr, arith, List, none, le→ltb_false,
}
use debian_ocfs2_tools.Dir.{Block, name_bytes}
use debian_ocfs2_tools.Dir.Chain.{Entry, IsPlaced, Lists, stop, used, free}
use debian_ocfs2_tools.Dir.LinkWalk.{IsBlockEnd}
use debian_ocfs2_tools.Directory.{Io, dir_end, swap_dir_entries, read_dir_block, write_dir_block}

dir_end-IsBlockEnd :
    (blocksize : ℕ) (has_trailer : Bool) (blockend : ℕ) (b : Block)
    → IsBlockEnd blocksize has_trailer blockend b
    → dir_end blocksize has_trailer ≡ blockend
unfolding dir_end
dir_end-IsBlockEnd blocksize has_trailer blockend b end_ok = elim (Bool-cases has_trailer) [
  | inl t ↦ if_true _ _ t ∙ omega (arith, end_ok.trailed t)
  | inr f ↦ if_false _ _ f ∙ sym (end_ok.plain f)
]

swap_step :
    (fuel : ℕ) (b : Block) (p end : ℕ)
    → IsPlaced end p (b p)
    → swap_dir_entries fuel b (p + (b p).rec_len) end ≡ true
    → swap_dir_entries (suc fuel) b p end ≡ true
unfolding swap_dir_entries
swap_step fuel b p end placed rest =
    let sound : (ltb (b p).rec_len 12 || not ((b p).rec_len % 4 == 0)) ≡ false =
      ground (arith, placed.minimum, placed.aligned) in
    let fits : ltb (b p).rec_len (name_bytes (b p) + 12) ≡ false = le→ltb_false _ _ placed.fits in
    rw sound (rw fits (rw rest (either (ltb (p + 12) end))))
  where
    either : (t : Bool) → (if t then true else true) ≡ true
    either true = refl
    either false = refl

swap_dir_entries-Lists :
    (fuel : ℕ) (b : Block) {p : ℕ} (end : ℕ) {es : List Entry}
    → Lists end b p es
    → swap_dir_entries fuel b p end ≡ true
unfolding swap_dir_entries
swap_dir_entries-Lists zero b end lists = refl
swap_dir_entries-Lists (suc fuel) b {p = p} end (stop e) =
    let behind : ltb (p + 12) end ≡ false = le→ltb_false _ _ (omega arith) in if_false _ _ behind
swap_dir_entries-Lists (suc fuel) b {p = p} end (used lt placed ne rest) =
    swap_step fuel b p end placed (swap_dir_entries-Lists fuel b end rest)
swap_dir_entries-Lists (suc fuel) b {p = p} end (free lt placed z rest) =
    swap_step fuel b p end placed (swap_dir_entries-Lists fuel b end rest)

-- The check of a block.
abbrev pub is_sound : ℕ → Block → Bool
unfolding swap_dir_entries
is_sound end b = swap_dir_entries end b 0 end

pub is_sound-at : (end : ℕ) (b : Block) (es : List Entry) → Lists end b 0 es → is_sound end b ≡ true
unfolding is_sound
is_sound-at end b es lists = swap_dir_entries-Lists end b end lists

pub is_sound-Lists :
    (blocksize : ℕ) (has_trailer : Bool) (blockend : ℕ) (b₀ b : Block) (es : List Entry)
    → IsBlockEnd blocksize has_trailer blockend b₀
    → Lists blockend b 0 es
    → is_sound (dir_end blocksize has_trailer) b ≡ true
unfolding is_sound
is_sound-Lists blocksize has_trailer blockend b₀ b es end_ok lists =
    ap (λ e. swap_dir_entries e b 0 e) (dir_end-IsBlockEnd blocksize has_trailer blockend b₀ end_ok)
    ∙ swap_dir_entries-Lists blockend b blockend lists

pub read_dir_block_sound :
    (io : Io) (end k : ℕ) (b : Block)
    → io.read_block k ≡ none
    → is_sound end b ≡ true
    → read_dir_block io end k b ≡ none
unfolding read_dir_block is_sound
read_dir_block_sound io end k b reads sound = rw (read_dir_block, reads) (if_true _ _ sound)

pub write_dir_block_sound :
    (io : Io) (end k : ℕ) (b : Block)
    → io.write_block k ≡ none
    → is_sound end b ≡ true
    → write_dir_block io end k b ≡ none
unfolding write_dir_block is_sound
write_dir_block_sound io end k b writes sound = if_true _ _ sound ∙ writes
