-- ===== src/Dir/Walk.antt =====
-- One round of the loop of `ocfs2_process_dir_entry`, for any callback.
use debian_ocfs2_tools.Base.{ℕ, suc, ◌≤◌, ◌<◌, ◌≡◌, Bool, true, if◌then◌else◌, ltb, some, arith}
use debian_ocfs2_tools.Dir.{Context, Callback, Scan, finished, visit, advance, process_dir_entry}
use debian_ocfs2_tools.Dir.Chain.{IsPlacedWith, is_corrupt-IsPlaced}

module _ {S : Type 0} (c : Context) (func : Callback S) where
  -- The walk ends behind the block.
  pub process_end :
      (f : ℕ) (s : Scan S)
      → c.blocksize ≤ s.offset
      → process_dir_entry c func (suc f) s ≡ some (finished s)
  unfolding process_dir_entry
  process_end f s h = ground arith

  -- At an entry that is sound the callback is called, and the walk goes on if it says so.
  pub process_step :
      {header : ℕ} (end f : ℕ) (s v : Scan S) (stops : Bool)
      → 8 ≤ header
      → end ≤ c.blocksize
      → s.offset < end
      → IsPlacedWith header end s.offset (s.buf s.offset)
      → visit c func s ≡ (v, stops)
      → process_dir_entry c func (suc f) s
        ≡ (if stops then some (finished v) else process_dir_entry c func f (advance c func v))
  unfolding process_dir_entry
  process_step end f s v stops wide le lt p e =
      let sound = is_corrupt-IsPlaced end c.blocksize s.offset (s.buf s.offset) wide le p in
      let inside : ltb s.offset c.blocksize ≡ true = ground arith in rw (inside, sound, e)
