-- ===== src/Dir/Link/Call.antt =====
-- One call of `link_proc` at an entry of a well-formed block.
use debian_ocfs2_tools.Base.{ℕ, ◌+◌, ◌<◌, List, arith, Bool-cases, inl, inr, ◌⊎◌, ltb}
use debian_ocfs2_tools.Dir.{Block}
use debian_ocfs2_tools.Dir.Procs.{LinkStruct, absorb, link_proc}
use debian_ocfs2_tools.Dir.Chain.{Entry, Lists, stop, used, free}
use debian_ocfs2_tools.Dir.Link.{need, least, IsKept, IsDone}
use debian_ocfs2_tools.Dir.Link.Full.{used_full, free_full}
use debian_ocfs2_tools.Dir.Link.Split.{split_used}
use debian_ocfs2_tools.Dir.Link.Fill.{fill_free}
use debian_ocfs2_tools.Dir.Link.{IsRequest}

module _ (ls : LinkStruct) (ok_ls : IsRequest ls) where
  -- One call at an entry of a well-formed block.
  pub link_proc_lem :
      (w o : ℕ) (b : Block) (es : List Entry)
      → o < ls.blockend
      → Lists ls.blockend b o es
      → IsKept ls ok_ls o b es (link_proc w o b ls) ⊎ IsDone ls ok_ls o b es (link_proc w o b ls)
  link_proc_lem w o b es lt (stop e) = absurd (omega arith)
  link_proc_lem w o b es lt (used {es = rest_es} _ p ne rest) =
      elim (Bool-cases (ltb (absorb ls o b).rec_len (least ls ok_ls o b + (need ls ok_ls)))) [
        | inl full ↦ inl (used_full ls ok_ls w o b rest_es lt p ne rest (ground arith))
        | inr room ↦ inl (split_used ls ok_ls w o b rest_es lt p ne rest (ground arith))
      ]
  link_proc_lem w o b es lt (free _ p z rest) =
      elim (Bool-cases (ltb (absorb ls o b).rec_len (need ls ok_ls))) [
        | inl full ↦ inl (free_full ls ok_ls w o b es lt p z rest (ground arith))
        | inr room ↦ inr (fill_free ls ok_ls w o b es lt p z rest (ground arith))
      ]
