-- ===== src/Dir/LinkBlock.antt =====
-- What `ocfs2_link` does to one directory block.
use debian_ocfs2_tools.Base.{
  ℕ, zero, suc, ◌+◌, ◌≤◌, ◌<◌, ◌≡◌, ◌∙◌, refl, sym, ap, Bool, List, [], ◌∷◌, arith, inl, inr, ◌⊎◌,
  subst, some,
}
use debian_ocfs2_tools.Dir.{Block, Scan, Reply, finished, process_dir_entry}
use debian_ocfs2_tools.Dir.Procs.{LinkStruct, link_proc}
use debian_ocfs2_tools.Dir.Chain.{
  Entry, entry_of, IsPlaced, Lists, stop, used_as, free_as, Lists-cases, Lists-bounds, Lists-le,
}
use debian_ocfs2_tools.Dir.Link.{new_entry, IsRequest, Added, IsFramed, IsKept, IsDone}
use debian_ocfs2_tools.Dir.Link.Call.{link_proc_lem}
use debian_ocfs2_tools.Dir.LinkWalk.{
  IsBlockEnd, IsFull, link_context, full_end, full_at, c, which, after, next, reply, process-more,
  process-stop, process-tail, within,
}

module _ (ls : LinkStruct) (ok_ls : IsRequest ls) (blocksize : ℕ) (has_trailer : Bool) where
  -- The walk found no room: the block lists what it listed, and has no room from the offset on.
  pub record IsRefused (o : ℕ) (b : Block) (es : List Entry) (s' : Scan LinkStruct) : Type 0 where
    pub same_priv : s'.priv ≡ ls
    pub lists : Lists ls.blockend s'.buf o es
    pub full : IsFull ls ok_ls s'.buf o
    pub framed : IsFramed ls ok_ls o b s'.buf

  -- The walk added the entry: the block lists it with all that it listed, in the same order.
  pub record IsLinked (o : ℕ) (b : Block) (es : List Entry) (s' : Scan LinkStruct) : Type 0 where
    pub counted : s'.priv ≡ record ls { done = ls.done + 1 }
    pub entries : List Entry
    pub added : Added (new_entry ls) es entries
    pub lists : Lists ls.blockend s'.buf o entries
    pub framed : IsFramed ls ok_ls o b s'.buf

  IsFramed-trans :
      (o o' : ℕ) (b b' b'' : Block)
      → o ≤ o'
      → IsFramed ls ok_ls o b b'
      → IsFramed ls ok_ls o' b' b''
      → IsFramed ls ok_ls o b b''
  IsFramed-trans o o' b b' b'' le p q = record {
    below = λ j h. q.below j (omega arith) ∙ p.below j h;
    above = λ j h. q.above j h ∙ p.above j h;
  }

  pub IsBlockEnd-transfer :
      (b b' : Block)
      → b' ls.blockend ≡ b ls.blockend
      → IsBlockEnd blocksize has_trailer ls.blockend b
      → IsBlockEnd blocksize has_trailer ls.blockend b'
  IsBlockEnd-transfer b b' same h = record {
    plain = h.plain;
    trailed = h.trailed;
    trailer_placed = λ t. rw same (h.trailer_placed t);
    trailer_len = λ t. rw same (h.trailer_len t);
  }

  Added-cons : (e f : Entry) (old new : List Entry) → Added e old new → Added e (f ∷ old) (f ∷ new)
  Added-cons e f old new (before, after, p, q) =
      (f ∷ before, after, ap (λ l. f ∷ l) p, ap (λ l. f ∷ l) q)

  -- The entry at an offset taken off what a block lists, to be put back when the rest has changed.
  record Peeled (o : ℕ) (b : Block) (es : List Entry) : Type 0 where
    rest_entries : List Entry
    rest : Lists ls.blockend b (o + (b o).rec_len) rest_entries
    put : List Entry → List Entry
    whole : es ≡ put rest_entries
    rebuild :
        (b' : Block) (es' : List Entry)
        → b' o ≡ b o
        → Lists ls.blockend b' (o + (b o).rec_len) es'
        → Lists ls.blockend b' o (put es')
    put_added : (e : Entry) (old new : List Entry) → Added e old new → Added e (put old) (put new)

  peel :
      (o : ℕ) (b : Block) (es : List Entry)
      → o < ls.blockend
      → IsPlaced ls.blockend o (b o)
      → Lists ls.blockend b o es
      → Peeled o b es
  peel o b es lt placed lists = elim (Lists-cases ls.blockend b lt lists) [
    | inl u ↦ record {
      rest_entries = u.rest_entries;
      rest = u.rest;
      put = λ l. entry_of (b o) ∷ l;
      whole = u.split;
      rebuild =
          λ b' es' same later. used_as ls.blockend b' o es' (b o) same lt placed u.in_use later;
      put_added = λ e old new. Added-cons e (entry_of (b o)) old new;
    }
    | inr f ↦ record {
      rest_entries = es;
      rest = f.rest;
      put = λ l. l;
      whole = refl;
      rebuild =
          λ b' es' same later. free_as ls.blockend b' o es' (b o) same lt placed f.not_in_use later;
      put_added = λ e old new h. h;
    }
  ]

  module _ (o : ℕ) (b : Block) (es : List Entry) (r : Reply LinkStruct) (s' : Scan LinkStruct)
      (lt : o < ls.blockend) (kept : IsKept ls ok_ls o b es r) (peeled : Peeled o r.buf es) where
    -- An entry that the call kept, in front of a walk that found no room.
    IsRefused-cons :
        IsRefused (o + (r.buf o).rec_len) r.buf peeled.rest_entries s' → IsRefused o b es s'
    IsRefused-cons t =
        let same : s'.buf o ≡ r.buf o = t.framed.below o (omega (arith, kept.placed.minimum)) in
        record {
          same_priv = t.same_priv;
          lists =
              subst (λ l. Lists ls.blockend s'.buf o l) (sym peeled.whole)
                (peeled.rebuild s'.buf peeled.rest_entries same t.lists);
          full = full_at lt (rw same kept.no_room) (rw same t.full);
          framed = IsFramed-trans o _ b r.buf s'.buf (omega arith) kept.framed t.framed;
        }

    -- The same, in front of a walk that added the entry.
    IsLinked-cons :
        IsLinked (o + (r.buf o).rec_len) r.buf peeled.rest_entries s' → IsLinked o b es s'
    IsLinked-cons t =
        let same : s'.buf o ≡ r.buf o = t.framed.below o (omega (arith, kept.placed.minimum)) in
        record {
          counted = t.counted;
          entries = peeled.put t.entries;
          added =
              subst (λ l. Added (new_entry ls) l (peeled.put t.entries)) (sym peeled.whole)
                (peeled.put_added (new_entry ls) peeled.rest_entries t.entries t.added);
          lists = peeled.rebuild s'.buf t.entries same t.lists;
          framed = IsFramed-trans o _ b r.buf s'.buf (omega arith) kept.framed t.framed;
        }

  -- Where the walk of a block ends: it has enough fuel, finds no corrupt entry, and refuses the
  -- entry or adds it.
  abbrev pub Walked : ℕ → Scan LinkStruct → List Entry → Type 0
  Walked f s es =
      (s' : Scan LinkStruct) × (process_dir_entry (c ls ok_ls blocksize has_trailer) link_proc f s
        ≡ some (finished s'))
      × (IsRefused s.offset s.buf es s' ⊎ IsLinked s.offset s.buf es s')

  -- The walk from an offset, whose call kept the entry there.
  walk_kept :
      (f : ℕ) (s : Scan LinkStruct) (es : List Entry)
      → s.offset < ls.blockend
      → IsPlaced ls.blockend s.offset (s.buf s.offset)
      → s.priv ≡ ls
      → IsBlockEnd blocksize has_trailer ls.blockend s.buf
      → (kept : IsKept ls ok_ls s.offset s.buf es (reply ls ok_ls blocksize has_trailer s))
      → ((es' : List Entry)
          → Lists ls.blockend
              (reply ls ok_ls blocksize has_trailer s).buf
              (s.offset + ((reply ls ok_ls blocksize has_trailer s).buf s.offset).rec_len)
              es'
          → Walked f
              (next ls ok_ls blocksize has_trailer
                (after ls ok_ls blocksize has_trailer s (reply ls ok_ls blocksize has_trailer s)))
              es')
      → Walked (suc f) s es
  unfolding after next
  walk_kept f s es lt placed e end_ok kept later =
      let r = reply ls ok_ls blocksize has_trailer s in
      let peeled = peel s.offset r.buf es lt kept.placed kept.lists in
      let (s', runs, outcome) = later peeled.rest_entries peeled.rest in
      (
        s',
        process-more ls ok_ls blocksize has_trailer s.buf end_ok f s lt placed e kept.goes_on
            ∙ runs,
        elim outcome [
          | inl t ↦ inl (IsRefused-cons s.offset s.buf es r s' lt kept peeled t)
          | inr t ↦ inr (IsLinked-cons s.offset s.buf es r s' lt kept peeled t)
        ],
      )

  walk_done :
      (f : ℕ) (s : Scan LinkStruct) (es : List Entry)
      → s.offset < ls.blockend
      → IsPlaced ls.blockend s.offset (s.buf s.offset)
      → s.priv ≡ ls
      → IsBlockEnd blocksize has_trailer ls.blockend s.buf
      → IsDone ls ok_ls s.offset s.buf es (reply ls ok_ls blocksize has_trailer s)
      → Walked (suc f) s es
  unfolding after
  walk_done f s es lt placed e end_ok done =
      let r = reply ls ok_ls blocksize has_trailer s in
      (
        after ls ok_ls blocksize has_trailer s r,
        process-stop ls ok_ls blocksize has_trailer s.buf end_ok f s lt placed e done.stops,
        inr (record {
          counted = done.counted;
          entries = new_entry ls ∷ es;
          added = ([], es, refl, refl);
          lists = done.lists;
          framed = done.framed;
        }),
      )

  walk_tail :
      (f : ℕ) (s : Scan LinkStruct)
      → s.offset ≡ ls.blockend
      → s.priv ≡ ls
      → IsBlockEnd blocksize has_trailer ls.blockend s.buf
      → Walked (suc (suc f)) s []
  walk_tail f s at_end e end_ok =
      let (s', runs, same, same_priv) =
        process-tail ls ok_ls blocksize has_trailer s.buf end_ok f s refl at_end in
      (
        s',
        runs,
        inl (record {
          same_priv = same_priv ∙ e;
          lists = stop at_end;
          full = full_end at_end;
          framed = record { below = λ j h. ap (λ b. b j) same; above = λ j h. ap (λ b. b j) same };
        }),
      )

  walk :
      (f : ℕ) (s : Scan LinkStruct) (es : List Entry)
      → blocksize + 1 < s.offset + f
      → s.priv ≡ ls
      → IsBlockEnd blocksize has_trailer ls.blockend s.buf
      → Lists ls.blockend s.buf s.offset es
      → Walked f s es
  unfolding after next reply
  walk zero s es fuel e end_ok lists = absurd (
      omega (
        arith,
        Lists-le ls.blockend s.buf lists,
        within ls ok_ls blocksize has_trailer s.buf end_ok,
      ))
  walk (suc zero) s es fuel e end_ok lists = absurd (
      omega (
        arith,
        Lists-le ls.blockend s.buf lists,
        within ls ok_ls blocksize has_trailer s.buf end_ok,
      ))
  walk (suc (suc f)) s es fuel e end_ok lists = elim (Lists-bounds ls.blockend s.buf lists) [
    | inl (lt, placed) ↦
        elim (link_proc_lem ls ok_ls (which ls ok_ls blocksize has_trailer s) s.offset s.buf es lt
          lists) [
            | inl kept ↦ walk_kept (suc f) s es lt placed e end_ok kept (λ es'.
                walk (suc f)
                  (next ls ok_ls blocksize has_trailer (
                    after ls ok_ls blocksize has_trailer s
                      (reply ls ok_ls blocksize has_trailer s)))
                  es' (omega (arith, kept.placed.minimum)) kept.same_priv
                  (IsBlockEnd-transfer s.buf (reply ls ok_ls blocksize has_trailer s).buf
                    (kept.framed.above ls.blockend (omega arith)) end_ok))
            | inr done ↦ walk_done (suc f) s es lt placed e end_ok done
          ]
    | inr (at_end, nothing) ↦ rw nothing (walk_tail f s at_end e end_ok)
  ]

-- The state in which `ocfs2_process_dir_block` starts the walk of a block.
abbrev pub start : {S : Type 0} → ℕ → Block → S → Scan S
start entry b priv = record {
  offset = 0;
  entry = entry;
  next_real_entry = 0;
  changed = 0;
  do_abort = 0;
  buf = b;
  priv = priv;
}

-- The walk of a well-formed block, with or without a trailer, ends, finds no corrupt entry, and either
-- adds the new entry once among the entries that the block listed, which it still lists in their
-- order, or leaves a block that lists the same entries and in which no entry has room for the name.
-- It writes nothing behind the entries, and the trailer stays as it is.
pub link_block :
    (ls : LinkStruct) (ok_ls : IsRequest ls) (blocksize : ℕ) (has_trailer : Bool) (entry : ℕ)
    (b : Block) (es : List Entry)
    → IsBlockEnd blocksize has_trailer ls.blockend b
    → Lists ls.blockend b 0 es
    → (s' : Scan LinkStruct) × (process_dir_entry
          (link_context blocksize has_trailer)
          link_proc
          (blocksize + 2)
          (start entry b ls)
        ≡ some (finished s'))
      × (IsRefused ls ok_ls blocksize has_trailer 0 b es s'
          ⊎ IsLinked ls ok_ls blocksize has_trailer 0 b es s')
unfolding c
link_block ls ok_ls blocksize has_trailer entry b es end_ok lists =
    walk ls ok_ls blocksize has_trailer (blocksize + 2) (start entry b ls) es (omega arith) refl
      end_ok lists
