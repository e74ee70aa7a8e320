-- ===== src/Directory/Stored.antt =====
-- What `ocfs2_process_dir_block` leaves on the device: the block as the walk left it, although it
-- is written only if the callback has said that it changed something.
use debian_ocfs2_tools.Base.{
  ℕ, zero, suc, ◌+◌, ◌*◌, ◌≤◌, ◌≡◌, ◌≢◌, ◌∙◌, refl, sym, ap, Bool, true, false, ◌==◌, not, ltb,
  ◌&&◌, ◌/◌, arith, Bool-cases, ==_iff, inl, inr, if◌then◌else◌, if_true, if_false, subst, Option,
  none, some, List,
}
use mathlib.Core.Option.{none-ne-some, some-injective}
use debian_ocfs2_tools.Dir.{
  Block, Context, Callback, Scan, finished, corrupted, visit, advance, is_corrupt, is_skipped,
  name_bytes, process_dir_entry,
}
use debian_ocfs2_tools.Dir.LinkBlock.{start}
use debian_ocfs2_tools.Directory.{
  Io, BlockDone, write_back, process_dir_block, iterate_blocks, dir_iterate, dir_end,
}
use debian_ocfs2_tools.Directory.Sound.{is_sound, read_dir_block_sound, write_dir_block_sound}

-- The device and the allocator answer without an error.
pub record IsWorking (io : Io) : Type 0 where
  pub inode_read : io.read_inode ≡ none
  pub block_read : (k : ℕ) → io.read_block k ≡ none
  pub block_written : (k : ℕ) → io.write_block k ≡ none

pub dir_iterate-read :
    {S : Type 0} (io : Io) (c : Context) (func : Callback S) (bs : List Block) (p : S)
    → IsWorking io
    → dir_iterate io c func bs p ≡ iterate_blocks io c func 0 bs p
unfolding dir_iterate
dir_iterate-read io c func bs p working = rw working.inode_read refl

module _ {S : Type 0} (count : S → ℕ) where
  -- A callback that tells the truth: it says so when it changed the buffer, and it asks to stop when
  -- it has counted.
  pub record IsHonest (func : Callback S) : Type 0 where
    pub told :
        (w o : ℕ) (b : Block) (p : S) → (func w o b p).changed ≡ false → (func w o b p).buf ≡ b
    pub counted :
        (w o : ℕ) (b : Block) (p : S)
        → count (func w o b p).priv ≡ (if (func w o b p).abort then count p + 1 else count p)

  -- What has happened since a state.
  pub record IsSince (s s' : Scan S) : Type 0 where
    pub more : s.changed ≤ s'.changed
    pub same : s'.changed ≡ s.changed → s'.buf ≡ s.buf
    pub stops : count s'.priv + s.do_abort ≡ count s.priv + s'.do_abort

  IsSince-trans : (s t u : Scan S) → IsSince s t → IsSince t u → IsSince s u
  IsSince-trans s t u p q = record {
    more = omega (arith, p.more, q.more);
    same = λ e. q.same (omega (arith, p.more, q.more)) ∙ p.same (omega (arith, p.more, q.more));
    stops = omega (arith, p.stops, q.stops);
  }

  module _ (c : Context) (func : Callback S) (honest : IsHonest func) where
    visit-IsSince : (s : Scan S) → IsSince s (visit c func s).0
    unfolding visit
    visit-IsSince s = elim (Bool-cases (is_skipped c s.offset (s.buf s.offset))) [
      | inl skipped ↦ rw skipped (record { more = omega arith; same = λ e. refl; stops = refl })
      | inr seen ↦
          let which = if ltb s.offset s.next_real_entry then 4 else s.entry in
          let r = func which s.offset s.buf s.priv in
          let told = honest.told which s.offset s.buf s.priv in
          let counted = honest.counted which s.offset s.buf s.priv in
          rw seen (record {
            more = ground arith;
            same = λ e. elim (Bool-cases r.changed) [
              | inl changed ↦ absurd (ground arith)
              | inr unchanged ↦ told unchanged
            ];
            stops = ground arith;
          })
    ]

    IsSince-either :
        (s t u : Scan S) (b : Bool) → IsSince s t → IsSince s u → IsSince s (if b then t else u)
    IsSince-either s t u true p q = p
    IsSince-either s t u false p q = q

    IsSince-moved :
        (s : Scan S) (o r : ℕ) → IsSince s (record s { next_real_entry = r; offset = o })
    IsSince-moved s o r = record { more = omega arith; same = λ e. refl; stops = refl }

    advance-IsSince : (s : Scan S) → IsSince s (advance c func s)
    unfolding advance
    advance-IsSince s =
        IsSince-either s _ _
          (c.include_removed
            && not ((s.buf s.offset).rec_len == (name_bytes (s.buf s.offset) + 11) / 4 * 4))
          (IsSince-moved s _ _) (IsSince-moved s _ _)

    IsSince-refl : (s s' : Scan S) → s ≡ s' → IsSince s s'
    IsSince-refl s s' e =
        subst (IsSince s) e (record { more = omega arith; same = λ e. refl; stops = refl })

    process_dir_entry-IsSince :
        (f : ℕ) (s s' : Scan S) → process_dir_entry c func f s ≡ some (finished s') → IsSince s s'
    unfolding process_dir_entry
    process_dir_entry-IsSince zero s s' h = absurd (none-ne-some (finished s') h)
    process_dir_entry-IsSince (suc f) s s' h = elim (Bool-cases (ltb s.offset c.blocksize)) [
      | inr behind ↦
          IsSince-refl s s'
            (finished_injective s s' (some-injective _ _ (sym (if_false _ _ behind) ∙ h)))
      | inl inside ↦ elim (Bool-cases (is_corrupt c.blocksize s.offset (s.buf s.offset))) [
        | inl bad ↦ absurd (
            corrupted_finished s s'
              (some-injective _ _ (sym (if_true _ _ inside ∙ if_true _ _ bad) ∙ h)))
        | inr sound ↦ elim (Bool-cases (visit c func s).1) [
          | inl stop ↦ IsSince-trans s (visit c func s).0 s' (visit-IsSince s) (
              IsSince-refl (visit c func s).0 s' (
                finished_injective _ s' (
                  some-injective _ _
                    (sym (if_true _ _ inside ∙ if_false _ _ sound ∙ if_true _ _ stop) ∙ h))))
          | inr on ↦ IsSince-trans s (visit c func s).0 s' (visit-IsSince s) (
              IsSince-trans (visit c func s).0 (advance c func (visit c func s).0) s'
                (advance-IsSince (visit c func s).0)
                (process_dir_entry-IsSince f (advance c func (visit c func s).0) s'
                  (sym (if_true _ _ inside ∙ if_false _ _ sound ∙ if_false _ _ on) ∙ h)))
        ]
      ]
    ]
      where
        finished_injective : (t u : Scan S) → finished t ≡ finished u → t ≡ u
        finished_injective t u e = cc

        corrupted_finished : (t u : Scan S) → corrupted t ≢ finished u
        corrupted_finished t u e = cc

    -- The walk of a block that ends: what the device holds then, and whether the iteration stops.
    pub process_dir_block-finished :
        (io : Io) (k : ℕ) (b : Block) (p : S) (s' : Scan S)
        → IsWorking io
        → is_sound (dir_end c.blocksize c.has_trailer) b ≡ true
        → is_sound (dir_end c.blocksize c.has_trailer) s'.buf ≡ true
        → process_dir_entry c func (c.blocksize + 2) (start (if k == 0 then 1 else 3) b p)
          ≡ some (finished s')
        → process_dir_block io c func k b p
          ≡ some (record {
            block = s'.buf;
            priv = s'.priv;
            errcode = none;
            abort = not (count s'.priv == count p);
          })
    unfolding process_dir_block
    process_dir_block-finished io k b p s' working sound sound' runs =
        let since = process_dir_entry-IsSince (c.blocksize + 2) _ s' runs in
        let stops : count s'.priv + 0 ≡ count p + s'.do_abort = since.stops in
        let flag : (s'.do_abort == 0) ≡ (count s'.priv == count p) = ground arith in
        ap
          (λ o. elim o as (λ _. Option (BlockDone S)) [
            | some e ↦ some (record { block = b; priv = p; errcode = some e; abort = true })
            | none ↦
                elim (process_dir_entry c func (c.blocksize + 2)
                  (start (if k == 0 then 1 else 3) b p)) [
                    | none ↦ none
                    | some outcome ↦ some (write_back io c func k b outcome)
                  ]
          ])
          (read_dir_block_sound io (dir_end c.blocksize c.has_trailer) k b (working.block_read k)
            sound)
        ∙ ap
            (λ o. elim o as (λ _. Option (BlockDone S)) [
              | none ↦ none
              | some outcome ↦ some (write_back io c func k b outcome)
            ])
            runs
        ∙ ap some (written s' since.same sound' ∙ ap (λ a. stored s' s'.buf (not a)) flag)
      where
        stored : Scan S → Block → Bool → BlockDone S
        stored t held a = record { block = held; priv = t.priv; errcode = none; abort = a }

        written :
            (t : Scan S)
            → (t.changed ≡ 0 → t.buf ≡ b)
            → is_sound (dir_end c.blocksize c.has_trailer) t.buf ≡ true
            → write_back io c func k b (finished t) ≡ stored t t.buf (not (t.do_abort == 0))
        written t same sound_left =
            unfold write_back in
            elim (Bool-cases (t.changed == 0)) [
              | inl unchanged ↦ rw unchanged (
                  ap (λ held. stored t held (not (t.do_abort == 0)))
                    (sym (same ((==_iff _ _).0 unchanged))))
              | inr changed ↦ rw changed (
                  rw
                    (write_dir_block_sound io (dir_end c.blocksize c.has_trailer) k t.buf
                      (working.block_written k) sound_left)
                    refl)
            ]
