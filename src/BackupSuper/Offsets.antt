-- ===== src/BackupSuper/Offsets.antt =====
-- Which backups a volume has, and where.
use debian_ocfs2_tools.Base.Bits.Xor.{power-add}
use debian_ocfs2_tools.Base.{
  if_true, lt→ltb, ◌*◌, ◌/◌, ◌^◌, none, some, sym, ℕ, zero, suc, ◌+◌, ◌-◌, ◌<◌, ◌≤◌, ◌≡◌, ◌∙◌, refl,
  ap, min, true, false, ltb, List, [], ◌∷◌, ◌++◌, length, replicate, get_or, Option, if◌then◌else◌,
  arith, Bool-cases, inl, inr,
}
use debian_ocfs2_tools.BackupSuper.{
  Device, backup_super_blkno, unit_of, is_behind, offsets_from, get_backup_super_offsets,
}

-- The places that the loop finds from number `i` on.
pub record IsFound (fs : Option Device) (i rest : ℕ) (found : List ℕ) : Type 0 where
  pub fewer : length found ≤ rest
  pub places :
      (j : ℕ)
      → j < length found
      → (get_or found j 0 ≡ backup_super_blkno (unit_of fs) (i + j))
        × (is_behind fs (backup_super_blkno (unit_of fs) (i + j)) ≡ false)
  pub ends :
      length found < rest → is_behind fs (backup_super_blkno (unit_of fs) (i + length found)) ≡ true

offsets_from-IsFound :
    (fs : Option Device) (i rest : ℕ) → IsFound fs i rest (offsets_from fs i rest)
unfolding offsets_from
offsets_from-IsFound fs i zero = record {
  fewer = omega arith;
  places = λ j lt. absurd (omega arith);
  ends = λ lt. absurd (omega arith);
}
offsets_from-IsFound fs i (suc rest) =
    let blkno = backup_super_blkno (unit_of fs) i in
    elim (Bool-cases (is_behind fs blkno)) [
      | inl behind ↦ rw behind (record {
        fewer = omega arith;
        places = λ j lt. absurd (omega arith);
        ends = λ lt. let same : i + 0 ≡ i = omega arith in rw same behind;
      })
      | inr inside ↦
          let more = offsets_from-IsFound fs (i + 1) rest in
          rw inside (record {
            fewer = omega (arith, more.fewer);
            places = λ j lt. place fs i (offsets_from fs (i + 1) rest) inside more.places j lt;
            ends = λ lt.
                let next : i + suc (length (offsets_from fs (i + 1) rest))
                    ≡ i + 1 + length (offsets_from fs (i + 1) rest) =
                  omega arith in
                rw next (more.ends (omega arith));
          })
    ]
  where
    place :
        (fs : Option Device) (i : ℕ) (found : List ℕ)
        → is_behind fs (backup_super_blkno (unit_of fs) i) ≡ false
        → ((j : ℕ)
            → j < length found
            → (get_or found j 0 ≡ backup_super_blkno (unit_of fs) (i + 1 + j))
              × (is_behind fs (backup_super_blkno (unit_of fs) (i + 1 + j)) ≡ false))
        → (j : ℕ) → j < suc (length found)
        → (get_or (backup_super_blkno (unit_of fs) i ∷ found) j 0
            ≡ backup_super_blkno (unit_of fs) (i + j))
          × (is_behind fs (backup_super_blkno (unit_of fs) (i + j)) ≡ false)
    place fs i found inside places zero lt =
        let same : i + 0 ≡ i = omega arith in rw same (refl, inside)
    place fs i found inside places (suc j) lt =
        let same : i + suc j ≡ i + 1 + j = omega arith in rw same (places j (omega arith))

get_or-append :
    (xs : List ℕ) (n j : ℕ)
    → get_or (xs ++ replicate n 0) j 0 ≡ (if ltb j (length xs) then get_or xs j 0 else 0)
get_or-append [] zero j = ground arith
get_or-append [] (suc n) zero = ground arith
get_or-append [] (suc n) (suc j) = get_or-append [] n j ∙ ground arith
get_or-append (x ∷ xs) n zero = ground arith
get_or-append (x ∷ xs) n (suc j) = get_or-append xs n j ∙ ground arith

-- The backups stand at 1, 4, 16, 64 and 256 GiB and at 1 TiB: the block there, or the byte where there
-- is no file system.
pub place_of : Option Device → ℕ → ℕ
place_of none j = 2 ^ (30 + 2 * j)
place_of (some fs) j = 2 ^ (30 + 2 * j) / fs.fs_blocksize

-- The block belongs to the volume, if there is one.
pub IsInside : Option Device → ℕ → Type 0
IsInside none n = Unit {0}
IsInside (some fs) n = n < fs.fs_blocks

backup_super_blkno-place_of :
    (fs : Option Device) (j : ℕ) → j < 6 → backup_super_blkno (unit_of fs) j ≡ place_of fs j
unfolding backup_super_blkno unit_of place_of
backup_super_blkno-place_of none j lt =
    if_true _ _ (lt→ltb _ _ lt) ∙ omega (arith, power-add 30 (2 * j))
backup_super_blkno-place_of (some fs) j lt =
    if_true _ _ (lt→ltb _ _ lt) ∙ ap (λ n. n / fs.fs_blocksize) (sym (power-add 30 (2 * j)))

is_behind-IsInside : (fs : Option Device) (n : ℕ) → is_behind fs n ≡ false → IsInside fs n
unfolding is_behind IsInside
is_behind-IsInside none n h = tt
is_behind-IsInside (some fs) n h = ground arith

is_behind-outside : (fs : Option Device) (n : ℕ) → is_behind fs n ≡ true → ¬ IsInside fs n
unfolding is_behind IsInside
is_behind-outside none n h = absurd cc
is_behind-outside (some fs) n h = λ inside. ground arith

-- The entries of the array up to the count are the places of the backups in order: 1, 4, 16, 64, 256
-- and 1024 GiB, as numbers of blocks, or of bytes where no file system is given. Each lies inside the
-- volume, if one is given; the rest of the array is zero. The count is at most the size of the array and
-- six, and where it is below both, the next place does not lie inside the volume.
pub get_backup_super_offsets-places :
    (fs : Option Device) (len : ℕ)
    → let r = get_backup_super_offsets fs len in
      (r.0 ≤ min len 6)
      × ((j : ℕ) → j < r.0 → (get_or r.1 j 0 ≡ place_of fs j) × IsInside fs (place_of fs j))
      × ((j : ℕ) → r.0 ≤ j → get_or r.1 j 0 ≡ 0)
      × (r.0 < min len 6 → ¬ IsInside fs (place_of fs r.0))
unfolding get_backup_super_offsets
get_backup_super_offsets-places fs len =
    let found = offsets_from fs 0 (min len 6) in
    let all = offsets_from-IsFound fs 0 (min len 6) in
    (
      all.fewer,
      λ j lt.
          let at = get_or-append found (len - length found) j in
          let inside : ltb j (length found) ≡ true = ground arith in
          let zero_j : 0 + j ≡ j = omega arith in
          let (p, b) = all.places j lt in
          let here =
            ap (backup_super_blkno (unit_of fs)) zero_j
            ∙ backup_super_blkno-place_of fs j (omega (arith, all.fewer)) in
          (at ∙ rw inside (p ∙ here), is_behind-IsInside fs _ (ap (is_behind fs) (sym here) ∙ b)),
      λ j ge.
          let at = get_or-append found (len - length found) j in
          let outside : ltb j (length found) ≡ false = ground arith in at ∙ rw outside refl,
      λ lt.
          let zero_n : 0 + length found ≡ length found = omega arith in
          let here =
            ap (backup_super_blkno (unit_of fs)) zero_n
            ∙ backup_super_blkno-place_of fs (length found) (omega arith) in
          is_behind-outside fs _ (ap (is_behind fs) (sym here) ∙ all.ends lt),
    )
