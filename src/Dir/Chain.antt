-- ===== src/Dir/Chain.antt =====
-- Well-formed directory blocks: from an offset the entries follow one another up to the end of the
-- block, and list the names in use.
use debian_ocfs2_tools.Base.{
  ℕ, ◌+◌, ◌%◌, ◌≤◌, ◌<◌, ◌≡◌, ◌≢◌, refl, sym, false, List, [], ◌∷◌, arith, subst, ◌⊎◌, inl, inr,
}
use debian_ocfs2_tools.Dir.{Dirent, Block, update, name_bytes, is_corrupt}

-- An entry in use, without its place.
pub record Entry : Type 0 where
  pub inode : ℕ
  pub name_len : ℕ
  pub file_type : ℕ
  pub name : List ℕ

abbrev pub entry_of : Dirent → Entry
entry_of d = record {
  inode = d.inode;
  name_len = d.name_len;
  file_type = d.file_type;
  name = d.name;
}

-- The entry lies within its block, is aligned, and has room for its header and its name. A header of 12
-- bytes is the true one: with it no entry reaches into the next one. The walk itself tests for 8.
pub record IsPlacedWith (header end offset : ℕ) (d : Dirent) : Type 0 where
  pub inside : offset + d.rec_len ≤ end
  pub minimum : header ≤ d.rec_len
  pub aligned : d.rec_len % 4 ≡ 0
  pub fits : name_bytes d + header ≤ d.rec_len

-- The block lists the entries in use from an offset on, up to its end.
pub data ListsWith (header end : ℕ) (b : Block) : ℕ → List Entry → Type 0 where
  stop : {offset : ℕ} → offset ≡ end → ListsWith header end b offset []
  used :
      {offset : ℕ} {es : List Entry}
      → offset < end
      → IsPlacedWith header end offset (b offset)
      → (b offset).inode ≢ 0
      → ListsWith header end b (offset + (b offset).rec_len) es
      → ListsWith header end b offset (entry_of (b offset) ∷ es)
  free :
      {offset : ℕ} {es : List Entry}
      → offset < end
      → IsPlacedWith header end offset (b offset)
      → (b offset).inode ≡ 0
      → ListsWith header end b (offset + (b offset).rec_len) es
      → ListsWith header end b offset es

-- The entries of a block that ocfs2_read_dir_block accepts, with their header of 12 bytes.
abbrev pub IsPlaced : ℕ → ℕ → Dirent → Type 0
IsPlaced end offset d = IsPlacedWith 12 end offset d

abbrev pub Lists : ℕ → Block → ℕ → List Entry → Type 0
Lists end b offset es = ListsWith 12 end b offset es

-- Two blocks agree from an offset on.
abbrev pub AgreeFrom : ℕ → Block → Block → Type 0
AgreeFrom k b b' = (j : ℕ) → k ≤ j → b j ≡ b' j

-- The constructors, for an entry that is known by an equation.
module _ {header : ℕ} (end : ℕ) (b : Block) (offset : ℕ) (es : List Entry) (d : Dirent)
    (e : b offset ≡ d) where
  pub used_as :
      offset < end
      → IsPlacedWith header end offset d
      → d.inode ≢ 0
      → ListsWith header end b (offset + d.rec_len) es
      → ListsWith header end b offset (entry_of d ∷ es)
  used_as lt =
      subst
        (λ d.
          IsPlacedWith header end offset d
          → d.inode ≢ 0
          → ListsWith header end b (offset + d.rec_len) es
          → ListsWith header end b offset (entry_of d ∷ es))
        e (used lt)

  pub free_as :
      offset < end
      → IsPlacedWith header end offset d
      → d.inode ≡ 0
      → ListsWith header end b (offset + d.rec_len) es
      → ListsWith header end b offset es
  free_as lt =
      subst
        (λ d.
          IsPlacedWith header end offset d
          → d.inode ≡ 0
          → ListsWith header end b (offset + d.rec_len) es
          → ListsWith header end b offset es)
        e (free lt)

-- What a block lists depends only on the entries from the offset on.
pub Lists-agree :
    {header : ℕ} (end : ℕ) (b b' : Block) {offset : ℕ} {es : List Entry}
    → AgreeFrom offset b b'
    → ListsWith header end b offset es
    → ListsWith header end b' offset es
Lists-agree end b b' a (stop e) = stop e
Lists-agree end b b' {offset = o} a (used lt p ne rest) =
    used_as end b' o _ (b o) (sym (a o (omega arith))) lt p ne
      (Lists-agree end b b' (λ j h. a j (omega arith)) rest)
Lists-agree end b b' {offset = o} a (free lt p z rest) =
    free_as end b' o _ (b o) (sym (a o (omega arith))) lt p z
      (Lists-agree end b b' (λ j h. a j (omega arith)) rest)

pub is_corrupt-IsPlaced :
    {header : ℕ} (end blocksize offset : ℕ) (d : Dirent)
    → 8 ≤ header
    → end ≤ blocksize
    → IsPlacedWith header end offset d
    → is_corrupt blocksize offset d ≡ false
unfolding is_corrupt
is_corrupt-IsPlaced end blocksize offset d wide h p = ground arith

-- A free entry inside the block lists what follows it.
pub Lists-free :
    (end : ℕ) (b : Block) {offset : ℕ} {es : List Entry}
    → offset < end
    → (b offset).inode ≡ 0
    → Lists end b offset es
    → IsPlaced end offset (b offset) × Lists end b (offset + (b offset).rec_len) es
Lists-free end b lt z (stop e) = absurd (omega arith)
Lists-free end b lt z (used _ p ne rest) = absurd (ne z)
Lists-free end b lt z (free _ p _ rest) = (p, rest)

pub update_self : (b : Block) (k : ℕ) (d : Dirent) → update b k d k ≡ d
update_self b k d = ground arith

pub update_ne : (b : Block) (k j : ℕ) (d : Dirent) → j ≢ k → update b k d j ≡ b j
update_ne b k j d h = ground arith

pub update-AgreeFrom : (b : Block) (k o : ℕ) (d : Dirent) → k < o → AgreeFrom o b (update b k d)
update-AgreeFrom b k o d lt j h = sym (update_ne b k j d (omega arith))

-- The entry at an offset inside the block, and what follows it.
pub record IsUsedAt (end : ℕ) (b : Block) (offset : ℕ) (es : List Entry) : Type 0 where
  pub in_use : (b offset).inode ≢ 0
  pub rest_entries : List Entry
  pub split : es ≡ entry_of (b offset) ∷ rest_entries
  pub rest : Lists end b (offset + (b offset).rec_len) rest_entries

pub record IsFreeAt (end : ℕ) (b : Block) (offset : ℕ) (es : List Entry) : Type 0 where
  pub not_in_use : (b offset).inode ≡ 0
  pub rest : Lists end b (offset + (b offset).rec_len) es

pub Lists-cases :
    (end : ℕ) (b : Block) {offset : ℕ} {es : List Entry}
    → offset < end
    → Lists end b offset es
    → IsUsedAt end b offset es ⊎ IsFreeAt end b offset es
Lists-cases end b lt (stop e) = absurd (omega arith)
Lists-cases end b lt (used {es = es} _ p ne rest) =
    inl (record { in_use = ne; rest_entries = es; split = refl; rest = rest })
Lists-cases end b lt (free _ p z rest) = inr (record { not_in_use = z; rest = rest })

pub Lists-bounds :
    (end : ℕ) (b : Block) {offset : ℕ} {es : List Entry}
    → Lists end b offset es
    → (offset < end × IsPlaced end offset (b offset)) ⊎ ((offset ≡ end) × (es ≡ []))
Lists-bounds end b (stop e) = inr (e, refl)
Lists-bounds end b (used lt p _ _) = inl (lt, p)
Lists-bounds end b (free lt p _ _) = inl (lt, p)

pub Lists-le :
    {header : ℕ} (end : ℕ) (b : Block) {offset : ℕ} {es : List Entry}
    → ListsWith header end b offset es
    → offset ≤ end
Lists-le end b (stop e) = omega arith
Lists-le end b (used lt p _ _) = omega arith
Lists-le end b (free lt p _ _) = omega arith
