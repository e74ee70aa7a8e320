-- ===== src/Icount/Sorted.antt =====
-- Lists of block numbers with their counts, sorted by number.
use debian_ocfs2_tools.Base.{
  ℕ, ◌<◌, ◌≡◌, ◌≢◌, ◌∙◌, refl, sym, false, ◌==◌, ==_iff, List, [], ◌∷◌, ◌++◌, arith, All,
  Bool-cases, inl, inr, if◌then◌else◌, if_true, if_false, Option, none, some,
}
use debian_ocfs2_tools.Icount.{Tree, leaf, node}

pub record Pair : Type 0 where
  pub key : ℕ
  pub count : ℕ

-- The nodes of a tree, from left to right.
unfoldable pub inorder : Tree → List Pair
inorder leaf = []
inorder (node left blkno count right) =
    inorder left ++ (record { key = blkno; count = count } ∷ inorder right)

abbrev pub AllBelow : ℕ → List Pair → Type 0
AllBelow k = All (λ p. p.key < k)

abbrev pub AllAbove : ℕ → List Pair → Type 0
AllAbove k = All (λ p. k < p.key)

unfoldable pub IsSorted : List Pair → Type 0
IsSorted [] = Unit
IsSorted (p ∷ ps) = AllAbove p.key ps × IsSorted ps

-- The count of a number.
unfoldable pub find : List Pair → ℕ → Option ℕ
find [] k = none
find (p ∷ ps) k = if p.key == k then some p.count else find ps k

-- A sorted list around one of its elements.
pub record IsSplit (xs : List Pair) (p : Pair) (ys : List Pair) : Type 0 where
  pub lower : IsSorted xs
  pub higher : IsSorted ys
  pub below : AllBelow p.key xs
  pub above : AllAbove p.key ys

pub All-append_left : (P : Pair → Type 0) (xs ys : List Pair) → All P (xs ++ ys) → All P xs
All-append_left P [] ys h = tt
All-append_left P (x ∷ xs) ys h = (h.0, All-append_left P xs ys h.1)

pub All-append_right : (P : Pair → Type 0) (xs ys : List Pair) → All P (xs ++ ys) → All P ys
All-append_right P [] ys h = h
All-append_right P (x ∷ xs) ys h = All-append_right P xs ys h.1

pub All-join : (P : Pair → Type 0) (xs ys : List Pair) → All P xs → All P ys → All P (xs ++ ys)
All-join P [] ys p q = q
All-join P (x ∷ xs) ys p q = (p.0, All-join P xs ys p.1 q)

pub All-weaken :
    (P Q : Pair → Type 0) → ((p : Pair) → P p → Q p) → (xs : List Pair) → All P xs → All Q xs
All-weaken P Q f [] h = tt
All-weaken P Q f (x ∷ xs) h = (f x h.0, All-weaken P Q f xs h.1)

pub IsSorted-IsSplit :
    (xs : List Pair) (p : Pair) (ys : List Pair) → IsSorted (xs ++ (p ∷ ys)) → IsSplit xs p ys
unfolding IsSorted
IsSorted-IsSplit [] p ys h = record { lower = tt; higher = h.1; below = tt; above = h.0 }
IsSorted-IsSplit (x ∷ xs) p ys h =
    let rest = IsSorted-IsSplit xs p ys h.1 in
    record {
      lower = (All-append_left (λ q. x.key < q.key) xs (p ∷ ys) h.0, rest.lower);
      higher = rest.higher;
      below = ((All-append_right (λ q. x.key < q.key) xs (p ∷ ys) h.0).0, rest.below);
      above = rest.above;
    }

pub IsSorted-join :
    (xs : List Pair) (p : Pair) (ys : List Pair) → IsSplit xs p ys → IsSorted (xs ++ (p ∷ ys))
unfolding IsSorted
IsSorted-join [] p ys s = (s.above, s.higher)
IsSorted-join (x ∷ xs) p ys s = (
  All-join (λ q. x.key < q.key) xs (p ∷ ys) s.lower.0
      (s.below.0, All-weaken _ _ (λ q h. omega (arith, s.below.0)) ys s.above),
  IsSorted-join xs p ys
      (record { lower = s.lower.1; higher = s.higher; below = s.below.1; above = s.above }),
)

-- Where a number is found.
pub find-above : (ps : List Pair) (k : ℕ) → AllAbove k ps → find ps k ≡ none
unfolding find
find-above [] k h = refl
find-above (p ∷ ps) k h =
    let other : (p.key == k) ≡ false = differs p.key k h.0 in
    if_false _ _ other ∙ find-above ps k h.1
  where
    differs : (m n : ℕ) → n < m → (m == n) ≡ false
    differs m n lt = ground arith

pub find-passes : (xs ys : List Pair) (k : ℕ) → AllBelow k xs → find (xs ++ ys) k ≡ find ys k
unfolding find
find-passes [] ys k h = refl
find-passes (p ∷ xs) ys k h =
    let other : (p.key == k) ≡ false = differs p.key k h.0 in
    if_false _ _ other ∙ find-passes xs ys k h.1
  where
    differs : (m n : ℕ) → m < n → (m == n) ≡ false
    differs m n lt = ground arith

pub find-stops : (xs ys : List Pair) (k : ℕ) → AllAbove k ys → find (xs ++ ys) k ≡ find xs k
unfolding find
find-stops [] ys k h = find-above ys k h
find-stops (p ∷ xs) ys k h = elim (Bool-cases (p.key == k)) [
  | inl here ↦ if_true _ _ here ∙ sym (if_true _ _ here)
  | inr elsewhere ↦ if_false _ _ elsewhere ∙ find-stops xs ys k h ∙ sym (if_false _ _ elsewhere)
]

pub find-here : (p : Pair) (ys : List Pair) → find (p ∷ ys) p.key ≡ some p.count
unfolding find
find-here p ys = if_true _ _ ((==_iff p.key p.key).1 refl)

-- An element more, elsewhere.
pub find-other :
    (xs : List Pair) (p : Pair) (ys : List Pair) (k : ℕ)
    → p.key ≢ k
    → find (xs ++ (p ∷ ys)) k ≡ find (xs ++ ys) k
unfolding find
find-other [] p ys k ne = let other : (p.key == k) ≡ false = ground arith in if_false _ _ other
find-other (x ∷ xs) p ys k ne = elim (Bool-cases (x.key == k)) [
  | inl here ↦ if_true _ _ here ∙ sym (if_true _ _ here)
  | inr elsewhere ↦ if_false _ _ elsewhere ∙ find-other xs p ys k ne ∙ sym (if_false _ _ elsewhere)
]

-- The three places of a number, against an element of a sorted list.
pub find-left :
    (xs : List Pair) (p : Pair) (ys : List Pair) (k : ℕ)
    → IsSplit xs p ys
    → k < p.key
    → find (xs ++ (p ∷ ys)) k ≡ find xs k
find-left xs p ys k s lt =
    find-stops xs (p ∷ ys) k (lt, All-weaken _ _ (λ q h. omega (arith, lt)) ys s.above)

pub find-right :
    (xs : List Pair) (p : Pair) (ys : List Pair) (k : ℕ)
    → IsSplit xs p ys
    → p.key < k
    → find (xs ++ (p ∷ ys)) k ≡ find ys k
unfolding find
find-right xs p ys k s gt =
    let other : (p.key == k) ≡ false = ground arith in
    find-passes xs (p ∷ ys) k (All-weaken _ _ (λ q h. omega (arith, gt)) xs s.below)
    ∙ if_false _ _ other

pub find-middle :
    (xs : List Pair) (p : Pair) (ys : List Pair)
    → IsSplit xs p ys
    → find (xs ++ (p ∷ ys)) p.key ≡ some p.count
find-middle xs p ys s = find-passes xs (p ∷ ys) p.key s.below ∙ find-here p ys
