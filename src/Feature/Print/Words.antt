-- ===== src/Feature/Print/Words.antt =====
-- Words printed one after the other into a buffer, as the loops of both printing functions do.
use mathlib.Core.List.{append-nil, append_assoc}
use debian_ocfs2_tools.Base.{
  ℕ, ◌+◌, ◌-◌, ◌≤◌, ◌<◌, ◌≡◌, ◌∙◌, refl, sym, ap, Bool, true, false, ◌||◌, List, [], ◌∷◌, ◌++◌,
  if◌then◌else◌, Result, ok, err, no_space, inl, inr, arith, Bool-cases, length, ltb, length-append,
  All, ◌>>=◌, Result-cases,
}
use debian_ocfs2_tools.Feature.Print.{Printer, is_empty, print_name, start, unknown}

-- Words with a space between each two.
abbrev pub join_words : List (List ℕ) → List ℕ
join_words [] = []
join_words (w ∷ []) = w
join_words (w ∷ v ∷ ws) = w ++ (b' ' ∷ join_words (v ∷ ws))

-- Printing several words one after the other.
unfoldable pub print_words : List (List ℕ) → Printer → Result Printer
print_words [] p = ok p
print_words (w ∷ ws) p = do p' ← print_name w p; print_words ws p'

-- What follows a text that is not empty.
abbrev tail_words : List (List ℕ) → List ℕ
tail_words [] = []
tail_words (w ∷ ws) = (b' ' ∷ w) ++ tail_words ws

-- A printer within its buffer.
record IsWithin (size : ℕ) (p : Printer) : Type 0 where
  accounted : length p.text + p.remain ≡ size
  room : 0 < p.remain
  begun : is_empty p.text ≡ false

-- A text in a buffer, with the room for its terminator.
abbrev printed : ℕ → List ℕ → Result Printer
printed size t =
    if ltb (length t) size then ok (record { text = t; remain = size - length t }) else err no_space

printed_self : (size : ℕ) (p : Printer) → IsWithin size p → printed size p.text ≡ ok p
printed_self size p h = ground arith

printed_long : (size : ℕ) (t : List ℕ) → size ≤ length t → printed size t ≡ err no_space
printed_long size t h = ground arith

print_name-more :
    (size : ℕ) (p : Printer) (w : List ℕ)
    → IsWithin size p
    → print_name w p ≡ printed size (p.text ++ (b' ' ∷ w))
unfolding print_name
print_name-more size p w h = ground (arith, length-append p.text (b' ' ∷ w))

is_empty-append : (xs ys : List ℕ) → is_empty xs ≡ false → is_empty (xs ++ ys) ≡ false
is_empty-append [] ys h = cc
is_empty-append (x ∷ xs) ys h = refl

print_words-more :
    (ws : List (List ℕ)) (size : ℕ) (p : Printer)
    → IsWithin size p
    → print_words ws p ≡ printed size (p.text ++ tail_words ws)
unfolding print_words
print_words-more [] size p h = rw append-nil (sym (printed_self size p h))
print_words-more (w ∷ ws) size p h =
    let t = p.text ++ (b' ' ∷ w) in
    elim (Bool-cases (ltb (length t) size)) [
      | inl fits ↦
          let next : IsWithin size (record { text = t; remain = size - length t }) = record {
            accounted = ground arith;
            room = ground arith;
            begun = is_empty-append p.text (b' ' ∷ w) h.begun;
          } in
          rw (print_name-more size p w h, fits)
            (print_words-more ws size _ next ∙ rw append_assoc refl)
      | inr full ↦
          let long : size ≤ length (p.text ++ tail_words (w ∷ ws)) = ground (
            arith,
            length-append p.text (b' ' ∷ w),
            length-append p.text (tail_words (w ∷ ws)),
            length-append w (tail_words ws),
          ) in
          rw (print_name-more size p w h, full) (sym (printed_long size _ long))
    ]

print_words-append :
    (xs ys : List (List ℕ)) (p : Printer)
    → print_words (xs ++ ys) p ≡ (print_words xs p >>= print_words ys)
unfolding print_words
print_words-append [] ys p = refl
print_words-append (x ∷ xs) ys p = elim (Result-cases (print_name x p)) [
  | inl (p', e) ↦ rw e (print_words-append xs ys p')
  | inr (code, e) ↦ rw e
]

join_words-cons : (w : List ℕ) (ws : List (List ℕ)) → join_words (w ∷ ws) ≡ w ++ tail_words ws
join_words-cons w [] = rw append-nil
join_words-cons w (v ∷ ws) = ap (λ t. w ++ (b' ' ∷ t)) (join_words-cons v ws)

-- The first word, into an empty buffer.
print_name-first :
    (size : ℕ) (w : List ℕ)
    → print_name w (start size) ≡ (
        if ltb (length w) size
        then ok (record { text = w; remain = size - length w })
        else err no_space)
unfolding print_name
print_name-first size w = ground arith

-- The words of a text written into an empty buffer.
pub print_words-start :
    (size : ℕ) (ws : List (List ℕ))
    → All (λ w. is_empty w ≡ false) ws
    → (print_words ws (start size) >>= λ p. ok p.text) ≡ (
        if is_empty (join_words ws) || ltb (length (join_words ws)) size
        then ok (join_words ws)
        else err no_space)
unfolding print_words
print_words-start size [] h = refl
print_words-start size (w ∷ ws) h =
    let begun : is_empty (w ++ tail_words ws) ≡ false = is_empty-append w (tail_words ws) h.0 in
    elim (Bool-cases (ltb (length w) size)) [
      | inl fits ↦
          let next : IsWithin size (record { text = w; remain = size - length w }) = record {
            accounted = ground arith;
            room = ground arith;
            begun = h.0;
          } in
          rw (join_words-cons w ws, print_name-first size w, fits)
            (rw (begun, print_words-more ws size _ next) (printed_text size (w ++ tail_words ws)))
      | inr full ↦
          rw (join_words-cons w ws, print_name-first size w, full)
            (rw begun (ground (arith, length-append w (tail_words ws))))
    ]
  where
    printed_text :
        (size : ℕ) (t : List ℕ)
        → (printed size t >>= λ p. ok p.text) ≡ (if ltb (length t) size then ok t else err no_space)
    printed_text size t = ground arith

abbrev pub unnamed : Bool → List (List ℕ)
unnamed true = unknown ∷ []
unnamed false = []

print_words-unnamed :
    (b : Bool) (p : Printer)
    → print_words (unnamed b) p ≡ (if b then print_name unknown p else ok p)
unfolding print_words
print_words-unnamed true p = elim (Result-cases (print_name unknown p)) [
  | inl (p', e) ↦ rw e
  | inr (code, e) ↦ rw e
]
print_words-unnamed false p = refl

-- The end of both functions: `unknown` goes behind the words that the loop printed.
pub print_words-finish :
    {X : Type 0} (x : X) (test : X → Bool) (ws : List (List ℕ)) (p : Printer)
    → ((print_words ws p >>= λ p'. ok (x, p')) >>= λ (r : X × Printer).
        (if test r.0 then print_name unknown r.1 else ok r.1) >>= λ p'. ok p'.text)
      ≡ (print_words (ws ++ unnamed (test x)) p >>= λ p'. ok p'.text)
print_words-finish x test ws p =
    rw (print_words-append ws (unnamed (test x)) p) (elim (Result-cases (print_words ws p)) [
      | inl (p', e) ↦ rw e (rw (print_words-unnamed (test x) p'))
      | inr (code, e) ↦ rw e
    ])

pub All-unnamed : (b : Bool) → All (λ w. is_empty w ≡ false) (unnamed b)
All-unnamed true = (refl, tt)
All-unnamed false = tt
