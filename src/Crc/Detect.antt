-- ===== src/Crc/Detect.antt =====
-- The sum tells two buffers apart that differ in one byte.
use debian_ocfs2_tools.Base.{
  ℕ, zero, suc, ◌/◌, ◌%◌, ◌^◌, ◌<◌, ◌≡◌, ◌≢◌, ◌∙◌, refl, sym, ap, ◌==◌, ◌&&◌, Bool, true, ltb,
  ltb→lt, ==_iff, List, [], ◌∷◌, get_or, set, length, bit_and, bit_xor, arith, All, Bool-cases, inl,
  inr,
}
use debian_ocfs2_tools.Base.Bits.Xor.{
  bit_xor_comm, bit_xor_zero, bit_xor_injective, bit_xor_cancel, bit_xor-shift, bit_xor-lt,
  bit_xor-low,
}
use debian_ocfs2_tools.Bitops.Bit.{IsByte}
use debian_ocfs2_tools.Crc.{crc32table_le, do_crc, crc_bytes, crc32_le}
use debian_ocfs2_tools.Crc.Words.{low_byte, crc32_le-bytes}

-- Where the high byte of an entry of the table stands.
unfoldable place : List ℕ
place =
    0 ∷ 65 ∷ 195 ∷ 130 ∷ 134 ∷ 199 ∷ 69 ∷ 4 ∷ 77 ∷ 12 ∷ 142 ∷ 207 ∷ 203 ∷ 138 ∷ 8 ∷ 73 ∷ 154 ∷ 219
    ∷ 89 ∷ 24 ∷ 28 ∷ 93 ∷ 223 ∷ 158 ∷ 215 ∷ 150 ∷ 20 ∷ 85 ∷ 81 ∷ 16 ∷ 146 ∷ 211 ∷ 117 ∷ 52 ∷ 182
    ∷ 247 ∷ 243 ∷ 178 ∷ 48 ∷ 113 ∷ 56 ∷ 121 ∷ 251 ∷ 186 ∷ 190 ∷ 255 ∷ 125 ∷ 60 ∷ 239 ∷ 174 ∷ 44
    ∷ 109 ∷ 105 ∷ 40 ∷ 170 ∷ 235 ∷ 162 ∷ 227 ∷ 97 ∷ 32 ∷ 36 ∷ 101 ∷ 231 ∷ 166 ∷ 234 ∷ 171 ∷ 41 ∷ 104
    ∷ 108 ∷ 45 ∷ 175 ∷ 238 ∷ 167 ∷ 230 ∷ 100 ∷ 37 ∷ 33 ∷ 96 ∷ 226 ∷ 163 ∷ 112 ∷ 49 ∷ 179 ∷ 242 ∷ 246
    ∷ 183 ∷ 53 ∷ 116 ∷ 61 ∷ 124 ∷ 254 ∷ 191 ∷ 187 ∷ 250 ∷ 120 ∷ 57 ∷ 159 ∷ 222 ∷ 92 ∷ 29 ∷ 25 ∷ 88
    ∷ 218 ∷ 155 ∷ 210 ∷ 147 ∷ 17 ∷ 80 ∷ 84 ∷ 21 ∷ 151 ∷ 214 ∷ 5 ∷ 68 ∷ 198 ∷ 135 ∷ 131 ∷ 194 ∷ 64
    ∷ 1 ∷ 72 ∷ 9 ∷ 139 ∷ 202 ∷ 206 ∷ 143 ∷ 13 ∷ 76 ∷ 149 ∷ 212 ∷ 86 ∷ 23 ∷ 19 ∷ 82 ∷ 208 ∷ 145 ∷ 216
    ∷ 153 ∷ 27 ∷ 90 ∷ 94 ∷ 31 ∷ 157 ∷ 220 ∷ 15 ∷ 78 ∷ 204 ∷ 141 ∷ 137 ∷ 200 ∷ 74 ∷ 11 ∷ 66 ∷ 3 ∷ 129
    ∷ 192 ∷ 196 ∷ 133 ∷ 7 ∷ 70 ∷ 224 ∷ 161 ∷ 35 ∷ 98 ∷ 102 ∷ 39 ∷ 165 ∷ 228 ∷ 173 ∷ 236 ∷ 110 ∷ 47
    ∷ 43 ∷ 106 ∷ 232 ∷ 169 ∷ 122 ∷ 59 ∷ 185 ∷ 248 ∷ 252 ∷ 189 ∷ 63 ∷ 126 ∷ 55 ∷ 118 ∷ 244 ∷ 181
    ∷ 177 ∷ 240 ∷ 114 ∷ 51 ∷ 127 ∷ 62 ∷ 188 ∷ 253 ∷ 249 ∷ 184 ∷ 58 ∷ 123 ∷ 50 ∷ 115 ∷ 241 ∷ 176
    ∷ 180 ∷ 245 ∷ 119 ∷ 54 ∷ 229 ∷ 164 ∷ 38 ∷ 103 ∷ 99 ∷ 34 ∷ 160 ∷ 225 ∷ 168 ∷ 233 ∷ 107 ∷ 42 ∷ 46
    ∷ 111 ∷ 237 ∷ 172 ∷ 10 ∷ 75 ∷ 201 ∷ 136 ∷ 140 ∷ 205 ∷ 79 ∷ 14 ∷ 71 ∷ 6 ∷ 132 ∷ 197 ∷ 193 ∷ 128
    ∷ 2 ∷ 67 ∷ 144 ∷ 209 ∷ 83 ∷ 18 ∷ 22 ∷ 87 ∷ 213 ∷ 148 ∷ 221 ∷ 156 ∷ 30 ∷ 95 ∷ 91 ∷ 26 ∷ 152 ∷ 217
    ∷ []

unfoldable all_below : ℕ → (ℕ → Bool) → Bool
all_below zero test = true
all_below (suc n) test = test n && all_below n test

all_below-at : (n : ℕ) (test : ℕ → Bool) (i : ℕ) → all_below n test ≡ true → i < n → test i ≡ true
unfolding all_below
all_below-at zero test i h lt = absurd (omega arith)
all_below-at (suc n) test i h lt = elim (Bool-cases (i == n)) [
  | inl last ↦ let here : i ≡ n = ground arith in rw here (ground arith)
  | inr before ↦ all_below-at n test i (ground arith) (ground arith)
]

-- An entry of 32 bits, whose high byte tells where it stands.
unfoldable is_entry : ℕ → Bool
unfolding crc32table_le place
is_entry i =
    let entry = get_or crc32table_le i 0 in
    ltb entry (2 ^ 32) && get_or place (entry / 2 ^ 8 / 2 ^ 8 / 2 ^ 8) 0 == i

table-entries : all_below 256 is_entry ≡ true
unfolding all_below is_entry
table-entries = refl

both : (a b : Bool) → a && b ≡ true → (a ≡ true) × (b ≡ true)
both a b h = ground arith

-- The table's entry for a sum and a byte.
entry_of :
    (i : ℕ)
    → i < 256
    → (get_or crc32table_le i 0 < 2 ^ 32)
      × (get_or place (get_or crc32table_le i 0 / 2 ^ 8 / 2 ^ 8 / 2 ^ 8) 0 ≡ i)
unfolding is_entry
entry_of i lt =
    let (small, at) = both _ _ (all_below-at 256 is_entry i table-entries lt) in
    (ltb→lt _ _ small, (==_iff _ _).0 at)

index-lt : (x : ℕ) → bit_and x 255 < 256
index-lt x = omega (arith, low_byte x)

do_crc-lt : (c x : ℕ) → c < 2 ^ 32 → do_crc c x < 2 ^ 32
unfolding do_crc
do_crc-lt c x h =
    bit_xor-lt 32 (get_or crc32table_le (bit_and (bit_xor c x) 255) 0) (c / 2 ^ 8)
      (entry_of (bit_and (bit_xor c x) 255) (index-lt (bit_xor c x))).0 (omega arith)

-- The high byte of a step is that of the entry.
high-do_crc :
    (c x : ℕ)
    → c < 2 ^ 32
    → do_crc c x / 2 ^ 8 / 2 ^ 8 / 2 ^ 8
      ≡ get_or crc32table_le (bit_and (bit_xor c x) 255) 0 / 2 ^ 8 / 2 ^ 8 / 2 ^ 8
unfolding do_crc
high-do_crc c x h =
    let entry = get_or crc32table_le (bit_and (bit_xor c x) 255) 0 in
    let gone : c / 2 ^ 8 / 2 ^ 8 / 2 ^ 8 / 2 ^ 8 ≡ 0 = omega arith in
    ap (λ y. y / 2 ^ 8 / 2 ^ 8) (bit_xor-shift entry (c / 2 ^ 8))
    ∙ ap (λ y. y / 2 ^ 8) (bit_xor-shift (entry / 2 ^ 8) (c / 2 ^ 8 / 2 ^ 8))
    ∙ bit_xor-shift (entry / 2 ^ 8 / 2 ^ 8) (c / 2 ^ 8 / 2 ^ 8 / 2 ^ 8)
    ∙ ap (bit_xor (entry / 2 ^ 8 / 2 ^ 8 / 2 ^ 8)) gone
    ∙ bit_xor_zero (entry / 2 ^ 8 / 2 ^ 8 / 2 ^ 8)

-- A step keeps all of the sum and of the byte.
do_crc-keeps :
    (c x d y : ℕ)
    → c < 2 ^ 32
    → d < 2 ^ 32
    → do_crc c x ≡ do_crc d y
    → (c / 2 ^ 8 ≡ d / 2 ^ 8) × (bit_xor c x % 256 ≡ bit_xor d y % 256)
do_crc-keeps c x d y hc hd h =
    let i = bit_and (bit_xor c x) 255 in
    let j = bit_and (bit_xor d y) 255 in
    let places : i ≡ j =
      sym (entry_of i (index-lt (bit_xor c x))).1
      ∙ ap (λ e. get_or place e 0)
          (sym (high-do_crc c x hc) ∙ ap (λ s. s / 2 ^ 8 / 2 ^ 8 / 2 ^ 8) h ∙ high-do_crc d y hd)
      ∙ (entry_of j (index-lt (bit_xor d y))).1 in
    let shifted : bit_xor (get_or crc32table_le i 0) (c / 2 ^ 8)
        ≡ bit_xor (get_or crc32table_le i 0) (d / 2 ^ 8) =
      unfold do_crc in h ∙ ap (λ k. bit_xor (get_or crc32table_le k 0) (d / 2 ^ 8)) (sym places) in
    (
      bit_xor_injective (get_or crc32table_le i 0) (c / 2 ^ 8) (d / 2 ^ 8) shifted,
      sym (low_byte (bit_xor c x)) ∙ places ∙ low_byte (bit_xor d y),
    )

same_byte : (c x y : ℕ) → x < 256 → y < 256 → bit_xor c x % 256 ≡ bit_xor c y % 256 → x ≡ y
same_byte c x y hx hy h =
    let low = bit_xor-low 8 c (bit_xor c x) (bit_xor c y) h in
    omega (arith, low, bit_xor_cancel c x, bit_xor_cancel c y)

same_sum : (c d x : ℕ) → c / 2 ^ 8 ≡ d / 2 ^ 8 → bit_xor c x % 256 ≡ bit_xor d x % 256 → c ≡ d
same_sum c d x high h =
    let low : bit_xor x (bit_xor x c) % 2 ^ 8 ≡ bit_xor x (bit_xor x d) % 2 ^ 8 =
      bit_xor-low 8 x (bit_xor x c) (bit_xor x d)
        (ap (λ y. y % 256) (bit_xor_comm x c) ∙ h ∙ ap (λ y. y % 256) (bit_xor_comm d x)) in
    omega (arith, low, bit_xor_cancel x c, bit_xor_cancel x d)

-- The same bytes keep two sums apart.
crc_bytes-injective :
    (c d : ℕ) (p : List ℕ) → c < 2 ^ 32 → d < 2 ^ 32 → crc_bytes c p ≡ crc_bytes d p → c ≡ d
unfolding crc_bytes
crc_bytes-injective c d [] hc hd h = h
crc_bytes-injective c d (x ∷ xs) hc hd h =
    let step =
      crc_bytes-injective (do_crc c x) (do_crc d x) xs (do_crc-lt c x hc) (do_crc-lt d x hd) h in
    let (high, low) = do_crc-keeps c x d x hc hd step in same_sum c d x high low

crc_bytes-set :
    (c : ℕ) (p : List ℕ) (i v : ℕ)
    → c < 2 ^ 32
    → All IsByte p
    → v < 256
    → i < length p
    → crc_bytes c (set p i v) ≡ crc_bytes c p
    → v ≡ get_or p i 0
unfolding crc_bytes
crc_bytes-set c [] i v hc hp hv lt h = absurd (omega arith)
crc_bytes-set c (x ∷ xs) zero v hc hp hv lt h =
    let step =
      crc_bytes-injective (do_crc c v) (do_crc c x) xs (do_crc-lt c v hc) (do_crc-lt c x hc) h in
    same_byte c v x hv hp.0 (do_crc-keeps c v c x hc hc step).1
crc_bytes-set c (x ∷ xs) (suc i) v hc hp hv lt h =
    crc_bytes-set (do_crc c x) xs i v (do_crc-lt c x hc) hp.1 hv (omega arith) h

pub All-set : (p : List ℕ) (i v : ℕ) → All IsByte p → v < 256 → All IsByte (set p i v)
All-set [] i v hp hv = tt
All-set (x ∷ xs) zero v hp hv = (hv, hp.1)
All-set (x ∷ xs) (suc i) v hp hv = (hp.0, All-set xs i v hp.1 hv)

crc_bytes-lt : (c : ℕ) (p : List ℕ) → c < 2 ^ 32 → crc_bytes c p < 2 ^ 32
unfolding crc_bytes
crc_bytes-lt c [] h = h
crc_bytes-lt c (x ∷ xs) h = crc_bytes-lt (do_crc c x) xs (do_crc-lt c x h)

pub crc32_le-lt :
    (crc addr : ℕ) (p : List ℕ) → crc < 2 ^ 32 → All IsByte p → crc32_le crc addr p < 2 ^ 32
crc32_le-lt crc addr p h bytes =
    omega (arith, crc32_le-bytes crc addr p bytes, crc_bytes-lt crc p h)

-- When one byte of a buffer changes, its sum by crc32_le changes, also when the two copies lie at
-- different addresses.
pub crc32_le-set :
    (crc addr moved : ℕ) (p : List ℕ) (i v : ℕ)
    → crc < 2 ^ 32
    → All IsByte p
    → v < 256
    → i < length p
    → v ≢ get_or p i 0
    → crc32_le crc moved (set p i v) ≢ crc32_le crc addr p
crc32_le-set crc addr moved p i v hc hp hv lt ne h = ne (
    crc_bytes-set crc p i v hc hp hv lt (
      sym (crc32_le-bytes crc moved (set p i v) (All-set p i v hp hv))
      ∙ h
      ∙ crc32_le-bytes crc addr p hp))
