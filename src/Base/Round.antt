-- ===== src/Base/Round.antt =====
-- Rounding up to whole units, and what a list begins with.
use Prim.Native.Nat.{ℕ, zero, suc, ◌+◌, ◌-◌, ◌*◌, ◌/◌, ◌≤◌, ◌<◌}
use mathlib.Core.Path.{◌≡◌, refl, ap, ◌∙◌}
use mathlib.Core.List.{List, [], ◌∷◌, ◌++◌}
use native.Mathlib.Omega.{arith, div_any}
use native.Mathlib.Nat.{mod-lt, mul_comm}
use debian_ocfs2_tools.Base.Lists.{take, length}

-- `(a + b - 1) / b * b` is not below `a`.
pub round_up-le : (a b : ℕ) → 0 < b → a ≤ (a + b - 1) / b * b
round_up-le a b h =
    omega (arith, div_any (a + b - 1) b, mod-lt (a + b - 1) h, mul_comm b ((a + b - 1) / b))

-- Nor is it a whole unit above.
pub round_up-lt : (a b : ℕ) → 0 < b → (a + b - 1) / b * b < a + b
round_up-lt a b h = omega (arith, div_any (a + b - 1) b, mul_comm b ((a + b - 1) / b))

pub take-append {ℓ} :
    {A : Type ℓ} (n : ℕ) (xs ys : List A)
    → length xs ≤ n
    → take n (xs ++ ys) ≡ xs ++ take (n - length xs) ys
take-append n [] ys h = ap (λ k. take k ys) (omega arith)
take-append zero (x ∷ xs) ys h = absurd (omega arith)
take-append (suc n) (x ∷ xs) ys h =
    ap (λ l. x ∷ l) (take-append n xs ys (omega arith))
    ∙ ap (λ k. x ∷ (xs ++ take k ys)) (omega arith)

pub append_assoc {ℓ} : {A : Type ℓ} (xs ys zs : List A) → (xs ++ ys) ++ zs ≡ xs ++ (ys ++ zs)
append_assoc [] ys zs = refl
append_assoc (x ∷ xs) ys zs = ap (λ l. x ∷ l) (append_assoc xs ys zs)
