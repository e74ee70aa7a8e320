-- ===== src/Base/Errors.antt =====
-- The `OCFS2_ET_*` codes of libocfs2/ocfs2_err.et and the errno values that the modelled code
-- returns, and a fallible result.
use mathlib.Core.Path.{◌≡◌, refl}
use mathlib.Core.Bool.{Bool, true, false}
use mathlib.Core.Logic.{◌⊎◌, inl, inr}

pub data Errcode : Type 0 where
  unsupp_feature conflicting_features no_space internal_failure no_memory : Errcode
  dir_corrupted dir_no_space ro_filesys invalid_argument : Errcode
  short_read short_write too_many_slots invalid_lockres : Errcode
  bad_blkno bad_extent_block_magic io_error enospc no_backup_super file_not_found : Errcode

-- What a call returns: a value, or its error code.
pub data Result {ℓ} (V : Type ℓ) : Type ℓ where
  err : Errcode → Result V
  ok : V → Result V

-- An early return of the code unless the test holds.
abbrev pub require : Bool → Errcode → Result (Unit {0})
require false code = err code
require true _ = ok tt

infixl 5 ◌>>◌ ◌>>=◌
abbrev pub ◌>>=◌ {ℓ κ} : {V : Type ℓ} {W : Type κ} → Result V → (V → Result W) → Result W
err code >>= next = err code
ok v >>= next = next v

abbrev pub ◌>>◌ {κ} : {W : Type κ} → Result (Unit {0}) → Result W → Result W
first >> second = first >>= λ _. second

pub Result-cases {ℓ} :
    {A : Type ℓ} (r : Result A) → ((a : A) × (r ≡ ok a)) ⊎ ((e : Errcode) × (r ≡ err e))
Result-cases (ok a) = inl (a, refl)
Result-cases (err e) = inr (e, refl)

-- A chain that succeeds has steps that succeed.
pub bind_ok {ℓ κ} :
    {A : Type ℓ} {B : Type κ} (m : Result A) (f : A → Result B) (b : B)
    → (m >>= f) ≡ ok b
    → (a : A) × (m ≡ ok a) × (f a ≡ ok b)
bind_ok (ok a) f b h = (a, refl, h)
bind_ok (err e) f b h = absurd cc

pub require_ok {ℓ} :
    {B : Type ℓ} (test : Bool) (e : Errcode) (k : Result B) (b : B)
    → (require test e >> k) ≡ ok b
    → (test ≡ true) × (k ≡ ok b)
require_ok true e k b h = (refl, h)
require_ok false e k b h = absurd cc

pub ok_injective {ℓ} : {A : Type ℓ} {a b : A} → ok a ≡ ok b → a ≡ b
ok_injective h = cc
