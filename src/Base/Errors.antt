-- ===== src/Base/Errors.antt =====
-- Exceptions as values: `DBException`, `std::runtime_error` and whatever a library throws.
use Prim.Native.Nat.{ℕ}
use mathlib.Core.Path.{◌≡◌, refl}
use mathlib.Core.Logic.{◌⊎◌, inl, inr}
use hft_legacy_migration_fra.Base.Text.{Bytes}

pub data Exception : Type 0 where
  db_exception : Bytes → Exception
  runtime_error : Bytes → Exception
  -- `std::invalid_argument`, `std::out_of_range` and the like, told apart by a number
  foreign : ℕ → Bytes → Exception

pub data Result {ℓ} (A : Type ℓ) : Type ℓ where
  ok : A → Result A
  err : Exception → Result A

infixl 5 ◌>>=◌ ◌>>◌
abbrev pub ◌>>=◌ {ℓ κ} : {A : Type ℓ} {B : Type κ} → Result A → (A → Result B) → Result B
ok a >>= f = f a
err e >>= f = err e

abbrev pub ◌>>◌ {ℓ κ} : {A : Type ℓ} {B : Type κ} → Result A → Result B → Result B
m >> k = m >>= λ _. k

-- `e.what()`.
abbrev pub what : Exception → Bytes
what (db_exception m) = m
what (runtime_error m) = m
what (foreign n m) = m

pub Result-cases {ℓ} :
    {A : Type ℓ} (r : Result A) → ((e : Exception) × (r ≡ err e)) ⊎ ((a : A) × (r ≡ ok a))
Result-cases (ok a) = inr (a, refl)
Result-cases (err e) = inl (e, refl)
