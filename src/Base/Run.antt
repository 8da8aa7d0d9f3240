-- ===== src/Base/Run.antt =====
-- Code that ends with a value, with an exception, or in undefined behaviour.
use mathlib.Core.Path.{◌≡◌, refl}
use hft_legacy_migration_fra.Base.Errors.{Exception, Result, ok, err}

pub data Run {ℓ} (A : Type ℓ) : Type ℓ where
  done : A → Run A
  throws : Exception → Run A
  undefined : Run A

infixl 5 ◌>>=◌ ◌>>◌
abbrev pub ◌>>=◌ {ℓ κ} : {A : Type ℓ} {B : Type κ} → Run A → (A → Run B) → Run B
done a >>= f = f a
throws e >>= f = throws e
undefined >>= f = undefined

abbrev pub ◌>>◌ {ℓ κ} : {A : Type ℓ} {B : Type κ} → Run A → Run B → Run B
m >> k = m >>= λ _. k

abbrev pub try_catch {ℓ} : {A : Type ℓ} → Run A → (Exception → Run A) → Run A
try_catch (done a) handler = done a
try_catch (throws e) handler = handler e
try_catch undefined handler = undefined

abbrev pub lift {ℓ} : {A : Type ℓ} → Result A → Run A
lift (ok a) = done a
lift (err e) = throws e

-- Inversion of a bind that ended with a value.
pub >>=-eq-done {ℓ κ} :
    {A : Type ℓ} {B : Type κ} (m : Run A) (f : A → Run B) {b : B}
    → (m >>= f) ≡ done b
    → (a : A) × (m ≡ done a) × (f a ≡ done b)
>>=-eq-done (done a) f h = (a, refl, h)
>>=-eq-done (throws e) f h = cc
>>=-eq-done undefined f h = cc
