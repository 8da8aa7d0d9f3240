-- ===== src/Base/Owners.antt =====
-- Who holds what: a list of names in which a name may stand several times.
use Prim.Native.Nat.{ℕ, ◌+◌}
use mathlib.Core.Bool.{Bool, true, false, ◌||◌}
use mathlib.Core.List.{List, [], ◌∷◌, ◌++◌}
use mathlib.Core.Logic.{◌≢◌}
use mathlib.Core.Path.{◌≡◌, refl}
use native.Mathlib.Omega.{arith}
use hft_legacy_migration_fra.Base.Lists.{length}
use hft_legacy_migration_fra.Base.Tests.{◌==◌, if◌then◌else◌}

unfoldable pub holds : ℕ → List ℕ → Bool
holds name [] = false
holds name (x ∷ xs) = x == name || holds name xs

unfoldable pub remove : ℕ → List ℕ → List ℕ
remove name [] = []
remove name (x ∷ xs) = let rest = x ∷ remove name xs in if x == name then xs else rest

abbrev pub one : ℕ → ℕ → ℕ
one x name = if x == name then 1 else 0

-- How often a name stands in a list.
unfoldable pub count : ℕ → List ℕ → ℕ
count name [] = 0
count name (x ∷ xs) = one x name + count name xs

pub count-append :
    (name : ℕ) (xs ys : List ℕ) → count name (xs ++ ys) ≡ count name xs + count name ys
unfolding count
count-append name [] ys = omega arith
count-append name (x ∷ xs) ys = omega (arith, count-append name xs ys)

pub count-remove :
    (name other : ℕ) (xs : List ℕ)
    → holds name xs ≡ true
    → count other (remove name xs) + one name other ≡ count other xs
unfolding count remove holds
count-remove name other [] h = cc
count-remove name other (x ∷ xs) h = ground (arith, count-remove name other xs)

pub length-remove :
    (name : ℕ) (xs : List ℕ) → holds name xs ≡ true → length (remove name xs) + 1 ≡ length xs
unfolding remove holds
length-remove name [] h = cc
length-remove name (x ∷ xs) h = ground (arith, length-remove name xs)

pub holds-remove_ne :
    (name other : ℕ) (xs : List ℕ) → name ≢ other → holds other (remove name xs) ≡ holds other xs
unfolding holds remove
holds-remove_ne name other [] h = refl
holds-remove_ne name other (x ∷ xs) h = ground (arith, holds-remove_ne name other xs h)
