-- ===== src/Codegen/Text.antt =====
-- Texts that are written piece by piece, `out << a << b`, and the braces in them.
use hft_legacy_migration_fra.Base.{
  ℕ, suc, ◌+◌, ◌≡◌, refl, sym, ap, ◌∙◌, Bytes, List, [], ◌∷◌, ◌++◌, ◌==◌, if◌then◌else◌, arith,
}

-- What the stream holds in the end.
unfoldable pub written : List Bytes → Bytes
written [] = []
written (piece ∷ pieces) = piece ++ written pieces

-- For each element of a list some pieces.
unfoldable pub for_each {ℓ} : {A : Type ℓ} → (A → List Bytes) → List A → List Bytes
for_each f [] = []
for_each f (x ∷ xs) = f x ++ for_each f xs

-- How often a character stands in a text.
unfoldable pub count : ℕ → Bytes → ℕ
count c [] = 0
count c (d ∷ text) = let rest = count c text in if d == c then suc rest else rest

unfoldable pub total : ℕ → List Bytes → ℕ
unfolding count
total c [] = 0
total c (piece ∷ pieces) = count c piece + total c pieces

abbrev pub IsBalanced : Bytes → Type 0
IsBalanced text = count b'{' text ≡ count b'}' text

abbrev pub HasNoBrace : Bytes → Type 0
HasNoBrace text = (count b'{' text ≡ 0) × (count b'}' text ≡ 0)

count-append : (c : ℕ) (front back : Bytes) → count c (front ++ back) ≡ count c front + count c back
unfolding count
count-append c [] back = omega arith
count-append c (d ∷ front) back = ground (arith, count-append c front back)

pub count-written : (c : ℕ) (pieces : List Bytes) → count c (written pieces) ≡ total c pieces
unfolding written total count
count-written c [] = refl
count-written c (piece ∷ pieces) =
    count-append c piece (written pieces)
    ∙ ap (λ (n : ℕ). count c piece + n) (count-written c pieces)

pub total-append :
    (c : ℕ) (front back : List Bytes) → total c (front ++ back) ≡ total c front + total c back
unfolding total
total-append c [] back = omega arith
total-append c (piece ∷ front) back = ground (arith, total-append c front back)

pub written-IsBalanced :
    (pieces : List Bytes) → total b'{' pieces ≡ total b'}' pieces → IsBalanced (written pieces)
written-IsBalanced pieces h = count-written b'{' pieces ∙ h ∙ sym (count-written b'}' pieces)
