-- ===== src/Base/Dict.antt =====
-- `std::unordered_map` and `std::map` with text keys, as an association list with one entry for
-- each key.
use mathlib.Core.Bool.{Bool, false}
use mathlib.Core.Logic.{inl, inr}
use mathlib.Core.List.{List, [], ◌∷◌}
use mathlib.Core.Option.{Option, none, some}
use mathlib.Core.Path.{◌≡◌, refl}
use native.Mathlib.Omega.{arith}
use hft_legacy_migration_fra.Base.Tests.{if◌then◌else◌, Bool-cases}
use hft_legacy_migration_fra.Base.Text.{Bytes, eqb, eqb_iff}

module _ {ℓ} {V : Type ℓ} where
  -- `find(k)`.
  unfoldable pub lookup : Bytes → List (Bytes × V) → Option V
  lookup k [] = none
  lookup k ((j, v) ∷ m) = if eqb j k then some v else lookup k m

  -- `m[k] = v`.
  unfoldable pub insert : Bytes → V → List (Bytes × V) → List (Bytes × V)
  insert k v [] = (k, v) ∷ []
  insert k v ((j, w) ∷ m) = if eqb j k then (k, v) ∷ m else (j, w) ∷ insert k v m

  -- `erase(k)`.
  unfoldable pub erase : Bytes → List (Bytes × V) → List (Bytes × V)
  erase k [] = []
  erase k ((j, w) ∷ m) = let rest = erase k m in if eqb j k then rest else (j, w) ∷ rest

  -- The entries that pass a test.
  unfoldable pub keep : (V → Bool) → List (Bytes × V) → List (Bytes × V)
  keep p [] = []
  keep p ((j, w) ∷ m) = let rest = keep p m in if p w then (j, w) ∷ rest else rest

  abbrev pub keys : List (Bytes × V) → List Bytes
  keys [] = []
  keys ((j, w) ∷ m) = j ∷ keys m

  pub lookup-insert :
      (k j : Bytes) (v : V) (m : List (Bytes × V))
      → lookup j (insert k v m) ≡ (if eqb k j then some v else lookup j m)
  unfolding lookup insert
  lookup-insert k j v [] = refl
  lookup-insert k j v ((i, w) ∷ m) =
      ground (arith, eqb_iff k j, eqb_iff i k, eqb_iff i j, lookup-insert k j v m)

  pub lookup-erase :
      (k j : Bytes) (m : List (Bytes × V))
      → lookup j (erase k m) ≡ (if eqb k j then none else lookup j m)
  unfolding lookup erase
  lookup-erase k j [] = ground arith
  lookup-erase k j ((i, w) ∷ m) =
      ground (arith, eqb_iff k j, eqb_iff i k, eqb_iff i j, lookup-erase k j m)

  -- No key stands twice.
  abbrev pub Distinct : List (Bytes × V) → Type ℓ
  Distinct [] = Unit
  Distinct ((k, v) ∷ m) = (lookup k m ≡ none) × Distinct m

  pub insert-Distinct :
      (k : Bytes) (v : V) (m : List (Bytes × V)) → Distinct m → Distinct (insert k v m)
  unfolding insert
  insert-Distinct k v [] d = (unfold lookup in refl, tt)
  insert-Distinct k v ((j, w) ∷ m) d = elim (Bool-cases (eqb j k)) [
    | inl same ↦ rw same (rw ((eqb_iff j k).0 same) at d.0, d.1)
    | inr other ↦
        rw other (rw (lookup-insert k j v m, flip j k other) d.0, insert-Distinct k v m d.1)
  ]
    where
      flip : (s t : Bytes) → eqb s t ≡ false → eqb t s ≡ false
      flip s t h = ground (arith, eqb_iff s t, eqb_iff t s)

  pub erase-Distinct : (k : Bytes) (m : List (Bytes × V)) → Distinct m → Distinct (erase k m)
  unfolding erase
  erase-Distinct k [] d = tt
  erase-Distinct k ((j, w) ∷ m) d = elim (Bool-cases (eqb j k)) [
    | inl same ↦ rw same (erase-Distinct k m d.1)
    | inr other ↦ rw other (ground (arith, lookup-erase k j m), erase-Distinct k m d.1)
  ]

  -- What a test leaves of an entry.
  abbrev pub passing : (V → Bool) → Option V → Option V
  passing p none = none
  passing p (some v) = if p v then some v else none

  pub lookup-keep :
      (p : V → Bool) (k : Bytes) (m : List (Bytes × V))
      → Distinct m
      → lookup k (keep p m) ≡ passing p (lookup k m)
  unfolding lookup keep
  lookup-keep p k [] d = refl
  lookup-keep p k ((j, w) ∷ m) d = ground (arith, eqb_iff j k, lookup-keep p k m d.1)

  pub keep-Distinct : (p : V → Bool) (m : List (Bytes × V)) → Distinct m → Distinct (keep p m)
  unfolding keep
  keep-Distinct p [] d = tt
  keep-Distinct p ((j, w) ∷ m) d = elim (Bool-cases (p w)) [
    | inl stays ↦ rw stays (rw (lookup-keep p j m d.1, d.0) refl, keep-Distinct p m d.1)
    | inr goes ↦ rw goes (keep-Distinct p m d.1)
  ]
