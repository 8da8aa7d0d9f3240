-- ===== src/QueryCache.antt =====
-- include/hft/db/QueryResultCache.hpp. The steady clock's time is an argument of each method that
-- reads it and does not wrap; the mutex makes each method one step. `std::any` is a type of values,
-- and the empty `std::any()` that a miss returns is `none`.
pub mod History
use hft_legacy_migration_fra.Base.{
  ℕ, ◌+◌, Bytes, Bool, true, false, not, List, [], ◌∷◌, Option, none, some, leb, if◌then◌else◌,
  lookup, insert, erase, keep, length,
}

pub record CacheEntry {ℓ} (V : Type ℓ) : Type ℓ where
  pub content : V
  pub expires_at : ℕ

pub record QueryCache {ℓ} (V : Type ℓ) : Type ℓ where
  pub cache : List (Bytes × CacheEntry V)
  pub enabled : Bool

module _ {ℓ} {V : Type ℓ} where
  abbrev pub is_expired : ℕ → CacheEntry V → Bool
  is_expired now e = leb e.expires_at now

  unfoldable pub put : QueryCache V → Bytes → V → ℕ → ℕ → QueryCache V
  put c key content ttl now = record c {
    cache = insert key (record { content = content; expires_at = now + ttl }) c.cache;
  }

  unfoldable pub get : QueryCache V → Bytes → ℕ → Option V × QueryCache V
  get c key now = elim (lookup key c.cache) [
    | none ↦ (none, c)
    | some e ↦
        if is_expired now e
        then (none, record c { cache = erase key c.cache })
        else (some e.content, c)
  ]

  unfoldable pub contains_key : QueryCache V → Bytes → ℕ → Bool × QueryCache V
  contains_key c key now = elim (lookup key c.cache) [
    | none ↦ (false, c)
    | some e ↦
        if is_expired now e then (false, record c { cache = erase key c.cache }) else (true, c)
  ]

  unfoldable pub clear : QueryCache V → QueryCache V
  clear c = record c { cache = [] }

  -- The loop over the entries, which erases those that are expired.
  unfoldable pub cleanup : QueryCache V → ℕ → QueryCache V
  cleanup c now = record c { cache = keep (λ e. not (is_expired now e)) c.cache }

  unfoldable pub size : QueryCache V → ℕ
  size c = length c.cache

  unfoldable pub set_enabled : QueryCache V → Bool → QueryCache V
  set_enabled c enabled =
      if enabled then record c { enabled = enabled } else record c { cache = []; enabled = enabled }

  unfoldable pub is_enabled : QueryCache V → Bool
  is_enabled c = c.enabled

-- The private constructor.
abbrev pub initial {ℓ} : {V : Type ℓ} → QueryCache V
initial = record { cache = []; enabled = true }
