-- ===== src/StatementCache.antt =====
-- include/hft/db/PreparedStatementCache.hpp. A statement is named by the number of the factory call
-- that made it. The cache keeps weak pointers: a statement is alive while some client holds a shared
-- pointer to it, and those shared pointers are `held`. A weak pointer made from a null shared
-- pointer is `none` and always expired.
pub mod Sharing
use hft_legacy_migration_fra.Base.{
  ℕ, suc, Bytes, Bool, true, false, List, [], ◌∷◌, ◌++◌, Option, none, some, Result, ok, err,
  Exception, if◌then◌else◌, lookup, insert, length, holds, remove,
}

-- What the factory passed to `get` does.
pub data Prepared : Type 0 where
  prepared : Prepared
  null_statement : Prepared
  factory_throws : Exception → Prepared

pub record Statements : Type 0 where
  pub cache : List (Bytes × Option ℕ)
  pub held : List ℕ
  pub next : ℕ

-- `it != end() && !it->second.expired()`, with the statement that `lock()` gives.
unfoldable pub live : Statements → Option (Option ℕ) → Option ℕ
live s none = none
live s (some none) = none
live s (some (some id)) = if holds id s.held then some id else none

-- The part of `get` that makes a new statement.
unfoldable pub create : Statements → Bytes → Prepared → Result (Option ℕ) × Statements
create s sql prepared = (
  ok (some s.next),
  record { cache = insert sql (some s.next) s.cache; held = s.next ∷ s.held; next = suc s.next },
)
create s sql null_statement =
    (ok none, record s { cache = insert sql none s.cache; next = suc s.next })
create s sql (factory_throws e) = (err e, record s { next = suc s.next })

-- The caller holds the shared pointer that it gets.
unfoldable pub get : Statements → Bytes → Prepared → Result (Option ℕ) × Statements
unfolding live
get s sql factory = elim (live s (lookup sql s.cache)) [
  | some id ↦ (ok (some id), record s { held = id ∷ s.held })
  | none ↦ create s sql factory
]

unfoldable pub clear : Statements → Statements
clear s = record s { cache = [] }

unfoldable pub size : Statements → ℕ
size s = length s.cache

-- A client lets one of its shared pointers go.
unfoldable pub drop_pointer : Statements → ℕ → Statements
drop_pointer s id = record s { held = remove id s.held }
