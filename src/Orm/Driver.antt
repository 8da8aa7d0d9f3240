-- ===== src/Orm/Driver.antt =====
-- The interfaces IConnection, IStatement and IResultSet of include/hft/db, as the repository uses
-- them, with what it relies on.
use hft_legacy_migration_fra.Base.{ℕ, ◌≡◌, Bytes, Bool, List, [], ◌∷◌, ◌++◌, Option, length}
use hft_legacy_migration_fra.Base.Int.{ℤ}
use hft_legacy_migration_fra.Values.{Row}
use hft_legacy_migration_fra.Db.Statement.{Param}

pub record Driver (Db Statement : Type 0) : Type 0 where
  pub create : Bytes → Db → Statement × Db
  -- a bind method, by the position `index - 1`
  pub bind : ℕ → Param → Statement → Statement
  -- the rows of the result set, none for a null pointer
  pub query : Statement → Db → Option (List Row) × (Statement × Db)
  pub update : Statement → Db → ℤ × (Statement × Db)
  -- the destructor of the statement
  pub destroy : Statement → Db → Db
  pub is_null : Row → ℕ → Bool
  pub get_int : Row → ℕ → ℤ
  pub get_long : Row → ℕ → ℤ
  -- the double by its printed text
  pub get_double : Row → ℕ → Bytes
  pub get_string : Row → ℕ → Bytes

-- A statement keeps its SQL text, and a text for each parameter; one that is bound behind the last is
-- added.
pub record Laws {Db Statement : Type 0} (driver : Driver Db Statement) : Type 0 where
  pub sql_of : Statement → Bytes
  pub texts_of : Statement → List Bytes
  pub render : Param → Bytes
  pub create_sql : (sql : Bytes) (db : Db) → sql_of (driver.create sql db).0 ≡ sql
  pub create_texts : (sql : Bytes) (db : Db) → texts_of (driver.create sql db).0 ≡ []
  pub bind_sql : (i : ℕ) (p : Param) (s : Statement) → sql_of (driver.bind i p s) ≡ sql_of s
  pub bind_texts :
      (p : Param) (s : Statement)
      → texts_of (driver.bind (length (texts_of s)) p s) ≡ texts_of s ++ render p ∷ []
