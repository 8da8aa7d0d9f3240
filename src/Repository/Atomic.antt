-- ===== src/Repository/Atomic.antt =====
-- `insertBatch` inserts all or nothing.
use hft_legacy_migration_fra.Base.{◌≡◌, ◌≢◌, Bytes, List, [], codes}
use hft_legacy_migration_fra.Repository.Session.{command_ok, no_result, Server}
use hft_legacy_migration_fra.Repository.Entity.{Column, Traits, insert_all}
use hft_legacy_migration_fra.Repository.Placeholders.{kept, bound_texts, insert_text}

-- What PostgreSQL documents of transactions: what other sessions see is the same while a transaction
-- is open and the entities of a table are inserted, until a COMMIT that succeeds. Nothing is said of a
-- COMMIT without an answer, after which the transaction may be committed or not.
pub record Transactional (server : Server) (t : Traits) : Type 1 where
  pub Store : Type 0
  pub store : server.State → Store
  pub Open : server.State → Type 0
  pub begin_store : (db : server.State) → store (server.send db (codes "BEGIN") []).1 ≡ store db
  pub begin_opens :
      (db : server.State)
      → (server.send db (codes "BEGIN") []).0 ≡ command_ok
      → Open (server.send db (codes "BEGIN") []).1
  pub insert_store :
      (db : server.State) (e : List Column)
      → Open db
      → store (server.send db (insert_text t e) (bound_texts (kept t e))).1 ≡ store db
  pub insert_open :
      (db : server.State) (e : List Column)
      → Open db
      → Open (server.send db (insert_text t e) (bound_texts (kept t e))).1
  pub rollback_store :
      (db : server.State) → store (server.send db (codes "ROLLBACK") []).1 ≡ store db
  pub commit_store :
      (db : server.State)
      → (server.send db (codes "COMMIT") []).0 ≢ command_ok
      → ((message : Bytes) → (server.send db (codes "COMMIT") []).0 ≢ no_result message)
      → store (server.send db (codes "COMMIT") []).1 ≡ store db

module _ (server : Server) (t : Traits) (laws : Transactional server t) where
  -- If all INSERTs go through, the COMMIT behind them is answered.
  abbrev pub Replied : List (List Column) → server.State → Type 0
  Replied es db =
      (message : Bytes)
      → (server.send (insert_all server t es db).1 (codes "COMMIT") []).0 ≢ no_result message
