-- ===== src/Db/Postgres/Lifetime.antt =====
-- What a statement of PostgreSQLStatement has sent from its constructor to its destructor.
use hft_legacy_migration_fra.Base.{
  ℕ, ◌+◌, ◌≤◌, ◌≡◌, ◌++◌, Bytes, Bool, true, false, ◌&&◌, List, [], ◌∷◌, codes, to_string, eqb,
  eqb_refl, arith,
}
use hft_legacy_migration_fra.Db.Statement.{Param}
use hft_legacy_migration_fra.Db.Postgres.{
  Command, prepare, exec_prepared, exec, Server, Connection, Statement, bind_at, reset,
  is_command_ok, send, create_statement, ensure_prepared, exec_statement, execute_query,
  execute_update, destroy,
}

pub data Use : Type 0 where
  -- at the index one above
  binds : ℕ → Param → Use
  queries updates resets : Use

abbrev pub number : Bool → ℕ
number true = 1
number false = 0

-- The command prepares a statement of this name.
abbrev pub is_prepare : Bytes → Command → Bool
is_prepare own (prepare name sql count) = eqb name own
is_prepare own (exec_prepared name values lengths formats) = false
is_prepare own (exec sql) = false

-- The command drops the statement of this name.
abbrev pub is_deallocate : Bytes → Command → Bool
is_deallocate own (prepare name sql count) = false
is_deallocate own (exec_prepared name values lengths formats) = false
is_deallocate own (exec sql) = eqb sql (codes "DEALLOCATE " ++ own)

module _ (server : Server) where
  -- How many prepared statements of a name the server was asked for and made.
  unfoldable pub made : Bytes → List Command → ℕ
  unfolding is_command_ok
  made own [] = 0
  made own (c ∷ sent) =
      number (is_prepare own c && is_command_ok (server.answer (c ∷ sent))) + made own sent

  -- How many of the name it was asked to drop.
  unfoldable pub dropped : Bytes → List Command → ℕ
  dropped own [] = 0
  dropped own (c ∷ sent) = number (is_deallocate own c) + dropped own sent

  unfoldable pub use_once : Use → Statement × Connection → Statement × Connection
  use_once (binds i p) (stmt, db) = (bind_at i p stmt, db)
  use_once queries (stmt, db) = (execute_query server stmt db).1
  use_once updates (stmt, db) = (execute_update server stmt db).1
  use_once resets (stmt, db) = (reset stmt, db)

  unfoldable pub use_all : List Use → Statement × Connection → Statement × Connection
  use_all [] s = s
  use_all (u ∷ us) s = use_all us (use_once u s)

  -- The statement is prepared just if one more was made than before, and then the connection is open.
  record Holds (own : Bytes) (before : Connection) (stmt : Statement) (db : Connection)
      : Type 0 where
    named : stmt.name ≡ own
    one : made own db.sent ≡ made own before.sent + number stmt.is_prepared
    kept : dropped own db.sent ≡ dropped own before.sent
    live : stmt.is_prepared ≡ true → db.opened ≡ true

  ensure_prepared-Holds :
      (own : Bytes) (before : Connection) (stmt : Statement) (db : Connection)
      → Holds own before stmt db
      → Holds own before (ensure_prepared server stmt db).0 (ensure_prepared server stmt db).1
  unfolding ensure_prepared send made dropped is_command_ok
  ensure_prepared-Holds own before stmt db h = ground (arith, eqb_refl own)

  exec_statement-Holds :
      (own : Bytes) (before : Connection) (stmt : Statement) (db : Connection)
      → Holds own before stmt db
      → Holds own before stmt (exec_statement server stmt db).1
  unfolding exec_statement send made dropped
  exec_statement-Holds own before stmt db h = ground arith

  use_once-Holds :
      (own : Bytes) (before : Connection) (u : Use) (stmt : Statement) (db : Connection)
      → Holds own before stmt db
      → Holds own before (use_once u (stmt, db)).0 (use_once u (stmt, db)).1
  unfolding use_once bind_at reset execute_query execute_update
  use_once-Holds own before (binds i p) stmt db h = ground arith
  use_once-Holds own before queries stmt db h = ground (
    arith,
    ensure_prepared-Holds own before stmt db,
    exec_statement-Holds own before (ensure_prepared server stmt db).0
        (ensure_prepared server stmt db).1,
  )
  use_once-Holds own before updates stmt db h = ground (
    arith,
    ensure_prepared-Holds own before stmt db,
    exec_statement-Holds own before (ensure_prepared server stmt db).0
        (ensure_prepared server stmt db).1,
  )
  use_once-Holds own before resets stmt db h = ground arith

  use_all-Holds :
      (own : Bytes) (before : Connection) (us : List Use) (stmt : Statement) (db : Connection)
      → Holds own before stmt db
      → Holds own before (use_all us (stmt, db)).0 (use_all us (stmt, db)).1
  unfolding use_all
  use_all-Holds own before [] stmt db h = h
  use_all-Holds own before (u ∷ us) stmt db h =
      use_all-Holds own before us (use_once u (stmt, db)).0 (use_once u (stmt, db)).1
        (use_once-Holds own before u stmt db h)

  destroy_drops :
      (own : Bytes) (before : Connection) (stmt : Statement) (db : Connection)
      → Holds own before stmt db
      → (made own (destroy server stmt db).sent ≡ made own before.sent + number stmt.is_prepared)
        × (dropped own (destroy server stmt db).sent
            ≡ dropped own before.sent + number stmt.is_prepared)
  unfolding destroy send made dropped
  destroy_drops own before stmt db h = ground (arith, eqb_refl (codes "DEALLOCATE " ++ own))

  -- The name of the statement that is made next.
  abbrev pub next_name : Connection → Bytes
  next_name db = codes "stmt_" ++ to_string db.counter

  -- A statement that is made, used in any way and destroyed gets a name with the connection's counter.
  -- Under that name the server makes at most one prepared statement for it, and is asked to drop it by
  -- a DEALLOCATE of that very name just if it made one. Whether it then drops it is up to the server.
  pub destroy-use_all :
      (sql : Bytes) (us : List Use) (db : Connection)
      → let last = use_all us (create_statement server sql db) in
        let after = destroy server last.0 last.1 in
        let own = next_name db in
        (made own after.sent ≤ made own db.sent + 1)
        × (made own after.sent + dropped own db.sent ≡ made own db.sent + dropped own after.sent)
  unfolding create_statement
  destroy-use_all sql us db =
      let made_one = create_statement server sql db in
      let last = use_all us made_one in
      ground (
        arith,
        destroy_drops (next_name db) db last.0 last.1,
        use_all-Holds (next_name db) db us made_one.0 made_one.1,
      )
