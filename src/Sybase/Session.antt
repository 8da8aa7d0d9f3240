-- ===== src/Sybase/Session.antt =====
-- What the classes of src/sybase send and hold.
use hft_legacy_migration_fra.Base.{
  ℕ, ◌≡◌, refl, ap, ◌∙◌, inl, inr, Bytes, Bool, true, false, List, [], ◌∷◌, Result, ok, err,
  Exception, codes, arith, if◌then◌else◌, Result-cases,
}
use hft_legacy_migration_fra.Db.Sybase.{
  Library, Event, Batch, sent, cmd_failed, exec_failed, results,
}
use hft_legacy_migration_fra.Db.Sybase.Handles.{logins, processes}
use hft_legacy_migration_fra.Sybase.Placeholders.{build_final_sql}
use hft_legacy_migration_fra.Sybase.Connection.{
  Connection, PreparedStatement, first_result, make_reader, connect, construct, destroy, send,
  command, query, execute_query, begin_transaction, execute_prepared, execute_update, commit,
  rollback, finish,
}

pub data Use : Type 0 where
  queries : Bytes → Use
  begins : Use
  runs updates : PreparedStatement → Use
  commits rolls_back : Use

abbrev number : Bool → ℕ
number true = 1
number false = 0

module _ (lib : Library) where
  -- With a transaction that is active.
  unfoldable pub use_once : Use → Connection → Connection
  use_once (queries sql) db = (execute_query lib sql db).1
  use_once begins db = (begin_transaction lib db).1
  use_once (runs stmt) db = (execute_prepared lib stmt db).1
  use_once (updates stmt) db = (execute_update lib stmt db).1
  use_once commits db = (commit lib (true, db)).1.1
  use_once rolls_back db = (rollback lib (true, db)).1.1

  unfoldable pub use_all : List Use → Connection → Connection
  use_all [] db = db
  use_all (u ∷ us) db = use_all us (use_once u db)

  record Owns (db : Connection) : Type 0 where
    no_login : logins db.events ≡ 0
    held_processes : processes db.events ≡ number db.process

  command-Owns : (place sql : Bytes) (db : Connection) → Owns db → Owns (command lib place sql db).1
  unfolding command send logins processes
  command-Owns place sql db h = ground arith

  query-Owns : (place sql : Bytes) (db : Connection) → Owns db → Owns (query lib place sql db).1
  unfolding query send logins processes
  query-Owns place sql db h = ground arith

  finish-Owns :
      (place sql : Bytes) (db : Connection) → Owns db → Owns (finish lib place sql (true, db)).1.1
  unfolding finish
  finish-Owns place sql db h = elim (Result-cases (command lib place sql db).0) [
    | inl (e, failed) ↦ rw (failed, finish) (command-Owns place sql db h)
    | inr (u, fine) ↦ rw (fine, finish) (command-Owns place sql db h)
  ]

  use_once-Owns : (u : Use) (db : Connection) → Owns db → Owns (use_once u db)
  unfolding use_once execute_query begin_transaction execute_prepared execute_update commit rollback
  use_once-Owns (queries sql) db h = query-Owns (codes "SybConnection::executeQuery") sql db h
  use_once-Owns begins db h =
      command-Owns (codes "SybConnection::beginTransaction") (codes "BEGIN TRAN") db h
  use_once-Owns (runs stmt) db h =
      query-Owns (codes "SybPreparedStatement::executeQuery") (build_final_sql stmt.params stmt.sql)
        db h
  use_once-Owns (updates stmt) db h =
      command-Owns (codes "SybPreparedStatement::executeUpdate")
        (build_final_sql stmt.params stmt.sql) db h
  use_once-Owns commits db h =
      finish-Owns (codes "SybTransaction::commit") (codes "COMMIT TRAN") db h
  use_once-Owns rolls_back db h =
      finish-Owns (codes "SybTransaction::rollback") (codes "ROLLBACK TRAN") db h

  use_all-Owns : (us : List Use) (db : Connection) → Owns db → Owns (use_all us db)
  unfolding use_all
  use_all-Owns [] db h = h
  use_all-Owns (u ∷ us) db h = use_all-Owns us (use_once u db) (use_once-Owns u db h)

  construct-Owns :
      (initialized : Bool) (conninfo : Bytes) → Owns (construct lib initialized conninfo).1
  unfolding construct connect logins processes
  construct-Owns initialized conninfo = ground arith

  destroyed :
      (db : Connection)
      → Owns db
      → (logins (destroy lib db).events ≡ 0) × (processes (destroy lib db).events ≡ 0)
  unfolding destroy logins processes
  destroyed db h = ground arith

  thrown_closed :
      (initialized : Bool) (conninfo : Bytes) (e : Exception)
      → (construct lib initialized conninfo).0 ≡ err e
      → (construct lib initialized conninfo).1.process ≡ false
  unfolding construct connect
  thrown_closed initialized conninfo e h = ground arith

  -- What is left of a connection: behind an exception of the constructor no destructor runs.
  unfoldable pub lifetime : List Use → Result (Unit {0}) × Connection → Connection
  lifetime us (ok made, db) = destroy lib (use_all us db)
  lifetime us (err e, db) = db

  lifetime_empty :
      (us : List Use) (r : Result (Unit {0})) (db : Connection)
      → Owns db
      → ((e : Exception) → r ≡ err e → db.process ≡ false)
      → (logins (lifetime us (r, db)).events ≡ 0) × (processes (lifetime us (r, db)).events ≡ 0)
  unfolding lifetime
  lifetime_empty us (ok made) db h closed = destroyed (use_all us db) (use_all-Owns us db h)
  lifetime_empty us (err e) db h closed = (h.no_login, h.held_processes ∙ ap number (closed e refl))

  -- A SybConnection leaves no login record and no process in DB-Library, whichever of its calls fails:
  -- neither where the constructor throws, behind which no destructor runs, nor where the connection
  -- was made, used in any way and destroyed.
  pub lifetime-construct :
      (initialized : Bool) (conninfo : Bytes) (us : List Use)
      → let last = lifetime us (construct lib initialized conninfo) in
        (logins last.events ≡ 0) × (processes last.events ≡ 0)
  lifetime-construct initialized conninfo us =
      lifetime_empty us (construct lib initialized conninfo).0
        (construct lib initialized conninfo).1 (construct-Owns initialized conninfo)
        (thrown_closed initialized conninfo)

  first_result_throws :
      (place : Bytes) (reply : Batch) → (e : Exception) × (first_result place reply ≡ err e)
  unfolding first_result make_reader
  first_result_throws place cmd_failed = (_, refl)
  first_result_throws place exec_failed = (_, refl)
  first_result_throws place (results [] rows count) = (_, refl)
  first_result_throws place (results (true ∷ outcomes) rows count) = (_, refl)
  first_result_throws place (results (false ∷ outcomes) rows count) = (_, refl)

  abbrev pub after_sending : Bytes → Connection → List Event
  after_sending sql db = if db.process then sent sql ∷ db.events else db.events

  query_throws :
      (place sql : Bytes) (db : Connection)
      → ((e : Exception) × ((query lib place sql db).0 ≡ err e))
        × ((query lib place sql db).1.events ≡ after_sending sql db)
  unfolding query send
  query_throws place sql db = go db.process
    where
      go :
          (b : Bool)
          → let live : Connection = record { process = b; events = db.events } in
            ((e : Exception) × ((query lib place sql live).0 ≡ err e))
            × ((query lib place sql live).1.events ≡ after_sending sql live)
      go true = (first_result_throws place (send lib sql db).0, refl)
      go false = ((_, refl), refl)

  -- `executeQuery` of a connection and of a prepared statement throws on every server, also where the
  -- query has succeeded; on a connection that is not null the command was sent before.
  pub execute_query_throws :
      (sql : Bytes) (stmt : PreparedStatement) (db : Connection)
      → (((e : Exception) × ((execute_query lib sql db).0 ≡ err e))
          × ((execute_query lib sql db).1.events ≡ after_sending sql db))
        × (((e : Exception) × ((execute_prepared lib stmt db).0 ≡ err e))
            × ((execute_prepared lib stmt db).1.events
                ≡ after_sending (build_final_sql stmt.params stmt.sql) db))
  unfolding execute_query execute_prepared
  execute_query_throws sql stmt db = (
    query_throws (codes "SybConnection::executeQuery") sql db,
    query_throws (codes "SybPreparedStatement::executeQuery") (build_final_sql stmt.params stmt.sql)
        db,
  )
