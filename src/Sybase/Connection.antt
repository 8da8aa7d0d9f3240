-- ===== src/Sybase/Connection.antt =====
-- src/sybase: SybConnection, SybReader's constructor, SybPreparedStatement and SybTransaction, on the
-- same DB-Library as the older classes of src/db/SybaseConnection.cpp.
use hft_legacy_migration_fra.Base.{
  zero, suc, Bytes, Bool, true, false, ◌&&◌, not, List, [], ◌∷◌, ◌++◌, Option, none, some, Result,
  ok, err, Exception, db_exception, codes, if◌then◌else◌, eqb,
}
use hft_legacy_migration_fra.Base.Int.{ℤ, pos, negsuc}
use hft_legacy_migration_fra.Values.{Row}
use hft_legacy_migration_fra.Sql.{double_quotes, quote}
use hft_legacy_migration_fra.Catalog.Types.{print_int}
use hft_legacy_migration_fra.Db.Statement.{put_at}
use hft_legacy_migration_fra.Db.Sybase.{
  Library, Event, login_made, login_freed, process_made, process_closed, database_used, sent, Batch,
  cmd_failed, exec_failed, results,
}
use hft_legacy_migration_fra.Sybase.ConnInfo.{Settings, no_settings, parse_conn_info}
use hft_legacy_migration_fra.Sybase.Placeholders.{build_final_sql}

-- Whether `_dbproc` is not null, and the calls of DB-Library.
pub record Connection : Type 0 where
  pub process : Bool
  pub events : List Event

pub record PreparedStatement : Type 0 where
  pub sql : Bytes
  pub params : List Bytes

-- A double is known by the text that `std::to_string` makes of it.
pub data Param : Type 0 where
  int_param : ℤ → Param
  double_param : Bytes → Param
  string_param : Bytes → Param

unfoldable pub kept_text : Param → Bytes
unfolding double_quotes
kept_text (int_param n) = print_int n
kept_text (double_param printed) = printed
kept_text (string_param s) = quote ∷ (double_quotes s ++ quote ∷ [])

abbrev pub bind_name : Param → Bytes
bind_name (int_param n) = codes "bindInt"
bind_name (double_param printed) = codes "bindDouble"
bind_name (string_param s) = codes "bindString"

abbrev pub refuse_index : Param → Result PreparedStatement
refuse_index p =
    err (db_exception (codes "SybPreparedStatement::" ++ (bind_name p ++ codes ": index <= 0")))

-- `bindInt`, `bindDouble` and `bindString`.
unfoldable pub bind : ℤ → Param → PreparedStatement → Result PreparedStatement
unfolding kept_text put_at
bind (negsuc n) p stmt = refuse_index p
bind (pos zero) p stmt = refuse_index p
bind (pos (suc i)) p stmt = ok (record stmt { params = put_at [] i (kept_text p) stmt.params })

-- `dbcmd` and `dbsqlexec`: the error of the first that fails.
unfoldable pub batch_error : Bytes → Batch → Option Exception
batch_error place cmd_failed = some (db_exception (place ++ codes ": dbcmd failed"))
batch_error place exec_failed = some (db_exception (place ++ codes ": dbsqlexec failed"))
batch_error place (results outcomes rows count) = none

-- SybReader's constructor, which takes no part of the process that it is given.
unfoldable pub make_reader : Batch → Result (List Row)
make_reader reply = err (db_exception (codes "Sybase support not compiled in"))

-- Behind `dbsqlexec` in `executeQuery`: the first result has to be there.
unfoldable pub first_result : Bytes → Batch → Result (List Row)
unfolding make_reader
first_result place cmd_failed = err (db_exception (place ++ codes ": dbcmd failed"))
first_result place exec_failed = err (db_exception (place ++ codes ": dbsqlexec failed"))
first_result place (results [] rows count) =
    err (db_exception (place ++ codes ": dbresults failed"))
first_result place (results (outcome ∷ outcomes) rows count) =
    if outcome
    then make_reader (results (outcome ∷ outcomes) rows count)
    else err (db_exception (place ++ codes ": dbresults failed"))

abbrev log : Event → Connection → Connection
log e db = record db { events = e ∷ db.events }

abbrev null_error : {A : Type 0} → Bytes → Result A
null_error place = err (db_exception (place ++ codes ": Connection is null"))

abbrev pub thrown : Option Exception → Result (Unit {0})
thrown none = ok tt
thrown (some e) = err e

module _ (lib : Library) where
  -- The constructor behind `dblogin`: the login is freed as soon as `dbopen` has returned.
  unfoldable pub connect : Settings → Connection → Result (Unit {0}) × Connection
  connect s db =
      if lib.dbopen s db.events
      then (let opened : Connection =
            record (log login_freed (log (process_made s.user s.password s.server) db)) {
              process = true;
            } in
          if eqb s.database []
          then (ok tt, opened)
          else if lib.dbuse s.database opened.events
          then (ok tt, log (database_used s.database) opened)
          else (
            err (db_exception (codes "Sybase: failed to use database: " ++ s.database)),
            record (log process_closed opened) { process = false },
          ))
      else (
        err (db_exception (codes "Sybase connection failed to server: " ++ s.server)),
        log login_freed db,
      )

  -- The constructor, by the static `_initialized`; with an exception, what it leaves in DB-Library.
  unfoldable pub construct : Bool → Bytes → Result (Unit {0}) × Connection
  unfolding connect parse_conn_info
  construct initialized conninfo =
      let first : Connection = record { process = false; events = [] } in
      if not initialized && not lib.dbinit
      then (err (db_exception (codes "Sybase dbinit() failed")), first)
      else if lib.dblogin []
      then connect (parse_conn_info conninfo no_settings) (log login_made first)
      else (err (db_exception (codes "Sybase dblogin() failed")), first)

  unfoldable pub destroy : Connection → Connection
  destroy db = if db.process then record (log process_closed db) { process = false } else db

  -- A command on a process that is not null.
  unfoldable pub send : Bytes → Connection → Batch × Connection
  send sql db = (lib.answer (sent sql ∷ db.events), log (sent sql) db)

  -- A command whose results are read to their end, and not looked at.
  unfoldable pub command : Bytes → Bytes → Connection → Result (Unit {0}) × Connection
  unfolding send batch_error
  command place sql db =
      if db.process
      then (let (reply, after) = send sql db in (thrown (batch_error place reply), after))
      else (null_error place, db)

  unfoldable pub query : Bytes → Bytes → Connection → Result (List Row) × Connection
  unfolding send first_result
  query place sql db =
      if db.process
      then (let (reply, after) = send sql db in (first_result place reply, after))
      else (null_error place, db)

  unfoldable pub execute_query : Bytes → Connection → Result (List Row) × Connection
  unfolding query
  execute_query = query (codes "SybConnection::executeQuery")

  unfoldable pub prepare : Bytes → Connection → Result PreparedStatement
  prepare sql db =
      if db.process
      then ok (record { sql = sql; params = [] })
      else null_error (codes "SybConnection::prepare")

  unfoldable pub begin_transaction : Connection → Result (Unit {0}) × Connection
  unfolding command
  begin_transaction = command (codes "SybConnection::beginTransaction") (codes "BEGIN TRAN")

  unfoldable pub execute_prepared : PreparedStatement → Connection → Result (List Row) × Connection
  unfolding query build_final_sql
  execute_prepared stmt =
      query (codes "SybPreparedStatement::executeQuery") (build_final_sql stmt.params stmt.sql)

  unfoldable pub execute_update : PreparedStatement → Connection → Result (Unit {0}) × Connection
  unfolding command build_final_sql
  execute_update stmt =
      command (codes "SybPreparedStatement::executeUpdate") (build_final_sql stmt.params stmt.sql)

  -- `commit` and `rollback`: the result, `_active` and the connection.
  unfoldable pub finish :
      Bytes → Bytes → Bool × Connection → Result (Unit {0}) × (Bool × Connection)
  unfolding command
  finish place sql (false, db) = (err (db_exception (place ++ codes ": not active")), (false, db))
  finish place sql (true, db) =
      let (r, after) = command place sql db in
      elim r [ ok done ↦ (ok tt, (false, after)) | err e ↦ (err e, (true, after)) ]

  unfoldable pub commit : Bool × Connection → Result (Unit {0}) × (Bool × Connection)
  unfolding finish
  commit = finish (codes "SybTransaction::commit") (codes "COMMIT TRAN")

  unfoldable pub rollback : Bool × Connection → Result (Unit {0}) × (Bool × Connection)
  unfolding finish
  rollback = finish (codes "SybTransaction::rollback") (codes "ROLLBACK TRAN")

  -- The destructor of a transaction drops what `rollback` throws.
  unfoldable pub destroy_transaction : Bool × Connection → Connection
  unfolding rollback
  destroy_transaction (true, db) = (rollback (true, db)).1.1
  destroy_transaction (false, db) = db
