-- ===== src/Db/Sybase.antt =====
-- src/db/SybaseConnection.cpp. Behind DB-Library is a server: each of its answers depends on what was
-- called before.
pub mod Handles
pub mod Sent
use hft_legacy_migration_fra.Base.{
  ℕ, zero, suc, Bytes, Bool, true, false, ◌&&◌, not, List, [], ◌∷◌, ◌++◌, Option, none, some, codes,
  if◌then◌else◌, get_elem?, eqb,
}
use hft_legacy_migration_fra.Base.Int.{ℤ, negsuc}
use hft_legacy_migration_fra.Base.Run.{Run, done, undefined}
use hft_legacy_migration_fra.Values.{Value, Row}
use hft_legacy_migration_fra.Sql.{escape_name, quote}
use hft_legacy_migration_fra.Catalog.Types.{print_int}
use hft_legacy_migration_fra.Sybase.ConnInfo.{Settings, no_settings, parse_conn_info}
use hft_legacy_migration_fra.Sybase.Placeholders.{build_sql}
use hft_legacy_migration_fra.Db.Statement.{
  Param, int_param, long_param, double_param, string_param, null_param, put_at,
}
use hft_legacy_migration_fra.Db.Transaction.{Commands}

-- What was called with success, and the commands that were sent.
pub data Event : Type 0 where
  login_made login_freed : Event
  -- by `dbopen`, with the user, the password and the server
  process_made : Bytes → Bytes → Bytes → Event
  process_closed : Event
  database_used : Bytes → Event
  sent : Bytes → Event

-- What becomes of `dbcmd`, `dbsqlexec` and then `dbresults`.
pub data Batch : Type 0 where
  cmd_failed exec_failed : Batch
  -- each answer of `dbresults` before NO_MORE_RESULTS, true for SUCCEED; the rows of the first
  -- result; `dbcount` after it
  results : List Bool → List Row → ℤ → Batch

pub record Library : Type 0 where
  pub dbinit : Bool
  pub dblogin : List Event → Bool
  pub dbopen : Settings → List Event → Bool
  pub dbuse : Bytes → List Event → Bool
  pub dbdead : List Event → Bool
  -- the reply to the latest command, which stands first
  pub answer : List Event → Batch

-- Whether `login_` and `dbproc_` are not null.
pub record Connection : Type 0 where
  pub login : Bool
  pub process : Bool
  pub last_error : Bytes
  pub events : List Event

pub record Statement : Type 0 where
  pub sql : Bytes
  pub param_values : List Bytes

-- The text that is kept for a parameter.
unfoldable pub kept_text : Param → Bytes
unfolding escape_name
kept_text (int_param n) = print_int n
kept_text (long_param n) = print_int n
kept_text (double_param printed) = printed
kept_text (string_param s) = quote ∷ (escape_name s ++ quote ∷ [])
kept_text null_param = codes "NULL"

-- A bind method, by the position `index - 1`.
unfoldable pub bind_at : ℕ → Param → Statement → Statement
unfolding kept_text put_at
bind_at i p stmt = record stmt { param_values = put_at [] i (kept_text p) stmt.param_values }

-- At index 0 the code writes before the vector's first entry.
unfoldable pub bind : ℕ → Param → Statement → Run Statement
unfolding bind_at
bind zero p stmt = undefined
bind (suc i) p stmt = done (bind_at i p stmt)

unfoldable pub create_statement : Bytes → Statement
create_statement sql = record { sql = sql; param_values = [] }

unfoldable pub reset : Statement → Statement
reset stmt = record stmt { param_values = [] }

-- The loop over `dbresults` in `execute`.
unfoldable pub all_processed : List Bool → Bool
all_processed [] = true
all_processed (outcome ∷ outcomes) = outcome && all_processed outcomes

-- `execute` on the reply: none, or the error that it keeps.
unfoldable pub complaint : Batch → Option Bytes
unfolding all_processed
complaint cmd_failed = some (codes "Failed to set command")
complaint exec_failed = some (codes "Failed to execute command")
complaint (results outcomes rows count) =
    if all_processed outcomes then none else some (codes "Failed to process results")

-- `executeQuery` on the reply: a null pointer unless the first result is there.
unfoldable pub rows_of : Batch → Option (List Row)
rows_of cmd_failed = none
rows_of exec_failed = none
rows_of (results [] rows count) = none
rows_of (results (outcome ∷ outcomes) rows count) = if outcome then some rows else none

-- `executeUpdate` on the reply.
unfoldable pub affected : Batch → ℤ
affected cmd_failed = negsuc 0
affected exec_failed = negsuc 0
affected (results [] rows count) = count
affected (results (outcome ∷ outcomes) rows count) = if outcome then count else negsuc 0

abbrev log : Event → Connection → Connection
log e db = record db { events = e ∷ db.events }

abbrev failed : Bytes → Connection → Bool × Connection
failed message db = (false, record db { last_error = message })

module _ (lib : Library) where
  -- The constructor, by the static `initialized_`.
  unfoldable pub construct : Bool → Bool × Connection
  construct initialized =
      let message =
        if not initialized && not lib.dbinit then codes "Failed to initialize DB-Library" else [] in
      (
        if initialized then true else lib.dbinit,
        record { login = false; process = false; last_error = message; events = [] },
      )

  -- `open` behind `dbopen`. With no database in the text, `dbuse` is not called.
  unfoldable pub use_database : Bytes → Connection → Bool × Connection
  use_database database db =
      if eqb database []
      then (true, db)
      else if lib.dbuse database db.events
      then (true, log (database_used database) db)
      else failed (codes "Failed to use database")
          (record (log login_freed (log process_closed db)) { process = false; login = false })

  -- `open` behind `dblogin`.
  unfoldable pub open_process : Settings → Connection → Bool × Connection
  unfolding use_database
  open_process s db =
      if lib.dbopen s db.events
      then use_database s.database
          (record (log (process_made s.user s.password s.server) db) { process = true })
      else failed (codes "Failed to connect to server")
          (record (log login_freed db) { process = false; login = false })

  unfoldable pub open_connection : Bytes → Connection → Bool × Connection
  unfolding open_process parse_conn_info
  open_connection text db =
      let s = parse_conn_info text no_settings in
      if lib.dblogin db.events
      then open_process s (record (log login_made db) { login = true })
      else failed (codes "Failed to allocate login structure") (record db { login = false })

  abbrev close_process : Connection → Connection
  close_process db = if db.process then record (log process_closed db) { process = false } else db

  abbrev free_login : Connection → Connection
  free_login db = if db.login then record (log login_freed db) { login = false } else db

  -- `close`, and the destructor.
  unfoldable pub close : Connection → Connection
  close db = free_login (close_process db)

  unfoldable pub is_open : Connection → Bool
  is_open db = db.process && not (lib.dbdead db.events)

  -- A command through a null handle fails in DB-Library and reaches no server.
  unfoldable pub send : Bytes → Connection → Batch × Connection
  send sql db =
      if db.process
      then (lib.answer (sent sql ∷ db.events), log (sent sql) db)
      else (cmd_failed, db)

  unfoldable pub execute : Bytes → Connection → Bool × Connection
  unfolding send complaint
  execute sql db =
      let (reply, after) = send sql db in
      elim (complaint reply) [ none ↦ (true, after) | some message ↦ failed message after ]

  unfoldable pub execute_query : Statement → Connection → Option (List Row) × Connection
  unfolding send rows_of build_sql
  execute_query stmt db =
      let (reply, after) = send (build_sql stmt.param_values stmt.sql) db in (rows_of reply, after)

  unfoldable pub execute_update : Statement → Connection → ℤ × Connection
  unfolding send affected build_sql
  execute_update stmt db =
      let (reply, after) = send (build_sql stmt.param_values stmt.sql) db in (affected reply, after)

unfoldable pub transaction_commands : Commands
transaction_commands = record {
  begin_text = codes "BEGIN TRANSACTION";
  commit_text = codes "COMMIT TRANSACTION";
  rollback_text = codes "ROLLBACK TRANSACTION";
}

-- SybaseResultSet: the data of a cell of the current row, which is null for a null and for a column
-- that is not there.
unfoldable pub data_of : Row → ℕ → Value
data_of row index = elim (get_elem? row index) [ none ↦ none | some v ↦ v ]

unfoldable pub get_string : Row → ℕ → Bytes
get_string row index = elim (data_of row index) [ none ↦ [] | some bytes ↦ bytes ]

unfoldable pub is_null : Row → ℕ → Bool
is_null row index = elim (data_of row index) [ none ↦ true | some bytes ↦ false ]
