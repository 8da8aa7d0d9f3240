-- ===== src/Db/Postgres.antt =====
-- src/db/PostgreSQLConnection.cpp. Behind libpq is a server: it answers each command by what was sent
-- before it. The static counter of the statements' names is kept with the connection. No text holds a
-- NUL, at which `c_str()` would end it.
pub mod Lifetime
use hft_legacy_migration_fra.Base.{
  ℕ, zero, suc, ◌+◌, Bytes, Bool, true, false, ◌&&◌, not, List, [], ◌∷◌, ◌++◌, Option, none, some,
  codes, ltb, ◌==◌, if◌then◌else◌, length, get_elem?, to_string,
}
use hft_legacy_migration_fra.Base.Int.{ℤ, pos, negsuc}
use hft_legacy_migration_fra.Base.Run.{Run, done, undefined}
use hft_legacy_migration_fra.Values.{Value, Row}
use hft_legacy_migration_fra.Catalog.Types.{print_int}
use hft_legacy_migration_fra.Db.Statement.{
  Param, int_param, long_param, double_param, string_param, null_param, put_at, atoi, to_i32,
}
use hft_legacy_migration_fra.Db.Transaction.{Commands}

pub data Command : Type 0 where
  prepare : Bytes → Bytes → ℕ → Command
  exec_prepared : Bytes → List Bytes → List ℕ → List ℕ → Command
  exec : Bytes → Command

pub data Reply : Type 0 where
  tuples_ok : List Row → Reply
  -- with the text of `PQcmdTuples`
  command_ok : Bytes → Reply
  -- any other status, with the error message
  refused : Bytes → Reply

pub record Server : Type 0 where
  -- the error message of `PQconnectdb`, if it fails
  pub connect : Bytes → Option Bytes
  -- the reply to the latest command, which stands first
  pub answer : List Command → Reply
  -- whether the connection is still good
  pub alive : List Command → Bool

pub record Connection : Type 0 where
  pub opened : Bool
  pub last_error : Bytes
  pub sent : List Command
  pub counter : ℕ

pub record Statement : Type 0 where
  pub sql : Bytes
  pub name : Bytes
  pub param_values : List Bytes
  pub param_lengths : List ℕ
  pub param_formats : List ℕ
  pub is_prepared : Bool

-- The text that is kept for a parameter: a null is the empty text.
unfoldable pub kept_text : Param → Bytes
kept_text (int_param n) = print_int n
kept_text (long_param n) = print_int n
kept_text (double_param printed) = printed
kept_text (string_param s) = s
kept_text null_param = []

-- A bind method, by the position `index - 1`.
unfoldable pub bind_at : ℕ → Param → Statement → Statement
unfolding kept_text put_at
bind_at i p stmt = record stmt {
  param_values = put_at [] i (kept_text p) stmt.param_values;
  param_lengths = put_at 0 i 0 stmt.param_lengths;
  param_formats = put_at 0 i 0 stmt.param_formats;
}

-- At index 0 the code writes before the vector's first entry.
unfoldable pub bind : ℕ → Param → Statement → Run Statement
unfolding bind_at
bind zero p stmt = undefined
bind (suc i) p stmt = done (bind_at i p stmt)

unfoldable pub reset : Statement → Statement
reset stmt = record stmt { param_values = []; param_lengths = []; param_formats = [] }

unfoldable pub is_command_ok : Reply → Bool
is_command_ok (tuples_ok rows) = false
is_command_ok (command_ok count) = true
is_command_ok (refused message) = false

unfoldable pub succeeded : Reply → Bool
succeeded (tuples_ok rows) = true
succeeded (command_ok count) = true
succeeded (refused message) = false

unfoldable pub message_of : Reply → Bytes
message_of (tuples_ok rows) = []
message_of (command_ok count) = []
message_of (refused message) = message

-- `executeQuery` on the result: a null pointer unless there are rows.
unfoldable pub rows_of : Reply → Option (List Row)
rows_of (tuples_ok rows) = some rows
rows_of (command_ok count) = none
rows_of (refused message) = none

-- `executeUpdate` on the result.
unfoldable pub affected : Reply → ℤ
affected (tuples_ok rows) = pos 0
affected (command_ok count) = atoi count
affected (refused message) = pos 0

unfoldable pub construct : ℕ → Connection
construct counter = record { opened = false; last_error = []; sent = []; counter = counter }

module _ (server : Server) where
  -- A command through a null connection fails in libpq and reaches no server.
  unfoldable pub send : Command → Connection → Reply × Connection
  send c db =
      if db.opened
      then (server.answer (c ∷ db.sent), record db { sent = c ∷ db.sent })
      else (refused (codes "connection pointer is NULL\n"), db)

  unfoldable pub open_connection : Bytes → Connection → Bool × Connection
  open_connection text db = elim (server.connect text) [
    | none ↦ (true, record db { opened = true })
    | some message ↦ (false, record db { opened = false; last_error = message })
  ]

  unfoldable pub close : Connection → Connection
  close db = record db { opened = false }

  unfoldable pub is_open : Connection → Bool
  is_open db = db.opened && server.alive db.sent

  unfoldable pub execute : Bytes → Connection → Bool × Connection
  unfolding succeeded message_of
  execute sql db =
      let (reply, after) = send (exec sql) db in
      if succeeded reply
      then (true, after)
      else (false, record after { last_error = message_of reply })

  unfoldable pub create_statement : Bytes → Connection → Statement × Connection
  create_statement sql db = (
    record {
      sql = sql;
      name = codes "stmt_" ++ to_string db.counter;
      param_values = [];
      param_lengths = [];
      param_formats = [];
      is_prepared = false;
    },
    record db { counter = suc db.counter },
  )

  -- The first part of `executeQuery` and `executeUpdate`.
  unfoldable pub ensure_prepared : Statement → Connection → Statement × Connection
  unfolding is_command_ok
  ensure_prepared stmt db =
      if stmt.is_prepared
      then (stmt, db)
      else (let (reply, after) = send (prepare stmt.name stmt.sql (length stmt.param_values)) db in
          (record stmt { is_prepared = is_command_ok reply }, after))

  unfoldable pub exec_statement : Statement → Connection → Reply × Connection
  exec_statement stmt =
      send (exec_prepared stmt.name stmt.param_values stmt.param_lengths stmt.param_formats)

  unfoldable pub execute_query :
      Statement → Connection → Option (List Row) × (Statement × Connection)
  unfolding ensure_prepared exec_statement rows_of
  execute_query stmt db =
      let (ready, after) = ensure_prepared stmt db in
      if ready.is_prepared
      then (let (reply, later) = exec_statement ready after in (rows_of reply, (ready, later)))
      else (none, (ready, after))

  unfoldable pub execute_update : Statement → Connection → ℤ × (Statement × Connection)
  unfolding ensure_prepared exec_statement affected
  execute_update stmt db =
      let (ready, after) = ensure_prepared stmt db in
      if ready.is_prepared
      then (let (reply, later) = exec_statement ready after in (affected reply, (ready, later)))
      else (negsuc 0, (ready, after))

  abbrev deallocate : Statement → Command
  deallocate stmt = exec (codes "DEALLOCATE " ++ stmt.name)

  -- The destructor of a statement.
  unfoldable pub destroy : Statement → Connection → Connection
  destroy stmt db = if stmt.is_prepared then (send (deallocate stmt) db).1 else db

unfoldable pub transaction_commands : Commands
transaction_commands = record {
  begin_text = codes "BEGIN";
  commit_text = codes "COMMIT";
  rollback_text = codes "ROLLBACK";
}

-- PostgreSQLResultSet: a cell of the current row. `PQgetisnull` and `PQgetvalue` take a column that
-- is not there for null.
unfoldable pub cell : Row → ℕ → Value
cell row index = elim (get_elem? row index) [ none ↦ none | some v ↦ v ]

unfoldable pub is_null : Row → ℕ → Bool
is_null row index = elim (cell row index) [ none ↦ true | some text ↦ false ]

unfoldable pub get_int : Row → ℕ → ℤ
get_int row index = elim (cell row index) [ none ↦ pos 0 | some text ↦ to_i32 (atoi text) ]

unfoldable pub get_long : Row → ℕ → ℤ
get_long row index = elim (cell row index) [ none ↦ pos 0 | some text ↦ atoi text ]

unfoldable pub get_string : Row → ℕ → Bytes
get_string row index = elim (cell row index) [ none ↦ [] | some text ↦ text ]
