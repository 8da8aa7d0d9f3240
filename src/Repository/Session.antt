-- ===== src/Repository/Session.antt =====
-- `executeQuery` and `beginTransaction` of src/pg/PgConnection.cpp and src/pg/PgTransaction.cpp. The
-- server is a parameter: what libpq gives for a statement with its parameters, and the state of the
-- server after it. libpq's error message is empty after a command that succeeded.
use hft_legacy_migration_fra.Base.{
  Bytes, Bool, true, false, List, [], ◌++◌, Result, ok, err, db_exception, codes, if◌then◌else◌,
}
use hft_legacy_migration_fra.Values.{Row}

pub data Answer : Type 0 where
  tuples_ok : List Row → Answer
  command_ok : Answer
  -- any other status, with the error message
  refused : Bytes → Answer
  -- a null result, with the error message
  no_result : Bytes → Answer

pub record Server : Type 1 where
  pub State : Type 0
  pub send : State → Bytes → List Bytes → Answer × State

-- What an operation gives, and the server after it.
abbrev pub Outcome : Server → Type 0 → Type 0
Outcome server A = Result A × server.State

abbrev pub failure : {A : Type 0} → Bytes → Bytes → Result A
failure where_ message = err (db_exception (where_ ++ message))

-- `PgConnection::executeQuery` on the answer.
unfoldable pub rows_of : Answer → Result (List Row)
rows_of (tuples_ok rows) = ok rows
rows_of command_ok = failure (codes "PgConnection::executeQuery: ") []
rows_of (refused message) = failure (codes "PgConnection::executeQuery: ") message
rows_of (no_result message) = failure (codes "PgConnection::executeQuery: ") (codes "PQexec failed")

-- A command that must succeed, in `beginTransaction`, `commit` and `rollback`.
unfoldable pub succeeded : Bytes → Answer → Result (Unit {0})
succeeded place command_ok = ok tt
succeeded place (tuples_ok rows) = failure place []
succeeded place (refused message) = failure place message
succeeded place (no_result message) = failure place message

pub record Transaction : Type 0 where
  pub active : Bool

module _ (server : Server) where
  unfoldable pub execute_query : Bytes → server.State → Outcome server (List Row)
  unfolding rows_of
  execute_query sql db = let (answer, after) = server.send db sql [] in (rows_of answer, after)

  unfoldable pub command : Bytes → Bytes → server.State → Outcome server (Unit {0})
  unfolding succeeded
  command place sql db =
      let (answer, after) = server.send db sql [] in (succeeded place answer, after)

  unfoldable pub begin_transaction : server.State → Outcome server Transaction
  unfolding command
  begin_transaction db =
      let (r, after) = command (codes "PgConnection::beginTransaction: ") (codes "BEGIN") db in
      elim r [ ok done ↦ (ok (record { active = true }), after) | err e ↦ (err e, after) ]

  -- `commit` and `rollback` by their command and the place that their exceptions name.
  unfoldable pub finish :
      Bytes → Bytes → Transaction → server.State → Outcome server (Unit {0}) × Transaction
  unfolding command
  finish place sql txn db =
      if txn.active
      then (let (r, after) = command place sql db in
          elim r [
            | ok done ↦ ((ok tt, after), record { active = false })
            | err e ↦ ((err e, after), txn)
          ])
      else ((failure place (codes "not active"), db), txn)

  unfoldable pub commit : Transaction → server.State → Outcome server (Unit {0}) × Transaction
  unfolding finish
  commit = finish (codes "PgTransaction::commit: ") (codes "COMMIT")

  unfoldable pub rollback : Transaction → server.State → Outcome server (Unit {0}) × Transaction
  unfolding finish
  rollback = finish (codes "PgTransaction::rollback: ") (codes "ROLLBACK")

  -- The destructor: an active transaction is rolled back, and an exception of that is dropped.
  unfoldable pub destroy : Transaction → server.State → server.State
  unfolding rollback
  destroy txn db = if txn.active then (rollback txn db).0.1 else db
