-- ===== src/Repository/Reading.antt =====
-- Queries: the constructor of src/pg/PgConnection.cpp, `executeQuery` of src/pg/PgPreparedStatement.cpp, and
-- `getAll` and `getById` of include/hft/repository/Repository.hpp. The fields of `Entity e{}` are those of
-- `blank`. What `asDouble` reads of a text is a parameter.
use hft_legacy_migration_fra.Base.{
  ℕ, suc, Bytes, List, [], ◌∷◌, ◌++◌, Option, none, some, Result, ok, err, ◌>>=◌, db_exception,
  codes, leb, if◌then◌else◌, length,
}
use hft_legacy_migration_fra.Base.Int.{ℤ}
use hft_legacy_migration_fra.Values.{Value, Row, value_at, as_int, as_string}
use hft_legacy_migration_fra.Catalog.Types.{print_int}
use hft_legacy_migration_fra.Repository.Session.{
  Answer, tuples_ok, command_ok, refused, no_result, Server, Outcome, failure, execute_query,
}
use hft_legacy_migration_fra.Repository.Statement.{PreparedStatement}
use hft_legacy_migration_fra.Repository.Entity.{
  Field, int_field, double_field, string_field, other_field, Column, Traits,
}

-- The constructor of PgConnection, by the error message of `PQconnectdb`, if it fails. Behind it the
-- connection is not null.
unfoldable pub connect : Option Bytes → Result (Unit {0})
connect none = ok tt
connect (some message) = failure (codes "PostgreSQL connection failed: ") message

-- `executeQuery` of PgPreparedStatement, on the answer.
unfoldable pub prepared_rows : Answer → Result (List Row)
prepared_rows (tuples_ok rows) = ok rows
prepared_rows command_ok = failure (codes "PgPreparedStatement::executeQuery: ") []
prepared_rows (refused message) = failure (codes "PgPreparedStatement::executeQuery: ") message
prepared_rows (no_result message) =
    failure (codes "PgPreparedStatement::executeQuery: ") (codes "PQexecParams failed")

unfoldable pub execute_prepared :
    (server : Server) → PreparedStatement → server.State → Outcome server (List Row)
unfolding prepared_rows
execute_prepared server stmt db =
    let (answer, after) = server.send db stmt.sql stmt.params in (prepared_rows answer, after)

abbrev out_of_columns : Result (List Column)
out_of_columns = err (db_exception (codes "Column index out of range"))

module _ (as_double : Bytes → Result (Bytes × Bytes)) where
  -- The value of a member, by its type, from one that is not null.
  unfoldable pub read_field : Bytes → Field → Result Field
  unfolding as_int as_string
  read_field text (int_field n) = do m ← as_int (some text); ok (int_field m)
  read_field text (double_field streamed printed) = do d ← as_double text; ok (double_field d.0 d.1)
  read_field text (string_field s) = ok (string_field (as_string (some text)))
  read_field text (other_field streamed) = ok (other_field streamed)

  unfoldable pub read_value : Value → Field → Result Field
  unfolding read_field
  read_value none field = ok field
  read_value (some text) field = read_field text field

  -- `mapRowToEntity`, and `mapColumn` from `colIndex` on.
  unfoldable pub map_columns : Row → ℕ → List Column → Result (List Column)
  unfolding read_value value_at
  map_columns row index [] = ok []
  map_columns row index (c ∷ cs) = if leb (length row) index then out_of_columns else (do
    v ← value_at row index
    field ← read_value v c.content
    rest ← map_columns row (suc index) cs
    ok (record c { content = field } ∷ rest))

  unfoldable pub map_row_to_entity : List Column → Row → Result (List Column)
  unfolding map_columns
  map_row_to_entity blank row = map_columns row 0 blank

  -- The loop of `getAll` over the reader.
  unfoldable pub map_rows : List Column → List Row → Result (List (List Column))
  unfolding map_row_to_entity
  map_rows blank [] = ok []
  map_rows blank (row ∷ rows) = do
    e ← map_row_to_entity blank row
    es ← map_rows blank rows
    ok (e ∷ es)

  -- `getById` on the rows.
  unfoldable pub first_row : List Column → List Row → Result (List Column)
  unfolding map_row_to_entity
  first_row blank [] = err (db_exception (codes "Entity not found"))
  first_row blank (row ∷ rows) = map_row_to_entity blank row

  unfoldable pub get_all :
      (server : Server) → Traits → List Column → server.State → Outcome server (List (List Column))
  unfolding map_rows execute_query
  get_all server t blank db =
      let (r, after) = execute_query server (codes "SELECT * FROM " ++ t.table_name) db in
      (r >>= map_rows blank, after)

  unfoldable pub get_by_id :
      (server : Server) → Traits → List Column → ℤ → server.State → Outcome server (List Column)
  unfolding first_row execute_query
  get_by_id server t blank id db =
      let sql =
        codes "SELECT * FROM "
        ++ (t.table_name ++ (codes " WHERE " ++ (t.primary_key ++ (codes "=" ++ print_int id)))) in
      let (r, after) = execute_query server sql db in (r >>= first_row blank, after)
