-- ===== src/Db/ResultSet.antt =====
-- The result sets of src/db/PostgreSQLConnection.cpp and src/db/SybaseConnection.cpp as cursors, and the
-- loops over them. A getter reads the current row, so that it is a function of that row.
pub mod Rows
use hft_legacy_migration_fra.Base.{
  ℕ, zero, suc, Bytes, Bool, true, false, List, [], ◌∷◌, Option, none, some, ltb, length, get_elem?,
  if◌then◌else◌,
}
use hft_legacy_migration_fra.Base.Int.{ℤ}
use hft_legacy_migration_fra.Base.Run.{Run, done, undefined}
use hft_legacy_migration_fra.Values.{Value, Row}
use hft_legacy_migration_fra.Db.Postgres
use hft_legacy_migration_fra.Db.Sybase

pub record Cursor (State : Type 0) : Type 0 where
  pub next : State → Bool × State
  -- what the getters read
  pub current : State → Row

-- PostgreSQLResultSet: `currentRow_` starts at -1, so the model keeps it plus one.
pub record PgResultSet : Type 0 where
  pub columns : List Bytes
  pub rows : List Row
  pub next_row : ℕ

unfoldable pub pg_construct : List Bytes → List Row → PgResultSet
pg_construct columns rows = record { columns = columns; rows = rows; next_row = 0 }

-- `PQgetisnull` takes every column of a row that is not there for null.
unfoldable pub row_or_nulls : Option Row → Row
row_or_nulls none = []
row_or_nulls (some row) = row

unfoldable pub pg_row : ℕ → List Row → Row
unfolding row_or_nulls
pg_row zero rows = []
pg_row (suc i) rows = row_or_nulls (get_elem? rows i)

unfoldable pub pg_cursor : Cursor PgResultSet
unfolding pg_row
pg_cursor = record {
  next = λ r. (ltb r.next_row (length r.rows), record r { next_row = suc r.next_row });
  current = λ r. pg_row r.next_row r.rows;
}

unfoldable pub column_count : List Bytes → ℕ
column_count columns = length columns

-- `PQfname` and `dbcolname` return a null pointer for a column that is not there, of which no
-- `std::string` can be made.
unfoldable pub column_name : List Bytes → ℕ → Run Bytes
column_name columns index = elim (get_elem? columns index) [
  | none ↦ undefined
  | some name ↦ done name
]

-- What `dbnextrow` returns, with the row whose data DB-Library has from then on.
pub data RowCode : Type 0 where
  reg_row compute_row no_more_rows row_failed : RowCode

pub record Fetch : Type 0 where
  pub code : RowCode
  pub data_row : Row

pub record SybResultSet : Type 0 where
  pub columns : List Bytes
  pub fetches : List Fetch
  pub has_rows : Bool
  pub data_row : Row

-- The data before the first row is that of the argument.
unfoldable pub syb_construct : List Bytes → Row → List Fetch → SybResultSet
syb_construct columns row fetches = record {
  columns = columns;
  fetches = fetches;
  has_rows = false;
  data_row = row;
}

unfoldable pub is_regular : RowCode → Bool
is_regular reg_row = true
is_regular compute_row = false
is_regular no_more_rows = false
is_regular row_failed = false

-- Behind the last answer `dbnextrow` returns NO_MORE_ROWS.
unfoldable pub fetch_next : List Fetch → SybResultSet → Bool × SybResultSet
unfolding is_regular
fetch_next [] r = (false, record r { has_rows = false })
fetch_next (f ∷ fs) r =
    let more = is_regular f.code in
    (more, record r { fetches = fs; has_rows = more; data_row = f.data_row })

unfoldable pub syb_cursor : Cursor SybResultSet
unfolding fetch_next
syb_cursor = record { next = λ r. fetch_next r.fetches r; current = λ r. r.data_row }

-- `getDouble` of PostgreSQLResultSet, by `std::atof` and the zero.
unfoldable pub pg_get_double {ℓ} : {A : Type ℓ} → (Bytes → A) → A → Row → ℕ → A
unfolding Postgres.cell
pg_get_double atof none_value row index = elim (Postgres.cell row index) [
  | none ↦ none_value
  | some text ↦ atof text
]

-- `getInt`, `getLong` and `getDouble` of SybaseResultSet, each by what `dbconvert` makes of the data:
-- where it cannot convert, the variable has no value, and the code returns it.
unfoldable pub syb_get {ℓ} : {A : Type ℓ} → (Value → Option A) → Row → ℕ → Run A
unfolding Sybase.data_of
syb_get convert row index = elim (convert (Sybase.data_of row index)) [
  | none ↦ undefined
  | some a ↦ done a
]

module _ {State : Type 0} (cursor : Cursor State) {A : Type 0} (read : Row → A) where
  -- `while (result->next()) entities.push_back(…)`.
  unfoldable pub collect : ℕ → State → List A
  collect zero s = []
  collect (suc fuel) s =
      let (more, after) = cursor.next s in
      let rest = collect fuel after in if more then read (cursor.current after) ∷ rest else []

  -- `if (!result->next()) return std::nullopt; return …;`
  unfoldable pub first : State → Option A
  first s =
      let (more, after) = cursor.next s in if more then some (read (cursor.current after)) else none
