-- ===== src/Sybase/Rows.antt =====
-- src/sybase/SybRow.cpp, SybValue.cpp and the cursor of SybReader.cpp. DB-Library gives a row as its
-- columns, each with its type and its data; `dbconvert` is a parameter, none where it cannot convert.
-- `std::to_string` of a double is one too.
use hft_legacy_migration_fra.Base.{
  ℕ, zero, suc, Bytes, Bool, true, false, List, [], ◌∷◌, Option, none, some, Result, ok, err,
  db_exception, codes, get_elem?, ◌>>=◌, if◌then◌else◌,
}
use hft_legacy_migration_fra.Base.Int.{ℤ, pos}
use hft_legacy_migration_fra.Catalog.Types.{print_int}
use hft_legacy_migration_fra.Values.{stoi}

pub data ColumnType : Type 0 where
  int1 int2 int4 int8 : ColumnType
  real flt8 : ColumnType
  char varchar text_type : ColumnType
  -- any other type, by its code
  other_type : ℕ → ColumnType

-- What `dbcoltype` and `dbdata` give; the data is none where the pointer is null. `dbdatlen` is its
-- length.
pub record Cell : Type 0 where
  pub type : ColumnType
  pub data_bytes : Option Bytes

pub record Conversions : Type 1 where
  pub Double : Type 0
  pub to_int : ColumnType → Bytes → Option ℤ
  pub to_double : ColumnType → Bytes → Option Double
  pub zero_double : Double
  pub print_double : Double → Bytes
  -- to SYBCHAR, in a buffer of 256 bytes
  pub to_char : ColumnType → Bytes → Option Bytes

-- `SybValue`: its text and whether it is null.
pub record SybValue : Type 0 where
  pub value : Bytes
  pub is_null : Bool

unfoldable pub as_int : SybValue → Result ℤ
as_int v = if v.is_null then err (db_exception (codes "SybValue::asInt: null")) else stoi v.value

-- `std::stod` is a parameter.
unfoldable pub as_double : {A : Type 0} → (Bytes → Result A) → SybValue → Result A
as_double stod v =
    if v.is_null then err (db_exception (codes "SybValue::asDouble: null")) else stod v.value

unfoldable pub as_string : SybValue → Bytes
as_string v = if v.is_null then [] else v.value

module _ (lib : Conversions) where
  -- `intval` and `dblval` start at zero and stay so where `dbconvert` fails.
  unfoldable pub int_text : Option ℤ → Bytes
  int_text none = print_int (pos 0)
  int_text (some n) = print_int n

  unfoldable pub double_text : Option lib.Double → Bytes
  double_text none = lib.print_double lib.zero_double
  double_text (some d) = lib.print_double d

  unfoldable pub char_text : Option Bytes → Bytes
  char_text none = []
  char_text (some text) = text

  -- The switch on the column's type.
  unfoldable pub converted : ColumnType → Bytes → Bytes
  unfolding int_text double_text char_text
  converted int1 bytes = int_text (lib.to_int int1 bytes)
  converted int2 bytes = int_text (lib.to_int int2 bytes)
  converted int4 bytes = int_text (lib.to_int int4 bytes)
  converted int8 bytes = int_text (lib.to_int int8 bytes)
  converted real bytes = double_text (lib.to_double real bytes)
  converted flt8 bytes = double_text (lib.to_double flt8 bytes)
  converted char bytes = bytes
  converted varchar bytes = bytes
  converted text_type bytes = bytes
  converted (other_type code) bytes = char_text (lib.to_char (other_type code) bytes)

  -- A column without data is null, and so is one of length 0.
  unfoldable pub value_of : ColumnType → Option Bytes → SybValue
  unfolding converted
  value_of type none = record { value = []; is_null = true }
  value_of type (some []) = record { value = []; is_null = true }
  value_of type (some (c ∷ bytes)) = record { value = converted type (c ∷ bytes); is_null = false }

  -- The constructor of SybRow, on a DBPROCESS that is not null.
  unfoldable pub construct_row : List Cell → List SybValue
  unfolding value_of
  construct_row [] = []
  construct_row (cell ∷ cells) = value_of cell.type cell.data_bytes ∷ construct_row cells

-- `operator[]`.
unfoldable pub value_at : List SybValue → ℕ → Result SybValue
value_at values idx = elim (get_elem? values idx) [
  | none ↦ err (db_exception (codes "SybRow::operator[]: index out of range"))
  | some v ↦ ok v
]

-- What `dbnextrow` returns; the columns of the row that DB-Library has then stand with it.
pub data RowCode : Type 0 where
  reg_row compute_row no_more_rows row_failed buffer_full : RowCode

pub record Fetch : Type 0 where
  pub code : RowCode
  pub cells : List Cell

-- SybReader, if it could be constructed: whether `_dbproc` is not null, what `dbnextrow` still gives,
-- and the current row.
pub record Reader : Type 0 where
  pub process : Bool
  pub fetches : List Fetch
  pub row : Option (List SybValue)

abbrev next_failed : Result (Bool × Reader)
next_failed = err (db_exception (codes "SybReader::next: dbnextrow failed"))

module _ (lib : Conversions) where
  unfoldable pub take_row : Fetch → Reader → Result (Bool × Reader)
  unfolding construct_row
  take_row f r = ok (true, record r { row = some (construct_row lib f.cells) })

  -- Compute rows are rows too.
  unfoldable pub on_code : RowCode → Fetch → Reader → Result (Bool × Reader)
  unfolding take_row
  on_code no_more_rows f r = ok (false, r)
  on_code row_failed f r = next_failed
  on_code buffer_full f r = next_failed
  on_code reg_row f r = take_row f r
  on_code compute_row f r = take_row f r

  unfoldable pub fetch_next : List Fetch → Reader → Result (Bool × Reader)
  unfolding on_code
  fetch_next [] r = ok (false, r)
  fetch_next (f ∷ fs) r = on_code f.code f (record r { fetches = fs })

  unfoldable pub next : Reader → Result (Bool × Reader)
  unfolding fetch_next
  next r = if r.process then fetch_next r.fetches r else ok (false, r)

  -- `row()`.
  unfoldable pub current_row : Reader → Result (List SybValue)
  current_row r = elim r.row [
    | none ↦ err (db_exception (codes "SybReader::row: no row"))
    | some values ↦ ok values
  ]

  -- `while (reader.next()) { … reader.row() … }`, as the rows that the body sees, on fuel.
  unfoldable pub read_loop : ℕ → Reader → Result (List (List SybValue))
  read_loop zero r = ok []
  read_loop (suc fuel) r = do
    (more, after) ← next r
    (if more
        then (do values ← current_row after; rest ← read_loop fuel after; ok (values ∷ rest))
        else ok [])
