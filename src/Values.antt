-- ===== src/Values.antt =====
-- The rows and values of a query's result: src/pg/PgValue.cpp, PgRow.cpp and PgReader.cpp, in the
-- build with WITH_POSTGRESQL. A value is `none` where libpq says null, and else its text. libpq's
-- result is the list of its rows. `std::stoi` is written out; its exceptions are `foreign`.
pub mod Cursor
pub mod Numbers
use hft_legacy_migration_fra.Base.{
  ℕ, zero, suc, ◌+◌, ◌-◌, ◌*◌, ◌^◌, Bytes, Bool, true, false, ◌&&◌, ◌||◌, List, [], ◌∷◌, ◌++◌,
  Option, none, some, Result, ok, err, db_exception, foreign, codes, ltb, leb, ◌==◌, if◌then◌else◌,
  length, get_elem?, ◌>>=◌,
}
use hft_legacy_migration_fra.Base.Int.{ℤ, pos, negsuc}

abbrev pub Value : Type 0
Value = Option Bytes

abbrev pub Row : Type 0
Row = List Value

abbrev pub is_digit : ℕ → Bool
is_digit c = leb b'0' c && leb c b'9'

abbrev pub is_space : ℕ → Bool
is_space c = c == 32 || (leb 9 c && leb c 13)

abbrev pub invalid_argument : Result ℤ
invalid_argument = err (foreign 1 (codes "stoi"))

abbrev pub out_of_range : Result ℤ
out_of_range = err (foreign 3 (codes "stoi"))

-- The digits that a text begins with, behind a number read so far.
unfoldable pub read_digits : ℕ → Bytes → ℕ
read_digits n [] = n
read_digits n (c ∷ text) =
    let more = read_digits (n * 10 + (c - b'0')) text in if is_digit c then more else n

unfoldable pub magnitude : Bytes → Option ℕ
unfolding read_digits
magnitude [] = none
magnitude (c ∷ text) = if is_digit c then some (read_digits 0 (c ∷ text)) else none

unfoldable pub positive : Option ℕ → Result ℤ
positive none = invalid_argument
positive (some n) = if ltb n (2 ^ 31) then ok (pos n) else out_of_range

unfoldable pub negative : Option ℕ → Result ℤ
negative none = invalid_argument
negative (some zero) = ok (pos 0)
negative (some (suc n)) = if ltb n (2 ^ 31) then ok (negsuc n) else out_of_range

-- An optional sign, and then the digits.
unfoldable pub signed : Bytes → Result ℤ
unfolding magnitude positive negative
signed [] = invalid_argument
signed (c ∷ text) =
    if c == b'-'
    then negative (magnitude text)
    else if c == b'+'
    then positive (magnitude text)
    else positive (magnitude (c ∷ text))

-- `std::stoi`.
unfoldable pub stoi : Bytes → Result ℤ
unfolding signed
stoi [] = invalid_argument
stoi (c ∷ text) = let rest = stoi text in if is_space c then rest else signed (c ∷ text)

unfoldable pub as_int : Value → Result ℤ
as_int none = err (db_exception (codes "PgValue::asInt: null"))
as_int (some text) = stoi text

-- `asDouble`, by what `std::stod` does with the text.
unfoldable pub as_double {ℓ} : {A : Type ℓ} → (Bytes → Result A) → Value → Result A
as_double stod none = err (db_exception (codes "PgValue::asDouble: null"))
as_double stod (some text) = stod text

unfoldable pub is_null : Value → Bool
is_null none = true
is_null (some text) = false

unfoldable pub as_string : Value → Bytes
as_string none = []
as_string (some text) = text

unfoldable pub column_count : Row → ℕ
column_count row = length row

-- `operator[]` of a row.
unfoldable pub value_at : Row → ℕ → Result Value
value_at row idx = elim (get_elem? row idx) [
  | none ↦ err (db_exception (codes "PgRow::operator[]: index out of range"))
  | some v ↦ ok v
]

-- `row()[idx].asInt()` and `row()[idx].asString()`.
unfoldable pub int_at : Row → ℕ → Result ℤ
int_at row idx = do v ← value_at row idx; as_int v

unfoldable pub string_at : Row → ℕ → Result Bytes
string_at row idx = do v ← value_at row idx; ok (as_string v)

-- `_currentRow` starts at -1: the model keeps it plus one.
pub record Reader : Type 0 where
  pub rows : List Row
  pub next_row : ℕ
  pub row : Option Row

unfoldable pub open_reader : List Row → Reader
open_reader rows = record { rows = rows; next_row = 0; row = none }

unfoldable pub next : Reader → Bool × Reader
next r =
    if ltb r.next_row (length r.rows)
    then (true, record r { next_row = suc r.next_row; row = get_elem? r.rows r.next_row })
    else (false, record r { next_row = suc r.next_row })

unfoldable pub current_row : Reader → Result Row
current_row r = elim r.row [
  | none ↦ err (db_exception (codes "PgReader::row: no row"))
  | some row ↦ ok row
]

-- `while (reader->next()) { … reader->row() … }`, as the rows that the body sees, on fuel.
unfoldable pub read_loop : ℕ → Reader → Result (List Row)
read_loop zero r = ok []
read_loop (suc fuel) r = elim (next r).0 [
  | false ↦ ok []
  | true ↦ (do row ← current_row (next r).1; rows ← read_loop fuel (next r).1; ok (row ∷ rows))
]
