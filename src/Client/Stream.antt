-- ===== src/Client/Stream.antt =====
-- asio-sql-service/client/client_main.cpp: `print_stream_response`. `<<` of a JSON value is its `dump`.
-- Where it throws, what it has printed before is not kept.
use hft_legacy_migration_fra.Base.{
  ℕ, ◌-◌, ◌%◌, ◌^◌, Bytes, Bool, true, false, List, [], ◌∷◌, ◌++◌, foreign, codes, eqb, ltb,
  if◌then◌else◌,
}
use hft_legacy_migration_fra.Base.Int.{ℤ, pos, negsuc}
use hft_legacy_migration_fra.Base.Run.{Run, done, throws, undefined, ◌>>=◌, lift}
use hft_legacy_migration_fra.Catalog.Types.{print_int}
use hft_legacy_migration_fra.Json.{
  Json, null, num, text, arr, obj, Items, nil, cons, Fields, end, field, Codec, get_text,
}

-- `j[k]` on a const value: on an object without the key it is undefined.
unfoldable pub const_field : Bytes → Fields → Run Json
const_field k end = undefined
const_field k (field j w rest) = if eqb j k then done w else const_field k rest

unfoldable pub const_key : Bytes → Json → Run Json
unfolding const_field
const_key k (obj fields) = const_field k fields
const_key k null = throws (foreign 305 [])
const_key k (num n) = throws (foreign 305 [])
const_key k (text s) = throws (foreign 305 [])
const_key k (arr xs) = throws (foreign 305 [])

-- An `int` of a number, by its lowest 32 bits.
abbrev wrapped : ℕ → ℤ
wrapped n = if ltb n (2 ^ 31) then pos n else negsuc (2 ^ 32 - 1 - n)

unfoldable pub get_int : Json → Run ℤ
get_int (num n) = done (wrapped (n % 2 ^ 32))
get_int null = throws (foreign 302 [])
get_int (text s) = throws (foreign 302 [])
get_int (arr xs) = throws (foreign 302 [])
get_int (obj fs) = throws (foreign 302 [])

unfoldable pub item_list : Items → List Json
item_list nil = []
item_list (cons x xs) = x ∷ item_list xs

unfoldable pub value_list : Fields → List Json
value_list end = []
value_list (field k w rest) = w ∷ value_list rest

-- What a loop over a value visits.
unfoldable pub elements : Json → List Json
unfolding item_list value_list
elements null = []
elements (arr xs) = item_list xs
elements (obj fields) = value_list fields
elements (num n) = num n ∷ []
elements (text s) = text s ∷ []

module _ (c : Codec) where
  unfoldable pub print_names : List Json → Run Bytes
  print_names [] = done (codes "\n")
  print_names (x ∷ xs) = do
    name ← lift (c.dump x)
    rest ← print_names xs
    done (name ++ (codes " " ++ rest))

  unfoldable pub print_cell : Json → Run Bytes
  print_cell null = done (codes "NULL")
  print_cell (num n) = lift (c.dump (num n))
  print_cell (text s) = lift (c.dump (text s))
  print_cell (arr xs) = lift (c.dump (arr xs))
  print_cell (obj fs) = lift (c.dump (obj fs))

  unfoldable pub print_cells : Bool → List Json → Run Bytes
  unfolding print_cell
  print_cells first [] = done (codes "\n")
  print_cells first (x ∷ xs) = do
    cell ← print_cell x
    rest ← print_cells false xs
    done ((if first then [] else codes " | ") ++ (cell ++ rest))

  unfoldable pub print_metadata : Json → Run Bytes
  unfolding const_key elements print_names
  print_metadata chunk = do
    columns ← const_key (codes "columns") chunk
    names ← print_names (elements columns)
    done (codes "Metadata received:\n  Columns: " ++ names)

  unfoldable pub print_row : Json → Run Bytes
  unfolding const_key elements get_int print_cells
  print_row chunk = do
    number ← const_key (codes "index") chunk
    index ← get_int number
    data_ ← const_key (codes "data") chunk
    cells ← print_cells true (elements data_)
    done (codes "Row " ++ (print_int index ++ (codes ": " ++ cells)))

  unfoldable pub print_end : Json → Run Bytes
  unfolding const_key get_int
  print_end chunk = do
    number ← const_key (codes "total_rows") chunk
    total ← get_int number
    done (codes "Stream ended. Total rows: " ++ (print_int total ++ codes "\n"))

  unfoldable pub print_typed : Bytes → Json → Run Bytes
  unfolding print_metadata print_row print_end
  print_typed type chunk =
      if eqb type (codes "metadata")
      then print_metadata chunk
      else if eqb type (codes "row")
      then print_row chunk
      else if eqb type (codes "end")
      then print_end chunk
      else done []

  unfoldable pub print_chunks : List Json → Run Bytes
  unfolding const_key get_text print_typed
  print_chunks [] = done []
  print_chunks (chunk ∷ chunks) = do
    named ← const_key (codes "type") chunk
    type ← lift (get_text named)
    out ← print_typed type chunk
    rest ← print_chunks chunks
    done (out ++ rest)

  unfoldable pub print_stream_response : Json → Run Bytes
  unfolding item_list print_chunks
  print_stream_response (arr chunks) = do
    out ← print_chunks (item_list chunks)
    done (codes "\n--- Stream Response ---\n" ++ out)
  print_stream_response null = done (codes "\n--- Stream Response ---\nInvalid stream response\n")
  print_stream_response (num n) =
      done (codes "\n--- Stream Response ---\nInvalid stream response\n")
  print_stream_response (text s) =
      done (codes "\n--- Stream Response ---\nInvalid stream response\n")
  print_stream_response (obj fs) =
      done (codes "\n--- Stream Response ---\nInvalid stream response\n")
