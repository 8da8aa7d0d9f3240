-- ===== src/Client/Asked.antt =====
-- What the user of a client asks for, and what is shown for it.
use hft_legacy_migration_fra.Base.{
  ◌<◌, ◌≡◌, ◌≢◌, refl, Bytes, List, [], ◌∷◌, ◌++◌, map, ok, Exception, what, codes, eqb, All,
  length,
}
use hft_legacy_migration_fra.Protocol.{u32}
use hft_legacy_migration_fra.Binary.{write_table, table, rows_done}
use hft_legacy_migration_fra.Binary.RoundTrip.{Fits}
use hft_legacy_migration_fra.Json.{Codec}
use hft_legacy_migration_fra.Json.Responses.{RawRowResponse, raw_serialize, error_serialize}
use hft_legacy_migration_fra.Server.Handlers.{Row, Outcome, result, failed, cell_text}
use hft_legacy_migration_fra.Client.Console.{
  raw, binary, Command, query, parse_command, split_line, command_of, query_or_usage,
  print_raw_response,
}
use hft_legacy_migration_fra.Client.Program.{Shown, text_shown, binary_shown, error_shown}

-- What a user asks for, with what the database and the codec give for it.
pub data Asked : Type 0 where
  -- `raw` with the columns, the rows and the dumped response
  raw_asked : Bytes → List Bytes → List Row → Bytes → Asked
  -- `binary` with the columns and the rows
  binary_asked : Bytes → List Bytes → List Row → Asked
  -- `raw` with the exception that the database throws and the dumped error
  failing_asked : Bytes → Exception → Bytes → Asked

abbrev pub response_of : List Bytes → List Row → RawRowResponse
response_of columns rows = record { column_names = columns; rows = map (map cell_text) rows }

abbrev pub Answers : Codec → (Bytes → Outcome) → Asked → Type 0
Answers c database (raw_asked sql columns rows s) =
    (sql ≢ [])
    × (database sql ≡ result columns rows)
    × (raw_serialize c (response_of columns rows) ≡ ok s)
    × (length sql < u32)
    × (length s < u32)
Answers c database (binary_asked sql columns rows) =
    (sql ≢ [])
    × (database sql ≡ result columns rows)
    × (length sql < u32)
    × (length columns < u32)
    × (length (map (map cell_text) rows) < u32)
    × (All (Fits (length columns)) (map (map cell_text) rows))
    × (length (write_table (length columns) (map (map cell_text) rows)) < u32)
Answers c database (failing_asked sql x s) =
    (sql ≢ [])
    × (database sql ≡ failed x)
    × (error_serialize c (record { error_message = codes "Query error: " ++ what x }) ≡ ok s)
    × (length sql < u32)
    × (length s < u32)

abbrev pub line_of : Asked → Bytes
line_of (raw_asked sql columns rows s) = codes "raw " ++ sql
line_of (binary_asked sql columns rows) = codes "binary " ++ sql
line_of (failing_asked sql x s) = codes "raw " ++ sql

abbrev pub command_for : Asked → Command
command_for (raw_asked sql columns rows s) = query raw sql
command_for (binary_asked sql columns rows) = query binary sql
command_for (failing_asked sql x s) = query raw sql

abbrev pub shown_for : Asked → Shown
shown_for (raw_asked sql columns rows s) =
    text_shown (print_raw_response (response_of columns rows))
shown_for (binary_asked sql columns rows) = binary_shown (
    table (length (map (map cell_text) rows)) (length columns)
      (rows_done (map (map cell_text) rows)))
shown_for (failing_asked sql x s) =
    error_shown (codes "Error: " ++ (codes "Server error: " ++ (codes "Query error: " ++ what x)))

pub parse_command-raw :
    (sql : Bytes) → sql ≢ [] → parse_command (codes "raw " ++ sql) ≡ query raw sql
unfolding parse_command split_line command_of query_or_usage eqb
parse_command-raw [] h = absurd (h refl)
parse_command-raw (d ∷ sql) h = refl

pub parse_command-binary :
    (sql : Bytes) → sql ≢ [] → parse_command (codes "binary " ++ sql) ≡ query binary sql
unfolding parse_command split_line command_of query_or_usage eqb
parse_command-binary [] h = absurd (h refl)
parse_command-binary (d ∷ sql) h = refl
