-- ===== src/Client/Console.antt =====
-- asio-sql-service/client/client_main.cpp: `print_raw_response`, and the command loop of
-- `run_interactive_mode`. What a query and the printing of its response do is a parameter; the loop
-- catches their exceptions.
use hft_legacy_migration_fra.Base.{
  ℕ, zero, suc, Bytes, Bool, ◌||◌, List, [], ◌∷◌, ◌++◌, Option, none, some, codes, eqb, ◌==◌,
  if◌then◌else◌, to_string, length, map,
}
use hft_legacy_migration_fra.Json.Responses.{RawRowResponse}

-- A list with a separator between its entries.
unfoldable pub separated : Bytes → List Bytes → Bytes
separated separator [] = []
separated separator (text ∷ []) = text
separated separator (text ∷ next ∷ texts) =
    text ++ (separator ++ separated separator (next ∷ texts))

abbrev dashes : Bytes → Bytes
dashes = map (λ c. b'-')

unfoldable pub print_rows : List (List Bytes) → Bytes
unfolding separated
print_rows [] = []
print_rows (row ∷ rows) = separated (codes " | ") row ++ (codes "\n" ++ print_rows rows)

unfoldable pub print_raw_response : RawRowResponse → Bytes
unfolding separated print_rows
print_raw_response r =
    codes "\n--- Raw Response ---\n"
    ++ (separated (codes " | ") r.column_names
        ++ (codes "\n"
            ++ (separated (codes "-+-") (map dashes r.column_names)
                ++ (codes "\n"
                    ++ (print_rows r.rows
                        ++ (codes "\nTotal rows: "
                            ++ (to_string (length r.rows) ++ codes "\n")))))))

pub data Kind : Type 0 where
  raw json binary stream : Kind

-- What a line asks for.
pub data Command : Type 0 where
  skip leave : Command
  query : Kind → Bytes → Command
  usage : Kind → Command
  unknown : Bytes → Command

-- `line.substr(0, space_pos)` and what is behind the space.
unfoldable pub split_line : Bytes → Bytes × Bytes
split_line [] = ([], [])
split_line (c ∷ text) =
    let (command, sql) = split_line text in if c == b' ' then ([], text) else (c ∷ command, sql)

unfoldable pub query_or_usage : Kind → Bytes → Command
query_or_usage kind [] = usage kind
query_or_usage kind (c ∷ sql) = query kind (c ∷ sql)

abbrev pub is_quit : Bytes → Bool
is_quit command =
    eqb command (codes "quit") || eqb command (codes "exit") || eqb command (codes "q")

unfoldable pub command_of : Bytes → Bytes → Command
unfolding query_or_usage
command_of command sql =
    if is_quit command
    then leave
    else if eqb command (codes "raw")
    then query_or_usage raw sql
    else if eqb command (codes "json")
    then query_or_usage json sql
    else if eqb command (codes "binary")
    then query_or_usage binary sql
    else if eqb command (codes "stream")
    then query_or_usage stream sql
    else unknown command

unfoldable pub parse_command : Bytes → Command
unfolding split_line command_of
parse_command [] = skip
parse_command (c ∷ text) = let (command, sql) = split_line (c ∷ text) in command_of command sql

-- `std::getline(std::cin, line)` of an input whose last line ends with a newline: at the end of the input
-- it fails, and leaves the line empty. (Without that newline the line would keep the last command.)
unfoldable pub get_line : List Bytes → Bytes × List Bytes
get_line [] = ([], [])
get_line (line ∷ lines) = (line, lines)

module _ {State : Type 0} (perform : Command → State → State) where
  -- The loop, on fuel: none where it is still running.
  unfoldable pub run_interactive_mode : ℕ → List Bytes → State → Option State
  unfolding get_line parse_command
  run_interactive_mode zero lines s = none
  run_interactive_mode (suc fuel) lines s =
      let (line, rest) = get_line lines in
      elim (parse_command line) [
        | skip ↦ run_interactive_mode fuel rest s
        | leave ↦ some s
        | query kind sql ↦ run_interactive_mode fuel rest (perform (query kind sql) s)
        | usage kind ↦ run_interactive_mode fuel rest (perform (usage kind) s)
        | unknown command ↦ run_interactive_mode fuel rest (perform (unknown command) s)
      ]
