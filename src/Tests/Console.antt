-- ===== src/Tests/Console.antt =====
-- The command loop of the client.
use hft_legacy_migration_fra.Base.{
  suc, ◌≡◌, refl, Bytes, List, [], ◌∷◌, ◌++◌, none, some, codes, eqb, length, All,
}
use hft_legacy_migration_fra.Client.Console.{
  Command, leave, split_line, query_or_usage, command_of, parse_command, run_interactive_mode,
}
use hft_legacy_migration_fra.Client.Interactive.{Stays, do_all, run_interactive_mode-ends}

-- Each command is kept.
abbrev record_command : Command → List Command → List Command
record_command c s = c ∷ s

abbrev lines : List Bytes
lines = codes "raw SELECT 1" ∷ [] ∷ codes "help" ∷ []

abbrev quit_line : Bytes
quit_line = codes "quit"

lines-Stays : All Stays lines
unfolding parse_command split_line command_of query_or_usage eqb
lines-Stays = ((λ e. cc), ((λ e. cc), ((λ e. cc), tt)))

quits : parse_command quit_line ≡ leave
unfolding parse_command split_line command_of eqb
quits = refl

run_interactive_mode-ends_example :
    (run_interactive_mode record_command (suc (length lines)) (lines ++ quit_line ∷ []) []
      ≡ some (do_all record_command lines []))
    × (run_interactive_mode record_command 7 lines [] ≡ none)
run_interactive_mode-ends_example =
    run_interactive_mode-ends record_command lines [] quit_line [] 7 lines-Stays quits
