-- ===== src/Client/Interactive.antt =====
-- When the command loop of the client ends.
use hft_legacy_migration_fra.Base.{
  ℕ, zero, suc, ◌≡◌, ◌≢◌, refl, ◌∙◌, Bytes, List, [], ◌∷◌, ◌++◌, none, some, length, All,
}
use hft_legacy_migration_fra.Client.Console.{
  Command, skip, leave, query, usage, unknown, parse_command, get_line, run_interactive_mode,
}

-- A line that does not end the loop.
abbrev pub Stays : Bytes → Type 0
Stays line = parse_command line ≢ leave

module _ {State : Type 0} (perform : Command → State → State) where
  unfoldable pub do_command : Command → State → State
  do_command skip s = s
  do_command leave s = s
  do_command (query kind sql) s = perform (query kind sql) s
  do_command (usage kind) s = perform (usage kind) s
  do_command (unknown command) s = perform (unknown command) s

  -- All these commands, one after the other.
  unfoldable pub do_all : List Bytes → State → State
  do_all [] s = s
  do_all (line ∷ lines) s = do_all lines (do_command (parse_command line) s)

  go_on :
      (fuel : ℕ) (line : Bytes) (lines : List Bytes) (s : State)
      → Stays line
      → run_interactive_mode perform (suc fuel) (line ∷ lines) s
        ≡ run_interactive_mode perform fuel lines (do_command (parse_command line) s)
  unfolding run_interactive_mode get_line do_command
  go_on fuel line lines s h = go (parse_command line) h
    where
      go :
          (c : Command)
          → c ≢ leave
          → (elim c [
            | skip ↦ run_interactive_mode perform fuel lines s
            | leave ↦ some s
            | query kind sql ↦ run_interactive_mode perform fuel lines (perform (query kind sql) s)
            | usage kind ↦ run_interactive_mode perform fuel lines (perform (usage kind) s)
            | unknown command ↦
                run_interactive_mode perform fuel lines (perform (unknown command) s)
          ])
            ≡ run_interactive_mode perform fuel lines (do_command c s)
      go skip n = refl
      go leave n = absurd (n refl)
      go (query kind sql) n = refl
      go (usage kind) n = refl
      go (unknown command) n = refl

  at_end : (fuel : ℕ) (s : State) → run_interactive_mode perform fuel [] s ≡ none
  unfolding run_interactive_mode get_line parse_command
  at_end zero s = refl
  at_end (suc fuel) s = at_end fuel s

  never :
      (fuel : ℕ) (lines : List Bytes) (s : State)
      → All Stays lines
      → run_interactive_mode perform fuel lines s ≡ none
  never zero lines s h = unfold run_interactive_mode in refl
  never (suc fuel) [] s h = at_end (suc fuel) s
  never (suc fuel) (line ∷ lines) s (h, hs) =
      go_on fuel line lines s h ∙ never fuel lines (do_command (parse_command line) s) hs

  ends :
      (front back : List Bytes) (line : Bytes) (s : State)
      → All Stays front
      → parse_command line ≡ leave
      → run_interactive_mode perform (suc (length front)) (front ++ line ∷ back) s
        ≡ some (do_all front s)
  unfolding do_all
  ends [] back line s h e = unfold run_interactive_mode in unfold get_line in rw e refl
  ends (other ∷ front) back line s (h, hs) e =
      go_on (suc (length front)) other (front ++ line ∷ back) s h
      ∙ ends front back line (do_command (parse_command other) s) hs e

  -- The command loop carries out the lines before the first that is a command to quit, in their order,
  -- and ends there, in one round for each line. Where the input stops without such a command, the loop
  -- never ends, however many rounds it makes.
  pub run_interactive_mode-ends :
      (front back : List Bytes) (line : Bytes) (s : State) (fuel : ℕ)
      → All Stays front
      → parse_command line ≡ leave
      → (run_interactive_mode perform (suc (length front)) (front ++ line ∷ back) s
          ≡ some (do_all front s))
        × (run_interactive_mode perform fuel front s ≡ none)
  run_interactive_mode-ends front back line s fuel h e =
      (ends front back line s h e, never fuel front s h)
