-- ===== src/Log.antt =====
-- include/hft/db/Logger.hpp. The time's text is an argument. The levels are in the order of the enum.
use hft_legacy_migration_fra.Base.{
  ℕ, ◌≡◌, refl, ap, sym, ◌∙◌, inl, inr, Bytes, Bool, true, false, List, [], ◌∷◌, ◌++◌, Option, none,
  some, codes, ltb, if◌then◌else◌, eqb, append_assoc, append-nil, Bool-cases,
}
use hft_legacy_migration_fra.Base.Int.{ℤ}
use hft_legacy_migration_fra.Catalog.Types.{print_int}

pub data LogLevel : Type 0 where
  debug info warning error fatal : LogLevel

abbrev pub rank : LogLevel → ℕ
rank debug = 0
rank info = 1
rank warning = 2
rank error = 3
rank fatal = 4

-- The console, and all that was written to files, each with the file's name. `log_file` is the file
-- that is open.
pub record Logger : Type 0 where
  pub log_level : LogLevel
  pub log_to_console : Bool
  pub log_to_file : Bool
  pub log_file : Option Bytes
  pub console : Bytes
  pub written : List (Bytes × Bytes)

-- The arguments of `log`, with the time.
pub record Entry : Type 0 where
  pub time : Bytes
  pub level : LogLevel
  pub message : Bytes
  pub file : Bytes
  pub line : ℤ

unfoldable pub construct : Logger
construct = record {
  log_level = info;
  log_to_console = true;
  log_to_file = false;
  log_file = none;
  console = [];
  written = [];
}

unfoldable pub set_log_level : LogLevel → Logger → Logger
set_log_level level l = record l { log_level = level }

-- By whether the file could be opened.
unfoldable pub set_log_file : Bool → Bytes → Logger → Logger
set_log_file opens name l = record l {
  log_file = if opens then some name else none;
  log_to_file = true;
}

unfoldable pub enable_console_logging : Bool → Logger → Logger
enable_console_logging enable l = record l { log_to_console = enable }

unfoldable pub level_to_string : LogLevel → Bytes
level_to_string debug = codes "DEBUG"
level_to_string info = codes "INFO "
level_to_string warning = codes "WARN "
level_to_string error = codes "ERROR"
level_to_string fatal = codes "FATAL"

unfoldable pub place_of : Entry → Bytes
place_of e =
    if eqb e.file [] then [] else e.file ++ (codes ":" ++ (print_int e.line ++ codes " - "))

unfoldable pub format : Entry → Bytes
unfolding level_to_string place_of
format e =
    e.time
    ++ (codes " ["
        ++ (level_to_string e.level ++ (codes "] " ++ (place_of e ++ (e.message ++ codes "\n")))))

abbrev to_open_file : Option Bytes → Bytes → List (Bytes × Bytes)
to_open_file none text = []
to_open_file (some name) text = (name, text) ∷ []

-- The console gets an empty line behind each message.
unfoldable pub write_entry : Entry → Logger → Logger
unfolding format
write_entry e l = record l {
  console = if l.log_to_console then l.console ++ (format e ++ codes "\n") else l.console;
  written = if l.log_to_file then l.written ++ to_open_file l.log_file (format e) else l.written;
}

unfoldable pub log : Entry → Logger → Logger
unfolding write_entry
log e l = if ltb (rank e.level) (rank l.log_level) then l else write_entry e l

unfoldable pub log_all : List Entry → Logger → Logger
log_all [] l = l
log_all (e ∷ es) l = log_all es (log e l)

-- The texts of the entries that are not below a level.
unfoldable pub passing : LogLevel → List Entry → List Entry
passing level [] = []
passing level (e ∷ es) =
    let rest = passing level es in if ltb (rank e.level) (rank level) then rest else e ∷ rest

unfoldable pub in_file : Bytes → List Entry → List (Bytes × Bytes)
in_file name [] = []
in_file name (e ∷ es) = (name, format e) ∷ in_file name es

below_level : (e : Entry) (l : Logger) → ltb (rank e.level) (rank l.log_level) ≡ true → log e l ≡ l
unfolding log
below_level e l h = ap (λ b. if b then l else write_entry e l) h

above_level :
    (e : Entry) (l : Logger)
    → ltb (rank e.level) (rank l.log_level) ≡ false
    → log e l ≡ write_entry e l
unfolding log
above_level e l h = ap (λ b. if b then l else write_entry e l) h

entry_written :
    (e : Entry) (l : Logger) (name : Bytes)
    → l.log_to_file ≡ true
    → l.log_file ≡ some name
    → (write_entry e l).written ≡ l.written ++ (name, format e) ∷ []
unfolding write_entry
entry_written e l name h f = rw (h, f) refl

-- A logger with an open file adds to it the messages that are not below its level, in their order.
pub log_all-written :
    (es : List Entry) (l : Logger) (name : Bytes)
    → l.log_to_file ≡ true
    → l.log_file ≡ some name
    → (log_all es l).written ≡ l.written ++ in_file name (passing l.log_level es)
unfolding log_all passing in_file write_entry
log_all-written [] l name h f = sym (append-nil l.written)
log_all-written (e ∷ es) l name h f = elim (Bool-cases (ltb (rank e.level) (rank l.log_level))) [
  | inl below ↦
      ap (λ (k : Logger). (log_all es k).written) (below_level e l below)
      ∙ log_all-written es l name h f
      ∙ ap
          (λ b.
            l.written
            ++ in_file name (if b then passing l.log_level es else e ∷ passing l.log_level es))
          (sym below)
  | inr above ↦
      ap (λ (k : Logger). (log_all es k).written) (above_level e l above)
      ∙ log_all-written es (write_entry e l) name h f
      ∙ ap (λ (w : List (Bytes × Bytes)). w ++ in_file name (passing l.log_level es))
          (entry_written e l name h f)
      ∙ append_assoc l.written ((name, format e) ∷ []) (in_file name (passing l.log_level es))
      ∙ ap
          (λ b.
            l.written
            ++ in_file name (if b then passing l.log_level es else e ∷ passing l.log_level es))
          (sym above)
]
