-- ===== src/Db/Sybase/Handles.antt =====
-- The login records and processes that a SybaseConnection holds in DB-Library.
use hft_legacy_migration_fra.Base.{
  ℕ, suc, ◌-◌, ◌≡◌, refl, Bytes, Bool, true, false, List, [], ◌∷◌, arith,
}
use hft_legacy_migration_fra.Db.Sybase.{
  Event, login_made, login_freed, process_made, process_closed, database_used, sent, Library,
  Connection, Statement, construct, use_database, open_process, open_connection, close, send,
  execute, execute_query, execute_update,
}

-- How many there are after these events.
unfoldable pub logins : List Event → ℕ
logins [] = 0
logins (login_made ∷ es) = suc (logins es)
logins (login_freed ∷ es) = logins es - 1
logins (process_made user password server ∷ es) = logins es
logins (process_closed ∷ es) = logins es
logins (database_used database ∷ es) = logins es
logins (sent sql ∷ es) = logins es

unfoldable pub processes : List Event → ℕ
processes [] = 0
processes (login_made ∷ es) = processes es
processes (login_freed ∷ es) = processes es
processes (process_made user password server ∷ es) = suc (processes es)
processes (process_closed ∷ es) = processes es - 1
processes (database_used database ∷ es) = processes es
processes (sent sql ∷ es) = processes es

pub data Use : Type 0 where
  opens : Bytes → Use
  closes : Use
  executes : Bytes → Use
  queries updates : Statement → Use

abbrev number : Bool → ℕ
number true = 1
number false = 0

module _ (lib : Library) where
  unfoldable pub use_once : Use → Connection → Connection
  use_once (opens text) db = (open_connection lib text db).1
  use_once closes db = close lib db
  use_once (executes sql) db = (execute lib sql db).1
  use_once (queries stmt) db = (execute_query lib stmt db).1
  use_once (updates stmt) db = (execute_update lib stmt db).1

  -- `open` is called on a closed connection only.
  abbrev pub IsProper : Use → Connection → Type 0
  IsProper (opens text) db = db.process ≡ false
  IsProper closes db = Unit {0}
  IsProper (executes sql) db = Unit {0}
  IsProper (queries stmt) db = Unit {0}
  IsProper (updates stmt) db = Unit {0}

  unfoldable pub use_all : List Use → Connection → Connection
  use_all [] db = db
  use_all (u ∷ us) db = use_all us (use_once u db)

  unfoldable pub AreProper : List Use → Connection → Type 0
  AreProper [] db = Unit {0}
  AreProper (u ∷ us) db = IsProper u db × AreProper us (use_once u db)

  -- The handles are both there or both null, and nothing else is held in DB-Library.
  record Owns (db : Connection) : Type 0 where
    both : db.login ≡ db.process
    held_logins : logins db.events ≡ number db.login
    held_processes : processes db.events ≡ number db.process

  close-Owns : (db : Connection) → Owns db → Owns (close lib db)
  unfolding close logins processes
  close-Owns db h = ground arith

  use_database-Owns :
      (database : Bytes) (db : Connection)
      → Owns db
      → db.process ≡ true
      → Owns (use_database lib database db).1
  unfolding use_database logins processes
  use_database-Owns database db h e = ground arith

  open_connection-Owns :
      (text : Bytes) (db : Connection)
      → Owns db
      → db.process ≡ false
      → Owns (open_connection lib text db).1
  unfolding open_connection open_process logins processes use_database
  open_connection-Owns text db h e = ground arith

  send-Owns : (sql : Bytes) (db : Connection) → Owns db → Owns (send lib sql db).1
  unfolding send logins processes
  send-Owns sql db h = ground arith

  execute-Owns : (sql : Bytes) (db : Connection) → Owns db → Owns (execute lib sql db).1
  unfolding execute
  execute-Owns sql db h = ground (arith, send-Owns sql db)

  use_once-Owns : (u : Use) (db : Connection) → Owns db → IsProper u db → Owns (use_once u db)
  unfolding use_once execute_query execute_update
  use_once-Owns (opens text) db h proper = open_connection-Owns text db h proper
  use_once-Owns closes db h proper = close-Owns db h
  use_once-Owns (executes sql) db h proper = execute-Owns sql db h
  use_once-Owns (queries stmt) db h proper = send-Owns _ db h
  use_once-Owns (updates stmt) db h proper = send-Owns _ db h

  use_all-Owns :
      (us : List Use) (db : Connection) → Owns db → AreProper us db → Owns (use_all us db)
  unfolding use_all AreProper
  use_all-Owns [] db h proper = h
  use_all-Owns (u ∷ us) db h (now, later) =
      use_all-Owns us (use_once u db) (use_once-Owns u db h now) later

  pub closed-IsProper :
      (text : Bytes) (db : Connection) → IsProper (opens text) (use_once closes db)
  unfolding use_once close
  closed-IsProper text db = ground arith

  closed_empty :
      (db : Connection)
      → Owns db
      → (logins (close lib db).events ≡ 0) × (processes (close lib db).events ≡ 0)
  unfolding close logins processes
  closed_empty db h = ground arith

  -- A Sybase connection that is made, used in any way in which `open` is only called while it is
  -- closed, and destroyed, leaves no login record and no process in DB-Library, whichever of its calls
  -- DB-Library refuses.
  pub close-use_all :
      (initialized : Bool) (us : List Use)
      → AreProper us (construct lib initialized).1
      → let last = use_all us (construct lib initialized).1 in
        (logins (close lib last).events ≡ 0) × (processes (close lib last).events ≡ 0)
  unfolding construct logins processes
  close-use_all initialized us proper =
      let first = (construct lib initialized).1 in
      closed_empty (use_all us first) (
        use_all-Owns us first (record { both = refl; held_logins = refl; held_processes = refl })
          proper)
