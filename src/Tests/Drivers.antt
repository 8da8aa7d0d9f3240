-- ===== src/Tests/Drivers.antt =====
-- The older connection classes and the classes of src/sybase.
use hft_legacy_migration_fra.Base.{
  ◌≡◌, ◌≤◌, ◌+◌, refl, Bytes, true, false, List, [], ◌∷◌, none, err, Exception, codes, All,
}
use hft_legacy_migration_fra.Base.Int.{pos}
use hft_legacy_migration_fra.Db.Statement.{int_param}
use hft_legacy_migration_fra.Db.Transaction.{
  commits, rolls_back, start, run, destroy, ending, destroy-run,
}
use hft_legacy_migration_fra.Db.Postgres
use hft_legacy_migration_fra.Db.Postgres.Lifetime
use hft_legacy_migration_fra.Db.Sybase
use hft_legacy_migration_fra.Db.Sybase.Handles
use hft_legacy_migration_fra.Sybase.ConnInfo.{no_settings, parse_conn_info}
use hft_legacy_migration_fra.Sybase.Placeholders.{build_final_sql}
use hft_legacy_migration_fra.Sybase.Settings.{
  connection_string, last_values, IsPlain, parse_conn_info-connection_string,
}
use hft_legacy_migration_fra.Sybase.Template.{free_of, free_of-All}
use hft_legacy_migration_fra.Sybase.Connection
use hft_legacy_migration_fra.Sybase.Session
use hft_legacy_migration_fra.Sybase.Updates

-- A server that changes one row by each command, and one that refuses every commit.
abbrev pub willing : Postgres.Server
willing = record {
  connect = λ text. none;
  answer = λ sent. Postgres.command_ok (codes "1");
  alive = λ sent. true;
}

abbrev pub db : Postgres.Connection
db = record { opened = true; last_error = []; sent = []; counter = 3 }

abbrev uses : List Lifetime.Use
uses =
    Lifetime.binds 0 (int_param (pos 7))
    ∷ Lifetime.updates
    ∷ Lifetime.resets
    ∷ Lifetime.queries
    ∷ []

abbrev select_one : Bytes
select_one = codes "SELECT $1"

destroy-use_all_example :
    let last = Lifetime.use_all willing uses (Postgres.create_statement willing select_one db) in
    let after = Postgres.destroy willing last.0 last.1 in
    let own = Lifetime.next_name willing db in
    (Lifetime.made willing own after.sent ≤ Lifetime.made willing own db.sent + 1)
    × (Lifetime.made willing own after.sent + Lifetime.dropped willing own db.sent
        ≡ Lifetime.made willing own db.sent + Lifetime.dropped willing own after.sent)
destroy-use_all_example = Lifetime.destroy-use_all willing select_one uses db

destroy-run_example :
    destroy Postgres.transaction_commands (Postgres.execute willing) (
      run Postgres.transaction_commands
        (Postgres.execute willing)
        (rolls_back ∷ commits ∷ [])
        (start Postgres.transaction_commands (Postgres.execute willing) db))
    ≡ (Postgres.execute willing
        (ending Postgres.transaction_commands
          (Postgres.execute willing)
          (rolls_back ∷ commits ∷ []))
        (Postgres.execute willing (codes "BEGIN") db).1).1
unfolding Postgres.transaction_commands
destroy-run_example =
    destroy-run Postgres.transaction_commands (Postgres.execute willing) (rolls_back ∷ commits ∷ [])
      db

-- A server of DB-Library that lets everything pass and changes one row by each command.
abbrev pub lib : Sybase.Library
lib = record {
  dbinit = true;
  dblogin = λ events. true;
  dbopen = λ s events. true;
  dbuse = λ database events. true;
  dbdead = λ events. false;
  answer = λ events. Sybase.results (true ∷ []) [] (pos 1);
}

abbrev pub syb : Sybase.Connection
syb = record { login = true; process = true; last_error = []; events = [] }

abbrev login_text : Bytes
login_text = codes "server=h;user=u;password=p;database=d"

abbrev short_text : Bytes
short_text = codes "user=u"

abbrev proper_uses : List Handles.Use
proper_uses =
    Handles.opens short_text
    ∷ Handles.executes select_one
    ∷ Handles.closes
    ∷ Handles.opens short_text
    ∷ []

proper : Handles.AreProper lib proper_uses (Sybase.construct lib false).1
unfolding Handles.AreProper Sybase.construct
proper = (
  refl,
  (
    tt,
    (
      tt,
      (
        Handles.closed-IsProper lib short_text (
            Handles.use_once lib (Handles.executes select_one)
              (Handles.use_once lib (Handles.opens short_text) (Sybase.construct lib false).1)),
        tt,
      ),
    ),
  ),
)

close-use_all_example :
    let last = Handles.use_all lib proper_uses (Sybase.construct lib false).1 in
    (Handles.logins (Sybase.close lib last).events ≡ 0)
    × (Handles.processes (Sybase.close lib last).events ≡ 0)
close-use_all_example = Handles.close-use_all lib false proper_uses proper

abbrev stmt : Connection.PreparedStatement
stmt = record { sql = select_one; params = codes "7" ∷ [] }

abbrev session_uses : List Session.Use
session_uses = Session.begins ∷ Session.updates stmt ∷ Session.commits ∷ Session.runs stmt ∷ []

lifetime-construct_example :
    let last = Session.lifetime lib session_uses (Connection.construct lib false login_text) in
    (Handles.logins last.events ≡ 0) × (Handles.processes last.events ≡ 0)
lifetime-construct_example = Session.lifetime-construct lib false login_text session_uses

abbrev live : Connection.Connection
live = record { process = true; events = [] }

execute_query_throws_example :
    (((e : Exception) × ((Connection.execute_query lib select_one live).0 ≡ err e))
      × ((Connection.execute_query lib select_one live).1.events ≡ Sybase.sent select_one ∷ []))
    × (((e : Exception) × ((Connection.execute_prepared lib stmt live).0 ≡ err e))
        × ((Connection.execute_prepared lib stmt live).1.events
            ≡ Session.after_sending lib (build_final_sql stmt.params stmt.sql) live))
execute_query_throws_example = Session.execute_query_throws lib select_one stmt live

abbrev pieces : List Bytes
pieces = codes ", " ∷ codes ")" ∷ []

abbrev bound : List Connection.Param
bound = Connection.int_param (pos 7) ∷ Connection.string_param (codes "it's") ∷ []

abbrev pairs : List (Bytes × Bytes)
pairs = (codes "server", codes "a=b") ∷ (codes "port", codes "1") ∷ (codes "user", codes "me") ∷ []

pairs-IsPlain : All IsPlain pairs
pairs-IsPlain = (
  plain (codes "server") (codes "a=b") refl refl refl,
  (
    plain (codes "port") (codes "1") refl refl refl,
    (plain (codes "user") (codes "me") refl refl refl, tt),
  ),
)
  where
    plain :
        (key value : Bytes)
        → free_of b'=' key ≡ true
        → free_of b';' key ≡ true
        → free_of b';' value ≡ true
        → IsPlain (key, value)
    plain key value h k v =
        (free_of-All b'=' key h, free_of-All b';' key k, free_of-All b';' value v)

parse_conn_info-connection_string_example :
    parse_conn_info (connection_string pairs) no_settings ≡ last_values pairs no_settings
parse_conn_info-connection_string_example =
    parse_conn_info-connection_string pairs no_settings pairs-IsPlain
