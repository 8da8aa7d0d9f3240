-- ===== src/Tests/Cursors.antt =====
-- Two users read through the cursors of the older result sets.
use hft_legacy_migration_fra.Base.{
  ℕ, ◌≡◌, refl, Bytes, true, List, [], ◌∷◌, some, none, codes, length, arith, get_elem?,
}
use hft_legacy_migration_fra.Values.{Row}
use hft_legacy_migration_fra.Db.Postgres
use hft_legacy_migration_fra.Db.ResultSet.{pg_cursor, pg_construct}
use hft_legacy_migration_fra.Orm.Field.{Field}
use hft_legacy_migration_fra.Orm.Drivers.{postgres}
use hft_legacy_migration_fra.Orm.Repository.{run_query, select_sql}
use hft_legacy_migration_fra.Orm.Cursors.{find_all_loop}
use hft_legacy_migration_fra.Orm.Columns.{filled, find_all_loop-columns}
use hft_legacy_migration_fra.Tests.Drivers.{db}
use hft_legacy_migration_fra.Tests.Entities.{user, no_double}

abbrev names : List Bytes
names = codes "id" ∷ codes "name" ∷ codes "age" ∷ []

abbrev users : List Row
users =
    (some (codes "5") ∷ some (codes "O'Neil") ∷ none ∷ [])
    ∷ (some (codes "6") ∷ some [] ∷ some (codes "33") ∷ [])
    ∷ []

abbrev answer : List Postgres.Command → Postgres.Reply
answer [] = Postgres.refused []
answer (Postgres.prepare name sql count ∷ sent) = Postgres.command_ok []
answer (Postgres.exec_prepared name values lengths formats ∷ sent) = Postgres.tuples_ok users
answer (Postgres.exec sql ∷ sent) = Postgres.command_ok []

abbrev serving : Postgres.Server
serving = record { connect = λ text. none; answer = answer; alive = λ sent. true }

abbrev table : Bytes
table = codes "users"

answered :
    (run_query
      (postgres no_double serving)
      ((postgres no_double serving).create (select_sql table) db)).0
    ≡ some users
unfolding run_query postgres Postgres.create_statement Postgres.execute_query Postgres.send
answered = refl

find_all_loop-columns_example :
    let entities =
      (find_all_loop
        (postgres no_double serving)
        pg_cursor
        (pg_construct names)
        3
        table
        user
        db).0 in
    (length entities ≡ length users)
    × ((k i : ℕ) (row : Row) (f : Field)
        → get_elem? users k ≡ some row
        → get_elem? user i ≡ some f
        → (entity : List Field) × (get_elem? entities k ≡ some entity)
          × (get_elem? entity i ≡ some (filled (no_double row i) (Postgres.cell row i) f)))
find_all_loop-columns_example =
    find_all_loop-columns no_double serving names 3 table user db users answered (omega arith)
