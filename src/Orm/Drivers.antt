-- ===== src/Orm/Drivers.antt =====
-- The two implementations of the interfaces, src/db/PostgreSQLConnection.cpp and
-- src/db/SybaseConnection.cpp, as drivers of the repository.
use hft_legacy_migration_fra.Base.{ℕ, refl, Bytes, []}
use hft_legacy_migration_fra.Base.Int.{ℤ}
use hft_legacy_migration_fra.Values.{Row}
use hft_legacy_migration_fra.Db.Statement.{put_at-length}
use hft_legacy_migration_fra.Db.Postgres
use hft_legacy_migration_fra.Db.Sybase
use hft_legacy_migration_fra.Orm.Driver.{Driver, Laws}

-- The text of a double that was read by `std::atof` is a parameter.
unfoldable pub postgres :
    (Row → ℕ → Bytes) → Postgres.Server → Driver Postgres.Connection Postgres.Statement
postgres get_double server = record {
  create = Postgres.create_statement server;
  bind = Postgres.bind_at;
  query = Postgres.execute_query server;
  update = Postgres.execute_update server;
  destroy = Postgres.destroy server;
  is_null = Postgres.is_null;
  get_int = Postgres.get_int;
  get_long = Postgres.get_long;
  get_double = get_double;
  get_string = Postgres.get_string;
}

pub postgres-Laws :
    (get_double : Row → ℕ → Bytes) (server : Postgres.Server) → Laws (postgres get_double server)
unfolding postgres Postgres.create_statement Postgres.bind_at
postgres-Laws get_double server = record {
  sql_of = λ s. s.sql;
  texts_of = λ s. s.param_values;
  render = Postgres.kept_text;
  create_sql = λ sql db. refl;
  create_texts = λ sql db. refl;
  bind_sql = λ i p s. refl;
  bind_texts = λ p s. put_at-length [] (Postgres.kept_text p) s.param_values;
}

-- What `dbconvert` makes of a cell is a parameter.
unfoldable pub sybase :
    (Row → ℕ → ℤ)
    → (Row → ℕ → ℤ)
    → (Row → ℕ → Bytes)
    → Sybase.Library
    → Driver Sybase.Connection Sybase.Statement
sybase get_int get_long get_double lib = record {
  create = λ sql db. (Sybase.create_statement sql, db);
  bind = Sybase.bind_at;
  query = λ s db. let (rows, after) = Sybase.execute_query lib s db in (rows, (s, after));
  update = λ s db. let (count, after) = Sybase.execute_update lib s db in (count, (s, after));
  destroy = λ s db. db;
  is_null = Sybase.is_null;
  get_int = get_int;
  get_long = get_long;
  get_double = get_double;
  get_string = Sybase.get_string;
}

pub sybase-Laws :
    (get_int get_long : Row → ℕ → ℤ) (get_double : Row → ℕ → Bytes) (lib : Sybase.Library)
    → Laws (sybase get_int get_long get_double lib)
unfolding sybase Sybase.create_statement Sybase.bind_at
sybase-Laws get_int get_long get_double lib = record {
  sql_of = λ s. s.sql;
  texts_of = λ s. s.param_values;
  render = Sybase.kept_text;
  create_sql = λ sql db. refl;
  create_texts = λ sql db. refl;
  bind_sql = λ i p s. refl;
  bind_texts = λ p s. put_at-length [] (Sybase.kept_text p) s.param_values;
}
