-- ===== src/Tests/Texts.antt =====
-- SQL texts and the catalog.
use hft_legacy_migration_fra.Base.{
  ◌≡◌, ◌≢◌, inr, refl, Bytes, true, false, [], ◌∷◌, ◌++◌, some, ok, codes, contains, eqb,
  if◌then◌else◌, arith,
}
use hft_legacy_migration_fra.Base.Int.{pos}
use hft_legacy_migration_fra.Base.Run.{done}
use hft_legacy_migration_fra.Sql.{quote, double_quotes, escape_name}
use hft_legacy_migration_fra.Sql.Literal.{read_literal, read_literal-double_quotes}
use hft_legacy_migration_fra.Sql.Loop.{escape_name-double_quotes}
use hft_legacy_migration_fra.Values.{Row, value_at}
use hft_legacy_migration_fra.Catalog.Types.{sybase, postgresql, ColumnMeta, TableMeta, lower, has}
use hft_legacy_migration_fra.Catalog.Ddl.{Tables}
use hft_legacy_migration_fra.Catalog.Load.{rows, Connection, fetch, table_query, load_column}
use hft_legacy_migration_fra.Catalog.Loaded.{load_column_refuses}

abbrev name : Bytes
name = codes "O'Neil's \\ bar"

abbrev rest : Bytes
rest = codes ", 1)"

plain : 44 ≢ quote
plain h = ground arith

read_literal-double_quotes_example :
    read_literal [] (double_quotes name ++ quote ∷ rest) ≡ some (name, rest)
read_literal-double_quotes_example = read_literal-double_quotes name rest plain

escape_name-double_quotes_example : escape_name name ≡ double_quotes name
escape_name-double_quotes_example = escape_name-double_quotes name

big_holds : has "bigint" (lower (codes "BigInt")) ≡ true
unfolding lower contains
big_holds = refl

abbrev id_column : ColumnMeta
id_column = record {
  name = codes "id";
  type_name = codes "int";
  length = pos 4;
  scale = pos 0;
  nullable = false;
}

abbrev users : TableMeta
users = record { name = codes "users"; columns = id_column ∷ [] }

abbrev catalog : Tables
catalog = (codes "users", users) ∷ []

-- The catalog query lists one table, whose column query yields one column.
abbrev connection : Connection
connection sql =
    if eqb sql (table_query sybase)
    then rows ((some (codes "users") ∷ []) ∷ [])
    else rows (
        (some (codes "id")
          ∷ some (codes "int")
          ∷ some (codes "4")
          ∷ some (codes "0")
          ∷ some (codes "8")
          ∷ [])
        ∷ [])

listed : fetch connection (table_query sybase) ≡ done ((some (codes "users") ∷ []) ∷ [])
unfolding fetch eqb table_query
listed = refl

abbrev postgres_column : Row
postgres_column =
    some (codes "id")
    ∷ some (codes "integer")
    ∷ some (codes "4")
    ∷ some (codes "-1")
    ∷ some (codes "f")
    ∷ []

flag : value_at postgres_column 4 ≡ ok (some (codes "f"))
unfolding value_at
flag = refl

load_column_refuses_example : load_column postgresql postgres_column ≢ done id_column
load_column_refuses_example =
    load_column_refuses postgres_column (codes "f") flag (inr refl) id_column
