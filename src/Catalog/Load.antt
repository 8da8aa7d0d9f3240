-- ===== src/Catalog/Load.antt =====
-- The constructor, `loadSybase` and `loadPostgres` of src/catalog/Catalog.cpp.
use hft_legacy_migration_fra.Base.{
  ◌+◌, ◌-◌, ◌/◌, ◌%◌, ◌^◌, Bytes, Bool, true, false, List, [], ◌∷◌, ◌++◌, Exception, codes, ◌==◌,
  if◌then◌else◌, insert,
}
use hft_legacy_migration_fra.Base.Int.{ℤ, pos, negsuc, to_u32}
use hft_legacy_migration_fra.Base.Run.{Run, done, throws, undefined, ◌>>=◌, lift}
use hft_legacy_migration_fra.Sql.{escape_name}
use hft_legacy_migration_fra.Values.{Row, int_at, string_at}
use hft_legacy_migration_fra.Catalog.Types.{DbDialect, sybase, postgresql, ColumnMeta, TableMeta}
use hft_legacy_migration_fra.Catalog.Ddl.{Tables}

-- What `executeQuery` does with an SQL text.
pub data Answer : Type 0 where
  rows : List Row → Answer
  null_reader : Answer
  query_throws : Exception → Answer

abbrev pub Connection : Type 0
Connection = Bytes → Answer

-- The rows that `while (reader->next())` walks.
unfoldable pub fetch : Connection → Bytes → Run (List Row)
fetch conn sql = elim (conn sql) [
  | rows rs ↦ done rs
  | null_reader ↦ undefined
  | query_throws e ↦ throws e
]

unfoldable pub table_query : DbDialect → Bytes
table_query sybase = codes "SELECT name FROM sysobjects WHERE type = 'U' ORDER BY name"
table_query postgresql =
    codes "SELECT tablename FROM pg_tables WHERE schemaname = 'public' ORDER BY tablename"

unfoldable pub column_query : DbDialect → Bytes → Bytes
column_query sybase table =
    codes
      "SELECT c.name, t.name as type_name, c.length, c.scale, c.status FROM syscolumns c JOIN systypes t ON c.usertype = t.usertype WHERE c.id = OBJECT_ID('"
    ++ (escape_name table ++ codes "') ORDER BY c.colid")
column_query postgresql table =
    codes
      "SELECT   a.attname AS column_name,   pg_catalog.format_type(a.atttypid, a.atttypmod) AS data_type,   a.attlen AS length,   a.atttypmod AS type_modifier,   NOT a.attnotnull AS is_nullable FROM pg_catalog.pg_attribute a JOIN pg_catalog.pg_class c ON a.attrelid = c.oid JOIN pg_catalog.pg_namespace n ON c.relnamespace = n.oid WHERE c.relname = '"
    ++ (escape_name table
        ++ codes
            "'   AND n.nspname = 'public'   AND a.attnum > 0   AND NOT a.attisdropped ORDER BY a.attnum")

-- `(status & 8) == 0`.
unfoldable pub status_nullable : ℤ → Bool
status_nullable status = to_u32 status / 8 % 2 == 0

-- `(typeMod - 4) & 0xFFFF` where typeMod is not negative.
unfoldable pub modifier_scale : ℤ → ℤ
modifier_scale (pos n) = pos ((n + (2 ^ 32 - 4)) % 2 ^ 16)
modifier_scale (negsuc n) = pos 0

-- `value != 0`.
unfoldable pub is_nonzero : ℤ → Bool
is_nonzero (pos n) = if n == 0 then false else true
is_nonzero (negsuc n) = true

unfoldable pub load_column : DbDialect → Row → Run ColumnMeta
unfolding status_nullable modifier_scale is_nonzero
load_column sybase row = do
  name ← lift (string_at row 0)
  type_name ← lift (string_at row 1)
  length ← lift (int_at row 2)
  scale ← lift (int_at row 3)
  status ← lift (int_at row 4)
  done (record {
    name = name;
    type_name = type_name;
    length = length;
    scale = scale;
    nullable = status_nullable status;
  })
load_column postgresql row = do
  name ← lift (string_at row 0)
  type_name ← lift (string_at row 1)
  length ← lift (int_at row 2)
  type_mod ← lift (int_at row 3)
  nullable ← lift (int_at row 4)
  done (record {
    name = name;
    type_name = type_name;
    length = length;
    scale = modifier_scale type_mod;
    nullable = is_nonzero nullable;
  })

unfoldable pub load_columns : DbDialect → List Row → Run (List ColumnMeta)
load_columns dialect [] = done []
load_columns dialect (row ∷ rest) = do
  column ← load_column dialect row
  columns ← load_columns dialect rest
  done (column ∷ columns)

unfoldable pub load_table : Connection → DbDialect → Bytes → Run TableMeta
load_table conn dialect name = do
  column_rows ← fetch conn (column_query dialect name)
  columns ← load_columns dialect column_rows
  done (record { name = name; columns = columns })

unfoldable pub load_tables : Connection → DbDialect → List Row → Tables → Run Tables
load_tables conn dialect [] tables = done tables
load_tables conn dialect (row ∷ rest) tables = do
  name ← lift (string_at row 0)
  meta ← load_table conn dialect name
  load_tables conn dialect rest (insert name meta tables)

-- The constructor.
unfoldable pub construct : Connection → DbDialect → Run Tables
construct conn dialect = do
  table_rows ← fetch conn (table_query dialect)
  load_tables conn dialect table_rows []
