-- ===== src/Catalog/Types.antt =====
-- `mapTypeToSQL` of src/catalog/Catalog.cpp, and the metadata that it reads.
use hft_legacy_migration_fra.Base.{
  suc, Bytes, String, Bool, false, not, ◌&&◌, ◌||◌, List, ◌∷◌, ◌++◌, map, codes, contains, to_lower,
  to_string, ltb, if◌then◌else◌,
}
use hft_legacy_migration_fra.Base.Int.{ℤ, pos, negsuc}

pub data DbDialect : Type 0 where
  sybase postgresql : DbDialect

pub record ColumnMeta : Type 0 where
  pub name : Bytes
  pub type_name : Bytes
  pub length : ℤ
  pub scale : ℤ
  pub nullable : Bool

pub record TableMeta : Type 0 where
  pub name : Bytes
  pub columns : List ColumnMeta

-- `std::transform` by `::tolower`.
unfoldable pub lower : Bytes → Bytes
lower = map to_lower

abbrev pub has : String → Bytes → Bool
has needle text = contains (codes needle) text

-- `n > 0` and, for such an n, `std::to_string(n)`.
abbrev pub is_positive : ℤ → Bool
is_positive (pos n) = ltb 0 n
is_positive (negsuc n) = false

unfoldable pub print_int : ℤ → Bytes
print_int (pos n) = to_string n
print_int (negsuc n) = b'-' ∷ to_string (suc n)

-- "VARCHAR(n)", or the default length.
unfoldable pub sized : String → String → ℤ → Bytes
sized type default n =
    if is_positive n then codes type ++ (b'(' ∷ print_int n ++ codes ")") else codes default

unfoldable pub numeric : String → ℤ → ℤ → Bytes
numeric default n scale =
    if is_positive n && is_positive scale
    then codes "NUMERIC(" ++ (print_int n ++ (b',' ∷ print_int scale ++ codes ")"))
    else codes default

-- The tests of the PostgreSQL branch, on the type's name in lower case; the last argument is what
-- is returned if none holds. The later tests are functions of their own.
unfoldable pub postgres_other : Bytes → Bytes → Bytes
postgres_other t default =
    if has "real" t
    then codes "REAL"
    else if has "double" t || has "float" t
    then codes "DOUBLE PRECISION"
    else if has "bool" t
    then codes "BOOLEAN"
    else if has "date" t
    then codes "DATE"
    else if has "timestamp" t
    then codes "TIMESTAMP"
    else if has "time" t
    then codes "TIME"
    else default

unfoldable pub postgres_text : Bytes → ℤ → ℤ → Bytes → Bytes
postgres_text t length scale default =
    if has "varchar" t || has "character varying" t
    then sized "VARCHAR" "VARCHAR(255)" length
    else if has "char" t && not (has "varying" t)
    then sized "CHAR" "CHAR(1)" length
    else if has "text" t
    then codes "TEXT"
    else if has "numeric" t || has "decimal" t
    then numeric "NUMERIC" length scale
    else postgres_other t default

unfoldable pub postgres_type : Bytes → ℤ → ℤ → Bytes → Bytes
postgres_type t length scale default =
    if has "int" t
    then codes "INTEGER"
    else if has "bigint" t
    then codes "BIGINT"
    else if has "smallint" t
    then codes "SMALLINT"
    else postgres_text t length scale default

-- The same for the Sybase branch.
unfoldable pub sybase_other : Bytes → Bytes → Bytes
sybase_other t default =
    if has "real" t
    then codes "REAL"
    else if has "float" t || has "double" t
    then codes "FLOAT"
    else if has "bit" t
    then codes "BIT"
    else if has "date" t
    then codes "DATE"
    else if has "datetime" t
    then codes "DATETIME"
    else if has "time" t
    then codes "TIME"
    else default

unfoldable pub sybase_text : Bytes → ℤ → ℤ → Bytes → Bytes
sybase_text t length scale default =
    if has "varchar" t
    then sized "VARCHAR" "VARCHAR(255)" length
    else if has "char" t && not (has "var" t)
    then sized "CHAR" "CHAR(1)" length
    else if has "text" t
    then codes "TEXT"
    else if has "numeric" t || has "decimal" t
    then numeric "NUMERIC(18,2)" length scale
    else sybase_other t default

unfoldable pub sybase_type : Bytes → ℤ → ℤ → Bytes → Bytes
sybase_type t length scale default =
    if has "int" t
    then codes "INT"
    else if has "bigint" t
    then codes "BIGINT"
    else if has "smallint" t
    then codes "SMALLINT"
    else if has "tinyint" t
    then codes "TINYINT"
    else sybase_text t length scale default

unfoldable pub map_type_to_sql : Bytes → ℤ → ℤ → DbDialect → Bytes
map_type_to_sql type_name length scale postgresql =
    postgres_type (lower type_name) length scale type_name
map_type_to_sql type_name length scale sybase = sybase_type (lower type_name) length scale type_name
