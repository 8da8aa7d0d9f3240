-- ===== src/Orm/Schema.antt =====
-- include/hft/catalog/Catalog.h: the catalog of the reflected entities.
use hft_legacy_migration_fra.Base.{
  ◌≡◌, refl, ap, ◌∙◌, Bytes, Bool, not, ◌&&◌, List, [], ◌∷◌, ◌++◌, Option, none, some, codes, eqb,
  eqb_iff, if◌then◌else◌, map, lookup, insert, lookup-insert, append-nil, append_assoc,
}
use hft_legacy_migration_fra.Orm.Field.{
  FieldType, int32, int64, double, string, bool, Field, field_type,
}

pub record ColumnInfo : Type 0 where
  pub name : Bytes
  pub type : FieldType
  pub primary_key : Bool
  pub nullable : Bool

pub record TableInfo : Type 0 where
  pub name : Bytes
  pub columns : List ColumnInfo

unfoldable pub add_column : ColumnInfo → TableInfo → TableInfo
add_column col t = record t { columns = t.columns ++ col ∷ [] }

unfoldable pub find_column : Bytes → List ColumnInfo → Option ColumnInfo
find_column name [] = none
find_column name (col ∷ cols) = if eqb col.name name then some col else find_column name cols

unfoldable pub get_column : Bytes → TableInfo → Option ColumnInfo
unfolding find_column
get_column name t = find_column name t.columns

unfoldable pub key_names : List ColumnInfo → List Bytes
key_names [] = []
key_names (col ∷ cols) =
    let rest = key_names cols in if col.primary_key then col.name ∷ rest else rest

unfoldable pub get_primary_key_columns : TableInfo → List Bytes
unfolding key_names
get_primary_key_columns t = key_names t.columns

-- `tables_`, a map.
abbrev pub Catalog : Type 0
Catalog = List (Bytes × TableInfo)

unfoldable pub register_table : TableInfo → Catalog → Catalog
unfolding insert
register_table t tables = insert t.name t tables

unfoldable pub clear : Catalog → Catalog
clear tables = []

unfoldable pub get_table : Bytes → Catalog → Option TableInfo
unfolding lookup
get_table name tables = lookup name tables

unfoldable pub postgres_type : FieldType → Bytes
postgres_type int32 = codes "INTEGER"
postgres_type int64 = codes "BIGINT"
postgres_type double = codes "DOUBLE PRECISION"
postgres_type string = codes "TEXT"
postgres_type bool = codes "BOOLEAN"

unfoldable pub sybase_type : FieldType → Bytes
sybase_type int32 = codes "INT"
sybase_type int64 = codes "BIGINT"
sybase_type double = codes "FLOAT"
sybase_type string = codes "VARCHAR(255)"
sybase_type bool = codes "BIT"

unfoldable pub get_type_sql : FieldType → Bytes → Bytes
unfolding postgres_type sybase_type
get_type_sql type dialect =
    if eqb dialect (codes "postgresql")
    then postgres_type type
    else if eqb dialect (codes "sybase")
    then sybase_type type
    else codes "TEXT"

unfoldable pub column_line : Bytes → ColumnInfo → Bytes
unfolding get_type_sql
column_line dialect col =
    codes "    "
    ++ (col.name
        ++ (codes " "
            ++ (get_type_sql col.type dialect
                ++ ((if col.primary_key then codes " PRIMARY KEY" else [])
                    ++ (if not col.nullable && not col.primary_key
                        then codes " NOT NULL"
                        else [])))))

-- A comma stands behind each column but the last.
unfoldable pub column_lines : Bytes → List ColumnInfo → Bytes
unfolding column_line
column_lines dialect [] = []
column_lines dialect (col ∷ []) = column_line dialect col ++ codes "\n"
column_lines dialect (col ∷ next ∷ cols) =
    column_line dialect col ++ (codes ",\n" ++ column_lines dialect (next ∷ cols))

unfoldable pub create_text : Bytes → Bytes → TableInfo → Bytes
unfolding column_lines
create_text name dialect t =
    codes "CREATE TABLE "
    ++ (name ++ (codes " (\n" ++ (column_lines dialect t.columns ++ codes ")")))

unfoldable pub generate_create_table_sql : Bytes → Bytes → Catalog → Bytes
unfolding get_table create_text
generate_create_table_sql name dialect tables = elim (get_table name tables) [
  | none ↦ []
  | some t ↦ create_text name dialect t
]

unfoldable pub column_of : Field → ColumnInfo
unfolding field_type
column_of f = record {
  name = f.name;
  type = field_type f.member;
  primary_key = f.is_key;
  nullable = f.is_nullable;
}

-- The calls of `addColumn` by `forEachField`.
unfoldable pub add_fields : List Field → TableInfo → TableInfo
unfolding add_column column_of
add_fields [] t = t
add_fields (f ∷ fs) t = add_fields fs (add_column (column_of f) t)

unfoldable pub register_entity : Bytes → List Field → Catalog → Catalog
unfolding add_fields register_table
register_entity table fs tables =
    register_table (add_fields fs (record { name = table; columns = [] })) tables

add_fields_lem :
    (fs : List Field) (t : TableInfo)
    → add_fields fs t ≡ record t { columns = t.columns ++ map column_of fs }
unfolding add_fields add_column
add_fields_lem [] t = rw (append-nil t.columns) refl
add_fields_lem (f ∷ fs) t =
    add_fields_lem fs (add_column (column_of f) t)
    ∙ ap (λ (v : List ColumnInfo). record t { columns = v })
        (append_assoc t.columns (column_of f ∷ []) (map column_of fs))

found :
    (table other : Bytes) (fs : List Field) (tables : Catalog)
    → let entity : TableInfo = record { name = table; columns = map column_of fs } in
      get_table other (register_entity table fs tables)
      ≡ (if eqb table other then some entity else get_table other tables)
unfolding get_table register_entity register_table
found table other fs tables =
    ap (λ (t : TableInfo). lookup other (insert t.name t tables))
      (add_fields_lem fs (record { name = table; columns = [] }))
    ∙ lookup-insert table other (record { name = table; columns = map column_of fs }) tables

-- A registered entity is found under its table's name, with a column for each field in their order,
-- and its CREATE TABLE statement lists these, whatever was registered before; the tables of other
-- names are found as before.
pub get_table-register_entity :
    (table dialect other : Bytes) (fs : List Field) (tables : Catalog)
    → let entity : TableInfo = record { name = table; columns = map column_of fs } in
      (get_table other (register_entity table fs tables)
        ≡ (if eqb table other then some entity else get_table other tables))
      × (generate_create_table_sql table dialect (register_entity table fs tables)
          ≡ create_text table dialect entity)
unfolding generate_create_table_sql
get_table-register_entity table dialect other fs tables = (
  found table other fs tables,
  rw (found table table fs tables, generate_create_table_sql, (eqb_iff table table).1 refl) refl,
)
