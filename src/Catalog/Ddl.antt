-- ===== src/Catalog/Ddl.antt =====
-- `findTable`, `generateCreateTableSQL` and `generateDropTableSQL` of src/catalog/Catalog.cpp.
use hft_legacy_migration_fra.Base.{
  ◌≡◌, refl, ap, Bytes, Bool, true, false, List, [], ◌∷◌, ◌++◌, map, Option, none, some, Result, ok,
  err, db_exception, codes, if◌then◌else◌, lookup, append-nil, Option-cases, ◌⊎◌, inl, inr,
}
use hft_legacy_migration_fra.Catalog.Types.{
  DbDialect, sybase, postgresql, ColumnMeta, TableMeta, map_type_to_sql,
}

abbrev pub Tables : Type 0
Tables = List (Bytes × TableMeta)

unfoldable pub find_table : Tables → Bytes → Option TableMeta
find_table tables name = lookup name tables

-- What the loop writes for a column, behind the separator.
unfoldable pub column_sql : DbDialect → ColumnMeta → Bytes
column_sql dialect col =
    codes "  "
    ++ (col.name
        ++ (codes " "
            ++ (map_type_to_sql col.type_name col.length col.scale dialect
                ++ (if col.nullable then [] else codes " NOT NULL"))))

-- The loop, with its flag `first`.
unfoldable pub columns_sql : DbDialect → Bool → List ColumnMeta → Bytes
columns_sql dialect first [] = []
columns_sql dialect first (col ∷ columns) =
    (if first then [] else codes ",\n")
    ++ (column_sql dialect col ++ columns_sql dialect false columns)

unfoldable pub options : DbDialect → Bytes
options sybase = codes " LOCK DATAROWS"
options postgresql = []

unfoldable pub generate_create_table_sql : Tables → Bytes → DbDialect → Result Bytes
unfolding find_table options
generate_create_table_sql tables name dialect = elim (find_table tables name) [
  | none ↦ err (db_exception (codes "Table not found: " ++ name))
  | some table ↦ ok (
      codes "CREATE TABLE "
      ++ (name
          ++ (codes " (\n"
              ++ (columns_sql dialect true table.columns ++ (codes "\n)" ++ options dialect)))))
]

unfoldable pub generate_drop_table_sql : Bytes → DbDialect → Bytes
generate_drop_table_sql name postgresql =
    codes "DROP TABLE IF EXISTS " ++ (name ++ codes " CASCADE")
generate_drop_table_sql name sybase = codes "DROP TABLE " ++ name

-- Texts with a separator between each two.
unfoldable pub joined : Bytes → List Bytes → Bytes
joined sep [] = []
joined sep (part ∷ []) = part
joined sep (part ∷ next ∷ parts) = part ++ (sep ++ joined sep (next ∷ parts))

joined-cons :
    (sep part next : Bytes) (parts : List Bytes)
    → joined sep (part ∷ next ∷ parts) ≡ part ++ (sep ++ joined sep (next ∷ parts))
unfolding joined
joined-cons sep part next parts = refl

columns_sql-joined :
    (dialect : DbDialect) (col : ColumnMeta) (columns : List ColumnMeta)
    → columns_sql dialect true (col ∷ columns)
      ≡ joined (codes ",\n") (map (column_sql dialect) (col ∷ columns))
unfolding columns_sql joined
columns_sql-joined dialect col [] = append-nil (column_sql dialect col)
columns_sql-joined dialect col (next ∷ columns) =
    ap (λ t. column_sql dialect col ++ (codes ",\n" ++ t)) (columns_sql-joined dialect next columns)

columns_sql_lem :
    (dialect : DbDialect) (columns : List ColumnMeta)
    → columns_sql dialect true columns ≡ joined (codes ",\n") (map (column_sql dialect) columns)
columns_sql_lem dialect [] = unfold columns_sql joined in refl
columns_sql_lem dialect (col ∷ columns) = columns_sql-joined dialect col columns

-- For a table of the catalog the statement lists its columns in their order, each as its name, its
-- type in the dialect and NOT NULL where it is not nullable, with a comma between each two and none
-- at the ends; the Sybase form locks rows. For any other name `generateCreateTableSQL` throws.
pub generate_create_table_sql_lem :
    (tables : Tables) (name : Bytes) (dialect : DbDialect)
    → ((find_table tables name ≡ none)
        × (generate_create_table_sql tables name dialect
            ≡ err (db_exception (codes "Table not found: " ++ name))))
      ⊎ ((table : TableMeta) × (find_table tables name ≡ some table)
          × (generate_create_table_sql tables name dialect
              ≡ ok (
                  codes "CREATE TABLE "
                  ++ (name
                      ++ (codes " (\n"
                          ++ (joined (codes ",\n") (map (column_sql dialect) table.columns)
                              ++ (codes "\n)" ++ options dialect)))))))
unfolding generate_create_table_sql
generate_create_table_sql_lem tables name dialect = elim (Option-cases (find_table tables name)) [
  | inl e ↦ inl (e, rw (e, generate_create_table_sql))
  | inr (table, e) ↦
      inr (table, e, rw (e, generate_create_table_sql, columns_sql_lem dialect table.columns) refl)
]
