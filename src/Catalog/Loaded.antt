-- ===== src/Catalog/Loaded.antt =====
-- What a catalog holds once it is loaded, and when it cannot be.
use hft_legacy_migration_fra.Base.{
  ◌≡◌, ◌≢◌, ◌⊎◌, inl, inr, refl, sym, ap, ◌∙◌, Bytes, List, [], ◌∷◌, some, ok, err, Exception,
  foreign, codes,
}
use hft_legacy_migration_fra.Base.Int.{ℤ}
use hft_legacy_migration_fra.Base.Run.{done, throws, lift, >>=-eq-done}
use hft_legacy_migration_fra.Values.{
  Row, int_at, string_at, value_at, as_int, stoi, signed, magnitude, positive,
}
use hft_legacy_migration_fra.Catalog.Types.{DbDialect, sybase, postgresql, ColumnMeta, TableMeta}
use hft_legacy_migration_fra.Catalog.Ddl.{Tables, find_table}
use hft_legacy_migration_fra.Catalog.Load.{
  Connection, fetch, column_query, status_nullable, modifier_scale, is_nonzero, load_column,
  load_table,
}

-- A text is the first value of one of the rows.
abbrev pub Listed : Bytes → List Row → Type 0
Listed name [] = ⊥
Listed name (row ∷ rest) = (string_at row 0 ≡ ok name) ⊎ Listed name rest

-- The scale and the flag that stand in the last two values of a row of the column query.
abbrev pub HasScale : DbDialect → Row → ColumnMeta → Type 0
HasScale sybase row c =
    (int_at row 3 ≡ ok c.scale)
    × ((status : ℤ) × (int_at row 4 ≡ ok status) × (c.nullable ≡ status_nullable status))
HasScale postgresql row c =
    ((type_mod : ℤ) × (int_at row 3 ≡ ok type_mod) × (c.scale ≡ modifier_scale type_mod))
    × ((flag : ℤ) × (int_at row 4 ≡ ok flag) × (c.nullable ≡ is_nonzero flag))

-- A column has the name, the type and the length that stand in a row of the column query.
abbrev pub IsColumn : DbDialect → Row → ColumnMeta → Type 0
IsColumn dialect row c =
    (string_at row 0 ≡ ok c.name)
    × (string_at row 1 ≡ ok c.type_name)
    × (int_at row 2 ≡ ok c.length)
    × HasScale dialect row c

-- One column for each row, in their order.
abbrev pub AreColumns : DbDialect → List Row → List ColumnMeta → Type 0
AreColumns dialect [] [] = Unit {0}
AreColumns dialect [] (c ∷ columns) = ⊥
AreColumns dialect (row ∷ rows) [] = ⊥
AreColumns dialect (row ∷ rows) (c ∷ columns) =
    IsColumn dialect row c × AreColumns dialect rows columns

-- An entry of the catalog has its key as name, and one column for each row of the table's column query.
abbrev pub HasColumns : Connection → DbDialect → Bytes → TableMeta → Type 0
HasColumns conn dialect name meta =
    (meta.name ≡ name)
    × ((rows : List Row) × (fetch conn (column_query dialect name) ≡ done rows)
        × AreColumns dialect rows meta.columns)

abbrev pub IsFaithful : Connection → DbDialect → Tables → Type 0
IsFaithful conn dialect tables =
    (name : Bytes) (meta : TableMeta)
    → find_table tables name ≡ some meta
    → HasColumns conn dialect name meta

-- An entry of the catalog is what `load_table` makes of the table's columns.
abbrev IsLoaded : Connection → DbDialect → Tables → Type 0
IsLoaded conn dialect tables =
    (name : Bytes) (meta : TableMeta)
    → find_table tables name ≡ some meta
    → load_table conn dialect name ≡ done meta

abbrev pub HasTable : Tables → Bytes → Type 0
HasTable tables name = (meta : TableMeta) × (find_table tables name ≡ some meta)

abbrev pub Covers : List Row → Tables → Type 0
Covers names tables = (name : Bytes) → Listed name names → HasTable tables name

refuse : {A : Type 0} {e : Exception} {x : A} → throws e ≢ done x
refuse h = cc

-- A text that std::stoi refuses: what PostgreSQL prints of a Boolean.
stoi_boolean :
    (v : Bytes) → (v ≡ codes "t") ⊎ (v ≡ codes "f") → stoi v ≡ err (foreign 1 (codes "stoi"))
unfolding stoi signed magnitude positive
stoi_boolean v (inl e) = rw e refl
stoi_boolean v (inr e) = rw e refl

int_at_boolean :
    (row : Row) (v : Bytes)
    → value_at row 4 ≡ ok (some v)
    → (v ≡ codes "t") ⊎ (v ≡ codes "f")
    → int_at row 4 ≡ err (foreign 1 (codes "stoi"))
unfolding int_at as_int
int_at_boolean row v e b = rw (e, stoi_boolean v b) refl

-- From PostgreSQL a column is never read: the flag that its query computes is a Boolean, which
-- PostgreSQL prints as `t` or `f`, and no row with such a flag gives a column.
pub load_column_refuses :
    (row : Row) (v : Bytes)
    → value_at row 4 ≡ ok (some v)
    → (v ≡ codes "t") ⊎ (v ≡ codes "f")
    → (column : ColumnMeta) → load_column postgresql row ≢ done column
unfolding load_column
load_column_refuses row v e b column f =
    let (name, e0, f0) = >>=-eq-done (lift (string_at row 0)) _ f in
    let (type_name, e1, f1) = >>=-eq-done (lift (string_at row 1)) _ f0 in
    let (length, e2, f2) = >>=-eq-done (lift (int_at row 2)) _ f1 in
    let (type_mod, e3, f3) = >>=-eq-done (lift (int_at row 3)) _ f2 in
    let (nullable, e4, f4) = >>=-eq-done (lift (int_at row 4)) _ f3 in absurd (no_value e4)
  where
    no_value : {n : ℤ} → lift (int_at row 4) ≢ done n
    no_value g = absurd (refuse (sym (ap lift (int_at_boolean row v e b)) ∙ g))
