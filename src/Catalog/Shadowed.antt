-- ===== src/Catalog/Shadowed.antt =====
-- The tests of `mapTypeToSQL` that can never be reached.
use hft_legacy_migration_fra.Base.{
  ◌≡◌, ◌≢◌, inl, inr, refl, ap, Bytes, true, codes, contains, contains_drop_front, arith,
  Bool-cases,
}
use hft_legacy_migration_fra.Base.Int.{ℤ}
use hft_legacy_migration_fra.Catalog.Types.{
  sybase, postgresql, has, lower, sized, numeric, postgres_other, postgres_text, postgres_type,
  sybase_type, map_type_to_sql,
}

-- A name that holds "bigint" holds "int", and so for the other integer types.
pub bigint-int : (t : Bytes) → has "bigint" t ≡ true → has "int" t ≡ true
bigint-int t h =
    contains_drop_front b'g' (codes "int") t
      (contains_drop_front b'i' (codes "gint") t (contains_drop_front b'b' (codes "igint") t h))

-- Where the test for "int" holds, it decides, whatever follows.
pub map_int :
    (type_name : Bytes) (length scale : ℤ)
    → has "int" (lower type_name) ≡ true
    → (map_type_to_sql type_name length scale postgresql ≡ codes "INTEGER")
      × (map_type_to_sql type_name length scale sybase ≡ codes "INT")
unfolding map_type_to_sql postgres_type sybase_type
map_int type_name length scale h = (rw h, rw h)

-- The bug: "int" is tested before "bigint", and every name that holds "bigint" holds "int". A bigint
-- column is declared as a 32-bit integer in both dialects, and never as BIGINT.
pub bigint_narrowed :
    (type_name : Bytes) (length scale : ℤ)
    → has "bigint" (lower type_name) ≡ true
    → (map_type_to_sql type_name length scale postgresql ≡ codes "INTEGER")
      × (map_type_to_sql type_name length scale sybase ≡ codes "INT")
bigint_narrowed type_name length scale h =
    map_int type_name length scale (bigint-int (lower type_name) h)

sized-ne :
    (n : ℤ)
    → (sized "VARCHAR" "VARCHAR(255)" n ≢ codes "BIGINT")
      × (sized "CHAR" "CHAR(1)" n ≢ codes "BIGINT")
unfolding sized
sized-ne n = ground arith

numeric-ne : (n scale : ℤ) → numeric "NUMERIC" n scale ≢ codes "BIGINT"
unfolding numeric
numeric-ne n scale = ground arith

postgres_other-ne :
    (t default : Bytes) → default ≢ codes "BIGINT" → postgres_other t default ≢ codes "BIGINT"
unfolding postgres_other
postgres_other-ne t default h = ground arith

postgres_text-ne :
    (t default : Bytes) (length scale : ℤ)
    → default ≢ codes "BIGINT"
    → postgres_text t length scale default ≢ codes "BIGINT"
unfolding postgres_text
postgres_text-ne t default length scale h =
    ground (arith, sized-ne length, numeric-ne length scale, postgres_other-ne t default h)

big_int : has "int" (lower (codes "BIGINT")) ≡ true
unfolding lower contains
big_int = refl

-- PostgreSQL's BIGINT is the type of no column: `mapTypeToSQL` never returns it for that dialect, for
-- any type name, length and scale.
pub never_bigint :
    (type_name : Bytes) (length scale : ℤ)
    → map_type_to_sql type_name length scale postgresql ≢ codes "BIGINT"
unfolding map_type_to_sql postgres_type
never_bigint type_name length scale = elim (Bool-cases (has "int" (lower type_name))) [
  | inl h ↦ rw (h, postgres_type) (λ e. cc)
  | inr h ↦
      let other : type_name ≢ codes "BIGINT" = λ e. cc (big_int, ap (λ t. has "int" (lower t)) e) in
      ground (
        arith,
        bigint-int (lower type_name),
        postgres_text-ne (lower type_name) type_name length scale other,
      )
]
