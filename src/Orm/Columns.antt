-- ===== src/Orm/Columns.antt =====
-- Which column of which row each field of an entity comes from, on PostgreSQL.
use hft_legacy_migration_fra.Base.{
  ℕ, zero, suc, ◌+◌, ◌<◌, ◌≡◌, refl, ap, ◌∙◌, subst, Bytes, Bool, true, false, List, [], ◌∷◌, map,
  Option, none, some, arith, length, length-map, get_elem?, some_injective,
}
use hft_legacy_migration_fra.Base.Int.{pos}
use hft_legacy_migration_fra.Values.{Row}
use hft_legacy_migration_fra.Db.Statement.{atoi, to_i32}
use hft_legacy_migration_fra.Db.Postgres
use hft_legacy_migration_fra.Db.ResultSet.{pg_cursor, pg_construct}
use hft_legacy_migration_fra.Db.ResultSet.Rows.{pg-Shows, pg-opens}
use hft_legacy_migration_fra.Orm.Driver.{Driver}
use hft_legacy_migration_fra.Orm.Drivers.{postgres}
use hft_legacy_migration_fra.Orm.Field.{
  Member, int32_member, int64_member, double_member, string_member, bool_member, other_member,
  Field,
}
use hft_legacy_migration_fra.Orm.Repository.{
  select_sql, run_query, read_member, map_row, all_entities,
}
use hft_legacy_migration_fra.Orm.Cursors.{find_all_loop, loop_entities, loop_entities-all}

-- The member that a text of PostgreSQL stands for; `printed` is the text of the double that is read.
abbrev pub parsed : Bytes → Bytes → Member → Member
parsed printed text (int32_member n) = int32_member (to_i32 (atoi text))
parsed printed text (int64_member n) = int64_member (atoi text)
parsed printed text (double_member p) = double_member printed
parsed printed text (string_member s) = string_member text
parsed printed text (bool_member b) = bool_member b
parsed printed text other_member = other_member

-- A field of the blank entity with a cell of the database: a null leaves it as it is.
abbrev pub filled : Bytes → Option Bytes → Field → Field
filled printed none f = f
filled printed (some text) f = record f { member = parsed printed text f.member }

get_elem?-map {ℓ κ} :
    {A : Type ℓ} {B : Type κ} (g : A → B) (xs : List A) (i : ℕ) (x : A)
    → get_elem? xs i ≡ some x
    → get_elem? (map g xs) i ≡ some (g x)
get_elem?-map g [] i x h = cc
get_elem?-map g (y ∷ xs) zero x h = ap (λ z. some (g z)) (some_injective h)
get_elem?-map g (y ∷ xs) (suc i) x h = get_elem?-map g xs i x h

abbrev is_none : Option Bytes → Bool
is_none none = true
is_none (some text) = false

is_null-cell :
    (row : Row) (i : ℕ) (o : Option Bytes)
    → Postgres.cell row i ≡ o
    → Postgres.is_null row i ≡ is_none o
unfolding Postgres.is_null
is_null-cell row i o e =
    ap (λ (x : Option Bytes). elim x [ none ↦ true | some text ↦ false ]) e ∙ go o
  where
    go :
        (o : Option Bytes) → (elim o as (λ x. Bool) [ none ↦ true | some text ↦ false ]) ≡ is_none o
    go none = refl
    go (some text) = refl

get_int-cell :
    (row : Row) (i : ℕ) (text : Bytes)
    → Postgres.cell row i ≡ some text
    → Postgres.get_int row i ≡ to_i32 (atoi text)
unfolding Postgres.get_int
get_int-cell row i text e =
    ap (λ (x : Option Bytes). elim x [ none ↦ pos 0 | some t ↦ to_i32 (atoi t) ]) e

get_long-cell :
    (row : Row) (i : ℕ) (text : Bytes)
    → Postgres.cell row i ≡ some text
    → Postgres.get_long row i ≡ atoi text
unfolding Postgres.get_long
get_long-cell row i text e = ap (λ (x : Option Bytes). elim x [ none ↦ pos 0 | some t ↦ atoi t ]) e

get_string-cell :
    (row : Row) (i : ℕ) (text : Bytes)
    → Postgres.cell row i ≡ some text
    → Postgres.get_string row i ≡ text
unfolding Postgres.get_string
get_string-cell row i text e =
    ap (λ (x : Option Bytes). elim x as (λ y. Bytes) [ none ↦ [] | some t ↦ t ]) e

module _ (get_double : Row → ℕ → Bytes) (server : Postgres.Server) where
  abbrev pub driver : Driver Postgres.Connection Postgres.Statement
  driver = postgres get_double server

  -- The first field of a row that is read from a column on, and the fields behind it.
  map_row-filled :
      (row : Row) (i : ℕ) (f : Field) (fs : List Field)
      → map_row driver row i (f ∷ fs)
        ≡ filled (get_double row i) (Postgres.cell row i) f ∷ map_row driver row (suc i) fs
  unfolding map_row read_member postgres
  map_row-filled row i f fs = go (Postgres.cell row i) refl f.member refl
    where
      go :
          (o : Option Bytes)
          → Postgres.cell row i ≡ o
          → (m : Member) → f.member ≡ m
          → map_row driver row i (f ∷ fs)
            ≡ filled (get_double row i) o f ∷ map_row driver row (suc i) fs
      go none e m h = rw (is_null-cell row i none e, map_row) refl
      go (some text) e (int32_member n) h =
          rw (is_null-cell row i (some text) e, h, get_int-cell row i text e, map_row) refl
      go (some text) e (int64_member n) h =
          rw (is_null-cell row i (some text) e, h, get_long-cell row i text e, map_row) refl
      go (some text) e (double_member p) h = rw (is_null-cell row i (some text) e, h, map_row) refl
      go (some text) e (string_member s) h =
          rw (is_null-cell row i (some text) e, h, get_string-cell row i text e, map_row) refl
      go (some text) e (bool_member b) h = rw (is_null-cell row i (some text) e, h, map_row) refl
      go (some text) e other_member h = rw (is_null-cell row i (some text) e, h, map_row) refl

  -- The field that stands at a place is read from the column of that place.
  get_elem?-map_row :
      (row : Row) (first : ℕ) (fs : List Field) (i : ℕ) (f : Field)
      → get_elem? fs i ≡ some f
      → get_elem? (map_row driver row first fs) i
        ≡ some (filled (get_double row (first + i)) (Postgres.cell row (first + i)) f)
  get_elem?-map_row row first [] i f h = cc
  get_elem?-map_row row first (g ∷ fs) zero f h =
      let same : first ≡ first + 0 = omega arith in
      ap (λ entity. get_elem? entity 0) (map_row-filled row first g fs)
      ∙ ap (λ n. some (filled (get_double row n) (Postgres.cell row n) g)) same
      ∙ ap (λ k. some (filled (get_double row (first + 0)) (Postgres.cell row (first + 0)) k))
          (some_injective h)
  get_elem?-map_row row first (g ∷ fs) (suc i) f h =
      let next : suc first + i ≡ first + suc i = omega arith in
      ap (λ entity. get_elem? entity (suc i)) (map_row-filled row first g fs)
      ∙ get_elem?-map_row row (suc first) fs i f h
      ∙ ap (λ n. some (filled (get_double row n) (Postgres.cell row n) f)) next

  everything :
      (blank : List Field) (rows : List Row)
      → all_entities driver blank (some rows) ≡ map (λ row. map_row driver row 0 blank) rows
  unfolding all_entities
  everything blank rows = refl

  -- Where PostgreSQL answers the SELECT of `findAll` with rows, there is one entity for each row, in their
  -- order, and in each of them the field at a place is read from the column at that place: by atoi,
  -- atoll or as it stands, by the field's type, while a null and a bool leave the blank value. The loop
  -- is given one more round than there are rows.
  pub find_all_loop-columns :
      (names : List Bytes) (fuel : ℕ) (table : Bytes) (blank : List Field)
      (db : Postgres.Connection) (rows : List Row)
      → (run_query driver (driver.create (select_sql table) db)).0 ≡ some rows
      → length rows < fuel
      → let entities =
          (find_all_loop driver pg_cursor (pg_construct names) fuel table blank db).0 in
        (length entities ≡ length rows)
        × ((k i : ℕ) (row : Row) (f : Field)
            → get_elem? rows k ≡ some row
            → get_elem? blank i ≡ some f
            → (entity : List Field) × (get_elem? entities k ≡ some entity)
              × (get_elem? entity i ≡ some (filled (get_double row i) (Postgres.cell row i) f)))
  find_all_loop-columns names fuel table blank db rows e enough =
      let read : Row → List Field = λ row. map_row driver row 0 blank in
      let all : (find_all_loop driver pg_cursor (pg_construct names) fuel table blank db).0
          ≡ map read rows =
        unfold find_all_loop in
        ap (loop_entities driver pg_cursor (pg_construct names) fuel blank) e
        ∙ loop_entities-all driver pg_cursor (pg_construct names) pg-Shows (pg-opens names) fuel
            blank (some rows)
            (λ found same. subst (λ (r : List Row). length r < fuel) (some_injective same) enough)
        ∙ everything blank rows in
      (
        ap (length {0}) all ∙ length-map rows read,
        λ k i row f at_row at_field. (
          read row,
          ap (λ es. get_elem? es k) all ∙ get_elem?-map read rows k row at_row,
          get_elem?-map_row row 0 blank i f at_field
              ∙ ap (λ n. some (filled (get_double row n) (Postgres.cell row n) f)) (omega arith),
        ),
      )
