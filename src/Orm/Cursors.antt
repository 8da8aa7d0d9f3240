-- ===== src/Orm/Cursors.antt =====
-- `findAll` and `findById` of include/hft/orm/Repository.h with the cursor of the result set, against
-- Orm.Repository, which takes the rows as a list.
use hft_legacy_migration_fra.Base.{
  ℕ, ◌<◌, ◌≡◌, refl, sym, ap, ◌∙◌, subst, Bytes, List, [], ◌∷◌, ◌++◌, map, Option, none, some,
  length,
}
use hft_legacy_migration_fra.Base.Int.{ℤ}
use hft_legacy_migration_fra.Values.{Row}
use hft_legacy_migration_fra.Db.Statement.{long_param}
use hft_legacy_migration_fra.Db.ResultSet.{
  Cursor, collect, first, Fetch, is_regular, reg_row, row_failed, syb_cursor, syb_construct,
}
use hft_legacy_migration_fra.Db.ResultSet.Rows.{
  Shows, collect-left, first-left, head, regular, collect-regular,
}
use hft_legacy_migration_fra.Orm.Driver.{Driver}
use hft_legacy_migration_fra.Orm.Field.{Field}
use hft_legacy_migration_fra.Orm.Repository.{
  select_sql, where_id, run_query, map_row, find_all, find_by_id, all_entities, first_entity,
}

abbrev pub regular_fetch : Row → Fetch
regular_fetch row = record { code = reg_row; data_row = row }

regular-fetches :
    (rows : List Row) (failed : Row) (more : List Fetch)
    → regular (map regular_fetch rows ++ (record { code = row_failed; data_row = failed } ∷ more))
      ≡ rows
unfolding regular is_regular
regular-fetches [] failed more = refl
regular-fetches (row ∷ rows) failed more = ap (◌∷◌ row) (regular-fetches rows failed more)

module _ {Db Statement State : Type 0} (driver : Driver Db Statement) (cursor : Cursor State)
    (open_result : List Row → State) where
  unfoldable pub loop_entities : ℕ → List Field → Option (List Row) → List (List Field)
  unfolding collect
  loop_entities fuel blank none = []
  loop_entities fuel blank (some rows) =
      collect cursor (λ row. map_row driver row 0 blank) fuel (open_result rows)

  unfoldable pub find_all_loop : ℕ → Bytes → List Field → Db → List (List Field) × Db
  find_all_loop fuel table blank db =
      let (rows, later) = run_query driver (driver.create (select_sql table) db) in
      (loop_entities fuel blank rows, later)

  unfoldable pub next_entity : List Field → Option (List Row) → Option (List Field)
  unfolding first
  next_entity blank none = none
  next_entity blank (some rows) =
      first cursor (λ row. map_row driver row 0 blank) (open_result rows)

  unfoldable pub find_by_id_next : Bytes → List Field → ℤ → Db → Option (List Field) × Db
  find_by_id_next table blank id db =
      let (s, after) = driver.create (select_sql table ++ where_id) db in
      let (rows, later) = run_query driver (driver.bind 0 (long_param id) s, after) in
      (next_entity blank rows, later)

  module _ (shows : Shows cursor)
      (opens : (rows : List Row) → shows.left (open_result rows) ≡ rows) where
    next_entity-first :
        (blank : List Field) (rows : Option (List Row))
        → next_entity blank rows ≡ first_entity driver blank rows
    unfolding next_entity first_entity
    next_entity-first blank none = refl
    next_entity-first blank (some rows) =
        first-left cursor shows read (open_result rows)
        ∙ ap (λ left. head (map read left)) (opens rows)
        ∙ same rows
      where
        read : Row → List Field
        read row = map_row driver row 0 blank

        same :
            (rows : List Row)
            → head (map (λ row. map_row driver row 0 blank) rows)
              ≡ first_entity driver blank (some rows)
        same [] = refl
        same (row ∷ rows) = refl

    pub loop_entities-all :
        (fuel : ℕ) (blank : List Field) (rows : Option (List Row))
        → ((found : List Row) → rows ≡ some found → length found < fuel)
        → loop_entities fuel blank rows ≡ all_entities driver blank rows
    unfolding loop_entities all_entities
    loop_entities-all fuel blank none h = refl
    loop_entities-all fuel blank (some rows) h =
        collect-left cursor shows _ fuel (open_result rows)
          (subst (λ left. length left < fuel) (sym (opens rows)) (h rows refl))
        ∙ ap (map _) (opens rows)

    -- `findAll` gives an entity for each row of the result set and `findById` one for its first row, where
    -- the loop is given one more round than there are rows; the connection is left the same.
    pub find_all_loop-find_all :
        (fuel : ℕ) (table : Bytes) (blank : List Field) (id : ℤ) (db : Db)
        → ((found : List Row)
            → (run_query driver (driver.create (select_sql table) db)).0 ≡ some found
            → length found < fuel)
        → (find_all_loop fuel table blank db ≡ find_all driver table blank db)
          × (find_by_id_next table blank id db ≡ find_by_id driver table blank id db)
    unfolding find_all_loop find_all find_by_id_next find_by_id
    find_all_loop-find_all fuel table blank id db h = (
      ap (λ entities. (entities, (run_query driver (driver.create (select_sql table) db)).1))
          (loop_entities-all fuel blank _ h),
      ap
          (λ entity. (
            entity,
            (run_query driver (
              driver.bind 0 (long_param id) (driver.create (select_sql table ++ where_id) db).0,
              (driver.create (select_sql table ++ where_id) db).1,
            )).1,
          ))
          (next_entity-first blank _),
    )

-- `while (result->next())` over an older Sybase result set sees the rows before the first answer of
-- `dbnextrow` other than REG_ROW, and so takes a failure in between for the end of the rows.
pub collect-failed :
    {A : Type 0} (read : Row → A) (columns : List Bytes) (row : Row) (fuel : ℕ) (rows : List Row)
    (failed : Row) (more : List Fetch)
    → length rows < fuel
    → collect syb_cursor read fuel (
        syb_construct columns row
          (map regular_fetch rows ++ (record { code = row_failed; data_row = failed } ∷ more)))
      ≡ map read rows
unfolding syb_construct
collect-failed read columns row fuel rows failed more h =
    collect-regular read fuel _
      (subst (λ left. length left < fuel) (sym (regular-fetches rows failed more)) h)
    ∙ ap (map read) (regular-fetches rows failed more)
