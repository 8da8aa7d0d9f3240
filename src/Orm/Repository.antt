-- ===== src/Orm/Repository.antt =====
-- `Repository<T>` of include/hft/orm/Repository.h. An entity is the list of its fields.
use hft_legacy_migration_fra.Base.{
  ℕ, suc, ◌-◌, Bytes, Bool, true, false, List, [], ◌∷◌, ◌++◌, Option, none, some, codes,
  if◌then◌else◌, map,
}
use hft_legacy_migration_fra.Base.Int.{ℤ, pos}
use hft_legacy_migration_fra.Base.Run.{Run, done, undefined, ◌>>=◌}
use hft_legacy_migration_fra.Values.{Row}
use hft_legacy_migration_fra.Db.Statement.{
  Param, int_param, long_param, double_param, string_param, is_positive,
}
use hft_legacy_migration_fra.Sybase.Placeholders.{placeholder}
use hft_legacy_migration_fra.Orm.Field.{
  Member, int32_member, int64_member, double_member, string_member, bool_member, other_member,
  Field,
}
use hft_legacy_migration_fra.Orm.Driver.{Driver}

-- The loops that write a list with ", " between its entries.
unfoldable pub join : List Bytes → Bytes
join [] = []
join (text ∷ []) = text
join (text ∷ next ∷ texts) = text ++ (codes ", " ++ join (next ∷ texts))

-- `columns`, of the fields that are not the primary key.
unfoldable pub columns : List Field → List Bytes
columns [] = []
columns (f ∷ fs) = let rest = columns fs in if f.is_key then rest else f.name ∷ rest

-- `values`, from `paramIndex` on.
unfoldable pub placeholders : ℕ → List Field → List Bytes
placeholders index [] = []
placeholders index (f ∷ fs) = elim f.is_key [
  | true ↦ placeholders index fs
  | false ↦ placeholder index ∷ placeholders (suc index) fs
]

unfoldable pub insert_sql : Bytes → List Field → Bytes
unfolding join columns placeholders
insert_sql table fs =
    codes "INSERT INTO "
    ++ (table
        ++ (codes " ("
            ++ (join (columns fs)
                ++ (codes ") VALUES (" ++ (join (placeholders 1 fs) ++ codes ")")))))

-- `updates`, with the `paramIndex` behind them.
unfoldable pub updates : ℕ → List Field → List Bytes × ℕ
updates index [] = ([], index)
updates index (f ∷ fs) = elim f.is_key [
  | true ↦ updates index fs
  | false ↦
      let (rest, last) = updates (suc index) fs in
      ((f.name ++ (codes " = " ++ placeholder index)) ∷ rest, last)
]

unfoldable pub update_sql : Bytes → List Field → Bytes
unfolding join updates
update_sql table fs =
    let (texts, last) = updates 1 fs in
    codes "UPDATE "
    ++ (table ++ (codes " SET " ++ (join texts ++ (codes " WHERE id = " ++ placeholder last))))

-- `*reinterpret_cast<int64_t*>(ptr)`, which is defined for an object of that type only.
unfoldable pub read_id : Member → Run ℤ
read_id (int32_member n) = undefined
read_id (int64_member n) = done n
read_id (double_member printed) = undefined
read_id (string_member s) = undefined
read_id (bool_member b) = undefined
read_id other_member = undefined

-- `idValue` behind the loop.
unfoldable pub id_value : ℤ → List Field → Run ℤ
unfolding read_id
id_value id [] = done id
id_value id (f ∷ fs) = elim f.is_key [
  | true ↦ (read_id f.member >>= λ key. id_value key fs)
  | false ↦ id_value id fs
]

-- The parameter that a member is bound as, for the types that `bindEntityToStatement` tells apart.
unfoldable pub param_of : Member → Option Param
param_of (int32_member n) = some (int_param n)
param_of (int64_member n) = some (long_param n)
param_of (double_member printed) = some (double_param printed)
param_of (string_member s) = some (string_param s)
param_of (bool_member b) = none
param_of other_member = none

abbrev pub select_sql : Bytes → Bytes
select_sql table = codes "SELECT * FROM " ++ table

abbrev pub delete_sql : Bytes → Bytes
delete_sql table = codes "DELETE FROM " ++ table

abbrev pub where_id : Bytes
where_id = codes " WHERE id = $1"

module _ {Db Statement : Type 0} (driver : Driver Db Statement) where
  -- With `skipPK`, from the position `paramIndex - 1` on.
  unfoldable pub bind_entity : ℕ → List Field → Statement → Statement
  unfolding param_of
  bind_entity i [] s = s
  bind_entity i (f ∷ fs) s = elim f.is_key [
    | true ↦ bind_entity i fs s
    | false ↦ elim (param_of f.member) [
      | none ↦ bind_entity i fs s
      | some p ↦ bind_entity (suc i) fs (driver.bind i p s)
    ]
  ]

  -- `executeUpdate` and the statement's end.
  unfoldable pub run_update : Statement × Db → ℤ × Db
  run_update (s, db) =
      let (count, rest) = driver.update s db in
      let (last, after) = rest in (count, driver.destroy last after)

  unfoldable pub run_changed : Statement × Db → Bool × Db
  unfolding run_update
  run_changed s = let (count, after) = run_update s in (is_positive count, after)

  -- The statement of `insert` when it is executed.
  unfoldable pub insert_statement : Bytes → List Field → Db → Statement × Db
  unfolding bind_entity insert_sql
  insert_statement table fs db =
      let (s, after) = driver.create (insert_sql table fs) db in (bind_entity 0 fs s, after)

  unfoldable pub insert_entity : Bytes → List Field → Db → Bool × Db
  unfolding insert_statement run_changed
  insert_entity table fs db = run_changed (insert_statement table fs db)

  unfoldable pub update_statement : Bytes → List Field → ℤ → Db → Statement × Db
  unfolding bind_entity update_sql updates
  update_statement table fs id db =
      let (s, after) = driver.create (update_sql table fs) db in
      (driver.bind ((updates 1 fs).1 - 1) (long_param id) (bind_entity 0 fs s), after)

  unfoldable pub update_entity : Bytes → List Field → Db → Run (Bool × Db)
  unfolding update_statement run_changed id_value
  update_entity table fs db =
      id_value (pos 0) fs >>= λ id. done (run_changed (update_statement table fs id db))

  unfoldable pub delete_by_id : Bytes → ℤ → Db → Bool × Db
  unfolding run_changed
  delete_by_id table id db =
      let (s, after) = driver.create (delete_sql table ++ where_id) db in
      run_changed (driver.bind 0 (long_param id) s, after)

  unfoldable pub delete_all : Bytes → Db → ℤ × Db
  unfolding run_update
  delete_all table db = run_update (driver.create (delete_sql table) db)

  -- What a field is set to from a cell that is not null.
  unfoldable pub read_member : Row → ℕ → Member → Member
  read_member row i (int32_member n) = int32_member (driver.get_int row i)
  read_member row i (int64_member n) = int64_member (driver.get_long row i)
  read_member row i (double_member printed) = double_member (driver.get_double row i)
  read_member row i (string_member s) = string_member (driver.get_string row i)
  read_member row i (bool_member b) = bool_member b
  read_member row i other_member = other_member

  -- The fields of `T entity{}` are `fs` at first.
  unfoldable pub map_row : Row → ℕ → List Field → List Field
  unfolding read_member
  map_row row i [] = []
  map_row row i (f ∷ fs) =
      let next =
        if driver.is_null row i then f else record f { member = read_member row i f.member } in
      next ∷ map_row row (suc i) fs

  unfoldable pub run_query : Statement × Db → Option (List Row) × Db
  run_query (s, db) =
      let (rows, rest) = driver.query s db in
      let (last, after) = rest in (rows, driver.destroy last after)

  unfoldable pub first_entity : List Field → Option (List Row) → Option (List Field)
  unfolding map_row
  first_entity blank none = none
  first_entity blank (some []) = none
  first_entity blank (some (row ∷ rows)) = some (map_row row 0 blank)

  unfoldable pub all_entities : List Field → Option (List Row) → List (List Field)
  unfolding map_row
  all_entities blank none = []
  all_entities blank (some rows) = map (λ row. map_row row 0 blank) rows

  unfoldable pub find_by_id : Bytes → List Field → ℤ → Db → Option (List Field) × Db
  unfolding run_query first_entity
  find_by_id table blank id db =
      let (s, after) = driver.create (select_sql table ++ where_id) db in
      let (rows, later) = run_query (driver.bind 0 (long_param id) s, after) in
      (first_entity blank rows, later)

  unfoldable pub find_all : Bytes → List Field → Db → List (List Field) × Db
  unfolding run_query all_entities
  find_all table blank db =
      let (rows, later) = run_query (driver.create (select_sql table) db) in
      (all_entities blank rows, later)
