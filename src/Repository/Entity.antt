-- ===== src/Repository/Entity.antt =====
-- The statements of include/hft/repository/Repository.hpp. An entity is the list of its columns, in
-- the order of `EntityTraits<Entity>::columns`, each with the value of the field that it names.
use hft_legacy_migration_fra.Base.{
  ℕ, suc, Bytes, Bool, true, false, List, [], ◌∷◌, ◌++◌, Result, ok, err, Exception, codes, eqb,
  if◌then◌else◌,
}
use hft_legacy_migration_fra.Base.Int.{ℤ, pos}
use hft_legacy_migration_fra.Sql.{escape_string}
use hft_legacy_migration_fra.Values.{Row}
use hft_legacy_migration_fra.Catalog.Types.{print_int}
use hft_legacy_migration_fra.Repository.Statement.{PreparedStatement, bind}
use hft_legacy_migration_fra.Repository.Session.{
  Answer, tuples_ok, command_ok, refused, no_result, Server, Outcome, failure, Transaction,
  execute_query, begin_transaction, commit, rollback, destroy,
}

-- A double is known by the two texts that the code makes of it, with `<<` and by `std::to_string`; a
-- field of any other type, such as `int64_t` or `bool`, by the text that `<<` makes of it.
pub data Field : Type 0 where
  int_field : ℤ → Field
  double_field : Bytes → Bytes → Field
  string_field : Bytes → Field
  other_field : Bytes → Field

pub record Column : Type 0 where
  pub name : Bytes
  pub content : Field

-- `EntityTraits<Entity>`.
pub record Traits : Type 0 where
  pub table_name : Bytes
  pub primary_key : Bytes

abbrev pub is_key : Traits → Column → Bool
is_key t c = eqb c.name t.primary_key

abbrev pub comma : Bool → Bytes
comma first = if first then [] else codes ", "

unfoldable pub build_column_list : Traits → Bool → List Column → Bytes
build_column_list t first [] = []
build_column_list t first (c ∷ cs) = elim (is_key t c) [
  | true ↦ build_column_list t first cs
  | false ↦ comma first ++ (c.name ++ build_column_list t false cs)
]

-- `<<` of a field in an SQL text.
unfoldable pub literal : Field → Bytes
literal (int_field n) = print_int n
literal (double_field streamed printed) = streamed
literal (string_field s) = codes "'" ++ (escape_string s ++ codes "'")
literal (other_field streamed) = streamed

unfoldable pub build_values_list : Traits → Bool → List Column → Bytes
unfolding literal
build_values_list t first [] = []
build_values_list t first (c ∷ cs) = elim (is_key t c) [
  | true ↦ build_values_list t first cs
  | false ↦ comma first ++ (literal c.content ++ build_values_list t false cs)
]

unfoldable pub build_update_set : Traits → Bool → List Column → Bytes
unfolding literal
build_update_set t first [] = []
build_update_set t first (c ∷ cs) = elim (is_key t c) [
  | true ↦ build_update_set t first cs
  | false ↦
      comma first ++ (c.name ++ (codes "=" ++ (literal c.content ++ build_update_set t false cs)))
]

unfoldable pub build_where_clause : Traits → List Column → Bytes
unfolding literal
build_where_clause t [] = []
build_where_clause t (c ∷ cs) = elim (is_key t c) [
  | true ↦ literal c.content ++ build_where_clause t cs
  | false ↦ build_where_clause t cs
]

-- `paramIndex` is never negative.
unfoldable pub build_placeholder_list : Traits → Bool → ℕ → List Column → Bytes
build_placeholder_list t first index [] = []
build_placeholder_list t first index (c ∷ cs) = elim (is_key t c) [
  | true ↦ build_placeholder_list t first index cs
  | false ↦
      comma first
      ++ (codes "$" ++ (print_int (pos index) ++ build_placeholder_list t false (suc index) cs))
]

unfoldable pub bind_parameter : Field → ℕ → PreparedStatement → Result PreparedStatement
bind_parameter (int_field n) index = bind (codes "bindInt") index (print_int n)
bind_parameter (double_field streamed printed) index = bind (codes "bindDouble") index printed
bind_parameter (string_field s) index = bind (codes "bindString") index s
bind_parameter (other_field streamed) index = λ stmt. ok stmt

-- `paramIndex++` stands within the calls that bind.
unfoldable pub next_index : Field → ℕ → ℕ
next_index (int_field n) index = suc index
next_index (double_field streamed printed) index = suc index
next_index (string_field s) index = suc index
next_index (other_field streamed) index = index

unfoldable pub bind_parameters :
    Traits → ℕ → List Column → PreparedStatement → Result PreparedStatement
unfolding bind_parameter next_index
bind_parameters t index [] stmt = ok stmt
bind_parameters t index (c ∷ cs) stmt = elim (is_key t c) [
  | true ↦ bind_parameters t index cs stmt
  | false ↦ elim (bind_parameter c.content index stmt) [
    | ok bound ↦ bind_parameters t (next_index c.content index) cs bound
    | err e ↦ err e
  ]
]

unfoldable pub insert_sql : Traits → List Column → Bytes
insert_sql t e =
    codes "INSERT INTO "
    ++ (t.table_name
        ++ (codes " ("
            ++ (build_column_list t true e
                ++ (codes ") VALUES (" ++ (build_values_list t true e ++ codes ")")))))

unfoldable pub update_sql : Traits → List Column → Bytes
update_sql t e =
    codes "UPDATE "
    ++ (t.table_name
        ++ (codes " SET "
            ++ (build_update_set t true e
                ++ (codes " WHERE " ++ (t.primary_key ++ (codes "=" ++ build_where_clause t e))))))

unfoldable pub remove_sql : Traits → List Column → Bytes
remove_sql t e =
    codes "DELETE FROM "
    ++ (t.table_name
        ++ (codes " WHERE " ++ (t.primary_key ++ (codes "=" ++ build_where_clause t e))))

unfoldable pub insert_ps_sql : Traits → List Column → Bytes
insert_ps_sql t e =
    codes "INSERT INTO "
    ++ (t.table_name
        ++ (codes " ("
            ++ (build_column_list t true e
                ++ (codes ") VALUES (" ++ (build_placeholder_list t true 1 e ++ codes ")")))))

-- `PgPreparedStatement::executeUpdate` on the answer.
unfoldable pub updated : Answer → Result (Unit {0})
updated command_ok = ok tt
updated (tuples_ok rows) = failure (codes "PgPreparedStatement::executeUpdate: ") []
updated (refused message) = failure (codes "PgPreparedStatement::executeUpdate: ") message
updated (no_result message) =
    failure (codes "PgPreparedStatement::executeUpdate: ") (codes "PQexecParams failed")

-- A result that nobody reads.
abbrev pub discard : Result (List Row) → Result (Unit {0})
discard (ok rows) = ok tt
discard (err e) = err e

module _ (server : Server) (t : Traits) where
  abbrev pub run_statement : Bytes → server.State → Outcome server (Unit {0})
  run_statement sql db = let (rows, after) = execute_query server sql db in (discard rows, after)

  unfoldable pub insert_entity : List Column → server.State → Outcome server (Unit {0})
  insert_entity e = run_statement (insert_sql t e)

  unfoldable pub update_entity : List Column → server.State → Outcome server (Unit {0})
  update_entity e = run_statement (update_sql t e)

  unfoldable pub remove_entity : List Column → server.State → Outcome server (Unit {0})
  remove_entity e = run_statement (remove_sql t e)

  unfoldable pub execute_update : PreparedStatement → server.State → Outcome server (Unit {0})
  unfolding updated
  execute_update stmt db =
      let (answer, after) = server.send db stmt.sql stmt.params in (updated answer, after)

  unfoldable pub insert_ps : List Column → server.State → Outcome server (Unit {0})
  unfolding execute_update
  insert_ps e db = elim (bind_parameters t 1 e (record { sql = insert_ps_sql t e; params = [] })) [
    | ok stmt ↦ execute_update stmt db
    | err x ↦ (err x, db)
  ]

  -- `for (const auto& entity : list) insertPS(entity);`
  unfoldable pub insert_all : List (List Column) → server.State → Outcome server (Unit {0})
  insert_all [] db = (ok tt, db)
  insert_all (e ∷ es) db =
      let (r, after) = insert_ps e db in
      elim r [ ok done ↦ insert_all es after | err x ↦ (err x, after) ]

  -- The handler and what follows it: the transaction is rolled back, the exception goes on unless
  -- the rolling back throws another, and the transaction is destroyed.
  unfoldable pub undo : Exception → Transaction → server.State → Outcome server (Unit {0})
  undo x txn db =
      let ((r, after), ended) = rollback server txn db in
      elim r [
        | ok done ↦ (err x, destroy server ended after)
        | err y ↦ (err y, destroy server ended after)
      ]

  unfoldable pub commit_or_undo : Transaction → server.State → Outcome server (Unit {0})
  unfolding undo
  commit_or_undo txn db =
      let ((r, after), ended) = commit server txn db in
      elim r [ ok done ↦ (ok tt, destroy server ended after) | err x ↦ undo x ended after ]

  unfoldable pub insert_within :
      List (List Column) → Transaction → server.State → Outcome server (Unit {0})
  unfolding insert_all commit_or_undo undo
  insert_within es txn db =
      let (r, after) = insert_all es db in
      elim r [ ok done ↦ commit_or_undo txn after | err x ↦ undo x txn after ]

  unfoldable pub insert_batch : List (List Column) → server.State → Outcome server (Unit {0})
  unfolding insert_within
  insert_batch es db =
      let (r, after) = begin_transaction server db in
      elim r [ ok txn ↦ insert_within es txn after | err x ↦ (err x, after) ]
