-- ===== src/Tests/Typed.antt =====
-- A generated entity with a bigint column.
use hft_legacy_migration_fra.Base.{
  ◌≡◌, ◌<◌, refl, Bytes, false, true, List, [], ◌∷◌, codes, length, arith, eqb, map, Result, ok,
  some, contains, ◌==◌, if◌then◌else◌,
}
use hft_legacy_migration_fra.Base.Int.{pos}
use hft_legacy_migration_fra.Values.{stoi}
use hft_legacy_migration_fra.Catalog.Types.{ColumnMeta, lower}
use hft_legacy_migration_fra.Codegen.Files.{map_sql_type_to_cpp}
use hft_legacy_migration_fra.Codegen.Entities.{
  generated_type, generated_traits, IsGenerated, ChecksParameters, unbound, is_sized_int,
  insert_ps-sized_int, is_unbound,
}
use hft_legacy_migration_fra.Repository.Session.{
  Server, Answer, refused, command_ok, tuples_ok, failure, execute_query,
}
use hft_legacy_migration_fra.Repository.Entity.{
  Column, Traits, int_field, string_field, other_field, insert_ps,
}
use hft_legacy_migration_fra.Repository.Reading.{get_all}
use hft_legacy_migration_fra.Repository.Placeholders.{kept, numbered}
use hft_legacy_migration_fra.Repository.Typing.{types_of, kind_of_type}

abbrev column : Bytes → Bytes → ColumnMeta
column name type = record {
  name = name;
  type_name = type;
  length = pos 0;
  scale = pos 0;
  nullable = false;
}

abbrev id : ColumnMeta
id = column (codes "id") (codes "integer")

abbrev code : ColumnMeta
code = column (codes "code") (codes "varchar")

abbrev total : ColumnMeta
total = column (codes "total") (codes "BIGINT")

abbrev order : List Column
order =
    record { name = codes "id"; content = int_field (pos 1) }
    ∷ record { name = codes "code"; content = string_field (codes "EUR") }
    ∷ record { name = codes "total"; content = other_field (codes "5000000000") }
    ∷ []

abbrev mismatch : Bytes
mismatch = codes "bind message supplies 1 parameters, but prepared statement requires 2"

abbrev answer : List Bytes → Answer
answer params = if length params == 2 then command_ok else refused mismatch

abbrev strict : Server
strict = record { State = Unit {0}; send = λ db sql params. (answer params, db) }

order-IsGenerated : IsGenerated (id ∷ code ∷ total ∷ []) order
unfolding types_of generated_type map_sql_type_to_cpp kind_of_type eqb lower contains
order-IsGenerated = refl

checks : ChecksParameters strict tt (generated_traits (codes "orders") id) order mismatch
unfolding generated_traits kept numbered eqb
checks params h = ground arith

some_unbound : 0 < unbound (codes "id") (map generated_type (id ∷ code ∷ total ∷ []))
unfolding unbound generated_type map_sql_type_to_cpp kind_of_type eqb lower is_unbound contains
some_unbound = omega arith

other_name : eqb (codes "total") (codes "id") ≡ false
unfolding eqb
other_name = refl

bigint : is_sized_int (lower (codes "BIGINT")) ≡ true
unfolding is_sized_int lower contains
bigint = refl

insert_ps-sized_int_example :
    (insert_ps strict (generated_traits (codes "orders") id) order tt).0
    ≡ failure (codes "PgPreparedStatement::executeUpdate: ") mismatch
insert_ps-sized_int_example =
    insert_ps-sized_int strict tt (codes "orders") id (code ∷ []) total [] order mismatch other_name
      bigint order-IsGenerated checks

abbrev blank : List Column
blank =
    record { name = codes "id"; content = int_field (pos 0) }
    ∷ record { name = codes "total"; content = other_field (codes "0") }
    ∷ []

abbrev read_order : List Column
read_order =
    record { name = codes "id"; content = int_field (pos 1) }
    ∷ record { name = codes "total"; content = other_field (codes "0") }
    ∷ []

abbrev keeper : Server
keeper = record {
  State = Unit {0};
  send =
      λ db sql params. (tuples_ok ((some (codes "1") ∷ some (codes "5000000000") ∷ []) ∷ []), db);
}

abbrev orders : Traits
orders = record { table_name = codes "orders"; primary_key = codes "id" }

abbrev as_double : Bytes → Result (Bytes × Bytes)
as_double text = ok (text, text)

total_lost : (get_all as_double keeper orders blank tt).0 ≡ ok (read_order ∷ [])
unfolding get_all execute_query stoi
total_lost = refl
