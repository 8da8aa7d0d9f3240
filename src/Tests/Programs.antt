-- ===== src/Tests/Programs.antt =====
-- The generators on a catalog of two tables.
use hft_legacy_migration_fra.Base.{
  ◌≡◌, refl, Bytes, Bool, true, [], ◌∷◌, some, codes, lookup, eqb, Distinct,
}
use hft_legacy_migration_fra.Base.Int.{pos}
use hft_legacy_migration_fra.Catalog.Types.{ColumnMeta, TableMeta}
use hft_legacy_migration_fra.Catalog.Ddl.{Tables}
use hft_legacy_migration_fra.Codegen.Files.{entity_file, repository_file}
use hft_legacy_migration_fra.Codegen.UnitTest.{test_file}
use hft_legacy_migration_fra.Codegen.Program.{
  Files, entity_path, repository_path, test_path, generate_all,
}
use hft_legacy_migration_fra.Codegen.Generated.{
  entities_dir, repositories_dir, tests_dir, generate_all-lookup,
}

abbrev fx : Bytes
fx = codes "fx"

abbrev column : ColumnMeta
column = record {
  name = codes "id";
  type_name = codes "integer";
  length = pos 4;
  scale = pos 0;
  nullable = true;
}

abbrev fx_meta : TableMeta
fx_meta = record { name = fx; columns = column ∷ [] }

abbrev bond_meta : TableMeta
bond_meta = record { name = codes "bond"; columns = [] }

abbrev tables : Tables
tables = (codes "bond", bond_meta) ∷ (fx, fx_meta) ∷ []

tables-Distinct : Distinct tables
unfolding lookup eqb
tables-Distinct = (refl, (refl, tt))

in_tables : lookup fx tables ≡ some fx_meta
unfolding lookup eqb
in_tables = refl

abbrev opens : Bytes → Bool
opens path = true

abbrev old_files : Files
old_files = (codes "tests/test_fx.cpp", codes "old") ∷ []

generate_all-lookup_example :
    let after = generate_all opens tables old_files in
    let table = record fx_meta { name = fx } in
    (lookup (entity_path entities_dir fx) after ≡ some (entity_file table))
    × (lookup (repository_path repositories_dir fx) after ≡ some (repository_file table))
    × (lookup (test_path tests_dir fx) after ≡ some (test_file table))
generate_all-lookup_example =
    generate_all-lookup opens tables old_files fx fx_meta tables-Distinct in_tables refl refl refl
