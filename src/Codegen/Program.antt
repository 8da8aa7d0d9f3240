-- ===== src/Codegen/Program.antt =====
-- src/codegen/main_codegen.cpp and the loops of the three generators, with the files that they write.
-- The file system is the contents of its files by path; whether a file can be opened is a parameter.
use hft_legacy_migration_fra.Base.{Bytes, Bool, List, [], ◌∷◌, ◌++◌, codes, insert, if◌then◌else◌}
use hft_legacy_migration_fra.Base.Run.{Run, done, ◌>>=◌}
use hft_legacy_migration_fra.Catalog.Types.{TableMeta, postgresql}
use hft_legacy_migration_fra.Catalog.Ddl.{Tables}
use hft_legacy_migration_fra.Catalog.Load.{Connection, null_reader, construct}
use hft_legacy_migration_fra.Codegen.Files.{entity_file, repository_file}
use hft_legacy_migration_fra.Codegen.UnitTest.{test_file}

abbrev pub Files : Type 0
Files = List (Bytes × Bytes)

unfoldable pub entity_path : Bytes → Bytes → Bytes
entity_path dir table = dir ++ (codes "/" ++ (table ++ codes ".hpp"))

unfoldable pub repository_path : Bytes → Bytes → Bytes
repository_path dir table = dir ++ (codes "/Repository_" ++ (table ++ codes ".hpp"))

unfoldable pub test_path : Bytes → Bytes → Bytes
test_path dir table = dir ++ (codes "/test_" ++ (table ++ codes ".cpp"))

module _ (opens : Bytes → Bool) where
  -- `std::ofstream outFile(filename); if (outFile) outFile << …`.
  unfoldable pub write_file : Bytes → Bytes → Files → Files
  write_file path text files = if opens path then insert path text files else files

  -- `for (const auto& [tableName, tableMeta] : catalog.tables())`: the text is made of the table's key and
  -- of its columns.
  unfoldable pub generate : (Bytes → Bytes) → (TableMeta → Bytes) → Tables → Files → Files
  unfolding write_file
  generate path text [] files = files
  generate path text ((name, meta) ∷ tables) files =
      generate path text tables (write_file (path name) (text (record meta { name = name })) files)

  unfoldable pub generate_entities : Tables → Bytes → Files → Files
  unfolding generate
  generate_entities tables dir = generate (entity_path dir) entity_file tables

  unfoldable pub generate_repositories : Tables → Bytes → Files → Files
  unfolding generate
  generate_repositories tables dir = generate (repository_path dir) repository_file tables

  unfoldable pub generate_tests : Tables → Bytes → Files → Files
  unfolding generate
  generate_tests tables dir = generate (test_path dir) test_file tables

  -- `generateEntityTraits` writes nothing.
  unfoldable pub generate_all : Tables → Files → Files
  unfolding generate_entities generate_repositories generate_tests
  generate_all tables files = generate_tests tables (codes "tests") (
      generate_repositories tables (codes "src/repository/generated")
        (generate_entities tables (codes "src/entity/generated") files))

  -- DummyConnection, whose `executeQuery` returns a null reader.
  unfoldable pub dummy_connection : Connection
  dummy_connection sql = null_reader

  unfoldable pub main : Files → Run Files
  unfolding generate_all dummy_connection
  main files = construct dummy_connection postgresql >>= λ tables. done (generate_all tables files)
