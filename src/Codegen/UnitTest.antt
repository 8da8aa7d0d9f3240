-- ===== src/Codegen/UnitTest.antt =====
-- src/codegen/UnitTestGenerator.cpp: the text of the test file for a table.
use hft_legacy_migration_fra.Base.{Bytes, List, [], ◌∷◌, ◌++◌, codes}
use hft_legacy_migration_fra.Catalog.Types.{ColumnMeta, TableMeta}
use hft_legacy_migration_fra.Codegen.Text.{written}

-- The line that sets the first column, where there is one, behind an indent.
unfoldable pub set_first : Bytes → List ColumnMeta → List Bytes
set_first indent [] = []
set_first indent (col ∷ cols) = indent ∷ col.name ∷ codes " = 1;\n" ∷ []

-- `generateTests`, on one table: the fixture and the first test, up to the line that sets a column.
unfoldable pub fixture_pieces : TableMeta → List Bytes
fixture_pieces t =
    codes "#include <gtest/gtest.h>\n"
    ∷ codes "#include \"entity/generated/"
    ∷ t.name
    ∷ codes ".hpp\"\n"
    ∷ codes "#include \"repository/generated/Repository_"
    ∷ t.name
    ∷ codes ".hpp\"\n"
    ∷ codes "#include \"tests/MockConnection.hpp\"\n\n"
    ∷ codes "class "
    ∷ t.name
    ∷ codes "Test : public ::testing::Test {\n"
    ∷ codes "protected:\n"
    ∷ codes "    void SetUp() override {\n"
    ∷ codes "        // Setup code here\n"
    ∷ codes "    }\n\n"
    ∷ codes "    void TearDown() override {\n"
    ∷ codes "        // Cleanup code here\n"
    ∷ codes "    }\n\n"
    ∷ codes "    MockConnection mockConn;\n"
    ∷ codes "};\n\n"
    ∷ codes "TEST_F("
    ∷ t.name
    ∷ codes "Test, EntityCreation) {\n"
    ∷ codes "    "
    ∷ t.name
    ∷ codes " entity;\n"
    ∷ codes "    EXPECT_NO_THROW({\n"
    ∷ codes "        // Test entity creation\n"
    ∷ []

-- From there to the same line of the second test.
unfoldable pub json_pieces : TableMeta → List Bytes
json_pieces t =
    codes "    });\n"
    ∷ codes "}\n\n"
    ∷ codes "TEST_F("
    ∷ t.name
    ∷ codes "Test, JsonSerialization) {\n"
    ∷ codes "    "
    ∷ t.name
    ∷ codes " entity;\n"
    ∷ []

-- The rest.
unfoldable pub access_pieces : TableMeta → List Bytes
access_pieces t =
    codes "    auto json = entity.toJson();\n"
    ∷ codes "    EXPECT_FALSE(json.empty());\n"
    ∷ codes "}\n\n"
    ∷ codes "TEST_F("
    ∷ t.name
    ∷ codes "Test, RepositoryGetAll) {\n"
    ∷ codes "    Repository_"
    ∷ t.name
    ∷ codes " repo(mockConn);\n"
    ∷ codes "    // Note: This test requires a properly configured mock\n"
    ∷ codes "    // EXPECT_NO_THROW({\n"
    ∷ codes "    //     auto entities = repo.getAll();\n"
    ∷ codes "    // });\n"
    ∷ codes "}\n\n"
    ∷ codes "TEST_F("
    ∷ t.name
    ∷ codes "Test, RepositoryInsert) {\n"
    ∷ codes "    Repository_"
    ∷ t.name
    ∷ codes " repo(mockConn);\n"
    ∷ codes "    "
    ∷ t.name
    ∷ codes " entity;\n"
    ∷ codes "    // Note: This test requires a properly configured mock\n"
    ∷ codes "    // EXPECT_NO_THROW({\n"
    ∷ codes "    //     repo.insert(entity);\n"
    ∷ codes "    // });\n"
    ∷ codes "}\n"
    ∷ []

unfoldable pub test_pieces : TableMeta → List Bytes
unfolding fixture_pieces set_first json_pieces access_pieces
test_pieces t =
    fixture_pieces t
    ++ (set_first (codes "        entity.") t.columns
        ++ (json_pieces t ++ (set_first (codes "    entity.") t.columns ++ access_pieces t)))

unfoldable pub test_file : TableMeta → Bytes
unfolding written test_pieces
test_file t = written (test_pieces t)
