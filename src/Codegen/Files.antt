-- ===== src/Codegen/Files.antt =====
-- src/codegen: the text of each file that the three generators write.
use hft_legacy_migration_fra.Base.{Bytes, ◌||◌, List, [], ◌∷◌, ◌++◌, codes, eqb, if◌then◌else◌}
use hft_legacy_migration_fra.Catalog.Types.{ColumnMeta, TableMeta, lower, has}
use hft_legacy_migration_fra.Codegen.Text.{written, for_each}

unfoldable pub int_type : Bytes → Bytes
int_type t =
    if has "bigint" t
    then codes "int64_t"
    else if has "smallint" t
    then codes "int16_t"
    else if has "tinyint" t
    then codes "int8_t"
    else codes "int"

-- The tests of `mapSQLTypeToCpp`, on the type's name in lower case. What is no number and no truth
-- value is a text, by each of the later tests and by default.
unfoldable pub cpp_type_of : Bytes → Bytes
unfolding int_type
cpp_type_of t =
    if has "int" t
    then int_type t
    else if has "float" t || has "double" t || has "real" t
    then codes "double"
    else if has "numeric" t || has "decimal" t
    then codes "double"
    else if has "bool" t || has "bit" t
    then codes "bool"
    else codes "std::string"

unfoldable pub map_sql_type_to_cpp : Bytes → Bytes
unfolding cpp_type_of lower
map_sql_type_to_cpp type_name = cpp_type_of (lower type_name)

-- The default value of a member.
unfoldable pub initial : Bytes → Bytes
initial type =
    if eqb type (codes "int")
      || eqb type (codes "int64_t")
      || eqb type (codes "int16_t")
      || eqb type (codes "int8_t")
    then codes "{0}"
    else if eqb type (codes "double")
    then codes "{0.0}"
    else if eqb type (codes "bool")
    then codes "{false}"
    else if eqb type (codes "std::string")
    then codes "{\"\"}"
    else []

unfoldable pub member : ColumnMeta → List Bytes
unfolding map_sql_type_to_cpp initial
member col =
    let type = map_sql_type_to_cpp col.type_name in
    codes "    " ∷ type ∷ codes " " ∷ col.name ∷ initial type ∷ codes ";\n" ∷ []

abbrev pub json_line : ColumnMeta → List Bytes
json_line col = codes "        j[\"" ∷ col.name ∷ codes "\"] = " ∷ col.name ∷ codes ";\n" ∷ []

unfoldable pub primary_key : List ColumnMeta → List Bytes
primary_key [] = []
primary_key (col ∷ cols) =
    codes "    // NOTE: Assumed first column is primary key. Verify in database.\n"
    ∷ codes "    static constexpr std::string_view primaryKey = \""
    ∷ col.name
    ∷ codes "\";\n\n"
    ∷ []

unfoldable pub column_entry : ColumnMeta → List Bytes
unfolding map_sql_type_to_cpp
column_entry col =
    codes "        Column<Entity, "
    ∷ map_sql_type_to_cpp col.type_name
    ∷ codes ">{ \""
    ∷ col.name
    ∷ codes "\", &Entity::"
    ∷ col.name
    ∷ codes " }"
    ∷ []

abbrev pub later_entry : ColumnMeta → List Bytes
later_entry col = codes ",\n" ∷ column_entry col

unfoldable pub columns_tuple : List ColumnMeta → List Bytes
unfolding column_entry for_each
columns_tuple [] = []
columns_tuple (col ∷ cols) = column_entry col ++ for_each later_entry cols

-- `generateEntities`, on one table.
unfoldable pub entity_pieces : TableMeta → List Bytes
unfolding for_each member primary_key columns_tuple
entity_pieces t =
    codes "#pragma once\n"
    ∷ codes "#include \"entity/BaseEntity.hpp\"\n"
    ∷ codes "#include \"entity/EntityTraits.hpp\"\n"
    ∷ codes "#include \"entity/Column.hpp\"\n"
    ∷ codes "#include <string>\n"
    ∷ codes "#include <cstdint>\n"
    ∷ codes "#include <tuple>\n"
    ∷ codes "#include <nlohmann/json.hpp>\n\n"
    ∷ codes "class "
    ∷ t.name
    ∷ codes " : public BaseEntity {\n"
    ∷ codes "public:\n"
    ∷ (for_each member t.columns
        ++ (codes "\n    nlohmann::json toJson() const override {\n"
            ∷ codes "        nlohmann::json j;\n"
            ∷ (for_each json_line t.columns
                ++ (codes "        return j;\n"
                    ∷ codes "    }\n"
                    ∷ codes "};\n\n"
                    ∷ codes "template<>\n"
                    ∷ codes "struct EntityTraits<"
                    ∷ t.name
                    ∷ codes "> {\n"
                    ∷ codes "    using Entity = "
                    ∷ t.name
                    ∷ codes ";\n\n"
                    ∷ codes "    static constexpr std::string_view tableName  = \""
                    ∷ t.name
                    ∷ codes "\";\n"
                    ∷ (primary_key t.columns
                        ++ (codes "    static constexpr auto columns = std::make_tuple(\n"
                            ∷ (columns_tuple t.columns
                                ++ (codes "\n    );\n" ∷ codes "};\n" ∷ []))))))))

-- `generateRepositories`, on one table.
unfoldable pub repository_pieces : TableMeta → List Bytes
repository_pieces t =
    codes "#pragma once\n"
    ∷ codes "#include \"repository/Repository.hpp\"\n"
    ∷ codes "#include \"entity/generated/"
    ∷ t.name
    ∷ codes ".hpp\"\n\n"
    ∷ codes "// Repository for "
    ∷ t.name
    ∷ codes " entity\n"
    ∷ codes "using Repository_"
    ∷ t.name
    ∷ codes " = Repository<"
    ∷ t.name
    ∷ codes ">;\n\n"
    ∷ codes "// Custom repository class with additional methods\n"
    ∷ codes "class "
    ∷ t.name
    ∷ codes "Repository : public Repository<"
    ∷ t.name
    ∷ codes "> {\n"
    ∷ codes "public:\n"
    ∷ codes "    using Repository<"
    ∷ t.name
    ∷ codes ">::Repository;\n\n"
    ∷ codes "    // Add custom query methods here\n"
    ∷ codes "    // Example:\n"
    ∷ codes "    // std::vector<"
    ∷ t.name
    ∷ codes "> findByCustomCriteria(...) { ... }\n"
    ∷ codes "};\n"
    ∷ []

unfoldable pub entity_file : TableMeta → Bytes
unfolding written entity_pieces
entity_file t = written (entity_pieces t)

unfoldable pub repository_file : TableMeta → Bytes
unfolding written repository_pieces
repository_file t = written (repository_pieces t)
