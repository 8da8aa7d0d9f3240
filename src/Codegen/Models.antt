-- ===== src/Codegen/Models.antt =====
-- include/hft/codegen/CodeGenerator.h: the entity and the repository of a table of the older catalog.
use hft_legacy_migration_fra.Base.{
  Bytes, Bool, true, false, List, [], ◌∷◌, ◌++◌, codes, ◌==◌, if◌then◌else◌, to_upper, to_string,
  length,
}
use hft_legacy_migration_fra.Orm.Field.{FieldType, int32, int64, double, string, bool}
use hft_legacy_migration_fra.Orm.Schema.{ColumnInfo, TableInfo}
use hft_legacy_migration_fra.Codegen.Text.{written, for_each}

-- The loop of `toPascalCase`, with `capitalizeNext`.
unfoldable pub pascal_from : Bool → Bytes → Bytes
pascal_from next [] = []
pascal_from next (c ∷ text) =
    let upper = pascal_from true text in
    let rest = pascal_from false text in
    if c == b'_' then upper else (if next then to_upper c else c) ∷ rest

unfoldable pub to_pascal_case : Bytes → Bytes
unfolding pascal_from
to_pascal_case = pascal_from true

unfoldable pub get_cpp_type : FieldType → Bytes
get_cpp_type int32 = codes "int32_t"
get_cpp_type int64 = codes "int64_t"
get_cpp_type double = codes "double"
get_cpp_type string = codes "std::string"
get_cpp_type bool = codes "bool"

unfoldable pub default_value : FieldType → Bytes
default_value int32 = codes " = 0"
default_value int64 = codes " = 0"
default_value double = codes " = 0"
default_value string = codes " = \"\""
default_value bool = codes " = 0"

unfoldable pub field_pieces : ColumnInfo → List Bytes
unfolding get_cpp_type default_value
field_pieces col =
    codes "    "
    ∷ get_cpp_type col.type
    ∷ codes " "
    ∷ col.name
    ∷ default_value col.type
    ∷ codes ";\n"
    ∷ []

abbrev pub truth : Bool → Bytes
truth b = if b then codes "true" else codes "false"

unfoldable pub visit_pieces : ColumnInfo → List Bytes
visit_pieces col =
    codes "        func(\""
    ∷ col.name
    ∷ codes "\", "
    ∷ codes "getFieldType<decltype(entity."
    ∷ col.name
    ∷ codes ")>(), "
    ∷ codes "&entity."
    ∷ col.name
    ∷ codes ", "
    ∷ truth col.primary_key
    ∷ codes ", "
    ∷ truth col.nullable
    ∷ codes ");\n"
    ∷ []

-- `if (!ns.empty()) out << "namespace " << ns << " {\n\n"`.
unfoldable pub namespace_pieces : Bytes → List Bytes
namespace_pieces [] = []
namespace_pieces (c ∷ ns) = codes "namespace " ∷ (c ∷ ns) ∷ codes " {\n\n" ∷ []

unfoldable pub struct_pieces : Bytes → TableInfo → List Bytes
unfolding for_each field_pieces
struct_pieces class_name t =
    codes "/**\n"
    ∷ codes " * @brief Entity class for table "
    ∷ t.name
    ∷ codes "\n"
    ∷ codes " */\n"
    ∷ codes "struct "
    ∷ class_name
    ∷ codes " {\n"
    ∷ (for_each field_pieces t.columns ++ (codes "};\n\n" ∷ []))

unfoldable pub traits_pieces : Bytes → Bytes → TableInfo → List Bytes
unfolding for_each visit_pieces
traits_pieces ns class_name t =
    codes "// EntityTraits specialization\n"
    ∷ codes "namespace hft { namespace reflection {\n\n"
    ∷ codes "template<>\n"
    ∷ codes "struct EntityTraits<"
    ∷ ns
    ∷ codes "::"
    ∷ class_name
    ∷ codes "> {\n"
    ∷ codes "    static constexpr const char* tableName() { return \""
    ∷ t.name
    ∷ codes "\"; }\n"
    ∷ codes "    static constexpr size_t fieldCount() { return "
    ∷ to_string (length t.columns)
    ∷ codes "; }\n\n"
    ∷ codes "    template<typename Func>\n"
    ∷ codes "    static void forEachField("
    ∷ ns
    ∷ codes "::"
    ∷ class_name
    ∷ codes "& entity, Func&& func) {\n"
    ∷ (for_each visit_pieces t.columns
        ++ (codes "    }\n" ∷ codes "};\n\n" ∷ codes "}} // namespace hft::reflection\n" ∷ []))

-- The namespace is closed also where it was not opened.
unfoldable pub model_pieces : Bytes → TableInfo → List Bytes
unfolding namespace_pieces struct_pieces traits_pieces to_pascal_case
model_pieces ns t =
    let class_name = to_pascal_case t.name in
    codes "#pragma once\n\n"
    ∷ codes "#include \"hft/reflection/EntityTraits.h\"\n"
    ∷ codes "#include <string>\n"
    ∷ codes "#include <cstdint>\n\n"
    ∷ (namespace_pieces ns
        ++ (struct_pieces class_name t
            ++ (codes "} // namespace " ∷ ns ∷ codes "\n\n" ∷ traits_pieces ns class_name t)))

unfoldable pub generate_entity : Bytes → TableInfo → Bytes
unfolding written model_pieces
generate_entity ns t = written (model_pieces ns t)

unfoldable pub namespace_end : Bytes → List Bytes
namespace_end [] = []
namespace_end (c ∷ ns) = codes "} // namespace " ∷ (c ∷ ns) ∷ codes "\n" ∷ []

unfoldable pub class_pieces : Bytes → List Bytes
class_pieces class_name =
    codes "/**\n"
    ∷ codes " * @brief Repository for "
    ∷ class_name
    ∷ codes " entity\n"
    ∷ codes " */\n"
    ∷ codes "class "
    ∷ class_name
    ∷ codes "Repository : public hft::orm::Repository<"
    ∷ codes "models::"
    ∷ class_name
    ∷ codes "> {\n"
    ∷ codes "public:\n"
    ∷ codes "    using hft::orm::Repository<"
    ∷ codes "models::"
    ∷ class_name
    ∷ codes ">::Repository;\n"
    ∷ codes "    \n"
    ∷ codes "    // Add custom query methods here\n"
    ∷ codes "};\n\n"
    ∷ []

unfoldable pub repository_pieces : Bytes → TableInfo → List Bytes
unfolding namespace_pieces class_pieces namespace_end to_pascal_case
repository_pieces ns t =
    let class_name = to_pascal_case t.name in
    codes "#pragma once\n\n"
    ∷ codes "#include \"hft/orm/Repository.h\"\n"
    ∷ codes "#include \""
    ∷ class_name
    ∷ codes ".h\"\n\n"
    ∷ (namespace_pieces ns ++ (class_pieces class_name ++ namespace_end ns))

unfoldable pub generate_repository : Bytes → TableInfo → Bytes
unfolding written repository_pieces
generate_repository ns t = written (repository_pieces ns t)
