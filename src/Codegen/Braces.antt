-- ===== src/Codegen/Braces.antt =====
-- Braces in the files that src/codegen writes.
use hft_legacy_migration_fra.Base.{◌≡◌, refl, Bytes, List, [], ◌∷◌, ◌++◌, arith, All, codes}
use hft_legacy_migration_fra.Catalog.Types.{ColumnMeta, TableMeta}
use hft_legacy_migration_fra.Codegen.Text.{
  for_each, count, total, IsBalanced, HasNoBrace, total-append, written-IsBalanced,
}
use hft_legacy_migration_fra.Codegen.Files.{
  int_type, cpp_type_of, map_sql_type_to_cpp, initial, member, json_line, later_entry, primary_key,
  column_entry, columns_tuple, entity_pieces, repository_pieces, entity_file, repository_file,
}
use hft_legacy_migration_fra.Codegen.UnitTest.{
  set_first, fixture_pieces, json_pieces, access_pieces, test_pieces, test_file,
}

abbrev pub IsEven : List Bytes → Type 0
IsEven pieces = total b'{' pieces ≡ total b'}' pieces

append-IsEven : (front back : List Bytes) → IsEven front → IsEven back → IsEven (front ++ back)
append-IsEven front back hf hb =
    omega (arith, total-append b'{' front back, total-append b'}' front back, hf, hb)

for_each-IsEven :
    (f : ColumnMeta → List Bytes) (cols : List ColumnMeta)
    → ((col : ColumnMeta) → HasNoBrace col.name → IsEven (f col))
    → All (λ col. HasNoBrace col.name) cols
    → IsEven (for_each f cols)
unfolding for_each
for_each-IsEven f [] each h = unfold total in refl
for_each-IsEven f (col ∷ cols) each (h, hs) =
    append-IsEven (f col) (for_each f cols) (each col h) (for_each-IsEven f cols each hs)

map_sql_type_to_cpp-HasNoBrace : (t : Bytes) → HasNoBrace (map_sql_type_to_cpp t)
unfolding map_sql_type_to_cpp cpp_type_of int_type count
map_sql_type_to_cpp-HasNoBrace t = ground arith

initial-IsBalanced : (type : Bytes) → IsBalanced (initial type)
unfolding initial count
initial-IsBalanced type = ground arith

member-IsEven : (col : ColumnMeta) → HasNoBrace col.name → IsEven (member col)
unfolding member total count
member-IsEven col (ho, hc) = omega (
  arith,
  ho,
  hc,
  initial-IsBalanced (map_sql_type_to_cpp col.type_name),
  map_sql_type_to_cpp-HasNoBrace col.type_name,
)

json_line-IsEven : (col : ColumnMeta) → HasNoBrace col.name → IsEven (json_line col)
unfolding total count
json_line-IsEven col (ho, hc) = omega (arith, ho, hc)

column_entry-IsEven : (col : ColumnMeta) → HasNoBrace col.name → IsEven (column_entry col)
unfolding column_entry total count
column_entry-IsEven col (ho, hc) =
    omega (arith, ho, hc, map_sql_type_to_cpp-HasNoBrace col.type_name)

repository_file-IsBalanced : (t : TableMeta) → HasNoBrace t.name → IsBalanced (repository_file t)
unfolding repository_file
repository_file-IsBalanced t (ho, hc) =
    written-IsBalanced (repository_pieces t)
      (unfold repository_pieces in unfold total in unfold count in omega (arith, ho, hc))

later_entry-IsEven : (col : ColumnMeta) → HasNoBrace col.name → IsEven (later_entry col)
unfolding total count
later_entry-IsEven col h = omega (arith, column_entry-IsEven col h)

columns_tuple-IsEven :
    (cols : List ColumnMeta) → All (λ col. HasNoBrace col.name) cols → IsEven (columns_tuple cols)
unfolding columns_tuple
columns_tuple-IsEven [] h = unfold total in refl
columns_tuple-IsEven (col ∷ cols) (h, hs) =
    append-IsEven (column_entry col) (for_each later_entry cols) (column_entry-IsEven col h)
      (for_each-IsEven later_entry cols later_entry-IsEven hs)

primary_key-IsEven :
    (cols : List ColumnMeta) → All (λ col. HasNoBrace col.name) cols → IsEven (primary_key cols)
unfolding primary_key total count
primary_key-IsEven [] h = refl
primary_key-IsEven (col ∷ cols) ((ho, hc), hs) = omega (arith, ho, hc)

set_first-IsEven :
    (indent : Bytes) (cols : List ColumnMeta)
    → HasNoBrace indent
    → All (λ col. HasNoBrace col.name) cols
    → IsEven (set_first indent cols)
unfolding set_first total count
set_first-IsEven indent [] hi h = refl
set_first-IsEven indent (col ∷ cols) (io, ic) ((ho, hc), hs) = omega (arith, ho, hc, io, ic)

entity_pieces-IsEven :
    (t : TableMeta)
    → HasNoBrace t.name
    → All (λ col. HasNoBrace col.name) t.columns
    → IsEven (entity_pieces t)
unfolding entity_pieces total count
entity_pieces-IsEven t (ho, hc) hs = simp total-append (
    omega (
      arith,
      ho,
      hc,
      for_each-IsEven member t.columns member-IsEven hs,
      for_each-IsEven json_line t.columns json_line-IsEven hs,
      primary_key-IsEven t.columns hs,
      columns_tuple-IsEven t.columns hs,
    ))

test_pieces-IsEven :
    (t : TableMeta)
    → HasNoBrace t.name
    → All (λ col. HasNoBrace col.name) t.columns
    → IsEven (test_pieces t)
unfolding test_pieces fixture_pieces json_pieces access_pieces total count
test_pieces-IsEven t (ho, hc) hs = simp total-append (
    omega (
      arith,
      ho,
      hc,
      set_first-IsEven (codes "        entity.") t.columns (refl, refl) hs,
      set_first-IsEven (codes "    entity.") t.columns (refl, refl) hs,
    ))

entity_file-IsBalanced :
    (t : TableMeta)
    → HasNoBrace t.name
    → All (λ col. HasNoBrace col.name) t.columns
    → IsBalanced (entity_file t)
unfolding entity_file
entity_file-IsBalanced t h hs = written-IsBalanced (entity_pieces t) (entity_pieces-IsEven t h hs)

test_file-IsBalanced :
    (t : TableMeta)
    → HasNoBrace t.name
    → All (λ col. HasNoBrace col.name) t.columns
    → IsBalanced (test_file t)
unfolding test_file
test_file-IsBalanced t h hs = written-IsBalanced (test_pieces t) (test_pieces-IsEven t h hs)

-- Each of the three generators of src/codegen writes, for a table whose name and column names hold
-- no brace, a file with as many closing braces as opening ones, whatever its columns' types are.
pub generated-IsBalanced :
    (t : TableMeta)
    → HasNoBrace t.name
    → All (λ col. HasNoBrace col.name) t.columns
    → IsBalanced (entity_file t) × IsBalanced (repository_file t) × IsBalanced (test_file t)
generated-IsBalanced t h hs =
    (entity_file-IsBalanced t h hs, repository_file-IsBalanced t h, test_file-IsBalanced t h hs)
