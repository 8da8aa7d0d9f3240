-- ===== src/Sybase/Placeholders.antt =====
-- How parameters get into the SQL text: `buildFinalSQL` of src/sybase/SybPreparedStatement.cpp, and
-- `buildSQL` of src/db/SybaseConnection.cpp.
use hft_legacy_migration_fra.Base.{
  ℕ, zero, suc, ◌+◌, Bytes, true, false, List, [], ◌∷◌, ◌++◌, Option, none, some, to_string,
  starts_with, length, take, drop,
}

abbrev pub one_later : Option ℕ → Option ℕ
one_later none = none
one_later (some i) = some (suc i)

-- `text.find(needle, pos)`, for a needle that is not empty.
unfoldable pub find_text : Bytes → Bytes → ℕ → Option ℕ
unfolding starts_with
find_text needle [] pos = none
find_text needle (c ∷ text) zero = elim (starts_with needle (c ∷ text)) [
  | true ↦ some 0
  | false ↦ one_later (find_text needle text 0)
]
find_text needle (c ∷ text) (suc pos) = one_later (find_text needle text pos)

-- `text.replace(i, needle.length(), value)`.
abbrev pub replace_at : Bytes → ℕ → Bytes → Bytes → Bytes
replace_at text i needle value = take i text ++ (value ++ drop (i + length needle) text)

-- `"$" + std::to_string(index)`.
unfoldable pub placeholder : ℕ → Bytes
placeholder index = b'$' ∷ to_string index

-- The `while` loop of `buildFinalSQL`, on fuel.
unfoldable pub replace_loop : ℕ → Bytes → Bytes → Bytes → ℕ → Bytes
unfolding find_text
replace_loop zero needle value text pos = text
replace_loop (suc fuel) needle value text pos = elim (find_text needle text pos) [
  | none ↦ text
  | some i ↦ replace_loop fuel needle value (replace_at text i needle value) (i + length value)
]

-- A round passes one character of what stood behind `pos`, so the text's length is enough fuel.
unfoldable pub replace_all : Bytes → Bytes → Bytes → Bytes
unfolding replace_loop
replace_all needle value text = replace_loop (suc (length text)) needle value text 0

unfoldable pub build_final_sql_from : ℕ → List Bytes → Bytes → Bytes
unfolding replace_all
build_final_sql_from index [] text = text
build_final_sql_from index (value ∷ values) text =
    build_final_sql_from (suc index) values (replace_all (placeholder index) value text)

unfoldable pub build_final_sql : List Bytes → Bytes → Bytes
unfolding build_final_sql_from
build_final_sql = build_final_sql_from 1

-- `buildSQL` replaces the first occurrence only.
unfoldable pub replace_first : Bytes → Bytes → Bytes → Bytes
unfolding find_text
replace_first needle value text = elim (find_text needle text 0) [
  | none ↦ text
  | some i ↦ replace_at text i needle value
]

unfoldable pub build_sql_from : ℕ → List Bytes → Bytes → Bytes
unfolding replace_first
build_sql_from index [] text = text
build_sql_from index (value ∷ values) text =
    build_sql_from (suc index) values (replace_first (placeholder index) value text)

unfoldable pub build_sql : List Bytes → Bytes → Bytes
unfolding build_sql_from
build_sql = build_sql_from 1
