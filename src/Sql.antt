-- ===== src/Sql.antt =====
-- Text in SQL: the escaping of string literals, of which the repository has several versions, and
-- SQL's own reading of a literal as their specification.
pub mod Loop
pub mod Literal
use hft_legacy_migration_fra.Base.{
  ℕ, zero, suc, ◌+◌, Bytes, List, [], ◌∷◌, ◌++◌, Option, none, some, ◌==◌, if◌then◌else◌, take,
  drop, length,
}

abbrev pub quote : ℕ
quote = b'\''

abbrev pub backslash : ℕ
backslash = b'\\'

-- `text.find('\'', pos)`.
unfoldable pub find_quote : Bytes → ℕ → Option ℕ
find_quote [] pos = none
find_quote (c ∷ text) zero =
    if c == quote then some 0 else elim (find_quote text 0) [ none ↦ none | some i ↦ some (suc i) ]
find_quote (c ∷ text) (suc pos) = elim (find_quote text pos) [ none ↦ none | some i ↦ some (suc i) ]

-- src/catalog/Catalog.cpp: `while ((pos = s.find("'", pos)) != npos) { s.replace(pos, 1, "''");
-- pos += 2; }`, on fuel. The loop in src/db/SybaseConnection.cpp inserts a quote at `pos` instead of
-- replacing the one there by two, which makes the same text.
unfoldable pub escape_loop : ℕ → Bytes → ℕ → Bytes
escape_loop zero text pos = text
escape_loop (suc fuel) text pos = elim (find_quote text pos) [
  | none ↦ text
  | some i ↦ escape_loop fuel (take i text ++ (quote ∷ quote ∷ drop (suc i) text)) (i + 2)
]

-- Each round passes one quote of the text, so its length is enough fuel.
unfoldable pub escape_name : Bytes → Bytes
unfolding escape_loop
escape_name text = escape_loop (suc (length text)) text 0

-- src/sybase/SybPreparedStatement.cpp, `bindString`: the loop over the characters.
unfoldable pub double_quotes : Bytes → Bytes
double_quotes [] = []
double_quotes (c ∷ text) =
    let rest = double_quotes text in if c == quote then quote ∷ quote ∷ rest else c ∷ rest

-- include/hft/repository/Repository.hpp, `escapeString`: backslashes are doubled too.
unfoldable pub escape_string : Bytes → Bytes
escape_string [] = []
escape_string (c ∷ text) =
    let rest = escape_string text in
    if c == quote
    then quote ∷ quote ∷ rest
    else if c == backslash
    then backslash ∷ backslash ∷ rest
    else c ∷ rest
