-- ===== src/Repository/Statement.antt =====
-- src/pg/PgPreparedStatement.cpp: the bound parameters. An index is never negative here,
-- and no bound text holds a NUL, at which `c_str()` would end it.
use hft_legacy_migration_fra.Base.{
  ℕ, zero, suc, Bytes, List, [], ◌∷◌, ◌++◌, Result, ok, err, db_exception, codes,
}

pub record PreparedStatement : Type 0 where
  pub sql : Bytes
  pub params : List Bytes

-- `_params.resize(index)` where that is longer, and `_params[index - 1] = value`, by the position.
unfoldable pub assign : ℕ → Bytes → List Bytes → List Bytes
assign zero v [] = v ∷ []
assign zero v (p ∷ params) = v ∷ params
assign (suc i) v [] = [] ∷ assign i v []
assign (suc i) v (p ∷ params) = p ∷ assign i v params

-- `bindInt`, `bindDouble` and `bindString`, on the text of the value.
unfoldable pub bind : Bytes → ℕ → Bytes → PreparedStatement → Result PreparedStatement
bind method zero v stmt =
    err (db_exception (codes "PgPreparedStatement::" ++ (method ++ codes ": index <= 0")))
bind method (suc i) v stmt = ok (record stmt { params = assign i v stmt.params })
