-- ===== src/Sybase/Updates.antt =====
-- What a SybPreparedStatement sends: the bind methods, `buildFinalSQL` and the calls of DB-Library
-- together.
use hft_legacy_migration_fra.Base.{ℕ, suc, Bytes, List, [], ◌∷◌, Result, ok, ◌>>=◌, codes}
use hft_legacy_migration_fra.Base.Int.{pos}
use hft_legacy_migration_fra.Sybase.Connection.{Connection, PreparedStatement, Param, bind}

-- The parameters bound in order, behind those at the positions below `i`.
unfoldable pub bind_all : ℕ → List Param → PreparedStatement → Result PreparedStatement
bind_all i [] stmt = ok stmt
bind_all i (p ∷ ps) stmt = bind (pos (suc i)) p stmt >>= λ next. bind_all (suc i) ps next

abbrev pub update_place : Bytes
update_place = codes "SybPreparedStatement::executeUpdate"
