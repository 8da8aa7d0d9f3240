-- ===== src/Pool/System.antt =====
-- A pool and its clients: the calls of ConnectionPool.hpp in any order, and the connections that
-- the clients hold. A client gives back only what it holds, as `PooledConnection` does.
use hft_legacy_migration_fra.Base.{
  holds, remove, ℕ, List, [], ◌∷◌, ◌++◌, Option, none, some, Result, ok, err, if◌then◌else◌,
}
use hft_legacy_migration_fra.Pool.{Environment, Pool, acquire, release, shutdown}

pub record System : Type 0 where
  pub pool : Pool
  pub lent : List ℕ

pub data Call : Type 0 where
  acquires : Call
  releases : ℕ → Call
  shuts_down : Call

-- The connection that a call of `acquire` hands to its caller, if any.
unfoldable pub handed : Result (Option ℕ) → List ℕ
handed (ok (some conn)) = conn ∷ []
handed (ok none) = []
handed (err e) = []

unfoldable pub step : Environment → System → Call → System
step env s acquires = record s {
  pool = (acquire env s.pool).1;
  lent = handed (acquire env s.pool).0 ++ s.lent;
}
step env s (releases conn) =
    if holds conn s.lent
    then record s { pool = release env s.pool (some conn); lent = remove conn s.lent }
    else s
step env s shuts_down = record s { pool = shutdown s.pool }

unfoldable pub run : Environment → System → List Call → System
run env s [] = s
run env s (c ∷ cs) = run env (step env s c) cs
