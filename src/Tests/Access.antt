-- ===== src/Tests/Access.antt =====
-- Calls of the connection pool, the caches and the readers.
use hft_legacy_migration_fra.Base.{
  ℕ, ◌≡◌, ◌≤◌, ◌+◌, refl, true, false, List, [], ◌∷◌, none, some, ok, err, runtime_error, codes,
  count, ◌==◌, if◌then◌else◌, lookup, insert, eqb, holds, remove,
}
use hft_legacy_migration_fra.Pool.{
  Environment, Pool, made, null_connection, query_throws, next_gives, construct, acquire,
  is_connection_healthy, probe_passes,
}
use hft_legacy_migration_fra.Pool.System.{Call, acquires, releases, shuts_down, step, run}
use hft_legacy_migration_fra.Pool.Branches.{shutdown_final}
use hft_legacy_migration_fra.Pool.Ownership.{construct-run-once}
use hft_legacy_migration_fra.Pool.Capacity.{total, construct-run-total}
use hft_legacy_migration_fra.QueryCache
use hft_legacy_migration_fra.QueryCache.History
use hft_legacy_migration_fra.StatementCache
use hft_legacy_migration_fra.StatementCache.Sharing
use hft_legacy_migration_fra.Values.{Row}

-- The factory works for the first three connections; connection 1 is never healthy.
abbrev flaky : Environment
flaky = record {
  factory = λ n. if n == 3 then null_connection else made;
  probe = λ clock conn. if conn == 1 then query_throws else next_gives true;
}

abbrev dead : Environment
dead = record { factory = λ n. null_connection; probe = λ clock conn. query_throws }

abbrev two_connections : Pool
two_connections = record { available = 0 ∷ 2 ∷ []; pool_size = 2; shut = false; clock = 4 }

abbrev calls : List Call
calls = acquires ∷ acquires ∷ releases 0 ∷ acquires ∷ shuts_down ∷ releases 0 ∷ []

construct-run-once_example :
    let s = run flaky (record { pool = construct flaky 2; lent = [] }) calls in
    count 0 s.pool.available + count 0 s.lent ≤ 1
construct-run-once_example = construct-run-once flaky 2 calls 0

construct-run-total_example :
    total (run flaky (record { pool = construct flaky 2; lent = [] }) calls) ≤ 2
construct-run-total_example = construct-run-total flaky 2 calls

shutdown_final_example :
    let p =
      (run flaky
        (step flaky (record { pool = two_connections; lent = 1 ∷ [] }) shuts_down)
        calls).pool in
    (p.available ≡ [])
    × ((acquire flaky p).0 ≡ err (runtime_error (codes "Connection pool is shutting down")))
shutdown_final_example =
    shutdown_final flaky (record { pool = two_connections; lent = 1 ∷ [] }) calls

healthy : (p : Pool) → is_connection_healthy flaky p 0 ≡ true
unfolding is_connection_healthy probe_passes
healthy p = refl

sick : is_connection_healthy dead two_connections 0 ≡ false
unfolding is_connection_healthy probe_passes
sick = refl

abbrev history : List (ℕ × History.Call ℕ)
history =
    (1, History.puts (codes "a") 7 50)
    ∷ (2, History.puts (codes "b") 8 1)
    ∷ (3, History.puts (codes "a") 9 20)
    ∷ (1, History.cleans)
    ∷ []

get-run_example :
    (QueryCache.get
      (History.run QueryCache.initial 0 history)
      (codes "a")
      (History.end_time 0 history + 10)).0
    ≡ History.current
        (History.end_time 0 history + 10)
        (History.last_put (codes "a") none 0 history)
get-run_example = History.get-run history (codes "a") 0 10

abbrev no_statements : StatementCache.Statements
no_statements = record { cache = []; held = []; next = 0 }

abbrev other_calls : List Sharing.Call
other_calls =
    Sharing.gets (codes "SELECT 2") StatementCache.prepared
    ∷ Sharing.gets (codes "SELECT 1") StatementCache.prepared
    ∷ Sharing.drops 1
    ∷ Sharing.drops 0
    ∷ []

absent : StatementCache.live no_statements (lookup (codes "SELECT 1") []) ≡ none
unfolding StatementCache.live lookup
absent = refl

-- The first client lets its pointer go while the third has one.
still_held :
    Sharing.KeepAll 0
      (StatementCache.get no_statements (codes "SELECT 1") StatementCache.prepared).1
      other_calls
unfolding StatementCache.get StatementCache.live StatementCache.create StatementCache.drop_pointer
    Sharing.step lookup insert eqb holds remove
still_held = (tt, (tt, (refl, (refl, tt))))

get_shared_example :
    let t =
      Sharing.run
        (StatementCache.get no_statements (codes "SELECT 1") StatementCache.prepared).1
        other_calls in
    ((StatementCache.get t (codes "SELECT 1") StatementCache.null_statement).0 ≡ ok (some 0))
    × ((StatementCache.get t (codes "SELECT 1") StatementCache.null_statement).1.next ≡ t.next)
get_shared_example =
    Sharing.get_shared no_statements (codes "SELECT 1") other_calls StatementCache.null_statement
      absent still_held

abbrev result_rows : List Row
result_rows = (some (codes "1") ∷ []) ∷ (none ∷ []) ∷ []
