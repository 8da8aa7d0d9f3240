-- ===== src/Pool/Branches.antt =====
-- What `acquire`, `release` and `shutdown` do to a pool.
use hft_legacy_migration_fra.Base.{
  ℕ, suc, ◌≡◌, refl, true, false, List, [], ◌∷◌, ◌++◌, Option, none, some, Result, ok, err,
  runtime_error, codes, if◌then◌else◌, arith,
}
use hft_legacy_migration_fra.Pool.{
  Made, made, null_connection, factory_throws, Environment, Pool, is_connection_healthy, acquire,
  release, shutdown,
}
use hft_legacy_migration_fra.Pool.System.{System, Call, acquires, releases, shuts_down, step, run}

-- What a caller of `acquire` gets from the factory.
abbrev pub from_factory : Made → ℕ → Result (Option ℕ)
from_factory made n = ok (some n)
from_factory null_connection n = ok none
from_factory (factory_throws e) n = err e

module _ (env : Environment) where
  -- `acquire` on a pool that is not shut and has a connection takes the one at the front off the
  -- queue, and the others keep their order. The caller gets that connection if it is healthy;
  -- if not it is dropped, and the caller gets what the factory gives: a new connection, a null
  -- pointer, or the factory's exception.
  pub acquire_lem :
      (p : Pool) (conn : ℕ) (rest : List ℕ)
      → p.shut ≡ false
      → p.available ≡ conn ∷ rest
      → ((acquire env p).1.available ≡ rest)
        × ((acquire env p).0 ≡ (
            if is_connection_healthy env p conn
            then ok (some conn)
            else from_factory (env.factory (suc p.clock)) (suc p.clock)))
  unfolding acquire
  acquire_lem p conn rest running e = rw (running, e) (ground arith, ground arith)

  abbrev IsShut : Pool → Type 0
  IsShut p = (p.shut ≡ true) × (p.available ≡ [])

  step-IsShut : (s : System) (c : Call) → IsShut s.pool → IsShut (step env s c).pool
  unfolding step acquire release shutdown
  step-IsShut s acquires v = ground arith
  step-IsShut s (releases conn) v = ground arith
  step-IsShut s shuts_down v = ground arith

  run-IsShut : (s : System) (cs : List Call) → IsShut s.pool → IsShut (run env s cs).pool
  unfolding run
  run-IsShut s [] v = v
  run-IsShut s (c ∷ cs) v = run-IsShut (step env s c) cs (step-IsShut s c v)

  acquire_shut :
      (p : Pool)
      → p.shut ≡ true
      → (acquire env p).0 ≡ err (runtime_error (codes "Connection pool is shutting down"))
  unfolding acquire
  acquire_shut p h = rw (h, acquire)

  -- Once a pool was shut down, after any further calls its queue is empty and `acquire` throws
  -- that the pool is shutting down.
  pub shutdown_final :
      (s : System) (cs : List Call)
      → let p = (run env (step env s shuts_down) cs).pool in
        (p.available ≡ [])
        × ((acquire env p).0 ≡ err (runtime_error (codes "Connection pool is shutting down")))
  shutdown_final s cs =
      let v = run-IsShut (step env s shuts_down) cs (unfold step shutdown in (refl, refl)) in
      (v.1, acquire_shut (run env (step env s shuts_down) cs).pool v.0)

  acquire_state :
      (p : Pool) (conn : ℕ) (rest : List ℕ)
      → p.shut ≡ false
      → p.available ≡ conn ∷ rest
      → is_connection_healthy env p conn ≡ true
      → (acquire env p).1 ≡ record p { available = rest; clock = suc p.clock }
  unfolding acquire
  acquire_state p conn rest running e healthy = ground arith

  -- `PooledConnection`: a healthy connection that is acquired and given back while healthy goes to
  -- the end of the queue, and nothing else of the queue changes.
  pub release-acquire :
      (p : Pool) (conn : ℕ) (rest : List ℕ)
      → p.shut ≡ false
      → p.available ≡ conn ∷ rest
      → is_connection_healthy env p conn ≡ true
      → is_connection_healthy env (acquire env p).1 conn ≡ true
      → (release env (acquire env p).1 (some conn)).available ≡ rest ++ conn ∷ []
  unfolding release
  release-acquire p conn rest running e before after =
      ground (arith, acquire_state p conn rest running e before)
