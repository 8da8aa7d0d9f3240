-- ===== src/Pool.antt =====
-- include/hft/db/ConnectionPool.hpp. A connection is named by the number of the factory call that
-- made it. The factory and the health query are parameters that may answer differently at each
-- call, `clock` counts those calls. The mutex makes each method one step. `acquire` is what follows
-- the wait on the condition variable: the waiting is the steps of other threads before it, and an
-- empty pool that is not shutting down means that the wait timed out.
pub mod Branches
pub mod System
pub mod Ownership
pub mod Capacity
use hft_legacy_migration_fra.Base.{
  ℕ, zero, suc, ◌+◌, Bool, true, false, List, [], ◌∷◌, ◌++◌, Option, none, some, Result, ok, err,
  runtime_error, Exception, codes, if◌then◌else◌,
}

-- What a call of the factory does.
pub data Made : Type 0 where
  made : Made
  null_connection : Made
  factory_throws : Exception → Made

-- What `executeQuery("SELECT 1")` and `next()` on its reader do.
pub data Probe : Type 0 where
  query_throws null_reader next_throws : Probe
  next_gives : Bool → Probe

pub record Environment : Type 0 where
  pub factory : ℕ → Made
  pub probe : ℕ → ℕ → Probe

-- The front of the queue is the head of the list.
pub record Pool : Type 0 where
  pub available : List ℕ
  pub pool_size : ℕ
  pub shut : Bool
  pub clock : ℕ

unfoldable pub probe_passes : Probe → Bool
probe_passes query_throws = false
probe_passes null_reader = false
probe_passes next_throws = false
probe_passes (next_gives row) = row

module _ (env : Environment) where
  unfoldable pub is_connection_healthy : Pool → ℕ → Bool
  unfolding probe_passes
  is_connection_healthy p conn = probe_passes (env.probe p.clock conn)

  abbrev pub tick : Pool → Pool
  tick p = record p { clock = suc p.clock }

  -- The constructor's loop, on the connections still to make.
  unfoldable pub fill : ℕ → Pool → Pool
  fill zero p = p
  fill (suc left) p = fill left (elim (env.factory p.clock) [
    | made ↦ record p { available = p.available ++ p.clock ∷ []; clock = suc p.clock }
    | null_connection ↦ tick p
    | factory_throws e ↦ tick p
  ])

  unfoldable pub construct : ℕ → Pool
  unfolding fill
  construct pool_size =
      fill pool_size (record { available = []; pool_size = pool_size; shut = false; clock = 0 })

  -- `conn = _factory()` in `acquire`: an exception leaves the method.
  unfoldable pub replace : Pool → Result (Option ℕ) × Pool
  replace p = elim (env.factory p.clock) [
    | made ↦ (ok (some p.clock), tick p)
    | null_connection ↦ (ok none, tick p)
    | factory_throws e ↦ (err e, tick p)
  ]

  -- The front connection if it is healthy, else a new one.
  unfoldable pub validated : Pool → ℕ → Result (Option ℕ) × Pool
  unfolding is_connection_healthy replace
  validated p conn =
      if is_connection_healthy p conn then (ok (some conn), tick p) else replace (tick p)

  unfoldable pub take_front : Pool → List ℕ → Result (Option ℕ) × Pool
  unfolding validated
  take_front p [] = (err (runtime_error (codes "Connection pool timeout")), p)
  take_front p (conn ∷ rest) = validated (record p { available = rest }) conn

  unfoldable pub acquire : Pool → Result (Option ℕ) × Pool
  unfolding take_front
  acquire p =
      if p.shut
      then (err (runtime_error (codes "Connection pool is shutting down")), p)
      else take_front p p.available

  -- A new connection in place of a bad one that came back.
  unfoldable pub refill : Pool → Pool
  refill p = elim (env.factory p.clock) [
    | made ↦ record p { available = p.available ++ p.clock ∷ []; clock = suc p.clock }
    | null_connection ↦ tick p
    | factory_throws e ↦ tick p
  ]

  unfoldable pub take_back : Pool → ℕ → Pool
  unfolding is_connection_healthy refill
  take_back p conn =
      if is_connection_healthy p conn
      then record p { available = p.available ++ conn ∷ []; clock = suc p.clock }
      else refill (tick p)

  unfoldable pub release : Pool → Option ℕ → Pool
  unfolding take_back
  release p none = p
  release p (some conn) = if p.shut then p else take_back p conn

unfoldable pub shutdown : Pool → Pool
shutdown p = record p { available = []; shut = true }
