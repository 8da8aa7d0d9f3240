-- ===== src/Pool/Capacity.antt =====
-- How many connections there are, in the queue and with the clients together.
use hft_legacy_migration_fra.Base.{
  length-remove, ℕ, zero, suc, ◌+◌, ◌≤◌, ◌≡◌, ◌⊎◌, refl, ap, false, List, [], ◌∷◌, ◌++◌, some,
  Exception, inl, inr, arith, length, length-append,
}
use hft_legacy_migration_fra.Pool.{
  Made, made, null_connection, factory_throws, Environment, Pool, is_connection_healthy, tick, fill,
  construct, take_front, acquire, take_back, release, shutdown,
}
use hft_legacy_migration_fra.Pool.System.{
  System, Call, acquires, releases, shuts_down, handed, step, run,
}

abbrev pub total : System → ℕ
total s = length s.pool.available + length s.lent

module _ (env : Environment) where
  take_front-total :
      (p : Pool) (available lent : List ℕ)
      → p.available ≡ available
      → length (take_front env p available).1.available
          + length (handed (take_front env p available).0 ++ lent)
        ≤ length p.available + length lent
  unfolding take_front handed
  take_front-total p [] lent e = omega arith
  take_front-total p (x ∷ rest) lent e = ground (arith, ap (length {0}) e)

  acquire-total :
      (p : Pool) (lent : List ℕ)
      → length (acquire env p).1.available + length (handed (acquire env p).0 ++ lent)
        ≤ length p.available + length lent
  unfolding acquire handed
  acquire-total p lent = ground (arith, take_front-total p p.available lent refl)

  take_back-length :
      (p : Pool) (c : ℕ) → length (take_back env p c).available ≤ length p.available + 1
  unfolding take_back
  take_back-length p c =
      ground
        (arith, length-append p.available (c ∷ []), length-append p.available (suc p.clock ∷ []))

  release-length :
      (p : Pool) (c : ℕ) → length (release env p (some c)).available ≤ length p.available + 1
  unfolding release
  release-length p c = ground (arith, take_back-length p c)

  -- No call adds to the connections.
  pub step-total : (s : System) (c : Call) → total (step env s c) ≤ total s
  unfolding step shutdown
  step-total s acquires = acquire-total s.pool s.lent
  step-total s (releases c) = ground (arith, release-length s.pool c, length-remove c s.lent)
  step-total s shuts_down = omega arith

  run-total : (s : System) (cs : List Call) → total (run env s cs) ≤ total s
  unfolding run
  run-total s [] = omega arith
  run-total s (c ∷ cs) = omega (arith, run-total (step env s c) cs, step-total s c)

  fill-length :
      (left : ℕ) (p : Pool) → length (fill env left p).available ≤ length p.available + left
  unfolding fill
  fill-length zero p = omega arith
  fill-length (suc left) p = go (env.factory p.clock) (fill-length left)
    where
      go :
          (m : Made)
          → ((q : Pool) → length (fill env left q).available ≤ length q.available + left)
          → length
              (fill env left (elim m [
                | made ↦ record p { available = p.available ++ p.clock ∷ []; clock = suc p.clock }
                | null_connection ↦ tick env p
                | factory_throws e ↦ tick env p
              ])).available
            ≤ length p.available + suc left
      go made ih = omega (
        arith,
        ih (record p { available = p.available ++ p.clock ∷ []; clock = suc p.clock }),
        length-append p.available (p.clock ∷ []),
      )
      go null_connection ih = omega (arith, ih (tick env p))
      go (factory_throws e) ih = omega (arith, ih (tick env p))

  -- After any calls the connections in the queue and with the clients are together at most
  -- `pool_size`, whatever the factory and the health query answer.
  pub construct-run-total :
      (pool_size : ℕ) (cs : List Call)
      → total (run env (record { pool = construct env pool_size; lent = [] }) cs) ≤ pool_size
  unfolding construct
  construct-run-total pool_size cs =
      let empty : Pool = record {
        available = [];
        pool_size = pool_size;
        shut = false;
        clock = 0;
      } in
      omega (
        arith,
        run-total (record { pool = fill env pool_size empty; lent = [] }) cs,
        fill-length pool_size empty,
      )

  -- The factory gives no connection at this call.
  abbrev pub GivesNone : ℕ → Type 0
  GivesNone n =
      (env.factory n ≡ null_connection) ⊎ ((e : Exception) × (env.factory n ≡ factory_throws e))

  lost :
      (s : System) (conn : ℕ) (rest : List ℕ)
      → s.pool.shut ≡ false
      → s.pool.available ≡ conn ∷ rest
      → is_connection_healthy env s.pool conn ≡ false
      → GivesNone (suc s.pool.clock)
      → total (step env s acquires) + 1 ≤ total s
  unfolding step acquire handed
  lost s conn rest running e sick (inl none_made) = ground (arith, ap (length {0}) e)
  lost s conn rest running e sick (inr (x, none_made)) = ground (arith, ap (length {0}) e)

  -- A pool that meets a bad connection while the factory gives none loses it for good: after the
  -- acquire there is one connection fewer, and after any further calls still.
  pub acquire_loses :
      (s : System) (conn : ℕ) (rest : List ℕ) (cs : List Call)
      → s.pool.shut ≡ false
      → s.pool.available ≡ conn ∷ rest
      → is_connection_healthy env s.pool conn ≡ false
      → GivesNone (suc s.pool.clock)
      → total (run env (step env s acquires) cs) + 1 ≤ total s
  acquire_loses s conn rest cs running e sick gives_none =
      omega (arith, run-total (step env s acquires) cs, lost s conn rest running e sick gives_none)
