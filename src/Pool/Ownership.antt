-- ===== src/Pool/Ownership.antt =====
-- Every connection has one owner, the pool or a client.
use hft_legacy_migration_fra.Base.{
  holds, remove, count, count-append, count-remove, ℕ, zero, suc, ◌+◌, ◌≤◌, ◌≡◌, refl, ap, true,
  false, List, [], ◌∷◌, ◌++◌, some, Bool-cases, inl, inr, arith,
}
use hft_legacy_migration_fra.Pool.{
  Environment, Pool, fill, construct, replace, take_front, acquire, take_back, release, shutdown,
}
use hft_legacy_migration_fra.Pool.System.{
  System, Call, acquires, releases, shuts_down, handed, step, run,
}

-- The connection stands in the pool or with a client at most once, and nowhere before the factory
-- has made it.
pub record OwnedOnce (conn : ℕ) (s : System) : Type 0 where
  pub once : count conn s.pool.available + count conn s.lent ≤ 1
  pub unmade : s.pool.clock ≤ conn → count conn s.pool.available + count conn s.lent ≡ 0

module _ (env : Environment) (conn : ℕ) where
  replace-OwnedOnce :
      (p : Pool) (lent : List ℕ)
      → OwnedOnce conn (record { pool = p; lent = lent })
      → OwnedOnce conn
          (record { pool = (replace env p).1; lent = handed (replace env p).0 ++ lent })
  unfolding replace handed count
  replace-OwnedOnce p lent v = ground arith

  take_front-OwnedOnce :
      (p : Pool) (available lent : List ℕ)
      → p.available ≡ available
      → OwnedOnce conn (record { pool = p; lent = lent })
      → OwnedOnce conn (record {
        pool = (take_front env p available).1;
        lent = handed (take_front env p available).0 ++ lent;
      })
  unfolding take_front handed count
  take_front-OwnedOnce p [] lent e v = v
  take_front-OwnedOnce p (x ∷ rest) lent e v = ground (arith, ap (count conn) e)

  acquire-OwnedOnce :
      (p : Pool) (lent : List ℕ)
      → OwnedOnce conn (record { pool = p; lent = lent })
      → OwnedOnce conn
          (record { pool = (acquire env p).1; lent = handed (acquire env p).0 ++ lent })
  unfolding acquire handed
  acquire-OwnedOnce p lent v = ground (arith, take_front-OwnedOnce p p.available lent refl v)

  take_back-OwnedOnce :
      (p : Pool) (c : ℕ) (lent : List ℕ)
      → holds c lent ≡ true
      → OwnedOnce conn (record { pool = p; lent = lent })
      → OwnedOnce conn (record { pool = take_back env p c; lent = remove c lent })
  unfolding take_back count
  take_back-OwnedOnce p c lent h v = ground (
    arith,
    count-remove c conn lent h,
    count-append conn p.available (c ∷ []),
    count-append conn p.available (suc p.clock ∷ []),
  )

  release-OwnedOnce :
      (p : Pool) (c : ℕ) (lent : List ℕ)
      → holds c lent ≡ true
      → OwnedOnce conn (record { pool = p; lent = lent })
      → OwnedOnce conn (record { pool = release env p (some c); lent = remove c lent })
  unfolding release
  release-OwnedOnce p c lent h v =
      ground (arith, take_back-OwnedOnce p c lent h v, count-remove c conn lent h)

  step-OwnedOnce : (s : System) (c : Call) → OwnedOnce conn s → OwnedOnce conn (step env s c)
  unfolding step shutdown count
  step-OwnedOnce s acquires v = acquire-OwnedOnce s.pool s.lent v
  step-OwnedOnce s (releases c) v = elim (Bool-cases (holds c s.lent)) [
    | inl h ↦ rw h (release-OwnedOnce s.pool c s.lent h v)
    | inr h ↦ rw h v
  ]
  step-OwnedOnce s shuts_down v = ground arith

  run-OwnedOnce : (s : System) (cs : List Call) → OwnedOnce conn s → OwnedOnce conn (run env s cs)
  unfolding run
  run-OwnedOnce s [] v = v
  run-OwnedOnce s (c ∷ cs) v = run-OwnedOnce (step env s c) cs (step-OwnedOnce s c v)

  fill-OwnedOnce :
      (left : ℕ) (p : Pool)
      → OwnedOnce conn (record { pool = p; lent = [] })
      → OwnedOnce conn (record { pool = fill env left p; lent = [] })
  unfolding fill count
  fill-OwnedOnce zero p v = v
  fill-OwnedOnce (suc left) p v =
      fill-OwnedOnce left _ (ground (arith, count-append conn p.available (p.clock ∷ [])))

-- Whatever the factory and the health query answer, and in whatever order the clients acquire and
-- release and the pool is shut down: no connection is ever in the queue and with a client at once,
-- nor twice in the queue, nor with two clients.
pub construct-run-once :
    (env : Environment) (pool_size : ℕ) (cs : List Call) (conn : ℕ)
    → let s = run env (record { pool = construct env pool_size; lent = [] }) cs in
      count conn s.pool.available + count conn s.lent ≤ 1
construct-run-once env pool_size cs conn = (run-OwnedOnce env conn _ cs start).once
  where
    start : OwnedOnce conn (record { pool = construct env pool_size; lent = [] })
    start = unfold construct in fill-OwnedOnce env conn pool_size _ none_yet
      where
        none_yet : OwnedOnce conn (record {
          pool = record { available = []; pool_size = pool_size; shut = false; clock = 0 };
          lent = [];
        })
        none_yet = unfold count in (ground arith)
