-- ===== src/QueryCache/History.antt =====
-- The cache against the history of its calls.
use hft_legacy_migration_fra.Base.{
  ℕ, ◌+◌, ◌≤◌, ◌<◌, ◌≡◌, refl, ◌∙◌, Bytes, Bool, true, false, not, List, [], ◌∷◌, Option, none,
  some, if◌then◌else◌, lookup, insert, eqb, eqb_iff, eqb_refl, arith, Distinct, insert-Distinct,
  erase-Distinct, keep-Distinct, lookup-insert, lookup-erase, lookup-keep, passing,
}
use hft_legacy_migration_fra.QueryCache.{
  CacheEntry, QueryCache, is_expired, put, get, contains_key, clear, cleanup, set_enabled, initial,
  is_enabled,
}

pub data Call {ℓ} (V : Type ℓ) : Type ℓ where
  puts : Bytes → V → ℕ → Call V
  gets : Bytes → Call V
  asks : Bytes → Call V
  clears : Call V
  cleans : Call V
  enables : Bool → Call V

module _ {ℓ} {V : Type ℓ} where
  unfoldable pub step : QueryCache V → ℕ → Call V → QueryCache V
  step c now (puts key content ttl) = put c key content ttl now
  step c now (gets key) = (get c key now).1
  step c now (asks key) = (contains_key c key now).1
  step c now clears = clear c
  step c now cleans = cleanup c now
  step c now (enables on) = set_enabled c on

  -- Each call with the time that passes before it.
  unfoldable pub run : QueryCache V → ℕ → List (ℕ × Call V) → QueryCache V
  run c now [] = c
  run c now ((wait, call) ∷ calls) = run (step c (now + wait) call) (now + wait) calls

  unfoldable pub end_time : ℕ → List (ℕ × Call V) → ℕ
  end_time now [] = now
  end_time now ((wait, call) ∷ calls) = end_time (now + wait) calls

  -- What the history says of a key: the last entry put under it since the last clearing.
  unfoldable pub last_put :
      Bytes → Option (CacheEntry V) → ℕ → List (ℕ × Call V) → Option (CacheEntry V)
  last_put key seen now [] = seen
  last_put key seen now ((wait, puts k content ttl) ∷ calls) =
      last_put key
        (if eqb k key
          then some (record { content = content; expires_at = now + wait + ttl })
          else seen)
        (now + wait) calls
  last_put key seen now ((wait, gets k) ∷ calls) = last_put key seen (now + wait) calls
  last_put key seen now ((wait, asks k) ∷ calls) = last_put key seen (now + wait) calls
  last_put key seen now ((wait, clears) ∷ calls) = last_put key none (now + wait) calls
  last_put key seen now ((wait, cleans) ∷ calls) = last_put key seen (now + wait) calls
  last_put key seen now ((wait, enables on) ∷ calls) =
      last_put key (if on then seen else none) (now + wait) calls

  -- An entry counts until it expires.
  abbrev pub current : ℕ → Option (CacheEntry V) → Option V
  current now none = none
  current now (some e) = if is_expired now e then none else some e.content

  get-current :
      (c : QueryCache V) (key : Bytes) (now : ℕ)
      → (get c key now).0 ≡ current now (lookup key c.cache)
  unfolding get
  get-current c key now = ground arith

  -- The state and the history agree on a key at every later time.
  abbrev Agrees : QueryCache V → Bytes → ℕ → Option (CacheEntry V) → Type ℓ
  Agrees c key now seen =
      (later : ℕ) → now ≤ later → current later (lookup key c.cache) ≡ current later seen

  passing-current :
      (now later : ℕ) (o : Option (CacheEntry V))
      → now ≤ later
      → current later (passing (λ e. not (is_expired now e)) o) ≡ current later o
  passing-current now later none h = refl
  passing-current now later (some e) h = ground arith

  get-Agrees :
      (c : QueryCache V) (key k : Bytes) (now : ℕ) (seen : Option (CacheEntry V))
      → Agrees c key now seen
      → Agrees (get c k now).1 key now seen
  unfolding get
  get-Agrees c key k now seen a later h =
      ground (arith, a later h, lookup-erase k key c.cache, eqb_iff k key)

  contains_key-Agrees :
      (c : QueryCache V) (key k : Bytes) (now : ℕ) (seen : Option (CacheEntry V))
      → Agrees c key now seen
      → Agrees (contains_key c k now).1 key now seen
  unfolding contains_key
  contains_key-Agrees c key k now seen a later h =
      ground (arith, a later h, lookup-erase k key c.cache, eqb_iff k key)

  cleanup-Agrees :
      (c : QueryCache V) (key : Bytes) (now : ℕ) (seen : Option (CacheEntry V))
      → Distinct c.cache
      → Agrees c key now seen
      → Agrees (cleanup c now) key now seen
  unfolding cleanup
  cleanup-Agrees c key now seen d a later h =
      rw (lookup-keep (λ e. not (is_expired now e)) key c.cache d)
        (passing-current now later (lookup key c.cache) h ∙ a later h)

  step-Distinct :
      (c : QueryCache V) (now : ℕ) (call : Call V)
      → Distinct c.cache
      → Distinct (step c now call).cache
  unfolding step put get contains_key clear cleanup set_enabled
  step-Distinct c now (puts key content ttl) d = insert-Distinct key _ c.cache d
  step-Distinct c now (gets key) d = ground (arith, erase-Distinct key c.cache d)
  step-Distinct c now (asks key) d = ground (arith, erase-Distinct key c.cache d)
  step-Distinct c now clears d = tt
  step-Distinct c now cleans d = keep-Distinct _ c.cache d
  step-Distinct c now (enables true) d = d
  step-Distinct c now (enables false) d = tt

  put-Agrees :
      (c : QueryCache V) (key k : Bytes) (content : V) (ttl now before : ℕ)
      (seen : Option (CacheEntry V))
      → before ≤ now
      → Agrees c key before seen
      → Agrees
          (put c k content ttl now)
          key
          now
          (if eqb k key then some (record { content = content; expires_at = now + ttl }) else seen)
  unfolding put
  put-Agrees c key k content ttl now before seen le a later h =
      rw (lookup-insert k key (record { content = content; expires_at = now + ttl }) c.cache)
        (go (eqb k key) (a later (omega arith)))
    where
      go :
          (b : Bool)
          → current later (lookup key c.cache) ≡ current later seen
          → current later (
              if b
              then some (record { content = content; expires_at = now + ttl })
              else lookup key c.cache)
            ≡ current later
                (if b then some (record { content = content; expires_at = now + ttl }) else seen)
      go true e = refl
      go false e = e

  run-Agrees :
      (calls : List (ℕ × Call V)) (c : QueryCache V) (key : Bytes) (now : ℕ)
      (seen : Option (CacheEntry V))
      → Distinct c.cache
      → Agrees c key now seen
      → Agrees (run c now calls) key (end_time now calls) (last_put key seen now calls)
  unfolding run end_time last_put step
  run-Agrees [] c key now seen d a = a
  run-Agrees ((wait, puts k content ttl) ∷ calls) c key now seen d a =
      run-Agrees calls _ key (now + wait) _ (step-Distinct c (now + wait) (puts k content ttl) d)
        (put-Agrees c key k content ttl (now + wait) now seen (omega arith) a)
  run-Agrees ((wait, gets k) ∷ calls) c key now seen d a =
      run-Agrees calls _ key (now + wait) seen (step-Distinct c (now + wait) (gets k) d)
        (get-Agrees c key k (now + wait) seen (λ later h. a later (omega arith)))
  run-Agrees ((wait, asks k) ∷ calls) c key now seen d a =
      run-Agrees calls _ key (now + wait) seen (step-Distinct c (now + wait) (asks k) d)
        (contains_key-Agrees c key k (now + wait) seen (λ later h. a later (omega arith)))
  run-Agrees ((wait, clears) ∷ calls) c key now seen d a =
      run-Agrees calls _ key (now + wait) none (step-Distinct c (now + wait) clears d)
        (λ later h. unfold clear lookup in refl)
  run-Agrees ((wait, cleans) ∷ calls) c key now seen d a =
      run-Agrees calls _ key (now + wait) seen (step-Distinct c (now + wait) cleans d)
        (cleanup-Agrees c key (now + wait) seen d (λ later h. a later (omega arith)))
  run-Agrees ((wait, enables true) ∷ calls) c key now seen d a =
      run-Agrees calls _ key (now + wait) seen (step-Distinct c (now + wait) (enables true) d)
        (λ later h. unfold set_enabled in a later (omega arith))
  run-Agrees ((wait, enables false) ∷ calls) c key now seen d a =
      run-Agrees calls _ key (now + wait) none (step-Distinct c (now + wait) (enables false) d)
        (λ later h. unfold set_enabled lookup in refl)

  -- After any history of calls on a new cache, `get` returns the value that was put last under the
  -- key, if nothing was cleared since, whether by `clear` or by disabling the cache, and if its time
  -- to live has not passed; and it returns nothing else. Other keys, expiry checks and cleaning up
  -- make no difference.
  pub get-run :
      (calls : List (ℕ × Call V)) (key : Bytes) (start wait : ℕ)
      → (get (run initial start calls) key (end_time start calls + wait)).0
        ≡ current (end_time start calls + wait) (last_put key none start calls)
  get-run calls key start wait =
      get-current (run initial start calls) key (end_time start calls + wait)
      ∙ run-Agrees calls initial key start none tt (λ later h. unfold lookup in refl) _
          (omega arith)

  -- The bug: `put` and `get` do not look at `_enabled`. Disabling empties the cache, but what is put
  -- after that, with a time to live above zero, is served like before, although `is_enabled` says no.
  pub get-put_disabled :
      (c : QueryCache V) (key : Bytes) (content : V) (ttl now : ℕ)
      → 0 < ttl
      → let disabled = set_enabled c false in
        ((get (put disabled key content ttl now) key now).0 ≡ some content)
        × (is_enabled (put disabled key content ttl now) ≡ false)
  unfolding get put set_enabled is_enabled
  get-put_disabled c key content ttl now h =
      let e : CacheEntry V = record { content = content; expires_at = now + ttl } in
      let found = lookup-insert key key e [] in
      (
        get-current (record { cache = insert key e []; enabled = false }) key now
            ∙ rw (found, eqb_refl key) (ground arith),
        refl,
      )
