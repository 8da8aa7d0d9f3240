-- ===== src/StatementCache/Sharing.antt =====
-- One SQL text has one statement for as long as somebody holds it.
use hft_legacy_migration_fra.Base.{
  ℕ, ◌≡◌, ◌≢◌, ap, Bytes, true, List, [], ◌∷◌, none, some, ok, lookup, lookup-insert, eqb, eqb_iff,
  eqb_refl, holds, arith, Bool-cases, inl, inr,
}
use hft_legacy_migration_fra.StatementCache.{
  Prepared, prepared, Statements, live, create, get, clear, drop_pointer,
}

pub data Call : Type 0 where
  gets : Bytes → Prepared → Call
  drops : ℕ → Call
  clears : Call

unfoldable pub step : Statements → Call → Statements
step s (gets sql factory) = (get s sql factory).1
step s (drops id) = drop_pointer s id
step s clears = clear s

unfoldable pub run : Statements → List Call → Statements
run s [] = s
run s (c ∷ cs) = run (step s c) cs

-- The cache has the statement under the text, and somebody holds it.
pub record Serves (sql : Bytes) (id : ℕ) (s : Statements) : Type 0 where
  pub entry : lookup sql s.cache ≡ some (some id)
  pub alive : holds id s.held ≡ true

-- The call does not clear the cache, and after it somebody still holds the statement.
abbrev pub Keeps : ℕ → Statements → Call → Type 0
Keeps id s (gets sql factory) = Unit {0}
Keeps id s (drops other) = holds id (drop_pointer s other).held ≡ true
Keeps id s clears = ⊥

-- So do all the calls, one after the other.
abbrev pub KeepAll : ℕ → Statements → List Call → Type 0
KeepAll id s [] = Unit {0}
KeepAll id s (c ∷ cs) = Keeps id s c × KeepAll id (step s c) cs

get_served :
    (sql : Bytes) (id : ℕ) (s : Statements) (factory : Prepared)
    → Serves sql id s
    → get s sql factory ≡ (ok (some id), record s { held = id ∷ s.held })
unfolding get
get_served sql id s factory v = ground arith

create-Serves :
    (sql text : Bytes) (id : ℕ) (s : Statements) (factory : Prepared)
    → sql ≢ text
    → Serves sql id s
    → Serves sql id (create s text factory).1
unfolding create holds
create-Serves sql text id s factory other v = ground (
  arith,
  eqb_iff text sql,
  lookup-insert text sql (some s.next) s.cache,
  lookup-insert text sql none s.cache,
)

get-Serves :
    (sql text : Bytes) (id : ℕ) (s : Statements) (factory : Prepared)
    → Serves sql id s
    → Serves sql id (get s text factory).1
unfolding get holds
get-Serves sql text id s factory v = elim (Bool-cases (eqb text sql)) [
  | inl same ↦ rw ((eqb_iff text sql).0 same, get_served sql id s factory v) (ground arith)
  | inr other ↦
      let made = create-Serves sql text id s factory (λ e. ground (arith, eqb_iff text sql)) v in
      ground (arith, made)
]

step-Serves :
    (sql : Bytes) (id : ℕ) (s : Statements) (c : Call)
    → Keeps id s c
    → Serves sql id s
    → Serves sql id (step s c)
unfolding step drop_pointer
step-Serves sql id s (gets text factory) k v = get-Serves sql text id s factory v
step-Serves sql id s (drops other) k v = record { entry = v.entry; alive = k }
step-Serves sql id s clears k v = absurd k

run-Serves :
    (sql : Bytes) (id : ℕ) (s : Statements) (cs : List Call)
    → KeepAll id s cs
    → Serves sql id s
    → Serves sql id (run s cs)
unfolding run
run-Serves sql id s [] k v = v
run-Serves sql id s (c ∷ cs) k v =
    run-Serves sql id (step s c) cs k.1 (step-Serves sql id s c k.0 v)

created-Serves :
    (sql : Bytes) (s : Statements)
    → live s (lookup sql s.cache) ≡ none
    → Serves sql s.next (get s sql prepared).1
unfolding get create holds
created-Serves sql s absent =
    ground (arith, lookup-insert sql sql (some s.next) s.cache, eqb_refl sql)

-- A statement that was made for an SQL text is the one that every later `get` of that text returns,
-- whatever its factory would do, and the factory is not called again, as long as after each pointer
-- that a client lets go somebody still holds the statement and the cache is not cleared: a client may
-- let its pointer go while another has one, and other texts and statements come and go freely.
pub get_shared :
    (s : Statements) (sql : Bytes) (cs : List Call) (factory : Prepared)
    → live s (lookup sql s.cache) ≡ none
    → KeepAll s.next (get s sql prepared).1 cs
    → let t = run (get s sql prepared).1 cs in
      ((get t sql factory).0 ≡ ok (some s.next)) × ((get t sql factory).1.next ≡ t.next)
get_shared s sql cs factory absent k =
    let t = run (get s sql prepared).1 cs in
    let e =
      get_served sql s.next t factory
        (run-Serves sql s.next _ cs k (created-Serves sql s absent)) in
    (ap (λ r. r.0) e, ap (λ r. r.1.next) e)
