-- ===== src/Server/Isolation.antt =====
-- The connections of one server do not see each other.
use hft_legacy_migration_fra.Base.{
  ℕ, ◌+◌, ◌≡◌, refl, sym, ap, subst, ◌∙◌, Bytes, List, [], ◌∷◌, ◌++◌, none, some, Result, ok, err,
  arith, inl, inr, length, get_elem?, set, All, All-append, ◌==◌, if◌then◌else◌, Bool-cases,
  some_injective, some_ne_none, All-set, get_elem?-All, get_elem?-lt, get_elem?-append,
  get_elem?-set_self, get_elem?-set_ne, Option-cases, ==_iff, length-set, length-append,
}
use hft_legacy_migration_fra.Json.{Codec}
use hft_legacy_migration_fra.Server.Session.{
  Phase, reading_header, reading_payload, writing, closed, server_down, undefined_behaviour, Event,
  step, run,
}
use hft_legacy_migration_fra.Server.Safety.{DumpsAscii, IsRegular, IsServing, step-IsServing}
use hft_legacy_migration_fra.Server.Acceptor.{
  Process, running, exited, undefined_process, ServerEvent, accepted, accept_failed, on, settle,
  handle_event, run_server,
}

-- What happens to the i-th session.
unfoldable pub events_of : ℕ → List ServerEvent → List Event
events_of i [] = []
events_of i (on j e ∷ es) = if j == i then e ∷ events_of i es else events_of i es
events_of i (accepted peer ∷ es) = events_of i es
events_of i (accept_failed ∷ es) = events_of i es

-- An accepted peer was still there when the server asked for its address, and what happens to a
-- session is regular.
abbrev pub PeerKnown : ServerEvent → Type 0
PeerKnown (accepted (ok peer)) = Unit {0}
PeerKnown (accepted (err e)) = ⊥
PeerKnown accept_failed = Unit {0}
PeerKnown (on i e) = IsRegular e

unfoldable pub accepted_count : List ServerEvent → ℕ
accepted_count [] = 0
accepted_count (accepted peer ∷ es) = accepted_count es + 1
accepted_count (accept_failed ∷ es) = accepted_count es
accepted_count (on i e ∷ es) = accepted_count es

settle-running :
    (sessions : List Phase) (i : ℕ) (p : Phase)
    → IsServing p
    → settle sessions i p ≡ running (set sessions i p)
unfolding settle
settle-running sessions i reading_header h = refl
settle-running sessions i (reading_payload header) h = refl
settle-running sessions i (writing out) h = refl
settle-running sessions i closed h = refl
settle-running sessions i server_down h = absurd h
settle-running sessions i undefined_behaviour h = absurd h

module _ (c : Codec) (laws : DumpsAscii c) where
  -- The server goes on from these sessions to those, each by its own events.
  abbrev Advances : List Phase → List ServerEvent → List Phase → Type 0
  Advances sessions es after =
      All IsServing after
      × (length after ≡ length sessions + accepted_count es)
      × ((i : ℕ) (p : Phase)
          → get_elem? sessions i ≡ some p
          → get_elem? after i ≡ some (run c p (events_of i es)))

  stays :
      (sessions : List Phase)
      → All IsServing sessions
      → Advances sessions (accept_failed ∷ []) sessions
  unfolding run events_of accepted_count
  stays sessions all = (all, omega arith, λ i p h. h)

  joins :
      (sessions : List Phase) (peer : Result Bytes)
      → All IsServing sessions
      → Advances sessions (accepted peer ∷ []) (sessions ++ (reading_header ∷ []))
  unfolding run events_of accepted_count
  joins sessions peer all = (
    All-append IsServing sessions (reading_header ∷ []) all (tt, tt),
    omega (arith, length-append sessions (reading_header ∷ [])),
    λ i p h. get_elem?-append sessions _ i h,
  )

  -- There is no such session.
  ignored :
      (sessions : List Phase) (j : ℕ) (e : Event)
      → All IsServing sessions
      → get_elem? sessions j ≡ none
      → Advances sessions (on j e ∷ []) sessions
  unfolding run events_of accepted_count
  ignored sessions j e all h = (all, omega arith, each)
    where
      each :
          (i : ℕ) (p : Phase)
          → get_elem? sessions i ≡ some p
          → get_elem? sessions i ≡ some (run c p (events_of i (on j e ∷ [])))
      each i p k = elim (Bool-cases (j == i)) [
        | inl same ↦
            absurd (some_ne_none (sym k ∙ ap (get_elem? sessions) (sym ((==_iff j i).0 same)) ∙ h))
        | inr other ↦ rw other k
      ]

  moves :
      (sessions : List Phase) (j : ℕ) (q : Phase) (e : Event)
      → IsRegular e
      → All IsServing sessions
      → get_elem? sessions j ≡ some q
      → Advances sessions (on j e ∷ []) (set sessions j (step c q e))
  unfolding run events_of accepted_count
  moves sessions j q e regular all h = (
    All-set IsServing sessions j (step c q e)
        (step-IsServing c laws q e regular (get_elem?-All IsServing sessions j h all)) all,
    omega (arith, length-set sessions j (step c q e)),
    each,
  )
    where
      each :
          (i : ℕ) (p : Phase)
          → get_elem? sessions i ≡ some p
          → get_elem? (set sessions j (step c q e)) i ≡ some (run c p (events_of i (on j e ∷ [])))
      each i p k = elim (Bool-cases (j == i)) [
        | inl same ↦ rw same (
            subst
              (λ n.
                get_elem? sessions n ≡ some p
                → get_elem? (set sessions j (step c q e)) n ≡ some (step c p e))
              ((==_iff j i).0 same) moved k)
        | inr other ↦ rw other (get_elem?-set_ne sessions (step c q e) (λ n. ground arith) ∙ k)
      ]
        where
          moved :
              get_elem? sessions j ≡ some p
              → get_elem? (set sessions j (step c q e)) j ≡ some (step c p e)
          moved m =
              get_elem?-set_self sessions j (step c q e) (get_elem?-lt sessions j h)
              ∙ ap (λ r. some (step c r e)) (some_injective (sym h ∙ m))

  handle_event-Advances :
      (sessions : List Phase) (e : ServerEvent)
      → All IsServing sessions
      → PeerKnown e
      → (after : List Phase) × (handle_event c sessions e ≡ running after)
        × Advances sessions (e ∷ []) after
  unfolding handle_event
  handle_event-Advances sessions (accepted (ok peer)) all known =
      (sessions ++ (reading_header ∷ []), refl, joins sessions (ok peer) all)
  handle_event-Advances sessions (accepted (err x)) all known = absurd known
  handle_event-Advances sessions accept_failed all known = (sessions, refl, stays sessions all)
  handle_event-Advances sessions (on j e) all regular = elim (Option-cases (get_elem? sessions j)) [
    | inl h ↦ (sessions, rw (h, handle_event) refl, ignored sessions j e all h)
    | inr (q, h) ↦ (
      set sessions j (step c q e),
      rw (h, handle_event)
          (settle-running sessions j (step c q e)
            (step-IsServing c laws q e regular (get_elem?-All IsServing sessions j h all))),
      moves sessions j q e regular all h,
    )
  ]

  run-events :
      (i : ℕ) (p : Phase) (e : ServerEvent) (es : List ServerEvent)
      → run c (run c p (events_of i (e ∷ []))) (events_of i es) ≡ run c p (events_of i (e ∷ es))
  unfolding run events_of
  run-events i p (accepted peer) es = refl
  run-events i p accept_failed es = refl
  run-events i p (on j e) es = elim (Bool-cases (j == i)) [
    | inl same ↦ rw same refl
    | inr other ↦ rw other refl
  ]

  count-events :
      (e : ServerEvent) (es : List ServerEvent)
      → accepted_count (e ∷ es) ≡ accepted_count (e ∷ []) + accepted_count es
  unfolding accepted_count
  count-events (accepted peer) es = omega arith
  count-events accept_failed es = omega arith
  count-events (on j e) es = omega arith

  -- A server goes on through any events in which every accepted peer is known and each session's events
  -- are regular, and each of its sessions ends as a run of its own events alone, whatever the other
  -- connections did in between.
  pub run_server-isolated :
      (es : List ServerEvent) (sessions : List Phase)
      → All IsServing sessions
      → All PeerKnown es
      → (after : List Phase) × (run_server c (running sessions) es ≡ running after)
        × Advances sessions es after
  unfolding run_server accepted_count events_of
  run_server-isolated [] sessions all known = (sessions, refl, stays sessions all)
  run_server-isolated (e ∷ es) sessions all known =
      let (middle, first, (served, count, each)) = handle_event-Advances sessions e all known.0 in
      let (after, rest, (served_after, count_after, each_after)) =
        run_server-isolated es middle served known.1 in
      (
        after,
        rw first rest,
        (
          served_after,
          omega (arith, count, count_after, count-events e es),
          λ i p h. each_after i _ (each i p h) ∙ ap some (run-events i p e es),
        ),
      )

pub run_server-append :
    (c : Codec) (p : Process) (es fs : List ServerEvent)
    → run_server c p (es ++ fs) ≡ run_server c (run_server c p es) fs
unfolding run_server
run_server-append c p [] fs = refl
run_server-append c (running sessions) (e ∷ es) fs =
    run_server-append c (handle_event c sessions e) es fs
run_server-append c (exited code) (e ∷ es) [] = refl
run_server-append c (exited code) (e ∷ es) (f ∷ fs) = refl
run_server-append c undefined_process (e ∷ es) [] = refl
run_server-append c undefined_process (e ∷ es) (f ∷ fs) = refl
