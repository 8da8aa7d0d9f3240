-- ===== src/Server/Listening.antt =====
-- From the command line of the server to the sessions of its clients.
use hft_legacy_migration_fra.Base.{
  ℕ, ◌<◌, ◌≤◌, ◌≡◌, inl, inr, refl, ap, ◌∙◌, ◌≢◌, Bytes, false, ◌||◌, List, [], ◌∷◌, ◌++◌, none,
  some, Result, ok, err, get_elem?, get_elem?-append_last, length, arith, sym, subst, All,
  All-append, to_string, codes, eqb, eqb_sound, if◌then◌else◌, Bool-cases,
}
use hft_legacy_migration_fra.Base.Int.{ℤ, pos, negsuc}
use hft_legacy_migration_fra.Catalog.Types.{print_int}
use hft_legacy_migration_fra.Values.{stoi, magnitude}
use hft_legacy_migration_fra.Values.Numbers.{stoi-print_int, magnitude-to_string}
use hft_legacy_migration_fra.Json.{Codec}
use hft_legacy_migration_fra.Server.Session.{Phase, reading_header, run}
use hft_legacy_migration_fra.Server.Safety.{DumpsAscii, IsServing}
use hft_legacy_migration_fra.Server.Acceptor.{
  running, ServerEvent, accepted, run_server, usage, listen, check_port, parse_arguments,
  bound_port, main, to_short, to_unsigned_short, handle_event,
}
use hft_legacy_migration_fra.Server.Isolation.{
  PeerKnown, accepted_count, events_of, run_server-isolated, run_server-append,
}

-- The wrapping of `short` and that of `unsigned short` cancel: no port is changed on the way to the acceptor.
bound_port_lem : (port : ℕ) → port < 65536 → bound_port port ≡ port
unfolding bound_port to_short to_unsigned_short
bound_port_lem port h = ground arith

not_printed : (n : ℕ) (s : Bytes) → magnitude s ≡ none → eqb (to_string n) s ≡ false
not_printed n s h = elim (Bool-cases (eqb (to_string n) s)) [
  | inl e ↦
      absurd (some_ne_none (magnitude-to_string n) (ap magnitude (eqb_sound (to_string n) s e) ∙ h))
  | inr e ↦ e
]
  where
    some_ne_none : magnitude (to_string n) ≡ some n → magnitude (to_string n) ≢ none
    some_ne_none p q = cc

parse_arguments-printed :
    (program : Bytes) (port : ℕ) (more : List Bytes)
    → 1 ≤ port
    → port ≤ 65535
    → parse_arguments (program ∷ to_string port ∷ more) ≡ listen port
unfolding parse_arguments
parse_arguments-printed program port more low high =
    rw
      (
        not_printed port (codes "--help") (unfold magnitude in refl),
        not_printed port (codes "-h") (unfold magnitude in refl),
      )
      (ap check_port read ∙ in_bounds)
  where
    read : stoi (to_string port) ≡ ok (pos port)
    read = unfold print_int in stoi-print_int (pos port) (omega (arith, high))

    in_bounds : check_port (ok (pos port)) ≡ listen port
    in_bounds = unfold check_port in ground arith

listen_injective : {n m : ℕ} → listen n ≡ listen m → n ≡ m
listen_injective h = cc

check_port-bounds :
    (r : Result ℤ) (port : ℕ) → check_port r ≡ listen port → (1 ≤ port) × (port ≤ 65535)
unfolding check_port
check_port-bounds (ok (pos n)) port h = ground arith
check_port-bounds (ok (negsuc n)) port h = absurd cc
check_port-bounds (err e) port h = absurd cc

listen-9090 : (port : ℕ) → listen 9090 ≡ listen port → (1 ≤ port) × (port ≤ 65535)
listen-9090 port h = (omega (arith, listen_injective h), omega (arith, listen_injective h))

parse_arguments-bounds :
    (args : List Bytes) (port : ℕ)
    → parse_arguments args ≡ listen port
    → (1 ≤ port) × (port ≤ 65535)
unfolding parse_arguments
parse_arguments-bounds [] port h = listen-9090 port h
parse_arguments-bounds (program ∷ []) port h = listen-9090 port h
parse_arguments-bounds (program ∷ arg ∷ more) port h =
    elim (Bool-cases (eqb arg (codes "--help") || eqb arg (codes "-h"))) [
      | inl help ↦
          absurd (helped (ap (λ x. if x then usage else check_port (stoi arg)) (sym help) ∙ h))
      | inr other ↦
          check_port-bounds (stoi arg) port
            (ap (λ x. if x then usage else check_port (stoi arg)) (sym other) ∙ h)
    ]
  where
    helped : usage ≢ listen port
    helped e = cc

-- Whatever the command line, the acceptor is bound to the very port that was read from it, between 1
-- and 65535, although the port is narrowed to a `short` on the way.
pub bound_port-bounds :
    (args : List Bytes) (port : ℕ)
    → parse_arguments args ≡ listen port
    → (bound_port port ≡ port) × (1 ≤ port) × (port ≤ 65535)
bound_port-bounds args port h =
    let bounds : (1 ≤ port) × (port ≤ 65535) = parse_arguments-bounds args port h in
    (bound_port_lem port (omega (arith, bounds.1)), bounds.0, bounds.1)

main-listens :
    (c : Codec) (open_port : ℕ → Result (Unit {0})) (program : Bytes) (port : ℕ) (more : List Bytes)
    (es : List ServerEvent)
    → 1 ≤ port
    → port ≤ 65535
    → open_port port ≡ ok tt
    → main c open_port (program ∷ to_string port ∷ more) es ≡ run_server c (running []) es
unfolding main
main-listens c open_port program port more es low high opened =
    rw
      (
        parse_arguments-printed program port more low high,
        main,
        bound_port_lem port (omega (arith, high)),
        opened,
      )
      refl

run_server-accepted :
    (c : Codec) (sessions : List Phase) (peer : Bytes) (es : List ServerEvent)
    → run_server c (running sessions) (accepted (ok peer) ∷ es)
      ≡ run_server c (running (sessions ++ (reading_header ∷ []))) es
unfolding run_server handle_event
run_server-accepted c sessions peer es = refl

-- Once the server listens on the port of its command line, a client that it accepts between any other
-- events goes through the phases of its own events alone, and the server is still running. Of all
-- events it is supposed that the address of every accepted peer is known, that no statement that
-- reaches PostgreSQL gives a null result, and that no write outlives its buffers; and that the JSON
-- library dumps ASCII texts and throws exceptions with such texts only.
pub main-serves :
    (c : Codec) (open_port : ℕ → Result (Unit {0})) (program : Bytes) (port : ℕ) (more : List Bytes)
    (before : List ServerEvent) (peer : Bytes) (after : List ServerEvent)
    → DumpsAscii c
    → 1 ≤ port
    → port ≤ 65535
    → open_port port ≡ ok tt
    → All PeerKnown before
    → All PeerKnown after
    → (sessions : List Phase) × (main c open_port
          (program ∷ to_string port ∷ more)
          (before ++ (accepted (ok peer) ∷ after))
        ≡ running sessions)
      × (get_elem? sessions (accepted_count before)
          ≡ some (run c reading_header (events_of (accepted_count before) after)))
main-serves c open_port program port more before peer after laws low high opened known known_after =
    let (middle, first, (served, count, each)) = run_server-isolated c laws before [] tt known in
    let (last, rest, (served_last, count_last, each_last)) =
      run_server-isolated c laws after (middle ++ (reading_header ∷ []))
        (All-append IsServing middle (reading_header ∷ []) served (tt, tt)) known_after in
    let place : length middle ≡ accepted_count before = omega (arith, count) in
    (
      last,
      main-listens c open_port program port more _ low high opened
          ∙ run_server-append c (running []) before _
          ∙ ap (λ p. run_server c p (accepted (ok peer) ∷ after)) first
          ∙ run_server-accepted c middle peer after
          ∙ rest,
      subst (λ n. get_elem? last n ≡ some (run c reading_header (events_of n after))) place
          (each_last (length middle) reading_header (get_elem?-append_last middle reading_header)),
    )
