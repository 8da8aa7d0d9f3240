-- ===== src/Tests/Acceptor.antt =====
-- The server's program with two clients.
use hft_legacy_migration_fra.Base.{
  ℕ, ◌≡◌, ◌≤◌, refl, List, [], ◌∷◌, ◌++◌, some, Result, ok, codes, to_string, get_elem?, arith, eqb,
}
use hft_legacy_migration_fra.Values.{stoi}
use hft_legacy_migration_fra.Server.Handlers.{postgres}
use hft_legacy_migration_fra.Server.Session.{
  Phase, header_received, payload_received, written, eof, reading_header, run,
}
use hft_legacy_migration_fra.Server.Acceptor.{
  ServerEvent, running, accepted, accept_failed, on, main, listen, parse_arguments, bound_port,
  check_port,
}
use hft_legacy_migration_fra.Server.Isolation.{accepted_count, events_of}
use hft_legacy_migration_fra.Server.Listening.{main-serves, bound_port-bounds}
use hft_legacy_migration_fra.Tests.Codecs.{stack_codec}
use hft_legacy_migration_fra.Tests.Service.{stack_codec-DumpsAscii, database}

abbrev pub free_port : ℕ → Result (Unit {0})
free_port port = ok tt

abbrev pub before : List ServerEvent
before =
    accepted (ok (codes "10.0.0.1:4000")) ∷ accept_failed ∷ on 0 (header_received (1 ∷ 0 ∷ [])) ∷ []

abbrev after : List ServerEvent
after =
    on 1 (header_received (9 ∷ 0 ∷ 0 ∷ 0 ∷ 2 ∷ []))
    ∷ on 0 written
    ∷ on 1 (payload_received (postgres (ok tt) database) (1 ∷ 2 ∷ []))
    ∷ on 0 eof
    ∷ []

main-serves_example :
    (sessions : List Phase) × (main stack_codec free_port
        (codes "sql_server" ∷ to_string 40000 ∷ [])
        (before ++ (accepted (ok (codes "10.0.0.2:5000")) ∷ after))
      ≡ running sessions)
    × (get_elem? sessions (accepted_count before)
        ≡ some (run stack_codec reading_header (events_of (accepted_count before) after)))
main-serves_example =
    main-serves stack_codec free_port (codes "sql_server") 40000 [] before (codes "10.0.0.2:5000")
      after stack_codec-DumpsAscii (omega arith) (omega arith) refl (tt, (tt, (tt, tt)))
      (tt, (tt, (λ h. cc, (tt, tt))))

parsed : parse_arguments (codes "sql_server" ∷ codes " +40000x" ∷ []) ≡ listen 40000
unfolding parse_arguments check_port eqb stoi
parsed = refl

bound_port-bounds_example : (bound_port 40000 ≡ 40000) × (1 ≤ 40000) × (40000 ≤ 65535)
bound_port-bounds_example =
    bound_port-bounds (codes "sql_server" ∷ codes " +40000x" ∷ []) 40000 parsed
