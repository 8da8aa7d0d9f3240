-- ===== src/Tests/Concurrent.antt =====
-- A raw query of the second of two clients.
use hft_legacy_migration_fra.Base.{
  ◌≡◌, refl, List, [], ◌∷◌, ◌++◌, some, map, ok, codes, get_elem?, take, drop, arith, to_string,
}
use hft_legacy_migration_fra.Protocol.{header_size}
use hft_legacy_migration_fra.Server.Handlers.{postgres, cell_text}
use hft_legacy_migration_fra.Server.Session.{Phase, header_received, payload_received, written, eof}
use hft_legacy_migration_fra.Server.Acceptor.{ServerEvent, running, accepted, on, main}
use hft_legacy_migration_fra.Server.Isolation.{accepted_count, events_of}
use hft_legacy_migration_fra.Client.{receive_raw}
use hft_legacy_migration_fra.Client.Delivery.{output}
use hft_legacy_migration_fra.Client.Concurrent.{request_of, main-answers}
use hft_legacy_migration_fra.Tests.Codecs.{stack_codec}
use hft_legacy_migration_fra.Tests.Service.{
  stack_codec-DumpsAscii, database, sql, names, rates, raw_text, raw_dumped, raw_text_short,
}
use hft_legacy_migration_fra.Tests.Acceptor.{free_port, before}

abbrev after : List ServerEvent
after =
    on 1 (header_received (take header_size (request_of sql)))
    ∷ on 0 written
    ∷ accepted (ok (codes "10.0.0.3:6000"))
    ∷ on 1 (payload_received (postgres (ok tt) database) (drop header_size (request_of sql)))
    ∷ on 0 eof
    ∷ []

asked :
    events_of (accepted_count before) after
    ≡ header_received (take header_size (request_of sql))
      ∷ payload_received (postgres (ok tt) database) (drop header_size (request_of sql))
      ∷ []
unfolding events_of accepted_count
asked = refl

main-answers_example :
    (sessions : List Phase) × (p : Phase) × (main stack_codec free_port
        (codes "sql_server" ∷ to_string 40000 ∷ [])
        (before ++ (accepted (ok (codes "10.0.0.2:5000")) ∷ after))
      ≡ running sessions)
    × (get_elem? sessions (accepted_count before) ≡ some p)
    × (receive_raw stack_codec (output p)
        ≡ ok (record { column_names = names; rows = map (map cell_text) rates }, []))
main-answers_example =
    main-answers stack_codec database free_port (codes "sql_server") 40000 [] before
      (codes "10.0.0.2:5000") after sql raw_text names rates stack_codec-DumpsAscii (omega arith)
      (omega arith) refl (tt, (tt, (tt, tt))) (tt, (tt, (tt, (λ h. cc, (tt, tt))))) asked refl
      raw_dumped (omega arith) raw_text_short
