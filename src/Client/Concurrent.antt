-- ===== src/Client/Concurrent.antt =====
-- A client among the other clients of the server's program.
use hft_legacy_migration_fra.Base.{
  ℕ, ◌<◌, ◌≤◌, ◌≡◌, refl, ap, ◌∙◌, Bytes, List, [], ◌∷◌, ◌++◌, some, map, Result, ok, get_elem?,
  length, take, drop, All, to_string,
}
use hft_legacy_migration_fra.Protocol.{header_size, u32, query_raw, request_serialize}
use hft_legacy_migration_fra.Json.{Codec}
use hft_legacy_migration_fra.Json.Responses.{raw_serialize}
use hft_legacy_migration_fra.Server.Handlers.{Row, Outcome, result, postgres, cell_text}
use hft_legacy_migration_fra.Server.Session.{
  Phase, reading_header, header_received, payload_received, run,
}
use hft_legacy_migration_fra.Server.Safety.{DumpsAscii}
use hft_legacy_migration_fra.Server.Acceptor.{ServerEvent, running, accepted, main}
use hft_legacy_migration_fra.Server.Isolation.{PeerKnown, accepted_count, events_of}
use hft_legacy_migration_fra.Server.Listening.{main-serves}
use hft_legacy_migration_fra.Client.{send_request, receive_raw, query_raw_over}
use hft_legacy_migration_fra.Client.Delivery.{output, serve}
use hft_legacy_migration_fra.Client.EndToEnd.{query_raw_over-serve}

abbrev pub request_of : Bytes → Bytes
request_of sql = send_request query_raw (request_serialize (record { sql = sql }))

run-request :
    (c : Codec) (query : Bytes → Outcome) (request : Bytes)
    → output (
        run c reading_header (
          header_received (take header_size request)
          ∷ payload_received (postgres (ok tt) query) (drop header_size request)
          ∷ []))
      ≡ serve c (postgres (ok tt) query) request
unfolding run serve
run-request c query request = refl

-- A client that the server's program has accepted and that has sent a raw query, which the database
-- answers with a result, is written the columns and rows of the database for it, and the server is
-- still running, whichever other clients connect, send or leave before and meanwhile. Of all events it
-- is supposed that the address of every accepted peer is known, that no statement that reaches
-- PostgreSQL gives a null result, and that no write outlives its buffers. The JSON library dumps the
-- response and all ASCII texts and throws exceptions with such texts only; the client's session has a
-- connection or gets one, and the query and its response are shorter than 2 ^ 32 bytes.
pub main-answers :
    (c : Codec) (query : Bytes → Outcome) (open_port : ℕ → Result (Unit {0})) (program : Bytes)
    (port : ℕ) (more : List Bytes) (before : List ServerEvent) (peer : Bytes)
    (after : List ServerEvent) (sql s : Bytes) (columns : List Bytes) (rows : List Row)
    → DumpsAscii c
    → 1 ≤ port
    → port ≤ 65535
    → open_port port ≡ ok tt
    → All PeerKnown before
    → All PeerKnown after
    → events_of (accepted_count before) after
      ≡ header_received (take header_size (request_of sql))
        ∷ payload_received (postgres (ok tt) query) (drop header_size (request_of sql))
        ∷ []
    → query sql ≡ result columns rows
    → raw_serialize c (record { column_names = columns; rows = map (map cell_text) rows }) ≡ ok s
    → length sql < u32
    → length s < u32
    → (sessions : List Phase) × (p : Phase) × (main c open_port
          (program ∷ to_string port ∷ more)
          (before ++ (accepted (ok peer) ∷ after))
        ≡ running sessions)
      × (get_elem? sessions (accepted_count before) ≡ some p)
      × (receive_raw c (output p)
          ≡ ok (record { column_names = columns; rows = map (map cell_text) rows }, []))
main-answers c query open_port program port more before peer after sql s columns rows laws low high
      opened known known_after asked given dumps short small =
    let (sessions, runs, found) =
      main-serves c open_port program port more before peer after laws low high opened known
        known_after in
    let answered : output (run c reading_header (events_of (accepted_count before) after))
        ≡ serve c (postgres (ok tt) query) (request_of sql) =
      ap (λ es. output (run c reading_header es)) asked ∙ run-request c query (request_of sql) in
    let got : receive_raw c (serve c (postgres (ok tt) query) (request_of sql))
        ≡ ok (record { column_names = columns; rows = map (map cell_text) rows }, []) =
      unfold query_raw_over in
      query_raw_over-serve c query sql s columns rows given dumps short small in
    (sessions, _, runs, found, ap (receive_raw c) answered ∙ got)
