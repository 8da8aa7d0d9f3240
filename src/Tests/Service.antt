-- ===== src/Tests/Service.antt =====
-- Requests and responses of the SQL service.
use hft_legacy_migration_fra.Base.{
  ◌<◌, ◌≡◌, ◌≢◌, ◌⊎◌, refl, Bytes, List, [], ◌∷◌, ◌++◌, none, some, ok, err, Exception,
  db_exception, codes, length, arith, All, eqb,
}
use hft_legacy_migration_fra.Protocol.{deserialize, serialize, write_u32, response_error}
use hft_legacy_migration_fra.Protocol.RoundTrip.{deserialize-serialize}
use hft_legacy_migration_fra.Binary.{
  write_rows, write_row, write_cell, write_table, print_binary_response, table, rows_done,
}
use hft_legacy_migration_fra.Binary.Bounds.{StaysInside, print_binary_response_safe}
use hft_legacy_migration_fra.Binary.RoundTrip.{Fits, print-write_table}
use hft_legacy_migration_fra.Json.{set_field, texts, text_rows, key_ltb}
use hft_legacy_migration_fra.Json.Responses.{
  raw_document, error_document, RawRowResponse, ErrorResponse, raw_serialize, error_serialize,
}
use hft_legacy_migration_fra.Server.Handlers.{Row, Outcome, result, failed, postgres, Reply, frame}
use hft_legacy_migration_fra.Server.Session.{
  Event, reading_header, reading_payload, writing, header_received, payload_received, written, eof,
  step, run,
}
use hft_legacy_migration_fra.Server.Safety.{
  one_reply, run-IsServing, IsServing, DumpsAscii, response_to,
}
use hft_legacy_migration_fra.Tests.Codecs.{stack_codec, program, bytes_program}

abbrev pub two_rows : List (List Bytes)
two_rows = (codes "1" ∷ codes "EUR" ∷ []) ∷ (codes "2" ∷ [] ∷ []) ∷ []

abbrev pub names : List Bytes
names = codes "id" ∷ codes "code" ∷ []

abbrev pub rates : List Row
rates = (some (codes "1") ∷ some (codes "EUR") ∷ []) ∷ (some (codes "2") ∷ none ∷ []) ∷ []

abbrev pub sql : Bytes
sql = codes "SELECT id, code FROM fx"

abbrev pub database : Bytes → Outcome
database query = result names rates

abbrev broken : Bytes → Outcome
broken query = failed (db_exception (codes "no such table"))

pub stack_codec-DumpsAscii : DumpsAscii stack_codec
unfolding error_serialize stack_codec
stack_codec-DumpsAscii = record {
  dumps = λ message e ascii h. ok_ne_err h;
  complains = λ j e h. absurd (ok_ne_err h);
}
  where
    ok_ne_err : {x : Bytes} {e : Exception} → ok x ≢ err e
    ok_ne_err p = cc

pub two_rows-Fits : All (Fits 2) two_rows
two_rows-Fits =
    ((refl, (omega arith, (omega arith, tt))), ((refl, (omega arith, (omega arith, tt))), tt))

abbrev raw_answer : RawRowResponse
raw_answer = record { column_names = names; rows = two_rows }

abbrev pub raw_text : Bytes
raw_text = program (raw_document raw_answer) []

pub raw_dumped : raw_serialize stack_codec raw_answer ≡ ok raw_text
unfolding raw_serialize stack_codec
raw_dumped = refl

pub raw_text_short : length raw_text < 4294967296
unfolding raw_document program bytes_program set_field texts text_rows key_ltb eqb
raw_text_short = omega arith

abbrev pub error_answer : Bytes → ErrorResponse
error_answer message = record { error_message = message }

abbrev pub error_text : Bytes → Bytes
error_text message = program (error_document (error_answer message)) []

pub error_dumped :
    (message : Bytes) → error_serialize stack_codec (error_answer message) ≡ ok (error_text message)
unfolding error_serialize stack_codec
error_dumped message = refl

pub error_text_short : length (error_text (codes "Query error: no such table")) < 4294967296
unfolding error_document program bytes_program set_field
error_text_short = omega arith

abbrev malformed : Bytes
malformed = 3 ∷ 0 ∷ 0 ∷ 1 ∷ 4 ∷ 7 ∷ []

deserialize-serialize_example :
    deserialize (serialize (record { message_type = 3; payload_size = 23 }) ++ sql)
    ≡ ok (record { message_type = 3; payload_size = 23 })
deserialize-serialize_example =
    deserialize-serialize (record { message_type = 3; payload_size = 23 }) sql (omega arith)

print_binary_response_safe_example :
    StaysInside (print_binary_response (0 ∷ 0 ∷ 0 ∷ 9 ∷ 0 ∷ 0 ∷ 0 ∷ 2 ∷ 0 ∷ []))
print_binary_response_safe_example =
    print_binary_response_safe (0 ∷ 0 ∷ 0 ∷ 9 ∷ 0 ∷ 0 ∷ 0 ∷ 2 ∷ 0 ∷ [])

print-write_table_example :
    print_binary_response (write_table 2 two_rows) ≡ table 2 2 (rows_done two_rows)
print-write_table_example = print-write_table 2 two_rows (omega arith) (omega arith) two_rows-Fits

one_reply_example :
    (reply : Reply) × (step stack_codec
        (reading_payload (record { message_type = 2; payload_size = 23 }))
        (payload_received (postgres (err (db_exception (codes "refused"))) broken) sql)
      ≡ writing (frame reply.0 reply.1))
    × ((reply.0 ≡ response_to 2) ⊎ (reply.0 ≡ response_error))
one_reply_example =
    one_reply stack_codec stack_codec-DumpsAscii
      (postgres (err (db_exception (codes "refused"))) broken)
      (record { message_type = 2; payload_size = 23 }) sql (λ h. cc)

abbrev some_events : List Event
some_events =
    header_received (1 ∷ 0 ∷ [])
    ∷ written
    ∷ header_received (9 ∷ 0 ∷ 0 ∷ 0 ∷ 2 ∷ [])
    ∷ payload_received (postgres (ok tt) broken) (1 ∷ 2 ∷ [])
    ∷ written
    ∷ header_received (1 ∷ 0 ∷ 0 ∷ 0 ∷ 1 ∷ [])
    ∷ payload_received (postgres (ok tt) database) (200 ∷ [])
    ∷ eof
    ∷ []

run-IsServing_example : IsServing (run stack_codec reading_header some_events)
run-IsServing_example =
    run-IsServing stack_codec stack_codec-DumpsAscii some_events reading_header
      (tt, (tt, (tt, (λ h. cc, (tt, (tt, (λ h. cc, (tt, tt)))))))) tt

pub written_short : length (write_table 2 two_rows) < 4294967296
unfolding write_table write_rows write_row write_cell write_u32
written_short = omega arith
