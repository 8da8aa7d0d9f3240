-- ===== src/Tests/Streams.antt =====
-- A stream query of two rows.
use hft_legacy_migration_fra.Base.{
  ◌≡◌, ◌<◌, refl, Bytes, List, [], ◌∷◌, none, some, ok, codes, length, eqb, All, arith,
}
use hft_legacy_migration_fra.Base.Run.{done}
use hft_legacy_migration_fra.Json.{text, items_of, texts, set_field, key_ltb}
use hft_legacy_migration_fra.Json.Responses.{json_serialize}
use hft_legacy_migration_fra.Server.Handlers.{
  Row, Outcome, result, postgres, metadata_chunk, row_chunk, end_chunk, row_chunks,
}
use hft_legacy_migration_fra.Client.{query_stream_over}
use hft_legacy_migration_fra.Client.Delivery.{serve}
use hft_legacy_migration_fra.Client.Stream.{print_stream_response}
use hft_legacy_migration_fra.Client.Streamed.{Shows, CellShows, stream_text}
use hft_legacy_migration_fra.Client.StreamQuery.{chunks_of, query_stream_over-serve}
use hft_legacy_migration_fra.Tests.Codecs.{program, bytes_program, stack_codec}

abbrev names : List Bytes
names = codes "id" ∷ codes "code" ∷ []

abbrev rates : List Row
rates = (some (codes "1") ∷ some (codes "EUR") ∷ []) ∷ (some (codes "2") ∷ none ∷ []) ∷ []

abbrev database : Bytes → Outcome
database query = result names rates

abbrev sql : Bytes
sql = codes "SELECT id, code FROM fx"

abbrev show : Bytes → Bytes
show s = program (text s) []

names-Shows : All (Shows stack_codec show) names
unfolding stack_codec
names-Shows = (refl, (refl, tt))

rates-CellShows : All (All (CellShows stack_codec show)) rates
unfolding stack_codec
rates-CellShows = ((refl, (refl, tt)), ((refl, (tt, tt)), tt))

abbrev dumped : Bytes
dumped = program (chunks_of names rates) []

chunks_dumped : json_serialize stack_codec (record { content = chunks_of names rates }) ≡ ok dumped
unfolding json_serialize stack_codec
chunks_dumped = refl

dumped_short : length dumped < 4294967296
unfolding program bytes_program items_of metadata_chunk row_chunks row_chunk end_chunk texts
    set_field key_ltb eqb
dumped_short = omega arith

query_stream_over-serve_example :
    (query_stream_over stack_codec (serve stack_codec (postgres (ok tt) database)) sql
      ≡ ok (record { content = chunks_of names rates }, []))
    × (print_stream_response stack_codec (chunks_of names rates)
        ≡ done (stream_text stack_codec show names rates))
query_stream_over-serve_example =
    query_stream_over-serve stack_codec show database sql dumped names rates refl names-Shows
      rates-CellShows chunks_dumped (omega arith) (omega arith) dumped_short
