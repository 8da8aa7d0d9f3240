-- ===== src/Client/StreamQuery.antt =====
-- The stream query of the client with the session of the server and the printing of the response.
use hft_legacy_migration_fra.Base.{
  ◌^◌, ◌<◌, ◌≡◌, refl, Bytes, List, [], ◌∷◌, ok, length, append-nil, All,
}
use hft_legacy_migration_fra.Base.Run.{done}
use hft_legacy_migration_fra.Protocol.{
  query_stream, response_stream, u32, type_code, request_serialize, request_deserialize,
}
use hft_legacy_migration_fra.Json.{Json, arr, items_of, Codec}
use hft_legacy_migration_fra.Json.Responses.{JsonResponse, json_serialize, json_deserialize}
use hft_legacy_migration_fra.Server.Handlers.{
  Row, Outcome, result, postgres, frame, handle_request, handle_query_stream, stream_response,
  fetch, metadata_chunk, row_chunks,
}
use hft_legacy_migration_fra.Server.Session.{reply_phase}
use hft_legacy_migration_fra.Client.{check_type, receive_stream, query_stream_over}
use hft_legacy_migration_fra.Client.Delivery.{serve, header_of, serve-send_request, receive-frame}
use hft_legacy_migration_fra.Client.Stream.{print_stream_response}
use hft_legacy_migration_fra.Client.Streamed.{
  Shows, CellShows, stream_text, print_stream_response-chunks,
}

abbrev pub chunks_of : List Bytes → List Row → Json
chunks_of columns rows = arr (items_of (metadata_chunk columns ∷ row_chunks 0 rows))

stream_reply :
    (c : Codec) (query : Bytes → Outcome) (sql s : Bytes) (columns : List Bytes) (rows : List Row)
    → query sql ≡ result columns rows
    → json_serialize c (record { content = chunks_of columns rows }) ≡ ok s
    → handle_request c (postgres (ok tt) query) (header_of query_stream sql) sql
      ≡ done (response_stream, s)
unfolding handle_request handle_query_stream stream_response fetch request_deserialize type_code
stream_reply c query sql s columns rows e d = rw (e, d)

json_read_back :
    (c : Codec) (r : JsonResponse) (s : Bytes)
    → json_serialize c r ≡ ok s
    → json_deserialize c s ≡ ok r
unfolding json_serialize json_deserialize
json_read_back c r s d = rw (c.parse_dump r.content s d) refl

-- A stream query of the client, answered by the server, is printed as the names of the columns, one
-- line for each row of the database with its number, its cells and NULL for a null, and the number
-- of rows. The names and cells can be dumped as JSON, and so can the response; there are fewer than
-- 2 ^ 31 rows, and the query and the response are shorter than 2 ^ 32 bytes.
pub query_stream_over-serve :
    (c : Codec) (show : Bytes → Bytes) (query : Bytes → Outcome) (sql s : Bytes)
    (columns : List Bytes) (rows : List Row)
    → query sql ≡ result columns rows
    → All (Shows c show) columns
    → All (All (CellShows c show)) rows
    → json_serialize c (record { content = chunks_of columns rows }) ≡ ok s
    → length rows < 2 ^ 31
    → length sql < u32
    → length s < u32
    → (query_stream_over c (serve c (postgres (ok tt) query)) sql
        ≡ ok (record { content = chunks_of columns rows }, []))
      × (print_stream_response c (chunks_of columns rows) ≡ done (stream_text c show columns rows))
unfolding query_stream_over receive_stream check_type request_serialize reply_phase type_code
query_stream_over-serve c show query sql s columns rows e hc hr d few hq small =
    let response : JsonResponse = record { content = chunks_of columns rows } in
    (
      rw
          (
            serve-send_request c (postgres (ok tt) query) query_stream sql hq,
            stream_reply c query sql s columns rows e d,
            ← append-nil (frame response_stream s),
            receive-frame response_stream s [] small,
            json_read_back c response s d,
          )
          refl,
      print_stream_response-chunks c show columns rows few hc hr,
    )
