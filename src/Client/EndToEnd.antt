-- ===== src/Client/EndToEnd.antt =====
-- What a client gets for its queries from the server.
use hft_legacy_migration_fra.Base.{
  ◌<◌, ◌≡◌, refl, Bytes, List, [], ◌++◌, map, ok, err, Exception, runtime_error, codes, length,
  append-nil, All, what,
}
use hft_legacy_migration_fra.Protocol.{
  query_raw, query_binary, response_raw, response_binary, response_error, u32, type_code,
  request_serialize, request_deserialize,
}
use hft_legacy_migration_fra.Binary.{write_table, print_binary_response, table, rows_done}
use hft_legacy_migration_fra.Binary.RoundTrip.{Fits, print-write_table}
use hft_legacy_migration_fra.Json.{Codec}
use hft_legacy_migration_fra.Json.Responses.{
  RawRowResponse, raw_serialize, raw_deserialize-raw_serialize, BinaryResponse, binary_deserialize,
  error_serialize, error_deserialize-error_serialize,
}
use hft_legacy_migration_fra.Base.Run.{done}
use hft_legacy_migration_fra.Server.Handlers.{
  Row, Outcome, result, postgres, cell_text, frame, handle_request, send_error, failed,
  handle_query_binary, handle_query_raw, binary_response, raw_response, fetch,
}
use hft_legacy_migration_fra.Server.Session.{reply_phase}
use hft_legacy_migration_fra.Client.{
  check_type, receive_raw, receive_binary, query_raw_over, query_binary_over,
}
use hft_legacy_migration_fra.Client.Delivery.{serve, header_of, serve-send_request, receive-frame}

-- What the session does with a query of a database that gives a result.
pub binary_reply :
    (c : Codec) (query : Bytes → Outcome) (sql : Bytes) (columns : List Bytes) (rows : List Row)
    → query sql ≡ result columns rows
    → handle_request c (postgres (ok tt) query) (header_of query_binary sql) sql
      ≡ done (response_binary, write_table (length columns) (map (map cell_text) rows))
unfolding handle_request handle_query_binary binary_response fetch request_deserialize type_code
binary_reply c query sql columns rows e = rw e

pub raw_reply :
    (c : Codec) (query : Bytes → Outcome) (sql s : Bytes) (columns : List Bytes) (rows : List Row)
    → query sql ≡ result columns rows
    → raw_serialize c (record { column_names = columns; rows = map (map cell_text) rows }) ≡ ok s
    → handle_request c (postgres (ok tt) query) (header_of query_raw sql) sql
      ≡ done (response_raw, s)
unfolding handle_request handle_query_raw raw_response fetch request_deserialize type_code
raw_reply c query sql s columns rows e d = rw (e, d)

-- A binary query of the client, answered by the server, shows the table of the database: for every
-- SQL text whose query gives a rectangular result, with a null cell shown as the empty text. The
-- counts, the lengths of the cells, the query and the whole response are below 2 ^ 32.
pub query_binary_over-serve :
    (c : Codec) (query : Bytes → Outcome) (sql : Bytes) (columns : List Bytes) (rows : List Row)
    → query sql ≡ result columns rows
    → length sql < u32
    → length columns < u32
    → length (map (map cell_text) rows) < u32
    → All (Fits (length columns)) (map (map cell_text) rows)
    → length (write_table (length columns) (map (map cell_text) rows)) < u32
    → (response : BinaryResponse) × (query_binary_over c (serve c (postgres (ok tt) query)) sql
        ≡ ok (response, []))
      × (print_binary_response response.bytes
          ≡ table
              (length (map (map cell_text) rows))
              (length columns)
              (rows_done (map (map cell_text) rows)))
unfolding query_binary_over receive_binary check_type request_serialize binary_deserialize
    reply_phase type_code
query_binary_over-serve c query sql columns rows e hq hc hr fits small =
    let s = write_table (length columns) (map (map cell_text) rows) in
    (
      record { bytes = s },
      rw
          (
            serve-send_request c (postgres (ok tt) query) query_binary sql hq,
            binary_reply c query sql columns rows e,
            ← append-nil (frame response_binary s),
            receive-frame response_binary s [] small,
          )
          refl,
      print-write_table (length columns) (map (map cell_text) rows) hc hr fits,
    )

-- A raw query of the client, answered by the server, returns the column names and the rows of the
-- database, a null cell as the empty text, if the response can be dumped as JSON and the query and
-- the response are shorter than 2 ^ 32 bytes.
pub query_raw_over-serve :
    (c : Codec) (query : Bytes → Outcome) (sql s : Bytes) (columns : List Bytes) (rows : List Row)
    → query sql ≡ result columns rows
    → raw_serialize c (record { column_names = columns; rows = map (map cell_text) rows }) ≡ ok s
    → length sql < u32
    → length s < u32
    → query_raw_over c (serve c (postgres (ok tt) query)) sql
      ≡ ok (record { column_names = columns; rows = map (map cell_text) rows }, [])
unfolding query_raw_over receive_raw check_type request_serialize reply_phase type_code
query_raw_over-serve c query sql s columns rows e d hq small =
    let response : RawRowResponse = record {
      column_names = columns;
      rows = map (map cell_text) rows;
    } in
    rw
      (
        serve-send_request c (postgres (ok tt) query) query_raw sql hq,
        raw_reply c query sql s columns rows e d,
        ← append-nil (frame response_raw s),
        receive-frame response_raw s [] small,
        raw_deserialize-raw_serialize c response s d,
      )
      refl

pub error_reply :
    (c : Codec) (query : Bytes → Outcome) (sql s : Bytes) (x : Exception)
    → query sql ≡ failed x
    → error_serialize c (record { error_message = codes "Query error: " ++ what x }) ≡ ok s
    → handle_request c (postgres (ok tt) query) (header_of query_raw sql) sql
      ≡ done (response_error, s)
unfolding handle_request handle_query_raw raw_response fetch request_deserialize type_code
    send_error
error_reply c query sql s x e d = rw (e, d)

-- Where the query throws, the client's raw query throws too, with the server's error text, if that
-- can be dumped as JSON and the query and the response are shorter than 2 ^ 32 bytes.
pub query_raw_over-failed :
    (c : Codec) (query : Bytes → Outcome) (sql s : Bytes) (x : Exception)
    → query sql ≡ failed x
    → error_serialize c (record { error_message = codes "Query error: " ++ what x }) ≡ ok s
    → length sql < u32
    → length s < u32
    → query_raw_over c (serve c (postgres (ok tt) query)) sql
      ≡ err (runtime_error (codes "Server error: " ++ (codes "Query error: " ++ what x)))
unfolding query_raw_over receive_raw check_type request_serialize reply_phase type_code
query_raw_over-failed c query sql s x e d hq small =
    rw
      (
        serve-send_request c (postgres (ok tt) query) query_raw sql hq,
        error_reply c query sql s x e d,
        ← append-nil (frame response_error s),
        receive-frame response_error s [] small,
        error_deserialize-error_serialize c
            (record { error_message = codes "Query error: " ++ what x }) s d,
      )
      refl
