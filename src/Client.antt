-- ===== src/Client.antt =====
-- asio-sql-service/client/sql_client.hpp: `SqlClient`. The socket is the bytes that the server
-- has sent and that are not yet read; a read that finds too few throws, as `boost::asio::read` does
-- at the end of the stream. `connect` and `disconnect` only call the socket and are not modelled.
pub mod Delivery
pub mod EndToEnd
pub mod Console
pub mod Interactive
pub mod Stream
pub mod Streamed
pub mod StreamQuery
pub mod Program
pub mod Concurrent
pub mod Asked
pub mod Dialog
use hft_legacy_migration_fra.Base.{
  ℕ, zero, suc, ◌+◌, ◌%◌, Bytes, List, [], ◌∷◌, ◌++◌, Result, ok, err, runtime_error, foreign,
  codes, length, ltb, ◌==◌, if◌then◌else◌, take, drop, ◌>>=◌, ◌>>◌,
}
use hft_legacy_migration_fra.Protocol.{
  MessageType, query_raw, query_json, query_binary, query_stream, response_raw, response_json,
  response_binary, response_stream, response_error, MessageHeader, header_size, u32, type_code,
  serialize, deserialize, request_serialize,
}
use hft_legacy_migration_fra.Json.{Codec}
use hft_legacy_migration_fra.Json.Responses.{
  RawRowResponse, raw_deserialize, JsonResponse, json_deserialize, BinaryResponse,
  binary_deserialize, ErrorResponse, error_deserialize,
}

-- `boost::asio::read` into a buffer of `n` bytes.
unfoldable pub read : ℕ → Bytes → Result (Bytes × Bytes)
read n stream =
    if ltb (length stream) n then err (foreign 2 []) else ok (take n stream, drop n stream)

-- The bytes that `send_request` writes: the header, then the payload.
unfoldable pub send_request : MessageType → Bytes → Bytes
send_request type payload =
    serialize (record { message_type = type_code type; payload_size = length payload % u32 })
    ++ payload

unfoldable pub receive_response : Bytes → Result ((MessageHeader × Bytes) × Bytes)
receive_response stream = do
  (header_buffer, rest) ← read header_size stream
  header ← deserialize header_buffer
  (payload, rest') ←
      (if ltb 0 header.payload_size then read header.payload_size rest else ok ([], rest))
  ok ((header, payload), rest')

-- The two tests on the type of the response that every query makes before it reads the payload.
unfoldable pub check_type : Codec → MessageType → MessageHeader → Bytes → Result (Unit {0})
check_type c expected header payload =
    if header.message_type == type_code response_error
    then (do
      error ← error_deserialize c payload
      err (runtime_error (codes "Server error: " ++ error.error_message)))
    else if header.message_type == type_code expected
    then ok tt
    else err (runtime_error (codes "Unexpected response type"))

-- The part of a query behind `send_request`: the response, and what is left of the stream.
unfoldable pub receive_raw : Codec → Bytes → Result (RawRowResponse × Bytes)
receive_raw c stream = do
  ((header, payload), rest) ← receive_response stream
  check_type c response_raw header payload
  response ← raw_deserialize c payload
  ok (response, rest)

unfoldable pub receive_json : Codec → Bytes → Result (JsonResponse × Bytes)
receive_json c stream = do
  ((header, payload), rest) ← receive_response stream
  check_type c response_json header payload
  response ← json_deserialize c payload
  ok (response, rest)

unfoldable pub receive_binary : Codec → Bytes → Result (BinaryResponse × Bytes)
receive_binary c stream = do
  ((header, payload), rest) ← receive_response stream
  check_type c response_binary header payload
  ok (binary_deserialize payload, rest)

unfoldable pub receive_stream : Codec → Bytes → Result (JsonResponse × Bytes)
receive_stream c stream = do
  ((header, payload), rest) ← receive_response stream
  check_type c response_stream header payload
  response ← json_deserialize c payload
  ok (response, rest)

-- A query over a connection: what the client sends goes through `peer`, which gives the bytes that
-- come back.
unfoldable pub query_raw_over : Codec → (Bytes → Bytes) → Bytes → Result (RawRowResponse × Bytes)
query_raw_over c peer sql =
    receive_raw c (peer (send_request query_raw (request_serialize (record { sql = sql }))))

unfoldable pub query_json_over : Codec → (Bytes → Bytes) → Bytes → Result (JsonResponse × Bytes)
query_json_over c peer sql =
    receive_json c (peer (send_request query_json (request_serialize (record { sql = sql }))))

unfoldable pub query_binary_over : Codec → (Bytes → Bytes) → Bytes → Result (BinaryResponse × Bytes)
query_binary_over c peer sql =
    receive_binary c (peer (send_request query_binary (request_serialize (record { sql = sql }))))

unfoldable pub query_stream_over : Codec → (Bytes → Bytes) → Bytes → Result (JsonResponse × Bytes)
query_stream_over c peer sql =
    receive_stream c (peer (send_request query_stream (request_serialize (record { sql = sql }))))
