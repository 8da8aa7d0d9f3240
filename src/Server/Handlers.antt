-- ===== src/Server/Handlers.antt =====
-- The request handlers of `Session` in asio-sql-service/server/sql_server.hpp. The build without
-- WITH_POSTGRESQL answers from fixed data (`mock`). In the build with it the connection is a
-- parameter, as the code names a class of another interface than the repository's: what its creation
-- and `connect()` give, and for each SQL text what `createStatement` and `executeQuery` give. What the
-- handlers print on std::cout and std::cerr is not modelled.
use hft_legacy_migration_fra.Base.{
  ℕ, ◌+◌, ◌%◌, Bytes, List, [], ◌∷◌, ◌++◌, map, Option, none, some, Exception, Result, codes,
  length, what, ◌==◌, if◌then◌else◌,
}
use hft_legacy_migration_fra.Base.Run.{Run, done, throws, undefined, ◌>>=◌, try_catch, lift}
use hft_legacy_migration_fra.Protocol.{
  MessageType, query_raw, query_json, query_binary, query_stream, response_raw, response_json,
  response_binary, response_stream, response_error, MessageHeader, u32, type_code, serialize,
  write_u32, request_deserialize,
}
use hft_legacy_migration_fra.Binary.{write_table, write_cell}
use hft_legacy_migration_fra.Json.{
  Json, null, num, text, arr, obj, nil, cons, Fields, end, Codec, set_field, items_of, texts,
}
use hft_legacy_migration_fra.Json.Responses.{
  RawRowResponse, raw_serialize, json_serialize, error_serialize,
}

-- A cell is `none` where `isNull` holds.
abbrev pub Row : Type 0
Row = List (Option Bytes)

-- What a query gives: `executeQuery` returns a null pointer when libpq refuses the statement.
pub data Outcome : Type 0 where
  result : List Bytes → List Row → Outcome
  null_result : Outcome
  failed : Exception → Outcome

-- The build, and in that with PostgreSQL what the database gives while a request is handled: first for
-- `if (!db_connection_)` with the creation of the connection and its `connect()`, which gives the unit
-- where the session has a connection already, and then for each SQL text.
pub data Backend : Type 0 where
  mock : Backend
  postgres : Result (Unit {0}) → (Bytes → Outcome) → Backend

abbrev pub Reply : Type 0
Reply = MessageType × Bytes

-- `result->getColumnCount()` on a null pointer is undefined.
unfoldable pub fetch : Outcome → Run (List Bytes × List Row)
fetch (result columns rows) = done (columns, rows)
fetch null_result = undefined
fetch (failed e) = throws e

abbrev pub cell_text : Option Bytes → Bytes
cell_text none = []
cell_text (some s) = s

abbrev pub cell_json : Option Bytes → Json
cell_json none = null
cell_json (some s) = text s

-- The header and the payload that `send_response` writes in one go.
unfoldable pub frame : MessageType → Bytes → Bytes
frame type payload =
    serialize (record { message_type = type_code type; payload_size = length payload % u32 })
    ++ payload

unfoldable pub send_error : Codec → Bytes → Run Reply
send_error c message = do
  s ← lift (error_serialize c (record { error_message = message }))
  done (response_error, s)

-- `row_obj[col_name] = …` over the columns.
unfoldable pub row_fields : List Bytes → Row → Fields → Fields
row_fields [] cells fields = fields
row_fields (name ∷ columns) [] fields = fields
row_fields (name ∷ columns) (cell ∷ cells) fields =
    row_fields columns cells (set_field name (cell_json cell) fields)

-- `row_obj` of a row: it is null until a key is set.
unfoldable pub row_object : List Bytes → Row → Json
unfolding row_fields
row_object [] cells = null
row_object (name ∷ columns) cells = obj (row_fields (name ∷ columns) cells end)

unfoldable pub mock_rows : List (List Bytes)
mock_rows =
    (codes "1" ∷ codes "test1" ∷ codes "100" ∷ [])
    ∷ (codes "2" ∷ codes "test2" ∷ codes "200" ∷ [])
    ∷ (codes "3" ∷ codes "test3" ∷ codes "300" ∷ [])
    ∷ []

unfoldable pub raw_response : Backend → Bytes → Run RawRowResponse
unfolding mock_rows fetch
raw_response mock sql =
    done
      (record { column_names = codes "id" ∷ codes "name" ∷ codes "value" ∷ []; rows = mock_rows })
raw_response (postgres connected query) sql = do
  opened ← lift connected
  (columns, rows) ← fetch (query sql)
  done (record { column_names = columns; rows = map (map cell_text) rows })

unfoldable pub handle_query_raw : Codec → Backend → Bytes → Run Reply
unfolding raw_response
handle_query_raw c b payload =
    try_catch
      (do
        response ← raw_response b (request_deserialize payload).sql
        s ← lift (raw_serialize c response)
        done (response_raw, s))
      (λ e. send_error c (codes "Query error: " ++ what e))

unfoldable pub mock_object : ℕ → Bytes → ℕ → Json
unfolding set_field
mock_object id name value = obj (
    set_field (codes "value") (num value)
      (set_field (codes "name") (text name) (set_field (codes "id") (num id) end)))

unfoldable pub json_response : Backend → Bytes → Run Json
unfolding mock_object fetch items_of row_object
json_response mock sql =
    done (
      arr (cons (mock_object 1 (codes "test1") 100) (cons (mock_object 2 (codes "test2") 200) nil)))
json_response (postgres connected query) sql = do
  opened ← lift connected
  (columns, rows) ← fetch (query sql)
  done (arr (items_of (map (row_object columns) rows)))

unfoldable pub handle_query_json : Codec → Backend → Bytes → Run Reply
unfolding json_response
handle_query_json c b payload =
    try_catch
      (do
        response ← json_response b (request_deserialize payload).sql
        s ← lift (json_serialize c (record { content = response }))
        done (response_json, s))
      (λ e. send_error c (codes "Query error: " ++ what e))

unfoldable pub mock_cells : List Bytes
mock_cells = codes "1" ∷ codes "test1" ∷ codes "100" ∷ codes "2" ∷ codes "test2" ∷ codes "200" ∷ []

unfoldable pub mock_binary : Bytes
unfolding mock_cells
mock_binary = write_u32 2 ++ (write_u32 3 ++ go mock_cells)
  where
    go : List Bytes → Bytes
    go [] = []
    go (cell ∷ cells) = write_cell cell ++ go cells

unfoldable pub binary_response : Backend → Bytes → Run Bytes
unfolding mock_binary fetch
binary_response mock sql = done mock_binary
binary_response (postgres connected query) sql = do
  opened ← lift connected
  (columns, rows) ← fetch (query sql)
  done (write_table (length columns) (map (map cell_text) rows))

unfoldable pub handle_query_binary : Codec → Backend → Bytes → Run Reply
unfolding binary_response
handle_query_binary c b payload =
    try_catch
      (do s ← binary_response b (request_deserialize payload).sql; done (response_binary, s))
      (λ e. send_error c (codes "Binary query error: " ++ what e))

unfoldable pub metadata_chunk : List Bytes → Json
unfolding set_field
metadata_chunk columns = obj (
    set_field (codes "columns") (arr (texts columns))
      (set_field (codes "type") (text (codes "metadata")) end))

unfoldable pub row_chunk : ℕ → List Json → Json
unfolding set_field
row_chunk index cells = obj (
    set_field (codes "data") (arr (items_of cells))
      (set_field (codes "index") (num index) (set_field (codes "type") (text (codes "row")) end)))

unfoldable pub end_chunk : ℕ → Json
unfolding set_field
end_chunk total =
    obj (
      set_field (codes "total_rows") (num total)
        (set_field (codes "type") (text (codes "end")) end))

-- The loop over the rows, with `row_count`; the end marker carries the count that it reached.
unfoldable pub row_chunks : ℕ → List Row → List Json
row_chunks row_count [] = end_chunk row_count ∷ []
row_chunks row_count (cells ∷ rows) =
    row_chunk row_count (map cell_json cells) ∷ row_chunks (row_count + 1) rows

unfoldable pub stream_response : Backend → Bytes → Run Json
unfolding row_chunks row_chunk end_chunk metadata_chunk fetch
stream_response mock sql = done (
    arr (
      items_of (
        metadata_chunk (codes "id" ∷ codes "name" ∷ codes "value" ∷ [])
        ∷ row_chunk 0 (num 1 ∷ text (codes "test1") ∷ num 100 ∷ [])
        ∷ row_chunk 1 (num 2 ∷ text (codes "test2") ∷ num 200 ∷ [])
        ∷ end_chunk 2
        ∷ [])))
stream_response (postgres connected query) sql = do
  opened ← lift connected
  (columns, rows) ← fetch (query sql)
  done (arr (items_of (metadata_chunk columns ∷ row_chunks 0 rows)))

unfoldable pub handle_query_stream : Codec → Backend → Bytes → Run Reply
unfolding stream_response
handle_query_stream c b payload =
    try_catch
      (do
        response ← stream_response b (request_deserialize payload).sql
        s ← lift (json_serialize c (record { content = response }))
        done (response_stream, s))
      (λ e. send_error c (codes "Stream query error: " ++ what e))

-- The switch over `static_cast<MessageType>(header.message_type)`.
unfoldable pub dispatch : Codec → Backend → ℕ → Bytes → Run Reply
dispatch c b type payload =
    if type == type_code query_raw
    then handle_query_raw c b payload
    else if type == type_code query_json
    then handle_query_json c b payload
    else if type == type_code query_binary
    then handle_query_binary c b payload
    else if type == type_code query_stream
    then handle_query_stream c b payload
    else send_error c (codes "Unknown message type")

unfoldable pub handle_request : Codec → Backend → MessageHeader → Bytes → Run Reply
unfolding dispatch
handle_request c b header payload =
    try_catch (dispatch c b header.message_type payload)
      (λ e. send_error c (codes "Request handling error: " ++ what e))
