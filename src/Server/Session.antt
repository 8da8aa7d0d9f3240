-- ===== src/Server/Session.antt =====
-- The read-handle-write cycle of `Session` in asio-sql-service/server/sql_server.hpp: `read_header`,
-- `read_payload`, `handle_request`, `send_response`. Each asynchronous operation completes by an
-- event; a read that succeeds delivers exactly as many bytes as the buffer was resized to. The
-- buffers of a write are locals of `send_response` and of its callers, which end when these return.
use hft_legacy_migration_fra.Base.{Bytes, List, [], ◌∷◌, ok, err, codes}
use hft_legacy_migration_fra.Protocol.{MessageHeader, deserialize}
use hft_legacy_migration_fra.Json.{Codec}
use hft_legacy_migration_fra.Base.Run.{Run, done, throws, undefined}
use hft_legacy_migration_fra.Server.Handlers.{Backend, Reply, frame, send_error, handle_request}

pub data Phase : Type 0 where
  reading_header : Phase
  reading_payload : MessageHeader → Phase
  -- what `async_write` was given, from buffers that live until the handler returns
  writing : Bytes → Phase
  -- the last reference to the session is gone
  closed : Phase
  -- an exception left the handler, and with it `io_context.run()`
  server_down : Phase
  undefined_behaviour : Phase

pub data Event : Type 0 where
  header_received : Bytes → Event
  -- with what the database gives meanwhile
  payload_received : Backend → Bytes → Event
  -- the whole write was done while its buffers lived
  written : Event
  -- the write goes on when its buffers are gone
  outlived : Event
  eof failure : Event

-- `send_response` of a reply, or what becomes of the server without one.
unfoldable pub reply_phase : Run Reply → Phase
reply_phase (done (type, payload)) = writing (frame type payload)
reply_phase (throws e) = server_down
reply_phase undefined = undefined_behaviour

-- The completion handler of the header's read.
unfoldable pub on_header : Codec → Bytes → Phase
unfolding reply_phase
on_header c bytes = elim (deserialize bytes) [
  | ok header ↦ reading_payload header
  | err e ↦ reply_phase (send_error c (codes "Invalid message header"))
]

-- An event that the phase does not wait for does not occur; the phase stays.
unfoldable pub step : Codec → Phase → Event → Phase
unfolding on_header reply_phase
step c reading_header (header_received bytes) = on_header c bytes
step c reading_header eof = closed
step c reading_header failure = closed
step c reading_header (payload_received b bytes) = reading_header
step c reading_header written = reading_header
step c reading_header outlived = reading_header
step c (reading_payload header) (payload_received b bytes) =
    reply_phase (handle_request c b header bytes)
step c (reading_payload header) eof = closed
step c (reading_payload header) failure = closed
step c (reading_payload header) (header_received bytes) = reading_payload header
step c (reading_payload header) written = reading_payload header
step c (reading_payload header) outlived = reading_payload header
step c (writing out) written = reading_header
step c (writing out) outlived = undefined_behaviour
step c (writing out) failure = closed
step c (writing out) eof = closed
step c (writing out) (header_received bytes) = writing out
step c (writing out) (payload_received b bytes) = writing out
step c closed e = closed
step c server_down e = server_down
step c undefined_behaviour e = undefined_behaviour

unfoldable pub run : Codec → Phase → List Event → Phase
unfolding step
run c p [] = p
run c p (e ∷ es) = run c (step c p e) es
