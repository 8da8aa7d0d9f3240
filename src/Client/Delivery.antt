-- ===== src/Client/Delivery.antt =====
-- A connection between the client and the server that loses and reorders no byte.
use hft_legacy_migration_fra.Base.{
  ◌%◌, ◌<◌, ◌≡◌, refl, Bytes, List, [], ◌∷◌, ◌++◌, ok, length, take, drop, take_append, drop_append,
  length-append, append_assoc, append-nil, false, arith, ltb, if◌then◌else◌,
}
use hft_legacy_migration_fra.Protocol.{
  MessageType, MessageHeader, header_size, u32, type_code, serialize, deserialize, write_u32,
}
use hft_legacy_migration_fra.Protocol.RoundTrip.{deserialize-serialize}
use hft_legacy_migration_fra.Json.{Codec}
use hft_legacy_migration_fra.Base.Run.{done}
use hft_legacy_migration_fra.Server.Handlers.{Backend, frame, handle_request}
use hft_legacy_migration_fra.Server.Session.{
  Phase, reading_header, reading_payload, writing, closed, server_down, undefined_behaviour,
  header_received, payload_received, written, step, on_header, reply_phase,
}
use hft_legacy_migration_fra.Client.{read, send_request, receive_response}

-- What a session writes in a phase.
abbrev pub output : Phase → Bytes
output reading_header = []
output (reading_payload header) = []
output (writing out) = out
output closed = []
output server_down = []
output undefined_behaviour = []

-- What a session writes for a request, of which the first five bytes complete the header's read and the
-- rest that of the payload; it reaches the client if the write does not outlive its buffers.
unfoldable pub serve : Codec → Backend → Bytes → Bytes
serve c b request = output (
    step c (step c reading_header (header_received (take header_size request)))
      (payload_received b (drop header_size request)))

-- The session as the peer of a client, with what the database gives while each request is handled: its
-- write is done before the next request, and the session goes on from there.
unfoldable pub exchange : Codec → Phase × List Backend → Bytes → Bytes × (Phase × List Backend)
exchange c (p, []) request = ([], (p, []))
exchange c (p, b ∷ bs) request =
    let q =
      step c (step c p (header_received (take header_size request)))
        (payload_received b (drop header_size request)) in
    (output q, (step c q written, bs))

length-serialize : (h : MessageHeader) → length (serialize h) ≡ header_size
unfolding serialize write_u32
length-serialize h = refl

take-serialize :
    (h : MessageHeader) (rest : Bytes) → take header_size (serialize h ++ rest) ≡ serialize h
unfolding serialize write_u32
take-serialize h rest = refl

drop-serialize : (h : MessageHeader) (rest : Bytes) → drop header_size (serialize h ++ rest) ≡ rest
unfolding serialize write_u32
drop-serialize h rest = refl

deserialize-alone : (h : MessageHeader) → h.payload_size < u32 → deserialize (serialize h) ≡ ok h
unfolding serialize write_u32
deserialize-alone h fits = deserialize-serialize h [] fits

on_header-serialize :
    (c : Codec) (h : MessageHeader)
    → h.payload_size < u32
    → on_header c (serialize h) ≡ reading_payload h
unfolding on_header
on_header-serialize c h fits = rw (deserialize-alone h fits, on_header)

-- The header of a text of so many bytes.
abbrev pub header_of : MessageType → Bytes → MessageHeader
header_of type payload = record { message_type = type_code type; payload_size = length payload }

small_size : (payload : Bytes) → length payload < u32 → length payload % u32 ≡ length payload
small_size payload fits = omega arith

-- The server receives a request's type and payload as the client sent them.
pub serve-send_request :
    (c : Codec) (b : Backend) (type : MessageType) (payload : Bytes)
    → length payload < u32
    → serve c b (send_request type payload)
      ≡ output (reply_phase (handle_request c b (header_of type payload) payload))
unfolding serve send_request step
serve-send_request c b type payload fits =
    let h = header_of type payload in
    rw (
      small_size payload fits,
      take-serialize h payload,
      drop-serialize h payload,
      on_header-serialize c h fits,
    )

read-append : (front rest : Bytes) → read (length front) (front ++ rest) ≡ ok (front, rest)
unfolding read
read-append front rest =
    let enough : ltb (length (front ++ rest)) (length front) ≡ false =
      ground (arith, length-append front rest) in
    rw (enough, take_append, drop_append)

read-serialize :
    (h : MessageHeader) (rest : Bytes)
    → read header_size (serialize h ++ rest) ≡ ok (serialize h, rest)
unfolding serialize write_u32
read-serialize h rest = read-append (serialize h) rest

-- The payload is read in any case: nothing is left of an empty one.
read-payload :
    (payload rest : Bytes)
    → (if ltb 0 (length payload)
        then read (length payload) (payload ++ rest)
        else ok ([], payload ++ rest))
      ≡ ok (payload, rest)
read-payload [] rest = refl
read-payload (x ∷ payload) rest = ground (arith, read-append (x ∷ payload) rest)

-- The client receives a response's type and payload as the server wrote them.
pub receive-frame :
    (type : MessageType) (payload rest : Bytes)
    → length payload < u32
    → receive_response (frame type payload ++ rest) ≡ ok ((header_of type payload, payload), rest)
unfolding receive_response frame
receive-frame type payload rest fits =
    let h = header_of type payload in
    rw (
      small_size payload fits,
      append_assoc (serialize h) payload rest,
      read-serialize h (payload ++ rest),
      deserialize-alone h fits,
      read-payload payload rest,
    )

-- The client receives the reply to a request whole, and nothing is left of the stream.
pub receive-serve :
    (c : Codec) (b : Backend) (type reply : MessageType) (sql s : Bytes)
    → handle_request c b (header_of type sql) sql ≡ done (reply, s)
    → length sql < u32
    → length s < u32
    → receive_response (serve c b (send_request type sql)) ≡ ok ((header_of reply s, s), [])
unfolding reply_phase
receive-serve c b type reply sql s h hq small =
    rw
      (
        serve-send_request c b type sql hq,
        h,
        ← append-nil (frame reply s),
        receive-frame reply s [] small,
      )
      refl

-- The peer sends what the session writes for the request, and then waits for the next one.
pub exchange-serve :
    (c : Codec) (b : Backend) (bs : List Backend) (type reply : MessageType) (sql s : Bytes)
    → handle_request c b (header_of type sql) sql ≡ done (reply, s)
    → length sql < u32
    → exchange c (reading_header, b ∷ bs) (send_request type sql)
      ≡ (serve c b (send_request type sql), (reading_header, bs))
unfolding exchange serve send_request step reply_phase
exchange-serve c b bs type reply sql s answered fits =
    let h = header_of type sql in
    rw
      (
        small_size sql fits,
        take-serialize h sql,
        drop-serialize h sql,
        on_header-serialize c h fits,
        answered,
      )
      refl
