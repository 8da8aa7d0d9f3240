-- ===== src/Server/Safety.antt =====
-- A session answers each request with one reply, unless a query gives a null result.
use hft_legacy_migration_fra.Base.{
  ℕ, ◌<◌, ◌≡◌, ◌≢◌, ◌⊎◌, inl, inr, refl, sym, ap, subst, Bytes, Bool, true, ◌&&◌, List, [], ◌∷◌,
  ◌++◌, Option, Result, ok, err, Exception, arith, codes, what, ◌∙◌, Result-cases, All, ltb, ◌==◌,
  if◌then◌else◌,
}
use hft_legacy_migration_fra.Protocol.{
  MessageType, response_raw, response_json, response_binary, response_stream, response_error,
  MessageHeader, type_code, request_deserialize, deserialize,
}
use hft_legacy_migration_fra.Json.{Codec, Json}
use hft_legacy_migration_fra.Json.Responses.{error_serialize, raw_serialize, json_serialize}
use hft_legacy_migration_fra.Base.Run.{Run, done, throws, undefined, ◌>>=◌, try_catch, lift}
use hft_legacy_migration_fra.Server.Handlers.{
  Outcome, result, null_result, failed, Backend, mock, postgres, Reply, fetch, frame, send_error,
  handle_query_raw, handle_query_json, handle_query_binary, handle_query_stream, raw_response,
  json_response, binary_response, stream_response, dispatch, handle_request,
}
use hft_legacy_migration_fra.Server.Session.{
  Phase, reading_header, reading_payload, writing, closed, server_down, undefined_behaviour, Event,
  header_received, payload_received, written, outlived, eof, failure, reply_phase, on_header, step,
  run,
}

abbrev pub is_ascii : Bytes → Bool
is_ascii [] = true
is_ascii (d ∷ text) = ltb d 128 && is_ascii text

-- What nlohmann::json documents of `dump`: it throws where a text is no UTF-8, so never for an error
-- document whose text is ASCII; and the text of such an exception is ASCII.
pub record DumpsAscii (c : Codec) : Type 0 where
  pub dumps :
      (message : Bytes) (e : Exception)
      → is_ascii message ≡ true
      → error_serialize c (record { error_message = message }) ≢ err e
  pub complains : (j : Json) (e : Exception) → c.dump j ≡ err e → is_ascii (what e) ≡ true

-- The database gives no null result for the SQL text of a payload, as it does where it refuses it.
abbrev pub Accepts : Backend → Bytes → Type 0
Accepts mock payload = Unit {0}
Accepts (postgres connected query) payload = query (request_deserialize payload).sql ≢ null_result

-- A payload that comes is accepted by the database, and a write is done while its buffers live.
abbrev pub IsRegular : Event → Type 0
IsRegular (header_received bytes) = Unit {0}
IsRegular (payload_received b bytes) = Accepts b bytes
IsRegular written = Unit {0}
IsRegular outlived = ⊥
IsRegular eof = Unit {0}
IsRegular failure = Unit {0}

-- The response that belongs to a type of request.
unfoldable pub response_to : ℕ → MessageType
response_to type =
    if type == 1
    then response_raw
    else if type == 2
    then response_json
    else if type == 3
    then response_binary
    else if type == 4
    then response_stream
    else response_error

-- A reply of that type or an error, or an exception with an ASCII text.
abbrev Answers : MessageType → Run Reply → Type 0
Answers type (done reply) = (reply.0 ≡ type) ⊎ (reply.0 ≡ response_error)
Answers type (throws e) = is_ascii (what e) ≡ true
Answers type undefined = ⊥

-- A reply of that type or an exception.
abbrev Gives : MessageType → Run Reply → Type 0
Gives type (done reply) = reply.0 ≡ type
Gives type (throws e) = Unit {0}
Gives type undefined = ⊥

lift-Gives : (type : MessageType) (r : Result Bytes) → Gives type (lift r >>= λ s. done (type, s))
lift-Gives type (ok s) = refl
lift-Gives type (err e) = tt

bind-Gives {ℓ} :
    {A : Type ℓ} (type : MessageType) (m : Run A) (f : A → Run Reply)
    → m ≢ undefined
    → ((a : A) → Gives type (f a))
    → Gives type (m >>= f)
bind-Gives type (done a) f h k = k a
bind-Gives type (throws e) f h k = tt
bind-Gives type undefined f h k = absurd (h refl)

-- The rows of an accepted statement, and what is made of them.
rows-ne-undefined {ℓ} :
    {A : Type ℓ} (connected : Result (Unit {0})) (o : Outcome)
    (f : List Bytes × List (List (Option Bytes)) → A)
    → o ≢ null_result
    → (lift connected >>= λ opened. fetch o >>= λ r. done (f r)) ≢ undefined
unfolding fetch
rows-ne-undefined (ok tt) (result columns rows) f h = λ p. cc
rows-ne-undefined (ok tt) null_result f h = absurd (h refl)
rows-ne-undefined (ok tt) (failed e) f h = λ p. cc
rows-ne-undefined (err e) o f h = λ p. cc

-- The session reads, writes or is closed: it neither took the server down nor met undefined
-- behaviour.
abbrev pub IsServing : Phase → Type 0
IsServing reading_header = Unit {0}
IsServing (reading_payload header) = Unit {0}
IsServing (writing out) = Unit {0}
IsServing closed = Unit {0}
IsServing server_down = ⊥
IsServing undefined_behaviour = ⊥

module _ (c : Codec) (laws : DumpsAscii c) where
  send_error-Answers : (type : MessageType) (message : Bytes) → Answers type (send_error c message)
  unfolding send_error error_serialize
  send_error-Answers type message =
      elim (Result-cases (error_serialize c (record { error_message = message }))) [
        | inl (e, p) ↦ rw p (laws.complains _ e p)
        | inr (s, p) ↦ rw p (inr refl)
      ]

  -- The body of a handler with its `catch`.
  caught-Answers :
      (type : MessageType) (m : Run Reply) (place : Bytes)
      → Gives type m
      → Answers type (try_catch m (λ e. send_error c (place ++ what e)))
  caught-Answers type (done reply) place h = inl h
  caught-Answers type (throws e) place h = send_error-Answers type (place ++ what e)
  caught-Answers type undefined place h = absurd h

  raw-Answers :
      (b : Backend) (payload : Bytes)
      → Accepts b payload
      → Answers response_raw (handle_query_raw c b payload)
  unfolding handle_query_raw raw_response
  raw-Answers mock payload h =
      caught-Answers response_raw _ (codes "Query error: ")
        (lift-Gives response_raw (raw_serialize c _))
  raw-Answers (postgres connected query) payload h =
      caught-Answers response_raw _ (codes "Query error: ") (
        bind-Gives response_raw _ _ (rows-ne-undefined connected _ _ h)
          (λ a. lift-Gives response_raw (raw_serialize c a)))

  json-Answers :
      (b : Backend) (payload : Bytes)
      → Accepts b payload
      → Answers response_json (handle_query_json c b payload)
  unfolding handle_query_json json_response
  json-Answers mock payload h =
      caught-Answers response_json _ (codes "Query error: ")
        (lift-Gives response_json (json_serialize c _))
  json-Answers (postgres connected query) payload h =
      caught-Answers response_json _ (codes "Query error: ") (
        bind-Gives response_json _ _ (rows-ne-undefined connected _ _ h)
          (λ a. lift-Gives response_json (json_serialize c _)))

  binary-Answers :
      (b : Backend) (payload : Bytes)
      → Accepts b payload
      → Answers response_binary (handle_query_binary c b payload)
  unfolding handle_query_binary binary_response
  binary-Answers mock payload h = inl refl
  binary-Answers (postgres connected query) payload h =
      caught-Answers response_binary _ (codes "Binary query error: ")
        (bind-Gives response_binary _ _ (rows-ne-undefined connected _ _ h) (λ a. refl))

  stream-Answers :
      (b : Backend) (payload : Bytes)
      → Accepts b payload
      → Answers response_stream (handle_query_stream c b payload)
  unfolding handle_query_stream stream_response
  stream-Answers mock payload h =
      caught-Answers response_stream _ (codes "Stream query error: ")
        (lift-Gives response_stream (json_serialize c _))
  stream-Answers (postgres connected query) payload h =
      caught-Answers response_stream _ (codes "Stream query error: ") (
        bind-Gives response_stream _ _ (rows-ne-undefined connected _ _ h)
          (λ a. lift-Gives response_stream (json_serialize c _)))

  dispatch-Answers :
      (b : Backend) (type : ℕ) (payload : Bytes)
      → Accepts b payload
      → Answers (response_to type) (dispatch c b type payload)
  unfolding dispatch response_to type_code
  dispatch-Answers b type payload h = ground (
    arith,
    raw-Answers b payload h,
    json-Answers b payload h,
    binary-Answers b payload h,
    stream-Answers b payload h,
    send_error-Answers response_error (codes "Unknown message type"),
  )

  -- A text that is dumped is sent.
  send_error-done :
      (message : Bytes)
      → is_ascii message ≡ true
      → (s : Bytes) × (send_error c message ≡ done (response_error, s))
  unfolding send_error
  send_error-done message ascii =
      elim (Result-cases (error_serialize c (record { error_message = message }))) [
        | inl (e, p) ↦ absurd (laws.dumps message e ascii p)
        | inr (s, p) ↦ (s, rw p refl)
      ]

  last_handler :
      (type : MessageType) (m : Run Reply)
      → Answers type m
      → (reply : Reply) × (try_catch m
            (λ e. send_error c (codes "Request handling error: " ++ what e))
          ≡ done reply)
        × ((reply.0 ≡ type) ⊎ (reply.0 ≡ response_error))
  last_handler type (done reply) h = (reply, refl, h)
  last_handler type (throws e) h =
      let (s, p) = send_error-done (codes "Request handling error: " ++ what e) h in
      ((response_error, s), p, inr refl)
  last_handler type undefined h = absurd h

  -- A request of any type and with any payload is answered by one frame, which the session then
  -- writes: a response of the type that belongs to the request, or an error response. The database
  -- gives no null result for the payload's SQL text, and the JSON library dumps ASCII texts and throws
  -- exceptions with such texts only.
  pub one_reply :
      (b : Backend) (header : MessageHeader) (payload : Bytes)
      → Accepts b payload
      → (reply : Reply) × (step c (reading_payload header) (payload_received b payload)
          ≡ writing (frame reply.0 reply.1))
        × ((reply.0 ≡ response_to header.message_type) ⊎ (reply.0 ≡ response_error))
  unfolding step reply_phase handle_request
  one_reply b header payload h =
      let (reply, e, suits) =
        last_handler (response_to header.message_type) (dispatch c b header.message_type payload)
          (dispatch-Answers b header.message_type payload h) in
      (reply, ap reply_phase e, suits)

  on_header-IsServing : (bytes : Bytes) → IsServing (on_header c bytes)
  unfolding on_header reply_phase
  on_header-IsServing bytes = elim (Result-cases (deserialize bytes)) [
    | inl (e, p) ↦
        let (s, q) = send_error-done (codes "Invalid message header") refl in
        rw (p, on_header) (subst IsServing (sym (ap reply_phase q)) tt)
    | inr (header, p) ↦ rw (p, on_header) tt
  ]

  pub step-IsServing : (p : Phase) (e : Event) → IsRegular e → IsServing p → IsServing (step c p e)
  unfolding step
  step-IsServing reading_header (header_received bytes) r h = on_header-IsServing bytes
  step-IsServing (reading_payload header) (payload_received b bytes) r h =
      let (reply, e, suits) = one_reply b header bytes r in subst IsServing (sym e) tt
  step-IsServing server_down e r h = absurd h
  step-IsServing undefined_behaviour e r h = absurd h
  step-IsServing reading_header (payload_received b bytes) r h = tt
  step-IsServing reading_header eof r h = tt
  step-IsServing reading_header failure r h = tt
  step-IsServing reading_header written r h = tt
  step-IsServing reading_header outlived r h = tt
  step-IsServing (reading_payload header) (header_received bytes) r h = tt
  step-IsServing (reading_payload header) eof r h = tt
  step-IsServing (reading_payload header) failure r h = tt
  step-IsServing (reading_payload header) written r h = tt
  step-IsServing (reading_payload header) outlived r h = tt
  step-IsServing (writing out) (header_received bytes) r h = tt
  step-IsServing (writing out) (payload_received b bytes) r h = tt
  step-IsServing (writing out) eof r h = tt
  step-IsServing (writing out) failure r h = tt
  step-IsServing (writing out) written r h = tt
  step-IsServing (writing out) outlived r h = absurd r
  step-IsServing closed e r h = tt

  -- Whatever bytes the clients send, and in whatever order the operations complete or fail, a session
  -- stays in service: no exception leaves it and no null pointer is read, if no statement that reaches
  -- PostgreSQL gives a null result, no write outlives its buffers, and the JSON library dumps ASCII texts
  -- and throws exceptions with such texts only. What the database gives may change all the time.
  pub run-IsServing :
      (es : List Event) (p : Phase) → All IsRegular es → IsServing p → IsServing (run c p es)
  unfolding run
  run-IsServing [] p r h = h
  run-IsServing (e ∷ es) p r h = run-IsServing es (step c p e) r.1 (step-IsServing p e r.0 h)

-- The bug: a statement that libpq refuses makes `executeQuery` return a null pointer, which the raw query
-- handler reads through; no error response is sent, whatever the codec.
null_result-undefined :
    (c : Codec) (query : Bytes → Outcome) (size : ℕ) (sql : Bytes)
    → query sql ≡ null_result
    → step c
        (reading_payload (record { message_type = 1; payload_size = size }))
        (payload_received (postgres (ok tt) query) sql)
      ≡ undefined_behaviour
unfolding step reply_phase handle_request dispatch handle_query_raw raw_response fetch type_code
    request_deserialize
null_result-undefined c query size sql e = rw e

dispatch-unknown :
    (c : Codec) (b : Backend) (type : ℕ) (payload : Bytes)
    → (type ≡ 0) ⊎ (4 < type)
    → dispatch c b type payload ≡ send_error c (codes "Unknown message type")
unfolding dispatch type_code
dispatch-unknown c b type payload h = ground arith

-- A type code that is none of the four queries, also one of a response, gets an error response with
-- the text "Unknown message type", and the payload is not looked at.
pub unknown_type :
    (c : Codec) (b : Backend) (header : MessageHeader) (payload s : Bytes)
    → (header.message_type ≡ 0) ⊎ (4 < header.message_type)
    → error_serialize c (record { error_message = codes "Unknown message type" }) ≡ ok s
    → step c (reading_payload header) (payload_received b payload)
      ≡ writing (frame response_error s)
unfolding step reply_phase handle_request
unknown_type c b header payload s h e =
    let handler = λ (x : Exception). send_error c (codes "Request handling error: " ++ what x) in
    ap (λ r. reply_phase (try_catch r handler))
      (dispatch-unknown c b header.message_type payload h ∙ sent)
  where
    sent : send_error c (codes "Unknown message type") ≡ done (response_error, s)
    sent = unfold send_error in rw e
