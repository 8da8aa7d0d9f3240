-- ===== src/Client/Program.antt =====
-- The program of asio-sql-service/client/client_main.cpp: its command line, and what each command of the
-- loop asks the server and shows. The peer answers the bytes of a request by bytes and by its next state;
-- whether it can be connected to and `dump(2)` are parameters too.
use hft_legacy_migration_fra.Base.{
  ℕ, Bytes, ◌||◌, List, [], ◌∷◌, ◌++◌, Option, none, some, Result, ok, err, codes, eqb, what,
  if◌then◌else◌,
}
use hft_legacy_migration_fra.Base.Run.{Run, done, ◌>>=◌, try_catch, lift}
use hft_legacy_migration_fra.Protocol.{
  MessageType, MessageHeader, query_raw, query_json, query_binary, query_stream, request_serialize,
}
use hft_legacy_migration_fra.Json.{Json, Codec}
use hft_legacy_migration_fra.Json.Responses.{JsonResponse}
use hft_legacy_migration_fra.Binary.{Printed, print_binary_response}
use hft_legacy_migration_fra.Client.{
  send_request, receive_response, receive_raw, receive_json, receive_binary, receive_stream,
}
use hft_legacy_migration_fra.Client.Console.{
  Kind, raw, json, binary, stream, Command, skip, leave, query, usage, unknown, print_raw_response,
  run_interactive_mode,
}
use hft_legacy_migration_fra.Client.Stream.{print_stream_response}

-- What a command puts on the console. A binary response is kept as what is shown of it.
pub data Shown : Type 0 where
  text_shown : Bytes → Shown
  binary_shown : Printed → Shown
  usage_shown : Kind → Shown
  unknown_shown : Bytes → Shown
  error_shown : Bytes → Shown

-- The bytes that the server has sent and that are not yet read, the console, and the state of the peer.
pub record Console (Remote : Type 0) : Type 0 where
  pub remote : Remote
  pub unread : Bytes
  pub shown : List Shown

-- What a query leaves unread: all of a response is read before it is looked at, and everything where
-- the stream ends within it.
unfoldable pub left_of : Result ((MessageHeader × Bytes) × Bytes) → Bytes
left_of (ok (message, rest)) = rest
left_of (err e) = []

unfoldable pub left_over : Bytes → Bytes
left_over bytes = left_of (receive_response bytes)

-- The handler around a command.
unfoldable pub caught : Run Shown → Run Shown
caught m = try_catch m (λ e. done (error_shown (codes "Error: " ++ what e)))

module _ {Remote : Type 0} (c : Codec) (peer : Remote → Bytes → Bytes × Remote)
    (pretty : Json → Result Bytes) where
  unfoldable pub print_json_response : JsonResponse → Run Shown
  print_json_response r = do
    text ← lift (pretty r.content)
    done (text_shown (codes "\n--- JSON Response ---\n" ++ (text ++ codes "\n")))

  unfoldable pub ask :
      {A : Type 0}
      → (Bytes → Result (A × Bytes))
      → (A → Run Shown)
      → MessageType
      → Bytes
      → Console Remote
      → Run (Console Remote)
  unfolding left_over caught
  ask receive print type sql s =
      let (sent, after) =
        peer s.remote (send_request type (request_serialize (record { sql = sql }))) in
      let answer = s.unread ++ sent in
      (do
        shown ← caught (lift (receive answer) >>= λ r. print r.0)
        done
            (record { remote = after; unread = left_over answer; shown = s.shown ++ (shown ∷ []) }))

  unfoldable pub run_query : Kind → Bytes → Console Remote → Run (Console Remote)
  unfolding ask print_json_response
  run_query raw = ask (receive_raw c) (λ r. done (text_shown (print_raw_response r))) query_raw
  run_query json = ask (receive_json c) print_json_response query_json
  run_query binary =
      ask (receive_binary c) (λ r. done (binary_shown (print_binary_response r.bytes))) query_binary
  run_query stream =
      ask (receive_stream c)
        (λ r. print_stream_response c r.content >>= λ text. done (text_shown text)) query_stream

  unfoldable pub act : Command → Console Remote → Run (Console Remote)
  unfolding run_query
  act skip s = done s
  act leave s = done s
  act (query kind sql) s = run_query kind sql s
  act (usage kind) s = done (record s { shown = s.shown ++ (usage_shown kind ∷ []) })
  act (unknown command) s = done (record s { shown = s.shown ++ (unknown_shown command ∷ []) })

  unfoldable pub perform : Command → Run (Console Remote) → Run (Console Remote)
  unfolding act
  perform command s = s >>= act command

  unfoldable pub port_of : List Bytes → Bytes
  port_of [] = codes "9090"
  port_of (port ∷ more) = port

  -- The program's exit code with what it has shown, or none where its loop is still running.
  unfoldable pub run_client :
      (Bytes → Bytes → Result (Unit {0}))
      → ℕ
      → Bytes
      → Bytes
      → List Bytes
      → Remote
      → Option (ℕ × Run (List Shown))
  run_client connect fuel host port lines remote = elim (connect host port) [
    | err e ↦ some (1, done (error_shown (codes "Error: " ++ what e) ∷ []))
    | ok connected ↦
        elim (run_interactive_mode perform fuel lines
          (done (record { remote = remote; unread = []; shown = [] }))) [
            | none ↦ none
            | some last ↦ some (0, (last >>= λ s. done s.shown))
          ]
  ]

  unfoldable pub main :
      (Bytes → Bytes → Result (Unit {0}))
      → ℕ
      → List Bytes
      → List Bytes
      → Remote
      → Option (ℕ × Run (List Shown))
  unfolding run_client port_of
  main connect fuel [] lines remote =
      run_client connect fuel (codes "localhost") (codes "9090") lines remote
  main connect fuel (program ∷ []) lines remote =
      run_client connect fuel (codes "localhost") (codes "9090") lines remote
  main connect fuel (program ∷ host ∷ more) lines remote =
      if eqb host (codes "--help") || eqb host (codes "-h")
      then some (0, done [])
      else run_client connect fuel host (port_of more) lines remote
