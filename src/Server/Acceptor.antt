-- ===== src/Server/Acceptor.antt =====
-- `SqlServer` in asio-sql-service/server/sql_server.hpp and the program around it,
-- asio-sql-service/server/server_main.cpp, without what they print. One `io_context` runs the handlers
-- of all connections one after the other, in an order that nobody chooses. What Boost.Asio says of a
-- new connection's peer, and whether it can listen on a port, are arguments.
use hft_legacy_migration_fra.Base.{
  ℕ, ◌-◌, ◌%◌, ◌^◌, Bytes, ◌||◌, List, [], ◌∷◌, ◌++◌, none, some, Result, ok, err, get_elem?, set,
  codes, eqb, ltb, if◌then◌else◌,
}
use hft_legacy_migration_fra.Base.Int.{ℤ, pos, negsuc}
use hft_legacy_migration_fra.Values.{stoi}
use hft_legacy_migration_fra.Json.{Codec}
use hft_legacy_migration_fra.Server.Session.{
  Phase, reading_header, reading_payload, writing, closed, server_down, undefined_behaviour, Event,
  step,
}

-- The sessions stand in the order in which they were accepted.
pub data Process : Type 0 where
  running : List Phase → Process
  exited : ℕ → Process
  undefined_process : Process

-- A connection comes with what `remote_endpoint()` gives for it: it throws where the peer has gone.
pub data ServerEvent : Type 0 where
  accepted : Result Bytes → ServerEvent
  accept_failed : ServerEvent
  on : ℕ → Event → ServerEvent

-- `std::make_shared<Session>(std::move(socket))->start()`, which the printing of the peer precedes.
-- An exception leaves the handler and `io_context.run()`, and `main` returns 1.
unfoldable pub accept : Result Bytes → List Phase → Process
accept (ok peer) sessions = running (sessions ++ (reading_header ∷ []))
accept (err e) sessions = exited 1

-- A handler of the i-th session has left it in this phase.
unfoldable pub settle : List Phase → ℕ → Phase → Process
settle sessions i reading_header = running (set sessions i reading_header)
settle sessions i (reading_payload header) = running (set sessions i (reading_payload header))
settle sessions i (writing out) = running (set sessions i (writing out))
settle sessions i closed = running (set sessions i closed)
settle sessions i server_down = exited 1
settle sessions i undefined_behaviour = undefined_process

unfoldable pub handle_event : Codec → List Phase → ServerEvent → Process
unfolding accept
handle_event c sessions (accepted peer) = accept peer sessions
handle_event c sessions accept_failed = running sessions
handle_event c sessions (on i e) = elim (get_elem? sessions i) [
  | none ↦ running sessions
  | some p ↦ settle sessions i (step c p e)
]

-- `io_context.run()`: as another accept is always outstanding, it does not return by itself.
unfoldable pub run_server : Codec → Process → List ServerEvent → Process
unfolding handle_event
run_server c p [] = p
run_server c (exited code) (e ∷ es) = exited code
run_server c undefined_process (e ∷ es) = undefined_process
run_server c (running sessions) (e ∷ es) = run_server c (handle_event c sessions e) es

pub data Start : Type 0 where
  usage : Start
  refused : Start
  listen : ℕ → Start

unfoldable pub check_port : Result ℤ → Start
check_port (ok (pos port)) = if ltb port 1 || ltb 65535 port then refused else listen port
check_port (ok (negsuc n)) = refused
check_port (err e) = refused

-- The command line, the program's name included.
unfoldable pub parse_arguments : List Bytes → Start
unfolding check_port
parse_arguments [] = listen 9090
parse_arguments (program ∷ []) = listen 9090
parse_arguments (program ∷ arg ∷ more) =
    if eqb arg (codes "--help") || eqb arg (codes "-h") then usage else check_port (stoi arg)

-- `SqlServer` takes a `short`: the port modulo 2 ^ 16, between -2 ^ 15 and 2 ^ 15 - 1.
unfoldable pub to_short : ℕ → ℤ
to_short port =
    let low = port % 2 ^ 16 in if ltb low (2 ^ 15) then pos low else negsuc (2 ^ 16 - 1 - low)

-- `tcp::endpoint` takes an `unsigned short`.
unfoldable pub to_unsigned_short : ℤ → ℕ
to_unsigned_short (pos n) = n % 2 ^ 16
to_unsigned_short (negsuc n) = 2 ^ 16 - 1 - n % 2 ^ 16

-- The port that the acceptor is bound to.
unfoldable pub bound_port : ℕ → ℕ
unfolding to_short to_unsigned_short
bound_port port = to_unsigned_short (to_short port)

unfoldable pub main : Codec → (ℕ → Result (Unit {0})) → List Bytes → List ServerEvent → Process
main c open_port args es = elim (parse_arguments args) [
  | usage ↦ exited 0
  | refused ↦ exited 1
  | listen port ↦ elim (open_port (bound_port port)) [
    | ok done ↦ run_server c (running []) es
    | err e ↦ exited 1
  ]
]
