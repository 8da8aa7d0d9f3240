-- ===== src/Lib.antt =====
-- A model of the HFT legacy migration framework: the SQL service over TCP and its wire protocol, and
-- the database access layer with its connections, pool, caches, escaping, repositories, catalogs and
-- code generators.
--
-- The service. A client (asio-sql-service/client/sql_client.hpp) sends a header of five bytes with a
-- query as payload; a session of the server (asio-sql-service/server/sql_server.hpp) reads the two,
-- runs the query, and writes a header with a response, in one of four forms.
--   Protocol: `MessageType`, `MessageHeader` and `QueryRequest` of asio-sql-service/common/protocol.hpp.
--     `serialize` and `deserialize` are the methods of that name.
--   Json, Json.Responses: the responses of the same file. The vendored nlohmann::json is a parameter,
--     a `Codec` with `dump` and `parse` and the law that `parse` gives back what `dump` wrote.
--   Binary: the binary form of a result, as `handle_query_binary` writes it and
--     `print_binary_response` of asio-sql-service/client/client_main.cpp reads it. A read past the end of
--     the bytes is the value `fault`.
--   Server.Handlers: the query handlers, `handle_request` and `send_error`. The database is a parameter, as
--     the code names a connection class that the repository does not have: what making the connection
--     gives, and a result, a null pointer or an exception for each SQL text; `mock` is the build without.
--   Server.Session: `read_header`, `read_payload` and `send_response` as steps on the phase of a session,
--     one for each completion of an asynchronous operation. A request comes with what the database gives
--     while it is handled. The buffers of a write are gone when the handler returns; a write that
--     goes on then is an event of its own and undefined behaviour.
--   Server.Acceptor: `SqlServer` and asio-sql-service/server/server_main.cpp: the sessions in the order in
--     which they were accepted, and the events of all of them in any order. Server.Isolation is about one
--     session among the others, Server.Listening about the program and its port.
--   Client: `send_request`, `receive_response` and the four queries of `SqlClient`, over a connection
--     that delivers what was sent, if the write of the server does not outlive its buffers. Client.Console is the command loop of
--     asio-sql-service/client/client_main.cpp, Client.Interactive is about its end;
--     Client.Stream is `print_stream_response`, and Client.StreamQuery the whole way of a stream query.
--     Client.Program is `main` with what each command asks and shows, and Client.Dialog a whole
--     run, with the requests of Client.Asked; Client.Concurrent is one client among others.
--
-- Database access.
--   Pool: include/hft/db/ConnectionPool.hpp. Factory and health query are parameters whose answers may
--     differ at each call. Each method holds the mutex, so it is one step. Pool.System has the clients with
--     the connections that they hold, as `PooledConnection` does.
--   QueryCache: include/hft/db/QueryResultCache.hpp, with the clock's time as an argument.
--   StatementCache: include/hft/db/PreparedStatementCache.hpp, with the shared pointers that are held.
--   Sql: the escaping loops of src/catalog/Catalog.cpp, src/sybase/SybPreparedStatement.cpp and
--     include/hft/repository/Repository.hpp.
--   Values: the values, rows and reader of src/pg, in the build with libpq, with `std::stoi` written out.
--   Catalog: src/catalog/Catalog.cpp, with the type mapping (Types), the statements (Ddl) and the loading
--     of both dialects (Load). The connection is a parameter.
--   Repository: include/hft/repository/Repository.hpp on PostgreSQL: Statement has the bound parameters of
--     src/pg/PgPreparedStatement.cpp, Session the connection and the transaction of src/pg/PgConnection.cpp
--     and src/pg/PgTransaction.cpp, Entity the statements of the repository itself and Reading its
--     queries; Ended is about how its transactions end. The server behind libpq is a parameter: an answer and a next state for each statement.
--     A field is an int, a double, a string or of another type, by the branches of `if constexpr`, which
--     Repository.Typing is about.
--   Base: lists, texts, dictionaries, results, and runs that end with a value, an exception or
--     undefined behaviour. Tests has the examples, with a codec for all JSON values.
--
-- The older classes and Sybase.
--   Db.Postgres, Db.Sybase: src/db/PostgreSQLConnection.cpp and src/db/SybaseConnection.cpp, with the
--     statements' parameters in Db.Statement and the transactions of both in Db.Transaction. The server
--     behind libpq or DB-Library answers by all that was sent before. Db.ResultSet has the cursors of both
--     result sets and the loops over them, Db.ResultSet.Rows what these see. Lifetime follows the prepared
--     statements, Handles the handles of DB-Library, Sent the text that a statement sends.
--   Sybase: src/sybase. ConnInfo is `parseConnInfo` and Settings what it reads; Placeholders is
--     `buildFinalSQL` and the older `buildSQL`, with Template and Filling about them; Connection has the
--     connection, the prepared statement and the transaction, Session what they hold, and Updates
--     what an update sends. Rows is SybRow, SybValue and the cursor of SybReader, and Read is about them.
--   Orm: include/hft/orm/Repository.h. Driver is the interface that it uses, with laws, and Drivers its
--     two implementations; Binding is about placeholders and parameters, and Inserted about `insert` down
--     to the command that reaches a Sybase server, both with the lists of Numbered. Cursors are its queries over the cursor of a result
--     set, Columns what they read. Schema is include/hft/catalog/Catalog.h.
--   Codegen: Files and UnitTest have the texts that src/codegen writes for a table of the catalog, Models
--     those of include/hft/codegen/CodeGenerator.h; Braces and Namespaces are about their braces.
--     Program is src/codegen/main_codegen.cpp with the files that are written, Generated is about
--     these, and Entities about generated entities in the hands of Repository.hpp.
--   Log: include/hft/db/Logger.hpp, with what was written to the console and to files.
--
-- Texts are lists of byte codes. A machine integer keeps its wrap-around written out. Loops over
-- positions run on fuel: the escaping loop and the loop of `buildFinalSQL` on one more than the length
-- of the text, of which each round passes a character, and the reader's loop on more rounds than there
-- are rows, so that no fuel runs out. The command loop of the client may run for ever: its fuel is a
-- number of rounds.
--
-- Not modelled: sockets and threads of Boost.Asio, of which one handler runs at a time, what the server
-- and the generators print, and conversion of doubles. A text that reaches libpq through `c_str()` is
-- supposed to hold no NUL, and `dbresults` to end with NO_MORE_RESULTS. The examples and tests of the repository,
-- asio-sql-service/examples included, only call what is modelled. Vendored code is a parameter.
pub mod Base
pub mod Protocol
pub mod Binary
pub mod Json
pub mod Server
pub mod Client
pub mod Pool
pub mod QueryCache
pub mod StatementCache
pub mod Sql
pub mod Values
pub mod Catalog
pub mod Tests
pub mod Repository
pub mod Db
pub mod Sybase
pub mod Orm
pub mod Codegen
pub mod Log
