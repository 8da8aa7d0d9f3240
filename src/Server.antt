-- ===== src/Server.antt =====
-- asio-sql-service/server/sql_server.hpp: `Session`. A handler ends with a reply, with an exception,
-- or in undefined behaviour where the code reads through a null pointer.
pub mod Handlers
pub mod Session
pub mod Safety
pub mod Acceptor
pub mod Isolation
pub mod Listening
