-- ===== src/Repository.antt =====
-- include/hft/repository/Repository.hpp, over the connection, the prepared statement and the
-- transaction of src/pg, in the build with libpq and with an open connection.
pub mod Statement
pub mod Session
pub mod Entity
pub mod Placeholders
pub mod Ended
pub mod Atomic
pub mod Committed
pub mod Reading
pub mod Stored
pub mod Typing
