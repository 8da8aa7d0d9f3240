-- ===== src/Db.antt =====
-- The older connection classes of include/hft/db/*.h and src/db: the interfaces IConnection,
-- IStatement and IResultSet, and their implementations by libpq and by DB-Library.
pub mod Statement
pub mod Transaction
pub mod Postgres
pub mod Sybase
pub mod ResultSet
