-- ===== src/Sybase.antt =====
-- src/sybase, in the build with WITH_SYBASE: connection strings, the statements' parameters, and the
-- classes over DB-Library.
pub mod ConnInfo
pub mod Settings
pub mod Placeholders
pub mod Template
pub mod Filling
pub mod Connection
pub mod Session
pub mod Updates
pub mod Rows
pub mod Read
