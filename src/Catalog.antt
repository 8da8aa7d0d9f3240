-- ===== src/Catalog.antt =====
-- src/catalog/Catalog.cpp. The connection is a parameter: for each SQL text the rows that its reader
-- yields, an exception, or no reader at all (`null_reader`), through which the code reads all the
-- same. The order in which `tables()` is walked is that of the list.
pub mod Types
pub mod Shadowed
pub mod Ddl
pub mod Load
pub mod Loaded
