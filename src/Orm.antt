-- ===== src/Orm.antt =====
-- The generic repository of include/hft/orm/Repository.h on the interfaces of include/hft/db, and the
-- catalog of include/hft/catalog/Catalog.h, which are fed by the same reflection of an entity.
pub mod Field
pub mod Driver
pub mod Repository
pub mod Binding
pub mod Numbered
pub mod Drivers
pub mod Cursors
pub mod Columns
pub mod Inserted
pub mod Schema
