-- ===== src/Codegen.antt =====
-- The code generators: src/codegen on the catalog of src/catalog, and include/hft/codegen on that of
-- include/hft/catalog/Catalog.h.
pub mod Text
pub mod Files
pub mod Entities
pub mod UnitTest
pub mod Models
pub mod Braces
pub mod Namespaces
pub mod Program
pub mod Generated
