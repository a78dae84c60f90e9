-- ===== src/Schema.antt =====
-- src/schema: the schema of a database, its verification, and its update from the schema that is stored.
pub mod Names
pub mod CollectionSchema
pub mod Update
pub mod Ids
pub mod Build
