-- ===== src/Index.antt =====
-- src/index: the keys of objects in an index.
pub mod Hashing
pub mod Types
pub mod IndexKey
pub mod CreateKeys
pub mod Entries
