-- ===== src/Lmdb.antt =====
-- src/lmdb: the keys of the database and its cursors.
pub mod IntKey
pub mod ByteKey
pub mod Errors
pub mod Cursor
pub mod Keys
