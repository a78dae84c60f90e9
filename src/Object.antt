-- ===== src/Object.antt =====
-- src/object: the binary format of objects, its reader and its builder.
pub mod DataType
pub mod ObjectInfo
pub mod Float
pub mod IsarObject
pub mod ObjectBuilder
