-- ===== src/Lmdb/Keys.antt =====
-- src/lmdb/mod.rs: `impl Key for IntKey` and `impl Key for ByteKey`.
use isar_core.Prelude.{some}
use isar_core.Lmdb.IntKey
use isar_core.Lmdb.IntKey.{IntKey}
use isar_core.Lmdb.ByteKey
use isar_core.Lmdb.ByteKey.{ByteKey}
use isar_core.Lmdb.Cursor.{Key}

instance abbrev pub int_key : Key IntKey
int_key = record { as_bytes = IntKey.as_bytes; cmp_bytes = IntKey.cmp_bytes }

instance abbrev pub byte_key : Key ByteKey
byte_key = record {
  as_bytes = λ key. key.bytes;
  cmp_bytes = λ key other. some (ByteKey.cmp_bytes key other);
}
