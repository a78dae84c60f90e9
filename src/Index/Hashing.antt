-- ===== src/Index/Hashing.antt =====
-- What the indexes use of other crates and of the Unicode tables: the streaming hasher `WyHash`, the
-- function `wyhash`, `str::to_lowercase`, `unicode_words` and the `unique` of itertools. Strings are their UTF-8 bytes.
use isar_core.Prelude.{ℕ, List}
use isar_core.Prelude.Int.{ℤ}
use isar_core.Prelude.Bytes.{Bytes}

pub record Hashing : Type 1 where
  pub State : Type 0
  pub default : State
  pub write_u8 : ℕ → State → State
  pub write_i32 : ℤ → State → State
  pub write_i64 : ℤ → State → State
  pub write_usize : ℕ → State → State
  pub write : Bytes → State → State
  pub finish : State → ℕ
  pub wyhash : Bytes → ℕ → ℕ

pub record Unicode : Type 0 where
  pub to_lowercase : Bytes → Bytes
  pub unicode_words : Bytes → List Bytes
  pub unique : List Bytes → List Bytes
