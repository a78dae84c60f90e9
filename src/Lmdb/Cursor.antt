-- ===== src/Lmdb/Cursor.antt =====
-- src/lmdb/cursor.rs: cursors. A cursor holds what its database holds and its place in it, so that each
-- operation returns the cursor after it. The functions of LMDB are parameters.
-- `panic` is a failed assertion or a comparison with a key of another length.
pub mod Iter
pub mod Documented
pub mod Writes
pub mod Range
pub mod Skips
pub mod Dups
pub mod Reads
use Prim.Native.String.{String}
use isar_core.Prelude.{
  ℕ, zero, suc, ◌&&◌, ◌||◌, Bool, true, false, not, if◌then◌else◌, Option, none, some, List, is_lt,
  Ordering,
}
use isar_core.Prelude.Int.{ℤ}
use isar_core.Prelude.Bytes.{Bytes}
use isar_core.Error.{Result, ok, err, panic, ◌>>=◌, ◌>>◌, assert, unwrap}
use isar_core.Lmdb.Errors.{LmdbError, not_found, key_exist, lmdb_result, from}

abbrev pub KeyVal : Type 0
KeyVal = Bytes × Bytes

-- The place of a cursor: the entries before it, nearest first, and those from it on, in the order of the
-- database. `deleted` is the key of the entry that was deleted here.
pub record Position : Type 0 where
  pub before : List KeyVal
  pub after : List KeyVal
  pub deleted : Option Bytes

pub data CursorOp : Type 0 where
  mdb_set_key mdb_get_both mdb_set_range mdb_next mdb_next_dup mdb_next_nodup : CursorOp
  mdb_prev mdb_prev_nodup mdb_last : CursorOp

-- The functions of LMDB: a return code, and what they do to the place.
pub record Lmdb : Type 0 where
  pub mdb_cursor_get : CursorOp → Option Bytes → Option Bytes → Position → ℤ × KeyVal × Position
  pub mdb_cursor_put : Bytes → Bytes → Bool → Position → ℤ × Position
  pub mdb_cursor_del : Position → ℤ × Position
  pub mdb_strerror : ℤ → String

-- The trait `Key`. `cmp_bytes` is `none` where it panics.
pub record Key (K : Type 0) : Type 0 where
  pub as_bytes : K → Bytes
  pub cmp_bytes : K → Bytes → Option Ordering

pub record Cursor : Type 0 where
  pub cursor : Position
  pub write : Bool

module _ (l : Lmdb) where
  -- What `op_get` makes of LMDB's answer.
  unfoldable pub got : Cursor → ℤ × KeyVal × Position → Result (Option KeyVal × Cursor)
  unfolding lmdb_result from
  got c (code, entry, position) = elim (lmdb_result l.mdb_strerror code) [
    | none ↦ ok (some entry, record c { cursor = position })
    | some not_found ↦ ok (none, record c { cursor = position })
    | some e ↦ err (from e)
  ]

  unfoldable pub op_get :
      CursorOp → Option Bytes → Option Bytes → Cursor → Result (Option KeyVal × Cursor)
  unfolding got
  op_get op key val c = got c (l.mdb_cursor_get op key val c.cursor)

  -- The result of LMDB and the cursor after it.
  unfoldable pub written : Cursor → ℤ × Position → Option LmdbError × Cursor
  unfolding lmdb_result
  written c (code, position) = (lmdb_result l.mdb_strerror code, record c { cursor = position })

  -- The conversion of the `?` operator.
  unfoldable pub or_fail : Option LmdbError × Cursor → Result Cursor
  unfolding from
  or_fail (none, c) = ok c
  or_fail (some e, c) = err (from e)

  unfoldable pub put_internal : Bytes → Bytes → Bool → Cursor → Result (Option LmdbError × Cursor)
  unfolding written
  put_internal key value no_overwrite c = do
    assert c.write
    ok (written c (l.mdb_cursor_put key value no_overwrite c.cursor))

  unfoldable pub delete_current : Cursor → Result Cursor
  unfolding written or_fail
  delete_current c = do assert c.write; or_fail (written c (l.mdb_cursor_del c.cursor))

  unfoldable pub move_to_dup : Cursor → Result (Option KeyVal × Cursor)
  unfolding op_get
  move_to_dup = op_get mdb_next_dup none none

  unfoldable pub move_to_prev : Cursor → Result (Option KeyVal × Cursor)
  unfolding op_get
  move_to_prev = op_get mdb_prev none none

  unfoldable pub move_to_prev_key : Cursor → Result (Option KeyVal × Cursor)
  unfolding op_get
  move_to_prev_key = op_get mdb_prev_nodup none none

  unfoldable pub move_to_last : Cursor → Result (Option KeyVal × Cursor)
  unfolding op_get
  move_to_last = op_get mdb_last none none

module _ (l : Lmdb) {K : Type 0} ⦃k : Key K⦄ where
  unfoldable pub move_to : K → Cursor → Result (Option KeyVal × Cursor)
  unfolding op_get
  move_to key = op_get l mdb_set_key (some (k.as_bytes key)) none

  unfoldable pub move_to_key_val : K → Bytes → Cursor → Result (Option KeyVal × Cursor)
  unfolding op_get
  move_to_key_val key val = op_get l mdb_get_both (some (k.as_bytes key)) (some val)

  unfoldable pub move_to_gte : K → Cursor → Result (Option KeyVal × Cursor)
  unfolding op_get
  move_to_gte key = op_get l mdb_set_range (some (k.as_bytes key)) none

  unfoldable pub put : K → Bytes → Cursor → Result Cursor
  unfolding put_internal or_fail
  put key value c = do answer ← put_internal l (k.as_bytes key) value false c; or_fail l answer

  unfoldable pub put_no_override : K → Bytes → Cursor → Result (Bool × Cursor)
  unfolding put_internal from
  put_no_override key value c = do
    answer ← put_internal l (k.as_bytes key) value true c
    elim (answer.0) [
      | none ↦ ok (true, answer.1)
      | some key_exist ↦ ok (false, answer.1)
      | some e ↦ err (from e)
    ]
