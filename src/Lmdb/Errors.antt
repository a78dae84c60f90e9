-- ===== src/Lmdb/Errors.antt =====
-- src/lmdb/error.rs and the conversion in src/error.rs: what the crate makes of LMDB's return codes.
-- `mdb_strerror` is a parameter.
use Prim.Native.String.{String}
use isar_core.Prelude.{◌||◌, if◌then◌else◌, Option, none, some}
use isar_core.Prelude.Int.{ℤ, pos, negsuc, eqb_ℤ}
use isar_core.Error.{IsarError, db_full, crypto_error}
use isar_core.Error

-- The codes of lmdb.h.
abbrev pub mdb_success : ℤ
mdb_success = pos 0

abbrev pub mdb_keyexist : ℤ
mdb_keyexist = negsuc 30798

abbrev pub mdb_notfound : ℤ
mdb_notfound = negsuc 30797

abbrev pub mdb_map_full : ℤ
mdb_map_full = negsuc 30791

abbrev pub mdb_crypto_fail : ℤ
mdb_crypto_fail = negsuc 30776

abbrev pub mdb_env_encryption : ℤ
mdb_env_encryption = negsuc 30775

pub data LmdbError : Type 0 where
  key_exist not_found map_full crypto_fail : LmdbError
  other : ℤ → String → LmdbError

unfoldable pub from_err_code : (ℤ → String) → ℤ → LmdbError
from_err_code mdb_strerror err_code =
    if eqb_ℤ err_code mdb_keyexist
    then key_exist
    else (if eqb_ℤ err_code mdb_notfound
        then not_found
        else (if eqb_ℤ err_code mdb_map_full
            then map_full
            else (if eqb_ℤ err_code mdb_env_encryption || eqb_ℤ err_code mdb_crypto_fail
                then crypto_fail
                else other err_code (mdb_strerror err_code))))

unfoldable pub to_err_code : LmdbError → ℤ
to_err_code key_exist = mdb_keyexist
to_err_code not_found = mdb_notfound
to_err_code map_full = mdb_map_full
to_err_code crypto_fail = mdb_crypto_fail
to_err_code (other code message) = code

-- `none` is `Ok(())`.
unfoldable pub lmdb_result : (ℤ → String) → ℤ → Option LmdbError
unfolding from_err_code
lmdb_result mdb_strerror err_code =
    if eqb_ℤ err_code mdb_success then none else some (from_err_code mdb_strerror err_code)

-- `From<LmdbError> for IsarError`.
unfoldable pub from : LmdbError → IsarError
unfolding to_err_code
from map_full = db_full
from crypto_fail = crypto_error
from (other code message) = Error.lmdb_error code message
from key_exist = Error.lmdb_error (to_err_code key_exist) "Error that should have been catched."
from not_found = Error.lmdb_error (to_err_code not_found) "Error that should have been catched."
