-- ===== src/Error.antt =====
-- src/error.rs: the errors of the crate, and results. A result of the model is a Rust `Result`, or
-- the panic of an `unwrap`, an `assert!` or a slice out of range.
use Prim.Native.String.{String}
use isar_core.Prelude.{Bool, true, false, Option, none, some, ◌≡◌, refl}
use isar_core.Prelude.Int.{ℤ}

pub data IsarError : Type 0 where
  version_error path_error db_full unique_violated write_txn_required : IsarError
  auto_increment_overflow invalid_object_id invalid_object transaction_closed : IsarError
  illegal_arg : String → IsarError
  invalid_json : IsarError
  db_corrupted schema_error : String → IsarError
  crypto_error : IsarError
  lmdb_error : ℤ → String → IsarError

pub data Result {ℓ} (A : Type ℓ) : Type ℓ where
  ok : A → Result A
  err : IsarError → Result A
  panic : Result A

-- The `?` operator.
infixl 5 ◌>>=◌ ◌>>◌
abbrev pub ◌>>=◌ {ℓ κ} : {A : Type ℓ} {B : Type κ} → Result A → (A → Result B) → Result B
ok a >>= f = f a
err e >>= f = err e
panic >>= f = panic

abbrev pub ◌>>◌ {ℓ} : {B : Type ℓ} → Result (Unit {0}) → Result B → Result B
m >> k = m >>= λ _. k

-- `Result::map`.
abbrev pub map_ok {ℓ κ} : {A : Type ℓ} {B : Type κ} → (A → B) → Result A → Result B
map_ok f r = r >>= λ a. ok (f a)

pub map_ok-map_ok {ℓ κ ι} :
    {A : Type ℓ} {B : Type κ} {C : Type ι} (g : B → C) (f : A → B) (r : Result A)
    → map_ok g (map_ok f r) ≡ map_ok (λ a. g (f a)) r
map_ok-map_ok g f (ok a) = refl
map_ok-map_ok g f (err e) = refl
map_ok-map_ok g f panic = refl

module _ {ℓ κ} {A : Type ℓ} {B : Type κ} {next : A → Result B} {end : B} where
  -- Where a chain ends in a value, its first step gave a value, and the rest gave the end from it.
  pub >>=-eq-ok :
      (first : Result A)
      → first >>= next ≡ ok end
      → (value : A) × (first ≡ ok value) × (next value ≡ ok end)
  >>=-eq-ok panic chain = cc
  >>=-eq-ok (err why) chain = cc
  >>=-eq-ok (ok value) chain = (value, refl, chain)

-- `assert!`.
abbrev pub assert : Bool → Result (Unit {0})
assert true = ok tt
assert false = panic

-- `Option::unwrap`.
abbrev pub unwrap {ℓ} : {A : Type ℓ} → Option A → Result A
unwrap none = panic
unwrap (some a) = ok a

-- `Result::is_ok`.
abbrev pub is_ok {ℓ} : {A : Type ℓ} → Result A → Bool
is_ok (ok a) = true
is_ok (err e) = false
is_ok panic = false
