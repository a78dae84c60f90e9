-- ===== src/Object/ObjectBuilder/Value.antt =====
-- The values that the builder takes, one constructor for each data type, and their form in an object.
use isar_core.Prelude.{ℕ, suc, ◌+◌, ◌*◌, ◌^◌, ◌≤◌, ◌<◌, ◌≡◌, refl, arith}
use isar_core.Prelude.{Option, none, some, List, [], ◌∷◌, length, All, length-append}
use isar_core.Prelude.Int.{ℤ, IsI32, IsI64}
use isar_core.Prelude.Bytes.{Bytes, IsByte, to_le_bytes}
use isar_core.Error.{Result, ok, ◌>>=◌}
use isar_core.Object.DataType.{DataType, get_static_size}
use isar_core.Object.ObjectInfo.{Property}
use isar_core.Object.IsarObject
use isar_core.Object.IsarObject.{IsarObject}
use isar_core.Object.ObjectBuilder.{ObjectBuilder, signed_bytes, byte_bytes, list_bytes}
use isar_core.Object.ObjectBuilder.{write_byte, write_int, write_float, write_long, write_double}
use isar_core.Object.ObjectBuilder.{write_string, write_byte_list, write_int_list, write_float_list}
use isar_core.Object.ObjectBuilder.{write_long_list, write_double_list, write_string_list}

pub data Value : Type 0 where
  byte : ℕ → Value
  int : ℤ → Value
  float : ℕ → Value
  long : ℤ → Value
  double : ℕ → Value
  string : Option Bytes → Value
  byte_list : Option Bytes → Value
  int_list : Option (List ℤ) → Value
  float_list : Option (List ℕ) → Value
  long_list : Option (List ℤ) → Value
  double_list : Option (List ℕ) → Value
  string_list : Option (List (Option Bytes)) → Value

unfoldable pub type_of : Value → DataType
type_of (byte b) = DataType.byte
type_of (int z) = DataType.int
type_of (float b) = DataType.float
type_of (long z) = DataType.long
type_of (double b) = DataType.double
type_of (string s) = DataType.string
type_of (byte_list l) = DataType.byte_list
type_of (int_list l) = DataType.int_list
type_of (float_list l) = DataType.float_list
type_of (long_list l) = DataType.long_list
type_of (double_list l) = DataType.double_list
type_of (string_list l) = DataType.string_list

abbrev pub AllIn {ℓ} : {A : Type ℓ} → (A → Type 0) → Option (List A) → Type 0
AllIn P none = Unit {0}
AllIn P (some list) = All P list

-- The numbers of the value fit their Rust types. Strings and byte lists are stored as they are.
abbrev pub IsValid : Value → Type 0
IsValid (byte b) = IsByte b
IsValid (int z) = IsI32 z
IsValid (float b) = b < 2 ^ 32
IsValid (long z) = IsI64 z
IsValid (double b) = b < 2 ^ 64
IsValid (string s) = Unit {0}
IsValid (byte_list l) = Unit {0}
IsValid (int_list l) = AllIn IsI32 l
IsValid (float_list l) = AllIn (λ b. b < 2 ^ 32) l
IsValid (long_list l) = AllIn IsI64 l
IsValid (double_list l) = AllIn (λ b. b < 2 ^ 64) l
IsValid (string_list l) = Unit {0}

-- The method of the builder for a value, and the method of the object for a property.
unfoldable pub write : ObjectBuilder → Value → Result ObjectBuilder
write ob (byte b) = write_byte ob b
write ob (int z) = write_int ob z
write ob (float b) = write_float ob b
write ob (long z) = write_long ob z
write ob (double b) = write_double ob b
write ob (string s) = write_string ob s
write ob (byte_list l) = write_byte_list ob l
write ob (int_list l) = write_int_list ob l
write ob (float_list l) = write_float_list ob l
write ob (long_list l) = write_long_list ob l
write ob (double_list l) = write_double_list ob l
write ob (string_list l) = write_string_list ob l

unfoldable pub read : IsarObject → Property → Result Value
read o p = elim (p.data_type) [
  | DataType.byte ↦ (do v ← IsarObject.read_byte o p; ok (byte v))
  | DataType.int ↦ (do v ← IsarObject.read_int o p; ok (int v))
  | DataType.float ↦ (do v ← IsarObject.read_float o p; ok (float v))
  | DataType.long ↦ (do v ← IsarObject.read_long o p; ok (long v))
  | DataType.double ↦ (do v ← IsarObject.read_double o p; ok (double v))
  | DataType.string ↦ (do v ← IsarObject.read_string o p; ok (string v))
  | DataType.byte_list ↦ (do v ← IsarObject.read_byte_list o p; ok (byte_list v))
  | DataType.int_list ↦ (do v ← IsarObject.read_int_list o p; ok (int_list v))
  | DataType.float_list ↦ (do v ← IsarObject.read_float_list o p; ok (float_list v))
  | DataType.long_list ↦ (do v ← IsarObject.read_long_list o p; ok (long_list v))
  | DataType.double_list ↦ (do v ← IsarObject.read_double_list o p; ok (double_list v))
  | DataType.string_list ↦ (do v ← IsarObject.read_string_list o p; ok (string_list v))
]

-- The three forms of a value in an object: bytes in the static part, a list of so many elements with
-- the bytes of its memory, and a table of strings.
pub data Form : Type 0 where
  static : Bytes → Form
  list : Option (ℕ × Bytes) → Form
  strings : Option (List (Option Bytes)) → Form

abbrev pub list_of {ℓ} : {A : Type ℓ} → (A → Bytes) → Option (List A) → Option (ℕ × Bytes)
list_of memory none = none
list_of memory (some l) = some (length l, list_bytes memory l)

abbrev list_form {ℓ} : {A : Type ℓ} → (A → Bytes) → Option (List A) → Form
list_form memory l = list (list_of memory l)

unfoldable pub form : Value → Form
unfolding list_bytes to_le_bytes
form (byte b) = static (b ∷ [])
form (int z) = static (signed_bytes (2 ^ 31) 4 z)
form (float b) = static (to_le_bytes 4 b)
form (long z) = static (signed_bytes (2 ^ 63) 8 z)
form (double b) = static (to_le_bytes 8 b)
form (string s) = list_form byte_bytes s
form (byte_list l) = list_form byte_bytes l
form (int_list l) = list_form (signed_bytes (2 ^ 31) 4) l
form (float_list l) = list_form (to_le_bytes 4) l
form (long_list l) = list_form (signed_bytes (2 ^ 63) 8) l
form (double_list l) = list_form (to_le_bytes 8) l
form (string_list l) = strings l

-- The width of a form in the static part, and how many bytes it adds behind that part.
abbrev pub width : Form → ℕ
width (static bytes) = length bytes
width (list l) = 8
width (strings l) = 8

abbrev pub list_size : Option (ℕ × Bytes) → ℕ
list_size none = 0
list_size (some (count, bytes)) = length bytes

abbrev pub string_size : Option Bytes → ℕ
string_size none = 0
string_size (some s) = length s

abbrev pub strings_size : List (Option Bytes) → ℕ
strings_size [] = 0
strings_size (s ∷ l) = string_size s + strings_size l

abbrev pub dynamic_size : Form → ℕ
dynamic_size (static bytes) = 0
dynamic_size (list l) = list_size l
dynamic_size (strings none) = 0
dynamic_size (strings (some l)) = length l * 8 + strings_size l

-- Every element of a list takes a byte at least.
abbrev pub Counted : Option (ℕ × Bytes) → Type 0
Counted none = Unit {0}
Counted (some (count, bytes)) = count ≤ length bytes

abbrev pub IsCounted : Form → Type 0
IsCounted (list l) = Counted l
IsCounted _ = Unit {0}

length-list_bytes {ℓ} :
    {A : Type ℓ} (memory : A → Bytes) (size : ℕ)
    → ((a : A) → length (memory a) ≡ size)
    → (l : List A) → length (list_bytes memory l) ≡ length l * size
unfolding list_bytes
length-list_bytes memory size same [] = omega arith
length-list_bytes memory size same (a ∷ l) = omega (
  arith,
  same a,
  length-append {0} (memory a) (list_bytes memory l),
  length-list_bytes memory size same l,
)

pub width-form : (v : Value) → width (form v) ≡ get_static_size (type_of v)
unfolding form type_of get_static_size
width-form (byte b) = refl
width-form (int z) = refl
width-form _ = refl

IsCounted-list_form {ℓ} :
    {A : Type ℓ} (memory : A → Bytes) (size : ℕ) (l : Option (List A))
    → ((a : A) → length (memory a) ≡ suc size)
    → IsCounted (list_form memory l)
IsCounted-list_form memory size none same = tt
IsCounted-list_form memory size (some l) same =
    omega (arith, length-list_bytes memory (suc size) same l)

pub IsCounted-form : (v : Value) → IsCounted (form v)
unfolding form
IsCounted-form (string s) = IsCounted-list_form byte_bytes 0 s (λ b. refl)
IsCounted-form (byte_list l) = IsCounted-list_form byte_bytes 0 l (λ b. refl)
IsCounted-form (int_list l) = IsCounted-list_form (signed_bytes (2 ^ 31) 4) 3 l (λ z. refl)
IsCounted-form (float_list l) = IsCounted-list_form (to_le_bytes 4) 3 l (λ b. refl)
IsCounted-form (long_list l) = IsCounted-list_form (signed_bytes (2 ^ 63) 8) 7 l (λ z. refl)
IsCounted-form (double_list l) = IsCounted-list_form (to_le_bytes 8) 7 l (λ b. refl)
IsCounted-form _ = tt
