-- ===== src/Prelude/Bytes.antt =====
-- Fixed-width numbers as bytes, in both orders, and the byte strings of the database.
use Prim.Native.Nat.{ℕ, zero, suc, ◌+◌, ◌*◌, ◌/◌, ◌%◌, ◌^◌, ◌<◌, compare, Ordering}
use mathlib.Core.Path.{◌≡◌, refl, ap}
use mathlib.Core.List.{List, [], ◌∷◌, ◌++◌, append_assoc}
use native.Mathlib.Nat.{pow-suc}
use native.Mathlib.Omega.{arith}
use isar_core.Prelude.Lists.{length, All, length-append}

abbrev pub Bytes : Type 0
Bytes = List ℕ

abbrev pub IsByte : ℕ → Type 0
IsByte b = b < 256

-- `to_le_bytes` and `to_be_bytes` of a number of `w` bytes.
unfoldable pub to_le_bytes : ℕ → ℕ → Bytes
to_le_bytes zero n = []
to_le_bytes (suc w) n = n % 256 ∷ to_le_bytes w (n / 256)

unfoldable pub to_be_bytes : ℕ → ℕ → Bytes
to_be_bytes zero n = []
to_be_bytes (suc w) n = to_be_bytes w (n / 256) ++ n % 256 ∷ []

-- `from_le_bytes`, of any number of bytes.
unfoldable pub from_le_bytes : Bytes → ℕ
from_le_bytes [] = 0
from_le_bytes (b ∷ bs) = b + 256 * from_le_bytes bs

pub length-to_le_bytes : (w n : ℕ) → length (to_le_bytes w n) ≡ w
unfolding to_le_bytes
length-to_le_bytes zero n = refl
length-to_le_bytes (suc w) n = ap suc (length-to_le_bytes w (n / 256))

pub length-to_be_bytes : (w n : ℕ) → length (to_be_bytes w n) ≡ w
unfolding to_be_bytes
length-to_be_bytes zero n = refl
length-to_be_bytes (suc w) n = omega (
  arith,
  length-append {0} (to_be_bytes w (n / 256)) (n % 256 ∷ []),
  length-to_be_bytes w (n / 256),
)

pub to_le_bytes-IsByte : (w n : ℕ) → All IsByte (to_le_bytes w n)
unfolding to_le_bytes
to_le_bytes-IsByte zero n = tt
to_le_bytes-IsByte (suc w) n = (omega arith, to_le_bytes-IsByte w (n / 256))

pub from_le_bytes-to_le_bytes : (w n : ℕ) → n < 256 ^ w → from_le_bytes (to_le_bytes w n) ≡ n
unfolding from_le_bytes to_le_bytes
from_le_bytes-to_le_bytes zero n h = omega arith
from_le_bytes-to_le_bytes (suc w) n h =
    omega (arith, from_le_bytes-to_le_bytes w (n / 256) (omega (arith, pow-suc 256 w)))

-- The order of byte slices, `<[u8] as Ord>::cmp`: lexicographic, a prefix first.
unfoldable pub compare_bytes : Bytes → Bytes → Ordering
compare_bytes [] [] = Ordering.eq
compare_bytes [] (y ∷ ys) = Ordering.lt
compare_bytes (x ∷ xs) [] = Ordering.gt
compare_bytes (x ∷ xs) (y ∷ ys) = elim (compare x y) [
  | Ordering.lt ↦ Ordering.lt
  | Ordering.eq ↦ compare_bytes xs ys
  | Ordering.gt ↦ Ordering.gt
]

pub compare_bytes-append_same :
    (p xs ys : Bytes) → compare_bytes (p ++ xs) (p ++ ys) ≡ compare_bytes xs ys
unfolding compare_bytes
compare_bytes-append_same [] xs ys = refl
compare_bytes-append_same (x ∷ p) xs ys = ground (arith, compare_bytes-append_same p xs ys)

-- The second comparison decides where the first is equal, as `Ordering::then`.
abbrev pub then_compare : Ordering → Ordering → Ordering
then_compare Ordering.lt o = Ordering.lt
then_compare Ordering.eq o = o
then_compare Ordering.gt o = Ordering.gt

-- Big-endian numbers of one width compare as the numbers do, and what follows them decides a tie.
pub compare_bytes-to_be_bytes :
    (w a b : ℕ) (xs ys : Bytes)
    → a < 256 ^ w
    → b < 256 ^ w
    → compare_bytes (to_be_bytes w a ++ xs) (to_be_bytes w b ++ ys)
      ≡ then_compare (compare a b) (compare_bytes xs ys)
unfolding to_be_bytes
compare_bytes-to_be_bytes zero a b xs ys ha hb = ground arith
compare_bytes-to_be_bytes (suc w) a b xs ys ha hb =
    let below = pow-suc 256 w in
    rw
      (
        append_assoc (to_be_bytes w (a / 256)),
        append_assoc (to_be_bytes w (b / 256)),
        compare_bytes-to_be_bytes w (a / 256) (b / 256) (a % 256 ∷ xs) (b % 256 ∷ ys) (omega arith)
            (omega arith),
      )
      (unfold compare_bytes in ground arith)
