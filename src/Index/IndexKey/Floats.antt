-- ===== src/Index/IndexKey/Floats.antt =====
-- Keys that differ in a float are ordered as the floats are, with NaN first.
use isar_core.Prelude.{
  ℕ, zero, suc, ◌+◌, ◌-◌, ◌*◌, ◌/◌, ◌%◌, ◌^◌, ◌≤◌, ◌<◌, ◌≡◌, refl, arith, compare, Ordering,
}
use isar_core.Prelude.{true, false, ltb, if◌then◌else◌, ◌++◌}
use isar_core.Prelude.Bytes.{Bytes, compare_bytes}
use isar_core.Object.Float.{float_gt}
use isar_core.Object.IsarObject.{is_nan_f32, is_nan_f64}
use isar_core.Object.IsarObject.Compare.{compare_floats}
use isar_core.Index.IndexKey.{IndexKey, add_float, add_double, ordered_bits}
use isar_core.Index.IndexKey.Numbers.{compare-extended}

ordered_bits_bound : (half a : ℕ) → a < 2 * half → ordered_bits half a < 2 * half
unfolding ordered_bits
ordered_bits_bound half a h = ground arith

-- Greater floats have greater ordered bits.
ordered_bits_gt :
    (half a b : ℕ)
    → a < 2 * half
    → b < 2 * half
    → float_gt half a b ≡ true
    → compare (ordered_bits half a) (ordered_bits half b) ≡ Ordering.gt
unfolding ordered_bits
ordered_bits_gt half a b ha hb h = ground arith

rest_of_high :
    (half q r a : ℕ) → a ≡ half * q + r → r < half → half ≤ a → a < 2 * half → r ≡ a - half
rest_of_high half zero r a h hr low high = omega arith
rest_of_high half (suc zero) r a h hr low high = omega arith
rest_of_high half (suc (suc q)) r a h hr low high = absurd (omega arith)

high_rest : (half a : ℕ) → half ≤ a → a < 2 * half → a % half ≡ a - half
high_rest half a low high =
    rest_of_high half (a / half) (a % half) a (omega arith) (omega arith) low high

-- The bits of a float in a key, over the bits of infinity and the value of the sign bit.
abbrev key_bits : ℕ → ℕ → ℕ → ℕ
key_bits inf half a = if ltb inf (a % half) then 0 else ordered_bits half a

-- NaN is 0, below the bits of all other floats.
nan_first :
    (inf half a : ℕ)
    → suc inf < half
    → a < 2 * half
    → ltb inf (a % half) ≡ false
    → 0 < key_bits inf half a
unfolding ordered_bits
nan_first inf half a h ha hn = ground (arith, high_rest half a)

key_bits_bound : (inf half a : ℕ) → 0 < half → a < 2 * half → key_bits inf half a < 2 * half
key_bits_bound inf half a h ha = ground (arith, ordered_bits_bound half a ha)

key_bits-gt :
    (inf half a b : ℕ)
    → suc inf < half
    → a < 2 * half
    → b < 2 * half
    → compare_floats (λ x. ltb inf (x % half)) half a b ≡ Ordering.gt
    → compare (key_bits inf half a) (key_bits inf half b) ≡ Ordering.gt
unfolding compare_floats
key_bits-gt inf half a b h ha hb hg = ground (arith, ordered_bits_gt half a b, nan_first inf half a)

-- A float that compares greater than another makes a key to which it is added greater, whatever is added
-- later: NaN is below all others.
pub compare-add_float :
    (key : IndexKey) (a b : ℕ) (xs ys : Bytes)
    → a < 2 ^ 32
    → b < 2 ^ 32
    → compare_floats is_nan_f32 (2 ^ 31) a b ≡ Ordering.gt
    → compare_bytes ((add_float key a).bytes ++ xs) ((add_float key b).bytes ++ ys) ≡ Ordering.gt
unfolding add_float
compare-add_float key a b xs ys ha hb h =
    rw
      (
        compare-extended (key.bytes) 4 (key_bits 0x7f80_0000 (2 ^ 31) a)
            (key_bits 0x7f80_0000 (2 ^ 31) b) xs ys
            (key_bits_bound 0x7f80_0000 (2 ^ 31) a (omega arith) ha)
            (key_bits_bound 0x7f80_0000 (2 ^ 31) b (omega arith) hb),
        key_bits-gt 0x7f80_0000 (2 ^ 31) a b (omega arith) ha hb h,
      )
      refl

-- A double that compares greater than another makes a key to which it is added greater, whatever is added
-- later: NaN is below all others.
pub compare-add_double :
    (key : IndexKey) (a b : ℕ) (xs ys : Bytes)
    → a < 2 ^ 64
    → b < 2 ^ 64
    → compare_floats is_nan_f64 (2 ^ 63) a b ≡ Ordering.gt
    → compare_bytes ((add_double key a).bytes ++ xs) ((add_double key b).bytes ++ ys) ≡ Ordering.gt
unfolding add_double
compare-add_double key a b xs ys ha hb h =
    rw
      (
        compare-extended (key.bytes) 8 (key_bits 0x7ff0_0000_0000_0000 (2 ^ 63) a)
            (key_bits 0x7ff0_0000_0000_0000 (2 ^ 63) b) xs ys
            (key_bits_bound 0x7ff0_0000_0000_0000 (2 ^ 63) a (omega arith) ha)
            (key_bits_bound 0x7ff0_0000_0000_0000 (2 ^ 63) b (omega arith) hb),
        key_bits-gt 0x7ff0_0000_0000_0000 (2 ^ 63) a b (omega arith) ha hb h,
      )
      refl
