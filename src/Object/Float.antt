-- ===== src/Object/Float.antt =====
-- The comparisons of `f32` and `f64` on their bits, as IEEE 754 defines them. `half` is the value of
-- the sign bit.
use isar_core.Prelude.{ℕ, zero, suc, ◌-◌, Bool, ltb, if◌then◌else◌}
use isar_core.Prelude.Int.{ℤ, pos, negsuc, ltb_ℤ, leb_ℤ}

abbrev negate : ℕ → ℤ
negate zero = pos 0
negate (suc n) = negsuc n

-- The magnitude with its sign, by which floats that are not NaN compare. Both zeros are 0.
abbrev pub float_value : ℕ → ℕ → ℤ
float_value half bits = if ltb bits half then pos bits else negate (bits - half)

-- `a > b`, `a <= b` and `a >= b` of floats that are not NaN.
abbrev pub float_gt : ℕ → ℕ → ℕ → Bool
float_gt half a b = ltb_ℤ (float_value half b) (float_value half a)

abbrev pub float_le : ℕ → ℕ → ℕ → Bool
float_le half a b = leb_ℤ (float_value half a) (float_value half b)
