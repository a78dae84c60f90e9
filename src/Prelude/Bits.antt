-- ===== src/Prelude/Bits.antt =====
-- Masks, disjoint fields and a flipped top bit as arithmetic, at every width.
-- The native operations mean `bitwise`, a recursion on binary digits with fuel.
use Prim.Native.Nat.{ℕ, zero, suc, ◌+◌, ◌-◌, ◌*◌, ◌/◌, ◌%◌, ◌^◌, ◌≤◌, ◌<◌, min, max, digits, differ}
use Prim.Native.Nat.{bit_and, bit_or, bit_xor, bit_and-bitwise, bit_or-bitwise, bit_xor-bitwise}
use mathlib.Core.Path.{◌≡◌, refl, ap, sym, ◌∙◌}
use native.Mathlib.Nat.{pow-suc, one-le-pow}
use native.Mathlib.Omega.{arith}

-- Any fuel that is at least the first number gives the same digits.
module _ (z : ℕ → ℕ) (f : ℕ → ℕ → ℕ) where
  digits-no_more : (fuel b : ℕ) → digits z f fuel 0 b ≡ z b
  digits-no_more zero b = refl
  digits-no_more (suc fuel) b = refl

  digits-fuel_eq :
      (b fuel more a : ℕ) → a ≤ more → a ≤ fuel → digits z f more a b ≡ digits z f fuel a b
  digits-fuel_eq b fuel more zero k l = digits-no_more more b ∙ sym (digits-no_more fuel b)
  digits-fuel_eq b zero more (suc a) k l = absurd (omega arith)
  digits-fuel_eq b (suc fuel) zero (suc a) k l = absurd (omega arith)
  digits-fuel_eq b (suc fuel) (suc more) (suc a) k l =
      let half : suc a / 2 ≤ a = omega arith in
      omega (arith, digits-fuel_eq (b / 2) fuel more (suc a / 2) (omega arith) (omega arith))

  -- The lowest digit of a positive first number, whatever the fuel of the rest.
  lowest_digit :
      (a b : ℕ)
      → digits z f (suc a) (suc a) b
        ≡ digits z f (suc a / 2) (suc a / 2) (b / 2) * 2 + f (suc a % 2) (b % 2)
  lowest_digit a b =
      omega (arith, digits-fuel_eq (b / 2) (suc a / 2) a (suc a / 2) (omega arith) (omega arith))

bit_and_step : (a b : ℕ) → bit_and (a / 2) (b / 2) * 2 + min (a % 2) (b % 2) ≡ bit_and a b
bit_and_step zero b = omega (arith, bit_and-bitwise 0 b, bit_and-bitwise 0 (b / 2))
bit_and_step (suc a) b =
    omega (
      arith,
      bit_and-bitwise (suc a) b,
      bit_and-bitwise (suc a / 2) (b / 2),
      lowest_digit _ min a b,
    )

bit_or_step : (a b : ℕ) → bit_or (a / 2) (b / 2) * 2 + max (a % 2) (b % 2) ≡ bit_or a b
bit_or_step zero b = omega (arith, bit_or-bitwise 0 b, bit_or-bitwise 0 (b / 2))
bit_or_step (suc a) b =
    omega
      (arith, bit_or-bitwise (suc a) b, bit_or-bitwise (suc a / 2) (b / 2), lowest_digit _ max a b)

bit_xor_step : (a b : ℕ) → bit_xor (a / 2) (b / 2) * 2 + differ (a % 2) (b % 2) ≡ bit_xor a b
bit_xor_step zero b = omega (arith, bit_xor-bitwise 0 b, bit_xor-bitwise 0 (b / 2))
bit_xor_step (suc a) b = omega (
  arith,
  bit_xor-bitwise (suc a) b,
  bit_xor-bitwise (suc a / 2) (b / 2),
  lowest_digit _ differ a b,
)

differ-zero : (a : ℕ) → differ a 0 ≡ a
differ-zero zero = refl
differ-zero (suc a) = refl

two_pow : (k : ℕ) → 2 ^ suc k ≡ 2 * 2 ^ k
two_pow k = omega (arith, pow-suc 2 k)

two_pow_half : (k : ℕ) → (2 ^ suc k / 2 ≡ 2 ^ k) × (2 ^ suc k % 2 ≡ 0)
two_pow_half k = omega (arith, two_pow k)

-- A flip of the bit above all others sets it, and a second flip clears it.
pub bit_xor_set : (k r : ℕ) → r < 2 ^ k → bit_xor r (2 ^ k) ≡ r + 2 ^ k
bit_xor_set zero zero h = refl
bit_xor_set zero (suc r) h = absurd (omega arith)
bit_xor_set (suc k) r h = ground (
  arith,
  two_pow k,
  two_pow_half k,
  bit_xor_step r (2 ^ suc k),
  bit_xor_set k (r / 2),
  differ-zero (r % 2),
)

pub bit_xor_clear : (k r : ℕ) → r < 2 ^ k → bit_xor (r + 2 ^ k) (2 ^ k) ≡ r
bit_xor_clear zero zero h = refl
bit_xor_clear zero (suc r) h = absurd (omega arith)
bit_xor_clear (suc k) r h = ground (
  arith,
  two_pow k,
  two_pow_half k,
  bit_xor_step (r + 2 ^ suc k) (2 ^ suc k),
  bit_xor_clear k (r / 2),
  differ-zero (r % 2),
)

bit_and-zero_fuel : (a fuel : ℕ) → a ≤ fuel → 0 ≡ bit_and a 0
bit_and-zero_fuel zero fuel l = refl
bit_and-zero_fuel (suc a) zero l = absurd (omega arith)
bit_and-zero_fuel (suc a) (suc fuel) l =
    let below : suc a / 2 ≤ fuel = omega arith in
    omega (arith, bit_and-zero_fuel (suc a / 2) fuel below, bit_and_step (suc a) 0)

bit_and_low : (k q r : ℕ) → r < 2 ^ k → bit_and (q * 2 ^ k + r) (2 ^ k - 1) ≡ r
bit_and_low zero q r h =
    sym (bit_and-zero_fuel (q * 2 ^ zero + r) (q * 2 ^ zero + r) (omega arith)) ∙ omega arith
bit_and_low (suc k) q r h = ground (
  arith,
  two_pow k,
  ap (λ (t : ℕ). q * t) (two_pow k),
  one-le-pow k 2,
  bit_and_step (q * 2 ^ suc k + r) (2 ^ suc k - 1),
  bit_and_low k q (r / 2),
)

-- A mask of `k` low bits is the remainder by `2 ^ k`.
pub bit_and_mask : (k a : ℕ) → bit_and a (2 ^ k - 1) ≡ a % 2 ^ k
bit_and_mask k a = ground (arith, one-le-pow k 2, bit_and_low k (a / 2 ^ k) (a % 2 ^ k))

bit_or-zero_fuel : (a fuel : ℕ) → a ≤ fuel → a ≡ bit_or a 0
bit_or-zero_fuel zero fuel l = refl
bit_or-zero_fuel (suc a) zero l = absurd (omega arith)
bit_or-zero_fuel (suc a) (suc fuel) l =
    let below : suc a / 2 ≤ fuel = omega arith in
    omega (arith, bit_or-zero_fuel (suc a / 2) fuel below, bit_or_step (suc a) 0)

-- Two fields that share no bit are added.
pub bit_or_field : (k q r : ℕ) → r < 2 ^ k → bit_or r (q * 2 ^ k) ≡ q * 2 ^ k + r
bit_or_field zero q zero h = rw bit_or-bitwise (omega arith)
bit_or_field zero q (suc r) h = absurd (omega arith)
bit_or_field (suc k) q r h = ground (
  arith,
  ap (λ (t : ℕ). q * t) (two_pow k),
  two_pow k,
  bit_or_step r (q * 2 ^ suc k),
  bit_or_field k q (r / 2),
)
