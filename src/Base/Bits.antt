-- ===== src/Base/Bits.antt =====
-- `bit_or` of fields that do not overlap and `bit_and` with the low bits, as arithmetic. The two
-- operations mean a recursion on binary digits, with fuel that the first lemma removes.
use Prim.Native.Nat.{ℕ, zero, suc, ◌+◌, ◌-◌, ◌*◌, ◌/◌, ◌%◌, ◌^◌, ◌≤◌, ◌<◌, min, max}
use Prim.Native.Nat.{bit_and, bit_or, digits, bit_and-bitwise, bit_or-bitwise}
use mathlib.Core.Path.{◌≡◌, refl, ap}
use native.Mathlib.Nat.{pow-suc, one-le-pow}
use native.Mathlib.Omega.{arith}

module _ (base : ℕ → ℕ) (digit : ℕ → ℕ → ℕ) where
  abbrev value_at : ℕ → ℕ → ℕ → ℕ
  value_at = digits base digit

  any_fuel : (x y f g : ℕ) → x ≤ f → x ≤ g → value_at f x y ≡ value_at g x y
  any_fuel zero y zero zero hf hg = refl
  any_fuel zero y zero (suc g) hf hg = refl
  any_fuel zero y (suc f) zero hf hg = refl
  any_fuel zero y (suc f) (suc g) hf hg = refl
  any_fuel (suc x) y zero g hf hg = absurd (omega arith)
  any_fuel (suc x) y (suc f) zero hf hg = absurd (omega arith)
  any_fuel (suc x) y (suc f) (suc g) hf hg =
      ap (λ (t : ℕ). t * 2 + digit (suc x % 2) (y % 2))
        (any_fuel (suc x / 2) (y / 2) f g (omega arith) (omega arith))

bit_or-digit : (x y : ℕ) → bit_or x y ≡ bit_or (x / 2) (y / 2) * 2 + max (x % 2) (y % 2)
bit_or-digit zero y = simp bit_or-bitwise (omega arith)
bit_or-digit (suc x) y = simp bit_or-bitwise (
    omega
      (arith, any_fuel (λ b. b) max (suc x / 2) (y / 2) x (suc x / 2) (omega arith) (omega arith)))

bit_and-digit : (x y : ℕ) → bit_and x y ≡ bit_and (x / 2) (y / 2) * 2 + min (x % 2) (y % 2)
bit_and-digit zero y = simp bit_and-bitwise (omega arith)
bit_and-digit (suc x) y = simp bit_and-bitwise (
    omega
      (arith, any_fuel (λ b. 0) min (suc x / 2) (y / 2) x (suc x / 2) (omega arith) (omega arith)))

-- Halving reaches zero: `bound` is any number not below the operand.
or_nothing : (bound x : ℕ) → x ≤ bound → bit_or x 0 ≡ x
or_nothing bound zero h = omega (arith, bit_or-digit 0 0)
or_nothing zero (suc x) h = absurd (omega arith)
or_nothing (suc bound) (suc x) h =
    omega (arith, bit_or-digit (suc x) 0, or_nothing bound (suc x / 2) (omega arith))

and_nothing : (bound x : ℕ) → x ≤ bound → bit_and x 0 ≡ 0
and_nothing bound zero h = omega (arith, bit_and-digit 0 0)
and_nothing zero (suc x) h = absurd (omega arith)
and_nothing (suc bound) (suc x) h =
    omega (arith, bit_and-digit (suc x) 0, and_nothing bound (suc x / 2) (omega arith))

twice_power : (high width : ℕ) → high * 2 ^ suc width ≡ 2 * (high * 2 ^ width)
twice_power high width = omega (arith, ap (λ (p : ℕ). high * p) (pow-suc 2 width))

-- A low part that fits `width` bits, under a multiple of `2 ^ width`.
pub bit_or-disjoint :
    (width high low : ℕ) → low < 2 ^ width → bit_or (high * 2 ^ width) low ≡ high * 2 ^ width + low
bit_or-disjoint zero high low fits = ground (arith, or_nothing high high (omega arith))
bit_or-disjoint (suc width) high low fits = ground (
  arith,
  twice_power high width,
  pow-suc 2 width,
  bit_or-digit (high * 2 ^ suc width) low,
  bit_or-disjoint width high (low / 2) (omega (arith, pow-suc 2 width)),
)

ones_step : (width : ℕ) → (2 ^ suc width - 1) / 2 ≡ 2 ^ width - 1
ones_step width = omega (arith, pow-suc 2 width)

ones_odd : (width : ℕ) → (2 ^ suc width - 1) % 2 ≡ 1
ones_odd width = omega (arith, pow-suc 2 width, one-le-pow width 2 (omega arith))

and_low_part :
    (width high low : ℕ) → low < 2 ^ width → bit_and (high * 2 ^ width + low) (2 ^ width - 1) ≡ low
and_low_part zero high low fits =
    omega (arith, and_nothing (high * 1 + low) (high * 1 + low) (omega arith))
and_low_part (suc width) high low fits = ground (
  arith,
  twice_power high width,
  pow-suc 2 width,
  ones_step width,
  ones_odd width,
  bit_and-digit (high * 2 ^ suc width + low) (2 ^ suc width - 1),
  and_low_part width high (low / 2) (omega (arith, pow-suc 2 width)),
)

pub bit_and-low_ones : (width x : ℕ) → bit_and x (2 ^ width - 1) ≡ x % 2 ^ width
bit_and-low_ones width x =
    ground (arith, one-le-pow width 2, and_low_part width (x / 2 ^ width) (x % 2 ^ width))
