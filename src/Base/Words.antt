-- ===== src/Base/Words.antt =====
-- Unsigned 64-bit integers: native numbers below `2 ^ 64`, with wrap-around written out.
use Prim.Native.Nat.{ℕ, ◌-◌, ◌%◌, ◌^◌, ◌<◌}
use mathlib.Core.Bool.{Bool}
use tar.Base.Tests.{leb}

abbrev pub u64_mod : ℕ
u64_mod = 2 ^ 64

abbrev pub IsU64 : ℕ → Type 0
IsU64 v = v < u64_mod

abbrev pub IsByte : ℕ → Type 0
IsByte b = b < 256

abbrev pub wrap : ℕ → ℕ
wrap v = v % u64_mod

-- Unary minus on uintmax_t.
abbrev pub negate : ℕ → ℕ
negate v = wrap (u64_mod - v)

-- The overflow flags of ckd_add and ckd_mul, which store the wrapped result.
abbrev pub overflows : ℕ → Bool
overflows v = leb u64_mod v

-- The bit pattern of the intmax_t value -1, which the conversions return on an error.
abbrev pub minus_one : ℕ
minus_one = u64_mod - 1
