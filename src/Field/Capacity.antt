-- ===== src/Field/Capacity.antt =====
-- What `max_val_with_digits` bounds: the numbers with that many octal or base-256 digits.
use native.Mathlib.Nat.{
  pow-suc, pow-succ', pow-le-pow_right, one-le-pow, div-div-eq-div-mul, le_trans,
}
use native.Mathlib.Numerals.{towards_suc}
use tar.Base.{
  ℕ, zero, suc, ◌+◌, ◌*◌, ◌/◌, ◌^◌, ◌≤◌, ◌<◌, ◌≡◌, refl, sym, ◌∙◌, ap, arith, ltb, inl, inr,
  Bool-cases,
}
use tar.Base.Words.{IsU64}
use tar.Field.Encode.{max_val_with_digits}

eight_times : (m : ℕ) → 2 ^ (m + 3) ≡ 2 ^ m * 8
eight_times m = simp towards_suc (omega arith)

byte_times : (m : ℕ) → 2 ^ (m + 8) ≡ 2 ^ m * 256
byte_times m = simp towards_suc (omega arith)

two_pow-mul-three : (n : ℕ) → 2 ^ (n * 3) ≡ 8 ^ n
two_pow-mul-three zero = refl
two_pow-mul-three (suc n) =
    ap (λ (k : ℕ). 2 ^ k) {y = n * 3 + 3} (omega arith)
    ∙ omega (arith, eight_times (n * 3), two_pow-mul-three n, pow-suc 8 n)

two_pow-mul-eight : (n : ℕ) → 2 ^ (n * 8) ≡ 256 ^ n
two_pow-mul-eight zero = refl
two_pow-mul-eight (suc n) =
    ap (λ (k : ℕ). 2 ^ k) {y = n * 8 + 8} (omega arith)
    ∙ omega (arith, byte_times (n * 8), two_pow-mul-eight n, pow-suc 256 n)

-- A word within the bound has no digit in front of the field.
fits : (digits bits v : ℕ) → IsU64 v → v ≤ max_val_with_digits digits bits → v < 2 ^ (digits * bits)
unfolding max_val_with_digits
fits digits bits v w h = elim (Bool-cases (ltb (digits * bits) 64)) [
  | inl short ↦ omega (arith, rw short at h, one-le-pow (digits * bits) 2 (omega arith))
  | inr long ↦
      let wide : 64 ≤ digits * bits = ground arith in
      le_trans w (pow-le-pow_right {n = 2} (omega arith) wide)
]

pub octal_fits : (n v : ℕ) → IsU64 v → v ≤ max_val_with_digits n 3 → v < 8 ^ n
octal_fits n v w h = rw (two_pow-mul-three n) at (fits n 3 v w h)

pub base256_fits : (n v : ℕ) → IsU64 v → v ≤ max_val_with_digits n 8 → v < 256 ^ n
base256_fits n v w h = rw (two_pow-mul-eight n) at (fits n 8 v w h)

-- Dropping digits one at a time.
pub div-pow-suc : (base v i : ℕ) → v / base ^ suc i ≡ v / base ^ i / base
div-pow-suc base v i =
    ap (λ (m : ℕ). v / m) (pow-suc base i) ∙ sym (div-div-eq-div-mul v (base ^ i) base)

pub div-div-pow : (base v i : ℕ) → v / base / base ^ i ≡ v / base ^ suc i
div-div-pow base v i =
    div-div-eq-div-mul v base (base ^ i) ∙ ap (λ (m : ℕ). v / m) (sym (pow-succ' base i))
