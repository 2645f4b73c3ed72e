-- ===== src/Pax/Size.antt =====
-- The loop of `xheader_print_n` ends, with the length of the record that it is part of.
use native.Mathlib.Nat.{pow-suc, pow-le-pow_right}
use tar.Base.{
  ℕ, zero, suc, ◌+◌, ◌-◌, ◌*◌, ◌^◌, ◌<◌, ◌≤◌, ◌≡◌, ◌∙◌, ap, arith, true, Option, some, [], ◌∷◌,
  length, ltb, ◌≢◌, ◌⊎◌, inl, inr, Bool-cases, ltb→lt,
}
use tar.Base.Text.{Bytes}
use tar.Decimal.{decimal_value, all_digits, DecimalPrinter}
use tar.Pax.{size_loop}

scaled : (x y q : ℕ) → x ≤ y → x * q ≤ y * q
scaled x y q h = grind arith

decimal_value-lt :
    (cs : Bytes) (i : ℕ) → all_digits cs ≡ true → decimal_value i cs < (i + 1) * 10 ^ length cs
decimal_value-lt [] i h = omega arith
decimal_value-lt (c ∷ cs) i h = omega (
  arith,
  decimal_value-lt cs (i * 10 + (c - b'0')) (ground arith),
  scaled (i * 10 + (c - b'0') + 1) ((i + 1) * 10) (10 ^ length cs) (ground arith),
  ap (λ (q : ℕ). (i + 1) * q) (pow-suc 10 (length cs)),
)

lt-pow_ten : (n : ℕ) → n < 10 ^ n
lt-pow_ten zero = omega arith
lt-pow_ten (suc n) = omega (arith, lt-pow_ten n, pow-suc 10 n)

pow_ten_reflects : (a b : ℕ) → 10 ^ a < 10 ^ b → a < b
pow_ten_reflects a b h = elim (Bool-cases (ltb a b)) [
  | inl less ↦ ltb→lt a b less
  | inr more ↦
      let le : b ≤ a = ground arith in
      absurd (omega (arith, pow-le-pow_right {n = 10} (omega arith) le))
]

module _ (printer : DecimalPrinter) where
  open printer use {to_str, to_str-all_digits, to_str-value, to_str_nonempty, to_str_shortest}

  abbrev pub width : ℕ → ℕ
  width n = length (to_str n)

  lt-width : (n : ℕ) → n < 10 ^ width n
  lt-width n = omega (arith, to_str-value n, decimal_value-lt (to_str n) 0 (to_str-all_digits n))

  -- Numbers between two powers of ten have the same width.
  width_between : (k n : ℕ) → 10 ^ k ≤ n → n < 10 ^ suc k → width n ≡ suc k
  width_between k n lo hi = omega (
    arith,
    pow_ten_reflects k (width n) (omega (arith, lt-width n)),
    pow_ten_reflects (width n) (suc (suc k))
        (omega (arith, to_str_shortest n (omega (arith, lt-pow_ten k)), pow-suc 10 (suc k))),
  )

  -- The second round finds the width, or one less than it; then the third does.
  rounds :
      (len k : ℕ)
      → 10 ^ k ≤ len
      → len < 10 ^ suc k
      → (width (len + suc k) ≡ suc k)
        ⊎ ((width (len + suc k) ≡ suc (suc k)) × (width (len + suc (suc k)) ≡ suc (suc k)))
  rounds len k lo hi = elim (Bool-cases (ltb (len + suc k) (10 ^ suc k))) [
    | inl short ↦ inl (width_between k (len + suc k) (omega arith) (ground arith))
    | inr long ↦ inr (
      width_between (suc k) (len + suc k) (ground arith)
          (omega (arith, lt-pow_ten (suc k), pow-suc 10 (suc k))),
      width_between (suc k) (len + suc (suc k)) (ground arith)
          (omega (arith, lt-pow_ten (suc k), pow-suc 10 (suc k))),
    )
  ]

  -- The text that the loop ends with: its size is the one that the number in it counts.
  abbrev pub Settles : ℕ → Option Bytes → Type 0
  Settles len o = (n : ℕ) × (o ≡ some (to_str (len + n))) × (width (len + n) ≡ n)

  size_loop_stop :
      (fuel len p : ℕ)
      → width (len + p) ≡ p
      → size_loop printer (suc fuel) len p ≡ some (to_str (len + p))
  unfolding size_loop
  size_loop_stop fuel len p e = ground arith

  size_loop_go :
      (fuel len p w : ℕ)
      → width (len + p) ≡ w
      → w ≢ p
      → size_loop printer (suc fuel) len p ≡ size_loop printer fuel len w
  unfolding size_loop
  size_loop_go fuel len p w e ne = ground (arith, ap (size_loop printer fuel len) e)

  first_round :
      (len k : ℕ)
      → 10 ^ k ≤ len
      → len < 10 ^ suc k
      → size_loop printer 3 len 0 ≡ size_loop printer 2 len (suc k)
  first_round len k lo hi =
      size_loop_go 2 len 0 (suc k) (ap width (omega arith) ∙ width_between k len lo hi)
        (omega arith)

  later_rounds :
      (len k : ℕ) → 10 ^ k ≤ len → len < 10 ^ suc k → Settles len (size_loop printer 2 len (suc k))
  later_rounds len k lo hi = elim (rounds len k lo hi) [
    | inl same ↦ (suc k, size_loop_stop 1 len (suc k) same, same)
    | inr (wider, stays) ↦ (
      suc (suc k),
      size_loop_go 1 len (suc k) (suc (suc k)) wider (omega arith)
          ∙ size_loop_stop 0 len (suc (suc k)) stays,
      stays,
    )
  ]

  pub size_loop-Settles : (len : ℕ) → 1 ≤ len → Settles len (size_loop printer 3 len 0)
  size_loop-Settles len h =
      let k : ℕ = width len - 1 in
      let w : width len ≡ suc k = omega (arith, to_str_nonempty len) in
      let lo : 10 ^ k ≤ len =
        omega (arith, to_str_shortest len h, ap (λ (m : ℕ). 10 ^ m) w, pow-suc 10 k) in
      let hi : len < 10 ^ suc k = omega (arith, lt-width len, ap (λ (m : ℕ). 10 ^ m) w) in
      rw (first_round len k lo hi) (later_rounds len k lo hi)
