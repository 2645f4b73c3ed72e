-- ===== src/Decimal/Digits.antt =====
-- A printer of decimal numbers, to run what takes one.
use native.Mathlib.Nat.{pow-suc}
use tar.Base.{
  ℕ, zero, suc, ◌+◌, ◌-◌, ◌*◌, ◌/◌, ◌%◌, ◌^◌, ◌<◌, ◌≤◌, ◌≡◌, refl, ap, ◌∙◌, arith, true, [], ◌∷◌,
  ◌++◌, length, length-append, ltb, if◌then◌else◌, Bool-cases, inl, inr,
}
use tar.Base.Text.{Bytes}
use tar.Decimal.{decimal_value, all_digits, DecimalPrinter}

unfoldable pub digits : ℕ → ℕ → Bytes
digits zero n = []
digits (suc fuel) n =
    let front = digits fuel (n / 10) in
    if ltb n 10 then (b'0' + n) ∷ [] else front ++ ((b'0' + n % 10) ∷ [])

all_digits-append :
    (a b : Bytes) → all_digits a ≡ true → all_digits b ≡ true → all_digits (a ++ b) ≡ true
all_digits-append [] b h k = k
all_digits-append (c ∷ a) b h k = ground (arith, all_digits-append a b)

decimal_value-append :
    (a b : Bytes) (i : ℕ) → decimal_value i (a ++ b) ≡ decimal_value (decimal_value i a) b
decimal_value-append [] b i = refl
decimal_value-append (c ∷ a) b i = decimal_value-append a b (i * 10 + (c - b'0'))

digits_short : (fuel n : ℕ) → n < 10 → digits (suc fuel) n ≡ (b'0' + n) ∷ []
unfolding digits
digits_short fuel n h = ground arith

digits_long :
    (fuel n : ℕ) → 10 ≤ n → digits (suc fuel) n ≡ digits fuel (n / 10) ++ ((b'0' + n % 10) ∷ [])
unfolding digits
digits_long fuel n h = ground arith

pub all_digits-digits : (fuel n : ℕ) → all_digits (digits fuel n) ≡ true
unfolding digits
all_digits-digits zero n = refl
all_digits-digits (suc fuel) n = elim (Bool-cases (ltb n 10)) [
  | inl short ↦ rw (digits_short fuel n (ground arith)) (ground arith)
  | inr long ↦ rw (digits_long fuel n (ground arith)) (
      all_digits-append (digits fuel (n / 10)) ((b'0' + n % 10) ∷ [])
        (all_digits-digits fuel (n / 10)) (ground arith))
]

pub value-digits : (fuel n : ℕ) → n < fuel → decimal_value 0 (digits fuel n) ≡ n
value-digits zero n h = absurd (omega arith)
value-digits (suc fuel) n h = elim (Bool-cases (ltb n 10)) [
  | inl short ↦ rw (digits_short fuel n (ground arith)) (omega arith)
  | inr long ↦
      let big : 10 ≤ n = ground arith in
      rw (digits_long fuel n big) (
        decimal_value-append (digits fuel (n / 10)) ((b'0' + n % 10) ∷ []) 0
        ∙ omega (arith, value-digits fuel (n / 10) (omega arith)))
]

pub digits_nonempty : (fuel n : ℕ) → 1 ≤ length (digits (suc fuel) n)
digits_nonempty fuel n = elim (Bool-cases (ltb n 10)) [
  | inl short ↦ rw (digits_short fuel n (ground arith)) (omega arith)
  | inr long ↦
      rw (digits_long fuel n (ground arith))
        (omega (arith, length-append (digits fuel (n / 10)) ((b'0' + n % 10) ∷ [])))
]

pub digits_shortest : (fuel n : ℕ) → n < fuel → 1 ≤ n → 10 ^ length (digits fuel n) ≤ n * 10
digits_shortest zero n h pos = absurd (omega arith)
digits_shortest (suc fuel) n h pos = elim (Bool-cases (ltb n 10)) [
  | inl short ↦ rw (digits_short fuel n (ground arith)) (omega arith)
  | inr long ↦
      let big : 10 ≤ n = ground arith in
      let front = digits fuel (n / 10) in
      let size : length (front ++ ((b'0' + n % 10) ∷ [])) ≡ suc (length front) =
        omega (arith, length-append front ((b'0' + n % 10) ∷ [])) in
      rw (digits_long fuel n big) (
        omega (
          arith,
          digits_shortest fuel (n / 10) (omega arith) (omega arith),
          ap (λ (m : ℕ). 10 ^ m) size,
          pow-suc 10 (length front),
        ))
]

abbrev pub digit_printer : DecimalPrinter
digit_printer = record {
  to_str = λ n. digits (suc n) n;
  to_str-all_digits = λ n. all_digits-digits (suc n) n;
  to_str-value = λ n. value-digits (suc n) n (omega arith);
  to_str_nonempty = λ n. digits_nonempty n n;
  to_str_shortest = λ n pos. digits_shortest (suc n) n (omega arith) pos;
}
