-- ===== src/Decimal/Parse.antt =====
-- `stoint` on text that begins with printed digits.
use native.Mathlib.Nat.{mod-eq_of_lt}
use tar.Base.{
  ℕ, ◌+◌, ◌-◌, ◌*◌, ◌^◌, ◌<◌, ◌≤◌, ◌≡◌, refl, ◌∙◌, ap, arith, Bool, true, false, [], ◌∷◌, ◌++◌,
  length, if◌then◌else◌,
}
use tar.Base.Text.{Bytes}
use tar.Base.Words.{u64_mod}
use tar.Decimal.{c_isdigit, digit_loop, stoint, decimal_value, all_digits, DecimalPrinter}

-- What stands behind the digits is no digit.
abbrev pub ends_digits : Bytes → Bool
ends_digits [] = true
ends_digits (c ∷ cs) = if c_isdigit c then false else true

decimal_value-le : (cs : Bytes) (i : ℕ) → i ≤ decimal_value i cs
decimal_value-le [] i = omega arith
decimal_value-le (c ∷ cs) i = omega (arith, decimal_value-le cs (i * 10 + (c - b'0')))

digit_loop-digits :
    (cs : Bytes) (limit i : ℕ) (rest : Bytes)
    → all_digits cs ≡ true
    → ends_digits rest ≡ true
    → decimal_value i cs < limit
    → digit_loop limit i false (cs ++ rest)
      ≡ record { value = decimal_value i cs; arglim = rest; overflow = false }
unfolding digit_loop
digit_loop-digits [] limit i [] h e small = refl
digit_loop-digits [] limit i (c ∷ rest) h e small = ground arith
digit_loop-digits (c ∷ cs) limit i rest h e small =
    let next = i * 10 + (c - b'0') in
    ground (
      arith,
      mod-eq_of_lt {n = next} {m = limit} (omega (arith, decimal_value-le cs next)),
      decimal_value-le cs next,
      digit_loop-digits cs limit next rest,
    )

-- The same from the first digit on.
stoint-digits :
    (cs : Bytes) (maxval : ℕ) (rest : Bytes)
    → all_digits cs ≡ true
    → 1 ≤ length cs
    → ends_digits rest ≡ true
    → decimal_value 0 cs < u64_mod
    → decimal_value 0 cs ≤ maxval
    → stoint (cs ++ rest) 0 maxval
      ≡ record { value = decimal_value 0 cs; arglim = rest; overflow = false }
unfolding stoint
stoint-digits [] maxval rest h n e w top = absurd (omega arith)
stoint-digits (c ∷ cs) maxval rest h n e w top =
    ground (arith, digit_loop-digits cs u64_mod (c - b'0') rest)

-- The same for a type with negative numbers.
stoint_signed-digits :
    (cs : Bytes) (maxval : ℕ) (rest : Bytes)
    → all_digits cs ≡ true
    → 1 ≤ length cs
    → ends_digits rest ≡ true
    → decimal_value 0 cs < 2 ^ 63
    → decimal_value 0 cs ≤ maxval
    → stoint (cs ++ rest) (2 ^ 63) maxval
      ≡ record { value = decimal_value 0 cs; arglim = rest; overflow = false }
unfolding stoint
stoint_signed-digits [] maxval rest h n e w top = absurd (omega arith)
stoint_signed-digits (c ∷ cs) maxval rest h n e w top =
    ground (arith, digit_loop-digits cs (2 ^ 63) (c - b'0') rest)

pub stoint_signed-to_str :
    (printer : DecimalPrinter) (n maxval : ℕ) (rest : Bytes)
    → n < 2 ^ 63
    → n ≤ maxval
    → ends_digits rest ≡ true
    → stoint (printer.to_str n ++ rest) (2 ^ 63) maxval
      ≡ record { value = n; arglim = rest; overflow = false }
stoint_signed-to_str printer n maxval rest w top e =
    let v = printer.to_str-value n in
    stoint_signed-digits (printer.to_str n) maxval rest (printer.to_str-all_digits n)
      (printer.to_str_nonempty n) e (omega (arith, v)) (omega (arith, v))
    ∙ ap (λ (k : ℕ). record { value = k; arglim = rest; overflow = false }) v

-- `stoint` reads a printed number back and returns the text behind it, where that begins with no
-- digit and the number is at most `maxval`.
pub stoint-to_str :
    (printer : DecimalPrinter) (n maxval : ℕ) (rest : Bytes)
    → n < u64_mod
    → n ≤ maxval
    → ends_digits rest ≡ true
    → stoint (printer.to_str n ++ rest) 0 maxval
      ≡ record { value = n; arglim = rest; overflow = false }
stoint-to_str printer n maxval rest w top e =
    let v = printer.to_str-value n in
    stoint-digits (printer.to_str n) maxval rest (printer.to_str-all_digits n)
      (printer.to_str_nonempty n) e (omega (arith, v)) (omega (arith, v))
    ∙ ap (λ (k : ℕ). record { value = k; arglim = rest; overflow = false }) v
