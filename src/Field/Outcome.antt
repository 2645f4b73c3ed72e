-- ===== src/Field/Outcome.antt =====
-- What `to_chars` and `from_header` do on every branch: sizes, refusals, diagnostics.
use tar.Base.{
  ℕ, zero, suc, ◌+◌, ◌-◌, ◌*◌, ◌/◌, bit_and, ◌%◌, ◌≡◌, arith, Bool, Option, none, some, List, [],
  ◌∷◌, ◌++◌, length, length-append,
}
use tar.Field.{Format}
use tar.Field.Encode.{
  Encoded, max_val_with_digits, octal_loop, base256_loop, to_chars, to_chars_or, to_chars_subst,
}

length-octal_loop : (n v : ℕ) (done : List ℕ) → length (octal_loop v n done) ≡ n + length done
unfolding octal_loop
length-octal_loop zero v done = omega arith
length-octal_loop (suc n) v done =
    omega (arith, length-octal_loop n (v / 8) ((b'0' + v % 8) ∷ done))

length-base256_loop :
    (negative : Bool) (n v : ℕ) (done : List ℕ)
    → length (base256_loop negative v n done) ≡ n + length done
unfolding base256_loop
length-base256_loop negative zero v done = omega arith
length-base256_loop negative (suc n) v done = omega (arith, length-base256_loop negative n _ _)

length-octal_text : (v n : ℕ) → length (octal_loop v n [] ++ (0 ∷ [])) ≡ suc n
length-octal_text v n =
    omega (arith, length-append (octal_loop v n []) (0 ∷ []), length-octal_loop n v [])

less_one : (n : ℕ) → suc n - 1 ≡ n
less_one n = omega arith

length-to_chars_or :
    (otherwise : Encoded) (archive_format : Format) (negative : Bool) (value valsize n : ℕ)
    (warned : Bool)
    → length otherwise.bytes ≡ suc n
    → length (to_chars_or otherwise archive_format negative value valsize (suc n) warned).bytes
      ≡ suc n
unfolding to_chars_or
length-to_chars_or otherwise archive_format negative value valsize n warned h = rw (less_one n) (
    ground (
      arith,
      length-octal_text value n,
      length-octal_text (bit_and value (max_val_with_digits (valsize * 8) 1)) n,
      length-base256_loop negative n value [],
    ))

length-to_chars_subst :
    (archive_format : Format) (valsize : ℕ) (substitute : Option (Bool × ℕ)) (old : List ℕ) (n : ℕ)
    (warned : Bool)
    → length old ≡ suc n
    → length (to_chars_subst archive_format valsize substitute old (suc n) warned).bytes ≡ suc n
unfolding to_chars_subst
length-to_chars_subst archive_format valsize none old n warned h = h
length-to_chars_subst archive_format valsize (some (negsub, sub)) old n warned h =
    length-to_chars_or _ archive_format _ _ valsize n warned h

-- `to_chars` keeps the size of the field, whatever the format, the number and the substitute.
pub length-to_chars :
    (archive_format : Format) (negative : Bool) (value valsize : ℕ) (substitute : Option (Bool × ℕ))
    (old : List ℕ) (n : ℕ) (warned : Bool)
    → length old ≡ suc n
    → length (to_chars archive_format negative value valsize substitute old (suc n) warned).bytes
      ≡ suc n
unfolding to_chars
length-to_chars archive_format negative value valsize substitute old n warned h =
    length-to_chars_or _ archive_format negative value valsize n warned
      (length-to_chars_subst archive_format valsize _ old n warned h)
