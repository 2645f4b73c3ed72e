-- ===== src/Field/Octal.antt =====
-- Octal fields: `from_header` reads back what `to_octal` wrote.
use native.Mathlib.Nat.{div-le_self, div-eq_of_lt}
use tar.Base.{
  ℕ, zero, suc, ◌+◌, ◌*◌, ◌/◌, ◌%◌, ◌^◌, ◌≤◌, ◌<◌, ◌≡◌, refl, sym, ◌∙◌, ap, arith, Bool, true,
  false, List, [], ◌∷◌, ◌++◌, append_assoc,
}
use tar.Base.Words.{IsU64, negate}
use tar.Field.{is_octal_digit}
use tar.Field.Capacity.{div-pow-suc, div-div-pow}
use tar.Field.Encode.{octal_loop, to_octal}
use tar.Field.Decode.{
  octal_digits, scan_octal, scan_number, skip_nul, skip_blanks, finish, from_header, has_junk,
}

abbrev octal_digit : ℕ → ℕ → ℕ
octal_digit v i = b'0' + v / 8 ^ i % 8

-- The loop writes its digits from the last to the first; this is the first.
octal_loop-suc :
    (i v : ℕ) (done : List ℕ) → octal_loop v (suc i) done ≡ octal_digit v i ∷ octal_loop v i done
unfolding octal_loop
octal_loop-suc zero v done = ap (λ (d : ℕ). (b'0' + d % 8) ∷ done) {y = v / 1} (omega arith)
octal_loop-suc (suc i) v done =
    octal_loop-suc i (v / 8) ((b'0' + v % 8) ∷ done)
    ∙ ap (λ (d : ℕ). (b'0' + d % 8) ∷ octal_loop (v / 8) i ((b'0' + v % 8) ∷ done))
        (div-div-pow 8 v i)

-- The reader's loop over the digits that are left, once the digits in front of them were read.
octal_digits-octal_loop :
    (i v x : ℕ) (after : List ℕ)
    → IsU64 v
    → is_octal_digit x ≡ false
    → octal_digits (v / 8 ^ suc i * 8) false (octal_digit v i) (octal_loop v i (x ∷ after))
      ≡ record { value = v; overflow = false; rest = x ∷ after }
unfolding octal_digits
octal_digits-octal_loop zero v x after w h = unfold octal_loop in ground arith
octal_digits-octal_loop (suc i) v x after w h = rw octal_loop-suc (
    ground (
      arith,
      div-pow-suc 8 v (suc i),
      div-pow-suc 8 v i,
      div-le_self v (8 ^ suc i),
      octal_digits-octal_loop i v x after w h,
    ))

octal_loop-append : (i v : ℕ) (done : List ℕ) → octal_loop v i done ≡ octal_loop v i [] ++ done
unfolding octal_loop
octal_loop-append zero v done = refl
octal_loop-append (suc i) v done =
    octal_loop-append i (v / 8) ((b'0' + v % 8) ∷ done)
    ∙ sym (
        ap (λ (l : List ℕ). l ++ done) (octal_loop-append i (v / 8) ((b'0' + v % 8) ∷ []))
        ∙ append_assoc (octal_loop (v / 8) i []) ((b'0' + v % 8) ∷ []) done)

pub to_octal-append : (n v : ℕ) (after : List ℕ) → to_octal v n ++ after ≡ octal_loop v n after
unfolding to_octal
to_octal-append n v after = sym (octal_loop-append n v after)

-- The whole run, from the first digit of a number that has at most `suc n` digits.
octal_digits-all :
    (n v x : ℕ) (after : List ℕ)
    → IsU64 v
    → v < 8 ^ suc n
    → is_octal_digit x ≡ false
    → octal_digits 0 false (octal_digit v n) (octal_loop v n (x ∷ after))
      ≡ record { value = v; overflow = false; rest = x ∷ after }
octal_digits-all n v x after w small h =
    ap (λ (q : ℕ). octal_digits (q * 8) false (octal_digit v n) (octal_loop v n (x ∷ after)))
      (sym (div-eq_of_lt small))
    ∙ octal_digits-octal_loop n v x after w h

-- A field that begins with an octal digit is scanned as octal.
from_header_digit :
    (c : ℕ) (cs : List ℕ) (typed : Bool) (minval maxval : ℕ) (octal_only silent warned : Bool)
    → is_octal_digit c ≡ true
    → from_header (c ∷ cs) typed minval maxval octal_only silent warned
      ≡ finish typed
          (negate minval)
          maxval
          silent
          warned
          (scan_octal typed silent (negate minval) maxval c cs)
unfolding skip_nul skip_blanks scan_number from_header
from_header_digit c cs typed minval maxval octal_only silent warned h = ground arith

is_octal_digit-octal_digit : (v i : ℕ) → is_octal_digit (octal_digit v i) ≡ true
is_octal_digit-octal_digit v i = ground arith

-- The reader on the digits of `v`, whatever stands behind the byte `x` that ends them.
pub from_header-octal_loop :
    (n v x : ℕ) (after : List ℕ) (typed : Bool) (minval maxval : ℕ)
    (octal_only silent warned : Bool)
    → IsU64 v
    → v < 8 ^ suc n
    → v ≤ maxval
    → is_octal_digit x ≡ false
    → has_junk (x ∷ after) ≡ false
    → from_header (octal_loop v (suc n) (x ∷ after)) typed minval maxval octal_only silent warned
      ≡ record { value = v; messages = []; warned_once = warned }
unfolding scan_octal finish
from_header-octal_loop n v x after typed minval maxval octal_only silent warned w small top h j =
    rw octal_loop-suc (
      from_header_digit (octal_digit v n) (octal_loop v n (x ∷ after)) typed minval maxval
        octal_only silent warned (is_octal_digit-octal_digit v n)
      ∙ unfold has_junk in ground (arith, octal_digits-all n v x after w small h))
