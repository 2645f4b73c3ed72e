-- ===== src/Field/Runs.antt =====
-- The field conversions on concrete numbers.
use tar.Base.{ℕ, ◌-◌, ◌^◌, ◌≡◌, refl, arith, true, false, none, List, [], ◌∷◌, length, replicate}
use tar.Field.{ustar, posix, gnu}
use tar.Field.Encode.{
  to_chars, to_chars_or, to_octal, octal_loop, to_base256, base256_loop, max_val_with_digits,
}
use tar.Field.Decode.{from_header}
use tar.Field.RoundTrip.{Recovers, from_header-to_chars_octal, from_header-to_chars_gnu}
use tar.Field.Outcome.{length-to_chars}

abbrev zeros : List ℕ
zeros = replicate 12 0

-- One second before 1970.
abbrev before_epoch : ℕ
before_epoch = 2 ^ 64 - 1

octal_run :
    (to_chars ustar false 420 8 none zeros 8 false).bytes
    ≡ b'0' ∷ b'0' ∷ b'0' ∷ b'0' ∷ b'6' ∷ b'4' ∷ b'4' ∷ 0 ∷ []
unfolding to_chars to_chars_or to_octal octal_loop max_val_with_digits
octal_run = refl

base256_run :
    (to_chars gnu true before_epoch 8 none zeros 4 false).bytes ≡ 255 ∷ 255 ∷ 255 ∷ 255 ∷ []
unfolding to_chars to_chars_or to_base256 base256_loop max_val_with_digits
base256_run = refl

from_header-to_chars_octal_example :
    from_header (to_chars ustar false 420 8 none zeros 8 false).bytes true 0 1000 false false false
    ≡ record { value = 420; messages = []; warned_once = false }
from_header-to_chars_octal_example =
    from_header-to_chars_octal ustar 420 8 none zeros 6 false true 0 1000 false false false
      (omega arith) (unfold max_val_with_digits in omega arith) (omega arith)

from_header-to_chars_gnu_example :
    Recovers
      (to_chars gnu true before_epoch 8 none zeros 12 false)
      true
      (2 ^ 63)
      (2 ^ 63 - 1)
      false
      false
      before_epoch
from_header-to_chars_gnu_example =
    from_header-to_chars_gnu gnu true before_epoch 8 none zeros 10 false true (2 ^ 63) (2 ^ 63 - 1)
      false false refl (omega arith) (unfold max_val_with_digits in omega arith) (omega arith)

length-to_chars_example : length (to_chars posix true before_epoch 8 none zeros 12 false).bytes ≡ 12
length-to_chars_example = length-to_chars posix true before_epoch 8 none zeros 11 false refl
