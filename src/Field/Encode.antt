-- ===== src/Field/Encode.antt =====
-- The number writers of src/create.c, from `max_val_with_digits` to `string_to_chars`. A buffer is
-- the list of its bytes, and uintmax_t a number below 2 ^ 64.
use tar.Base.{
  ℕ, zero, suc, ◌+◌, ◌-◌, ◌*◌, ◌/◌, ◌%◌, ◌^◌, bit_and, bit_or, Bool, true, false, not, ◌&&◌, ◌||◌,
  Option, none, some, List, [], ◌∷◌, ◌++◌, ltb, leb, if◌then◌else◌,
}
use tar.Base.Words.{u64_mod, wrap, negate, minus_one}
use tar.Field.{Format, oldgnu, gnu}

-- `paxerror` also makes tar's exit status a failure.
pub data Message : Type 0 where
  warn_negative_octal warn_substituting error_out_of_range : Message

-- The result of a conversion: the value returned, the buffer afterwards, the diagnostics, and the
-- static flag of the warning that is given once.
pub record Encoded : Type 0 where
  pub fits : Bool
  pub bytes : List ℕ
  pub messages : List Message
  pub warned_once : Bool

unfoldable pub max_val_with_digits : ℕ → ℕ → ℕ
max_val_with_digits digits bits_per_digit =
    if ltb (digits * bits_per_digit) 64 then 2 ^ (digits * bits_per_digit) - 1 else u64_mod - 1

unfoldable pub max_octal_val : ℕ → ℕ
unfolding max_val_with_digits
max_octal_val bufsize = max_val_with_digits (bufsize - 1) 3

-- `where[--i] = '0' + v % 8; v /= 8` while `i` is not 0. The list holds the bytes from `where[i]` on.
unfoldable pub octal_loop : ℕ → ℕ → List ℕ → List ℕ
octal_loop v zero done = done
octal_loop v (suc i) done = octal_loop (v / 8) i ((b'0' + v % 8) ∷ done)

-- The bytes that `to_octal` stores; its result for size 0 is undefined in the source.
unfoldable pub to_octal : ℕ → ℕ → List ℕ
unfolding octal_loop
to_octal value size = octal_loop value size []

-- 64 sign bits moved up by 64 - 8 places.
abbrev pub propagated_sign_bits : Bool → ℕ
propagated_sign_bits negative = if negative then 255 * 2 ^ 56 else 0

unfoldable pub base256_loop : Bool → ℕ → ℕ → List ℕ → List ℕ
base256_loop negative v zero done = done
base256_loop negative v (suc i) done =
    base256_loop negative (bit_or (propagated_sign_bits negative) (v / 256)) i ((v % 256) ∷ done)

unfoldable pub to_base256 : Bool → ℕ → ℕ → List ℕ
unfolding base256_loop
to_base256 negative value size = base256_loop negative value size []

-- Copies up to `len` bytes over the front of `dst`, and stops behind a NUL. The string `src` is
-- its bytes without the NUL that ends it.
unfoldable pub tar_copy_str : List ℕ → List ℕ → ℕ → List ℕ
tar_copy_str dst src zero = dst
tar_copy_str [] src (suc len) = []
tar_copy_str (d ∷ dst) [] (suc len) = 0 ∷ dst
tar_copy_str (d ∷ dst) (c ∷ src) (suc len) = c ∷ tar_copy_str dst src len

-- `dst[i] = 0`
unfoldable pub store_nul : List ℕ → ℕ → List ℕ
store_nul [] i = []
store_nul (d ∷ dst) zero = 0 ∷ dst
store_nul (d ∷ dst) (suc i) = d ∷ store_nul dst i

abbrev pub is_oldgnu : Format → Bool
is_oldgnu oldgnu = true
is_oldgnu _ = false

abbrev pub is_gnu : Format → Bool
is_gnu gnu = true
is_gnu _ = false

unfoldable pub tar_name_copy_str : Format → List ℕ → List ℕ → ℕ → List ℕ
unfolding tar_copy_str store_nul
tar_name_copy_str archive_format dst src len =
    let copied = tar_copy_str dst src len in
    if is_oldgnu archive_format then store_nul copied (len - 1) else copied

unfoldable pub string_to_chars : List ℕ → List ℕ → ℕ → List ℕ
unfolding tar_copy_str store_nul
string_to_chars str p s = store_nul (tar_copy_str p str s) (s - 1)

abbrev pub gnu_format : Format → Bool
gnu_format archive_format = is_gnu archive_format || is_oldgnu archive_format

-- `to_chars` up to its last call: `otherwise` is what `to_chars_subst` does there. `old` is the
-- buffer before the call, which a failing conversion leaves alone.
unfoldable pub to_chars_or : Encoded → Format → Bool → ℕ → ℕ → ℕ → Bool → Encoded
unfolding max_val_with_digits to_octal to_base256
to_chars_or otherwise archive_format negative value valsize size warned =
    if not negative && leb value (max_val_with_digits (size - 1) 3)
    then record {
      fits = true;
      bytes = to_octal value (size - 1) ++ (0 ∷ []);
      messages = [];
      warned_once = warned;
    }
    else if gnu_format archive_format
    then (if leb (if negative then wrap (minus_one + (u64_mod - value)) else value)
          (max_val_with_digits (size - 1) 8)
        then record {
          fits = true;
          bytes = (if negative then 255 else 128) ∷ to_base256 negative value (size - 1);
          messages = [];
          warned_once = warned;
        }
        else if negative && leb (valsize * 8) ((size - 1) * 3)
        then record {
          fits = true;
          bytes =
              to_octal (bit_and value (max_val_with_digits (valsize * 8) 1)) (size - 1) ++ (0 ∷ []);
          messages = if warned then [] else warn_negative_octal ∷ [];
          warned_once = true;
        }
        else otherwise)
    else otherwise

-- The branch of `to_chars_subst` with no substitute.
abbrev pub out_of_range : List ℕ → Bool → Encoded
out_of_range old warned = record {
  fits = false;
  bytes = old;
  messages = error_out_of_range ∷ [];
  warned_once = warned;
}

-- A substitute is what the function passed returns: the flag that it stores, and the value.
unfoldable pub to_chars_subst : Format → ℕ → Option (Bool × ℕ) → List ℕ → ℕ → Bool → Encoded
unfolding to_chars_or
to_chars_subst archive_format valsize none old size warned = out_of_range old warned
to_chars_subst archive_format valsize (some (negsub, substitute)) old size warned =
    let maxval = max_val_with_digits (size - 1) (if gnu_format archive_format then 8 else 3) in
    let sub = bit_and substitute maxval in
    let negsub' = negsub && is_gnu archive_format in
    let s = if negsub' then negate sub else sub in
    let result =
      to_chars_or (out_of_range old warned) archive_format negsub' s valsize size warned in
    record result { messages = warn_substituting ∷ result.messages }

unfoldable pub to_chars : Format → Bool → ℕ → ℕ → Option (Bool × ℕ) → List ℕ → ℕ → Bool → Encoded
unfolding to_chars_or to_chars_subst
to_chars archive_format negative value valsize substitute old size warned =
    let allowed = if gnu_format archive_format then substitute else none in
    to_chars_or (to_chars_subst archive_format valsize allowed old size warned) archive_format
      negative value valsize size warned
