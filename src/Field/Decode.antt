-- ===== src/Field/Decode.antt =====
-- `from_header` of src/list.c: the number in a header field, in octal, base-64 or base-256. The
-- field is the list of its bytes; `where` is the list of those not read yet, empty at `lim`.
use tar.Base.{
  ℕ, ◌+◌, ◌-◌, ◌*◌, ◌/◌, ◌^◌, bit_and, bit_or, Bool, true, false, not, ◌&&◌, ◌||◌, List, [], ◌∷◌,
  ◌++◌, ltb, leb, ◌==◌, if◌then◌else◌,
}
use tar.Base.Words.{u64_mod, wrap, negate, overflows, minus_one}
use tar.Field.{is_octal_digit, c_isspace}

-- `paxerror` also makes tar's exit status a failure.
pub data Message : Type 0 where
  error_blanks warn_twos_complement error_octal_range warn_base64 : Message
  error_base64_range error_base256_range error_not_a_number error_value_range : Message

-- What stands in the field: a number with what follows it, or an error.
pub data Scan : Type 0 where
  number : ℕ → Bool → List ℕ → List Message → Scan
  failed : List Message → Scan

-- `value` is the bit pattern of the intmax_t that is returned.
pub record Decoded : Type 0 where
  pub value : ℕ
  pub messages : List Message
  pub warned_once : Bool

-- A diagnostic that is given if the type is named and `silent` is not set.
abbrev pub say : Bool → Bool → Message → List Message
say typed silent m = if typed && not silent then m ∷ [] else []

-- `where += !*where`
unfoldable pub skip_nul : List ℕ → List ℕ
skip_nul [] = []
skip_nul (c ∷ cs) = if c == 0 then cs else c ∷ cs

unfoldable pub skip_blanks : List ℕ → List ℕ
skip_blanks [] = []
skip_blanks (c ∷ cs) = if c_isspace c then skip_blanks cs else c ∷ cs

-- Where an octal loop stops: the value, its overflow flag and the bytes behind the digits.
pub record OctalRun : Type 0 where
  pub value : ℕ
  pub overflow : Bool
  pub rest : List ℕ

-- The round at the digit `c`, which stands before `after`.
unfoldable pub octal_digits : ℕ → Bool → ℕ → List ℕ → OctalRun
octal_digits value overflow c [] = record {
  value = wrap (value + (c - b'0'));
  overflow = overflow;
  rest = [];
}
octal_digits value overflow c (d ∷ after) =
    let value' = wrap (value + (c - b'0')) in
    let more = octal_digits (wrap (value' * 8)) (overflow || overflows (value' * 8)) d after in
    if is_octal_digit d
    then more
    else record { value = value'; overflow = overflow; rest = d ∷ after }

-- The same loop on the complemented digits.
unfoldable pub complement_digits : ℕ → Bool → ℕ → List ℕ → OctalRun
complement_digits value overflow digit [] = record {
  value = wrap (value + (7 - digit));
  overflow = overflow;
  rest = [];
}
complement_digits value overflow digit (d ∷ after) =
    let value' = wrap (value + (7 - digit)) in
    let more =
      complement_digits (wrap (value' * 8)) (overflow || overflows (value' * 8)) (d - b'0') after in
    if is_octal_digit d
    then more
    else record { value = value'; overflow = overflow; rest = d ∷ after }

-- At an octal run that overflowed or lies above `maxval`, from its first digit `c` on.
unfoldable pub twos_complement : Bool → Bool → ℕ → ℕ → List ℕ → Scan
unfolding complement_digits
twos_complement typed silent minus_minval c after =
    let run = complement_digits 0 false (bit_or (c - b'0') 4) after in
    let value = wrap (run.value + 1) in
    let overflow = run.overflow || overflows (run.value + 1) in
    if not overflow && leb value minus_minval
    then number value true run.rest (if silent then [] else warn_twos_complement ∷ [])
    else if overflow
    then failed (say typed silent error_octal_range)
    else number value false run.rest []

unfoldable pub scan_octal : Bool → Bool → ℕ → ℕ → ℕ → List ℕ → Scan
unfolding octal_digits twos_complement
scan_octal typed silent minus_minval maxval c after =
    let run = octal_digits 0 false c after in
    if (run.overflow || ltb maxval run.value) && leb b'2' c && typed
    then twos_complement typed silent minus_minval c after
    else if run.overflow
    then failed (say typed silent error_octal_range)
    else number run.value false run.rest []

-- `base64_map`: the digit's value plus 1, and 0 for other bytes.
unfoldable pub base64_map : ℕ → ℕ
base64_map c =
    if leb b'A' c && leb c b'Z'
    then c - b'A' + 1
    else if leb b'a' c && leb c b'z'
    then c - b'a' + 26 + 1
    else if leb b'0' c && leb c b'9'
    then c - b'0' + 52 + 1
    else if c == b'+'
    then 62 + 1
    else if c == b'/'
    then 63 + 1
    else 0

unfoldable pub base64_digits : Bool → Bool → Bool → ℕ → List ℕ → List Message → Scan
unfolding base64_map
base64_digits typed silent negative value [] messages = number value negative [] messages
base64_digits typed silent negative value (c ∷ after) messages =
    let more =
      base64_digits typed silent negative (bit_or (wrap (value * 64)) (base64_map c - 1)) after
        messages in
    if base64_map c == 0
    then number value negative (c ∷ after) messages
    else if overflows (value * 64)
    then failed (messages ++ say typed silent error_base64_range)
    else more

-- The bits that a value must have in front for `value << 8` to keep it.
abbrev pub topbits : Bool → ℕ
topbits negative = if negative then 255 * 2 ^ 56 else 0

-- The round at the byte `c`, which stands before `after`.
unfoldable pub base256_digits : Bool → Bool → Bool → ℕ → ℕ → List ℕ → Scan
base256_digits typed silent negative value c [] =
    let value' = wrap (wrap (value * 256) + c) in
    number (if negative then negate value' else value') negative [] []
base256_digits typed silent negative value c (d ∷ after) =
    let value' = wrap (wrap (value * 256) + c) in
    let more = base256_digits typed silent negative value' d after in
    if bit_or (topbits negative) (wrap (value' * 256) / 256) == value'
    then more
    else failed (say typed silent error_base256_range)

-- The first byte `c` is 128 or 255; its bit 64 is the sign.
unfoldable pub scan_base256 : Bool → Bool → ℕ → ℕ → List ℕ → Scan
unfolding base256_digits
scan_base256 typed silent c d after =
    let signbit = bit_and c 64 in
    let value = wrap (bit_and c 63 + (u64_mod - signbit)) in
    base256_digits typed silent (not (signbit == 0)) value d after

-- The field behind its blanks, which begins with `c`.
unfoldable pub scan_number : Bool → ℕ → ℕ → Bool → Bool → Bool → ℕ → List ℕ → Scan
unfolding scan_octal base64_digits scan_base256
scan_number typed minus_minval maxval octal_only silent warned c after =
    if is_octal_digit c
    then scan_octal typed silent minus_minval maxval c after
    else if octal_only
    then number 0 false (c ∷ after) []
    else if c == b'-' || c == b'+'
    then base64_digits typed silent (c == b'-') 0 after
        (if silent || warned then [] else warn_base64 ∷ [])
    else (elim after [
      | [] ↦ number 0 false (c ∷ []) []
      | d ∷ ds ↦
          if c == 128 || c == 255
          then scan_base256 typed silent c d ds
          else number 0 false (c ∷ d ∷ ds) []
    ])

-- `where != lim && *where && !c_isspace (*where)`
unfoldable pub has_junk : List ℕ → Bool
has_junk [] = false
has_junk (c ∷ cs) = not (c == 0) && not (c_isspace c)

-- The static flag after a call that gave `messages`.
abbrev pub now_warned : Bool → List Message → Bool
now_warned warned (warn_base64 ∷ _) = true
now_warned warned _ = warned

abbrev pub answer : Bool → ℕ → List Message → Decoded
answer warned value messages = record {
  value = value;
  messages = messages;
  warned_once = now_warned warned messages;
}

-- The tests behind the scan.
unfoldable pub finish : Bool → ℕ → ℕ → Bool → Bool → Scan → Decoded
unfolding has_junk
finish typed minus_minval maxval silent warned (failed messages) = answer warned minus_one messages
finish typed minus_minval maxval silent warned (number value negative rest messages) =
    if has_junk rest
    then answer warned minus_one (messages ++ say typed silent error_not_a_number)
    else if leb value (if negative then minus_minval else maxval)
    then answer warned (if negative then negate value else value) messages
    else answer warned minus_one (messages ++ say typed silent error_value_range)

-- `from_header` behind the blanks.
unfoldable pub read_number : Bool → ℕ → ℕ → Bool → Bool → Bool → List ℕ → Decoded
unfolding scan_number finish
read_number typed minval maxval octal_only silent warned [] =
    answer warned minus_one (say typed silent error_blanks)
read_number typed minval maxval octal_only silent warned (c ∷ after) =
    finish typed (negate minval) maxval silent warned
      (scan_number typed (negate minval) maxval octal_only silent warned c after)

-- `minval` is the bit pattern of an intmax_t; `typed` says that `type` is not a null pointer, and
-- `warned` is the static flag of the warning on base-64.
unfoldable pub from_header : List ℕ → Bool → ℕ → ℕ → Bool → Bool → Bool → Decoded
unfolding skip_nul skip_blanks read_number
from_header field typed minval maxval octal_only silent warned =
    read_number typed minval maxval octal_only silent warned (skip_blanks (skip_nul field))
