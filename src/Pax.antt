-- ===== src/Pax.antt =====
-- The records of a pax extended header (src/xheader.c): a record is written by `xheader_print_n`
-- and read by `decode_record`, as "LENGTH KEYWORD=VALUE\n" with the length of the whole record.
pub mod Keyword
pub mod Number
pub mod Time
pub mod Stamp
pub mod Size
pub mod Record
pub mod RoundTrip
mod Runs
use tar.Base.{
  ℕ, zero, suc, ◌+◌, ◌-◌, ◌^◌, Bool, true, false, not, ◌&&◌, ◌||◌, Option, none, some, List, [],
  ◌∷◌, ◌++◌, length, take, drop, get_or, ltb, leb, ◌==◌, if◌then◌else◌,
}
use tar.Base.Text.{Bytes, codes}
use tar.Decimal.{Parsed, stoint, DecimalPrinter}

-- The bytes that stand for one of a keyword.
unfoldable pub encode_byte : ℕ → Bytes
encode_byte c = if c == b'%' then codes "%25" else if c == b'=' then codes "%3D" else c ∷ []

unfoldable pub xattr_encode_keyword : Bytes → Bytes
unfolding encode_byte
xattr_encode_keyword [] = []
xattr_encode_keyword (c ∷ keyword) = encode_byte c ++ xattr_encode_keyword keyword

-- `kpr[1] == a && kpr[2] == b`, for the bytes behind `kpr`.
unfoldable pub follow : Bytes → ℕ → ℕ → Bool
follow [] a b = false
follow (x ∷ []) a b = false
follow (x ∷ y ∷ cs) a b = x == a && y == b

-- The first argument counts the bytes of an escape that `kpr` still has to pass.
unfoldable pub decode_from : ℕ → Bytes → Bytes
unfolding follow
decode_from skip [] = []
decode_from (suc skip) (c ∷ kpr) = decode_from skip kpr
decode_from zero (c ∷ kpr) =
    let equals = c == b'%' && follow kpr b'3' b'D' in
    let percent = c == b'%' && follow kpr b'2' b'5' in
    (if equals then b'=' else if percent then b'%' else c)
    ∷ decode_from (if equals || percent then 2 else 0) kpr

unfoldable pub xattr_decode_keyword : Bytes → Bytes
unfolding decode_from
xattr_decode_keyword keyword = decode_from 0 keyword

-- The `do` loop of `xheader_print_n`, for the size `n` of the length's text in the round before:
-- the text of the length, or nothing where the fuel runs out.
unfoldable pub size_loop : DecimalPrinter → ℕ → ℕ → ℕ → Option Bytes
size_loop printer zero len n = none
size_loop printer (suc fuel) len p =
    let np = printer.to_str (len + p) in
    let again = size_loop printer fuel len (length np) in if length np == p then some np else again

-- The rounds that the loop takes at most.
abbrev pub size_fuel : ℕ
size_fuel = 3

-- What is written once the text `np` of the length is known.
unfoldable pub grow : Bytes → Bytes → Option Bytes → Option Bytes
grow kw value none = none
grow kw value (some np) = some (np ++ (b' ' ∷ (kw ++ (b'=' ∷ (value ++ (b'\n' ∷ []))))))

-- The bytes that the record adds to the buffer.
unfoldable pub xheader_print_n : DecimalPrinter → Bytes → Bytes → Option Bytes
unfolding grow
xheader_print_n printer keyword value =
    let kw = xattr_encode_keyword keyword in
    grow kw value (size_loop printer size_fuel (length kw + length value + 3) 0)

pub data Malformed : Type 0 where
  missing_length length_out_of_range missing_blank missing_equal_sign missing_newline : Malformed

-- The end of the records is `rejected none`; a record is handed to the handler as keyword and
-- value, with the text behind it.
pub data Decoded : Type 0 where
  rejected : Option Malformed → Decoded
  handled : Bytes → Bytes → Bytes → Decoded

abbrev pub is_blank : ℕ → Bool
is_blank c = c == b' ' || c == 9

unfoldable pub skip_blanks : Bytes → Bytes
skip_blanks [] = []
skip_blanks (c ∷ p) = if is_blank c then skip_blanks p else c ∷ p

-- `strchr (p, '=')`: the bytes in front of the sign.
unfoldable pub before_equals : Bytes → Option Bytes
before_equals [] = none
before_equals (c ∷ p) =
    let more = before_equals p in
    if c == b'='
    then some []
    else if c == 0
    then none
    else elim more [ none ↦ none | some front ↦ some (c ∷ front) ]

abbrev pub idx_max : ℕ
idx_max = 2 ^ 63 - 1

-- For the keyword, whose equal sign stands `equals` bytes behind the record's start.
unfoldable pub decode_value : Bytes → ℕ → ℕ → Bytes → Decoded
decode_value text len equals keyword =
    if not (ltb equals len)
    then rejected (some missing_equal_sign)
    else if not (get_or text (len - 1) 0 == b'\n')
    then rejected (some missing_newline)
    else handled keyword (take (len - equals - 2) (drop (equals + 1) text)) (drop len text)

-- From the keyword on, which stands `offset` bytes behind the record's start.
unfoldable pub decode_pair : Bytes → ℕ → ℕ → Option Bytes → Decoded
decode_pair text len offset none = rejected (some missing_equal_sign)
decode_pair text len offset (some keyword) = decode_value text len (offset + length keyword) keyword

-- Behind the length `len`, which ends where `len_lim` begins; `p` is the text behind the blanks.
unfoldable pub decode_behind : Bytes → ℕ → Bytes → Bytes → Decoded
decode_behind text len len_lim p =
    if ltb (length text) len
    then rejected (some length_out_of_range)
    else if length p == length len_lim
    then rejected (some missing_blank)
    else decode_pair text len (length text - length p) (before_equals p)

-- `*p`, behind the leading blanks.
abbrev pub missing_length_message : Bytes → Option Malformed
missing_length_message [] = none
missing_length_message (c ∷ p) = if c == 0 then none else some missing_length

-- For the length that was read from `p`.
unfoldable pub decode_length : Bytes → Bytes → Parsed → Decoded
decode_length text p parsed =
    if length parsed.arglim == length p
    then rejected (missing_length_message p)
    else decode_behind text parsed.value parsed.arglim (skip_blanks parsed.arglim)

-- The buffer from `*ptr` to its end; a NUL stands behind it.
unfoldable pub decode_record : Bytes → Decoded
decode_record text = let p = skip_blanks text in decode_length text p (stoint p 0 idx_max)

-- The records up to the first that is rejected, for a handler that collects them. The loop runs on
-- fuel: a record that is handled is not empty.
unfoldable pub decode_records : ℕ → Bytes → List (Bytes × Bytes) × Option Malformed
decode_records zero text = ([], none)
decode_records (suc fuel) text = elim (decode_record text) [
  | rejected why ↦ ([], why)
  | handled keyword value rest ↦
      let more = decode_records fuel rest in ((keyword, value) ∷ more.0, more.1)
]
