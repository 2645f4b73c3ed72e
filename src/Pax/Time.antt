-- ===== src/Pax/Time.antt =====
-- Time stamps as text: `code_ns_fraction`, `code_timespec` and `decode_timespec` of src/misc.c, and
-- `decode_time` of src/xheader.c. A time_t is the bit pattern of its 64 bits; `timetostr` is gnulib's.
use tar.Base.{
  ℕ, zero, suc, ◌+◌, ◌-◌, ◌*◌, ◌/◌, ◌%◌, ◌^◌, Bool, true, false, not, ◌&&◌, ◌||◌, Option, none,
  some, [], ◌∷◌, ◌++◌, length, ltb, leb, ◌==◌, if◌then◌else◌,
}
use tar.Base.Text.{Bytes}
use tar.Base.Words.{wrap, minus_one}
use tar.Decimal.{c_isdigit, is_negative, Parsed, stoint}

abbrev pub billion : ℕ
billion = 10 ^ 9

-- `tv_nsec` is -1 where the time stamp is not valid; that is `none` here.
pub record Timespec : Type 0 where
  pub tv_sec : ℕ
  pub tv_nsec : Option ℕ

-- `p[--i] = '0' + ns % 10`, and `ns /= 10`, until `i` is 0.
unfoldable pub put_digits : ℕ → ℕ → Bytes → Bytes
put_digits ns zero done = done
put_digits ns (suc i) done = put_digits (ns / 10) i ((b'0' + ns % 10) ∷ done)

-- The loop that drops trailing zeros, with `i` digits left; `ns` is not 0.
unfoldable pub drop_zeros : ℕ → ℕ → Bytes
unfolding put_digits
drop_zeros ns zero = []
drop_zeros ns (suc i) =
    let fewer = drop_zeros (ns / 10) i in if ns % 10 == 0 then fewer else put_digits ns (suc i) []

unfoldable pub code_ns_fraction : ℕ → Bytes
code_ns_fraction ns = if ns == 0 then [] else b'.' ∷ drop_zeros ns 9

-- Invalid values are ignored.
unfoldable pub valid_ns : Option ℕ → ℕ
valid_ns none = 0
valid_ns (some ns) = if leb billion ns then 0 else ns

unfoldable pub code_timespec : (ℕ → Bytes) → Timespec → Bytes
unfolding valid_ns
code_timespec timetostr t =
    let ns = valid_ns t.tv_nsec in
    let negative = is_negative t.tv_sec in
    let borrow = negative && not (ns == 0) in
    let s = if borrow then wrap (t.tv_sec + 1) else t.tv_sec in
    let ns' = if borrow then billion - ns else ns in
    (if negative && s == 0 then b'-' ∷ [] else []) ++ (timetostr s ++ code_ns_fraction ns')

-- Where the loop over the fraction stops.
pub record Fraction : Type 0 where
  pub ns : ℕ
  pub digits : ℕ
  pub trailing_nonzero : Bool
  pub rest : Bytes

unfoldable pub fraction_loop : ℕ → ℕ → Bool → Bytes → Fraction
fraction_loop digits ns trailing_nonzero [] = record {
  ns = ns;
  digits = digits;
  trailing_nonzero = trailing_nonzero;
  rest = [];
}
fraction_loop digits ns trailing_nonzero (c ∷ p) =
    let more =
      if ltb digits 9
      then fraction_loop (suc digits) (10 * ns + (c - b'0')) trailing_nonzero p
      else fraction_loop digits ns (trailing_nonzero || not (c == b'0')) p in
    if c_isdigit c
    then more
    else record { ns = ns; digits = digits; trailing_nonzero = trailing_nonzero; rest = c ∷ p }

abbrev pub starts_with : ℕ → Bytes → Bool
starts_with a [] = false
starts_with a (c ∷ s) = c == a

-- Truncates a negative time stamp towards minus infinity, for `ns` nanoseconds off `s`.
unfoldable pub borrow_second : ℕ → ℕ → Timespec
borrow_second s ns = if ns == 0 then record { tv_sec = s; tv_nsec = some 0 } else record {
  tv_sec = wrap (s + minus_one);
  tv_nsec = if s == 2 ^ 63 then none else some (billion - ns);
}

unfoldable pub with_fraction : Bool → ℕ → Fraction → Timespec
with_fraction minus s f =
    let ns = f.ns * 10 ^ (9 - f.digits) in
    if minus
    then borrow_second s (ns + (if f.trailing_nonzero then 1 else 0))
    else record { tv_sec = s; tv_nsec = some ns }

-- Behind the seconds, which were read from `arg`.
unfoldable pub decode_fraction : Bytes → Parsed → Bool → Bytes → Timespec × Bytes
decode_fraction arg parsed parse_fraction [] =
    (record { tv_sec = parsed.value; tv_nsec = some 0 }, [])
decode_fraction arg parsed parse_fraction (c ∷ p) =
    let f = fraction_loop 0 0 false p in
    if parse_fraction && c == b'.'
    then (with_fraction (starts_with b'-' arg) parsed.value f, f.rest)
    else (record { tv_sec = parsed.value; tv_nsec = some 0 }, c ∷ p)

unfoldable pub decode_parsed : Bytes → Bool → Parsed → Timespec × Bytes
decode_parsed arg parse_fraction parsed =
    let decoded = decode_fraction arg parsed parse_fraction parsed.arglim in
    if length parsed.arglim == length arg
    then (record { tv_sec = parsed.value; tv_nsec = none }, parsed.arglim)
    else if parsed.overflow
    then (record { tv_sec = decoded.0.tv_sec; tv_nsec = none }, decoded.1)
    else decoded

-- The time stamp, and the text at `*arg_lim`.
unfoldable pub decode_timespec : Bytes → Bool → Timespec × Bytes
decode_timespec arg parse_fraction =
    decode_parsed arg parse_fraction (stoint arg (2 ^ 63) (2 ^ 63 - 1))

pub data DecodedTime : Type 0 where
  out_of_range malformed : DecodedTime
  decoded_time : Timespec → DecodedTime

abbrev pub is_empty : Bytes → Bool
is_empty [] = true
is_empty (c ∷ s) = false

-- The tests of `decode_time`, for the text `arg_lim` behind the time stamp.
unfoldable pub judge_time : Bytes → Timespec → Bytes → DecodedTime
judge_time arg t arg_lim = elim t.tv_nsec [
  | none ↦ if ltb (length arg_lim) (length arg) && is_empty arg_lim then out_of_range else malformed
  | some ns ↦ if is_empty arg_lim then decoded_time t else malformed
]

unfoldable pub decode_time : Bytes → DecodedTime
unfolding judge_time
decode_time arg = let t = decode_timespec arg true in judge_time arg t.0 t.1
