-- ===== src/Decimal.antt =====
-- Decimal numbers: `stoint` of src/misc.c reads them. Their printing, `imaxtostr` and `umaxtostr`,
-- is gnulib's, and enters as a record of what it promises.
pub mod Parse
pub mod Digits
use tar.Base.{
  ℕ, zero, suc, ◌+◌, ◌-◌, ◌*◌, ◌/◌, ◌%◌, ◌^◌, ◌<◌, ◌≤◌, ◌≡◌, Bool, true, false, not, ◌&&◌, ◌||◌,
  List, [], ◌∷◌, length, ltb, leb, ◌==◌, if◌then◌else◌,
}
use tar.Base.Text.{Bytes}
use tar.Base.Words.{u64_mod, negate}

-- gnulib's c_isdigit
abbrev pub c_isdigit : ℕ → Bool
c_isdigit c = leb b'0' c && leb c b'9'

-- The bit pattern of the intmax_t returned, the text at `*arglim`, and `*overflow`.
pub record Parsed : Type 0 where
  pub value : ℕ
  pub arglim : Bytes
  pub overflow : Bool

-- The digits behind the first. `limit` is the first magnitude that does not fit; what `ckd_mul` and
-- `ckd_add` store past it is replaced at the end, and is taken modulo `limit` here.
unfoldable pub digit_loop : ℕ → ℕ → Bool → Bytes → Parsed
digit_loop limit i v [] = record { value = i; arglim = []; overflow = v }
digit_loop limit i v (c ∷ p) =
    let next = i * 10 + (c - b'0') in
    let more = digit_loop limit (next % limit) (v || leb limit next) p in
    if c_isdigit c then more else record { value = i; arglim = c ∷ p; overflow = v }

-- `v |= maxval < i; if (v) i = maxval;`
abbrev pub clamp : ℕ → Parsed → Parsed
clamp maxval r =
    if r.overflow || ltb maxval r.value
    then record { value = maxval; arglim = r.arglim; overflow = true }
    else r

-- The same for a negative number of magnitude `r.value`, against `minval`.
abbrev pub clamp_negative : ℕ → Parsed → Parsed
clamp_negative minval r =
    if r.overflow || ltb (negate minval) r.value
    then record { value = minval; arglim = r.arglim; overflow = true }
    else record { value = negate r.value; arglim = r.arglim; overflow = false }

abbrev pub is_negative : ℕ → Bool
is_negative minval = leb (2 ^ 63) minval

-- `p` stands at a minus sign, and `minval` is negative.
unfoldable pub stoint_negative : Bytes → ℕ → Bytes → Parsed
unfolding digit_loop
stoint_negative arg minval [] = record { value = 0; arglim = arg; overflow = false }
stoint_negative arg minval (c ∷ p) =
    if c_isdigit c
    then clamp_negative minval (digit_loop (2 ^ 63 + 1) (c - b'0') false p)
    else record { value = 0; arglim = arg; overflow = false }

unfoldable pub stoint : Bytes → ℕ → ℕ → Parsed
unfolding digit_loop stoint_negative
stoint [] minval maxval = record { value = 0; arglim = []; overflow = false }
stoint (c ∷ p) minval maxval =
    if c_isdigit c
    then clamp maxval
        (digit_loop (if is_negative minval then 2 ^ 63 else u64_mod) (c - b'0') false p)
    else if is_negative minval && c == b'-'
    then stoint_negative (c ∷ p) minval p
    else record { value = 0; arglim = c ∷ p; overflow = false }

-- The number that a list of digits stands for, behind the digits that make `i`.
abbrev pub decimal_value : ℕ → Bytes → ℕ
decimal_value i [] = i
decimal_value i (c ∷ cs) = decimal_value (i * 10 + (c - b'0')) cs

abbrev pub all_digits : Bytes → Bool
all_digits [] = true
all_digits (c ∷ cs) = c_isdigit c && all_digits cs

-- What `imaxtostr` and `umaxtostr` promise of a number that is not negative: decimal digits that
-- stand for it, as few as there can be.
pub record DecimalPrinter : Type 0 where
  pub to_str : ℕ → Bytes
  pub to_str-all_digits : (n : ℕ) → all_digits (to_str n) ≡ true
  pub to_str-value : (n : ℕ) → decimal_value 0 (to_str n) ≡ n
  pub to_str_nonempty : (n : ℕ) → 1 ≤ length (to_str n)
  pub to_str_shortest : (n : ℕ) → 1 ≤ n → 10 ^ length (to_str n) ≤ n * 10
