-- ===== src/Pax/Number.antt =====
-- Numbers in the records of a pax header: `decode_signed_num` and `decode_num` of src/xheader.c.
use tar.Base.{
  ℕ, ◌<◌, ◌≤◌, ◌≡◌, refl, sym, ◌∙◌, ap, arith, append-nil, false, not, ◌||◌, [], length, ◌==◌,
  if◌then◌else◌,
}
use tar.Base.Text.{Bytes}
use tar.Base.Words.{u64_mod}
use tar.Decimal.{Parsed, stoint, DecimalPrinter}
use tar.Decimal.Parse.{stoint-to_str}

pub data DecodedNumber : Type 0 where
  number_out_of_range invalid_number : DecodedNumber
  decoded_number : ℕ → DecodedNumber

-- For what `stoint` made of `arg`.
unfoldable pub judge_number : Bytes → Parsed → DecodedNumber
judge_number arg parsed =
    if length parsed.arglim == length arg || not (length parsed.arglim == 0)
    then invalid_number
    else if parsed.overflow
    then number_out_of_range
    else decoded_number parsed.value

unfoldable pub decode_signed_num : Bytes → ℕ → ℕ → DecodedNumber
decode_signed_num arg minval maxval = judge_number arg (stoint arg minval maxval)

unfoldable pub decode_num : Bytes → ℕ → DecodedNumber
decode_num arg maxval = decode_signed_num arg 0 maxval

-- `decode_num` reads every printed number that is at most `maxval`.
pub decode_num-to_str :
    (printer : DecimalPrinter) (n maxval : ℕ)
    → n < u64_mod
    → n ≤ maxval
    → decode_num (printer.to_str n) maxval ≡ decoded_number n
unfolding decode_num decode_signed_num judge_number
decode_num-to_str printer n maxval w top =
    let read : stoint (printer.to_str n) 0 maxval
        ≡ record { value = n; arglim = []; overflow = false } =
      ap (λ (s : Bytes). stoint s 0 maxval) (sym (append-nil (printer.to_str n)))
      ∙ stoint-to_str printer n maxval [] w top refl in
    rw read (ground (arith, printer.to_str_nonempty n))
