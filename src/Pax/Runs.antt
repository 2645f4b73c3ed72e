-- ===== src/Pax/Runs.antt =====
-- Records of an extended header, one by one.
use tar.Base.{◌^◌, ◌-◌, true, false, ◌≡◌, refl, arith, some, [], ◌∷◌, ◌++◌, length}
use tar.Base.Text.{Bytes, codes}
use tar.Decimal.{digit_loop, stoint_negative, stoint}
use tar.Decimal.Digits.{digits, digit_printer}
use tar.Decimal.Parse.{stoint-to_str}
use tar.Pax.{
  xattr_encode_keyword, encode_byte, xattr_decode_keyword, grow, xheader_print_n, size_loop,
  handled, decode_record,
}
use tar.Pax.Keyword.{xattr_decode_keyword-encode}
use tar.Pax.Time.{
  code_timespec, valid_ns, code_ns_fraction, drop_zeros, put_digits, decode_timespec, decode_parsed,
  decode_fraction, with_fraction, borrow_second, fraction_loop,
}
use tar.Pax.Stamp.{decode_timespec-code_timespec}
use tar.Pax.RoundTrip.{xheader_print_n_total, decode_record-xheader_print_n}

-- The length counts its own digits.
path_record :
    xheader_print_n digit_printer (codes "path") (codes "ab") ≡ some (codes "11 path=ab\n")
unfolding xheader_print_n xattr_encode_keyword encode_byte grow size_loop digits
path_record = refl

xattr_decode_keyword-encode_example :
    xattr_decode_keyword (xattr_encode_keyword (codes "a=b%3D")) ≡ codes "a=b%3D"
xattr_decode_keyword-encode_example = xattr_decode_keyword-encode (codes "a=b%3D")

xheader_print_n_total_example :
    (r : Bytes) × (xheader_print_n digit_printer (codes "path") (codes "ab") ≡ some r)
    × (r
        ≡ digit_printer.to_str (length r)
          ++ (b' '
              ∷ (xattr_encode_keyword (codes "path") ++ (b'=' ∷ (codes "ab" ++ (b'\n' ∷ []))))))
xheader_print_n_total_example = xheader_print_n_total digit_printer (codes "path") (codes "ab")

decode_record-xheader_print_n_example :
    decode_record (codes "11 path=ab\n" ++ codes "next")
    ≡ handled (xattr_encode_keyword (codes "path")) (codes "ab") (codes "next")
decode_record-xheader_print_n_example =
    decode_record-xheader_print_n digit_printer (codes "path") (codes "ab") (codes "next")
      (codes "11 path=ab\n") path_record (omega arith) refl refl

stoint-to_str_example :
    stoint (digit_printer.to_str 42 ++ codes " rest") 0 1000
    ≡ record { value = 42; arglim = codes " rest"; overflow = false }
stoint-to_str_example =
    stoint-to_str digit_printer 42 1000 (codes " rest") (omega arith) (omega arith) refl

decode_timespec-code_timespec_example :
    decode_timespec
      (code_timespec digit_printer.to_str (record { tv_sec = 7; tv_nsec = some 120000000 }))
      true
    ≡ (record { tv_sec = 7; tv_nsec = some 120000000 }, [])
decode_timespec-code_timespec_example =
    decode_timespec-code_timespec digit_printer digit_printer.to_str 7 120000000 refl (omega arith)
      (omega arith)

stamp_run :
    code_timespec digit_printer.to_str (record { tv_sec = 7; tv_nsec = some 120000000 })
    ≡ codes "7.12"
unfolding code_timespec valid_ns code_ns_fraction drop_zeros put_digits digits
stamp_run = refl

-- A negative time stamp is truncated towards minus infinity.
truncated_run :
    decode_timespec (codes "-1.1000000001") true
    ≡ (record { tv_sec = 2 ^ 64 - 2; tv_nsec = some 899999999 }, [])
unfolding decode_timespec decode_parsed decode_fraction with_fraction borrow_second fraction_loop
    stoint stoint_negative digit_loop
truncated_run = refl
