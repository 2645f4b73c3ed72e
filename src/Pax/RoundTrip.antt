-- ===== src/Pax/RoundTrip.antt =====
-- `xheader_print_n` always writes a record, its length is the one that the record states, and
-- `decode_record` reads it back.
use tar.Base.{
  ℕ, ◌+◌, ◌≤◌, ◌≡◌, refl, ◌∙◌, ap, arith, true, some, [], ◌∷◌, ◌++◌, append_assoc, length,
  length-append, subst,
}
use tar.Base.Text.{Bytes}
use tar.Decimal.{DecimalPrinter}
use tar.Pax.{
  xattr_encode_keyword, grow, xheader_print_n, size_loop, idx_max, handled, decode_record,
}
use tar.Pax.Keyword.{all_keep-encode, no_nul}
use tar.Pax.Size.{Settles, size_loop-Settles}
use tar.Pax.Record.{starts_plain, decode_record-text}

starts_plain-encode :
    (keyword : Bytes)
    → starts_plain keyword ≡ true
    → starts_plain (xattr_encode_keyword keyword) ≡ true
unfolding xattr_encode_keyword
starts_plain-encode [] h = refl
starts_plain-encode (c ∷ keyword) h = ground arith

module _ (printer : DecimalPrinter) (keyword value : Bytes) where
  abbrev kw : Bytes
  kw = xattr_encode_keyword keyword

  abbrev total : ℕ
  total = length kw + length value + 3

  settled : Settles printer total (size_loop printer 3 total 0)
  settled = size_loop-Settles printer total (omega arith)

  abbrev record_size : ℕ
  record_size = total + settled.0

  abbrev whole : Bytes
  whole = printer.to_str record_size ++ (b' ' ∷ (kw ++ (b'=' ∷ (value ++ (b'\n' ∷ [])))))

  printed : xheader_print_n printer keyword value ≡ some whole
  unfolding xheader_print_n
  printed = ap (grow kw value) settled.1

  length-whole : length whole ≡ record_size
  length-whole = omega (
    arith,
    settled.2,
    length-append (printer.to_str record_size) (b' ' ∷ (kw ++ (b'=' ∷ (value ++ (b'\n' ∷ []))))),
    length-append kw (b'=' ∷ (value ++ (b'\n' ∷ []))),
    length-append value (b'\n' ∷ []),
  )

  -- `xheader_print_n` always writes a record, since its loop for the length ends, and the number
  -- that the record begins with is its length.
  pub xheader_print_n_total :
      (r : Bytes) × (xheader_print_n printer keyword value ≡ some r)
      × (r
          ≡ printer.to_str (length r)
            ++ (b' ' ∷ (xattr_encode_keyword keyword ++ (b'=' ∷ (value ++ (b'\n' ∷ []))))))
  xheader_print_n_total = (whole, printed, rw length-whole)

-- `decode_record` reads back what `xheader_print_n` writes, for a value with any bytes in it and
-- with any text behind the record: it hands on the encoded keyword and the value, and goes on at
-- that text. The record is not longer than an idx_t counts; the keyword holds no NUL and begins
-- with neither a space nor a tab.
pub decode_record-xheader_print_n :
    (printer : DecimalPrinter) (keyword value rest r : Bytes)
    → xheader_print_n printer keyword value ≡ some r
    → length r ≤ idx_max
    → no_nul keyword ≡ true
    → starts_plain keyword ≡ true
    → decode_record (r ++ rest) ≡ handled (xattr_encode_keyword keyword) value rest
decode_record-xheader_print_n printer keyword value rest r written fits string plain =
    let same : whole printer keyword value ≡ r = cc (printed printer keyword value) in
    let size = length-whole printer keyword value in
    subst
      (λ (t : Bytes). decode_record (t ++ rest) ≡ handled (xattr_encode_keyword keyword) value rest)
      same
      (ap decode_record (simp append_assoc)
        ∙ decode_record-text printer (record_size printer keyword value)
            (xattr_encode_keyword keyword) value rest
            (omega (arith, (settled printer keyword value).2))
            (omega (arith, size, ap {B = ℕ} length same)) (all_keep-encode keyword string)
            (starts_plain-encode keyword plain))
