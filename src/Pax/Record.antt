-- ===== src/Pax/Record.antt =====
-- A printed record is read back: keyword, value and the text behind it.
use tar.Base.{
  ℕ, zero, suc, ◌+◌, ◌-◌, ◌≤◌, ◌≡◌, refl, ◌∙◌, ap, arith, Bool, true, false, not, some, [], ◌∷◌,
  ◌++◌, append_assoc, length, length-append, take, drop, get_or,
}
use tar.Base.Text.{Bytes}
use tar.Decimal.{all_digits, DecimalPrinter}
use tar.Decimal.Parse.{stoint-to_str}
use tar.Pax.{
  is_blank, skip_blanks, before_equals, idx_max, handled, decode_value, decode_pair, decode_behind,
  decode_length, decode_record,
}
use tar.Pax.Keyword.{all_keep}

drop-append_at : (xs ys : Bytes) (n : ℕ) → n ≡ length xs → drop n (xs ++ ys) ≡ ys
drop-append_at [] ys zero e = refl
drop-append_at [] ys (suc n) e = absurd (omega arith)
drop-append_at (x ∷ xs) ys zero e = absurd (omega arith)
drop-append_at (x ∷ xs) ys (suc n) e = drop-append_at xs ys n (omega arith)

get_or-append_at : (xs ys : Bytes) (n y d : ℕ) → n ≡ length xs → get_or (xs ++ (y ∷ ys)) n d ≡ y
get_or-append_at [] ys zero y d e = refl
get_or-append_at [] ys (suc n) y d e = absurd (omega arith)
get_or-append_at (x ∷ xs) ys zero y d e = absurd (omega arith)
get_or-append_at (x ∷ xs) ys (suc n) y d e = get_or-append_at xs ys n y d (omega arith)

take-append_at : (xs ys : Bytes) (n : ℕ) → n ≡ length xs → take n (xs ++ ys) ≡ xs
take-append_at [] ys zero e = refl
take-append_at [] ys (suc n) e = absurd (omega arith)
take-append_at (x ∷ xs) ys zero e = absurd (omega arith)
take-append_at (x ∷ xs) ys (suc n) e =
    ap (λ (l : Bytes). x ∷ l) (take-append_at xs ys n (omega arith))

before_equals-append :
    (kw after : Bytes) → all_keep kw ≡ true → before_equals (kw ++ (b'=' ∷ after)) ≡ some kw
unfolding before_equals
before_equals-append [] after h = refl
before_equals-append (c ∷ kw) after h = ground (arith, before_equals-append kw after)

-- Neither blank nor tab at the front.
abbrev pub starts_plain : Bytes → Bool
starts_plain [] = true
starts_plain (c ∷ cs) = not (is_blank c)

-- The parts of a record, and the text behind it.
module _ (np kw value rest : Bytes) where
  abbrev pub pair : Bytes
  pair = kw ++ (b'=' ∷ (value ++ (b'\n' ∷ rest)))

  abbrev pub text : Bytes
  text = np ++ (b' ' ∷ pair)

  abbrev front : Bytes
  front = np ++ (b' ' ∷ (kw ++ (b'=' ∷ [])))

  text-front : text ≡ front ++ (value ++ (b'\n' ∷ rest))
  text-front = simp append_assoc

  text_line : text ≡ (front ++ value) ++ (b'\n' ∷ rest)
  text_line = simp append_assoc

  text_rest : text ≡ ((front ++ value) ++ (b'\n' ∷ [])) ++ rest
  text_rest = simp append_assoc

  length-front : length front ≡ length np + length kw + 2
  length-front =
      omega (arith, length-append np (b' ' ∷ (kw ++ (b'=' ∷ []))), length-append kw (b'=' ∷ []))

  length-pair : length text ≡ length np + 1 + length pair
  length-pair = omega (arith, length-append np (b' ' ∷ pair))

  line_end :
      (len : ℕ) → len ≡ length np + length kw + length value + 3 → get_or text (len - 1) 0 ≡ b'\n'
  line_end len size = rw text_line (
      get_or-append_at (front ++ value) rest (len - 1) b'\n' 0
        (omega (arith, length-front, length-append front value)))

  the_value :
      (n equals : ℕ)
      → n ≡ length value
      → equals ≡ length np + 1 + length kw
      → take n (drop (equals + 1) text) ≡ value
  the_value n equals size at =
      ap (take n) (
        ap (drop (equals + 1)) text-front
        ∙ drop-append_at front (value ++ (b'\n' ∷ rest)) (equals + 1) (omega (arith, length-front)))
      ∙ take-append_at value (b'\n' ∷ rest) n size

  the_rest : (len : ℕ) → len ≡ length np + length kw + length value + 3 → drop len text ≡ rest
  the_rest len size =
      ap (drop len) text_rest
      ∙ drop-append_at ((front ++ value) ++ (b'\n' ∷ [])) rest len (
          omega (
            arith,
            length-front,
            length-append front value,
            length-append (front ++ value) (b'\n' ∷ []),
          ))

  decode_value-text :
      (len equals : ℕ)
      → len ≡ length np + length kw + length value + 3
      → equals ≡ length np + 1 + length kw
      → decode_value text len equals kw ≡ handled kw value rest
  unfolding decode_value
  decode_value-text len equals size at = rw (line_end len size) (
      rw (the_rest len size)
        (rw (the_value (len - equals - 2) equals (omega arith) at) (ground arith)))

  decode_pair-text :
      (len : ℕ)
      → len ≡ length np + length kw + length value + 3
      → all_keep kw ≡ true
      → decode_pair text len (length text - length pair) (before_equals pair)
        ≡ handled kw value rest
  unfolding decode_pair
  decode_pair-text len size keep = rw (before_equals-append kw (value ++ (b'\n' ∷ rest)) keep) (
      decode_value-text len (length text - length pair + length kw) size
        (omega (arith, length-pair)))

  decode_behind-text :
      (len : ℕ)
      → len ≡ length np + length kw + length value + 3
      → all_keep kw ≡ true
      → decode_behind text len (b' ' ∷ pair) pair ≡ handled kw value rest
  unfolding decode_behind
  decode_behind-text len size keep = rw (decode_pair-text len size keep) (
      ground (
        arith,
        length-pair,
        length-append kw (b'=' ∷ (value ++ (b'\n' ∷ rest))),
        length-append value (b'\n' ∷ rest),
      ))

skip_blanks-plain :
    (kw after : Bytes)
    → starts_plain kw ≡ true
    → skip_blanks (b' ' ∷ (kw ++ (b'=' ∷ after))) ≡ kw ++ (b'=' ∷ after)
unfolding skip_blanks
skip_blanks-plain [] after h = refl
skip_blanks-plain (c ∷ kw) after h = ground arith

skip_blanks-digits :
    (np after : Bytes)
    → all_digits np ≡ true
    → 1 ≤ length np
    → skip_blanks (np ++ after) ≡ np ++ after
unfolding skip_blanks
skip_blanks-digits [] after h n = absurd (omega arith)
skip_blanks-digits (c ∷ np) after h n = ground arith

module _ (printer : DecimalPrinter) (len : ℕ) (kw value rest : Bytes) where
  abbrev pub np : Bytes
  np = printer.to_str len

  decode_length-text :
      len ≡ length np + length kw + length value + 3
      → all_keep kw ≡ true
      → starts_plain kw ≡ true
      → decode_length
          (text np kw value rest)
          (text np kw value rest)
          (record { value = len; arglim = b' ' ∷ pair np kw value rest; overflow = false })
        ≡ handled kw value rest
  unfolding decode_length
  decode_length-text size keep plain = rw (skip_blanks-plain kw (value ++ (b'\n' ∷ rest)) plain) (
      rw (decode_behind-text np kw value rest len size keep) (
        ground
          (arith, printer.to_str_nonempty len, length-append np (b' ' ∷ pair np kw value rest))))

  pub decode_record-text :
      len ≡ length np + length kw + length value + 3
      → len ≤ idx_max
      → all_keep kw ≡ true
      → starts_plain kw ≡ true
      → decode_record (text np kw value rest) ≡ handled kw value rest
  unfolding decode_record
  decode_record-text size fits keep plain =
      rw
        (skip_blanks-digits np (b' ' ∷ pair np kw value rest) (printer.to_str-all_digits len)
          (printer.to_str_nonempty len))
        (rw
          (stoint-to_str printer len idx_max (b' ' ∷ pair np kw value rest) (omega arith) fits refl)
          (decode_length-text size keep plain))
