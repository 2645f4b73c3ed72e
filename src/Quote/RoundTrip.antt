-- ===== src/Quote/RoundTrip.antt =====
-- What `unquote_string` makes of quoted strings, and of octal escapes.
use tar.Base.{
  ℕ, zero, suc, ◌+◌, ◌-◌, ◌*◌, ◌≤◌, ◌≡◌, refl, ◌∙◌, ap, sym, Option, none, some, arith, Bool, true,
  false, [], ◌∷◌, ◌++◌, length, ◌==◌, Bool-cases, inl, inr,
}
use tar.Base.Text.{Bytes}
use tar.Field.{is_octal_digit}
use tar.Quote.{
  quote_byte, is_copying, quoted, quote_copy_string, unescape, second_digit, unquote_loop,
  unquote_string,
}

unescape-le : (source : Bytes) → length (unescape source).1 ≤ length source
unfolding unescape
unescape-le [] = omega arith
unescape-le (c ∷ []) = ground arith
unescape-le (c ∷ d ∷ []) = ground arith
unescape-le (c ∷ d ∷ e ∷ source) = ground arith

-- More fuel than bytes changes nothing.
unquote_loop-fuel :
    (f g : ℕ) (source : Bytes)
    → length source ≤ f
    → length source ≤ g
    → unquote_loop f source ≡ unquote_loop g source
unfolding unquote_loop
unquote_loop-fuel zero zero source hf hg = refl
unquote_loop-fuel zero (suc g) [] hf hg = refl
unquote_loop-fuel (suc f) zero [] hf hg = refl
unquote_loop-fuel zero (suc g) (c ∷ source) hf hg = absurd (omega arith)
unquote_loop-fuel (suc f) zero (c ∷ source) hf hg = absurd (omega arith)
unquote_loop-fuel (suc f) (suc g) [] hf hg = refl
unquote_loop-fuel (suc f) (suc g) (c ∷ source) hf hg = ground (
  arith,
  unescape-le source,
  unquote_loop-fuel f g source (omega arith) (omega arith),
  unquote_loop-fuel f g (unescape source).1 (omega (arith, unescape-le source))
      (omega (arith, unescape-le source)),
)

-- One round of the loop, at a byte that is not a backslash and at one that is.
pub unquote_string-plain :
    (c : ℕ) (source : Bytes)
    → (c == b'\\') ≡ false
    → unquote_string (c ∷ source) ≡ c ∷ unquote_string source
unfolding unquote_string
unquote_string-plain c source h = ground arith

pub unquote_string-escape :
    (source : Bytes)
    → unquote_string (b'\\' ∷ source) ≡ (unescape source).0 ++ unquote_string (unescape source).1
unfolding unquote_string
unquote_string-escape source =
    ap (λ (l : Bytes). (unescape source).0 ++ l)
      (unquote_loop-fuel (length source) (length (unescape source).1) (unescape source).1
        (unescape-le source) (omega arith))

unquote_string-quote_byte :
    (c : ℕ) (rest : Bytes) → unquote_string (quote_byte c ++ rest) ≡ c ∷ unquote_string rest
unfolding quote_byte
unquote_string-quote_byte c rest = elim (Bool-cases (c == b'\n')) [
  | inl newline ↦ rw newline (unquote_string-escape (b'n' ∷ rest) ∙ unfold unescape in ground arith)
  | inr other ↦ rw other (elim (Bool-cases (c == b'\\')) [
    | inl backslash ↦
        rw backslash (unquote_string-escape (b'\\' ∷ rest) ∙ unfold unescape in ground arith)
    | inr plain ↦ rw plain (unquote_string-plain c rest plain)
  ])
]

unquote_string-quoted : (source : Bytes) → unquote_string (quoted source) ≡ source
unfolding quoted
unquote_string-quoted [] = unfold unquote_string unquote_loop in refl
unquote_string-quoted (c ∷ source) =
    unquote_string-quote_byte c (quoted source)
    ∙ ap (λ (s : Bytes). c ∷ s) (unquote_string-quoted source)

quoted-plain : (source : Bytes) → is_copying source ≡ false → quoted source ≡ source
unfolding quoted is_copying quote_byte
quoted-plain [] h = refl
quoted-plain (c ∷ source) h = ground (arith, quoted-plain source)

-- The copy, or the string where there is none.
abbrev pub copy_or : Bytes → Option Bytes → Bytes
copy_or source none = source
copy_or source (some copy) = copy

-- `unquote_string` turns the quoted copy that `quote_copy_string` makes of a string back into the
-- string, and leaves the string alone where `quote_copy_string` makes no copy. The second of these
-- functions is not compiled.
pub unquote_string-quote_copy_string :
    (source : Bytes) → unquote_string (copy_or source (quote_copy_string source)) ≡ source
unfolding quote_copy_string
unquote_string-quote_copy_string source = elim (Bool-cases (is_copying source)) [
  | inl copies ↦ rw copies (unquote_string-quoted source)
  | inr plain ↦
      rw plain (ap unquote_string (sym (quoted-plain source plain)) ∙ unquote_string-quoted source)
]

abbrev pub starts_octal : Bytes → Bool
starts_octal [] = false
starts_octal (c ∷ source) = is_octal_digit c

-- An octal digit stands for no other escape.
unescape-octal :
    (d : ℕ) (source : Bytes)
    → is_octal_digit d ≡ true
    → unescape (d ∷ source) ≡ second_digit (d - b'0') source
unfolding unescape
unescape-octal d source h = ground arith

second_digit-short :
    (v e : ℕ) (rest : Bytes)
    → is_octal_digit e ≡ true
    → starts_octal rest ≡ false
    → second_digit v (e ∷ rest) ≡ (v ∷ [], rest)
unfolding second_digit
second_digit-short v e [] he ends = ground arith
second_digit-short v e (c ∷ rest) he ends = ground arith

second_digit-long :
    (v e f : ℕ) (rest : Bytes)
    → is_octal_digit e ≡ true
    → is_octal_digit f ≡ true
    → v ≤ 3
    → second_digit v (e ∷ f ∷ rest) ≡ ((v * 64 + (e - b'0') * 8 + (f - b'0')) ∷ [], rest)
unfolding second_digit
second_digit-long v e f rest he hf small = ground arith

-- `unquote_string` keeps only the first digit of an escape with exactly two octal digits, though
-- it consumes both: `\12` gives the byte 1, not the byte 10.
pub unquote_string-two_digits :
    (d e : ℕ) (rest : Bytes)
    → is_octal_digit d ≡ true
    → is_octal_digit e ≡ true
    → starts_octal rest ≡ false
    → unquote_string (b'\\' ∷ d ∷ e ∷ rest) ≡ (d - b'0') ∷ unquote_string rest
unquote_string-two_digits d e rest hd he ends =
    unquote_string-escape (d ∷ e ∷ rest)
    ∙ ap (λ (r : Bytes × Bytes). r.0 ++ unquote_string r.1)
        (unescape-octal d (e ∷ rest) hd ∙ second_digit-short (d - b'0') e rest he ends)

-- `unquote_string` makes an escape with three octal digits, the first at most 3, the byte with
-- that number.
pub unquote_string-three_digits :
    (d e f : ℕ) (rest : Bytes)
    → is_octal_digit d ≡ true
    → is_octal_digit e ≡ true
    → is_octal_digit f ≡ true
    → d ≤ b'3'
    → unquote_string (b'\\' ∷ d ∷ e ∷ f ∷ rest)
      ≡ ((d - b'0') * 64 + (e - b'0') * 8 + (f - b'0')) ∷ unquote_string rest
unquote_string-three_digits d e f rest hd he hf small =
    unquote_string-escape (d ∷ e ∷ f ∷ rest)
    ∙ ap (λ (r : Bytes × Bytes). r.0 ++ unquote_string r.1)
        (unescape-octal d (e ∷ f ∷ rest) hd
          ∙ second_digit-long (d - b'0') e f rest he hf (omega arith))
