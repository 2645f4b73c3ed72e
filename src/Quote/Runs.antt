-- ===== src/Quote/Runs.antt =====
-- Escapes in concrete strings.
use tar.Base.{◌-◌, ◌≡◌, refl, [], ◌∷◌}
use tar.Base.Text.{codes}
use tar.Quote.{quote_copy_string, unquote_string, unquote_loop, unescape, second_digit, third_digit}
use tar.Quote.RoundTrip.{copy_or, unquote_string-quote_copy_string, unquote_string-two_digits}

-- The manual's escape of a tab, and one of two digits.
three_digits_run : unquote_string (codes "a\\011b") ≡ b'a' ∷ 9 ∷ b'b' ∷ []
unfolding unquote_string unquote_loop unescape second_digit third_digit
three_digits_run = refl

two_digits_run : unquote_string (codes "a\\12b") ≡ b'a' ∷ 1 ∷ b'b' ∷ []
unfolding unquote_string unquote_loop unescape second_digit third_digit
two_digits_run = refl

unquote_string-quote_copy_string_example :
    unquote_string (copy_or (b'a' ∷ 10 ∷ b'\\' ∷ []) (quote_copy_string (b'a' ∷ 10 ∷ b'\\' ∷ [])))
    ≡ b'a' ∷ 10 ∷ b'\\' ∷ []
unquote_string-quote_copy_string_example = unquote_string-quote_copy_string (b'a' ∷ 10 ∷ b'\\' ∷ [])

unquote_string-two_digits_example :
    unquote_string (b'\\' ∷ b'1' ∷ b'2' ∷ codes "b") ≡ (b'1' - b'0') ∷ unquote_string (codes "b")
unquote_string-two_digits_example = unquote_string-two_digits b'1' b'2' (codes "b") refl refl refl
