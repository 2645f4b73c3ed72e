-- ===== src/Quote.antt =====
-- Backslash escapes: `unquote_string` of src/misc.c, and `quote_copy_string`, which stands there under
-- `#if 0` and is not compiled. A string is its bytes without the NUL, and `unquote_string` returns
-- what it leaves there.
pub mod RoundTrip
mod Runs
use tar.Base.{
  ℕ, zero, suc, ◌+◌, ◌-◌, ◌*◌, ◌%◌, Bool, true, false, not, ◌&&◌, ◌||◌, Option, none, some, List,
  [], ◌∷◌, ◌++◌, length, leb, ◌==◌, if◌then◌else◌,
}
use tar.Base.Text.{Bytes}
use tar.Field.{is_octal_digit}

-- The bytes copied for one character.
unfoldable pub quote_byte : ℕ → Bytes
quote_byte c =
    if c == b'\n' then b'\\' ∷ b'n' ∷ [] else if c == b'\\' then b'\\' ∷ b'\\' ∷ [] else c ∷ []

-- Whether something is quoted, which `copying` says, and what the buffer holds then.
unfoldable pub is_copying : Bytes → Bool
is_copying [] = false
is_copying (c ∷ source) = c == b'\n' || c == b'\\' || is_copying source

unfoldable pub quoted : Bytes → Bytes
unfolding quote_byte
quoted [] = []
quoted (c ∷ source) = quote_byte c ++ quoted source

-- None is for the null pointer.
unfoldable pub quote_copy_string : Bytes → Option Bytes
unfolding is_copying quoted
quote_copy_string source = if is_copying source then some (quoted source) else none

-- Behind `\`, the first octal digit `value` and the second, whose value makes `val1`.
unfoldable pub third_digit : ℕ → ℕ → Bytes → Bytes × Bytes
third_digit value val1 [] = (value ∷ [], [])
third_digit value val1 (c ∷ source) =
    if not (is_octal_digit c) || leb 256 (val1 * 8)
    then (value ∷ [], c ∷ source)
    else (((val1 * 8 % 256 + (c - b'0')) % 256) ∷ [], source)

unfoldable pub second_digit : ℕ → Bytes → Bytes × Bytes
unfolding third_digit
second_digit value [] = (value ∷ [], [])
second_digit value (c ∷ source) =
    if not (is_octal_digit c)
    then (value ∷ [], c ∷ source)
    else third_digit value ((value * 8 + (c - b'0')) % 256) source

-- The `switch` behind a backslash: the bytes that are stored, and the source from there on.
unfoldable pub unescape : Bytes → Bytes × Bytes
unfolding second_digit
unescape [] = (b'\\' ∷ [], [])
unescape (c ∷ source) =
    if c == b'\\'
    then (b'\\' ∷ [], source)
    else if c == b'a'
    then (7 ∷ [], source)
    else if c == b'b'
    then (8 ∷ [], source)
    else if c == b'f'
    then (12 ∷ [], source)
    else if c == b'n'
    then (10 ∷ [], source)
    else if c == b'r'
    then (13 ∷ [], source)
    else if c == b't'
    then (9 ∷ [], source)
    else if c == b'v'
    then (11 ∷ [], source)
    else if c == b'?'
    then (127 ∷ [], source)
    else if is_octal_digit c
    then second_digit (c - b'0') source
    else (b'\\' ∷ c ∷ [], source)

-- The loop, on fuel: each round takes a byte at least.
unfoldable pub unquote_loop : ℕ → Bytes → Bytes
unquote_loop zero source = []
unquote_loop (suc fuel) [] = []
unquote_loop (suc fuel) (c ∷ source) = elim (c == b'\\') [
  | true ↦ (unescape source).0 ++ unquote_loop fuel (unescape source).1
  | false ↦ c ∷ unquote_loop fuel source
]

unfoldable pub unquote_string : Bytes → Bytes
unfolding unquote_loop
unquote_string string = unquote_loop (length string) string
