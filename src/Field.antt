-- ===== src/Field.antt =====
-- The numeric fields of a tar header (src/create.c and src/list.c): the archive formats and the
-- character tests that both directions share. Encode holds the writers, Decode the reader.
pub mod Encode
pub mod Decode
pub mod Capacity
pub mod Octal
pub mod Base256
pub mod RoundTrip
pub mod Outcome
pub mod Types
pub mod Mode
pub mod ModeBits
mod Runs
use tar.Base.{ℕ, Bool, ◌&&◌, ◌||◌, leb, ◌==◌}

-- `enum archive_format`
pub data Format : Type 0 where
  default v7 oldgnu ustar posix star gnu : Format

abbrev pub is_octal_digit : ℕ → Bool
is_octal_digit c = leb b'0' c && leb c b'7'

-- gnulib's c_isspace
abbrev pub c_isspace : ℕ → Bool
c_isspace c = c == b' ' || (leb 9 c && leb c 13)
