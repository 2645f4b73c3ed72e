-- ===== src/Field/Types.antt =====
-- The conversions of src/create.c and src/list.c for one C type each, on a 64-bit host: uid_t,
-- gid_t, major_t and minor_t are unsigned and have 32 bits, off_t and time_t are signed and have 64.
-- A signed value is its bit pattern.
use tar.Base.{ℕ, ◌-◌, ◌^◌, ◌≤◌, ◌≡◌, arith, Bool, true, false, none, some, List, [], leb}
use tar.Base.Words.{IsU64}
use tar.Field.{Format}
use tar.Field.Encode.{Encoded, gnu_format, max_val_with_digits, to_chars}
use tar.Field.Decode.{Decoded, from_header}
use tar.Field.RoundTrip.{from_header-to_chars_gnu}

abbrev pub max_u32 : ℕ
max_u32 = 2 ^ 32 - 1

abbrev pub max_i64 : ℕ
max_i64 = 2 ^ 63 - 1

abbrev pub min_i64 : ℕ
min_i64 = 2 ^ 63

abbrev pub is_negative : ℕ → Bool
is_negative v = leb (2 ^ 63) v

-- `nobody` is what `gid_substitute` and `uid_substitute` return, an id that the host looks up.
unfoldable pub gid_to_chars : Format → ℕ → ℕ → List ℕ → ℕ → Bool → Encoded
gid_to_chars archive_format nobody v p s warned =
    to_chars archive_format false v 4 (some (false, nobody)) p s warned

unfoldable pub uid_to_chars : Format → ℕ → ℕ → List ℕ → ℕ → Bool → Encoded
uid_to_chars archive_format nobody v p s warned =
    to_chars archive_format false v 4 (some (false, nobody)) p s warned

unfoldable pub major_to_chars : Format → ℕ → List ℕ → ℕ → Bool → Encoded
major_to_chars archive_format v p s warned = to_chars archive_format false v 4 none p s warned

unfoldable pub minor_to_chars : Format → ℕ → List ℕ → ℕ → Bool → Encoded
minor_to_chars archive_format v p s warned = to_chars archive_format false v 4 none p s warned

unfoldable pub off_to_chars : Format → ℕ → List ℕ → ℕ → Bool → Encoded
off_to_chars archive_format v p s warned =
    to_chars archive_format (is_negative v) v 8 none p s warned

unfoldable pub time_to_chars : Format → ℕ → List ℕ → ℕ → Bool → Encoded
time_to_chars archive_format v p s warned =
    to_chars archive_format (is_negative v) v 8 none p s warned

unfoldable pub gid_from_header : List ℕ → Bool → Decoded
gid_from_header p warned = from_header p true 0 max_u32 false false warned

unfoldable pub uid_from_header : List ℕ → Bool → Decoded
uid_from_header p warned = from_header p true 0 max_u32 false false warned

unfoldable pub major_from_header : List ℕ → Bool → Decoded
major_from_header p warned = from_header p true 0 max_u32 false false warned

unfoldable pub minor_from_header : List ℕ → Bool → Decoded
minor_from_header p warned = from_header p true 0 max_u32 false false warned

unfoldable pub off_from_header : List ℕ → Bool → Decoded
off_from_header p warned = from_header p true 0 max_i64 false false warned

unfoldable pub time_from_header : List ℕ → Bool → Decoded
time_from_header p warned = from_header p true min_i64 max_i64 false false warned

-- Every time stamp survives the GNU formats' twelve byte field, those before 1970 too.
pub time_from_header-time_to_chars :
    (archive_format : Format) (v : ℕ) (p : List ℕ) (warned warned' : Bool)
    → gnu_format archive_format ≡ true
    → IsU64 v
    → time_from_header (time_to_chars archive_format v p 12 warned).bytes warned'
      ≡ record { value = v; messages = []; warned_once = warned' }
unfolding time_from_header time_to_chars
time_from_header-time_to_chars archive_format v p warned warned' gnu w =
    (from_header-to_chars_gnu archive_format (is_negative v) v 8 none p 10 warned true min_i64
      max_i64 false warned' gnu w (unfold max_val_with_digits in ground arith) (ground arith)).2

-- Every user id survives the GNU formats' eight byte field, whatever the substitute.
pub uid_from_header-uid_to_chars :
    (archive_format : Format) (nobody v : ℕ) (p : List ℕ) (warned warned' : Bool)
    → gnu_format archive_format ≡ true
    → v ≤ max_u32
    → uid_from_header (uid_to_chars archive_format nobody v p 8 warned).bytes warned'
      ≡ record { value = v; messages = []; warned_once = warned' }
unfolding uid_from_header uid_to_chars
uid_from_header-uid_to_chars archive_format nobody v p warned warned' gnu h =
    (from_header-to_chars_gnu archive_format false v 4 (some (false, nobody)) p 6 warned true 0
      max_u32 false warned' gnu (omega arith) (unfold max_val_with_digits in omega arith) h).2
