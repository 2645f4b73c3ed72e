-- ===== src/Suffix.antt =====
-- The compression program that an archive's name asks for (src/suffix.c).
pub mod Names
mod Runs
use tar.Base.{
  ℕ, zero, suc, ◌+◌, ◌-◌, Bool, true, false, not, ◌&&◌, Option, none, some, List, [], ◌∷◌, length,
  take, drop, ltb, ◌==◌, if◌then◌else◌,
}
use tar.Base.Text.{Bytes, codes, streq}

-- The programs of the table, by their macros, and any other that the user names.
pub data Program : Type 0 where
  gzip compress bzip2 lzip lzma lzop xz zstd : Program
  other : Bytes → Program

-- `struct compression_suffix`; an empty program is `none`.
pub record CompressionSuffix : Type 0 where
  pub suffix : Bytes
  pub program : Option Program

abbrev pub entry : Bytes → Option Program → CompressionSuffix
entry suffix program = record { suffix = suffix; program = program }

abbrev pub compression_suffixes : List CompressionSuffix
compression_suffixes =
    entry (codes "tar") none
    ∷ entry (codes "gz") (some gzip)
    ∷ entry (codes "z") (some gzip)
    ∷ entry (codes "tgz") (some gzip)
    ∷ entry (codes "taz") (some gzip)
    ∷ entry (codes "Z") (some compress)
    ∷ entry (codes "taZ") (some compress)
    ∷ entry (codes "bz2") (some bzip2)
    ∷ entry (codes "tbz") (some bzip2)
    ∷ entry (codes "tbz2") (some bzip2)
    ∷ entry (codes "tz2") (some bzip2)
    ∷ entry (codes "lz") (some lzip)
    ∷ entry (codes "lzma") (some lzma)
    ∷ entry (codes "tlz") (some lzma)
    ∷ entry (codes "lzo") (some lzop)
    ∷ entry (codes "tzo") (some lzop)
    ∷ entry (codes "xz") (some xz)
    ∷ entry (codes "txz") (some xz)
    ∷ entry (codes "zst") (some zstd)
    ∷ entry (codes "tzst") (some zstd)
    ∷ []

-- `strrchr (name, '.')`: the number of bytes in front of the last dot.
unfoldable pub last_dot : Bytes → Option ℕ
last_dot [] = none
last_dot (c ∷ cs) = elim (last_dot cs) [
  | some i ↦ some (suc i)
  | none ↦ if c == b'.' then some 0 else none
]

-- The loop over the table.
unfoldable pub find_entry : List CompressionSuffix → Bytes → Option CompressionSuffix
unfolding streq
find_entry [] suf = none
find_entry (p ∷ ps) suf = if streq p.suffix suf then some p else find_entry ps suf

-- `suf[1] != 0 && suf[1] != '/'`, for the bytes behind the dot.
unfoldable pub starts_suffix : Bytes → Bool
starts_suffix [] = false
starts_suffix (c ∷ cs) = not (c == b'/')

-- The entry found, and the value stored through `ret_len`, for the place of the last dot.
unfoldable pub entry_behind : Bytes → Option ℕ → Option CompressionSuffix × ℕ
entry_behind name none = (none, 0)
entry_behind name (some len) =
    let suf = drop (suc len) name in
    if starts_suffix suf then (find_entry compression_suffixes suf, len) else (none, 0)

unfoldable pub find_compression_suffix : Bytes → Option CompressionSuffix × ℕ
find_compression_suffix name = entry_behind name (last_dot name)

-- The value given to `use_compress_program_option`, and whether there is a warning.
unfoldable pub choose_program :
    Option Program → Bool → Option CompressionSuffix → ℕ → Option Program × Bool
choose_program defprog verbose (some p) len = (p.program, false)
choose_program defprog verbose none len = (defprog, ltb 0 len && verbose)

unfoldable pub set_compression_program_by_suffix :
    Bytes → Option Program → Bool → Option Program × Bool
unfolding choose_program
set_compression_program_by_suffix name defprog verbose =
    let found = find_compression_suffix name in choose_program defprog verbose found.0 found.1

-- `p->suffix[0] != 't'` negated.
unfoldable pub begins_with_t : Bytes → Bool
begins_with_t [] = false
begins_with_t (c ∷ cs) = c == b't'

-- The length that is kept of a name whose suffix stands behind `len` bytes.
unfoldable pub stripped_length : Bytes → CompressionSuffix → ℕ → ℕ
stripped_length name p len =
    if ltb 4 len
      && streq (take 4 (drop (len - 4) name)) (codes ".tar")
      && not (begins_with_t p.suffix)
    then len - 4
    else len

unfoldable pub strip_at : Bytes → Option CompressionSuffix → ℕ → Option Bytes
unfolding stripped_length
strip_at name none len = none
strip_at name (some p) len =
    let len' = stripped_length name p len in if len' == 0 then none else some (take len' name)

unfoldable pub strip_compression_suffix : Bytes → Option Bytes
unfolding strip_at
strip_compression_suffix name =
    let found = find_compression_suffix name in strip_at name found.0 found.1
