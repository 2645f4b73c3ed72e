-- ===== src/Reader/Fields.antt =====
-- The fields of a header block that `read_header` reads (`struct posix_header` of src/tar.h), and
-- the types of members.
use tar.Base.{
  ℕ, Bool, false, not, ◌&&◌, ◌||◌, [], ◌∷◌, ◌++◌, take, drop, get_or, ◌==◌, if◌then◌else◌,
}
use tar.Base.Text.{Bytes, codes, streq}
use tar.Stream.{Block}
use tar.Field.Types.{off_from_header}

-- The `len` bytes at `offset`.
abbrev pub field : ℕ → ℕ → Block → Bytes
field offset len header = take len (drop offset header)

abbrev pub typeflag : Block → ℕ
typeflag header = get_or header 156 0

-- `OFF_FROM_HEADER (header->header.size)`, a bit pattern.
unfoldable pub size_of : Block → ℕ
size_of header = (off_from_header (field 124 12 header) false).value

-- A character array as a C string.
abbrev pub cstring : Bytes → Bytes
cstring [] = []
cstring (c ∷ s) = if c == 0 then [] else c ∷ cstring s

-- `GNUTYPE_LONGNAME` and `GNUTYPE_LONGLINK`
abbrev pub is_long : ℕ → Bool
is_long t = t == b'L' || t == b'K'

-- `XHDTYPE` and `SOLARIS_XHDTYPE`
abbrev pub is_extended : ℕ → Bool
is_extended t = t == b'x' || t == b'X'

abbrev pub is_special : ℕ → Bool
is_special t = is_long t || (is_extended t || t == b'g')

-- Devices, FIFOs and links.
abbrev pub ignores_size : ℕ → Bool
ignores_size t = t == b'3' || (t == b'4' || (t == b'6' || (t == b'1' || t == b'2')))

abbrev pub tmagic : Bytes
tmagic = codes "ustar" ++ (0 ∷ [])

unfoldable pub name_of : Block → Bytes
unfolding streq
name_of header =
    let prefix = cstring (field 345 155 header) in
    let name = cstring (field 0 100 header) in
    if not (get_or header 345 0 == 0) && streq (field 257 6 header) tmagic
    then prefix ++ (b'/' ∷ name)
    else name

unfoldable pub linkname_of : Block → Bytes
linkname_of header = cstring (field 157 100 header)
