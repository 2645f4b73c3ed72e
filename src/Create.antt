-- ===== src/Create.antt =====
-- The header blocks that src/create.c starts for a member's name: `write_header_name` and what it
-- calls. Blocks go out in the order in which they are returned.
pub mod Strings
pub mod Split
pub mod SplitMost
pub mod ByteFields
pub mod Writes
pub mod Touches
pub mod Private
pub mod LongText
pub mod LongRead
pub mod NameFields
pub mod Start
pub mod Dump
pub mod Regular
pub mod RoundTrip
pub mod Sample
mod Runs
use tar.Base.{
  ℕ, zero, suc, ◌+◌, ◌-◌, ◌*◌, ◌/◌, ◌^◌, min, Bool, true, false, not, ◌&&◌, ◌||◌, Option, none,
  some, List, [], ◌∷◌, ◌++◌, length, take, drop, replicate, get_or, leb, ltb, ◌==◌, if◌then◌else◌,
}
use tar.Base.Put.{put}
use tar.Base.Text.{Bytes, codes, is_slash}
use tar.Stream.{Block, block_size}
use tar.Field.{Format, default, v7, oldgnu, ustar, posix, star, gnu}
use tar.Field.Encode.{tar_name_copy_str, string_to_chars, max_octal_val, is_oldgnu}
use tar.Field.Types.{off_to_chars, time_to_chars, uid_to_chars, gid_to_chars, is_negative}
use tar.Field.Mode.{mode_to_chars}
use tar.Header.{simple_finish_header}
use tar.Reader.Fields.{field}

abbrev pub empty_block : Block
empty_block = replicate block_size 0

abbrev pub name_field_size : ℕ
name_field_size = 100

abbrev pub prefix_field_size : ℕ
prefix_field_size = 155

-- `OLDGNU_MAGIC` with its NUL: the fields `magic` and `version`.
abbrev pub oldgnu_magic : Bytes
oldgnu_magic = codes "ustar  " ++ (0 ∷ [])

-- `TMAGIC` with its NUL, and `TVERSION`.
abbrev pub posix_magic : Bytes
posix_magic = codes "ustar" ++ (0 ∷ []) ++ codes "00"

unfoldable pub put_name : Format → Bytes → Block → Block
put_name archive_format name header =
    put 0 (tar_name_copy_str archive_format (field 0 100 header) name name_field_size) header

-- The fields behind the name. `nobody` is the id that a substitute gives; the ids here always fit.
unfoldable pub fill_private_header : Format → ℕ → ℕ → ℕ → Block → Block
fill_private_header archive_format nobody size t named =
    let sized =
      put 124 (off_to_chars archive_format size (field 124 12 named) 12 false).bytes named in
    let mtime = if is_negative t then 0 else min t (max_octal_val 12) in
    let timed =
      put 136 (time_to_chars archive_format mtime (field 136 12 sized) 12 false).bytes sized in
    let moded =
      put 100 (mode_to_chars archive_format 0o100644 (field 100 8 timed) 8 false).bytes timed in
    let owned =
      put 108 (uid_to_chars archive_format nobody 0 (field 108 8 moded) 8 false).bytes moded in
    let grouped =
      put 116 (gid_to_chars archive_format nobody 0 (field 116 8 owned) 8 false).bytes owned in
    put 257 posix_magic grouped

unfoldable pub start_private_header : Format → ℕ → Bytes → ℕ → ℕ → Block
unfolding put_name fill_private_header
start_private_header archive_format nobody name size t =
    fill_private_header archive_format nobody size t (put_name archive_format name empty_block)

-- Cuts bytes into `k` blocks.
abbrev pub cut_blocks : ℕ → Bytes → List Block
cut_blocks zero bytes = []
cut_blocks (suc k) bytes = take block_size bytes ∷ cut_blocks k (drop block_size bytes)

-- The blocks of the text `p`, where `room` blocks are left in the record and `blocking` in the
-- next ones; on fuel, for the text that does not fit.
unfoldable pub long_link_loop : ℕ → ℕ → ℕ → Bytes → List Block
long_link_loop zero blocking room p = []
long_link_loop (suc fuel) blocking room p =
    let bufsize = room * block_size in
    let size = length p in
    let more = long_link_loop fuel blocking blocking (drop bufsize p) in
    if ltb bufsize size
    then cut_blocks room (take bufsize p) ++ more
    else cut_blocks ((size + (block_size - 1)) / block_size) (p ++ replicate (bufsize - size) 0)

-- The names of user and group 0, unless `numeric_owner_option` is set.
unfoldable pub put_owner : Option (Bytes × Bytes) → Block → Block
put_owner none header = header
put_owner (some (uname, gname)) header =
    let owned = put 265 (string_to_chars uname (field 265 32 header) 32) header in
    put 297 (string_to_chars gname (field 297 32 owned) 32) owned

unfoldable pub long_link_header : Format → ℕ → Option (Bytes × Bytes) → ℕ → ℕ → Block
unfolding put_owner
long_link_header archive_format nobody owner size type =
    let started = start_private_header archive_format nobody (codes "././@LongLink") size 0 in
    simple_finish_header (put 156 (type ∷ []) (put 257 oldgnu_magic (put_owner owner started)))

unfoldable pub write_gnu_long_link :
    Format → ℕ → Option (Bytes × Bytes) → ℕ → ℕ → Bytes → ℕ → List Block
unfolding long_link_header
write_gnu_long_link archive_format nobody owner blocking room p type =
    let text = p ++ (0 ∷ []) in
    long_link_header archive_format nobody owner (length text) type
    ∷ long_link_loop (suc (length text)) blocking room text

unfoldable pub write_short_name : Format → Bytes → Block
write_short_name archive_format name = put_name archive_format name empty_block

-- `for (i = length - 1; i > 0; i--) if (ISSLASH (name[i])) break;`
unfoldable pub last_slash : Bytes → ℕ → ℕ
last_slash name zero = 0
last_slash name (suc i) =
    let lower = last_slash name i in if is_slash (get_or name (suc i) 0) then suc i else lower

-- `length` as `split_long_name` changes it.
unfoldable pub split_length : Bytes → ℕ → ℕ
split_length name length =
    if ltb (prefix_field_size + 1) length
    then prefix_field_size + 1
    else if is_slash (get_or name (length - 1) 0)
    then length - 1
    else length

unfoldable pub split_long_name : Bytes → ℕ → ℕ
unfolding last_slash
split_long_name name length = last_slash name (split_length name length - 1)

unfoldable pub write_ustar_long_name : Bytes → Option Block
unfolding split_long_name
write_ustar_long_name name =
    let size = length name in
    let i = split_long_name name size in
    let nlen = size - i - 1 in
    if ltb (prefix_field_size + name_field_size + 1) size
    then none
    else if i == 0 || not (ltb 0 nlen && leb nlen name_field_size)
    then none
    else some (put 0 (drop (i + 1) name) (put 345 (take i name) empty_block))

-- The blocks in front of the header, the header, and whether "path" is stored in the extended
-- header; `abort` on a format that is not decided.
pub data Name : Type 0 where
  refused aborted : Name
  written : List Block → Bool → Block → Name

abbrev pub or_refused : Option Block → Name
or_refused none = refused
or_refused (some header) = written [] false header

unfoldable pub write_long_name : Format → (Bytes → List Block) → Bytes → Name
unfolding write_short_name write_ustar_long_name
write_long_name posix long_link name = written [] true (write_short_name posix name)
write_long_name v7 long_link name =
    if ltb (name_field_size - 1) (length name)
    then refused
    else written [] false (write_short_name v7 name)
write_long_name ustar long_link name = or_refused (write_ustar_long_name name)
write_long_name star long_link name = or_refused (write_ustar_long_name name)
write_long_name oldgnu long_link name =
    written (long_link name) false (write_short_name oldgnu name)
write_long_name gnu long_link name = written (long_link name) false (write_short_name gnu name)
write_long_name default long_link name = aborted

abbrev pub is_posix : Format → Bool
is_posix posix = true
is_posix _ = false

abbrev pub string_ascii_p : Bytes → Bool
string_ascii_p [] = true
string_ascii_p (c ∷ p) = ltb c 128 && string_ascii_p p

-- `long_link` is `write_gnu_long_link` for the long names.
unfoldable pub write_header_name : Format → (Bytes → List Block) → Bytes → Name
unfolding write_short_name write_long_name
write_header_name archive_format long_link name =
    if is_posix archive_format && not (string_ascii_p name)
    then written [] true (write_short_name archive_format name)
    else if ltb (name_field_size - (if is_oldgnu archive_format then 1 else 0)) (length name)
    then write_long_name archive_format long_link name
    else written [] false (write_short_name archive_format name)
