-- ===== src/Create/Dump.antt =====
-- Members of src/create.c whose data is not in the archive: `write_long_link`, `finish_header`, and
-- how `dump_hard_link` and `dump_file0` put a link, a device or a FIFO into the archive, on a host
-- with Linux's file types. What is printed but that error is not modelled, nor what is queued and counted.
pub mod Reads
pub mod Member
pub mod Archived
pub mod TooLong
pub mod Sample
use tar.Base.{
  ℕ, Bool, true, false, ◌||◌, Option, none, some, List, [], ◌∷◌, ◌++◌, length, ltb, bit_and, ◌-◌,
  ◌==◌, if◌then◌else◌,
}
use tar.Base.Put.{put}
use tar.Base.Text.{Bytes, codes}
use tar.Stream.{Block}
use tar.Field.{Format, default, v7, oldgnu, ustar, posix, star, gnu}
use tar.Field.Encode.{is_oldgnu, tar_copy_str}
use tar.Header.{simple_finish_header}
use tar.Reader.Fields.{field}
use tar.Create.{name_field_size}
use tar.Create.Start.{
  Options, Stat, Start, not_started, start_aborted, started, file_type, is_v7, start_header,
}

-- The blocks of a long link name, the keyword that is stored, a message, or `abort`.
pub data LongLink : Type 0 where
  link_blocks : List Block → LongLink
  link_stored link_too_long link_aborted : LongLink

-- `gnu_link` is `write_gnu_long_link` for the names of links.
unfoldable pub write_long_link : Format → (Bytes → List Block) → Bytes → LongLink
write_long_link posix gnu_link link = link_stored
write_long_link v7 gnu_link link = link_too_long
write_long_link ustar gnu_link link = link_too_long
write_long_link star gnu_link link = link_too_long
write_long_link oldgnu gnu_link link = link_blocks (gnu_link link)
write_long_link gnu gnu_link link = link_blocks (gnu_link link)
write_long_link default gnu_link link = link_aborted

-- What goes into the archive for a member: long names without a header, or the whole member, which
-- may be there although `write_long_link` reported an error.
pub data Dumped : Type 0 where
  not_dumped dumped dumped_with_error : List Block → Dumped
  dump_aborted : Dumped

abbrev with_error : Dumped → Dumped
with_error (dumped blocks) = dumped_with_error blocks
with_error other = other

-- `write_extended (false, st, header)`: the blocks in front of the header, which it does not change.
-- `extended` gives them for the keywords that were stored.
unfoldable pub write_extended : (List Bytes → List Block) → List Bytes → List Block
write_extended extended [] = []
write_extended extended (keyword ∷ stored) = extended (keyword ∷ stored)

-- `finish_header` behind what is `set` in the header; `front` and `before` are the blocks and
-- keywords of the link's name.
unfoldable pub finish_header :
    (List Bytes → List Block) → List Block → List Bytes → (Block → Block) → Start → Dumped
unfolding write_extended
finish_header extended front before set (not_started names) = not_dumped (front ++ names)
finish_header extended front before set start_aborted = dump_aborted
finish_header extended front before set (started names stored header) = dumped (
    front
    ++ (names
        ++ (write_extended extended (before ++ stored)
            ++ (simple_finish_header (set header) ∷ []))))

abbrev pub put_typeflag : ℕ → Block → Block
put_typeflag type header = put 156 (type ∷ []) header

-- `tar_copy_str (header->header.linkname, link, NAME_FIELD_SIZE)`
unfoldable pub put_linkname : Bytes → Block → Block
put_linkname link header = put 157 (tar_copy_str (field 157 100 header) link name_field_size) header

-- The link's name, where its field does not hold it.
abbrev pub long_link_of : Format → (Bytes → List Block) → Bytes → LongLink
long_link_of f gnu_link link =
    if ltb (name_field_size - (if is_oldgnu f then 1 else 0)) (length link)
    then write_long_link f gnu_link link
    else link_blocks []

abbrev pub sized : ℕ → Stat → Stat
sized size st = record st { st_size = size }

-- Behind `write_long_link`, whose message does not stop the dump.
unfoldable pub dump_behind : (List Bytes → List Block) → Bytes → ℕ → Start → LongLink → Dumped
unfolding finish_header put_linkname
dump_behind extended link type start (link_blocks front) =
    finish_header extended front [] (λ h. put_typeflag type (put_linkname link h)) start
dump_behind extended link type start link_stored =
    finish_header extended [] (codes "linkpath" ∷ []) (λ h. put_typeflag type (put_linkname link h))
      start
dump_behind extended link type start link_too_long =
    with_error (finish_header extended [] [] (λ h. put_typeflag type (put_linkname link h)) start)
dump_behind extended link type start link_aborted = dump_aborted

unfoldable pub dump_link :
    Options
    → (List Bytes → List Block)
    → (Bytes → List Block)
    → (Bytes → List Block)
    → Stat
    → Bytes
    → ℕ
    → Dumped
unfolding dump_behind
dump_link o extended gnu_link long_name st link type =
    dump_behind extended link type (start_header o long_name (sized 0 st))
      (long_link_of o.archive_format gnu_link link)

-- `dump_hard_link` where the link table has the file, with `LNKTYPE`.
unfoldable pub dump_hard_link :
    Options
    → (List Bytes → List Block)
    → (Bytes → List Block)
    → (Bytes → List Block)
    → Stat
    → Bytes
    → Dumped
unfolding dump_link
dump_hard_link o extended gnu_link long_name st link =
    dump_link o extended gnu_link long_name st link b'1'

-- A symbolic link in `dump_file0`, with `SYMTYPE`.
unfoldable pub dump_symlink :
    Options
    → (List Bytes → List Block)
    → (Bytes → List Block)
    → (Bytes → List Block)
    → Stat
    → Bytes
    → Dumped
unfolding dump_link
dump_symlink o extended gnu_link long_name st link =
    dump_link o extended gnu_link long_name st link b'2'

-- `CHRTYPE`, `BLKTYPE` or `FIFOTYPE`; the other types are not dumped here.
unfoldable pub special_type : ℕ → Option ℕ
special_type mode =
    if file_type mode == 0o020000
    then some b'3'
    else if file_type mode == 0o060000
    then some b'4'
    else if file_type mode == 0o010000
    then some b'6'
    else none

abbrev pub dump_typed : Format → Option ℕ → (ℕ → Dumped) → Dumped
dump_typed f none k = not_dumped []
dump_typed f (some type) k = if is_v7 f then not_dumped [] else k type

-- The end of `dump_file0`: devices and FIFOs.
unfoldable pub dump_special :
    Options → (List Bytes → List Block) → (Bytes → List Block) → Stat → Dumped
unfolding special_type finish_header
dump_special o extended long_name st =
    dump_typed o.archive_format (special_type st.st_mode) λ type.
      finish_header extended [] [] (put_typeflag type) (start_header o long_name (sized 0 st))
