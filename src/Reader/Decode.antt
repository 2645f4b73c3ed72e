-- ===== src/Reader/Decode.antt =====
-- `decode_header` of src/list.c, as `read_and` calls it, with the current header and format: the
-- information on a member from its header. `xheader_decode` and the functions of sparse members
-- are parameters; what a message of `from_header` says is modelled with Field.
use tar.Base.{
  ℕ, Bool, true, false, ◌&&◌, ◌||◌, Option, none, some, drop, get_or, ◌==◌, if◌then◌else◌,
}
use tar.Base.Text.{Bytes, streq}
use tar.Stream.{Block}
use tar.Field.{Format, v7, oldgnu, ustar, posix, star, gnu, is_octal_digit}
use tar.Field.Encode.{gnu_format}
use tar.Field.Types.{
  time_from_header, uid_from_header, gid_from_header, major_from_header, minor_from_header,
}
use tar.Field.Mode.{mode_from_header}
use tar.Reader.Fields.{field, typeflag, cstring, tmagic}
use tar.Create.{oldgnu_magic}
use tar.Create.Start.{Stamp}

-- What is set in `struct tar_stat_info`; `dumpdir` says that the pointer is not null.
pub record Member : Type 0 where
  pub st_mode : ℕ
  pub st_uid : ℕ
  pub st_gid : ℕ
  pub st_rdev : ℕ
  pub mtime : Stamp
  pub atime : Stamp
  pub ctime : Stamp
  pub uname : Option Bytes
  pub gname : Option Bytes
  pub dumpdir : Bool
  pub is_sparse : Bool
  pub is_dumpdir : Bool

pub record Decoder : Type 0 where
  pub numeric_owner_option : Bool
  pub incremental_option : Bool
  pub do_user_group : Bool
  pub start_time : Stamp
  pub uname_to_uid : Bytes → Option ℕ
  pub gname_to_gid : Bytes → Option ℕ
  pub makedev : ℕ → ℕ → ℕ
  pub xheader_decode : Member → Member
  pub sparse_member_p : Member → Bool
  pub sparse_fixup_header : Member → Member

-- The fields `atime` and `ctime` where star puts them, behind a shorter prefix.
unfoldable pub is_star : Block → Bool
is_star h =
    get_or h 475 0 == 0
    && is_octal_digit (get_or h 476 0)
    && get_or h 487 0 == b' '
    && is_octal_digit (get_or h 488 0)
    && get_or h 499 0 == b' '

-- `xhdr_size` is the size of the extended header.
unfoldable pub header_format : Block → Bool → ℕ → Format
unfolding is_star streq
header_format h hbits xhdr_size =
    if streq (field 257 6 h) tmagic
    then (if is_star h then star else if xhdr_size == 0 then ustar else posix)
    else if streq (field 257 8 h) oldgnu_magic
    then (if hbits then oldgnu else gnu)
    else v7

abbrev pub header_time : ℕ → Block → Stamp
header_time o h = record { tv_sec = (time_from_header (field o 12 h) false).value; tv_nsec = 0 }

-- `atime` and `ctime`
unfoldable pub header_times : Decoder → Format → Block → Stamp × Stamp
header_times d oldgnu h =
    if d.incremental_option
    then (header_time 345 h, header_time 357 h)
    else (d.start_time, d.start_time)
header_times d star h = (header_time 476 h, header_time 488 h)
header_times d _ h = (d.start_time, d.start_time)

-- `assign_string_n` of a field, unless it begins with a NUL.
abbrev pub string_of : Bytes → Option Bytes
string_of bytes = if get_or bytes 0 0 == 0 then none else some (cstring bytes)

-- An id by the name that the field holds, if the host knows it, or by the number.
abbrev pub id_or : Option ℕ → ℕ → ℕ
id_or none id = id
id_or (some id) other = id

unfoldable pub owner_id : Bool → (Bytes → Option ℕ) → Bytes → ℕ → ℕ
owner_id numeric find name id =
    if numeric || get_or name 0 0 == 0 then id else id_or (find (cstring name)) id

abbrev pub header_uid : Block → ℕ
header_uid h = (uid_from_header (field 108 8 h) false).value

abbrev pub header_gid : Block → ℕ
header_gid h = (gid_from_header (field 116 8 h) false).value

-- `st_uid` and `st_gid`, for those before. The names are passed as C strings that begin in the
-- header, so that one that fills its field runs on behind it.
unfoldable pub header_owner : Decoder → Format → Block → ℕ × ℕ → ℕ × ℕ
unfolding owner_id
header_owner d v7 h before = (header_uid h, header_gid h)
header_owner d f h before =
    if d.do_user_group
    then (
      owner_id d.numeric_owner_option d.uname_to_uid (drop 265 h) (header_uid h),
      owner_id d.numeric_owner_option d.gname_to_gid (drop 297 h) (header_gid h),
    )
    else before

-- `BLKTYPE` and `CHRTYPE`
abbrev pub is_device_type : ℕ → Bool
is_device_type t = t == b'4' || t == b'3'

unfoldable pub header_rdev : Decoder → Format → Block → ℕ
header_rdev d v7 h = 0
header_rdev d f h =
    if is_device_type (typeflag h)
    then d.makedev (major_from_header (field 329 8 h) false).value
        (minor_from_header (field 337 8 h) false).value
    else 0

-- What the header says, before the extended header is looked at.
unfoldable pub basic_member : Decoder → Format → Block → Member → Member
unfolding header_times header_owner header_rdev
basic_member d f h before =
    let times = header_times d f h in
    let owner = header_owner d f h (before.st_uid, before.st_gid) in
    record before {
      st_mode = (mode_from_header (field 100 8 h) false).mode;
      st_uid = owner.0;
      st_gid = owner.1;
      st_rdev = header_rdev d f h;
      mtime = header_time 136 h;
      atime = times.0;
      ctime = times.1;
      uname = string_of (field 265 32 h);
      gname = string_of (field 297 32 h);
    }

-- `GNUTYPE_DUMPDIR`, or a directory's contents from the extended header.
unfoldable pub mark_kind : Decoder → Format → Block → Member → Member
mark_kind d f h m =
    if d.sparse_member_p m
    then record (d.sparse_fixup_header m) { is_sparse = true }
    else record m {
      is_sparse = false;
      is_dumpdir = (gnu_format f && typeflag h == b'D') || m.dumpdir || m.is_dumpdir;
    }

unfoldable pub decode_header : Decoder → Block → ℕ → Member → Format × Member
unfolding header_format basic_member mark_kind
decode_header d h xhdr_size before =
    let f = header_format h (mode_from_header (field 100 8 h) false).hbits xhdr_size in
    (f, mark_kind d f h (d.xheader_decode (basic_member d f h before)))
