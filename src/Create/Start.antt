-- ===== src/Create/Start.antt =====
-- `start_header` of src/create.c, on a host with Linux's file types: the fields of a member's
-- header and the keywords that go to its extended header. The tables of owners, the names that the
-- host knows and what gnulib's `mode_adjust` does are functions among the options.
pub mod Steps
pub mod Numbers
pub mod Names
pub mod Others
pub mod Whole
pub mod Decoded
pub mod Parts
pub mod Kept
use tar.Base.{
  ℕ, ◌+◌, ◌-◌, ◌^◌, bit_and, bit_or, Bool, true, false, not, ◌&&◌, ◌||◌, Option, none, some, List,
  [], ◌∷◌, ◌++◌, length, map, leb, ltb, ◌==◌, if◌then◌else◌,
}
use tar.Base.Put.{put}
use tar.Base.Text.{Bytes, codes}
use tar.Stream.{Block}
use tar.Field.{Format, default, v7, oldgnu, ustar, posix, star, gnu}
use tar.Field.Encode.{Encoded, max_octal_val, string_to_chars, gnu_format}
use tar.Field.Types.{
  off_to_chars, time_to_chars, uid_to_chars, gid_to_chars, major_to_chars, minor_to_chars,
}
use tar.Field.Mode.{mode_to_chars}
use tar.Reader.Fields.{field}
use tar.Create.{
  Name, refused, aborted, written, posix_magic, oldgnu_magic, is_posix, string_ascii_p,
  write_header_name,
}

-- A time stamp: the seconds as a bit pattern, and the nanoseconds.
pub record Stamp : Type 0 where
  pub tv_sec : ℕ
  pub tv_nsec : ℕ

-- What `start_header` reads of `struct tar_stat_info`; the last four say which attributes are set.
pub record Stat : Type 0 where
  pub file_name : Bytes
  pub st_mode : ℕ
  pub st_uid : ℕ
  pub st_gid : ℕ
  pub st_size : ℕ
  pub devmajor : ℕ
  pub devminor : ℕ
  pub mtime : Stamp
  pub atime : Stamp
  pub ctime : Stamp
  pub acls_a_ptr : Bool
  pub acls_d_ptr : Bool
  pub cntx_name : Bool
  pub xattr_map : List Bytes

-- `set_mtime_option` with `mtime_option`, or what the command printed.
pub data SetMtime : Type 0 where
  use_file_mtime : SetMtime
  force_mtime clamp_mtime : Stamp → SetMtime
  command_mtime : Option Stamp → SetMtime

pub record Options : Type 0 where
  pub archive_format : Format
  pub owner_map_translate : ℕ → ℕ × Option Bytes
  pub group_map_translate : ℕ → ℕ × Option Bytes
  pub mode_adjust : Option (ℕ → Bool → ℕ)
  pub set_mtime_option : SetMtime
  pub incremental_option : Bool
  pub numeric_owner_option : Bool
  pub uid_nobody : ℕ
  pub gid_nobody : ℕ
  pub uid_to_uname : ℕ → Bytes
  pub gid_to_gname : ℕ → Bytes
  pub acls_option : Bool
  pub selinux_context_option : Bool
  pub xattrs_option : Bool

-- A header in the making, and the keywords that `xheader_store` was given.
pub record Draft : Type 0 where
  pub header : Block
  pub stored : List Bytes

abbrev pub mode_all : ℕ
mode_all = 0o7777

abbrev pub file_type : ℕ → ℕ
file_type mode = bit_and mode 0o170000

abbrev pub is_dir : ℕ → Bool
is_dir mode = file_type mode == 0o040000

abbrev pub is_device : ℕ → Bool
is_device mode = file_type mode == 0o020000 || file_type mode == 0o060000

abbrev xheader_store : Bytes → Draft → Draft
xheader_store keyword d = record d { stored = d.stored ++ (keyword ∷ []) }

-- An encoded number at its place, unless it was refused.
abbrev pub place : ℕ → Encoded → Draft → Option Draft
place o e d = if e.fits then some (record d { header = put o e.bytes d.header }) else none

-- In the POSIX format a number too large for octal goes to the extended header, and 0 to the field.
abbrev pub too_large : Format → ℕ → ℕ → Bool
too_large archive_format size v = is_posix archive_format && ltb (max_octal_val size) v

abbrev store_if : Bool → Bytes → Draft → Draft
store_if b keyword d = if b then xheader_store keyword d else d

abbrev zero_if : Bool → ℕ → ℕ
zero_if b v = if b then 0 else v

-- The mode that is written: `mode_option`, and the mask of the old formats.
unfoldable pub adjusted_mode : Options → Stat → ℕ
adjusted_mode o st = elim o.mode_adjust [
  | none ↦ st.st_mode
  | some adjust ↦
      bit_or (bit_and st.st_mode (2 ^ 32 - 1 - mode_all)) (adjust st.st_mode (is_dir st.st_mode))
]

abbrev pub masks_mode : Format → Bool
masks_mode v7 = true
masks_mode ustar = true
masks_mode _ = false

-- The result of MODE_TO_CHARS is not looked at.
unfoldable pub put_mode : Options → ℕ → Draft → Draft
put_mode o mode d =
    let m = if masks_mode o.archive_format then bit_and mode mode_all else mode in
    record d {
      header =
          put 100 (mode_to_chars o.archive_format m (field 100 8 d.header) 8 false).bytes d.header;
    }

unfoldable pub put_uid : Options → ℕ → Draft → Option Draft
put_uid o uid d =
    let big = too_large o.archive_format 8 uid in
    place 108
      (uid_to_chars o.archive_format o.uid_nobody (zero_if big uid) (field 108 8 d.header) 8 false)
      (store_if big (codes "uid") d)

unfoldable pub put_gid : Options → ℕ → Draft → Option Draft
put_gid o gid d =
    let big = too_large o.archive_format 8 gid in
    place 116
      (gid_to_chars o.archive_format o.gid_nobody (zero_if big gid) (field 116 8 d.header) 8 false)
      (store_if big (codes "gid") d)

unfoldable pub put_size : Options → ℕ → Draft → Option Draft
put_size o size d =
    let big = too_large o.archive_format 12 size in
    place 124 (off_to_chars o.archive_format (zero_if big size) (field 124 12 d.header) 12 false)
      (store_if big (codes "size") d)

-- `timespec_cmp (a, b) > 0`, for bit patterns.
abbrev later : Stamp → Stamp → Bool
later a b =
    let sa = (a.tv_sec + 2 ^ 63) in
    let sb = (b.tv_sec + 2 ^ 63) in
    ltb (sb - (if leb (2 ^ 64) sb then 2 ^ 64 else 0))
      (sa - (if leb (2 ^ 64) sa then 2 ^ 64 else 0))
    || (a.tv_sec == b.tv_sec && ltb b.tv_nsec a.tv_nsec)

unfoldable pub chosen_mtime : SetMtime → Stamp → Stamp
chosen_mtime use_file_mtime mtime = mtime
chosen_mtime (force_mtime t) mtime = t
chosen_mtime (clamp_mtime t) mtime = if later mtime t then t else mtime
chosen_mtime (command_mtime none) mtime = mtime
chosen_mtime (command_mtime (some t)) mtime = t

unfoldable pub put_mtime : Options → Stamp → Draft → Option Draft
put_mtime o mtime d =
    let big = too_large o.archive_format 12 mtime.tv_sec in
    let fine = is_posix o.archive_format && not (mtime.tv_nsec == 0) in
    place 136
      (time_to_chars o.archive_format (zero_if big mtime.tv_sec) (field 136 12 d.header) 12 false)
      (store_if (big || fine) (codes "mtime") d)

unfoldable pub put_devmajor : Options → ℕ → Draft → Option Draft
put_devmajor o devmajor d =
    let big = too_large o.archive_format 8 devmajor in
    place 329
      (major_to_chars o.archive_format (zero_if big devmajor) (field 329 8 d.header) 8 false)
      (store_if big (codes "devmajor") d)

unfoldable pub put_devminor : Options → ℕ → Draft → Option Draft
put_devminor o devminor d =
    let big = too_large o.archive_format 8 devminor in
    place 337
      (minor_to_chars o.archive_format (zero_if big devminor) (field 337 8 d.header) 8 false)
      (store_if big (codes "devminor") d)

infixl 5 ◌>>=◌
abbrev pub ◌>>=◌ : Option Draft → (Draft → Option Draft) → Option Draft
none >>= f = none
some d >>= f = f d

unfoldable pub put_device : Options → Stat → Draft → Option Draft
unfolding put_devmajor put_devminor adjusted_mode
put_device o st d =
    if is_device (adjusted_mode o st)
    then (put_devmajor o st.devmajor d >>= put_devminor o st.devminor)
    else some d

-- `atime` and `ctime` of the old GNU header. What the two conversions return is not looked at.
unfoldable pub put_gnu_times : Format → Stat → Draft → Draft
put_gnu_times f st d =
    let timed =
      put 345 (time_to_chars f st.atime.tv_sec (field 345 12 d.header) 12 false).bytes d.header in
    record d {
      header = put 357 (time_to_chars f st.ctime.tv_sec (field 357 12 timed) 12 false).bytes timed;
    }

-- The access and change times: in the extended header, or in an incremental dump's header.
unfoldable pub put_times : Options → Stat → Draft → Draft
put_times o st d =
    if is_posix o.archive_format
    then xheader_store (codes "ctime") (xheader_store (codes "atime") d)
    else if o.incremental_option && gnu_format o.archive_format
    then put_gnu_times o.archive_format st d
    else d

-- `AREGTYPE` and `REGTYPE`
abbrev pub regular_type : Format → ℕ
regular_type v7 = 0
regular_type _ = b'0'

unfoldable pub put_type : Format → Draft → Draft
put_type f d = record d { header = put 156 (regular_type f ∷ []) d.header }

-- The magic; none is for `abort`.
abbrev pub put_magic : Format → Draft → Option Draft
put_magic v7 d = some d
put_magic oldgnu d = some (record d { header = put 257 oldgnu_magic d.header })
put_magic gnu d = some (record d { header = put 257 oldgnu_magic d.header })
put_magic posix d = some (record d { header = put 257 posix_magic d.header })
put_magic ustar d = some (record d { header = put 257 posix_magic d.header })
put_magic default d = none
put_magic star d = none

-- A name of more than 32 bytes, or not in ASCII, goes to the extended header too.
abbrev pub is_long_owner : Format → Bytes → Bool
is_long_owner f name = is_posix f && (ltb 32 (length name) || not (string_ascii_p name))

unfoldable pub put_names : Format → Bytes → Bytes → Draft → Draft
put_names f uname gname d =
    let d' = store_if (is_long_owner f uname) (codes "uname") d in
    let owned = put 265 (string_to_chars uname (field 265 32 d'.header) 32) d'.header in
    store_if (is_long_owner f gname) (codes "gname")
      (record d' { header = put 297 (string_to_chars gname (field 297 32 owned) 32) owned })

abbrev pub is_v7 : Format → Bool
is_v7 v7 = true
is_v7 _ = false

abbrev name_or : Option Bytes → Bytes → Bytes
name_or none name = name
name_or (some name) other = name

unfoldable pub put_owner_names : Options → ℕ × Option Bytes → ℕ × Option Bytes → Draft → Draft
unfolding put_names
put_owner_names o (uid, uname) (gid, gname) d =
    if is_v7 o.archive_format || o.numeric_owner_option
    then d
    else put_names o.archive_format (name_or uname (o.uid_to_uname uid))
        (name_or gname (o.gid_to_gname gid)) d

-- The attributes that only an extended header has.
unfoldable pub store_attributes : Options → Stat → Draft → Draft
store_attributes o st d =
    let acls =
      store_if (o.acls_option && st.acls_d_ptr) (codes "SCHILY.acl.default")
        (store_if (o.acls_option && st.acls_a_ptr) (codes "SCHILY.acl.access") d) in
    let context =
      store_if (o.selinux_context_option && st.cntx_name) (codes "RHT.security.selinux") acls in
    let all =
      if o.xattrs_option
      then record context { stored = context.stored ++ st.xattr_map }
      else context in
    if is_posix o.archive_format then all else d

-- What `start_header` returns: NULL, or the keywords stored and the header. The blocks are those that
-- a long name has put into the archive by then.
pub data Start : Type 0 where
  not_started : List Block → Start
  start_aborted : Start
  started : List Block → List Bytes → Block → Start

abbrev pub with_magic : Option Draft → (Draft → Start) → Start
with_magic none k = start_aborted
with_magic (some d) k = k d

abbrev pub unless_refused : List Block → Option Draft → (Draft → Start) → Start
unless_refused front none k = not_started front
unless_refused front (some d) k = k d

-- The numeric fields, in their order.
unfoldable pub put_numbers : Options → Stat → ℕ → ℕ → Draft → Option Draft
unfolding put_mode put_uid put_gid put_size put_mtime put_device
put_numbers o st uid gid d =
    put_uid o uid (put_mode o (adjusted_mode o st) d)
    >>= put_gid o gid
    >>= put_size o st.st_size
    >>= put_mtime o (chosen_mtime o.set_mtime_option st.mtime)
    >>= put_device o st

-- The fields behind the name.
unfoldable pub fill_header : Options → Stat → List Block → Draft → Start
unfolding put_numbers put_times put_type put_owner_names store_attributes
fill_header o st front d =
    let owner = o.owner_map_translate st.st_uid in
    let group = o.group_map_translate st.st_gid in
    unless_refused front (put_numbers o st owner.0 group.0 d) λ numbers.
      with_magic (put_magic o.archive_format (put_type o.archive_format (put_times o st numbers)))
        λ typed.
          let done = store_attributes o st (put_owner_names o owner group typed) in
          started front done.stored done.header

abbrev pub start_behind : Options → Stat → Name → Start
start_behind o st refused = not_started []
start_behind o st aborted = start_aborted
start_behind o st (written front path header) =
    fill_header o st front
      (record { header = header; stored = if path then codes "path" ∷ [] else [] })

-- `long_link` is `write_gnu_long_link` for the long names.
unfoldable pub start_header : Options → (Bytes → List Block) → Stat → Start
unfolding fill_header
start_header o long_link st =
    start_behind o st (write_header_name o.archive_format long_link st.file_name)
