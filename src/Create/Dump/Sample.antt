-- ===== src/Create/Dump/Sample.antt =====
-- A symbolic link and a device, for the tests.
use tar.Base.{ℕ, ◌≡◌, refl, arith, true, false, none, List, [], replicate, ◌==◌, if◌then◌else◌}
use tar.Base.Text.{Bytes, codes}
use tar.Stream.{Block}
use tar.Field.{gnu, ustar}
use tar.Field.Encode.{to_chars}
use tar.Field.Types.{
  uid_to_chars, gid_to_chars, off_to_chars, time_to_chars, major_to_chars, minor_to_chars,
}
use tar.Create.{empty_block, write_header_name}
use tar.Reader.Decode.{Member, Decoder}
use tar.Create.ByteFields.{text-IsByte}
use tar.Create.Start.Kept.{NamesAreBytes}
use tar.Create.Start.{
  Options, Stat, Stamp, Start, not_started, start_aborted, started, use_file_mtime, chosen_mtime,
  start_header,
}
use tar.Create.Start.Whole.{HeaderFits}
use tar.Create.Dump.{dumped, dump_link, dump_special, Dumped, sized, write_long_link, finish_header}
use tar.Create.Regular.{DumpStatus, dump_data, dump_regular_file}
use tar.Create.Dump.Reads.{gnu_long}
use tar.Create.Dump.Archived.{dumped_blocks}

abbrev root_name : ℕ → Bytes
root_name id = if id == 0 then codes "root" else []

abbrev pub options : Options
options = record {
  archive_format = gnu;
  owner_map_translate = λ id. (id, none);
  group_map_translate = λ id. (id, none);
  mode_adjust = none;
  set_mtime_option = use_file_mtime;
  incremental_option = false;
  numeric_owner_option = false;
  uid_nobody = 65534;
  gid_nobody = 65534;
  uid_to_uname = root_name;
  gid_to_gname = root_name;
  acls_option = false;
  selinux_context_option = false;
  xattrs_option = false;
}

abbrev stamp : Stamp
stamp = record { tv_sec = 1700000000; tv_nsec = 5 }

abbrev pub stat : Bytes → ℕ → Stat
stat name mode = record {
  file_name = name;
  st_mode = mode;
  st_uid = 0;
  st_gid = 3000000;
  st_size = 9;
  devmajor = 4;
  devminor = 300;
  mtime = stamp;
  atime = stamp;
  ctime = stamp;
  acls_a_ptr = false;
  acls_d_ptr = false;
  cntx_name = false;
  xattr_map = [];
}

abbrev pub no_member : Member
no_member = record {
  st_mode = 0;
  st_uid = 0;
  st_gid = 0;
  st_rdev = 0;
  mtime = stamp;
  atime = stamp;
  ctime = stamp;
  uname = none;
  gname = none;
  dumpdir = false;
  is_sparse = false;
  is_dumpdir = false;
}

abbrev pub decoder : Decoder
decoder = record {
  numeric_owner_option = false;
  incremental_option = false;
  do_user_group = true;
  start_time = stamp;
  uname_to_uid = λ name. none;
  gname_to_gid = λ name. none;
  makedev = λ major minor. major;
  xheader_decode = λ m. m;
  sparse_member_p = λ m. false;
  sparse_fixup_header = λ m. m;
}

pub sample-HeaderFits : (name : Bytes) (mode : ℕ) → HeaderFits options (sized 0 (stat name mode))
unfolding chosen_mtime
sample-HeaderFits name mode = record {
  numbers = record {
    gnu = refl;
    mode = tt;
    uid_fits = omega arith;
    gid_fits = omega arith;
    size = omega arith;
    mtime = omega arith;
    devmajor = omega arith;
    devminor = omega arith;
  };
  uname_fits = record { plain = refl; fits = omega arith; bytes = text-IsByte (codes "root") refl };
  gname_fits = record { plain = refl; fits = omega arith; bytes = tt };
}

pub sample-HeaderFits_sized : (name : Bytes) (mode : ℕ) → HeaderFits options (stat name mode)
unfolding chosen_mtime
sample-HeaderFits_sized name mode = record {
  numbers = record {
    gnu = refl;
    mode = tt;
    uid_fits = omega arith;
    gid_fits = omega arith;
    size = omega arith;
    mtime = omega arith;
    devmajor = omega arith;
    devminor = omega arith;
  };
  uname_fits = record { plain = refl; fits = omega arith; bytes = text-IsByte (codes "root") refl };
  gname_fits = record { plain = refl; fits = omega arith; bytes = tt };
}

-- A link that is a directory's neighbour, to a target of 150 bytes.
abbrev pub target : Bytes
target = replicate 150 b't'

abbrev pub link_stat : Stat
link_stat = stat (codes "link") 0o120777

abbrev pub tty_stat : Stat
tty_stat = stat (codes "tty") 0o020620

abbrev pub long_of : ℕ → Bytes → List Block
long_of type = gnu_long gnu 0 none 20 type 1

abbrev pub no_extended : List Bytes → List Block
no_extended stored = []

abbrev pub link_out : List Block
link_out =
    dumped_blocks
      (dump_link options no_extended (long_of b'K') (long_of b'L') link_stat target b'2')

pub link_dumped :
    dump_link options no_extended (long_of b'K') (long_of b'L') link_stat target b'2'
    ≡ dumped link_out
unfolding dump_link start_header write_long_link write_header_name uid_to_chars to_chars
    gid_to_chars off_to_chars time_to_chars chosen_mtime
link_dumped = refl

abbrev pub tty_out : List Block
tty_out = dumped_blocks (dump_special options no_extended (long_of b'L') tty_stat)

pub tty_dumped : dump_special options no_extended (long_of b'L') tty_stat ≡ dumped tty_out
unfolding dump_special start_header write_header_name uid_to_chars to_chars gid_to_chars
    off_to_chars time_to_chars chosen_mtime major_to_chars minor_to_chars
tty_dumped = refl

-- A file of nine bytes that has shrunk to three.
abbrev pub file_stat : Stat
file_stat = stat (codes "file") 0o100644

abbrev pub shrunk : Bytes
shrunk = codes "abc"

abbrev pub file_out : Dumped × DumpStatus
file_out = dump_regular_file options no_extended (long_of b'L') 20 1 file_stat shrunk

pub file_dumped :
    dump_regular_file options no_extended (long_of b'L') 20 1 file_stat shrunk
    ≡ (dumped (dumped_blocks file_out.0), file_out.1)
unfolding dump_regular_file dump_data finish_header start_header write_header_name uid_to_chars
    to_chars gid_to_chars off_to_chars time_to_chars chosen_mtime
file_dumped = refl

-- A header in the USTAR format.
abbrev pub ustar_options : Options
ustar_options = record options { archive_format = ustar; group_map_translate = λ id. (7, none) }

abbrev header_of : Start → Block
header_of (not_started front) = empty_block
header_of start_aborted = empty_block
header_of (started front stored header) = header

abbrev pub ustar_header : Block
ustar_header = header_of (start_header ustar_options (long_of b'L') (sized 0 link_stat))

pub ustar_started :
    start_header ustar_options (long_of b'L') (sized 0 link_stat) ≡ started [] [] ustar_header
unfolding start_header write_header_name uid_to_chars to_chars gid_to_chars off_to_chars
    time_to_chars chosen_mtime
ustar_started = refl

pub sample-NamesAreBytes : NamesAreBytes ustar_options (sized 0 link_stat)
sample-NamesAreBytes = record {
  name = text-IsByte (codes "link") refl;
  user = text-IsByte (codes "root") refl;
  group = tt;
}
