-- ===== src/Create/Sample.antt =====
-- A member of a long name in the GNU format, for the tests.
use tar.Base.{◌≡◌, refl, arith, Bool, false, none, List, [], ◌∷◌, ◌++◌, replicate, All}
use tar.Base.Put.{put}
use tar.Base.Text.{Bytes, codes}
use tar.Base.Words.{IsByte}
use tar.Field.Encode.{to_octal, tar_name_copy_str}
use tar.Field.Decode.{from_header}
use tar.Field.Types.{off_from_header}
use tar.Stream.{Block}
use tar.Field.{gnu}
use tar.Header.{sum_bytes, simple_finish_header}
use tar.Header.Checksum.{tar_checksum-simple_finish_header}
use tar.Reader.{Info}
use tar.Reader.Fields.{size_of}
use tar.Reader.Blocks.{IsBlock}
use tar.Create.{put_name, write_gnu_long_link, written, write_short_name, write_header_name}
use tar.Create.ByteFields.{text-IsByte}
use tar.Create.LongRead.{BeginsMember}
use tar.Create.LongText.{long_link_loop-HoldsText}
use tar.Create.NameFields.{KeepsName}
use tar.Create.Private.{long_link_header-IsLongLink}
use tar.Create.RoundTrip.{name_link}

abbrev pub no_strip : Bytes → Bytes × Bool
no_strip name = (name, false)

abbrev pub fresh : Info
fresh = record {
  st_size = 0;
  skipped = false;
  orig_file_name = [];
  file_name = [];
  had_trailing_slash = false;
  link_name = [];
  xhdr = none;
  recent_long_name = none;
  recent_long_link = none;
  recent_global_header = none;
  globals = [];
  unexpected_eofs = 0;
}

-- A name of 620 bytes, in a directory.
abbrev pub long_name : Bytes
long_name = codes "dir/" ++ replicate 616 b'n'

abbrev pub front : List Block
front = name_link gnu 0 none 20 1 long_name

abbrev pub short_header : Block
short_header = write_short_name gnu long_name

abbrev pub member : Block
member = put 124 (codes "00000000005") (put 156 (codes "0") short_header)

pub member_bytes : All IsByte member
unfolding write_short_name put_name tar_name_copy_str
member_bytes = text-IsByte member refl

pub member-BeginsMember : BeginsMember (simple_finish_header member)
unfolding simple_finish_header write_short_name size_of put_name tar_name_copy_str to_octal
    off_from_header from_header sum_bytes
member-BeginsMember = record {
  accepted = tar_checksum-simple_finish_header member false false refl member_bytes;
  ordinary = refl;
  size_fits = omega arith;
}

pub member-KeepsName : KeepsName short_header (simple_finish_header member)
unfolding simple_finish_header write_short_name put_name tar_name_copy_str to_octal
member-KeepsName = record {
  name_kept = refl;
  prefix_kept = λ h. refl;
  magic_there = λ h. absurd (omega arith);
}

pub member-IsBlock : IsBlock (simple_finish_header member)
unfolding simple_finish_header write_short_name put_name tar_name_copy_str to_octal
member-IsBlock = refl

pub front_blocks : All IsBlock front
unfolding write_gnu_long_link
front_blocks = (
  (long_link_header-IsLongLink gnu 0 none 621 b'L' tt (omega arith) (omega arith)).whole,
  (long_link_loop-HoldsText 622 20 1 (long_name ++ (0 ∷ [])) (omega arith) (omega arith)
      (omega arith)).blocks,
)

pub long_name_written :
    write_header_name gnu (name_link gnu 0 none 20 1) long_name ≡ written front false short_header
unfolding write_header_name
long_name_written = refl
