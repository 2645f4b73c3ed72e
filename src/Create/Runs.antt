-- ===== src/Create/Runs.antt =====
-- A member of a long name, written and read.
use tar.Base.{
  ◌≡◌, ◌≢◌, refl, arith, false, none, some, List, [], ◌∷◌, ◌++◌, replicate, take, All-append,
}
use tar.Base.Put.{put}
use tar.Base.Text.{Bytes, codes}
use tar.Stream.{Block, Input}
use tar.Field.{gnu}
use tar.Header.{simple_finish_header}
use tar.Reader.{read_header_auto, read_header}
use tar.Reader.Blocks.{IsBlock}
use tar.Reader.Flat.{flat}
use tar.Create.{split_length, empty_block, long_link_loop, write_ustar_long_name}
use tar.Create.LongText.{HoldsText, long_link_loop-HoldsText}
use tar.Create.RoundTrip.{ReadsName, read_header-write_header_name}
use tar.Create.SplitMost.{CanSplit, write_ustar_long_name-CanSplit}
use tar.Create.Split.{IsSplit, write_ustar_long_name-IsSplit}
use tar.Create.Sample.{
  no_strip, fresh, long_name, front, short_header, member, member-BeginsMember, member-KeepsName,
  member-IsBlock, front_blocks, long_name_written,
}
use tar.Create.ByteFields.{text-IsByte}
use tar.Create.Start.{adjusted_mode}
use tar.Create.Dump.{sized, special_type, dumped_with_error, dump_link, write_extended}
use tar.Create.Dump.TooLong.{dump_link-too_long}
use tar.Create.Regular.Archived.{ReadsFile, read_header-dump_regular_file}
use tar.Reader.Fields.{linkname_of}
use tar.Create.Dump.Archived.{
  ReadsMember, dumped_blocks, read_header-dump_link, read_header-dump_special,
}
use tar.Create.Dump.Sample.{
  file_stat, shrunk, file_out, file_dumped, long_of, ustar_options, ustar_header, ustar_started,
  sample-NamesAreBytes, sample-HeaderFits_sized, options, decoder, no_member, sample-HeaderFits,
  target, link_stat, tty_stat, no_extended, link_out, link_dumped, tty_out, tty_dumped,
}

-- The member's header is in the record behind its name.
abbrev archive : Input
archive = record {
  current = front;
  records = (simple_finish_header member ∷ []) ∷ [];
  hit_eof = false;
}

read_header-write_header_name_example :
    ReadsName long_name fresh
      (simple_finish_header member)
      (simple_finish_header member ∷ [])
      (flat (read_header 3 no_strip read_header_auto fresh archive))
read_header-write_header_name_example =
    read_header-write_header_name gnu 0 none 20 1 long_name no_strip read_header_auto fresh front
      short_header (simple_finish_header member) [] 1 archive refl tt (omega arith) (omega arith)
      (omega arith) refl long_name_written member-BeginsMember member-KeepsName
      (All-append IsBlock front (simple_finish_header member ∷ []) front_blocks
        (member-IsBlock, tt))
      refl

-- A name that `write_ustar_long_name` splits at its only slash.
abbrev split_name : Bytes
split_name = codes "dir/" ++ replicate 100 b'n'

abbrev split_header : Block
split_header = put 0 (replicate 100 b'n') (put 345 (codes "dir") empty_block)

split_written : write_ustar_long_name split_name ≡ some split_header
unfolding write_ustar_long_name split_length
split_written = refl

write_ustar_long_name-IsSplit_example : IsSplit split_name split_header
write_ustar_long_name-IsSplit_example =
    write_ustar_long_name-IsSplit split_name split_header refl split_written

-- One block in the first record, and one more.
long_link_loop-HoldsText_example : HoldsText long_name (long_link_loop 621 20 1 long_name)
long_link_loop-HoldsText_example =
    long_link_loop-HoldsText 621 20 1 long_name (omega arith) (omega arith) (omega arith)

split_name-CanSplit : CanSplit 3 split_name
split_name-CanSplit = record {
  positive = omega arith;
  in_prefix = omega arith;
  slash = refl;
  some_left = omega arith;
  in_name = omega arith;
}

write_ustar_long_name-CanSplit_example : write_ustar_long_name split_name ≢ none
write_ustar_long_name-CanSplit_example =
    write_ustar_long_name-CanSplit split_name 3 split_name-CanSplit

-- A symbolic link with a long target, and a terminal, each in a record with the end of the archive
-- in the next.
abbrev record_of : List Block → Input
record_of blocks = record { current = blocks; records = (empty_block ∷ []) ∷ []; hit_eof = false }

read_header-dump_link_example :
    ReadsMember options
      (sized 0 link_stat)
      b'2'
      target
      decoder
      0
      no_member
      fresh
      (empty_block ∷ [])
      (flat (read_header 3 no_strip read_header_auto fresh (record_of link_out)))
unfolding adjusted_mode
read_header-dump_link_example =
    read_header-dump_link options no_extended link_stat b'2' target 0 none 20 1 1 no_strip
      read_header_auto fresh decoder 0 no_member 0 (empty_block ∷ []) link_out (record_of link_out)
      (sample-HeaderFits (codes "link") 0o120777) (text-IsByte (codes "link") refl)
      (text-IsByte target refl) refl refl tt (omega arith) (omega arith) (omega arith) (omega arith)
      (omega arith) refl refl refl link_dumped (refl, tt) refl

read_header-dump_special_example :
    ReadsMember options
      (sized 0 tty_stat)
      b'3'
      []
      decoder
      0
      no_member
      fresh
      (empty_block ∷ [])
      (flat (read_header 3 no_strip read_header_auto fresh (record_of tty_out)))
unfolding special_type adjusted_mode
read_header-dump_special_example =
    read_header-dump_special options no_extended tty_stat b'3' 0 none 20 1 no_strip read_header_auto
      fresh decoder 0 no_member 0 (empty_block ∷ []) tty_out (record_of tty_out)
      (sample-HeaderFits (codes "tty") 0o020620) (text-IsByte (codes "tty") refl) refl tt
      (omega arith) (omega arith) (omega arith) refl refl refl tty_dumped (refl, tt) refl

-- A file that has shrunk.
read_header-dump_regular_file_example :
    ReadsFile options file_stat shrunk file_out.1 decoder 0 no_member fresh 0 no_strip
      read_header_auto
      (empty_block ∷ [])
      (record_of (dumped_blocks file_out.0))
unfolding adjusted_mode
read_header-dump_regular_file_example =
    read_header-dump_regular_file options no_extended file_stat shrunk 0 none 20 1 1 no_strip
      read_header_auto fresh decoder 0 no_member 0 (empty_block ∷ []) (dumped_blocks file_out.0)
      file_out.1 (record_of (dumped_blocks file_out.0))
      (sample-HeaderFits_sized (codes "file") 0o100644) (text-IsByte (codes "file") refl) refl tt
      (omega arith) (omega arith) (omega arith) (omega arith) refl refl file_dumped (refl, tt) refl

dump_link-too_long_example :
    (h : Block) × (dump_link ustar_options no_extended
        (long_of b'K')
        (long_of b'L')
        link_stat
        target
        b'2'
      ≡ dumped_with_error ([] ++ (write_extended no_extended [] ++ (h ∷ []))))
    × (linkname_of h ≡ take 100 target)
dump_link-too_long_example =
    dump_link-too_long ustar_options no_extended (long_of b'K') (long_of b'L') link_stat target b'2'
      [] [] ustar_header refl (omega arith) refl (text-IsByte target refl) (omega arith)
      sample-NamesAreBytes ustar_started
