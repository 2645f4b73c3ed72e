-- ===== src/Reader/Runs.antt =====
-- Reading headers: runs on concrete archives.
use tar.Base.{ℕ, ◌≡◌, ◌≢◌, refl, arith, Bool, true, false, none, [], ◌∷◌, length, replicate, All}
use tar.Base.Put.{put}
use tar.Base.Text.{Bytes, codes}
use tar.Stream.{Block, block_size, Input, find_next_block, set_next_block_after, pending}
use tar.Field.Decode.{from_header}
use tar.Field.Encode.{to_octal}
use tar.Field.Types.{off_from_header}
use tar.Reader.Fields.{size_of}
use tar.Header.{
  ReadHeader, header_still_unread, header_zero_block, sum_bytes, tar_checksum, simple_finish_header,
}
use tar.Reader.{read_header_auto, Info, round_out_of_fuel, round, read_header}
use tar.Reader.Skip.{skimmed, Seek, seek_failed, sought, member_is_dir, skim_file, skim_member}
use tar.Reader.Skip.Skims.{Skims, skim_file-Skims, skim_member-next}
use tar.Reader.Blocks.{IsBlock}
use tar.Reader.Flat.{FlatRound, ended, flat, flat_loop}
use tar.Reader.Refines.{no_next, flat-read_header, read_header_ends}

abbrev no_strip : Bytes → Bytes × Bool
no_strip name = (name, false)

abbrev fresh : Info
fresh = record {
  st_size = 0;
  skipped = false;
  orig_file_name = [];
  file_name = [];
  had_trailing_slash = false;
  link_name = [];
  xhdr = none;
  recent_long_name = none;
  recent_long_link = none;
  recent_global_header = none;
  globals = [];
  unexpected_eofs = 0;
}

abbrev zero_block : Block
zero_block = replicate block_size 0

-- A header of type `x` for 10 bytes, alone in its record.
abbrev extended : Block
extended =
    simple_finish_header
      (put 0 (codes "PaxHeaders") (put 124 (codes "00000000012") (put 156 (codes "x") zero_block)))

abbrev archive : Input
archive = record {
  current = extended ∷ [];
  records = (zero_block ∷ zero_block ∷ []) ∷ [];
  hit_eof = false;
}

archive-blocks : All IsBlock (pending archive)
unfolding simple_finish_header to_octal
archive-blocks = (refl, (refl, (refl, tt)))

abbrev ends_with : FlatRound → ReadHeader × ℕ
ends_with (ended status header info rest) = (status, length rest)
ends_with _ = (header_still_unread, 0)

-- The extended header's text is taken from the next record, and the zero block behind it is found.
finds_zero_block :
    ends_with (flat (read_header 4 no_strip read_header_auto fresh archive))
    ≡ (header_zero_block, 1)
unfolding read_header simple_finish_header round find_next_block tar_checksum sum_bytes to_octal
    from_header size_of off_from_header set_next_block_after
finds_zero_block = refl

flat-read_header_example :
    flat (read_header 4 no_strip read_header_auto fresh archive)
    ≡ flat_loop 4 no_strip read_header_auto no_next fresh (pending archive)
flat-read_header_example = flat-read_header 4 no_strip read_header_auto fresh archive archive-blocks

read_header_ends_example : read_header 4 no_strip read_header_auto fresh archive ≢ round_out_of_fuel
read_header_ends_example =
    read_header_ends 4 no_strip read_header_auto fresh archive archive-blocks (omega arith)

-- An archive whose first record can be passed by a seek.
abbrev seek_one : ℕ → Input → Seek
seek_one size s = sought 1 (record { current = []; records = s.records; hit_eof = s.hit_eof })

-- Two blocks of data that begin in one record, and the end of the archive.
skim_file-Skims_example : Skims 700 (pending archive) (skim_file seek_one true false 700 archive).1
skim_file-Skims_example =
    skim_file-Skims seek_one true false 700 archive (λ e. (omega arith, omega arith, refl))

skim_member-next_example :
    (s' : Input) × (seekable : Bool) × (skim_member
        (λ info s. (false, skimmed s))
        (λ size s. seek_failed)
        false
        true
        false
        extended
        (record fresh { st_size = 10 })
        archive
      ≡ (record fresh { st_size = 10; skipped = true }, (seekable, skimmed s')))
    × (pending s' ≡ zero_block ∷ [])
unfolding member_is_dir simple_finish_header to_octal
skim_member-next_example =
    skim_member-next (λ info s. (false, skimmed s)) (λ size s. seek_failed) true false extended
      extended (record fresh { st_size = 10 }) archive (zero_block ∷ []) (zero_block ∷ []) refl refl
      refl (omega arith) refl (λ e. tt)
