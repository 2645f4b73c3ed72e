-- ===== src/Create/Regular/Archived.antt =====
-- From `dump_regular_file` of src/create.c to `read_header` and `decode_header` of src/list.c.
use tar.Base.{
  ℕ, suc, ◌+◌, ◌^◌, ◌≤◌, ◌<◌, ◌≡◌, refl, sym, ◌∙◌, ap, arith, Bool, true, false, Option, List, [],
  ◌∷◌, ◌++◌, append_assoc, length, take, All, All-append, get_or,
}
use tar.Base.Put.{get_or-field}
use tar.Base.Text.{Bytes}
use tar.Base.Words.{IsByte}
use tar.Stream.{Block, Input, pending}
use tar.Field.{Format, default, v7, oldgnu, ustar, posix, star, gnu}
use tar.Field.Encode.{gnu_format}
use tar.Field.Types.{max_i64, off_from_header}
use tar.Header.{simple_finish_header}
use tar.Header.Checksum.{tar_checksum-simple_finish_header}
use tar.Reader.{ReadHeaderMode, is_raw, Info, read_header}
use tar.Reader.Fields.{field, cstring, typeflag, linkname_of, size_of, is_special}
use tar.Reader.Flat.{flat}
use tar.Reader.Blocks.{IsBlock}
use tar.Reader.Decode.{Member, Decoder}
use tar.Pax.Keyword.{no_nul}
use tar.Create.LongText.{HoldsText}
use tar.Create.Private.{OwnerIsBytes}
use tar.Create.Writes.{simple_finish_header-Writes}
use tar.Create.Touches.{Touches-refl, Touches-join, Writes-Touches}
use tar.Create.Start.{Options, Stat, Start, adjusted_mode, is_device, regular_type, start_header}
use tar.Create.Start.Whole.{
  HeaderFits, Filled, long_front, start_header-Begun, drop-write_short_name,
}
use tar.Create.Dump.{Dumped, dumped, finish_header, write_extended}
use tar.Create.Dump.Reads.{gnu_long}
use tar.Create.Dump.Member.{Finished, DumpsMember}
use tar.Create.Dump.Archived.{ReadsMember, dumped_blocks, long_front-empty, DumpsMember-ReadsMember}
use tar.Create.Regular.{DumpStatus, dump_data, with_data, dump_regular_file}
use tar.Create.Regular.Padded.{padded}
use tar.Create.Regular.Data.{dump_status_of, dump_data-DataWritten}

-- A header whose type is left as `start_header` wrote it.
regular-Finished :
    (type : ℕ) (start header : Block) (o : Options) (st : Stat)
    → Filled o st start header
    → field 156 1 header ≡ type ∷ []
    → is_special type ≡ false
    → st.st_size ≤ max_i64
    → cstring (field 157 100 header) ≡ []
    → Finished type [] header (simple_finish_header header)
unfolding size_of linkname_of
regular-Finished type start header o st filled typed ordinary small no_link =
    let whole = filled.touches.whole in
    let c = simple_finish_header-Writes header whole in
    let h = simple_finish_header header in
    let to_h =
      Touches-join ((157, 100) ∷ (156, 1) ∷ []) ((148, 8) ∷ []) _ _ _ (Touches-refl _ header whole)
        (Writes-Touches 148 8 _ _ _ c) in
    let type_kept : typeflag h ≡ type =
      sym (get_or-field 156 0 h 0)
      ∙ ap (λ (b : Bytes). get_or b 0 0) (c.behind 156 1 (omega arith) ∙ typed) in
    record {
      touches = to_h;
      type_kept = type_kept;
      link_kept = λ short. ap cstring (c.behind 157 100 (omega arith)) ∙ no_link;
      accepted = record {
        accepted = tar_checksum-simple_finish_header header false false whole.size whole.bytes;
        ordinary = ap is_special type_kept ∙ ordinary;
        size_fits = omega (
          arith,
          small,
          filled.numbers.size,
          ap (λ (b : Bytes). (off_from_header b false).value) (to_h.kept 124 12 refl),
        );
      };
    }

regular_type-gnu : (f : Format) → gnu_format f ≡ true → regular_type f ≡ b'0'
regular_type-gnu oldgnu h = refl
regular_type-gnu gnu h = refl
regular_type-gnu default h = refl
regular_type-gnu v7 h = absurd (cc)
regular_type-gnu ustar h = refl
regular_type-gnu posix h = refl
regular_type-gnu star h = refl

module _ (o : Options) (extended : List Bytes → List Block)
    (gnu_link long_name : Bytes → List Block) (st : Stat) (fits : HeaderFits o st)
    (bytes : All IsByte st.file_name) where
  finish_header-DumpsMember :
      DumpsMember o st
        (long_front o.archive_format gnu_link [])
        (long_front o.archive_format long_name st.file_name)
        b'0'
        []
        (finish_header extended [] [] (λ header. header) (start_header o long_name st))
  unfolding finish_header write_extended
  finish_header-DumpsMember =
      let f = o.archive_format in
      let b = start_header-Begun o long_name st fits bytes in
      let h = simple_finish_header b.header in
      record {
        header = b.header;
        h = h;
        result =
            ap (λ (s : Start). finish_header extended [] [] (λ header. header) s) b.result
            ∙ ap
                (λ (l : List Block).
                  dumped (l ++ (long_front f long_name st.file_name ++ (h ∷ []))))
                (sym (long_front-empty f gnu_link));
        filled = b.filled;
        finished =
            regular-Finished b'0' _ b.header o st b.filled
              (b.filled.type_written ∙ ap (λ (t : ℕ). t ∷ []) (regular_type-gnu f fits.numbers.gnu))
              refl fits.numbers.size
              (ap cstring (b.filled.touches.kept 157 100 refl)
                ∙ ap (λ (l : Bytes). cstring (take 100 l))
                    (drop-write_short_name 157 f st.file_name (omega arith)));
      }

-- What is read of a file, and the data that stands behind its header.
pub record ReadsFile (o : Options) (st : Stat) (file : Bytes) (status : DumpStatus) (d : Decoder)
    (n : ℕ) (before : Member) (info : Info) (fuel : ℕ) (strip : Bytes → Bytes × Bool)
    (mode : ReadHeaderMode) (bs : List Block) (s : Input) : Type 0 where
  pub same_status : status ≡ dump_status_of st.st_size file
  pub contents : List Block
  pub holds : HoldsText (padded st.st_size file) contents
  pub member :
      ReadsMember o st b'0' [] d n before info
        (contents ++ bs)
        (flat (read_header (suc (suc (suc fuel))) strip mode info s))

-- A file that is dumped in a GNU format is read with its name, its attributes as for links and its
-- size, and behind its header stand as many blocks as the size wants, with the bytes of the file
-- and zeros where the file has shrunk, and nothing of what is behind the size in a file that has
-- grown: wherever the records end, when they are written and when they are read. The status says
-- whether the file gave all its bytes. The file is not a device. The names are of bytes and
-- without a NUL, and below 8 ^ 11 - 1 bytes long; the numbers fit the fields of a GNU header, the
-- names of its owner have at most 31 bytes, records have room for a block at least, and the blocks
-- behind the member have 512 bytes each. `read_header` is not in raw mode and has three rounds at
-- least.
pub read_header-dump_regular_file :
    (o : Options) (extended : List Bytes → List Block) (st : Stat) (file : Bytes) (nobody : ℕ)
    (owner : Option (Bytes × Bytes)) (blocking name_room room : ℕ) (strip : Bytes → Bytes × Bool)
    (mode : ReadHeaderMode) (info : Info) (d : Decoder) (n : ℕ) (before : Member) (fuel : ℕ)
    (bs blocks : List Block) (status : DumpStatus) (s : Input)
    → HeaderFits o st
    → All IsByte st.file_name
    → no_nul st.file_name ≡ true
    → OwnerIsBytes owner
    → 1 ≤ blocking
    → 1 ≤ name_room
    → 1 ≤ room
    → length st.file_name + 1 < 8 ^ 11
    → is_raw mode ≡ false
    → is_device (adjusted_mode o st) ≡ false
    → dump_regular_file o extended
        (gnu_long o.archive_format nobody owner blocking b'L' name_room)
        blocking
        room
        st
        file
      ≡ (dumped blocks, status)
    → All IsBlock bs
    → pending s ≡ blocks ++ bs
    → ReadsFile o st file status d n before info fuel strip mode bs s
unfolding dump_regular_file
read_header-dump_regular_file o extended st file nobody owner blocking name_room room strip mode
      info d n before fuel bs blocks status s fits bytes plain owner_bytes one_block some_name
      some_room small cooked no_device e whole left =
    let f = o.archive_format in
    let names = gnu_long f nobody owner blocking b'L' name_room in
    let m =
      finish_header-DumpsMember o extended (gnu_long f nobody owner blocking b'K' 1) names st fits
        bytes in
    let w =
      dump_data-DataWritten (suc st.st_size) blocking room file st.st_size (omega arith) one_block
        some_room in
    let data_out = dump_data (suc st.st_size) blocking room file st.st_size in
    let front =
      dumped_blocks (finish_header extended [] [] (λ header. header) (start_header o names st)) in
    let is_front : finish_header extended [] [] (λ header. header) (start_header o names st)
        ≡ dumped front =
      m.result ∙ ap (λ (q : Dumped). dumped (dumped_blocks q)) (sym m.result) in
    let same = sym e ∙ ap (with_data data_out) is_front in
    record {
      same_status = ap (λ (p : Dumped × DumpStatus). p.1) same ∙ w.same_status;
      contents = data_out.0;
      holds = w.holds;
      member =
          DumpsMember-ReadsMember o st b'0' [] _ nobody owner blocking 1 name_room strip mode info d
            n before fuel (data_out.0 ++ bs) front s fits plain refl owner_bytes one_block
            (omega arith) some_name small (omega arith) cooked no_device m is_front
            (All-append IsBlock data_out.0 bs w.holds.blocks whole)
            (left
              ∙ ap (λ (p : Dumped × DumpStatus). dumped_blocks p.0 ++ bs) same
              ∙ append_assoc front data_out.0 bs);
    }
