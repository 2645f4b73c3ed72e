-- ===== src/Create/Dump/Archived.antt =====
-- From `dump_file0` and `dump_hard_link` of src/create.c to `read_header` and `decode_header` of
-- src/list.c: links, devices and FIFOs in the GNU formats.
use tar.Base.{
  ℕ, suc, ◌+◌, ◌^◌, ◌≤◌, ◌<◌, ◌≡◌, refl, sym, ◌∙◌, ap, subst, arith, Bool, true, false, Option,
  none, some, List, [], ◌∷◌, ◌++◌, append_assoc, length, drop, All, All-append, ◌==◌, ◌||◌,
  if◌then◌else◌,
}
use tar.Base.Text.{Bytes, streq}
use tar.Base.Words.{IsByte}
use tar.Stream.{Block, Input, pending}
use tar.Field.{Format}
use tar.Reader.{ReadHeaderMode, is_raw, Info, read_header}
use tar.Reader.Fields.{field, typeflag, is_special, tmagic}
use tar.Reader.Flat.{FlatRound, flat, flat_loop}
use tar.Reader.Refines.{no_next, flat-read_header}
use tar.Reader.Blocks.{IsBlock}
use tar.Reader.Decode.{Member, Decoder, is_device_type}
use tar.Pax.Keyword.{no_nul}
use tar.Create.{write_short_name}
use tar.Create.NameFields.{KeepsName, write_short_name-prefix}
use tar.Create.Private.{OwnerIsBytes}
use tar.Create.Start.{Options, Stat, adjusted_mode, is_device, file_type}
use tar.Create.Start.Whole.{HeaderFits, Filled, long_front}
use tar.Create.Start.Decoded.{ReadsStat, take-take, Filled-ReadsStat}
use tar.Create.Dump.{
  Dumped, dumped, sized, dump_link, dump_special, special_type, not_dumped, dumped_with_error,
  dump_aborted,
}
use tar.Create.Dump.Reads.{gnu_long, ReadsNames, both_ReadsNames, long_front-IsBlock}
use tar.Create.Dump.Member.{Finished, DumpsMember, dump_link-DumpsMember, dump_special-DumpsMember}

Filled-KeepsName :
    (o : Options) (st : Stat) (type : ℕ) (link : Bytes) (header h : Block)
    → Filled o st (write_short_name o.archive_format st.file_name) header
    → Finished type link header h
    → KeepsName (write_short_name o.archive_format st.file_name) h
unfolding streq
Filled-KeepsName o st type link header h filled done =
    let magic : streq (field 257 6 h) tmagic ≡ false =
      rw (sym (take-take 6 8 (drop 257 h) (omega arith)))
        (rw (done.touches.kept 257 8 refl ∙ filled.magic) refl) in
    record {
      name_kept = done.touches.kept 0 100 refl ∙ filled.touches.kept 0 100 refl;
      prefix_kept = λ m. absurd (cc);
      magic_there =
          λ there. absurd (omega (arith, write_short_name-prefix o.archive_format st.file_name));
    }

-- What `read_header` and `decode_header` make of a member.
pub record ReadsMember (o : Options) (st : Stat) (type : ℕ) (link : Bytes) (d : Decoder) (n : ℕ)
    (before : Member) (info : Info) (rest : List Block) (r : FlatRound) : Type 0 where
  pub h : Block
  pub names : ReadsNames st.file_name link info h (h ∷ rest) r
  pub stat : ReadsStat o st d n h before
  pub same_type : typeflag h ≡ type

abbrev pub dumped_blocks : Dumped → List Block
dumped_blocks (not_dumped front) = front
dumped_blocks (dumped_with_error blocks) = blocks
dumped_blocks dump_aborted = []
dumped_blocks (dumped blocks) = blocks

pub DumpsMember-ReadsMember :
    (o : Options) (st : Stat) (type : ℕ) (link : Bytes) (r : Dumped) (nobody : ℕ)
    (owner : Option (Bytes × Bytes)) (blocking link_room room : ℕ) (strip : Bytes → Bytes × Bool)
    (mode : ReadHeaderMode) (info : Info) (d : Decoder) (n : ℕ) (before : Member) (fuel : ℕ)
    (bs blocks : List Block) (s : Input)
    → HeaderFits o st
    → no_nul st.file_name ≡ true
    → no_nul link ≡ true
    → OwnerIsBytes owner
    → 1 ≤ blocking
    → 1 ≤ link_room
    → 1 ≤ room
    → length st.file_name + 1 < 8 ^ 11
    → length link + 1 < 8 ^ 11
    → is_raw mode ≡ false
    → is_device (adjusted_mode o st) ≡ is_device_type type
    → DumpsMember o st
        (long_front o.archive_format
          (gnu_long o.archive_format nobody owner blocking b'K' link_room)
          link)
        (long_front o.archive_format
          (gnu_long o.archive_format nobody owner blocking b'L' room)
          st.file_name)
        type
        link
        r
    → r ≡ dumped blocks
    → All IsBlock bs
    → pending s ≡ blocks ++ bs
    → ReadsMember o st type link d n before info bs
        (flat (read_header (suc (suc (suc fuel))) strip mode info s))
DumpsMember-ReadsMember o st type link r nobody owner blocking link_room room strip mode info d n
      before fuel bs blocks s fits plain plain_link bytes one_block some_link some_room small
      small_link cooked kind m e whole left =
    let f = o.archive_format in
    let g = fits.numbers.gnu in
    let links = long_front f (gnu_long f nobody owner blocking b'K' link_room) link in
    let names = long_front f (gnu_long f nobody owner blocking b'L' room) st.file_name in
    let k = Filled-KeepsName o st type link m.header m.h m.filled m.finished in
    let is_pending : pending s ≡ links ++ (names ++ (m.h ∷ bs)) =
      left
      ∙ ap (λ (q : Dumped). dumped_blocks q ++ bs) (sym e ∙ m.result)
      ∙ append_assoc links (names ++ (m.h ∷ [])) bs
      ∙ ap (λ (l : List Block). links ++ l) (append_assoc names (m.h ∷ []) bs) in
    let all_whole : All IsBlock (pending s) = subst (All IsBlock) (sym is_pending) (
      All-append IsBlock links (names ++ (m.h ∷ bs))
        (long_front-IsBlock f nobody owner blocking b'K' link_room link bytes (omega arith)
          one_block some_link small_link)
        (All-append IsBlock names (m.h ∷ bs)
          (long_front-IsBlock f nobody owner blocking b'L' room st.file_name bytes (omega arith)
            one_block some_room small)
          (m.finished.touches.whole.size, whole))) in
    record {
      h = m.h;
      names =
          subst (ReadsNames st.file_name link info m.h (m.h ∷ bs))
            (sym (
              flat-read_header (suc (suc (suc fuel))) strip mode info s all_whole
              ∙ ap (flat_loop (suc (suc (suc fuel))) strip mode no_next info) is_pending))
            (both_ReadsNames strip mode cooked f nobody owner bytes blocking one_block m.h bs
              m.finished.accepted info fuel link_room room st.file_name link g plain plain_link
              some_link some_room small small_link k (λ short. m.finished.link_kept (omega arith)));
      stat =
          Filled-ReadsStat o st d n _ m.header m.h before fits
            (kind ∙ ap is_device_type (sym m.finished.type_kept)) m.filled m.finished.touches;
      same_type = m.finished.type_kept;
    }

-- A symbolic or a hard link that is dumped in a GNU format is read with its name, the name of its
-- target and its attributes, however long the two names are and wherever the records of the
-- archive end. The names are of bytes and without a NUL, and below 8 ^ 11 - 1 bytes long; the
-- numbers fit the fields of a GNU header, the names of its owner have at most 31 bytes, records
-- have room for a block at least, and the blocks behind the member have 512 bytes each.
-- `read_header` is not in raw mode and has three rounds at least. `st` is not of a device. The
-- size is 0; what `decode_header` passes on to `xheader_decode` has the mode's known bits, the ids
-- by name or number, the seconds of the time and the names of the owner that were written.
pub read_header-dump_link :
    (o : Options) (extended : List Bytes → List Block) (st : Stat) (type : ℕ) (link : Bytes)
    (nobody : ℕ) (owner : Option (Bytes × Bytes)) (blocking link_room room : ℕ)
    (strip : Bytes → Bytes × Bool) (mode : ReadHeaderMode) (info : Info) (d : Decoder) (n : ℕ)
    (before : Member) (fuel : ℕ) (bs blocks : List Block) (s : Input)
    → HeaderFits o (sized 0 st)
    → All IsByte st.file_name
    → All IsByte link
    → no_nul st.file_name ≡ true
    → no_nul link ≡ true
    → OwnerIsBytes owner
    → 1 ≤ blocking
    → 1 ≤ link_room
    → 1 ≤ room
    → length st.file_name + 1 < 8 ^ 11
    → length link + 1 < 8 ^ 11
    → is_raw mode ≡ false
    → (type == b'1' || type == b'2') ≡ true
    → is_device (adjusted_mode o st) ≡ false
    → dump_link o extended
        (gnu_long o.archive_format nobody owner blocking b'K' link_room)
        (gnu_long o.archive_format nobody owner blocking b'L' room)
        st
        link
        type
      ≡ dumped blocks
    → All IsBlock bs
    → pending s ≡ blocks ++ bs
    → ReadsMember o
        (sized 0 st)
        type
        link
        d
        n
        before
        info
        bs
        (flat (read_header (suc (suc (suc fuel))) strip mode info s))
unfolding adjusted_mode
read_header-dump_link o extended st type link nobody owner blocking link_room room strip mode info d
      n before fuel bs blocks s fits bytes link_bytes plain plain_link owner_bytes one_block
      some_link some_room small small_link cooked a_link no_device e whole left =
    DumpsMember-ReadsMember o (sized 0 st) type link _ nobody owner blocking link_room room strip
      mode info d n before fuel bs blocks s fits plain plain_link owner_bytes one_block some_link
      some_room small small_link cooked (no_device ∙ sym (not_device type a_link))
      (dump_link-DumpsMember o extended _ _ st type (link_byte type a_link)
        (link_ordinary type a_link) fits bytes link link_bytes plain_link)
      e whole left
  where
    link_byte : (type : ℕ) → (type == b'1' || type == b'2') ≡ true → IsByte type
    link_byte type h = ground arith

    link_ordinary : (type : ℕ) → (type == b'1' || type == b'2') ≡ true → is_special type ≡ false
    link_ordinary type h = ground arith

    not_device : (type : ℕ) → (type == b'1' || type == b'2') ≡ true → is_device_type type ≡ false
    not_device type h = ground arith

pub long_front-empty : (f : Format) (gnu_link : Bytes → List Block) → long_front f gnu_link [] ≡ []
long_front-empty f gnu_link = ground arith

-- The types that `dump_file0` writes.
special_type-cases :
    (mode type : ℕ)
    → special_type mode ≡ some type
    → IsByte type × (is_special type ≡ false) × (is_device mode ≡ is_device_type type)
unfolding special_type
special_type-cases mode type e =
    go (file_type mode == 0o020000) (file_type mode == 0o060000) (file_type mode == 0o010000) e
  where
    go :
        (chr blk fifo : Bool)
        → (if chr then some b'3' else if blk then some b'4' else if fifo then some b'6' else none)
          ≡ some type
        → IsByte type × (is_special type ≡ false) × ((chr || blk) ≡ is_device_type type)
    go chr blk fifo e = (ground arith, ground arith, ground arith)

-- A device or a FIFO that is dumped in a GNU format is read with its name, its attributes as for
-- links, its type and, for a device, its numbers, however long its name is and wherever the
-- records of the archive end. `mode_option` does not change the type of the file. The names are of
-- bytes and without a NUL, and below 8 ^ 11 - 1 bytes long; the numbers fit the fields of a GNU
-- header, the names of its owner have at most 31 bytes, records have room for a block at least,
-- and the blocks behind the member have 512 bytes each. `read_header` is not in raw mode and has
-- three rounds at least.
pub read_header-dump_special :
    (o : Options) (extended : List Bytes → List Block) (st : Stat) (type : ℕ) (nobody : ℕ)
    (owner : Option (Bytes × Bytes)) (blocking room : ℕ) (strip : Bytes → Bytes × Bool)
    (mode : ReadHeaderMode) (info : Info) (d : Decoder) (n : ℕ) (before : Member) (fuel : ℕ)
    (bs blocks : List Block) (s : Input)
    → HeaderFits o (sized 0 st)
    → All IsByte st.file_name
    → no_nul st.file_name ≡ true
    → OwnerIsBytes owner
    → 1 ≤ blocking
    → 1 ≤ room
    → length st.file_name + 1 < 8 ^ 11
    → is_raw mode ≡ false
    → special_type st.st_mode ≡ some type
    → file_type (adjusted_mode o st) ≡ file_type st.st_mode
    → dump_special o extended (gnu_long o.archive_format nobody owner blocking b'L' room) st
      ≡ dumped blocks
    → All IsBlock bs
    → pending s ≡ blocks ++ bs
    → ReadsMember o
        (sized 0 st)
        type
        []
        d
        n
        before
        info
        bs
        (flat (read_header (suc (suc (suc fuel))) strip mode info s))
unfolding adjusted_mode
read_header-dump_special o extended st type nobody owner blocking room strip mode info d n before
      fuel bs blocks s fits bytes plain owner_bytes one_block some_room small cooked typed same e
      whole left =
    let (byte, ordinary, kind) = special_type-cases st.st_mode type typed in
    let f = o.archive_format in
    let names = gnu_long f nobody owner blocking b'L' room in
    let links = gnu_long f nobody owner blocking b'K' 1 in
    let m =
      dump_special-DumpsMember o extended links names st type byte ordinary fits bytes typed in
    DumpsMember-ReadsMember o (sized 0 st) type [] _ nobody owner blocking 1 room strip mode info d
      n before fuel bs blocks s fits plain refl owner_bytes one_block (omega arith) some_room small
      (omega arith) cooked (ap (λ (t : ℕ). t == 0o020000 || t == 0o060000) same ∙ kind)
      (subst
        (λ (l : List Block).
          DumpsMember o (sized 0 st) l (long_front f names st.file_name) type []
            (dump_special o extended names st))
        (sym (long_front-empty f links)) m)
      e whole left
