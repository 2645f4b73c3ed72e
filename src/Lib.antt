-- ===== src/Lib.antt =====
-- GNU tar: the headers of an archive and the names in them, written and read back, and the parts
-- that turn numbers, names and text into fields and back.
--
-- The archive is a sequence of blocks of 512 bytes. Each member has a header block whose fields
-- hold numbers as text or in base 256, closed by a checksum; what does not fit stands in front of
-- it as records of text, the pax extended header. File names, map files, suffixes and escaped
-- strings are what the user gives. The files here follow the C functions:
--
-- - Field (src/create.c, src/list.c): the numeric fields. Field.Encode holds `to_octal`,
--   `to_base256`, `to_chars`, `to_chars_subst` and the string copies, Field.Decode holds
--   `from_header`, Field.Types and Field.Mode their versions for each C type. Capacity, Octal and
--   Base256 are lemmas on what a field holds; RoundTrip and Outcome hold the properties.
-- - Header (src/create.c, src/list.c): `simple_finish_header` and `tar_checksum`, which uses
--   `from_header`.
-- - Stream (src/buffer.c): `find_next_block`, `set_next_block_after` and `available_space_after` on
--   the records that are read. Pending is about the blocks to come.
-- - Reader (src/list.c): `read_header`, and `xheader_read` of src/xheader.c, over a Stream, with the
--   checksum of Header and the sizes of Field. Flat is a reference on one list of blocks, Refines
--   the proof that the code does what it does.
-- - Create (src/create.c): `write_header_name` and what it calls, `write_gnu_long_link`,
--   `write_ustar_long_name` and their parts. Split and SplitMost are about the two name fields,
--   LongText, Private and LongRead about the blocks of a long name, RoundTrip joins Create and Reader.
-- - Create.Start (src/create.c): `start_header`, each field as a step on the header and the keywords
--   stored so far. Steps, Numbers and Names say what a reader finds in the fields of a GNU format,
--   Whole joins them, Kept is about every format, Decoded goes on to `decode_header`.
-- - Create.Dump and Create.Regular (src/create.c): `write_long_link`, `finish_header`,
--   `dump_hard_link`, the ends of `dump_file0` for links, devices and FIFOs, and `dump_regular_file`
--   with `pad_archive`. Archived goes on to what is read, TooLong is about cut links.
-- - Reader.Decode and Reader.Skip (src/list.c): `decode_header`, and `skip_member` with `skim_file`.
-- - Archive (src/list.c): `read_and`, the loop over the members, with what it calls for a member as
--   the record `Handler`. Contents says what an archive holds, Turns and Listing what becomes of it,
--   Ends is about every archive.
-- - Unlink (src/unlink.c): the pass of `flush_deferred_unlinks` over the queue, and Queueing with
--   `queue_deferred_unlink`. Chain is about linked cells, Flush and Pass about the pass, Appended and
--   Lost about entries that are queued.
-- - Pax (src/xheader.c): `xattr_encode_keyword`, `xattr_decode_keyword`, `xheader_print_n` and
--   `decode_record`, which reads its length with `stoint`. Pax.Number and Pax.Time hold
--   `decode_num`, `decode_time` and, of src/misc.c, `code_timespec` and `decode_timespec`.
-- - Decimal (src/misc.c): `stoint`. Decimal.Digits is a printer to run what takes one.
-- - OwnerMap (src/map.c): `map_read`, `parse_id` and the translations. Lines is about one line,
--   Lookup about the whole file.
-- - Owners (src/names.c): `uid_to_uname`, `uname_to_uid` and their versions for groups, with what they
--   keep. Cached is about any calls in any order.
-- - FileName (src/misc.c): `zap_slashes`, `normalize_filename_x` and `replace_prefix` on text.
-- - Quote (src/misc.c): `unquote_string`, and `quote_copy_string`, which is not compiled.
-- - Suffix (src/suffix.c): the whole file.
-- - Base: shared names, lists, words of 64 bits, bits, text.
--
-- A buffer is the list of its bytes, a C string the list of the bytes in front of its NUL. A word is
-- a native number with its wrap-around written out, a negative number its bit pattern; the host has
-- 64-bit integers and two's complement. A function that changes a buffer returns the buffer that it
-- leaves. A diagnostic is a value, without its text. Static flags are arguments and results.
--
-- Loops are structural, or run on fuel where they skip more than one element: `dotslash_loop`,
-- `copy_loop` and `unquote_loop` have the length of their text, each round takes a byte at least, and
-- the properties hold of the whole text. `size_loop` has three rounds, which are enough.
-- `decode_records` takes its fuel as an argument. `long_loop` has a round for each block that it
-- reads, `xheader_loop` two more than the size has blocks, `long_link_loop`, `dump_data`,
-- `pad_archive` and `skim_loop` one for each byte, and each round takes a block at least;
-- `read_header` takes its fuel as an argument, and one round more than there are blocks to come
-- is enough, and `read` takes that many. `read_and` takes its fuel too, a round for each member
-- and one more, or one for each block and one more; `flush_deferred_unlinks` a round for each
-- entry and one more.
--
-- Parameters stand for code outside: gnulib's number printer (the record `DecimalPrinter`, with
-- what its digits promise) and hash table (`HashTable`), lib/wordsplit.c, and the databases of
-- users and groups. The file system prefix of a name is empty and `//` is no distinct root, as on
-- a POSIX host.
--
-- A record that `flush_archive` reads is a list of blocks, the end of the archive an empty one.
-- What `strip_trailing_slashes` of gnulib does is a parameter of `read_header`. What
-- `seek_archive` does is a parameter of `skim_file`; the properties of `skim_file` and `skim_member` hold for archives
-- that are read block by block, and for those that are seeked where no seek goes behind the end
-- of the archive; one that does so is not reported by `skim_file`. The `abort` of
-- `set_next_block_after` is left out, and `decode_header` cannot end tar in `Handler`.
--
-- The descriptor of a file is the list of the bytes that `blocking_read` gives. What `mode_adjust` of
-- gnulib does, the host's names of users and groups, `makedev`, and the blocks of an extended header
-- are parameters of `start_header`, `decode_header` and what uses them.
--
-- Not modelled: the coders of each pax keyword, directories and the table of hard links, sparse
-- maps, incremental dumps, the record buffer when it is written, volumes, name selection and
-- transformation, of which `Handler` has what `read_and` calls; how the queue of Unlink is
-- emptied in the end; and what mainly calls the system: extraction, comparison, processes,
-- attributes, options.
pub mod Base
pub mod Field
pub mod Header
pub mod Suffix
pub mod Decimal
pub mod Quote
pub mod Pax
pub mod FileName
pub mod OwnerMap
pub mod Owners
pub mod Stream
pub mod Reader
pub mod Create
pub mod Archive
pub mod Unlink
