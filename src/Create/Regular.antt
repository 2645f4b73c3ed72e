-- ===== src/Create/Regular.antt =====
-- `dump_regular_file` of src/create.c, and `pad_archive`: the blocks of a file's data, of which there
-- are as many as its header says, whatever the file gives. `file` is what `blocking_read` can read of
-- a descriptor above 0, up to the end of the file or an error; messages are left out.
pub mod Padded
pub mod Data
pub mod Archived
use tar.Base.{
  ℕ, zero, suc, ◌+◌, ◌-◌, ◌*◌, ◌/◌, min, Bool, true, false, List, [], ◌∷◌, ◌++◌, length, take, drop,
  replicate, ltb, ◌==◌, if◌then◌else◌,
}
use tar.Base.Text.{Bytes}
use tar.Stream.{Block, block_size}
use tar.Create.{empty_block, cut_blocks}
use tar.Create.Start.{Options, Stat, Start, start_header}
use tar.Create.Dump.{Dumped, not_dumped, dumped_with_error, dump_aborted, dumped, finish_header}

-- `enum dump_status`, for files.
pub data DumpStatus : Type 0 where
  dump_status_ok dump_status_short dump_status_fail : DumpStatus

-- `pad_archive`, on fuel.
unfoldable pub pad_archive : ℕ → ℕ → List Block
pad_archive zero size_left = []
pad_archive (suc fuel) size_left =
    let rest = pad_archive fuel (size_left - block_size) in
    if size_left == 0 then [] else empty_block ∷ rest

-- The blocks that `bufsize` bytes begin, with the `count` bytes that were read and zeros.
abbrev pub area : ℕ → ℕ → Bytes → List Block
area bufsize count file =
    let k = (bufsize + (block_size - 1)) / block_size in
    cut_blocks k (take count file ++ replicate (k * block_size - count) 0)

abbrev pub in_front : List Block → List Block × DumpStatus → List Block × DumpStatus
in_front blocks (rest, status) = (blocks ++ rest, status)

-- The loop on `size_left`, where `room` blocks are left in the record and `blocking` in the next
-- ones; on fuel.
unfoldable pub dump_data : ℕ → ℕ → ℕ → Bytes → ℕ → List Block × DumpStatus
unfolding pad_archive
dump_data zero blocking room file size_left = ([], dump_status_ok)
dump_data (suc fuel) blocking room file size_left =
    let bufsize = if ltb size_left (room * block_size) then size_left else room * block_size in
    let count = min bufsize (length file) in
    let left = size_left - count in
    let more = dump_data fuel blocking blocking (drop bufsize file) left in
    if size_left == 0
    then ([], dump_status_ok)
    else in_front (area bufsize count file) (
        if count == bufsize
        then more
        else (pad_archive (suc left) (left - (bufsize - count)), dump_status_short))

abbrev pub with_data : List Block × DumpStatus → Dumped → Dumped × DumpStatus
with_data more (not_dumped front) = (not_dumped front, dump_status_fail)
with_data more dump_aborted = (dump_aborted, dump_status_fail)
with_data (blocks, status) (dumped front) = (dumped (front ++ blocks), status)
with_data (blocks, status) (dumped_with_error front) = (dumped_with_error (front ++ blocks), status)

-- No file is of the type that gives `CONTTYPE`.
unfoldable pub dump_regular_file :
    Options
    → (List Bytes → List Block)
    → (Bytes → List Block)
    → ℕ
    → ℕ
    → Stat
    → Bytes
    → Dumped × DumpStatus
unfolding dump_data finish_header
dump_regular_file o extended long_name blocking room st file =
    with_data (dump_data (suc st.st_size) blocking room file st.st_size)
      (finish_header extended [] [] (λ header. header) (start_header o long_name st))
