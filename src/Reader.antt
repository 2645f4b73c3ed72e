-- ===== src/Reader.antt =====
-- `read_header` of src/list.c and `xheader_read` of src/xheader.c: the header of the next member, with
-- the blocks of long names and extended headers in front of it. What a message of `from_header`
-- says is modelled with Field, and left out here.
pub mod Fields
pub mod Blocks
pub mod Extended
pub mod Flat
pub mod Refines
pub mod Stops
pub mod Expected
pub mod Rest
pub mod Decode
pub mod Skip
mod Runs
use tar.Base.{
  ℕ, zero, suc, ◌+◌, ◌-◌, ◌*◌, ◌/◌, ◌^◌, min, Bool, true, false, not, ◌&&◌, ◌||◌, Option, none,
  some, List, [], ◌∷◌, ◌++◌, take, leb, ◌==◌, if◌then◌else◌,
}
use tar.Base.Text.{Bytes}
use tar.Stream.{Block, block_size, Input, find_next_block, set_next_block_after, available_space}
use tar.Header.{
  ReadHeader, header_success, header_success_extended, header_end_of_file, header_failure,
  tar_checksum,
}
use tar.Reader.Fields.{
  typeflag, size_of, is_special, is_long, is_extended, ignores_size, name_of, linkname_of, cstring,
}

-- `enum read_header_mode`
pub data ReadHeaderMode : Type 0 where
  read_header_auto read_header_x_raw read_header_x_global : ReadHeaderMode

abbrev pub is_raw : ReadHeaderMode → Bool
is_raw read_header_x_raw = true
is_raw _ = false

abbrev pub is_global : ReadHeaderMode → Bool
is_global read_header_x_global = true
is_global _ = false

-- The text behind a header of type `L` or `K`, up to its NUL, and the blocks that it takes.
pub record Long : Type 0 where
  pub text : Bytes
  pub blocks : ℕ

-- `next_long_name` and `next_long_link`.
pub record Next : Type 0 where
  pub long_name : Option Long
  pub long_link : Option Long

-- The fields of `struct tar_stat_info` that are set, the `recent_` variables, the buffers given to
-- `xheader_decode_global`, and how many times "Unexpected EOF" was reported.
pub record Info : Type 0 where
  pub st_size : ℕ
  pub skipped : Bool
  pub orig_file_name : Bytes
  pub file_name : Bytes
  pub had_trailing_slash : Bool
  pub link_name : Bytes
  pub xhdr : Option Bytes
  pub recent_long_name : Option Long
  pub recent_long_link : Option Long
  pub recent_global_header : Option Block
  pub globals : List Bytes
  pub unexpected_eofs : ℕ

-- What the loop over a long name's blocks has copied.
pub record Copied : Type 0 where
  pub text : Bytes
  pub eof : Bool
  pub input : Input

abbrev pub bytes_of : List Block → Bytes
bytes_of [] = []
bytes_of (b ∷ bs) = b ++ bytes_of bs

abbrev pub copied_behind : Option Block → Bytes → Copied → Input → Copied
copied_behind none front more s = record { text = []; eof = true; input = s }
copied_behind (some data_block) front more s = record more { text = front ++ more.text }

-- `for (size -= BLOCKSIZE; size > 0; size -= written)`, on fuel; a round takes a block at least.
unfoldable pub long_loop : ℕ → ℕ → Input → Copied
long_loop zero size s = record { text = []; eof = false; input = s }
long_loop (suc fuel) size s =
    let found = find_next_block s in
    let written = min (available_space found.1) size in
    let more = long_loop fuel (size - written) (set_next_block_after (written - 1) found.1) in
    if size == 0
    then record { text = []; eof = false; input = s }
    else copied_behind found.0 (take written (bytes_of found.1.current)) more found.1

-- `xheader_read` ends tar where the archive ends early, or memory does.
pub data Xheader : Type 0 where
  unexpected_eof too_large xheader_out_of_fuel : Xheader
  xheader : Bytes → Input → Xheader

abbrev pub prepend : Bytes → Xheader → Xheader
prepend front (xheader text s) = xheader (front ++ text) s
prepend front other = other

-- The `do` loop, on fuel, for the block `p` and what is left of `size`.
unfoldable pub xheader_loop : ℕ → ℕ → Option Block → Input → Xheader
xheader_loop zero size p s = xheader_out_of_fuel
xheader_loop (suc fuel) size none s = unexpected_eof
xheader_loop (suc fuel) size (some p) s =
    let found = find_next_block (set_next_block_after 0 s) in
    let len = min size block_size in
    let more = prepend (take len p) (xheader_loop fuel (size - len) found.0 found.1) in
    if size - len == 0 then xheader (take len p) found.1 else more

abbrev pub idx_limit : ℕ
idx_limit = 2 ^ 63

-- For a size that is not negative.
unfoldable pub xheader_read : Block → ℕ → Input → Xheader
unfolding xheader_loop
xheader_read p size s =
    if leb idx_limit (size + block_size + 1)
    then too_large
    else xheader_loop (size / block_size + 2) (size + block_size) (some p) s

-- What `read_header` does with a header before it reads on.
pub data Action : Type 0 where
  return : ReadHeader → Info → Action
  read_long : Bool → ℕ → Info → Action
  read_extended read_global : ℕ → Info → Action
  no_memory : Action

-- The blocks of a long name and its header: `size` rounded up, behind a block.
abbrev pub long_blocks : ℕ → ℕ
long_blocks size = (size + (2 * block_size - 1)) / block_size

-- The names, for the header of a member.
unfoldable pub member_names : (Bytes → Bytes × Bool) → Block → Next → Info → Info
member_names strip_trailing_slashes header next info =
    let name : Bytes = elim next.long_name [
      | none ↦ name_of header
      | some long ↦ cstring long.text
    ] in
    let stripped = strip_trailing_slashes name in
    record info {
      st_size = if ignores_size (typeflag header) then 0 else info.st_size;
      orig_file_name = name;
      file_name = stripped.0;
      had_trailing_slash = stripped.1;
      link_name = elim next.long_link [ none ↦ linkname_of header | some long ↦ cstring long.text ];
      recent_long_name = next.long_name;
      recent_long_link = next.long_link;
    }

-- A header of a special type.
unfoldable pub classify_special : ReadHeaderMode → Block → ℕ → Info → Action
classify_special mode header size info =
    if is_raw mode
    then return header_success_extended info
    else if is_long (typeflag header)
    then (if leb idx_limit (size + (2 * block_size - 1))
        then no_memory
        else read_long (typeflag header == b'L') (long_blocks size) info)
    else if is_extended (typeflag header)
    then read_extended size info
    else read_global size info

-- Behind a good checksum.
unfoldable pub classify_good :
    (Bytes → Bytes × Bool) → ReadHeaderMode → Block → Next → Info → Action
unfolding classify_special member_names
classify_good strip mode header next info =
    let size = size_of header in
    let sized = record info { st_size = size } in
    let seen = record sized { skipped = false } in
    if leb idx_limit size
    then return header_failure sized
    else if is_special (typeflag header)
    then classify_special mode header size seen
    else return header_success (member_names strip header next seen)

abbrev pub on_checksum : ReadHeader → Action → Info → Action
on_checksum header_success good info = good
on_checksum status good info = return status info

unfoldable pub classify : (Bytes → Bytes × Bool) → ReadHeaderMode → Block → Next → Info → Action
unfolding classify_good
classify strip mode header next info =
    on_checksum (tar_checksum header false false) (classify_good strip mode header next info) info

-- How a round of `read_header` ends.
pub data Round : Type 0 where
  stop : ReadHeader → Option Block → Info → Input → Round
  again : Next → Info → Input → Round
  fatal_eof xalloc_die round_out_of_fuel : Round

-- The long name's blocks are read, and the copy replaces one that was read before.
unfoldable pub read_long_name : Bool → ℕ → Next → Info → Input → Round
read_long_name is_name blocks next info s =
    let copied = long_loop blocks ((blocks - 1) * block_size) (set_next_block_after 0 s) in
    let long : Long = record { text = copied.text; blocks = blocks } in
    again
      (if is_name
        then record next { long_name = some long }
        else record next { long_link = some long })
      (record info {
        skipped = true;
        unexpected_eofs = info.unexpected_eofs + (if copied.eof then 1 else 0);
      })
      copied.input

unfoldable pub behind_extended : Xheader → Next → Info → Round
behind_extended unexpected_eof next info = fatal_eof
behind_extended too_large next info = xalloc_die
behind_extended xheader_out_of_fuel next info = round_out_of_fuel
behind_extended (xheader text s) next info =
    again next (record info { xhdr = some text; skipped = true }) s

unfoldable pub behind_global : ReadHeaderMode → Block → Xheader → Next → Info → Round
behind_global mode header unexpected_eof next info = fatal_eof
behind_global mode header too_large next info = xalloc_die
behind_global mode header xheader_out_of_fuel next info = round_out_of_fuel
behind_global mode header (xheader text s) next info =
    let info' = record info {
      recent_global_header = some header;
      globals = info.globals ++ (text ∷ []);
      skipped = true;
    } in
    if is_global mode
    then stop header_success_extended (some header) info' s
    else again next info' s

unfoldable pub perform : ReadHeaderMode → Block → Next → Action → Input → Round
unfolding read_long_name behind_extended behind_global xheader_read
perform mode header next (return status info) s = stop status (some header) info s
perform mode header next (read_long is_name blocks info) s =
    read_long_name is_name blocks next info s
perform mode header next (read_extended size info) s =
    behind_extended (xheader_read header size s) next info
perform mode header next (read_global size info) s =
    behind_global mode header (xheader_read header size s) next info
perform mode header next no_memory s = xalloc_die

-- One round of `while (1)`, for the block that is found.
unfoldable pub round :
    (Bytes → Bytes × Bool) → ReadHeaderMode → Option Block → Next → Info → Input → Round
unfolding classify perform
round strip mode none next info s = stop header_end_of_file none info s
round strip mode (some header) next info s =
    perform mode header next (classify strip mode header next info) s

-- What the loop does behind a round.
unfoldable pub behind_round : (Next → Info → Input → Round) → Round → Round
behind_round loop (stop status header info s) = stop status header info s
behind_round loop (again next info s) = loop next info s
behind_round loop fatal_eof = fatal_eof
behind_round loop xalloc_die = xalloc_die
behind_round loop round_out_of_fuel = round_out_of_fuel

unfoldable pub read_loop : ℕ → (Bytes → Bytes × Bool) → ReadHeaderMode → Next → Info → Input → Round
unfolding behind_round
read_loop zero strip mode next info s = round_out_of_fuel
read_loop (suc fuel) strip mode next info s =
    let found = find_next_block s in
    behind_round (read_loop fuel strip mode) (round strip mode found.0 next info found.1)

unfoldable pub read_header : ℕ → (Bytes → Bytes × Bool) → ReadHeaderMode → Info → Input → Round
unfolding read_loop
read_header fuel strip mode info s =
    read_loop fuel strip mode (record { long_name = none; long_link = none }) info s
