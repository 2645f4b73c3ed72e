-- ===== src/Header.antt =====
-- The checksum of a header block: `simple_finish_header` of src/create.c writes it and
-- `tar_checksum` of src/list.c tests it. A block is the list of its bytes; the field `chksum` is
-- the eight bytes from 148 on (`struct posix_header`, src/tar.h).
pub mod Sums
pub mod Bytes
pub mod Checksum
mod Runs
use tar.Base.{
  ℕ, ◌+◌, ◌-◌, ◌*◌, ◌^◌, Bool, true, false, not, ◌&&◌, List, [], ◌∷◌, ◌++◌, take, drop, replicate,
  leb, ◌==◌, if◌then◌else◌,
}
use tar.Field.Encode.{to_octal}
use tar.Field.Decode.{Decoded, from_header}

abbrev pub blocksize : ℕ
blocksize = 512

-- `enum read_header`
pub data ReadHeader : Type 0 where
  header_still_unread header_success header_success_extended : ReadHeader
  header_zero_block header_end_of_file header_failure : ReadHeader

abbrev pub chksum_offset : ℕ
chksum_offset = 148

abbrev pub chksum_size : ℕ
chksum_size = 8

abbrev pub chksum : List ℕ → List ℕ
chksum header = take chksum_size (drop chksum_offset header)

-- The block with other bytes in the field.
abbrev pub set_chksum : List ℕ → List ℕ → List ℕ
set_chksum header field =
    take chksum_offset header ++ (field ++ drop (chksum_offset + chksum_size) header)

unfoldable pub sum_bytes : List ℕ → ℕ
sum_bytes [] = 0
sum_bytes (c ∷ cs) = c + sum_bytes cs

-- The sum of the bytes as signed characters is this many times 256 below `sum_bytes`.
unfoldable pub high_bytes : List ℕ → ℕ
high_bytes [] = 0
high_bytes (c ∷ cs) = (if leb 128 c then 1 else 0) + high_bytes cs

unfoldable pub simple_finish_header : List ℕ → List ℕ
simple_finish_header header =
    let sum = sum_bytes (set_chksum header (replicate chksum_size b' ')) in
    set_chksum header (to_octal sum 6 ++ (0 ∷ b' ' ∷ []))

abbrev blanks_sum : ℕ
blanks_sum = b' ' * chksum_size

unfoldable pub tar_checksum : List ℕ → Bool → Bool → ReadHeader
tar_checksum header silent warned =
    let unsigned_sum = sum_bytes header - sum_bytes (chksum header) + blanks_sum in
    let high = high_bytes header - high_bytes (chksum header) in
    let recorded = (from_header (chksum header) false 0 (2 ^ 31 - 1) true silent warned).value in
    if sum_bytes header == 0
    then header_zero_block
    else if leb (2 ^ 63) recorded
    then header_failure
    else if not (unsigned_sum == recorded) && not (unsigned_sum == recorded + 256 * high)
    then header_failure
    else header_success
