-- ===== src/Reader/Skip.antt =====
-- `skim_member` and `skim_file` of src/list.c. What skips a sparse member is a parameter, and what
-- `seek_archive` of src/buffer.c does; the bookkeeping of volumes is left out.
pub mod Skims
use tar.Base.{
  ℕ, zero, suc, ◌-◌, ◌*◌, Bool, true, false, not, ◌&&◌, ◌||◌, Option, none, some, ◌==◌,
  if◌then◌else◌,
}
use tar.Stream.{Block, block_size, Input, find_next_block, set_next_block_after}
use tar.Reader.{Info}
use tar.Reader.Fields.{typeflag}

-- How the skipping ends.
pub data Skim : Type 0 where
  skimmed : Input → Skim
  skim_unexpected_eof skim_out_of_fuel : Skim

-- The loop on `size`; on fuel.
unfoldable pub skim_loop : ℕ → ℕ → Input → Skim
skim_loop zero size s = skim_out_of_fuel
skim_loop (suc fuel) size s =
    let found = find_next_block s in
    let rest = skim_loop fuel (size - block_size) (set_next_block_after 0 found.1) in
    if size == 0 then skimmed s else elim found.0 [ none ↦ skim_unexpected_eof | some x ↦ rest ]

-- What `seek_archive` did: it failed, or went on behind so many blocks.
pub data Seek : Type 0 where
  seek_failed : Seek
  sought : ℕ → Input → Seek

-- Behind the call of `seek_archive`: `seekable_archive`, and how the skipping ends.
unfoldable pub behind_seek : ℕ → Input → Seek → Bool × Skim
unfolding skim_loop
behind_seek size s seek_failed = (false, skim_loop (suc size) size s)
behind_seek size s (sought nblk s') =
    let left = size - nblk * block_size in (true, skim_loop (suc left) left s')

unfoldable pub skim_file : (ℕ → Input → Seek) → Bool → Bool → ℕ → Input → Bool × Skim
unfolding skim_loop behind_seek
skim_file seek_archive seekable_archive must_copy size s =
    if seekable_archive && not must_copy
    then behind_seek size s (seek_archive size s)
    else (seekable_archive, skim_loop (suc size) size s)

-- `AREGTYPE`, `REGTYPE`, `CONTTYPE` and `DIRTYPE`
unfoldable pub member_is_dir : Bool → ℕ → Bool
member_is_dir had_trailing_slash t =
    if t == 0 || t == b'0' || t == b'7' then had_trailing_slash else t == b'5'

-- The member's information, `seekable_archive`, and what is left of the archive.
unfoldable pub skim_member :
    (Info → Input → Bool × Skim)
    → (ℕ → Input → Seek)
    → Bool
    → Bool
    → Bool
    → Block
    → Info
    → Input
    → Info × (Bool × Skim)
unfolding skim_file member_is_dir
skim_member sparse_skim_file seek_archive is_sparse seekable_archive must_copy header info s =
    let behind = set_next_block_after 0 s in
    if info.skipped then (info, (seekable_archive, skimmed s)) else (
      record info { skipped = true },
      if is_sparse
          then sparse_skim_file info behind
          else if member_is_dir info.had_trailing_slash (typeflag header)
          then (seekable_archive, skimmed behind)
          else skim_file seek_archive seekable_archive must_copy info.st_size behind,
    )
