-- ===== src/Stream.antt =====
-- The archive that is read, as `find_next_block`, `set_next_block_after` and
-- `available_space_after` of src/buffer.c present it: blocks that come in records. A record is what
-- `flush_archive` leaves between `current_block` and `record_end`.
pub mod Pending
use tar.Base.{
  ℕ, ◌+◌, ◌-◌, ◌*◌, ◌/◌, Bool, true, false, Option, none, some, List, [], ◌∷◌, ◌++◌, length, drop,
}

abbrev pub Block : Type 0
Block = List ℕ

abbrev pub block_size : ℕ
block_size = 512

-- `current` is the blocks from `current_block` to `record_end`, and `records` what the calls of
-- `flush_archive` to come will read.
pub record Input : Type 0 where
  pub current : List Block
  pub records : List (List Block)
  pub hit_eof : Bool

-- Behind the end of a record: `flush_archive`, and the test for an empty record.
unfoldable pub next_record : List (List Block) → Option Block × Input
next_record [] = (none, record { current = []; records = []; hit_eof = true })
next_record ([] ∷ rs) = (none, record { current = []; records = rs; hit_eof = true })
next_record ((b ∷ bs) ∷ rs) = (some b, record { current = b ∷ bs; records = rs; hit_eof = false })

unfoldable pub find_block : List Block → List (List Block) → Bool → Option Block × Input
unfolding next_record
find_block (b ∷ bs) rs eof = (some b, record { current = b ∷ bs; records = rs; hit_eof = eof })
find_block [] rs true = (none, record { current = []; records = rs; hit_eof = true })
find_block [] rs false = next_record rs

unfoldable pub find_next_block : Input → Option Block × Input
unfolding find_block
find_next_block s = find_block s.current s.records s.hit_eof

-- `set_next_block_after` for a pointer `offset` bytes behind the current block. The `abort` for a
-- block behind `record_end` is left out; the lemma on what is left in Pending asks that the call
-- stays in the record.
unfoldable pub set_next_block_after : ℕ → Input → Input
set_next_block_after offset s = record s { current = drop (offset / block_size + 1) s.current }

-- From the current block to the end of the record, in bytes.
unfoldable pub available_space : Input → ℕ
available_space s = length s.current * block_size

-- What is still to come: the blocks up to the first empty record.
abbrev pub until_empty : List (List Block) → List Block
until_empty [] = []
until_empty ([] ∷ rs) = []
until_empty ((b ∷ bs) ∷ rs) = (b ∷ bs) ++ until_empty rs

abbrev pub to_come : Bool → List (List Block) → List Block
to_come true rs = []
to_come false rs = until_empty rs

abbrev pub pending : Input → List Block
pending s = s.current ++ to_come s.hit_eof s.records
