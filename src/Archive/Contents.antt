-- ===== src/Archive/Contents.antt =====
-- Archives as lists of members, and what it means that they are listed.
use tar.Base.{
  ℕ, ◌+◌, ◌^◌, ◌≤◌, ◌<◌, ◌≡◌, true, false, Option, some, List, [], ◌∷◌, ◌++◌, length, replicate,
}
use tar.Base.Text.{Bytes}
use tar.Stream.{Block, block_size, Input, pending}
use tar.Field.{Format}
use tar.Pax.Keyword.{no_nul}
use tar.Reader.{Info}
use tar.Reader.Fields.{typeflag}
use tar.Reader.Expected.{Announced}
use tar.Create.{written, write_header_name}
use tar.Create.LongRead.{BeginsMember}
use tar.Create.NameFields.{KeepsName}
use tar.Create.RoundTrip.{name_link}
use tar.Archive.{Handler, Event, visited, Reading, finished}

abbrev pub zero_block : Block
zero_block = replicate block_size 0

-- A member: its name, the blocks in front of its header, the header and the blocks behind.
pub record Part : Type 0 where
  pub name : Bytes
  pub front : List Block
  pub header : Block
  pub data_blocks : List Block

abbrev pub blocks_of : Part → List Block → List Block
blocks_of p rest = p.front ++ (p.header ∷ (p.data_blocks ++ rest))

-- The members, two zero blocks, and what follows.
abbrev pub archive_of : List Part → List Block → List Block
archive_of [] rest = zero_block ∷ zero_block ∷ rest
archive_of (p ∷ ps) rest = blocks_of p (archive_of ps rest)

-- The member was begun by `write_header_name`, with the name's owner `owner` for a long name.
pub record IsWritten (f : Format) (nobody : ℕ) (owner : Option (Bytes × Bytes)) (blocking : ℕ)
    (p : Part) : Type 0 where
  pub room : ℕ
  pub some_room : 1 ≤ room
  pub no_nul_inside : no_nul p.name ≡ true
  pub short : length p.name + 1 < 8 ^ 11
  pub first_header : Block
  pub written_so :
      write_header_name f (name_link f nobody owner blocking room) p.name
      ≡ written p.front false first_header
  pub keeps : KeepsName first_header p.header
  pub begins : BeginsMember p.header

-- Every member is taken, and its blocks are used up.
pub record TakesAll {S : Type 0} (h : Handler S) : Type 0 where
  pub stops_at_zeros : h.ignore_zeros_option ≡ false
  pub selects : (t : S) (header : Block) (info : Info) → (h.selected t header info).0 ≡ true
  pub transforms : (type : ℕ) (info : Info) → (h.transform_stat_info type info).0 ≡ true
  pub wants_more : (t : S) (info : Info) → h.all_names_found t info ≡ false

-- For what is said of the member `p`, the caller's function uses its blocks up.
abbrev pub UsesUp : {S : Type 0} → Handler S → Part → Type 0
UsesUp {S} h p =
    (t : S) (found : Info) (s : Input) (rest : List Block)
    → Announced h.strip_trailing_slashes p.header found
    → 1 ≤ length s.current
    → pending s ≡ p.header ∷ (p.data_blocks ++ rest)
    → (t' : S) × (s' : Input) × (h.do_something t p.header
          (h.transform_stat_info (typeflag p.header) (h.decode_header p.header found)).1 s
        ≡ some (t', s'))
      × (pending s' ≡ rest)

-- The calls of the caller's function: for each member's header, with what `decode_header` made of
-- the information that has the member's name.
abbrev pub Visits : {S : Type 0} → Handler S → List Part → List Event → Type 0
Visits h [] [] = Unit {0}
Visits h (p ∷ ps) (visited header info ∷ es) =
    (header ≡ p.header)
    × ((raw : Info) × (raw.orig_file_name ≡ p.name)
        × (info ≡ (h.transform_stat_info (typeflag header) (h.decode_header header raw)).1))
    × Visits h ps es
Visits h _ _ = ⊥

-- The reading ends at the second zero block.
pub record Lists {S : Type 0} (h : Handler S) (ps : List Part) (rest : List Block) (r : Reading S)
    : Type 0 where
  pub events : List Event
  pub state : S
  pub input : Input
  pub result : r ≡ finished events state input
  pub visits : Visits h ps events
  pub left : pending input ≡ zero_block ∷ rest
