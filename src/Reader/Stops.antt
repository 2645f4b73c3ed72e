-- ===== src/Reader/Stops.antt =====
-- Where `read_header` stops at a header, the header is the current block.
use tar.Base.{ℕ, zero, suc, ◌≤◌, ◌≡◌, sym, ◌∙◌, Bool, Option, none, some, List, [], length}
use tar.Base.Text.{Bytes}
use tar.Stream.{Block, Input, find_next_block, pending}
use tar.Stream.Pending.{first, find_next_block-Finds}
use tar.Header.{ReadHeader}
use tar.Reader.{
  Next, Info, Xheader, unexpected_eof, too_large, xheader_out_of_fuel, xheader, Action, return,
  read_long, read_extended, read_global, no_memory, Round, stop, again, fatal_eof, xalloc_die,
  round_out_of_fuel, behind_extended, behind_global, classify, perform, round, behind_round,
  read_loop, read_header, read_header_auto,
}
use tar.Reader.Blocks.{length-first}
use tar.Reader.Flat.{ended, flat}

abbrev pub AtHeader : Round → Type 0
AtHeader (stop status (some header) info s) = 1 ≤ length s.current
AtHeader _ = Unit {0}

behind_extended-AtHeader :
    (x : Xheader) (next : Next) (info : Info) → AtHeader (behind_extended x next info)
unfolding behind_extended
behind_extended-AtHeader unexpected_eof next info = tt
behind_extended-AtHeader too_large next info = tt
behind_extended-AtHeader xheader_out_of_fuel next info = tt
behind_extended-AtHeader (xheader text s) next info = tt

behind_global-AtHeader :
    (header : Block) (x : Xheader) (next : Next) (info : Info)
    → AtHeader (behind_global read_header_auto header x next info)
unfolding behind_global
behind_global-AtHeader header unexpected_eof next info = tt
behind_global-AtHeader header too_large next info = tt
behind_global-AtHeader header xheader_out_of_fuel next info = tt
behind_global-AtHeader header (xheader text s) next info = tt

perform-AtHeader :
    (header : Block) (next : Next) (a : Action) (s : Input)
    → 1 ≤ length s.current
    → AtHeader (perform read_header_auto header next a s)
unfolding perform
perform-AtHeader header next (return status info) s h = h
perform-AtHeader header next (read_long is_name blocks info) s h =
    unfold tar.Reader.read_long_name in tt
perform-AtHeader header next (read_extended size info) s h = behind_extended-AtHeader _ next info
perform-AtHeader header next (read_global size info) s h = behind_global-AtHeader header _ next info
perform-AtHeader header next no_memory s h = tt

round-AtHeader :
    (strip : Bytes → Bytes × Bool) (found : Option Block) (next : Next) (info : Info) (s : Input)
    → found ≡ first s.current
    → AtHeader (round strip read_header_auto found next info s)
unfolding round
round-AtHeader strip none next info s e = tt
round-AtHeader strip (some header) next info s e =
    perform-AtHeader header next (classify strip read_header_auto header next info) s
      (length-first s.current [] header (sym e))

behind_round-AtHeader :
    (loop : Next → Info → Input → Round) (r : Round)
    → AtHeader r
    → ((next : Next) (info : Info) (s : Input) → AtHeader (loop next info s))
    → AtHeader (behind_round loop r)
unfolding behind_round
behind_round-AtHeader loop (stop status none info s) h k = tt
behind_round-AtHeader loop (stop status (some header) info s) h k = h
behind_round-AtHeader loop (again next info s) h k = k next info s
behind_round-AtHeader loop fatal_eof h k = tt
behind_round-AtHeader loop xalloc_die h k = tt
behind_round-AtHeader loop round_out_of_fuel h k = tt

read_loop-AtHeader :
    (fuel : ℕ) (strip : Bytes → Bytes × Bool) (next : Next) (info : Info) (s : Input)
    → AtHeader (read_loop fuel strip read_header_auto next info s)
unfolding read_loop
read_loop-AtHeader zero strip next info s = tt
read_loop-AtHeader (suc fuel) strip next info s =
    let f = find_next_block-Finds s in
    behind_round-AtHeader (read_loop fuel strip read_header_auto)
      (round strip read_header_auto (find_next_block s).0 next info (find_next_block s).1)
      (round-AtHeader strip (find_next_block s).0 next info (find_next_block s).1
        (f.found ∙ sym f.here))
      (read_loop-AtHeader fuel strip)

pub read_header-AtHeader :
    (fuel : ℕ) (strip : Bytes → Bytes × Bool) (info : Info) (s : Input)
    → AtHeader (read_header fuel strip read_header_auto info s)
unfolding read_header
read_header-AtHeader fuel strip info s = read_loop-AtHeader fuel strip _ info s

-- A stop of the code, from one of the reference.
pub record Stops (status : ReadHeader) (header : Block) (info : Info) (rest : List Block)
    (r : Round) : Type 0 where
  pub input : Input
  pub result : r ≡ stop status (some header) info input
  pub left : pending input ≡ rest
  pub here : 1 ≤ length input.current

pub flat-Stops :
    (status : ReadHeader) (header : Block) (info : Info) (rest : List Block) (r : Round)
    → AtHeader r
    → flat r ≡ ended status (some header) info rest
    → Stops status header info rest r
flat-Stops status header info rest (stop status' none info' s) h e = absurd (cc)
flat-Stops status header info rest (stop status' (some header') info' s) h e = record {
  input = s;
  result = cc;
  left = cc;
  here = h;
}
flat-Stops status header info rest (again next info' s) h e = absurd (cc)
flat-Stops status header info rest fatal_eof h e = absurd (cc)
flat-Stops status header info rest xalloc_die h e = absurd (cc)
flat-Stops status header info rest round_out_of_fuel h e = absurd (cc)
