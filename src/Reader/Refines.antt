-- ===== src/Reader/Refines.antt =====
-- `read_header` against its reference on one list of blocks.
use tar.Base.{
  ℕ, zero, suc, ◌+◌, ◌-◌, ◌/◌, ◌<◌, ◌≡◌, ◌≢◌, refl, sym, ◌∙◌, ap, arith, Bool, false, none, some,
  List, [], ◌∷◌, length, drop, All, leb, lt→ltb, ltb, inl, inr, Bool-cases,
}
use tar.Base.Slices.{All-drop_of}
use tar.Base.Text.{Bytes}
use tar.Stream.{Block, block_size, Input, find_next_block, set_next_block_after, pending}
use tar.Header.{ReadHeader}
use tar.Stream.Pending.{first, find_next_block-Finds, pending-set_next_block_after}
use tar.Reader.{
  ReadHeaderMode, Next, Info, idx_limit, Xheader, xheader_read, Action, return, read_long,
  read_extended, read_global, no_memory, classify, read_long_name, behind_extended, behind_global,
  perform, round, behind_round, Round, stop, again, fatal_eof, xalloc_die, round_out_of_fuel,
  read_loop, read_header,
}
use tar.Reader.Blocks.{IsBlock, length-first, long_loop-Reads}
use tar.Reader.Extended.{blocks_for, ReadsXheader, xheader_loop-Reads}
use tar.Reader.Flat.{
  FlatRound, eof_error, memory_error, flat, flat_long, flat_xheader, use_extended, use_global,
  flat_perform, flat_round, flat_behind, flat_loop, Shrinks, flat_round-Shrinks, flat_loop_ends,
}

-- The input stands at the first of the blocks `bs`.
pub record StandsAt (s : Input) (bs : List Block) : Type 0 where
  pub blocks : All IsBlock bs
  pub same : pending s ≡ bs
  pub here : first s.current ≡ first bs

flat-read_long_name :
    (is_name : Bool) (k : ℕ) (next : Next) (info : Info) (s : Input) (b : Block) (bs : List Block)
    → StandsAt s (b ∷ bs)
    → flat (read_long_name is_name k next info s) ≡ flat_long is_name k next info (b ∷ bs)
unfolding read_long_name flat_long
flat-read_long_name is_name k next info s b bs at =
    let s1 = set_next_block_after 0 s in
    let left : pending s1 ≡ bs =
      pending-set_next_block_after 0 s (length-first s.current bs b at.here)
      ∙ ap (drop 1) at.same in
    let r = long_loop-Reads k (k - 1) s1 (omega arith) (rw left at.blocks.1) in
    rw r.text (rw r.eof (rw r.rest (rw left refl)))

-- `xheader_read`, and what is done behind it: `finish` is the code's, `use_text` the reference's.
module _ (finish : Xheader → Round) (use_text : Bytes → List Block → FlatRound)
    (no_memory_left : flat (finish Xheader.too_large) ≡ memory_error)
    (no_blocks_left : flat (finish Xheader.unexpected_eof) ≡ eof_error)
    (agree : (text : Bytes) (s : Input)
      → flat (finish (Xheader.xheader text s)) ≡ use_text text (pending s)) where
  flat-read :
      (size : ℕ) (bs : List Block) (x : Xheader)
      → leb idx_limit (size + block_size + 1) ≡ false
      → ReadsXheader (size + block_size) bs x
      → flat (finish x) ≡ flat_xheader size bs use_text
  unfolding flat_xheader
  flat-read size bs x room (inl (short, e)) = rw e (
      no_blocks_left
      ∙ rw room (rw (lt→ltb (length bs) (blocks_for (size + block_size)) short) refl))
  flat-read size bs x room (inr (enough, (s, e, rest))) =
      let long_enough : ltb (length bs) (blocks_for (size + block_size)) ≡ false = ground arith in
      rw e (agree _ s ∙ rw room (rw long_enough (rw rest refl)))

  flat-xheader_read :
      (size : ℕ) (s : Input) (b : Block) (bs : List Block)
      → StandsAt s (b ∷ bs)
      → flat (finish (xheader_read b size s)) ≡ flat_xheader size (b ∷ bs) use_text
  unfolding xheader_read
  flat-xheader_read size s b bs at = elim (Bool-cases (leb idx_limit (size + block_size + 1))) [
    | inl large ↦ rw large (no_memory_left ∙ unfold flat_xheader in rw large refl)
    | inr room ↦ rw room (
        flat-read size (b ∷ bs) _ room (
          xheader_loop-Reads (size / block_size + 2) (size + block_size) s (some b) (b ∷ bs)
            (omega arith) (omega arith) at.blocks at.same refl at.here))
  ]

flat-behind_global :
    (mode : ReadHeaderMode) (header : Block) (next : Next) (info : Info) (text : Bytes) (s : Input)
    → flat (behind_global mode header (Xheader.xheader text s) next info)
      ≡ use_global mode header next info text (pending s)
unfolding behind_global
flat-behind_global mode header next info text s = ground arith

flat-perform :
    (mode : ReadHeaderMode) (next : Next) (a : Action) (s : Input) (b : Block) (bs : List Block)
    → StandsAt s (b ∷ bs)
    → flat (perform mode b next a s) ≡ flat_perform mode b next a (b ∷ bs)
unfolding perform flat_perform
flat-perform mode next (return status info) s b bs at =
    ap (FlatRound.ended status (some b) info) at.same
flat-perform mode next (read_long is_name k info) s b bs at =
    flat-read_long_name is_name k next info s b bs at
flat-perform mode next (read_extended size info) s b bs at =
    flat-xheader_read (λ x. behind_extended x next info) (use_extended next info)
      (unfold behind_extended in refl) (unfold behind_extended in refl)
      (λ text s'. unfold behind_extended in refl) size s b bs at
flat-perform mode next (read_global size info) s b bs at =
    flat-xheader_read (λ x. behind_global mode b x next info) (use_global mode b next info)
      (unfold behind_global in refl) (unfold behind_global in refl)
      (flat-behind_global mode b next info) size s b bs at
flat-perform mode next no_memory s b bs at = refl

flat-round :
    (strip : Bytes → Bytes × Bool) (mode : ReadHeaderMode) (next : Next) (info : Info) (s : Input)
    (bs : List Block)
    → All IsBlock bs
    → pending s ≡ bs
    → flat (round strip mode (find_next_block s).0 next info (find_next_block s).1)
      ≡ flat_round strip mode next info bs
unfolding round flat_round
flat-round strip mode next info s [] blocks e =
    let f = find_next_block-Finds s in
    rw (f.found ∙ ap first e)
      (ap (FlatRound.ended ReadHeader.header_end_of_file none info) (f.kept ∙ e))
flat-round strip mode next info s (b ∷ bs) blocks e =
    let f = find_next_block-Finds s in
    rw (f.found ∙ ap first e) (
      flat-perform mode next (classify strip mode b next info) (find_next_block s).1 b bs
        (record { blocks = blocks; same = f.kept ∙ e; here = f.here ∙ ap first e }))

flat-behind_round :
    (loop : Next → Info → Input → Round) (flat_next : Next → Info → List Block → FlatRound)
    (bs : List Block) (r : Round)
    → All IsBlock bs
    → Shrinks bs (flat r)
    → ((next : Next) (info : Info) (s : Input)
        → All IsBlock (pending s)
        → flat (loop next info s) ≡ flat_next next info (pending s))
    → flat (behind_round loop r) ≡ flat_behind flat_next (flat r)
unfolding behind_round flat_behind
flat-behind_round loop flat_next bs (stop status header info s) blocks sh h = refl
flat-behind_round loop flat_next bs (again next info s) blocks (k, rest) h =
    h next info s (rw rest (All-drop_of IsBlock (suc k) bs blocks))
flat-behind_round loop flat_next bs fatal_eof blocks sh h = refl
flat-behind_round loop flat_next bs xalloc_die blocks sh h = refl
flat-behind_round loop flat_next bs round_out_of_fuel blocks sh h = refl

flat-read_loop :
    (fuel : ℕ) (strip : Bytes → Bytes × Bool) (mode : ReadHeaderMode) (next : Next) (info : Info)
    (s : Input)
    → All IsBlock (pending s)
    → flat (read_loop fuel strip mode next info s) ≡ flat_loop fuel strip mode next info (pending s)
unfolding read_loop flat_loop
flat-read_loop zero strip mode next info s blocks = refl
flat-read_loop (suc fuel) strip mode next info s blocks =
    let found = find_next_block s in
    let r = round strip mode found.0 next info found.1 in
    let same = flat-round strip mode next info s (pending s) blocks refl in
    flat-behind_round (read_loop fuel strip mode) (flat_loop fuel strip mode) (pending s) r blocks
      (rw same (flat_round-Shrinks strip mode next info (pending s)))
      (flat-read_loop fuel strip mode)
    ∙ ap (flat_behind (flat_loop fuel strip mode)) same

abbrev pub no_next : Next
no_next = record { long_name = none; long_link = none }

-- `read_header` does what the reference does on the blocks that are still to come, however they are
-- spread over records: the same status, header, file information and blocks behind.
pub flat-read_header :
    (fuel : ℕ) (strip : Bytes → Bytes × Bool) (mode : ReadHeaderMode) (info : Info) (s : Input)
    → All IsBlock (pending s)
    → flat (read_header fuel strip mode info s) ≡ flat_loop fuel strip mode no_next info (pending s)
unfolding read_header
flat-read_header fuel strip mode info s blocks =
    flat-read_loop fuel strip mode no_next info s blocks

-- `read_header` ends: with a round for every block to come and one more it never runs out of fuel.
pub read_header_ends :
    (fuel : ℕ) (strip : Bytes → Bytes × Bool) (mode : ReadHeaderMode) (info : Info) (s : Input)
    → All IsBlock (pending s)
    → length (pending s) < fuel
    → read_header fuel strip mode info s ≢ round_out_of_fuel
read_header_ends fuel strip mode info s blocks h e =
    flat_loop_ends fuel strip mode no_next info (pending s) h
      (sym (flat-read_header fuel strip mode info s blocks) ∙ ap flat e)
