-- ===== src/Archive/Ends.antt =====
-- `read_and` ends, if the functions that it calls use up blocks.
use tar.Base.{
  ℕ, zero, suc, ◌≤◌, ◌<◌, ◌≡◌, ◌≢◌, refl, ap, subst, arith, Bool, true, false, not, ◌&&◌, Option,
  none, some, List, length, length-drop, drop, All, both,
}
use tar.Base.Slices.{All-drop_of}
use tar.Stream.{Block, Input, set_next_block_after, pending}
use tar.Stream.Pending.{pending-set_next_block_after}
use tar.Header.{
  ReadHeader, header_still_unread, header_success, header_success_extended, header_zero_block,
  header_end_of_file, header_failure,
}
use tar.Reader.{Info, Round, stop, again, fatal_eof, xalloc_die, round_out_of_fuel}
use tar.Reader.Fields.{typeflag}
use tar.Reader.Blocks.{IsBlock}
use tar.Reader.Expected.{ExpectedRound, Announced, read_header-Expected}
use tar.Reader.Stops.{AtHeader, read_header-AtHeader}
use tar.Reader.Rest.{Within, read_header-Within}
use tar.Archive.{
  Handler, Event, destroyed, Turn, go_on, leave, abort, fatal, no_memory, out_of_fuel, do_or_skip,
  behind_visit, behind_skip, on_success, read, second_zero, on_zero_block, on_failure, turn,
  Reading, finished, aborted, ended_by_error, ran_out_of_fuel, is_volume, noted, after_turn,
  members_loop, read_and,
}

-- The blocks of `s'` are the last ones of `s`, and fewer.
pub record Shorter (s s' : Input) : Type 0 where
  pub used : ℕ
  pub left : pending s' ≡ drop (suc used) (pending s)
  pub some_left : 1 ≤ length (pending s)

-- What is called for a member uses up blocks, or ends tar.
abbrev pub VisitUses : {S : Type 0} → Input → Option (S × Input) → Type 0
VisitUses s none = Unit {0}
VisitUses s (some (t, s')) = Shorter s s'

abbrev pub SkipUses : Input → Option Input → Type 0
SkipUses s none = Unit {0}
SkipUses s (some s') = Shorter s s'

-- What is called for a member, with what is said of it, where its header is the current block.
pub record UsesBlocks {S : Type 0} (h : Handler S) : Type 0 where
  pub done :
      (t : S) (header : Block) (found : Info) (s : Input)
      → Announced h.strip_trailing_slashes header found
      → 1 ≤ length s.current
      → VisitUses s (
          h.do_something t header
            (h.transform_stat_info (typeflag header) (h.decode_header header found)).1
            s)
  pub skips :
      (header : Block) (found : Info) (s : Input)
      → Announced h.strip_trailing_slashes header found
      → 1 ≤ length s.current
      → SkipUses s (h.skip_member header (h.decode_header header found) s)
  pub skips_transformed :
      (header : Block) (found : Info) (s : Input)
      → Announced h.strip_trailing_slashes header found
      → 1 ≤ length s.current
      → SkipUses s (
          h.skip_member header
            (h.transform_stat_info (typeflag header) (h.decode_header header found)).1
            s)

next-Shorter :
    (s : Input)
    → 1 ≤ length s.current
    → 1 ≤ length (pending s)
    → Shorter s (set_next_block_after 0 s)
next-Shorter s here some_left = record {
  used = 0;
  left = pending-set_next_block_after 0 s here;
  some_left = some_left;
}

Shorter-blocks : (s s' : Input) → Shorter s s' → All IsBlock (pending s) → All IsBlock (pending s')
Shorter-blocks s s' next blocks =
    rw next.left (All-drop_of IsBlock (suc next.used) (pending s) blocks)

module _ {S : Type 0} where
  abbrev GoesOn : Input → Turn S → Type 0
  GoesOn s (go_on status events t info s') = Shorter s s'
  GoesOn s out_of_fuel = ⊥
  GoesOn s _ = Unit {0}

  behind_visit-GoesOn :
      (event : Event) (info : Info) (s : Input) (done : Option (S × Input))
      → VisitUses s done
      → GoesOn s (behind_visit event info done)
  behind_visit-GoesOn event info s none uses = tt
  behind_visit-GoesOn event info s (some (t, s')) uses = uses

  behind_skip-GoesOn :
      (event : Event) (t : S) (info : Info) (s : Input) (done : Option Input)
      → SkipUses s done
      → GoesOn s (behind_skip event t info done)
  behind_skip-GoesOn event t info s none uses = tt
  behind_skip-GoesOn event t info s (some s') uses = uses

  do_or_skip-GoesOn :
      (h : Handler S) (header : Block) (t : S) (x : Bool × Info) (s : Input)
      → VisitUses s (h.do_something t header x.1 s)
      → SkipUses s (h.skip_member header x.1 s)
      → GoesOn s (do_or_skip h header t x s)
  do_or_skip-GoesOn h header t (true, info) s visit skip = behind_visit-GoesOn _ info s _ visit
  do_or_skip-GoesOn h header t (false, info) s visit skip = behind_skip-GoesOn _ t info s _ skip

  on_success-GoesOn :
      (h : Handler S) (header : Block) (t : S) (info : Info) (s : Input)
      → UsesBlocks h
      → Announced h.strip_trailing_slashes header info
      → 1 ≤ length s.current
      → GoesOn s (on_success h header t info s)
  unfolding on_success
  on_success-GoesOn h header t info s uses announced here =
      let decoded = h.decode_header header info in
      let choice = h.selected t header decoded in
      both (GoesOn s) (not choice.0 && not (is_volume (typeflag header)))
        (behind_skip-GoesOn _ choice.1 decoded s _ (uses.skips header info s announced here))
        (do_or_skip-GoesOn h header choice.1 (h.transform_stat_info (typeflag header) decoded) s
          (uses.done choice.1 header info s announced here)
          (uses.skips_transformed header info s announced here))

  second_zero-GoesOn :
      (t : S) (s : Input) (bs : List Block) (r : Round) → Within bs r → GoesOn s (second_zero t r)
  unfolding second_zero
  second_zero-GoesOn t s bs (stop header_zero_block header info s') w = tt
  second_zero-GoesOn t s bs (stop header_still_unread header info s') w = tt
  second_zero-GoesOn t s bs (stop header_success header info s') w = tt
  second_zero-GoesOn t s bs (stop header_success_extended header info s') w = tt
  second_zero-GoesOn t s bs (stop header_end_of_file header info s') w = tt
  second_zero-GoesOn t s bs (stop header_failure header info s') w = tt
  second_zero-GoesOn t s bs (again next info s') w = w
  second_zero-GoesOn t s bs fatal_eof w = tt
  second_zero-GoesOn t s bs xalloc_die w = tt
  second_zero-GoesOn t s bs round_out_of_fuel w = w

  read-Within :
      (h : Handler S) (info : Info) (s : Input)
      → All IsBlock (pending s)
      → Within (pending s) (read h info s)
  read-Within h info s blocks =
      read_header-Within (suc (length (pending s))) h.strip_trailing_slashes info s blocks
        (omega arith)

  on_zero_block-GoesOn :
      (h : Handler S) (status : ReadHeader) (t : S) (info : Info) (s : Input)
      → Shorter s (set_next_block_after 0 s)
      → All IsBlock (pending (set_next_block_after 0 s))
      → GoesOn s (on_zero_block h status t info s)
  unfolding on_zero_block
  on_zero_block-GoesOn h status t info s next blocks = both (GoesOn s) h.ignore_zeros_option next (
      second_zero-GoesOn t s (pending (set_next_block_after 0 s))
        (read h info (set_next_block_after 0 s))
        (read-Within h info (set_next_block_after 0 s) blocks))

  on_failure-GoesOn :
      (status : ReadHeader) (t : S) (info : Info) (s : Input)
      → Shorter s (set_next_block_after 0 s)
      → GoesOn s (on_failure status t info s)
  unfolding on_failure
  on_failure-GoesOn header_still_unread t info s next = next
  on_failure-GoesOn header_zero_block t info s next = next
  on_failure-GoesOn header_success t info s next = next
  on_failure-GoesOn header_end_of_file t info s next = next
  on_failure-GoesOn header_failure t info s next = next
  on_failure-GoesOn header_success_extended t info s next = tt

  -- A turn that goes on leaves fewer blocks, and does not run out of fuel.
  abbrev LeavesLess : List Block → Turn S → Type 0
  LeavesLess bs (go_on status events t info s) =
      (length (pending s) < length bs) × All IsBlock (pending s)
  LeavesLess bs out_of_fuel = ⊥
  LeavesLess bs _ = Unit {0}

  less :
      (bs : List Block) (k : ℕ) (s : Input) (x : Turn S)
      → pending s ≡ drop k bs
      → All IsBlock (pending s)
      → GoesOn s x
      → LeavesLess bs x
  less bs k s (go_on status events t info s') e blocks next = (
    omega (
      arith,
      ap length e,
      ap length next.left,
      length-drop k bs,
      length-drop (suc next.used) (pending s),
      next.some_left,
    ),
    Shorter-blocks s s' next blocks,
  )
  less bs k s (leave events t s') e blocks h = tt
  less bs k s abort e blocks h = tt
  less bs k s (fatal events) e blocks h = tt
  less bs k s no_memory e blocks h = tt
  less bs k s out_of_fuel e blocks h = h

  turn-LeavesLess :
      (h : Handler S) (status : ReadHeader) (t : S) (bs : List Block) (r : Round)
      → UsesBlocks h
      → All IsBlock bs
      → ExpectedRound h.strip_trailing_slashes r
      → AtHeader r
      → Within bs r
      → LeavesLess bs (turn h status t r)
  unfolding turn
  turn-LeavesLess h status t bs (stop header_success (some header) info s) uses blocks x here
        (k, e, some_left) =
      let blocks' : All IsBlock (pending s) = rw e (All-drop_of IsBlock k bs blocks) in
      less bs k s (on_success h header t info s) e blocks'
        (on_success-GoesOn h header t info s uses (x.1 refl) here)
  turn-LeavesLess h status t bs (stop header_success none info s) uses blocks x here w = tt
  turn-LeavesLess h status t bs (stop header_zero_block (some header) info s) uses blocks x here
        (k, e, some_left) =
      let blocks' : All IsBlock (pending s) = rw e (All-drop_of IsBlock k bs blocks) in
      let next = next-Shorter s here some_left in
      less bs k s (on_zero_block h status t info s) e blocks' (
        on_zero_block-GoesOn h status t info s next
          (Shorter-blocks s (set_next_block_after 0 s) next blocks'))
  turn-LeavesLess h status t bs (stop header_zero_block none info s) uses blocks x here w =
      absurd (cc)
  turn-LeavesLess h status t bs (stop header_end_of_file header info s) uses blocks x here w = tt
  turn-LeavesLess h status t bs (stop header_failure (some header) info s) uses blocks x here
        (k, e, some_left) =
      less bs k s (on_failure status t info s) e (rw e (All-drop_of IsBlock k bs blocks))
        (on_failure-GoesOn status t info s (next-Shorter s here some_left))
  turn-LeavesLess h status t bs (stop header_failure none info s) uses blocks x here w = absurd (cc)
  turn-LeavesLess h status t bs (stop header_still_unread header info s) uses blocks x here w = tt
  turn-LeavesLess h status t bs (stop header_success_extended header info s) uses blocks x here w =
      tt
  turn-LeavesLess h status t bs (again next info s) uses blocks x here w = w
  turn-LeavesLess h status t bs fatal_eof uses blocks x here w = tt
  turn-LeavesLess h status t bs xalloc_die uses blocks x here w = tt
  turn-LeavesLess h status t bs round_out_of_fuel uses blocks x here w = w

  abbrev Ends : Reading S → Type 0
  Ends (ran_out_of_fuel events) = ⊥
  Ends _ = Unit {0}

  noted-Ends : (events : List Event) (r : Reading S) → Ends r → Ends (noted events r)
  noted-Ends events (finished later t s) k = tt
  noted-Ends events (aborted later) k = tt
  noted-Ends events (ended_by_error later) k = tt
  noted-Ends events (ran_out_of_fuel later) k = k

  after_turn-Ends :
      (loop : ReadHeader → S → Info → Input → Reading S) (found : S → Info → Bool) (bs : List Block)
      (x : Turn S)
      → LeavesLess bs x
      → ((status : ReadHeader) (t : S) (info : Info) (s : Input)
          → length (pending s) < length bs
          → All IsBlock (pending s)
          → Ends (loop status t info s))
      → Ends (after_turn loop found x)
  unfolding after_turn
  after_turn-Ends loop found bs (go_on status events t info s) (fewer, blocks) k =
      both Ends (found t info) tt
        (noted-Ends events (loop status t info s) (k status t info s fewer blocks))
  after_turn-Ends loop found bs (leave events t s) l k = tt
  after_turn-Ends loop found bs abort l k = tt
  after_turn-Ends loop found bs (fatal events) l k = tt
  after_turn-Ends loop found bs no_memory l k = tt
  after_turn-Ends loop found bs out_of_fuel l k = l

  members_loop-Ends :
      (fuel : ℕ) (h : Handler S) (status : ReadHeader) (t : S) (info : Info) (s : Input)
      → UsesBlocks h
      → All IsBlock (pending s)
      → length (pending s) < fuel
      → Ends (members_loop fuel h status t info s)
  unfolding members_loop
  members_loop-Ends zero h status t info s uses blocks enough = absurd (omega arith)
  members_loop-Ends (suc fuel) h status t info s uses blocks enough =
      let n = suc (length (pending s)) in
      after_turn-Ends (members_loop fuel h) h.all_names_found (pending s)
        (turn h status t (read h (destroyed info) s))
        (turn-LeavesLess h status t (pending s) (read h (destroyed info) s) uses blocks
          (read_header-Expected h.strip_trailing_slashes n (destroyed info) s)
          (read_header-AtHeader n h.strip_trailing_slashes (destroyed info) s)
          (read-Within h (destroyed info) s blocks))
        (λ status' t' info' s' fewer blocks'.
          members_loop-Ends fuel h status' t' info' s' uses blocks' (omega (arith, fewer, enough)))

  ended_lem : (r : Reading S) (events : List Event) → Ends r → r ≢ ran_out_of_fuel events
  ended_lem r events k e = subst Ends e k

  -- `read_and` ends, on every archive of blocks of 512 bytes, damaged ones too: a round for each
  -- block to come and one more are enough, if what is called for a member, with what
  -- `read_header` says of it and its header as the current block, uses up the header at least, and
  -- takes no blocks but the next ones, or ends tar.
  pub read_and_ends :
      (fuel : ℕ) (h : Handler S) (t : S) (info : Info) (s : Input) (events : List Event)
      → UsesBlocks h
      → All IsBlock (pending s)
      → length (pending s) < fuel
      → read_and fuel h t info s ≢ ran_out_of_fuel events
  unfolding read_and
  read_and_ends fuel h t info s events uses blocks enough =
      ended_lem (members_loop fuel h header_still_unread t info s) events
        (members_loop-Ends fuel h header_still_unread t info s uses blocks enough)
