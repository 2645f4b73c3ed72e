-- ===== src/Archive.antt =====
-- `read_and` of src/list.c: the members of an archive, one after the other. What it does with a
-- member is a parameter, with what selects members: name_match, excluded_name, transform_stat_info,
-- decode_header, skip_member, all_names_found and the caller's function. What opens and closes the
-- archive is left out, and so are the lines that `block_number_option` asks for.
pub mod Contents
pub mod Turns
pub mod Listing
pub mod Ends
mod Runs
use tar.Base.{
  ℕ, zero, suc, Bool, true, false, not, ◌&&◌, ◌||◌, Option, none, some, List, [], ◌∷◌, ◌++◌, length,
  ◌==◌, if◌then◌else◌,
}
use tar.Base.Text.{Bytes}
use tar.Stream.{Block, Input, set_next_block_after, pending}
use tar.Header.{
  ReadHeader, header_still_unread, header_success, header_success_extended, header_zero_block,
  header_end_of_file, header_failure,
}
use tar.Reader.{
  Info, Round, stop, again, fatal_eof, xalloc_die, round_out_of_fuel, read_header_auto, read_header,
}
use tar.Reader.Fields.{typeflag}

-- What `read_and` calls, and its options; `S` is the state of the names and of the caller's
-- function. `selected` is name_match with the tests of `newer_mtime_option` and excluded_name. The
-- caller's function and `skip_member` give none where they end tar with an error.
pub record Handler (S : Type 0) : Type 0 where
  pub strip_trailing_slashes : Bytes → Bytes × Bool
  pub decode_header : Block → Info → Info
  pub selected : S → Block → Info → Bool × S
  pub transform_stat_info : ℕ → Info → Bool × Info
  pub do_something : S → Block → Info → Input → Option (S × Input)
  pub skip_member : Block → Info → Input → Option Input
  pub all_names_found : S → Info → Bool
  pub ignore_zeros_option : Bool

-- What `read_and` calls and reports, in order.
pub data Event : Type 0 where
  visited skipped : Block → Info → Event
  lone_zero_block missing_zero_blocks : Event
  no_tar_archive skipping_to_next_header : Event

-- `tar_stat_destroy`
abbrev pub destroyed : Info → Info
destroyed info = record info {
  st_size = 0;
  skipped = false;
  orig_file_name = [];
  file_name = [];
  had_trailing_slash = false;
  link_name = [];
  xhdr = none;
}

-- How the `switch` ends: in `continue`, in `break`, or not.
pub data Turn (S : Type 0) : Type 0 where
  go_on : ReadHeader → List Event → S → Info → Input → Turn S
  leave : List Event → S → Input → Turn S
  fatal : List Event → Turn S
  abort no_memory out_of_fuel : Turn S

-- How the reading ends.
pub data Reading (S : Type 0) : Type 0 where
  finished : List Event → S → Input → Reading S
  aborted ended_by_error ran_out_of_fuel : List Event → Reading S

-- `GNUTYPE_VOLHDR` and `GNUTYPE_MULTIVOL`
abbrev pub is_volume : ℕ → Bool
is_volume t = t == b'V' || t == b'M'

module _ {S : Type 0} where
  -- Behind the caller's function, and behind `skip_member`.
  abbrev pub behind_visit : Event → Info → Option (S × Input) → Turn S
  behind_visit event info none = fatal (event ∷ [])
  behind_visit event info (some (t, s)) = go_on header_success (event ∷ []) t info s

  abbrev pub behind_skip : Event → S → Info → Option Input → Turn S
  behind_skip event t info none = fatal (event ∷ [])
  behind_skip event t info (some s) = go_on header_success (event ∷ []) t info s

  abbrev pub do_or_skip : Handler S → Block → S → Bool × Info → Input → Turn S
  do_or_skip h header t (true, info) s =
      behind_visit (visited header info) info (h.do_something t header info s)
  do_or_skip h header t (false, info) s =
      behind_skip (skipped header info) t info (h.skip_member header info s)

  unfoldable pub on_success : Handler S → Block → S → Info → Input → Turn S
  on_success h header t info s =
      let decoded = h.decode_header header info in
      let choice = h.selected t header decoded in
      if not choice.0 && not (is_volume (typeflag header))
      then behind_skip (skipped header decoded) choice.1 decoded (h.skip_member header decoded s)
      else do_or_skip h header choice.1 (h.transform_stat_info (typeflag header) decoded) s

  -- `read_header` with a round for each block to come and one more.
  abbrev pub read : Handler S → Info → Input → Round
  read h info s =
      read_header (suc (length (pending s))) h.strip_trailing_slashes read_header_auto info s

  -- The block behind a zero block.
  unfoldable pub second_zero : S → Round → Turn S
  second_zero t (stop header_zero_block header info s) = leave [] t s
  second_zero t (stop status header info s) = leave (lone_zero_block ∷ []) t s
  second_zero t (again next info s) = out_of_fuel
  second_zero t fatal_eof = fatal []
  second_zero t xalloc_die = no_memory
  second_zero t round_out_of_fuel = out_of_fuel

  unfoldable pub on_zero_block : Handler S → ReadHeader → S → Info → Input → Turn S
  unfolding second_zero
  on_zero_block h prev_status t info s =
      let behind = set_next_block_after 0 s in
      if h.ignore_zeros_option
      then go_on prev_status [] t info behind
      else second_zero t (read h info behind)

  unfoldable pub on_failure : ReadHeader → S → Info → Input → Turn S
  on_failure header_still_unread t info s =
      go_on header_failure (no_tar_archive ∷ skipping_to_next_header ∷ []) t info
        (set_next_block_after 0 s)
  on_failure header_zero_block t info s =
      go_on header_failure (skipping_to_next_header ∷ []) t info (set_next_block_after 0 s)
  on_failure header_success t info s =
      go_on header_failure (skipping_to_next_header ∷ []) t info (set_next_block_after 0 s)
  on_failure header_end_of_file t info s = go_on header_failure [] t info (set_next_block_after 0 s)
  on_failure header_failure t info s = go_on header_failure [] t info (set_next_block_after 0 s)
  on_failure header_success_extended t info s = abort

  abbrev pub on_end_of_file : Handler S → S → Input → Turn S
  on_end_of_file h t s = leave (if h.ignore_zeros_option then [] else missing_zero_blocks ∷ []) t s

  -- The `switch`, for what `read_header` gave.
  unfoldable pub turn : Handler S → ReadHeader → S → Round → Turn S
  unfolding on_success on_zero_block on_failure
  turn h prev_status t (stop header_success (some header) info s) = on_success h header t info s
  turn h prev_status t (stop header_success none info s) = abort
  turn h prev_status t (stop header_zero_block header info s) = on_zero_block h prev_status t info s
  turn h prev_status t (stop header_end_of_file header info s) = on_end_of_file h t s
  turn h prev_status t (stop header_failure header info s) = on_failure prev_status t info s
  turn h prev_status t (stop header_still_unread header info s) = abort
  turn h prev_status t (stop header_success_extended header info s) = abort
  turn h prev_status t (again next info s) = out_of_fuel
  turn h prev_status t fatal_eof = fatal []
  turn h prev_status t xalloc_die = no_memory
  turn h prev_status t round_out_of_fuel = out_of_fuel

  abbrev pub noted : List Event → Reading S → Reading S
  noted events (finished later t s) = finished (events ++ later) t s
  noted events (aborted later) = aborted (events ++ later)
  noted events (ended_by_error later) = ended_by_error (events ++ later)
  noted events (ran_out_of_fuel later) = ran_out_of_fuel (events ++ later)

  unfoldable pub after_turn :
      (ReadHeader → S → Info → Input → Reading S) → (S → Info → Bool) → Turn S → Reading S
  after_turn loop all_names_found (go_on status events t info s) =
      if all_names_found t info then finished events t s else noted events (loop status t info s)
  after_turn loop all_names_found (leave events t s) = finished events t s
  after_turn loop all_names_found abort = aborted []
  after_turn loop all_names_found (fatal events) = ended_by_error events
  after_turn loop all_names_found no_memory = ended_by_error []
  after_turn loop all_names_found out_of_fuel = ran_out_of_fuel []

  -- The `do` loop, on fuel.
  unfoldable pub members_loop : ℕ → Handler S → ReadHeader → S → Info → Input → Reading S
  unfolding turn after_turn
  members_loop zero h status t info s = ran_out_of_fuel []
  members_loop (suc fuel) h status t info s =
      after_turn (members_loop fuel h) h.all_names_found
        (turn h status t (read h (destroyed info) s))

  unfoldable pub read_and : ℕ → Handler S → S → Info → Input → Reading S
  unfolding members_loop
  read_and fuel h t info s = members_loop fuel h header_still_unread t info s
