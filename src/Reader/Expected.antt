-- ===== src/Reader/Expected.antt =====
-- The statuses that `read_header` gives in the mode `read_header_auto`, and what it says of a member.
use tar.Base.{
  ℕ, zero, suc, ◌+◌, ◌-◌, ◌*◌, ◌≡◌, ◌≢◌, refl, Bool, false, Option, none, some, leb, both,
}
use tar.Base.Text.{Bytes}
use tar.Stream.{Block, block_size, Input, find_next_block}
use tar.Header.{
  ReadHeader, header_still_unread, header_success, header_success_extended, header_zero_block,
  header_end_of_file, header_failure, tar_checksum,
}
use tar.Reader.{
  Next, Info, idx_limit, Xheader, unexpected_eof, too_large, xheader_out_of_fuel, xheader, Action,
  return, read_long, read_extended, read_global, no_memory, Round, stop, again, fatal_eof,
  xalloc_die, round_out_of_fuel, on_checksum, classify_special, classify_good, classify,
  read_long_name, behind_extended, behind_global, perform, round, behind_round, read_loop,
  read_header, read_header_auto, member_names,
}
use tar.Reader.Fields.{typeflag, size_of, is_special, is_long, is_extended}

-- The statuses that a header can have in the mode `read_header_auto`.
pub record Expected (status : ReadHeader) : Type 0 where
  pub read_before : status ≢ header_still_unread
  pub not_extended : status ≢ header_success_extended

-- What `read_header` says of a member is taken from its header and the long names in front of it.
pub record Announced (strip : Bytes → Bytes × Bool) (header : Block) (found : Info) : Type 0 where
  pub next : Next
  pub before : Info
  pub found_so :
      found
      ≡ member_names strip header next (record before { st_size = size_of header; skipped = false })

zero_block-Expected : Expected header_zero_block
zero_block-Expected = record { read_before = λ e. cc; not_extended = λ e. cc }

failure-Expected : Expected header_failure
failure-Expected = record { read_before = λ e. cc; not_extended = λ e. cc }

success-Expected : Expected header_success
success-Expected = record { read_before = λ e. cc; not_extended = λ e. cc }

tar_checksum-Expected :
    (header : Block) (silent warned : Bool) → Expected (tar_checksum header silent warned)
unfolding tar_checksum
tar_checksum-Expected header silent warned =
    both Expected _ zero_block-Expected
      (both Expected _ failure-Expected (both Expected _ failure-Expected success-Expected))

module _ (strip : Bytes → Bytes × Bool) where
  -- What a status says with the header and the information that it comes with.
  abbrev pub ExpectedStop : ReadHeader → Block → Info → Type 0
  ExpectedStop status header info =
      Expected status × (status ≡ header_success → Announced strip header info)

  abbrev ExpectedAction : Block → Action → Type 0
  ExpectedAction header (return status info) = ExpectedStop status header info
  ExpectedAction header _ = Unit {0}

  abbrev pub ExpectedRound : Round → Type 0
  ExpectedRound (stop status (some header) info s) = ExpectedStop status header info
  ExpectedRound (stop status none info s) = status ≡ header_end_of_file
  ExpectedRound _ = Unit {0}

  classify_special-Expected :
      (header : Block) (size : ℕ) (info : Info)
      → ExpectedAction header (classify_special read_header_auto header size info)
  unfolding classify_special
  classify_special-Expected header size info =
      both (ExpectedAction header) (is_long (typeflag header))
        (both (ExpectedAction header) (leb idx_limit (size + (2 * block_size - 1))) tt tt)
        (both (ExpectedAction header) (is_extended (typeflag header)) tt tt)

  classify_good-Expected :
      (header : Block) (next : Next) (info : Info)
      → ExpectedAction header (classify_good strip read_header_auto header next info)
  unfolding classify_good
  classify_good-Expected header next info =
      both (ExpectedAction header) (leb idx_limit (size_of header)) (failure-Expected, λ e. cc)
        (both (ExpectedAction header) (is_special (typeflag header))
          (classify_special-Expected header (size_of header) _)
          (success-Expected, λ e. record { next = next; before = info; found_so = refl }))

  on_checksum-Expected :
      (header : Block) (status : ReadHeader) (good : Action) (info : Info)
      → Expected status
      → ExpectedAction header good
      → ExpectedAction header (on_checksum status good info)
  on_checksum-Expected header header_success good info h k = k
  on_checksum-Expected header header_still_unread good info h k = (h, λ e. cc)
  on_checksum-Expected header header_success_extended good info h k = (h, λ e. cc)
  on_checksum-Expected header header_zero_block good info h k = (h, λ e. cc)
  on_checksum-Expected header header_end_of_file good info h k = (h, λ e. cc)
  on_checksum-Expected header header_failure good info h k = (h, λ e. cc)

  classify-Expected :
      (header : Block) (next : Next) (info : Info)
      → ExpectedAction header (classify strip read_header_auto header next info)
  unfolding classify
  classify-Expected header next info =
      on_checksum-Expected header (tar_checksum header false false) _ info
        (tar_checksum-Expected header false false) (classify_good-Expected header next info)

  behind_extended-Expected :
      (x : Xheader) (next : Next) (info : Info) → ExpectedRound (behind_extended x next info)
  unfolding behind_extended
  behind_extended-Expected unexpected_eof next info = tt
  behind_extended-Expected too_large next info = tt
  behind_extended-Expected xheader_out_of_fuel next info = tt
  behind_extended-Expected (xheader text s) next info = tt

  behind_global-Expected :
      (header : Block) (x : Xheader) (next : Next) (info : Info)
      → ExpectedRound (behind_global read_header_auto header x next info)
  unfolding behind_global
  behind_global-Expected header unexpected_eof next info = tt
  behind_global-Expected header too_large next info = tt
  behind_global-Expected header xheader_out_of_fuel next info = tt
  behind_global-Expected header (xheader text s) next info = tt

  perform-Expected :
      (header : Block) (next : Next) (a : Action) (s : Input)
      → ExpectedAction header a
      → ExpectedRound (perform read_header_auto header next a s)
  unfolding perform read_long_name
  perform-Expected header next (return status info) s h = h
  perform-Expected header next (read_long is_name blocks info) s h = tt
  perform-Expected header next (read_extended size info) s h = behind_extended-Expected _ next info
  perform-Expected header next (read_global size info) s h =
      behind_global-Expected header _ next info
  perform-Expected header next no_memory s h = tt

  round-Expected :
      (found : Option Block) (next : Next) (info : Info) (s : Input)
      → ExpectedRound (round strip read_header_auto found next info s)
  unfolding round
  round-Expected none next info s = refl
  round-Expected (some header) next info s =
      perform-Expected header next (classify strip read_header_auto header next info) s
        (classify-Expected header next info)

  behind_round-Expected :
      (loop : Next → Info → Input → Round) (r : Round)
      → ExpectedRound r
      → ((next : Next) (info : Info) (s : Input) → ExpectedRound (loop next info s))
      → ExpectedRound (behind_round loop r)
  unfolding behind_round
  behind_round-Expected loop (stop status none info s) h k = h
  behind_round-Expected loop (stop status (some header) info s) h k = h
  behind_round-Expected loop (again next info s) h k = k next info s
  behind_round-Expected loop fatal_eof h k = tt
  behind_round-Expected loop xalloc_die h k = tt
  behind_round-Expected loop round_out_of_fuel h k = tt

  read_loop-Expected :
      (fuel : ℕ) (next : Next) (info : Info) (s : Input)
      → ExpectedRound (read_loop fuel strip read_header_auto next info s)
  unfolding read_loop
  read_loop-Expected zero next info s = tt
  read_loop-Expected (suc fuel) next info s =
      behind_round-Expected (read_loop fuel strip read_header_auto)
        (round strip read_header_auto (find_next_block s).0 next info (find_next_block s).1)
        (round-Expected (find_next_block s).0 next info (find_next_block s).1)
        (read_loop-Expected fuel)

  pub read_header-Expected :
      (fuel : ℕ) (info : Info) (s : Input)
      → ExpectedRound (read_header fuel strip read_header_auto info s)
  unfolding read_header
  read_header-Expected fuel info s = read_loop-Expected fuel _ info s
