-- ===== src/Archive/Turns.antt =====
-- A turn of `read_and` at the zero blocks, and at a member that is taken.
use tar.Base.{
  ℕ, suc, ◌≡◌, refl, ◌∙◌, ap, Bool, true, false, not, ◌&&◌, some, List, [], ◌∷◌, length, drop, All,
  if◌then◌else◌,
}
use tar.Base.Text.{Bytes}
use tar.Stream.{Block, Input, set_next_block_after, pending}
use tar.Stream.Pending.{pending-set_next_block_after}
use tar.Header.{ReadHeader, header_success, header_zero_block, sum_bytes, tar_checksum}
use tar.Reader.{Info, stop, read_header_auto, classify}
use tar.Reader.Fields.{typeflag}
use tar.Reader.Blocks.{IsBlock}
use tar.Reader.Flat.{ended, flat_behind, flat_loop, flat_round, flat_perform}
use tar.Reader.Refines.{no_next, flat-read_header}
use tar.Reader.Stops.{Stops, flat-Stops, read_header-AtHeader}
use tar.Archive.{
  Handler, Event, visited, go_on, skipped, is_volume, leave, do_or_skip, behind_visit, behind_skip,
  on_success, read, second_zero, on_zero_block, turn, Reading, finished, noted, after_turn,
}
use tar.Archive.Contents.{zero_block, TakesAll}

zero_block-checksum : tar_checksum zero_block false false ≡ header_zero_block
unfolding tar_checksum sum_bytes
zero_block-checksum = refl

flat_loop-zero :
    (fuel : ℕ) (strip : Bytes → Bytes × Bool) (info : Info) (z : Block) (bs : List Block)
    → tar_checksum z false false ≡ header_zero_block
    → flat_loop (suc fuel) strip read_header_auto no_next info (z ∷ bs)
      ≡ ended header_zero_block (some z) info (z ∷ bs)
unfolding flat_loop flat_behind flat_round flat_perform classify
flat_loop-zero fuel strip info z bs e = rw e refl

module _ {S : Type 0} (h : Handler S) where
  read-zero :
      (info : Info) (s : Input) (bs : List Block)
      → All IsBlock (pending s)
      → pending s ≡ zero_block ∷ bs
      → Stops header_zero_block zero_block info (zero_block ∷ bs) (read h info s)
  read-zero info s bs blocks e =
      flat-Stops header_zero_block zero_block info (zero_block ∷ bs) (read h info s)
        (read_header-AtHeader (suc (length (pending s))) h.strip_trailing_slashes info s)
        (flat-read_header (suc (length (pending s))) h.strip_trailing_slashes read_header_auto info
            s blocks
          ∙ ap
              (flat_loop (suc (length (pending s))) h.strip_trailing_slashes read_header_auto
                no_next info)
              e
          ∙ flat_loop-zero (length (pending s)) h.strip_trailing_slashes info zero_block bs
              zero_block-checksum)

  on_zero_block-stops :
      (status : ReadHeader) (t : S) (info : Info) (s : Input)
      → h.ignore_zeros_option ≡ false
      → on_zero_block h status t info s ≡ second_zero t (read h info (set_next_block_after 0 s))
  unfolding on_zero_block
  on_zero_block-stops status t info s stops =
      ap
        (λ (b : Bool).
          if b
          then go_on status [] t info (set_next_block_after 0 s)
          else second_zero t (read h info (set_next_block_after 0 s)))
        stops

  -- The end of the archive.
  pub turn-zeros :
      (status : ReadHeader) (t : S) (info : Info) (s : Input) (rest : List Block)
      → h.ignore_zeros_option ≡ false
      → All IsBlock (pending s)
      → pending s ≡ zero_block ∷ zero_block ∷ rest
      → (s' : Input) × (turn h status t (read h info s) ≡ leave [] t s')
        × (pending s' ≡ zero_block ∷ rest)
  unfolding turn second_zero
  turn-zeros status t info s rest stops blocks e =
      let one = read-zero info s (zero_block ∷ rest) blocks e in
      let behind = set_next_block_after 0 one.input in
      let left : pending behind ≡ zero_block ∷ rest =
        pending-set_next_block_after 0 one.input one.here ∙ ap (drop 1) one.left in
      let two = read-zero info behind rest (rw left (rw e at blocks).1) left in
      (
        two.input,
        ap (turn h status t) one.result
            ∙ on_zero_block-stops status t info one.input stops
            ∙ ap (second_zero t) two.result,
        two.left,
      )

  do_or_skip-taken :
      (header : Block) (t : S) (x : Bool × Info) (s : Input)
      → x.0 ≡ true
      → do_or_skip h header t x s
        ≡ behind_visit (visited header x.1) x.1 (h.do_something t header x.1 s)
  do_or_skip-taken header t (true, info) s e = refl
  do_or_skip-taken header t (false, info) s e = absurd (cc)

  -- A member that is taken.
  pub on_success-taken :
      (header : Block) (t : S) (info : Info) (s : Input)
      → TakesAll h
      → (let decoded = h.decode_header header info in
          let t' = (h.selected t header decoded).1 in
          let info' = (h.transform_stat_info (typeflag header) decoded).1 in
          on_success h header t info s
          ≡ behind_visit (visited header info') info' (h.do_something t' header info' s))
  unfolding on_success
  on_success-taken header t info s takes =
      let decoded = h.decode_header header info in
      let choice = h.selected t header decoded in
      ap
        (λ (b : Bool).
          if not b && not (is_volume (typeflag header))
          then behind_skip (skipped header decoded) choice.1 decoded
              (h.skip_member header decoded s)
          else do_or_skip h header choice.1 (h.transform_stat_info (typeflag header) decoded) s)
        (takes.selects t header decoded)
      ∙ do_or_skip-taken header choice.1 (h.transform_stat_info (typeflag header) decoded) s
          (takes.transforms (typeflag header) decoded)

  pub turn-success :
      (status : ReadHeader) (header : Block) (t : S) (info : Info) (s : Input)
      → turn h status t (stop header_success (some header) info s) ≡ on_success h header t info s
  unfolding turn
  turn-success status header t info s = refl

  pub after_turn-go_on :
      (loop : ReadHeader → S → Info → Input → Reading S) (status : ReadHeader) (events : List Event)
      (t : S) (info : Info) (s : Input)
      → h.all_names_found t info ≡ false
      → after_turn loop h.all_names_found (go_on status events t info s)
        ≡ noted events (loop status t info s)
  unfolding after_turn
  after_turn-go_on loop status events t info s e =
      ap (λ (b : Bool). if b then finished events t s else noted events (loop status t info s)) e
