-- ===== src/Archive/Listing.antt =====
-- `read_and` finds the members that were written, in their order and under their names.
use tar.Base.{
  ℕ, zero, suc, ◌-◌, ◌≤◌, ◌<◌, ◌≡◌, refl, ◌∙◌, ap, subst, arith, Option, some, List, [], ◌∷◌, ◌++◌,
  length, length-append, All,
}
use tar.Base.Slices.{All-behind}
use tar.Base.Text.{Bytes}
use tar.Stream.{Block, Input, pending}
use tar.Field.{Format}
use tar.Header.{ReadHeader, header_still_unread, header_success}
use tar.Reader.{Info, read_header_auto, read_header}
use tar.Reader.Fields.{typeflag}
use tar.Reader.Blocks.{IsBlock}
use tar.Reader.Flat.{ended, flat}
use tar.Reader.Stops.{Stops, flat-Stops, read_header-AtHeader}
use tar.Create.Private.{OwnerIsBytes}
use tar.Create.RoundTrip.{read_header-write_header_name}
use tar.Reader.Expected.{ExpectedRound, Announced, read_header-Expected}
use tar.Archive.{
  Handler, visited, destroyed, behind_visit, read, turn, noted, after_turn, members_loop, read_and,
}
use tar.Archive.Contents.{Part, blocks_of, archive_of, IsWritten, TakesAll, UsesUp, Lists}
use tar.Archive.Turns.{turn-zeros, on_success-taken, turn-success, after_turn-go_on}

module _ {S : Type 0} (h : Handler S) where
  module _ (f : Format) (nobody : ℕ) (owner : Option (Bytes × Bytes)) (blocking : ℕ)
      (bytes : OwnerIsBytes owner) (one_block : 1 ≤ blocking) where
    read-member :
        (p : Part) (info : Info) (s : Input) (bs : List Block)
        → IsWritten f nobody owner blocking p
        → All IsBlock (pending s)
        → pending s ≡ blocks_of p bs
        → (found : Info) × (found.orig_file_name ≡ p.name)
          × Announced h.strip_trailing_slashes p.header found
          × Stops header_success p.header found (p.header ∷ (p.data_blocks ++ bs)) (read h info s)
    read-member p info s bs w blocks e =
        let some_left : 1 ≤ length (pending s) =
          omega (arith, ap length e, length-append p.front (p.header ∷ (p.data_blocks ++ bs))) in
        let named =
          read_header-write_header_name f nobody owner blocking w.room p.name
            h.strip_trailing_slashes read_header_auto info p.front w.first_header p.header
            (p.data_blocks ++ bs) (length (pending s) - 1) s w.no_nul_inside bytes one_block
            w.some_room w.short refl w.written_so w.begins w.keeps blocks e in
        let enough : suc (suc (length (pending s) - 1)) ≡ suc (length (pending s)) = omega arith in
        let stops =
          flat-Stops header_success p.header named.found (p.header ∷ (p.data_blocks ++ bs))
            (read h info s)
            (read_header-AtHeader (suc (length (pending s))) h.strip_trailing_slashes info s)
            (subst
              (λ (n : ℕ).
                flat (read_header n h.strip_trailing_slashes read_header_auto info s)
                ≡ ended header_success (some p.header) named.found
                    (p.header ∷ (p.data_blocks ++ bs)))
              enough named.result) in
        let expected =
          subst (ExpectedRound h.strip_trailing_slashes) stops.result
            (read_header-Expected h.strip_trailing_slashes (suc (length (pending s))) info s) in
        (named.found, named.same_name, expected.1 refl, stops)

    members_loop-Lists :
        (fuel : ℕ) (ps : List Part) (rest : List Block) (status : ReadHeader) (t : S) (info : Info)
        (s : Input)
        → TakesAll h
        → All (IsWritten f nobody owner blocking) ps
        → All (UsesUp h) ps
        → All IsBlock (archive_of ps rest)
        → pending s ≡ archive_of ps rest
        → length ps < fuel
        → Lists h ps rest (members_loop fuel h status t info s)
    unfolding members_loop after_turn
    members_loop-Lists zero ps rest status t info s takes ws us blocks e enough =
        absurd (omega arith)
    members_loop-Lists (suc fuel) [] rest status t info s takes ws us blocks e enough =
        let (s', ended_here, left) =
          turn-zeros h status t (destroyed info) s rest takes.stops_at_zeros (rw e blocks) e in
        record {
          events = [];
          state = t;
          input = s';
          result = ap (after_turn (members_loop fuel h) h.all_names_found) ended_here;
          visits = tt;
          left = left;
        }
    members_loop-Lists (suc fuel) (p ∷ ps) rest status t info s takes ws us blocks e enough =
        let (found, named, announced, stops) =
          read-member p (destroyed info) s (archive_of ps rest) ws.0 (rw e blocks) e in
        let decoded = h.decode_header p.header found in
        let t' = (h.selected t p.header decoded).1 in
        let info' = (h.transform_stat_info (typeflag p.header) decoded).1 in
        let (after, done, result, left) =
          us.0 t' found stops.input (archive_of ps rest) announced stops.here stops.left in
        let behind : All IsBlock (archive_of ps rest) =
          All-behind IsBlock p.data_blocks (archive_of ps rest)
            (All-behind IsBlock p.front (p.header ∷ (p.data_blocks ++ archive_of ps rest))
              blocks).1 in
        let later =
          members_loop-Lists fuel ps rest header_success after info' done takes ws.1 us.1 behind
            left (omega arith) in
        record {
          events = visited p.header info' ∷ later.events;
          state = later.state;
          input = later.input;
          result =
              ap (after_turn (members_loop fuel h) h.all_names_found) (
                ap (turn h status t) stops.result
                ∙ turn-success h status p.header t found stops.input
                ∙ on_success-taken h p.header t found stops.input takes
                ∙ ap (behind_visit (visited p.header info') info') result)
              ∙ after_turn-go_on h (members_loop fuel h) header_success
                  (visited p.header info' ∷ []) after info' done (takes.wants_more after info')
              ∙ ap (noted (visited p.header info' ∷ [])) later.result;
          visits = (refl, (found, named, refl), later.visits);
          left = later.left;
        }

-- `read_and` calls the caller's function for every member that was written, in their order, with
-- the member's name; it reports nothing, and stops at the second of the two zero blocks, whatever
-- follows them. The archive's blocks have 512 bytes, each member begins as `write_header_name`
-- writes it in the format `f`, outside the extended header, its header has an ordinary type and a
-- good checksum, no member is left out by a selection, and the caller's function uses up a member's
-- blocks where its header is the current block and `read_header` has announced it. A round for each
-- member and one more are enough.
pub read_and-archive_of :
    {S : Type 0} (h : Handler S) (f : Format) (nobody : ℕ) (owner : Option (Bytes × Bytes))
    (blocking : ℕ) (fuel : ℕ) (ps : List Part) (rest : List Block) (t : S) (info : Info) (s : Input)
    → OwnerIsBytes owner
    → 1 ≤ blocking
    → TakesAll h
    → All (IsWritten f nobody owner blocking) ps
    → All (UsesUp h) ps
    → All IsBlock (archive_of ps rest)
    → pending s ≡ archive_of ps rest
    → length ps < fuel
    → Lists h ps rest (read_and fuel h t info s)
unfolding read_and
read_and-archive_of h f nobody owner blocking fuel ps rest t info s bytes one_block takes ws us
      blocks e enough =
    members_loop-Lists h f nobody owner blocking bytes one_block fuel ps rest header_still_unread t
      info s takes ws us blocks e enough
