-- ===== src/Archive/Runs.antt =====
-- An archive with a member of a long name, listed.
use tar.Base.{
  ℕ, suc, ◌≤◌, ◌≢◌, sym, ◌++◌, length, length-append, Bool, Option, some, refl, ap, arith, true,
  false, none, [], ◌∷◌, replicate, All, All-append,
}
use tar.Stream.{Block, Input, pending, to_come}
use tar.Field.{gnu}
use tar.Header.{sum_bytes, simple_finish_header}
use tar.Reader.Blocks.{IsBlock}
use tar.Base.Text.{codes}
use tar.Reader.{Info, member_names}
use tar.Reader.Fields.{typeflag, size_of}
use tar.Reader.Expected.{Announced}
use tar.Reader.Extended.{blocks_for}
use tar.Reader.Skip.{
  Skim, skimmed, skim_unexpected_eof, skim_out_of_fuel, seek_failed, member_is_dir, skim_member,
}
use tar.Reader.Skip.Skims.{skim_member-next, Passes, skim_member-Passes}
use tar.Field.Encode.{to_octal, tar_name_copy_str}
use tar.Field.Decode.{from_header}
use tar.Field.Types.{off_from_header}
use tar.Create.{put_name, write_short_name}
use tar.Archive.{Handler, ran_out_of_fuel, read_and}
use tar.Archive.Contents.{zero_block, Part, archive_of, IsWritten, TakesAll, UsesUp, Lists}
use tar.Archive.Listing.{read_and-archive_of}
use tar.Archive.Ends.{VisitUses, SkipUses, UsesBlocks, read_and_ends}
use tar.Create.Sample.{
  no_strip, fresh, long_name, front, short_header, member, member-BeginsMember, member-KeepsName,
  member-IsBlock, front_blocks, long_name_written,
}

abbrev after_skim : Skim → Option Input
after_skim (skimmed s) = some s
after_skim skim_unexpected_eof = none
after_skim skim_out_of_fuel = none

abbrev skim : Block → Info → Input → Info × (Bool × Skim)
skim header info s =
    skim_member (λ info s. (false, skim_unexpected_eof)) (λ size s. seek_failed) false false false
      header info s

abbrev after_visit : ℕ → Skim → Option (ℕ × Input)
after_visit t (skimmed s) = some (suc t, s)
after_visit t skim_unexpected_eof = none
after_visit t skim_out_of_fuel = none

-- Counts the members, and skips their data with `skim_member`, as a listing does.
abbrev lister : Handler ℕ
lister = record {
  strip_trailing_slashes = no_strip;
  decode_header = λ header info. info;
  selected = λ t header info. (true, t);
  transform_stat_info = λ type info. (true, info);
  do_something = λ t header info s. after_visit t (skim header info s).1.1;
  skip_member = λ header info s. after_skim (skim header info s).1.1;
  all_names_found = λ t info. false;
  ignore_zeros_option = false;
}

lister-TakesAll : TakesAll lister
lister-TakesAll = record {
  stops_at_zeros = refl;
  selects = λ t header info. refl;
  transforms = λ type info. refl;
  wants_more = λ t info. refl;
}

-- The 5 bytes of the member, padded.
abbrev data_block : Block
data_block = codes "hello" ++ replicate 507 0

abbrev part : Part
part = record {
  name = long_name;
  front = front;
  header = simple_finish_header member;
  data_blocks = data_block ∷ [];
}

part-IsWritten : IsWritten gnu 0 none 20 part
part-IsWritten = record {
  room = 1;
  some_room = omega arith;
  no_nul_inside = refl;
  short = omega arith;
  first_header = short_header;
  written_so = long_name_written;
  keeps = member-KeepsName;
  begins = member-BeginsMember;
}

lister-UsesUp : UsesUp lister part
unfolding member_names member_is_dir simple_finish_header write_short_name size_of put_name
    tar_name_copy_str to_octal off_from_header from_header sum_bytes
lister-UsesUp t found s rest announced here e =
    let same = announced.found_so in
    let (s', seekable, done, left) =
      skim_member-next (λ info s. (false, skim_unexpected_eof)) (λ size s. seek_failed) false false
        part.header part.header found s (data_block ∷ []) rest (ap (λ (i : Info). i.skipped) same)
        (ap (λ (i : Info). member_is_dir i.had_trailing_slash (typeflag part.header)) same)
        (ap (λ (i : Info). blocks_for i.st_size) (sym same)) here e (λ h. absurd (cc)) in
    (suc t, s', ap (λ (r : Info × (Bool × Skim)). after_visit t r.1.1) done, left)

archive_blocks : All IsBlock (archive_of (part ∷ []) [])
archive_blocks =
    All-append IsBlock front
      (simple_finish_header member ∷ data_block ∷ zero_block ∷ zero_block ∷ []) front_blocks
      (member-IsBlock, (refl, (refl, (refl, tt))))

abbrev archive : Input
archive = record {
  current = front;
  records = (simple_finish_header member ∷ data_block ∷ zero_block ∷ zero_block ∷ []) ∷ [];
  hit_eof = false;
}

read_and-archive_of_example : Lists lister (part ∷ []) [] (read_and 2 lister 0 fresh archive)
read_and-archive_of_example =
    read_and-archive_of lister gnu 0 none 20 2 (part ∷ []) [] 0 fresh archive tt (omega arith)
      lister-TakesAll (part-IsWritten, tt) (lister-UsesUp, tt) archive_blocks refl (omega arith)

after_visit-Uses :
    (t : ℕ) (s : Input) (r : Skim)
    → 1 ≤ length (pending s)
    → Passes s r
    → VisitUses s (after_visit t r)
after_visit-Uses t s skim_unexpected_eof here h = tt
after_visit-Uses t s skim_out_of_fuel here h = tt
after_visit-Uses t s (skimmed s') here (k, left) = record {
  used = k;
  left = left;
  some_left = here;
}

after_skim-Uses :
    (s : Input) (r : Skim) → 1 ≤ length (pending s) → Passes s r → SkipUses s (after_skim r)
after_skim-Uses s skim_unexpected_eof here h = tt
after_skim-Uses s skim_out_of_fuel here h = tt
after_skim-Uses s (skimmed s') here (k, left) = record { used = k; left = left; some_left = here }

skim-Passes :
    (header : Block) (found : Info) (s : Input)
    → Announced no_strip header found
    → 1 ≤ length s.current
    → Passes s (skim header found s).1.1
unfolding member_names
skim-Passes header found s announced here =
    skim_member-Passes (λ info s. (false, skim_unexpected_eof)) (λ size s. seek_failed) false header
      found s (ap (λ (i : Info). i.skipped) announced.found_so) here

some_pending : (s : Input) → 1 ≤ length s.current → 1 ≤ length (pending s)
some_pending s here = omega (arith, length-append s.current (to_come s.hit_eof s.records))

lister-UsesBlocks : UsesBlocks lister
lister-UsesBlocks = record {
  done = λ t header found s announced here.
      after_visit-Uses t s _ (some_pending s here) (skim-Passes header found s announced here);
  skips = λ header found s announced here.
      after_skim-Uses s _ (some_pending s here) (skim-Passes header found s announced here);
  skips_transformed = λ header found s announced here.
      after_skim-Uses s _ (some_pending s here) (skim-Passes header found s announced here);
}

-- A block that is no header, and one of zeros.
abbrev damaged : Input
damaged = record { current = replicate 512 1 ∷ zero_block ∷ []; records = []; hit_eof = false }

read_and_ends_example : read_and 3 lister 0 fresh damaged ≢ ran_out_of_fuel []
read_and_ends_example =
    read_and_ends 3 lister 0 fresh damaged [] lister-UsesBlocks (refl, (refl, tt)) (omega arith)
