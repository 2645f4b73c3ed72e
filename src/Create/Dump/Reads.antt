-- ===== src/Create/Dump/Reads.antt =====
-- What `read_header` finds of the members that are dumped in the GNU formats: their names, and the
-- names of links, which may be long.
use tar.Base.{
  ℕ, suc, ◌+◌, ◌^◌, ◌≤◌, ◌<◌, ◌≡◌, refl, ◌∙◌, ap, arith, Bool, true, false, Option, none, some,
  List, [], ◌∷◌, ◌++◌, length, length-append, replicate, All, both, ltb, inl, inr, Bool-cases,
}
use tar.Base.Text.{Bytes}
use tar.Stream.{Block}
use tar.Field.{Format}
use tar.Field.Encode.{gnu_format}
use tar.Reader.{ReadHeaderMode, is_raw, Long, Next, Info, member_names}
use tar.Reader.Fields.{name_of, linkname_of, cstring}
use tar.Reader.Flat.{FlatRound, flat_behind, flat_loop}
use tar.Reader.Refines.{no_next}
use tar.Pax.Keyword.{no_nul}
use tar.Create.{write_gnu_long_link, write_short_name}
use tar.Create.NameFields.{KeepsName, name_of-short, write_short_name-name, write_short_name-prefix}
use tar.Create.Private.{OwnerIsBytes, long_link_header-IsLongLink}
use tar.Create.LongText.{long_link_loop-HoldsText}
use tar.Base.Words.{IsByte}
use tar.Reader.Blocks.{IsBlock}
use tar.Create.LongRead.{
  BeginsMember, seen, store, flat_round-member, flat_round-write_gnu_long_link,
}
use tar.Create.Strings.{room_for}
use tar.Create.RoundTrip.{ReadsName, cstring-text}
use tar.Create.Start.Whole.{long_front}

-- A writer of long names or of long names of links.
abbrev pub gnu_long : Format → ℕ → Option (Bytes × Bytes) → ℕ → ℕ → ℕ → Bytes → List Block
gnu_long f nobody owner blocking type room name =
    write_gnu_long_link f nobody owner blocking room name type

pub long_front-IsBlock :
    (f : Format) (nobody : ℕ) (owner : Option (Bytes × Bytes)) (blocking type room : ℕ)
    (name : Bytes)
    → OwnerIsBytes owner
    → IsByte type
    → 1 ≤ blocking
    → 1 ≤ room
    → length name + 1 < 8 ^ 11
    → All IsBlock (long_front f (gnu_long f nobody owner blocking type room) name)
unfolding write_gnu_long_link
long_front-IsBlock f nobody owner blocking type room name bytes byte one_block some_room small =
    let p = name ++ (0 ∷ []) in
    let size : length p ≡ length name + 1 = length-append name (0 ∷ []) in
    both (All IsBlock) (ltb (room_for f 100) (length name))
      (
        (long_link_header-IsLongLink f nobody owner (length p) type bytes byte (omega arith)).whole,
        (long_link_loop-HoldsText (suc (length p)) blocking room p (omega arith) one_block
            some_room).blocks,
      )
      tt

-- The name of the link, for a header that stands behind `next`.
abbrev link_behind : Next → Block → Bytes
link_behind next h = elim next.long_link [ none ↦ linkname_of h | some long ↦ cstring long.text ]

-- What `read_header` gives for a member of the names `name` and `link`.
pub record ReadsNames (name link : Bytes) (info : Info) (h : Block) (rest : List Block)
    (r : FlatRound) : Type 0 where
  pub name_read : ReadsName name info h rest r
  pub same_link : name_read.found.link_name ≡ link

module _ (strip : Bytes → Bytes × Bool) (mode : ReadHeaderMode) (cooked : is_raw mode ≡ false)
    (f : Format) (nobody : ℕ) (owner : Option (Bytes × Bytes)) (bytes : OwnerIsBytes owner)
    (blocking : ℕ) (one_block : 1 ≤ blocking) (h : Block) (bs : List Block)
    (m : BeginsMember h) where
  -- The header itself.
  header_ReadsNames :
      (next : Next) (info : Info) (fuel : ℕ) (name : Bytes)
      → (elim next.long_name [ none ↦ name_of h | some long ↦ cstring long.text ]) ≡ name
      → ReadsNames name
          (link_behind next h)
          info
          h
          (h ∷ bs)
          (flat_loop (suc fuel) strip mode next info (h ∷ bs))
  unfolding flat_loop flat_behind member_names
  header_ReadsNames next info fuel name e = record {
    name_read = record {
      found = member_names strip h next (seen h info);
      result =
          ap (flat_behind (flat_loop fuel strip mode))
            (flat_round-member strip mode next info h bs m);
      same_name = e;
      no_eof = refl;
    };
    same_link = refl;
  }

  -- A header behind its long name, if it has one.
  named_ReadsNames :
      (next : Next) (info : Info) (fuel room : ℕ) (name : Bytes)
      → next.long_name ≡ none
      → gnu_format f ≡ true
      → no_nul name ≡ true
      → 1 ≤ room
      → length name + 1 < 8 ^ 11
      → KeepsName (write_short_name f name) h
      → ReadsNames name (link_behind next h) info h (h ∷ bs) (
          flat_loop
            (suc (suc fuel))
            strip
            mode
            next
            info
            (long_front f (gnu_long f nobody owner blocking b'L' room) name ++ (h ∷ bs)))
  unfolding flat_loop flat_behind
  named_ReadsNames next info fuel room name no_name g plain some_room small k =
      elim (Bool-cases (ltb (room_for f 100) (length name))) [
        | inl long ↦ rw long (
            let b =
              flat_round-write_gnu_long_link strip mode next info f nobody owner blocking room name
                b'L' (h ∷ bs) cooked refl bytes one_block some_room small in
            let r =
              header_ReadsNames (store true b.long next) b.info' fuel name
                (ap cstring b.text.kept ∙ cstring-text name (replicate b.text.zeros 0) plain) in
            record {
              name_read = record {
                found = r.name_read.found;
                result =
                    ap (flat_behind (flat_loop (suc fuel) strip mode)) b.result
                    ∙ r.name_read.result;
                same_name = r.name_read.same_name;
                no_eof = r.name_read.no_eof ∙ b.no_eof;
              };
              same_link = r.same_link;
            })
        | inr short ↦ rw short (
            header_ReadsNames next info (suc fuel) name (
              ap (λ (l : Option Long). elim l [ none ↦ name_of h | some long ↦ cstring long.text ])
                no_name
              ∙ name_of-short (write_short_name f name) h name k
                  (write_short_name-name f name plain (ground arith))
                  (write_short_name-prefix f name)))
      ]

  -- The same behind the long name of a link, if it has one.
  pub both_ReadsNames :
      (info : Info) (fuel link_room room : ℕ) (name link : Bytes)
      → gnu_format f ≡ true
      → no_nul name ≡ true
      → no_nul link ≡ true
      → 1 ≤ link_room
      → 1 ≤ room
      → length name + 1 < 8 ^ 11
      → length link + 1 < 8 ^ 11
      → KeepsName (write_short_name f name) h
      → (length link ≤ room_for f 100 → linkname_of h ≡ link)
      → ReadsNames name link info h (h ∷ bs) (
          flat_loop (suc (suc (suc fuel))) strip mode no_next info (
            long_front f (gnu_long f nobody owner blocking b'K' link_room) link
            ++ (long_front f (gnu_long f nobody owner blocking b'L' room) name ++ (h ∷ bs))))
  unfolding flat_loop flat_behind
  both_ReadsNames info fuel link_room room name link g plain plain_link some_link some_room small
        small_link k in_field =
      let names = long_front f (gnu_long f nobody owner blocking b'L' room) name ++ (h ∷ bs) in
      elim (Bool-cases (ltb (room_for f 100) (length link))) [
        | inl long ↦ rw long (
            let b =
              flat_round-write_gnu_long_link strip mode no_next info f nobody owner blocking
                link_room link b'K' names cooked refl bytes one_block some_link small_link in
            let r =
              named_ReadsNames (store false b.long no_next) b.info' fuel room name refl g plain
                some_room small k in
            record {
              name_read = record {
                found = r.name_read.found;
                result =
                    ap (flat_behind (flat_loop (suc (suc fuel)) strip mode)) b.result
                    ∙ r.name_read.result;
                same_name = r.name_read.same_name;
                no_eof = r.name_read.no_eof ∙ b.no_eof;
              };
              same_link =
                  r.same_link
                  ∙ (ap cstring b.text.kept
                      ∙ cstring-text link (replicate b.text.zeros 0) plain_link);
            })
        | inr short ↦ rw short (
            let r =
              named_ReadsNames no_next info (suc fuel) room name refl g plain some_room small k in
            record { name_read = r.name_read; same_link = r.same_link ∙ in_field (ground arith) })
      ]
