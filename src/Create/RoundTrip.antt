-- ===== src/Create/RoundTrip.antt =====
-- A member's name, from `write_header_name` to `read_header`.
use tar.Base.{
  ℕ, suc, ◌+◌, ◌-◌, ◌^◌, ◌≤◌, ◌<◌, ◌≡◌, refl, sym, ◌∙◌, ap, subst, arith, Bool, true, false, not,
  ◌&&◌, Option, none, some, List, [], ◌∷◌, ◌++◌, length, replicate, All, ltb, inl, inr, Bool-cases,
}
use tar.Base.Text.{Bytes}
use tar.Stream.{Block, Input, pending}
use tar.Field.{Format, default, v7, oldgnu, ustar, posix, star, gnu}
use tar.Header.{header_success}
use tar.Reader.{ReadHeaderMode, is_raw, Info, member_names, read_header}
use tar.Reader.Fields.{name_of, cstring}
use tar.Reader.Flat.{FlatRound, ended, flat, flat_behind, flat_loop, flat_round}
use tar.Reader.Refines.{no_next, flat-read_header}
use tar.Reader.Blocks.{IsBlock}
use tar.Pax.Keyword.{no_nul}
use tar.Create.{
  refused, aborted, name_field_size, string_ascii_p, write_gnu_long_link, write_short_name,
  write_ustar_long_name, Name, written, or_refused, write_long_name, is_posix, write_header_name,
}
use tar.Create.Strings.{room_for}
use tar.Create.Split.{IsSplit, write_ustar_long_name-IsSplit}
use tar.Create.NameFields.{
  KeepsName, name_of-short, name_of-IsSplit, write_short_name-name, write_short_name-prefix,
}
use tar.Create.Private.{OwnerIsBytes}
use tar.Create.LongRead.{
  BeginsMember, seen, flat_round-member, store, Behind, flat_round-write_gnu_long_link,
}

-- What `read_header` gives for a member of the name `name`, whose header `h` begins `rest`.
pub record ReadsName (name : Bytes) (info : Info) (h : Block) (rest : List Block) (r : FlatRound)
    : Type 0 where
  pub found : Info
  pub result : r ≡ ended header_success (some h) found rest
  pub same_name : found.orig_file_name ≡ name
  pub no_eof : found.unexpected_eofs ≡ info.unexpected_eofs

pub cstring-text :
    (name rest : Bytes) → no_nul name ≡ true → cstring ((name ++ (0 ∷ [])) ++ rest) ≡ name
cstring-text [] rest h = refl
cstring-text (c ∷ name) rest h = ground (arith, cstring-text name rest)

module _ (strip : Bytes → Bytes × Bool) (mode : ReadHeaderMode) (info : Info) (h : Block)
    (bs : List Block) (m : BeginsMember h) where
  -- A member with no long name in front.
  short_ReadsName :
      (fuel : ℕ) (name : Bytes)
      → name_of h ≡ name
      → ReadsName name info h (h ∷ bs) (flat_loop (suc fuel) strip mode no_next info (h ∷ bs))
  unfolding flat_loop flat_behind member_names
  short_ReadsName fuel name e = record {
    found = member_names strip h no_next (seen h info);
    result =
        ap (flat_behind (flat_loop fuel strip mode))
          (flat_round-member strip mode no_next info h bs m);
    same_name = e;
    no_eof = refl;
  }

  -- A member behind a long name.
  long_ReadsName :
      (fuel : ℕ) (name : Bytes) (all : List Block)
      → no_nul name ≡ true
      → Behind info name (h ∷ bs) true no_next (flat_round strip mode no_next info all)
      → ReadsName name info h (h ∷ bs) (flat_loop (suc (suc fuel)) strip mode no_next info all)
  unfolding flat_loop flat_behind member_names
  long_ReadsName fuel name all plain b = record {
    found = member_names strip h (store true b.long no_next) (seen h b.info');
    result =
        ap (flat_behind (flat_loop (suc fuel) strip mode)) b.result
        ∙ ap (flat_behind (flat_loop fuel strip mode))
            (flat_round-member strip mode (store true b.long no_next) b.info' h bs m);
    same_name = ap cstring b.text.kept ∙ cstring-text name (replicate b.text.zeros 0) plain;
    no_eof = b.no_eof;
  }

-- A writer of long names, as `write_gnu_long_link` is called.
abbrev pub name_link : Format → ℕ → Option (Bytes × Bytes) → ℕ → ℕ → Bytes → List Block
name_link f nobody owner blocking room name =
    write_gnu_long_link f nobody owner blocking room name b'L'

module _ (strip : Bytes → Bytes × Bool) (mode : ReadHeaderMode) (info : Info)
    (cooked : is_raw mode ≡ false) where
  -- The blocks in front of a member and its header give its name.
  abbrev Readable : Bytes → List Block → Block → Type 0
  Readable name front header =
      (fuel : ℕ) (h : Block) (bs : List Block)
      → BeginsMember h
      → KeepsName header h
      → ReadsName name info h (h ∷ bs)
          (flat_loop (suc (suc fuel)) strip mode no_next info (front ++ (h ∷ bs)))

  short_Readable :
      (f : Format) (name : Bytes)
      → no_nul name ≡ true
      → length name ≤ room_for f 100
      → Readable name [] (write_short_name f name)
  short_Readable f name plain fits fuel h bs m k =
      short_ReadsName strip mode info h bs m (suc fuel) name (
        name_of-short (write_short_name f name) h name k (write_short_name-name f name plain fits)
          (write_short_name-prefix f name))

  -- Where the name is not left to the extended header.
  abbrev GivesName : Bytes → Name → Type 0
  GivesName name refused = Unit {0}
  GivesName name aborted = Unit {0}
  GivesName name (written front true header) = Unit {0}
  GivesName name (written front false header) = Readable name front header

  module _ (nobody : ℕ) (owner : Option (Bytes × Bytes)) (blocking room : ℕ) (name : Bytes)
      (plain : no_nul name ≡ true) (bytes : OwnerIsBytes owner) (one_block : 1 ≤ blocking)
      (some_room : 1 ≤ room) (small : length name + 1 < 8 ^ 11) where
    long_Readable :
        (f : Format) (header : Block)
        → Readable name (name_link f nobody owner blocking room name) header
    long_Readable f header fuel h bs m k = long_ReadsName strip mode info h bs m fuel name _ plain (
        flat_round-write_gnu_long_link strip mode no_next info f nobody owner blocking room name
          b'L' (h ∷ bs) cooked refl bytes one_block some_room small)

    ustar_GivesName : GivesName name (or_refused (write_ustar_long_name name))
    ustar_GivesName =
        go (write_ustar_long_name name)
          (λ header e. write_ustar_long_name-IsSplit name header plain e)
      where
        go :
            (r : Option Block)
            → ((header : Block) → r ≡ some header → IsSplit name header)
            → GivesName name (or_refused r)
        go none h = tt
        go (some header) split = λ fuel h bs m k.
            short_ReadsName strip mode info h bs m (suc fuel) name
              (name_of-IsSplit header h name k (split header refl))

    write_long_name-GivesName :
        (f : Format)
        → GivesName name (write_long_name f (name_link f nobody owner blocking room) name)
    unfolding write_long_name
    write_long_name-GivesName default = tt
    write_long_name-GivesName posix = tt
    write_long_name-GivesName v7 = elim (Bool-cases (ltb (name_field_size - 1) (length name))) [
      | inl long ↦ rw long tt
      | inr short ↦ rw short (short_Readable v7 name plain (ground arith))
    ]
    write_long_name-GivesName oldgnu = long_Readable oldgnu (write_short_name oldgnu name)
    write_long_name-GivesName gnu = long_Readable gnu (write_short_name gnu name)
    write_long_name-GivesName ustar = ustar_GivesName
    write_long_name-GivesName star = ustar_GivesName

    write_header_name-GivesName :
        (f : Format)
        → GivesName name (write_header_name f (name_link f nobody owner blocking room) name)
    unfolding write_header_name
    write_header_name-GivesName f = elim (Bool-cases (is_posix f && not (string_ascii_p name))) [
      | inl pax ↦ rw pax tt
      | inr plain_text ↦ rw plain_text (elim (Bool-cases (ltb (room_for f 100) (length name))) [
        | inl long ↦ rw long (write_long_name-GivesName f)
        | inr short ↦ rw short (short_Readable f name plain (ground arith))
      ])
    ]

-- A name that `write_header_name` stores in the header, or in blocks in front of it, is the name
-- that `read_header` gives for the member: in every format, for a name with no NUL of less than
-- 8 ^ 11 - 1 bytes, wherever the records of the archive end. The blocks of the archive have 512
-- bytes; the member's header is accepted, has an ordinary type and keeps the name fields that were
-- written, with the magic where there is a prefix.
pub read_header-write_header_name :
    (f : Format) (nobody : ℕ) (owner : Option (Bytes × Bytes)) (blocking room : ℕ) (name : Bytes)
    (strip : Bytes → Bytes × Bool) (mode : ReadHeaderMode) (info : Info) (front : List Block)
    (header h : Block) (bs : List Block) (fuel : ℕ) (s : Input)
    → no_nul name ≡ true
    → OwnerIsBytes owner
    → 1 ≤ blocking
    → 1 ≤ room
    → length name + 1 < 8 ^ 11
    → is_raw mode ≡ false
    → write_header_name f (name_link f nobody owner blocking room) name ≡ written front false header
    → BeginsMember h
    → KeepsName header h
    → All IsBlock (pending s)
    → pending s ≡ front ++ (h ∷ bs)
    → ReadsName name info h (h ∷ bs) (flat (read_header (suc (suc fuel)) strip mode info s))
read_header-write_header_name f nobody owner blocking room name strip mode info front header h bs
      fuel s plain bytes one_block some_room small cooked e m k blocks left =
    subst (ReadsName name info h (h ∷ bs))
      (sym (
        flat-read_header (suc (suc fuel)) strip mode info s blocks
        ∙ ap (flat_loop (suc (suc fuel)) strip mode no_next info) left))
      (subst (GivesName strip mode info cooked name) e
        (write_header_name-GivesName strip mode info cooked nobody owner blocking room name plain
          bytes one_block some_room small f)
        fuel h bs m k)
