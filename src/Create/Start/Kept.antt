-- ===== src/Create/Start/Kept.antt =====
-- The header that `start_header` makes is a block of bytes, in every format.
use tar.Create.Start.Parts.{
  IsWhole, WholeDraft, put_numbers-WholeDraft, put_times-IsWhole, put_type-IsWhole,
  put_magic-WholeDraft, put_names-IsWhole, store_attributes-IsWhole,
}
use tar.Base.{
  ◌+◌, ◌-◌, not, ◌&&◌, ◌||◌, Option, none, some, List, length, take, drop, All, both, leb, ltb,
  ◌==◌, if◌then◌else◌,
}
use tar.Base.Slices.{All-take_of, All-drop_of}
use tar.Base.Text.{Bytes}
use tar.Base.Words.{IsByte}
use tar.Stream.{Block}
use tar.Field.{Format, default, v7, oldgnu, ustar, posix, star, gnu}
use tar.Field.Encode.{is_oldgnu}
use tar.Create.{
  Name, refused, aborted, written, or_refused, empty_block, split_long_name, write_ustar_long_name,
  write_long_name, write_header_name, is_posix, string_ascii_p, prefix_field_size, name_field_size,
}
use tar.Create.ByteFields.{IsHeader, put-IsHeader}
use tar.Create.Private.{empty_block-IsHeader}
use tar.Create.Start.{
  Draft, Options, Stat, Start, not_started, start_aborted, started, put_times, put_type, put_magic,
  is_v7, name_or, put_owner_names, store_attributes, with_magic, unless_refused, put_numbers,
  fill_header, start_behind, start_header,
}
use tar.Create.Start.Whole.{write_short_name-IsHeader}

abbrev pub WholeStart : Start → Type 0
WholeStart (not_started front) = Unit {0}
WholeStart start_aborted = Unit {0}
WholeStart (started front stored header) = IsHeader header

abbrev WholeName : Name → Type 0
WholeName refused = Unit {0}
WholeName aborted = Unit {0}
WholeName (written front path header) = IsHeader header

-- The names of a member and its owner are bytes.
pub record NamesAreBytes (o : Options) (st : Stat) : Type 0 where
  pub name : All IsByte st.file_name
  pub user : All IsByte (
      name_or
        (o.owner_map_translate st.st_uid).1
        (o.uid_to_uname (o.owner_map_translate st.st_uid).0))
  pub group : All IsByte (
      name_or
        (o.group_map_translate st.st_gid).1
        (o.gid_to_gname (o.group_map_translate st.st_gid).0))

module _ (o : Options) (st : Stat) (names : NamesAreBytes o st) where
  owner_names-IsWhole :
      (d : Draft)
      → IsWhole d
      → IsWhole
          (put_owner_names o (o.owner_map_translate st.st_uid) (o.group_map_translate st.st_gid) d)
  unfolding put_owner_names
  owner_names-IsWhole d w =
      both IsWhole (is_v7 o.archive_format || o.numeric_owner_option) w
        (put_names-IsWhole o.archive_format _ _ d names.user names.group w)

  with_magic-WholeStart :
      (front : List Block) (r : Option Draft)
      → WholeDraft r
      → WholeStart (
          with_magic r λ typed.
            let done = store_attributes o st (
              put_owner_names o
                (o.owner_map_translate st.st_uid)
                (o.group_map_translate st.st_gid)
                typed) in
            started front done.stored done.header)
  with_magic-WholeStart front none w = tt
  with_magic-WholeStart front (some typed) w =
      (store_attributes-IsWhole o st _ (owner_names-IsWhole typed w)).header_whole

  fill_header-WholeStart :
      (front : List Block) (d : Draft) → IsWhole d → WholeStart (fill_header o st front d)
  unfolding fill_header
  fill_header-WholeStart front d w =
      go
        (put_numbers o st (o.owner_map_translate st.st_uid).0 (o.group_map_translate st.st_gid).0 d)
        (put_numbers-WholeDraft o st _ _ d w)
    where
      go :
          (r : Option Draft)
          → WholeDraft r
          → WholeStart (
              unless_refused front r λ numbers.
                with_magic
                  (put_magic o.archive_format (put_type o.archive_format (put_times o st numbers)))
                  λ typed.
                    let done = store_attributes o st (
                      put_owner_names o
                        (o.owner_map_translate st.st_uid)
                        (o.group_map_translate st.st_gid)
                        typed) in
                    started front done.stored done.header)
      go none w = tt
      go (some numbers) w = with_magic-WholeStart front _ (
          put_magic-WholeDraft o.archive_format _
            (put_type-IsWhole o.archive_format _ (put_times-IsWhole o st numbers w)))

write_ustar_long_name-WholeName :
    (name : Bytes) → All IsByte name → WholeName (or_refused (write_ustar_long_name name))
unfolding write_ustar_long_name
write_ustar_long_name-WholeName name bytes =
    let i = split_long_name name (length name) in
    let whole = put-IsHeader 0 (drop (i + 1) name) _ (All-drop_of IsByte (i + 1) name bytes) (
      put-IsHeader 345 (take i name) empty_block (All-take_of IsByte i name bytes)
        empty_block-IsHeader) in
    both (λ (r : Option Block). WholeName (or_refused r))
      (ltb (prefix_field_size + name_field_size + 1) (length name)) tt
      (both (λ (r : Option Block). WholeName (or_refused r))
        (i == 0 || not (ltb 0 (length name - i - 1) && leb (length name - i - 1) name_field_size))
        tt whole)

write_long_name-WholeName :
    (f : Format) (long_link : Bytes → List Block) (name : Bytes)
    → All IsByte name
    → WholeName (write_long_name f long_link name)
unfolding write_long_name
write_long_name-WholeName default long_link name bytes = tt
write_long_name-WholeName posix long_link name bytes = write_short_name-IsHeader posix name bytes
write_long_name-WholeName v7 long_link name bytes =
    both WholeName (ltb (name_field_size - 1) (length name)) tt
      (write_short_name-IsHeader v7 name bytes)
write_long_name-WholeName oldgnu long_link name bytes = write_short_name-IsHeader oldgnu name bytes
write_long_name-WholeName gnu long_link name bytes = write_short_name-IsHeader gnu name bytes
write_long_name-WholeName ustar long_link name bytes = write_ustar_long_name-WholeName name bytes
write_long_name-WholeName star long_link name bytes = write_ustar_long_name-WholeName name bytes

write_header_name-WholeName :
    (f : Format) (long_link : Bytes → List Block) (name : Bytes)
    → All IsByte name
    → WholeName (write_header_name f long_link name)
unfolding write_header_name
write_header_name-WholeName f long_link name bytes =
    both WholeName (is_posix f && not (string_ascii_p name))
      (write_short_name-IsHeader f name bytes)
      (both WholeName (ltb (name_field_size - (if is_oldgnu f then 1 else 0)) (length name))
        (write_long_name-WholeName f long_link name bytes) (write_short_name-IsHeader f name bytes))

start_behind-WholeStart :
    (o : Options) (st : Stat) (n : Name)
    → NamesAreBytes o st
    → WholeName n
    → WholeStart (start_behind o st n)
start_behind-WholeStart o st refused names w = tt
start_behind-WholeStart o st aborted names w = tt
start_behind-WholeStart o st (written front path header) names w =
    fill_header-WholeStart o st names front _ record { header_whole = w }

-- Whatever the format, the attributes and the options, the header that `start_header` makes, where
-- it makes one, is 512 bytes: for names of bytes.
pub start_header-WholeStart :
    (o : Options) (long_link : Bytes → List Block) (st : Stat)
    → NamesAreBytes o st
    → WholeStart (start_header o long_link st)
unfolding start_header
start_header-WholeStart o long_link st names =
    start_behind-WholeStart o st (write_header_name o.archive_format long_link st.file_name) names
      (write_header_name-WholeName o.archive_format long_link st.file_name names.name)
