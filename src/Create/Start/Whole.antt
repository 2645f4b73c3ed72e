-- ===== src/Create/Start/Whole.antt =====
-- The whole header that `start_header` makes in the GNU formats.
use tar.Create.Start.Others.{
  time_parts, put_times-Keeps, put_type-Keeps, put_type-reads, put_magic-Magic,
  store_attributes-gnu,
}
use tar.Base.{
  ℕ, ◌≤◌, ◌≡◌, refl, ◌∙◌, ap, arith, true, false, List, [], ◌∷◌, ◌++◌, length, take, drop, All, ltb,
  if◌then◌else◌, inl, inr, Bool-cases,
}
use tar.Base.Put.{drop-put}
use tar.Base.Text.{Bytes}
use tar.Base.Words.{IsByte}
use tar.Stream.{Block}
use tar.Field.{Format, default, v7, oldgnu, ustar, posix, star, gnu}
use tar.Field.Encode.{gnu_format, tar_name_copy_str}
use tar.Reader.Fields.{field, cstring}
use tar.Create.{
  written, empty_block, put_name, write_short_name, write_long_name, oldgnu_magic,
  write_header_name,
}
use tar.Create.ByteFields.{IsHeader, put-IsHeader, field-IsByte, tar_name_copy_str-IsByte}
use tar.Create.Private.{empty_block-IsHeader}
use tar.Create.Strings.{length-tar_name_copy_str, room_for}
use tar.Create.Touches.{Touches, Touches-join}
use tar.Create.Start.{
  Draft, Options, Stat, Start, started, put_times, put_type, put_owner_names, regular_type,
  fill_header, start_behind, start_header,
}
use tar.Create.Start.Steps.{gnu_format-not_posix}
use tar.Create.Start.Numbers.{
  NumbersFit, NumbersRead, NumbersRead-kept, numeric_parts, put_numbers-Numbers,
}
use tar.Create.Start.Names.{NameFits, owner_name, name_parts, put_owner_names-NamesRead}

abbrev pub uname_of : Options → Stat → Bytes
uname_of o st =
    owner_name o (o.owner_map_translate st.st_uid).1
      (o.uid_to_uname (o.owner_map_translate st.st_uid).0)

abbrev pub gname_of : Options → Stat → Bytes
gname_of o st =
    owner_name o (o.group_map_translate st.st_gid).1
      (o.gid_to_gname (o.group_map_translate st.st_gid).0)

-- What a header in a GNU format can hold.
pub record HeaderFits (o : Options) (st : Stat) : Type 0 where
  pub numbers :
      NumbersFit o st (o.owner_map_translate st.st_uid).0 (o.group_map_translate st.st_gid).0
  pub uname_fits : NameFits (uname_of o st)
  pub gname_fits : NameFits (gname_of o st)

-- The parts of the header in which `fill_header` writes.
abbrev pub filled_parts : List (ℕ × ℕ)
filled_parts = numeric_parts ++ (time_parts ++ (((156, 1) ∷ []) ++ (((257, 8) ∷ []) ++ name_parts)))

pub record Filled (o : Options) (st : Stat) (before header : Block) : Type 0 where
  pub touches : Touches filled_parts before header
  pub numbers :
      NumbersRead o st
        (o.owner_map_translate st.st_uid).0
        (o.group_map_translate st.st_gid).0
        header
  pub magic : field 257 8 header ≡ oldgnu_magic
  pub type_written : field 156 1 header ≡ regular_type o.archive_format ∷ []
  pub uname_read : cstring (field 265 32 header) ≡ uname_of o st
  pub gname_read : cstring (field 297 32 header) ≡ gname_of o st

module _ (o : Options) (st : Stat) (fits : HeaderFits o st) where
  -- `fill_header` behind a name that left the other fields at zero.
  fill_header-Filled :
      (front : List Block) (d : Draft)
      → IsHeader d.header
      → cstring (field 265 32 d.header) ≡ []
      → cstring (field 297 32 d.header) ≡ []
      → (header : Block) × (fill_header o st front d ≡ started front d.stored header)
        × Filled o st d.header header
  unfolding fill_header
  fill_header-Filled front d whole no_uname no_gname =
      let f = o.archive_format in
      let g = fits.numbers.gnu in
      let owner = o.owner_map_translate st.st_uid in
      let group = o.group_map_translate st.st_gid in
      let a = put_numbers-Numbers o st owner.0 group.0 fits.numbers d whole in
      let b = put_times-Keeps o st a.after g a.touches.whole in
      let c = put_type-Keeps f (put_times o st a.after) b.touches.whole in
      let m = put_magic-Magic f (put_type f (put_times o st a.after)) g c.touches.whole in
      let to_c = Touches-join time_parts ((156, 1) ∷ []) _ _ _ b.touches c.touches in
      let to_m =
        Touches-join (time_parts ++ ((156, 1) ∷ [])) ((257, 8) ∷ []) _ _ _ to_c m.keeps.touches in
      let all_m = Touches-join numeric_parts _ _ _ _ a.touches to_m in
      let n =
        put_owner_names-NamesRead o owner.0 group.0 owner.1 group.1 m.after g m.keeps.touches.whole
          (ap cstring (all_m.kept 265 32 refl) ∙ no_uname)
          (ap cstring (all_m.kept 297 32 refl) ∙ no_gname) fits.uname_fits fits.gname_fits in
      let named = put_owner_names o owner group m.after in
      (
        named.header,
        rw a.result (
            rw m.result (
              rw (store_attributes-gnu o st named g) (
                ap (λ (l : List Bytes). started front l named.header)
                  (n.stored ∙ m.keeps.stored ∙ c.stored ∙ b.stored ∙ a.stored)))),
        record {
          touches = Touches-join _ name_parts _ _ _ all_m n.touches;
          numbers =
              NumbersRead-kept o st owner.0 group.0 _ _ _
                (Touches-join _ name_parts _ _ _ to_m n.touches) refl a.reads;
          type_written =
              n.touches.kept 156 1 refl
              ∙ m.keeps.touches.kept 156 1 refl
              ∙ put_type-reads f (put_times o st a.after) b.touches.whole;
          magic = n.touches.kept 257 8 refl ∙ m.reads;
          uname_read = n.uname_read;
          gname_read = n.gname_read;
        },
      )

pub write_short_name-IsHeader :
    (f : Format) (name : Bytes) → All IsByte name → IsHeader (write_short_name f name)
unfolding write_short_name put_name
write_short_name-IsHeader f name bytes =
    put-IsHeader 0 (tar_name_copy_str f (field 0 100 empty_block) name 100) empty_block
      (tar_name_copy_str-IsByte f (field 0 100 empty_block) name 100
        (field-IsByte 0 100 empty_block empty_block-IsHeader) bytes)
      empty_block-IsHeader

-- Behind the name there is nothing yet.
pub drop-write_short_name :
    (n : ℕ) (f : Format) (name : Bytes)
    → 100 ≤ n
    → drop n (write_short_name f name) ≡ drop n empty_block
unfolding write_short_name put_name
drop-write_short_name n f name h =
    drop-put n 0 (tar_name_copy_str f (field 0 100 empty_block) name 100) empty_block
      (omega (arith, length-tar_name_copy_str f (field 0 100 empty_block) name 100))

-- The blocks in front of a header, for a name that its field does not hold.
abbrev pub long_front : Format → (Bytes → List Block) → Bytes → List Block
long_front f long_link name = if ltb (room_for f 100) (length name) then long_link name else []

write_long_name-gnu :
    (f : Format) (long_link : Bytes → List Block) (name : Bytes)
    → gnu_format f ≡ true
    → write_long_name f long_link name ≡ written (long_link name) false (write_short_name f name)
unfolding write_long_name
write_long_name-gnu oldgnu long_link name h = refl
write_long_name-gnu gnu long_link name h = refl
write_long_name-gnu default long_link name h = absurd (cc)
write_long_name-gnu v7 long_link name h = absurd (cc)
write_long_name-gnu ustar long_link name h = absurd (cc)
write_long_name-gnu posix long_link name h = absurd (cc)
write_long_name-gnu star long_link name h = absurd (cc)

-- The GNU formats take every name.
write_header_name-gnu :
    (f : Format) (long_link : Bytes → List Block) (name : Bytes)
    → gnu_format f ≡ true
    → write_header_name f long_link name
      ≡ written (long_front f long_link name) false (write_short_name f name)
unfolding write_header_name
write_header_name-gnu f long_link name g =
    rw (gnu_format-not_posix f g) (elim (Bool-cases (ltb (room_for f 100) (length name))) [
      | inl long ↦ rw long (write_long_name-gnu f long_link name g)
      | inr short ↦ rw short refl
    ])

-- `start_header` makes a header that is filled behind the name.
pub record Begun (o : Options) (long_link : Bytes → List Block) (st : Stat) (r : Start)
    : Type 0 where
  pub header : Block
  pub result : r ≡ started (long_front o.archive_format long_link st.file_name) [] header
  pub filled : Filled o st (write_short_name o.archive_format st.file_name) header

pub start_header-Begun :
    (o : Options) (long_link : Bytes → List Block) (st : Stat)
    → HeaderFits o st
    → All IsByte st.file_name
    → Begun o long_link st (start_header o long_link st)
unfolding start_header
start_header-Begun o long_link st fits bytes =
    let f = o.archive_format in
    let named = write_short_name f st.file_name in
    let (header, result, filled) =
      fill_header-Filled o st fits (long_front f long_link st.file_name)
        (record { header = named; stored = [] }) (write_short_name-IsHeader f st.file_name bytes)
        (ap (λ (l : Bytes). cstring (take 32 l))
          (drop-write_short_name 265 f st.file_name (omega arith)))
        (ap (λ (l : Bytes). cstring (take 32 l))
          (drop-write_short_name 297 f st.file_name (omega arith))) in
    record {
      header = header;
      result =
          ap (start_behind o st) (write_header_name-gnu f long_link st.file_name fits.numbers.gnu)
          ∙ result;
      filled = filled;
    }
