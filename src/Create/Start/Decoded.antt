-- ===== src/Create/Start/Decoded.antt =====
-- From `start_header` of src/create.c to `decode_header` of src/list.c.
use tar.Base.{
  ℕ, zero, suc, ◌≤◌, ◌≡◌, refl, sym, ◌∙◌, ap, arith, Bool, true, false, List, [], ◌∷◌, take, drop,
  if◌then◌else◌,
}
use tar.Base.Text.{Bytes, streq}
use tar.Stream.{Block}
use tar.Field.{Format, default, v7, oldgnu, ustar, posix, star, gnu}
use tar.Field.Encode.{gnu_format, is_oldgnu}
use tar.Field.Types.{major_from_header, minor_from_header}
use tar.Field.Mode.{ModeField, known_bits, mode_from_header}
use tar.Reader.Fields.{field, typeflag, size_of, cstring}
use tar.Reader.Decode.{
  Member, Decoder, header_format, header_owner, header_rdev, is_device_type, basic_member,
  mark_kind, decode_header, owner_id, header_uid, header_gid,
}
use tar.Create.{oldgnu_magic}
use tar.Create.Touches.{Touches}
use tar.Create.Start.{Options, Stat, adjusted_mode, chosen_mtime, is_device}
use tar.Create.Start.Names.{HoldsName, named, named_id, cstring-HoldsName}
use tar.Create.Start.Numbers.{NumbersRead, NumbersRead-kept}
use tar.Create.Start.Whole.{uname_of, gname_of, HeaderFits, Filled}

-- The parts of a member's header that are written behind `start_header`: the name
-- of the link, the type and the checksum.
abbrev pub later_parts : List (ℕ × ℕ)
later_parts = (157, 100) ∷ (156, 1) ∷ (148, 8) ∷ []

-- What `decode_header` makes of the header `h` of a member that has the attributes `st`.
pub record ReadsStat (o : Options) (st : Stat) (d : Decoder) (n : ℕ) (h : Block) (before : Member)
    : Type 0 where
  pub member : Member
  pub decoded :
      decode_header d h n before
      ≡ (o.archive_format, mark_kind d o.archive_format h (d.xheader_decode member))
  pub same_mode : member.st_mode ≡ known_bits (adjusted_mode o st)
  pub same_uid : member.st_uid ≡ (
      if d.do_user_group
      then named_id d.numeric_owner_option d.uname_to_uid
          (uname_of o st)
          (o.owner_map_translate st.st_uid).0
      else before.st_uid)
  pub same_gid : member.st_gid ≡ (
      if d.do_user_group
      then named_id d.numeric_owner_option d.gname_to_gid
          (gname_of o st)
          (o.group_map_translate st.st_gid).0
      else before.st_gid)
  pub same_rdev :
      member.st_rdev
      ≡ (if is_device_type (typeflag h) then d.makedev st.devmajor st.devminor else 0)
  pub same_mtime :
      member.mtime
      ≡ record { tv_sec = (chosen_mtime o.set_mtime_option st.mtime).tv_sec; tv_nsec = 0 }
  pub same_uname : member.uname ≡ named (uname_of o st)
  pub same_gname : member.gname ≡ named (gname_of o st)
  pub same_size : size_of h ≡ st.st_size

-- A field that begins another.
pub take-take : (m k : ℕ) (xs : Bytes) → m ≤ k → take m (take k xs) ≡ take m xs
take-take zero k xs h = refl
take-take (suc m) zero xs h = absurd (omega arith)
take-take (suc m) (suc k) [] h = refl
take-take (suc m) (suc k) (x ∷ xs) h = ap (λ (l : Bytes). x ∷ l) (take-take m k xs (omega arith))

header_format-gnu :
    (f : Format) (h : Block) (n : ℕ)
    → gnu_format f ≡ true
    → field 257 8 h ≡ oldgnu_magic
    → header_format h (is_oldgnu f) n ≡ f
unfolding header_format streq
header_format-gnu f h n g magic =
    rw (sym (take-take 6 8 (drop 257 h) (omega arith)) ∙ ap (take 6) magic) (rw magic (which f g))
  where
    which : (f : Format) → gnu_format f ≡ true → (if is_oldgnu f then oldgnu else gnu) ≡ f
    which oldgnu g = refl
    which gnu g = refl
    which default g = absurd (cc)
    which v7 g = absurd (cc)
    which ustar g = absurd (cc)
    which posix g = absurd (cc)
    which star g = absurd (cc)

if_same :
    {A : Type 0} (k : A → ℕ) (b : Bool) (x z : A) (y w : ℕ)
    → (b ≡ true → k x ≡ y)
    → k z ≡ w
    → k (if b then x else z) ≡ (if b then y else w)
if_same k true x z y w h e = h refl
if_same k false x z y w h e = e

-- What the header says of the member.
record ReadsBasic (o : Options) (st : Stat) (d : Decoder) (h : Block) : Type 0 where
  format :
      (n : ℕ) → header_format h (mode_from_header (field 100 8 h) false).hbits n ≡ o.archive_format
  numbers :
      NumbersRead o st (o.owner_map_translate st.st_uid).0 (o.group_map_translate st.st_gid).0 h
  uname_held : HoldsName 265 (uname_of o st) h
  gname_held : HoldsName 297 (gname_of o st) h

Filled-ReadsBasic :
    (o : Options) (st : Stat) (d : Decoder) (before header h : Block)
    → HeaderFits o st
    → Filled o st before header
    → Touches later_parts header h
    → ReadsBasic o st d h
Filled-ReadsBasic o st d before header h fits filled t =
    let numbers = NumbersRead-kept o st _ _ later_parts header h t refl filled.numbers in
    record {
      format = λ n.
          ap (λ (m : ModeField). header_format h m.hbits n) numbers.mode
          ∙ header_format-gnu o.archive_format h n fits.numbers.gnu
              (t.kept 257 8 refl ∙ filled.magic);
      numbers = numbers;
      uname_held =
          cstring-HoldsName 265 (uname_of o st) h
            (ap cstring (t.kept 265 32 refl) ∙ filled.uname_read) fits.uname_fits.fits;
      gname_held =
          cstring-HoldsName 297 (gname_of o st) h
            (ap cstring (t.kept 297 32 refl) ∙ filled.gname_read) fits.gname_fits.fits;
    }

module _ (d : Decoder) (h : Block) where
  header_owner-gnu :
      (f : Format) (before : ℕ × ℕ)
      → gnu_format f ≡ true
      → header_owner d f h before ≡ (
          if d.do_user_group
          then (
            owner_id d.numeric_owner_option d.uname_to_uid (drop 265 h) (header_uid h),
            owner_id d.numeric_owner_option d.gname_to_gid (drop 297 h) (header_gid h),
          )
          else before)
  unfolding header_owner
  header_owner-gnu oldgnu before g = refl
  header_owner-gnu gnu before g = refl
  header_owner-gnu default before g = absurd (cc)
  header_owner-gnu v7 before g = absurd (cc)
  header_owner-gnu ustar before g = absurd (cc)
  header_owner-gnu posix before g = absurd (cc)
  header_owner-gnu star before g = absurd (cc)

  header_rdev-gnu :
      (f : Format)
      → gnu_format f ≡ true
      → header_rdev d f h ≡ (
          if is_device_type (typeflag h)
          then d.makedev
              (major_from_header (field 329 8 h) false).value
              (minor_from_header (field 337 8 h) false).value
          else 0)
  unfolding header_rdev
  header_rdev-gnu oldgnu g = refl
  header_rdev-gnu gnu g = refl
  header_rdev-gnu default g = absurd (cc)
  header_rdev-gnu v7 g = absurd (cc)
  header_rdev-gnu ustar g = absurd (cc)
  header_rdev-gnu posix g = absurd (cc)
  header_rdev-gnu star g = absurd (cc)

-- `decode_header` gives back what `start_header` was told, from every header that it makes in a GNU
-- format, when what is written later is the checksum, the type and the name of a link.
pub Filled-ReadsStat :
    (o : Options) (st : Stat) (d : Decoder) (n : ℕ) (start header h : Block) (before : Member)
    → HeaderFits o st
    → is_device (adjusted_mode o st) ≡ is_device_type (typeflag h)
    → Filled o st start header
    → Touches later_parts header h
    → ReadsStat o st d n h before
unfolding decode_header basic_member size_of
Filled-ReadsStat o st d n start header h before fits kind filled t =
    let f = o.archive_format in
    let g = fits.numbers.gnu in
    let r = Filled-ReadsBasic o st d start header h fits filled t in
    let owner = header_owner-gnu d h f (before.st_uid, before.st_gid) g in
    record {
      member = basic_member d f h before;
      decoded =
          ap (λ (k : Format). (k, mark_kind d k h (d.xheader_decode (basic_member d k h before))))
            (r.format n);
      same_mode = ap (λ (m : ModeField). m.mode) r.numbers.mode;
      same_uid =
          ap (λ (p : ℕ × ℕ). p.0) owner
          ∙ if_same (λ (p : ℕ × ℕ). p.0) d.do_user_group _ _ _ _
              (λ b.
                r.uname_held.id d.numeric_owner_option d.uname_to_uid (header_uid h)
                ∙ ap (named_id d.numeric_owner_option d.uname_to_uid (uname_of o st))
                    r.numbers.uid_read)
              refl;
      same_gid =
          ap (λ (p : ℕ × ℕ). p.1) owner
          ∙ if_same (λ (p : ℕ × ℕ). p.1) d.do_user_group _ _ _ _
              (λ b.
                r.gname_held.id d.numeric_owner_option d.gname_to_gid (header_gid h)
                ∙ ap (named_id d.numeric_owner_option d.gname_to_gid (gname_of o st))
                    r.numbers.gid_read)
              refl;
      same_rdev =
          header_rdev-gnu d h f g
          ∙ if_same (λ (v : ℕ). v) (is_device_type (typeflag h)) _ _ _ _
              (λ b.
                ap (λ (v : ℕ). d.makedev v (minor_from_header (field 337 8 h) false).value)
                  (r.numbers.devmajor (kind ∙ b))
                ∙ ap (d.makedev st.devmajor) (r.numbers.devminor (kind ∙ b)))
              refl;
      same_mtime = ap (λ (s : ℕ). record { tv_sec = s; tv_nsec = 0 }) r.numbers.mtime;
      same_uname = r.uname_held.string;
      same_gname = r.gname_held.string;
      same_size = r.numbers.size;
    }
