-- ===== src/Create/Start/Steps.antt =====
-- The numeric fields that `start_header` writes in the GNU formats can be read back.
use tar.Base.{
  ℕ, suc, ◌+◌, ◌-◌, ◌≤◌, ◌≡◌, refl, ◌∙◌, ap, arith, Bool, true, false, Option, none, some, [], ◌∷◌,
  if◌then◌else◌,
}
use tar.Base.Put.{put}
use tar.Base.Text.{Bytes}
use tar.Base.Words.{IsU64, negate, minus_one}
use tar.Stream.{block_size}
use tar.Field.{Format}
use tar.Field.Encode.{to_chars, max_val_with_digits, gnu_format}
use tar.Field.Decode.{Decoded, from_header}
use tar.Field.RoundTrip.{from_header-to_chars_gnu}
use tar.Field.Types.{
  max_u32, max_i64, min_i64, is_negative, off_to_chars, time_to_chars, uid_to_chars, gid_to_chars,
  major_to_chars, minor_to_chars, off_from_header, time_from_header, uid_from_header,
  gid_from_header, major_from_header, minor_from_header,
}
use tar.Reader.Fields.{field}
use tar.Create.{is_posix}
use tar.Create.ByteFields.{IsHeader}
use tar.Create.Writes.{to_chars-Writes}
use tar.Create.Touches.{Touches, Writes-Touches}
use tar.Create.Start.{
  Draft, Options, Stamp, place, put_uid, put_gid, put_size, put_mtime, put_devmajor, put_devminor,
}

pub gnu_format-not_posix : (f : Format) → gnu_format f ≡ true → is_posix f ≡ false
gnu_format-not_posix f h = ground arith

-- A step that succeeds, stores nothing, and writes a field that is read as it should be.
pub record Placed (o n : ℕ) (Reads : Bytes → Type 0) (d : Draft) (r : Option Draft) : Type 0 where
  pub after : Draft
  pub result : r ≡ some after
  pub stored : after.stored ≡ d.stored
  pub touches : Touches ((o, n) ∷ []) d.header after.header
  pub reads : Reads (field o n after.header)

module _ (f : Format) (gnu : gnu_format f ≡ true) where
  number-Placed :
      (negative : Bool) (v valsize : ℕ) (substitute : Option (Bool × ℕ)) (o n : ℕ) (d : Draft)
      (minval maxval : ℕ)
      → IsHeader d.header
      → o + suc (suc n) ≤ block_size
      → IsU64 v
      → (if negative then minus_one - v else v) ≤ max_val_with_digits (suc n) 8
      → (if negative then negate v else v) ≤ (if negative then negate minval else maxval)
      → Placed o
          (suc (suc n))
          (λ b. (from_header b true minval maxval false false false).value ≡ v)
          d
          (place o
            (to_chars f negative v valsize substitute
              (field o (suc (suc n)) d.header)
              (suc (suc n))
              false)
            d)
  number-Placed negative v valsize substitute o n d minval maxval whole inside word fits range =
      let old = field o (suc (suc n)) d.header in
      let e = to_chars f negative v valsize substitute old (suc (suc n)) false in
      let w = to_chars-Writes f negative v valsize substitute o (suc n) d.header whole inside in
      let r =
        from_header-to_chars_gnu f negative v valsize substitute old n false true minval maxval
          false false gnu word fits range in
      record {
        after = record d { header = put o e.bytes d.header };
        result =
            ap
              (λ (b : Bool).
                if b then some (record d { header = put o e.bytes d.header }) else none)
              r.0;
        stored = refl;
        touches = Writes-Touches o (suc (suc n)) e.bytes d.header (put o e.bytes d.header) w;
        reads =
            ap (λ (b : Bytes). (from_header b true minval maxval false false false).value) w.reads
            ∙ ap (λ (x : Decoded). x.value) r.2;
      }

module _ (o : Options) (gnu : gnu_format o.archive_format ≡ true) (d : Draft)
    (whole : IsHeader d.header) where
  pub put_uid-Placed :
      (uid : ℕ)
      → uid ≤ max_u32
      → Placed 108 8 (λ b. (uid_from_header b false).value ≡ uid) d (put_uid o uid d)
  unfolding put_uid uid_to_chars uid_from_header
  put_uid-Placed uid small = rw (gnu_format-not_posix o.archive_format gnu) (
      number-Placed o.archive_format gnu false uid 4 (some (false, o.uid_nobody)) 108 6 d 0 max_u32
        whole (omega arith) (omega arith) (unfold max_val_with_digits in omega arith) small)

  pub put_gid-Placed :
      (gid : ℕ)
      → gid ≤ max_u32
      → Placed 116 8 (λ b. (gid_from_header b false).value ≡ gid) d (put_gid o gid d)
  unfolding put_gid gid_to_chars gid_from_header
  put_gid-Placed gid small = rw (gnu_format-not_posix o.archive_format gnu) (
      number-Placed o.archive_format gnu false gid 4 (some (false, o.gid_nobody)) 116 6 d 0 max_u32
        whole (omega arith) (omega arith) (unfold max_val_with_digits in omega arith) small)

  pub put_size-Placed :
      (size : ℕ)
      → size ≤ max_i64
      → Placed 124 12 (λ b. (off_from_header b false).value ≡ size) d (put_size o size d)
  unfolding put_size off_to_chars off_from_header
  put_size-Placed size small =
      let plain : is_negative size ≡ false = ground arith in
      rw (gnu_format-not_posix o.archive_format gnu) (
        rw plain (
          number-Placed o.archive_format gnu false size 8 none 124 10 d 0 max_i64 whole
            (omega arith) (omega arith) (unfold max_val_with_digits in omega arith) small))

  pub put_mtime-Placed :
      (t : Stamp)
      → IsU64 t.tv_sec
      → Placed 136 12 (λ b. (time_from_header b false).value ≡ t.tv_sec) d (put_mtime o t d)
  unfolding put_mtime time_to_chars time_from_header
  put_mtime-Placed t word = rw (gnu_format-not_posix o.archive_format gnu) (
      number-Placed o.archive_format gnu (is_negative t.tv_sec) t.tv_sec 8 none 136 10 d min_i64
        max_i64 whole (omega arith) word (unfold max_val_with_digits in ground arith)
        (ground arith))

  pub put_devmajor-Placed :
      (v : ℕ)
      → v ≤ max_u32
      → Placed 329 8 (λ b. (major_from_header b false).value ≡ v) d (put_devmajor o v d)
  unfolding put_devmajor major_to_chars major_from_header
  put_devmajor-Placed v small = rw (gnu_format-not_posix o.archive_format gnu) (
      number-Placed o.archive_format gnu false v 4 none 329 6 d 0 max_u32 whole (omega arith)
        (omega arith) (unfold max_val_with_digits in omega arith) small)

  pub put_devminor-Placed :
      (v : ℕ)
      → v ≤ max_u32
      → Placed 337 8 (λ b. (minor_from_header b false).value ≡ v) d (put_devminor o v d)
  unfolding put_devminor minor_to_chars minor_from_header
  put_devminor-Placed v small = rw (gnu_format-not_posix o.archive_format gnu) (
      number-Placed o.archive_format gnu false v 4 none 337 6 d 0 max_u32 whole (omega arith)
        (omega arith) (unfold max_val_with_digits in omega arith) small)
