-- ===== src/Create/Start/Parts.antt =====
-- Each step of `start_header` keeps the header a block of bytes, in every format.
use tar.Base.{
  ℕ, suc, ◌+◌, ◌≤◌, refl, arith, Bool, false, ◌&&◌, Option, none, some, [], ◌∷◌, All, both,
}
use tar.Base.Put.{put}
use tar.Base.Text.{Bytes, codes}
use tar.Base.Words.{IsByte}
use tar.Stream.{block_size}
use tar.Field.{Format, default, v7, oldgnu, ustar, posix, star, gnu}
use tar.Field.Encode.{to_chars, gnu_format, string_to_chars}
use tar.Field.Mode.{mode_to_chars}
use tar.Field.Types.{
  off_to_chars, time_to_chars, uid_to_chars, gid_to_chars, major_to_chars, minor_to_chars,
  is_negative,
}
use tar.Reader.Fields.{field}
use tar.Create.{is_posix, posix_magic, oldgnu_magic}
use tar.Create.ByteFields.{
  IsHeader, put-IsHeader, field-IsByte, string_to_chars-IsByte, text-IsByte,
}
use tar.Create.Writes.{to_chars-Writes}
use tar.Create.Start.{
  Draft, Options, Stat, place, store_if, adjusted_mode, put_mode, put_uid, put_gid, put_size,
  put_mtime, put_devmajor, put_devminor, ◌>>=◌, is_device, put_device, put_gnu_times, put_times,
  regular_type, put_type, put_magic, is_long_owner, put_names, store_attributes, put_numbers,
}
use tar.Create.Start.Others.{regular_type-IsByte}

pub record IsWhole (d : Draft) : Type 0 where
  pub header_whole : IsHeader d.header

abbrev pub WholeDraft : Option Draft → Type 0
WholeDraft none = Unit {0}
WholeDraft (some d) = IsWhole d

pub bind-WholeDraft :
    (r : Option Draft) (k : Draft → Option Draft)
    → WholeDraft r
    → ((d : Draft) → IsWhole d → WholeDraft (k d))
    → WholeDraft (r >>= k)
bind-WholeDraft none k w h = tt
bind-WholeDraft (some d) k w h = h d w

-- A number at its place, behind a keyword that may be stored.
place-WholeDraft :
    (f : Format) (negative : Bool) (v valsize : ℕ) (substitute : Option (Bool × ℕ)) (o n : ℕ)
    (stores : Bool) (keyword : Bytes) (d : Draft)
    → o + suc n ≤ block_size
    → IsWhole d
    → WholeDraft (
        place o
          (to_chars f negative v valsize substitute (field o (suc n) d.header) (suc n) false)
          (store_if stores keyword d))
place-WholeDraft f negative v valsize substitute o n stores keyword d inside w =
    let e = to_chars f negative v valsize substitute (field o (suc n) d.header) (suc n) false in
    let whole =
      (to_chars-Writes f negative v valsize substitute o n d.header w.header_whole inside).whole in
    both (λ (d' : Draft). WholeDraft (place o e d')) stores
      (both WholeDraft e.fits record { header_whole = whole } tt)
      (both WholeDraft e.fits record { header_whole = whole } tt)

module _ (o : Options) where
  put_mode-IsWhole : (v : ℕ) (d : Draft) → IsWhole d → IsWhole (put_mode o v d)
  unfolding put_mode mode_to_chars
  put_mode-IsWhole v d w = record {
    header_whole =
        (to_chars-Writes o.archive_format false _ 4 none 100 7 d.header w.header_whole
          (omega arith)).whole;
  }

  put_device-WholeDraft : (st : Stat) (d : Draft) → IsWhole d → WholeDraft (put_device o st d)
  unfolding put_device put_devmajor put_devminor major_to_chars minor_to_chars
  put_device-WholeDraft st d w =
      both WholeDraft (is_device (adjusted_mode o st))
        (bind-WholeDraft _ _
          (place-WholeDraft o.archive_format false _ 4 none 329 7 _ (codes "devmajor") d
            (omega arith) w)
          (λ d' w'.
            place-WholeDraft o.archive_format false _ 4 none 337 7 _ (codes "devminor") d'
              (omega arith) w'))
        w

  pub put_numbers-WholeDraft :
      (st : Stat) (uid gid : ℕ) (d : Draft) → IsWhole d → WholeDraft (put_numbers o st uid gid d)
  unfolding put_numbers put_uid put_gid put_size put_mtime uid_to_chars gid_to_chars off_to_chars
      time_to_chars
  put_numbers-WholeDraft st uid gid d w =
      let f = o.archive_format in
      bind-WholeDraft _ _
        (bind-WholeDraft _ _
          (bind-WholeDraft _ _
            (bind-WholeDraft _ _
              (place-WholeDraft f false _ 4 _ 108 7 _ (codes "uid") _ (omega arith)
                (put_mode-IsWhole (adjusted_mode o st) d w))
              (λ d' w'. place-WholeDraft f false _ 4 _ 116 7 _ (codes "gid") d' (omega arith) w'))
            (λ d' w'.
              place-WholeDraft f (is_negative _) _ 8 none 124 11 _ (codes "size") d' (omega arith)
                w'))
          (λ d' w'.
            place-WholeDraft f (is_negative _) _ 8 none 136 11 _ (codes "mtime") d' (omega arith)
              w'))
        (λ d' w'. put_device-WholeDraft st d' w')

  pub put_times-IsWhole : (st : Stat) (d : Draft) → IsWhole d → IsWhole (put_times o st d)
  unfolding put_times put_gnu_times time_to_chars
  put_times-IsWhole st d w =
      let f = o.archive_format in
      let a =
        to_chars-Writes f (is_negative st.atime.tv_sec) st.atime.tv_sec 8 none 345 11 d.header
          w.header_whole (omega arith) in
      let c =
        to_chars-Writes f (is_negative st.ctime.tv_sec) st.ctime.tv_sec 8 none 357 11 _ a.whole
          (omega arith) in
      both IsWhole (is_posix f) record { header_whole = w.header_whole }
        (both IsWhole (o.incremental_option && gnu_format f) record { header_whole = c.whole } w)

pub put_type-IsWhole : (f : Format) (d : Draft) → IsWhole d → IsWhole (put_type f d)
unfolding put_type
put_type-IsWhole f d w = record {
  header_whole =
      put-IsHeader 156 (regular_type f ∷ []) d.header (regular_type-IsByte f) w.header_whole;
}

magic-IsWhole :
    (magic : Bytes) (d : Draft)
    → All IsByte magic
    → IsWhole d
    → IsWhole (record d { header = put 257 magic d.header })
magic-IsWhole magic d bytes w = record {
  header_whole = put-IsHeader 257 magic d.header bytes w.header_whole;
}

pub put_magic-WholeDraft : (f : Format) (d : Draft) → IsWhole d → WholeDraft (put_magic f d)
put_magic-WholeDraft v7 d w = w
put_magic-WholeDraft oldgnu d w = magic-IsWhole oldgnu_magic d (text-IsByte oldgnu_magic refl) w
put_magic-WholeDraft gnu d w = magic-IsWhole oldgnu_magic d (text-IsByte oldgnu_magic refl) w
put_magic-WholeDraft posix d w = magic-IsWhole posix_magic d (text-IsByte posix_magic refl) w
put_magic-WholeDraft ustar d w = magic-IsWhole posix_magic d (text-IsByte posix_magic refl) w
put_magic-WholeDraft default d w = tt
put_magic-WholeDraft star d w = tt

store_if-IsWhole :
    (b : Bool) (keyword : Bytes) (d : Draft) → IsWhole d → IsWhole (store_if b keyword d)
store_if-IsWhole b keyword d w = both IsWhole b record { header_whole = w.header_whole } w

name-IsWhole :
    (o : ℕ) (name : Bytes) (d : Draft)
    → All IsByte name
    → IsWhole d
    → IsWhole (record d { header = put o (string_to_chars name (field o 32 d.header) 32) d.header })
name-IsWhole o name d bytes w = record {
  header_whole =
      put-IsHeader o (string_to_chars name (field o 32 d.header) 32) d.header
        (string_to_chars-IsByte name (field o 32 d.header) 32 bytes
          (field-IsByte o 32 d.header w.header_whole))
        w.header_whole;
}

pub put_names-IsWhole :
    (f : Format) (uname gname : Bytes) (d : Draft)
    → All IsByte uname
    → All IsByte gname
    → IsWhole d
    → IsWhole (put_names f uname gname d)
unfolding put_names
put_names-IsWhole f uname gname d u g w =
    store_if-IsWhole (is_long_owner f gname) (codes "gname") _ (
      name-IsWhole 297 gname _ g
        (name-IsWhole 265 uname _ u (store_if-IsWhole (is_long_owner f uname) (codes "uname") d w)))

pub store_attributes-IsWhole :
    (o : Options) (st : Stat) (d : Draft) → IsWhole d → IsWhole (store_attributes o st d)
unfolding store_attributes
store_attributes-IsWhole o st d w =
    let acls =
      store_if-IsWhole (o.acls_option && st.acls_d_ptr) (codes "SCHILY.acl.default") _
        (store_if-IsWhole (o.acls_option && st.acls_a_ptr) (codes "SCHILY.acl.access") d w) in
    let context =
      store_if-IsWhole (o.selinux_context_option && st.cntx_name) (codes "RHT.security.selinux") _
        acls in
    both IsWhole (is_posix o.archive_format)
      (both IsWhole o.xattrs_option record { header_whole = context.header_whole } context) w
