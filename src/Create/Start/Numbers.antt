-- ===== src/Create/Start/Numbers.antt =====
-- All the numeric fields of a member's header, in the GNU formats.
use tar.Base.{
  ℕ, ◌-◌, ◌^◌, ◌≤◌, ◌<◌, ◌≡◌, refl, ◌∙◌, ap, arith, bit_and, Bool, true, false, ◌&&◌, Option, none,
  some, List, [], ◌∷◌, ◌==◌, if◌then◌else◌, inl, inr, Bool-cases,
}
use tar.Base.Put.{put}
use tar.Base.Text.{Bytes}
use tar.Base.Words.{IsU64, u64_mod}
use tar.Stream.{Block}
use tar.Field.{Format, default, v7, oldgnu, ustar, posix, star, gnu}
use tar.Field.Encode.{gnu_format, is_oldgnu}
use tar.Field.Types.{
  max_u32, max_i64, off_from_header, time_from_header, uid_from_header, gid_from_header,
  major_from_header, minor_from_header,
}
use tar.Field.Mode.{known_bits, mode_to_chars, mode_from_header}
use tar.Field.ModeBits.{mode_from_header-mode_to_chars_gnu, mode_from_header-mode_to_chars_oldgnu}
use tar.Reader.Fields.{field}
use tar.Create.ByteFields.{IsHeader}
use tar.Create.Writes.{Writes, to_chars-Writes}
use tar.Create.Touches.{Touches, apart, Touches-refl, Touches-join, Writes-Touches}
use tar.Create.Start.{
  Draft, Options, Stat, ◌>>=◌, is_device, mode_all, masks_mode, adjusted_mode, chosen_mtime,
  put_mode, put_gid, put_size, put_mtime, put_devminor, put_device, put_numbers,
}
use tar.Create.Start.Steps.{
  put_uid-Placed, put_gid-Placed, put_size-Placed, put_mtime-Placed, put_devmajor-Placed,
  put_devminor-Placed,
}

-- The mode field of a GNU format has the permissions, and says which of the two formats it is: the
-- older one keeps the bits of the file's type, of which there is one at least.
abbrev pub ModeFits : Format → ℕ → Type 0
ModeFits oldgnu v = (v < 8 ^ 7) × ((bit_and v (u64_mod - 1 - 0o7777) == 0) ≡ false)
ModeFits _ v = Unit {0}

record ModePlaced (f : Format) (v : ℕ) (d after : Draft) : Type 0 where
  stored : after.stored ≡ d.stored
  touches : Touches ((100, 8) ∷ []) d.header after.header
  reads :
      mode_from_header (field 100 8 after.header) false
      ≡ record { mode = known_bits v; hbits = is_oldgnu f; messages = [] }

mode_reads :
    (f : Format) (v : ℕ) (p : Bytes)
    → gnu_format f ≡ true
    → ModeFits f v
    → mode_from_header (mode_to_chars f v p 8 false).bytes false
      ≡ record { mode = known_bits v; hbits = is_oldgnu f; messages = [] }
mode_reads gnu v p g fits = mode_from_header-mode_to_chars_gnu v p false false
mode_reads oldgnu v p g fits = mode_from_header-mode_to_chars_oldgnu v p false false fits.0 fits.1
mode_reads default v p g fits = absurd (cc)
mode_reads v7 v p g fits = absurd (cc)
mode_reads ustar v p g fits = absurd (cc)
mode_reads posix v p g fits = absurd (cc)
mode_reads star v p g fits = absurd (cc)

mode-Writes :
    (f : Format) (v : ℕ) (h : Block)
    → IsHeader h
    → Writes 100 8
        (mode_to_chars f v (field 100 8 h) 8 false).bytes
        h
        (put 100 (mode_to_chars f v (field 100 8 h) 8 false).bytes h)
unfolding mode_to_chars
mode-Writes f v h whole = to_chars-Writes f false _ 4 none 100 7 h whole (omega arith)

put_mode-ModePlaced :
    (o : Options) (v : ℕ) (d : Draft)
    → gnu_format o.archive_format ≡ true
    → ModeFits o.archive_format v
    → IsHeader d.header
    → ModePlaced o.archive_format v d (put_mode o v d)
unfolding put_mode
put_mode-ModePlaced o v d g fits whole =
    let m = if masks_mode o.archive_format then bit_and v mode_all else v in
    let same : m ≡ v = ground arith in
    let w = mode-Writes o.archive_format m d.header whole in
    record {
      stored = refl;
      touches = Writes-Touches 100 8 _ d.header _ w;
      reads =
          ap (λ (b : Bytes). mode_from_header b false) w.reads
          ∙ ap
              (λ (n : ℕ).
                mode_from_header
                  (mode_to_chars o.archive_format n (field 100 8 d.header) 8 false).bytes false)
              same
          ∙ mode_reads o.archive_format v (field 100 8 d.header) g fits;
    }

-- The numbers that are written: those that the fields of a GNU format can hold.
pub record NumbersFit (o : Options) (st : Stat) (uid gid : ℕ) : Type 0 where
  pub gnu : gnu_format o.archive_format ≡ true
  pub mode : ModeFits o.archive_format (adjusted_mode o st)
  pub uid_fits : uid ≤ max_u32
  pub gid_fits : gid ≤ max_u32
  pub size : st.st_size ≤ max_i64
  pub mtime : IsU64 (chosen_mtime o.set_mtime_option st.mtime).tv_sec
  pub devmajor : st.devmajor ≤ max_u32
  pub devminor : st.devminor ≤ max_u32

abbrev pub numeric_parts : List (ℕ × ℕ)
numeric_parts = (100, 8) ∷ (108, 8) ∷ (116, 8) ∷ (124, 12) ∷ (136, 12) ∷ (329, 8) ∷ (337, 8) ∷ []

-- What a reader finds in the numeric fields.
pub record NumbersRead (o : Options) (st : Stat) (uid gid : ℕ) (h : Block) : Type 0 where
  pub mode : mode_from_header (field 100 8 h) false ≡ record {
    mode = known_bits (adjusted_mode o st);
    hbits = is_oldgnu o.archive_format;
    messages = [];
  }
  pub uid_read : (uid_from_header (field 108 8 h) false).value ≡ uid
  pub gid_read : (gid_from_header (field 116 8 h) false).value ≡ gid
  pub size : (off_from_header (field 124 12 h) false).value ≡ st.st_size
  pub mtime :
      (time_from_header (field 136 12 h) false).value
      ≡ (chosen_mtime o.set_mtime_option st.mtime).tv_sec
  pub devmajor :
      is_device (adjusted_mode o st) ≡ true
      → (major_from_header (field 329 8 h) false).value ≡ st.devmajor
  pub devminor :
      is_device (adjusted_mode o st) ≡ true
      → (minor_from_header (field 337 8 h) false).value ≡ st.devminor

pub record Numbers (o : Options) (st : Stat) (uid gid : ℕ) (d : Draft) (r : Option Draft)
    : Type 0 where
  pub after : Draft
  pub result : r ≡ some after
  pub stored : after.stored ≡ d.stored
  pub touches : Touches numeric_parts d.header after.header
  pub reads : NumbersRead o st uid gid after.header

record Device (o : Options) (st : Stat) (d : Draft) (r : Option Draft) : Type 0 where
  after : Draft
  result : r ≡ some after
  stored : after.stored ≡ d.stored
  touches : Touches ((329, 8) ∷ (337, 8) ∷ []) d.header after.header
  major_read :
      is_device (adjusted_mode o st) ≡ true
      → (major_from_header (field 329 8 after.header) false).value ≡ st.devmajor
  minor_read :
      is_device (adjusted_mode o st) ≡ true
      → (minor_from_header (field 337 8 after.header) false).value ≡ st.devminor

module _ (o : Options) (st : Stat) (uid gid : ℕ) (fits : NumbersFit o st uid gid) where
  put_device-Device : (d : Draft) → IsHeader d.header → Device o st d (put_device o st d)
  unfolding put_device
  put_device-Device d whole = elim (Bool-cases (is_device (adjusted_mode o st))) [
    | inl device ↦
        let a = put_devmajor-Placed o fits.gnu d whole st.devmajor fits.devmajor in
        let b = put_devminor-Placed o fits.gnu a.after a.touches.whole st.devminor fits.devminor in
        record {
          after = b.after;
          result =
              rw device
                (ap (λ (r : Option Draft). r >>= put_devminor o st.devminor) a.result ∙ b.result);
          stored = b.stored ∙ a.stored;
          touches = Touches-join ((329, 8) ∷ []) ((337, 8) ∷ []) _ _ _ a.touches b.touches;
          major_read = λ h.
              ap (λ (f : Bytes). (major_from_header f false).value) (b.touches.kept 329 8 refl)
              ∙ a.reads;
          minor_read = λ h. b.reads;
        }
    | inr other ↦ record {
      after = d;
      result = rw other refl;
      stored = refl;
      touches = Touches-refl _ d.header whole;
      major_read = λ h. absurd (cc);
      minor_read = λ h. absurd (cc);
    }
  ]

  pub put_numbers-Numbers :
      (d : Draft) → IsHeader d.header → Numbers o st uid gid d (put_numbers o st uid gid d)
  unfolding put_numbers
  put_numbers-Numbers d whole =
      let t = chosen_mtime o.set_mtime_option st.mtime in
      let a = put_mode-ModePlaced o (adjusted_mode o st) d fits.gnu fits.mode whole in
      let b =
        put_uid-Placed o fits.gnu (put_mode o (adjusted_mode o st) d) a.touches.whole uid
          fits.uid_fits in
      let c = put_gid-Placed o fits.gnu b.after b.touches.whole gid fits.gid_fits in
      let s = put_size-Placed o fits.gnu c.after c.touches.whole st.st_size fits.size in
      let m = put_mtime-Placed o fits.gnu s.after s.touches.whole t fits.mtime in
      let e = put_device-Device m.after m.touches.whole in
      let from_m = Touches-join ((136, 12) ∷ []) _ _ _ _ m.touches e.touches in
      let from_s = Touches-join ((124, 12) ∷ []) _ _ _ _ s.touches from_m in
      let from_c = Touches-join ((116, 8) ∷ []) _ _ _ _ c.touches from_s in
      let from_b = Touches-join ((108, 8) ∷ []) _ _ _ _ b.touches from_c in
      record {
        after = e.after;
        result =
            ap
              (λ (r : Option Draft).
                r >>= put_gid o gid >>= put_size o st.st_size >>= put_mtime o t >>= put_device o st)
              b.result
            ∙ ap
                (λ (r : Option Draft).
                  r >>= put_size o st.st_size >>= put_mtime o t >>= put_device o st)
                c.result
            ∙ ap (λ (r : Option Draft). r >>= put_mtime o t >>= put_device o st) s.result
            ∙ ap (λ (r : Option Draft). r >>= put_device o st) m.result
            ∙ e.result;
        stored = e.stored ∙ m.stored ∙ s.stored ∙ c.stored ∙ b.stored ∙ a.stored;
        touches = Touches-join ((100, 8) ∷ []) _ _ _ _ a.touches from_b;
        reads = record {
          mode = ap (λ (f : Bytes). mode_from_header f false) (from_b.kept 100 8 refl) ∙ a.reads;
          uid_read =
              ap (λ (f : Bytes). (uid_from_header f false).value) (from_c.kept 108 8 refl)
              ∙ b.reads;
          gid_read =
              ap (λ (f : Bytes). (gid_from_header f false).value) (from_s.kept 116 8 refl)
              ∙ c.reads;
          size =
              ap (λ (f : Bytes). (off_from_header f false).value) (from_m.kept 124 12 refl)
              ∙ s.reads;
          mtime =
              ap (λ (f : Bytes). (time_from_header f false).value) (e.touches.kept 136 12 refl)
              ∙ m.reads;
          devmajor = e.major_read;
          devminor = e.minor_read;
        };
      }

-- What a step leaves of the numbers.
abbrev pub numbers_apart : List (ℕ × ℕ) → Bool
numbers_apart parts =
    apart 100 8 parts
    && apart 108 8 parts
    && apart 116 8 parts
    && apart 124 12 parts
    && apart 136 12 parts
    && apart 329 8 parts
    && apart 337 8 parts

pub NumbersRead-kept :
    (o : Options) (st : Stat) (uid gid : ℕ) (parts : List (ℕ × ℕ)) (h h' : Block)
    → Touches parts h h'
    → numbers_apart parts ≡ true
    → NumbersRead o st uid gid h
    → NumbersRead o st uid gid h'
NumbersRead-kept o st uid gid parts h h' t all r = record {
  mode = ap (λ (f : Bytes). mode_from_header f false) (t.kept 100 8 (ground arith)) ∙ r.mode;
  uid_read =
      ap (λ (f : Bytes). (uid_from_header f false).value) (t.kept 108 8 (ground arith))
      ∙ r.uid_read;
  gid_read =
      ap (λ (f : Bytes). (gid_from_header f false).value) (t.kept 116 8 (ground arith))
      ∙ r.gid_read;
  size =
      ap (λ (f : Bytes). (off_from_header f false).value) (t.kept 124 12 (ground arith)) ∙ r.size;
  mtime =
      ap (λ (f : Bytes). (time_from_header f false).value) (t.kept 136 12 (ground arith)) ∙ r.mtime;
  devmajor = λ d.
      ap (λ (f : Bytes). (major_from_header f false).value) (t.kept 329 8 (ground arith))
      ∙ r.devmajor d;
  devminor = λ d.
      ap (λ (f : Bytes). (minor_from_header f false).value) (t.kept 337 8 (ground arith))
      ∙ r.devminor d;
}
