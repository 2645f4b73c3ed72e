-- ===== src/Create/Start/Others.antt =====
-- The steps of `start_header` in the GNU formats that write no number: the times, the type and the
-- magic.
use tar.Base.{
  ℕ, ◌+◌, ◌≤◌, ◌≡◌, refl, arith, true, false, ◌&&◌, Option, none, some, List, [], ◌∷◌, All, inl,
  inr, Bool-cases,
}
use tar.Base.Put.{put}
use tar.Base.Words.{IsByte}
use tar.Stream.{Block}
use tar.Field.{Format, default, v7, oldgnu, ustar, posix, star, gnu}
use tar.Field.Encode.{gnu_format}
use tar.Field.Types.{is_negative, time_to_chars}
use tar.Reader.Fields.{field}
use tar.Create.{oldgnu_magic}
use tar.Create.ByteFields.{IsHeader, text-IsByte}
use tar.Create.Writes.{Writes, put-Writes, to_chars-Writes}
use tar.Create.Touches.{Touches, Touches-refl, Touches-join, Writes-Touches}
use tar.Create.Start.{
  Draft, Options, Stat, put_times, put_gnu_times, put_type, put_magic, store_attributes,
  regular_type,
}
use tar.Create.Start.Steps.{gnu_format-not_posix}

-- A step that may write to `parts` and stores nothing.
pub record Keeps (parts : List (ℕ × ℕ)) (d d' : Draft) : Type 0 where
  pub stored : d'.stored ≡ d.stored
  pub touches : Touches parts d.header d'.header

abbrev pub time_parts : List (ℕ × ℕ)
time_parts = (345, 12) ∷ (357, 12) ∷ []

time-Writes :
    (f : Format) (o t : ℕ) (h : Block)
    → IsHeader h
    → o + 12 ≤ 512
    → Writes o 12
        (time_to_chars f t (field o 12 h) 12 false).bytes
        h
        (put o (time_to_chars f t (field o 12 h) 12 false).bytes h)
unfolding time_to_chars
time-Writes f o t h whole inside = to_chars-Writes f (is_negative t) t 8 none o 11 h whole inside

pub put_times-Keeps :
    (o : Options) (st : Stat) (d : Draft)
    → gnu_format o.archive_format ≡ true
    → IsHeader d.header
    → Keeps time_parts d (put_times o st d)
unfolding put_times put_gnu_times
put_times-Keeps o st d g whole =
    let f = o.archive_format in
    let a = time-Writes f 345 st.atime.tv_sec d.header whole (omega arith) in
    let b = time-Writes f 357 st.ctime.tv_sec _ a.whole (omega arith) in
    rw (gnu_format-not_posix f g) (elim (Bool-cases (o.incremental_option && gnu_format f)) [
      | inl times ↦ rw times record {
        stored = refl;
        touches =
            Touches-join ((345, 12) ∷ []) ((357, 12) ∷ []) _ _ _ (Writes-Touches 345 12 _ _ _ a)
              (Writes-Touches 357 12 _ _ _ b);
      }
      | inr no_times ↦
          rw no_times record { stored = refl; touches = Touches-refl time_parts d.header whole }
    ])

pub regular_type-IsByte : (f : Format) → All IsByte (regular_type f ∷ [])
regular_type-IsByte v7 = (omega arith, tt)
regular_type-IsByte default = (omega arith, tt)
regular_type-IsByte oldgnu = (omega arith, tt)
regular_type-IsByte ustar = (omega arith, tt)
regular_type-IsByte posix = (omega arith, tt)
regular_type-IsByte star = (omega arith, tt)
regular_type-IsByte gnu = (omega arith, tt)

pub put_type-reads :
    (f : Format) (d : Draft)
    → IsHeader d.header
    → field 156 1 (put_type f d).header ≡ regular_type f ∷ []
unfolding put_type
put_type-reads f d whole =
    (put-Writes 156 1 (regular_type f ∷ []) d.header whole refl (regular_type-IsByte f)
      (omega arith)).reads

pub put_type-Keeps :
    (f : Format) (d : Draft) → IsHeader d.header → Keeps ((156, 1) ∷ []) d (put_type f d)
unfolding put_type
put_type-Keeps f d whole = record {
  stored = refl;
  touches = Writes-Touches 156 1 _ d.header _ (
      put-Writes 156 1 (regular_type f ∷ []) d.header whole refl (regular_type-IsByte f)
        (omega arith));
}

pub record Magic (d : Draft) (r : Option Draft) : Type 0 where
  pub after : Draft
  pub result : r ≡ some after
  pub keeps : Keeps ((257, 8) ∷ []) d after
  pub reads : field 257 8 after.header ≡ oldgnu_magic

pub put_magic-Magic :
    (f : Format) (d : Draft) → gnu_format f ≡ true → IsHeader d.header → Magic d (put_magic f d)
put_magic-Magic f d gnu_f whole = record {
  after = record d { header = put 257 oldgnu_magic d.header };
  result = oldgnu_put f gnu_f;
  keeps = record { stored = refl; touches = Writes-Touches 257 8 _ d.header _ magic };
  reads = magic.reads;
}
  where
    magic : Writes 257 8 oldgnu_magic d.header (put 257 oldgnu_magic d.header)
    magic =
        put-Writes 257 8 oldgnu_magic d.header whole refl (text-IsByte oldgnu_magic refl)
          (omega arith)

    oldgnu_put :
        (f : Format)
        → gnu_format f ≡ true
        → put_magic f d ≡ some (record d { header = put 257 oldgnu_magic d.header })
    oldgnu_put oldgnu h = refl
    oldgnu_put gnu h = refl
    oldgnu_put default h = absurd (cc)
    oldgnu_put v7 h = absurd (cc)
    oldgnu_put ustar h = absurd (cc)
    oldgnu_put posix h = absurd (cc)
    oldgnu_put star h = absurd (cc)

pub store_attributes-gnu :
    (o : Options) (st : Stat) (d : Draft)
    → gnu_format o.archive_format ≡ true
    → store_attributes o st d ≡ d
unfolding store_attributes
store_attributes-gnu o st d g = rw (gnu_format-not_posix o.archive_format g) refl
