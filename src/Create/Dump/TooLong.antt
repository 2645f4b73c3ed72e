-- ===== src/Create/Dump/TooLong.antt =====
-- Links whose target does not fit, in the formats that have no place for it.
use tar.Base.{
  ℕ, zero, suc, ◌≤◌, ◌<◌, ◌≡◌, refl, ◌∙◌, ap, subst, arith, Bool, true, false, List, [], ◌∷◌, ◌++◌,
  length, take, All,
}
use tar.Base.Text.{Bytes}
use tar.Base.Words.{IsByte}
use tar.Stream.{Block}
use tar.Field.{Format, default, v7, oldgnu, ustar, posix, star, gnu}
use tar.Field.Encode.{tar_copy_str}
use tar.Header.{simple_finish_header}
use tar.Reader.Fields.{field, cstring, linkname_of}
use tar.Pax.Keyword.{no_nul}
use tar.Create.ByteFields.{length-field}
use tar.Create.Writes.{simple_finish_header-Writes}
use tar.Create.Start.Kept.{NamesAreBytes, WholeStart, start_header-WholeStart}
use tar.Create.Start.{Options, Stat, Start, started, start_header}
use tar.Create.Dump.{
  LongLink, link_too_long, dumped_with_error, write_long_link, write_extended, put_typeflag,
  put_linkname, long_link_of, sized, dump_behind, dump_link, finish_header,
}
use tar.Create.Dump.Member.{linkname-Writes, typeflag-Writes}

tar_copy_str-long :
    (dst s : Bytes) → length dst ≤ length s → tar_copy_str dst s (length dst) ≡ take (length dst) s
unfolding tar_copy_str
tar_copy_str-long [] s h = refl
tar_copy_str-long (d ∷ dst) [] h = absurd (omega arith)
tar_copy_str-long (d ∷ dst) (c ∷ s) h =
    ap (λ (l : Bytes). c ∷ l) (tar_copy_str-long dst s (omega arith))

cstring-take_plain : (n : ℕ) (s : Bytes) → no_nul s ≡ true → cstring (take n s) ≡ take n s
cstring-take_plain zero s h = refl
cstring-take_plain (suc n) [] h = refl
cstring-take_plain (suc n) (c ∷ s) h = ground (arith, cstring-take_plain n s)

-- `V7_FORMAT` and `USTAR_FORMAT`; `start_header` aborts in `STAR_FORMAT`.
abbrev pub has_no_long_links : Format → Bool
has_no_long_links v7 = true
has_no_long_links ustar = true
has_no_long_links _ = false

long_link_of-long :
    (f : Format) (gnu_link : Bytes → List Block) (link : Bytes)
    → has_no_long_links f ≡ true
    → 100 < length link
    → long_link_of f gnu_link link ≡ link_too_long
unfolding write_long_link
long_link_of-long v7 gnu_link link g h = ground arith
long_link_of-long ustar gnu_link link g h = ground arith
long_link_of-long star gnu_link link g h = absurd (cc)
long_link_of-long default gnu_link link g h = absurd (cc)
long_link_of-long oldgnu gnu_link link g h = absurd (cc)
long_link_of-long gnu gnu_link link g h = absurd (cc)
long_link_of-long posix gnu_link link g h = absurd (cc)

-- In the V7 and USTAR formats a link to a target of more than 100 bytes is dumped although
-- `write_long_link` reports that it is not, and its header has the first 100 bytes of the target:
-- whenever `start_header` starts a header, for names of bytes and a target with no NUL.
pub dump_link-too_long :
    (o : Options) (extended : List Bytes → List Block) (gnu_link long_name : Bytes → List Block)
    (st : Stat) (link : Bytes) (type : ℕ) (names : List Block) (stored : List Bytes)
    (header : Block)
    → has_no_long_links o.archive_format ≡ true
    → 100 < length link
    → no_nul link ≡ true
    → All IsByte link
    → IsByte type
    → NamesAreBytes o (sized 0 st)
    → start_header o long_name (sized 0 st) ≡ started names stored header
    → (h : Block) × (dump_link o extended gnu_link long_name st link type
        ≡ dumped_with_error (names ++ (write_extended extended stored ++ (h ∷ []))))
      × (linkname_of h ≡ take 100 link)
unfolding dump_link dump_behind finish_header linkname_of
dump_link-too_long o extended gnu_link long_name st link type names stored header old long plain
      bytes byte names_bytes e =
    let whole = subst WholeStart e (start_header-WholeStart o long_name (sized 0 st) names_bytes) in
    let l = linkname-Writes link header whole bytes in
    let t = typeflag-Writes type (put_linkname link header) l.whole byte in
    let c = simple_finish_header-Writes (put_typeflag type (put_linkname link header)) t.whole in
    let size = length-field 157 100 header whole (omega arith) in
    (
      simple_finish_header (put_typeflag type (put_linkname link header)),
      ap
            (λ (k : LongLink).
              dump_behind extended link type (start_header o long_name (sized 0 st)) k)
            (long_link_of-long o.archive_format gnu_link link old long)
          ∙ ap (λ (s : Start). dump_behind extended link type s link_too_long) e,
      ap cstring (
            c.behind 157 100 (omega arith)
            ∙ t.behind 157 100 (omega arith)
            ∙ l.reads
            ∙ subst (λ (k : ℕ). tar_copy_str (field 157 100 header) link k ≡ take k link) size
                (tar_copy_str-long (field 157 100 header) link (omega arith)))
          ∙ cstring-take_plain 100 link plain,
    )
