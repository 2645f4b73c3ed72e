-- ===== src/Create/Dump/Member.antt =====
-- Links, devices and FIFOs that are dumped in the GNU formats, and what is read of them.
use tar.Base.{
  ℕ, ◌≤◌, ◌≡◌, refl, sym, ◌∙◌, ap, subst, arith, Bool, true, false, Option, some, List, [], ◌∷◌,
  ◌++◌, length, take, All, ltb, get_or, if◌then◌else◌, inl, inr, Bool-cases,
}
use tar.Base.Put.{get_or-field}
use tar.Base.Text.{Bytes}
use tar.Base.Words.{IsByte}
use tar.Stream.{Block}
use tar.Field.{Format, default, v7, oldgnu, ustar, posix, star, gnu}
use tar.Field.Encode.{gnu_format, tar_copy_str}
use tar.Field.Types.{max_i64, off_from_header}
use tar.Header.{simple_finish_header}
use tar.Header.Checksum.{tar_checksum-simple_finish_header}
use tar.Reader.Fields.{field, cstring, typeflag, linkname_of, size_of, is_special}
use tar.Pax.Keyword.{no_nul}
use tar.Create.{write_short_name}
use tar.Create.ByteFields.{IsHeader, field-IsByte, length-field, tar_copy_str-IsByte}
use tar.Create.LongRead.{BeginsMember}
use tar.Create.Strings.{room_for, length-tar_copy_str, cstring-tar_copy_str}
use tar.Create.Writes.{Writes, put-Writes, simple_finish_header-Writes}
use tar.Create.Touches.{Touches, Touches-refl, Touches-join, Writes-Touches}
use tar.Create.Start.{Options, Stat, Start, is_v7, start_header}
use tar.Create.Start.Whole.{
  HeaderFits, Filled, long_front, start_header-Begun, drop-write_short_name,
}
use tar.Create.Start.Decoded.{later_parts}
use tar.Create.Dump.{
  LongLink, link_blocks, Dumped, dumped, write_long_link, write_extended, finish_header,
  put_typeflag, put_linkname, long_link_of, sized, dump_behind, dump_link, dump_special, dump_typed,
  special_type, not_dumped,
}

-- The header `h` of a member, made of the header that was started, with the type and the link's
-- name.
pub record Finished (type : ℕ) (link : Bytes) (header h : Block) : Type 0 where
  pub touches : Touches later_parts header h
  pub type_kept : typeflag h ≡ type
  pub link_kept : length link ≤ 100 → linkname_of h ≡ link
  pub accepted : BeginsMember h

pub linkname-Writes :
    (link : Bytes) (h : Block)
    → IsHeader h
    → All IsByte link
    → Writes 157 100 (tar_copy_str (field 157 100 h) link 100) h (put_linkname link h)
unfolding put_linkname
linkname-Writes link h whole bytes =
    put-Writes 157 100 _ h whole
      (length-tar_copy_str (field 157 100 h) link 100 ∙ length-field 157 100 h whole (omega arith))
      (tar_copy_str-IsByte (field 157 100 h) link 100 (field-IsByte 157 100 h whole) bytes)
      (omega arith)

pub typeflag-Writes :
    (type : ℕ) (h : Block)
    → IsHeader h
    → IsByte type
    → Writes 156 1 (type ∷ []) h (put_typeflag type h)
typeflag-Writes type h whole byte =
    put-Writes 156 1 (type ∷ []) h whole refl (byte, tt) (omega arith)

finished-Finished :
    (type : ℕ) (link : Bytes) (header named : Block)
    → IsHeader named
    → IsByte type
    → is_special type ≡ false
    → size_of header ≤ max_i64
    → Touches ((157, 100) ∷ []) header named
    → (length link ≤ 100 → cstring (field 157 100 named) ≡ link)
    → Finished type link header (simple_finish_header (put_typeflag type named))
unfolding size_of linkname_of
finished-Finished type link header named whole byte ordinary small t held =
    let w = typeflag-Writes type named whole byte in
    let c = simple_finish_header-Writes (put_typeflag type named) w.whole in
    let all =
      Touches-join ((157, 100) ∷ []) ((156, 1) ∷ []) _ _ _ t (Writes-Touches 156 1 _ _ _ w) in
    let h = simple_finish_header (put_typeflag type named) in
    let to_h = Touches-join _ ((148, 8) ∷ []) _ _ _ all (Writes-Touches 148 8 _ _ _ c) in
    let type_kept : typeflag h ≡ type =
      sym (get_or-field 156 0 h 0)
      ∙ ap (λ (b : Bytes). get_or b 0 0) (c.behind 156 1 (omega arith) ∙ w.reads) in
    record {
      touches = to_h;
      type_kept = type_kept;
      link_kept = λ short.
          ap cstring (c.behind 157 100 (omega arith) ∙ w.behind 157 100 (omega arith)) ∙ held short;
      accepted = record {
        accepted = tar_checksum-simple_finish_header _ false false w.whole.size w.whole.bytes;
        ordinary = ap is_special type_kept ∙ ordinary;
        size_fits = omega (
          arith,
          small,
          ap (λ (b : Bytes). (off_from_header b false).value) (to_h.kept 124 12 refl),
        );
      };
    }

-- The blocks of a member that was dumped: those of the link's name, those of the name, and the
-- header.
pub record DumpsMember (o : Options) (st : Stat) (links names : List Block) (type : ℕ)
    (link : Bytes) (r : Dumped) : Type 0 where
  pub header : Block
  pub h : Block
  pub result : r ≡ dumped (links ++ (names ++ (h ∷ [])))
  pub filled : Filled o st (write_short_name o.archive_format st.file_name) header
  pub finished : Finished type link header h

long_link_of-gnu :
    (f : Format) (gnu_link : Bytes → List Block) (link : Bytes)
    → gnu_format f ≡ true
    → long_link_of f gnu_link link ≡ link_blocks (long_front f gnu_link link)
long_link_of-gnu f gnu_link link g = elim (Bool-cases (ltb (room_for f 100) (length link))) [
  | inl long ↦ rw long (longer f g)
  | inr short ↦ rw short refl
]
  where
    longer :
        (f : Format)
        → gnu_format f ≡ true
        → write_long_link f gnu_link link ≡ link_blocks (gnu_link link)
    longer oldgnu h = unfold write_long_link in refl
    longer gnu h = unfold write_long_link in refl
    longer default h = absurd (cc)
    longer v7 h = absurd (cc)
    longer ustar h = absurd (cc)
    longer posix h = absurd (cc)
    longer star h = absurd (cc)

-- Where the link is put into the header.
put_linkname-cstring :
    (link : Bytes) (h : Block)
    → IsHeader h
    → All IsByte link
    → no_nul link ≡ true
    → length link ≤ 100
    → cstring (field 157 100 (put_linkname link h)) ≡ link
put_linkname-cstring link h whole bytes plain short =
    let size = length-field 157 100 h whole (omega arith) in
    ap cstring (linkname-Writes link h whole bytes).reads
    ∙ subst (λ (k : ℕ). cstring (tar_copy_str (field 157 100 h) link k) ≡ link) size
        (cstring-tar_copy_str (field 157 100 h) link plain (omega arith))

module _ (o : Options) (extended : List Bytes → List Block)
    (gnu_link long_name : Bytes → List Block) (st : Stat) (type : ℕ) (byte : IsByte type)
    (ordinary : is_special type ≡ false) (fits : HeaderFits o (sized 0 st))
    (bytes : All IsByte st.file_name) where
  -- A link is dumped in the GNU formats, whatever its length.
  pub dump_link-DumpsMember :
      (link : Bytes)
      → All IsByte link
      → no_nul link ≡ true
      → DumpsMember o
          (sized 0 st)
          (long_front o.archive_format gnu_link link)
          (long_front o.archive_format long_name st.file_name)
          type
          link
          (dump_link o extended gnu_link long_name st link type)
  unfolding dump_link dump_behind finish_header write_extended size_of
  dump_link-DumpsMember link link_bytes plain =
      let b = start_header-Begun o long_name (sized 0 st) fits bytes in
      let whole = b.filled.touches.whole in
      record {
        header = b.header;
        h = simple_finish_header (put_typeflag type (put_linkname link b.header));
        result =
            ap
              (λ (l : LongLink).
                dump_behind extended link type (start_header o long_name (sized 0 st)) l)
              (long_link_of-gnu o.archive_format gnu_link link fits.numbers.gnu)
            ∙ ap
                (λ (s : Start).
                  dump_behind extended link type s
                    (link_blocks (long_front o.archive_format gnu_link link)))
                b.result;
        filled = b.filled;
        finished =
            finished-Finished type link b.header (put_linkname link b.header)
              (linkname-Writes link b.header whole link_bytes).whole byte ordinary
              (omega (arith, b.filled.numbers.size))
              (Writes-Touches 157 100 _ _ _ (linkname-Writes link b.header whole link_bytes))
              (put_linkname-cstring link b.header whole link_bytes plain);
      }

  -- A device or a FIFO is dumped in the GNU formats.
  pub dump_special-DumpsMember :
      special_type st.st_mode ≡ some type
      → DumpsMember o
          (sized 0 st)
          []
          (long_front o.archive_format long_name st.file_name)
          type
          []
          (dump_special o extended long_name st)
  unfolding dump_special finish_header write_extended size_of
  dump_special-DumpsMember e =
      let b = start_header-Begun o long_name (sized 0 st) fits bytes in
      let whole = b.filled.touches.whole in
      let k = λ (t : ℕ).
        finish_header extended [] [] (put_typeflag t) (start_header o long_name (sized 0 st)) in
      record {
        header = b.header;
        h = simple_finish_header (put_typeflag type b.header);
        result =
            ap (λ (t : Option ℕ). dump_typed o.archive_format t k) e
            ∙ (ap (λ (old : Bool). if old then not_dumped [] else k type)
                  (gnu-not_v7 o.archive_format fits.numbers.gnu)
                ∙ ap (λ (s : Start). finish_header extended [] [] (put_typeflag type) s) b.result);
        filled = b.filled;
        finished =
            finished-Finished type [] b.header b.header whole byte ordinary
              (omega (arith, b.filled.numbers.size)) (Touches-refl ((157, 100) ∷ []) b.header whole)
              (λ short.
                ap cstring (b.filled.touches.kept 157 100 refl)
                ∙ ap (λ (l : Bytes). cstring (take 100 l))
                    (drop-write_short_name 157 o.archive_format st.file_name (omega arith)));
      }
    where
      gnu-not_v7 : (f : Format) → gnu_format f ≡ true → is_v7 f ≡ false
      gnu-not_v7 f g = ground arith
