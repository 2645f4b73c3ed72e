-- ===== src/Create/Private.antt =====
-- The header in front of a long name: its fields, and that it is finished.
use tar.Base.{
  ℕ, ◌+◌, ◌-◌, ◌^◌, ◌≤◌, ◌<◌, ◌≡◌, refl, sym, ◌∙◌, ap, arith, true, false, Option, none, some, [],
  ◌∷◌, length, get_or, All, ◌⊎◌, inl, inr,
}
use tar.Base.Put.{put, get_or-field, All-replicate}
use tar.Base.Text.{Bytes, codes}
use tar.Base.Words.{IsByte}
use tar.Stream.{Block, block_size}
use tar.Field.{Format}
use tar.Field.Encode.{max_val_with_digits, tar_name_copy_str, string_to_chars}
use tar.Field.Decode.{Decoded}
use tar.Field.Types.{
  is_negative, off_to_chars, off_from_header, time_to_chars, uid_to_chars, gid_to_chars,
}
use tar.Field.Mode.{mode_to_chars}
use tar.Field.RoundTrip.{from_header-to_chars_octal}
use tar.Header.{simple_finish_header, tar_checksum, header_success}
use tar.Header.Checksum.{tar_checksum-simple_finish_header}
use tar.Reader.Fields.{field, typeflag, size_of}
use tar.Create.{
  empty_block, put_name, fill_private_header, start_private_header, put_owner, long_link_header,
  posix_magic, oldgnu_magic,
}
use tar.Create.ByteFields.{
  IsHeader, put-IsHeader, field-IsByte, length-field, tar_name_copy_str-IsByte,
  string_to_chars-IsByte, text-IsByte,
}
use tar.Create.Strings.{length-string_to_chars}
use tar.Reader.Blocks.{IsBlock}
use tar.Create.Writes.{Writes, put-Writes, to_chars-Writes, simple_finish_header-Writes}

-- A header that records a size.
record Sized (size : ℕ) (h : Block) : Type 0 where
  whole : IsHeader h
  sized : (off_from_header (field 124 12 h) false).value ≡ size

off_from_header-off_to_chars :
    (f : Format) (size : ℕ) (old : Bytes)
    → size < 8 ^ 11
    → (off_from_header (off_to_chars f size old 12 false).bytes false).value ≡ size
unfolding off_from_header off_to_chars
off_from_header-off_to_chars f size old small =
    let plain : is_negative size ≡ false = ground arith in
    rw plain (
      ap (λ (d : Decoded). d.value)
        (from_header-to_chars_octal f size 8 none old 10 false true 0 (2 ^ 63 - 1) false false false
          (omega arith) (unfold max_val_with_digits in omega arith) (omega arith)))

-- A write elsewhere.
kept :
    (size o n : ℕ) (bs : Bytes) (h h' : Block)
    → Writes o n bs h h'
    → (o + n ≤ 124) ⊎ (136 ≤ o)
    → Sized size h
    → Sized size h'
kept size o n bs h h' w apart v = record {
  whole = w.whole;
  sized =
      ap (λ (l : Bytes). (off_from_header l false).value)
        (elim apart [ inl lower ↦ w.behind 124 12 lower | inr upper ↦ w.front 124 12 upper ])
      ∙ v.sized;
}

text_kept :
    (size o n : ℕ) (bs : Bytes) (h : Block)
    → Sized size h
    → length bs ≡ n
    → All IsByte bs
    → o + n ≤ block_size
    → (o + n ≤ 124) ⊎ (136 ≤ o)
    → Sized size (put o bs h)
text_kept size o n bs h v long bytes inside apart =
    kept size o n bs h (put o bs h) (put-Writes o n bs h v.whole long bytes inside) apart v

module _ (f : Format) (size : ℕ) (h : Block) where
  size_written :
      IsHeader h
      → size < 8 ^ 11
      → Sized size (put 124 (off_to_chars f size (field 124 12 h) 12 false).bytes h)
  unfolding off_to_chars
  size_written v small =
      let w = to_chars-Writes f (is_negative size) size 8 none 124 11 h v (omega arith) in
      record {
        whole = w.whole;
        sized =
            ap (λ (l : Bytes). (off_from_header l false).value) w.reads
            ∙ unfold off_to_chars in off_from_header-off_to_chars f size (field 124 12 h) small;
      }

  time_kept :
      (t : ℕ)
      → Sized size h
      → Sized size (put 136 (time_to_chars f t (field 136 12 h) 12 false).bytes h)
  unfolding time_to_chars
  time_kept t v =
      kept size 136 12 _ h _
        (to_chars-Writes f (is_negative t) t 8 none 136 11 h v.whole (omega arith))
        (inr (omega arith)) v

  mode_kept :
      (mode : ℕ)
      → Sized size h
      → Sized size (put 100 (mode_to_chars f mode (field 100 8 h) 8 false).bytes h)
  unfolding mode_to_chars
  mode_kept mode v =
      kept size 100 8 _ h _ (to_chars-Writes f false _ 4 none 100 7 h v.whole (omega arith))
        (inl (omega arith)) v

  uid_kept :
      (nobody : ℕ)
      → Sized size h
      → Sized size (put 108 (uid_to_chars f nobody 0 (field 108 8 h) 8 false).bytes h)
  unfolding uid_to_chars
  uid_kept nobody v =
      kept size 108 8 _ h _
        (to_chars-Writes f false 0 4 (some (false, nobody)) 108 7 h v.whole (omega arith))
        (inl (omega arith)) v

  gid_kept :
      (nobody : ℕ)
      → Sized size h
      → Sized size (put 116 (gid_to_chars f nobody 0 (field 116 8 h) 8 false).bytes h)
  unfolding gid_to_chars
  gid_kept nobody v =
      kept size 116 8 _ h _
        (to_chars-Writes f false 0 4 (some (false, nobody)) 116 7 h v.whole (omega arith))
        (inl (omega arith)) v

fill_private_header-Sized :
    (f : Format) (nobody size t : ℕ) (named : Block)
    → IsHeader named
    → size < 8 ^ 11
    → Sized size (fill_private_header f nobody size t named)
unfolding fill_private_header
fill_private_header-Sized f nobody size t named v small =
    text_kept size 257 8 posix_magic _
      (gid_kept f size _ nobody (
        uid_kept f size _ nobody
          (mode_kept f size _ 0o100644 (time_kept f size _ _ (size_written f size named v small)))))
      refl (text-IsByte posix_magic refl) (omega arith) (inr (omega arith))

pub empty_block-IsHeader : IsHeader empty_block
empty_block-IsHeader = record {
  size = refl;
  bytes = All-replicate IsByte block_size 0 (omega arith);
}

start_private_header-Sized :
    (f : Format) (nobody : ℕ) (name : Bytes) (size t : ℕ)
    → All IsByte name
    → size < 8 ^ 11
    → Sized size (start_private_header f nobody name size t)
unfolding start_private_header put_name
start_private_header-Sized f nobody name size t bytes small =
    fill_private_header-Sized f nobody size t (put_name f name empty_block)
      (put-IsHeader 0 (tar_name_copy_str f (field 0 100 empty_block) name 100) empty_block
        (tar_name_copy_str-IsByte f (field 0 100 empty_block) name 100
          (field-IsByte 0 100 empty_block empty_block-IsHeader) bytes)
        empty_block-IsHeader)
      small

-- The names of an owner, where they are bytes.
abbrev pub OwnerIsBytes : Option (Bytes × Bytes) → Type 0
OwnerIsBytes none = Unit {0}
OwnerIsBytes (some (uname, gname)) = All IsByte uname × All IsByte gname

owner_kept :
    (size o : ℕ) (name : Bytes) (h : Block)
    → All IsByte name
    → 136 ≤ o
    → o + 32 ≤ block_size
    → Sized size h
    → Sized size (put o (string_to_chars name (field o 32 h) 32) h)
owner_kept size o name h bytes apart inside v =
    text_kept size o 32 (string_to_chars name (field o 32 h) 32) h v
      (length-string_to_chars name (field o 32 h) 32 ∙ length-field o 32 h v.whole inside)
      (string_to_chars-IsByte name (field o 32 h) 32 bytes (field-IsByte o 32 h v.whole)) inside
      (inr apart)

put_owner-Sized :
    (size : ℕ) (owner : Option (Bytes × Bytes)) (h : Block)
    → OwnerIsBytes owner
    → Sized size h
    → Sized size (put_owner owner h)
unfolding put_owner
put_owner-Sized size none h bytes v = v
put_owner-Sized size (some (uname, gname)) h bytes v =
    owner_kept size 297 gname _ bytes.1 (omega arith) (omega arith)
      (owner_kept size 265 uname h bytes.0 (omega arith) (omega arith) v)

-- What a reader finds in the header of a long name.
pub record IsLongLink (size type : ℕ) (h : Block) : Type 0 where
  pub whole : IsBlock h
  pub accepted : tar_checksum h false false ≡ header_success
  pub type_kept : typeflag h ≡ type
  pub size_kept : size_of h ≡ size

finished :
    (size type : ℕ) (h : Block)
    → IsByte type
    → Sized size h
    → IsLongLink size type (simple_finish_header (put 156 (type ∷ []) h))
finished size type h byte v =
    let typed = put-Writes 156 1 (type ∷ []) h v.whole refl (byte, tt) (omega arith) in
    let last = simple_finish_header-Writes (put 156 (type ∷ []) h) typed.whole in
    let sized =
      kept size 148 8 _ _ _ last (inr (omega arith))
        (kept size 156 1 _ h _ typed (inr (omega arith)) v) in
    record {
      whole = last.whole.size;
      accepted =
          tar_checksum-simple_finish_header (put 156 (type ∷ []) h) false false typed.whole.size
            typed.whole.bytes;
      type_kept =
          sym (get_or-field 156 0 (simple_finish_header (put 156 (type ∷ []) h)) 0)
          ∙ ap (λ (l : Bytes). get_or l 0 0) (last.behind 156 1 (omega arith) ∙ typed.reads);
      size_kept = unfold size_of in sized.sized;
    }

pub long_link_header-IsLongLink :
    (f : Format) (nobody : ℕ) (owner : Option (Bytes × Bytes)) (size type : ℕ)
    → OwnerIsBytes owner
    → IsByte type
    → size < 8 ^ 11
    → IsLongLink size type (long_link_header f nobody owner size type)
unfolding long_link_header
long_link_header-IsLongLink f nobody owner size type bytes byte small = finished size type _ byte (
    text_kept size 257 8 oldgnu_magic _
      (put_owner-Sized size owner _ bytes (
        start_private_header-Sized f nobody (codes "././@LongLink") size 0
          (text-IsByte (codes "././@LongLink") refl) small))
      refl (text-IsByte oldgnu_magic refl) (omega arith) (inr (omega arith)))
