-- ===== src/Create/NameFields.antt =====
-- The name that `read_header` takes from the fields of a header.
use tar.Base.{
  ℕ, ◌≤◌, ◌≡◌, refl, sym, ◌∙◌, ap, subst, arith, true, false, not, ◌&&◌, inl, inr, Bool-cases, [],
  ◌∷◌, ◌++◌, length, take, ◌==◌, get_or,
}
use tar.Base.Put.{put, field-put, get_or-field, drop-put}
use tar.Base.Text.{Bytes, streq}
use tar.Stream.{Block}
use tar.Field.{Format}
use tar.Field.Encode.{tar_name_copy_str}
use tar.Reader.Fields.{field, name_of, cstring, tmagic}
use tar.Pax.Keyword.{no_nul}
use tar.Create.{empty_block, put_name, write_short_name}
use tar.Create.Strings.{cstring-tar_name_copy_str, room_for, length-tar_name_copy_str}
use tar.Create.Split.{IsSplit}

-- The header of a member has the name that was written to `header`; the magic is there where the
-- name has a prefix, and without the magic the prefix does not matter.
pub record KeepsName (header h : Block) : Type 0 where
  pub name_kept : field 0 100 h ≡ field 0 100 header
  pub prefix_kept : streq (field 257 6 h) tmagic ≡ true → field 345 155 h ≡ field 345 155 header
  pub magic_there :
      1 ≤ length (cstring (field 345 155 header)) → streq (field 257 6 h) tmagic ≡ true

first_byte : (h : Block) → length (cstring (field 345 155 h)) ≡ 0 → get_or h 345 0 ≡ 0
first_byte h e = sym (get_or-field 345 154 h 0) ∙ no_byte (field 345 155 h) e
  where
    no_byte : (s : Bytes) → length (cstring s) ≡ 0 → get_or s 0 0 ≡ 0
    no_byte [] e = refl
    no_byte (c ∷ s) e = ground arith

some_byte : (h : Block) → 1 ≤ length (cstring (field 345 155 h)) → (get_or h 345 0 == 0) ≡ false
some_byte h e = ap (λ (c : ℕ). c == 0) (sym (get_or-field 345 154 h 0)) ∙ byte (field 345 155 h) e
  where
    byte : (s : Bytes) → 1 ≤ length (cstring s) → (get_or s 0 0 == 0) ≡ false
    byte [] e = absurd (omega arith)
    byte (c ∷ s) e = ground arith

pub name_of-short :
    (header h : Block) (name : Bytes)
    → KeepsName header h
    → cstring (field 0 100 header) ≡ name
    → length (cstring (field 345 155 header)) ≡ 0
    → name_of h ≡ name
unfolding name_of
name_of-short header h name k e none_there = elim (Bool-cases (streq (field 257 6 h) tmagic)) [
  | inl magic ↦
      rw (first_byte h (ap (λ (l : Bytes). length (cstring l)) (k.prefix_kept magic) ∙ none_there))
        (ap cstring k.name_kept ∙ e)
  | inr other ↦ rw other (rw (no_prefix (get_or h 345 0)) (ap cstring k.name_kept ∙ e))
]
  where
    no_prefix : (c : ℕ) → (not (c == 0) && false) ≡ false
    no_prefix c = ground arith

pub name_of-IsSplit :
    (header h : Block) (name : Bytes) → KeepsName header h → IsSplit name header → name_of h ≡ name
unfolding name_of
name_of-IsSplit header h name k split =
    let kept = k.prefix_kept (k.magic_there split.nonempty) in
    let there : 1 ≤ length (cstring (field 345 155 h)) =
      omega (arith, split.nonempty, ap (λ (l : Bytes). length (cstring l)) kept) in
    rw (some_byte h there) (
      rw (k.magic_there split.nonempty) (
        ap (λ (l : Bytes). cstring l ++ (b'/' ∷ cstring (field 0 100 h))) kept
        ∙ ap (λ (l : Bytes). cstring (field 345 155 header) ++ (b'/' ∷ cstring l)) k.name_kept
        ∙ split.joined))

module _ (f : Format) (name : Bytes) where
  length-copied : length (tar_name_copy_str f (field 0 100 empty_block) name 100) ≡ 100
  length-copied = length-tar_name_copy_str f (field 0 100 empty_block) name 100

  pub write_short_name-name :
      no_nul name ≡ true
      → length name ≤ room_for f 100
      → cstring (field 0 100 (write_short_name f name)) ≡ name
  unfolding write_short_name put_name
  write_short_name-name plain fits =
      let copied = tar_name_copy_str f (field 0 100 empty_block) name 100 in
      ap cstring (
        subst (λ (n : ℕ). take n (put 0 copied empty_block) ≡ copied) length-copied
          (field-put 0 copied empty_block (omega (arith, length-copied))))
      ∙ cstring-tar_name_copy_str f (field 0 100 empty_block) name plain fits

  pub write_short_name-prefix : length (cstring (field 345 155 (write_short_name f name))) ≡ 0
  unfolding write_short_name put_name
  write_short_name-prefix =
      ap (λ (l : Block). length (cstring (take 155 l)))
        (drop-put 345 0 (tar_name_copy_str f (field 0 100 empty_block) name 100) empty_block
          (omega (arith, length-copied)))
