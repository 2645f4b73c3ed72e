-- ===== src/Create/Writes.antt =====
-- Writes to the fields of a header block: what is written is read back, and the other fields stay.
use tar.Base.{
  ℕ, suc, ◌+◌, ◌≤◌, ◌≡◌, sym, ◌∙◌, ap, subst, arith, Bool, false, Option, [], ◌∷◌, length, take,
  drop, All,
}
use tar.Base.Put.{put, field-put, field-put_front, drop-put, put-append}
use tar.Base.Text.{Bytes}
use tar.Base.Words.{IsByte}
use tar.Stream.{Block, block_size}
use tar.Field.{Format}
use tar.Field.Encode.{to_chars}
use tar.Field.Outcome.{length-to_chars}
use tar.Header.{simple_finish_header}
use tar.Header.Checksum.{
  checksum_text, blanked_sum, simple_finish_header-text, length-checksum_text,
}
use tar.Header.Bytes.{octal_loop-IsByte}
use tar.Reader.Fields.{field}
use tar.Create.ByteFields.{IsHeader, put-IsHeader, field-IsByte, length-field, to_chars-IsByte}

-- `after` is `before` with `bs` in the `n` bytes from `o` on.
pub record Writes (o n : ℕ) (bs : Bytes) (before after : Block) : Type 0 where
  pub whole : IsHeader after
  pub reads : field o n after ≡ bs
  pub front : (o' n' : ℕ) → o' + n' ≤ o → field o' n' after ≡ field o' n' before
  pub behind : (o' n' : ℕ) → o + n ≤ o' → field o' n' after ≡ field o' n' before

pub put-Writes :
    (o n : ℕ) (bs : Bytes) (h : Block)
    → IsHeader h
    → length bs ≡ n
    → All IsByte bs
    → o + n ≤ block_size
    → Writes o n bs h (put o bs h)
put-Writes o n bs h v size bytes inside = record {
  whole = put-IsHeader o bs h bytes v;
  reads =
      subst (λ (k : ℕ). take k (drop o (put o bs h)) ≡ bs) size
        (field-put o bs h (omega (arith, v.size)));
  front = λ o' n' before. field-put_front o' n' o bs h before;
  behind = λ o' n' after. ap (take n') (drop-put o' o bs h (omega arith));
}

-- A number goes into its field.
pub to_chars-Writes :
    (f : Format) (negative : Bool) (v valsize : ℕ) (substitute : Option (Bool × ℕ)) (o n : ℕ)
    (h : Block)
    → IsHeader h
    → o + suc n ≤ block_size
    → Writes o
        (suc n)
        (to_chars f negative v valsize substitute (field o (suc n) h) (suc n) false).bytes
        h
        (put o (to_chars f negative v valsize substitute (field o (suc n) h) (suc n) false).bytes h)
to_chars-Writes f negative v valsize substitute o n h whole inside =
    put-Writes o (suc n) _ h whole
      (length-to_chars f negative v valsize substitute (field o (suc n) h) n false
        (length-field o (suc n) h whole inside))
      (to_chars-IsByte f negative v valsize substitute (field o (suc n) h) (suc n) false
        (field-IsByte o (suc n) h whole))
      inside

simple_finish_header-put :
    (h : Block) → IsHeader h → simple_finish_header h ≡ put 148 (checksum_text (blanked_sum h)) h
simple_finish_header-put h v =
    simple_finish_header-text h
    ∙ put-append 148 156 (checksum_text (blanked_sum h)) h
        (omega (arith, length-checksum_text (blanked_sum h))) (omega (arith, v.size))

-- The checksum is the last field that is written.
pub simple_finish_header-Writes :
    (h : Block)
    → IsHeader h
    → Writes 148 8 (checksum_text (blanked_sum h)) h (simple_finish_header h)
simple_finish_header-Writes h v =
    subst (Writes 148 8 (checksum_text (blanked_sum h)) h) (sym (simple_finish_header-put h v)) (
      put-Writes 148 8 (checksum_text (blanked_sum h)) h v (length-checksum_text (blanked_sum h))
        (octal_loop-IsByte (blanked_sum h) 6 (0 ∷ b' ' ∷ []) (omega arith, (omega arith, tt)))
        (omega arith))
