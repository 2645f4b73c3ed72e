-- ===== src/Create/ByteFields.antt =====
-- What is written into header blocks is bytes, and a header block keeps its size.
use tar.Base.{
  ℕ, zero, suc, ◌+◌, ◌-◌, ◌*◌, ◌/◌, ◌%◌, ◌≤◌, ◌≡◌, ◌∙◌, arith, bit_or, bit_and, Bool, true, false,
  not, ◌&&◌, Option, none, some, List, [], ◌∷◌, ◌++◌, length, length-take, length-drop, drop, All,
  All-append, leb, ltb, if◌then◌else◌, both,
}
use tar.Base.Put.{put, length-put, All-put}
use tar.Base.Slices.{All-take_of, All-drop_of}
use tar.Base.Text.{Bytes}
use tar.Base.Words.{IsByte, u64_mod, wrap, minus_one}
use tar.Stream.{Block, block_size}
use tar.Field.{Format}
use tar.Field.Encode.{
  Encoded, max_val_with_digits, to_octal, octal_loop, to_base256, base256_loop,
  propagated_sign_bits, tar_copy_str, store_nul, is_oldgnu, tar_name_copy_str, string_to_chars,
  gnu_format, to_chars_or, out_of_range, to_chars_subst, to_chars,
}
use tar.Header.Bytes.{octal_loop-IsByte}
use tar.Reader.Fields.{field}

base256_loop-IsByte :
    (negative : Bool) (v i : ℕ) (done : List ℕ)
    → All IsByte done
    → All IsByte (base256_loop negative v i done)
unfolding base256_loop
base256_loop-IsByte negative v zero done h = h
base256_loop-IsByte negative v (suc i) done h =
    base256_loop-IsByte negative (bit_or (propagated_sign_bits negative) (v / 256)) i
      ((v % 256) ∷ done) (omega arith, h)

pub to_octal-IsByte : (v n : ℕ) → All IsByte (to_octal v n ++ (0 ∷ []))
unfolding to_octal
to_octal-IsByte v n =
    All-append IsByte (octal_loop v n []) (0 ∷ []) (octal_loop-IsByte v n [] tt) (omega arith, tt)

record GivesBytes (e : Encoded) : Type 0 where
  given : All IsByte e.bytes

base256-IsByte :
    (negative : Bool) (v n : ℕ)
    → All IsByte ((if negative then 255 else 128) ∷ to_base256 negative v n)
unfolding to_base256
base256-IsByte true v n = (omega arith, base256_loop-IsByte true v n [] tt)
base256-IsByte false v n = (omega arith, base256_loop-IsByte false v n [] tt)

to_chars_or-IsByte :
    (otherwise : Encoded) (f : Format) (negative : Bool) (value valsize size : ℕ) (warned : Bool)
    → GivesBytes otherwise
    → GivesBytes (to_chars_or otherwise f negative value valsize size warned)
unfolding to_chars_or
to_chars_or-IsByte otherwise f negative value valsize size warned h =
    both GivesBytes (not negative && leb value (max_val_with_digits (size - 1) 3))
      record { given = to_octal-IsByte value (size - 1) }
      (both GivesBytes (gnu_format f)
        (both GivesBytes
          (leb (if negative then wrap (minus_one + (u64_mod - value)) else value)
            (max_val_with_digits (size - 1) 8))
          record { given = base256-IsByte negative value (size - 1) }
          (both GivesBytes (negative && leb (valsize * 8) ((size - 1) * 3))
            record {
              given =
                  to_octal-IsByte (bit_and value (max_val_with_digits (valsize * 8) 1)) (size - 1);
            }
            h))
        h)

to_chars_subst-IsByte :
    (f : Format) (valsize : ℕ) (substitute : Option (Bool × ℕ)) (old : List ℕ) (size : ℕ)
    (warned : Bool)
    → All IsByte old
    → GivesBytes (to_chars_subst f valsize substitute old size warned)
unfolding to_chars_subst
to_chars_subst-IsByte f valsize none old size warned h = record { given = h }
to_chars_subst-IsByte f valsize (some (negsub, substitute)) old size warned h = record {
  given =
      (to_chars_or-IsByte (out_of_range old warned) f _ _ valsize size warned
        record { given = h }).given;
}

pub to_chars-IsByte :
    (f : Format) (negative : Bool) (value valsize : ℕ) (substitute : Option (Bool × ℕ))
    (old : List ℕ) (size : ℕ) (warned : Bool)
    → All IsByte old
    → All IsByte (to_chars f negative value valsize substitute old size warned).bytes
unfolding to_chars
to_chars-IsByte f negative value valsize substitute old size warned h =
    (to_chars_or-IsByte _ f negative value valsize size warned
      (to_chars_subst-IsByte f valsize _ old size warned h)).given

pub tar_copy_str-IsByte :
    (dst s : Bytes) (len : ℕ) → All IsByte dst → All IsByte s → All IsByte (tar_copy_str dst s len)
unfolding tar_copy_str
tar_copy_str-IsByte dst s zero h k = h
tar_copy_str-IsByte [] s (suc len) h k = tt
tar_copy_str-IsByte (d ∷ dst) [] (suc len) h k = (omega arith, h.1)
tar_copy_str-IsByte (d ∷ dst) (c ∷ s) (suc len) h k = (k.0, tar_copy_str-IsByte dst s len h.1 k.1)

store_nul-IsByte : (dst : Bytes) (i : ℕ) → All IsByte dst → All IsByte (store_nul dst i)
unfolding store_nul
store_nul-IsByte [] i h = tt
store_nul-IsByte (d ∷ dst) zero h = (omega arith, h.1)
store_nul-IsByte (d ∷ dst) (suc i) h = (h.0, store_nul-IsByte dst i h.1)

pub tar_name_copy_str-IsByte :
    (f : Format) (dst s : Bytes) (len : ℕ)
    → All IsByte dst
    → All IsByte s
    → All IsByte (tar_name_copy_str f dst s len)
unfolding tar_name_copy_str
tar_name_copy_str-IsByte f dst s len h k =
    both (All IsByte) (is_oldgnu f)
      (store_nul-IsByte (tar_copy_str dst s len) (len - 1) (tar_copy_str-IsByte dst s len h k))
      (tar_copy_str-IsByte dst s len h k)

pub string_to_chars-IsByte :
    (s dst : Bytes) (n : ℕ) → All IsByte s → All IsByte dst → All IsByte (string_to_chars s dst n)
unfolding string_to_chars
string_to_chars-IsByte s dst n h k =
    store_nul-IsByte (tar_copy_str dst s n) (n - 1) (tar_copy_str-IsByte dst s n k h)

-- A block of bytes.
pub record IsHeader (h : Block) : Type 0 where
  pub size : length h ≡ block_size
  pub bytes : All IsByte h

pub put-IsHeader :
    (o : ℕ) (bs : Bytes) (h : Block) → All IsByte bs → IsHeader h → IsHeader (put o bs h)
put-IsHeader o bs h new v = record {
  size = length-put o bs h ∙ v.size;
  bytes = All-put IsByte o bs h new v.bytes;
}

pub field-IsByte : (o n : ℕ) (h : Block) → IsHeader h → All IsByte (field o n h)
field-IsByte o n h v = All-take_of IsByte n (drop o h) (All-drop_of IsByte o h v.bytes)

pub length-field :
    (o n : ℕ) (h : Block) → IsHeader h → o + n ≤ block_size → length (field o n h) ≡ n
length-field o n h v inside = omega (arith, length-take n (drop o h), length-drop o h, v.size)

abbrev all_small : Bytes → Bool
all_small [] = true
all_small (c ∷ s) = ltb c 256 && all_small s

-- A text that is given, by evaluation.
pub text-IsByte : (s : Bytes) → all_small s ≡ true → All IsByte s
text-IsByte [] h = tt
text-IsByte (c ∷ s) h = (ground arith, text-IsByte s (ground arith))
