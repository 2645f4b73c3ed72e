-- ===== src/Create/Strings.antt =====
-- Names in the fields of a header block, as C strings.
use tar.Base.{
  ℕ, zero, suc, ◌-◌, ◌≤◌, ◌<◌, ◌≡◌, refl, ◌∙◌, ap, arith, true, [], ◌∷◌, length, take, drop,
  replicate, if◌then◌else◌,
}
use tar.Base.Put.{put, overwrite}
use tar.Base.Text.{Bytes}
use tar.Field.{Format, default, v7, oldgnu, ustar, posix, star, gnu}
use tar.Field.Encode.{tar_copy_str, store_nul, tar_name_copy_str, string_to_chars, is_oldgnu}
use tar.Reader.Fields.{cstring}
use tar.Pax.Keyword.{no_nul}

take-overwrite_of : (n : ℕ) (bs xs : Bytes) → take n (overwrite bs xs) ≡ overwrite bs (take n xs)
take-overwrite_of n [] xs = refl
take-overwrite_of zero (b ∷ bs) [] = refl
take-overwrite_of (suc n) (b ∷ bs) [] = refl
take-overwrite_of zero (b ∷ bs) (x ∷ xs) = refl
take-overwrite_of (suc n) (b ∷ bs) (x ∷ xs) = ap (λ (l : Bytes). b ∷ l) (take-overwrite_of n bs xs)

-- A write to the front of a field.
pub field-put_at :
    (o n : ℕ) (bs xs : Bytes) → take n (drop o (put o bs xs)) ≡ overwrite bs (take n (drop o xs))
field-put_at zero n bs xs = take-overwrite_of n bs xs
field-put_at (suc o) zero bs [] = in_nothing bs
  where
    in_nothing : (bs : Bytes) → (let e : Bytes = [] in e) ≡ overwrite bs []
    in_nothing [] = refl
    in_nothing (b ∷ bs) = refl
field-put_at (suc o) (suc n) bs [] = in_nothing bs
  where
    in_nothing : (bs : Bytes) → (let e : Bytes = [] in e) ≡ overwrite bs []
    in_nothing [] = refl
    in_nothing (b ∷ bs) = refl
field-put_at (suc o) n bs (x ∷ xs) = field-put_at o n bs xs

-- A string in a field of zeros.
pub cstring-overwrite :
    (s : Bytes) (n : ℕ) → no_nul s ≡ true → length s ≤ n → cstring (overwrite s (replicate n 0)) ≡ s
cstring-overwrite [] zero h k = refl
cstring-overwrite [] (suc n) h k = refl
cstring-overwrite (c ∷ s) zero h k = absurd (omega arith)
cstring-overwrite (c ∷ s) (suc n) h k = ground (arith, cstring-overwrite s n)

-- `tar_copy_str` fills a field with a string that is not longer.
pub cstring-tar_copy_str :
    (dst s : Bytes)
    → no_nul s ≡ true
    → length s ≤ length dst
    → cstring (tar_copy_str dst s (length dst)) ≡ s
unfolding tar_copy_str
cstring-tar_copy_str [] [] h k = refl
cstring-tar_copy_str [] (c ∷ s) h k = absurd (omega arith)
cstring-tar_copy_str (d ∷ dst) [] h k = refl
cstring-tar_copy_str (d ∷ dst) (c ∷ s) h k = ground (arith, cstring-tar_copy_str dst s)

cstring-store_nul :
    (xs : Bytes) (i : ℕ) → length (cstring xs) ≤ i → cstring (store_nul xs i) ≡ cstring xs
unfolding store_nul
cstring-store_nul [] i h = refl
cstring-store_nul (x ∷ xs) zero h = ground arith
cstring-store_nul (x ∷ xs) (suc i) h = ground (arith, cstring-store_nul xs i)

-- The longest name that a field of `n` bytes holds, with the NUL that the old GNU format wants.
abbrev pub room_for : Format → ℕ → ℕ
room_for archive_format n = n - (if is_oldgnu archive_format then 1 else 0)

pub cstring-tar_name_copy_str :
    (archive_format : Format) (dst s : Bytes)
    → no_nul s ≡ true
    → length s ≤ room_for archive_format (length dst)
    → cstring (tar_name_copy_str archive_format dst s (length dst)) ≡ s
unfolding tar_name_copy_str
cstring-tar_name_copy_str oldgnu dst s h k =
    let whole = cstring-tar_copy_str dst s h (omega arith) in
    cstring-store_nul (tar_copy_str dst s (length dst)) (length dst - 1)
      (omega (arith, ap length whole))
    ∙ whole
cstring-tar_name_copy_str default dst s h k = cstring-tar_copy_str dst s h (omega arith)
cstring-tar_name_copy_str v7 dst s h k = cstring-tar_copy_str dst s h (omega arith)
cstring-tar_name_copy_str ustar dst s h k = cstring-tar_copy_str dst s h (omega arith)
cstring-tar_name_copy_str posix dst s h k = cstring-tar_copy_str dst s h (omega arith)
cstring-tar_name_copy_str star dst s h k = cstring-tar_copy_str dst s h (omega arith)
cstring-tar_name_copy_str gnu dst s h k = cstring-tar_copy_str dst s h (omega arith)

pub length-tar_copy_str : (dst s : Bytes) (len : ℕ) → length (tar_copy_str dst s len) ≡ length dst
unfolding tar_copy_str
length-tar_copy_str dst s zero = refl
length-tar_copy_str [] s (suc len) = refl
length-tar_copy_str (d ∷ dst) [] (suc len) = refl
length-tar_copy_str (d ∷ dst) (c ∷ s) (suc len) = ap suc (length-tar_copy_str dst s len)

length-store_nul : (dst : Bytes) (i : ℕ) → length (store_nul dst i) ≡ length dst
unfolding store_nul
length-store_nul [] i = refl
length-store_nul (d ∷ dst) zero = refl
length-store_nul (d ∷ dst) (suc i) = ap suc (length-store_nul dst i)

pub length-tar_name_copy_str :
    (archive_format : Format) (dst s : Bytes) (len : ℕ)
    → length (tar_name_copy_str archive_format dst s len) ≡ length dst
unfolding tar_name_copy_str
length-tar_name_copy_str f dst s len =
    ground
      (arith, length-store_nul (tar_copy_str dst s len) (len - 1), length-tar_copy_str dst s len)

pub length-string_to_chars : (s dst : Bytes) (n : ℕ) → length (string_to_chars s dst n) ≡ length dst
unfolding string_to_chars
length-string_to_chars s dst n =
    length-store_nul (tar_copy_str dst s n) (n - 1) ∙ length-tar_copy_str dst s n

pub cstring-string_to_chars :
    (s dst : Bytes)
    → no_nul s ≡ true
    → length s < length dst
    → cstring (string_to_chars s dst (length dst)) ≡ s
unfolding string_to_chars
cstring-string_to_chars s dst plain fits =
    let whole = cstring-tar_copy_str dst s plain (omega arith) in
    cstring-store_nul (tar_copy_str dst s (length dst)) (length dst - 1)
      (omega (arith, ap length whole))
    ∙ whole
