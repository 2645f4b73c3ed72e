-- ===== src/Field/ModeBits.antt =====
-- The mode fields of the GNU formats: the newer one drops the bits of the file's type, and the older
-- one keeps them.
use tar.Base.{
  ℕ, zero, suc, ◌-◌, ◌^◌, ◌<◌, ◌≡◌, refl, arith, Bool, true, false, ◌&&◌, bit_and, bit_or, none,
  List, [], ◌∷◌, length, ltb, ◌==◌, if◌then◌else◌,
}
use tar.Base.Words.{u64_mod}
use tar.Field.{oldgnu, gnu}
use tar.Field.Encode.{max_val_with_digits}
use tar.Field.Mode.{
  known_bits, mode_to_chars, mode_of, mode_from_header, plain_below-lt, plain_modes,
}
use tar.Field.RoundTrip.{from_header-to_chars_octal}

check_all : ℕ → (List Bool → Bool) → Bool
check_all zero p = p []
check_all (suc n) p = check_all n (λ l. p (true ∷ l)) && check_all n (λ l. p (false ∷ l))

check_all_sound :
    (n : ℕ) (p : List Bool → Bool) (l : List Bool)
    → check_all n p ≡ true
    → length l ≡ n
    → p l ≡ true
unfolding check_all
check_all_sound zero p [] h e = h
check_all_sound zero p (b ∷ l) h e = absurd (omega arith)
check_all_sound (suc n) p [] h e = absurd (omega arith)
check_all_sound (suc n) p (true ∷ l) h e =
    check_all_sound n (λ l. p (true ∷ l)) l (ground arith) (omega arith)
check_all_sound (suc n) p (false ∷ l) h e =
    check_all_sound n (λ l. p (false ∷ l)) l (ground arith) (omega arith)

-- The bits of `masks` whose test fails.
or_of : List ℕ → List Bool → ℕ
or_of [] l = 0
or_of (m ∷ masks) [] = 0
or_of (m ∷ []) (b ∷ l) = if b then 0 else m
or_of (m ∷ m' ∷ masks) (b ∷ l) = bit_or (if b then 0 else m) (or_of (m' ∷ masks) l)

abbrev masks : List ℕ
masks = 0o4000 ∷ 0o2000 ∷ 0o1000 ∷ 0o400 ∷ 0o200 ∷ 0o100 ∷ 0o40 ∷ 0o20 ∷ 0o10 ∷ 0o4 ∷ 0o2 ∷ 0o1 ∷ []

abbrev tests : ℕ → List ℕ → List Bool
tests v [] = []
tests v (m ∷ ms) = (bit_and v m == 0) ∷ tests v ms

all_small : check_all 12 (λ l. ltb (or_of masks l) 0o10000) ≡ true
unfolding check_all or_of
all_small = refl

known_bits-small : (v : ℕ) → known_bits v < 0o10000
known_bits-small v = ground (arith, small, same)
  where
    small : ltb (or_of masks (tests v masks)) 0o10000 ≡ true
    small = check_all_sound 12 (λ l. ltb (or_of masks l) 0o10000) (tests v masks) all_small refl

    same : known_bits v ≡ or_of masks (tests v masks)
    same = unfold known_bits or_of in refl

pub mode_from_header-mode_to_chars_gnu :
    (v : ℕ) (p : List ℕ) (warned warned' : Bool)
    → mode_from_header (mode_to_chars gnu v p 8 warned).bytes warned'
      ≡ record { mode = known_bits v; hbits = false; messages = [] }
unfolding mode_from_header mode_to_chars mode_of
mode_from_header-mode_to_chars_gnu v p warned warned' =
    let small = known_bits-small v in
    rw
      (from_header-to_chars_octal gnu (known_bits v) 4 none p 6 warned true (2 ^ 63) (u64_mod - 1)
        false false warned' (omega arith) (unfold max_val_with_digits in omega arith) (omega arith))
      (ground (arith, plain_below-lt 0o10000 (known_bits v) plain_modes small))

pub mode_from_header-mode_to_chars_oldgnu :
    (v : ℕ) (p : List ℕ) (warned warned' : Bool)
    → v < 8 ^ 7
    → (bit_and v (u64_mod - 1 - 0o7777) == 0) ≡ false
    → mode_from_header (mode_to_chars oldgnu v p 8 warned).bytes warned'
      ≡ record { mode = known_bits v; hbits = true; messages = [] }
unfolding mode_from_header mode_to_chars mode_of
mode_from_header-mode_to_chars_oldgnu v p warned warned' small typed =
    rw
      (from_header-to_chars_octal oldgnu v 4 none p 6 warned true (2 ^ 63) (u64_mod - 1) false false
        warned' (omega arith) (unfold max_val_with_digits in omega arith) (omega arith))
      (rw typed refl)
