-- ===== src/Field/RoundTrip.antt =====
-- What the field writer `to_chars` and the field reader `from_header` say of one another.
use tar.Base.{
  ℕ, suc, ◌+◌, ◌-◌, ◌≤◌, ◌<◌, ◌≡◌, refl, ap, arith, Bool, true, false, Option, List, [], ◌∷◌, leb,
  if◌then◌else◌, ◌⊎◌, inl, inr, Bool-cases, leb→le,
}
use tar.Base.Words.{minus_one, IsU64, wrap, negate}
use tar.Field.{Format}
use tar.Field.Capacity.{octal_fits, base256_fits}
use tar.Field.Encode.{
  Encoded, gnu_format, max_val_with_digits, octal_loop, base256_loop, to_base256, to_chars,
  to_chars_or,
}
use tar.Field.Decode.{from_header, has_junk}
use tar.Field.Octal.{to_octal-append, from_header-octal_loop}
use tar.Field.Base256.{word, lead, from_header-base256_loop}

less_one : (n : ℕ) → suc n - 1 ≡ n
less_one n = omega arith

-- The encoding that is chosen, in the two cases in which the number fits.
to_chars_octal :
    (archive_format : Format) (v valsize : ℕ) (substitute : Option (Bool × ℕ)) (old : List ℕ)
    (n : ℕ) (warned : Bool)
    → v ≤ max_val_with_digits n 3
    → to_chars archive_format false v valsize substitute old (suc n) warned
      ≡ record { fits = true; bytes = octal_loop v n (0 ∷ []); messages = []; warned_once = warned }
unfolding to_chars_or to_chars
to_chars_octal archive_format v valsize substitute old n warned h =
    rw (less_one n) (ground (arith, to_octal-append n v (0 ∷ [])))

-- A nonnegative number that fits in octal comes back from a field of two bytes or more, in every
-- format and with no diagnostics, to a reader whose range holds it.
pub from_header-to_chars_octal :
    (archive_format : Format) (v valsize : ℕ) (substitute : Option (Bool × ℕ)) (old : List ℕ)
    (n : ℕ) (warned typed : Bool) (minval maxval : ℕ) (octal_only silent warned' : Bool)
    → IsU64 v
    → v ≤ max_val_with_digits (suc n) 3
    → v ≤ maxval
    → from_header
        (to_chars archive_format false v valsize substitute old (suc (suc n)) warned).bytes
        typed
        minval
        maxval
        octal_only
        silent
        warned'
      ≡ record { value = v; messages = []; warned_once = warned' }
from_header-to_chars_octal f v valsize s old n warned typed minval maxval oo silent w' w fit top =
    rw (to_chars_octal f v valsize s old (suc n) warned fit) (
      from_header-octal_loop n v 0 [] typed minval maxval oo silent w' w
        (octal_fits (suc n) v w fit) top refl (unfold has_junk in refl))

to_chars_base256 :
    (archive_format : Format) (negative : Bool) (m valsize : ℕ) (substitute : Option (Bool × ℕ))
    (old : List ℕ) (n : ℕ) (warned : Bool)
    → gnu_format archive_format ≡ true
    → IsU64 m
    → m ≤ max_val_with_digits n 8
    → (negative ≡ true) ⊎ (max_val_with_digits n 3 < m)
    → to_chars archive_format negative (word negative m) valsize substitute old (suc n) warned
      ≡ record {
        fits = true;
        bytes = lead negative ∷ base256_loop negative (word negative m) n [];
        messages = [];
        warned_once = warned;
      }
unfolding to_chars_or to_chars to_base256
to_chars_base256 archive_format true m valsize substitute old n warned g w h big =
    rw (less_one n, g) (ground arith)
to_chars_base256 archive_format false m valsize substitute old n warned g w h big =
    rw (less_one n, g) (ground arith)

abbrev pub Recovers : Encoded → Bool → ℕ → ℕ → Bool → Bool → ℕ → Type 0
Recovers e typed minval maxval silent warned v =
    (e.fits ≡ true)
    × (e.messages ≡ [])
    × (from_header e.bytes typed minval maxval false silent warned
        ≡ record { value = v; messages = []; warned_once = warned })

module _ (archive_format : Format) (negative : Bool) (valsize : ℕ) (substitute : Option (Bool × ℕ))
    (old : List ℕ) (n : ℕ) (warned typed : Bool) (minval maxval : ℕ) (silent warned' : Bool)
    (gnu : gnu_format archive_format ≡ true) where
  abbrev written : ℕ → Encoded
  written v = to_chars archive_format negative v valsize substitute old (suc (suc n)) warned

  base256_case :
      (m : ℕ)
      → IsU64 m
      → m ≤ max_val_with_digits (suc n) 8
      → (if negative then wrap (m + 1) else m) ≤ (if negative then negate minval else maxval)
      → (negative ≡ true) ⊎ (max_val_with_digits (suc n) 3 < m)
      → Recovers (written (word negative m)) typed minval maxval silent warned' (word negative m)
  base256_case m w h range big =
      rw
        (to_chars_base256 archive_format negative m valsize substitute old (suc n) warned gnu w h
          big)
        (
          refl,
          refl,
          from_header-base256_loop negative n m typed minval maxval silent warned' w
              (base256_fits (suc n) m w h) range,
        )

-- In a GNU format and a field of two bytes or more, every number whose magnitude fits in base 256
-- comes back, negative ones and those too large for octal too, with no diagnostics on either side.
-- `v` is the number's bit pattern, and the reader's range holds it.
pub from_header-to_chars_gnu :
    (archive_format : Format) (negative : Bool) (v valsize : ℕ) (substitute : Option (Bool × ℕ))
    (old : List ℕ) (n : ℕ) (warned typed : Bool) (minval maxval : ℕ) (silent warned' : Bool)
    → gnu_format archive_format ≡ true
    → IsU64 v
    → (if negative then minus_one - v else v) ≤ max_val_with_digits (suc n) 8
    → (if negative then negate v else v) ≤ (if negative then negate minval else maxval)
    → Recovers
        (to_chars archive_format negative v valsize substitute old (suc (suc n)) warned)
        typed
        minval
        maxval
        silent
        warned'
        v
from_header-to_chars_gnu f true v valsize s old n warned typed minval maxval silent w' gnu w h
      range =
    rw (twice v w) at (
      base256_case f true valsize s old n warned typed minval maxval silent w' gnu (minus_one - v)
        (omega arith) h (rw (successor v w) range) (inl refl))
  where
    twice : (v : ℕ) → IsU64 v → word true (minus_one - v) ≡ v
    twice v w = omega arith

    successor : (v : ℕ) → IsU64 v → wrap (minus_one - v + 1) ≡ negate v
    successor v w = omega arith
from_header-to_chars_gnu f false v valsize s old n warned typed minval maxval silent w' gnu w h
      range =
    elim (Bool-cases (leb v (max_val_with_digits (suc n) 3))) [
      | inl small ↦ (
        ap (λ (e : Encoded). e.fits)
            (to_chars_octal f v valsize s old (suc n) warned (leb→le _ _ small)),
        ap (λ (e : Encoded). e.messages)
            (to_chars_octal f v valsize s old (suc n) warned (leb→le _ _ small)),
        from_header-to_chars_octal f v valsize s old n warned typed minval maxval false silent w' w
            (leb→le _ _ small) range,
      )
      | inr big ↦
          base256_case f false valsize s old n warned typed minval maxval silent w' gnu v w h range
            (inr (ground arith))
    ]
