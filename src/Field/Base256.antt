-- ===== src/Field/Base256.antt =====
-- Base-256 fields: `from_header` reads back what `to_base256` wrote, for numbers of either sign.
-- A word is taken as a sign and the number `m` whose bits, or complemented bits, it holds.
use native.Mathlib.Nat.{div-le_self, div-eq_of_lt}
use tar.Base.{
  ℕ, zero, suc, ◌+◌, ◌-◌, ◌*◌, ◌/◌, ◌%◌, ◌^◌, ◌≤◌, ◌<◌, ◌≡◌, refl, sym, ◌∙◌, ap, arith, bit_or,
  Bool, true, false, List, [], ◌∷◌, if◌then◌else◌,
}
use tar.Base.Bits.{bit_or-disjoint}
use tar.Base.Words.{minus_one, IsU64, wrap, negate}
use tar.Field.Capacity.{div-pow-suc, div-div-pow}
use tar.Field.Encode.{base256_loop, propagated_sign_bits}
use tar.Field.Decode.{
  number, base256_digits, topbits, scan_base256, scan_number, skip_nul, skip_blanks, finish,
  from_header, has_junk,
}

abbrev pub word : Bool → ℕ → ℕ
word negative m = if negative then minus_one - m else m

abbrev byte : Bool → ℕ → ℕ → ℕ
byte negative m i = if negative then 255 - m / 256 ^ i % 256 else m / 256 ^ i % 256

-- One round of the writer drops a byte of `m`.
shifted :
    (negative : Bool) (m : ℕ)
    → IsU64 m
    → bit_or (propagated_sign_bits negative) (word negative m / 256) ≡ word negative (m / 256)
shifted true m w = bit_or-disjoint 56 255 ((minus_one - m) / 256) (omega arith) ∙ omega arith
shifted false m w = bit_or-disjoint 56 0 (m / 256) (omega arith) ∙ omega arith

low_byte : (negative : Bool) (m : ℕ) → IsU64 m → word negative m % 256 ≡ byte negative m 0
low_byte true m w = omega arith
low_byte false m w = omega arith

byte-suc : (negative : Bool) (m i : ℕ) → byte negative (m / 256) i ≡ byte negative m (suc i)
byte-suc negative m i =
    ap (λ (q : ℕ). if negative then 255 - q % 256 else q % 256) (div-div-pow 256 m i)

base256_loop-suc :
    (negative : Bool) (i m : ℕ) (done : List ℕ)
    → IsU64 m
    → base256_loop negative (word negative m) (suc i) done
      ≡ byte negative m i ∷ base256_loop negative (word negative m) i done
unfolding base256_loop
base256_loop-suc negative zero m done w = ap (λ (b : ℕ). b ∷ done) (low_byte negative m w)
base256_loop-suc negative (suc i) m done w = rw (shifted negative m w) (
    base256_loop-suc negative i (m / 256) ((word negative m % 256) ∷ done) (omega arith)
    ∙ rw (byte-suc negative m i))

-- One round of the reader takes a byte in.
taken :
    (negative : Bool) (q d : ℕ)
    → q < 2 ^ 56
    → d < 256
    → wrap (wrap (word negative q * 256) + (if negative then 255 - d else d))
      ≡ word negative (q * 256 + d)
taken true q d hq hd = omega arith
taken false q d hq hd = omega arith

-- The test for overflow passes while the top byte is still free.
room :
    (negative : Bool) (q : ℕ)
    → q < 2 ^ 56
    → bit_or (topbits negative) (wrap (word negative q * 256) / 256) ≡ word negative q
room true q h = bit_or-disjoint 56 255 _ (omega arith) ∙ omega arith
room false q h = bit_or-disjoint 56 0 _ (omega arith) ∙ omega arith

quotient_small : (m i : ℕ) → IsU64 m → m / 256 ^ suc i < 2 ^ 56
quotient_small m i w = omega (arith, div-pow-suc 256 m i, div-le_self m (256 ^ i))

round_value :
    (negative : Bool) (m i : ℕ)
    → IsU64 m
    → wrap (wrap (word negative (m / 256 ^ suc i) * 256) + byte negative m i)
      ≡ word negative (m / 256 ^ i)
round_value negative m i w =
    taken negative (m / 256 ^ suc i) (m / 256 ^ i % 256) (quotient_small m i w) (omega arith)
    ∙ ap (word negative) (omega (arith, div-pow-suc 256 m i))

base256_digits-loop :
    (typed silent negative : Bool) (i m : ℕ)
    → IsU64 m
    → base256_digits typed silent negative
        (word negative (m / 256 ^ suc i))
        (byte negative m i)
        (base256_loop negative (word negative m) i [])
      ≡ number (if negative then wrap (m + 1) else m) negative [] []
unfolding base256_digits
base256_digits-loop typed silent true zero m w = unfold base256_loop in ground arith
base256_digits-loop typed silent false zero m w = unfold base256_loop in ground arith
base256_digits-loop typed silent negative (suc i) m w = rw (base256_loop-suc negative i m [] w) (
    rw (round_value negative m (suc i) w) (
      rw (room negative (m / 256 ^ suc i) (quotient_small m i w))
        (ground (arith, base256_digits-loop typed silent negative i m w))))

abbrev pub lead : Bool → ℕ
lead negative = if negative then 255 else 128

from_header-lead :
    (negative : Bool) (d : ℕ) (ds : List ℕ) (typed : Bool) (minval maxval : ℕ)
    (silent warned : Bool)
    → from_header (lead negative ∷ d ∷ ds) typed minval maxval false silent warned
      ≡ finish typed
          (negate minval)
          maxval
          silent
          warned
          (base256_digits typed silent negative (word negative 0) d ds)
unfolding skip_nul skip_blanks scan_number scan_base256 from_header
from_header-lead true d ds typed minval maxval silent warned = refl
from_header-lead false d ds typed minval maxval silent warned = refl

base256_digits-all :
    (typed silent negative : Bool) (n m : ℕ)
    → IsU64 m
    → m < 256 ^ suc n
    → base256_digits typed silent negative
        (word negative 0)
        (byte negative m n)
        (base256_loop negative (word negative m) n [])
      ≡ number (if negative then wrap (m + 1) else m) negative [] []
base256_digits-all typed silent negative n m w small =
    ap
      (λ (q : ℕ).
        base256_digits typed silent negative (word negative q) (byte negative m n)
          (base256_loop negative (word negative m) n []))
      (sym (div-eq_of_lt small))
    ∙ base256_digits-loop typed silent negative n m w

-- The reader on a whole base-256 field; the range is that of the caller's type.
pub from_header-base256_loop :
    (negative : Bool) (n m : ℕ) (typed : Bool) (minval maxval : ℕ) (silent warned : Bool)
    → IsU64 m
    → m < 256 ^ suc n
    → (if negative then wrap (m + 1) else m) ≤ (if negative then negate minval else maxval)
    → from_header
        (lead negative ∷ base256_loop negative (word negative m) (suc n) [])
        typed
        minval
        maxval
        false
        silent
        warned
      ≡ record { value = word negative m; messages = []; warned_once = warned }
from_header-base256_loop negative n m typed minval maxval silent warned w small range =
    rw (base256_loop-suc negative n m [] w) (
      from_header-lead negative (byte negative m n) (base256_loop negative (word negative m) n [])
        typed minval maxval silent warned
      ∙ rw (base256_digits-all typed silent negative n m w small)
          (unfold finish has_junk in ground arith))
