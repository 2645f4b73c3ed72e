-- ===== src/Field/Mode.antt =====
-- The mode field: `mode_to_chars` of src/create.c and `mode_from_header` of src/list.c, on a host
-- whose permission bits have tar's values and whose mode_t is unsigned and has 32 bits.
use tar.Base.{
  ℕ, zero, suc, ◌-◌, ◌^◌, ◌<◌, ◌≡◌, refl, arith, Bool, true, false, not, ◌&&◌, bit_and, bit_or,
  none, List, [], ◌==◌, if◌then◌else◌,
}
use tar.Base.Words.{u64_mod}
use tar.Field.{Format, ustar, posix, gnu}
use tar.Field.Encode.{Encoded, max_val_with_digits, to_chars}
use tar.Field.Decode.{Decoded, Message, from_header}
use tar.Field.RoundTrip.{from_header-to_chars_octal}

-- `v & b ? b : 0`
abbrev pub flag : ℕ → ℕ → ℕ
flag v b = if bit_and v b == 0 then 0 else b

-- The twelve bits of TSUID, TSGID, TSVTX and the nine permissions.
unfoldable pub known_bits : ℕ → ℕ
known_bits v = bit_or (flag v 0o4000) (
    bit_or (flag v 0o2000) (
      bit_or (flag v 0o1000) (
        bit_or (flag v 0o400) (
          bit_or (flag v 0o200) (
            bit_or (flag v 0o100) (
              bit_or (flag v 0o40) (
                bit_or (flag v 0o20) (
                  bit_or (flag v 0o10)
                    (bit_or (flag v 0o4) (bit_or (flag v 0o2) (flag v 0o1)))))))))))

-- The formats for which unknown bits are dropped.
abbrev strict_mode : Format → Bool
strict_mode posix = true
strict_mode ustar = true
strict_mode gnu = true
strict_mode _ = false

unfoldable pub mode_to_chars : Format → ℕ → List ℕ → ℕ → Bool → Encoded
mode_to_chars archive_format v p s warned =
    let u = if strict_mode archive_format then known_bits v else v in
    to_chars archive_format false u 4 none p s warned

-- The mode, `*hbits`, and the diagnostics.
pub record ModeField : Type 0 where
  pub mode : ℕ
  pub hbits : Bool
  pub messages : List Message

unfoldable pub mode_of : Decoded → ModeField
mode_of u = record {
  mode = known_bits u.value;
  hbits = not (bit_and u.value (u64_mod - 1 - 0o7777) == 0);
  messages = u.messages;
}

unfoldable pub mode_from_header : List ℕ → Bool → ModeField
mode_from_header p warned = mode_of (from_header p true (2 ^ 63) (u64_mod - 1) false false warned)

pub plain_below : ℕ → Bool
plain_below zero = true
plain_below (suc n) =
    (known_bits n == n) && (bit_and n (u64_mod - 1 - 0o7777) == 0) && plain_below n

pub plain_below-lt :
    (n v : ℕ)
    → plain_below n ≡ true
    → v < n
    → (known_bits v ≡ v) × (bit_and v (u64_mod - 1 - 0o7777) ≡ 0)
unfolding plain_below
plain_below-lt zero v h lt = elim lt [ ]
plain_below-lt (suc n) v h lt = ground (arith, plain_below-lt n v)

pub plain_modes : plain_below 0o10000 ≡ true
unfolding plain_below known_bits
plain_modes = refl

written :
    (v : ℕ) (archive_format : Format)
    → v < 0o10000
    → (if strict_mode archive_format then known_bits v else v) ≡ v
written v archive_format h = ground (arith, plain_below-lt 0o10000 v plain_modes h)

-- Every mode of twelve bits survives the eight byte field in every format, and no unknown bit is
-- reported.
pub mode_from_header-mode_to_chars :
    (archive_format : Format) (v : ℕ) (p : List ℕ) (warned warned' : Bool)
    → v < 0o10000
    → mode_from_header (mode_to_chars archive_format v p 8 warned).bytes warned'
      ≡ record { mode = v; hbits = false; messages = [] }
unfolding mode_from_header mode_to_chars mode_of
mode_from_header-mode_to_chars archive_format v p warned warned' h =
    rw (written v archive_format h) (
      rw
        (from_header-to_chars_octal archive_format v 4 none p 6 warned true (2 ^ 63) (u64_mod - 1)
          false false warned' (omega arith) (unfold max_val_with_digits in omega arith)
          (omega arith))
        (ground (arith, plain_below-lt 0o10000 v plain_modes h)))
