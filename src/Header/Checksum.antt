-- ===== src/Header/Checksum.antt =====
-- The two checksum functions together: a finished header is accepted, and a header that differs
-- from a finished one in one byte outside the field is refused.
use tar.Base.{
  ℕ, ◌+◌, ◌-◌, ◌*◌, ◌^◌, ◌≤◌, ◌<◌, ◌≡◌, ◌≢◌, refl, ◌∙◌, ap, arith, Bool, true, false, not, ◌&&◌,
  List, [], ◌∷◌, ◌++◌, length, take, drop, replicate, length-take, length-drop, All, ◌==◌,
  if◌then◌else◌,
}
use tar.Base.Slices.{take-append_at, drop-append_at}
use tar.Base.Words.{IsByte}
use tar.Field.Decode.{Decoded, from_header, has_junk}
use tar.Field.Encode.{octal_loop}
use tar.Field.Octal.{to_octal-append, from_header-octal_loop}
use tar.Header.{
  ReadHeader, header_success, header_failure, blocksize, chksum_offset, chksum_size, chksum,
  set_chksum, sum_bytes, high_bytes, simple_finish_header, tar_checksum,
}
use tar.Header.Bytes.{simple_finish_header-IsByte}
use tar.Header.Sums.{
  sum_bytes-append, sum_bytes-take-drop, sum_bytes-le, All-take, All-drop, OneByte,
  OneByte-sum_bytes,
}

-- What `simple_finish_header` puts in the field for the sum `s`.
abbrev pub checksum_text : ℕ → List ℕ
checksum_text s = octal_loop s 6 (0 ∷ b' ' ∷ [])

sum_bytes-checksum_text : (s : ℕ) → 0 < sum_bytes (checksum_text s)
unfolding sum_bytes octal_loop
sum_bytes-checksum_text s = omega arith

recorded_sum :
    (s : ℕ) (silent warned : Bool)
    → s < 8 ^ 6
    → (from_header (checksum_text s) false 0 (2 ^ 31 - 1) true silent warned).value ≡ s
recorded_sum s silent warned h =
    ap (λ (r : Decoded). r.value)
      (from_header-octal_loop 5 s 0 (b' ' ∷ []) false 0 (2 ^ 31 - 1) true silent warned
        (omega arith) h (omega arith) refl (unfold has_junk in refl))

-- The comparison at the end of `tar_checksum`.
abbrev verdict : ℕ → ℕ → ℕ → ReadHeader
verdict unsigned_sum recorded high =
    if not (unsigned_sum == recorded) && not (unsigned_sum == recorded + 256 * high)
    then header_failure
    else header_success

abbrev unsigned_of : List ℕ → ℕ
unsigned_of g = sum_bytes g - sum_bytes (chksum g) + 256

abbrev high_of : List ℕ → ℕ
high_of g = high_bytes g - high_bytes (chksum g)

verdict_accepts : (u s high : ℕ) → u ≡ s → verdict u s high ≡ header_success
verdict_accepts u s high e = ground arith

verdict_refuses : (u s high : ℕ) → u ≢ s → u < s + 256 → verdict u s high ≡ header_failure
verdict_refuses u s high ne lt = ground arith

-- `tar_checksum` where the field holds the sum `s`.
tar_checksum-recorded :
    (g : List ℕ) (s : ℕ) (silent warned : Bool)
    → chksum g ≡ checksum_text s
    → s < 8 ^ 6
    → tar_checksum g silent warned ≡ verdict (unsigned_of g) s (high_of g)
unfolding tar_checksum
tar_checksum-recorded g s silent warned field small = ground (
  arith,
  field,
  ap (λ (f : List ℕ). (from_header f false 0 (2 ^ 31 - 1) true silent warned).value) field,
  ap sum_bytes field,
  recorded_sum s silent warned small,
  sum_bytes-checksum_text s,
  sum_bytes-take-drop 148 8 g,
)

length-front : (h : List ℕ) → length h ≡ blocksize → length (take chksum_offset h) ≡ chksum_offset
length-front h size = omega (arith, length-take 148 h)

chksum-set_chksum :
    (h field : List ℕ)
    → length h ≡ blocksize
    → length field ≡ chksum_size
    → chksum (set_chksum h field) ≡ field
chksum-set_chksum h field size eight =
    ap (take 8) (drop-append_at 148 (take 148 h) (field ++ drop 156 h) (length-front h size))
    ∙ take-append_at 8 field (drop 156 h) eight

sum_bytes-set_chksum :
    (h field : List ℕ)
    → sum_bytes (set_chksum h field)
      ≡ sum_bytes (take 148 h) + (sum_bytes field + sum_bytes (drop 156 h))
sum_bytes-set_chksum h field = omega (
  arith,
  sum_bytes-append (take 148 h) (field ++ drop 156 h),
  sum_bytes-append field (drop 156 h),
)

-- The sum that a finished header records.
abbrev pub blanked_sum : List ℕ → ℕ
blanked_sum h = sum_bytes (set_chksum h (replicate 8 b' '))

pub length-checksum_text : (s : ℕ) → length (checksum_text s) ≡ 8
unfolding octal_loop
length-checksum_text s = refl

sum_bytes-blanks : sum_bytes (replicate 8 b' ') ≡ 256
unfolding sum_bytes
sum_bytes-blanks = refl

blanked_sum_small : (h : List ℕ) → length h ≡ blocksize → All IsByte h → blanked_sum h < 8 ^ 6
blanked_sum_small h size bytes = omega (
  arith,
  sum_bytes-set_chksum h (replicate 8 b' '),
  sum_bytes-blanks,
  sum_bytes-le (take 148 h) (All-take IsByte 148 h bytes),
  sum_bytes-le (drop 156 h) (All-drop IsByte 156 h bytes),
  length-take 148 h,
  length-drop 156 h,
)

pub simple_finish_header-text :
    (h : List ℕ) → simple_finish_header h ≡ set_chksum h (checksum_text (blanked_sum h))
unfolding simple_finish_header
simple_finish_header-text h = ap (set_chksum h) (to_octal-append 6 (blanked_sum h) (0 ∷ b' ' ∷ []))

-- The field of a finished header, and what its bytes sum up to.
finished_field :
    (h : List ℕ)
    → length h ≡ blocksize
    → chksum (simple_finish_header h) ≡ checksum_text (blanked_sum h)
finished_field h size =
    ap chksum (simple_finish_header-text h)
    ∙ chksum-set_chksum h (checksum_text (blanked_sum h)) size
        (length-checksum_text (blanked_sum h))

finished_sum :
    (h : List ℕ)
    → length h ≡ blocksize
    → sum_bytes (simple_finish_header h)
      ≡ blanked_sum h - 256 + sum_bytes (chksum (simple_finish_header h))
finished_sum h size = omega (
  arith,
  ap sum_bytes (simple_finish_header-text h),
  ap sum_bytes (finished_field h size),
  sum_bytes-set_chksum h (checksum_text (blanked_sum h)),
  sum_bytes-set_chksum h (replicate 8 b' '),
  sum_bytes-blanks,
)

blanked_sum_large : (h : List ℕ) → 256 ≤ blanked_sum h
blanked_sum_large h = omega (arith, sum_bytes-set_chksum h (replicate 8 b' '), sum_bytes-blanks)

-- `tar_checksum` accepts every block of 512 bytes that `simple_finish_header` finished.
pub tar_checksum-simple_finish_header :
    (h : List ℕ) (silent warned : Bool)
    → length h ≡ blocksize
    → All IsByte h
    → tar_checksum (simple_finish_header h) silent warned ≡ header_success
tar_checksum-simple_finish_header h silent warned size bytes =
    tar_checksum-recorded (simple_finish_header h) (blanked_sum h) silent warned
      (finished_field h size) (blanked_sum_small h size bytes)
    ∙ verdict_accepts (unsigned_of (simple_finish_header h)) (blanked_sum h)
        (high_of (simple_finish_header h)) (omega (arith, finished_sum h size, blanked_sum_large h))

-- A block that has the checksum field of a finished header, and differs from it in one byte, is
-- refused, by the unsigned and by the signed sum.
pub tar_checksum-OneByte :
    (h g : List ℕ) (silent warned : Bool)
    → length h ≡ blocksize
    → All IsByte h
    → All IsByte g
    → chksum g ≡ chksum (simple_finish_header h)
    → OneByte (simple_finish_header h) g
    → tar_checksum g silent warned ≡ header_failure
tar_checksum-OneByte h g silent warned size bytes bytes' same differs =
    let off = OneByte-sum_bytes differs (simple_finish_header-IsByte h bytes) bytes' in
    let inside = sum_bytes-take-drop 148 8 g in
    tar_checksum-recorded g (blanked_sum h) silent warned (same ∙ finished_field h size)
      (blanked_sum_small h size bytes)
    ∙ verdict_refuses (unsigned_of g) (blanked_sum h) (high_of g)
        (λ e. off.0 (omega (arith, finished_sum h size, blanked_sum_large h, ap sum_bytes same)))
        (omega (arith, finished_sum h size, blanked_sum_large h, ap sum_bytes same))
