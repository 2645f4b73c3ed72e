-- ===== src/Header/Runs.antt =====
-- The checksum on a concrete block.
use tar.Base.{ℕ, zero, suc, ◌≡◌, refl, arith, false, List, [], ◌∷◌, ◌++◌, drop, replicate, All}
use tar.Base.Words.{IsByte}
use tar.Header.{header_success, header_failure, chksum, simple_finish_header, tar_checksum}
use tar.Header.Bytes.{simple_finish_header-IsByte}
use tar.Header.Sums.{OneByte, here, All-drop}
use tar.Header.Checksum.{tar_checksum-simple_finish_header, tar_checksum-OneByte}

-- A block for the file "file", with no other field.
abbrev block : List ℕ
block = (b'f' ∷ b'i' ∷ b'l' ∷ b'e' ∷ []) ++ replicate 508 0

All-replicate : (n c : ℕ) → IsByte c → All IsByte (replicate n c)
All-replicate zero c h = tt
All-replicate (suc n) c h = (h, All-replicate n c h)

block-IsByte : All IsByte block
block-IsByte =
    (omega arith, (omega arith, (omega arith, (omega arith, All-replicate 508 0 (omega arith)))))

-- Another first byte.
abbrev damaged : List ℕ
damaged = b'g' ∷ drop 1 (simple_finish_header block)

damaged-OneByte : OneByte (simple_finish_header block) damaged
unfolding simple_finish_header
damaged-OneByte = here (omega arith)

tar_checksum-simple_finish_header_example :
    tar_checksum (simple_finish_header block) false false ≡ header_success
tar_checksum-simple_finish_header_example =
    tar_checksum-simple_finish_header block false false refl block-IsByte

same_chksum : chksum damaged ≡ chksum (simple_finish_header block)
unfolding simple_finish_header
same_chksum = refl

damaged-IsByte : All IsByte damaged
damaged-IsByte = (
  omega arith,
  All-drop IsByte 1 (simple_finish_header block) (simple_finish_header-IsByte block block-IsByte),
)

tar_checksum-OneByte_example : tar_checksum damaged false false ≡ header_failure
tar_checksum-OneByte_example =
    tar_checksum-OneByte block damaged false false refl block-IsByte damaged-IsByte same_chksum
      damaged-OneByte
