-- ===== src/Pax/Keyword.antt =====
-- Keywords are read back as they were, and their encoding holds no sign that ends a keyword.
use tar.Base.{ℕ, ◌≡◌, refl, ◌∙◌, ap, arith, Bool, true, not, ◌&&◌, [], ◌∷◌, ◌++◌, ◌==◌}
use tar.Base.Text.{Bytes}
use tar.Pax.{encode_byte, xattr_encode_keyword, decode_from, xattr_decode_keyword}

decode_from-encode_byte :
    (c : ℕ) (rest : Bytes) → decode_from 0 (encode_byte c ++ rest) ≡ c ∷ decode_from 0 rest
unfolding encode_byte decode_from
decode_from-encode_byte c rest = ground arith

decode_from-encode : (keyword : Bytes) → decode_from 0 (xattr_encode_keyword keyword) ≡ keyword
unfolding xattr_encode_keyword
decode_from-encode [] = unfold decode_from in refl
decode_from-encode (c ∷ keyword) =
    decode_from-encode_byte c (xattr_encode_keyword keyword)
    ∙ ap (λ (l : Bytes). c ∷ l) (decode_from-encode keyword)

-- `xattr_decode_keyword` undoes `xattr_encode_keyword`, for every keyword.
pub xattr_decode_keyword-encode :
    (keyword : Bytes) → xattr_decode_keyword (xattr_encode_keyword keyword) ≡ keyword
unfolding xattr_decode_keyword
xattr_decode_keyword-encode keyword = decode_from-encode keyword

-- A byte that neither ends the string nor the keyword.
abbrev pub keeps_keyword : ℕ → Bool
keeps_keyword c = not (c == b'=') && not (c == 0)

abbrev pub all_keep : Bytes → Bool
all_keep [] = true
all_keep (c ∷ cs) = keeps_keyword c && all_keep cs

abbrev pub no_nul : Bytes → Bool
no_nul [] = true
no_nul (c ∷ cs) = not (c == 0) && no_nul cs

pub all_keep-encode :
    (keyword : Bytes) → no_nul keyword ≡ true → all_keep (xattr_encode_keyword keyword) ≡ true
unfolding xattr_encode_keyword
all_keep-encode [] h = refl
all_keep-encode (c ∷ keyword) h = ground (arith, all_keep-encode keyword)
