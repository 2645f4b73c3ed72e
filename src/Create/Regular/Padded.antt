-- ===== src/Create/Regular/Padded.antt =====
-- A file of exactly `size` bytes: cut, or filled up with zeros.
use tar.Base.{
  ℕ, zero, suc, ◌+◌, ◌-◌, ◌≤◌, ◌≡◌, refl, ◌∙◌, ap, arith, min, [], ◌∷◌, ◌++◌, length, take, drop,
  replicate,
}
use tar.Base.Text.{Bytes}

abbrev pub padded : ℕ → Bytes → Bytes
padded zero file = []
padded (suc size) [] = 0 ∷ padded size []
padded (suc size) (x ∷ file) = x ∷ padded size file

pub length-padded : (size : ℕ) (file : Bytes) → length (padded size file) ≡ size
length-padded zero file = refl
length-padded (suc size) [] = ap suc (length-padded size [])
length-padded (suc size) (x ∷ file) = ap suc (length-padded size file)

pub padded-nil : (size : ℕ) → padded size [] ≡ replicate size 0
padded-nil zero = refl
padded-nil (suc size) = ap (λ (l : Bytes). 0 ∷ l) (padded-nil size)

pub take-padded : (n size : ℕ) (file : Bytes) → n ≤ size → take n (padded size file) ≡ padded n file
take-padded zero size file h = refl
take-padded (suc n) zero file h = absurd (omega arith)
take-padded (suc n) (suc size) [] h =
    ap (λ (l : Bytes). 0 ∷ l) (take-padded n size [] (omega arith))
take-padded (suc n) (suc size) (x ∷ file) h =
    ap (λ (l : Bytes). x ∷ l) (take-padded n size file (omega arith))

pub drop-padded :
    (n size : ℕ) (file : Bytes)
    → n ≤ size
    → drop n (padded size file) ≡ padded (size - n) (drop n file)
drop-padded zero size file h = ap (λ (k : ℕ). padded k file) {x = size} {y = size - 0} (omega arith)
drop-padded (suc n) zero file h = absurd (omega arith)
drop-padded (suc n) (suc size) [] h =
    drop-padded n size [] (omega arith)
    ∙ ap (λ (l : Bytes). padded (size - n) l) (drop-none n)
    ∙ ap (λ (k : ℕ). padded k []) {x = size - n} {y = suc size - suc n} (omega arith)
  where
    drop-none : (n : ℕ) → (let e : Bytes = [] in drop n e) ≡ []
    drop-none zero = refl
    drop-none (suc n) = refl
drop-padded (suc n) (suc size) (x ∷ file) h =
    drop-padded n size file (omega arith)
    ∙ ap (λ (k : ℕ). padded k (drop n file)) {x = size - n} {y = suc size - suc n} (omega arith)

zeros-padded : (a size b : ℕ) → a ≡ size + b → replicate a 0 ≡ padded size [] ++ replicate b 0
zeros-padded a zero b h = ap (λ (k : ℕ). replicate k 0) {x = a} {y = b} (omega arith)
zeros-padded zero (suc size) b h = absurd (omega arith)
zeros-padded (suc a) (suc size) b h =
    ap (λ (l : Bytes). 0 ∷ l) (zeros-padded a size b (omega arith))

-- What is read of the file, and zeros.
pub area-padded :
    (k size a b : ℕ) (file : Bytes)
    → k ≡ min size (length file)
    → a + k ≡ b + size
    → take k file ++ replicate a 0 ≡ padded size file ++ replicate b 0
area-padded zero zero a b file h e = ap (λ (n : ℕ). replicate n 0) {x = a} {y = b} (omega arith)
area-padded zero (suc size) a b [] h e = zeros-padded a (suc size) b (omega arith)
area-padded zero (suc size) a b (x ∷ file) h e = absurd (omega arith)
area-padded (suc k) zero a b file h e = absurd (omega arith)
area-padded (suc k) (suc size) a b [] h e = absurd (omega arith)
area-padded (suc k) (suc size) a b (x ∷ file) h e =
    ap (λ (l : Bytes). x ∷ l) (area-padded k size a b file (omega arith) (omega arith))
