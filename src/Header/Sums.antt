-- ===== src/Header/Sums.antt =====
-- Sums of bytes over the parts of a block.
use tar.Base.{
  ℕ, zero, suc, ◌+◌, ◌*◌, ◌≤◌, ◌<◌, ◌≡◌, ◌≢◌, refl, ap, arith, List, [], ◌∷◌, ◌++◌, length, take,
  drop, All,
}
use tar.Base.Words.{IsByte}
use tar.Header.{sum_bytes}

pub sum_bytes-append : (xs ys : List ℕ) → sum_bytes (xs ++ ys) ≡ sum_bytes xs + sum_bytes ys
unfolding sum_bytes
sum_bytes-append [] ys = omega arith
sum_bytes-append (x ∷ xs) ys = omega (arith, sum_bytes-append xs ys)

-- A part of a block sums up to no more than the block.
pub sum_bytes-take-drop : (i n : ℕ) (xs : List ℕ) → sum_bytes (take n (drop i xs)) ≤ sum_bytes xs
unfolding sum_bytes
sum_bytes-take-drop zero zero xs = omega arith
sum_bytes-take-drop zero (suc n) [] = omega arith
sum_bytes-take-drop zero (suc n) (x ∷ xs) = omega (arith, sum_bytes-take-drop zero n xs)
sum_bytes-take-drop (suc i) zero [] = omega arith
sum_bytes-take-drop (suc i) (suc n) [] = omega arith
sum_bytes-take-drop (suc i) n (x ∷ xs) = omega (arith, sum_bytes-take-drop i n xs)

pub sum_bytes-le : (xs : List ℕ) → All IsByte xs → sum_bytes xs ≤ 255 * length xs
unfolding sum_bytes
sum_bytes-le [] h = omega arith
sum_bytes-le (x ∷ xs) h = omega (arith, sum_bytes-le xs h.1)

pub All-take : (P : ℕ → Type 0) (n : ℕ) (xs : List ℕ) → All P xs → All P (take n xs)
All-take P zero xs h = tt
All-take P (suc n) [] h = tt
All-take P (suc n) (x ∷ xs) h = (h.0, All-take P n xs h.1)

pub All-drop : (P : ℕ → Type 0) (n : ℕ) (xs : List ℕ) → All P xs → All P (drop n xs)
All-drop P zero xs h = h
All-drop P (suc n) [] h = tt
All-drop P (suc n) (x ∷ xs) h = All-drop P n xs h.1

pub take-append : (xs ys : List ℕ) → take (length xs) (xs ++ ys) ≡ xs
take-append [] ys = refl
take-append (x ∷ xs) ys = ap (λ (l : List ℕ). x ∷ l) (take-append xs ys)

pub drop-append : (xs ys : List ℕ) → drop (length xs) (xs ++ ys) ≡ ys
drop-append [] ys = refl
drop-append (x ∷ xs) ys = drop-append xs ys

-- The two blocks differ in one byte.
pub data OneByte : List ℕ → List ℕ → Type 0 where
  here : {x y : ℕ} {xs : List ℕ} → x ≢ y → OneByte (x ∷ xs) (y ∷ xs)
  there : {x : ℕ} {xs ys : List ℕ} → OneByte xs ys → OneByte (x ∷ xs) (x ∷ ys)

pub OneByte-sum_bytes :
    {xs ys : List ℕ}
    → OneByte xs ys
    → All IsByte xs
    → All IsByte ys
    → (sum_bytes xs ≢ sum_bytes ys) × (sum_bytes ys < sum_bytes xs + 256)
unfolding sum_bytes
OneByte-sum_bytes (here ne) h k = ground arith
OneByte-sum_bytes (there d) h k = ground (arith, OneByte-sum_bytes d h.1 k.1)
