-- ===== src/Base/Put.antt =====
-- Writes into a buffer of fixed size.
use Prim.Native.Nat.{ℕ, zero, suc, ◌+◌, ◌≤◌}
use mathlib.Core.Path.{◌≡◌, refl, ap, ◌∙◌}
use mathlib.Core.List.{List, [], ◌∷◌, ◌++◌}
use native.Mathlib.Omega.{arith}
use tar.Base.Lists.{length, take, drop, get_or, replicate, All}

module _ {ℓ} {A : Type ℓ} where
  -- `memcpy` to the front of a buffer; nothing is written behind its end.
  abbrev pub overwrite : List A → List A → List A
  overwrite [] xs = xs
  overwrite (b ∷ bs) [] = []
  overwrite (b ∷ bs) (x ∷ xs) = b ∷ overwrite bs xs

  -- The same at an offset.
  abbrev pub put : ℕ → List A → List A → List A
  put zero bs xs = overwrite bs xs
  put (suc o) bs [] = []
  put (suc o) bs (x ∷ xs) = x ∷ put o bs xs

  length-overwrite : (bs xs : List A) → length (overwrite bs xs) ≡ length xs
  length-overwrite [] xs = refl
  length-overwrite (b ∷ bs) [] = refl
  length-overwrite (b ∷ bs) (x ∷ xs) = ap suc (length-overwrite bs xs)

  pub length-put : (o : ℕ) (bs xs : List A) → length (put o bs xs) ≡ length xs
  length-put zero bs xs = length-overwrite bs xs
  length-put (suc o) bs [] = refl
  length-put (suc o) bs (x ∷ xs) = ap suc (length-put o bs xs)

  take-overwrite :
      (bs xs : List A) → length bs ≤ length xs → take (length bs) (overwrite bs xs) ≡ bs
  take-overwrite [] xs h = refl
  take-overwrite (b ∷ bs) [] h = absurd (omega arith)
  take-overwrite (b ∷ bs) (x ∷ xs) h =
      ap (λ (l : List A). b ∷ l) (take-overwrite bs xs (omega arith))

  -- What is written can be read.
  pub field-put :
      (o : ℕ) (bs xs : List A)
      → o + length bs ≤ length xs
      → take (length bs) (drop o (put o bs xs)) ≡ bs
  field-put zero bs xs h = take-overwrite bs xs (omega arith)
  field-put (suc o) bs [] h = absurd (omega arith)
  field-put (suc o) bs (x ∷ xs) h = field-put o bs xs (omega arith)

  drop-overwrite : (n : ℕ) (bs xs : List A) → length bs ≤ n → drop n (overwrite bs xs) ≡ drop n xs
  drop-overwrite n [] xs h = refl
  drop-overwrite n (b ∷ bs) [] h = refl
  drop-overwrite zero (b ∷ bs) (x ∷ xs) h = absurd (omega arith)
  drop-overwrite (suc n) (b ∷ bs) (x ∷ xs) h = drop-overwrite n bs xs (omega arith)

  -- A part behind the write is left alone, and one in front of it.
  pub drop-put : (n o : ℕ) (bs xs : List A) → o + length bs ≤ n → drop n (put o bs xs) ≡ drop n xs
  drop-put n zero bs xs h = drop-overwrite n bs xs (omega arith)
  drop-put n (suc o) bs [] h = refl
  drop-put zero (suc o) bs (x ∷ xs) h = absurd (omega arith)
  drop-put (suc n) (suc o) bs (x ∷ xs) h = drop-put n o bs xs (omega arith)

  pub field-put_front :
      (o n o' : ℕ) (bs xs : List A)
      → o + n ≤ o'
      → take n (drop o (put o' bs xs)) ≡ take n (drop o xs)
  field-put_front o zero o' bs xs h = refl
  field-put_front o (suc n) zero bs xs h = absurd (omega arith)
  field-put_front o (suc n) (suc o') bs [] h = refl
  field-put_front zero (suc n) (suc o') bs (x ∷ xs) h =
      ap (λ (l : List A). x ∷ l) (field-put_front zero n o' bs xs (omega arith))
  field-put_front (suc o) (suc n) (suc o') bs (x ∷ xs) h =
      field-put_front o (suc n) o' bs xs (omega arith)

  All-overwrite {κ} :
      (P : A → Type κ) (bs xs : List A) → All P bs → All P xs → All P (overwrite bs xs)
  All-overwrite P [] xs h k = k
  All-overwrite P (b ∷ bs) [] h k = tt
  All-overwrite P (b ∷ bs) (x ∷ xs) h k = (h.0, All-overwrite P bs xs h.1 k.1)

  pub All-put {κ} :
      (P : A → Type κ) (o : ℕ) (bs xs : List A) → All P bs → All P xs → All P (put o bs xs)
  All-put P zero bs xs h k = All-overwrite P bs xs h k
  All-put P (suc o) bs [] h k = tt
  All-put P (suc o) bs (x ∷ xs) h k = (k.0, All-put P o bs xs h k.1)

  overwrite-append :
      (bs xs : List A) → length bs ≤ length xs → bs ++ drop (length bs) xs ≡ overwrite bs xs
  overwrite-append [] xs h = refl
  overwrite-append (b ∷ bs) [] h = absurd (omega arith)
  overwrite-append (b ∷ bs) (x ∷ xs) h =
      ap (λ (l : List A). b ∷ l) (overwrite-append bs xs (omega arith))

  -- A write as the parts around it.
  pub put-append :
      (o n : ℕ) (bs xs : List A)
      → n ≡ o + length bs
      → n ≤ length xs
      → take o xs ++ (bs ++ drop n xs) ≡ put o bs xs
  put-append zero n bs xs e h =
      ap (λ (k : ℕ). bs ++ drop k xs) {x = n} {y = length bs} (omega arith)
      ∙ overwrite-append bs xs (omega arith)
  put-append (suc o) n bs [] e h = absurd (omega arith)
  put-append (suc o) zero bs (x ∷ xs) e h = absurd (omega arith)
  put-append (suc o) (suc n) bs (x ∷ xs) e h =
      ap (λ (l : List A). x ∷ l) (put-append o n bs xs (omega arith) (omega arith))

  -- The byte at an offset begins each field there.
  pub get_or-field :
      (o n : ℕ) (xs : List A) (d : A) → get_or (take (suc n) (drop o xs)) 0 d ≡ get_or xs o d
  get_or-field zero n [] d = refl
  get_or-field zero n (x ∷ xs) d = refl
  get_or-field (suc o) n [] d = refl
  get_or-field (suc o) n (x ∷ xs) d = get_or-field o n xs d

  pub All-replicate {κ} : (P : A → Type κ) (n : ℕ) (a : A) → P a → All P (replicate n a)
  All-replicate P zero a h = tt
  All-replicate P (suc n) a h = (h, All-replicate P n a h)
