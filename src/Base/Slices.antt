-- ===== src/Base/Slices.antt =====
-- Parts of lists.
use Prim.Native.Nat.{ℕ, zero, suc, ◌+◌, ◌-◌, ◌≤◌}
use mathlib.Core.Path.{◌≡◌, refl, ap, sym, ◌∙◌}
use mathlib.Core.Logic.{◌⊎◌, inl, inr}
use mathlib.Core.List.{List, [], ◌∷◌, ◌++◌}
use native.Mathlib.Omega.{arith}
use tar.Base.Lists.{length, take, drop, All}

module _ {ℓ} {A : Type ℓ} where
  pub List-cases : (xs : List A) → (xs ≡ []) ⊎ ((x : A) × (ys : List A) × (xs ≡ x ∷ ys))
  List-cases [] = inl refl
  List-cases (x ∷ xs) = inr (x, xs, refl)

  pub take-nil : (n : ℕ) → (let e : List A = [] in take n e) ≡ []
  take-nil zero = refl
  take-nil (suc n) = refl

  pub drop-nil : (n : ℕ) → (let e : List A = [] in drop n e) ≡ []
  drop-nil zero = refl
  drop-nil (suc n) = refl

  pub drop-drop : (a b : ℕ) (xs : List A) → drop b (drop a xs) ≡ drop (a + b) xs
  drop-drop zero b xs = ap (λ (k : ℕ). drop k xs) {x = b} {y = 0 + b} (omega arith)
  drop-drop (suc a) b [] = drop-nil b ∙ sym (drop-nil (suc a + b))
  drop-drop (suc a) b (x ∷ xs) =
      drop-drop a b xs
      ∙ ap (λ (k : ℕ). drop k (x ∷ xs)) {x = suc (a + b)} {y = suc a + b} (omega arith)

  pub take-append-take : (a b : ℕ) (xs : List A) → take a xs ++ take b (drop a xs) ≡ take (a + b) xs
  take-append-take zero b xs = ap (λ (k : ℕ). take k xs) {x = b} {y = 0 + b} (omega arith)
  take-append-take (suc a) b [] = take-nil b ∙ sym (take-nil (suc a + b))
  take-append-take (suc a) b (x ∷ xs) =
      ap (λ (l : List A). x ∷ l) (take-append-take a b xs)
      ∙ ap (λ (k : ℕ). take k (x ∷ xs)) {x = suc (a + b)} {y = suc a + b} (omega arith)

  -- A slice that ends before the second list begins, and one that begins behind the first.
  pub take-append_front : (n : ℕ) (xs ys : List A) → n ≤ length xs → take n (xs ++ ys) ≡ take n xs
  take-append_front zero xs ys h = refl
  take-append_front (suc n) [] ys h = absurd (omega arith)
  take-append_front (suc n) (x ∷ xs) ys h =
      ap (λ (l : List A). x ∷ l) (take-append_front n xs ys (omega arith))

  pub drop-append_front :
      (n : ℕ) (xs ys : List A) → n ≤ length xs → drop n (xs ++ ys) ≡ drop n xs ++ ys
  drop-append_front zero xs ys h = refl
  drop-append_front (suc n) [] ys h = absurd (omega arith)
  drop-append_front (suc n) (x ∷ xs) ys h = drop-append_front n xs ys (omega arith)

  pub take-append_behind :
      (n : ℕ) (xs ys : List A) → length xs ≤ n → take n (xs ++ ys) ≡ xs ++ take (n - length xs) ys
  take-append_behind n [] ys h = ap (λ (k : ℕ). take k ys) {x = n} {y = n - 0} (omega arith)
  take-append_behind zero (x ∷ xs) ys h = absurd (omega arith)
  take-append_behind (suc n) (x ∷ xs) ys h =
      ap (λ (l : List A). x ∷ l) (take-append_behind n xs ys (omega arith))
      ∙ ap (λ (k : ℕ). x ∷ xs ++ take k ys) {x = n - length xs} {y = suc n - suc (length xs)}
          (omega arith)

  pub drop-append_behind :
      (n : ℕ) (xs ys : List A) → length xs ≤ n → drop n (xs ++ ys) ≡ drop (n - length xs) ys
  drop-append_behind n [] ys h = ap (λ (k : ℕ). drop k ys) {x = n} {y = n - 0} (omega arith)
  drop-append_behind zero (x ∷ xs) ys h = absurd (omega arith)
  drop-append_behind (suc n) (x ∷ xs) ys h =
      drop-append_behind n xs ys (omega arith)
      ∙ ap (λ (k : ℕ). drop k ys) {x = n - length xs} {y = suc n - suc (length xs)} (omega arith)

  pub take-all : (n : ℕ) (xs : List A) → length xs ≤ n → take n xs ≡ xs
  take-all n [] h = take-nil n
  take-all zero (x ∷ xs) h = absurd (omega arith)
  take-all (suc n) (x ∷ xs) h = ap (λ (l : List A). x ∷ l) (take-all n xs (omega arith))

  pub All-take_of {κ} : (P : A → Type κ) (n : ℕ) (xs : List A) → All P xs → All P (take n xs)
  All-take_of P zero xs h = tt
  All-take_of P (suc n) [] h = tt
  All-take_of P (suc n) (x ∷ xs) h = (h.0, All-take_of P n xs h.1)

  pub All-drop_of {κ} : (P : A → Type κ) (n : ℕ) (xs : List A) → All P xs → All P (drop n xs)
  All-drop_of P zero xs h = h
  All-drop_of P (suc n) [] h = tt
  All-drop_of P (suc n) (x ∷ xs) h = All-drop_of P n xs h.1

  pub All-front {κ} : (P : A → Type κ) (xs ys : List A) → All P (xs ++ ys) → All P xs
  All-front P [] ys h = tt
  All-front P (x ∷ xs) ys h = (h.0, All-front P xs ys h.1)

  -- A slice that ends where the second list begins, and the rest.
  pub take-append_at : (n : ℕ) (xs ys : List A) → length xs ≡ n → take n (xs ++ ys) ≡ xs
  take-append_at n [] ys h = ap (λ (k : ℕ). take k ys) {x = n} {y = 0} (omega arith)
  take-append_at zero (x ∷ xs) ys h = absurd (omega arith)
  take-append_at (suc n) (x ∷ xs) ys h =
      ap (λ (l : List A). x ∷ l) (take-append_at n xs ys (omega arith))

  pub drop-append_at : (n : ℕ) (xs ys : List A) → length xs ≡ n → drop n (xs ++ ys) ≡ ys
  drop-append_at n [] ys h = ap (λ (k : ℕ). drop k ys) {x = n} {y = 0} (omega arith)
  drop-append_at zero (x ∷ xs) ys h = absurd (omega arith)
  drop-append_at (suc n) (x ∷ xs) ys h = drop-append_at n xs ys (omega arith)

  pub All-behind {κ} : (P : A → Type κ) (xs ys : List A) → All P (xs ++ ys) → All P ys
  All-behind P [] ys h = h
  All-behind P (x ∷ xs) ys h = All-behind P xs ys h.1
