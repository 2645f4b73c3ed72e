-- ===== src/Unlink/Chain.antt =====
-- Chains of cells.
use tar.Base.{
  ℕ, ◌≡◌, ◌≢◌, refl, sym, subst, arith, true, false, Option, none, some, List, [], ◌∷◌, All, ◌==◌,
}
use tar.Unlink.{DeferredUnlink, set_cell}

-- The cells at `xs`, linked from `p` to the end.
abbrev pub Chain : (ℕ → DeferredUnlink) → Option ℕ → List ℕ → Type 0
Chain cells p [] = p ≡ none
Chain cells p (a ∷ xs) = (p ≡ some a) × Chain cells (cells a).next xs

abbrev pub NotIn : ℕ → List ℕ → Type 0
NotIn a xs = All (λ (b : ℕ). b ≢ a) xs

abbrev pub Distinct : List ℕ → Type 0
Distinct [] = Unit {0}
Distinct (a ∷ xs) = NotIn a xs × Distinct xs

pub set_cell-same :
    (a : ℕ) (e : DeferredUnlink) (cells : ℕ → DeferredUnlink) → set_cell a e cells a ≡ e
set_cell-same a e cells = let h : (a == a) ≡ true = ground arith in rw h refl

pub set_cell-other :
    (a b : ℕ) (e : DeferredUnlink) (cells : ℕ → DeferredUnlink)
    → b ≢ a
    → set_cell a e cells b ≡ cells b
set_cell-other a b e cells ne = let h : (b == a) ≡ false = ground arith in rw h refl

-- A chain whose cells do not change.
pub Chain-same :
    (cells cells' : ℕ → DeferredUnlink) (p : Option ℕ) (xs : List ℕ)
    → All (λ (b : ℕ). cells' b ≡ cells b) xs
    → Chain cells p xs
    → Chain cells' p xs
Chain-same cells cells' p [] same c = c
Chain-same cells cells' p (a ∷ xs) same c = (
  c.0,
  Chain-same cells cells' (cells' a).next xs same.1
      (subst (λ (e : DeferredUnlink). Chain cells e.next xs) (sym same.0) c.1),
)
