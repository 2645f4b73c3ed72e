-- ===== src/Create/Touches.antt =====
-- Which parts of a header block a piece of code writes.
use tar.Base.{
  ℕ, ◌+◌, ◌≡◌, refl, ◌∙◌, arith, Bool, true, ◌&&◌, ◌||◌, List, [], ◌∷◌, ◌++◌, leb, inl, inr,
  Bool-cases,
}
use tar.Base.Text.{Bytes}
use tar.Stream.{Block}
use tar.Reader.Fields.{field}
use tar.Create.ByteFields.{IsHeader}
use tar.Create.Writes.{Writes}

-- The `n` bytes from `o` on are in none of the parts.
abbrev pub apart : ℕ → ℕ → List (ℕ × ℕ) → Bool
apart o n [] = true
apart o n ((o', n') ∷ parts) = (leb (o + n) o' || leb (o' + n') o) && apart o n parts

pub record Touches (parts : List (ℕ × ℕ)) (before after : Block) : Type 0 where
  pub whole : IsHeader after
  pub kept : (o n : ℕ) → apart o n parts ≡ true → field o n after ≡ field o n before

pub Touches-refl : (parts : List (ℕ × ℕ)) (h : Block) → IsHeader h → Touches parts h h
Touches-refl parts h v = record { whole = v; kept = λ o n a. refl }

pub Writes-Touches :
    (o n : ℕ) (bs : Bytes) (h h' : Block) → Writes o n bs h h' → Touches ((o, n) ∷ []) h h'
Writes-Touches o n bs h h' w = record {
  whole = w.whole;
  kept = λ o' n' a. elim (Bool-cases (leb (o' + n') o)) [
    | inl front ↦ w.front o' n' (ground arith)
    | inr other ↦ w.behind o' n' (ground arith)
  ];
}

pub Touches-join :
    (ps qs : List (ℕ × ℕ)) (h h' h'' : Block)
    → Touches ps h h'
    → Touches qs h' h''
    → Touches (ps ++ qs) h h''
Touches-join ps qs h h' h'' t u = record {
  whole = u.whole;
  kept = λ o n a. u.kept o n (split ps qs o n a).1 ∙ t.kept o n (split ps qs o n a).0;
}
  where
    split :
        (ps qs : List (ℕ × ℕ)) (o n : ℕ)
        → apart o n (ps ++ qs) ≡ true
        → (apart o n ps ≡ true) × (apart o n qs ≡ true)
    split [] qs o n a = (refl, a)
    split ((o', n') ∷ ps) qs o n a =
        (ground (arith, split ps qs o n), ground (arith, split ps qs o n))
