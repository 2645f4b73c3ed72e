-- ===== src/Stream/Pending.antt =====
-- The input's operations, by what is still to come.
use tar.Base.{
  ℕ, zero, suc, ◌+◌, ◌/◌, ◌≤◌, ◌≡◌, refl, sym, arith, Bool, true, false, Option, none, some, List,
  [], ◌∷◌, ◌++◌, length, drop,
}
use tar.Stream.{
  Block, block_size, Input, next_record, find_block, find_next_block, set_next_block_after, to_come,
  pending,
}

abbrev pub first : List Block → Option Block
first [] = none
first (b ∷ bs) = some b

-- What `find_next_block` finds, and what it leaves.
pub record Finds (s : Input) : Type 0 where
  pub found : (find_next_block s).0 ≡ first (pending s)
  pub kept : pending (find_next_block s).1 ≡ pending s
  pub here : first (find_next_block s).1.current ≡ first (pending s)

find_block-first :
    (bs : List Block) (rs : List (List Block)) (eof : Bool)
    → ((find_block bs rs eof).0 ≡ first (bs ++ to_come eof rs))
      × (pending (find_block bs rs eof).1 ≡ bs ++ to_come eof rs)
      × (first (find_block bs rs eof).1.current ≡ first (bs ++ to_come eof rs))
unfolding find_block next_record
find_block-first (b ∷ bs) rs eof = (refl, refl, refl)
find_block-first [] rs true = (refl, refl, refl)
find_block-first [] [] false = (refl, refl, refl)
find_block-first [] ([] ∷ rs) false = (refl, refl, refl)
find_block-first [] ((b ∷ bs) ∷ rs) false = (refl, refl, refl)

pub find_next_block-Finds : (s : Input) → Finds s
unfolding find_next_block
find_next_block-Finds s =
    let f = find_block-first s.current s.records s.hit_eof in
    record { found = f.0; kept = f.1; here = f.2 }

drop-append_front :
    (n : ℕ) (xs ys : List Block) → n ≤ length xs → drop n (xs ++ ys) ≡ drop n xs ++ ys
drop-append_front zero xs ys h = refl
drop-append_front (suc n) [] ys h = absurd (omega arith)
drop-append_front (suc n) (x ∷ xs) ys h = drop-append_front n xs ys (omega arith)

-- Going on behind the blocks that are used, which the current record holds.
pub pending-set_next_block_after :
    (offset : ℕ) (s : Input)
    → offset / block_size + 1 ≤ length s.current
    → pending (set_next_block_after offset s) ≡ drop (offset / block_size + 1) (pending s)
unfolding set_next_block_after
pending-set_next_block_after offset s h =
    sym (drop-append_front (offset / block_size + 1) s.current (to_come s.hit_eof s.records) h)
