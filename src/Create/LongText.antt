-- ===== src/Create/LongText.antt =====
-- The blocks that `write_gnu_long_link` writes behind its header hold the name, its NUL and zeros.
use tar.Base.{
  ℕ, zero, suc, ◌+◌, ◌-◌, ◌*◌, ◌≤◌, ◌<◌, ◌≡◌, refl, sym, ◌∙◌, ap, arith, List, ◌∷◌, ◌++◌,
  append_assoc, length, take, drop, length-append, length-take, length-drop, take-append-drop,
  length-replicate, replicate, All, All-append, ltb, inl, inr, Bool-cases,
}
use tar.Base.Slices.{take-append_behind, take-all, take-append-take}
use tar.Base.Text.{Bytes}
use tar.Stream.{Block, block_size}
use tar.Reader.{bytes_of}
use tar.Reader.Blocks.{IsBlock, bytes_of-append}
use tar.Reader.Extended.{blocks_for}
use tar.Create.{cut_blocks, long_link_loop}

take-replicate : (m n a : ℕ) → m ≤ n → take m (replicate n a) ≡ replicate m a
take-replicate zero n a h = refl
take-replicate (suc m) zero a h = absurd (omega arith)
take-replicate (suc m) (suc n) a h = ap (λ (l : Bytes). a ∷ l) (take-replicate m n a (omega arith))

-- Whole blocks that hold the bytes.
record Cut (k : ℕ) (bytes : Bytes) (bs : List Block) : Type 0 where
  text : bytes_of bs ≡ take (k * block_size) bytes
  blocks : All IsBlock bs
  count : length bs ≡ k

cut_blocks-Cut :
    (k : ℕ) (bytes : Bytes) → k * block_size ≤ length bytes → Cut k bytes (cut_blocks k bytes)
cut_blocks-Cut zero bytes h = record { text = refl; blocks = tt; count = refl }
cut_blocks-Cut (suc k) bytes h =
    let ih =
      cut_blocks-Cut k (drop block_size bytes) (omega (arith, length-drop block_size bytes)) in
    record {
      text =
          ap (λ (l : Bytes). take block_size bytes ++ l) ih.text
          ∙ take-append-take block_size (k * block_size) bytes
          ∙ ap (λ (n : ℕ). take n bytes) {x = block_size + k * block_size} {y = suc k * block_size}
              (omega arith);
      blocks = (omega (arith, length-take block_size bytes), ih.blocks);
      count = ap suc ih.count;
    }

-- Blocks that hold a text and zeros, and no block more.
pub record HoldsText (p : Bytes) (bs : List Block) : Type 0 where
  pub zeros : ℕ
  pub text : bytes_of bs ≡ p ++ replicate zeros 0
  pub blocks : All IsBlock bs
  pub count : length bs ≡ blocks_for (length p)

pub last_round :
    (room : ℕ) (p : Bytes)
    → length p ≤ room * block_size
    → HoldsText p
        (cut_blocks (blocks_for (length p)) (p ++ replicate (room * block_size - length p) 0))
last_round room p fits =
    let k = blocks_for (length p) in
    let blank = room * block_size - length p in
    let cut =
      cut_blocks-Cut k (p ++ replicate blank 0)
        (omega (arith, length-append p (replicate blank 0), length-replicate {A = ℕ} blank 0)) in
    record {
      zeros = k * block_size - length p;
      text =
          cut.text
          ∙ take-append_behind (k * block_size) p (replicate blank 0) (omega arith)
          ∙ ap (λ (l : Bytes). p ++ l)
              (take-replicate (k * block_size - length p) blank 0 (omega arith));
      blocks = cut.blocks;
      count = cut.count;
    }

pub earlier_round :
    (room : ℕ) (p : Bytes) (more : List Block)
    → room * block_size ≤ length p
    → HoldsText (drop (room * block_size) p) more
    → HoldsText p (cut_blocks room (take (room * block_size) p) ++ more)
earlier_round room p more long ih =
    let n = room * block_size in
    let cut = cut_blocks-Cut room (take n p) (omega (arith, length-take n p)) in
    record {
      zeros = ih.zeros;
      text =
          bytes_of-append (cut_blocks room (take n p)) more
          ∙ ap (λ (l : Bytes). l ++ bytes_of more)
              (cut.text ∙ take-all n (take n p) (omega (arith, length-take n p)))
          ∙ ap (λ (l : Bytes). take n p ++ l) ih.text
          ∙ sym (append_assoc (take n p) (drop n p) (replicate ih.zeros 0))
          ∙ ap (λ (l : Bytes). l ++ replicate ih.zeros 0) (take-append-drop n p);
      blocks = All-append IsBlock (cut_blocks room (take n p)) more cut.blocks ih.blocks;
      count = omega (
        arith,
        length-append (cut_blocks room (take n p)) more,
        cut.count,
        ih.count,
        length-drop n p,
      );
    }

-- The blocks that are written for a text hold the text and then zeros, as whole blocks, and as few
-- as the text needs, for any room in this record and the next ones but none; a round for each byte
-- and one more are enough.
pub long_link_loop-HoldsText :
    (fuel blocking room : ℕ) (p : Bytes)
    → length p < fuel
    → 1 ≤ blocking
    → 1 ≤ room
    → HoldsText p (long_link_loop fuel blocking room p)
unfolding long_link_loop
long_link_loop-HoldsText zero blocking room p enough one_block some_room = absurd (omega arith)
long_link_loop-HoldsText (suc fuel) blocking room p enough one_block some_room =
    elim (Bool-cases (ltb (room * block_size) (length p))) [
      | inl long ↦
          let longer : room * block_size ≤ length p = ground arith in
          rw long (
            earlier_round room p
              (long_link_loop fuel blocking blocking (drop (room * block_size) p)) longer
              (long_link_loop-HoldsText fuel blocking blocking (drop (room * block_size) p)
                (omega (arith, length-drop (room * block_size) p)) one_block one_block))
      | inr short ↦ rw short (last_round room p (ground arith))
    ]
