-- ===== src/Reader/Extended.antt =====
-- The loop of `xheader_read` over the blocks that are still to come.
use tar.Base.{
  ℕ, zero, suc, ◌+◌, ◌-◌, ◌/◌, ◌≤◌, ◌<◌, ◌≡◌, refl, sym, ◌∙◌, ap, arith, min, true, false, Option,
  none, some, List, [], ◌∷◌, ◌++◌, length, take, drop, All, ltb, ◌==◌, inl, inr, ◌⊎◌, Bool-cases,
}
use tar.Base.Slices.{take-append_front, take-append_behind, take-all}
use tar.Base.Text.{Bytes}
use tar.Stream.{Block, block_size, Input, find_next_block, set_next_block_after, pending}
use tar.Stream.Pending.{first, find_next_block-Finds, pending-set_next_block_after}
use tar.Reader.{bytes_of, Xheader, unexpected_eof, xheader, prepend, xheader_loop}
use tar.Reader.Blocks.{IsBlock, length-first}

-- The blocks that hold `size` bytes.
abbrev pub blocks_for : ℕ → ℕ
blocks_for size = (size + (block_size - 1)) / block_size

-- What is read of the blocks `bs`.
abbrev pub ReadsXheader : ℕ → List Block → Xheader → Type 0
ReadsXheader size bs x =
    ((length bs < blocks_for size) × (x ≡ unexpected_eof))
    ⊎ ((blocks_for size ≤ length bs)
        × ((s : Input) × (x ≡ xheader (take size (bytes_of bs)) s)
            × (pending s ≡ drop (blocks_for size) bs)))

at_end :
    (fuel size : ℕ) (bs : List Block) (s : Input)
    → 1 ≤ size
    → 1 ≤ fuel
    → bs ≡ []
    → ReadsXheader size bs (xheader_loop fuel size none s)
unfolding xheader_loop
at_end zero size bs s pos h e = absurd (omega arith)
at_end (suc fuel) size bs s pos h e = inl (omega (arith, ap length e), refl)

behind :
    (size size' : ℕ) (b : Block) (bs : List Block) (x : Xheader)
    → IsBlock b
    → size ≡ size' + block_size
    → 1 ≤ size'
    → ReadsXheader size' bs x
    → ReadsXheader size (b ∷ bs) (prepend b x)
behind size size' b bs x whole e pos (inl (short, failed)) =
    inl (omega arith, ap (prepend b) failed)
behind size size' b bs x whole e pos (inr (enough, (s, done, rest))) = inr (
  omega arith,
  (
    s,
    ap (prepend b) done
        ∙ ap (λ (l : Bytes). xheader l s)
            (sym (
              take-append_behind size b (bytes_of bs) (omega arith)
              ∙ ap (λ (n : ℕ). b ++ take n (bytes_of bs)) {x = size - length b} {y = size'}
                  (omega arith))),
    rest
        ∙ ap (λ (n : ℕ). drop n (b ∷ bs)) {x = suc (blocks_for size')} {y = blocks_for size}
            (omega arith),
  ),
)

-- The last round, and one before it.
loop_last :
    (fuel size : ℕ) (b : Block) (s : Input)
    → size ≤ block_size
    → xheader_loop (suc fuel) size (some b) s
      ≡ xheader (take size b) (find_next_block (set_next_block_after 0 s)).1
unfolding xheader_loop
loop_last fuel size b s h =
    let e : min size block_size ≡ size = omega arith in
    let done : (size - size == 0) ≡ true = ground arith in rw e (rw done refl)

loop_more :
    (fuel size : ℕ) (b : Block) (s : Input)
    → block_size < size
    → IsBlock b
    → xheader_loop (suc fuel) size (some b) s
      ≡ prepend b (
          let next = find_next_block (set_next_block_after 0 s) in
          xheader_loop fuel (size - block_size) next.0 next.1)
unfolding xheader_loop
loop_more fuel size b s h whole =
    let e : min size block_size ≡ block_size = omega arith in
    let going : (size - block_size == 0) ≡ false = ground arith in
    rw e (rw going (rw (take-all block_size b (omega (arith, whole)))))

pub xheader_loop-Reads :
    (fuel size : ℕ) (s : Input) (p : Option Block) (bs : List Block)
    → 1 ≤ size
    → blocks_for size ≤ fuel
    → All IsBlock bs
    → pending s ≡ bs
    → p ≡ first bs
    → first s.current ≡ first bs
    → ReadsXheader size bs (xheader_loop fuel size p s)
xheader_loop-Reads zero size s p bs pos h blocks e found here = absurd (omega arith)
xheader_loop-Reads (suc fuel) size s p [] pos h blocks e found here =
    rw found (at_end (suc fuel) size [] s pos (omega arith) refl)
xheader_loop-Reads (suc fuel) size s p (b ∷ bs) pos h blocks e found here =
    let s1 = set_next_block_after 0 s in
    let left : pending s1 ≡ bs =
      pending-set_next_block_after 0 s (length-first s.current bs b here) ∙ ap (drop 1) e in
    let f = find_next_block-Finds s1 in
    let next = find_next_block s1 in
    rw found (elim (Bool-cases (ltb block_size size)) [
      | inr last ↦
          let small : size ≤ block_size = ground arith in
          rw (loop_last fuel size b s small) (
            inr (
              omega arith,
              (
                next.1,
                ap (λ (l : Bytes). xheader l next.1)
                    (sym (take-append_front size b (bytes_of bs) (omega (arith, blocks.0)))),
                f.kept
                    ∙ left
                    ∙ ap (λ (n : ℕ). drop n (b ∷ bs)) {x = 1} {y = blocks_for size} (omega arith),
              ),
            ))
      | inl more ↦
          let big : block_size < size = ground arith in
          rw (loop_more fuel size b s big blocks.0) (
            behind size (size - block_size) b bs _ blocks.0 (omega arith) (omega arith) (
              xheader_loop-Reads fuel (size - block_size) next.1 next.0 bs (omega arith)
                (omega arith) blocks.1 (f.kept ∙ left) (f.found ∙ ap first left)
                (f.here ∙ ap first left)))
    ])
