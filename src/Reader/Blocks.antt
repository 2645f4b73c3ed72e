-- ===== src/Reader/Blocks.antt =====
-- The loops of `read_header` and `xheader_read` over the blocks that are still to come.
use tar.Base.{
  ℕ, zero, suc, ◌+◌, ◌-◌, ◌*◌, ◌/◌, ◌≤◌, ◌≡◌, refl, sym, ◌∙◌, ap, arith, min, false, none, some,
  List, [], ◌∷◌, ◌++◌, append_assoc, length, take, drop, length-append, length-drop, All, ltb,
  lt→ltb, ◌==◌, subst, inl, inr, Bool-cases,
}
use tar.Base.Slices.{
  List-cases, take-nil, drop-nil, drop-drop, take-append-take, take-append_front,
  take-append_behind, All-drop_of, All-front,
}
use tar.Base.Text.{Bytes}
use tar.Stream.{
  Block, block_size, Input, find_next_block, set_next_block_after, available_space, pending,
  to_come,
}
use tar.Stream.Pending.{first, find_next_block-Finds, pending-set_next_block_after}
use tar.Reader.{bytes_of, Copied, copied_behind, long_loop}

abbrev pub IsBlock : Block → Type 0
IsBlock b = length b ≡ block_size

pub bytes_of-append : (xs ys : List Block) → bytes_of (xs ++ ys) ≡ bytes_of xs ++ bytes_of ys
bytes_of-append [] ys = refl
bytes_of-append (x ∷ xs) ys =
    ap (λ (l : Bytes). x ++ l) (bytes_of-append xs ys)
    ∙ sym (append_assoc x (bytes_of xs) (bytes_of ys))

pub length-bytes_of :
    (bs : List Block) → All IsBlock bs → length (bytes_of bs) ≡ length bs * block_size
length-bytes_of [] h = omega arith
length-bytes_of (b ∷ bs) h =
    omega (arith, length-append b (bytes_of bs), length-bytes_of bs h.1, h.0)

-- Whole blocks are taken as bytes or as blocks.
pub take-bytes_of :
    (k : ℕ) (bs : List Block)
    → All IsBlock bs
    → take (k * block_size) (bytes_of bs) ≡ bytes_of (take k bs)
take-bytes_of zero bs h =
    ap (λ (n : ℕ). take n (bytes_of bs)) {x = 0 * block_size} {y = 0} (omega arith)
take-bytes_of (suc k) [] h = take-nil (suc k * block_size)
take-bytes_of (suc k) (b ∷ bs) h =
    take-append_behind (suc k * block_size) b (bytes_of bs) (omega (arith, h.0))
    ∙ ap (λ (n : ℕ). b ++ take n (bytes_of bs)) {x = suc k * block_size - length b}
        {y = k * block_size} (omega (arith, h.0))
    ∙ ap (λ (l : Bytes). b ++ l) (take-bytes_of k bs h.1)

-- The record that `find_next_block` leaves, for blocks that are to come.
pub record Current (s : Input) (bs : List Block) : Type 0 where
  pub later : List Block
  pub joined : s.current ++ later ≡ bs
  pub nonempty : 1 ≤ length s.current

pub length-first : (xs bs : List Block) (b : Block) → first xs ≡ some b → 1 ≤ length xs
length-first [] bs b h = absurd (cc)
length-first (x ∷ xs) bs b h = omega arith

pub find_next_block-Current :
    (s : Input) (b : Block) (bs : List Block)
    → pending s ≡ b ∷ bs
    → Current (find_next_block s).1 (b ∷ bs)
find_next_block-Current s b bs h =
    let f = find_next_block-Finds s in
    let s' = (find_next_block s).1 in
    record {
      later = to_come s'.hit_eof s'.records;
      joined = f.kept ∙ h;
      nonempty = length-first s'.current bs b (f.here ∙ ap first h);
    }

-- The copy of `k` blocks.
pub record Reads (k : ℕ) (bs : List Block) (c : Copied) : Type 0 where
  pub text : c.text ≡ bytes_of (take k bs)
  pub eof : c.eof ≡ ltb (length bs) k
  pub rest : pending c.input ≡ drop k bs

abbrev round_size : Input → ℕ → ℕ
round_size s k = min (length s.current) k

stopped :
    (k : ℕ) (s : Input) → k ≡ 0 → Reads k (pending s) (record { text = []; eof = false; input = s })
stopped zero s h = record { text = refl; eof = ground arith; rest = refl }
stopped (suc k) s h = absurd (omega arith)

at_end :
    (k : ℕ) (bs : List Block) (s : Input) (front : Bytes) (more : Copied)
    → 1 ≤ k
    → pending s ≡ bs
    → bs ≡ []
    → Reads k bs (copied_behind none front more s)
at_end k bs s front more pos same e = record {
  text = sym (ap (λ (l : List Block). bytes_of (take k l)) e ∙ ap bytes_of (take-nil k));
  eof = sym (ap (λ (l : List Block). ltb (length l) k) e ∙ lt→ltb 0 k pos);
  rest = same ∙ e ∙ sym (drop-nil k) ∙ ap (drop k) (sym e);
}

-- One round at a block, and the rest of the loop.
one_round :
    (j k : ℕ) (bs c : List Block) (b : Block) (more : Copied) (s : Input) (later : List Block)
    → All IsBlock c
    → c ++ later ≡ bs
    → j ≤ length c
    → j ≤ k
    → Reads (k - j) (drop j bs) more
    → Reads k bs (copied_behind (some b) (take (j * block_size) (bytes_of c)) more s)
one_round j k bs c b more s later blocks joined in_record in_size r = record {
  text =
      ap (λ (l : Bytes). l ++ more.text) (take-bytes_of j c blocks)
      ∙ ap (λ (l : List Block). bytes_of l ++ more.text)
          (sym (take-append_front j c later in_record) ∙ ap (take j) joined)
      ∙ ap (λ (l : Bytes). bytes_of (take j bs) ++ l) r.text
      ∙ sym (bytes_of-append (take j bs) (take (k - j) (drop j bs)))
      ∙ ap bytes_of (
          take-append-take j (k - j) bs
          ∙ ap (λ (n : ℕ). take n bs) {x = j + (k - j)} {y = k} (omega arith));
  eof = r.eof ∙ ground (arith, length-drop j bs, ap length joined, length-append c later);
  rest =
      r.rest
      ∙ drop-drop j (k - j) bs
      ∙ ap (λ (n : ℕ). drop n bs) {x = j + (k - j)} {y = k} (omega arith);
}

space : (s : Input) (k : ℕ) → min (available_space s) (k * block_size) ≡ round_size s k * block_size
unfolding available_space
space s k = omega arith

-- What stands behind the blocks of a round.
left_behind :
    (s : Input) (j : ℕ) (bs : List Block)
    → 1 ≤ j
    → j ≤ length s.current
    → pending s ≡ bs
    → pending (set_next_block_after (j * block_size - 1) s) ≡ drop j bs
left_behind s j bs pos h e =
    pending-set_next_block_after (j * block_size - 1) s (omega arith)
    ∙ ap (λ (n : ℕ). drop n (pending s)) {x = (j * block_size - 1) / block_size + 1} {y = j}
        (omega arith)
    ∙ ap (drop j) e

pub long_loop-Reads :
    (fuel k : ℕ) (s : Input)
    → k ≤ fuel
    → All IsBlock (pending s)
    → Reads k (pending s) (long_loop fuel (k * block_size) s)
unfolding long_loop
long_loop-Reads zero k s h blocks = stopped k s (omega arith)
long_loop-Reads (suc fuel) k s h blocks = elim (Bool-cases (k * block_size == 0)) [
  | inl none_left ↦ rw none_left (stopped k s (ground arith))
  | inr more_left ↦
      let f = find_next_block-Finds s in
      let s' = (find_next_block s).1 in
      let j = round_size s' k in
      let pos : 1 ≤ k = ground arith in
      rw more_left (elim (List-cases (pending s)) [
        | inl nothing ↦ rw (f.found ∙ ap first nothing) (
            at_end k (pending s) s' [] (record { text = []; eof = false; input = s }) pos f.kept
              nothing)
        | inr (b, bs, some_left) ↦
            let c = find_next_block-Current s b bs some_left in
            let some_read : 1 ≤ j = omega (arith, c.nonempty) in
            let in_record : j ≤ length s'.current = omega arith in
            let s2 = set_next_block_after (j * block_size - 1) s' in
            let left : pending s2 ≡ drop j (pending s) =
              left_behind s' j (pending s) some_read in_record f.kept in
            let ih =
              long_loop-Reads fuel (k - j) s2 (omega arith)
                (rw left (All-drop_of IsBlock j (pending s) blocks)) in
            let moved : Reads (k - j) (drop j (pending s))
                (long_loop fuel (k * block_size - j * block_size) s2) =
              subst (λ (n : ℕ). Reads (k - j) (drop j (pending s)) (long_loop fuel n s2))
                {x = (k - j) * block_size} {y = k * block_size - j * block_size} (omega arith)
                (subst
                  (λ (l : List Block). Reads (k - j) l (long_loop fuel ((k - j) * block_size) s2))
                  left ih) in
            rw (f.found ∙ ap first some_left) (
              rw (space s' k) (
                one_round j k (pending s) s'.current b _ s' c.later
                  (All-front IsBlock s'.current c.later (rw (c.joined ∙ sym some_left) blocks))
                  (c.joined ∙ sym some_left) in_record (omega arith) moved))
      ])
]
