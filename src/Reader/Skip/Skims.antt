-- ===== src/Reader/Skip/Skims.antt =====
-- Skipping a member goes on behind its data.
use tar.Base.{
  ℕ, zero, suc, ◌+◌, ◌*◌, ◌-◌, Bool, not, ◌&&◌, Bool-cases, length-drop, ◌≤◌, ◌<◌, ◌≡◌, refl, ◌∙◌,
  ap, arith, true, false, List, [], ◌∷◌, ◌++◌, length, drop, length-append, ◌⊎◌, inl, inr, ◌==◌,
}
use tar.Base.Slices.{drop-append_at, drop-drop}
use tar.Stream.{Block, block_size, Input, pending, find_next_block, set_next_block_after}
use tar.Stream.Pending.{first, find_next_block-Finds, pending-set_next_block_after}
use tar.Reader.{Info}
use tar.Reader.Fields.{typeflag}
use tar.Reader.Blocks.{find_next_block-Current}
use tar.Reader.Extended.{blocks_for}
use tar.Reader.Skip.{
  Skim, skimmed, skim_unexpected_eof, skim_out_of_fuel, skim_loop, Seek, seek_failed, sought,
  behind_seek, skim_file, member_is_dir, skim_member,
}

-- What is left of the blocks `bs`.
abbrev pub Skims : ℕ → List Block → Skim → Type 0
Skims size bs r =
    ((length bs < blocks_for size) × (r ≡ skim_unexpected_eof))
    ⊎ ((blocks_for size ≤ length bs)
        × ((s : Input) × (r ≡ skimmed s) × (pending s ≡ drop (blocks_for size) bs)))

-- One block more.
Skims-behind :
    (size : ℕ) (b : Block) (bs : List Block) (r : Skim)
    → 1 ≤ size
    → Skims (size - block_size) bs r
    → Skims size (b ∷ bs) r
Skims-behind size b bs r pos (inl (short, failed)) = inl (omega arith, failed)
Skims-behind size b bs r pos (inr (enough, (s, done, left))) = inr (
  omega arith,
  (
    s,
    done,
    left
        ∙ ap (λ (k : ℕ). drop k (b ∷ bs)) {x = suc (blocks_for (size - block_size))}
            {y = blocks_for size} (omega arith),
  ),
)

skim_loop-Skims :
    (fuel size : ℕ) (s : Input) (bs : List Block)
    → size < fuel
    → pending s ≡ bs
    → Skims size bs (skim_loop fuel size s)
unfolding skim_loop
skim_loop-Skims zero size s bs h e = absurd (omega arith)
skim_loop-Skims (suc fuel) zero s bs h e = inr (omega arith, (s, refl, e))
skim_loop-Skims (suc fuel) (suc n) s [] h e =
    let more : (suc n == 0) ≡ false = ground arith in
    let f = find_next_block-Finds s in rw more (rw (f.found ∙ ap first e) (inl (omega arith, refl)))
skim_loop-Skims (suc fuel) (suc n) s (b ∷ bs) h e =
    let more : (suc n == 0) ≡ false = ground arith in
    let f = find_next_block-Finds s in
    let c = find_next_block-Current s b bs e in
    let left : pending (set_next_block_after 0 (find_next_block s).1) ≡ bs =
      pending-set_next_block_after 0 (find_next_block s).1 c.nonempty ∙ ap (drop 1) (f.kept ∙ e) in
    rw more (
      rw (f.found ∙ ap first e) (
        Skims-behind (suc n) b bs _ (omega arith) (
          skim_loop-Skims fuel (suc n - block_size) (set_next_block_after 0 (find_next_block s).1)
            bs (omega arith) left)))

-- Where `seek_archive` goes on behind blocks, they are there, and the size has so many.
abbrev pub SeeksInside : ℕ → Input → Seek → Type 0
SeeksInside size s seek_failed = Unit {0}
SeeksInside size s (sought nblk s') =
    (nblk * block_size ≤ size) × (nblk ≤ length (pending s)) × (pending s' ≡ drop nblk (pending s))

Skims-sought :
    (n size : ℕ) (bs : List Block) (r : Skim)
    → n * block_size ≤ size
    → n ≤ length bs
    → Skims (size - n * block_size) (drop n bs) r
    → Skims size bs r
Skims-sought n size bs r inside there (inl (short, failed)) =
    inl (omega (arith, length-drop n bs), failed)
Skims-sought n size bs r inside there (inr (enough, (s, done, left))) = inr (
  omega (arith, length-drop n bs),
  (
    s,
    done,
    left
        ∙ drop-drop n (blocks_for (size - n * block_size)) bs
        ∙ ap (λ (k : ℕ). drop k bs) {x = n + blocks_for (size - n * block_size)}
            {y = blocks_for size} (omega arith),
  ),
)

behind_seek-Skims :
    (size : ℕ) (s : Input) (x : Seek)
    → SeeksInside size s x
    → Skims size (pending s) (behind_seek size s x).1
unfolding behind_seek
behind_seek-Skims size s seek_failed h =
    skim_loop-Skims (suc size) size s (pending s) (omega arith) refl
behind_seek-Skims size s (sought nblk s') (inside, there, left) =
    let rest = size - nblk * block_size in
    Skims-sought nblk size (pending s) _ inside there
      (skim_loop-Skims (suc rest) rest s' (drop nblk (pending s)) (omega arith) left)

-- `skim_file` goes on behind the blocks of the size, if there are so many, and reports an unexpected
-- end otherwise, wherever the records end. Where the archive is seeked, `seek_archive` fails, or
-- goes on behind blocks that the archive has, no more than the size wants.
pub skim_file-Skims :
    (seek_archive : ℕ → Input → Seek) (seekable must_copy : Bool) (size : ℕ) (s : Input)
    → (seekable && not must_copy ≡ true → SeeksInside size s (seek_archive size s))
    → Skims size (pending s) (skim_file seek_archive seekable must_copy size s).1
unfolding skim_file
skim_file-Skims seek_archive seekable must_copy size s h =
    elim (Bool-cases (seekable && not must_copy)) [
      | inl seeks ↦ rw seeks (behind_seek-Skims size s (seek_archive size s) (h seeks))
      | inr reads ↦ rw reads (skim_loop-Skims (suc size) size s (pending s) (omega arith) refl)
    ]

-- Behind a member's header and its data the next block is the one behind them: for a member that
-- was not skipped yet and is neither a directory nor sparse, whose header begins what the record
-- has left and whose data has as many blocks as its size wants, wherever the records end. Where
-- the archive is seeked, `seek_archive` fails, or goes on behind blocks that the archive has, no
-- more than the size wants.
pub skim_member-next :
    (sparse_skim_file : Info → Input → Bool × Skim) (seek_archive : ℕ → Input → Seek)
    (seekable must_copy : Bool) (header h : Block) (info : Info) (s : Input) (more bs : List Block)
    → info.skipped ≡ false
    → member_is_dir info.had_trailing_slash (typeflag header) ≡ false
    → length more ≡ blocks_for info.st_size
    → 1 ≤ length s.current
    → pending s ≡ h ∷ (more ++ bs)
    → (seekable && not must_copy ≡ true
        → SeeksInside info.st_size
            (set_next_block_after 0 s)
            (seek_archive info.st_size (set_next_block_after 0 s)))
    → (s' : Input) × (seekable' : Bool) × (skim_member sparse_skim_file seek_archive false seekable
          must_copy header info s
        ≡ (record info { skipped = true }, (seekable', skimmed s')))
      × (pending s' ≡ bs)
unfolding skim_member
skim_member-next sparse_skim_file seek_archive seekable must_copy header h info s more bs unread
      no_dir count here e inside =
    let behind = set_next_block_after 0 s in
    let left : pending behind ≡ more ++ bs =
      pending-set_next_block_after 0 s here ∙ ap (drop 1) e in
    let r = skim_file seek_archive seekable must_copy info.st_size behind in
    rw unread (
      rw no_dir (elim (skim_file-Skims seek_archive seekable must_copy info.st_size behind inside) [
        | inl (short, failed) ↦ absurd (omega (arith, ap length left, length-append more bs))
        | inr (enough, (s', done, rest)) ↦ (
          s',
          r.0,
          ap (λ (k : Skim). (record info { skipped = true }, (r.0, k))) done,
          rest
              ∙ ap (drop (blocks_for info.st_size)) left
              ∙ drop-append_at (blocks_for info.st_size) more bs count,
        )
      ]))

-- What is skipped are the next blocks, the header at least.
abbrev pub Passes : Input → Skim → Type 0
Passes s (skimmed s') = (k : ℕ) × (pending s' ≡ drop (suc k) (pending s))
Passes s _ = Unit {0}

Skims-Passes :
    (size : ℕ) (s : Input) (r : Skim)
    → 1 ≤ length s.current
    → Skims size (pending (set_next_block_after 0 s)) r
    → Passes s r
Skims-Passes size s skim_unexpected_eof here h = tt
Skims-Passes size s skim_out_of_fuel here h = tt
Skims-Passes size s (skimmed s') here (inl (short, failed)) = absurd (cc)
Skims-Passes size s (skimmed s') here (inr (enough, (s'', same, left))) = (
  blocks_for size,
  ap (λ (x : Skim). left_of x) same
      ∙ left
      ∙ ap (drop (blocks_for size)) (pending-set_next_block_after 0 s here)
      ∙ drop-drop 1 (blocks_for size) (pending s)
      ∙ ap (λ (k : ℕ). drop k (pending s)) {x = 1 + blocks_for size} {y = suc (blocks_for size)}
          (omega arith),
)
  where
    left_of : Skim → List Block
    left_of (skimmed x) = pending x
    left_of _ = []

pub skim_member-Passes :
    (sparse_skim_file : Info → Input → Bool × Skim) (seek_archive : ℕ → Input → Seek)
    (must_copy : Bool) (header : Block) (info : Info) (s : Input)
    → info.skipped ≡ false
    → 1 ≤ length s.current
    → Passes s (skim_member sparse_skim_file seek_archive false false must_copy header info s).1.1
unfolding skim_member
skim_member-Passes sparse_skim_file seek_archive must_copy header info s unread here =
    rw unread (elim (Bool-cases (member_is_dir info.had_trailing_slash (typeflag header))) [
      | inl dir ↦ rw dir (0, pending-set_next_block_after 0 s here)
      | inr file ↦ rw file (
          Skims-Passes info.st_size s _ here (
            skim_file-Skims seek_archive false must_copy info.st_size (set_next_block_after 0 s)
              (λ e. absurd (cc))))
    ])
