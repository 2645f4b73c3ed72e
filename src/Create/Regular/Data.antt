-- ===== src/Create/Regular/Data.antt =====
-- The data of a file is as many blocks as its size wants, also where the file has shrunk.
use tar.Base.{
  ℕ, zero, suc, ◌+◌, ◌-◌, ◌*◌, ◌/◌, ◌≤◌, ◌<◌, ◌≡◌, refl, sym, ◌∙◌, ap, subst, arith, min, Bool,
  true, false, List, [], ◌∷◌, ◌++◌, append-nil, length, take, drop, length-drop, length-replicate,
  replicate, ltb, leb, ◌==◌, if◌then◌else◌, inl, inr, Bool-cases,
}
use tar.Base.Text.{Bytes}
use tar.Stream.{Block, block_size}
use tar.Reader.Extended.{blocks_for}
use tar.Create.{empty_block, cut_blocks}
use tar.Create.LongText.{HoldsText, last_round, earlier_round}
use tar.Create.Regular.{
  DumpStatus, dump_status_ok, dump_status_short, pad_archive, area, in_front, dump_data,
}
use tar.Create.Regular.Padded.{
  padded, length-padded, padded-nil, take-padded, drop-padded, area-padded,
}

abbrev zeros_of : ℕ → Bytes
zeros_of n = replicate n 0

replicate-append : (a b : ℕ) → zeros_of a ++ zeros_of b ≡ zeros_of (a + b)
replicate-append zero b = ap (λ (k : ℕ). replicate k 0) {x = b} {y = 0 + b} (omega arith)
replicate-append (suc a) b =
    ap (λ (l : Bytes). 0 ∷ l) (replicate-append a b)
    ∙ ap (λ (k : ℕ). replicate k 0) {x = suc (a + b)} {y = suc a + b} (omega arith)

-- As many blocks of zeros as the size wants.
pad_archive-HoldsText :
    (fuel size : ℕ) → size < fuel → HoldsText (replicate size 0) (pad_archive fuel size)
unfolding pad_archive
pad_archive-HoldsText zero size h = absurd (omega arith)
pad_archive-HoldsText (suc fuel) zero h = record {
  zeros = 0;
  text = refl;
  blocks = tt;
  count = refl;
}
pad_archive-HoldsText (suc fuel) (suc size) h =
    let left = suc size - block_size in
    let ih = pad_archive-HoldsText fuel left (omega arith) in
    let more : (suc size == 0) ≡ false = ground arith in
    let zeros = block_size + left + ih.zeros - suc size in
    rw more record {
      zeros = zeros;
      text =
          ap (λ (l : Bytes). empty_block ++ l) (ih.text ∙ replicate-append left ih.zeros)
          ∙ replicate-append block_size (left + ih.zeros)
          ∙ ap (λ (k : ℕ). replicate k 0) {x = block_size + (left + ih.zeros)}
              {y = suc size + zeros} (omega arith)
          ∙ sym (replicate-append (suc size) zeros);
      blocks = (refl, ih.blocks);
      count =
          omega (arith, ih.count, length-replicate {A = ℕ} left 0, length-replicate {A = ℕ} size 0);
    }

-- The status says whether the file had all its bytes.
abbrev pub dump_status_of : ℕ → Bytes → DumpStatus
dump_status_of size file = if leb size (length file) then dump_status_ok else dump_status_short

pub record DataWritten (size : ℕ) (file : Bytes) (r : List Block × DumpStatus) : Type 0 where
  pub holds : HoldsText (padded size file) r.0
  pub same_status : r.1 ≡ dump_status_of size file

-- The blocks at the beginning of a record's rest.
last_area :
    (size room : ℕ) (file : Bytes)
    → size ≤ room * block_size
    → HoldsText (padded size file) (area size (min size (length file)) file)
last_area size room file h =
    let k = blocks_for size in
    let p = padded size file in
    let e = length-padded size file in
    subst (λ (l : Bytes). HoldsText p (cut_blocks k l))
      (sym (
        area-padded (min size (length file)) size (k * block_size - min size (length file))
          (k * block_size - size) file refl (omega arith)))
      (subst
        (λ (n : ℕ). HoldsText p (cut_blocks (blocks_for n) (p ++ replicate (k * block_size - n) 0)))
        e (last_round k p (omega (arith, e))))

earlier_area :
    (size room : ℕ) (file : Bytes) (more : List Block)
    → room * block_size ≤ size
    → HoldsText (padded (size - room * block_size) (drop (room * block_size) file)) more
    → HoldsText
        (padded size file)
        (area (room * block_size) (min (room * block_size) (length file)) file ++ more)
earlier_area size room file more h ih =
    let n = room * block_size in
    let p = padded size file in
    let r =
      earlier_round room p more (omega (arith, length-padded size file)) (
        subst (λ (l : Bytes). HoldsText l more) (sym (drop-padded n size file (omega arith))) ih) in
    let k = (n + (block_size - 1)) / block_size in
    let cut : cut_blocks room (take n p) ≡ area n (min n (length file)) file =
      ap (cut_blocks room) (
        take-padded n size file (omega arith)
        ∙ sym (append-nil (padded n file))
        ∙ ap (λ (j : ℕ). padded n file ++ replicate j 0) {x = 0} {y = k * block_size - n}
            (omega arith)
        ∙ sym (
            area-padded (min n (length file)) n (k * block_size - min n (length file))
              (k * block_size - n) file refl (omega arith)))
      ∙ ap
          (λ (j : ℕ).
            cut_blocks j (
              take (min n (length file)) file
              ++ replicate (k * block_size - min n (length file)) 0))
          {x = room} {y = k} (omega arith) in
    subst (λ (l : List Block). HoldsText p (l ++ more)) cut r

pad_archive-none : (fuel : ℕ) → pad_archive fuel 0 ≡ []
unfolding pad_archive
pad_archive-none zero = refl
pad_archive-none (suc fuel) = refl

dump_data-none :
    (fuel blocking room : ℕ) (file : Bytes)
    → dump_data fuel blocking room file 0 ≡ ([], dump_status_ok)
unfolding dump_data
dump_data-none zero blocking room file = refl
dump_data-none (suc fuel) blocking room file = refl

-- What stands behind an area of `b` bytes.
abbrev behind_area : ℕ → ℕ → Bytes → List Block × DumpStatus → List Block × DumpStatus
behind_area b size file more =
    let count = min b (length file) in
    let left = size - count in
    if count == b then more else (pad_archive (suc left) (left - (b - count)), dump_status_short)

behind_area-short :
    (b size : ℕ) (file : Bytes) (more : List Block × DumpStatus)
    → b ≤ size
    → length file < b
    → HoldsText (padded (size - b) (drop b file)) (behind_area b size file more).0
      × ((behind_area b size file more).1 ≡ dump_status_of size file)
behind_area-short b size file more h short =
    let unread : (min b (length file) == b) ≡ false = ground arith in
    let no_file : drop b file ≡ [] = nothing b file short in
    let few : leb size (length file) ≡ false = ground arith in
    let left = size - min b (length file) in
    rw unread (
      rw few (
        subst (λ (n : ℕ). HoldsText (padded (size - b) (drop b file)) (pad_archive (suc left) n))
            {x = size - b} {y = left - (b - min b (length file))} (omega arith)
            (subst (λ (l : Bytes). HoldsText l (pad_archive (suc left) (size - b)))
              (sym (ap (padded (size - b)) no_file ∙ padded-nil (size - b)))
              (pad_archive-HoldsText (suc left) (size - b) (omega arith))),
        refl,
      ))
  where
    nothing : (b : ℕ) (file : Bytes) → length file < b → drop b file ≡ []
    nothing zero file h = absurd (omega arith)
    nothing (suc b) [] h = refl
    nothing (suc b) (x ∷ file) h = nothing b file (omega arith)

-- The last area, and one that fills the record.
last-DataWritten :
    (fuel blocking room size : ℕ) (file : Bytes)
    → size ≤ room * block_size
    → DataWritten size file (
        in_front (area size (min size (length file)) file) (
          behind_area size size file
            (dump_data fuel blocking blocking (drop size file) (size - min size (length file)))))
last-DataWritten fuel blocking room size file h =
    let count = min size (length file) in
    let whole = last_area size room file h in
    elim (Bool-cases (leb size (length file))) [
      | inl enough ↦
          let read : (count == size) ≡ true = ground arith in
          let rest : dump_data fuel blocking blocking (drop size file) (size - count)
              ≡ ([], dump_status_ok) =
            ap (dump_data fuel blocking blocking (drop size file)) {x = size - count} {y = 0}
              (ground arith)
            ∙ dump_data-none fuel blocking blocking (drop size file) in
          rw read (
            rw rest record {
              holds =
                  subst (HoldsText (padded size file)) (sym (append-nil (area size count file)))
                    whole;
              same_status = rw enough refl;
            })
      | inr few ↦
          let unread : (count == size) ≡ false = ground arith in
          let none_left : pad_archive (suc (size - count)) (size - count - (size - count)) ≡ [] =
            ap (pad_archive (suc (size - count))) {x = size - count - (size - count)} {y = 0}
              (omega arith)
            ∙ pad_archive-none (suc (size - count)) in
          rw unread (
            rw none_left record {
              holds =
                  subst (HoldsText (padded size file)) (sym (append-nil (area size count file)))
                    whole;
              same_status = rw few refl;
            })
    ]

earlier-DataWritten :
    (room size : ℕ) (file : Bytes) (more : List Block × DumpStatus)
    → room * block_size ≤ size
    → (room * block_size ≤ length file
        → DataWritten (size - room * block_size) (drop (room * block_size) file) more)
    → DataWritten size file (
        in_front
          (area (room * block_size) (min (room * block_size) (length file)) file)
          (behind_area (room * block_size) size file more))
earlier-DataWritten room size file more h ih =
    let b = room * block_size in
    elim (Bool-cases (leb b (length file))) [
      | inl enough ↦
          let read : (min b (length file) == b) ≡ true = ground arith in
          let r = ih (ground arith) in
          let same : leb (size - b) (length (drop b file)) ≡ leb size (length file) =
            ground (arith, length-drop b file) in
          rw read record {
            holds = earlier_area size room file more.0 h r.holds;
            same_status =
                r.same_status
                ∙ ap (λ (t : Bool). if t then dump_status_ok else dump_status_short) same;
          }
      | inr few ↦
          let r = behind_area-short b size file more h (ground arith) in
          record {
            holds = earlier_area size room file (behind_area b size file more).0 h r.0;
            same_status = r.1;
          }
    ]

pub dump_data-DataWritten :
    (fuel blocking room : ℕ) (file : Bytes) (size : ℕ)
    → size < fuel
    → 1 ≤ blocking
    → 1 ≤ room
    → DataWritten size file (dump_data fuel blocking room file size)
unfolding dump_data
dump_data-DataWritten zero blocking room file size enough one_block some_room = absurd (omega arith)
dump_data-DataWritten (suc fuel) blocking room file zero enough one_block some_room = record {
  holds = record { zeros = 0; text = refl; blocks = tt; count = refl };
  same_status = ground arith;
}
dump_data-DataWritten (suc fuel) blocking room file (suc n) enough one_block some_room =
    let size = suc n in
    let b = room * block_size in
    let more : (size == 0) ≡ false = ground arith in
    rw more (elim (Bool-cases (ltb size b)) [
      | inl short ↦ rw short (last-DataWritten fuel blocking room size file (ground arith))
      | inr long ↦ rw long (
          earlier-DataWritten room size file
            (dump_data fuel blocking blocking (drop b file) (size - min b (length file)))
            (ground arith)
            (λ read.
              subst
                (λ (k : ℕ).
                  DataWritten (size - b) (drop b file)
                    (dump_data fuel blocking blocking (drop b file) k))
                {x = size - b} {y = size - min b (length file)} (omega arith)
                (dump_data-DataWritten fuel blocking blocking (drop b file) (size - b) (omega arith)
                  one_block one_block)))
    ])
