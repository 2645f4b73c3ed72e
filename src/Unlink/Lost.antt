-- ===== src/Unlink/Lost.antt =====
-- An entry that the queue of src/unlink.c loses.
use tar.Base.{ℕ, ◌≡◌, ◌≢◌, refl, sym, ◌∙◌, ap, subst, false, Option, none, some, List, [], ◌∷◌, All}
use tar.Base.Text.{Bytes}
use tar.FileName.{normalize_filename_x}
use tar.Unlink.{DeferredUnlink, Queue, set_cell}
use tar.Unlink.Chain.{Chain, NotIn, Chain-same, set_cell-same, set_cell-other}
use tar.Unlink.Queueing.{dunlink_alloc, dunlink_insert, enqueue, set_next, set_tail}

-- A cell that is linked to itself, where nothing else changes.
record Looped (b : ℕ) (q q' : Queue) : Type 0 where
  loop : (q'.cells b).next ≡ some b
  same_head : q'.dunlink_head ≡ q.dunlink_head
  others : (a : ℕ) → a ≢ b → q'.cells a ≡ q.cells a

pub set_next-next :
    (p : ℕ) (next : Option ℕ) (q : Queue) → ((set_next p next q).cells p).next ≡ next
set_next-next p next q =
    ap (λ (e : DeferredUnlink). e.next)
      (set_cell-same p (record (q.cells p) { next = next }) q.cells)

-- An entry that is inserted behind itself.
dunlink_insert-Looped : (b : ℕ) (q : Queue) → Looped b q (dunlink_insert (some b) b q)
unfolding dunlink_insert
dunlink_insert-Looped b q =
    let once = set_next b (q.cells b).next q in
    let linked = set_next b (some b) once in
    let loop = set_next-next b (some b) once in
    subst (λ (n : Option ℕ). Looped b q (set_tail b n linked)) (sym loop)
      record {
        loop = loop;
        same_head = refl;
        others = λ a ne.
            set_cell-other b a (record (once.cells b) { next = some b }) once.cells ne
            ∙ set_cell-other b a (record (q.cells b) { next = (q.cells b).next }) q.cells ne;
      }

Looped-Chain :
    (b : ℕ) (q q' : Queue) (xs : List ℕ)
    → Looped b q q'
    → NotIn b xs
    → Chain q.cells q.dunlink_head xs
    → Chain q'.cells q'.dunlink_head xs
Looped-Chain b q q' xs l fresh chain =
    Chain-same q.cells q'.cells q'.dunlink_head xs (same xs fresh)
      (subst (λ (p : Option ℕ). Chain q.cells p xs) (sym l.same_head) chain)
  where
    same : (xs : List ℕ) → NotIn b xs → All (λ (a : ℕ). q'.cells a ≡ q.cells a) xs
    same [] h = tt
    same (a ∷ xs) h = (l.others a h.0, same xs h.1)

-- Where the tail points to the free cell that `dunlink_alloc` gives next, as it does when a pass
-- keeps an entry and removes the last one, a file's entry is linked to itself and the queue from
-- `dunlink_head` is what it was: the file is not in it.
pub enqueue-lost :
    (fuel chdir_current records_written : ℕ) (name : Bytes) (b : ℕ) (q : Queue) (xs : List ℕ)
    → Chain q.cells q.dunlink_head xs
    → NotIn b xs
    → q.dunlink_avail ≡ some b
    → q.dunlink_tail ≡ some b
    → Chain
        (enqueue fuel chdir_current records_written name false q).cells
        (enqueue fuel chdir_current records_written name false q).dunlink_head
        xs
      × (((enqueue fuel chdir_current records_written name false q).cells b).next ≡ some b)
unfolding enqueue dunlink_alloc
enqueue-lost fuel chdir_current records_written name b q xs chain fresh avail tail = rw avail (
    rw tail (
      let entry : DeferredUnlink = record {
        next = none;
        dir_idx = chdir_current;
        file_name = normalize_filename_x name;
        is_dir = false;
        records_written = records_written;
      } in
      let filled = record q {
        cells = set_cell b entry q.cells;
        dunlink_tail = some b;
        dunlink_avail = (q.cells b).next;
      } in
      let l = dunlink_insert-Looped b filled in
      (
        Looped-Chain b filled (dunlink_insert (some b) b filled) xs l fresh
            (Chain-same q.cells filled.cells q.dunlink_head xs (unchanged entry xs fresh) chain),
        l.loop,
      )))
  where
    unchanged :
        (entry : DeferredUnlink) (xs : List ℕ)
        → NotIn b xs
        → All (λ (a : ℕ). set_cell b entry q.cells a ≡ q.cells a) xs
    unchanged entry [] h = tt
    unchanged entry (a ∷ xs) h = (set_cell-other b a entry q.cells h.0, unchanged entry xs h.1)
