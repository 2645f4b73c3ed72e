-- ===== src/Unlink/Appended.antt =====
-- An entry that is put at the end of the queue of src/unlink.c.
use tar.Base.{
  ℕ, ◌≡◌, ◌≢◌, refl, sym, ◌∙◌, ap, subst, false, Option, none, some, List, [], ◌∷◌, ◌++◌, All,
}
use tar.Base.Text.{Bytes}
use tar.FileName.{normalize_filename_x}
use tar.Unlink.{DeferredUnlink, Queue, set_cell}
use tar.Unlink.Chain.{Chain, NotIn, Distinct, Chain-same, set_cell-other}
use tar.Unlink.Queueing.{
  alloc_from, dunlink_alloc, dunlink_insert, enqueue, set_next, set_tail, linked_behind,
}
use tar.Unlink.Lost.{set_next-next}

abbrev pub last : ℕ → List ℕ → ℕ
last a [] = a
last a (x ∷ xs) = last x xs

-- `dunlink_tail` for a queue of the entries `xs`.
abbrev pub tail_of : List ℕ → Option ℕ
tail_of [] = none
tail_of (a ∷ xs) = some (last a xs)

last-other : (a x : ℕ) (xs : List ℕ) → NotIn a (x ∷ xs) → last x xs ≢ a
last-other a x [] h = h.0
last-other a x (y ∷ xs) h = last-other a y xs h.1

Chain-last :
    (cells : ℕ → DeferredUnlink) (p : Option ℕ) (a : ℕ) (xs : List ℕ)
    → Chain cells p (a ∷ xs)
    → (cells (last a xs)).next ≡ none
Chain-last cells p a [] c = c.1
Chain-last cells p a (x ∷ xs) c = Chain-last cells (cells a).next x xs c.1

Chain-append :
    (cells cells' : ℕ → DeferredUnlink) (head : Option ℕ) (a p : ℕ) (xs : List ℕ)
    → Chain cells head (a ∷ xs)
    → Distinct (a ∷ xs)
    → NotIn p (a ∷ xs)
    → ((b : ℕ) → b ≢ last a xs → b ≢ p → cells' b ≡ cells b)
    → (cells' (last a xs)).next ≡ some p
    → (cells' p).next ≡ none
    → Chain cells' head (a ∷ xs ++ (p ∷ []))
Chain-append cells cells' head a p [] c distinct fresh same to_p end = (c.0, (to_p, end))
Chain-append cells cells' head a p (x ∷ xs) c distinct fresh same to_p end =
    let other = last-other a x xs distinct.0 in
    let kept = same a (λ e. other (sym e)) fresh.0 in
    (
      c.0,
      subst (λ (n : Option ℕ). Chain cells' n (x ∷ xs ++ (p ∷ [])))
          (sym (ap (λ (e : DeferredUnlink). e.next) kept))
          (Chain-append cells cells' (cells a).next x p xs c.1 distinct.1 fresh.1 same to_p end),
    )

-- The queue of `xs`, with its tail.
pub record IsQueue (xs : List ℕ) (q : Queue) : Type 0 where
  pub chain : Chain q.cells q.dunlink_head xs
  pub tail : q.dunlink_tail ≡ tail_of xs
  pub distinct : Distinct xs

NotIn-append : (b p : ℕ) (xs : List ℕ) → NotIn b xs → p ≢ b → NotIn b (xs ++ (p ∷ []))
NotIn-append b p [] h ne = (ne, tt)
NotIn-append b p (x ∷ xs) h ne = (h.0, NotIn-append b p xs h.1 ne)

Distinct-append : (p : ℕ) (xs : List ℕ) → Distinct xs → NotIn p xs → Distinct (xs ++ (p ∷ []))
Distinct-append p [] d h = (tt, tt)
Distinct-append p (x ∷ xs) d h =
    (NotIn-append x p xs d.0 (λ e. h.0 (sym e)), Distinct-append p xs d.1 h.1)

last-append : (a p : ℕ) (xs : List ℕ) → last a (xs ++ (p ∷ [])) ≡ p
last-append a p [] = refl
last-append a p (x ∷ xs) = last-append x p xs

insert-IsQueue :
    (p : ℕ) (q : Queue) (xs : List ℕ)
    → IsQueue xs q
    → NotIn p xs
    → IsQueue (xs ++ (p ∷ [])) (dunlink_insert (tail_of xs) p q)
unfolding dunlink_insert
insert-IsQueue p q [] v fresh =
    let end : ((set_next p q.dunlink_head q).cells p).next ≡ none =
      set_next-next p q.dunlink_head q ∙ v.chain in
    subst (λ (n : Option ℕ). IsQueue (p ∷ []) (set_tail p n (linked_behind none p q))) (sym end)
      record { chain = (refl, end); tail = refl; distinct = (tt, tt) }
insert-IsQueue p q (a ∷ xs) v fresh =
    let l = last a xs in
    let p_not_l : p ≢ l = λ e. last-other p a xs fresh (sym e) in
    let once = set_next p (q.cells l).next q in
    let linked = set_next l (some p) once in
    let end : (linked.cells p).next ≡ none =
      ap (λ (e : DeferredUnlink). e.next)
        (set_cell-other l p (record (once.cells l) { next = some p }) once.cells p_not_l)
      ∙ set_next-next p (q.cells l).next q
      ∙ Chain-last q.cells q.dunlink_head a xs v.chain in
    subst (λ (n : Option ℕ). IsQueue (a ∷ xs ++ (p ∷ [])) (set_tail p n linked)) (sym end)
      record {
        chain =
            Chain-append q.cells linked.cells q.dunlink_head a p xs v.chain v.distinct fresh
              (λ b ne ne'.
                set_cell-other l b (record (once.cells l) { next = some p }) once.cells ne
                ∙ set_cell-other p b (record (q.cells p) { next = (q.cells l).next }) q.cells ne')
              (set_next-next l (some p) once) end;
        tail = ap some (sym (last-append a p xs));
        distinct = Distinct-append p (a ∷ xs) v.distinct fresh;
      }

dunlink_alloc-IsQueue : (q : Queue) (xs : List ℕ) → IsQueue xs q → IsQueue xs (dunlink_alloc q).1
unfolding dunlink_alloc
dunlink_alloc-IsQueue q xs v = go q.dunlink_avail
  where
    go : (avail : Option ℕ) → IsQueue xs (alloc_from avail q).1
    go none = record { chain = v.chain; tail = v.tail; distinct = v.distinct }
    go (some p) = record { chain = v.chain; tail = v.tail; distinct = v.distinct }

-- A file is queued behind the entries that are there, and becomes the tail, if the tail was the last
-- of the entries and the cell that `dunlink_alloc` gives is none of theirs.
pub enqueue-IsQueue :
    (fuel chdir_current records_written : ℕ) (name : Bytes) (q : Queue) (xs : List ℕ)
    → IsQueue xs q
    → NotIn (dunlink_alloc q).0 xs
    → IsQueue
        (xs ++ ((dunlink_alloc q).0 ∷ []))
        (enqueue fuel chdir_current records_written name false q)
unfolding enqueue
enqueue-IsQueue fuel chdir_current records_written name q xs v fresh =
    let a = dunlink_alloc-IsQueue q xs v in
    let p = (dunlink_alloc q).0 in
    let entry : DeferredUnlink = record {
      next = none;
      dir_idx = chdir_current;
      file_name = normalize_filename_x name;
      is_dir = false;
      records_written = records_written;
    } in
    let filled = record ((dunlink_alloc q).1) {
      cells = set_cell p entry ((dunlink_alloc q).1).cells;
    } in
    subst (λ (t : Option ℕ). IsQueue (xs ++ (p ∷ [])) (dunlink_insert t p filled)) (sym a.tail)
      (insert-IsQueue p filled xs
        record {
          chain =
              Chain-same ((dunlink_alloc q).1).cells filled.cells filled.dunlink_head xs
                (unchanged entry ((dunlink_alloc q).1).cells p xs fresh) a.chain;
          tail = a.tail;
          distinct = a.distinct;
        }
        fresh)
  where
    unchanged :
        (entry : DeferredUnlink) (cells : ℕ → DeferredUnlink) (p : ℕ) (xs : List ℕ)
        → NotIn p xs
        → All (λ (a : ℕ). set_cell p entry cells a ≡ cells a) xs
    unchanged entry cells p [] h = tt
    unchanged entry cells p (a ∷ xs) h =
        (set_cell-other p a entry cells h.0, unchanged entry cells p xs h.1)
