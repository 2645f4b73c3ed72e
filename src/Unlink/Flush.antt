-- ===== src/Unlink/Flush.antt =====
-- One pass of `flush_deferred_unlinks` over the queue.
use tar.Base.{
  ℕ, zero, suc, ◌<◌, ◌≡◌, ◌≢◌, refl, sym, ◌∙◌, ap, subst, arith, Bool, true, false, Option, none,
  some, List, [], ◌∷◌, length, All, if◌then◌else◌, inl, inr, Bool-cases,
}
use tar.Unlink.{DeferredUnlink, Queue, dunlink_reclaim, link, flush_loop}
use tar.Unlink.Chain.{Chain, NotIn, Distinct, set_cell-same, set_cell-other, Chain-same}

-- Where the rest of the queue hangs.
abbrev pub start : Option ℕ → Queue → Option ℕ
start none q = q.dunlink_head
start (some prev) q = (q.cells prev).next

abbrev pub OffPrev : Option ℕ → List ℕ → Type 0
OffPrev none xs = Unit {0}
OffPrev (some prev) xs = NotIn prev xs

-- The entries that stay, in their order.
abbrev pub kept : (ℕ → DeferredUnlink → Bool) → (ℕ → DeferredUnlink) → List ℕ → List ℕ
kept stay cells [] = []
kept stay cells (a ∷ xs) = if stay a (cells a) then a ∷ kept stay cells xs else kept stay cells xs

kept-same :
    (stay : ℕ → DeferredUnlink → Bool) (cells cells' : ℕ → DeferredUnlink) (xs : List ℕ)
    → All (λ (b : ℕ). cells' b ≡ cells b) xs
    → kept stay cells' xs ≡ kept stay cells xs
kept-same stay cells cells' [] same = refl
kept-same stay cells cells' (a ∷ xs) same =
    ap (λ (e : DeferredUnlink). if stay a e then a ∷ kept stay cells' xs else kept stay cells' xs)
      same.0
    ∙ ap (λ (l : List ℕ). if stay a (cells a) then a ∷ l else l)
        (kept-same stay cells cells' xs same.1)

abbrev HeadKept : Option ℕ → Queue → Queue → Type 0
HeadKept none q q' = Unit {0}
HeadKept (some prev) q q' = q'.dunlink_head ≡ q.dunlink_head

-- What the pass over `xs` makes of the queue.
pub record Flushed (stay : ℕ → DeferredUnlink → Bool) (prev : Option ℕ) (xs : List ℕ) (q : Queue)
    (r : Option Queue) : Type 0 where
  pub after : Queue
  pub result : r ≡ some after
  pub chain : Chain after.cells (start prev after) (kept stay q.cells xs)
  pub others : (b : ℕ) → NotIn b xs → OffPrev prev (b ∷ []) → after.cells b ≡ q.cells b
  pub head : HeadKept prev q after

start-same :
    (stay : ℕ → DeferredUnlink → Bool) (p : ℕ) (prev : Option ℕ) (xs : List ℕ) (q : Queue)
    (r : Option Queue) (f : Flushed stay (some p) xs q r)
    → OffPrev prev (p ∷ xs)
    → start prev f.after ≡ start prev q
start-same stay p none xs q r f off = f.head
start-same stay p (some a) xs q r f off =
    ap (λ (e : DeferredUnlink). e.next) (f.others a off.1 ((λ e. off.0 (sym e)), tt))

-- The links are changed at the entry in front and at the one that is taken out.
link-other :
    (p : ℕ) (next prev : Option ℕ) (q : Queue) (b : ℕ)
    → b ≢ p
    → OffPrev prev (b ∷ [])
    → (link prev next (dunlink_reclaim p q)).cells b ≡ q.cells b
unfolding link dunlink_reclaim
link-other p next none q b ne off =
    set_cell-other p b (record (q.cells p) { next = q.dunlink_avail; file_name = [] }) q.cells ne
link-other p next (some a) q b ne off =
    let r = dunlink_reclaim p q in
    set_cell-other a b (record (r.cells a) { next = next }) r.cells off.0
    ∙ set_cell-other p b (record (q.cells p) { next = q.dunlink_avail; file_name = [] }) q.cells ne

link-start :
    (p : ℕ) (next prev : Option ℕ) (q : Queue)
    → start prev (link prev next (dunlink_reclaim p q)) ≡ next
unfolding link dunlink_reclaim
link-start p next none q = refl
link-start p next (some a) q =
    let r = dunlink_reclaim p q in
    ap (λ (e : DeferredUnlink). e.next)
      (set_cell-same a (record (r.cells a) { next = next }) r.cells)

link-head :
    (p : ℕ) (next prev : Option ℕ) (q : Queue)
    → HeadKept prev q (link prev next (dunlink_reclaim p q))
unfolding link dunlink_reclaim
link-head p next none q = tt
link-head p next (some a) q = refl

link-others :
    (p : ℕ) (next prev : Option ℕ) (q : Queue) (xs : List ℕ)
    → NotIn p xs
    → OffPrev prev xs
    → All (λ (b : ℕ). (link prev next (dunlink_reclaim p q)).cells b ≡ q.cells b) xs
link-others p next prev q [] ne off = tt
link-others p next none q (b ∷ xs) ne off =
    (link-other p next none q b ne.0 tt, link-others p next none q xs ne.1 tt)
link-others p next (some a) q (b ∷ xs) ne off = (
  link-other p next (some a) q b ne.0 ((λ e. off.0 e), tt),
  link-others p next (some a) q xs ne.1 off.1,
)

OffPrev-tail : (prev : Option ℕ) (p : ℕ) (xs : List ℕ) → OffPrev prev (p ∷ xs) → OffPrev prev xs
OffPrev-tail none p xs off = tt
OffPrev-tail (some a) p xs off = off.1

HeadKept-after :
    (prev : Option ℕ) (q q2 q3 : Queue)
    → HeadKept prev q q2
    → HeadKept prev q2 q3
    → HeadKept prev q q3
HeadKept-after none q q2 q3 h k = tt
HeadKept-after (some a) q q2 q3 h k = k ∙ h

HeadKept-refl : (prev : Option ℕ) (q : Queue) → HeadKept prev q q
HeadKept-refl none q = tt
HeadKept-refl (some a) q = refl

HeadKept-any :
    (prev : Option ℕ) (p : ℕ) (q q' : Queue) → HeadKept (some p) q q' → HeadKept prev q q'
HeadKept-any none p q q' h = tt
HeadKept-any (some a) p q q' h = h

-- An entry that stays, and one that is taken out.
kept_step :
    (stay : ℕ → DeferredUnlink → Bool) (p : ℕ) (prev : Option ℕ) (q : Queue) (xs : List ℕ)
    (r : Option Queue)
    → stay p (q.cells p) ≡ true
    → start prev q ≡ some p
    → OffPrev prev (p ∷ xs)
    → Flushed stay (some p) xs q r
    → Flushed stay prev (p ∷ xs) q r
kept_step stay p prev q xs r s e off f = record {
  after = f.after;
  result = f.result;
  chain = rw s (start-same stay p prev xs q r f off ∙ e, f.chain);
  others = λ b ne off'. f.others b ne.1 ((λ e'. ne.0 (sym e')), tt);
  head = HeadKept-any prev p q f.after f.head;
}

gone_step :
    (stay : ℕ → DeferredUnlink → Bool) (p : ℕ) (next prev : Option ℕ) (q : Queue) (xs : List ℕ)
    (r : Option Queue)
    → stay p (q.cells p) ≡ false
    → NotIn p xs
    → OffPrev prev xs
    → Flushed stay prev xs (link prev next (dunlink_reclaim p q)) r
    → Flushed stay prev (p ∷ xs) q r
gone_step stay p next prev q xs r s ne off f =
    let q2 = link prev next (dunlink_reclaim p q) in
    record {
      after = f.after;
      result = f.result;
      chain = rw s (
          subst (Chain f.after.cells (start prev f.after))
            (kept-same stay q.cells q2.cells xs (link-others p next prev q xs ne off)) f.chain);
      others = λ b ne' off'.
          f.others b ne'.1 off' ∙ link-other p next prev q b (λ e'. ne'.0 (sym e')) off';
      head = HeadKept-after prev q q2 f.after (link-head p next prev q) f.head;
    }

some_same : (p a : ℕ) → some p ≡ some a → a ≡ p
some_same p a e = cc

pub flush_loop-Flushed :
    (fuel : ℕ) (stay : ℕ → DeferredUnlink → Bool) (p prev : Option ℕ) (q : Queue) (xs : List ℕ)
    → Chain q.cells p xs
    → start prev q ≡ p
    → Distinct xs
    → OffPrev prev xs
    → length xs < fuel
    → Flushed stay prev xs q (flush_loop fuel stay p prev q)
unfolding flush_loop
flush_loop-Flushed zero stay p prev q xs c e d off enough = absurd (omega arith)
flush_loop-Flushed (suc fuel) stay none prev q [] c e d off enough = record {
  after = q;
  result = refl;
  chain = e;
  others = λ b ne off'. refl;
  head = HeadKept-refl prev q;
}
flush_loop-Flushed (suc fuel) stay (some p) prev q [] c e d off enough = absurd (cc)
flush_loop-Flushed (suc fuel) stay none prev q (a ∷ xs) c e d off enough = absurd (cc)
flush_loop-Flushed (suc fuel) stay (some p) prev q (a ∷ xs) c e d off enough =
    let same : a ≡ p = some_same p a c.0 in
    let next = (q.cells p).next in
    let q2 = link prev next (dunlink_reclaim p q) in
    let chain : Chain q.cells next xs =
      subst (λ (b : ℕ). Chain q.cells (q.cells b).next xs) same c.1 in
    let apart : NotIn p xs = subst (λ (b : ℕ). NotIn b xs) same d.0 in
    let off' : OffPrev prev (p ∷ xs) = subst (λ (b : ℕ). OffPrev prev (b ∷ xs)) same off in
    subst (λ (b : ℕ). Flushed stay prev (b ∷ xs) q (flush_loop (suc fuel) stay (some p) prev q))
      (sym same)
      (elim (Bool-cases (stay p (q.cells p))) [
        | inl s ↦ rw s (
            kept_step stay p prev q xs _ s e off'
              (flush_loop-Flushed fuel stay next (some p) q xs chain refl d.1 apart (omega arith)))
        | inr s ↦ rw s (
            gone_step stay p next prev q xs _ s apart (OffPrev-tail prev p xs off') (
              flush_loop-Flushed fuel stay next prev q2 xs
                (Chain-same q.cells q2.cells next xs
                  (link-others p next prev q xs apart (OffPrev-tail prev p xs off')) chain)
                (link-start p next prev q) d.1 (OffPrev-tail prev p xs off') (omega arith)))
      ])
