-- ===== src/Unlink/Pass.antt =====
-- `flush_deferred_unlinks` on a whole queue.
use tar.Base.{ℕ, ◌<◌, ◌≡◌, refl, sym, subst, Bool, false, Option, none, some, List, length}
use tar.Unlink.{DeferredUnlink, Queue, Answer, stays, reset_tail, with_tail, flush_deferred_unlinks}
use tar.Unlink.Chain.{Chain, Distinct}
use tar.Unlink.Flush.{kept, flush_loop-Flushed}

-- The queue is a chain of the entries that stay, and an empty one has no tail.
pub record Flushes (stay : ℕ → DeferredUnlink → Bool) (xs : List ℕ) (q : Queue) (r : Option Queue)
    : Type 0 where
  pub after : Queue
  pub result : r ≡ some after
  pub chain : Chain after.cells after.dunlink_head (kept stay q.cells xs)
  pub tail_reset : after.dunlink_head ≡ none → after.dunlink_tail ≡ none

with_tail-Flushes :
    (stay : ℕ → DeferredUnlink → Bool) (xs : List ℕ) (q after : Queue) (p : Option ℕ)
    → after.dunlink_head ≡ p
    → Chain after.cells after.dunlink_head (kept stay q.cells xs)
    → Flushes stay xs q (some (reset_tail p after))
with_tail-Flushes stay xs q after none e c = record {
  after = record after { dunlink_tail = none };
  result = refl;
  chain = c;
  tail_reset = λ h. refl;
}
with_tail-Flushes stay xs q after (some a) e c = record {
  after = after;
  result = refl;
  chain = c;
  tail_reset = λ h. absurd (cc);
}

-- A flush that is not forced leaves a queue of the entries that stay, in their order: those that
-- were not written yet, directories that are not empty and working directories of an index above 0.
-- The queue is a chain of distinct cells before and after; a round for each entry and one more are
-- enough.
pub flush_deferred_unlinks-Flushes :
    (fuel records_written : ℕ) (unlinkat : ℕ → DeferredUnlink → Answer) (q : Queue) (xs : List ℕ)
    → Chain q.cells q.dunlink_head xs
    → Distinct xs
    → length xs < fuel
    → Flushes
        (stays false records_written unlinkat)
        xs
        q
        (flush_deferred_unlinks fuel records_written unlinkat q)
unfolding flush_deferred_unlinks
flush_deferred_unlinks-Flushes fuel records_written unlinkat q xs c d enough =
    let f =
      flush_loop-Flushed fuel (stays false records_written unlinkat) q.dunlink_head none q xs c refl
        d tt enough in
    subst (λ (r : Option Queue). Flushes (stays false records_written unlinkat) xs q (with_tail r))
      (sym f.result)
      (with_tail-Flushes (stays false records_written unlinkat) xs q f.after f.after.dunlink_head
        refl f.chain)
