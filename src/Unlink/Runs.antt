-- ===== src/Unlink/Runs.antt =====
-- A queue of a directory that is not empty and a file.
use tar.Base.{ℕ, ◌≡◌, refl, arith, true, false, Option, none, some, [], ◌∷◌, ◌==◌, if◌then◌else◌}
use tar.Base.Text.{codes}
use tar.Unlink.{DeferredUnlink, Queue, Answer, removed, not_empty, stays, flush_deferred_unlinks}
use tar.Unlink.Chain.{Chain}
use tar.Unlink.Queueing.{dunlink_alloc, enqueue}
use tar.Unlink.Lost.{enqueue-lost}
use tar.Unlink.Appended.{IsQueue, enqueue-IsQueue}
use tar.Unlink.Pass.{Flushes, flush_deferred_unlinks-Flushes}

abbrev directory : DeferredUnlink
directory = record {
  next = some 1;
  dir_idx = 0;
  file_name = codes "d";
  is_dir = true;
  records_written = 0;
}

abbrev file : DeferredUnlink
file = record {
  next = none;
  dir_idx = 0;
  file_name = codes "f";
  is_dir = false;
  records_written = 0;
}

abbrev two_entries : Queue
two_entries = record {
  cells = λ a. if a == 0 then directory else file;
  fresh = 2;
  dunlink_head = some 0;
  dunlink_tail = some 1;
  dunlink_avail = none;
}

abbrev answer : ℕ → DeferredUnlink → Answer
answer a e = if a == 0 then not_empty else removed

flush_deferred_unlinks-Flushes_example :
    Flushes
      (stays false 1 answer)
      (0 ∷ 1 ∷ [])
      two_entries
      (flush_deferred_unlinks 3 1 answer two_entries)
flush_deferred_unlinks-Flushes_example =
    flush_deferred_unlinks-Flushes 3 1 answer two_entries (0 ∷ 1 ∷ []) (refl, (refl, refl))
      (((λ e. omega (arith, e)), tt), (tt, tt)) (omega arith)

abbrev links : Option Queue → Option ℕ × Option ℕ × Option ℕ
links none = (none, none, none)
links (some q) = (q.dunlink_head, q.dunlink_tail, q.dunlink_avail)

-- The file's cell is free again, and still the tail.
tail_is_free : links (flush_deferred_unlinks 3 1 answer two_entries) ≡ (some 0, some 1, some 1)
unfolding flush_deferred_unlinks
tail_is_free = refl

-- A file behind the two entries, and one that is lost behind the pass.
enqueue-IsQueue_example : IsQueue (0 ∷ 1 ∷ 2 ∷ []) (enqueue 3 0 0 (codes "g") false two_entries)
unfolding dunlink_alloc
enqueue-IsQueue_example =
    enqueue-IsQueue 3 0 0 (codes "g") two_entries (0 ∷ 1 ∷ [])
      record {
        chain = (refl, (refl, refl));
        tail = refl;
        distinct = (((λ e. omega (arith, e)), tt), (tt, tt));
      }
      ((λ e. omega (arith, e)), ((λ e. omega (arith, e)), tt))

abbrev after_pass : Queue
after_pass = record {
  cells = λ a. if a == 0 then record directory { next = none } else record file { file_name = [] };
  fresh = 2;
  dunlink_head = some 0;
  dunlink_tail = some 1;
  dunlink_avail = some 1;
}

enqueue-lost_example :
    Chain
      (enqueue 3 0 1 (codes "g") false after_pass).cells
      (enqueue 3 0 1 (codes "g") false after_pass).dunlink_head
      (0 ∷ [])
    × (((enqueue 3 0 1 (codes "g") false after_pass).cells 1).next ≡ some 1)
enqueue-lost_example =
    enqueue-lost 3 0 1 (codes "g") 1 after_pass (0 ∷ []) (refl, refl) ((λ e. omega (arith, e)), tt)
      refl refl
