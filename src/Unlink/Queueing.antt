-- ===== src/Unlink/Queueing.antt =====
-- How entries come into the queue of src/unlink.c: `dunlink_alloc`, `dunlink_insert` and
-- `queue_deferred_unlink`.
use tar.Base.{ℕ, zero, suc, ◌+◌, Bool, false, ◌&&◌, Option, none, some, ltb, if◌then◌else◌}
use tar.Base.Text.{Bytes}
use tar.FileName.{normalize_filename_x}
use tar.Unlink.{DeferredUnlink, is_cwd, Queue, set_cell, Answer, flush_deferred_unlinks}

-- The address of a free cell, or of a new one.
abbrev pub alloc_from : Option ℕ → Queue → ℕ × Queue
alloc_from none q = (q.fresh, record q { fresh = q.fresh + 1 })
alloc_from (some p) q = (p, record q { dunlink_avail = (q.cells p).next })

unfoldable pub dunlink_alloc : Queue → ℕ × Queue
dunlink_alloc q = alloc_from q.dunlink_avail q

abbrev pub set_next : ℕ → Option ℕ → Queue → Queue
set_next p next q = record q { cells = set_cell p (record (q.cells p) { next = next }) q.cells }

abbrev pub set_tail : ℕ → Option ℕ → Queue → Queue
set_tail p none q = record q { dunlink_tail = some p }
set_tail p (some next) q = q

abbrev pub linked_behind : Option ℕ → ℕ → Queue → Queue
linked_behind none p q = record (set_next p q.dunlink_head q) { dunlink_head = some p }
linked_behind (some anchor) p q = set_next anchor (some p) (set_next p (q.cells anchor).next q)

unfoldable pub dunlink_insert : Option ℕ → ℕ → Queue → Queue
dunlink_insert anchor p q =
    let linked = linked_behind anchor p q in set_tail p (linked.cells p).next linked

-- The entry in front of which a working directory is put, and the one before it: none where the loop
-- comes to the end; on fuel.
unfoldable pub find_place : ℕ → Queue → ℕ → Option ℕ → Option ℕ → Option (Option ℕ)
find_place zero q dir_idx p prev = none
find_place (suc fuel) q dir_idx none prev = none
find_place (suc fuel) q dir_idx (some p) prev =
    let rest = find_place fuel q dir_idx (q.cells p).next (some p) in
    if is_cwd (q.cells p) && ltb (q.cells p).dir_idx dir_idx then some prev else rest

abbrev pub place_or_tail : Option (Option ℕ) → Option ℕ → Option ℕ
place_or_tail none dunlink_tail = dunlink_tail
place_or_tail (some prev) dunlink_tail = prev

-- Behind the flush; `fuel` is for the loop on the queue.
unfoldable pub enqueue : ℕ → ℕ → ℕ → Bytes → Bool → Queue → Queue
unfolding dunlink_alloc dunlink_insert find_place
enqueue fuel chdir_current records_written name is_dir q =
    let allocated = dunlink_alloc q in
    let p = allocated.0 in
    let entry : DeferredUnlink = record {
      next = none;
      dir_idx = chdir_current;
      file_name = normalize_filename_x name;
      is_dir = is_dir;
      records_written = records_written;
    } in
    let filled = record (allocated.1) { cells = set_cell p entry (allocated.1).cells } in
    let place = find_place fuel filled chdir_current filled.dunlink_head none in
    dunlink_insert
      (if is_cwd entry then place_or_tail place filled.dunlink_tail else filled.dunlink_tail) p
      filled

abbrev pub wants_flush : Option ℕ → ℕ → Queue → Bool
wants_flush none records_written q = false
wants_flush (some head) records_written q = ltb (q.cells head).records_written records_written

abbrev pub enqueued : Option Queue → (Queue → Queue) → Option Queue
enqueued none k = none
enqueued (some q) k = some (k q)

-- None is for the fuel that runs out.
unfoldable pub queue_deferred_unlink :
    ℕ → ℕ → ℕ → (ℕ → DeferredUnlink → Answer) → Bytes → Bool → Queue → Option Queue
unfolding enqueue
queue_deferred_unlink fuel chdir_current records_written unlinkat name is_dir q =
    enqueued
      (if wants_flush q.dunlink_head records_written q
        then flush_deferred_unlinks fuel records_written unlinkat q
        else some q)
      (enqueue fuel chdir_current records_written name is_dir)
