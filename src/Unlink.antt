-- ===== src/Unlink.antt =====
-- The queue of deferred unlinks of src/unlink.c, at the level of its links. An address is a number;
-- a cell that was never allocated has what the function of cells says there. What `unlinkat` answers
-- is a parameter; the changes of the working directory are left out, with the second loop of
-- `flush_deferred_unlinks`, which empties the queue on `force`. Queueing has how entries come in.
pub mod Chain
pub mod Queueing
pub mod Lost
pub mod Appended
pub mod Flush
pub mod Pass
mod Runs
use tar.Base.{
  ℕ, zero, suc, ◌+◌, Bool, true, false, not, ◌&&◌, ◌||◌, Option, none, some, List, [], ◌∷◌, get_or,
  ltb, ◌==◌, if◌then◌else◌,
}
use tar.Base.Text.{Bytes}

-- `struct deferred_unlink`
pub record DeferredUnlink : Type 0 where
  pub next : Option ℕ
  pub dir_idx : ℕ
  pub file_name : Bytes
  pub is_dir : Bool
  pub records_written : ℕ

abbrev pub is_cwd : DeferredUnlink → Bool
is_cwd p = p.is_dir && get_or p.file_name (if get_or p.file_name 0 0 == b'.' then 1 else 0) 0 == 0

-- `fresh` is the address that `xmalloc` gives next.
pub record Queue : Type 0 where
  pub cells : ℕ → DeferredUnlink
  pub fresh : ℕ
  pub dunlink_head : Option ℕ
  pub dunlink_tail : Option ℕ
  pub dunlink_avail : Option ℕ

abbrev pub set_cell : ℕ → DeferredUnlink → (ℕ → DeferredUnlink) → ℕ → DeferredUnlink
set_cell a e cells b = if b == a then e else cells b

unfoldable pub dunlink_reclaim : ℕ → Queue → Queue
dunlink_reclaim p q = record q {
  cells = set_cell p (record (q.cells p) { next = q.dunlink_avail; file_name = [] }) q.cells;
  dunlink_avail = some p;
}

-- `if (prev) prev->next = p; else dunlink_head = p;`
unfoldable pub link : Option ℕ → Option ℕ → Queue → Queue
link none p q = record q { dunlink_head = p }
link (some prev) p q = record q {
  cells = set_cell prev (record (q.cells prev) { next = p }) q.cells;
}

-- What `unlinkat` answers.
pub data Answer : Type 0 where
  removed missing not_empty failed : Answer

abbrev pub is_not_empty : Answer → Bool
is_not_empty not_empty = true
is_not_empty _ = false

-- The entry is kept in the queue.
unfoldable pub stays : Bool → ℕ → (ℕ → DeferredUnlink → Answer) → ℕ → DeferredUnlink → Bool
stays force records_written unlinkat p e =
    if force || ltb e.records_written records_written
    then e.is_dir && ((not (e.dir_idx == 0) && is_cwd e) || is_not_empty (unlinkat p e))
    else true

-- The first loop of `flush_deferred_unlinks`, on fuel.
unfoldable pub flush_loop :
    ℕ → (ℕ → DeferredUnlink → Bool) → Option ℕ → Option ℕ → Queue → Option Queue
unfolding dunlink_reclaim link
flush_loop zero stay p prev q = none
flush_loop (suc fuel) stay none prev q = some q
flush_loop (suc fuel) stay (some p) prev q =
    let next = (q.cells p).next in
    let kept = flush_loop fuel stay next (some p) q in
    let gone = flush_loop fuel stay next prev (link prev next (dunlink_reclaim p q)) in
    if stay p (q.cells p) then kept else gone

abbrev pub reset_tail : Option ℕ → Queue → Queue
reset_tail none q = record q { dunlink_tail = none }
reset_tail (some p) q = q

abbrev pub with_tail : Option Queue → Option Queue
with_tail none = none
with_tail (some q) = some (reset_tail q.dunlink_head q)

-- `flush_deferred_unlinks (false)`
unfoldable pub flush_deferred_unlinks : ℕ → ℕ → (ℕ → DeferredUnlink → Answer) → Queue → Option Queue
unfolding stays flush_loop
flush_deferred_unlinks fuel records_written unlinkat q =
    with_tail (flush_loop fuel (stays false records_written unlinkat) q.dunlink_head none q)
