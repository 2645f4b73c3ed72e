-- ===== src/Reader/Rest.antt =====
-- What `read_header` leaves: the blocks that it has not used, from a header on.
use tar.Base.{
  ℕ, zero, suc, ◌+◌, ◌≤◌, ◌<◌, ◌≡◌, ◌≢◌, refl, sym, ◌∙◌, ap, subst, arith, Bool, none, some, List,
  [], ◌∷◌, length, take, drop, leb, ltb, All, both,
}
use tar.Base.Slices.{drop-drop}
use tar.Base.Text.{Bytes}
use tar.Stream.{Block, block_size, Input, pending}
use tar.Reader.{
  Next, Info, bytes_of, idx_limit, Action, return, read_long, read_extended, read_global, no_memory,
  classify, Round, stop, again, fatal_eof, xalloc_die, round_out_of_fuel, read_header_auto,
  read_header,
}
use tar.Reader.Blocks.{IsBlock}
use tar.Reader.Extended.{blocks_for}
use tar.Reader.Flat.{
  FlatRound, ended, continued, eof_error, memory_error, exhausted, flat, flat_long, flat_xheader,
  use_extended, use_global, flat_perform, flat_round, flat_behind, flat_loop, Shrinks,
  flat_round-Shrinks, flat_loop_ends,
}
use tar.Reader.Refines.{no_next, flat-read_header}

-- A round that ends at a header ends at the first block.
abbrev EndsHere : List Block → FlatRound → Type 0
EndsHere bs (ended status (some header) info rest) = (rest ≡ bs) × (1 ≤ length bs)
EndsHere bs _ = Unit {0}

flat_xheader-EndsHere :
    (size : ℕ) (bs : List Block) (use_text : Bytes → List Block → FlatRound)
    → ((text : Bytes) (rest : List Block) → EndsHere bs (use_text text rest))
    → EndsHere bs (flat_xheader size bs use_text)
unfolding flat_xheader
flat_xheader-EndsHere size bs use_text h =
    let whole = size + block_size in
    both (EndsHere bs) (leb idx_limit (whole + 1)) tt (
      both (EndsHere bs) (ltb (length bs) (blocks_for whole)) tt
        (h (take whole (bytes_of bs)) (drop (blocks_for whole) bs)))

flat_perform-EndsHere :
    (header : Block) (next : Next) (a : Action) (bs : List Block)
    → EndsHere (header ∷ bs) (flat_perform read_header_auto header next a (header ∷ bs))
unfolding flat_perform flat_long
flat_perform-EndsHere header next (return status info) bs = (refl, omega arith)
flat_perform-EndsHere header next (read_long is_name k info) bs = tt
flat_perform-EndsHere header next (read_extended size info) bs =
    flat_xheader-EndsHere size (header ∷ bs) (use_extended next info) (λ text rest. tt)
flat_perform-EndsHere header next (read_global size info) bs =
    flat_xheader-EndsHere size (header ∷ bs) (use_global read_header_auto header next info)
      (λ text rest. tt)
flat_perform-EndsHere header next no_memory bs = tt

flat_round-EndsHere :
    (strip : Bytes → Bytes × Bool) (next : Next) (info : Info) (bs : List Block)
    → EndsHere bs (flat_round strip read_header_auto next info bs)
unfolding flat_round
flat_round-EndsHere strip next info [] = tt
flat_round-EndsHere strip next info (header ∷ bs) =
    flat_perform-EndsHere header next (classify strip read_header_auto header next info) bs

-- The loop ends at a header among the blocks, or without one.
abbrev Rests : List Block → FlatRound → Type 0
Rests bs (ended status (some header) info rest) = (k : ℕ) × (rest ≡ drop k bs) × (1 ≤ length rest)
Rests bs (continued next info rest) = ⊥
Rests bs _ = Unit {0}

Rests-drop : (j : ℕ) (bs : List Block) (r : FlatRound) → Rests (drop j bs) r → Rests bs r
Rests-drop j bs (ended status none info rest) h = tt
Rests-drop j bs (ended status (some header) info rest) (k, e, some_left) =
    (j + k, e ∙ drop-drop j k bs, some_left)
Rests-drop j bs (continued next info rest) h = h
Rests-drop j bs eof_error h = tt
Rests-drop j bs memory_error h = tt
Rests-drop j bs exhausted h = tt

flat_behind-Rests :
    (loop : Next → Info → List Block → FlatRound) (bs : List Block) (r : FlatRound)
    → Shrinks bs r
    → EndsHere bs r
    → ((next : Next) (info : Info) (bs' : List Block) → Rests bs' (loop next info bs'))
    → Rests bs (flat_behind loop r)
unfolding flat_behind
flat_behind-Rests loop bs (ended status none info rest) sh here h = tt
flat_behind-Rests loop bs (ended status (some header) info rest) sh here h =
    (0, here.0, omega (arith, ap length here.0, here.1))
flat_behind-Rests loop bs (continued next info rest) (k, e) here h =
    Rests-drop (suc k) bs (loop next info rest)
      (subst (λ (l : List Block). Rests l (loop next info rest)) e (h next info rest))
flat_behind-Rests loop bs eof_error sh here h = tt
flat_behind-Rests loop bs memory_error sh here h = tt
flat_behind-Rests loop bs exhausted sh here h = tt

flat_loop-Rests :
    (fuel : ℕ) (strip : Bytes → Bytes × Bool) (next : Next) (info : Info) (bs : List Block)
    → Rests bs (flat_loop fuel strip read_header_auto next info bs)
unfolding flat_loop
flat_loop-Rests zero strip next info bs = tt
flat_loop-Rests (suc fuel) strip next info bs =
    flat_behind-Rests (flat_loop fuel strip read_header_auto) bs
      (flat_round strip read_header_auto next info bs)
      (flat_round-Shrinks strip read_header_auto next info bs)
      (flat_round-EndsHere strip next info bs) (flat_loop-Rests fuel strip)

-- A round of the code that ends, at one of the blocks if it is at a header.
abbrev pub Within : List Block → Round → Type 0
Within bs (stop status (some header) info s) =
    (k : ℕ) × (pending s ≡ drop k bs) × (1 ≤ length (pending s))
Within bs (again next info s) = ⊥
Within bs round_out_of_fuel = ⊥
Within bs _ = Unit {0}

within : (bs : List Block) (r : Round) → Rests bs (flat r) → flat r ≢ exhausted → Within bs r
within bs (stop status none info s) h k = tt
within bs (stop status (some header) info s) h k = h
within bs (again next info s) h k = h
within bs fatal_eof h k = tt
within bs xalloc_die h k = tt
within bs round_out_of_fuel h k = k refl

pub read_header-Within :
    (fuel : ℕ) (strip : Bytes → Bytes × Bool) (info : Info) (s : Input)
    → All IsBlock (pending s)
    → length (pending s) < fuel
    → Within (pending s) (read_header fuel strip read_header_auto info s)
read_header-Within fuel strip info s blocks enough =
    let e = flat-read_header fuel strip read_header_auto info s blocks in
    within (pending s) (read_header fuel strip read_header_auto info s)
      (subst (Rests (pending s)) (sym e) (flat_loop-Rests fuel strip no_next info (pending s)))
      (λ out.
        flat_loop_ends fuel strip read_header_auto no_next info (pending s) enough (sym e ∙ out))
