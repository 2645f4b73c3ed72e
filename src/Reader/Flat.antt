-- ===== src/Reader/Flat.antt =====
-- What `read_header` does, on one list of blocks: a reference that knows of no records.
use tar.Base.{
  ℕ, zero, suc, ◌+◌, ◌-◌, ◌<◌, ◌≡◌, ◌≢◌, refl, sym, ap, ◌∙◌, subst, arith, inl, inr, Bool-cases,
  Bool, true, Option, none, some, List, [], ◌∷◌, ◌++◌, length, take, drop, length-drop, leb, ltb,
  if◌then◌else◌,
}
use tar.Base.Slices.{drop-drop}
use tar.Base.Text.{Bytes}
use tar.Stream.{Block, block_size, pending}
use tar.Header.{ReadHeader, header_success_extended, header_end_of_file}
use tar.Reader.{
  ReadHeaderMode, read_header_auto, read_header_x_raw, read_header_x_global, is_global, Long, Next,
  Info, bytes_of, idx_limit, Action, return, read_long, read_extended, read_global, no_memory,
  classify, Round, stop, again, fatal_eof, xalloc_die, round_out_of_fuel,
}
use tar.Reader.Extended.{blocks_for}

pub data FlatRound : Type 0 where
  ended : ReadHeader → Option Block → Info → List Block → FlatRound
  continued : Next → Info → List Block → FlatRound
  eof_error memory_error exhausted : FlatRound

-- A round of the code, without the records.
abbrev pub flat : Round → FlatRound
flat (stop status header info s) = ended status header info (pending s)
flat (again next info s) = continued next info (pending s)
flat fatal_eof = eof_error
flat xalloc_die = memory_error
flat round_out_of_fuel = exhausted

-- The blocks `bs` begin with the header.
unfoldable pub flat_long : Bool → ℕ → Next → Info → List Block → FlatRound
flat_long is_name blocks next info bs =
    let behind = drop 1 bs in
    let long : Long = record { text = bytes_of (take (blocks - 1) behind); blocks = blocks } in
    continued
      (if is_name
        then record next { long_name = some long }
        else record next { long_link = some long })
      (record info {
        skipped = true;
        unexpected_eofs =
            info.unexpected_eofs + (if ltb (length behind) (blocks - 1) then 1 else 0);
      })
      (drop (blocks - 1) behind)

-- The header and the `size` bytes behind it, for what is done with them and the blocks that follow.
unfoldable pub flat_xheader : ℕ → List Block → (Bytes → List Block → FlatRound) → FlatRound
flat_xheader size bs use_text =
    let whole = size + block_size in
    if leb idx_limit (whole + 1)
    then memory_error
    else if ltb (length bs) (blocks_for whole)
    then eof_error
    else use_text (take whole (bytes_of bs)) (drop (blocks_for whole) bs)

abbrev pub use_extended : Next → Info → Bytes → List Block → FlatRound
use_extended next info text rest =
    continued next (record info { xhdr = some text; skipped = true }) rest

abbrev pub use_global : ReadHeaderMode → Block → Next → Info → Bytes → List Block → FlatRound
use_global mode header next info text rest =
    let info' = record info {
      recent_global_header = some header;
      globals = info.globals ++ (text ∷ []);
      skipped = true;
    } in
    if is_global mode
    then ended header_success_extended (some header) info' rest
    else continued next info' rest

unfoldable pub flat_perform : ReadHeaderMode → Block → Next → Action → List Block → FlatRound
unfolding flat_long flat_xheader
flat_perform mode header next (return status info) bs = ended status (some header) info bs
flat_perform mode header next (read_long is_name blocks info) bs =
    flat_long is_name blocks next info bs
flat_perform mode header next (read_extended size info) bs =
    flat_xheader size bs (use_extended next info)
flat_perform mode header next (read_global size info) bs =
    flat_xheader size bs (use_global mode header next info)
flat_perform mode header next no_memory bs = memory_error

unfoldable pub flat_round :
    (Bytes → Bytes × Bool) → ReadHeaderMode → Next → Info → List Block → FlatRound
unfolding flat_perform
flat_round strip mode next info [] = ended header_end_of_file none info []
flat_round strip mode next info (header ∷ bs) =
    flat_perform mode header next (classify strip mode header next info) (header ∷ bs)

unfoldable pub flat_behind : (Next → Info → List Block → FlatRound) → FlatRound → FlatRound
flat_behind loop (ended status header info rest) = ended status header info rest
flat_behind loop (continued next info rest) = loop next info rest
flat_behind loop eof_error = eof_error
flat_behind loop memory_error = memory_error
flat_behind loop exhausted = exhausted

unfoldable pub flat_loop :
    ℕ → (Bytes → Bytes × Bool) → ReadHeaderMode → Next → Info → List Block → FlatRound
unfolding flat_behind
flat_loop zero strip mode next info bs = exhausted
flat_loop (suc fuel) strip mode next info bs =
    flat_behind (flat_loop fuel strip mode) (flat_round strip mode next info bs)

-- A round that goes on leaves fewer blocks, which end the ones before; and a round ends.
abbrev pub Shrinks : List Block → FlatRound → Type 0
Shrinks bs (ended status header info rest) = Unit {0}
Shrinks bs (continued next info rest) = (k : ℕ) × (rest ≡ drop (suc k) bs)
Shrinks bs eof_error = Unit {0}
Shrinks bs memory_error = Unit {0}
Shrinks bs exhausted = ⊥

flat_xheader-Shrinks :
    (size : ℕ) (bs : List Block) (use_text : Bytes → List Block → FlatRound)
    → ((text : Bytes) (k : ℕ) → Shrinks bs (use_text text (drop (suc k) bs)))
    → Shrinks bs (flat_xheader size bs use_text)
unfolding flat_xheader
flat_xheader-Shrinks size bs use_text h =
    let whole = size + block_size in
    let one : blocks_for whole ≡ suc (blocks_for whole - 1) = omega arith in
    elim (Bool-cases (leb idx_limit (whole + 1))) [
      | inl large ↦ rw large tt
      | inr room ↦ rw room (elim (Bool-cases (ltb (length bs) (blocks_for whole))) [
        | inl short ↦ rw short tt
        | inr long ↦ rw long (
            subst (λ (n : ℕ). Shrinks bs (use_text (take whole (bytes_of bs)) (drop n bs)))
              (sym one) (h (take whole (bytes_of bs)) (blocks_for whole - 1)))
      ])
    ]

use_global-Shrinks :
    (mode : ReadHeaderMode) (header : Block) (next : Next) (info : Info) (bs : List Block)
    (text : Bytes) (k : ℕ)
    → Shrinks bs (use_global mode header next info text (drop (suc k) bs))
use_global-Shrinks read_header_auto header next info bs text k = (k, refl)
use_global-Shrinks read_header_x_raw header next info bs text k = (k, refl)
use_global-Shrinks read_header_x_global header next info bs text k = tt

flat_perform-Shrinks :
    (mode : ReadHeaderMode) (header : Block) (next : Next) (a : Action) (bs : List Block)
    → Shrinks bs (flat_perform mode header next a bs)
unfolding flat_perform flat_long
flat_perform-Shrinks mode header next (return status info) bs = tt
flat_perform-Shrinks mode header next (read_long is_name k info) bs = (
  k - 1,
  drop-drop 1 (k - 1) bs
      ∙ ap (λ (n : ℕ). drop n bs) {x = 1 + (k - 1)} {y = suc (k - 1)} (omega arith),
)
flat_perform-Shrinks mode header next (read_extended size info) bs =
    flat_xheader-Shrinks size bs (use_extended next info) (λ text k. (k, refl))
flat_perform-Shrinks mode header next (read_global size info) bs =
    flat_xheader-Shrinks size bs (use_global mode header next info)
      (use_global-Shrinks mode header next info bs)
flat_perform-Shrinks mode header next no_memory bs = tt

pub flat_round-Shrinks :
    (strip : Bytes → Bytes × Bool) (mode : ReadHeaderMode) (next : Next) (info : Info)
    (bs : List Block)
    → Shrinks bs (flat_round strip mode next info bs)
unfolding flat_round
flat_round-Shrinks strip mode next info [] = tt
flat_round-Shrinks strip mode next info (header ∷ bs) =
    flat_perform-Shrinks mode header next (classify strip mode header next info) (header ∷ bs)

flat_behind_ends :
    (loop : Next → Info → List Block → FlatRound) (bs : List Block) (r : FlatRound)
    → Shrinks bs r
    → ((next : Next) (info : Info) (k : ℕ) → loop next info (drop (suc k) bs) ≢ exhausted)
    → flat_behind loop r ≢ exhausted
unfolding flat_behind
flat_behind_ends loop bs (ended status header info rest) sh h e = cc
flat_behind_ends loop bs (continued next info rest) (k, rest_of) h e =
    h next info k (sym (ap (loop next info) rest_of) ∙ e)
flat_behind_ends loop bs eof_error sh h e = cc
flat_behind_ends loop bs memory_error sh h e = cc
flat_behind_ends loop bs exhausted sh h e = sh

-- A round for every block, and one more, are enough.
pub flat_loop_ends :
    (fuel : ℕ) (strip : Bytes → Bytes × Bool) (mode : ReadHeaderMode) (next : Next) (info : Info)
    (bs : List Block)
    → length bs < fuel
    → flat_loop fuel strip mode next info bs ≢ exhausted
unfolding flat_loop
flat_loop_ends zero strip mode next info bs h = absurd (omega arith)
flat_loop_ends (suc fuel) strip mode next info [] h = unfold flat_round flat_behind in λ e. cc
flat_loop_ends (suc fuel) strip mode next info (b ∷ bs) h =
    flat_behind_ends (flat_loop fuel strip mode) (b ∷ bs) (flat_round strip mode next info (b ∷ bs))
      (flat_round-Shrinks strip mode next info (b ∷ bs))
      (λ next' info' k.
        flat_loop_ends fuel strip mode next' info' (drop k bs) (omega (arith, length-drop k bs)))
