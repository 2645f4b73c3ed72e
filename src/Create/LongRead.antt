-- ===== src/Create/LongRead.antt =====
-- What `read_header` makes of the blocks of `write_gnu_long_link`, and of a member's header.
use tar.Base.{
  ℕ, suc, ◌+◌, ◌-◌, ◌*◌, ◌^◌, ◌≤◌, ◌<◌, ◌≡◌, refl, sym, ◌∙◌, ap, arith, Bool, true, false, Option,
  some, List, [], ◌∷◌, ◌++◌, length, take, drop, length-append, replicate, ltb, leb, ◌==◌,
  if◌then◌else◌,
}
use tar.Base.Slices.{take-append_at, drop-append_at}
use tar.Base.Text.{Bytes}
use tar.Stream.{Block, block_size}
use tar.Field.{Format}
use tar.Header.{header_success, tar_checksum}
use tar.Reader.{
  ReadHeaderMode, is_raw, Long, Next, Info, bytes_of, idx_limit, Action, read_long, long_blocks,
  member_names, classify_special, classify_good, classify,
}
use tar.Reader.Fields.{typeflag, size_of, is_special, is_long}
use tar.Reader.Flat.{FlatRound, ended, continued, flat_long, flat_perform, flat_round}
use tar.Create.{long_link_header, long_link_loop, write_gnu_long_link}
use tar.Create.Private.{OwnerIsBytes, IsLongLink, long_link_header-IsLongLink}
use tar.Create.LongText.{HoldsText, long_link_loop-HoldsText}

-- A block that begins a member.
pub record BeginsMember (h : Block) : Type 0 where
  pub accepted : tar_checksum h false false ≡ header_success
  pub ordinary : is_special (typeflag h) ≡ false
  pub size_fits : size_of h < idx_limit

-- What is recorded of it.
abbrev pub seen : Block → Info → Info
seen h info = record info { st_size = size_of h; skipped = false }

pub flat_round-member :
    (strip : Bytes → Bytes × Bool) (mode : ReadHeaderMode) (next : Next) (info : Info) (h : Block)
    (bs : List Block)
    → BeginsMember h
    → flat_round strip mode next info (h ∷ bs)
      ≡ ended header_success (some h) (member_names strip h next (seen h info)) (h ∷ bs)
unfolding flat_round flat_perform classify classify_good
flat_round-member strip mode next info h bs m =
    let inside : leb idx_limit (size_of h) ≡ false = ground (arith, m.size_fits) in
    rw m.accepted (rw inside (rw m.ordinary refl))

-- A header of a long name.
classify-long :
    (strip : Bytes → Bytes × Bool) (mode : ReadHeaderMode) (next : Next) (info : Info) (h : Block)
    (size type : ℕ)
    → IsLongLink size type h
    → is_raw mode ≡ false
    → is_long type ≡ true
    → size < 8 ^ 11
    → classify strip mode h next info
      ≡ read_long
          (type == b'L')
          (long_blocks size)
          (record info { st_size = size; skipped = false })
unfolding classify classify_good classify_special
classify-long strip mode next info h size type l cooked long small =
    let inside : leb idx_limit size ≡ false = ground arith in
    let room : leb idx_limit (size + (2 * block_size - 1)) ≡ false = ground arith in
    rw l.accepted (rw l.size_kept (rw l.type_kept (rw inside (rw long (rw cooked (rw room refl))))))

-- The next header's name, in a text with its NUL and what stands behind.
pub record KeepsText (name : Bytes) (long : Long) : Type 0 where
  pub zeros : ℕ
  pub kept : long.text ≡ (name ++ (0 ∷ [])) ++ replicate zeros 0

abbrev pub store : Bool → Long → Next → Next
store true long next = record next { long_name = some long }
store false long next = record next { long_link = some long }

-- How a round over a long name ends.
pub record Behind (info : Info) (name : Bytes) (rest : List Block) (is_name : Bool) (next : Next)
    (r : FlatRound) : Type 0 where
  pub long : Long
  pub text : KeepsText name long
  pub info' : Info
  pub result : r ≡ continued (store is_name long next) info' rest
  pub no_eof : info'.unexpected_eofs ≡ info.unexpected_eofs

stored :
    (is_name : Bool) (long : Long) (next : Next)
    → (if is_name
        then record next { long_name = some long }
        else record next { long_link = some long })
      ≡ store is_name long next
stored true long next = refl
stored false long next = refl

flat_long-Behind :
    (name : Bytes) (is_name : Bool) (next : Next) (info : Info) (h : Block) (bs rest : List Block)
    → HoldsText (name ++ (0 ∷ [])) bs
    → Behind info name rest is_name next
        (flat_long is_name (long_blocks (length (name ++ (0 ∷ [])))) next info (h ∷ (bs ++ rest)))
unfolding flat_long
flat_long-Behind name is_name next info h bs rest t =
    let p = name ++ (0 ∷ []) in
    let k : long_blocks (length p) - 1 ≡ length bs = omega (arith, t.count) in
    let n = long_blocks (length p) - 1 in
    let none_missing : ltb (length (bs ++ rest)) n ≡ false =
      ground (arith, length-append bs rest) in
    let long : Long = record {
      text = bytes_of (take n (bs ++ rest));
      blocks = long_blocks (length p);
    } in
    let info' : Info = record info {
      skipped = true;
      unexpected_eofs = info.unexpected_eofs + (if ltb (length (bs ++ rest)) n then 1 else 0);
    } in
    record {
      long = long;
      text = record {
        zeros = t.zeros;
        kept = ap bytes_of (take-append_at n bs rest (sym k)) ∙ t.text;
      };
      info' = info';
      result =
          ap (λ (x : Next). continued x info' (drop n (bs ++ rest))) (stored is_name long next)
          ∙ ap (continued (store is_name long next) info') (drop-append_at n bs rest (sym k));
      no_eof = rw none_missing (omega arith);
    }

-- The blocks of a long name are read, and the blocks behind are left.
pub flat_round-write_gnu_long_link :
    (strip : Bytes → Bytes × Bool) (mode : ReadHeaderMode) (next : Next) (info : Info) (f : Format)
    (nobody : ℕ) (owner : Option (Bytes × Bytes)) (blocking room : ℕ) (name : Bytes) (type : ℕ)
    (rest : List Block)
    → is_raw mode ≡ false
    → is_long type ≡ true
    → OwnerIsBytes owner
    → 1 ≤ blocking
    → 1 ≤ room
    → length name + 1 < 8 ^ 11
    → Behind info name rest (type == b'L') next (
        flat_round strip mode next info
          (write_gnu_long_link f nobody owner blocking room name type ++ rest))
unfolding flat_round flat_perform write_gnu_long_link
flat_round-write_gnu_long_link strip mode next info f nobody owner blocking room name type rest
      cooked long bytes one_block some_room small =
    let p = name ++ (0 ∷ []) in
    let size : length p ≡ length name + 1 = length-append name (0 ∷ []) in
    let header = long_link_header f nobody owner (length p) type in
    let l =
      long_link_header-IsLongLink f nobody owner (length p) type bytes (ground arith)
        (omega arith) in
    let found =
      flat_long-Behind name (type == b'L') next
        (record info { st_size = length p; skipped = false }) header
        (long_link_loop (suc (length p)) blocking room p) rest
        (long_link_loop-HoldsText (suc (length p)) blocking room p (omega arith) one_block
          some_room) in
    record {
      long = found.long;
      text = found.text;
      info' = found.info';
      result =
          ap
            (λ (a : Action).
              flat_perform mode header next a
                (header ∷ (long_link_loop (suc (length p)) blocking room p ++ rest)))
            (classify-long strip mode next info header (length p) type l cooked long (omega arith))
          ∙ found.result;
      no_eof = found.no_eof;
    }
