-- ===== src/Create/Start/Names.antt =====
-- The fields `uname` and `gname` of a member's header, in the GNU formats, as a reader takes them.
use tar.Base.{
  ℕ, zero, suc, ◌+◌, ◌≤◌, ◌<◌, ◌≡◌, refl, ◌∙◌, ap, subst, arith, Bool, true, false, ◌||◌, Option,
  none, some, List, [], ◌∷◌, length, take, drop, All, get_or, leb, ◌==◌, if◌then◌else◌, inl, inr,
  Bool-cases,
}
use tar.Base.Put.{put}
use tar.Base.Text.{Bytes}
use tar.Base.Words.{IsByte}
use tar.Stream.{Block}
use tar.Field.{Format}
use tar.Field.Encode.{string_to_chars, gnu_format}
use tar.Reader.Fields.{field, cstring}
use tar.Reader.Decode.{id_or, owner_id, string_of}
use tar.Pax.Keyword.{no_nul}
use tar.Create.ByteFields.{IsHeader, field-IsByte, length-field, string_to_chars-IsByte}
use tar.Create.Strings.{cstring-string_to_chars, length-string_to_chars}
use tar.Create.Writes.{Writes, put-Writes}
use tar.Create.Touches.{Touches, Touches-refl, Touches-join, Writes-Touches}
use tar.Create.Start.{Draft, Options, name_or, is_v7, put_names, put_owner_names}
use tar.Create.Start.Steps.{gnu_format-not_posix}

get_or-cstring : (xs : Bytes) → (get_or xs 0 0 == 0) ≡ leb (length (cstring xs)) 0
get_or-cstring [] = refl
get_or-cstring (x ∷ xs) = ground arith

-- A string that ends in a field is the string that begins there.
cstring-take :
    (n : ℕ) (xs : Bytes) → length (cstring (take n xs)) < n → cstring xs ≡ cstring (take n xs)
cstring-take zero xs h = absurd (omega arith)
cstring-take (suc n) [] h = refl
cstring-take (suc n) (x ∷ xs) h = ground (arith, cstring-take n xs)

-- A name that a field of 32 bytes holds.
pub record NameFits (name : Bytes) : Type 0 where
  pub plain : no_nul name ≡ true
  pub fits : length name ≤ 31
  pub bytes : All IsByte name

-- What the name gives: nothing if it is empty.
abbrev pub named : Bytes → Option Bytes
named [] = none
named (c ∷ s) = some (c ∷ s)

abbrev pub named_id : Bool → (Bytes → Option ℕ) → Bytes → ℕ → ℕ
named_id numeric find name id = if numeric || leb (length name) 0 then id else id_or (find name) id

string_of-cstring : (xs : Bytes) → string_of xs ≡ named (cstring xs)
string_of-cstring [] = refl
string_of-cstring (x ∷ xs) = ground arith

-- The field at `o` holds the name.
pub record HoldsName (o : ℕ) (name : Bytes) (h : Block) : Type 0 where
  pub string : string_of (field o 32 h) ≡ named name
  pub id :
      (numeric : Bool) (find : Bytes → Option ℕ) (id : ℕ)
      → owner_id numeric find (drop o h) id ≡ named_id numeric find name id

pub cstring-HoldsName :
    (o : ℕ) (name : Bytes) (h : Block)
    → cstring (field o 32 h) ≡ name
    → length name ≤ 31
    → HoldsName o name h
unfolding owner_id
cstring-HoldsName o name h e short =
    let behind : cstring (drop o h) ≡ name =
      cstring-take 32 (drop o h) (omega (arith, ap length e)) ∙ e in
    record {
      string = string_of-cstring (field o 32 h) ∙ ap named e;
      id = λ numeric find id.
          rw (get_or-cstring (drop o h)) (ap (λ (s : Bytes). named_id numeric find s id) behind);
    }

name-Writes :
    (o : ℕ) (name : Bytes) (h : Block)
    → IsHeader h
    → o + 32 ≤ 512
    → NameFits name
    → Writes o 32
        (string_to_chars name (field o 32 h) 32)
        h
        (put o (string_to_chars name (field o 32 h) 32) h)
name-Writes o name h whole inside n =
    put-Writes o 32 _ h whole
      (length-string_to_chars name (field o 32 h) 32 ∙ length-field o 32 h whole inside)
      (string_to_chars-IsByte name (field o 32 h) 32 n.bytes (field-IsByte o 32 h whole)) inside

name-reads :
    (o : ℕ) (name : Bytes) (h : Block)
    → IsHeader h
    → o + 32 ≤ 512
    → NameFits name
    → cstring (field o 32 (put o (string_to_chars name (field o 32 h) 32) h)) ≡ name
name-reads o name h whole inside n =
    let size = length-field o 32 h whole inside in
    ap cstring (name-Writes o name h whole inside n).reads
    ∙ subst (λ (k : ℕ). cstring (string_to_chars name (field o 32 h) k) ≡ name) size
        (cstring-string_to_chars name (field o 32 h) n.plain (omega arith))

abbrev pub name_parts : List (ℕ × ℕ)
name_parts = (265, 32) ∷ (297, 32) ∷ []

-- The two names in the header of `d'`, which `put_owner_names` made of `d`.
pub record NamesRead (uname gname : Bytes) (d d' : Draft) : Type 0 where
  pub stored : d'.stored ≡ d.stored
  pub touches : Touches name_parts d.header d'.header
  pub uname_read : cstring (field 265 32 d'.header) ≡ uname
  pub gname_read : cstring (field 297 32 d'.header) ≡ gname

-- The name that goes to the header: none at all under `numeric_owner_option`.
abbrev pub owner_name : Options → Option Bytes → Bytes → Bytes
owner_name o mapped name = if o.numeric_owner_option then [] else name_or mapped name

module _ (f : Format) (gnu : gnu_format f ≡ true) (uname gname : Bytes) (d : Draft)
    (whole : IsHeader d.header) where
  put_names-NamesRead :
      NameFits uname → NameFits gname → NamesRead uname gname d (put_names f uname gname d)
  unfolding put_names
  put_names-NamesRead u g =
      let a = name-Writes 265 uname d.header whole (omega arith) u in
      let owned = put 265 (string_to_chars uname (field 265 32 d.header) 32) d.header in
      let b = name-Writes 297 gname owned a.whole (omega arith) g in
      rw (gnu_format-not_posix f gnu) record {
        stored = refl;
        touches =
            Touches-join ((265, 32) ∷ []) ((297, 32) ∷ []) _ _ _ (Writes-Touches 265 32 _ _ _ a)
              (Writes-Touches 297 32 _ _ _ b);
        uname_read =
            ap cstring (b.front 265 32 (omega arith))
            ∙ name-reads 265 uname d.header whole (omega arith) u;
        gname_read = name-reads 297 gname owned a.whole (omega arith) g;
      }

pub put_owner_names-NamesRead :
    (o : Options) (uid gid : ℕ) (uname gname : Option Bytes) (d : Draft)
    → gnu_format o.archive_format ≡ true
    → IsHeader d.header
    → cstring (field 265 32 d.header) ≡ []
    → cstring (field 297 32 d.header) ≡ []
    → NameFits (owner_name o uname (o.uid_to_uname uid))
    → NameFits (owner_name o gname (o.gid_to_gname gid))
    → NamesRead
        (owner_name o uname (o.uid_to_uname uid))
        (owner_name o gname (o.gid_to_gname gid))
        d
        (put_owner_names o (uid, uname) (gid, gname) d)
unfolding put_owner_names
put_owner_names-NamesRead o uid gid uname gname d gnu whole no_uname no_gname u g =
    let not_v7 : is_v7 o.archive_format ≡ false = is_v7-gnu o.archive_format gnu in
    rw not_v7 (elim (Bool-cases o.numeric_owner_option) [
      | inl numeric ↦ rw numeric record {
        stored = refl;
        touches = Touches-refl name_parts d.header whole;
        uname_read = no_uname;
        gname_read = no_gname;
      }
      | inr names ↦ rw names (
          put_names-NamesRead o.archive_format gnu _ _ d whole
            (subst (λ b. NameFits (if b then [] else name_or uname (o.uid_to_uname uid))) names u)
            (subst (λ b. NameFits (if b then [] else name_or gname (o.gid_to_gname gid))) names g))
    ])
  where
    is_v7-gnu : (f : Format) → gnu_format f ≡ true → is_v7 f ≡ false
    is_v7-gnu f g = ground arith
