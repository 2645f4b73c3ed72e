-- ===== src/OwnerMap.antt =====
-- The translation of owners and groups (src/map.c). A line of a map file is split into words by
-- lib/wordsplit.c, names are looked up in the host's database, and the table is gnulib's hash
-- table: these three are parameters.
pub mod Lines
pub mod Lookup
mod Runs
use tar.Base.{
  ℕ, zero, suc, ◌+◌, ◌-◌, ◌%◌, ◌^◌, ◌≡◌, Bool, true, false, not, ◌&&◌, ◌||◌, Option, none, some,
  List, [], ◌∷◌, length, ltb, leb, ◌==◌, if◌then◌else◌,
}
use tar.Base.Text.{Bytes}
use tar.Base.Words.{u64_mod}
use tar.Decimal.{Parsed, stoint}

-- `struct mapentry`
pub record MapEntry : Type 0 where
  pub orig_id : ℕ
  pub new_id : ℕ
  pub new_name : Option Bytes

pub data ParsedId : Type 0 where
  invalid out_of_range : ParsedId
  id : ℕ → ParsedId

-- `parse_id`, whose diagnostics are told apart by the result.
unfoldable pub id_of : Bytes → Parsed → ParsedId
id_of arg parsed =
    if length parsed.arglim == length arg || not (length parsed.arglim == 0)
    then invalid
    else if parsed.overflow
    then out_of_range
    else id parsed.value

unfoldable pub parse_id : Bytes → ℕ → ParsedId
parse_id arg maxval = id_of arg (stoint arg 0 maxval)

-- What `name_to_id` returns for a name that it does not know.
abbrev pub no_id : ℕ
no_id = u64_mod - 1

-- `strchr (s, ':')`: what stands in front of the colon, and behind it.
unfoldable pub split_colon : Bytes → Option (Bytes × Bytes)
split_colon [] = none
split_colon (c ∷ s) =
    let more = split_colon s in
    if c == b':'
    then some ([], s)
    else elim more [ none ↦ none | some (before, behind) ↦ some (c ∷ before, behind) ]

abbrev pub has_plus : Bytes → Bool
has_plus [] = false
has_plus (c ∷ s) = c == b'+'

abbrev pub tail : Bytes → Bytes
tail [] = []
tail (c ∷ s) = s

abbrev pub unless_empty : Bytes → Option Bytes
unless_empty [] = none
unless_empty (c ∷ s) = some (c ∷ s)

-- An id by name.
unfoldable pub known_id : ℕ → Option ℕ
known_id n = if n == no_id then none else some n

-- An id by number.
unfoldable pub numeric_id : ParsedId → Option ℕ
numeric_id (id n) = some n
numeric_id _ = none

pub data Line : Type 0 where
  empty erroneous : Line
  mapping : MapEntry → Line

-- What a line gives once both of its fields are known.
unfoldable pub join : Option ℕ → Option ℕ → Option Bytes → Line
join none new_id name = erroneous
join (some orig) none name = erroneous
join (some orig) (some new) name =
    mapping (record { orig_id = orig; new_id = new; new_name = name })

module _ (name_to_id : Bytes → ℕ) (maxval : ℕ) where
  unfoldable pub first_field : Bytes → Option ℕ
  first_field word =
      if has_plus word then numeric_id (parse_id (tail word) maxval) else known_id (name_to_id word)

  -- The id that the second word gives; with a plus sign the word is parsed whole.
  unfoldable pub second_field : Bytes → Option (Bytes × Bytes) → Option ℕ
  second_field word (some (before, behind)) = numeric_id (parse_id behind maxval)
  second_field word none =
      if has_plus word then numeric_id (parse_id word maxval) else known_id (name_to_id word)

  unfoldable pub second_name : Bytes → Option (Bytes × Bytes) → Option Bytes
  second_name word (some (before, behind)) = unless_empty before
  second_name word none = if has_plus word then none else some word

  -- The body of the loop of `map_read`, for the words of the line.
  unfoldable pub read_words : List Bytes → Line
  read_words [] = empty
  read_words (from ∷ []) = erroneous
  read_words (from ∷ to ∷ []) =
      let colon = split_colon to in
      join (first_field from) (second_field to colon) (second_name to colon)
  read_words (from ∷ to ∷ more ∷ words) = erroneous

-- gnulib's hash table, with `map_hash` and `map_compare`: an entry whose key is there already is
-- not inserted.
pub record HashTable : Type 1 where
  pub Table : Type 0
  pub hash_initialize : Table
  pub hash_insert : MapEntry → Table → Table
  pub hash_lookup : ℕ → Table → Option MapEntry
  pub lookup_initialize : (k : ℕ) → hash_lookup k hash_initialize ≡ none
  pub lookup_insert :
      (k : ℕ) (e : MapEntry) (t : Table)
      → hash_lookup k (hash_insert e t) ≡ elim (hash_lookup e.orig_id t) [
        | some old ↦ hash_lookup k t
        | none ↦ if k == e.orig_id then some e else hash_lookup k t
      ]

-- `map_read` ends tar where a line cannot be split, and behind the last line if one was wrong.
pub data MapRead (A : Type 0) : Type 0 where
  fatal_split fatal_errors : MapRead A
  done : A → MapRead A

module _ (h : HashTable) (split : Bytes → Option (List Bytes)) (name_to_id : Bytes → ℕ)
    (maxval : ℕ) where
  open h use {Table, hash_initialize, hash_insert, hash_lookup}

  -- A line's effect on the table and on `err`.
  unfoldable pub table_after : Line → Table → Table
  table_after (mapping e) t = hash_insert e t
  table_after _ t = t

  unfoldable pub err_after : Line → Bool → Bool
  err_after erroneous err = true
  err_after _ err = err

  unfoldable pub read_lines : List Bytes → Table → Bool → MapRead Table
  read_lines [] t err = if err then fatal_errors else done t
  read_lines (buf ∷ lines) t err = elim (split buf) [
    | none ↦ fatal_split
    | some words ↦
        let line = read_words name_to_id maxval words in
        read_lines lines (table_after line t) (err_after line err)
  ]

  -- `*ptab`: the table of the map files before, or null. A table is made with the first entry.
  abbrev pub table_or_new : Option Table → Table
  table_or_new none = hash_initialize
  table_or_new (some ptab) = ptab

  unfoldable pub map_read : Option Table → List Bytes → MapRead Table
  map_read ptab lines = read_lines lines (table_or_new ptab) false

  -- `owner_map_translate` and `group_map_translate`: the id and name afterwards, for those before
  -- and for the options. The option's id is -1 where it is not given.
  unfoldable pub map_translate : Table → ℕ → Option Bytes → ℕ → ℕ × Option Bytes → ℕ × Option Bytes
  map_translate owner_map owner_option owner_name_option uid (new_uid, new_name) =
      elim (hash_lookup uid owner_map) [
        | some res ↦ (res.new_id % 2 ^ 32, res.new_name)
        | none ↦ (
          (if owner_option == 2 ^ 32 - 1 then new_uid else owner_option),
          elim owner_name_option [ none ↦ new_name | some name ↦ some name ],
        )
      ]
