-- ===== src/OwnerMap/Runs.antt =====
-- A map file of two lines, with a list as the hash table.
use tar.Base.{
  ℕ, ◌≡◌, refl, Option, none, some, List, [], ◌∷◌, ◌==◌, if◌then◌else◌, Option-cases, inl, inr,
}
use tar.Base.Text.{Bytes, codes}
use tar.OwnerMap.{
  MapEntry, erroneous, HashTable, read_words, map_read, done, read_lines, table_after, err_after,
  first_field, second_field, second_name, join, split_colon, known_id,
}
use tar.OwnerMap.Lines.{read_words_plus}
use tar.OwnerMap.Lookup.{first_for, entries, lookup-map_read}

abbrev list_lookup : ℕ → List MapEntry → Option MapEntry
list_lookup k [] = none
list_lookup k (e ∷ t) = if k == e.orig_id then some e else list_lookup k t

abbrev insert_new : MapEntry → List MapEntry → Option MapEntry → List MapEntry
insert_new e t none = e ∷ t
insert_new e t (some old) = t

abbrev list_insert : MapEntry → List MapEntry → List MapEntry
list_insert e t = insert_new e t (list_lookup e.orig_id t)

lookup-list_insert :
    (k : ℕ) (e : MapEntry) (t : List MapEntry)
    → list_lookup k (list_insert e t) ≡ elim (list_lookup e.orig_id t) [
      | some old ↦ list_lookup k t
      | none ↦ if k == e.orig_id then some e else list_lookup k t
    ]
lookup-list_insert k e t = elim (Option-cases (list_lookup e.orig_id t)) [
  | inl absent ↦ rw absent refl
  | inr (old, present) ↦ rw present refl
]

abbrev list_table : HashTable
list_table = record {
  Table = List MapEntry;
  hash_initialize = [];
  hash_insert = list_insert;
  hash_lookup = list_lookup;
  lookup_initialize = λ k. refl;
  lookup_insert = lookup-list_insert;
}

read_words_plus_example :
    read_words (λ name. 7) 65535 (codes "joe" ∷ (b'+' ∷ codes "20") ∷ []) ≡ erroneous
read_words_plus_example = read_words_plus (λ name. 7) 65535 (codes "joe") (codes "20") refl

-- A splitter for lines that hold the names of two users, one byte each.
abbrev split_two : Bytes → Option (List Bytes)
split_two (a ∷ b ∷ []) = some ((a ∷ []) ∷ (b ∷ []) ∷ [])
split_two _ = none

-- The name of one byte is the user with its code.
abbrev first_byte : Bytes → ℕ
first_byte [] = 0
first_byte (c ∷ s) = c

abbrev two_lines : List Bytes
two_lines = codes "ab" ∷ codes "ac" ∷ []

abbrev read_table : List MapEntry
read_table = record { orig_id = b'a'; new_id = b'b'; new_name = some (codes "b") } ∷ []

two_lines_read : map_read list_table split_two first_byte 65535 none two_lines ≡ done read_table
unfolding map_read read_lines table_after err_after read_words first_field second_field second_name
    join known_id split_colon
two_lines_read = refl

lookup-map_read_example :
    list_lookup b'a' read_table
    ≡ first_for b'a' (entries list_table split_two first_byte 65535 two_lines)
lookup-map_read_example =
    lookup-map_read list_table split_two first_byte 65535 none two_lines read_table b'a'
      two_lines_read
