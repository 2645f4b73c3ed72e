-- ===== src/OwnerMap/Lookup.antt =====
-- The table that `map_read` fills, against the entries of the file in their order.
use tar.Base.{
  ℕ, ◌≡◌, refl, sym, ◌∙◌, ap, arith, Bool, true, false, Option, none, some, List, [], ◌∷◌, ◌==◌,
  if◌then◌else◌, Option-cases, inl, inr,
}
use tar.Base.Text.{Bytes}
use tar.OwnerMap.{
  MapEntry, Line, empty, erroneous, mapping, read_words, HashTable, done, table_after, err_after,
  read_lines, map_read,
}

-- The entries of the lines, those that cannot be read left out.
abbrev pub line_entries : Line → List MapEntry → List MapEntry
line_entries (mapping e) es = e ∷ es
line_entries _ es = es

abbrev pub first_for : ℕ → List MapEntry → Option MapEntry
first_for k [] = none
first_for k (e ∷ es) = if k == e.orig_id then some e else first_for k es

-- The first of two answers.
abbrev or_else : Option MapEntry → Option MapEntry → Option MapEntry
or_else (some e) later = some e
or_else none later = later

settled : (o o' : Option MapEntry) → o ≡ o' → o ≡ or_else o' none
settled o none e = e
settled o (some m) e = e

module _ (h : HashTable) (split : Bytes → Option (List Bytes)) (name_to_id : Bytes → ℕ)
    (maxval : ℕ) where
  open h use {Table, hash_initialize, hash_insert, hash_lookup, lookup_initialize, lookup_insert}

  abbrev pub words_of : Bytes → List Bytes
  words_of buf = elim (split buf) [ none ↦ [] | some words ↦ words ]

  abbrev pub entries : List Bytes → List MapEntry
  entries [] = []
  entries (buf ∷ lines) = line_entries (read_words name_to_id maxval (words_of buf)) (entries lines)

  lookup-insert_or :
      (k : ℕ) (e : MapEntry) (t : Table) (later : Option MapEntry)
      → or_else (hash_lookup k (hash_insert e t)) later
        ≡ or_else (hash_lookup k t) (if k == e.orig_id then some e else later)
  lookup-insert_or k e t later = elim (Option-cases (hash_lookup e.orig_id t)) [
    | inl absent ↦ ground (arith, lookup_insert k e t, absent)
    | inr (old, present) ↦ ground (arith, lookup_insert k e t, present)
  ]

  -- One line's step.
  lookup-table_after :
      (line : Line) (es : List MapEntry) (t : Table) (k : ℕ)
      → or_else (hash_lookup k (table_after h split name_to_id maxval line t)) (first_for k es)
        ≡ or_else (hash_lookup k t) (first_for k (line_entries line es))
  unfolding table_after
  lookup-table_after empty es t k = refl
  lookup-table_after erroneous es t k = refl
  lookup-table_after (mapping e) es t k = lookup-insert_or k e t (first_for k es)

  lookup-read_lines :
      (lines : List Bytes) (t t' : Table) (err : Bool) (k : ℕ)
      → read_lines h split name_to_id maxval lines t err ≡ done t'
      → hash_lookup k t' ≡ or_else (hash_lookup k t) (first_for k (entries lines))
  unfolding read_lines
  lookup-read_lines [] t t' true k e = cc
  lookup-read_lines [] t t' false k e =
      ap (λ (o : Option MapEntry). o) (settled (hash_lookup k t') (hash_lookup k t) (cc))
  lookup-read_lines (buf ∷ lines) t t' err k e = elim (Option-cases (split buf)) [
    | inl none_left ↦ ground (arith, none_left)
    | inr (words, split_up) ↦
        let line = read_words name_to_id maxval words in
        let r : read_lines h split name_to_id maxval lines
              (table_after h split name_to_id maxval line t)
              (err_after h split name_to_id maxval line err)
            ≡ done t' =
          ground (arith, split_up) in
        let later =
          lookup-read_lines lines (table_after h split name_to_id maxval line t) t'
            (err_after h split name_to_id maxval line err) k r in
        later
        ∙ lookup-table_after line (entries lines) t k
        ∙ ap
            (λ (w : List Bytes).
              or_else (hash_lookup k t)
                (first_for k (line_entries (read_words name_to_id maxval w) (entries lines))))
            (sym (ap (λ (o : Option (List Bytes)). elim o [ none ↦ [] | some ws ↦ ws ]) split_up))
  ]

  -- What a lookup gave before.
  abbrev pub lookup_before : ℕ → Option Table → Option MapEntry
  lookup_before k none = none
  lookup_before k (some ptab) = hash_lookup k ptab

  -- Where `map_read` does not end tar, a lookup in its table gives what the table of the map files
  -- before gave for the id, or else the first entry for it, in the order of the file's lines.
  pub lookup-map_read :
      (ptab : Option Table) (lines : List Bytes) (t : Table) (k : ℕ)
      → map_read h split name_to_id maxval ptab lines ≡ done t
      → hash_lookup k t ≡ or_else (lookup_before k ptab) (first_for k (entries lines))
  unfolding map_read
  lookup-map_read none lines t k e =
      lookup-read_lines lines hash_initialize t false k e
      ∙ ap (λ (o : Option MapEntry). or_else o (first_for k (entries lines))) (lookup_initialize k)
  lookup-map_read (some ptab) lines t k e = lookup-read_lines lines ptab t false k e
