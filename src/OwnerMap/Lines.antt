-- ===== src/OwnerMap/Lines.antt =====
-- Lines of a map file: what a well-formed one gives, and a form that is never accepted.
use tar.Base.{
  ℕ, ◌≤◌, ◌<◌, ◌≡◌, refl, sym, ◌∙◌, ap, arith, Bool, true, false, not, ◌&&◌, Option, none, some, [],
  ◌∷◌, ◌++◌, append-nil, ◌==◌,
}
use tar.Base.Text.{Bytes}
use tar.Base.Words.{u64_mod}
use tar.Decimal.{stoint, DecimalPrinter}
use tar.Decimal.Parse.{stoint-to_str}
use tar.OwnerMap.{
  id, invalid, id_of, parse_id, split_colon, numeric_id, unless_empty, mapping, erroneous, join,
  first_field, second_field, second_name, read_words,
}

parse_id-to_str :
    (printer : DecimalPrinter) (n maxval : ℕ)
    → n < u64_mod
    → n ≤ maxval
    → parse_id (printer.to_str n) maxval ≡ id n
unfolding parse_id id_of
parse_id-to_str printer n maxval w top =
    let read : stoint (printer.to_str n) 0 maxval
        ≡ record { value = n; arglim = []; overflow = false } =
      ap (λ (s : Bytes). stoint s 0 maxval) (sym (append-nil (printer.to_str n)))
      ∙ stoint-to_str printer n maxval [] w top refl in
    rw read (ground (arith, printer.to_str_nonempty n))

abbrev no_colon : Bytes → Bool
no_colon [] = true
no_colon (c ∷ s) = not (c == b':') && no_colon s

split_colon-append :
    (name s : Bytes) → no_colon name ≡ true → split_colon (name ++ (b':' ∷ s)) ≡ some (name, s)
unfolding split_colon
split_colon-append [] s h = refl
split_colon-append (c ∷ name) s h = ground (arith, split_colon-append name s)

split_colon-none : (word : Bytes) → no_colon word ≡ true → split_colon word ≡ none
unfolding split_colon
split_colon-none [] h = refl
split_colon-none (c ∷ word) h = ground (arith, split_colon-none word)

-- A line of a numeric id with a plus sign and of a name and a numeric id with a colon between them
-- gives the entry that it states, whatever names the host's database holds. Both ids are at most
-- `maxval`, and the name has no colon.
pub read_words-numbers :
    (printer : DecimalPrinter) (name_to_id : Bytes → ℕ) (maxval orig new : ℕ) (name : Bytes)
    → orig < u64_mod
    → new < u64_mod
    → orig ≤ maxval
    → new ≤ maxval
    → no_colon name ≡ true
    → read_words name_to_id maxval
        ((b'+' ∷ printer.to_str orig) ∷ (name ++ (b':' ∷ printer.to_str new)) ∷ [])
      ≡ mapping (record { orig_id = orig; new_id = new; new_name = unless_empty name })
unfolding read_words first_field second_field second_name join numeric_id
read_words-numbers printer name_to_id maxval orig new name wo wn ho hn plain =
    rw (split_colon-append name (printer.to_str new) plain) (
      rw (parse_id-to_str printer orig maxval wo ho)
        (rw (parse_id-to_str printer new maxval wn hn)))

parse_id_plus : (s : Bytes) (maxval : ℕ) → parse_id (b'+' ∷ s) maxval ≡ invalid
unfolding parse_id id_of
parse_id_plus s maxval = unfold stoint in ground arith

join-none : (o : Option ℕ) → join o none none ≡ erroneous
unfolding join
join-none none = refl
join-none (some n) = refl

-- A second word that begins with a plus sign, a form that the manual allows, makes the line
-- erroneous if no colon follows the sign: the sign is handed to the number reader with it.
pub read_words_plus :
    (name_to_id : Bytes → ℕ) (maxval : ℕ) (from s : Bytes)
    → no_colon s ≡ true
    → read_words name_to_id maxval (from ∷ (b'+' ∷ s) ∷ []) ≡ erroneous
unfolding read_words second_field second_name numeric_id
read_words_plus name_to_id maxval from s plain =
    rw (split_colon-none (b'+' ∷ s) plain)
      (rw (parse_id_plus s maxval) (join-none (first_field name_to_id maxval from)))
