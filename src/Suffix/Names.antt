-- ===== src/Suffix/Names.antt =====
-- Names that end in a suffix of the table.
use tar.Base.{
  ℕ, suc, ◌+◌, ◌-◌, ◌≡◌, ◌≢◌, refl, ◌∙◌, ap, arith, Bool, true, false, ◌&&◌, Option, none, some,
  List, [], ◌∷◌, ◌++◌, length, length-append, take, drop, ◌==◌, append_assoc,
}
use tar.Base.Text.{Bytes, codes, streq_iff}
use tar.Suffix.{
  Program, CompressionSuffix, compression_suffixes, last_dot, find_entry, starts_suffix,
  entry_behind, find_compression_suffix, set_compression_program_by_suffix, begins_with_t,
  stripped_length, strip_compression_suffix,
}

last_dot-append :
    (base s : Bytes) → last_dot s ≡ none → last_dot (base ++ (b'.' ∷ s)) ≡ some (length base)
unfolding last_dot
last_dot-append [] s h = rw h
last_dot-append (c ∷ base) s h = rw (last_dot-append base s h)

drop-append_dot : (base s : Bytes) → drop (suc (length base)) (base ++ (b'.' ∷ s)) ≡ s
drop-append_dot [] s = refl
drop-append_dot (c ∷ base) s = drop-append_dot base s

take-append_dot : (base s : Bytes) → take (length base) (base ++ s) ≡ base
take-append_dot [] s = refl
take-append_dot (c ∷ base) s = ap (λ (l : Bytes). c ∷ l) (take-append_dot base s)

drop-append_base : (base s : Bytes) → drop (length base) (base ++ s) ≡ s
drop-append_base [] s = refl
drop-append_base (c ∷ base) s = drop-append_base base s

-- What the table's suffixes have in common: no dot, and a first byte that starts a suffix.
is_plain : Bytes → Bool
is_plain s = elim (last_dot s) [ some i ↦ false | none ↦ starts_suffix s ]

is_plain-starts_suffix :
    (s : Bytes) → is_plain s ≡ true → (last_dot s ≡ none) × (starts_suffix s ≡ true)
unfolding is_plain
is_plain-starts_suffix s h = ground arith

every : (Bytes → Bool) → List CompressionSuffix → Bool
every test [] = true
every test (p ∷ ps) = test p.suffix && every test ps

compression_suffixes-is_plain : every is_plain compression_suffixes ≡ true
unfolding every is_plain last_dot starts_suffix
compression_suffixes-is_plain = refl

find_entry_sound :
    (test : Bytes → Bool) (table : List CompressionSuffix) (s : Bytes) (e : CompressionSuffix)
    → every test table ≡ true
    → find_entry table s ≡ some e
    → (test e.suffix ≡ true) × (e.suffix ≡ s)
unfolding find_entry every
find_entry_sound test [] s e all h = cc
find_entry_sound test (p ∷ ps) s e all h =
    ground (arith, streq_iff p.suffix s, find_entry_sound test ps s e)

found_behind :
    (base s : Bytes)
    → starts_suffix s ≡ true
    → entry_behind (base ++ (b'.' ∷ s)) (some (length base))
      ≡ (find_entry compression_suffixes s, length base)
unfolding entry_behind
found_behind base s h = rw (drop-append_dot base s, h)

-- The last suffix of a name, if the table has it.
find_compression_suffix-append :
    (base s : Bytes) (e : CompressionSuffix)
    → find_entry compression_suffixes s ≡ some e
    → find_compression_suffix (base ++ (b'.' ∷ s)) ≡ (some e, length base)
unfolding find_compression_suffix
find_compression_suffix-append base s e h =
    let sound =
      find_entry_sound is_plain compression_suffixes s e compression_suffixes-is_plain h in
    let plain = is_plain-starts_suffix s (rw sound.1 at sound.0) in
    ap (entry_behind (base ++ (b'.' ∷ s))) (last_dot-append base s plain.0)
    ∙ found_behind base s plain.1
    ∙ rw h

-- A name that ends in a dot and a suffix of the table chooses the program of the suffix, without a
-- warning, whatever stands in front of the dot and whatever program was the default.
pub set_compression_program-append :
    (base s : Bytes) (e : CompressionSuffix) (defprog : Option Program) (verbose : Bool)
    → find_entry compression_suffixes s ≡ some e
    → set_compression_program_by_suffix (base ++ (b'.' ∷ s)) defprog verbose ≡ (e.program, false)
unfolding set_compression_program_by_suffix
set_compression_program-append base s e defprog verbose h =
    rw (find_compression_suffix-append base s e h)

length_ne_zero : (base : Bytes) → base ≢ [] → (length base == 0) ≡ false
length_ne_zero [] ne = absurd (ne refl)
length_ne_zero (c ∷ base) ne = ground arith

length_tarred : (base : Bytes) → length (base ++ codes ".tar") ≡ length base + 4
length_tarred base = omega (arith, length-append base (codes ".tar"))

stripped_length-tar :
    (base s : Bytes) (e : CompressionSuffix)
    → begins_with_t e.suffix ≡ false
    → base ≢ []
    → stripped_length ((base ++ codes ".tar") ++ (b'.' ∷ s)) e (length (base ++ codes ".tar"))
      ≡ length base
unfolding stripped_length
stripped_length-tar base s e plain ne = rw (length_tarred base) (
    rw (less_four (length base)) (
      rw (append_assoc base (codes ".tar") (b'.' ∷ s)) (
        rw (drop-append_base base (codes ".tar" ++ (b'.' ∷ s))) (
          ground
            (arith, (streq_iff (codes ".tar") (codes ".tar")).1 refl, length_ne_zero base ne)))))
  where
    less_four : (n : ℕ) → n + 4 - 4 ≡ n
    less_four n = omega arith

-- A name that ends in `.tar` and a suffix of the table loses both, unless that suffix begins with
-- a `t` or nothing stands in front of them.
pub strip_compression_suffix-tar :
    (base s : Bytes) (e : CompressionSuffix)
    → find_entry compression_suffixes s ≡ some e
    → begins_with_t e.suffix ≡ false
    → base ≢ []
    → strip_compression_suffix ((base ++ codes ".tar") ++ (b'.' ∷ s)) ≡ some base
unfolding strip_compression_suffix
strip_compression_suffix-tar base s e h plain ne =
    rw (find_compression_suffix-append (base ++ codes ".tar") s e h) (
      rw (stripped_length-tar base s e plain ne) (
        rw (length_ne_zero base ne)
          (rw (append_assoc base (codes ".tar") (b'.' ∷ s)) (rw take-append_dot))))
