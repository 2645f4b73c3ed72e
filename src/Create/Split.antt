-- ===== src/Create/Split.antt =====
-- `write_ustar_long_name` splits a name at a slash, and the parts make the name.
use tar.Base.{
  ℕ, zero, suc, ◌+◌, ◌-◌, ◌≤◌, ◌<◌, ◌≡◌, refl, sym, ◌∙◌, ap, arith, true, not, ◌&&◌, ◌||◌, none,
  some, [], ◌∷◌, ◌++◌, length, take, drop, get_or, length-take, length-drop, leb, ltb, ◌==◌, ==_iff,
  subst, inl, inr, Bool-cases,
}
use tar.Base.Put.{put, overwrite, drop-put, field-put_front}
use tar.Base.Text.{Bytes, is_slash}
use tar.Stream.{Block}
use tar.Create.{
  empty_block, last_slash, split_length, split_long_name, write_ustar_long_name, name_field_size,
  prefix_field_size,
}
use tar.Create.Strings.{field-put_at, cstring-overwrite}
use tar.Reader.Fields.{field, cstring}
use tar.Pax.Keyword.{no_nul}

-- The place that is found holds a slash, unless it is 0.
pub last_slash_lem :
    (name : Bytes) (n : ℕ)
    → (last_slash name n ≤ n)
      × (1 ≤ last_slash name n → is_slash (get_or name (last_slash name n) 0) ≡ true)
unfolding last_slash
last_slash_lem name zero = (omega arith, λ h. absurd (omega arith))
last_slash_lem name (suc n) =
    let ih = last_slash_lem name n in
    elim (Bool-cases (is_slash (get_or name (suc n) 0))) [
      | inl slash ↦ rw slash (omega arith, λ h. slash)
      | inr other ↦ rw other (omega (arith, ih.0), ih.1)
    ]

-- A name around the byte at `i`.
around :
    (name : Bytes) (i : ℕ)
    → i < length name
    → take i name ++ (get_or name i 0 ∷ drop (i + 1) name) ≡ name
around [] i h = absurd (omega arith)
around (c ∷ name) zero h = ap (λ (n : ℕ). c ∷ drop n (c ∷ name)) {x = 0 + 1} {y = 1} (omega arith)
around (c ∷ name) (suc i) h =
    ap (λ (n : ℕ). c ∷ (take i name ++ (get_or name i 0 ∷ drop n (c ∷ name)))) {x = suc i + 1}
      {y = suc (i + 1)} (omega arith)
    ∙ ap (λ (l : Bytes). c ∷ l) (around name i (omega arith))

pub split_length-le : (name : Bytes) (n : ℕ) → split_length name n ≤ prefix_field_size + 1
unfolding split_length
split_length-le name n = ground arith

pub split_long_name_lem :
    (name : Bytes) (n : ℕ)
    → (split_long_name name n ≤ prefix_field_size)
      × (1 ≤ split_long_name name n → is_slash (get_or name (split_long_name name n) 0) ≡ true)
unfolding split_long_name
split_long_name_lem name n =
    let found = last_slash_lem name (split_length name n - 1) in
    (omega (arith, found.0, split_length-le name n), found.1)

none-ne-some : {b : Block} → none ≡ some b → ⊥
none-ne-some e = cc

some-inj : {a b : Block} → some a ≡ some b → a ≡ b
some-inj e = cc

no_nul-take : (s : Bytes) (n : ℕ) → no_nul s ≡ true → no_nul (take n s) ≡ true
no_nul-take s zero h = refl
no_nul-take [] (suc n) h = refl
no_nul-take (c ∷ s) (suc n) h = ground (arith, no_nul-take s n)

no_nul-drop : (s : Bytes) (n : ℕ) → no_nul s ≡ true → no_nul (drop n s) ≡ true
no_nul-drop s zero h = h
no_nul-drop [] (suc n) h = refl
no_nul-drop (c ∷ s) (suc n) h = no_nul-drop s n (ground arith)

-- The two fields that a long name is split into.
pub record IsSplit (name : Bytes) (header : Block) : Type 0 where
  pub joined : cstring (field 345 155 header) ++ (b'/' ∷ cstring (field 0 100 header)) ≡ name
  pub nonempty : 1 ≤ length (cstring (field 345 155 header))

fields :
    (name : Bytes) (i : ℕ)
    → no_nul name ≡ true
    → 1 ≤ i
    → i ≤ prefix_field_size
    → is_slash (get_or name i 0) ≡ true
    → i < length name
    → length name ≤ i + 1 + name_field_size
    → IsSplit name (put 0 (drop (i + 1) name) (put 345 (take i name) empty_block))
fields name i plain pos short slash inside rest =
    let prefix : cstring
          (field 345 155 (put 0 (drop (i + 1) name) (put 345 (take i name) empty_block)))
        ≡ take i name =
      ap (λ (l : Bytes). cstring (take 155 l))
        (drop-put 345 0 (drop (i + 1) name) (put 345 (take i name) empty_block)
          (omega (arith, length-drop (i + 1) name)))
      ∙ ap cstring (field-put_at 345 155 (take i name) empty_block)
      ∙ cstring-overwrite (take i name) 155 (no_nul-take name i plain)
          (omega (arith, length-take i name)) in
    let last : cstring (field 0 100 (put 0 (drop (i + 1) name) (put 345 (take i name) empty_block)))
        ≡ drop (i + 1) name =
      ap cstring (field-put_at 0 100 (drop (i + 1) name) (put 345 (take i name) empty_block))
      ∙ ap (λ (l : Bytes). cstring (overwrite (drop (i + 1) name) l))
          (field-put_front 0 100 345 (take i name) empty_block (omega arith))
      ∙ cstring-overwrite (drop (i + 1) name) 100 (no_nul-drop name (i + 1) plain)
          (omega (arith, length-drop (i + 1) name)) in
    record {
      joined =
          ap
            (λ (l : Bytes).
              l
              ++ (b'/'
                  ∷ cstring (
                      field 0 100 (put 0 (drop (i + 1) name) (put 345 (take i name) empty_block)))))
            prefix
          ∙ ap (λ (l : Bytes). take i name ++ (b'/' ∷ l)) last
          ∙ ap (λ (c : ℕ). take i name ++ (c ∷ drop (i + 1) name))
              (sym ((==_iff (get_or name i 0) b'/').0 slash))
          ∙ around name i inside;
      nonempty = omega (arith, ap length prefix, length-take i name);
    }

-- Where `write_ustar_long_name` takes a name with no NUL, the two fields, read as C strings, make the
-- name with a slash between them, and the prefix is not empty.
pub write_ustar_long_name-IsSplit :
    (name : Bytes) (header : Block)
    → no_nul name ≡ true
    → write_ustar_long_name name ≡ some header
    → IsSplit name header
unfolding write_ustar_long_name
write_ustar_long_name-IsSplit name header plain e =
    let size = length name in
    let i = split_long_name name size in
    let found = split_long_name_lem name size in
    elim (Bool-cases (ltb (prefix_field_size + name_field_size + 1) size)) [
      | inl long ↦ absurd (none-ne-some (rw long at e))
      | inr fits ↦
          elim (Bool-cases
            (i == 0 || not (ltb 0 (size - i - 1) && leb (size - i - 1) name_field_size))) [
              | inl bad ↦ absurd (none-ne-some (rw bad at (rw fits at e)))
              | inr good ↦
                  let pos : 1 ≤ i = ground arith in
                  let inside : i < size = ground arith in
                  let rest : size ≤ i + 1 + name_field_size = ground arith in
                  subst (IsSplit name) (some-inj (rw good at (rw fits at e)))
                    (fields name i plain pos found.0 (found.1 pos) inside rest)
            ]
    ]
