-- ===== src/Create/SplitMost.antt =====
-- `write_ustar_long_name` takes every name that has a slash to split at.
use tar.Base.{
  ℕ, zero, suc, ◌+◌, ◌-◌, ◌≤◌, ◌≡◌, ◌≢◌, refl, sym, ◌∙◌, ap, arith, true, false, not, ◌&&◌, ◌||◌,
  none, length, get_or, leb, ltb, ◌==◌, ◌⊎◌, inl, inr, Bool-cases,
}
use tar.Base.Text.{Bytes, is_slash}
use tar.Create.{
  last_slash, split_length, split_long_name, write_ustar_long_name, name_field_size,
  prefix_field_size,
}
use tar.Create.Split.{last_slash_lem}

-- The name can be split at the slash at `i`: both parts fit, and neither is empty.
pub record CanSplit (i : ℕ) (name : Bytes) : Type 0 where
  pub positive : 1 ≤ i
  pub in_prefix : i ≤ 155
  pub slash : is_slash (get_or name i 0) ≡ true
  pub some_left : i + 2 ≤ length name
  pub in_name : length name ≤ i + 101

last_slash_last :
    (name : Bytes) (n i : ℕ) → i ≤ n → is_slash (get_or name i 0) ≡ true → i ≤ last_slash name n
unfolding last_slash
last_slash_last name zero i h slash = omega arith
last_slash_last name (suc n) i h slash = elim (Bool-cases (is_slash (get_or name (suc n) 0))) [
  | inl at ↦ rw at h
  | inr other ↦ let lower : i ≤ n = ground arith in rw other (last_slash_last name n i lower slash)
]

-- The length from which the search starts.
split_length_cases :
    (name : Bytes) (n : ℕ)
    → ((split_length name n ≡ 156) × (157 ≤ n))
      ⊎ ((split_length name n ≡ n - 1)
          ⊎ ((split_length name n ≡ n) × (is_slash (get_or name (n - 1) 0) ≡ false)))
unfolding split_length
split_length_cases name n = elim (Bool-cases (ltb (prefix_field_size + 1) n)) [
  | inl long ↦ rw long (inl (refl, ground arith))
  | inr short ↦ rw short (elim (Bool-cases (is_slash (get_or name (n - 1) 0))) [
    | inl at ↦ rw at (inr (inl refl))
    | inr other ↦ rw other (inr (inr (refl, refl)))
  ])
]

not_last :
    (name : Bytes) (i n : ℕ)
    → is_slash (get_or name i 0) ≡ true
    → is_slash (get_or name (n - 1) 0) ≡ false
    → i ≢ n - 1
not_last name i n slash other e =
    cc (sym slash ∙ ap (λ (k : ℕ). is_slash (get_or name k 0)) e ∙ other)

-- The place that is found leaves a name, and one that fits.
split_long_name-bounds :
    (name : Bytes) (i : ℕ)
    → CanSplit i name
    → (i ≤ split_long_name name (length name))
      × (split_long_name name (length name) + 2 ≤ length name)
unfolding split_long_name
split_long_name-bounds name i c =
    let n = length name in
    let found = last_slash_lem name (split_length name n - 1) in
    let last = last_slash_last name (split_length name n - 1) i in
    elim (split_length_cases name n) [
      | inl (long, more) ↦
          let above = last (omega (arith, c.in_prefix)) c.slash in (above, omega (arith, found.0))
      | inr (inl less) ↦
          let above = last (omega (arith, c.some_left)) c.slash in
          (above, omega (arith, found.0, c.some_left))
      | inr (inr (same, other)) ↦
          let above = last (omega (arith, c.some_left)) c.slash in
          let slash = found.1 (omega (arith, above, c.positive)) in
          (
            above,
            omega (
              arith,
              found.0,
              c.some_left,
              not_last name (last_slash name (split_length name n - 1)) n slash other,
            ),
          )
    ]

-- `write_ustar_long_name` refuses no name that has a slash with 1 to 155 bytes in front of it and 1
-- to 100 behind.
pub write_ustar_long_name-CanSplit :
    (name : Bytes) (i : ℕ) → CanSplit i name → write_ustar_long_name name ≢ none
unfolding write_ustar_long_name
write_ustar_long_name-CanSplit name i c e =
    let bounds = split_long_name-bounds name i c in
    let fits : ltb (prefix_field_size + name_field_size + 1) (length name) ≡ false =
      ground (arith, c.in_prefix, c.in_name) in
    let good : (split_long_name name (length name) == 0
          || not (
              ltb 0 (length name - split_long_name name (length name) - 1)
              && leb (length name - split_long_name name (length name) - 1) name_field_size))
        ≡ false =
      ground (arith, bounds.0, bounds.1, c.positive, c.in_name) in
    cc (rw good at (rw fits at e))
