-- ===== src/FileName/Prefix.antt =====
-- `zap_slashes` and `replace_prefix`, against what they do to a name as a whole.
use tar.Base.{
  ℕ, zero, suc, ◌-◌, ◌<◌, ◌≤◌, ◌≡◌, refl, sym, ◌∙◌, ap, arith, Bool, true, false, ◌&&◌, [], ◌∷◌,
  ◌++◌, length, length-append, take, drop, replicate, ltb, Bool-cases, inl, inr, ◌⊎◌,
  take-append-drop,
}
use tar.Base.Text.{Bytes, is_slash, streq, streq_iff}
use tar.FileName.{at, replace_prefix}

-- The bytes from `n` on begin with the byte at `n`.
drop-at : (n : ℕ) (name : Bytes) → n < length name → drop n name ≡ at name n ∷ drop (suc n) name
drop-at n [] h = elim h [ ]
drop-at zero (c ∷ name) h = refl
drop-at (suc n) (c ∷ name) h = drop-at n name (omega arith)

replace_prefix-match :
    (name samp repl : Bytes)
    → length samp < length name
    → streq (take (length samp) name) samp ≡ true
    → is_slash (at name (length samp)) ≡ true
    → (rest : Bytes) × (name ≡ samp ++ (b'/' ∷ rest))
      × (repl ++ drop (length samp) name ≡ repl ++ (b'/' ∷ rest))
replace_prefix-match name samp repl longer same slash =
    let rest : Bytes = drop (suc (length samp)) name in
    let tail : drop (length samp) name ≡ b'/' ∷ rest =
      drop-at (length samp) name longer ∙ ap (λ (c : ℕ). c ∷ rest) (ground arith) in
    (
      rest,
      sym (take-append-drop (length samp) name)
          ∙ rw ((streq_iff (take (length samp) name) samp).0 same, tail),
      ap (λ (l : Bytes). repl ++ l) tail,
    )

abbrev test : Bytes → Bytes → Bool
test name samp =
    ltb (length samp) (length name)
    && streq (take (length samp) name) samp
    && is_slash (at name (length samp))

-- Either `replace_prefix` leaves the name as it is, or the name consists of the prefix and a slash
-- with what follows, and the prefix alone is replaced.
pub replace_prefix_cases :
    (name samp repl : Bytes)
    → (replace_prefix name samp repl ≡ name)
      ⊎ ((rest : Bytes) × (name ≡ samp ++ (b'/' ∷ rest))
          × (replace_prefix name samp repl ≡ repl ++ (b'/' ∷ rest)))
unfolding replace_prefix
replace_prefix_cases name samp repl = elim (Bool-cases (test name samp)) [
  | inl match ↦
      let (rest, whole, changed) =
        replace_prefix-match name samp repl (ground arith) (ground arith) (ground arith) in
      inr (rest, whole, rw match changed)
  | inr other ↦ inl (rw other)
]

length_between : (samp : Bytes) (rest : Bytes) → length samp < length (samp ++ (b'/' ∷ rest))
length_between samp rest = omega (arith, length-append samp (b'/' ∷ rest))

take-append : (samp rest : Bytes) → take (length samp) (samp ++ rest) ≡ samp
take-append [] rest = refl
take-append (c ∷ samp) rest = ap (λ (l : Bytes). c ∷ l) (take-append samp rest)

drop-append : (samp rest : Bytes) → drop (length samp) (samp ++ rest) ≡ rest
drop-append [] rest = refl
drop-append (c ∷ samp) rest = drop-append samp rest

at-append : (samp rest : Bytes) (c : ℕ) → at (samp ++ (c ∷ rest)) (length samp) ≡ c
at-append [] rest c = refl
at-append (x ∷ samp) rest c = at-append samp rest c

-- `replace_prefix` replaces the prefix of every name that consists of it and a slash with what
-- follows.
pub replace_prefix-append :
    (samp repl rest : Bytes)
    → replace_prefix (samp ++ (b'/' ∷ rest)) samp repl ≡ repl ++ (b'/' ∷ rest)
unfolding replace_prefix
replace_prefix-append samp repl rest = rw (take-append samp (b'/' ∷ rest)) (
    rw (at-append samp rest b'/') (
      rw (drop-append samp (b'/' ∷ rest))
        (ground (arith, length_between samp rest, (streq_iff samp samp).1 refl))))

abbrev pub slashes : ℕ → Bytes
slashes k = replicate k b'/'

-- One byte, or a last byte that is no slash.
abbrev pub IsZapped : Bytes → Type 0
IsZapped r = (length r ≤ 1) ⊎ (is_slash (at r (length r - 1)) ≡ false)

abbrev pub Zaps : Bytes → Bytes → Type 0
Zaps name r = ((k : ℕ) × (name ≡ r ++ slashes k)) × IsZapped r
