-- ===== src/FileName/Components.antt =====
-- Normalising a file name keeps the components that it names, and whether it is absolute.
use tar.Base.{
  ℕ, zero, suc, ◌+◌, ◌≤◌, ◌≡◌, refl, ◌∙◌, ap, arith, Bool, true, List, [], ◌∷◌, ◌++◌, length,
  length-drop, drop, ◌==◌, if◌then◌else◌,
}
use tar.Base.Text.{Bytes, is_slash}
use tar.FileName.{at, slashlen, dotslash_loop, dotslashlen, pass, copy_loop}

-- A finished component, unless it is empty or ".".
abbrev pub finished : Bytes → List Bytes
finished [] = []
finished (c ∷ []) = if c == b'.' then [] else (c ∷ []) ∷ []
finished (c ∷ d ∷ cs) = (c ∷ d ∷ cs) ∷ []

-- The components of a name: the parts between slashes, without the empty ones and ".".
unfoldable pub components_from : Bytes → Bytes → List Bytes
components_from word [] = finished word
components_from word (c ∷ cs) =
    if is_slash c
    then finished word ++ components_from [] cs
    else components_from (word ++ (c ∷ [])) cs

abbrev pub components : Bytes → List Bytes
components = components_from []

abbrev pub is_absolute : Bytes → Bool
is_absolute s = is_slash (at s 0)

components-slashlen : (q : Bytes) → components (drop (slashlen q) q) ≡ components q
unfolding slashlen components_from
components-slashlen [] = refl
components-slashlen (c ∷ q) = ground (arith, components-slashlen q)

pub drop-add : (a b : ℕ) (xs : Bytes) → drop (a + b) xs ≡ drop b (drop a xs)
drop-add zero b xs = ap (λ (n : ℕ). drop n xs) {y = b} (omega arith)
drop-add (suc a) zero [] = ap (λ (n : ℕ). drop n []) {y = suc a} (omega arith)
drop-add (suc a) (suc b) [] = ap (λ (n : ℕ). drop n []) {y = suc (a + suc b)} (omega arith)
drop-add (suc a) b (x ∷ xs) =
    ap (λ (n : ℕ). drop n (x ∷ xs)) {y = suc (a + b)} (omega arith) ∙ drop-add a b xs

components_dot_slash :
    (q : Bytes)
    → (at q 0 == b'.') ≡ true
    → is_slash (at q 1) ≡ true
    → components (drop 2 q) ≡ components q
unfolding components_from
components_dot_slash [] h k = cc
components_dot_slash (c ∷ []) h k = cc
components_dot_slash (c ∷ d ∷ q) h k = ground arith

pub components-dotslash_loop :
    (fuel : ℕ) (q : Bytes) → components (drop (dotslash_loop fuel q) q) ≡ components q
unfolding dotslash_loop
components-dotslash_loop zero q = refl
components-dotslash_loop (suc fuel) q =
    let r = drop 2 q in
    let step = 2 + slashlen r in
    ground (
      arith,
      drop-add 2 (slashlen r) q,
      drop-add step (dotslash_loop fuel (drop step q)) q,
      components-dotslash_loop fuel (drop step q),
      components-slashlen r,
      components_dot_slash q,
    )

pub components-pass : (q : Bytes) → components (pass q) ≡ components q
unfolding pass dotslashlen
components-pass q =
    components-dotslash_loop (length (drop (slashlen q) q)) (drop (slashlen q) q)
    ∙ components-slashlen q

pub length-pass : (q : Bytes) → length (pass q) ≤ length q
unfolding pass
length-pass q =
    let behind = drop (slashlen q) q in
    omega (arith, length-drop (dotslashlen behind) behind, length-drop (slashlen q) q)

pub components-copy_loop :
    (fuel : ℕ) (word q : Bytes)
    → length q ≤ fuel
    → components_from word (copy_loop fuel q) ≡ components_from word q
unfolding copy_loop components_from
components-copy_loop zero word [] h = refl
components-copy_loop zero word (c ∷ q) h = absurd (omega arith)
components-copy_loop (suc fuel) word [] h = refl
components-copy_loop (suc fuel) word (c ∷ q) h = ground (
  arith,
  length-pass q,
  components-pass q,
  components-copy_loop fuel [] (pass q),
  components-copy_loop fuel (word ++ (c ∷ [])) q,
)
