-- ===== src/FileName/Normal.antt =====
-- `normalize_filename_x` as a whole: the same components, and absolute exactly when its argument is.
use mathlib.Core.List.{append-nil}
use tar.Base.{
  ℕ, zero, suc, ◌+◌, ◌-◌, ◌≡◌, refl, sym, ◌∙◌, ap, arith, Bool, true, false, ◌&&◌, [], ◌∷◌, ◌++◌,
  length, take, drop, ltb, ◌==◌, if◌then◌else◌,
}
use tar.Base.Text.{Bytes, is_slash}
use tar.FileName.{
  at, slashlen, dotslash_loop, dotslashlen, copy_loop, trim_dot, trim_slash, trim, copy_start,
  normalize_filename_x,
}
use tar.FileName.Components.{
  components, components_from, finished, is_absolute, components-dotslash_loop,
  components-copy_loop, drop-add,
}

-- A name by its last byte, and by its last two.
last_view :
    (x : ℕ) (xs : Bytes) → x ∷ xs ≡ take (length xs) (x ∷ xs) ++ (at (x ∷ xs) (length xs) ∷ [])
last_view x [] = refl
last_view x (y ∷ ys) = ap (λ (l : Bytes). x ∷ l) (last_view y ys)

last_two_view :
    (x y : ℕ) (ys : Bytes)
    → x ∷ y ∷ ys
      ≡ take (length ys) (x ∷ y ∷ ys)
        ++ (at (x ∷ y ∷ ys) (length ys) ∷ at (x ∷ y ∷ ys) (suc (length ys)) ∷ [])
last_two_view x y [] = refl
last_two_view x y (z ∷ zs) = ap (λ (l : Bytes). x ∷ l) (last_two_view y z zs)

take_view :
    (x y : ℕ) (ys : Bytes)
    → take (suc (length ys)) (x ∷ y ∷ ys)
      ≡ take (length ys) (x ∷ y ∷ ys) ++ (at (x ∷ y ∷ ys) (length ys) ∷ [])
take_view x y [] = refl
take_view x y (z ∷ zs) = ap (λ (l : Bytes). x ∷ l) (take_view y z zs)

components_trailing_dot :
    (xs word : Bytes) (s d : ℕ)
    → is_slash s ≡ true
    → (d == b'.') ≡ true
    → components_from word (xs ++ (s ∷ [])) ≡ components_from word (xs ++ (s ∷ d ∷ []))
unfolding components_from
components_trailing_dot [] word s d h k = ground arith
components_trailing_dot (x ∷ xs) word s d h k = ground (
  arith,
  components_trailing_dot xs [] s d h k,
  components_trailing_dot xs (word ++ (x ∷ [])) s d h k,
)

components_trailing_slash :
    (xs word : Bytes) (s : ℕ)
    → is_slash s ≡ true
    → components_from word xs ≡ components_from word (xs ++ (s ∷ []))
unfolding components_from
components_trailing_slash [] word s h = rw h (sym (append-nil (finished word)))
components_trailing_slash (x ∷ xs) word s h = ground (
  arith,
  components_trailing_slash xs [] s h,
  components_trailing_slash xs (word ++ (x ∷ [])) s h,
)

less_one : (n : ℕ) → suc n - 1 ≡ n
less_one n = omega arith

less_two : (n : ℕ) → suc (suc n) - 2 ≡ n
less_two n = omega arith

without_dot :
    (x y : ℕ) (ys : Bytes)
    → (at (x ∷ y ∷ ys) (suc (length ys)) == b'.') ≡ true
    → is_slash (at (x ∷ y ∷ ys) (length ys)) ≡ true
    → components (take (suc (length ys)) (x ∷ y ∷ ys)) ≡ components (x ∷ y ∷ ys)
without_dot x y ys dot slash =
    let o = x ∷ y ∷ ys in
    ap components (take_view x y ys)
    ∙ components_trailing_dot (take (length ys) o) [] (at o (length ys)) (at o (suc (length ys)))
        slash dot
    ∙ sym (ap components (last_two_view x y ys))

without_slash :
    (x : ℕ) (xs : Bytes)
    → is_slash (at (x ∷ xs) (length xs)) ≡ true
    → components (take (length xs) (x ∷ xs)) ≡ components (x ∷ xs)
without_slash x xs slash =
    components_trailing_slash (take (length xs) (x ∷ xs)) [] (at (x ∷ xs) (length xs)) slash
    ∙ sym (ap components (last_view x xs))

components-either :
    (b : Bool) (o o' : Bytes)
    → (b ≡ true → components o' ≡ components o)
    → components (if b then o' else o) ≡ components o
components-either true o o' h = h refl
components-either false o o' h = refl

components-trim_dot : (o : Bytes) → components (trim_dot o) ≡ components o
unfolding trim_dot
components-trim_dot [] = refl
components-trim_dot (x ∷ []) = ground arith
components-trim_dot (x ∷ y ∷ ys) =
    rw (less_one (suc (length ys)), less_two (length ys))
      (components-either
        (at (x ∷ y ∷ ys) (suc (length ys)) == b'.' && is_slash (at (x ∷ y ∷ ys) (length ys)))
        (x ∷ y ∷ ys) (take (suc (length ys)) (x ∷ y ∷ ys))
        (λ h. without_dot x y ys (ground arith) (ground arith)))

components-trim_slash : (o : Bytes) → components (trim_slash o) ≡ components o
unfolding trim_slash
components-trim_slash [] = refl
components-trim_slash (x ∷ xs) = rw (less_one (length xs)) (
    components-either (ltb 2 (length (x ∷ xs) + 1) && is_slash (at (x ∷ xs) (length xs))) (x ∷ xs)
      (take (length xs) (x ∷ xs)) (λ h. without_slash x xs (ground arith)))

components-trim : (o : Bytes) → components (trim o) ≡ components o
unfolding trim
components-trim o =
    components-either (ltb 2 (length o + 1)) o (trim_slash (trim_dot o))
      (λ h. components-trim_slash (trim_dot o) ∙ components-trim_dot o)

components-nothing : (q : Bytes) → (length q == 0) ≡ true → components (b'.' ∷ []) ≡ components q
unfolding components_from
components-nothing [] h = refl
components-nothing (c ∷ q) h = ground arith

components-dotslashlen :
    (name : Bytes) → components (drop (dotslashlen name) name) ≡ components name
unfolding dotslashlen
components-dotslashlen name = components-dotslash_loop (length name) name

components-copy_start : (name : Bytes) → components (copy_start name) ≡ components name
unfolding copy_start
components-copy_start name =
    let q = drop (dotslashlen name) name in
    components-either (ltb 0 (dotslashlen name) && length q == 0) q (b'.' ∷ [])
      (λ h. components-nothing q (ground arith))
    ∙ components-dotslashlen name

-- The normalised name has the components of the original, in their order: what
-- `normalize_filename_x` removes is slashes and ".".
pub components-normalize_filename_x :
    (name : Bytes) → components (normalize_filename_x name) ≡ components name
unfolding normalize_filename_x
components-normalize_filename_x name =
    let q = copy_start name in
    components-trim (copy_loop (length q) q)
    ∙ components-copy_loop (length q) [] q (omega arith)
    ∙ components-copy_start name

not_slash-slashlen : (r : Bytes) → is_absolute (drop (slashlen r) r) ≡ false
unfolding slashlen
not_slash-slashlen [] = refl
not_slash-slashlen (c ∷ r) = ground (arith, not_slash-slashlen r)

is_absolute-dotslash_loop :
    (fuel : ℕ) (q : Bytes) → is_absolute (drop (dotslash_loop fuel q) q) ≡ is_absolute q
unfolding dotslash_loop
is_absolute-dotslash_loop zero q = refl
is_absolute-dotslash_loop (suc fuel) q =
    let r = drop 2 q in
    let step = 2 + slashlen r in
    ground (
      arith,
      drop-add 2 (slashlen r) q,
      drop-add step (dotslash_loop fuel (drop step q)) q,
      is_absolute-dotslash_loop fuel (drop step q),
      not_slash-slashlen r,
    )

is_absolute-take : (n : ℕ) (o : Bytes) → is_absolute (take (suc n) o) ≡ is_absolute o
is_absolute-take n [] = refl
is_absolute-take n (x ∷ o) = refl

is_absolute-trim_dot : (o : Bytes) → is_absolute (trim_dot o) ≡ is_absolute o
unfolding trim_dot
is_absolute-trim_dot [] = refl
is_absolute-trim_dot (x ∷ []) = ground arith
is_absolute-trim_dot (x ∷ y ∷ ys) = rw (less_one (suc (length ys))) (ground arith)

is_absolute-trim_slash : (o : Bytes) → is_absolute (trim_slash o) ≡ is_absolute o
unfolding trim_slash
is_absolute-trim_slash [] = refl
is_absolute-trim_slash (x ∷ []) = ground arith
is_absolute-trim_slash (x ∷ y ∷ ys) = rw (less_one (suc (length ys))) (ground arith)

is_absolute-trim : (o : Bytes) → is_absolute (trim o) ≡ is_absolute o
unfolding trim
is_absolute-trim o = ground (arith, is_absolute-trim_slash (trim_dot o), is_absolute-trim_dot o)

is_absolute-copy_loop : (q : Bytes) → is_absolute (copy_loop (length q) q) ≡ is_absolute q
unfolding copy_loop
is_absolute-copy_loop [] = refl
is_absolute-copy_loop (c ∷ q) = refl

is_absolute_empty : (q : Bytes) → (length q == 0) ≡ true → is_absolute q ≡ false
is_absolute_empty [] h = refl
is_absolute_empty (c ∷ q) h = ground arith

is_absolute-copy_start : (name : Bytes) → is_absolute (copy_start name) ≡ is_absolute name
unfolding copy_start dotslashlen
is_absolute-copy_start name =
    let q = drop (dotslashlen name) name in
    ground (arith, is_absolute-dotslash_loop (length name) name, is_absolute_empty q)

-- `normalize_filename_x` neither makes a relative name absolute nor an absolute one relative.
pub is_absolute-normalize_filename_x :
    (name : Bytes) → is_absolute (normalize_filename_x name) ≡ is_absolute name
unfolding normalize_filename_x
is_absolute-normalize_filename_x name =
    let q = copy_start name in
    is_absolute-trim (copy_loop (length q) q)
    ∙ is_absolute-copy_loop q
    ∙ is_absolute-copy_start name
