-- ===== src/FileName.antt =====
-- File names as text (src/misc.c), on a host with no file system prefix and no distinct root `//`.
-- A function that changes its string in place returns the string that it leaves.
pub mod Components
pub mod Normal
pub mod Prefix
mod Runs
use tar.Base.{
  ℕ, zero, suc, ◌+◌, ◌-◌, Bool, true, false, not, ◌&&◌, List, [], ◌∷◌, ◌++◌, length, take, drop,
  get_or, ltb, ◌==◌, if◌then◌else◌,
}
use tar.Base.Text.{Bytes, is_slash, streq}

-- The byte at `i`; a NUL at the end.
abbrev pub at : Bytes → ℕ → ℕ
at s i = get_or s i 0

-- `while (q > name && ISSLASH (*q)) *q-- = '\0'`, for `q` on the last of `n + 1` bytes.
unfoldable pub zap_loop : ℕ → Bytes → Bytes
zap_loop zero name = name
zap_loop (suc n) name =
    let shorter = zap_loop n (take (suc n) name) in
    if is_slash (at name (suc n)) then shorter else name

unfoldable pub zap_slashes : Bytes → Bytes
unfolding zap_loop
zap_slashes name = zap_loop (length name - 1) name

unfoldable pub slashlen : Bytes → ℕ
slashlen [] = 0
slashlen (c ∷ f) = if is_slash c then suc (slashlen f) else 0

-- The loop on fuel, from `&f[i]` on: each round passes two bytes or more.
unfoldable pub dotslash_loop : ℕ → Bytes → ℕ
dotslash_loop zero f = 0
dotslash_loop (suc fuel) f =
    let step = 2 + slashlen (drop 2 f) in
    let more = dotslash_loop fuel (drop step f) in
    if at f 0 == b'.' && is_slash (at f 1) then step + more else 0

unfoldable pub dotslashlen : Bytes → ℕ
unfolding dotslash_loop
dotslashlen f = dotslash_loop (length f) f

-- What `q` passes behind a slash.
unfoldable pub pass : Bytes → Bytes
pass q = let behind = drop (slashlen q) q in drop (dotslashlen behind) behind

-- The loop that copies from `q` to `p`, on fuel: each round takes a byte at least.
unfoldable pub copy_loop : ℕ → Bytes → Bytes
copy_loop zero q = []
copy_loop (suc fuel) [] = []
copy_loop (suc fuel) (c ∷ q) = c ∷ copy_loop fuel (if is_slash c then pass q else q)

-- `p -= p[-2] == '.' && ISSLASH (p[-3])`
unfoldable pub trim_dot : Bytes → Bytes
trim_dot o =
    if at o (length o - 1) == b'.' && is_slash (at o (length o - 2))
    then take (length o - 1) o
    else o

-- `p -= 2 < p - name && ISSLASH (p[-2])`
unfoldable pub trim_slash : Bytes → Bytes
trim_slash o =
    if ltb 2 (length o + 1) && is_slash (at o (length o - 1)) then take (length o - 1) o else o

unfoldable pub trim : Bytes → Bytes
trim o = if ltb 2 (length o + 1) then trim_slash (trim_dot o) else o

-- Where the copy begins.
unfoldable pub copy_start : Bytes → Bytes
copy_start name =
    let q = drop (dotslashlen name) name in
    if ltb 0 (dotslashlen name) && length q == 0 then b'.' ∷ [] else q

unfoldable pub normalize_filename_x : Bytes → Bytes
normalize_filename_x name = let q = copy_start name in trim (copy_loop (length q) q)

-- `replace_prefix`, for the prefix `samp` of `slen` bytes and its replacement.
unfoldable pub replace_prefix : Bytes → Bytes → Bytes → Bytes
replace_prefix name samp repl =
    let slen = length samp in
    if ltb slen (length name) && streq (take slen name) samp && is_slash (at name slen)
    then repl ++ drop slen name
    else name
