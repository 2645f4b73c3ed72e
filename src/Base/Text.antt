-- ===== src/Base/Text.antt =====
-- C strings: the list of the bytes in front of the NUL.
use Prim.Native.Nat.{ℕ}
use Prim.Native.Char.{code}
use Prim.Native.String.{String}
use mathlib.Core.Path.{◌≡◌}
use mathlib.Core.Logic.{◌↔◌}
use mathlib.Core.Bool.{Bool, true, false}
use mathlib.Core.List.{List, [], ◌∷◌}
use native.Mathlib.Omega.{arith}
use tar.Base.Tests.{◌==◌, if◌then◌else◌}

abbrev pub Bytes : Type 0
Bytes = List ℕ

-- The bytes of an ASCII literal.
abbrev pub codes : String → Bytes
codes String.[] = []
codes (String.◌∷◌ c s) = code c ∷ codes s

-- gnulib's `streq`
unfoldable pub streq : Bytes → Bytes → Bool
streq (c ∷ s1) (d ∷ s2) = if c == d then streq s1 s2 else false
streq [] [] = true
streq _ _ = false

pub streq_iff : (s1 s2 : Bytes) → (streq s1 s2 ≡ true) ↔ (s1 ≡ s2)
unfolding streq
streq_iff [] [] = ground arith
streq_iff [] (d ∷ s2) = ground arith
streq_iff (c ∷ s1) [] = ground arith
streq_iff (c ∷ s1) (d ∷ s2) = ground (arith, streq_iff s1 s2)

-- ISSLASH, where the slash is the only separator.
abbrev pub is_slash : ℕ → Bool
is_slash c = c == b'/'
