-- ===== src/Prelude/Text.antt =====
-- Text as the list of its bytes: std::string, the C string that `c_str` passes on, and comparison.
use Prim.Native.Char.{code}
use Prim.Native.Nat.{ℕ}
use Prim.Native.String.{String}
use mathlib.Core.Path.{◌≡◌, refl}
use mathlib.Core.Logic.{◌≢◌}
use mathlib.Core.Bool.{Bool, true, false, ◌&&◌}
use mathlib.Core.List.{List, [], ◌∷◌, ◌++◌}
use native.Mathlib.Omega.{arith}
use lopack.Prelude.Tests.{◌==◌, if◌then◌else◌}
use lopack.Prelude.Lists.{All}

abbrev pub Text : Type 0
Text = List ℕ

-- The bytes of an ASCII literal.
abbrev pub codes : String → Text
codes String.[] = []
codes (String.◌∷◌ c s) = code c ∷ codes s

-- std::string::operator==
unfoldable pub text_eq : Text → Text → Bool
text_eq [] [] = true
text_eq [] (c ∷ t) = false
text_eq (b ∷ s) [] = false
text_eq (b ∷ s) (c ∷ t) = b == c && text_eq s t

pub text_eq_refl : (s : Text) → text_eq s s ≡ true
unfolding text_eq
text_eq_refl [] = refl
text_eq_refl (c ∷ s) = ground (arith, text_eq_refl s)

pub text_eq→eq : (s t : Text) → text_eq s t ≡ true → s ≡ t
unfolding text_eq
text_eq→eq [] [] h = refl
text_eq→eq [] (c ∷ t) h = cc
text_eq→eq (b ∷ s) [] h = cc
text_eq→eq (b ∷ s) (c ∷ t) h = ground (arith, text_eq→eq s t)

-- What a C function reads from `s.c_str()`: the bytes before the first NUL.
unfoldable pub c_string : Text → Text
c_string [] = []
c_string (c ∷ s) = if c == 0 then [] else c ∷ c_string s

-- No byte is NUL, so the C string is the whole text.
abbrev pub HasNoNul : Text → Type 0
HasNoNul = All (λ c. c ≢ 0)

pub c_string-HasNoNul : (s : Text) → HasNoNul s → c_string s ≡ s
unfolding c_string
c_string-HasNoNul [] h = refl
c_string-HasNoNul (c ∷ s) h = ground (arith, c_string-HasNoNul s h.1)

-- A copy with its own terminator reads as the same C string.
pub c_string-copy : (s : Text) → c_string (s ++ 0 ∷ []) ≡ c_string s
unfolding c_string
c_string-copy [] = refl
c_string-copy (c ∷ s) = ground (arith, c_string-copy s)
