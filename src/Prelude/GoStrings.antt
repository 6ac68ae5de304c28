-- ===== src/Prelude/GoStrings.antt =====
-- Go strings as lists of code points, with the functions of package `strings` that the code calls.
use Prim.Native.Nat.{ℕ, ◌+◌}
use Prim.Native.Char.{code}
use Prim.Native.String.{String}
use mathlib.Core.Path.{◌≡◌, refl}
use mathlib.Core.Bool.{Bool, true, false, ◌&&◌, ◌||◌}
use mathlib.Core.List.{List, [], ◌∷◌}
use native.Mathlib.Omega.{arith}
use adlts_core_engine.Prelude.Tests.{◌==◌, leb, if◌then◌else◌}

abbrev pub Text : Type 0
Text = List ℕ

-- The code points of a literal.
abbrev pub codes : String → Text
codes String.[] = []
codes (String.◌∷◌ c s) = code c ∷ codes s

abbrev pub text_eq : Text → Text → Bool
text_eq [] [] = true
text_eq [] (b ∷ t) = false
text_eq (a ∷ s) [] = false
text_eq (a ∷ s) (b ∷ t) = (a == b) && text_eq s t

pub text_eq_refl : (s : Text) → text_eq s s ≡ true
text_eq_refl [] = refl
text_eq_refl (a ∷ s) = ground (arith, text_eq_refl s)

pub text_eq_sound : (s t : Text) → text_eq s t ≡ true → s ≡ t
text_eq_sound [] [] h = refl
text_eq_sound [] (b ∷ t) h = cc
text_eq_sound (a ∷ s) [] h = cc
text_eq_sound (a ∷ s) (b ∷ t) h = ground (arith, text_eq_sound s t)

abbrev pub is_empty : Text → Bool
is_empty [] = true
is_empty (c ∷ s) = false

-- `unicode.IsSpace`.
unfoldable pub is_space : ℕ → Bool
is_space c =
    (leb 9 c && leb c 13)
    || c == 32
    || c == 0x85
    || c == 0xa0
    || c == 0x1680
    || (leb 0x2000 c && leb c 0x200a)
    || c == 0x2028
    || c == 0x2029
    || c == 0x202f
    || c == 0x205f
    || c == 0x3000

-- The suffix after the leading characters that pass a test.
unfoldable pub trim_left : (ℕ → Bool) → Text → Text
trim_left p [] = []
trim_left p (c ∷ s) = if p c then trim_left p s else c ∷ s

-- `strings.TrimRight`: drops the trailing characters that pass a test. A character is kept when it
-- fails the test or something behind it is kept.
keep_before : Bool → ℕ → Text → Text
keep_before true c [] = []
keep_before true c (d ∷ s) = c ∷ d ∷ s
keep_before false c s = c ∷ s

unfoldable pub trim_right : (ℕ → Bool) → Text → Text
unfolding keep_before
trim_right p [] = []
trim_right p (c ∷ s) = keep_before (p c) c (trim_right p s)

-- `strings.TrimSpace`.
unfoldable pub trim_space : Text → Text
trim_space s = trim_right is_space (trim_left is_space s)

-- `unicode.ToLower` on ASCII letters; other characters are left as they are.
unfoldable pub to_lower : ℕ → ℕ
to_lower c = if leb b'A' c && leb c b'Z' then c + 32 else c

-- The simple case folding of `strings.EqualFold`, exact where one side is ASCII: the long s and
-- the Kelvin sign are the only other characters that fold to ASCII letters.
unfoldable pub fold_case : ℕ → ℕ
unfolding to_lower
fold_case c = if c == 0x17f then b's' else if c == 0x212a then b'k' else to_lower c

-- `strings.EqualFold`.
unfoldable pub equal_fold : Text → Text → Bool
equal_fold [] [] = true
equal_fold [] (b ∷ t) = false
equal_fold (a ∷ s) [] = false
equal_fold (a ∷ s) (b ∷ t) = (fold_case a == fold_case b) && equal_fold s t
