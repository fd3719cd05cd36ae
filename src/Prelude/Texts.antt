-- ===== src/Prelude/Texts.antt =====
-- Texts as lists of code points, with the one replacement that the program makes: NUL by `\0`.
use Prim.Native.Nat.{ℕ}
use Prim.Native.Char.{code}
use Prim.Native.String.{String}
use mathlib.Core.Path.{◌≡◌, refl}
use mathlib.Core.Bool.{Bool, true, false, ◌||◌, ◌&&◌}
use mathlib.Core.List.{List, [], ◌∷◌, ◌++◌}
use native.Mathlib.Omega.{arith}
use lance_c.Prelude.Tests.{◌==◌, if◌then◌else◌}

abbrev pub Text : Type 0
Text = List ℕ

abbrev pub text : String → Text
text String.[] = []
text (String.◌∷◌ c s) = code c ∷ text s

abbrev pub has_nul : Text → Bool
has_nul [] = false
has_nul (c ∷ t) = (c == 0) || has_nul t

-- `str::replace('\0', "\\0")`: each NUL becomes a backslash and a zero digit.
unfoldable pub replace_nul : Text → Text
replace_nul [] = []
replace_nul (c ∷ t) = let rest = replace_nul t in if c == 0 then 92 ∷ 48 ∷ rest else c ∷ rest

pub has_nul-replace_nul : (t : Text) → has_nul (replace_nul t) ≡ false
unfolding replace_nul
has_nul-replace_nul [] = refl
has_nul-replace_nul (c ∷ t) = ground (arith, has_nul-replace_nul t)

pub replace_nul-of_clean : (t : Text) → has_nul t ≡ false → replace_nul t ≡ t
unfolding replace_nul
replace_nul-of_clean [] h = refl
replace_nul-of_clean (c ∷ t) h = ground (arith, replace_nul-of_clean t)

pub has_nul-append : (s t : Text) → has_nul t ≡ false → has_nul s ≡ false → has_nul (s ++ t) ≡ false
has_nul-append [] t h k = h
has_nul-append (c ∷ s) t h k = ground (arith, has_nul-append s t h)

abbrev pub text_eq : Text → Text → Bool
text_eq [] [] = true
text_eq (c ∷ s) (d ∷ t) = (c == d) && text_eq s t
text_eq _ _ = false

pub text_eq_refl : (t : Text) → text_eq t t ≡ true
text_eq_refl [] = refl
text_eq_refl (c ∷ t) = ground (arith, text_eq_refl t)

pub text_eq→eq : (s t : Text) → text_eq s t ≡ true → s ≡ t
text_eq→eq [] [] h = refl
text_eq→eq [] (d ∷ t) h = cc
text_eq→eq (c ∷ s) [] h = cc
text_eq→eq (c ∷ s) (d ∷ t) h = ground (arith, text_eq→eq s t)
