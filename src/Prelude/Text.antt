-- ===== src/Prelude/Text.antt =====
-- C strings as the lists of their bytes, with no terminator, and the tests of string.h on them.
use Prim.Native.Nat.{ℕ, ◌<◌}
use Prim.Native.Char.{code}
use Prim.Native.String.{String}
use mathlib.Core.Path.{◌≡◌, refl, ap}
use mathlib.Core.Logic.{◌↔◌, ◌≢◌, inl, inr}
use mathlib.Core.Bool.{Bool, true, false, ◌&&◌}
use mathlib.Core.List.{List, [], ◌∷◌}
use native.Mathlib.Omega.{arith}
use modbusd.Prelude.Tests.{◌==◌, Bool-cases}
use modbusd.Prelude.Lists.{All}

abbrev pub CString : Type 0
CString = List ℕ

-- A literal of the source (ASCII).
abbrev pub c_str : String → CString
c_str String.[] = []
c_str (String.◌∷◌ c s) = code c ∷ c_str s

-- strcmp (a, b) == 0
abbrev pub str_eq : CString → CString → Bool
str_eq [] [] = true
str_eq [] (b ∷ bs) = false
str_eq (a ∷ as') [] = false
str_eq (a ∷ as') (b ∷ bs) = (a == b) && str_eq as' bs

pub str_eq_refl : (a : CString) → str_eq a a ≡ true
str_eq_refl [] = refl
str_eq_refl (a ∷ as') = ground (arith, str_eq_refl as')

pub str_eq-eq : (a b : CString) → str_eq a b ≡ true → a ≡ b
str_eq-eq [] [] h = refl
str_eq-eq [] (b ∷ bs) h = ground arith
str_eq-eq (a ∷ as') [] h = ground arith
str_eq-eq (a ∷ as') (b ∷ bs) h = ground (arith, str_eq-eq as' bs)

pub str_eq_iff : (a b : CString) → (str_eq a b ≡ true) ↔ (a ≡ b)
str_eq_iff a b = (str_eq-eq a b, λ e. subst_right e)
  where
    subst_right : a ≡ b → str_eq a b ≡ true
    subst_right e = rw (← e) (str_eq_refl a)

-- A C string has no NUL byte inside.
abbrev pub IsCString : CString → Type 0
IsCString s = All (λ c. 0 < c) s

pub str_eq-ne : (a b : CString) → str_eq a b ≡ false → a ≢ b
str_eq-ne a b e same = ground (arith, ap (str_eq a) same, str_eq_refl a)

pub str_eq_of_ne : (a b : CString) → a ≢ b → str_eq a b ≡ false
str_eq_of_ne a b n = elim (Bool-cases (str_eq a b)) [
  | inl e ↦ absurd (n (str_eq-eq a b e))
  | inr e ↦ e
]
