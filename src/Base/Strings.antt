-- ===== src/Base/Strings.antt =====
-- Strings of the program: lists of bytes, with the comparison `==` of Go.
use Prim.Native.Nat.{ℕ}
use mathlib.Core.Path.{◌≡◌, refl}
use mathlib.Core.Bool.{Bool, true, false, ◌&&◌}
use mathlib.Core.List.{List, [], ◌∷◌}
use native.Mathlib.Omega.{arith}
use syncthing_mem.Base.Tests.{◌==◌}

abbrev pub Text : Type 0
Text = List ℕ

abbrev pub text_eq : Text → Text → Bool
text_eq [] [] = true
text_eq [] (y ∷ ys) = false
text_eq (x ∷ xs) [] = false
text_eq (x ∷ xs) (y ∷ ys) = (x == y) && text_eq xs ys

pub text_eq_refl : (a : Text) → text_eq a a ≡ true
text_eq_refl [] = refl
text_eq_refl (x ∷ xs) = ground (arith, text_eq_refl xs)

pub text_eq_sound : (a b : Text) → text_eq a b ≡ true → a ≡ b
text_eq_sound [] [] h = refl
text_eq_sound [] (y ∷ ys) h = cc
text_eq_sound (x ∷ xs) [] h = cc
text_eq_sound (x ∷ xs) (y ∷ ys) h = ground (arith, text_eq_sound xs ys)

pub text_eq_comm : (a b : Text) → text_eq a b ≡ text_eq b a
text_eq_comm [] [] = refl
text_eq_comm [] (y ∷ ys) = refl
text_eq_comm (x ∷ xs) [] = refl
text_eq_comm (x ∷ xs) (y ∷ ys) = ground (arith, text_eq_comm xs ys)
