-- ===== src/Base/Slices.antt =====
-- Cutting a list that is joined from two, and a list that is mapped.
use Prim.Native.Nat.{ℕ, zero, suc, ◌-◌, min}
use mathlib.Core.Path.{◌≡◌, refl, ap}
use mathlib.Core.List.{List, [], ◌∷◌, ◌++◌, map}
use native.Mathlib.Omega.{arith}
use syncthing_mem.Base.Lists.{length, take, drop}

module _ {ℓ} {A : Type ℓ} where
  pub take-append :
      (n : ℕ) (xs ys : List A) → take n (xs ++ ys) ≡ take n xs ++ take (n - length xs) ys
  take-append zero [] ys = refl
  take-append zero (x ∷ xs) ys = let e : 0 - suc (length xs) ≡ 0 = omega arith in rw e
  take-append (suc n) [] ys = let e : suc n - 0 ≡ suc n = omega arith in rw e
  take-append (suc n) (x ∷ xs) ys =
      let e : suc n - suc (length xs) ≡ n - length xs = omega arith in rw (e, take-append n xs ys)

  pub drop-append :
      (n : ℕ) (xs ys : List A) → drop n (xs ++ ys) ≡ drop n xs ++ drop (n - length xs) ys
  drop-append zero [] ys = refl
  drop-append zero (x ∷ xs) ys = let e : 0 - suc (length xs) ≡ 0 = omega arith in rw e
  drop-append (suc n) [] ys = let e : suc n - 0 ≡ suc n = omega arith in rw e
  drop-append (suc n) (x ∷ xs) ys =
      let e : suc n - suc (length xs) ≡ n - length xs = omega arith in rw e (drop-append n xs ys)

  pub take-map {κ} :
      {B : Type κ} (f : A → B) (n : ℕ) (xs : List A) → take n (map f xs) ≡ map f (take n xs)
  take-map f zero xs = refl
  take-map f (suc n) [] = refl
  take-map f (suc n) (x ∷ xs) = ap (◌∷◌ (f x)) (take-map f n xs)

  pub drop-map {κ} :
      {B : Type κ} (f : A → B) (n : ℕ) (xs : List A) → drop n (map f xs) ≡ map f (drop n xs)
  drop-map f zero xs = refl
  drop-map f (suc n) [] = refl
  drop-map f (suc n) (x ∷ xs) = drop-map f n xs

  -- A bound on what is taken can be lowered to the length.
  pub take-min : (n : ℕ) (xs : List A) → take (min n (length xs)) xs ≡ take n xs
  take-min zero xs = let e : min 0 (length xs) ≡ 0 = omega arith in rw e
  take-min (suc n) [] = let e : min (suc n) 0 ≡ 0 = omega arith in rw e
  take-min (suc n) (x ∷ xs) =
      let e : min (suc n) (suc (length xs)) ≡ suc (min n (length xs)) = omega arith in
      rw (e, take-min n xs)
