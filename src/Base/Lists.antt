-- ===== src/Base/Lists.antt =====
-- Lists measured and cut by native numbers, under the library's names.
use Prim.Native.Nat.{ℕ, zero, suc, ◌+◌, ◌-◌, ◌≤◌, ◌<◌, min}
use mathlib.Core.Path.{◌≡◌, refl, ap}
use mathlib.Core.List.{List, [], ◌∷◌, ◌++◌, map}
use mathlib.Core.Option.{Option, none, some}
use native.Mathlib.Nat.{add-zero, suc-add, zero-add}
use native.Mathlib.Omega.{arith}

module _ {ℓ} {A : Type ℓ} where
  abbrev pub length : List A → ℕ
  length [] = 0
  length (x ∷ xs) = suc (length xs)

  abbrev pub get_elem? : List A → ℕ → Option A
  get_elem? [] i = none
  get_elem? (x ∷ xs) zero = some x
  get_elem? (x ∷ xs) (suc i) = get_elem? xs i

  -- A write out of bounds changes nothing.
  abbrev pub set : List A → ℕ → A → List A
  set [] i v = []
  set (x ∷ xs) zero v = v ∷ xs
  set (x ∷ xs) (suc i) v = x ∷ set xs i v

  abbrev pub get_or : List A → ℕ → A → A
  get_or [] i d = d
  get_or (x ∷ xs) zero d = x
  get_or (x ∷ xs) (suc i) d = get_or xs i d

  abbrev pub take : ℕ → List A → List A
  take zero xs = []
  take (suc n) [] = []
  take (suc n) (x ∷ xs) = x ∷ take n xs

  abbrev pub drop : ℕ → List A → List A
  drop zero xs = xs
  drop (suc n) [] = []
  drop (suc n) (x ∷ xs) = drop n xs

  abbrev pub replicate : ℕ → A → List A
  replicate zero a = []
  replicate (suc n) a = a ∷ replicate n a

module _ {ℓ} {A : Type ℓ} where
  pub length-append : (xs ys : List A) → length (xs ++ ys) ≡ length xs + length ys
  length-append [] ys = omega arith
  length-append (x ∷ xs) ys = omega (arith, length-append xs ys)

  pub take-append-drop : (n : ℕ) (xs : List A) → take n xs ++ drop n xs ≡ xs
  take-append-drop zero xs = refl
  take-append-drop (suc n) [] = refl
  take-append-drop (suc n) (x ∷ xs) = rw (take-append-drop n xs)

  pub length-take : (n : ℕ) (xs : List A) → length (take n xs) ≡ min n (length xs)
  length-take zero xs = omega arith
  length-take (suc n) [] = omega arith
  length-take (suc n) (x ∷ xs) = omega (arith, length-take n xs)

  pub length-drop : (n : ℕ) (xs : List A) → length (drop n xs) ≡ length xs - n
  length-drop zero xs = omega arith
  length-drop (suc n) [] = omega arith
  length-drop (suc n) (x ∷ xs) = omega (arith, length-drop n xs)

  pub length-replicate : (n : ℕ) (a : A) → length (replicate n a) ≡ n
  length-replicate zero a = refl
  length-replicate (suc n) a = ap suc (length-replicate n a)

  pub take-nil : (n : ℕ) → take {A = A} n [] ≡ []
  take-nil zero = refl
  take-nil (suc n) = refl

  pub take_of_length-le : (n : ℕ) (xs : List A) → length xs ≤ n → take n xs ≡ xs
  take_of_length-le n [] h = take-nil n
  take_of_length-le n (x ∷ xs) h =
      elim n as (λ m. suc (length xs) ≤ m → take m (x ∷ xs) ≡ x ∷ xs) [
        | zero ↦ λ g. absurd (omega arith)
        | suc m ↦ λ g. ap (◌∷◌ x) (take_of_length-le m xs (omega arith))
      ]
        h

  pub drop_of_length-le : (n : ℕ) (xs : List A) → length xs ≤ n → drop n xs ≡ []
  drop_of_length-le zero [] h = refl
  drop_of_length-le zero (x ∷ xs) h = absurd (omega arith)
  drop_of_length-le (suc n) [] h = refl
  drop_of_length-le (suc n) (x ∷ xs) h = drop_of_length-le n xs (omega arith)

  pub take-append_length : (xs ys : List A) (n : ℕ) → n ≡ length xs → take n (xs ++ ys) ≡ xs
  take-append_length [] ys zero h = refl
  take-append_length [] ys (suc n) h = absurd (omega arith)
  take-append_length (x ∷ xs) ys zero h = absurd (omega arith)
  take-append_length (x ∷ xs) ys (suc n) h = ap (◌∷◌ x) (take-append_length xs ys n (omega arith))

  pub drop-append_length : (xs ys : List A) (n : ℕ) → n ≡ length xs → drop n (xs ++ ys) ≡ ys
  drop-append_length [] ys zero h = refl
  drop-append_length [] ys (suc n) h = absurd (omega arith)
  drop-append_length (x ∷ xs) ys zero h = absurd (omega arith)
  drop-append_length (x ∷ xs) ys (suc n) h = drop-append_length xs ys n (omega arith)

  pub take-append_le : (n : ℕ) (xs ys : List A) → n ≤ length xs → take n (xs ++ ys) ≡ take n xs
  take-append_le zero xs ys h = refl
  take-append_le (suc n) [] ys h = absurd (omega arith)
  take-append_le (suc n) (x ∷ xs) ys h = ap (◌∷◌ x) (take-append_le n xs ys (omega arith))

  pub drop-append_le :
      (n : ℕ) (xs ys : List A) → n ≤ length xs → drop n (xs ++ ys) ≡ drop n xs ++ ys
  drop-append_le zero xs ys h = refl
  drop-append_le (suc n) [] ys h = absurd (omega arith)
  drop-append_le (suc n) (x ∷ xs) ys h = drop-append_le n xs ys (omega arith)

  pub drop-drop : (m n : ℕ) (xs : List A) → drop n (drop m xs) ≡ drop (m + n) xs
  drop-drop zero n xs = rw zero-add
  drop-drop (suc m) zero [] = rw add-zero
  drop-drop (suc m) (suc n) [] = rw suc-add
  drop-drop (suc m) n (x ∷ xs) = rw suc-add (drop-drop m n xs)

module _ {ℓ} {A : Type ℓ} where
  pub lt_of_get_elem? : (xs : List A) (i : ℕ) {a : A} → get_elem? xs i ≡ some a → i < length xs
  lt_of_get_elem? [] i h = cc
  lt_of_get_elem? (x ∷ xs) zero h = omega arith
  lt_of_get_elem? (x ∷ xs) (suc i) h = omega (arith, lt_of_get_elem? xs i h)

  pub get_elem?_of_lt : (xs : List A) (i : ℕ) → i < length xs → (a : A) × (get_elem? xs i ≡ some a)
  get_elem?_of_lt [] i h = absurd (omega arith)
  get_elem?_of_lt (x ∷ xs) zero h = (x, refl)
  get_elem?_of_lt (x ∷ xs) (suc i) h = get_elem?_of_lt xs i (omega arith)

  pub get_elem?-map {κ} :
      {B : Type κ} (f : A → B) (xs : List A) (i : ℕ) {b : B}
      → get_elem? (map f xs) i ≡ some b
      → (a : A) × (get_elem? xs i ≡ some a) × (b ≡ f a)
  get_elem?-map f [] i h = cc
  get_elem?-map f (x ∷ xs) zero h = (x, refl, cc)
  get_elem?-map f (x ∷ xs) (suc i) h = get_elem?-map f xs i h

  pub length-map {κ} : {B : Type κ} (f : A → B) (xs : List A) → length (map f xs) ≡ length xs
  length-map f [] = refl
  length-map f (x ∷ xs) = ap suc (length-map f xs)
