-- ===== src/Protocol/DeviceId/CheckDigits.antt =====
-- lib/protocol/deviceid.go: `luhnify` against `unluhnify`.
use syncthing_mem.Base.{
  ℕ, zero, suc, ◌*◌, ◌≡◌, refl, ap, ◌∙◌, inl, inr, some, [], ◌∷◌, ◌++◌, length, take, drop, get_or,
  ◌==◌, Text, arith, Option-cases, Bool-cases, ==_refl, ==→eq, true, take-append-drop,
  take-append_length, length-append, length-take, length-drop,
}
use syncthing_mem.Protocol.DeviceId.{
  luhn32, valid, luhnify_groups, luhnify, unluhnify_groups, unluhnify,
}

get_or-append : (xs ys : Text) (y d : ℕ) (n : ℕ) → n ≡ length xs → get_or (xs ++ y ∷ ys) n d ≡ y
get_or-append [] ys y d zero h = refl
get_or-append [] ys y d (suc n) h = absurd (omega arith)
get_or-append (x ∷ xs) ys y d zero h = absurd (omega arith)
get_or-append (x ∷ xs) ys y d (suc n) h = get_or-append xs ys y d n (omega arith)

drop-append_suc : (xs ys : Text) (y n : ℕ) → n ≡ length xs → drop (suc n) (xs ++ y ∷ ys) ≡ ys
drop-append_suc [] ys y zero h = refl
drop-append_suc [] ys y (suc n) h = absurd (omega arith)
drop-append_suc (x ∷ xs) ys y zero h = absurd (omega arith)
drop-append_suc (x ∷ xs) ys y (suc n) h = drop-append_suc xs ys y n (omega arith)

-- One group with its digit in front of groups that are read back.
group :
    (n l : ℕ) (p rest s : Text)
    → length p ≡ 13
    → luhn32 p ≡ some l
    → unluhnify_groups n rest ≡ some s
    → unluhnify_groups (suc n) (p ++ l ∷ rest) ≡ some (p ++ s)
unfolding unluhnify_groups
group n l p rest s h digit back = rw (
  take-append_length p (l ∷ rest) 13 (omega arith),
  digit,
  drop-append_suc p rest l 13 (omega arith),
  back,
  get_or-append p rest l 0 13 (omega arith),
  ==_refl l,
)

groups :
    (n : ℕ) (s r : Text)
    → length s ≡ n * 13
    → luhnify_groups n s ≡ some r
    → (unluhnify_groups n r ≡ some s) × (length r ≡ n * 14)
unfolding luhnify_groups unluhnify_groups
groups zero [] r h e = let same : [] ≡ r = cc in rw (← same) (refl, refl)
groups zero (x ∷ s) r h e = absurd (omega arith)
groups (suc n) s r h e = elim (Option-cases (luhn32 (take 13 s))) [
  | inl bad ↦ let stuck = rw (bad, luhnify_groups) at e in cc
  | inr (l, digit) ↦ elim (Option-cases (luhnify_groups n (drop 13 s))) [
    | inl bad ↦ let stuck = rw (digit, luhnify_groups, bad) at e in cc
    | inr (rest, more) ↦
        let here : length (take 13 s) ≡ 13 = omega (arith, length-take 13 s) in
        let (back, size) = groups n (drop 13 s) rest (omega (arith, length-drop 13 s)) more in
        let made : take 13 s ++ l ∷ rest ≡ r = cc (rw (digit, luhnify_groups, more) at e) in
        rw (← made) (
          group n l (take 13 s) rest (drop 13 s) here digit back ∙ ap some (take-append-drop 13 s),
          omega (arith, length-append (take 13 s) (l ∷ rest)),
        )
  ]
]

-- What `luhnify` returns, `unluhnify` takes back.
pub unluhnify-luhnify : (s r : Text) → luhnify s ≡ valid r → unluhnify r ≡ valid s
unfolding luhnify unluhnify
unluhnify-luhnify s r e = elim (Bool-cases (length s == 52)) [
  | inr other ↦ let stuck = rw (other, luhnify) at e in cc
  | inl size ↦ elim (Option-cases (luhnify_groups 4 s)) [
    | inl bad ↦ let stuck = rw (size, luhnify, bad) at e in cc
    | inr (t, made) ↦
        let same : t ≡ r = cc (rw (size, luhnify, made) at e) in
        let (back, long) = groups 4 s t (omega (arith, ==→eq _ _ size)) made in
        let whole : (length t == 56) ≡ true = ground arith in rw (← same) (rw (whole, back))
  ]
]
