-- ===== src/Versioner/Thinning.antt =====
-- lib/versioner/staggered.go: the versions that are left.
use syncthing_mem.Base.{
  ℕ, ◌+◌, ◌≤◌, ◌<◌, ◌≡◌, refl, ◌⊎◌, inl, inr, true, false, Option, none, some, List, [], ◌∷◌,
  ltb→ge, ltb→lt, if_ind, arith, Text,
}
use syncthing_mem.Versioner.{
  used_interval, too_old, too_close, Fate, invalid, removed, kept, fate_at, remove_from, to_remove,
}

-- Older than the largest age, or less than a step of its interval after the last that is kept.
abbrev pub Superfluous : ℕ → ℕ → Option ℕ → ℕ → Type 0
Superfluous max_age now prev t =
    ((0 < max_age) × (t + max_age < now))
    ⊎ ((p : ℕ) × (prev ≡ some p) × (t < p + (used_interval max_age now t).step))

-- The names are those removed, which are superfluous, those with the times that are kept, and names
-- without a time.
pub data Splits (parse_time : Text → Option ℕ) (max_age now : ℕ)
    : Option ℕ → List Text → List Text → List ℕ → Type 0 where
  nothing : {prev : Option ℕ} → Splits parse_time max_age now prev [] [] []
  skip :
      {prev : Option ℕ} {xs rs : List Text} {ts : List ℕ} (x : Text)
      → parse_time x ≡ none
      → Splits parse_time max_age now prev xs rs ts
      → Splits parse_time max_age now prev (x ∷ xs) rs ts
  drop :
      {prev : Option ℕ} {xs rs : List Text} {ts : List ℕ} (x : Text) (t : ℕ)
      → parse_time x ≡ some t
      → Superfluous max_age now prev t
      → Splits parse_time max_age now prev xs rs ts
      → Splits parse_time max_age now prev (x ∷ xs) (x ∷ rs) ts
  keep :
      {prev : Option ℕ} {xs rs : List Text} {ts : List ℕ} (x : Text) (t : ℕ)
      → parse_time x ≡ some t
      → Splits parse_time max_age now (some t) xs rs ts
      → Splits parse_time max_age now prev (x ∷ xs) rs (t ∷ ts)

-- Each time is a step of its interval after the one before, and none is above the largest age.
abbrev pub After : ℕ → ℕ → Option ℕ → ℕ → Type 0
After max_age now none time = Unit
After max_age now (some prev) time = prev + (used_interval max_age now time).step ≤ time

abbrev pub Spaced : ℕ → ℕ → Option ℕ → List ℕ → Type 0
Spaced max_age now prev [] = Unit
Spaced max_age now prev (t ∷ ts) =
    After max_age now prev t
    × ((max_age ≡ 0) ⊎ (now ≤ t + max_age))
    × Spaced max_age now (some t) ts

module _ (parse_time : Text → Option ℕ) (max_age now : ℕ) where
  -- What the loop leaves of the names.
  abbrev pub Thinned : Option ℕ → List Text → List Text → Type 0
  Thinned prev xs rs =
      (ts : List ℕ) × Splits parse_time max_age now prev xs rs ts × Spaced max_age now prev ts

  not_too_close :
      (prev : Option ℕ) (t : ℕ) → too_close max_age now prev t ≡ false → After max_age now prev t
  unfolding too_close
  not_too_close none t h = tt
  not_too_close (some p) t h = ltb→ge _ _ h

  crowded :
      (prev : Option ℕ) (t : ℕ)
      → too_close max_age now prev t ≡ true
      → (p : ℕ) × (prev ≡ some p) × (t < p + (used_interval max_age now t).step)
  unfolding too_close
  crowded none t h = cc
  crowded (some p) t h = (p, refl, ltb→lt _ _ h)

  passed : (t : ℕ) → too_old max_age now t ≡ true → (0 < max_age) × (t + max_age < now)
  unfolding too_old
  passed t h = ground arith

  young : (t : ℕ) → too_old max_age now t ≡ false → (max_age ≡ 0) ⊎ (now ≤ t + max_age)
  unfolding too_old
  young t h = ground arith

  abbrev Fits : Option ℕ → Option ℕ → Fate parse_time max_age now → Type 0
  Fits prev o invalid = o ≡ none
  Fits prev o removed = (t : ℕ) × (o ≡ some t) × Superfluous max_age now prev t
  Fits prev o (kept t) =
      (o ≡ some t) × After max_age now prev t × ((max_age ≡ 0) ⊎ (now ≤ t + max_age))

  fate_at-Fits : (prev o : Option ℕ) → Fits prev o (fate_at parse_time max_age now prev o)
  unfolding fate_at
  fate_at-Fits prev none = refl
  fate_at-Fits prev (some t) =
      if_ind (Fits prev (some t)) (too_old max_age now t) _ _ (λ old. (t, refl, inl (passed t old)))
        (λ fresh.
          if_ind (Fits prev (some t)) (too_close max_age now prev t) _ _
            (λ close. (t, refl, inr (crowded prev t close)))
            (λ far. (refl, not_too_close prev t far, young t fresh)))

  remove_from-Thinned :
      (prev : Option ℕ) (xs : List Text)
      → Thinned prev xs (remove_from parse_time max_age now prev xs)
  unfolding remove_from
  remove_from-Thinned prev [] = ([], nothing, tt)
  remove_from-Thinned prev (x ∷ xs) =
      by_fate (fate_at parse_time max_age now prev (parse_time x))
        (fate_at-Fits prev (parse_time x)) (λ prev'. remove_from-Thinned prev' xs)
    where
      by_fate :
          (f : Fate parse_time max_age now)
          → Fits prev (parse_time x) f
          → ((prev' : Option ℕ) → Thinned prev' xs (remove_from parse_time max_age now prev' xs))
          → Thinned prev (x ∷ xs) (elim f [
            | invalid ↦ remove_from parse_time max_age now prev xs
            | removed ↦ x ∷ remove_from parse_time max_age now prev xs
            | kept time ↦ remove_from parse_time max_age now (some time) xs
          ])
      by_fate invalid is later =
          let (ts, splits, spaced) = later prev in (ts, skip x is splits, spaced)
      by_fate removed (t, is, why) later =
          let (ts, splits, spaced) = later prev in (ts, drop x t is why splits, spaced)
      by_fate (kept t) (is, after, young_enough) later =
          let (ts, splits, spaced) = later (some t) in
          (t ∷ ts, keep x t is splits, (after, young_enough, spaced))

  -- Of the sorted names, each that is to be removed is older than the largest age, if there is one, or
  -- less than a step of its interval after the last before it that stays; those that stay and have a
  -- time are each a step of their interval after the one before, and none is older than that age.
  pub to_remove-Thinned :
      (sort : List Text → List Text) (versions : List Text)
      → Thinned none (sort versions) (to_remove parse_time max_age now sort versions)
  unfolding to_remove
  to_remove-Thinned sort versions = remove_from-Thinned none (sort versions)
