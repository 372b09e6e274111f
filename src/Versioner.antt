-- ===== src/Versioner.antt =====
-- lib/versioner/staggered.go: which old versions of a file are removed. Times are whole seconds, and an
-- age is the difference of two; where the code compares ages, the times are compared. Reading the time
-- from the name of a version and sorting names are parameters. A largest age that is not positive
-- stands as 0.
use syncthing_mem.Base.{
  ℕ, ◌+◌, ◌*◌, Bool, true, false, ◌&&◌, Option, none, some, List, [], ◌∷◌, ltb, if◌then◌else◌, Text,
}
pub mod Thinning

pub record Interval : Type 0 where
  pub step : ℕ
  pub end_age : ℕ

abbrev pub first_hour : Interval
first_hour = record { step = 30; end_age = 60 * 60 }

abbrev pub next_day : Interval
next_day = record { step = 60 * 60; end_age = 24 * 60 * 60 }

abbrev pub next_month : Interval
next_month = record { step = 24 * 60 * 60; end_age = 30 * 24 * 60 * 60 }

abbrev pub next_year : ℕ → Interval
next_year max_age = record { step = 7 * 24 * 60 * 60; end_age = max_age }

-- Younger than the end of the interval.
abbrev pub within : ℕ → ℕ → Interval → Bool
within now time i = ltb now (time + i.end_age)

-- The loop over the intervals: the first that the age fits in, or the last.
unfoldable pub used_interval : ℕ → ℕ → ℕ → Interval
used_interval max_age now time =
    if within now time first_hour
    then first_hour
    else if within now time next_day
    then next_day
    else if within now time next_month
    then next_month
    else next_year max_age

unfoldable pub too_old : ℕ → ℕ → ℕ → Bool
too_old max_age now time = ltb 0 max_age && ltb (time + max_age) now

-- The age of the version before, if there was one, less that of this one is below the step.
unfoldable pub too_close : ℕ → ℕ → Option ℕ → ℕ → Bool
too_close max_age now none time = false
too_close max_age now (some prev) time = ltb time (prev + (used_interval max_age now time).step)

module _ (parse_time : Text → Option ℕ) (max_age now : ℕ) where
  -- What a version is to the loop: one that is not read, one that is removed, or one that is kept.
  pub data Fate : Type 0 where
    invalid removed : Fate
    kept : ℕ → Fate

  unfoldable pub fate_at : Option ℕ → Option ℕ → Fate
  fate_at prev none = invalid
  fate_at prev (some time) =
      if too_old max_age now time
      then removed
      else if too_close max_age now prev time
      then removed
      else kept time

  -- The loop, with the time of the last version that was kept.
  unfoldable pub remove_from : Option ℕ → List Text → List Text
  remove_from prev [] = []
  remove_from prev (version ∷ versions) = elim (fate_at prev (parse_time version)) [
    | invalid ↦ remove_from prev versions
    | removed ↦ version ∷ remove_from prev versions
    | kept time ↦ remove_from (some time) versions
  ]

  unfoldable pub to_remove : (List Text → List Text) → List Text → List Text
  to_remove sort versions = remove_from none (sort versions)
