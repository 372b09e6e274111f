-- ===== src/Tests/Versions.antt =====
-- lib/versioner/staggered.go at five versions.
use syncthing_mem.Base.{ℕ, ◌≡◌, refl, Option, none, some, List, [], ◌∷◌, Text}
use syncthing_mem.Versioner.{used_interval, too_old, too_close, fate_at, remove_from, to_remove}
use syncthing_mem.Versioner.Thinning.{Thinned, to_remove-Thinned}

abbrev first_number : Text → Option ℕ
first_number [] = none
first_number (t ∷ rest) = some t

abbrev names : List Text
names = (1 ∷ []) ∷ [] ∷ (1000 ∷ []) ∷ (4000 ∷ []) ∷ (4010 ∷ []) ∷ (4040 ∷ []) ∷ []

-- An hour later the second version of the first hour is too close to the first.
versions_runs :
    to_remove first_number 31536000 5000 (λ xs. xs) names ≡ (1000 ∷ []) ∷ (4010 ∷ []) ∷ []
unfolding used_interval too_old too_close fate_at remove_from to_remove
versions_runs = refl

to_remove-Thinned_example :
    Thinned first_number 31536000 5000 none names
      (to_remove first_number 31536000 5000 (λ xs. xs) names)
to_remove-Thinned_example = to_remove-Thinned first_number 31536000 5000 (λ xs. xs) names
