-- ===== src/Base/Maps.antt =====
-- Maps with strings for keys, as lists of entries.
use mathlib.Core.Path.{◌≡◌, refl}
use mathlib.Core.Bool.{true, false}
use mathlib.Core.Logic.{inl, inr}
use mathlib.Core.Option.{Option, none, some}
use mathlib.Core.List.{List, [], ◌∷◌}
use syncthing_mem.Base.Tests.{if◌then◌else◌, Bool-cases}
use syncthing_mem.Base.Strings.{Text, text_eq, text_eq_refl, text_eq_sound}

-- Equal to a key and so not to another.
apart : (j k l : Text) → text_eq k l ≡ false → text_eq j k ≡ true → text_eq j l ≡ false
apart j k l h e = rw (text_eq_sound j k e) h

module _ {V : Type 0} where
  abbrev pub look : Text → List (Text × V) → Option V
  look k [] = none
  look k ((j, w) ∷ m) = if text_eq j k then some w else look k m

  abbrev pub put : Text → V → List (Text × V) → List (Text × V)
  put k v [] = (k, v) ∷ []
  put k v ((j, w) ∷ m) = let rest = put k v m in if text_eq j k then (k, v) ∷ m else (j, w) ∷ rest

  abbrev pub delete : Text → List (Text × V) → List (Text × V)
  delete k [] = []
  delete k ((j, w) ∷ m) = let rest = delete k m in if text_eq j k then rest else (j, w) ∷ rest

  pub look-put : (k : Text) (v : V) (m : List (Text × V)) → look k (put k v m) ≡ some v
  look-put k v [] = rw (text_eq_refl k)
  look-put k v ((j, w) ∷ m) = elim (Bool-cases (text_eq j k)) [
    | inl same ↦ rw (same, text_eq_refl k)
    | inr other ↦ rw (other, other, look-put k v m)
  ]

  pub look-delete : (k : Text) (m : List (Text × V)) → look k (delete k m) ≡ none
  look-delete k [] = refl
  look-delete k ((j, w) ∷ m) = elim (Bool-cases (text_eq j k)) [
    | inl same ↦ rw (same, look-delete k m)
    | inr other ↦ rw (other, other, look-delete k m)
  ]

  pub look-put_other :
      (k l : Text) (v : V) (m : List (Text × V))
      → text_eq k l ≡ false
      → look l (put k v m) ≡ look l m
  look-put_other k l v [] h = rw h
  look-put_other k l v ((j, w) ∷ m) h = elim (Bool-cases (text_eq j k)) [
    | inl same ↦ rw (same, h, apart j k l h same)
    | inr other ↦ rw (other, look-put_other k l v m h)
  ]

  pub look-delete_other :
      (k l : Text) (m : List (Text × V)) → text_eq k l ≡ false → look l (delete k m) ≡ look l m
  look-delete_other k l [] h = refl
  look-delete_other k l ((j, w) ∷ m) h = elim (Bool-cases (text_eq j k)) [
    | inl same ↦ rw (same, apart j k l h same, look-delete_other k l m h)
    | inr other ↦ rw (other, look-delete_other k l m h)
  ]
