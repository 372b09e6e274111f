-- ===== src/WatchAggregator/Valid.antt =====
-- lib/watchaggregator/aggregator.go: what holds of each tracked directory below the root, and the
-- sizes of the maps.
use mathlib.Core.Path.{subst}
use syncthing_mem.Base.{
  ℕ, suc, ◌≤◌, ◌<◌, ◌≡◌, refl, ap, false, none, some, List, [], ◌∷◌, length, arith, ◌==◌,
  if◌then◌else◌, if_ind, if_both, Text, text_eq, look, put,
}
use syncthing_mem.WatchAggregator.{
  EventType, types_eq, merge_types, mixed, no_type, events_first, events_type, EventDir, event_dir,
  Dirs, no_dirs, sub_dir, dir_count, child_count, look_dir, put_dir, delete_dir, first_mod_time,
  dirs_first, event_type, dirs_type,
}

not_empty : (n : ℕ) → 0 < n → (n == 0) ≡ false
not_empty n h = ground arith

module _ (per_dir : ℕ) where
  unfoldable mutual
    -- What holds of each directory below one.
    pub BelowIsOk : EventDir → Type 0
    BelowIsOk (event_dir es ds) = DirsAreOk ds

    pub DirsAreOk : Dirs → Type 0
    DirsAreOk no_dirs = Unit {0}
    DirsAreOk (sub_dir name d ds) =
        (0 < child_count d) × (child_count d ≤ per_dir) × BelowIsOk d × DirsAreOk ds

  -- A directory below the root: not empty, within its limit, and so is each below it.
  abbrev pub IsOk : ℕ → EventDir → Type 0
  IsOk limit d = (0 < child_count d) × (child_count d ≤ limit) × BelowIsOk d

  mutual
    unfolding first_mod_time dirs_first BelowIsOk DirsAreOk

    -- firstModTime does not panic.
    pub first_mod_time-some :
        (now : ℕ) (d : EventDir)
        → 0 < child_count d
        → BelowIsOk d
        → (t : ℕ) × (first_mod_time now d ≡ some t)
    first_mod_time-some now (event_dir es ds) h k =
        let (t, e) = dirs_first-some now ds now k in (events_first es t, rw (not_empty _ h, e))

    dirs_first-some :
        (now : ℕ) (ds : Dirs) (t : ℕ) → DirsAreOk ds → (s : ℕ) × (dirs_first now ds t ≡ some s)
    dirs_first-some now no_dirs t k = (t, refl)
    dirs_first-some now (sub_dir name d ds) t (h, _, b, k) =
        let (s, e) = first_mod_time-some now d h b in rw e (dirs_first-some now ds _ k)

  mutual
    unfolding event_type dirs_type BelowIsOk DirsAreOk

    -- eventType does not panic.
    pub event_type-some :
        (d : EventDir) → 0 < child_count d → BelowIsOk d → (t : EventType) × (event_type d ≡ some t)
    event_type-some (event_dir es ds) h k =
        let (t, e) = dirs_type-some ds no_type k in
        (if types_eq t mixed then mixed else events_type es t, rw (not_empty _ h, e))

    dirs_type-some :
        (ds : Dirs) (t : EventType) → DirsAreOk ds → (s : EventType) × (dirs_type ds t ≡ some s)
    dirs_type-some no_dirs t k = (t, refl)
    dirs_type-some (sub_dir name d ds) t (h, _, b, k) =
        let (s, e) = event_type-some d h b in
        let (r, q) = dirs_type-some ds (merge_types t s) k in
        rw e (
          if_ind (λ o. (x : EventType) × (o ≡ some x)) (types_eq (merge_types t s) mixed) _ _
            (λ _. (mixed, refl)) (λ _. (r, q)))

  -- The operations on the map of directories.
  pub look_dir-DirsAreOk :
      (name : Text) (ds : Dirs) (d : EventDir)
      → DirsAreOk ds
      → look_dir name ds ≡ some d
      → IsOk per_dir d
  unfolding DirsAreOk
  look_dir-DirsAreOk name no_dirs d k = λ h. cc
  look_dir-DirsAreOk name (sub_dir n e ds) d (p, q, b, k) =
      if_ind (λ o. o ≡ some d → IsOk per_dir d) (text_eq n name) _ _
        (λ _ same. let e≡d : e ≡ d = cc in subst (IsOk per_dir) e≡d (p, q, b))
        (λ _ found. look_dir-DirsAreOk name ds d k found)

  pub put_dir-DirsAreOk :
      (name : Text) (d : EventDir) (ds : Dirs)
      → IsOk per_dir d
      → DirsAreOk ds
      → DirsAreOk (put_dir name d ds)
  unfolding DirsAreOk
  put_dir-DirsAreOk name d no_dirs (p, q, b) k = (p, q, b, tt)
  put_dir-DirsAreOk name d (sub_dir n e ds) (p, q, b) (r, s, b', k) =
      if_ind DirsAreOk (text_eq n name) _ _ (λ _. (p, q, b, k))
        (λ _. (r, s, b', put_dir-DirsAreOk name d ds (p, q, b) k))

  pub delete_dir-DirsAreOk :
      (name : Text) (ds : Dirs) → DirsAreOk ds → DirsAreOk (delete_dir name ds)
  unfolding DirsAreOk
  delete_dir-DirsAreOk name no_dirs k = tt
  delete_dir-DirsAreOk name (sub_dir n e ds) (r, s, b, k) =
      if_ind DirsAreOk (text_eq n name) _ _ (λ _. delete_dir-DirsAreOk name ds k)
        (λ _. (r, s, b, delete_dir-DirsAreOk name ds k))

-- The sizes of the maps.
module _ {V : Type 0} where
  pub length-put_new :
      (k : Text) (v : V) (m : List (Text × V))
      → look k m ≡ none
      → length (put k v m) ≡ suc (length m)
  length-put_new k v [] = λ h. refl
  length-put_new k v ((j, w) ∷ m) =
      if_both (λ o l. o ≡ none → length l ≡ suc (suc (length m))) (text_eq j k) _ _ _ _ (λ _ h. cc)
        (λ _ h. ap suc (length-put_new k v m h))

  pub length-put_old :
      (k : Text) (v w : V) (m : List (Text × V)) → look k m ≡ some w → length (put k v m) ≡ length m
  length-put_old k v w [] = λ h. cc
  length-put_old k v w ((j, u) ∷ m) =
      if_both (λ o l. o ≡ some w → length l ≡ suc (length m)) (text_eq j k) _ _ _ _ (λ _ h. refl)
        (λ _ h. ap suc (length-put_old k v w m h))

pub dir_count-put_new :
    (name : Text) (d : EventDir) (ds : Dirs)
    → look_dir name ds ≡ none
    → dir_count (put_dir name d ds) ≡ suc (dir_count ds)
dir_count-put_new name d no_dirs = λ h. refl
dir_count-put_new name d (sub_dir n e ds) =
    if_both (λ o l. o ≡ none → dir_count l ≡ suc (suc (dir_count ds))) (text_eq n name) _ _ _ _
      (λ _ h. cc) (λ _ h. ap suc (dir_count-put_new name d ds h))

pub dir_count-put_old :
    (name : Text) (d old : EventDir) (ds : Dirs)
    → look_dir name ds ≡ some old
    → dir_count (put_dir name d ds) ≡ dir_count ds
dir_count-put_old name d old no_dirs = λ h. cc
dir_count-put_old name d old (sub_dir n e ds) =
    if_both (λ o l. o ≡ some old → dir_count l ≡ suc (dir_count ds)) (text_eq n name) _ _ _ _
      (λ _ h. refl) (λ _ h. ap suc (dir_count-put_old name d old ds h))

dir_count-delete_le : (name : Text) (ds : Dirs) → dir_count (delete_dir name ds) ≤ dir_count ds
dir_count-delete_le name no_dirs = omega arith
dir_count-delete_le name (sub_dir n e ds) =
    if_ind (λ o. dir_count o ≤ suc (dir_count ds)) (text_eq n name) _ _
      (λ _. omega (arith, dir_count-delete_le name ds))
      (λ _. omega (arith, dir_count-delete_le name ds))

pub dir_count-delete_dir :
    (name : Text) (d : EventDir) (ds : Dirs)
    → look_dir name ds ≡ some d
    → dir_count (delete_dir name ds) < dir_count ds
dir_count-delete_dir name d no_dirs = λ h. cc
dir_count-delete_dir name d (sub_dir n e ds) =
    if_both (λ o l. o ≡ some d → dir_count l < suc (dir_count ds)) (text_eq n name) _ _ _ _
      (λ _ h. omega (arith, dir_count-delete_le name ds))
      (λ _ (h : look_dir name ds ≡ some d). omega (arith, dir_count-delete_dir name d ds h))

pub look-length_pos :
    {V : Type 0} (k : Text) (m : List (Text × V)) {v : V} → look k m ≡ some v → 0 < length m
look-length_pos k [] h = cc
look-length_pos k (e ∷ m) h = omega arith
